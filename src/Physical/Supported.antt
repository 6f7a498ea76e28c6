-- ===== src/Physical/Supported.antt =====
-- The comparisons that query/physicalplan evaluates without an error.
use frostdb.Base.{
  ℕ, Bool, true, false, ◌&&◌, Option, none, some, List, [], Result, ok, ◌>>=◌, ◌≡◌, refl, ap,
  if◌then◌else◌,
}
use frostdb.Base.Int.{ℤ}
use frostdb.Filter.Build.{Scalar, string, binary_bytes, int64, boolean, null, nil}
use frostdb.Plan.{Op}
use frostdb.Plan.Op.{eq, not_eq, lt, lt_eq, gt, gt_eq}
use frostdb.Physical.Bitmaps.{Bitmaps}
use frostdb.Physical.Predicates.{
  Dictionary, of_binary, Array, boolean_array, string_array, binary_array, int64_array,
  dictionary_array, Record, Failure, is_empty_bytes, boolean_operation, bytes_operation,
  int64_operation, dictionary_equal, dictionary_not_equal, dictionary_operation,
  binary_scalar_operation, missing_equal, missing_not_equal, missing_operation, arrow_array,
  BooleanExpression, binary_scalar_expr, regexp_filter, and_expr, or_expr,
}
use frostdb.Physical.Evaluate.{
  Patterns, inverted, regexp_operation, eval_scalar, eval_regexp, eval_rows, take_rows,
  filter_record,
}
use frostdb.Physical.Kept.{expression_says, IsRecord}
use frostdb.Physical.Left.{IsLeft, result-IsLeft}

abbrev pub is_equality : Op → Bool
is_equality eq = true
is_equality not_eq = true
is_equality op = false

abbrev pub is_order : Op → Bool
is_order lt = true
is_order lt_eq = true
is_order gt = true
is_order gt_eq = true
is_order op = is_equality op

-- The comparisons of arrays, and of columns that a record lacks.
abbrev pub compares_array : Array → Scalar → Op → Bool
compares_array (boolean_array xs) (boolean r) op = is_equality op
compares_array (string_array xs) (string r) op = is_equality op
compares_array (binary_array xs) (string r) op = is_equality op
compares_array (binary_array xs) (binary_bytes r) op = is_equality op
compares_array (int64_array xs) (int64 r) op = is_order op
compares_array (dictionary_array d xs) right op = is_equality op
compares_array a right op = false

abbrev pub compares : Option Array → Scalar → Op → Bool
compares none nil eq = false
compares none nil not_eq = false
compares none right op = true
compares (some a) right op = compares_array a right op

abbrev pub searches : Option Array → Bool
searches none = true
searches (some (binary_array xs)) = true
searches (some (string_array xs)) = true
searches (some (dictionary_array of_binary xs)) = true
searches (some a) = false

-- The expressions whose comparisons and patterns the columns of a record allow.
abbrev pub evaluates : {M : Type 0} → BooleanExpression M → Record → Bool
evaluates (binary_scalar_expr name op right) r = compares (arrow_array name r) right op
evaluates (regexp_filter name not_match m) r = searches (arrow_array name r)
evaluates (and_expr left right) r = evaluates left r && evaluates right r
evaluates (or_expr left right) r = evaluates left r && evaluates right r

-- There is a result.
abbrev pub HasResult : {A : Type 0} → Result Failure A → Type 0
HasResult {A} x = (a : A) × (x ≡ ok a)

and_both : (a b : Bool) → (a && b) ≡ true → (a ≡ true) × (b ≡ true)
and_both true b h = (refl, h)
and_both false b h = absurd (cc)

module _ {B M : Type 0} (bits : Bitmaps B) (patterns : Patterns M) where
  boolean-result :
      (xs : List (Option Bool)) (r : Bool) (op : Op)
      → is_equality op ≡ true
      → HasResult (boolean_operation bits xs (boolean r) op)
  unfolding boolean_operation
  boolean-result xs r eq h = (_, refl)
  boolean-result xs r not_eq h = (_, refl)
  boolean-result xs r op h = absurd (cc)

  bytes-result :
      (xs : List (Option (List ℕ))) (r : List ℕ) (op : Op)
      → is_equality op ≡ true
      → HasResult (bytes_operation bits xs r op)
  unfolding bytes_operation
  bytes-result xs r eq h = (_, refl)
  bytes-result xs r not_eq h = (_, refl)
  bytes-result xs r op h = absurd (cc)

  int64-result :
      (xs : List (Option ℤ)) (r : ℤ) (op : Op)
      → is_order op ≡ true
      → HasResult (int64_operation bits xs r op)
  unfolding int64_operation
  int64-result xs r eq h = (_, refl)
  int64-result xs r not_eq h = (_, refl)
  int64-result xs r lt h = (_, refl)
  int64-result xs r lt_eq h = (_, refl)
  int64-result xs r gt h = (_, refl)
  int64-result xs r gt_eq h = (_, refl)
  int64-result xs r op h = absurd (cc)

  dictionary-result :
      (d : Dictionary) (xs : List (Option (List ℕ))) (right : Scalar) (op : Op)
      → is_equality op ≡ true
      → HasResult (dictionary_operation bits d xs right op)
  unfolding dictionary_operation dictionary_equal dictionary_not_equal
  dictionary-result d xs null eq h = (_, refl)
  dictionary-result d xs right eq h = (_, refl)
  dictionary-result d xs null not_eq h = (_, refl)
  dictionary-result d xs right not_eq h = (_, refl)
  dictionary-result d xs right op h = absurd (cc)

  array-result :
      (a : Array) (right : Scalar) (op : Op)
      → compares_array a right op ≡ true
      → HasResult (binary_scalar_operation bits a right op)
  unfolding binary_scalar_operation
  array-result (boolean_array xs) (boolean r) op h = boolean-result xs r op h
  array-result (string_array xs) (string r) op h = bytes-result xs r op h
  array-result (binary_array xs) (string r) op h = bytes-result xs r op h
  array-result (binary_array xs) (binary_bytes r) op h = bytes-result xs r op h
  array-result (int64_array xs) (int64 r) op h = int64-result xs r op h
  array-result (dictionary_array d xs) right op h = dictionary-result d xs right op h
  array-result a right op h = absurd (cc)

  if_result :
      {A : Type 0} (b : Bool) (x y : Result Failure A)
      → HasResult x
      → HasResult y
      → HasResult (if b then x else y)
  if_result true x y h k = h
  if_result false x y h k = k

  missing-result :
      (right : Scalar) (op : Op) (n : ℕ)
      → compares none right op ≡ true
      → HasResult (missing_operation bits right op n)
  unfolding missing_operation missing_equal missing_not_equal
  missing-result nil eq n h = absurd (cc)
  missing-result (string s) eq n h = if_result (is_empty_bytes s) _ _ (_, refl) (_, refl)
  missing-result (binary_bytes s) eq n h = if_result (is_empty_bytes s) _ _ (_, refl) (_, refl)
  missing-result right eq n h = (_, refl)
  missing-result nil not_eq n h = absurd (cc)
  missing-result null not_eq n h = (_, refl)
  missing-result right not_eq n h = (_, refl)
  missing-result right op n h = (_, refl)

  scalar-result :
      (o : Option Array) (right : Scalar) (op : Op) (n : ℕ)
      → compares o right op ≡ true
      → HasResult (eval_scalar bits patterns o op right n)
  unfolding eval_scalar
  scalar-result none right op n h = missing-result right op n h
  scalar-result (some a) right op n h = array-result a right op h

  regexp-result :
      (o : Option Array) (not_match : Bool) (m : M) (n : ℕ)
      → searches o ≡ true
      → HasResult (eval_regexp bits patterns o not_match m n)
  unfolding eval_regexp regexp_operation
  regexp-result none not_match m n h =
      if_result (inverted not_match (patterns.matches m [])) _ _ (_, refl) (_, refl)
  regexp-result (some (binary_array xs)) not_match m n h = (_, refl)
  regexp-result (some (string_array xs)) not_match m n h = (_, refl)
  regexp-result (some (dictionary_array of_binary xs)) not_match m n h = (_, refl)
  regexp-result (some a) not_match m n h = absurd (cc)

  both-result :
      (l r : Result Failure B) (f : B → B → B)
      → HasResult l
      → HasResult r
      → HasResult (l >>= λ x. r >>= λ y. ok (f x y))
  both-result l r f (x, p) (y, q) = (f x y, rw (p, q) refl)

  eval_rows-result :
      (e : BooleanExpression M) (r : Record)
      → evaluates e r ≡ true
      → HasResult (eval_rows bits patterns e r)
  unfolding eval_rows
  eval_rows-result (binary_scalar_expr name op right) r h =
      scalar-result (arrow_array name r) right op r.num_rows h
  eval_rows-result (regexp_filter name not_match m) r h =
      regexp-result (arrow_array name r) not_match m r.num_rows h
  eval_rows-result (and_expr left right) r h =
      let (p, q) = and_both (evaluates left r) (evaluates right r) h in
      both-result (eval_rows bits patterns left r) (eval_rows bits patterns right r) bits.and_with
        (eval_rows-result left r p) (eval_rows-result right r q)
  eval_rows-result (or_expr left right) r h =
      let (p, q) = and_both (evaluates left r) (evaluates right r) h in
      both-result (eval_rows bits patterns left r) (eval_rows bits patterns right r) bits.or_with
        (eval_rows-result left r p) (eval_rows-result right r q)

  -- Of a record whose columns are as long as it is and of fewer than 2^32 rows, and whose columns allow
  -- the comparisons and patterns of an expression, a filter hands on without an error the rows of which
  -- the expression says so, in their order, with the columns as they are; there is no record if there
  -- are no such rows.
  pub filter_record-IsLeft :
      (e : BooleanExpression M) (r : Record)
      → IsRecord r
      → evaluates e r ≡ true
      → (o : Option Record) × (filter_record bits patterns e r ≡ ok o)
        × IsLeft (expression_says patterns e r) r o
  unfolding filter_record
  filter_record-IsLeft e r h k =
      let (b, p) = eval_rows-result e r k in
      let q = ap (λ x. x >>= λ b. ok (take_rows (bits.to_array b) r)) p in
      (take_rows (bits.to_array b) r, q, result-IsLeft bits patterns e r _ h q)
