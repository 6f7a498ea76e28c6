-- ===== src/Physical/Evaluate.antt =====
-- query/physicalplan/filter.go and regexpfilter.go: expressions built and evaluated, and the rows that a
-- PredicateFilter hands on.
use frostdb.Base.{
  ℕ, zero, suc, ◌+◌, Bool, true, false, not, Option, none, some, List, [], ◌∷◌, ◌++◌, ◌-◌, Result,
  ok, err, ◌>>=◌, ◌==◌, if◌then◌else◌,
}
use frostdb.Filter.Build.{Scalar, string, nil}
use frostdb.Plan.{Op, Expr, binary, column, literal, Visitor, accept}
use frostdb.Plan.Op.{unknown, regex_match, regex_not_match, and, or}
use frostdb.Physical.Bitmaps.{Bitmaps}
use frostdb.Physical.Predicates.{
  of_binary, Array, boolean_array, fixed_size_binary_array, string_array, binary_array, int64_array,
  dictionary_array, list_array, other_array, Record, Failure, unsupported_type,
  unsupported_boolean_expression, left_not_column, bad_pattern, panic, u32, if_value, select_from,
  select, binary_scalar_operation, missing_operation, no_rows, arrow_array, BooleanExpression,
  binary_scalar_expr, regexp_filter, and_expr, or_expr,
}

-- `regexp.Compile`, without a result where it fails, and `MatchString`.
pub record Patterns (M : Type 0) : Type 0 where
  pub compile : List ℕ → Option M
  pub matches : M → List ℕ → Bool

abbrev pub inverted : Bool → Bool → Bool
inverted true b = not b
inverted false b = b

module _ {B M : Type 0} (bits : Bitmaps B) (patterns : Patterns M) where
  -- `ArrayScalarRegexMatch` and `ArrayScalarRegexNotMatch`
  unfoldable pub regexp_operation : Bool → Array → M → Result Failure B
  unfolding select_from
  regexp_operation not_match (binary_array xs) m =
      select bits (if_value (λ v. inverted not_match (patterns.matches m v))) xs
  regexp_operation not_match (string_array xs) m =
      select bits (if_value (λ v. inverted not_match (patterns.matches m v))) xs
  regexp_operation not_match (dictionary_array of_binary xs) m =
      select bits (if_value (λ v. inverted not_match (patterns.matches m v))) xs
  regexp_operation not_match a m = err unsupported_type

  -- The loop over the rows of a record that lacks the column, from row `i` on.
  unfoldable pub add_rows : ℕ → ℕ → B → B
  add_rows zero i b = b
  add_rows (suc n) i b = add_rows n (suc i) (bits.add i b)

  abbrev pub missing_regexp : Bool → M → ℕ → Result Failure B
  missing_regexp not_match m n =
      if inverted not_match (patterns.matches m [])
      then ok (add_rows (u32 n) 0 bits.new_bitmap)
      else no_rows bits

  unfoldable pub eval_scalar : Option Array → Op → Scalar → ℕ → Result Failure B
  unfolding missing_operation binary_scalar_operation
  eval_scalar none op right n = missing_operation bits right op n
  eval_scalar (some a) op right n = binary_scalar_operation bits a right op

  unfoldable pub eval_regexp : Option Array → Bool → M → ℕ → Result Failure B
  unfolding regexp_operation add_rows
  eval_regexp none not_match m n = missing_regexp not_match m n
  eval_regexp (some a) not_match m n = regexp_operation not_match a m

  -- `Eval` of the expressions.
  unfoldable pub eval_rows : BooleanExpression M → Record → Result Failure B
  unfolding eval_scalar eval_regexp arrow_array
  eval_rows (binary_scalar_expr name op right) r =
      eval_scalar (arrow_array name r) op right r.num_rows
  eval_rows (regexp_filter name not_match m) r =
      eval_regexp (arrow_array name r) not_match m r.num_rows
  eval_rows (and_expr left right) r =
      let rs = eval_rows right r in eval_rows left r >>= λ l. rs >>= λ r. ok (bits.and_with l r)
  eval_rows (or_expr left right) r =
      let rs = eval_rows right r in eval_rows left r >>= λ l. rs >>= λ r. ok (bits.or_with l r)

module _ {M : Type 0} (patterns : Patterns M) where
  -- `PreExprVisitorFunc`
  abbrev pub pre_visitor : {T : Type 0} → (Expr Scalar M → T → Bool × T) → Visitor Scalar M T
  pre_visitor f = record {
    pre_visit = f;
    visit = λ e t. (false, t);
    post_visit = λ e t. (false, t);
  }

  abbrev pub find_column : Expr Scalar M → Option (List ℕ) → Bool × Option (List ℕ)
  find_column (column name) t = (false, some name)
  find_column e t = (true, t)

  abbrev pub find_literal : Expr Scalar M → Scalar → Bool × Scalar
  find_literal (literal s) t = (false, s)
  find_literal e t = (true, t)

  -- `leftColumnRef` and `rightScalar`
  unfoldable pub left_column_ref : Expr Scalar M → Option (List ℕ)
  unfolding accept
  left_column_ref e = (accept (pre_visitor find_column) e none).1

  unfoldable pub right_scalar : Expr Scalar M → Scalar
  unfolding accept
  right_scalar e = (accept (pre_visitor find_literal) e nil).1

  abbrev pub compiled : List ℕ → Bool → Option M → Result Failure (BooleanExpression M)
  compiled name not_match none = err bad_pattern
  compiled name not_match (some m) = ok (regexp_filter name not_match m)

  abbrev pub regexp_of : List ℕ → Bool → Scalar → Result Failure (BooleanExpression M)
  regexp_of name not_match (string s) = compiled name not_match (patterns.compile s)
  regexp_of name not_match right = err panic

  abbrev pub comparison : Option (List ℕ) → Op → Scalar → Result Failure (BooleanExpression M)
  comparison none op right = err left_not_column
  comparison (some name) regex_match right = regexp_of name false right
  comparison (some name) regex_not_match right = regexp_of name true right
  comparison (some name) op right = ok (binary_scalar_expr name op right)

  abbrev pub both :
      (BooleanExpression M → BooleanExpression M → BooleanExpression M)
      → Result Failure (BooleanExpression M)
      → Result Failure (BooleanExpression M)
      → Result Failure (BooleanExpression M)
  both f left right = left >>= λ l. right >>= λ r. ok (f l r)

  -- `booleanExpr` with `binaryBooleanExpr`
  unfoldable pub build_expression : Expr Scalar M → Result Failure (BooleanExpression M)
  unfolding left_column_ref right_scalar
  build_expression (binary left and right) =
      both and_expr (build_expression left) (build_expression right)
  build_expression (binary left or right) =
      both or_expr (build_expression left) (build_expression right)
  build_expression (binary left unknown right) = err panic
  build_expression (binary left op right) =
      comparison (left_column_ref left) op (right_scalar right)
  build_expression e = err unsupported_boolean_expression

pub record IndexRange : Type 0 where
  pub start : ℕ
  pub end : ℕ

-- The loop of `buildIndexRanges` behind the first index.
unfoldable pub ranges_from : IndexRange → List ℕ → List IndexRange
ranges_from cur [] = cur ∷ []
ranges_from cur (i ∷ is) =
    let longer = ranges_from (record cur { end = u32 (cur.end + 1) }) is in
    let next = ranges_from (record { start = i; end = u32 (i + 1) }) is in
    if i == cur.end then longer else cur ∷ next

-- `buildIndexRanges`, which is called with an index at least.
unfoldable pub build_index_ranges : List ℕ → List IndexRange
unfolding ranges_from
build_index_ranges [] = []
build_index_ranges (i ∷ is) = ranges_from (record { start = i; end = u32 (i + 1) }) is

module _ {A : Type 0} where
  -- `NewSlice(start, end)` of an array or a record.
  abbrev pub slice : ℕ → ℕ → List A → List A
  slice start zero xs = []
  slice start (suc end) [] = []
  slice zero (suc end) (x ∷ xs) = x ∷ slice zero end xs
  slice (suc start) (suc end) (x ∷ xs) = slice start end xs

  -- `array.Concatenate` of the slices.
  unfoldable pub concatenate : List IndexRange → List A → List A
  concatenate [] xs = []
  concatenate (r ∷ rs) xs = slice r.start r.end xs ++ concatenate rs xs

abbrev pub concatenate_array : List IndexRange → Array → Array
concatenate_array rs (boolean_array xs) = boolean_array (concatenate rs xs)
concatenate_array rs (fixed_size_binary_array xs) = fixed_size_binary_array (concatenate rs xs)
concatenate_array rs (string_array xs) = string_array (concatenate rs xs)
concatenate_array rs (binary_array xs) = binary_array (concatenate rs xs)
concatenate_array rs (int64_array xs) = int64_array (concatenate rs xs)
concatenate_array rs (dictionary_array d xs) = dictionary_array d (concatenate rs xs)
concatenate_array rs (list_array xs) = list_array (concatenate rs xs)
concatenate_array rs (other_array xs) = other_array (concatenate rs xs)

abbrev pub total_rows : List IndexRange → ℕ
total_rows [] = 0
total_rows (r ∷ rs) = (r.end - r.start) + total_rows rs

abbrev pub each_column : List IndexRange → List (List ℕ × Array) → List (List ℕ × Array)
each_column rs [] = []
each_column rs ((n, a) ∷ cols) = (n, concatenate_array rs a) ∷ each_column rs cols

abbrev pub take_rows : List ℕ → Record → Option Record
take_rows [] r = none
take_rows (i ∷ is) r =
    let rs = build_index_ranges (i ∷ is) in
    some (record { columns = each_column rs r.columns; num_rows = total_rows rs })

module _ {B M : Type 0} (bits : Bitmaps B) (patterns : Patterns M) where
  -- `filter`: the rows that are left, none if there are no rows left.
  unfoldable pub filter_record : BooleanExpression M → Record → Result Failure (Option Record)
  unfolding eval_rows build_index_ranges concatenate
  filter_record e r = eval_rows bits patterns e r >>= λ b. ok (take_rows (bits.to_array b) r)
