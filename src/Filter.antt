-- ===== src/Filter.antt =====
-- query/expr/filter.go and query/expr/binaryscalarexpr.go: which row groups a query has to read.
-- `V` are the values of github.com/parquet-go/parquet-go that are not null, `E` an error.
mod Bounds
mod Rows
pub mod Build
pub mod Meaning
pub mod NullPages
pub mod Sound
pub mod Tests
use frostdb.Base.{
  ℕ, ◌+◌, Bool, true, false, not, ◌&&◌, ◌||◌, Option, none, some, List, [], ◌∷◌, Result, ok, err,
  ◌>>=◌, ltb, ◌==◌, ◌≡◌, refl, arith, if◌then◌else◌,
}
use frostdb.Plan.{Op}
use frostdb.Plan.Op.{eq, not_eq, lt, lt_eq, gt, gt_eq}

-- What the code uses of parquet values. `compare(a, b) <= 0` is `leq a b`. A null that is compared
-- counts as `zero`, the number or the empty bytes in the memory of a null value.
pub record Values (V : Type 0) : Type 0 where
  pub leq : V → V → Bool
  pub zero : V
  pub is_bytes : V → Bool
  pub is_empty : V → Bool
  pub leq_trans : (a b c : V) → leq a b ≡ true → leq b c ≡ true → leq a c ≡ true
  pub leq_total : (a b : V) → leq a b ≡ false → leq b a ≡ true

-- A page of a column index.
pub record Page (V : Type 0) : Type 0 where
  pub min_value : Option V
  pub max_value : Option V
  pub null_count : ℕ

-- A column chunk: its index, or the error of reading it, its bloom filter, if there is one, and the
-- number of its values.
pub record Chunk (V E : Type 0) : Type 0 where
  pub column_index : Result E (List (Page V))
  pub num_values : ℕ
  pub bloom_filter : Option (V → Result E Bool)

abbrev pub is_null {ℓ} : {A : Type ℓ} → Option A → Bool
is_null none = true
is_null (some a) = false

module _ {V : Type 0} (o : Values V) where
  abbrev pub read : Option V → V
  read none = o.zero
  read (some v) = v

  -- The loop of `Min` over the pages behind the first.
  unfoldable pub min_from : Option V → List (Page V) → Option V
  min_from m [] = m
  min_from none (p ∷ ps) = min_from p.min_value ps
  min_from (some m) (p ∷ ps) =
      min_from (if o.leq m (read p.min_value) then some m else p.min_value) ps

  -- `Min`. (Without a page the source panics; the callers have found a value by then.)
  unfoldable pub min_of : List (Page V) → Option V
  unfolding min_from
  min_of [] = none
  min_of (p ∷ ps) = min_from p.min_value ps

  unfoldable pub max_from : Option V → List (Page V) → Option V
  max_from m [] = m
  max_from none (p ∷ ps) = max_from p.max_value ps
  max_from (some m) (p ∷ ps) =
      max_from (if o.leq (read p.max_value) m then some m else p.max_value) ps

  unfoldable pub max_of : List (Page V) → Option V
  unfolding max_from
  max_of [] = none
  max_of (p ∷ ps) = max_from p.max_value ps

-- `NullCount`
unfoldable pub null_count : {V : Type 0} → List (Page V) → ℕ
null_count [] = 0
null_count (p ∷ ps) = p.null_count + null_count ps

module _ {V E : Type 0} (o : Values V) where
  -- `OpEq` against a value, in a chunk with a value that is not null.
  unfoldable pub eq_operation : List (Page V) → Option (V → Result E Bool) → V → Result E Bool
  unfolding min_of max_of
  eq_operation pages none right =
      ok (o.leq right (read o (max_of o pages)) && o.leq (read o (min_of o pages)) right)
  eq_operation pages (some check) right = check right

  abbrev pub test_min : Option V → (V → Bool) → Result E Bool
  test_min none test = ok true
  test_min (some m) test = ok (test m)

  -- The switch over the other operators.
  unfoldable pub order_operation : List (Page V) → V → Op → Result E Bool
  unfolding min_of max_of
  order_operation pages right lt_eq = test_min (min_of o pages) (λ m. o.leq m right)
  order_operation pages right lt = test_min (min_of o pages) (λ m. not (o.leq right m))
  order_operation pages right gt = test_min (max_of o pages) (λ m. not (o.leq m right))
  order_operation pages right gt_eq = test_min (max_of o pages) (λ m. o.leq right m)
  order_operation pages right op = ok true

  -- `BinaryScalarOperation` on the pages of the index.
  unfoldable pub pages_operation :
      List (Page V) → ℕ → Option (V → Result E Bool) → Option V → Op → Result E Bool
  unfolding eq_operation order_operation null_count
  pages_operation pages num_values bloom none eq = ok (ltb 0 (null_count pages))
  pages_operation pages num_values bloom (some right) eq =
      if null_count pages == num_values then ok false else eq_operation pages bloom right
  pages_operation pages num_values bloom none op = ok true
  pages_operation pages num_values bloom (some right) op =
      if null_count pages == num_values then ok false else order_operation pages right op

  unfoldable pub binary_scalar_operation : Chunk V E → Option V → Op → Result E Bool
  unfolding pages_operation
  binary_scalar_operation left right operator = left.column_index >>= λ pages.
      pages_operation pages left.num_values left.bloom_filter right operator

  -- `BinaryScalarExpr.Eval` where the row group has no such column.
  unfoldable pub missing_column : Option V → Op → Result E Bool
  missing_column none eq = ok true
  missing_column none op = ok false
  missing_column (some right) eq = ok (o.is_bytes right && o.is_empty right)
  missing_column (some right) not_eq = ok (o.is_bytes right && not (o.is_empty right))
  missing_column (some right) op = ok false

-- A filter on row groups, `TrueNegativeFilter`; a column is named by its code points.
pub data Filter (V : Type 0) : Type 0 where
  always_true : Filter V
  scalar : List ℕ → Op → Option V → Filter V
  and_expr or_expr : Filter V → Filter V → Filter V

abbrev pub name_eq : List ℕ → List ℕ → Bool
name_eq [] [] = true
name_eq [] (b ∷ bs) = false
name_eq (a ∷ as') [] = false
name_eq (a ∷ as') (b ∷ bs) = a == b && name_eq as' bs

pub name_eq-eq : (a b : List ℕ) → name_eq a b ≡ true → a ≡ b
name_eq-eq [] [] h = refl
name_eq-eq [] (y ∷ b) h = absurd (cc)
name_eq-eq (x ∷ a) [] h = absurd (cc)
name_eq-eq (x ∷ a) (y ∷ b) h = ground (arith, name_eq-eq a b)

-- A row group, `Particulate`: its columns in the order of the schema.
abbrev pub RowGroup : Type 0 → Type 0 → Type 0
RowGroup V E = List (List ℕ × Chunk V E)

-- `ColumnRef.Column` with `findColumnIndex`.
unfoldable pub find_column : {V E : Type 0} → List ℕ → RowGroup V E → Option (Chunk V E)
find_column name [] = none
find_column name ((n, c) ∷ fields) = if name_eq n name then some c else find_column name fields

module _ {V E : Type 0} (o : Values V) where
  unfoldable pub scalar_eval : Option (Chunk V E) → Op → Option V → Result E Bool
  unfolding binary_scalar_operation missing_column
  scalar_eval none op right = missing_column o right op
  scalar_eval (some chunk) op right = binary_scalar_operation o chunk right op

  -- `Eval` of the filters.
  unfoldable pub eval : Filter V → RowGroup V E → Result E Bool
  unfolding scalar_eval find_column
  eval always_true p = ok true
  eval (scalar name op right) p = scalar_eval (find_column name p) op right
  eval (and_expr left right) p =
      let r = eval right p in eval left p >>= λ l. if l then r else ok false
  eval (or_expr left right) p =
      let r = eval right p in eval left p >>= λ l. if l then ok true else r
