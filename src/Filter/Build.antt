-- ===== src/Filter/Build.antt =====
-- `BooleanExpr` of query/expr/filter.go, with `ArrowScalarToParquetValue` of pqarrow/parquet.go.
use frostdb.Base.{
  ℕ, zero, suc, Bool, true, false, Option, none, some, List, [], ◌∷◌, Result, ok, err, ◌>>=◌,
}
use frostdb.Base.Int.{ℤ}
use frostdb.Plan.{Op, Expr, binary, column, literal, Visitor, accept}
use frostdb.Plan.Op.{eq, not_eq, lt, lt_eq, gt, gt_eq, and, or}
use frostdb.Filter.{Filter, always_true, scalar, and_expr, or_expr}

-- The scalars of github.com/apache/arrow/go/v14 that the conversion tells apart; `nil` is Go's.
pub data Scalar : Type 0 where
  string binary_bytes : List ℕ → Scalar
  int64 : ℤ → Scalar
  fixed_size_binary : ℕ → List ℕ → Scalar
  boolean : Bool → Scalar
  null nil other : Scalar

-- `parquet.ValueOf` at the types that it is called at.
pub record ValueOf (V : Type 0) : Type 0 where
  pub of_string : List ℕ → V
  pub of_int64 : ℤ → V
  pub of_bytes : List ℕ → V
  pub of_bool : Bool → V

pub data BuildError : Type 0 where
  left_not_column unsupported_expression unsupported_scalar : BuildError

-- `copy(v[:width], data)` into zeros, for widths within the array. (A greater width panics.)
abbrev pub copied : ℕ → ℕ → List ℕ → List ℕ
copied zero width data' = []
copied (suc n) zero data' = 0 ∷ copied n zero data'
copied (suc n) (suc width) [] = 0 ∷ copied n width []
copied (suc n) (suc width) (b ∷ bs) = b ∷ copied n width bs

unfoldable pub arrow_scalar_to_parquet_value :
    {V : Type 0} → ValueOf V → Scalar → Result BuildError (Option V)
arrow_scalar_to_parquet_value w (string s) = ok (some (w.of_string s))
arrow_scalar_to_parquet_value w (int64 i) = ok (some (w.of_int64 i))
arrow_scalar_to_parquet_value w (fixed_size_binary width bytes) =
    ok (some (w.of_bytes (copied 16 width bytes)))
arrow_scalar_to_parquet_value w (boolean b) = ok (some (w.of_bool b))
arrow_scalar_to_parquet_value w null = ok none
arrow_scalar_to_parquet_value w nil = ok none
arrow_scalar_to_parquet_value w (binary_bytes s) = err unsupported_scalar
arrow_scalar_to_parquet_value w other = err unsupported_scalar

module _ {V : Type 0} where
  abbrev pub comparison :
      Option (List ℕ) → Op → Result BuildError (Option V) → Result BuildError (Filter V)
  comparison none op right = err left_not_column
  comparison (some name) op right = right >>= λ r. ok (scalar name op r)

  abbrev pub both :
      (Filter V → Filter V → Filter V)
      → Result BuildError (Filter V)
      → Result BuildError (Filter V)
      → Result BuildError (Filter V)
  both f left right = left >>= λ l. right >>= λ r. ok (f l r)

module _ {V M : Type 0} (w : ValueOf V) where
  abbrev pub column_visit : Expr Scalar M → Option (List ℕ) → Bool × Option (List ℕ)
  column_visit (column name) t = (false, some name)
  column_visit e t = (true, t)

  abbrev pub literal_visit :
      Expr Scalar M → Result BuildError (Option V) → Bool × Result BuildError (Option V)
  literal_visit (literal s) t = (false, arrow_scalar_to_parquet_value w s)
  literal_visit e t = (true, t)

  -- `PreExprVisitorFunc`
  abbrev pub pre_visitor : {T : Type 0} → (Expr Scalar M → T → Bool × T) → Visitor Scalar M T
  pre_visitor f = record {
    pre_visit = f;
    visit = λ e t. (false, t);
    post_visit = λ e t. (false, t);
  }

  -- The column on the left of a comparison, and the literal on its right.
  abbrev pub left_column : Expr Scalar M → Option (List ℕ)
  left_column e = (accept (pre_visitor column_visit) e none).1

  abbrev pub right_value : Expr Scalar M → Result BuildError (Option V)
  right_value e = (accept (pre_visitor literal_visit) e (ok none)).1

  abbrev pub binary_boolean_expr :
      Expr Scalar M
      → Op
      → Expr Scalar M
      → Result BuildError (Filter V)
      → Result BuildError (Filter V)
      → Result BuildError (Filter V)
  binary_boolean_expr left eq right l r = comparison (left_column left) eq (right_value right)
  binary_boolean_expr left not_eq right l r =
      comparison (left_column left) not_eq (right_value right)
  binary_boolean_expr left lt right l r = comparison (left_column left) lt (right_value right)
  binary_boolean_expr left lt_eq right l r = comparison (left_column left) lt_eq (right_value right)
  binary_boolean_expr left gt right l r = comparison (left_column left) gt (right_value right)
  binary_boolean_expr left gt_eq right l r = comparison (left_column left) gt_eq (right_value right)
  binary_boolean_expr left and right l r = both and_expr l r
  binary_boolean_expr left or right l r = both or_expr l r
  binary_boolean_expr left op right l r = ok always_true

  -- `BooleanExpr` of an expression that is not nil.
  unfoldable pub boolean_filter : Expr Scalar M → Result BuildError (Filter V)
  boolean_filter (binary left op right) =
      binary_boolean_expr left op right (boolean_filter left) (boolean_filter right)
  boolean_filter e = err unsupported_expression

  unfoldable pub boolean_expr : Option (Expr Scalar M) → Result BuildError (Filter V)
  unfolding boolean_filter
  boolean_expr none = ok always_true
  boolean_expr (some e) = boolean_filter e
