-- ===== src/Filter/Meaning.antt =====
-- The expressions of a query against the row groups that `BooleanExpr` and `Eval` discard.
use mathlib.Core.Path.{subst⁻¹}
use frostdb.Base.{
  ok-injective, ℕ, ◌≡◌, refl, Bool, false, ◌&&◌, ◌||◌, Option, some, List, Result, ok, err, arith,
}
use frostdb.Plan.{Op, Expr, binary, column, literal, accept}
use frostdb.Plan.Op.{unknown, regex_match, regex_not_match, and, or}
use frostdb.Filter.{Values, Filter, scalar, and_expr, or_expr, RowGroup, eval}
use frostdb.Filter.Rows.{cell_matches, row_matches}
use frostdb.Filter.Build.{
  Scalar, ValueOf, BuildError, arrow_scalar_to_parquet_value, boolean_filter, boolean_expr,
  left_column, right_value, comparison, both,
}
use frostdb.Filter.Sound.{IsRow, IsDecided, eval_discards}

module _ {V : Type 0} (o : Values V) where
  -- The comparison of a cell with a literal; `other` is what the query engine finds where the filters
  -- decide nothing.
  abbrev pub compares_to : Result BuildError (Option V) → Op → Option (Option V) → Bool → Bool
  compares_to (err e) op v other = other
  compares_to (ok right) op v other = cell_matches o op v right

module _ {M : Type 0} where
  -- A comparison of a column with a literal.
  abbrev pub IsComparison : Expr Scalar M → Expr Scalar M → Type 0
  IsComparison (column name) (literal s) = Unit
  IsComparison left right = ⊥

  abbrev pub IsPlainOp : Expr Scalar M → Op → Expr Scalar M → Type 0 → Type 0 → Type 0
  IsPlainOp left and right l r = l × r
  IsPlainOp left or right l r = l × r
  IsPlainOp left unknown right l r = Unit
  IsPlainOp left regex_match right l r = Unit
  IsPlainOp left regex_not_match right l r = Unit
  IsPlainOp left op right l r = IsComparison left right

  -- Each comparison under `and` and `or` is one of a column with a literal.
  unfoldable pub IsPlain : Expr Scalar M → Type 0
  IsPlain (binary left op right) = IsPlainOp left op right (IsPlain left) (IsPlain right)
  IsPlain e = Unit

module _ {V M : Type 0} (o : Values V) (w : ValueOf V) where
  abbrev pub comparison_holds :
      Expr Scalar M → Op → Expr Scalar M → (List ℕ → Option (Option V)) → Bool → Bool
  comparison_holds (column name) op (literal s) cell other =
      compares_to o (arrow_scalar_to_parquet_value w s) op (cell name) other
  comparison_holds left op right cell other = other

  abbrev pub op_holds :
      Expr Scalar M → Op → Expr Scalar M → (List ℕ → Option (Option V)) → Bool → Bool → Bool → Bool
  op_holds left and right cell l r other = l && r
  op_holds left or right cell l r other = l || r
  op_holds left unknown right cell l r other = other
  op_holds left regex_match right cell l r other = other
  op_holds left regex_not_match right cell l r other = other
  op_holds left op right cell l r other = comparison_holds left op right cell other

  -- A row satisfies an expression.
  unfoldable pub holds :
      (Expr Scalar M → Bool) → Expr Scalar M → (List ℕ → Option (Option V)) → Bool
  holds other (binary left op right) cell =
      op_holds left op right cell (holds other left cell) (holds other right cell)
        (other (binary left op right))
  holds other e cell = other e

  module _ (other : Expr Scalar M → Bool) (cell : List ℕ → Option (Option V)) where
    comparison_lem :
        (left right : Expr Scalar M) (op : Op) (x : Bool) (f : Filter V)
        → IsComparison left right
        → comparison (left_column w left) op (right_value w right) ≡ ok f
        → row_matches o f cell ≡ false
        → comparison_holds left op right cell x ≡ false
    unfolding accept
    comparison_lem (column name) (literal s) op x f p h e = go (arrow_scalar_to_parquet_value w s) h
      where
        go :
            (r : Result BuildError (Option V))
            → comparison (some name) op r ≡ ok f
            → compares_to o r op (cell name) x ≡ false
        go (err z) k = absurd (ground arith)
        go (ok r) k =
            subst⁻¹ (λ g. row_matches o g cell ≡ false) (ok-injective (scalar name op r) f k) e
    comparison_lem left right op x f p h e = absurd p

    both_lem :
        (g : Filter V → Filter V → Filter V) (l r : Result BuildError (Filter V)) (f : Filter V)
        → both g l r ≡ ok f
        → (a : Filter V) × (b : Filter V) × (l ≡ ok a) × (r ≡ ok b) × (g a b ≡ f)
    both_lem g (ok a) (ok b) f h = (a, b, refl, refl, ok-injective (g a b) f h)
    both_lem g (ok a) (err z) f h = absurd (ground arith)
    both_lem g (err z) r f h = absurd (ground arith)

    -- The filter of an expression lets every row through that satisfies it.
    boolean_filter_lem :
        (e : Expr Scalar M) (f : Filter V)
        → IsPlain e
        → boolean_filter w e ≡ ok f
        → row_matches o f cell ≡ false
        → holds other e cell ≡ false
    unfolding boolean_filter holds IsPlain
    boolean_filter_lem (binary left and right) f p h e =
        let s = both_lem and_expr (boolean_filter w left) (boolean_filter w right) f h in
        ground
          (arith, s.4, boolean_filter_lem left s.0 p.0 s.2, boolean_filter_lem right s.1 p.1 s.3)
    boolean_filter_lem (binary left or right) f p h e =
        let s = both_lem or_expr (boolean_filter w left) (boolean_filter w right) f h in
        ground
          (arith, s.4, boolean_filter_lem left s.0 p.0 s.2, boolean_filter_lem right s.1 p.1 s.3)
    boolean_filter_lem (binary left unknown right) f p h e = absurd (ground arith)
    boolean_filter_lem (binary left regex_match right) f p h e = absurd (ground arith)
    boolean_filter_lem (binary left regex_not_match right) f p h e = absurd (ground arith)
    boolean_filter_lem (binary left op right) f p h e =
        comparison_lem left right op (other (binary left op right)) f p h e
    boolean_filter_lem e f p h k = absurd (cc)

  -- Conditions: every comparison of `e` under `and` and `or` is one of a column with a literal, `f` is
  -- the filter that `BooleanExpr` makes of it, `p` is a row group and `cell` a row of it. The filter has
  -- no `!=` with a literal, and compares a column that `p` lacks only by order, or for equality with
  -- null or a text. If `Eval` discards the row group, the row does not satisfy the expression as the
  -- engine evaluates it, whatever the row does with regular expressions.
  pub boolean_expr_discards :
      {E : Type 0} (other : Expr Scalar M → Bool) (e : Expr Scalar M) (f : Filter V)
      (p : RowGroup V E) (cell : List ℕ → Option (Option V))
      → IsPlain e
      → boolean_expr w (some e) ≡ ok f
      → IsRow o p cell
      → IsDecided o p f
      → eval o f p ≡ ok false
      → holds other e cell ≡ false
  unfolding boolean_expr
  boolean_expr_discards other e f p cell plain built row decided discards =
      boolean_filter_lem other cell e f plain built (eval_discards o f p cell row decided discards)
