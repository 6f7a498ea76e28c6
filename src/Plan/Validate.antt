-- ===== src/Plan/Validate.antt =====
-- query/logicalplan/validate.go: the validation of a filter.
use frostdb.Base.{ℕ, Bool, true, false, ◌||◌, Option, none, some, List, if◌then◌else◌}
use frostdb.Plan.{Op, Expr, binary, column, literal, Visitor, accept}
use frostdb.Plan.Op.{and, or}

-- The logical types of parquet columns that the validation tells apart; `nil` is Go's.
pub data LogicalType : Type 0 where
  nil utf8 integer other_type : LogicalType

-- Its type switch over scalars.
pub record Kinds (S : Type 0) : Type 0 where
  pub is_boolean : S → Bool
  pub is_float64 : S → Bool
  pub is_int64 : S → Bool
  pub is_string : S → Bool

pub data Message : Type 0 where
  nil_type_compared string_compared_with_number number_compared_with_string : Message

-- `ExprValidationError`
pub data ExprValidationError (S M : Type 0) : Type 0 where
  left_not_column : Expr S M → ExprValidationError S M
  incompatible : Message → Expr S M → ExprValidationError S M
  left_child right_child : Expr S M → ExprValidationError S M → ExprValidationError S M
  both_children :
      Expr S M → ExprValidationError S M → ExprValidationError S M → ExprValidationError S M

-- `ColumnByName` of the input schema, if there is one, with the type of the column.
abbrev pub Schema : Type 0
Schema = Option (List ℕ → Option LogicalType)

module _ {S M : Type 0} where
  -- `findExpressionForTypeVisitor` for columns, and for literals.
  abbrev pub column_finder : Visitor S M (Option (List ℕ))
  column_finder = record {
    pre_visit = λ e t. (true, t);
    visit = λ e t. (true, t);
    post_visit = column_post_visit;
  }
    where
      column_post_visit : Expr S M → Option (List ℕ) → Bool × Option (List ℕ)
      column_post_visit (column name) t = (false, some name)
      column_post_visit e t = (true, t)

  abbrev pub literal_finder : Visitor S M (Option S)
  literal_finder = record {
    pre_visit = λ e t. (true, t);
    visit = λ e t. (true, t);
    post_visit = literal_post_visit;
  }
    where
      literal_post_visit : Expr S M → Option S → Bool × Option S
      literal_post_visit (literal s) t = (false, some s)
      literal_post_visit e t = (true, t)

  unfoldable pub left_column : Expr S M → Option (List ℕ)
  unfolding accept
  left_column e = (accept column_finder e none).1

  unfoldable pub right_literal : Expr S M → Option S
  unfolding accept
  right_literal e = (accept literal_finder e none).1

  -- `ValidateFilterAndBinaryExpr`, with what it finds on its sides.
  abbrev pub children :
      Expr S M
      → Option (ExprValidationError S M)
      → Option (ExprValidationError S M)
      → Option (ExprValidationError S M)
  children e none none = none
  children e (some l) none = some (left_child e l)
  children e none (some r) = some (right_child e r)
  children e (some l) (some r) = some (both_children e l r)

unfoldable pub validate_comparing_types : {S : Type 0} → Kinds S → LogicalType → S → Option Message
validate_comparing_types kinds nil s = if kinds.is_boolean s then none else some nil_type_compared
validate_comparing_types kinds utf8 s =
    if kinds.is_float64 s || kinds.is_int64 s then some string_compared_with_number else none
validate_comparing_types kinds integer s =
    if kinds.is_string s then some number_compared_with_string else none
validate_comparing_types kinds other_type s = none

abbrev pub column_type : Schema → List ℕ → Option LogicalType
column_type none name = none
column_type (some by_name) name = by_name name

module _ {S M : Type 0} (kinds : Kinds S) where
  abbrev pub comparing_error : Expr S M → Option Message → Option (ExprValidationError S M)
  comparing_error e none = none
  comparing_error e (some m) = some (incompatible m e)

  abbrev pub compare_types :
      Expr S M → Option LogicalType → Option S → Option (ExprValidationError S M)
  compare_types e none s = none
  compare_types e (some t) none = none
  compare_types e (some t) (some s) = comparing_error e (validate_comparing_types kinds t s)

  abbrev pub compare_column :
      Schema → Expr S M → Option (List ℕ) → Option S → Option (ExprValidationError S M)
  compare_column schema e none s = some (left_not_column e)
  compare_column schema e (some name) s = compare_types e (column_type schema name) s

  -- `ValidateFilterBinaryExpr` on a comparison.
  unfoldable pub validate_comparison :
      Schema → Expr S M → Op → Expr S M → Option (ExprValidationError S M)
  unfolding validate_comparing_types left_column right_literal
  validate_comparison schema left op right =
      compare_column schema (binary left op right) (left_column left) (right_literal right)

  -- `ValidateFilterExpr`
  unfoldable pub validate_filter_expr : Schema → Expr S M → Option (ExprValidationError S M)
  unfolding validate_comparison
  validate_filter_expr schema (binary left and right) =
      children (binary left and right) (validate_filter_expr schema left)
        (validate_filter_expr schema right)
  validate_filter_expr schema (binary left or right) =
      children (binary left or right) (validate_filter_expr schema left)
        (validate_filter_expr schema right)
  validate_filter_expr schema (binary left op right) = validate_comparison schema left op right
  validate_filter_expr schema e = none
