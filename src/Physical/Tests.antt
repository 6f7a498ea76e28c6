-- ===== src/Physical/Tests.antt =====
-- Filters on concrete records.
use frostdb.Base.{ℕ, true, false, Option, none, some, List, [], ◌∷◌, ok, err, ◌≡◌, refl, arith}
use frostdb.Base.Int.{pos}
use frostdb.Filter.{name_eq}
use frostdb.Filter.Build.{Scalar, string, int64, boolean}
use frostdb.Plan.{Expr, binary, column, literal, accept}
use frostdb.Plan.Op.{eq, not_eq, gt, and, regex_match}
use frostdb.Physical.Predicates.{
  string_array, fixed_size_binary_array, boolean_array, int64_array, Record,
  unsupported_binary_operation, left_not_column, BooleanExpression, binary_scalar_expr,
  regexp_filter, and_expr, or_expr, arrow_array, missing_operation, binary_scalar_operation,
}
use frostdb.Physical.Evaluate.{
  Patterns, filter_record, build_expression, build_index_ranges, concatenate,
}
use frostdb.Physical.Kept.{expression_says}
use frostdb.Physical.Left.{IsLeft}
use frostdb.Physical.Supported.{filter_record-IsLeft}
use frostdb.Physical.Listed.{listed}

abbrev a : List ℕ
a = 97 ∷ []

abbrev b : List ℕ
b = 98 ∷ []

abbrev c : List ℕ
c = 99 ∷ []

-- Patterns that match what they are.
abbrev exact : Patterns (List ℕ)
exact = record { compile = λ s. some s; matches = λ m s. name_eq m s }

abbrev rows : Record
rows = record {
  columns =
      (a, int64_array (some (pos 1) ∷ some (pos 5) ∷ none ∷ some (pos 7) ∷ []))
      ∷ (b, string_array (some a ∷ none ∷ some c ∷ some c ∷ []))
      ∷ [];
  num_rows = 4;
}

abbrev left : Record
left = record {
  columns =
      (a, int64_array (some (pos 5) ∷ some (pos 7) ∷ []))
      ∷ (b, string_array (none ∷ some c ∷ []))
      ∷ [];
  num_rows = 2;
}

-- a > 1 and (b != "a" or c =~ "c"); there is no column c.
abbrev filter : BooleanExpression (List ℕ)
filter =
    and_expr (binary_scalar_expr a gt (int64 (pos 1)))
      (or_expr (binary_scalar_expr b not_eq (string a)) (regexp_filter c false c))

filtered : filter_record listed exact filter rows ≡ ok (some left)
unfolding filter_record arrow_array build_index_ranges concatenate
filtered = refl

filter_record-IsLeft_example :
    (o : Option Record) × (filter_record listed exact filter rows ≡ ok o)
    × IsLeft (expression_says exact filter rows) rows o
unfolding arrow_array
filter_record-IsLeft_example =
    filter_record-IsLeft listed exact filter rows ((refl, (refl, tt)), omega arith) refl

-- A column that there is not equals every number.
missing_equals :
    filter_record listed exact (binary_scalar_expr c eq (int64 (pos 5))) rows ≡ ok (some rows)
unfolding filter_record arrow_array missing_operation build_index_ranges concatenate
missing_equals = refl

-- An array of the Booleans true and null, and one of binary values of one byte.
abbrev others : Record
others = record {
  columns =
      (a, boolean_array (some true ∷ none ∷ []))
      ∷ (b, fixed_size_binary_array (some a ∷ none ∷ []))
      ∷ [];
  num_rows = 2;
}

-- A null differs from a number, but not from a Boolean.
null_number : expression_says exact (binary_scalar_expr a not_eq (int64 (pos 1))) rows 2 ≡ true
unfolding arrow_array
null_number = refl

null_boolean :
    filter_record listed exact (binary_scalar_expr a not_eq (boolean true)) others ≡ ok none
unfolding filter_record arrow_array
null_boolean = refl

unsupported :
    filter_record listed exact (binary_scalar_expr b eq (string a)) others
    ≡ err unsupported_binary_operation
unfolding filter_record arrow_array binary_scalar_operation
unsupported = refl

-- `a = "a" and b =~ "b"`, and a literal on the left.
abbrev built : Expr Scalar (List ℕ)
built =
    binary (binary (column a) eq (literal (string a))) and
      (binary (column b) regex_match (literal (string b)))

build_both :
    build_expression exact built
    ≡ ok (and_expr (binary_scalar_expr a eq (string a)) (regexp_filter b false b))
unfolding build_expression accept
build_both = refl

build_literal :
    build_expression exact (binary (literal (string a)) eq (column a)) ≡ err left_not_column
unfolding build_expression accept
build_literal = refl
