-- ===== src/Plan/Tests.antt =====
-- Concrete plans, with a filter on the result of an aggregation, two averages, and nested projections.
use frostdb.Base.{ℕ, ◌≡◌, refl, Bool, true, false, none, some, [], ◌∷◌, ◌↔◌, ◌⊎◌, inl, Elem, All}
use frostdb.Base.{if◌then◌else◌}
use frostdb.Filter.{name_eq}
use frostdb.Base.Int.{pos}
use frostdb.Plan.{
  accept, Expr, sum, count, avg, binary, column, dynamic_column, literal, aggregation, alias,
  average, regexp_column_match, not_expr,
}
use frostdb.Plan.Op.{eq, gt, and, unknown}
use frostdb.Plan.Exprs.{
  Names, name, match_column, clone, and_of, non_nil_exprs, combine, compute_binary_expr,
  columns_used_exprs, op_string, func_string,
}
use frostdb.Plan.Optimize.{
  Scan, LogicalPlan, table_scan, filter_plan, distinct_plan, projection_plan, aggregation_plan,
  physical_projection_push_down, filter_push_down, projection_push_down, projection_columns,
  filter_columns, aggregation_columns, project_map, covers, collect_projections, remove_projection,
  insert_projection, distinct_push_down, distinct_optimize,
}
use frostdb.Plan.Filters.{
  scan_of, filters, meaning_of, all_hold, filter_push_down-meaning, Says, filter_push_down-Says,
}
use frostdb.Plan.Reads.{Reads, IsBare, default_projection, physical_projection_push_down-Elem}
use frostdb.Plan.Average.{
  average_of, average_loop, replace_average, delete, average_aggregation_push_down,
}
use frostdb.Plan.OneAverage.{averaged, average_push_down_one, average_push_down_two}
use frostdb.Plan.Validate.{
  Kinds, Schema, utf8, left_child, incompatible, string_compared_with_number, validate_filter_expr,
  validate_comparison, validate_comparing_types, left_column, right_literal,
}
use frostdb.Plan.Valid.{IsValid, validate_filter_expr-IsValid}
use frostdb.Plan.Pushed.{Outcome, projection_push_down-Outcome}
use frostdb.Filter.{
  RowGroup, scalar, eval, find_column, scalar_eval, binary_scalar_operation, pages_operation,
  eq_operation, min_of, max_of, null_count, missing_column,
}
use frostdb.Filter.Build.{Scalar, int64, boolean_expr, arrow_scalar_to_parquet_value}
use frostdb.Filter.Tests.{numbers, value_of, chunk_5, name_a}

abbrev scan : Scan Scalar ℕ
scan = record {
  table_name = 116 ∷ [];
  physical_projection = [];
  filter = none;
  distinct = [];
  projection = [];
  skip_sources = false;
}

abbrev a : Expr Scalar ℕ
a = column name_a

abbrev b : Expr Scalar ℕ
b = column (98 ∷ [])

abbrev total : Expr Scalar ℕ
total = column (115 ∷ [])

abbrev a_is_4 : Expr Scalar ℕ
a_is_4 = binary a eq (literal (int64 (pos 4)))

abbrev total_above_5 : Expr Scalar ℕ
total_above_5 = binary total gt (literal (int64 (pos 5)))

-- A filter on a sum, above the aggregation, and one below it.
abbrev having : LogicalPlan Scalar ℕ
having = filter_plan total_above_5 (
    aggregation_plan (alias (aggregation sum b) (115 ∷ []) ∷ []) (a ∷ [])
      (filter_plan a_is_4 (table_scan scan)))

abbrev group : RowGroup ℕ ℕ
group = (name_a, chunk_5) ∷ []

abbrev verdict : Expr Scalar ℕ → Bool
verdict (binary l gt r) = false
verdict e = true

physical_projection_push_down-Elem_example :
    Elem b (scan_of (physical_projection_push_down having)).physical_projection
    ↔ (Reads b having ⊎ (IsBare having × (b ≡ default_projection)))
physical_projection_push_down-Elem_example = physical_projection_push_down-Elem b having

filter_push_down-meaning_example :
    meaning_of verdict (scan_of (filter_push_down having)).filter
    ≡ all_hold verdict (filters having)
filter_push_down-meaning_example = filter_push_down-meaning verdict having refl

having-Says : All (λ e. Says value_of numbers group (some e) (verdict e)) (filters having)
unfolding accept arrow_scalar_to_parquet_value boolean_expr eval scalar_eval binary_scalar_operation
    pages_operation eq_operation min_of max_of null_count find_column missing_column
having-Says =
    ((scalar (115 ∷ []) gt (some 5), refl, refl), ((scalar name_a eq (some 4), refl, refl), tt))

-- The row group lacks the sum, so it is discarded.
filter_push_down-Says_example :
    Says value_of numbers group (scan_of (filter_push_down having)).filter false
filter_push_down-Says_example =
    filter_push_down-Says value_of numbers group verdict having refl having-Says

abbrev avg_a : Expr Scalar ℕ
avg_a = alias (aggregation avg a) (120 ∷ [])

abbrev avg_b : Expr Scalar ℕ
avg_b = aggregation avg b

no_average : average_of {S = Scalar} {M = ℕ} (aggregation count b) ≡ none
unfolding average_of
no_average = refl

avg_a_is : average_of avg_a ≡ some (a, average (alias a (120 ∷ [])))
unfolding average_of
avg_a_is = refl

avg_b_is : average_of avg_b ≡ some (b, average b)
unfolding average_of
avg_b_is = refl

average_push_down_one_example :
    average_aggregation_push_down 3 (
      aggregation_plan
        (aggregation count b ∷ avg_a ∷ aggregation count b ∷ [])
        []
        (table_scan scan))
    ≡ some (
        averaged a
          (average (alias a (120 ∷ [])))
          (aggregation count b ∷ aggregation count b ∷ [])
          []
          (table_scan scan))
average_push_down_one_example =
    average_push_down_one 3 (aggregation count b ∷ []) (aggregation count b ∷ []) [] avg_a a
      (average (alias a (120 ∷ []))) (table_scan scan) avg_a_is (no_average, tt) (no_average, tt)

average_push_down_two_example :
    average_aggregation_push_down 4
      (aggregation_plan (avg_a ∷ aggregation count b ∷ avg_b ∷ []) [] (table_scan scan))
    ≡ none
average_push_down_two_example =
    average_push_down_two 4 [] (avg_b ∷ []) [] avg_a a (average (alias a (120 ∷ [])))
      (aggregation count b) (table_scan scan) avg_a_is tt (inl ((b, average b), avg_b_is))

-- Two averages side by side, in an array with room: the second is left.
adjacent_averages :
    average_aggregation_push_down 4 (aggregation_plan (avg_b ∷ avg_b ∷ []) [] (table_scan scan))
    ≡ some (averaged b (average b) (avg_b ∷ []) [] (table_scan scan))
unfolding average_aggregation_push_down average_loop average_of replace_average delete
adjacent_averages = refl

adjacent_averages_full :
    average_aggregation_push_down 2 (aggregation_plan (avg_b ∷ avg_b ∷ []) [] (table_scan scan))
    ≡ none
unfolding average_aggregation_push_down average_loop average_of replace_average delete
adjacent_averages_full = refl

abbrev names : Names Scalar ℕ
names = record { scalar_string = λ s. []; regexp_string = λ m. []; match_string = λ m s. false }

-- The projection on `a` runs last, and is the one that is lost.
abbrev nested : LogicalPlan Scalar ℕ
nested =
    projection_plan (a ∷ []) (projection_plan (a ∷ b ∷ []) (filter_plan a_is_4 (table_scan scan)))

nested_projections :
    projection_push_down names nested
    ≡ some (
        projection_plan
          (a ∷ b ∷ [])
          (filter_plan a_is_4 (projection_plan (a ∷ a ∷ b ∷ []) (table_scan scan))))
unfolding projection_push_down projection_columns filter_columns aggregation_columns project_map
    covers name collect_projections remove_projection insert_projection columns_used_exprs
nested_projections = refl

projection_push_down-Outcome_example :
    (q : LogicalPlan Scalar ℕ) × (projection_push_down names nested ≡ some q)
    × Outcome names nested q
unfolding projection_columns filter_columns aggregation_columns name columns_used_exprs
projection_push_down-Outcome_example =
    projection_push_down-Outcome names nested
      ((name_a, refl), ((name_a, refl), ((98 ∷ [], refl), tt))) ((name_a, refl), tt) tt

distinct_reaches_scan :
    (scan_of (
      distinct_push_down
        (distinct_plan (a ∷ []) (distinct_plan (b ∷ []) (table_scan scan))))).distinct
    ≡ a ∷ b ∷ []
unfolding distinct_push_down distinct_optimize
distinct_reaches_scan = refl

-- The copy of an inverse match is not inverse.
clone_drops_inverse :
    clone {S = Scalar} {M = ℕ} (regexp_column_match true 7) ≡ regexp_column_match false 7
unfolding clone
clone_drops_inverse = refl

names_of_expressions :
    name names (binary a eq (aggregation sum b))
    ≡ some (97 ∷ 32 ∷ 61 ∷ 61 ∷ 32 ∷ 115 ∷ 117 ∷ 109 ∷ 40 ∷ 98 ∷ 41 ∷ [])
unfolding name op_string func_string
names_of_expressions = refl

unknown_panics : name names (binary a unknown b) ≡ none
unfolding name op_string
unknown_panics = refl

dynamic_matches :
    match_column names (not_expr (dynamic_column name_a)) (97 ∷ 46 ∷ 98 ∷ []) ≡ some false
unfolding match_column
dynamic_matches = refl

and_skips_nil : and_of (none ∷ some a ∷ none ∷ some b ∷ []) ≡ some (binary a and b)
unfolding and_of compute_binary_expr non_nil_exprs combine
and_skips_nil = refl

abbrev kinds : Kinds Scalar
kinds = record {
  is_boolean = λ s. false;
  is_float64 = λ s. false;
  is_int64 = is_int64;
  is_string = λ s. false;
}
  where
    is_int64 : Scalar → Bool
    is_int64 (int64 i) = true
    is_int64 s = false

-- Every column is text, but there is no column of the sum.
abbrev text_columns : Schema
text_columns = some (λ c. if name_eq c (115 ∷ []) then none else some utf8)

validate_filter_expr-IsValid_example :
    (validate_filter_expr kinds text_columns (binary a_is_4 and total_above_5) ≡ none)
    ↔ IsValid kinds text_columns (binary a_is_4 and total_above_5)
validate_filter_expr-IsValid_example =
    validate_filter_expr-IsValid kinds text_columns (binary a_is_4 and total_above_5)

-- Validation lets the filter on the sum pass, and finds the other one wrong.
validate_having :
    validate_filter_expr kinds text_columns (binary a_is_4 and total_above_5)
    ≡ some (
        left_child
          (binary a_is_4 and total_above_5)
          (incompatible string_compared_with_number a_is_4))
unfolding validate_filter_expr validate_comparison validate_comparing_types left_column
    right_literal accept
validate_having = refl
