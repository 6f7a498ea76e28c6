-- ===== src/Plan/Optimize.antt =====
-- query/logicalplan/optimize.go on the plans of query/logicalplan/logicalplan.go.
use frostdb.Base.{ℕ, Bool, true, false, ◌||◌, Option, some, List, [], ◌∷◌, ◌++◌, if◌then◌else◌}
use frostdb.Filter.{name_eq}
use frostdb.Plan.{Expr, dynamic_column, not_expr}
use frostdb.Plan.Exprs.{Names, and_then, name, columns_used_exprs, and_of}

-- `TableScan` and `SchemaScan`; the provider of the table is left out.
pub record Scan (S M : Type 0) : Type 0 where
  pub table_name : List ℕ
  pub physical_projection : List (Expr S M)
  pub filter : Option (Expr S M)
  pub distinct : List (Expr S M)
  pub projection : List (Expr S M)
  pub skip_sources : Bool

-- `LogicalPlan`. Validation has seen that one of the fields is set, and only a scan has no input.
pub data LogicalPlan (S M : Type 0) : Type 0 where
  schema_scan table_scan : Scan S M → LogicalPlan S M
  filter_plan : Expr S M → LogicalPlan S M → LogicalPlan S M
  distinct_plan projection_plan : List (Expr S M) → LogicalPlan S M → LogicalPlan S M
  -- The aggregations, then the groups.
  aggregation_plan : List (Expr S M) → List (Expr S M) → LogicalPlan S M → LogicalPlan S M

-- `hashed`
abbrev pub hashed_match : List ℕ
hashed_match = 104 ∷ 97 ∷ 115 ∷ 104 ∷ 101 ∷ 100 ∷ []

module _ {S M : Type 0} where
  abbrev pub all_used : List (Expr S M) → List (Expr S M)
  all_used [] = []
  all_used (e ∷ es) = columns_used_exprs e ++ all_used es

  -- `PhysicalProjectionPushDown.optimize`, with `defaultProjections` as its first argument.
  unfoldable pub physical_optimize :
      List (Expr S M) → LogicalPlan S M → List (Expr S M) → LogicalPlan S M
  physical_optimize defaults (schema_scan s) used =
      schema_scan (record s { physical_projection = defaults ++ used })
  physical_optimize defaults (table_scan s) used =
      table_scan (record s { physical_projection = defaults ++ used })
  physical_optimize defaults (filter_plan e input) used =
      filter_plan e (physical_optimize [] input (used ++ columns_used_exprs e))
  physical_optimize defaults (distinct_plan es input) used =
      distinct_plan es (physical_optimize [] input (used ++ all_used es))
  physical_optimize defaults (projection_plan es input) used =
      projection_plan es (physical_optimize [] input (used ++ all_used es))
  physical_optimize defaults (aggregation_plan aggs groups input) used =
      aggregation_plan aggs groups (
        physical_optimize [] input
          (((used ++ all_used groups) ++ all_used aggs) ++ dynamic_column hashed_match ∷ []))

  -- `Optimize` with the projections of `DefaultOptimizers`.
  unfoldable pub physical_projection_push_down : LogicalPlan S M → LogicalPlan S M
  unfolding physical_optimize
  physical_projection_push_down plan =
      physical_optimize (not_expr (dynamic_column hashed_match) ∷ []) plan []

  abbrev pub set_filter : List (Option (Expr S M)) → Scan S M → Scan S M
  set_filter [] s = s
  set_filter (e ∷ es) s = record s { filter = and_of (e ∷ es) }

  -- `FilterPushDown.optimize`
  unfoldable pub filter_optimize : LogicalPlan S M → List (Option (Expr S M)) → LogicalPlan S M
  unfolding and_of
  filter_optimize (schema_scan s) exprs = schema_scan (set_filter exprs s)
  filter_optimize (table_scan s) exprs = table_scan (set_filter exprs s)
  filter_optimize (filter_plan e input) exprs =
      filter_plan e (filter_optimize input (exprs ++ some e ∷ []))
  filter_optimize (distinct_plan es input) exprs = distinct_plan es (filter_optimize input exprs)
  filter_optimize (projection_plan es input) exprs =
      projection_plan es (filter_optimize input exprs)
  filter_optimize (aggregation_plan aggs groups input) exprs =
      aggregation_plan aggs groups (filter_optimize input exprs)

  unfoldable pub filter_push_down : LogicalPlan S M → LogicalPlan S M
  unfolding filter_optimize
  filter_push_down plan = filter_optimize plan []

  abbrev pub set_distinct : List (Expr S M) → Scan S M → Scan S M
  set_distinct [] s = s
  set_distinct (e ∷ es) s = record s { distinct = e ∷ es }

  -- `DistinctPushDown.optimize`
  unfoldable pub distinct_optimize : LogicalPlan S M → List (Expr S M) → LogicalPlan S M
  distinct_optimize (schema_scan s) columns = schema_scan s
  distinct_optimize (table_scan s) columns = table_scan (set_distinct columns s)
  distinct_optimize (filter_plan e input) columns = filter_plan e (distinct_optimize input columns)
  distinct_optimize (distinct_plan es input) columns =
      distinct_plan es (distinct_optimize input (columns ++ es))
  distinct_optimize (projection_plan es input) columns =
      projection_plan es (distinct_optimize input columns)
  distinct_optimize (aggregation_plan aggs groups input) columns =
      aggregation_plan aggs groups (distinct_optimize input columns)

  unfoldable pub distinct_push_down : LogicalPlan S M → LogicalPlan S M
  unfolding distinct_optimize
  distinct_push_down plan = distinct_optimize plan []

  unfoldable pub projection_columns : LogicalPlan S M → List (Expr S M)
  projection_columns (schema_scan s) = []
  projection_columns (table_scan s) = []
  projection_columns (filter_plan e input) = projection_columns input
  projection_columns (distinct_plan es input) = projection_columns input
  projection_columns (projection_plan es input) = all_used es ++ projection_columns input
  projection_columns (aggregation_plan aggs groups input) = projection_columns input

  unfoldable pub filter_columns : LogicalPlan S M → List (Expr S M)
  filter_columns (schema_scan s) = []
  filter_columns (table_scan s) = []
  filter_columns (filter_plan e input) = columns_used_exprs e ++ filter_columns input
  filter_columns (distinct_plan es input) = filter_columns input
  filter_columns (projection_plan es input) = filter_columns input
  filter_columns (aggregation_plan aggs groups input) = filter_columns input

  unfoldable pub aggregation_columns : LogicalPlan S M → List (Expr S M)
  aggregation_columns (schema_scan s) = []
  aggregation_columns (table_scan s) = []
  aggregation_columns (filter_plan e input) = aggregation_columns input
  aggregation_columns (distinct_plan es input) = aggregation_columns input
  aggregation_columns (projection_plan es input) = aggregation_columns input
  aggregation_columns (aggregation_plan aggs groups input) =
      (all_used groups ++ all_used aggs) ++ aggregation_columns input

  -- `projectionCollector.collect`
  unfoldable pub collect_projections : LogicalPlan S M → List (Expr S M)
  collect_projections (schema_scan s) = []
  collect_projections (table_scan s) = []
  collect_projections (filter_plan e input) = collect_projections input
  collect_projections (distinct_plan es input) = es ++ collect_projections input
  collect_projections (projection_plan es input) = es ++ collect_projections input
  collect_projections (aggregation_plan aggs groups input) = collect_projections input

  unfoldable pub remove_projection : LogicalPlan S M → LogicalPlan S M
  remove_projection (schema_scan s) = schema_scan s
  remove_projection (table_scan s) = table_scan s
  remove_projection (filter_plan e input) = filter_plan e (remove_projection input)
  remove_projection (distinct_plan es input) = distinct_plan es (remove_projection input)
  remove_projection (projection_plan es input) = input
  remove_projection (aggregation_plan aggs groups input) =
      aggregation_plan aggs groups (remove_projection input)

  unfoldable pub insert_projection : LogicalPlan S M → List (Expr S M) → LogicalPlan S M
  insert_projection (schema_scan s) exprs = projection_plan exprs (schema_scan s)
  insert_projection (table_scan s) exprs = projection_plan exprs (table_scan s)
  insert_projection (filter_plan e input) exprs = filter_plan e (insert_projection input exprs)
  insert_projection (distinct_plan es input) exprs =
      distinct_plan es (insert_projection input exprs)
  insert_projection (projection_plan es input) exprs =
      projection_plan es (insert_projection input exprs)
  insert_projection (aggregation_plan aggs groups input) exprs =
      aggregation_plan aggs groups (insert_projection input exprs)

module _ {S M : Type 0} (names : Names S M) where
  -- The keys of `projectMap`; none where a name panics.
  unfoldable pub project_map : List (Expr S M) → Option (List (List ℕ))
  unfolding name
  project_map [] = some []
  project_map (e ∷ es) =
      let rest = project_map es in
      and_then (name names e) (λ n. and_then rest (λ ns. some (n ∷ ns)))

  abbrev pub in_map : List (List ℕ) → List ℕ → Bool
  in_map [] n = false
  in_map (m ∷ ms) n = name_eq m n || in_map ms n

  -- The loops over the columns of filters and of aggregations: false where one returns.
  unfoldable pub covers : List (List ℕ) → List (Expr S M) → Option Bool
  unfolding name
  covers ns [] = some true
  covers ns (e ∷ es) =
      let rest = covers ns es in
      and_then (name names e) (λ n. if in_map ns n then rest else some false)

  abbrev pub push_projections : List (Expr S M) → LogicalPlan S M → LogicalPlan S M
  push_projections [] plan = plan
  push_projections (e ∷ es) plan = insert_projection (remove_projection plan) (e ∷ es)

  -- `ProjectionPushDown.Optimize`
  unfoldable pub projection_push_down : LogicalPlan S M → Option (LogicalPlan S M)
  unfolding project_map covers projection_columns filter_columns aggregation_columns
      collect_projections remove_projection insert_projection
  projection_push_down plan = and_then (project_map (projection_columns plan)) (λ ns.
      and_then (covers ns (filter_columns plan)) (λ filters.
        if filters
        then and_then (covers ns (aggregation_columns plan))
            (λ aggs. some (if aggs then push_projections (collect_projections plan) plan else plan))
        else some plan))
