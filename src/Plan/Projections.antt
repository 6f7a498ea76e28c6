-- ===== src/Plan/Projections.antt =====
-- ProjectionPushDown: what becomes of the operators of a plan.
use frostdb.Base.{List, [], ◌∷◌, ◌++◌, ◌≡◌, refl, sym, ap, ◌∙◌}
use frostdb.Plan.{Expr}
use frostdb.Plan.Exprs.{Names, columns_used_exprs}
use frostdb.Plan.Filters.{scan_of}
use frostdb.Plan.Optimize.{
  LogicalPlan, schema_scan, table_scan, filter_plan, distinct_plan, projection_plan,
  aggregation_plan, collect_projections, remove_projection, insert_projection, push_projections,
  all_used, projection_columns, filter_columns, aggregation_columns,
}

-- An operator of a plan.
pub data Operator (S M : Type 0) : Type 0 where
  filters_by : Expr S M → Operator S M
  distinct_by projects : List (Expr S M) → Operator S M
  aggregates : List (Expr S M) → List (Expr S M) → Operator S M

module _ {S M : Type 0} where
  -- The operators, the last that runs first.
  abbrev pub operators : LogicalPlan S M → List (Operator S M)
  operators (schema_scan s) = []
  operators (table_scan s) = []
  operators (filter_plan e input) = filters_by e ∷ operators input
  operators (distinct_plan es input) = distinct_by es ∷ operators input
  operators (projection_plan es input) = projects es ∷ operators input
  operators (aggregation_plan aggs groups input) = aggregates aggs groups ∷ operators input

  -- Without the projection that runs last.
  abbrev pub drop_projection : List (Operator S M) → List (Operator S M)
  drop_projection [] = []
  drop_projection (projects es ∷ os) = os
  drop_projection (o ∷ os) = o ∷ drop_projection os

  -- The expressions of the projections and of the distinct operators.
  abbrev pub listed : List (Operator S M) → List (Expr S M)
  listed [] = []
  listed (projects es ∷ os) = es ++ listed os
  listed (distinct_by es ∷ os) = es ++ listed os
  listed (o ∷ os) = listed os

  -- The columns that projections, filters and aggregations use.
  abbrev pub projected : List (Operator S M) → List (Expr S M)
  projected [] = []
  projected (projects es ∷ os) = all_used es ++ projected os
  projected (o ∷ os) = projected os

  abbrev pub filtered : List (Operator S M) → List (Expr S M)
  filtered [] = []
  filtered (filters_by e ∷ os) = columns_used_exprs e ++ filtered os
  filtered (o ∷ os) = filtered os

  abbrev pub aggregated : List (Operator S M) → List (Expr S M)
  aggregated [] = []
  aggregated (aggregates aggs groups ∷ os) = (all_used groups ++ all_used aggs) ++ aggregated os
  aggregated (o ∷ os) = aggregated os

  pub columns-projected :
      (plan : LogicalPlan S M) → projection_columns plan ≡ projected (operators plan)
  unfolding projection_columns
  columns-projected (schema_scan s) = refl
  columns-projected (table_scan s) = refl
  columns-projected (filter_plan e input) = columns-projected input
  columns-projected (distinct_plan es input) = columns-projected input
  columns-projected (projection_plan es input) =
      ap (λ l. all_used es ++ l) (columns-projected input)
  columns-projected (aggregation_plan aggs groups input) = columns-projected input

  pub columns-filtered : (plan : LogicalPlan S M) → filter_columns plan ≡ filtered (operators plan)
  unfolding filter_columns
  columns-filtered (schema_scan s) = refl
  columns-filtered (table_scan s) = refl
  columns-filtered (filter_plan e input) =
      ap (λ l. columns_used_exprs e ++ l) (columns-filtered input)
  columns-filtered (distinct_plan es input) = columns-filtered input
  columns-filtered (projection_plan es input) = columns-filtered input
  columns-filtered (aggregation_plan aggs groups input) = columns-filtered input

  pub columns-aggregated :
      (plan : LogicalPlan S M) → aggregation_columns plan ≡ aggregated (operators plan)
  unfolding aggregation_columns
  columns-aggregated (schema_scan s) = refl
  columns-aggregated (table_scan s) = refl
  columns-aggregated (filter_plan e input) = columns-aggregated input
  columns-aggregated (distinct_plan es input) = columns-aggregated input
  columns-aggregated (projection_plan es input) = columns-aggregated input
  columns-aggregated (aggregation_plan aggs groups input) =
      ap (λ l. (all_used groups ++ all_used aggs) ++ l) (columns-aggregated input)

  operators-remove :
      (plan : LogicalPlan S M)
      → operators (remove_projection plan) ≡ drop_projection (operators plan)
  unfolding remove_projection
  operators-remove (schema_scan s) = refl
  operators-remove (table_scan s) = refl
  operators-remove (filter_plan e input) = ap (λ l. filters_by e ∷ l) (operators-remove input)
  operators-remove (distinct_plan es input) = ap (λ l. distinct_by es ∷ l) (operators-remove input)
  operators-remove (projection_plan es input) = refl
  operators-remove (aggregation_plan aggs groups input) =
      ap (λ l. aggregates aggs groups ∷ l) (operators-remove input)

  operators-insert :
      (plan : LogicalPlan S M) (es : List (Expr S M))
      → operators (insert_projection plan es) ≡ operators plan ++ projects es ∷ []
  unfolding insert_projection
  operators-insert (schema_scan s) es = refl
  operators-insert (table_scan s) es = refl
  operators-insert (filter_plan e input) es = ap (λ l. filters_by e ∷ l) (operators-insert input es)
  operators-insert (distinct_plan ds input) es =
      ap (λ l. distinct_by ds ∷ l) (operators-insert input es)
  operators-insert (projection_plan ds input) es =
      ap (λ l. projects ds ∷ l) (operators-insert input es)
  operators-insert (aggregation_plan aggs groups input) es =
      ap (λ l. aggregates aggs groups ∷ l) (operators-insert input es)

  scan-remove : (plan : LogicalPlan S M) → scan_of (remove_projection plan) ≡ scan_of plan
  unfolding remove_projection
  scan-remove (schema_scan s) = refl
  scan-remove (table_scan s) = refl
  scan-remove (filter_plan e input) = scan-remove input
  scan-remove (distinct_plan es input) = scan-remove input
  scan-remove (projection_plan es input) = refl
  scan-remove (aggregation_plan aggs groups input) = scan-remove input

  scan-insert :
      (plan : LogicalPlan S M) (es : List (Expr S M))
      → scan_of (insert_projection plan es) ≡ scan_of plan
  unfolding insert_projection
  scan-insert (schema_scan s) es = refl
  scan-insert (table_scan s) es = refl
  scan-insert (filter_plan e input) es = scan-insert input es
  scan-insert (distinct_plan ds input) es = scan-insert input es
  scan-insert (projection_plan ds input) es = scan-insert input es
  scan-insert (aggregation_plan aggs groups input) es = scan-insert input es

  pub collect-listed : (plan : LogicalPlan S M) → collect_projections plan ≡ listed (operators plan)
  unfolding collect_projections
  collect-listed (schema_scan s) = refl
  collect-listed (table_scan s) = refl
  collect-listed (filter_plan e input) = collect-listed input
  collect-listed (distinct_plan es input) = ap (λ l. es ++ l) (collect-listed input)
  collect-listed (projection_plan es input) = ap (λ l. es ++ l) (collect-listed input)
  collect-listed (aggregation_plan aggs groups input) = collect-listed input

  -- The plan that is left: the last projection is gone, and one with all the expressions that are
  -- projected or made distinct stands at the scan.
  abbrev pub IsPushed : LogicalPlan S M → LogicalPlan S M → Type 0
  IsPushed plan q =
      (operators q ≡ drop_projection (operators plan) ++ projects (listed (operators plan)) ∷ [])
      × (scan_of q ≡ scan_of plan)

  -- What becomes of a plan whose projections and distinct operators have these expressions.
  abbrev pub IsMoved : List (Expr S M) → LogicalPlan S M → LogicalPlan S M → Type 0
  IsMoved [] plan q = q ≡ plan
  IsMoved (e ∷ es) plan q = IsPushed plan q

module _ {S M : Type 0} (names : Names S M) where
  pub push-IsMoved :
      (es : List (Expr S M)) (plan : LogicalPlan S M)
      → collect_projections plan ≡ es
      → IsMoved es plan (push_projections names es plan)
  push-IsMoved [] plan h = refl
  push-IsMoved (e ∷ es) plan h = (
    operators-insert (remove_projection plan) (e ∷ es)
        ∙ rw (operators-remove plan, sym (collect-listed plan), h) refl,
    scan-insert (remove_projection plan) (e ∷ es) ∙ scan-remove plan,
  )
