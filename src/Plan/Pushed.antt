-- ===== src/Plan/Pushed.antt =====
-- ProjectionPushDown: both parts of it, together.
use mathlib.Core.Path.{subst, subst⁻¹}
use frostdb.Base.{
  ℕ, Bool, true, false, Option, none, some, List, ◌≡◌, refl, sym, ap, ◌∙◌, ◌⊎◌, inl, inr, All,
  if◌then◌else◌,
}
use frostdb.Plan.Exprs.{Names, and_then}
use frostdb.Plan.Optimize.{
  LogicalPlan, collect_projections, project_map, covers, push_projections, projection_columns,
  filter_columns, aggregation_columns, projection_push_down,
}
use frostdb.Plan.Projections.{
  operators, listed, projected, filtered, aggregated, columns-projected, columns-filtered,
  columns-aggregated, collect-listed, IsMoved, push-IsMoved,
}
use frostdb.Plan.Covered.{
  IsCovered, Named, covers-IsCovered, project_map-Named, covers-Named, covers-uncovered,
}

some_injective : {A : Type 0} {a b : A} → some a ≡ some b → a ≡ b
some_injective h = cc

module _ {S M : Type 0} (names : Names S M) where
  -- Each column that a filter or an aggregation of the plan uses has the name of a column that a
  -- projection of it uses.
  abbrev pub IsKept : LogicalPlan S M → Type 0
  IsKept plan =
      IsCovered names (projected (operators plan)) (filtered (operators plan))
      × IsCovered names (projected (operators plan)) (aggregated (operators plan))

  abbrev pub Outcome : LogicalPlan S M → LogicalPlan S M → Type 0
  Outcome plan q =
      (IsKept plan × IsMoved (listed (operators plan)) plan q) ⊎ ((IsKept plan → ⊥) × (q ≡ plan))

  -- The columns that the code collects are those of the operators.
  of_filters :
      (plan : LogicalPlan S M)
      → IsCovered names (projection_columns plan) (filter_columns plan)
        ≡ IsCovered names (projected (operators plan)) (filtered (operators plan))
  of_filters plan =
      ap (λ ps. IsCovered names ps (filter_columns plan)) (columns-projected plan)
      ∙ ap (IsCovered names (projected (operators plan))) (columns-filtered plan)

  of_aggregations :
      (plan : LogicalPlan S M)
      → IsCovered names (projection_columns plan) (aggregation_columns plan)
        ≡ IsCovered names (projected (operators plan)) (aggregated (operators plan))
  of_aggregations plan =
      ap (λ ps. IsCovered names ps (aggregation_columns plan)) (columns-projected plan)
      ∙ ap (IsCovered names (projected (operators plan))) (columns-aggregated plan)

  moved :
      (plan : LogicalPlan S M)
      → IsMoved
          (listed (operators plan))
          plan
          (push_projections names (collect_projections plan) plan)
  moved plan =
      subst (λ es. IsMoved es plan (push_projections names (collect_projections plan) plan))
        (collect-listed plan) (push-IsMoved names (collect_projections plan) plan refl)

  -- What a run that does not panic results in.
  returns-Outcome :
      (plan q : LogicalPlan S M) → projection_push_down names plan ≡ some q → Outcome plan q
  unfolding projection_push_down
  returns-Outcome plan q h = from_map (project_map names (projection_columns plan)) refl h
    where
      from_aggs :
          (ns : List (List ℕ)) (b : Bool)
          → project_map names (projection_columns plan) ≡ some ns
          → covers names ns (filter_columns plan) ≡ some true
          → covers names ns (aggregation_columns plan) ≡ some b
          → (if b then push_projections names (collect_projections plan) plan else plan) ≡ q
          → Outcome plan q
      from_aggs ns false u v w g = inr (
        λ k.
            covers-uncovered names (projection_columns plan) ns (aggregation_columns plan) u w
              (subst⁻¹ (λ (A : Type 0). A) (of_aggregations plan) k.1),
        sym g,
      )
      from_aggs ns true u v w g =
          subst (λ (r : LogicalPlan S M). Outcome plan r) g
            (inl (
              (
                subst (λ (A : Type 0). A) (of_filters plan)
                    (covers-IsCovered names (projection_columns plan) ns (filter_columns plan) u v),
                subst (λ (A : Type 0). A) (of_aggregations plan)
                    (covers-IsCovered names (projection_columns plan) ns (aggregation_columns plan)
                      u w),
              ),
              moved plan,
            ))

      from_agg_test :
          (ns : List (List ℕ)) (o : Option Bool)
          → project_map names (projection_columns plan) ≡ some ns
          → covers names ns (filter_columns plan) ≡ some true
          → covers names ns (aggregation_columns plan) ≡ o
          → and_then o (λ aggs.
            some (if aggs then push_projections names (collect_projections plan) plan else plan))
            ≡ some q
          → Outcome plan q
      from_agg_test ns none u v w g = absurd (cc)
      from_agg_test ns (some b) u v w g = from_aggs ns b u v w (some_injective g)

      from_filters :
          (ns : List (List ℕ)) (o : Option Bool)
          → project_map names (projection_columns plan) ≡ some ns
          → covers names ns (filter_columns plan) ≡ o
          → and_then o (λ filters.
            if filters
            then and_then (covers names ns (aggregation_columns plan)) (λ aggs.
              some (if aggs then push_projections names (collect_projections plan) plan else plan))
            else some plan)
            ≡ some q
          → Outcome plan q
      from_filters ns none u v g = absurd (cc)
      from_filters ns (some false) u v g = inr (
        λ k.
            covers-uncovered names (projection_columns plan) ns (filter_columns plan) u v
              (subst⁻¹ (λ (A : Type 0). A) (of_filters plan) k.0),
        sym (some_injective g),
      )
      from_filters ns (some true) u v g =
          from_agg_test ns (covers names ns (aggregation_columns plan)) u v refl g

      from_map :
          (o : Option (List (List ℕ)))
          → project_map names (projection_columns plan) ≡ o
          → and_then o (λ ns. and_then (covers names ns (filter_columns plan)) (λ filters.
            if filters
            then and_then (covers names ns (aggregation_columns plan)) (λ aggs.
              some (if aggs then push_projections names (collect_projections plan) plan else plan))
            else some plan))
            ≡ some q
          → Outcome plan q
      from_map none u g = absurd (cc)
      from_map (some ns) u g = from_filters ns (covers names ns (filter_columns plan)) u refl g

  projection_push_down-Named :
      (plan : LogicalPlan S M)
      → All (Named names) (projection_columns plan)
      → All (Named names) (filter_columns plan)
      → All (Named names) (aggregation_columns plan)
      → (q : LogicalPlan S M) × (projection_push_down names plan ≡ some q)
  unfolding projection_push_down
  projection_push_down-Named plan hp hf ha =
      let (ns, p) = project_map-Named names (projection_columns plan) hp in
      let (f, g) = covers-Named names ns (filter_columns plan) hf in
      let (a, k) = covers-Named names ns (aggregation_columns plan) ha in go ns f a p g k
    where
      go :
          (ns : List (List ℕ)) (f a : Bool)
          → project_map names (projection_columns plan) ≡ some ns
          → covers names ns (filter_columns plan) ≡ some f
          → covers names ns (aggregation_columns plan) ≡ some a
          → (q : LogicalPlan S M) × (projection_push_down names plan ≡ some q)
      go ns false a p g k = (plan, rw (and_then, p, g) refl)
      go ns true a p g k = (
        if a then push_projections names (collect_projections plan) plan else plan,
        rw (and_then, p, g, k) refl,
      )

  -- ProjectionPushDown, where the names of the columns do not panic, returns. If each column that a
  -- filter or an aggregation of the plan uses has the name of a column that a projection uses, and the
  -- plan has an expression that is projected or made distinct, it takes out the projection that runs
  -- last and puts one with all these expressions at the scan, the other operators and the scan
  -- unchanged; else it leaves the plan as it is.
  pub projection_push_down-Outcome :
      (plan : LogicalPlan S M)
      → All (Named names) (projection_columns plan)
      → All (Named names) (filter_columns plan)
      → All (Named names) (aggregation_columns plan)
      → (q : LogicalPlan S M) × (projection_push_down names plan ≡ some q) × Outcome plan q
  projection_push_down-Outcome plan hp hf ha =
      let (q, h) = projection_push_down-Named plan hp hf ha in (q, h, returns-Outcome plan q h)
