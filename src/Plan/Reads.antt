-- ===== src/Plan/Reads.antt =====
-- PhysicalProjectionPushDown: which columns the scan of a plan reads.
use mathlib.Core.Path.{subst, subst⁻¹}
use frostdb.Base.{List, [], ◌∷◌, ◌++◌, Elem, ◌≡◌, refl, ◌⊎◌, inl, inr, ◌↔◌}
use frostdb.Plan.{Expr, dynamic_column, not_expr}
use frostdb.Plan.Exprs.{columns_used_exprs}
use frostdb.Plan.Filters.{scan_of}
use frostdb.Plan.Optimize.{
  LogicalPlan, schema_scan, table_scan, filter_plan, distinct_plan, projection_plan,
  aggregation_plan, hashed_match, all_used, physical_optimize, physical_projection_push_down,
}

pub Elem-left : {A : Type 0} (x : A) (xs ys : List A) → Elem x xs → Elem x (xs ++ ys)
Elem-left x [] ys h = elim h [ ]
Elem-left x (y ∷ xs) ys (inl h) = inl h
Elem-left x (y ∷ xs) ys (inr h) = inr (Elem-left x xs ys h)

pub Elem-right : {A : Type 0} (x : A) (xs ys : List A) → Elem x ys → Elem x (xs ++ ys)
Elem-right x [] ys h = h
Elem-right x (y ∷ xs) ys h = inr (Elem-right x xs ys h)

pub Elem-append : {A : Type 0} (x : A) (xs ys : List A) → Elem x (xs ++ ys) → Elem x xs ⊎ Elem x ys
Elem-append x [] ys h = inr h
Elem-append x (y ∷ xs) ys (inl h) = inl (inl h)
Elem-append x (y ∷ xs) ys (inr h) = elim (Elem-append x xs ys h) [
  | inl g ↦ inl (inr g)
  | inr g ↦ inr g
]

module _ {S M : Type 0} where
  -- The expressions that the operators of a plan read, one by one.
  abbrev pub UsedBy : Expr S M → List (Expr S M) → Type 0
  UsedBy x [] = ⊥
  UsedBy x (e ∷ es) = Elem x (columns_used_exprs e) ⊎ UsedBy x es

  abbrev pub hashed : Expr S M
  hashed = dynamic_column hashed_match

  abbrev pub Reads : Expr S M → LogicalPlan S M → Type 0
  Reads x (schema_scan s) = ⊥
  Reads x (table_scan s) = ⊥
  Reads x (filter_plan e input) = Elem x (columns_used_exprs e) ⊎ Reads x input
  Reads x (distinct_plan es input) = UsedBy x es ⊎ Reads x input
  Reads x (projection_plan es input) = UsedBy x es ⊎ Reads x input
  Reads x (aggregation_plan aggs groups input) =
      UsedBy x groups ⊎ (UsedBy x aggs ⊎ ((x ≡ hashed) ⊎ Reads x input))

  -- The plan is only a scan.
  abbrev pub IsBare : LogicalPlan S M → Type 0
  IsBare (schema_scan s) = Unit
  IsBare (table_scan s) = Unit
  IsBare plan = ⊥

  UsedBy-all_used : (x : Expr S M) (es : List (Expr S M)) → UsedBy x es → Elem x (all_used es)
  UsedBy-all_used x [] h = elim h [ ]
  UsedBy-all_used x (e ∷ es) (inl h) = Elem-left x (columns_used_exprs e) (all_used es) h
  UsedBy-all_used x (e ∷ es) (inr h) =
      Elem-right x (columns_used_exprs e) (all_used es) (UsedBy-all_used x es h)

  all_used-UsedBy : (x : Expr S M) (es : List (Expr S M)) → Elem x (all_used es) → UsedBy x es
  all_used-UsedBy x [] h = elim h [ ]
  all_used-UsedBy x (e ∷ es) h = elim (Elem-append x (columns_used_exprs e) (all_used es) h) [
    | inl g ↦ inl g
    | inr g ↦ inr (all_used-UsedBy x es g)
  ]

  Elem-split :
      {Q R : Type 0} (x : Expr S M) (used extra : List (Expr S M))
      → (Elem x extra → Q)
      → Elem x (used ++ extra) ⊎ R
      → Elem x used ⊎ (Q ⊎ R)
  Elem-split x used extra f (inl h) = elim (Elem-append x used extra h) [
    | inl k ↦ inl k
    | inr k ↦ inr (inl (f k))
  ]
  Elem-split x used extra f (inr h) = inr (inr h)

  Elem-merge :
      {Q R : Type 0} (x : Expr S M) (used extra : List (Expr S M))
      → (Q → Elem x extra)
      → Elem x used ⊎ (Q ⊎ R)
      → Elem x (used ++ extra) ⊎ R
  Elem-merge x used extra f (inl h) = inl (Elem-left x used extra h)
  Elem-merge x used extra f (inr (inl q)) = inl (Elem-right x used extra (f q))
  Elem-merge x used extra f (inr (inr r)) = inr r

  -- The expressions that reach the scan behind an operator.
  abbrev used_with : List (Expr S M) → LogicalPlan S M → List (Expr S M)
  used_with used (schema_scan s) = used
  used_with used (table_scan s) = used
  used_with used (filter_plan e input) = used_with (used ++ columns_used_exprs e) input
  used_with used (distinct_plan es input) = used_with (used ++ all_used es) input
  used_with used (projection_plan es input) = used_with (used ++ all_used es) input
  used_with used (aggregation_plan aggs groups input) =
      used_with (((used ++ all_used groups) ++ all_used aggs) ++ hashed ∷ []) input

  physical-used :
      (plan : LogicalPlan S M) (used : List (Expr S M))
      → (scan_of (physical_optimize [] plan used)).physical_projection ≡ used_with used plan
  unfolding physical_optimize
  physical-used (schema_scan s) used = refl
  physical-used (table_scan s) used = refl
  physical-used (filter_plan e input) used = physical-used input (used ++ columns_used_exprs e)
  physical-used (distinct_plan es input) used = physical-used input (used ++ all_used es)
  physical-used (projection_plan es input) used = physical-used input (used ++ all_used es)
  physical-used (aggregation_plan aggs groups input) used =
      physical-used input (((used ++ all_used groups) ++ all_used aggs) ++ hashed ∷ [])

  Elem-used :
      (x : Expr S M) (plan : LogicalPlan S M) (used : List (Expr S M))
      → Elem x (used_with used plan)
      → Elem x used ⊎ Reads x plan
  Elem-used x (schema_scan s) used h = inl h
  Elem-used x (table_scan s) used h = inl h
  Elem-used x (filter_plan e input) used h =
      Elem-split x used (columns_used_exprs e) (λ k. k) (Elem-used x input _ h)
  Elem-used x (distinct_plan es input) used h =
      Elem-split x used (all_used es) (all_used-UsedBy x es) (Elem-used x input _ h)
  Elem-used x (projection_plan es input) used h =
      Elem-split x used (all_used es) (all_used-UsedBy x es) (Elem-used x input _ h)
  Elem-used x (aggregation_plan aggs groups input) used h =
      Elem-split x used (all_used groups) (all_used-UsedBy x groups) (
        Elem-split x (used ++ all_used groups) (all_used aggs) (all_used-UsedBy x aggs) (
          Elem-split x ((used ++ all_used groups) ++ all_used aggs) (hashed ∷ [])
            (λ k. elim k [ inl e ↦ e | inr z ↦ elim z [ ] ]) (Elem-used x input _ h)))

  used-Elem :
      (x : Expr S M) (plan : LogicalPlan S M) (used : List (Expr S M))
      → Elem x used ⊎ Reads x plan
      → Elem x (used_with used plan)
  used-Elem x (schema_scan s) used (inl h) = h
  used-Elem x (schema_scan s) used (inr h) = elim h [ ]
  used-Elem x (table_scan s) used (inl h) = h
  used-Elem x (table_scan s) used (inr h) = elim h [ ]
  used-Elem x (filter_plan e input) used h =
      used-Elem x input _ (Elem-merge x used (columns_used_exprs e) (λ k. k) h)
  used-Elem x (distinct_plan es input) used h =
      used-Elem x input _ (Elem-merge x used (all_used es) (UsedBy-all_used x es) h)
  used-Elem x (projection_plan es input) used h =
      used-Elem x input _ (Elem-merge x used (all_used es) (UsedBy-all_used x es) h)
  used-Elem x (aggregation_plan aggs groups input) used h = used-Elem x input _ (
      Elem-merge x ((used ++ all_used groups) ++ all_used aggs) (hashed ∷ []) (λ k. inl k)
        (Elem-merge x (used ++ all_used groups) (all_used aggs) (UsedBy-all_used x aggs)
          (Elem-merge x used (all_used groups) (UsedBy-all_used x groups) h)))

  abbrev pub default_projection : Expr S M
  default_projection = not_expr hashed

  from_nothing : (x : Expr S M) (R : Type 0) → Elem x [] ⊎ R → R
  from_nothing x R (inl h) = elim h [ ]
  from_nothing x R (inr h) = h

  operator-Reads :
      (x : Expr S M) (plan : LogicalPlan S M) (read : List (Expr S M))
      → read ≡ used_with [] plan
      → (IsBare plan → ⊥)
      → Elem x read ↔ (Reads x plan ⊎ (IsBare plan × (x ≡ default_projection)))
  operator-Reads x plan read h f = (
    λ e. inl (
        from_nothing x (Reads x plan)
          (Elem-used x plan [] (subst (λ (l : List (Expr S M)). Elem x l) h e))),
    λ r. elim r [
      | inl k ↦ subst⁻¹ (λ (l : List (Expr S M)). Elem x l) h (used-Elem x plan [] (inr k))
      | inr k ↦ elim (f k.0) [ ]
    ],
  )

  -- The scan of a plan with an operator reads an expression exactly if an operator uses it, and with an
  -- aggregation the hashed columns; a plan that is only a scan reads all but those.
  pub physical_projection_push_down-Elem :
      (x : Expr S M) (plan : LogicalPlan S M)
      → Elem x (scan_of (physical_projection_push_down plan)).physical_projection
        ↔ (Reads x plan ⊎ (IsBare plan × (x ≡ default_projection)))
  unfolding physical_projection_push_down physical_optimize
  physical_projection_push_down-Elem x (schema_scan s) = (
    λ h. elim h [ inl e ↦ inr (tt, e) | inr z ↦ elim z [ ] ],
    λ h. elim h [ inl z ↦ elim z [ ] | inr e ↦ inl e.1 ],
  )
  physical_projection_push_down-Elem x (table_scan s) = (
    λ h. elim h [ inl e ↦ inr (tt, e) | inr z ↦ elim z [ ] ],
    λ h. elim h [ inl z ↦ elim z [ ] | inr e ↦ inl e.1 ],
  )
  physical_projection_push_down-Elem x (filter_plan e input) =
      operator-Reads x (filter_plan e input) _ (physical-used (filter_plan e input) []) (λ z. z)
  physical_projection_push_down-Elem x (distinct_plan es input) =
      operator-Reads x (distinct_plan es input) _ (physical-used (distinct_plan es input) [])
        (λ z. z)
  physical_projection_push_down-Elem x (projection_plan es input) =
      operator-Reads x (projection_plan es input) _ (physical-used (projection_plan es input) [])
        (λ z. z)
  physical_projection_push_down-Elem x (aggregation_plan aggs groups input) =
      operator-Reads x (aggregation_plan aggs groups input) _
        (physical-used (aggregation_plan aggs groups input) []) (λ z. z)
