-- ===== src/Plan/OneAverage.antt =====
-- What AverageAggregationPushDown does with one average in an aggregation, and with two.
use frostdb.Base.{
  ℕ, suc, Bool, true, false, none, some, List, [], ◌∷◌, ◌++◌, length, All, All-append, ◌≡◌, refl,
  sym, ap, ◌∙◌, ◌⊎◌, inl, inr, ltb, arith, Option-cases,
}
use frostdb.Plan.{Expr, sum, aggregation}
use frostdb.Plan.Exprs.{and_then}
use frostdb.Plan.Optimize.{LogicalPlan, aggregation_plan, projection_plan}
use frostdb.Plan.Average.{
  average_of, stale, sum_and_count, replaced, replace_average, average_loop,
  average_aggregation_push_down, NoAverage, length-snoc, get_elem-append, delete-append, loop_past,
  loop_past_all, loop-NoAverage, stale-append,
}

module _ {S M : Type 0} where
  -- The plan that replaces an aggregation with an average of `e`.
  abbrev pub averaged :
      Expr S M → Expr S M → List (Expr S M) → List (Expr S M) → LogicalPlan S M → LogicalPlan S M
  averaged e projection others groups input =
      projection_plan (projection ∷ []) (aggregation_plan (others ++ sum_and_count e) groups input)

  loop_average :
      (spare : Bool) (n : ℕ) (pre : List (Expr S M)) (x e p : Expr S M)
      (suf groups : List (Expr S M)) (input : LogicalPlan S M)
      → average_of x ≡ some (e, p)
      → average_loop spare
          (suc n)
          (length pre)
          (pre ++ x ∷ suf)
          (aggregation_plan (pre ++ x ∷ suf) groups input)
        ≡ average_loop spare n
            (suc (length pre))
            ((pre ++ suf) ++ stale spare (aggregation sum e) (pre ++ x ∷ suf) ∷ [])
            (averaged e p (pre ++ suf) groups input)
  unfolding average_loop replace_average
  loop_average spare n pre x e p suf groups input h =
      rw (and_then, replaced, get_elem-append pre x suf, h, delete-append pre x suf) refl

  append_snoc :
      (pre : List (Expr S M)) (y : Expr S M) (ys : List (Expr S M)) (z : Expr S M)
      → (pre ++ y ∷ ys) ++ z ∷ [] ≡ (pre ++ y ∷ []) ++ (ys ++ z ∷ [])
  append_snoc [] y ys z = refl
  append_snoc (p ∷ pre) y ys z = ap (λ l. p ∷ l) (append_snoc pre y ys z)

  stale-NoAverage :
      (e : Expr S M) (xs : List (Expr S M))
      → NoAverage e
      → All NoAverage xs
      → NoAverage (stale false e xs)
  stale-NoAverage e [] h hs = h
  stale-NoAverage e (x ∷ xs) h hs = stale-NoAverage x xs hs.0 hs.1

  any_stale-NoAverage :
      (spare : Bool) (e x y : Expr S M) (pre ys : List (Expr S M))
      → All NoAverage (y ∷ ys)
      → NoAverage (stale spare (aggregation sum e) (pre ++ x ∷ y ∷ ys))
  unfolding average_of
  any_stale-NoAverage true e x y pre ys h = refl
  any_stale-NoAverage false e x y pre ys h =
      rw (stale-append (aggregation sum e) pre x (y ∷ ys)) (stale-NoAverage y ys h.0 h.1)

  -- The rest of the loop, behind an average, over an array that the deletion has shifted by one.
  shifted :
      (spare : Bool) (pre : List (Expr S M)) (y : Expr S M) (ys : List (Expr S M)) (z : Expr S M)
      (plan : LogicalPlan S M)
      → average_loop spare (suc (length ys)) (suc (length pre)) ((pre ++ y ∷ ys) ++ z ∷ []) plan
        ≡ average_loop spare
            (length (ys ++ z ∷ []))
            (length (pre ++ y ∷ []))
            ((pre ++ y ∷ []) ++ (ys ++ z ∷ []))
            plan
  shifted spare pre y ys z plan =
      rw (length-snoc ys z, length-snoc pre y, append_snoc pre y ys z) refl

  loop-averaged :
      (spare : Bool) (pre : List (Expr S M)) (x e p : Expr S M) (suf groups : List (Expr S M))
      (input : LogicalPlan S M)
      → average_of x ≡ some (e, p)
      → All NoAverage suf
      → average_loop spare
          (suc (length suf))
          (length pre)
          (pre ++ x ∷ suf)
          (aggregation_plan (pre ++ x ∷ suf) groups input)
        ≡ some (averaged e p (pre ++ suf) groups input)
  unfolding average_loop
  loop-averaged spare pre x e p [] groups input h hs =
      loop_average spare 0 pre x e p [] groups input h
  loop-averaged spare pre x e p (y ∷ ys) groups input h hs =
      let z = stale spare (aggregation sum e) (pre ++ x ∷ y ∷ ys) in
      let plan = averaged e p (pre ++ y ∷ ys) groups input in
      loop_average spare (suc (length ys)) pre x e p (y ∷ ys) groups input h
      ∙ shifted spare pre y ys z plan
      ∙ loop-NoAverage spare (pre ++ y ∷ []) (ys ++ z ∷ []) plan
          (All-append NoAverage ys (z ∷ []) hs.1 (any_stale-NoAverage spare e x y pre ys hs, tt))

  -- An aggregation with one average, wherever it stands, keeps its other aggregations, gets the sum and
  -- the count of the column behind them, and is read through the projection of the average: the loop
  -- ends without a panic, whether the array has room to grow or not.
  pub average_push_down_one :
      (capacity : ℕ) (before after groups : List (Expr S M)) (x e p : Expr S M)
      (input : LogicalPlan S M)
      → average_of x ≡ some (e, p)
      → All NoAverage before
      → All NoAverage after
      → average_aggregation_push_down capacity (aggregation_plan (before ++ x ∷ after) groups input)
        ≡ some (averaged e p (before ++ after) groups input)
  unfolding average_aggregation_push_down
  average_push_down_one capacity before after groups x e p input h hb ha =
      let spare = ltb (length (before ++ x ∷ after)) capacity in
      loop_past_all spare [] before (x ∷ after)
        (aggregation_plan (before ++ x ∷ after) groups input) hb
      ∙ loop-averaged spare before x e p after groups input h ha

  abbrev pub HasAverage : List (Expr S M) → Type 0
  HasAverage [] = ⊥
  HasAverage (x ∷ xs) = ((r : Expr S M × Expr S M) × (average_of x ≡ some r)) ⊎ HasAverage xs

  loop_panics :
      (spare : Bool) (n : ℕ) (pre : List (Expr S M)) (x : Expr S M) (suf : List (Expr S M))
      (r : Expr S M × Expr S M) (es : List (Expr S M)) (input : LogicalPlan S M)
      → average_of x ≡ some r
      → average_loop spare (suc n) (length pre) (pre ++ x ∷ suf) (projection_plan es input) ≡ none
  unfolding average_loop replace_average
  loop_panics spare n pre x suf r es input h =
      rw (and_then, replaced, get_elem-append pre x suf, h) refl

  loop-HasAverage :
      (spare : Bool) (pre suf es : List (Expr S M)) (input : LogicalPlan S M)
      → HasAverage suf
      → average_loop spare (length suf) (length pre) (pre ++ suf) (projection_plan es input) ≡ none
  loop-HasAverage spare pre [] es input h = elim h [ ]
  loop-HasAverage spare pre (x ∷ suf) es input h = elim (Option-cases (average_of x)) [
    | inl e ↦
        loop_past spare (length suf) pre x suf (projection_plan es input) e
        ∙ loop-HasAverage spare (pre ++ x ∷ []) suf es input
            (elim h [ inl f ↦ elim (absurd (sym e ∙ f.1)) [ ] | inr f ↦ f ])
    | inr (r, e) ↦ loop_panics spare (length suf) pre x suf r es input e
  ]
    where
      absurd : {A : Type 0} {a : A} → none ≡ some a → ⊥
      absurd p = ground arith

  HasAverage-append :
      (ys : List (Expr S M)) (z : Expr S M) → HasAverage ys → HasAverage (ys ++ z ∷ [])
  HasAverage-append [] z h = elim h [ ]
  HasAverage-append (y ∷ ys) z (inl h) = inl h
  HasAverage-append (y ∷ ys) z (inr h) = inr (HasAverage-append ys z h)

  -- An aggregation with a second average, with another aggregation between it and the first, panics.
  pub average_push_down_two :
      (capacity : ℕ) (before rest groups : List (Expr S M)) (x e p y : Expr S M)
      (input : LogicalPlan S M)
      → average_of x ≡ some (e, p)
      → All NoAverage before
      → HasAverage rest
      → average_aggregation_push_down capacity
          (aggregation_plan (before ++ x ∷ y ∷ rest) groups input)
        ≡ none
  unfolding average_aggregation_push_down
  average_push_down_two capacity before rest groups x e p y input h hb hr =
      let spare = ltb (length (before ++ x ∷ y ∷ rest)) capacity in
      let z = stale spare (aggregation sum e) (before ++ x ∷ y ∷ rest) in
      let inner = aggregation_plan ((before ++ y ∷ rest) ++ sum_and_count e) groups input in
      loop_past_all spare [] before (x ∷ y ∷ rest)
        (aggregation_plan (before ++ x ∷ y ∷ rest) groups input) hb
      ∙ loop_average spare (suc (length rest)) before x e p (y ∷ rest) groups input h
      ∙ shifted spare before y rest z (projection_plan (p ∷ []) inner)
      ∙ loop-HasAverage spare (before ++ y ∷ []) (rest ++ z ∷ []) (p ∷ []) inner
          (HasAverage-append rest z hr)
