-- ===== src/Plan/Average.antt =====
-- AverageAggregationPushDown of query/logicalplan/optimize.go: an average becomes a sum and a count. Its
-- loop ranges over the array that it deletes from.
use frostdb.Base.{
  ℕ, zero, suc, Bool, true, false, Option, none, some, List, [], ◌∷◌, ◌++◌, length, get_elem?, All,
  ◌≡◌, refl, ap, ◌∙◌, ltb,
}
use frostdb.Plan.{Expr, sum, count, avg, aggregation, alias, average}
use frostdb.Plan.Exprs.{and_then}
use frostdb.Plan.Optimize.{LogicalPlan, aggregation_plan, projection_plan}

module _ {S M : Type 0} where
  -- The column of an average, and the expression of the projection that stands for it.
  unfoldable pub average_of : Expr S M → Option (Expr S M × Expr S M)
  average_of (aggregation avg e) = some (e, average e)
  average_of (alias (aggregation avg e) a) = some (e, average (alias e a))
  average_of e = none

  -- `slices.Delete(s, i, i+1)`
  unfoldable pub delete : ℕ → List (Expr S M) → List (Expr S M)
  delete i [] = []
  delete zero (x ∷ xs) = xs
  delete (suc i) (x ∷ xs) = x ∷ delete i xs

  -- The element behind those that are left: what the append writes, if it has room in the array, or
  -- the element that was the last.
  abbrev pub stale : Bool → Expr S M → List (Expr S M) → Expr S M
  stale true e xs = e
  stale false e [] = e
  stale false e (x ∷ xs) = stale false x xs

  abbrev pub sum_and_count : Expr S M → List (Expr S M)
  sum_and_count e = aggregation sum e ∷ aggregation count e ∷ []

  -- The body of the loop behind its tests; without a field `Aggregation` it panics.
  unfoldable pub replace_average :
      ℕ → Expr S M → Expr S M → LogicalPlan S M → Option (LogicalPlan S M)
  unfolding delete
  replace_average i e projection (aggregation_plan aggs groups input) = some (
      projection_plan (projection ∷ [])
        (aggregation_plan (delete i aggs ++ sum_and_count e) groups input))
  replace_average i e projection plan = none

  abbrev pub replaced :
      {A : Type 0} → Option (Expr S M × Expr S M) → A → (Expr S M → Expr S M → A) → A
  replaced none a f = a
  replaced (some (e, projection)) a f = f e projection

  -- The loop, with the indices that are left, the index, the array and the plan. `spare` tells whether
  -- the array has room for one more.
  unfoldable pub average_loop :
      Bool → ℕ → ℕ → List (Expr S M) → LogicalPlan S M → Option (LogicalPlan S M)
  unfolding average_of delete replace_average
  average_loop spare zero i array plan = some plan
  average_loop spare (suc n) i array plan = and_then (get_elem? array i) (λ expr.
      replaced (average_of expr) (average_loop spare n (suc i) array plan) (λ e projection.
        and_then (replace_average i e projection plan) (λ plan.
          average_loop spare n (suc i)
            (delete i array ++ stale spare (aggregation sum e) array ∷ []) plan)))

  unfoldable pub average_aggregation_push_down : ℕ → LogicalPlan S M → Option (LogicalPlan S M)
  unfolding average_loop
  average_aggregation_push_down capacity (aggregation_plan aggs groups input) =
      average_loop (ltb (length aggs) capacity) (length aggs) 0 aggs
        (aggregation_plan aggs groups input)
  average_aggregation_push_down capacity plan = some plan

  pub snoc :
      (pre : List (Expr S M)) (x : Expr S M) (suf : List (Expr S M))
      → pre ++ x ∷ suf ≡ (pre ++ x ∷ []) ++ suf
  snoc [] x suf = refl
  snoc (p ∷ pre) x suf = ap (λ l. p ∷ l) (snoc pre x suf)

  pub length-snoc :
      (pre : List (Expr S M)) (x : Expr S M) → suc (length pre) ≡ length (pre ++ x ∷ [])
  length-snoc [] x = refl
  length-snoc (p ∷ pre) x = ap suc (length-snoc pre x)

  pub get_elem-append :
      (pre : List (Expr S M)) (x : Expr S M) (suf : List (Expr S M))
      → get_elem? (pre ++ x ∷ suf) (length pre) ≡ some x
  get_elem-append [] x suf = refl
  get_elem-append (p ∷ pre) x suf = get_elem-append pre x suf

  pub delete-append :
      (pre : List (Expr S M)) (x : Expr S M) (suf : List (Expr S M))
      → delete (length pre) (pre ++ x ∷ suf) ≡ pre ++ suf
  unfolding delete
  delete-append [] x suf = refl
  delete-append (p ∷ pre) x suf = ap (λ l. p ∷ l) (delete-append pre x suf)

  -- The loop goes past what is no average.
  pub loop_past :
      (spare : Bool) (n : ℕ) (pre : List (Expr S M)) (x : Expr S M) (suf : List (Expr S M))
      (plan : LogicalPlan S M)
      → average_of x ≡ none
      → average_loop spare (suc n) (length pre) (pre ++ (x ∷ suf)) plan
        ≡ average_loop spare n (length (pre ++ x ∷ [])) ((pre ++ x ∷ []) ++ suf) plan
  unfolding average_loop
  loop_past spare n pre x suf plan h =
      rw (and_then, get_elem-append pre x suf, h, length-snoc pre x, snoc pre x suf) refl

  abbrev pub NoAverage : Expr S M → Type 0
  NoAverage e = average_of e ≡ none

  pub loop-NoAverage :
      (spare : Bool) (pre suf : List (Expr S M)) (plan : LogicalPlan S M)
      → All NoAverage suf
      → average_loop spare (length suf) (length pre) (pre ++ suf) plan ≡ some plan
  unfolding average_loop
  loop-NoAverage spare pre [] plan h = refl
  loop-NoAverage spare pre (x ∷ suf) plan h =
      loop_past spare (length suf) pre x suf plan h.0
      ∙ loop-NoAverage spare (pre ++ x ∷ []) suf plan h.1

  append_nil : (xs : List (Expr S M)) → xs ++ [] ≡ xs
  append_nil [] = refl
  append_nil (x ∷ xs) = ap (λ l. x ∷ l) (append_nil xs)

  pub loop_past_all :
      (spare : Bool) (pre before suf : List (Expr S M)) (plan : LogicalPlan S M)
      → All NoAverage before
      → average_loop spare (length (before ++ suf)) (length pre) (pre ++ (before ++ suf)) plan
        ≡ average_loop spare (length suf) (length (pre ++ before)) ((pre ++ before) ++ suf) plan
  loop_past_all spare pre [] suf plan h = rw (append_nil pre) refl
  loop_past_all spare pre (x ∷ before) suf plan h =
      loop_past spare (length (before ++ suf)) pre x (before ++ suf) plan h.0
      ∙ loop_past_all spare (pre ++ x ∷ []) before suf plan h.1
      ∙ rw (snoc pre x before) refl

  pub stale-append :
      (e : Expr S M) (pre : List (Expr S M)) (x : Expr S M) (suf : List (Expr S M))
      → stale false e (pre ++ x ∷ suf) ≡ stale false x suf
  stale-append e [] x suf = refl
  stale-append e (p ∷ pre) x suf = stale-append p pre x suf
