-- ===== src/Plan/Filters.antt =====
-- What reaches the scan of FilterPushDown: the conjunction of a plan's filters, for the rows and, with
-- query/expr/filter.go, for the row groups.
use mathlib.Core.Path.{subst, subst⁻¹}
use frostdb.Base.{
  Bool, true, false, ◌&&◌, ◌||◌, Option, none, some, List, [], ◌∷◌, ◌++◌, All, ok, ◌≡◌, refl, ap,
  ◌∙◌,
}
use frostdb.Plan.{Expr, binary}
use frostdb.Plan.Op.{and, or}
use frostdb.Plan.Exprs.{non_nil_exprs, combine, combine_all, and_of, compute_binary_expr}
use frostdb.Plan.Optimize.{
  Scan, LogicalPlan, schema_scan, table_scan, filter_plan, distinct_plan, projection_plan,
  aggregation_plan, set_filter, filter_optimize, filter_push_down,
}
use frostdb.Filter.{Values, RowGroup, Filter, always_true, and_expr, eval}
use frostdb.Filter.Build.{Scalar, ValueOf, boolean_filter, boolean_expr}

and_true : (b : Bool) → b ≡ (b && true)
and_true true = refl
and_true false = refl

module _ {S M : Type 0} where
  abbrev pub scan_of : LogicalPlan S M → Scan S M
  scan_of (schema_scan s) = s
  scan_of (table_scan s) = s
  scan_of (filter_plan e input) = scan_of input
  scan_of (distinct_plan es input) = scan_of input
  scan_of (projection_plan es input) = scan_of input
  scan_of (aggregation_plan aggs groups input) = scan_of input

  -- The filters of a plan, the last of them first.
  abbrev pub filters : LogicalPlan S M → List (Expr S M)
  filters (schema_scan s) = []
  filters (table_scan s) = []
  filters (filter_plan e input) = e ∷ filters input
  filters (distinct_plan es input) = filters input
  filters (projection_plan es input) = filters input
  filters (aggregation_plan aggs groups input) = filters input

  abbrev pub non_nil : List (Expr S M) → List (Option (Expr S M))
  non_nil [] = []
  non_nil (e ∷ es) = some e ∷ non_nil es

  non_nil-exprs : (es : List (Expr S M)) → non_nil_exprs (non_nil es) ≡ es
  unfolding non_nil_exprs
  non_nil-exprs [] = refl
  non_nil-exprs (e ∷ es) = ap (λ l. e ∷ l) (non_nil-exprs es)

  and_of-non_nil : (es : List (Expr S M)) → and_of (non_nil es) ≡ combine_all and es
  unfolding and_of compute_binary_expr
  and_of-non_nil es = ap (combine_all and) (non_nil-exprs es)

  append_nil : (es : List (Option (Expr S M))) → es ++ [] ≡ es
  append_nil [] = refl
  append_nil (e ∷ es) = ap (λ l. e ∷ l) (append_nil es)

  append_cons :
      (xs ys : List (Option (Expr S M))) (e : Option (Expr S M))
      → (xs ++ e ∷ []) ++ ys ≡ xs ++ e ∷ ys
  append_cons [] ys e = refl
  append_cons (x ∷ xs) ys e = ap (λ l. x ∷ l) (append_cons xs ys e)

  scan-filter_optimize :
      (plan : LogicalPlan S M) (exprs : List (Option (Expr S M)))
      → scan_of (filter_optimize plan exprs)
        ≡ set_filter (exprs ++ non_nil (filters plan)) (scan_of plan)
  unfolding filter_optimize
  scan-filter_optimize (schema_scan s) exprs = rw (append_nil exprs) refl
  scan-filter_optimize (table_scan s) exprs = rw (append_nil exprs) refl
  scan-filter_optimize (filter_plan e input) exprs =
      scan-filter_optimize input (exprs ++ some e ∷ [])
      ∙ ap (λ l. set_filter l (scan_of input))
          (append_cons exprs (non_nil (filters input)) (some e))
  scan-filter_optimize (distinct_plan es input) exprs = scan-filter_optimize input exprs
  scan-filter_optimize (projection_plan es input) exprs = scan-filter_optimize input exprs
  scan-filter_optimize (aggregation_plan aggs groups input) exprs = scan-filter_optimize input exprs

  set_filter-non_nil :
      (es : List (Expr S M)) (s : Scan S M)
      → s.filter ≡ none
      → (set_filter (non_nil es) s).filter ≡ combine_all and es
  set_filter-non_nil [] s h = h
  set_filter-non_nil (e ∷ es) s h = and_of-non_nil (e ∷ es)

  -- The filter of the scan, of a plan whose scan has none yet.
  pub scan-push_down :
      (plan : LogicalPlan S M)
      → (scan_of plan).filter ≡ none
      → (scan_of (filter_push_down plan)).filter ≡ combine_all and (filters plan)
  unfolding filter_push_down
  scan-push_down plan h =
      ap (λ s. s.filter) (scan-filter_optimize plan [])
      ∙ set_filter-non_nil (filters plan) (scan_of plan) h

  module _ (atom : Expr S M → Bool) where
    -- What a filter says of a row, given what the comparisons in it say.
    abbrev pub meaning : Expr S M → Bool
    meaning (binary left and right) = meaning left && meaning right
    meaning (binary left or right) = meaning left || meaning right
    meaning e = atom e

    abbrev pub meaning_of : Option (Expr S M) → Bool
    meaning_of none = true
    meaning_of (some e) = meaning e

    abbrev pub all_hold : List (Expr S M) → Bool
    all_hold [] = true
    all_hold (e ∷ es) = meaning e && all_hold es

    meaning-combine :
        (e : Expr S M) (es : List (Expr S M)) → meaning (combine and e es) ≡ all_hold (e ∷ es)
    unfolding combine
    meaning-combine e [] = and_true (meaning e)
    meaning-combine e (f ∷ es) = ap (λ b. meaning e && b) (meaning-combine f es)

    meaning-combine_all : (es : List (Expr S M)) → meaning_of (combine_all and es) ≡ all_hold es
    meaning-combine_all [] = refl
    meaning-combine_all (e ∷ es) = meaning-combine e es

    -- FilterPushDown leaves the scan of a plan, which has no filter before, with a filter that holds of
    -- a row exactly if all the filters of the plan do, wherever in the plan they stand.
    pub filter_push_down-meaning :
        (plan : LogicalPlan S M)
        → (scan_of plan).filter ≡ none
        → meaning_of (scan_of (filter_push_down plan)).filter ≡ all_hold (filters plan)
    filter_push_down-meaning plan h =
        ap meaning_of (scan-push_down plan h) ∙ meaning-combine_all (filters plan)

module _ {V E M : Type 0} (w : ValueOf V) (o : Values V) (group : RowGroup V E) where
  -- A filter is built without an error and says `b` of the row group.
  abbrev pub Says : Option (Expr Scalar M) → Bool → Type 0
  Says e b = (f : Filter V) × (boolean_expr w e ≡ ok f) × (eval o f group ≡ ok b)

  abbrev pub conj : (Expr Scalar M → Bool) → List (Expr Scalar M) → Bool
  conj verdict [] = true
  conj verdict (e ∷ es) = verdict e && conj verdict es

  Says-and :
      (l r : Expr Scalar M) (a b : Bool)
      → Says (some l) a
      → Says (some r) b
      → Says (some (binary l and r)) (a && b)
  unfolding boolean_expr boolean_filter eval
  Says-and l r true b (f, hf, ef) (g, hg, eg) = (and_expr f g, rw (hf, hg) refl, rw (ef) eg)
  Says-and l r false b (f, hf, ef) (g, hg, eg) = (and_expr f g, rw (hf, hg) refl, rw (ef) refl)

  Says-combine :
      (verdict : Expr Scalar M → Bool) (e : Expr Scalar M) (es : List (Expr Scalar M))
      → All (λ e. Says (some e) (verdict e)) (e ∷ es)
      → Says (some (combine and e es)) (conj verdict (e ∷ es))
  unfolding combine
  Says-combine verdict e [] h = subst (λ b. Says (some e) b) (and_true (verdict e)) h.0
  Says-combine verdict e (f ∷ es) h =
      Says-and e (combine and f es) (verdict e) (conj verdict (f ∷ es)) h.0
        (Says-combine verdict f es h.1)

  Says-combine_all :
      (verdict : Expr Scalar M → Bool) (es : List (Expr Scalar M))
      → All (λ e. Says (some e) (verdict e)) es
      → Says (combine_all and es) (conj verdict es)
  unfolding boolean_expr eval
  Says-combine_all verdict [] h = (always_true, refl, refl)
  Says-combine_all verdict (e ∷ es) h = Says-combine verdict e es h

  -- Where the filters of a plan are built and evaluated without an error on a row group, the filter at
  -- its scan keeps the row group exactly if each of them does: a filter on the result of an
  -- aggregation counts too.
  pub filter_push_down-Says :
      (verdict : Expr Scalar M → Bool) (plan : LogicalPlan Scalar M)
      → (scan_of plan).filter ≡ none
      → All (λ e. Says (some e) (verdict e)) (filters plan)
      → Says (scan_of (filter_push_down plan)).filter (conj verdict (filters plan))
  filter_push_down-Says verdict plan none_yet h =
      subst⁻¹ (λ (e : Option (Expr Scalar M)). Says e (conj verdict (filters plan)))
        (scan-push_down plan none_yet) (Says-combine_all verdict (filters plan) h)
