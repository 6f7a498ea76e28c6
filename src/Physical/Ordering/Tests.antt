-- ===== src/Physical/Ordering/Tests.antt =====
-- Concrete orderings.
use frostdb.Base.{
  ℕ, ◌<◌, ◌≡◌, refl, sym, ◌∙◌, Bool, true, false, List, [], ◌∷◌, inl, inr, ◌==◌, ==_iff, arith,
  if◌then◌else◌,
}
use frostdb.Filter.{name_eq}
use frostdb.Plan.{Expr, binary, column, literal, accept}
use frostdb.Plan.Op.{eq, or}
use frostdb.Plan.Exprs.{Names, columns_used_exprs, match_column}
use frostdb.Physical.Ordering.{
  init, maintained, OrderingInfo, new_node, next_state, node_maintains_ordering, maintained_state,
  ordering_maintained, apply_filter, equality_columns, count_covered, get_non_covering_ordering,
  should_plan_ordered_aggregate, match_groups, yes, panics,
}
use frostdb.Physical.Ordering.Visits.{visits, ordering_maintained-visits}
use frostdb.Physical.Ordering.Covered.{equals, InOrder, Fixes}
use frostdb.Physical.Ordering.Sorted.{all_static, columns, should_plan-InOrder}

abbrev a : List ℕ
a = 97 ∷ []

abbrev b : List ℕ
b = 98 ∷ []

abbrev start : OrderingInfo
start = record { state = init; sorting_cols = all_static (a ∷ b ∷ []); filter_cover_idx = 0 }

-- Two operators behind the scan do not maintain the order, which is forgotten.
ordering_maintained-visits_example :
    ordering_maintained (new_node (visits 2 (node_maintains_ordering (new_node start)))) ≡ true
ordering_maintained-visits_example = ordering_maintained-visits 2 start (inl refl)

-- One that does not, and then one that does: it is forgotten too.
maintained_behind :
    ordering_maintained (
      new_node
        (node_maintains_ordering (new_node (new_node (node_maintains_ordering (new_node start))))))
    ≡ true
unfolding new_node next_state node_maintains_ordering maintained_state
maintained_behind = refl

abbrev is : List ℕ → ℕ → Expr ℕ ℕ
is c n = binary (column c) eq (literal n)

abbrev names : Names ℕ ℕ
names = record { scalar_string = λ s. []; regexp_string = λ m. []; match_string = λ m s. false }

abbrev scanned : OrderingInfo
scanned = record start { state = maintained }

-- A disjunction counts as if both sides held.
disjunction_covers : (apply_filter (binary (is a 1) or (is b 2)) scanned).filter_cover_idx ≡ 2
unfolding apply_filter equality_columns count_covered accept
disjunction_covers = refl

-- Two filters on one column cover two columns, and with a third the next aggregation panics.
twice_covers : (apply_filter (is a 1) (apply_filter (is a 1) scanned)).filter_cover_idx ≡ 2
unfolding apply_filter equality_columns count_covered accept
twice_covers = refl

thrice_panics :
    should_plan_ordered_aggregate names true
      (apply_filter (is a 1) (apply_filter (is a 1) (apply_filter (is a 1) scanned)))
      []
      []
    ≡ panics
unfolding apply_filter equality_columns count_covered accept should_plan_ordered_aggregate
    get_non_covering_ordering
thrice_panics = refl

abbrev row : ℕ → ℕ → List ℕ → ℕ
row x y c = if name_eq c a then x else y

abbrev holds : (List ℕ → ℕ) → Expr ℕ ℕ → Bool
holds r (binary (column c) eq (literal n)) = r c == n
holds r e = true

fixes : Fixes (row 1 2) (row 1 3) (holds (row 1 2)) (holds (row 1 3))
fixes c v m n = (==_iff (row 1 2 c) v).0 m ∙ sym ((==_iff (row 1 3 c) v).0 n)

planned_b :
    should_plan_ordered_aggregate names true (apply_filter (is a 1) scanned) [] (columns (b ∷ []))
    ≡ yes
unfolding apply_filter equality_columns count_covered accept should_plan_ordered_aggregate
    get_non_covering_ordering match_groups columns_used_exprs match_column
planned_b = refl

-- Under a filter on the first sorting column, groups by the second come in order.
should_plan-InOrder_example : InOrder (λ x y. x < y) (all_static (b ∷ [])) (row 1 2) (row 1 3)
should_plan-InOrder_example =
    should_plan-InOrder names (λ x y. x < y) (row 1 2) (row 1 3) (holds (row 1 2)) (holds (row 1 3))
      true scanned (a ∷ b ∷ []) (b ∷ []) [] fixes (λ v h. omega (arith, h)) (equals a 1) refl refl
      refl planned_b refl refl (inr (refl, inl (omega arith)))
