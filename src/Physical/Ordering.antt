-- ===== src/Physical/Ordering.antt =====
-- query/physicalplan/planordering.go, and shouldPlanOrderedAggregate of physicalplan.go: the order that
-- an operator can expect of its input.
pub mod Visits
pub mod Covered
pub mod Sorted
mod Tests
use frostdb.Base.{
  ℕ, zero, suc, ◌+◌, Bool, true, false, ◌||◌, Option, none, some, List, [], ◌∷◌, ◌++◌, length, ltb,
  if◌then◌else◌,
}
use frostdb.Filter.{name_eq}
use frostdb.Plan.{Op, Expr, binary, column, Visitor, accept}
use frostdb.Plan.Op.{eq}
use frostdb.Plan.Exprs.{Names, columns_used_exprs, match_column}

-- `planOrderingInfoState`
pub data State : Type 0 where
  init new_node_visited maintained invalidated : State

-- What is used of a `ColumnDefinition`.
pub record SortingColumn : Type 0 where
  pub name : List ℕ
  pub dynamic : Bool

-- `planOrderingInfo`
pub record OrderingInfo : Type 0 where
  pub state : State
  pub sorting_cols : List SortingColumn
  pub filter_cover_idx : ℕ

unfoldable pub next_state : State → State
next_state new_node_visited = invalidated
next_state s = new_node_visited

-- `newNode`
unfoldable pub new_node : OrderingInfo → OrderingInfo
unfolding next_state
new_node i = record i { state = next_state i.state }

unfoldable pub maintained_state : State → State
maintained_state new_node_visited = maintained
maintained_state s = s

-- `nodeMaintainsOrdering`
unfoldable pub node_maintains_ordering : OrderingInfo → OrderingInfo
unfolding maintained_state
node_maintains_ordering i = record i { state = maintained_state i.state }

abbrev pub is_invalidated : State → Bool
is_invalidated invalidated = true
is_invalidated s = false

abbrev pub is_maintained : State → Bool
is_maintained invalidated = false
is_maintained s = true

-- `orderingMaintained`
abbrev pub ordering_maintained : OrderingInfo → Bool
ordering_maintained i = is_maintained i.state

module _ {S M : Type 0} where
  -- What the visitor of `applyFilter` puts into `equalityColumns`.
  abbrev pub note_left : Expr S M → List (List ℕ) → List (List ℕ)
  note_left (column c) names = c ∷ names
  note_left e names = names

  abbrev pub note_equality : Expr S M → List (List ℕ) → List (List ℕ)
  note_equality (binary left eq right) names = note_left left names
  note_equality e names = names

  abbrev pub equality_visitor : Visitor S M (List (List ℕ))
  equality_visitor = record {
    pre_visit = λ e names. (true, note_equality e names);
    visit = λ e names. (true, names);
    post_visit = λ e names. (true, names);
  }

  unfoldable pub equality_columns : Expr S M → List (List ℕ)
  unfolding accept
  equality_columns e = (accept equality_visitor e []).1

abbrev pub listed : List (List ℕ) → List ℕ → Bool
listed [] n = false
listed (m ∷ names) n = name_eq m n || listed names n

-- The loop of `applyFilter` over the sorting columns: how often it counts.
unfoldable pub count_covered : List (List ℕ) → List SortingColumn → ℕ
count_covered names [] = 0
count_covered names (c ∷ cols) =
    let rest = count_covered names cols in
    if c.dynamic then 0 else if listed names c.name then suc rest else 0

-- `applyFilter`
unfoldable pub apply_filter : {S M : Type 0} → Expr S M → OrderingInfo → OrderingInfo
unfolding equality_columns count_covered
apply_filter e i = if is_invalidated i.state then i else record i {
  filter_cover_idx = i.filter_cover_idx + count_covered (equality_columns e) i.sorting_cols;
}

-- `s[n:]`; none where it panics.
abbrev pub slice_from : ℕ → List SortingColumn → Option (List SortingColumn)
slice_from zero cols = some cols
slice_from (suc n) [] = none
slice_from (suc n) (c ∷ cols) = slice_from n cols

-- `getNonCoveringOrdering`
unfoldable pub get_non_covering_ordering : OrderingInfo → Option (List SortingColumn)
get_non_covering_ordering i = slice_from i.filter_cover_idx i.sorting_cols

-- What shouldPlanOrderedAggregate results in; its error counts as a no for the caller.
pub data Planned : Type 0 where
  yes no failed panics : Planned

module _ {S M : Type 0} (names : Names S M) where
  abbrev pub order_col_name : SortingColumn → List ℕ
  order_col_name c = if c.dynamic then c.name ++ 46 ∷ [] else c.name

  abbrev pub matched : Option Bool → Planned → Planned
  matched none p = panics
  matched (some false) p = no
  matched (some true) p = p

  -- The loop over the groups. The result of the rounds that are left is given to each round.
  abbrev pub group_round :
      List (Expr S M) → List SortingColumn → (List SortingColumn → Planned) → Planned
  group_round (g ∷ h ∷ gs) ordering rest = failed
  group_round [] [] rest = no
  group_round [] (c ∷ ordering) rest = panics
  group_round (g ∷ []) [] rest = no
  group_round (g ∷ []) (c ∷ ordering) rest =
      matched (match_column names g (order_col_name c)) (rest ordering)

  unfoldable pub match_groups : List (Expr S M) → List SortingColumn → Planned
  unfolding match_column columns_used_exprs
  match_groups [] ordering = yes
  match_groups (g ∷ gs) ordering =
      group_round (columns_used_exprs g) ordering (λ rest. match_groups gs rest)

  abbrev pub with_ordering : Option (List SortingColumn) → List (Expr S M) → Planned
  with_ordering none groups = panics
  with_ordering (some ordering) groups = match_groups groups ordering

  -- `shouldPlanOrderedAggregate`, where `enabled` is the option `orderedAggregations`.
  unfoldable pub should_plan_ordered_aggregate :
      Bool → OrderingInfo → List (Expr S M) → List (Expr S M) → Planned
  unfolding get_non_covering_ordering match_groups
  should_plan_ordered_aggregate false i aggs groups = no
  should_plan_ordered_aggregate true i (a ∷ b ∷ aggs) groups = no
  should_plan_ordered_aggregate true i aggs groups =
      if ordering_maintained i then with_ordering (get_non_covering_ordering i) groups else no
