-- ===== src/Physical/Ordering/Sorted.antt =====
-- An ordered aggregation is planned only over rows in the order of its groups.
use mathlib.Core.Path.{subst}
use frostdb.Base.{
  ℕ, zero, suc, ◌+◌, Bool, true, false, some, List, [], ◌∷◌, ◌≡◌, refl, sym, ap, ◌∙◌, ◌⊎◌, inl, inr,
  if◌then◌else◌, arith,
}
use frostdb.Filter.{name_eq, name_eq-eq}
use frostdb.Plan.{Expr, column}
use frostdb.Plan.Exprs.{Names, columns_used_exprs, match_column}
use frostdb.Plan.Filters.{meaning}
use frostdb.Physical.Ordering.{
  SortingColumn, OrderingInfo, apply_filter, equality_columns, count_covered, slice_from,
  get_non_covering_ordering, yes, no, matched, match_groups, with_ordering,
  should_plan_ordered_aggregate, is_invalidated, is_maintained,
}
use frostdb.Physical.Ordering.Covered.{
  IsConjunction, InOrder, Fixes, equality_columns-Agree, count_covered-InOrder,
}

abbrev pub static : List ℕ → SortingColumn
static c = record { name = c; dynamic = false }

abbrev pub all_static : List (List ℕ) → List SortingColumn
all_static [] = []
all_static (c ∷ cs) = static c ∷ all_static cs

-- The expressions of groups by columns.
abbrev pub columns : {S M : Type 0} → List (List ℕ) → List (Expr S M)
columns [] = []
columns (c ∷ cs) = column c ∷ columns cs

otherwise : {A : Type 0} (b : Bool) (x y : A) → b ≡ false → (if b then x else y) ≡ y
otherwise true x y h = absurd (cc)
otherwise false x y h = refl

add_zero_left : (n k : ℕ) → n ≡ 0 → n + k ≡ k
add_zero_left n k h = omega (arith, h)

module _ {S M V : Type 0} (names : Names S M) (less : V → V → Type 0) (r s : List ℕ → V) where
  groups-InOrder :
      (gs cols : List (List ℕ))
      → match_groups names (columns {S = S} {M = M} gs) (all_static cols) ≡ yes
      → InOrder less (all_static cols) r s
      → InOrder less (all_static gs) r s
  unfolding match_groups columns_used_exprs match_column
  groups-InOrder [] cols h o = tt
  groups-InOrder (g ∷ gs) [] h o = absurd (cc)
  groups-InOrder (g ∷ gs) (c ∷ cols) h o =
      go (name_eq g c) refl h (λ k p. groups-InOrder gs cols k p)
    where
      go :
          (b : Bool)
          → name_eq g c ≡ b
          → matched names
              (some b)
              (match_groups names (columns {S = S} {M = M} gs) (all_static cols))
            ≡ yes
          → (match_groups names (columns {S = S} {M = M} gs) (all_static cols) ≡ yes
              → InOrder less (all_static cols) r s
              → InOrder less (all_static gs) r s)
          → less (r g) (s g) ⊎ ((r g ≡ s g) × InOrder less (all_static gs) r s)
      go false e k f = absurd (cc)
      go true e k f =
          subst
            (λ (x : List ℕ). less (r x) (s x) ⊎ ((r x ≡ s x) × InOrder less (all_static gs) r s))
            (sym (name_eq-eq g c e)) (elim o [ inl l ↦ inl l | inr p ↦ inr (p.0, f k p.1) ])

  -- The columns of an ordering that is left are columns of the ordering.
  slice-static :
      (n : ℕ) (cols : List (List ℕ)) (rest : List SortingColumn)
      → slice_from n (all_static cols) ≡ some rest
      → (left : List (List ℕ)) × (rest ≡ all_static left)
  slice-static zero cols rest h = (cols, cc)
  slice-static (suc n) [] rest h = absurd (cc)
  slice-static (suc n) (c ∷ cols) rest h = slice-static n cols rest h

  planned :
      (enabled : Bool) (i : OrderingInfo) (aggs groups : List (Expr S M))
      → should_plan_ordered_aggregate names enabled i aggs groups ≡ yes
      → with_ordering names (get_non_covering_ordering i) groups ≡ yes
  unfolding should_plan_ordered_aggregate
  planned false i aggs groups h = absurd (cc)
  planned true i (a ∷ b ∷ aggs) groups h = absurd (cc)
  planned true i [] groups h = when (is_maintained i.state) h
    where
      when :
          (b : Bool)
          → (if b then with_ordering names (get_non_covering_ordering i) groups else no) ≡ yes
          → with_ordering names (get_non_covering_ordering i) groups ≡ yes
      when true k = k
      when false k = absurd (cc)
  planned true i (a ∷ []) groups h = when (is_maintained i.state) h
    where
      when :
          (b : Bool)
          → (if b then with_ordering names (get_non_covering_ordering i) groups else no) ≡ yes
          → with_ordering names (get_non_covering_ordering i) groups ≡ yes
      when true k = k
      when false k = absurd (cc)

  ordering :
      (e : Expr S M) (i : OrderingInfo) (cols : List (List ℕ))
      → i.sorting_cols ≡ all_static cols
      → i.filter_cover_idx ≡ 0
      → is_invalidated i.state ≡ false
      → get_non_covering_ordering (apply_filter e i)
        ≡ slice_from (count_covered (equality_columns e) (all_static cols)) (all_static cols)
  unfolding apply_filter get_non_covering_ordering
  ordering e i cols sorting start valid =
      let n = count_covered (equality_columns e) i.sorting_cols in
      let j = record i { filter_cover_idx = i.filter_cover_idx + n } in
      ap (λ (x : OrderingInfo). slice_from x.filter_cover_idx x.sorting_cols)
        (otherwise (is_invalidated i.state) i j valid)
      ∙ ap (λ k. slice_from k i.sorting_cols) (add_zero_left i.filter_cover_idx n start)
      ∙ ap (λ l. slice_from (count_covered (equality_columns e) l) l) sorting

  -- Behind one filter that is a conjunction of comparisons of columns with literals, an ordered
  -- aggregation is planned for groups by columns only if any two rows that pass the filter and come in
  -- the order of the sorting columns of the table, none of them dynamic, come in the order of the
  -- groups.
  pub should_plan-InOrder :
      (of_r of_s : Expr S M → Bool) {e : Expr S M} (enabled : Bool) (i : OrderingInfo)
      (cols gs : List (List ℕ)) (aggs : List (Expr S M))
      → Fixes r s of_r of_s
      → ((v : V) → less v v → ⊥)
      → IsConjunction e
      → i.sorting_cols ≡ all_static cols
      → i.filter_cover_idx ≡ 0
      → is_invalidated i.state ≡ false
      → should_plan_ordered_aggregate names enabled (apply_filter e i) aggs (columns gs) ≡ yes
      → meaning of_r e ≡ true
      → meaning of_s e ≡ true
      → InOrder less (all_static cols) r s
      → InOrder less (all_static gs) r s
  unfolding apply_filter get_non_covering_ordering
  should_plan-InOrder of_r of_s {e} enabled i cols gs aggs fixes irr conj sorting start valid plan m
        n o =
      let eqs = equality_columns e in
      let (rest, cut, left) =
        count_covered-InOrder r s of_r of_s less eqs (all_static cols) irr
          (equality_columns-Agree r s of_r of_s fixes conj m n) o in
      let (ls, same) = slice-static (count_covered eqs (all_static cols)) cols rest cut in
      groups-InOrder gs ls
        (sym (
            ap (λ x. with_ordering names x (columns gs))
              (ordering e i cols sorting start valid ∙ cut ∙ ap some same))
          ∙ planned enabled (apply_filter e i) aggs (columns gs) plan)
        (subst (λ (x : List SortingColumn). InOrder less x r s) same left)
