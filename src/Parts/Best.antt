-- ===== src/Parts/Best.antt =====
-- FindMaximumNonOverlappingSet: what its result is.
use mathlib.Core.Path.{subst}
use frostdb.Base.{
  ℕ, suc, ◌+◌, ◌≤◌, List, [], ◌∷◌, ◌++◌, length, length-append, Result, ok, ◌≡◌, refl, ◌∙◌, inl,
  inr, All, arith, if◌then◌else◌,
}
use frostdb.Parts.{Part, Sweep, last_part, finish, find_maximum_non_overlapping_set}
use frostdb.Parts.Runs.{Bounded, swept, first_sweep, find-swept}
use frostdb.Parts.Kept.{total, held-swept, Ended, OthersFirst, swept-Ended, total-finish}
use frostdb.Parts.Chains.{RowOrder, IsChain, IsSorted, IsSublist, swept-Kept, init-IsChain}
use frostdb.Parts.Bound.{kept_count, whole_chain_bound}

module _ {R E : Type 0} (o : RowOrder R) (start end : Part R E → R) where
  finish-IsChain :
      (last : Part R E) (s : Sweep R E)
      → Ended last s
      → IsChain o start end (s.non_overlapping ++ s.prev ∷ [])
      → IsChain o start end (finish s last).0
  unfolding finish
  finish-IsChain last s (inl (e, h)) c =
      rw (if◌then◌else◌, h)
        (subst (λ (z : Part R E). IsChain o start end (s.non_overlapping ++ z ∷ [])) e c)
  finish-IsChain last s (inr (h, e)) c =
      rw (if◌then◌else◌, h) (init-IsChain o start end s.non_overlapping s.prev c)

  finish_count :
      (last : Part R E) (s : Sweep R E)
      → Ended last s
      → kept_count o start end s ≤ suc (length (finish s last).0)
  unfolding finish
  finish_count last s (inl (e, h)) =
      rw (if◌then◌else◌, h) (omega (arith, length-append s.non_overlapping (last ∷ [])))
  finish_count last s (inr (h, e)) = rw (if◌then◌else◌, h) (omega arith)

  -- What a result promises of sorted parts.
  abbrev pub IsBest : List (Part R E) → List (Part R E) × List (Part R E) → Type 0
  IsBest parts r =
      IsChain o start end r.0
      × ((weight : Part R E → ℕ) → total weight r.0 + total weight r.1 ≡ total weight parts)
      × ((c : List (Part R E))
          → IsSublist o start end c parts
          → IsChain o start end c
          → length c ≤ suc (length r.0))

  -- Of two parts or more whose rows can be read and which are distinct, FindMaximumNonOverlappingSet
  -- returns each part once, on one side or the other; no two parts that are side by side on the first
  -- one overlap; and a choice of the sorted parts in which none overlaps the next has at most one part
  -- more than the first side.
  pub find_maximum-IsBest :
      (sort_parts : List (Part R E) → Result E (List (Part R E))) (a b p x : Part R E)
      (parts ps : List (Part R E))
      → sort_parts (a ∷ b ∷ parts) ≡ ok (p ∷ x ∷ ps)
      → All (Bounded o.leq start end) (p ∷ x ∷ ps)
      → IsSorted o start end (p ∷ x ∷ ps)
      → OthersFirst o.leq start end (last_part x ps) (p ∷ x ∷ ps)
      → (r : List (Part R E) × List (Part R E)) × (find_maximum_non_overlapping_set o.leq sort_parts
            (a ∷ b ∷ parts)
          ≡ ok r)
        × IsBest (p ∷ x ∷ ps) r
  find_maximum-IsBest sort_parts a b p x parts ps e h i d =
      let s = swept o.leq start end (x ∷ ps) (first_sweep o.leq start end p) in
      let last = last_part x ps in
      let ended = swept-Ended o.leq start end x ps (first_sweep o.leq start end p) d.1 (d.0, tt) in
      let kept =
        swept-Kept o start end (x ∷ ps) (first_sweep o.leq start end p) i.1 (refl, tt, i.0) in
      (
        finish s last,
        find-swept o.leq start end sort_parts a b p parts (x ∷ ps) e h,
        (
          finish-IsChain last s ended kept.1,
          λ weight.
              total-finish o.leq start end weight last s ended
              ∙ held-swept weight o.leq start end (x ∷ ps) (first_sweep o.leq start end p)
              ∙ omega arith,
          λ c sub chain.
              let bound = whole_chain_bound o start end p (x ∷ ps) c sub chain in
              let count = finish_count last s ended in omega (arith, bound, count),
        ),
      )
