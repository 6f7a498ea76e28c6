-- ===== src/Parts/Chains.antt =====
-- FindMaximumNonOverlappingSet keeps parts that do not overlap, as many as there can be but for one.
use frostdb.Base.{Bool, true, false, List, [], ◌∷◌, ◌++◌, ◌≡◌, refl, sym, ap, ◌∙◌, ◌⊎◌, All}
use frostdb.Parts.{Part, Sweep, is_last}
use frostdb.Parts.Runs.{moved, swept, moved_by}

-- The rows of parts in the order of a schema.
pub record RowOrder (R : Type 0) : Type 0 where
  pub leq : R → R → Bool
  pub leq_trans : (a b c : R) → leq a b ≡ true → leq b c ≡ true → leq a c ≡ true
  pub leq_total : (a b : R) → leq a b ≡ false → leq b a ≡ true

module _ {R E : Type 0} (o : RowOrder R) (start end : Part R E → R) where
  -- The end of one part is not behind the start of the next.
  abbrev pub Follows : Part R E → Part R E → Type 0
  Follows p q = o.leq (end p) (start q) ≡ true

  abbrev pub Before : Part R E → Part R E → Type 0
  Before p q = o.leq (start p) (start q) ≡ true

  -- No part overlaps the next.
  abbrev pub IsChain : List (Part R E) → Type 0
  IsChain [] = Unit
  IsChain (p ∷ []) = Unit
  IsChain (p ∷ q ∷ ps) = Follows p q × IsChain (q ∷ ps)

  -- The parts are sorted by their starts.
  abbrev pub IsSorted : List (Part R E) → Type 0
  IsSorted [] = Unit
  IsSorted (p ∷ ps) = All (Before p) ps × IsSorted ps

  -- Some of the parts, in their order.
  abbrev pub IsSublist : List (Part R E) → List (Part R E) → Type 0
  IsSublist [] ys = Unit
  IsSublist (x ∷ xs) [] = ⊥
  IsSublist (x ∷ xs) (y ∷ ys) = ((x ≡ y) × IsSublist xs ys) ⊎ IsSublist (x ∷ xs) ys

  snoc-IsChain :
      (xs : List (Part R E)) (p q : Part R E)
      → IsChain (xs ++ p ∷ [])
      → Follows p q
      → IsChain ((xs ++ p ∷ []) ++ q ∷ [])
  snoc-IsChain [] p q h f = (f, tt)
  snoc-IsChain (x ∷ []) p q h f = (h.0, (f, tt))
  snoc-IsChain (x ∷ y ∷ xs) p q h f = (h.0, snoc-IsChain (y ∷ xs) p q h.1 f)

  replace-IsChain :
      (xs : List (Part R E)) (p q : Part R E)
      → IsChain (xs ++ p ∷ [])
      → Before p q
      → IsChain (xs ++ q ∷ [])
  replace-IsChain [] p q h b = tt
  replace-IsChain (x ∷ []) p q h b = (o.leq_trans (end x) (start p) (start q) h.0 b, tt)
  replace-IsChain (x ∷ y ∷ xs) p q h b = (h.0, replace-IsChain (y ∷ xs) p q h.1 b)

  pub init-IsChain : (xs : List (Part R E)) (p : Part R E) → IsChain (xs ++ p ∷ []) → IsChain xs
  init-IsChain [] p h = tt
  init-IsChain (x ∷ []) p h = tt
  init-IsChain (x ∷ y ∷ xs) p h = (h.0, init-IsChain (y ∷ xs) p h.1)

  -- What the loop keeps, with the parts that it has not met.
  abbrev pub Kept : List (Part R E) → Sweep R E → Type 0
  Kept xs s =
      (s.prev_end ≡ end s.prev)
      × IsChain (s.non_overlapping ++ s.prev ∷ [])
      × All (Before s.prev) xs

  moved-Kept :
      (b : Bool) (x : Part R E) (xs : List (Part R E)) (s : Sweep R E)
      → All (Before x) xs
      → Kept (x ∷ xs) s
      → Kept xs (moved o.leq start end b x s)
  moved-Kept b x xs s a (e, c, f) =
      moved_by o.leq start end (Kept xs) b x s
        (λ h. (
          refl,
          snoc-IsChain s.non_overlapping s.prev x c (ap (λ r. o.leq r (start x)) (sym e) ∙ h),
          a,
        ))
        (λ h k. (refl, replace-IsChain s.non_overlapping s.prev x c f.0, a)) (λ h k. (e, c, f.1))

  pub swept-Kept :
      (xs : List (Part R E)) (s : Sweep R E)
      → IsSorted xs
      → Kept xs s
      → Kept [] (swept o.leq start end xs s)
  swept-Kept [] s i h = h
  swept-Kept (x ∷ xs) s i h =
      swept-Kept xs (moved o.leq start end (is_last xs) x s) i.1
        (moved-Kept (is_last xs) x xs s i.0 h)
