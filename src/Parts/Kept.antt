-- ===== src/Parts/Kept.antt =====
-- FindMaximumNonOverlappingSet loses no part and repeats none.
use frostdb.Base.{
  ℕ, ◌+◌, Bool, true, false, not, some, List, [], ◌∷◌, ◌++◌, ◌==◌, if◌then◌else◌, ◌≡◌, ◌≢◌, refl,
  ap, ◌⊎◌, inl, inr, All, All-append, arith,
}
use frostdb.Parts.{Part, Sweep, last_part, is_last, finish, ends_differently}
use frostdb.Parts.Runs.{moved, swept, moved_by}

module _ {R E : Type 0} (weight : Part R E → ℕ) where
  -- The weight of a list: with the weight that is 1 at one part and 0 elsewhere, how often it is there.
  abbrev pub total : List (Part R E) → ℕ
  total [] = 0
  total (p ∷ ps) = weight p + total ps

  pub total-append : (ps qs : List (Part R E)) → total (ps ++ qs) ≡ total ps + total qs
  total-append [] qs = omega arith
  total-append (p ∷ ps) qs = omega (arith, total-append ps qs)

  abbrev pub held : Sweep R E → ℕ
  held s = weight s.prev + total s.non_overlapping + total s.overlapping

  module _ (leq : R → R → Bool) (start end : Part R E → R) where
    held-moved :
        (last : Bool) (x : Part R E) (s : Sweep R E)
        → held (moved leq start end last x s) ≡ weight x + held s
    held-moved last x s =
        moved_by leq start end (λ t. held t ≡ weight x + held s) last x s
          (λ h. omega (arith, total-append s.non_overlapping (s.prev ∷ [])))
          (λ h k. omega (arith, total-append s.overlapping (s.prev ∷ [])))
          (λ h k. omega (arith, total-append s.overlapping (x ∷ [])))

    pub held-swept :
        (xs : List (Part R E)) (s : Sweep R E) → held (swept leq start end xs s) ≡ total xs + held s
    held-swept [] s = omega arith
    held-swept (x ∷ xs) s =
        omega
          (arith, held-moved (is_last xs) x s, held-swept xs (moved leq start end (is_last xs) x s))

module _ {R E : Type 0} where
  abbrev pub Other : Part R E → Part R E → Type 0
  Other last p = p.id ≢ last.id

  differs : (p last : Part R E) → Other last p → not (p.id == last.id) ≡ true
  differs p last h = ground arith

  ends-Other :
      (ps : List (Part R E)) (last : Part R E)
      → All (Other last) ps
      → ends_differently ps last ≡ true
  unfolding ends_differently
  ends-Other [] last h = refl
  ends-Other (p ∷ []) last h = differs p last h.0
  ends-Other (p ∷ q ∷ ps) last h = ends-Other (q ∷ ps) last h.1

  same_id : (p : Part R E) → not (p.id == p.id) ≡ false
  same_id p = ground arith

  ends-same : (ps : List (Part R E)) (p : Part R E) → ends_differently (ps ++ p ∷ []) p ≡ false
  unfolding ends_differently
  ends-same [] p = same_id p
  ends-same (q ∷ []) p = same_id p
  ends-same (q ∷ r ∷ ps) p = ends-same (r ∷ ps) p

  -- How the loop ends: at the last part, or with it dropped and the part before noted.
  abbrev pub Ended : Part R E → Sweep R E → Type 0
  Ended last s =
      ((s.prev ≡ last) × (ends_differently s.overlapping last ≡ true))
      ⊎ ((ends_differently s.overlapping last ≡ false) × (s.missing ≡ some s.prev))

  abbrev pub Earlier : Part R E → Sweep R E → Type 0
  Earlier last s = Other last s.prev × All (Other last) s.overlapping

  module _ (leq : R → R → Bool) (start end : Part R E → R) where
    moved-Earlier :
        (x last : Part R E) (s : Sweep R E) (b : Bool)
        → Other last x
        → Earlier last s
        → Earlier last (moved leq start end b x s)
    moved-Earlier x last s b o h =
        moved_by leq start end (Earlier last) b x s (λ u. (o, h.1))
          (λ u v. (o, All-append (Other last) s.overlapping (s.prev ∷ []) h.1 (h.0, tt)))
          (λ u v. (h.0, All-append (Other last) s.overlapping (x ∷ []) h.1 (o, tt)))

    moved-Ended :
        (x : Part R E) (s : Sweep R E) → Earlier x s → Ended x (moved leq start end true x s)
    moved-Ended x s h =
        moved_by leq start end (Ended x) true x s (λ u. inl (refl, ends-Other s.overlapping x h.1))
          (λ u v. inl (
            refl,
            ends-Other (s.overlapping ++ s.prev ∷ []) x
                (All-append (Other x) s.overlapping (s.prev ∷ []) h.1 (h.0, tt)),
          ))
          (λ u v. inr (ends-same s.overlapping x, refl))

    -- Every part but the last has another identity than it.
    abbrev pub OthersFirst : Part R E → List (Part R E) → Type 0
    OthersFirst last [] = Unit
    OthersFirst last (x ∷ []) = Unit
    OthersFirst last (x ∷ y ∷ xs) = Other last x × OthersFirst last (y ∷ xs)

    pub swept-Ended :
        (x : Part R E) (xs : List (Part R E)) (s : Sweep R E)
        → OthersFirst (last_part x xs) (x ∷ xs)
        → Earlier (last_part x xs) s
        → Ended (last_part x xs) (swept leq start end (x ∷ xs) s)
    swept-Ended x [] s o h = moved-Ended x s h
    swept-Ended x (y ∷ xs) s o h =
        swept-Ended y xs (moved leq start end false x s) o.1
          (moved-Earlier x (last_part y xs) s false o.0 h)

    -- What `finish` makes of a loop that has ended.
    pub total-finish :
        (weight : Part R E → ℕ) (last : Part R E) (s : Sweep R E)
        → Ended last s
        → total weight (finish s last).0 + total weight (finish s last).1 ≡ held weight s
    unfolding finish
    total-finish weight last s (inl (e, h)) =
        rw (if◌then◌else◌, h)
          (omega (arith, total-append weight s.non_overlapping (last ∷ []), ap weight e))
    total-finish weight last s (inr (h, e)) =
        rw (if◌then◌else◌, h, e) (omega (arith, total-append weight s.overlapping (s.prev ∷ [])))
