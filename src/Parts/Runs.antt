-- ===== src/Parts/Runs.antt =====
-- The loop of FindMaximumNonOverlappingSet over parts whose least and most rows are known.
use frostdb.Base.{
  Bool, true, false, none, List, [], ◌∷◌, Result, ok, ◌>>=◌, if◌then◌else◌, ◌≡◌, refl, ap, ◌∙◌, All,
}
use frostdb.Parts.{
  Part, Sweep, last_part, is_last, no_overlap, drop_previous, drop_current, finish, sweep_to,
  sweep_step, sweep, sweep_sorted, find_maximum_non_overlapping_set,
}

bind : {A B E : Type 0} (r : Result E A) (a : A) (f : A → Result E B) → r ≡ ok a → (r >>= f) ≡ f a
bind r a f h = ap (λ r. r >>= f) h

module _ {R E : Type 0} (leq : R → R → Bool) (start end : Part R E → R) where
  abbrev pub Bounded : Part R E → Type 0
  Bounded p = (p.least ≡ ok (start p)) × (p.most ≡ ok (end p))

  abbrev pub moved : Bool → Part R E → Sweep R E → Sweep R E
  moved last x s = sweep_to leq last (start x) (end x) x s

  abbrev pub swept : List (Part R E) → Sweep R E → Sweep R E
  swept [] s = s
  swept (x ∷ xs) s = swept xs (moved (is_last xs) x s)

  abbrev pub first_sweep : Part R E → Sweep R E
  first_sweep p = record {
    prev = p;
    prev_end = end p;
    non_overlapping = [];
    overlapping = [];
    missing = none;
  }

  sweep_step-moved :
      (b : Bool) (x : Part R E) (s : Sweep R E)
      → Bounded x
      → sweep_step leq b x s ≡ ok (moved b x s)
  unfolding sweep_step
  sweep_step-moved b x s h =
      bind x.least (start x) (λ t. x.most >>= λ u. ok (sweep_to leq b t u x s)) h.0
      ∙ bind x.most (end x) (λ u. ok (sweep_to leq b (start x) u x s)) h.1

  sweep-swept :
      (xs : List (Part R E)) (s : Sweep R E) → All Bounded xs → sweep leq xs s ≡ ok (swept xs s)
  unfolding sweep
  sweep-swept [] s h = refl
  sweep-swept (x ∷ xs) s h =
      bind (sweep_step leq (is_last xs) x s) (moved (is_last xs) x s) (λ t. sweep leq xs t)
        (sweep_step-moved (is_last xs) x s h.0)
      ∙ sweep-swept xs (moved (is_last xs) x s) h.1

  -- The result, from two parts on that are sorted.
  pub find-swept :
      (sort_parts : List (Part R E) → Result E (List (Part R E))) (a b p : Part R E)
      (parts ps : List (Part R E))
      → sort_parts (a ∷ b ∷ parts) ≡ ok (p ∷ ps)
      → All Bounded (p ∷ ps)
      → find_maximum_non_overlapping_set leq sort_parts (a ∷ b ∷ parts)
        ≡ ok (finish (swept ps (first_sweep p)) (last_part p ps))
  unfolding find_maximum_non_overlapping_set
  find-swept sort_parts a b p parts ps e h =
      bind (sort_parts (a ∷ b ∷ parts)) (p ∷ ps) (λ sorted. sweep_sorted leq sorted) e
      ∙ bind p.most (end p)
          (λ u. sweep leq ps (record (first_sweep p) { prev_end = u }) >>= λ s.
            ok (finish s (last_part p ps)))
          (h.0).1
      ∙ bind (sweep leq ps (first_sweep p)) (swept ps (first_sweep p))
          (λ s. ok (finish s (last_part p ps))) (sweep-swept ps (first_sweep p) h.1)

  -- To show something of the state behind an iteration.
  pub moved_by :
      (P : Sweep R E → Type 0) (last : Bool) (x : Part R E) (s : Sweep R E)
      → (leq s.prev_end (start x) ≡ true → P (no_overlap x (end x) s))
      → (leq s.prev_end (start x) ≡ false
          → leq (end x) s.prev_end ≡ true
          → P (drop_previous x (end x) s))
      → (leq s.prev_end (start x) ≡ false
          → leq (end x) s.prev_end ≡ false
          → P (drop_current last x s))
      → P (moved last x s)
  moved_by P last x s f g h = go (leq s.prev_end (start x)) (leq (end x) s.prev_end) refl refl
    where
      go :
          (a b : Bool)
          → leq s.prev_end (start x) ≡ a
          → leq (end x) s.prev_end ≡ b
          → P (
              if a
              then no_overlap x (end x) s
              else if b
              then drop_previous x (end x) s
              else drop_current last x s)
      go true b u v = f u
      go false true u v = g u v
      go false false u v = h u v
