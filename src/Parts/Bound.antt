-- ===== src/Parts/Bound.antt =====
-- FindMaximumNonOverlappingSet keeps as many parts as there can be without an overlap, but for one.
use mathlib.Core.Path.{subst}
use frostdb.Base.{
  ℕ, suc, ◌+◌, ◌≤◌, ◌<◌, Bool, true, false, List, [], ◌∷◌, length, length-append, ◌≡◌, refl, sym,
  ap, ◌∙◌, ◌⊎◌, inl, inr, arith, Bool-cases,
}
use frostdb.Parts.{Part, Sweep, is_last}
use frostdb.Parts.Runs.{moved, swept, first_sweep, moved_by}
use frostdb.Parts.Chains.{RowOrder, Follows, IsChain, IsSublist}

leq_refl : {R : Type 0} (o : RowOrder R) (a : R) → o.leq a a ≡ true
leq_refl o a = elim (Bool-cases (o.leq a a)) [ inl h ↦ h | inr h ↦ o.leq_total a a h ]

module _ {R E : Type 0} (o : RowOrder R) (start end : Part R E → R) where
  abbrev pub kept_count : Sweep R E → ℕ
  kept_count s = suc (length s.non_overlapping)

  -- A chain of `m` parts that ends with `q` is shorter than what is kept, or does not end before it.
  abbrev Ahead : Sweep R E → ℕ → Part R E → Type 0
  Ahead s m q = (m < kept_count s) ⊎ ((m ≡ kept_count s) × (o.leq s.prev_end (end q) ≡ true))

  -- A chain that does not take the part of an iteration.
  Ahead-skipped :
      (b : Bool) (x q : Part R E) (s : Sweep R E) (m : ℕ)
      → Ahead s m q
      → Ahead (moved o.leq start end b x s) m q
  Ahead-skipped b x q s m h =
      moved_by o.leq start end (λ t. Ahead t m q) b x s
        (λ u. inl (elim h [
          | inl l ↦ omega (arith, length-append s.non_overlapping (s.prev ∷ []))
          | inr e ↦ omega (arith, length-append s.non_overlapping (s.prev ∷ []), e.0)
        ]))
        (λ u v. elim h [
          | inl l ↦ inl l
          | inr e ↦ inr (e.0, o.leq_trans (end x) s.prev_end (end q) v e.1)
        ])
        (λ u v. h)

  lt-cases : (m n : ℕ) → m < n → (suc m < n) ⊎ (suc m ≡ n)
  lt-cases m n h = ground arith

  -- A chain that does, shorter before.
  Ahead-taken :
      (b : Bool) (x : Part R E) (s : Sweep R E) (m : ℕ)
      → m < kept_count s
      → Ahead (moved o.leq start end b x s) (suc m) x
  Ahead-taken b x s m h =
      moved_by o.leq start end (λ t. Ahead t (suc m) x) b x s
        (λ u. inl (omega (arith, length-append s.non_overlapping (s.prev ∷ []))))
        (λ u v. elim (lt-cases m (kept_count s) h) [
          | inl l ↦ inl l
          | inr e ↦ inr (e, leq_refl o (end x))
        ])
        (λ u v. elim (lt-cases m (kept_count s) h) [
          | inl l ↦ inl l
          | inr e ↦ inr (e, o.leq_total (end x) s.prev_end v)
        ])

  -- A chain as long as what is kept, before: then the part does not overlap.
  Ahead-followed :
      (b : Bool) (x q : Part R E) (s : Sweep R E) (m : ℕ)
      → Ahead s m q
      → Follows o start end q x
      → Ahead (moved o.leq start end b x s) (suc m) x
  Ahead-followed b x q s m (inl h) f = Ahead-taken b x s m h
  Ahead-followed b x q s m (inr (e, l)) f =
      let follows = o.leq_trans s.prev_end (end q) (start x) l f in
      moved_by o.leq start end (λ t. Ahead t (suc m) x) b x s
        (λ u.
          inr (omega (arith, length-append s.non_overlapping (s.prev ∷ []), e), leq_refl o (end x)))
        (λ u v. absurd (true_false (sym follows ∙ u)))
        (λ u v. absurd (true_false (sym follows ∙ u)))
    where
      true_false : true ≡ false → ⊥
      true_false h = ground arith

  chain_bound :
      (xs c : List (Part R E)) (q : Part R E) (s : Sweep R E) (m : ℕ)
      → Ahead s m q
      → IsSublist o start end c xs
      → IsChain o start end (q ∷ c)
      → m + length c ≤ kept_count (swept o.leq start end xs s)
  chain_bound [] [] q s m h i k = elim h [ inl l ↦ omega arith | inr e ↦ omega (arith, e.0) ]
  chain_bound [] (y ∷ c) q s m h i k = elim i [ ]
  chain_bound (x ∷ xs) [] q s m h i k =
      chain_bound xs [] q (moved o.leq start end (is_last xs) x s) m
        (Ahead-skipped (is_last xs) x q s m h) tt tt
  chain_bound (x ∷ xs) (y ∷ c) q s m h (inr i) k =
      chain_bound xs (y ∷ c) q (moved o.leq start end (is_last xs) x s) m
        (Ahead-skipped (is_last xs) x q s m h) i k
  chain_bound (x ∷ xs) (y ∷ c) q s m h (inl (e, i)) k =
      let rest =
        chain_bound xs c x (moved o.leq start end (is_last xs) x s) (suc m)
          (Ahead-followed (is_last xs) x q s m h (ap (λ z. o.leq (end q) (start z)) (sym e) ∙ k.0))
          i (subst (λ (z : Part R E). IsChain o start end (z ∷ c)) e k.1) in
      omega (arith, rest)

  -- No chain of the parts that come is longer than what is kept at the end.
  pub any_chain_bound :
      (xs c : List (Part R E)) (s : Sweep R E)
      → IsSublist o start end c xs
      → IsChain o start end c
      → length c ≤ kept_count (swept o.leq start end xs s)
  any_chain_bound xs [] s i k = omega arith
  any_chain_bound [] (y ∷ c) s i k = elim i [ ]
  any_chain_bound (x ∷ xs) (y ∷ c) s (inr i) k =
      any_chain_bound xs (y ∷ c) (moved o.leq start end (is_last xs) x s) i k
  any_chain_bound (x ∷ xs) (y ∷ c) s (inl (e, i)) k =
      let rest =
        chain_bound xs c x (moved o.leq start end (is_last xs) x s) 1
          (Ahead-taken (is_last xs) x s 0 (omega arith)) i
          (subst (λ (z : Part R E). IsChain o start end (z ∷ c)) e k) in
      omega (arith, rest)

  -- And with the first part of the loop.
  pub whole_chain_bound :
      (p : Part R E) (ps c : List (Part R E))
      → IsSublist o start end c (p ∷ ps)
      → IsChain o start end c
      → length c ≤ kept_count (swept o.leq start end ps (first_sweep o.leq start end p))
  whole_chain_bound p ps [] i k = omega arith
  whole_chain_bound p ps (y ∷ c) (inr i) k =
      any_chain_bound ps (y ∷ c) (first_sweep o.leq start end p) i k
  whole_chain_bound p ps (y ∷ c) (inl (e, i)) k =
      let rest =
        chain_bound ps c p (first_sweep o.leq start end p) 1 (inr (refl, leq_refl o (end p))) i
          (subst (λ (z : Part R E). IsChain o start end (z ∷ c)) e k) in
      omega (arith, rest)
