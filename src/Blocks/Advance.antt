-- ===== src/Blocks/Advance.antt =====
-- The loop of writeBlock over the completed blocks of a chain: the block number `i` begins at
-- transaction `t (suc i)`, and the block before it at `t i`.
use mathlib.Core.Path.{subst}
use frostdb.Base.{
  ℕ, zero, suc, ◌≤◌, ◌<◌, Bool, true, false, List, [], ◌∷◌, ◌==◌, if◌then◌else◌, Elem, All, ◌≡◌,
  ◌≢◌, refl, sym, ap, ◌∙◌, ◌⊎◌, inl, inr, arith, ==_iff,
}
use frostdb.Blocks.{CompletedBlock, Completion, advance}
use frostdb.Blocks.Sorting.{Below, IsIncreasing}

module _ (t : ℕ → ℕ) (grows : (i : ℕ) → t i < t (suc i)) where
  abbrev pub block : ℕ → CompletedBlock
  block i = record { prev_tx = t i; tx = t (suc i) }

  pub t_mono : (i j : ℕ) → i ≤ j → t i ≤ t j
  t_mono i zero h = subst (λ (k : ℕ). t k ≤ t 0) (sym (zero_le i h)) (omega arith)
    where
      zero_le : (i : ℕ) → i ≤ 0 → i ≡ 0
      zero_le i h = omega (arith, h)
  t_mono i (suc j) h = elim (le-cases i j h) [
    | inl l ↦ omega (arith, t_mono i j l, grows j)
    | inr e ↦ subst (λ (k : ℕ). t i ≤ t k) e (omega arith)
  ]
    where
      le-cases : (i j : ℕ) → i ≤ suc j → (i ≤ j) ⊎ (i ≡ suc j)
      le-cases i j h = ground arith

  pub t_injective : (i j : ℕ) → t i ≡ t j → i ≡ j
  t_injective i j h = elim (three i j) [
    | inl l ↦ absurd (less i j l h)
    | inr r ↦ elim r [ inl e ↦ e | inr l ↦ absurd (less j i l (sym h)) ]
  ]
    where
      three : (i j : ℕ) → (i < j) ⊎ ((i ≡ j) ⊎ (j < i))
      three i j = ground arith

      less : (i j : ℕ) → i < j → t i ≡ t j → ⊥
      less i j l h = omega (arith, t_mono (suc i) j l, grows i, h)

  -- A block that is completed and is not before block `k`.
  abbrev pub FromOn : List ℕ → ℕ → CompletedBlock → Type 0
  FromOn is k b = (j : ℕ) × (b ≡ block j) × (k ≤ j) × Elem j is

  -- All completed blocks are accounted for.
  abbrev pub Covers : List ℕ → ℕ → List CompletedBlock → Type 0
  Covers is k bs = (j : ℕ) → Elem j is → (j < k) ⊎ Elem (block j) bs

  -- Exactly the blocks before `k` make up the beginning of the chain that is completed.
  abbrev pub IsProgress : List ℕ → Completion → Type 0
  IsProgress is c =
      (k : ℕ) × (c.last_completed ≡ t k)
      × ((j : ℕ) → j < k → Elem j is)
      × (Elem k is → ⊥)
      × All (FromOn is k) c.completed_blocks
      × Covers is k c.completed_blocks
      × IsIncreasing c.completed_blocks

  later :
      (is : List ℕ) (k : ℕ) (b c : CompletedBlock)
      → b.prev_tx ≡ t k
      → Below b c
      → FromOn is k c
      → FromOn is (suc k) c
  later is k b c e l (j, f, h, m) = (j, f, next k j h different, m)
    where
      different : k ≢ j
      different g = omega (arith, e, l, ap (λ (x : CompletedBlock). x.prev_tx) f, ap t g)

      next : (k j : ℕ) → k ≤ j → k ≢ j → suc k ≤ j
      next k j h d = ground arith

  All-later :
      (is : List ℕ) (k : ℕ) (b : CompletedBlock) (bs : List CompletedBlock)
      → b.prev_tx ≡ t k
      → All (Below b) bs
      → All (FromOn is k) bs
      → All (FromOn is (suc k)) bs
  All-later is k b [] e l h = tt
  All-later is k b (c ∷ bs) e l h = (later is k b c e l.0 h.0, All-later is k b bs e l.1 h.1)

  -- The block at which the loop stops is not completed.
  not_there :
      (is : List ℕ) (k : ℕ) (b : CompletedBlock) (bs : List CompletedBlock)
      → b.prev_tx ≢ t k
      → FromOn is k b
      → All (Below b) bs
      → Elem (block k) (b ∷ bs)
      → ⊥
  not_there is k b bs d f l (inl e) = d (sym (ap (λ (x : CompletedBlock). x.prev_tx) e))
  not_there is k b (c ∷ bs) d (j, f, h, m) l (inr (inl e)) = omega (
    arith,
    l.0,
    ap (λ (x : CompletedBlock). x.prev_tx) e,
    ap (λ (x : CompletedBlock). x.prev_tx) f,
    t_mono k j h,
  )
  not_there is k b (c ∷ bs) d f l (inr (inr e)) = not_there is k b bs d f l.1 (inr e)
  not_there is k b [] d f l (inr e) = elim e [ ]

  pub advance-IsProgress :
      (is : List ℕ) (k : ℕ) (last : ℕ) (bs : List CompletedBlock)
      → last ≡ t k
      → ((j : ℕ) → j < k → Elem j is)
      → All (FromOn is k) bs
      → Covers is k bs
      → IsIncreasing bs
      → IsProgress is (advance last bs)
  unfolding advance
  advance-IsProgress is k last [] e below from covers inc =
      (k, e, below, λ m. absurd (nothing k (covers k m)), tt, covers, tt)
    where
      nothing : (k : ℕ) → (k < k) ⊎ ⊥ → ⊥
      nothing k (inl l) = omega (arith, l)
      nothing k (inr z) = z
  advance-IsProgress is k last (b ∷ bs) e below from covers inc = go (b.prev_tx == last) refl (λ h.
      let q = h ∙ e in
      let (j, f, l, m) = from.0 in
      let same = t_injective j k (sym (ap (λ (x : CompletedBlock). x.prev_tx) f) ∙ q) in
      advance-IsProgress is (suc k) b.tx bs
        (ap (λ (x : CompletedBlock). x.tx) f ∙ ap (λ i. t (suc i)) same)
        (λ i n. elim (split i k n) [
          | inl l ↦ below i l
          | inr u ↦ subst (λ (x : ℕ). Elem x is) (same ∙ sym u) m
        ])
        (All-later is k b bs q inc.0 from.1)
        (λ i n. elim (covers i n) [
          | inl l ↦ inl (omega (arith, l))
          | inr r ↦ elim r [
            | inl u ↦
                inl (suc_le i k (t_injective i k (ap (λ (x : CompletedBlock). x.prev_tx) u ∙ q)))
            | inr r ↦ inr r
          ]
        ])
        inc.1)
    where
      split : (i k : ℕ) → i < suc k → (i < k) ⊎ (i ≡ k)
      split i k n = ground arith

      suc_le : (i k : ℕ) → i ≡ k → i < suc k
      suc_le i k e = omega (arith, e)

      differ : (a c : ℕ) → (a == c) ≡ false → a ≢ c
      differ a c h g = ground arith

      go :
          (x : Bool)
          → (b.prev_tx == last) ≡ x
          → (b.prev_tx ≡ last → IsProgress is (advance b.tx bs))
          → IsProgress is (
              if x
              then advance b.tx bs
              else record { completed_blocks = b ∷ bs; last_completed = last })
      go true h f = f ((==_iff b.prev_tx last).0 h)
      go false h f = (
        k,
        e,
        below,
        λ m. elim (covers k m) [
          | inl l ↦ omega (arith, l)
          | inr r ↦ not_there is k b bs (λ q. differ b.prev_tx last h (q ∙ sym e)) from.0 inc.0 r
        ],
        from,
        covers,
        inc,
      )
