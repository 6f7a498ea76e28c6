-- ===== src/Blocks/Progress.antt =====
-- A table whose blocks complete in any order, and the truncation of the log.
use mathlib.Core.Path.{subst}
use frostdb.Base.{
  ℕ, suc, ◌≤◌, ◌<◌, List, [], ◌∷◌, ◌++◌, Elem, All, All-append, All-map_of, ◌≡◌, refl, sym, ap, ◌∙◌,
  ◌⊎◌, inl, inr, arith,
}
use frostdb.Blocks.{CompletedBlock, Completion, sort_by_prev, complete_block, no_blocks}
use frostdb.Blocks.Sorting.{Apart, AreApart, IsIncreasing, All-sort, sort-IsIncreasing, sort-Elem}
use frostdb.Blocks.Advance.{block, t_injective, FromOn, IsProgress, advance-IsProgress}

IsIncreasing-AreApart : (bs : List CompletedBlock) → IsIncreasing bs → AreApart bs
IsIncreasing-AreApart [] h = tt
IsIncreasing-AreApart (b ∷ bs) h =
    (All-map_of bs (λ c l e. omega (arith, l, e)) h.0, IsIncreasing-AreApart bs h.1)

snoc-AreApart :
    (bs : List CompletedBlock) (x : CompletedBlock)
    → AreApart bs
    → All (λ b. Apart b x) bs
    → AreApart (bs ++ x ∷ [])
snoc-AreApart [] x h k = (tt, tt)
snoc-AreApart (b ∷ bs) x h k =
    (All-append (Apart b) bs (x ∷ []) h.0 (k.0, tt), snoc-AreApart bs x h.1 k.1)

Elem-snoc :
    (x b : CompletedBlock) (bs : List CompletedBlock) → (x ≡ b) ⊎ Elem x bs → Elem x (bs ++ b ∷ [])
Elem-snoc x b [] (inl e) = inl e
Elem-snoc x b [] (inr h) = inr h
Elem-snoc x b (c ∷ bs) (inl e) = inr (Elem-snoc x b bs (inl e))
Elem-snoc x b (c ∷ bs) (inr (inl e)) = inl e
Elem-snoc x b (c ∷ bs) (inr (inr h)) = inr (Elem-snoc x b bs (inr h))

-- No block completes twice.
abbrev pub NoRepeats : List ℕ → Type 0
NoRepeats [] = Unit
NoRepeats (i ∷ is) = (Elem i is → ⊥) × NoRepeats is

module _ (t : ℕ → ℕ) (grows : (i : ℕ) → t i < t (suc i)) where
  -- The table when the blocks of the list have completed, the last of them first.
  abbrev pub completed : List ℕ → Completion
  completed [] = no_blocks
  completed (i ∷ is) = complete_block (block t grows i) (completed is)

  complete-IsProgress :
      (is : List ℕ) (i : ℕ) (c : Completion)
      → (Elem i is → ⊥)
      → IsProgress t grows is c
      → IsProgress t grows (i ∷ is) (complete_block (block t grows i) c)
  unfolding complete_block
  complete-IsProgress is i c new (k, e, below, next, from, covers, inc) =
      let b = block t grows i in
      let bs = c.completed_blocks ++ b ∷ [] in
      advance-IsProgress t grows (i ∷ is) k c.last_completed (sort_by_prev bs) e
        (λ j l. inr (below j l))
        (All-sort (FromOn t grows (i ∷ is) k) bs (
          All-append (FromOn t grows (i ∷ is) k) c.completed_blocks (b ∷ [])
            (All-map_of c.completed_blocks (λ d f. let (j, u, l, m) = f in (j, u, l, inr m)) from)
            ((i, refl, behind (λ l. new (below i l)), inl refl), tt)))
        (λ j m. elim m [
          | inl u ↦ inr (
              sort-Elem (block t grows j) bs (
                Elem-snoc (block t grows j) b c.completed_blocks
                  (inl (ap (λ n. block t grows n) u))))
          | inr m ↦ elim (covers j m) [
            | inl l ↦ inl l
            | inr r ↦ inr (
                sort-Elem (block t grows j) bs
                  (Elem-snoc (block t grows j) b c.completed_blocks (inr r)))
          ]
        ])
        (sort-IsIncreasing bs (
          snoc-AreApart c.completed_blocks b (IsIncreasing-AreApart c.completed_blocks inc)
            (All-map_of c.completed_blocks (λ d f. apart d f) from)))
    where
      behind : (i < k → ⊥) → k ≤ i
      behind h = ground arith

      apart : (d : CompletedBlock) → FromOn t grows is k d → Apart d (block t grows i)
      apart d (j, u, l, m) q = new (
          subst (λ (n : ℕ). Elem n is)
            (t_injective t grows j i (sym (ap (λ (x : CompletedBlock). x.prev_tx) u) ∙ q)) m)

  completed-IsProgress :
      (is : List ℕ) → t 0 ≡ 0 → NoRepeats is → IsProgress t grows is (completed is)
  completed-IsProgress [] z h =
      (0, sym z, λ j l. absurd (none_below j l), λ e. e, tt, λ j e. absurd e, tt)
    where
      none_below : (j : ℕ) → j < 0 → ⊥
      none_below j l = omega (arith, l)
  completed-IsProgress (i ∷ is) z h =
      complete-IsProgress is i (completed is) h.0 (completed-IsProgress is z h.1)

  -- For a table whose first block has the previous transaction 0, as one that is not loaded from a
  -- snapshot, and whatever the order in which its blocks complete, each at most once: its last completed
  -- transaction is the one at which the last block of the longest completed beginning of the chain
  -- begins, the block behind those not being completed.
  pub completed_prefix :
      (is : List ℕ)
      → t 0 ≡ 0
      → NoRepeats is
      → (k : ℕ) × ((completed is).last_completed ≡ t k)
        × ((j : ℕ) → j < k → Elem j is)
        × (Elem k is → ⊥)
  completed_prefix is z h =
      let (k, e, below, next, from, covers, inc) = completed-IsProgress is z h in
      (k, e, below, next)
