-- ===== src/Blocks/Tests.antt =====
-- Blocks that complete out of order, and a table that is loaded from a snapshot.
use frostdb.Base.{ℕ, suc, ◌+◌, ◌<◌, ◌≡◌, refl, some, List, [], ◌∷◌, Elem, inl, arith}
use frostdb.Blocks.{
  insert_by_prev, sort_by_prev, advance, complete_block, no_blocks, min_persisted_from,
  get_min_tx_persisted, maintain_wal,
}
use frostdb.Blocks.Progress.{completed, completed_prefix}
use frostdb.Blocks.MinPersisted.{maintain_wal-below}

abbrev begins : ℕ → ℕ
begins i = i + i + i

begins_grows : (i : ℕ) → begins i < begins (suc i)
begins_grows i = omega arith

-- Blocks 0, 3 and 1 have completed, in this order: the chain is completed through block 1.
abbrev three : List ℕ
three = 1 ∷ 3 ∷ 0 ∷ []

completed-three : (completed begins begins_grows three).last_completed ≡ 6
unfolding complete_block sort_by_prev insert_by_prev advance
completed-three = refl

completed_prefix_example :
    (k : ℕ) × ((completed begins begins_grows three).last_completed ≡ begins k)
    × ((j : ℕ) → j < k → Elem j three)
    × (Elem k three → ⊥)
completed_prefix_example =
    completed_prefix begins begins_grows three refl
      ((λ h. ground arith), ((λ h. ground arith), ((λ h. h), tt)))

wal_at_6 : maintain_wal (completed begins begins_grows three ∷ []) ≡ some 6
unfolding maintain_wal get_min_tx_persisted min_persisted_from complete_block sort_by_prev
    insert_by_prev advance
wal_at_6 = refl

maintain_wal-below_example : 6 < begins 3
maintain_wal-below_example =
    maintain_wal-below begins begins_grows three 2 6 (completed begins begins_grows three ∷ []) refl
      ((λ h. ground arith), ((λ h. ground arith), ((λ h. h), tt))) (inl refl) wal_at_6
      (λ h. ground arith)

-- A table that a snapshot has given an active block that is not its first: nothing is ever completed.
loaded_is_stuck :
    (complete_block
      (record { prev_tx = 6; tx = 9 })
      (complete_block (record { prev_tx = 3; tx = 6 }) no_blocks)).last_completed
    ≡ 0
unfolding complete_block sort_by_prev insert_by_prev advance
loaded_is_stuck = refl
