-- ===== src/Blocks.antt =====
-- Which blocks of a table are completed: the end of writeBlock in table.go, and getMinTXPersisted and
-- maintainWAL of db.go.
mod Sorting
mod Advance
mod Progress
mod MinPersisted
mod Tests
use frostdb.Base.{
  ℕ, ◌-◌, ◌^◌, Bool, Option, none, some, List, [], ◌∷◌, ◌++◌, ltb, ◌==◌, if◌then◌else◌,
}

-- `completedBlock`
pub record CompletedBlock : Type 0 where
  pub prev_tx : ℕ
  pub tx : ℕ

-- `completedBlocks` and `lastCompleted` of a table.
pub record Completion : Type 0 where
  pub completed_blocks : List CompletedBlock
  pub last_completed : ℕ

-- `sort.Slice` by `prevTx`, which no two blocks of a table share.
unfoldable pub insert_by_prev : CompletedBlock → List CompletedBlock → List CompletedBlock
insert_by_prev b [] = b ∷ []
insert_by_prev b (c ∷ cs) =
    let rest = insert_by_prev b cs in if ltb b.prev_tx c.prev_tx then b ∷ c ∷ cs else c ∷ rest

unfoldable pub sort_by_prev : List CompletedBlock → List CompletedBlock
unfolding insert_by_prev
sort_by_prev [] = []
sort_by_prev (b ∷ bs) = insert_by_prev b (sort_by_prev bs)

-- The loop over the sorted blocks.
unfoldable pub advance : ℕ → List CompletedBlock → Completion
advance last [] = record { completed_blocks = []; last_completed = last }
advance last (b ∷ bs) =
    let rest = advance b.tx bs in
    if b.prev_tx == last then rest else record { completed_blocks = b ∷ bs; last_completed = last }

-- What `writeBlock` does under the lock of the table, once a block is persisted.
unfoldable pub complete_block : CompletedBlock → Completion → Completion
unfolding sort_by_prev advance
complete_block b c = advance c.last_completed (sort_by_prev (c.completed_blocks ++ b ∷ []))

-- A table that is created or loaded.
abbrev pub no_blocks : Completion
no_blocks = record { completed_blocks = []; last_completed = 0 }

-- The loop of `getMinTXPersisted` over the tables.
unfoldable pub min_persisted_from : ℕ → List Completion → ℕ
min_persisted_from min_tx [] = min_tx
min_persisted_from min_tx (t ∷ ts) =
    min_persisted_from (if ltb t.last_completed min_tx then t.last_completed else min_tx) ts

unfoldable pub get_min_tx_persisted : List Completion → ℕ
unfolding min_persisted_from
get_min_tx_persisted tables = min_persisted_from (2 ^ 64 - 1) tables

-- `maintainWAL`: the transaction at which the log is truncated, if it is.
unfoldable pub maintain_wal : List Completion → Option ℕ
unfolding get_min_tx_persisted
maintain_wal tables =
    let min_tx = get_min_tx_persisted tables in if ltb 0 min_tx then some min_tx else none
