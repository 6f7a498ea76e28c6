-- ===== src/TxPool/Tests.antt =====
-- Concrete pools, and a schedule of two writers and the cleaner.
use frostdb.Base.{ℕ, ◌+◌, ◌<◌, ◌≤◌, ◌≡◌, refl, arith, true, some, List, [], ◌∷◌, Elem, inl, inr}
use frostdb.TxPool.{TxNode, fresh, try_insert, insert, live, txs, delete}
use frostdb.TxPool.Insert.{IsPositive, marks, ordered_insert, insert-live}
use frostdb.TxPool.Delete.{delete-consecutive}
use frostdb.TxPool.Isolation.{
  finished, IsComplete, System, Step, Reach, here, next, begin, load_next, load_other, store,
  clean_load, clean_store, no_dirty_read, quiescent,
}

-- [9] -> [10, removed] -> [13]
abbrev pool_9_13 : List TxNode
pool_9_13 = fresh 9 ∷ record { tx = 10; marked = true } ∷ fresh 13 ∷ []

insert_12 : insert 2 12 pool_9_13 ≡ some (fresh 9 ∷ fresh 12 ∷ fresh 13 ∷ [])
unfolding insert try_insert
insert_12 = refl

insert-live_example :
    (pool' : List TxNode) × (insert 2 12 pool_9_13 ≡ some pool')
    × (live pool' ≡ ordered_insert 12 (live pool_9_13))
    × IsPositive pool'
unfolding marks
insert-live_example = insert-live 2 12 pool_9_13 (omega arith) (omega arith) (omega arith)

abbrev pool_8_13 : List TxNode
pool_8_13 = fresh 8 ∷ fresh 9 ∷ fresh 10 ∷ fresh 13 ∷ []

-- The run of the comment on `NewTxPool`: from the watermark 7 to 10, and 13 is left.
delete_7 : ((delete 7 pool_8_13).0 ≡ 10) × (live (delete 7 pool_8_13).1 ≡ 13 ∷ [])
unfolding delete live
delete_7 = (refl, refl)

delete-consecutive_example :
    (7 ≤ (delete 7 pool_8_13).0)
    × ((t : ℕ) → 7 < t → t ≤ (delete 7 pool_8_13).0 → Elem t (txs pool_8_13))
    × ¬ Elem ((delete 7 pool_8_13).0 + 1) (txs pool_8_13)
    × (txs (delete 7 pool_8_13).1 ≡ txs pool_8_13)
delete-consecutive_example =
    delete-consecutive 7 pool_8_13 (omega arith) (omega arith) (omega arith) (omega arith)

-- Two writers begin; the second finishes first, and its transaction waits in the pool.
abbrev Run : Type 0
Run = (s : System) × Reach 0 s

abbrev two_begun : Run
two_begun = (_, next (next here (begin (omega arith))) (begin (omega arith)))

abbrev second_done : Run
second_done = (_, next (next two_begun.1 (load_other 2 refl (omega arith))) (Step.insert 2 refl))

-- The first finishes, and stores the watermark 1.
abbrev first_stored : Run
first_stored = (_, next (next second_done.1 (load_next 1 refl refl)) (store 1 refl))

abbrev first_done : Run
first_done = (_, next first_stored.1 (Step.insert 1 refl))

-- The cleaner raises it to 2.
abbrev raised : Run
raised =
    (_, next (next first_done.1 (clean_load 2 refl (inr (inl refl)) refl)) (clean_store 2 refl))

no_dirty_read_example : IsComplete (first_stored.0.phase 1)
no_dirty_read_example = no_dirty_read (omega arith) first_stored.1 1 (omega arith)

all_finished : (t : ℕ) → t ≤ 2 → raised.0.phase t ≡ finished
all_finished t h = ground arith

quiescent_example : raised.0.high_watermark ≡ raised.0.tx
quiescent_example = quiescent (omega arith) raised.1 all_finished (λ e. ground arith)
