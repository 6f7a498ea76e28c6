-- ===== src/Wal/Tests.antt =====
-- Concrete queues, schedules and replays.
use frostdb.Base.{
  ℕ, zero, suc, ◌+◌, ◌≡◌, refl, arith, true, Option, none, some, List, [], ◌∷◌, length,
}
use frostdb.Wal.{LogRequest, LogStore, FileWal, collect, drain, log, open_wal}
use frostdb.Wal.Batch.{IsRow, collect-IsRow}
use frostdb.Wal.Order.{Machine, Reach, here, next, queued, drained, finished, opened}
use frostdb.Wal.Replay.{Handled, go_on, repaired, replay, first_tx, replay-Ends, Ends}

abbrev request : ℕ → LogRequest
request tx = record { tx = tx; payload = 1 ∷ 2 ∷ [] }

abbrev queue_4 : List LogRequest
queue_4 = request 4 ∷ request 5 ∷ request 7 ∷ []

-- 4 and 5 are next in line after 3, and 7 waits for 6.
collect_4 :
    collect 10 0 4 queue_4
    ≡ record { batch = request 4 ∷ request 5 ∷ []; rest = request 7 ∷ []; next_tx = 6 }
unfolding collect
collect_4 = refl

-- A batch of one request is full at a segment size of one byte.
collect_full : (collect 1 0 4 queue_4).batch ≡ request 4 ∷ []
unfolding collect
collect_full = refl

collect-IsRow_example :
    IsRow 4 (collect 10 0 4 queue_4).batch
    × ((collect 10 0 4 queue_4).next_tx ≡ 4 + length (collect 10 0 4 queue_4).batch)
collect-IsRow_example = collect-IsRow 10 0 4 queue_4 (omega arith)

abbrev wal_4 : FileWal ℕ
wal_4 = record { queue = queue_4; truncate_tx = 0; next_tx = 4; segment_size = 10; log = 0 }

-- A log that counts its entries and never fails.
abbrev counting : LogStore ℕ
counting = record {
  store_logs = λ n batch. (n + length batch, true);
  truncate_front = λ n tx. (n, true);
}

abbrev Run : Type 0
Run = (m : Machine ℕ) × Reach counting (opened 10 0 0) m

abbrev one_queued : Run
one_queued = (_, next (next here (queued (request 2))) (queued (request 1)))

-- Two requests are queued out of order, and a tick logs both.
one_tick : Run
unfolding drain log open_wal
one_tick = (
  _,
  next (next one_queued.1 (drained refl (omega arith))) (
      finished (record { batch = request 1 ∷ request 2 ∷ []; truncate_tx = 0 }) refl (omega arith)),
)

one_tick_written : one_tick.0.written ≡ 1 ∷ 2 ∷ []
unfolding one_tick
one_tick_written = refl

one_tick_done : one_tick.0.flight ≡ none
unfolding one_tick
one_tick_done = refl

-- Record 3 cannot be read.
abbrev read_2 : ℕ → Option ℕ
read_2 zero = none
read_2 (suc zero) = some 10
read_2 (suc (suc zero)) = some 20
read_2 _ = none

abbrev sum_up : ℕ → ℕ → ℕ → Handled ℕ ℕ
sum_up tx r h = go_on (h + r)

replay_3 : replay (λ t. none) read_2 sum_up 1 5 0 0 ≡ (30, repaired 2 3)
unfolding replay
replay_3 = refl

abbrev from_first : ℕ
from_first = first_tx 1 0

from_first_eq : from_first ≡ 1
unfolding first_tx
from_first_eq = refl

replay-Ends_example :
    Ends (λ t. none) read_2 sum_up from_first 5 0 (replay (λ t. none) read_2 sum_up 1 5 0 0)
replay-Ends_example =
    replay-Ends (λ t. none) read_2 sum_up 1 5 0 0 (omega (arith, from_first_eq))
      (omega (arith, from_first_eq))
