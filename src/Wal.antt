-- ===== src/Wal.antt =====
-- wal/wal.go: the write-ahead log. Writers queue requests by transaction; the goroutine `run`
-- moves those that are next in line into the log, and truncates it.
-- The queue is listed in the order in which container/heap gives it out: its head is `queue[0]`,
-- the least transaction. Logging and metrics are left out, but for the count of lost records.
pub mod Replay
mod Batch
mod Truncation
pub mod Order
mod Tests
use frostdb.Base.{
  ℕ, zero, suc, ◌+◌, ◌-◌, ◌%◌, ◌^◌, Bool, true, false, not, ◌&&◌, List, [], ◌∷◌, ◌++◌, map, length,
  ltb, leb, ◌==◌, if◌then◌else◌,
}
use frostdb.TxPool.{u64}

-- The marshalled record is `payload`, its bytes.
pub record LogRequest : Type 0 where
  pub tx : ℕ
  pub payload : List ℕ

-- `wal.LogStore` of github.com/polarsignals/wal, over a state `S`: what the calls do to it, and
-- whether they return without an error.
pub record LogStore (S : Type 0) : Type 0 where
  pub store_logs : S → List LogRequest → S × Bool
  pub truncate_front : S → ℕ → S × Bool

-- `FileWAL`, the fields of `protected`, the segment size and the log.
pub record FileWal (S : Type 0) : Type 0 where
  pub queue : List LogRequest
  pub truncate_tx : ℕ
  pub next_tx : ℕ
  pub segment_size : ℕ
  pub log : S

-- `heap.Push` with `Less` on the transactions.
pub push : LogRequest → List LogRequest → List LogRequest
push r [] = r ∷ []
push r (q ∷ qs) = if ltb r.tx q.tx then r ∷ q ∷ qs else q ∷ push r qs

-- What one round takes from the queue: the batch, the queue that is left, and `nextTx`.
pub record Collected : Type 0 where
  pub batch : List LogRequest
  pub rest : List LogRequest
  pub next_tx : ℕ

-- The loop of `run` over the queue, at the size of the batch so far. A request below `nextTx` is
-- dropped, one above it ends the loop.
unfoldable pub collect : ℕ → ℕ → ℕ → List LogRequest → Collected
collect segment_size batch_size next_tx [] = record { batch = []; rest = []; next_tx = next_tx }
collect segment_size batch_size next_tx (r ∷ queue) =
    let dropped = collect segment_size batch_size next_tx queue in
    let more = collect segment_size (batch_size + length r.payload) (u64 (next_tx + 1)) queue in
    let stop : Collected = record { batch = []; rest = r ∷ queue; next_tx = next_tx } in
    if not (ltb batch_size segment_size)
    then stop
    else if ltb r.tx next_tx
    then dropped
    else if r.tx == next_tx
    then record { batch = r ∷ more.batch; rest = more.rest; next_tx = more.next_tx }
    else stop

-- The drop of queued requests that a truncation has overtaken.
unfoldable pub drop_below : ℕ → List LogRequest → List LogRequest
drop_below next_tx [] = []
drop_below next_tx (r ∷ queue) =
    let dropped = drop_below next_tx queue in if leb next_tx r.tx then r ∷ queue else dropped

-- What `run` holds between its two critical sections.
pub record InFlight : Type 0 where
  pub batch : List LogRequest
  pub truncate_tx : ℕ

module _ {S : Type 0} where
  -- The first critical section of a tick.
  unfoldable pub drain : FileWal S → FileWal S × InFlight
  unfolding collect
  drain w =
      let c = collect w.segment_size 0 w.next_tx w.queue in
      (
        record w { queue = c.rest; next_tx = c.next_tx; truncate_tx = 0 },
        record { batch = c.batch; truncate_tx = w.truncate_tx },
      )

  -- `StoreLogs`, if there is anything to store. An error is only logged.
  unfoldable pub store_batch : LogStore S → List LogRequest → FileWal S → FileWal S
  store_batch store [] w = w
  store_batch store (r ∷ batch) w = record w { log = (store.store_logs w.log (r ∷ batch)).0 }

  -- The second critical section, after a truncation that succeeded.
  unfoldable pub after_truncate : ℕ → FileWal S → FileWal S
  unfolding drop_below
  after_truncate truncate_tx w =
      if ltb w.next_tx truncate_tx
      then record w {
        next_tx = u64 (truncate_tx + 1);
        queue = drop_below (u64 (truncate_tx + 1)) w.queue;
      }
      else w

  -- `TruncateFront`, if one was asked for.
  unfoldable pub truncate_log : LogStore S → ℕ → FileWal S → FileWal S
  unfolding after_truncate
  truncate_log store truncate_tx w =
      let (log', done) = store.truncate_front w.log truncate_tx in
      let w' = record w { log = log' } in
      if truncate_tx == 0 then w else if done then after_truncate truncate_tx w' else w'

  -- The rest of a tick. (With no batch and no truncation neither part does anything, which is the
  -- `continue` of the source.)
  unfoldable pub finish : LogStore S → InFlight → FileWal S → FileWal S
  unfolding store_batch truncate_log
  finish store f w = truncate_log store f.truncate_tx (store_batch store f.batch w)

  unfoldable pub truncate : ℕ → FileWal S → FileWal S
  truncate tx w = if ltb w.truncate_tx tx then record w { truncate_tx = tx } else w

  -- `Reset`: the queue is drained, and the log truncated to the largest uint64.
  unfoldable pub reset : LogStore S → ℕ → FileWal S → FileWal S × Bool
  reset store next_tx w =
      let (log', done) = store.truncate_front w.log (2 ^ 64 - 1) in
      (record w { queue = []; next_tx = next_tx; log = log' }, done)

  -- `Log`, with the marshalled record.
  unfoldable pub log : LogRequest → FileWal S → FileWal S
  unfolding push
  log r w = record w { queue = push r w.queue }

  -- `LogRecord`: a transaction below the next expected one is not queued. `seen` is the `nextTx`
  -- that it read in its first critical section.
  unfoldable pub log_record : ℕ → LogRequest → FileWal S → FileWal S
  unfolding log
  log_record seen r w = if ltb r.tx seen then w else log r w

  -- `Open`, over a log whose last index is given.
  unfoldable pub open_wal : ℕ → ℕ → S → FileWal S
  open_wal segment_size last_index s = record {
    queue = [];
    truncate_tx = 0;
    next_tx = u64 (last_index + 1);
    segment_size = segment_size;
    log = s;
  }
