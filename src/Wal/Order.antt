-- ===== src/Wal/Order.antt =====
-- The goroutine `run` of wal/wal.go against writers, truncations and resets, in any order: what is
-- handed to `StoreLogs`.
use mathlib.Core.Path.{subst}
use frostdb.Base.{
  ℕ, ◌+◌, ◌≤◌, ◌<◌, ◌^◌, ◌≡◌, arith, Option, none, some, List, [], ◌∷◌, ◌++◌, All, All-append,
  All-map_of, length,
}
use frostdb.Base.Order.{IsIncreasing}
use frostdb.Wal.{
  LogRequest, LogStore, FileWal, InFlight, drain, finish, truncate, reset, log, log_record,
  open_wal, collect, Collected,
}
use frostdb.Wal.Batch.{IsRow, collect-IsRow}

abbrev pub txs : List LogRequest → List ℕ
txs [] = []
txs (r ∷ rs) = r.tx ∷ txs rs

-- `flight` is what `run` holds between its two critical sections; `written` are the transactions
-- that `StoreLogs` has been given since the last reset.
pub record Machine (S : Type 0) : Type 0 where
  pub wal : FileWal S
  pub flight : Option InFlight
  pub written : List ℕ

module _ {S : Type 0} (store : LogStore S) where
  -- The counters are followed until they would wrap. `Reset` is called by the recovery of db.go
  -- before `RunAsync`, when nothing is in flight.
  pub data Step (m : Machine S) : Machine S → Type 0 where
    queued : (r : LogRequest) → Step m (record m { wal = log r m.wal })
    recorded : (seen : ℕ) (r : LogRequest) → Step m (record m { wal = log_record seen r m.wal })
    truncated : (tx : ℕ) → Step m (record m { wal = truncate tx m.wal })
    drained :
        m.flight ≡ none
        → m.wal.next_tx + length m.wal.queue < 2 ^ 64
        → Step m (record m { wal = (drain m.wal).0; flight = some (drain m.wal).1 })
    finished :
        (f : InFlight)
        → m.flight ≡ some f
        → f.truncate_tx + 1 < 2 ^ 64
        → Step m (record {
          wal = finish store f m.wal;
          flight = none;
          written = m.written ++ txs f.batch;
        })
    was_reset :
        (next_tx : ℕ)
        → m.flight ≡ none
        → Step m (record m { wal = (reset store next_tx m.wal).0; written = [] })

  pub data Reach (first : Machine S) : Machine S → Type 0 where
    here : Reach first first
    next : {m n : Machine S} → Reach first m → Step m n → Reach first n

-- The transactions written or about to be.
abbrev pub with_flight : List ℕ → Option InFlight → List ℕ
with_flight ts none = ts
with_flight ts (some f) = ts ++ txs f.batch

abbrev pub handed : {S : Type 0} → Machine S → List ℕ
handed m = with_flight m.written m.flight

pub record Inv {S : Type 0} (m : Machine S) : Type 0 where
  pub ordered : IsIncreasing (handed m)
  pub below : All (λ t. t < m.wal.next_tx) (handed m)

All-lt_mono : (a b : ℕ) (ts : List ℕ) → a ≤ b → All (λ t. t < a) ts → All (λ t. t < b) ts
All-lt_mono a b ts h k = All-map_of ts (λ t p. omega arith) k

All-IsRow :
    (P : ℕ → Type 0) (n : ℕ) (rs : List LogRequest)
    → IsRow n rs
    → ((t : ℕ) → n ≤ t → t < n + length rs → P t)
    → All P (txs rs)
All-IsRow P n [] h k = tt
All-IsRow P n (r ∷ rs) h k = (
  k r.tx (omega arith) (omega arith),
  All-IsRow P (n + 1) rs h.1 (λ t p q. k t (omega arith) (omega arith)),
)

IsIncreasing-txs : (n : ℕ) (rs : List LogRequest) → IsRow n rs → IsIncreasing (txs rs)
IsIncreasing-txs n [] h = tt
IsIncreasing-txs n (r ∷ rs) h = (
  All-IsRow (λ t. r.tx < t) (n + 1) rs h.1 (λ t p q. omega arith),
  IsIncreasing-txs (n + 1) rs h.1,
)

-- A row that starts above a list goes on it in order.
IsIncreasing-append :
    (n : ℕ) (ts : List ℕ) (rs : List LogRequest)
    → IsIncreasing ts
    → All (λ t. t < n) ts
    → IsRow n rs
    → IsIncreasing (ts ++ txs rs)
IsIncreasing-append n [] rs s b h = IsIncreasing-txs n rs h
IsIncreasing-append n (x ∷ ts) rs s b h = (
  All-append (λ t. x < t) ts (txs rs) s.0 (All-IsRow (λ t. x < t) n rs h (λ t p q. omega arith)),
  IsIncreasing-append n ts rs s.1 b.1 h,
)

module _ {S : Type 0} (store : LogStore S) where
  next_tx-finish :
      (f : InFlight) (w : FileWal S)
      → f.truncate_tx + 1 < 2 ^ 64
      → w.next_tx ≤ (finish store f w).next_tx
  unfolding finish
  next_tx-finish f w h = batch_first f.batch
    where
      batch_first :
          (b : List LogRequest) → w.next_tx ≤ (finish store (record f { batch = b }) w).next_tx
      batch_first [] = ground arith
      batch_first (r ∷ rs) = ground arith

drain-Inv :
    {S : Type 0} (w : FileWal S) (ts : List ℕ)
    → IsIncreasing ts
    → All (λ t. t < w.next_tx) ts
    → w.next_tx + length w.queue < 2 ^ 64
    → IsIncreasing (ts ++ txs (drain w).1.batch)
      × All (λ t. t < (drain w).0.next_tx) (ts ++ txs (drain w).1.batch)
unfolding drain
drain-Inv w ts s b h = (
  IsIncreasing-append n ts c.batch s b row.0,
  All-append (λ t. t < c.next_tx) ts (txs c.batch)
      (All-lt_mono n c.next_tx ts (omega (arith, row.1)) b)
      (All-IsRow (λ t. t < c.next_tx) n c.batch row.0 (λ t p q. omega (arith, row.1))),
)
  where
    n : ℕ
    n = w.next_tx

    c : Collected
    c = collect w.segment_size 0 n w.queue

    row : IsRow n c.batch × (c.next_tx ≡ n + length c.batch)
    row = collect-IsRow w.segment_size 0 n w.queue h

next_tx-log_record :
    {S : Type 0} (seen : ℕ) (r : LogRequest) (w : FileWal S)
    → (log_record seen r w).next_tx ≡ w.next_tx
unfolding log_record
next_tx-log_record seen r w = ground arith

next_tx-truncate : {S : Type 0} (tx : ℕ) (w : FileWal S) → (truncate tx w).next_tx ≡ w.next_tx
unfolding truncate
next_tx-truncate tx w = ground arith

module _ {S : Type 0} {store : LogStore S} where
  Step-Inv : {m n : Machine S} → Step store m n → Inv m → Inv n
  unfolding log
  Step-Inv (queued r) inv = record { ordered = inv.ordered; below = inv.below }
  Step-Inv {m} (recorded seen r) inv = record {
    ordered = inv.ordered;
    below = rw (next_tx-log_record seen r m.wal) inv.below;
  }
  Step-Inv {m} (truncated tx) inv = record {
    ordered = inv.ordered;
    below = rw (next_tx-truncate tx m.wal) inv.below;
  }
  Step-Inv {m} (drained e h) inv =
      let (s, b) =
        drain-Inv m.wal m.written
          (subst (λ o. IsIncreasing (with_flight m.written o)) e inv.ordered)
          (subst (λ o. All (λ t. t < m.wal.next_tx) (with_flight m.written o)) e inv.below) h in
      record { ordered = s; below = b }
  Step-Inv {m} (finished f e h) inv = record {
    ordered = subst (λ o. IsIncreasing (with_flight m.written o)) e inv.ordered;
    below =
        All-lt_mono m.wal.next_tx (finish store f m.wal).next_tx (m.written ++ txs f.batch)
          (next_tx-finish store f m.wal h)
          (subst (λ o. All (λ t. t < m.wal.next_tx) (with_flight m.written o)) e inv.below);
  }
  Step-Inv (was_reset n e) inv = record { ordered = rw e tt; below = rw e tt }

  Reach-Inv : {first m : Machine S} → Inv first → Reach store first m → Inv m
  Reach-Inv h here = h
  Reach-Inv h (next r st) = Step-Inv st (Reach-Inv h r)

-- A log that has been opened and given nothing yet.
abbrev pub opened : {S : Type 0} → ℕ → ℕ → S → Machine S
opened segment_size last_index s = record {
  wal = open_wal segment_size last_index s;
  flight = none;
  written = [];
}

-- Nor does it reach the next expected transaction.
written-lt :
    {S : Type 0} {store : LogStore S} (segment_size last_index : ℕ) (s : S) {m : Machine S}
    → Reach store (opened segment_size last_index s) m
    → m.flight ≡ none
    → All (λ t. t < m.wal.next_tx) m.written
written-lt segment_size last_index s {m} r e =
    subst (λ o. All (λ t. t < m.wal.next_tx) (with_flight m.written o)) e
      (Reach-Inv (record { ordered = tt; below = tt }) r).below
