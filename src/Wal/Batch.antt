-- ===== src/Wal/Batch.antt =====
-- What a round of `run` takes from the queue.
use frostdb.Base.{
  ℕ, ◌+◌, ◌≤◌, ◌<◌, ◌^◌, ◌≡◌, refl, arith, List, [], ◌∷◌, ◌++◌, All, length, ◌⊎◌, Elem,
}
use frostdb.TxPool.{u64}
use frostdb.Wal.{LogRequest, collect, push}

-- The transactions `n`, `n + 1`, … in a row.
abbrev pub IsRow : ℕ → List LogRequest → Type 0
IsRow n [] = Unit
IsRow n (r ∷ rs) = (r.tx ≡ n) × IsRow (n + 1) rs

abbrev pub IsSorted : List LogRequest → Type 0
IsSorted [] = Unit
IsSorted (r ∷ rs) = All (λ q. r.tx ≤ q.tx) rs × IsSorted rs

pub bytes : List LogRequest → ℕ
bytes [] = 0
bytes (r ∷ rs) = length r.payload + bytes rs

-- A batch holds the transactions from `nextTx` on with no gap and none twice, and `nextTx` becomes
-- the one after the last of them.
pub collect-IsRow :
    (seg size n : ℕ) (queue : List LogRequest)
    → n + length queue < 2 ^ 64
    → IsRow n (collect seg size n queue).batch
      × ((collect seg size n queue).next_tx ≡ n + length (collect seg size n queue).batch)
unfolding collect
collect-IsRow seg size n [] h = ground arith
collect-IsRow seg size n (r ∷ queue) h = ground (
  arith,
  collect-IsRow seg size n queue,
  collect-IsRow seg (size + length r.payload) (n + 1) queue,
)

-- No request is lost: it is in the batch, or still queued, or a transaction that the log has been
-- given already.
collect-Elem :
    (seg size n : ℕ) (queue : List LogRequest) (q : LogRequest)
    → n + length queue < 2 ^ 64
    → Elem q queue
    → Elem q (collect seg size n queue).batch
      ⊎ Elem q (collect seg size n queue).rest
      ⊎ (q.tx < (collect seg size n queue).next_tx)
unfolding collect
collect-Elem seg size n [] q h e = absurd e
collect-Elem seg size n (r ∷ queue) q h e = ground (
  arith,
  collect-Elem seg size n queue q,
  collect-Elem seg (size + length r.payload) (n + 1) queue q,
  collect-IsRow seg size n queue,
)

-- Strictly in order, from `n` on.
abbrev pub IsDistinct : ℕ → List LogRequest → Type 0
IsDistinct n [] = Unit
IsDistinct n (r ∷ rs) = (n ≤ r.tx) × IsDistinct (r.tx + 1) rs

IsDistinct-collect :
    (seg size n k : ℕ) (queue : List LogRequest)
    → n ≤ k
    → n + length queue < 2 ^ 64
    → IsDistinct k queue
    → (collect seg size n queue).batch ++ (collect seg size n queue).rest ≡ queue
unfolding collect
IsDistinct-collect seg size n k [] l h d = refl
IsDistinct-collect seg size n k (r ∷ queue) l h d =
    ground (arith, IsDistinct-collect seg (size + length r.payload) (n + 1) (r.tx + 1) queue)

-- Without repeated or stale transactions a round cuts the queue in two and drops nothing.
collect-append :
    (seg size n : ℕ) (queue : List LogRequest)
    → n + length queue < 2 ^ 64
    → IsDistinct n queue
    → (collect seg size n queue).batch ++ (collect seg size n queue).rest ≡ queue
collect-append seg size n queue h d = IsDistinct-collect seg size n n queue (omega arith) h d

-- The first request is not due: it waits for one that has not come.
abbrev pub IsWaiting : ℕ → List LogRequest → Type 0
IsWaiting n [] = Unit
IsWaiting n (r ∷ rs) = n < r.tx

-- A round ends only when the batch is full, or the queue is empty, or the next transaction has not
-- come.
collect-stops :
    (seg size n : ℕ) (queue : List LogRequest)
    → n + length queue < 2 ^ 64
    → (seg ≤ size + bytes (collect seg size n queue).batch)
      ⊎ IsWaiting (collect seg size n queue).next_tx (collect seg size n queue).rest
unfolding collect bytes
collect-stops seg size n [] h = ground arith
collect-stops seg size n (r ∷ queue) h = ground (
  arith,
  collect-stops seg size n queue,
  collect-stops seg (size + length r.payload) (n + 1) queue,
)

-- A request joins the batch only while the batch is below the segment size.
abbrev pub IsWithin : ℕ → ℕ → List LogRequest → Type 0
IsWithin seg size [] = Unit
IsWithin seg size (r ∷ rs) = (size < seg) × IsWithin seg (size + length r.payload) rs

pub collect-IsWithin :
    (seg size n : ℕ) (queue : List LogRequest) → IsWithin seg size (collect seg size n queue).batch
unfolding collect
collect-IsWithin seg size n [] = tt
collect-IsWithin seg size n (r ∷ queue) = ground (
  arith,
  collect-IsWithin seg size n queue,
  collect-IsWithin seg (size + length r.payload) (u64 (n + 1)) queue,
)

All-push :
    (P : LogRequest → Type 0) (r : LogRequest) (queue : List LogRequest)
    → P r
    → All P queue
    → All P (push r queue)
unfolding push
All-push P r [] h p = ground arith
All-push P r (q ∷ queue) h p = ground (arith, All-push P r queue h p.1)

All-le_trans :
    (a b : ℕ) (qs : List LogRequest) → a ≤ b → All (λ q. b ≤ q.tx) qs → All (λ q. a ≤ q.tx) qs
All-le_trans a b [] h k = tt
All-le_trans a b (q ∷ qs) h k = (omega arith, All-le_trans a b qs h k.1)

pub push-IsSorted :
    (r : LogRequest) (queue : List LogRequest) → IsSorted queue → IsSorted (push r queue)
unfolding push
push-IsSorted r [] s = ground arith
push-IsSorted r (q ∷ queue) s = ground (
  arith,
  push-IsSorted r queue s.1,
  All-push (λ p. q.tx ≤ p.tx) r queue,
  All-le_trans r.tx q.tx queue,
)

-- What is left after a round is still in order.
collect-All :
    (P : LogRequest → Type 0) (seg size n : ℕ) (queue : List LogRequest)
    → All P queue
    → All P (collect seg size n queue).rest
unfolding collect
collect-All P seg size n [] h = tt
collect-All P seg size n (r ∷ queue) h = ground (
  arith,
  collect-All P seg size n queue h.1,
  collect-All P seg (size + length r.payload) (u64 (n + 1)) queue h.1,
)

pub collect-IsSorted :
    (seg size n : ℕ) (queue : List LogRequest)
    → IsSorted queue
    → IsSorted (collect seg size n queue).rest
unfolding collect
collect-IsSorted seg size n [] h = tt
collect-IsSorted seg size n (r ∷ queue) h = ground (
  arith,
  collect-IsSorted seg size n queue h.1,
  collect-IsSorted seg (size + length r.payload) (u64 (n + 1)) queue h.1,
)
