-- ===== src/TxPool/Delete.antt =====
-- `delete` of tx_list.go, run by the cleaner: how far the watermark goes, and what is left.
use frostdb.Base.{
  ℕ, ◌+◌, ◌≤◌, ◌<◌, ◌^◌, ◌≡◌, refl, arith, List, [], ◌∷◌, All, Elem, ltb, if◌then◌else◌, ◌⊎◌, inl,
  inr,
}
use frostdb.Base.Order.{IsIncreasing, All-lt_trans}
use frostdb.TxPool.{TxNode, delete_func, delete, live, txs}
use frostdb.TxPool.Insert.{IsPositive}

-- The specification: the end of the run of consecutive transactions after `mark`.
pub advance : ℕ → List ℕ → ℕ
advance mark [] = mark
advance mark (t ∷ ts) =
    if ltb (mark + 1) t then mark else if ltb mark t then advance t ts else advance mark ts

pub below : ℕ → List ℕ → List ℕ
below mark [] = []
below mark (t ∷ ts) = if ltb mark t then t ∷ below mark ts else below mark ts

-- Transactions are below the largest uint64, so that `mark + 1` does not wrap.
abbrev pub IsBounded : List ℕ → Type 0
IsBounded ts = All (λ t. t + 1 < 2 ^ 64) ts

txs-delete : (mark : ℕ) (pool : List TxNode) → txs (delete mark pool).1 ≡ txs pool
unfolding delete
txs-delete mark [] = refl
txs-delete mark (node ∷ rest) = ground (arith, txs-delete (delete_func mark node.tx).0 rest)

-- The cleaner leaves the watermark at the end of the run.
delete-advance :
    (mark : ℕ) (pool : List TxNode)
    → mark + 1 < 2 ^ 64
    → IsPositive pool
    → IsBounded (txs pool)
    → (delete mark pool).0 ≡ advance mark (txs pool)
unfolding delete advance
delete-advance mark [] m p b = refl
delete-advance mark (node ∷ rest) m p b =
    ground (arith, delete-advance mark rest m p.1 b.1, delete-advance node.tx rest b.0 p.1 b.1)

advance-ge : (mark : ℕ) (ts : List ℕ) → mark ≤ advance mark ts
unfolding advance
advance-ge mark [] = omega arith
advance-ge mark (t ∷ ts) = ground (arith, advance-ge mark ts, advance-ge t ts)

-- Everything passed was in the list.
advance-Elem : (mark : ℕ) (ts : List ℕ) (t : ℕ) → mark < t → t ≤ advance mark ts → Elem t ts
unfolding advance
advance-Elem mark [] t h k = absurd (omega arith)
advance-Elem mark (x ∷ ts) t h k = ground (arith, advance-Elem mark ts t h, advance-Elem x ts t)

not-Elem_of_lt : (t : ℕ) (ts : List ℕ) → All (λ x. t < x) ts → Elem t ts → ⊥
not-Elem_of_lt t [] h e = e
not-Elem_of_lt t (x ∷ ts) h (inl e) = omega arith
not-Elem_of_lt t (x ∷ ts) h (inr e) = not-Elem_of_lt t ts h.1 e

-- The watermark stops only where the next transaction is missing.
advance-stops : (mark : ℕ) (ts : List ℕ) → IsIncreasing ts → Elem (advance mark ts + 1) ts → ⊥
unfolding advance
advance-stops mark [] s e = e
advance-stops mark (x ∷ ts) s e = ground (
  arith,
  advance-stops mark ts s.1,
  advance-stops x ts s.1,
  advance-ge mark ts,
  advance-ge x ts,
  not-Elem_of_lt (mark + 1) ts,
  All-lt_trans (mark + 1) x ts,
)

below-live :
    (mark : ℕ) (pool : List TxNode)
    → All (λ t. mark < t) (txs pool)
    → below mark (live pool) ≡ live pool
unfolding below live
below-live mark [] h = refl
below-live mark (node ∷ rest) h = ground (arith, below-live mark rest h.1)

advance-delete_func :
    (mark : ℕ) (node : TxNode) (rest : List TxNode)
    → mark + 1 < 2 ^ 64
    → IsPositive rest
    → node.tx + 1 < 2 ^ 64
    → IsBounded (txs rest)
    → node.tx ≤ (delete (delete_func mark node.tx).0 rest).0 ⊎ (mark + 1 < node.tx)
unfolding delete_func
advance-delete_func mark node rest m p b bs = ground (
  arith,
  delete-advance mark rest m p bs,
  delete-advance node.tx rest b p bs,
  advance-ge mark (txs rest),
  advance-ge node.tx (txs rest),
)

-- From a pool in order, the cleaner raises the watermark through the transactions that follow it
-- without a gap: it does not go down, each transaction that it passes was in the pool, and the one
-- after the new watermark was not. The nodes stay in the list.
pub delete-consecutive :
    (mark : ℕ) (pool : List TxNode)
    → mark + 1 < 2 ^ 64
    → IsPositive pool
    → IsBounded (txs pool)
    → IsIncreasing (txs pool)
    → (mark ≤ (delete mark pool).0)
      × ((t : ℕ) → mark < t → t ≤ (delete mark pool).0 → Elem t (txs pool))
      × ¬ Elem ((delete mark pool).0 + 1) (txs pool)
      × (txs (delete mark pool).1 ≡ txs pool)
delete-consecutive mark pool m p b s = rw (delete-advance mark pool m p b) (
  advance-ge mark (txs pool),
  advance-Elem mark (txs pool),
  advance-stops mark (txs pool) s,
  txs-delete mark pool,
)

-- After the cleaner, `Iterate` shows of a pool in order the transactions above the new watermark,
-- and no other.
live-delete :
    (mark : ℕ) (pool : List TxNode)
    → mark + 1 < 2 ^ 64
    → IsPositive pool
    → IsBounded (txs pool)
    → IsIncreasing (txs pool)
    → live (delete mark pool).1 ≡ below (delete mark pool).0 (live pool)
unfolding delete below live
live-delete mark [] m p b s = refl
live-delete mark (node ∷ rest) m p b s = ground (
  arith,
  live-delete mark rest m p.1 b.1 s.1,
  live-delete node.tx rest b.0 p.1 b.1 s.1,
  advance-delete_func mark node rest m p.1 b.0 b.1,
  All-lt_trans mark node.tx (txs rest),
  below-live mark rest,
)
