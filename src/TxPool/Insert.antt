-- ===== src/TxPool/Insert.antt =====
-- `Insert` of tx_list.go: the retries end, and the transaction takes its place in the order.
use frostdb.Base.{
  ℕ, zero, suc, ◌<◌, ◌≡◌, refl, arith, Bool, true, false, some, List, [], ◌∷◌, All, ltb,
  if◌then◌else◌, ap, ◌∙◌, ◌≢◌,
}
use frostdb.Base.Order.{IsIncreasing, All-lt_trans}
use frostdb.TxPool.{TxNode, try_insert, insert, live, txs}

-- The specification: into a list of transactions, before the first that is greater.
pub ordered_insert : ℕ → List ℕ → List ℕ
ordered_insert tx [] = tx ∷ []
ordered_insert tx (t ∷ ts) = if ltb tx t then tx ∷ t ∷ ts else t ∷ ordered_insert tx ts

unfoldable pub marks : List TxNode → ℕ
marks [] = 0
marks (node ∷ rest) = if node.marked then suc (marks rest) else marks rest

-- No node but `tail` has the transaction 0.
abbrev pub IsPositive : List TxNode → Type 0
IsPositive [] = Unit
IsPositive (node ∷ rest) = (0 < node.tx) × IsPositive rest

-- What one walk does: it links the node in, or it drops one marked node.
abbrev Walked : ℕ → List TxNode → List TxNode × Bool → Type 0
Walked tx pool (pool', true) = live pool' ≡ ordered_insert tx (live pool)
Walked tx pool (pool', false) = (live pool' ≡ live pool) × (suc (marks pool') ≡ marks pool)

try_insert-Walked :
    (tx : ℕ) (pool : List TxNode) → 0 < tx → IsPositive pool → Walked tx pool (try_insert tx pool)
unfolding try_insert live ordered_insert marks
try_insert-Walked tx [] h p = ground arith
try_insert-Walked tx (node ∷ rest) h p = ground (arith, try_insert-Walked tx rest h p.1)

try_insert-IsPositive :
    (tx : ℕ) (pool : List TxNode) → 0 < tx → IsPositive pool → IsPositive (try_insert tx pool).0
unfolding try_insert
try_insert-IsPositive tx [] h p = ground arith
try_insert-IsPositive tx (node ∷ rest) h p = ground (arith, try_insert-IsPositive tx rest h p.1)

-- What `insert` returns when its fuel is above the number of marked nodes: a list, whose live
-- transactions are the old ones with `tx` before the first that is greater.
pub insert-live :
    (fuel tx : ℕ) (pool : List TxNode)
    → marks pool < fuel
    → 0 < tx
    → IsPositive pool
    → (pool' : List TxNode) × (insert fuel tx pool ≡ some pool')
      × (live pool' ≡ ordered_insert tx (live pool))
      × IsPositive pool'
unfolding insert
insert-live zero tx pool f h p = absurd (omega arith)
insert-live (suc fuel) tx pool f h p =
    finish (try_insert tx pool) refl (try_insert-Walked tx pool h p)
      (try_insert-IsPositive tx pool h p) (λ pool' fits q. insert-live fuel tx pool' fits h q)
  where
    finish :
        (r : List TxNode × Bool)
        → try_insert tx pool ≡ r
        → Walked tx pool r
        → IsPositive r.0
        → ((pool' : List TxNode)
            → marks pool' < fuel
            → IsPositive pool'
            → (pool'' : List TxNode) × (insert fuel tx pool' ≡ some pool'')
              × (live pool'' ≡ ordered_insert tx (live pool'))
              × IsPositive pool'')
        → (pool' : List TxNode) × (insert (suc fuel) tx pool ≡ some pool')
          × (live pool' ≡ ordered_insert tx (live pool))
          × IsPositive pool'
    finish (pool', true) e w q again = (pool', rw e, w, q)
    finish (pool', false) e w q again =
        let (pool'', done, shown, pos) = again pool' (omega arith) q in
        (pool'', rw e done, shown ∙ ap (ordered_insert tx) w.0, pos)

above-try_insert :
    (a tx : ℕ) (pool : List TxNode)
    → a < tx
    → All (λ t. a < t) (txs pool)
    → All (λ t. a < t) (txs (try_insert tx pool).0)
unfolding try_insert
above-try_insert a tx [] h p = ground arith
above-try_insert a tx (node ∷ rest) h p = ground (arith, above-try_insert a tx rest h p.1)

-- The whole list, removed nodes included, stays in order when the transaction is new.
try_insert-IsIncreasing :
    (tx : ℕ) (pool : List TxNode)
    → IsPositive pool
    → All (λ t. t ≢ tx) (txs pool)
    → IsIncreasing (txs pool)
    → IsIncreasing (txs (try_insert tx pool).0)
unfolding try_insert
try_insert-IsIncreasing tx [] p n s = ground arith
try_insert-IsIncreasing tx (node ∷ rest) p n s = ground (
  arith,
  try_insert-IsIncreasing tx rest p.1 n.1 s.1,
  above-try_insert node.tx tx rest,
  All-lt_trans tx node.tx (txs rest),
)

-- A walk adds no transaction but its own.
All-try_insert :
    (P : ℕ → Type 0) (tx : ℕ) (pool : List TxNode)
    → P tx
    → All P (txs pool)
    → All P (txs (try_insert tx pool).0)
unfolding try_insert
All-try_insert P tx [] h p = ground arith
All-try_insert P tx (node ∷ rest) h p = ground (arith, All-try_insert P tx rest h p.1)

-- A walk that starts over has only taken nodes away.
abbrev Unlinked : (ℕ → Type 0) → List TxNode × Bool → Type 0
Unlinked P (pool', true) = Unit
Unlinked P (pool', false) = All P (txs pool')

Unlinked-try_insert :
    (P : ℕ → Type 0) (tx : ℕ) (pool : List TxNode)
    → All P (txs pool)
    → Unlinked P (try_insert tx pool)
unfolding try_insert
Unlinked-try_insert P tx [] p = ground arith
Unlinked-try_insert P tx (node ∷ rest) p = ground (arith, Unlinked-try_insert P tx rest p.1)

-- A new transaction keeps the list in order, removed nodes included.
insert-IsIncreasing :
    (fuel tx : ℕ) (pool pool' : List TxNode)
    → 0 < tx
    → IsPositive pool
    → All (λ t. t ≢ tx) (txs pool)
    → IsIncreasing (txs pool)
    → insert fuel tx pool ≡ some pool'
    → IsIncreasing (txs pool')
unfolding insert
insert-IsIncreasing zero tx pool pool' h p n s e = cc
insert-IsIncreasing (suc fuel) tx pool pool' h p n s e =
    finish (try_insert tx pool) refl (try_insert-IsPositive tx pool h p)
      (try_insert-IsIncreasing tx pool p n s) (Unlinked-try_insert (λ t. t ≢ tx) tx pool n)
      (λ q. insert-IsIncreasing fuel tx q pool' h)
  where
    finish :
        (r : List TxNode × Bool)
        → try_insert tx pool ≡ r
        → IsPositive r.0
        → IsIncreasing (txs r.0)
        → Unlinked (λ t. t ≢ tx) r
        → ((q : List TxNode)
            → IsPositive q
            → All (λ t. t ≢ tx) (txs q)
            → IsIncreasing (txs q)
            → insert fuel tx q ≡ some pool'
            → IsIncreasing (txs pool'))
        → IsIncreasing (txs pool')
    finish (q, true) k p' s' u again = ground arith
    finish (q, false) k p' s' u again = again q p' u s' (ground arith)
