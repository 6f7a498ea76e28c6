-- ===== src/TxPool.antt =====
-- tx_list.go: the pool of completed transactions, a sorted linked list, and the cleaner that raises
-- the high watermark. The list holds the nodes between `head` and `tail`.
mod Insert
mod Delete
mod Tests
pub mod Isolation
use frostdb.Base.{
  ℕ, zero, suc, ◌+◌, ◌%◌, ◌^◌, Bool, true, false, Option, none, some, List, [], ◌∷◌, ltb, leb, ◌==◌,
  if◌then◌else◌,
}

-- `next` is the place in the list; `marked` says that `next` was swapped for the marker nil, and
-- that `original` keeps the successor.
pub record TxNode : Type 0 where
  pub tx : ℕ
  pub marked : Bool

-- A uint64 operation wraps.
abbrev pub u64 : ℕ → ℕ
u64 n = n % 2 ^ 64

abbrev pub fresh : ℕ → TxNode
fresh tx = record { tx = tx; marked = false }

-- One walk over the list: `true` when the node was linked in, `false` when the walk unlinked a marked
-- node and has to start over. `tail` has the transaction 0.
pub try_insert : ℕ → List TxNode → List TxNode × Bool
try_insert tx [] = (fresh tx ∷ [], true)
try_insert tx (node ∷ rest) =
    if node.tx == 0
    then (fresh tx ∷ node ∷ rest, true)
    else if node.marked
    then (rest, false)
    else if ltb tx node.tx
    then (fresh tx ∷ node ∷ rest, true)
    else let (rest', linked) = try_insert tx rest in (node ∷ rest', linked)

-- `for !tryInsert() {}`, with fuel; `none` means that the fuel ran out.
pub insert : ℕ → ℕ → List TxNode → Option (List TxNode)
insert zero tx pool = none
insert (suc fuel) tx pool =
    let (pool', linked) = try_insert tx pool in
    let again = insert fuel tx pool' in if linked then some pool' else again

-- What `Iterate` shows to its callback, if that always returns true.
pub live : List TxNode → List ℕ
live [] = []
live (node ∷ rest) =
    let others = live rest in
    if node.tx == 0 then [] else if node.marked then others else node.tx ∷ others

-- The transactions of the nodes, removed or not.
abbrev pub txs : List TxNode → List ℕ
txs [] = []
txs (node ∷ rest) = node.tx ∷ txs rest

-- The function that the cleaner hands to `delete`: the watermark after the call, and whether the
-- node is to be removed.
pub delete_func : ℕ → ℕ → ℕ × Bool
delete_func mark txn =
    if u64 (mark + 1) == txn
    then (txn, true)
    else if leb txn mark
    then (mark, true)
    else (mark, false)

-- `delete` with that function: the watermark after the run, and the list.
pub delete : ℕ → List TxNode → ℕ × List TxNode
unfolding delete_func
delete mark [] = (mark, [])
delete mark (node ∷ rest) =
    let (mark', remove) = delete_func mark node.tx in
    let (mark'', rest') = delete mark' rest in
    if node.tx == 0
    then (mark, node ∷ rest)
    else if remove
    then (mark'', record node { marked = true } ∷ rest')
    else (mark', node ∷ rest)
