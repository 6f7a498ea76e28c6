-- ===== src/TxPool/Isolation.antt =====
-- Write transactions of db.go and the cleaner of tx_list.go, interleaved in any order: `begin`, the
-- closure that it returns, and `beginRead`.
use frostdb.Base.{
  ℕ, ◌+◌, ◌≤◌, ◌<◌, ◌^◌, ◌≡◌, ◌≢◌, arith, List, [], ◌∷◌, Elem, leb, ◌==◌, if◌then◌else◌, ◌⊎◌,
}
use frostdb.TxPool.{u64}

-- Where a write transaction stands, with what its closure has read.
pub data Phase : Type 0 where
  unused : Phase  -- not begun
  active : Phase  -- `begin` has returned, the closure is not called
  storing : Phase  -- the closure has loaded `txn - 1`, and is about to store `txn`
  inserting : Phase  -- before `txPool.Insert(txn)`
  finished : Phase

-- The cleaner between two nodes, or between the load of the watermark and its store.
pub data Cleaner : Type 0 where
  idle : Cleaner
  raising : (txn : ℕ) → Cleaner

pub record System : Type 0 where
  pub tx : ℕ
  pub high_watermark : ℕ
  pub pool : List ℕ
  pub phase : ℕ → Phase
  pub cleaner : Cleaner

abbrev pub update : (ℕ → Phase) → ℕ → Phase → ℕ → Phase
update f i p j = if i == j then p else f j

-- After `resetToTxn`, or `resetToTxn 0` for a new database.
abbrev pub reset_to_txn : ℕ → System
reset_to_txn txn = record {
  tx = txn;
  high_watermark = txn;
  pool = [];
  phase = λ t. if leb t txn then finished else unused;
  cleaner = idle;
}

-- The atomic steps. A uint64 wraps, and the model follows a database until the counter would.
-- The pool is seen as its set of transactions; the cleaner may look at any node at any time, which
-- allows every order in which it meets nodes that are inserted meanwhile.
pub data Step (s : System) : System → Type 0 where
  begin :
      s.tx + 2 < 2 ^ 64
      → Step s (record s { tx = u64 (s.tx + 1); phase = update s.phase (u64 (s.tx + 1)) active })
  load_next :
      (txn : ℕ)
      → s.phase txn ≡ active
      → u64 (s.high_watermark + 1) ≡ txn
      → Step s (record s { phase = update s.phase txn storing })
  load_other :
      (txn : ℕ)
      → s.phase txn ≡ active
      → u64 (s.high_watermark + 1) ≢ txn
      → Step s (record s { phase = update s.phase txn inserting })
  store :
      (txn : ℕ)
      → s.phase txn ≡ storing
      → Step s (record s { high_watermark = txn; phase = update s.phase txn inserting })
  insert :
      (txn : ℕ)
      → s.phase txn ≡ inserting
      → Step s (record s { pool = txn ∷ s.pool; phase = update s.phase txn finished })
  clean_load :
      (txn : ℕ)
      → s.cleaner ≡ idle
      → Elem txn s.pool
      → u64 (s.high_watermark + 1) ≡ txn
      → Step s (record s { cleaner = raising txn })
  clean_store :
      (txn : ℕ)
      → s.cleaner ≡ raising txn
      → Step s (record s { high_watermark = txn; cleaner = idle })
  clean_remove :
      (txn : ℕ) (pool' : List ℕ)
      → s.cleaner ≡ idle
      → txn ≤ s.high_watermark
      → ((t : ℕ) → t ≢ txn → Elem t s.pool → Elem t pool')
      → ((t : ℕ) → Elem t pool' → Elem t s.pool)
      → Step s (record s { pool = pool' })

pub data Reach (first : ℕ) : System → Type 0 where
  here : Reach first (reset_to_txn first)
  next : {s t : System} → Reach first s → Step s t → Reach first t

-- The closure has done its write to the table, and has at least stored or passed the watermark.
abbrev pub IsComplete : Phase → Type 0
IsComplete p = (p ≡ inserting) ⊎ (p ≡ finished)

pub record Inv (s : System) : Type 0 where
  pub room : s.tx + 1 < 2 ^ 64
  pub within : s.high_watermark ≤ s.tx
  pub begun : (t : ℕ) → t ≤ s.tx → s.phase t ≢ unused
  pub above : (t : ℕ) → s.tx < t → s.phase t ≡ unused
  pub complete : (t : ℕ) → t ≤ s.high_watermark → IsComplete (s.phase t)
  pub stores : (t : ℕ) → s.phase t ≡ storing → t ≡ s.high_watermark + 1
  pub raises : (t : ℕ) → s.cleaner ≡ raising t → (t ≡ s.high_watermark + 1) × (s.phase t ≡ finished)
  pub pooled : (t : ℕ) → Elem t s.pool → s.phase t ≡ finished
  pub covered : (t : ℕ) → s.phase t ≡ finished → (t ≤ s.high_watermark) ⊎ Elem t s.pool

module _ {s : System} (inv : Inv s) where
  open inv use {room, within, begun, above, complete, stores, raises, pooled, covered}

  begin-Inv :
      s.tx + 2 < 2 ^ 64
      → Inv (record s { tx = u64 (s.tx + 1); phase = update s.phase (u64 (s.tx + 1)) active })
  begin-Inv h = record {
    room = omega arith;
    within = omega arith;
    begun = λ t k. ground (arith, begun t);
    above = λ t k. ground (arith, above t);
    complete = λ t k. ground (arith, complete t);
    stores = λ t k. ground (arith, stores t);
    raises = λ t k. ground (arith, raises t, above t);
    pooled = λ t k. ground (arith, pooled t, above t);
    covered = λ t k. ground (arith, covered t);
  }

  phase-Inv :
      (txn : ℕ) (p : Phase)
      → s.phase txn ≡ active
      → p ≢ unused
      → p ≢ finished
      → (p ≡ storing → txn ≡ s.high_watermark + 1)
      → Inv (record s { phase = update s.phase txn p })
  phase-Inv txn p a u f h = record {
    room = room;
    within = within;
    begun = λ t k. ground (arith, begun t);
    above = λ t k. ground (arith, above t);
    complete = λ t k. ground (arith, complete t);
    stores = λ t k. ground (arith, stores t);
    raises = λ t k. ground (arith, raises t);
    pooled = λ t k. ground (arith, pooled t);
    covered = λ t k. ground (arith, covered t);
  }

  store-Inv :
      (txn : ℕ)
      → s.phase txn ≡ storing
      → Inv (record s { high_watermark = txn; phase = update s.phase txn inserting })
  store-Inv txn h = record {
    room = room;
    within = ground (arith, above txn, stores txn);
    begun = λ t k. ground (arith, begun t);
    above = λ t k. ground (arith, above t);
    complete = λ t k. ground (arith, complete t, stores txn);
    stores = λ t k. ground (arith, stores t, stores txn);
    raises = λ t k. ground (arith, raises t, stores txn);
    pooled = λ t k. ground (arith, pooled t);
    covered = λ t k. ground (arith, covered t, stores txn);
  }

  insert-Inv :
      (txn : ℕ)
      → s.phase txn ≡ inserting
      → Inv (record s { pool = txn ∷ s.pool; phase = update s.phase txn finished })
  insert-Inv txn h = record {
    room = room;
    within = within;
    begun = λ t k. ground (arith, begun t);
    above = λ t k. ground (arith, above t);
    complete = λ t k. ground (arith, complete t);
    stores = λ t k. ground (arith, stores t);
    raises = λ t k. ground (arith, raises t);
    pooled = λ t k. ground (arith, pooled t);
    covered = λ t k. ground (arith, covered t);
  }

  clean_load-Inv :
      (txn : ℕ)
      → Elem txn s.pool
      → u64 (s.high_watermark + 1) ≡ txn
      → Inv (record s { cleaner = raising txn })
  clean_load-Inv txn e h = record {
    room = room;
    within = within;
    begun = begun;
    above = above;
    complete = complete;
    stores = stores;
    raises = λ t k. ground (arith, pooled txn);
    pooled = pooled;
    covered = covered;
  }

  clean_store-Inv :
      (txn : ℕ) → s.cleaner ≡ raising txn → Inv (record s { high_watermark = txn; cleaner = idle })
  clean_store-Inv txn h = record {
    room = room;
    within = ground (arith, raises txn, above txn);
    begun = begun;
    above = above;
    complete = λ t k. ground (arith, complete t, raises txn);
    stores = λ t k. ground (arith, stores t, raises txn);
    raises = λ t k. ground arith;
    pooled = pooled;
    covered = λ t k. ground (arith, covered t, raises txn);
  }

  clean_remove-Inv :
      (txn : ℕ) (pool' : List ℕ)
      → txn ≤ s.high_watermark
      → ((t : ℕ) → t ≢ txn → Elem t s.pool → Elem t pool')
      → ((t : ℕ) → Elem t pool' → Elem t s.pool)
      → Inv (record s { pool = pool' })
  clean_remove-Inv txn pool' h kept sub = record {
    room = room;
    within = within;
    begun = begun;
    above = above;
    complete = complete;
    stores = stores;
    raises = raises;
    pooled = λ t k. pooled t (sub t k);
    covered = λ t k. ground (arith, covered t, kept t);
  }

next_mark :
    {s : System} {txn : ℕ} → Inv s → u64 (s.high_watermark + 1) ≡ txn → txn ≡ s.high_watermark + 1
next_mark inv e = omega (arith, inv.within, inv.room)

pub Step-Inv : {s t : System} → Step s t → Inv s → Inv t
Step-Inv (begin h) inv = begin-Inv inv h
Step-Inv (load_next txn a e) inv =
    phase-Inv inv txn storing a (ground arith) (ground arith) (λ _. next_mark inv e)
Step-Inv (load_other txn a e) inv =
    phase-Inv inv txn inserting a (ground arith) (ground arith) (λ k. cc)
Step-Inv (store txn h) inv = store-Inv inv txn h
Step-Inv (insert txn h) inv = insert-Inv inv txn h
Step-Inv (clean_load txn i e h) inv = clean_load-Inv inv txn e h
Step-Inv (clean_store txn h) inv = clean_store-Inv inv txn h
Step-Inv (clean_remove txn pool' i h kept sub) inv = clean_remove-Inv inv txn pool' h kept sub

Inv-reset_to_txn : (first : ℕ) → first + 1 < 2 ^ 64 → Inv (reset_to_txn first)
Inv-reset_to_txn first h = record {
  room = h;
  within = omega arith;
  begun = λ t k. ground arith;
  above = λ t k. ground arith;
  complete = λ t k. ground arith;
  stores = λ t k. ground arith;
  raises = λ t k. ground arith;
  pooled = λ t k. ground arith;
  covered = λ t k. ground arith;
}

pub Reach-Inv : {first : ℕ} {s : System} → first + 1 < 2 ^ 64 → Reach first s → Inv s
Reach-Inv {first} h here = Inv-reset_to_txn first h
Reach-Inv h (next r st) = Step-Inv st (Reach-Inv h r)

-- `beginRead` returns the high watermark, and a read at it sees the parts whose transaction is not
-- above it. Every such transaction has finished its write.
pub no_dirty_read :
    {first : ℕ} {s : System}
    → first + 1 < 2 ^ 64
    → Reach first s
    → (t : ℕ) → t ≤ s.high_watermark
    → IsComplete (s.phase t)
no_dirty_read h r = (Reach-Inv h r).complete

-- The watermark never goes back, whichever of the two writers stores it.
high_watermark_mono :
    {first : ℕ} {s t : System}
    → first + 1 < 2 ^ 64
    → Reach first s
    → Step s t
    → s.high_watermark ≤ t.high_watermark
high_watermark_mono h r (store txn e) = omega (arith, (Reach-Inv h r).stores txn e)
high_watermark_mono h r (clean_store txn e) = omega (arith, (Reach-Inv h r).raises txn e)
high_watermark_mono h r (begin e) = omega arith
high_watermark_mono h r (load_next txn a e) = omega arith
high_watermark_mono h r (load_other txn a e) = omega arith
high_watermark_mono h r (insert txn e) = omega arith
high_watermark_mono h r (clean_load txn i e k) = omega arith
high_watermark_mono h r (clean_remove txn pool' i k kept sub) = omega arith

-- When every transaction that was begun has finished, and the cleaner finds no next one in the
-- pool, the watermark is the last transaction that was begun: none is left behind.
pub quiescent :
    {first : ℕ} {s : System}
    → first + 1 < 2 ^ 64
    → Reach first s
    → ((t : ℕ) → t ≤ s.tx → s.phase t ≡ finished)
    → (Elem (s.high_watermark + 1) s.pool → ⊥)
    → s.high_watermark ≡ s.tx
quiescent {s} h r all stuck =
    ground (arith, inv.within, all (s.high_watermark + 1), inv.covered (s.high_watermark + 1))
  where
    inv : Inv s
    inv = Reach-Inv h r
