-- ===== src/Recovery/Above.antt =====
-- `recover` where a block of a table was persisted: what is left of the table.
use Prim.Native.String.{String}
use mathlib.Core.Path.{subst⁻¹}
use text.Mathlib.Text.{◌==◌ as str_eq}
use text.Mathlib.TextEquality.{eq_iff}
use frostdb.Base.{
  ℕ, ◌+◌, ◌≤◌, ◌<◌, ◌≡◌, ap, Bool, true, false, not, ◌&&◌, Option, none, some, List, [], ◌∷◌, ◌++◌,
  if◌then◌else◌, ok, arith, Bool-cases, inl, inr, All, All-append,
}
use frostdb.Wal.Replay.{first_tx, go_on, Prefix, none_yet, one_more}
use frostdb.Recovery.{
  Failure, Entry, new_table_block, write, Codec, Db, Tables, is_persisted, recover, Recovered,
  Table, Block, on_new_block, ended_block, early_rows, rows_where, second_handler, new_block,
}
use frostdb.Recovery.Contents.{
  view, contents?, pending_rows, row, added, spec_step, second_handler-spec_step,
}
use frostdb.Recovery.Persisted.{IsLoaded, NoRows}
use frostdb.Recovery.FirstPass.{PersistsAt, persisted_last, emptied}
use frostdb.Recovery.Passes.{IsReadable, Passes, recover-Passes}

module _ {D : Type 0} where
  -- The rows of a table all have the given transaction or a later one.
  abbrev pub AreAbove : ℕ → Option (List (ℕ × D)) → Type 0
  AreAbove p none = Unit
  AreAbove p (some rows) = All (λ (x : ℕ × D). p ≤ x.0) rows

module _ {C I B D S : Type 0} (codec : Codec C I B D S) where
  row-AreAbove : (p t : ℕ) (o : Option D) → p ≤ t → All (λ (x : ℕ × D). p ≤ x.0) (row codec t o)
  row-AreAbove p t none h = tt
  row-AreAbove p t (some d) h = ground arith

  added-AreAbove :
      (p t : ℕ) (o : Option D) (v : Option (List (ℕ × D)))
      → p ≤ t
      → AreAbove p v
      → AreAbove p (added (row codec t o) v)
  added-AreAbove p t o none h k = tt
  added-AreAbove p t o (some rows) h k =
      All-append (λ (x : ℕ × D). p ≤ x.0) (row codec t o) rows (row-AreAbove p t o h) k

  All-right : {A : Type 0} (P : A → Type 0) (xs ys : List A) → All P (xs ++ ys) → All P ys
  All-right P [] ys h = h
  All-right P (x ∷ xs) ys h = All-right P xs ys h.1

  All-left : {A : Type 0} (P : A → Type 0) (xs ys : List A) → All P (xs ++ ys) → All P xs
  All-left P [] ys h = tt
  All-left P (x ∷ xs) ys h = (h.0, All-left P xs ys h.1)

  ended-AreAbove :
      (p tx : ℕ) (block : Block I D) (pending : List (Block I D))
      → AreAbove p (some (block.rows ++ pending_rows pending))
      → AreAbove p (some (pending_rows (ended_block codec tx block pending)))
  ended-AreAbove p tx block pending k = go (codec.is_dropped tx)
    where
      go : (b : Bool) → AreAbove p (some (pending_rows (if b then pending else block ∷ pending)))
      go true = All-right (λ (x : ℕ × D). p ≤ x.0) block.rows (pending_rows pending) k
      go false = k

  rows_where-AreAbove :
      (p : ℕ) (f : ℕ → Bool) (rows : List (ℕ × D))
      → AreAbove p (some rows)
      → AreAbove p (some (rows_where f rows))
  rows_where-AreAbove p f [] k = tt
  rows_where-AreAbove p f (x ∷ xs) k = go (f x.0) (rows_where-AreAbove p f xs k.1)
    where
      go :
          (b : Bool)
          → AreAbove p (some (rows_where f xs))
          → AreAbove p (some (if b then x ∷ rows_where f xs else rows_where f xs))
      go true ih = (k.0, ih)
      go false ih = ih

  -- What a table holds when one of its blocks begins.
  abbrev left : ℕ → Option (Table C I D S) → Option (List (ℕ × D))
  left tx none = some []
  left tx (some t) = some (
      rows_where (λ w. codec.is_late w tx) t.active.rows
      ++ pending_rows (ended_block codec tx (early_rows codec tx t.active) t.pending_blocks))

  left-AreAbove :
      (p tx : ℕ) (o : Option (Table C I D S)) → AreAbove p (contents? o) → AreAbove p (left tx o)
  left-AreAbove p tx none k = tt
  left-AreAbove p tx (some t) k =
      let active =
        All-left (λ (x : ℕ × D). p ≤ x.0) t.active.rows (pending_rows t.pending_blocks) k in
      All-append (λ (x : ℕ × D). p ≤ x.0) (rows_where (λ w. codec.is_late w tx) t.active.rows)
        (pending_rows (ended_block codec tx (early_rows codec tx t.active) t.pending_blocks))
        (rows_where-AreAbove p (λ w. codec.is_late w tx) t.active.rows active)
        (ended-AreAbove p tx (early_rows codec tx t.active) t.pending_blocks (
          All-append (λ (x : ℕ × D). p ≤ x.0)
            (rows_where (λ w. not (codec.is_late w tx)) t.active.rows)
            (pending_rows t.pending_blocks)
            (rows_where-AreAbove p (λ w. not (codec.is_late w tx)) t.active.rows active)
            (All-right (λ (x : ℕ × D). p ≤ x.0) t.active.rows (pending_rows t.pending_blocks) k)))

  on_new_block-left :
      (tx : ℕ) (name m : String) (config : C) (i : I) (o : Option (Table C I D S))
      (r r' : Recovered codec)
      → on_new_block codec tx m config i o r ≡ go_on r'
      → str_eq m name ≡ true
      → view name (r'.db) ≡ left tx o
  unfolding new_block
  on_new_block-left tx name m config i none r r' h y = ground arith
  on_new_block-left tx name m config i (some t) r r' h y = ground arith

  -- A block that begins leaves no earlier record, whatever is left of the one that ended.
  on_new_block-AreAbove :
      (p tx : ℕ) (name m : String) (config : C) (i : I) (r r' : Recovered codec)
      → on_new_block codec tx m config i ((r.db).tables m) r ≡ go_on r'
      → str_eq m name ≡ true
      → AreAbove p (view name (r.db))
      → AreAbove p (view name (r'.db))
  on_new_block-AreAbove p tx name m config i r r' h y k =
      subst⁻¹ (AreAbove p) (on_new_block-left tx name m config i ((r.db).tables m) r r' h y) (
        left-AreAbove p tx ((r.db).tables m)
          (subst⁻¹ (λ n. AreAbove p (contents? ((r.db).tables n))) ((eq_iff m name).0 y) k))

  spec_step-AreAbove :
      (persisted : Tables ℕ) (name : String) (p q t : ℕ) (e : Entry C I B)
      (v : Option (List (ℕ × D)))
      → persisted name ≡ some q
      → p ≤ q
      → AreAbove p v
      → AreAbove p (spec_step codec persisted name t e v)
  unfolding spec_step
  spec_step-AreAbove persisted name p q t (write m arrow b) v h l k =
      elim (Bool-cases (str_eq m name && not (is_persisted codec persisted m t))) [
        | inl y ↦
            subst⁻¹ (λ x. AreAbove p (if x then added (row codec t (codec.read_record b)) v else v))
              y (added-AreAbove p t (codec.read_record b) v (ground (arith, eq_iff m name)) k)
        | inr n ↦
            subst⁻¹ (λ x. AreAbove p (if x then added (row codec t (codec.read_record b)) v else v))
              n k
      ]
  spec_step-AreAbove persisted name p q t e v h l k = k

  -- One record of the log.
  second_handler-AreAbove :
      (done : ℕ → Bool) (persisted : Tables ℕ) (name : String) (p q t : ℕ) (e : Entry C I B)
      (r r' : Recovered codec)
      → second_handler codec done persisted t e r ≡ go_on r'
      → persisted name ≡ some q
      → p ≤ q
      → AreAbove p (view name (r.db))
      → AreAbove p (view name (r'.db))
  unfolding second_handler spec_step
  second_handler-AreAbove done persisted name p q t (new_table_block m c i) r r' h e l k =
      elim (Bool-cases (str_eq m name)) [
        | inl y ↦ ground (arith, on_new_block-AreAbove p t name m c i (record r { last_tx = t }) r')
        | inr n ↦
            subst⁻¹ (AreAbove p)
              (second_handler-spec_step codec done persisted name t (new_table_block m c i) r r' h
                n)
              k
      ]
  second_handler-AreAbove done persisted name p q t (write m a b) r r' h e l k =
      subst⁻¹ (AreAbove p)
        (second_handler-spec_step codec done persisted name t (write m a b) r r' h tt)
        (spec_step-AreAbove persisted name p q t (write m a b) (view name (r.db)) e l k)
  second_handler-AreAbove done persisted name p q t e r r' h f l k =
      subst⁻¹ (AreAbove p) (second_handler-spec_step codec done persisted name t e r r' h tt)
        (spec_step-AreAbove persisted name p q t e (view name (r.db)) f l k)

  -- The second replay up to the record `t`.
  replayed-AreAbove :
      (done : ℕ → Bool) (persisted : Tables ℕ) (read : ℕ → Option (Entry C I B)) (name : String)
      (p q : ℕ) {start : ℕ} {r : Recovered codec} {t : ℕ} {r' : Recovered codec}
      → Prefix read (second_handler codec done persisted) start r t r'
      → persisted name ≡ some q
      → p ≤ q
      → AreAbove p (view name (r.db))
      → AreAbove p (view name (r'.db))
  replayed-AreAbove done persisted read name p q none_yet h l k = k
  replayed-AreAbove done persisted read name p q (one_more {t = t} {r = e} {g = g} {g' = g'} x y z)
        h l k =
      second_handler-AreAbove done persisted name p q t e g g' z h l
        (replayed-AreAbove done persisted read name p q x h l k)

  NoRows-AreAbove : (p : ℕ) (v : Option (List (ℕ × D))) → NoRows codec v → AreAbove p v
  NoRows-AreAbove p none h = tt
  NoRows-AreAbove p (some rows) h = subst⁻¹ (All (λ (x : ℕ × D). p ≤ x.0)) h tt

  -- Conditions: the log has a record to start at, each of its records can be read, record `p`, above
  -- the snapshot, says that a block of the table was persisted, the table has no pending blocks when
  -- it is loaded, and `recover` returns. Then the table is left with no record below `p`: neither one
  -- of the persisted block, nor one that was written to the next block before `p`, whenever the
  -- goroutines of writes and of blocks run.
  pub recover-AreAbove :
      (truncate_back : ℕ → Option Failure) (done : ℕ → Bool) (read : ℕ → Option (Entry C I B))
      (first_index last_index snapshot_tx : ℕ) (db db' : Db C I D S) (again : Bool) (name : String)
      (p : ℕ)
      → 0 < first_tx first_index snapshot_tx
      → first_tx first_index snapshot_tx ≤ p
      → p ≤ last_index
      → snapshot_tx < p
      → IsReadable read (first_tx first_index snapshot_tx) last_index
      → PersistsAt codec read name p
      → IsLoaded codec (db.tables name)
      → recover codec truncate_back done read first_index last_index snapshot_tx db
        ≡ ok (db', again)
      → AreAbove p (view name db')
  recover-AreAbove truncate_back done read first_index last_index snapshot_tx db db' again name p
        pos low high later readable at_p loaded e =
      subst⁻¹ (AreAbove p) (ap (λ (t : Tables _). contents? (t name)) passes.same_tables) (
        replayed-AreAbove done (passes.first.0) read name p q.0 passes.second_pass q.1 q.2 (
          NoRows-AreAbove p (view name (passes.first.1))
            (none_left.1 p low (omega arith) later at_p)))
    where
      start : ℕ
      start = first_tx first_index snapshot_tx

      passes : Passes codec done read start last_index snapshot_tx db db'
      passes =
          recover-Passes codec done truncate_back read first_index last_index snapshot_tx db db'
            again pos (omega arith) readable e

      q : (q : ℕ) × (passes.first.0 name ≡ some q) × (p ≤ q)
      q = persisted_last codec done snapshot_tx read name passes.first_pass p low (omega arith) at_p

      none_left :
          IsLoaded codec ((passes.first.1).tables name)
          × ((p : ℕ)
              → start ≤ p
              → p < last_index + 1
              → snapshot_tx < p
              → PersistsAt codec read name p
              → NoRows codec (view name (passes.first.1)))
      none_left = emptied codec done snapshot_tx read name passes.first_pass loaded
