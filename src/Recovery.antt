-- ===== src/Recovery.antt =====
-- `recover` of db.go: the tables of a database after its snapshot and its write-ahead log are read.
pub mod Contents
mod Persisted
mod FirstPass
mod Passes
mod Exact
mod Above
mod Watermark
pub mod Tests
use Prim.Native.String.{String}
use text.Mathlib.Text.{◌==◌ as str_eq}
use frostdb.Base.{
  ℕ, suc, ◌+◌, Bool, true, false, not, ◌&&◌, Option, none, some, List, [], ◌∷◌, ltb, ◌==◌,
  if◌then◌else◌, Result, ok, err, ◌>>=◌,
}
use frostdb.Wal.Replay.{
  Handled, go_on, fails, Outcome, replayed, handler_error, repaired, not_repaired, replay,
}

-- `walpb.Entry`: `C` is a table's configuration, `I` the bytes of a block's id, `B` those of a record.
pub data Entry (C I B : Type 0) : Type 0 where
  new_table_block : String → C → I → Entry C I B
  write : String → Bool → B → Entry C I B
  table_block_persisted : String → I → Entry C I B
  snapshot_taken : ℕ → Entry C I B
  unknown : Entry C I B

-- What protobuf, the id library and Arrow do: `D` is a record, `S` a schema; and how the goroutines run
-- that `recover` starts: whether `writeBlock` has dropped the block that ended at a transaction when
-- `recover` returns, and whether the write of a transaction has yet to run when a block begins at a
-- second one.
pub record Codec (C I B D S : Type 0) : Type 0 where
  pub has_schema : C → Bool
  pub is_ulid : I → Bool
  pub make_schema : C → Option S
  pub same_schema : C → C → Bool
  pub read_record : B → Option D
  pub num_rows : D → ℕ
  pub is_dropped : ℕ → Bool
  pub is_late : ℕ → ℕ → Bool

pub data Failure : Type 0 where
  canceled unhandled_schema bad_ulid instantiate_table initialize_schema promote_table : Failure
  read_record_failed parquet_write unexpected_entry invalid_name : Failure

-- `TableBlock` with the records of its index, each with its transaction, the last one first.
pub record Block (I D : Type 0) : Type 0 where
  pub ulid : I
  pub min_tx : ℕ
  pub prev_tx : ℕ
  pub rows : List (ℕ × D)

pub record Table (C I D S : Type 0) : Type 0 where
  pub config : C
  pub schema : S
  pub active : Block I D
  pub pending_blocks : List (Block I D)

-- A map of Go, by its lookups.
abbrev pub Tables : Type 0 → Type 0
Tables T = String → Option T

abbrev pub update : {T : Type 0} → String → T → Tables T → Tables T
update name t tables n = if str_eq name n then some t else tables n

pub record Db (C I D S : Type 0) : Type 0 where
  pub tables : Tables (Table C I D S)
  pub tx : ℕ
  pub high_watermark : ℕ

-- `newTableBlock` of table.go without the log.
unfoldable pub new_block : {I D : Type 0} → ℕ → ℕ → I → Block I D
new_block prev_tx tx ulid = record { ulid = ulid; min_tx = tx; prev_tx = prev_tx; rows = [] }

-- The rows of the transactions that a test picks.
abbrev pub rows_where : {D : Type 0} → (ℕ → Bool) → List (ℕ × D) → List (ℕ × D)
rows_where f [] = []
rows_where f (x ∷ xs) = let rest = rows_where f xs in if f x.0 then x ∷ rest else rest

module _ {C I B D S : Type 0} (codec : Codec C I B D S) where
  -- `TableBlock.InsertRecord`
  unfoldable pub insert_record : ℕ → D → Block I D → Block I D
  insert_record tx d block =
      if codec.num_rows d == 0 then block else record block { rows = (tx, d) ∷ block.rows }

  -- The last transaction at which a block of a table was persisted, and the database.
  abbrev pub FirstPass : Type 0
  FirstPass = Tables ℕ × Db C I D S

  abbrev pub clear_active : Table C I D S → Table C I D S
  clear_active t = record t { active = record (t.active) { rows = [] } }

  abbrev pub clear_table : String → Option (Table C I D S) → Db C I D S → Db C I D S
  clear_table name none db = db
  clear_table name (some t) db = record db { tables = update name (clear_active t) db.tables }

  abbrev pub note_persisted : ℕ → ℕ → Entry C I B → FirstPass → Handled FirstPass Failure
  note_persisted snapshot_tx tx (table_block_persisted name i) (persisted, db) = go_on (
    update name tx persisted,
    if ltb snapshot_tx tx then clear_table name (db.tables name) db else db,
  )
  note_persisted snapshot_tx tx entry state = go_on state

  -- The handler of the first replay.
  unfoldable pub first_handler :
      (ℕ → Bool) → ℕ → ℕ → Entry C I B → FirstPass → Handled FirstPass Failure
  first_handler done snapshot_tx tx entry state =
      if done tx then fails canceled else note_persisted snapshot_tx tx entry state

  pub record Recovered : Type 0 where
    pub db : Db C I D S
    pub last_tx : ℕ
    pub perform_snapshot : Bool

  abbrev pub put_table : String → Table C I D S → Recovered → Recovered
  put_table name t r = record r { db = record (r.db) { tables = update name t (r.db).tables } }

  -- A table that is not there yet. (No table is read-only at this point.)
  abbrev pub create_table : ℕ → String → C → I → Option S → Recovered → Handled Recovered Failure
  create_table tx name config i none r = fails instantiate_table
  create_table tx name config i (some schema) r = go_on (
      put_table name
        (record {
          config = config;
          schema = schema;
          active = new_block 0 tx i;
          pending_blocks = [];
        })
        r)

  -- The schema of the table from now on.
  abbrev pub next_schema : C → Table C I D S → Option S
  next_schema config t =
      if codec.same_schema config t.config then some t.schema else codec.make_schema config

  -- The block that ended becomes pending, until `writeBlock` has persisted it, or not, and drops it.
  -- Nothing in `recover` reads the pending blocks, so that what counts is which are left when it returns.
  abbrev pub ended_block : ℕ → Block I D → List (Block I D) → List (Block I D)
  ended_block tx block pending = if codec.is_dropped tx then pending else block ∷ pending

  -- A write goes to the block that is active when it runs: one that has yet to run goes to the next.
  abbrev pub early_rows : ℕ → Block I D → Block I D
  early_rows tx block = record block {
    rows = rows_where (λ w. not (codec.is_late w tx)) block.rows;
  }

  abbrev pub next_block : ℕ → Block I D → I → Block I D
  next_block tx block i = record (new_block (block.min_tx) tx i) {
    rows = rows_where (λ w. codec.is_late w tx) block.rows;
  }

  -- A block was finished, but not persisted.
  abbrev pub rotate_table :
      ℕ → String → Table C I D S → I → Option S → Recovered → Handled Recovered Failure
  rotate_table tx name t i none r = fails initialize_schema
  rotate_table tx name t i (some schema) r = go_on (
      put_table name
        (record t {
          schema = schema;
          active = next_block tx t.active i;
          pending_blocks = ended_block tx (early_rows tx t.active) t.pending_blocks;
        })
        r)

  abbrev pub is_persisted : Tables ℕ → String → ℕ → Bool
  is_persisted persisted name tx = elim (persisted name) [ none ↦ false | some last ↦ ltb tx last ]

  abbrev pub on_new_block :
      ℕ → String → C → I → Option (Table C I D S) → Recovered → Handled Recovered Failure
  on_new_block tx name config i none r = create_table tx name config i (codec.make_schema config) r
  on_new_block tx name config i (some t) r = rotate_table tx name t i (next_schema config t) r

  -- The source writes in a goroutine, which it waits for at the end. Nothing reads what it writes before,
  -- so that the record stands in the active block here, and is moved where a block begins before the
  -- goroutine has run; a parquet write stops the program there.
  abbrev pub insert_payload :
      ℕ → String → Table C I D S → Bool → Option D → Recovered → Handled Recovered Failure
  insert_payload tx name t false d r = fails parquet_write
  insert_payload tx name t true none r = fails read_record_failed
  insert_payload tx name t true (some d) r =
      go_on (put_table name (record t { active = insert_record tx d t.active }) r)

  abbrev pub on_write :
      ℕ → String → Bool → B → Option (Table C I D S) → Recovered → Handled Recovered Failure
  on_write tx name arrow b none r = go_on r
  on_write tx name arrow b (some t) r = insert_payload tx name t arrow (codec.read_record b) r

  abbrev pub on_entry : Tables ℕ → ℕ → Entry C I B → Recovered → Handled Recovered Failure
  on_entry persisted tx (new_table_block name config i) r =
      if not (codec.has_schema config)
      then fails unhandled_schema
      else if not (codec.is_ulid i)
      then fails bad_ulid
      else if is_persisted persisted name tx
      then go_on r
      else on_new_block tx name config i ((r.db).tables name) r
  on_entry persisted tx (write name arrow b) r =
      if is_persisted persisted name tx
      then go_on r
      else on_write tx name arrow b ((r.db).tables name) r
  on_entry persisted tx (table_block_persisted name i) r =
      go_on (record r { perform_snapshot = true })
  on_entry persisted tx (snapshot_taken t) r = go_on r
  on_entry persisted tx unknown r = fails unexpected_entry

  -- The handler of the second replay.
  unfoldable pub second_handler :
      (ℕ → Bool) → Tables ℕ → ℕ → Entry C I B → Recovered → Handled Recovered Failure
  unfolding insert_record new_block
  second_handler done persisted tx entry r =
      if done tx then fails canceled else on_entry persisted tx entry (record r { last_tx = tx })

  -- `resetToTxn` without a log to reset.
  unfoldable pub reset_db : ℕ → Db C I D S → Db C I D S
  reset_db txn db = record db { tx = txn; high_watermark = txn }

  -- What follows the second replay: whether to take a snapshot is returned with the database.
  abbrev pub resume : ℕ → Recovered × Outcome Failure → Result Failure (Db C I D S × Bool)
  resume snapshot_tx (r, handler_error e) = err e
  resume snapshot_tx (r, not_repaired keep e) = err e
  resume snapshot_tx (r, end') = ok (
    reset_db (if ltb snapshot_tx r.last_tx then r.last_tx else snapshot_tx) r.db,
    r.perform_snapshot,
  )

  abbrev pub second_pass :
      (ℕ → Option Failure)
      → (ℕ → Bool)
      → (ℕ → Option (Entry C I B))
      → ℕ
      → ℕ
      → ℕ
      → FirstPass
      → Result Failure (Db C I D S × Bool)
  second_pass truncate_back done read first_index last_index snapshot_tx state =
      resume snapshot_tx (
        replay truncate_back read (second_handler done state.0) first_index last_index snapshot_tx
          (record { db = state.1; last_tx = 0; perform_snapshot = false }))

  -- A log that the first replay has repaired is shorter in the second.
  abbrev pub after_first :
      (ℕ → Option Failure)
      → (ℕ → Bool)
      → (ℕ → Option (Entry C I B))
      → ℕ
      → ℕ
      → ℕ
      → FirstPass × Outcome Failure
      → Result Failure (Db C I D S × Bool)
  after_first truncate_back done read first_index last_index snapshot_tx (state, replayed) =
      second_pass truncate_back done read first_index last_index snapshot_tx state
  after_first truncate_back done read first_index last_index snapshot_tx
        (state, repaired keep lost) =
      second_pass truncate_back done read first_index keep snapshot_tx state
  after_first truncate_back done read first_index last_index snapshot_tx (state, handler_error e) =
      err e
  after_first truncate_back done read first_index last_index snapshot_tx
        (state, not_repaired keep e) =
      err e

  -- `recover` behind the loading of a snapshot: `db` is what was loaded at `snapshot_tx`, or the empty
  -- database at 0, and the log reaches from `first_index` to `last_index`.
  unfoldable pub recover :
      (ℕ → Option Failure)
      → (ℕ → Bool)
      → (ℕ → Option (Entry C I B))
      → ℕ
      → ℕ
      → ℕ
      → Db C I D S
      → Result Failure (Db C I D S × Bool)
  unfolding first_handler second_handler reset_db replay
  recover truncate_back done read first_index last_index snapshot_tx db =
      after_first truncate_back done read first_index last_index snapshot_tx (
        replay truncate_back read (first_handler done snapshot_tx) first_index last_index
          snapshot_tx ((λ n. none), db))
