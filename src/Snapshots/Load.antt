-- ===== src/Snapshots/Load.antt =====
-- `loadSnapshot` of snapshot.go and `Table` of db.go: the tables that a snapshot brings.
use Prim.Native.Char.{code}
use Prim.Native.String.{String}
use text.Mathlib.Text.{◌==◌ as str_eq}
use frostdb.Base.{
  ℕ, ◌+◌, Bool, true, false, not, ◌||◌, Option, none, some, List, [], ◌∷◌, ◌==◌, if◌then◌else◌,
}
use frostdb.Recovery.{Codec, Table, Tables, update, Db, new_block}
use frostdb.Snapshots.{Loaded, loaded, failed}

abbrev pub codes : String → List ℕ
codes String.[] = []
codes (String.◌∷◌ c s) = code c ∷ codes s

abbrev pub contains_slash : List ℕ → Bool
contains_slash [] = false
contains_slash (c ∷ cs) = c == b'/' || contains_slash cs

-- `validateName`
unfoldable pub validate_name : String → Bool
validate_name name = not (contains_slash (codes name))

-- `snapshotpb.Table`: a granule is a list of parts, each with its transaction and its bytes.
pub record TableMeta (C I B : Type 0) : Type 0 where
  pub name : String
  pub config : C
  pub ulid : I
  pub min_tx : ℕ
  pub prev_tx : ℕ
  pub granules : List (List (ℕ × B))

abbrev pub delete : {T : Type 0} → String → Tables T → Tables T
delete name tables n = if str_eq name n then none else tables n

abbrev pub delete_all : {T : Type 0} → List String → Tables T → Tables T
delete_all [] tables = tables
delete_all (n ∷ ns) tables = delete_all ns (delete n tables)

module _ {C I B D S : Type 0} (codec : Codec C I B D S) where
  -- The parts of a granule, unless one cannot be read.
  unfoldable pub read_parts : List (ℕ × B) → Option (List (ℕ × D))
  read_parts [] = some []
  read_parts ((tx, b) ∷ ps) =
      let rest = read_parts ps in
      elim (codec.read_record b) [
        | none ↦ none
        | some d ↦ elim rest [ none ↦ none | some ds ↦ some ((tx, d) ∷ ds) ]
      ]

  -- `InsertPart` of each part puts it in front.
  abbrev pub insert_parts : List (ℕ × D) → List (ℕ × D) → List (ℕ × D)
  insert_parts [] rows = rows
  insert_parts (p ∷ ps) rows = insert_parts ps (p ∷ rows)

  -- The loop over the granules: the rows of the block, and whether it came to the end.
  unfoldable pub load_granules : List (List (ℕ × B)) → List (ℕ × D) → List (ℕ × D) × Bool
  unfolding read_parts
  load_granules [] rows = (rows, true)
  load_granules (g ∷ gs) rows = elim (read_parts g) [
    | none ↦ (rows, false)
    | some ps ↦ load_granules gs (insert_parts ps rows)
  ]

  -- `DB.Table` with the id of a new block. (The log of an opening database takes every record, and its
  -- transactions are reset when the snapshot is loaded.)
  abbrev pub made_table :
      String → C → I → Option S → Db C I D S → Option (Table C I D S × Db C I D S)
  made_table name config fresh none db = none
  made_table name config fresh (some schema) db =
      let t : Table C I D S = record {
        config = config;
        schema = schema;
        active = new_block 0 (db.tx + 1) fresh;
        pending_blocks = [];
      } in
      some (t, record db { tables = update name t db.tables; tx = db.tx + 1 })

  abbrev pub known_table :
      String → C → I → Option (Table C I D S) → Db C I D S → Option (Table C I D S × Db C I D S)
  known_table name config fresh none db = made_table name config fresh (codec.make_schema config) db
  known_table name config fresh (some t) db =
      let t' : Table C I D S = record t { config = config } in
      some (t', record db { tables = update name t' db.tables })

  unfoldable pub db_table : String → C → I → Db C I D S → Option (Table C I D S × Db C I D S)
  unfolding validate_name new_block
  db_table name config fresh db =
      if validate_name name then known_table name config fresh (db.tables name) db else none

  -- The body of the loop over the tables, behind `db.Table`.
  abbrev pub fill_block : TableMeta C I B → Table C I D S → Db C I D S → Db C I D S × Bool
  fill_block m t db =
      let (rows, complete) = load_granules m.granules t.active.rows in
      (
        record db {
          tables =
              update m.name
                (record t {
                  active = record {
                    ulid = m.ulid;
                    min_tx = m.min_tx;
                    prev_tx = m.prev_tx;
                    rows = rows;
                  };
                })
                db.tables;
        },
        complete,
      )

  abbrev pub fill_table :
      TableMeta C I B → Option (Table C I D S × Db C I D S) → Db C I D S → Db C I D S × Bool
  fill_table m none db = (db, false)
  fill_table m (some (t, db')) db =
      if codec.is_ulid m.ulid then fill_block m t db' else (db', false)

  unfoldable pub load_table : I → TableMeta C I B → Db C I D S → Db C I D S × Bool
  unfolding db_table load_granules
  load_table fresh m db =
      if codec.has_schema m.config
      then fill_table m (db_table m.name m.config fresh db) db
      else (db, false)

  -- The loop over the tables; an error deletes those before the one that fails.
  unfoldable pub load_tables :
      I → List String → List (TableMeta C I B) → Db C I D S → Loaded (Db C I D S)
  unfolding load_table
  load_tables fresh before [] db = loaded db
  load_tables fresh before (m ∷ ms) db =
      let (db', complete) = load_table fresh m db in
      let rest = load_tables fresh (m.name ∷ before) ms db' in
      if complete then rest else failed (record db' { tables = delete_all before db'.tables })

  -- `loadSnapshot`, with the footer, if it can be read.
  unfoldable pub load_snapshot :
      I → Option (List (TableMeta C I B)) → Db C I D S → Loaded (Db C I D S)
  unfolding load_tables
  load_snapshot fresh none db = failed db
  load_snapshot fresh (some metas) db = load_tables fresh [] metas db
