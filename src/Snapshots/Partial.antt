-- ===== src/Snapshots/Partial.antt =====
-- A snapshot of which a part can be read, in `loadLatestSnapshot` of snapshot.go.
use Prim.Native.String.{String}
use frostdb.Base.{ℕ, ◌≡◌, true, Option, some, List, [], ◌∷◌}
use frostdb.Recovery.{Codec, Table}
use frostdb.Snapshots.Load.{TableMeta, validate_name}

module _ {C I B D S : Type 0} (codec : Codec C I B D S) (fresh : I) where
  -- What is loaded of a table: one part, which can be read.
  abbrev pub one_part : String → C → I → ℕ → B → List (List (ℕ × B)) → TableMeta C I B
  one_part name config i t b rest = record {
    name = name;
    config = config;
    ulid = i;
    min_tx = 1;
    prev_tx = 0;
    granules = ((t, b) ∷ []) ∷ rest;
  }

  module _ (name : String) (config : C) (i : I) (t : ℕ) (b : B) (d : D) (schema : S)
      (a1 : codec.has_schema config ≡ true) (a2 : codec.is_ulid i ≡ true)
      (a3 : validate_name name ≡ true) (a4 : codec.make_schema config ≡ some schema)
      (a5 : codec.read_record b ≡ some d) where
    abbrev SomeRows : List (ℕ × D) → Option (Table C I D S) → Type 0
    SomeRows rows o =
        (x : Table C I D S) × (o ≡ some x) × (x.active.rows ≡ rows) × (x.pending_blocks ≡ [])
