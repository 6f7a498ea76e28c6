-- ===== src/Recovery/Exact.antt =====
-- `recover` where no block of a table was persisted: nothing is lost, and nothing is there twice.
use Prim.Native.String.{String}
use mathlib.Core.List.{append_assoc, Perm}
use mathlib.Core.List.Perm
use text.Mathlib.Text.{◌==◌ as str_eq}
use text.Mathlib.TextEquality.{eq_iff}
use frostdb.Base.{
  ℕ, zero, suc, ◌+◌, ◌≤◌, ◌<◌, ◌≡◌, refl, sym, ap, ◌∙◌, Bool, true, false, Bool-cases, inl, inr,
  Option, none, some, List, [], ◌++◌, leb, if◌then◌else◌, ok, arith,
}
use frostdb.Wal.Replay.{first_tx}
use frostdb.Recovery.{Failure, Entry, new_table_block, write, Codec, Db, Tables, recover}
use frostdb.Recovery.Contents.{
  BeginsNone, view, contents?, row, spec_step, spec_at, spec_before, replayed-spec_before,
}
use frostdb.Recovery.FirstPass.{NonePersisted, none_persisted}
use frostdb.Recovery.Passes.{IsReadable, Passes, recover-Passes}

module _ {C I B D S : Type 0} (codec : Codec C I B D S) where
  -- The record that a record of the log writes to the table.
  abbrev pub written : String → ℕ → Option (Entry C I B) → List (ℕ × D)
  written name t (some (write m arrow b)) =
      if str_eq m name then row codec t (codec.read_record b) else []
  written name t e = []

  -- All records that the log writes to the table from `start` on and before `t`, the last one first.
  abbrev pub logged : String → (ℕ → Option (Entry C I B)) → ℕ → ℕ → List (ℕ × D)
  logged name read start zero = []
  logged name read start (suc t) =
      let before = logged name read start t in
      if leb start t then written name t (read t) ++ before else []

  spec_step-written :
      (persisted : Tables ℕ) (name : String) (t : ℕ) (e : Entry C I B) (rows : List (ℕ × D))
      → persisted name ≡ none
      → spec_step codec persisted name t e (some rows) ≡ some (written name t (some e) ++ rows)
  unfolding spec_step
  spec_step-written persisted name t (write m arrow b) rows h = ground (arith, eq_iff m name)
  spec_step-written persisted name t e rows h = refl

  spec_before-logged :
      (persisted : Tables ℕ) (name : String) (read : ℕ → Option (Entry C I B)) (start t : ℕ)
      (rows : List (ℕ × D))
      → persisted name ≡ none
      → spec_before codec persisted name read start (some rows) t
        ≡ some (logged name read start t ++ rows)
  unfolding spec_before
  spec_before-logged persisted name read start zero rows h = refl
  spec_before-logged persisted name read start (suc t) rows h =
      go (leb start t) (read t) (spec_before-logged persisted name read start t rows h)
    where
      go :
          (b : Bool) (o : Option (Entry C I B))
          → spec_before codec persisted name read start (some rows) t
            ≡ some (logged name read start t ++ rows)
          → (if b
              then spec_at codec persisted name t o
                  (spec_before codec persisted name read start (some rows) t)
              else some rows)
            ≡ some ((if b then written name t o ++ logged name read start t else []) ++ rows)
      go true none ih = ih
      go true (some e) ih =
          ap (spec_step codec persisted name t e) ih
          ∙ spec_step-written persisted name t e (logged name read start t ++ rows) h
          ∙ ap some (sym (append_assoc (written name t (some e)) (logged name read start t) rows))
      go false o ih = refl

  -- No record of the log begins a block of the table.
  abbrev pub NoBlocks : String → (ℕ → Option (Entry C I B)) → ℕ → ℕ → Type 0
  NoBlocks name read start last_index =
      (t : ℕ) (config : C) (i : I)
      → start ≤ t
      → t ≤ last_index
      → read t ≡ some (new_table_block name config i)
      → ⊥

  NoBlocks-BeginsNone :
      (name : String) (read : ℕ → Option (Entry C I B)) (start last_index : ℕ)
      → NoBlocks name read start last_index
      → (s : ℕ) (e : Entry C I B) → start ≤ s
      → s < last_index + 1
      → read s ≡ some e
      → BeginsNone codec name e
  NoBlocks-BeginsNone name read start last_index h s (new_table_block m config i) low high at_s =
      elim (Bool-cases (str_eq m name)) [
        | inl y ↦ absurd (
            h s config i low (omega (arith, high)) (
              at_s
              ∙ ap (λ n. some (new_table_block n config i)) (ground (arith, y, eq_iff m name))))
        | inr n ↦ n
      ]
  NoBlocks-BeginsNone name read start last_index h s e low high at_s = tt

  recovered :
      (truncate_back : ℕ → Option Failure) (done : ℕ → Bool) (read : ℕ → Option (Entry C I B))
      (first_index last_index snapshot_tx : ℕ) (db db' : Db C I D S) (again : Bool) (name : String)
      (rows : List (ℕ × D))
      → 0 < first_tx first_index snapshot_tx
      → first_tx first_index snapshot_tx ≤ last_index
      → IsReadable read (first_tx first_index snapshot_tx) last_index
      → NonePersisted codec read name (first_tx first_index snapshot_tx) (last_index + 1)
      → NoBlocks name read (first_tx first_index snapshot_tx) last_index
      → view name db ≡ some rows
      → recover codec truncate_back done read first_index last_index snapshot_tx db
        ≡ ok (db', again)
      → view name db'
        ≡ some (logged name read (first_tx first_index snapshot_tx) (last_index + 1) ++ rows)
  recovered truncate_back done read first_index last_index snapshot_tx db db' again name rows pos
        below readable none_in no_blocks loaded e =
      ap (λ (t : Tables _). contents? (t name)) p.same_tables
      ∙ replayed-spec_before codec done (p.first.0) read name p.second_pass
          (NoBlocks-BeginsNone name read start last_index no_blocks)
      ∙ ap (λ v. spec_before codec (p.first.0) name read start v (last_index + 1))
          (ap contents? f.1 ∙ loaded)
      ∙ spec_before-logged (p.first.0) name read start (last_index + 1) rows f.0
    where
      start : ℕ
      start = first_tx first_index snapshot_tx

      p : Passes codec done read start last_index snapshot_tx db db'
      p =
          recover-Passes codec done truncate_back read first_index last_index snapshot_tx db db'
            again pos below readable e

      f : (p.first.0 name ≡ none) × ((p.first.1).tables name ≡ db.tables name)
      f = none_persisted codec done snapshot_tx read name p.first_pass none_in

  -- Conditions: the log has a record to start at, each of its records can be read, none of them says
  -- that a block of the table was persisted, none begins a block of the table, the loaded database has
  -- the table with the given rows, and `recover` returns. Then the table holds the loaded rows and each
  -- record that the log wrote to it once, and no other, in some order.
  pub recover-logged :
      (truncate_back : ℕ → Option Failure) (done : ℕ → Bool) (read : ℕ → Option (Entry C I B))
      (first_index last_index snapshot_tx : ℕ) (db db' : Db C I D S) (again : Bool) (name : String)
      (rows : List (ℕ × D))
      → 0 < first_tx first_index snapshot_tx
      → first_tx first_index snapshot_tx ≤ last_index
      → IsReadable read (first_tx first_index snapshot_tx) last_index
      → NonePersisted codec read name (first_tx first_index snapshot_tx) (last_index + 1)
      → NoBlocks name read (first_tx first_index snapshot_tx) last_index
      → view name db ≡ some rows
      → recover codec truncate_back done read first_index last_index snapshot_tx db
        ≡ ok (db', again)
      → (rows' : List (ℕ × D)) × (view name db' ≡ some rows')
        × Perm rows' (logged name read (first_tx first_index snapshot_tx) (last_index + 1) ++ rows)
  recover-logged truncate_back done read first_index last_index snapshot_tx db db' again name rows
        pos below readable none_in no_blocks loaded e =
      (
        logged name read (first_tx first_index snapshot_tx) (last_index + 1) ++ rows,
        recovered truncate_back done read first_index last_index snapshot_tx db db' again name rows
            pos below readable none_in no_blocks loaded e,
        Perm.refl _,
      )
