-- ===== src/Recovery/Persisted.antt =====
-- The first replay of `recover`: when each table was last persisted, and the tables that it empties.
use Prim.Native.String.{String}
use mathlib.Core.Path.{subst, subst⁻¹}
use text.Mathlib.Text.{◌==◌ as str_eq}
use text.Mathlib.TextEquality.{eq_iff}
use text.Mathlib.TextPositions.{eq_refl}
use frostdb.Base.{
  ℕ, ◌<◌, ◌≡◌, refl, sym, ap, Bool, false, Option, none, some, List, [], ltb, if◌then◌else◌,
  Bool-cases, inl, inr, ◌⊎◌, arith,
}
use frostdb.Wal.Replay.{go_on}
use frostdb.Recovery.{
  Entry, table_block_persisted, Codec, Table, Db, FirstPass, clear_table, clear_active,
  first_handler,
}
use frostdb.Recovery.Contents.{contents?, pending_rows}

module _ {C I B D S : Type 0} (codec : Codec C I B D S) where
  -- The record persists a block of the table.
  abbrev pub Persists : String → Option (Entry C I B) → Type 0
  Persists name (some (table_block_persisted m i)) = m ≡ name
  Persists name e = ⊥

  -- What one record of the log does to the two maps, at one table.
  abbrev pub Noted : ℕ → ℕ → String → Entry C I B → FirstPass codec → FirstPass codec → Type 0
  Noted snapshot_tx tx name e s s' =
      (Persists name (some e) × (s'.0 name ≡ some tx))
      ⊎ ((Persists name (some e) → ⊥)
          × (s'.0 name ≡ s.0 name)
          × ((s'.1).tables name ≡ (s.1).tables name))

  pub first_handler-Noted :
      (done : ℕ → Bool) (snapshot_tx tx : ℕ) (name : String) (e : Entry C I B)
      (s s' : FirstPass codec)
      → first_handler codec done snapshot_tx tx e s ≡ go_on s'
      → Noted snapshot_tx tx name e s s'
  unfolding first_handler
  first_handler-Noted done snapshot_tx tx name (table_block_persisted m i) (p, db) s' h =
      elim (Bool-cases (str_eq m name)) [
        | inl k ↦ inl ((eq_iff m name).0 k, ground arith)
        | inr k ↦ inr (λ q. absurd (ground (arith, eq_iff m name)), ground arith, ground arith)
      ]
  first_handler-Noted done snapshot_tx tx name e s s' h = inr (λ q. q, ground arith, ground arith)

  -- No block of the table is pending, as after a snapshot is loaded.
  abbrev pub IsLoaded : Option (Table C I D S) → Type 0
  IsLoaded none = Unit
  IsLoaded (some t) = t.pending_blocks ≡ []

  abbrev pub NoRows : Option (List (ℕ × D)) → Type 0
  NoRows none = Unit
  NoRows (some rows) = rows ≡ []

  -- A table as loaded.
  abbrev At : String → Option (Table C I D S) → Type 0
  At name o = IsLoaded o × NoRows (contents? o)

  clear_same :
      (name : String) (db : Db C I D S) (o : Option (Table C I D S))
      → db.tables name ≡ o
      → IsLoaded o
      → At name ((clear_table codec name o db).tables name)
  clear_same name db none e h = subst⁻¹ (At name) e (tt, tt)
  clear_same name db (some t) e h =
      subst⁻¹ (λ b. At name (if b then some (clear_active codec t) else db.tables name))
        (eq_refl name) (h, ap pending_rows h)

  clear_other :
      (name m : String) (db : Db C I D S) (o : Option (Table C I D S))
      → str_eq m name ≡ false
      → (clear_table codec m o db).tables name ≡ db.tables name
  clear_other name m db none e = refl
  clear_other name m db (some t) e =
      ap (λ b. if b then some (clear_active codec t) else db.tables name) e

  -- What a record leaves of a table: `old` before, `new` after it.
  abbrev pub Leaves :
      ℕ → ℕ → String → Entry C I B → Option (Table C I D S) → Option (Table C I D S) → Type 0
  Leaves snapshot_tx tx name e old new =
      IsLoaded new
      × (Persists name (some e) → snapshot_tx < tx → NoRows (contents? new))
      × (NoRows (contents? old) → NoRows (contents? new))

  cleared :
      (snapshot_tx tx : ℕ) (name m : String) (i : I) (db : Db C I D S)
      → IsLoaded (db.tables name)
      → Leaves snapshot_tx tx name
          (table_block_persisted m i)
          (db.tables name)
          ((clear_table codec m (db.tables m) db).tables name)
  cleared snapshot_tx tx name m i db k = elim (Bool-cases (str_eq m name)) [
    | inl e ↦
        let a =
          subst (λ n. At name ((clear_table codec n (db.tables n) db).tables name))
            (sym ((eq_iff m name).0 e)) (clear_same name db (db.tables name) refl k) in
        (a.0, λ p q. a.1, λ p. a.1)
    | inr e ↦
        subst⁻¹ (Leaves snapshot_tx tx name (table_block_persisted m i) (db.tables name))
          (clear_other name m db (db.tables m) e)
          (k, λ p q. absurd (ground (arith, eq_iff m name)), λ p. p)
  ]

  kept :
      (snapshot_tx tx : ℕ) (name : String) (e : Entry C I B) (o : Option (Table C I D S))
      → ((Persists name (some e) → snapshot_tx < tx → ⊥))
      → IsLoaded o
      → Leaves snapshot_tx tx name e o o
  kept snapshot_tx tx name e o n k = (k, λ p q. absurd (n p q), λ p. p)

  pub first_handler-Leaves :
      (done : ℕ → Bool) (snapshot_tx tx : ℕ) (name : String) (e : Entry C I B)
      (s s' : FirstPass codec)
      → first_handler codec done snapshot_tx tx e s ≡ go_on s'
      → IsLoaded ((s.1).tables name)
      → Leaves snapshot_tx tx name e ((s.1).tables name) ((s'.1).tables name)
  unfolding first_handler
  first_handler-Leaves done snapshot_tx tx name (table_block_persisted m i) (p, db) s' h k =
      elim (Bool-cases (ltb snapshot_tx tx)) [
        | inl e ↦
            let q : clear_table codec m (db.tables m) db ≡ s'.1 = ground arith in
            subst
              (λ (d : Db C I D S).
                Leaves snapshot_tx tx name (table_block_persisted m i) (db.tables name)
                  (d.tables name))
              q (cleared snapshot_tx tx name m i db k)
        | inr e ↦
            let q : db ≡ s'.1 = ground arith in
            subst
              (λ (d : Db C I D S).
                Leaves snapshot_tx tx name (table_block_persisted m i) (db.tables name)
                  (d.tables name))
              q
              (kept snapshot_tx tx name (table_block_persisted m i) (db.tables name)
                (λ p r. absurd (ground arith)) k)
      ]
  first_handler-Leaves done snapshot_tx tx name e s s' h k =
      let q : s.1 ≡ s'.1 = ground arith in
      subst (λ (d : Db C I D S). Leaves snapshot_tx tx name e ((s.1).tables name) (d.tables name)) q
        (kept snapshot_tx tx name e ((s.1).tables name) (λ p r. p) k)
