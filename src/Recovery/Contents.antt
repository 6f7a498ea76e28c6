-- ===== src/Recovery/Contents.antt =====
-- What each table of a recovered database holds, whatever its blocks: the second replay of `recover`.
use Prim.Native.String.{String}
use mathlib.Core.Path.{subst}
use text.Mathlib.Text.{◌==◌ as str_eq}
use text.Mathlib.TextEquality.{eq_iff}
use frostdb.Base.{
  ℕ, zero, suc, ◌+◌, ◌≤◌, ◌<◌, ◌≡◌, refl, sym, ap, ◌∙◌, Bool, false, not, ◌&&◌, Option, none, some,
  List, [], ◌∷◌, ◌++◌, leb, ◌==◌, if◌then◌else◌, arith,
}
use frostdb.Wal.Replay.{go_on, Prefix, Prefix-le, none_yet, one_more}
use frostdb.Recovery.{
  Entry, new_table_block, write, Codec, Block, Table, Tables, Db, new_block, insert_record,
  Recovered, put_table, is_persisted, on_new_block, on_write, second_handler,
}

-- The records of a table with their transactions, the last one first, pending blocks included.
abbrev pub pending_rows : {I D : Type 0} → List (Block I D) → List (ℕ × D)
pending_rows [] = []
pending_rows (b ∷ bs) = b.rows ++ pending_rows bs

abbrev pub contents : {C I D S : Type 0} → Table C I D S → List (ℕ × D)
contents t = t.active.rows ++ pending_rows t.pending_blocks

abbrev pub contents? : {C I D S : Type 0} → Option (Table C I D S) → Option (List (ℕ × D))
contents? none = none
contents? (some t) = some (contents t)

-- The records of a table, none where there is no such table.
abbrev pub view : {C I D S : Type 0} → String → Db C I D S → Option (List (ℕ × D))
view name db = contents? (db.tables name)

module _ {D : Type 0} where
  abbrev pub added : List (ℕ × D) → Option (List (ℕ × D)) → Option (List (ℕ × D))
  added new none = none
  added new (some rows) = some (new ++ rows)

module _ {C I B D S : Type 0} (codec : Codec C I B D S) where
  -- The record that a write adds to its table.
  abbrev pub row : ℕ → Option D → List (ℕ × D)
  row tx none = []
  row tx (some d) = if codec.num_rows d == 0 then [] else (tx, d) ∷ []

  -- The specification of a replay, for one table of which the log begins no block: a write adds its
  -- record to it, if it is there, and no block was persisted at a later transaction.
  unfoldable pub spec_step :
      Tables ℕ → String → ℕ → Entry C I B → Option (List (ℕ × D)) → Option (List (ℕ × D))
  spec_step persisted name tx (write m arrow b) v =
      if str_eq m name && not (is_persisted codec persisted m tx)
      then added (row tx (codec.read_record b)) v
      else v
  spec_step persisted name tx entry v = v

  -- The table `m` is put, and another looked up.
  view-update :
      (name m : String) (t : Table C I D S) (r : Recovered codec)
      → view name ((put_table codec m t r).db)
        ≡ (if str_eq m name then some (contents t) else view name (r.db))
  view-update name m t r = ground (arith)

  -- A block of another table leaves a table as it is.
  on_new_block_lem :
      (name m : String) (tx : ℕ) (config : C) (i : I) (r r' : Recovered codec)
      → on_new_block codec tx m config i ((r.db).tables m) r ≡ go_on r'
      → str_eq m name ≡ false
      → view name (r'.db) ≡ view name (r.db)
  unfolding new_block
  on_new_block_lem name m tx config i r r' h k = ground (arith, eq_iff m name)

  contents-insert_record :
      (tx : ℕ) (d : D) (t : Table C I D S)
      → contents (record t { active = insert_record codec tx d t.active })
        ≡ row tx (some d) ++ contents t
  unfolding insert_record
  contents-insert_record tx d t = ground arith

  on_write_lem :
      (name m : String) (tx : ℕ) (arrow : Bool) (b : B) (r r' : Recovered codec)
      → on_write codec tx m arrow b ((r.db).tables m) r ≡ go_on r'
      → view name (r'.db) ≡ (
          if str_eq m name
          then added (row tx (codec.read_record b)) (view name (r.db))
          else view name (r.db))
  unfolding insert_record
  on_write_lem name m tx arrow b r r' h = ground (arith, eq_iff m name)

  -- An entry that begins no block of the table.
  abbrev pub BeginsNone : String → Entry C I B → Type 0
  BeginsNone name (new_table_block m config i) = str_eq m name ≡ false
  BeginsNone name e = Unit

  -- One record of the log.
  pub second_handler-spec_step :
      (done : ℕ → Bool) (persisted : Tables ℕ) (name : String) (tx : ℕ) (entry : Entry C I B)
      (r r' : Recovered codec)
      → second_handler codec done persisted tx entry r ≡ go_on r'
      → BeginsNone name entry
      → view name (r'.db) ≡ spec_step persisted name tx entry (view name (r.db))
  unfolding second_handler spec_step
  second_handler-spec_step done persisted name tx (new_table_block m config i) r r' h k =
      ground (arith, k, on_new_block_lem name m tx config i (record r { last_tx = tx }) r')
  second_handler-spec_step done persisted name tx (write m arrow b) r r' h k =
      ground (arith, on_write_lem name m tx arrow b (record r { last_tx = tx }) r')
  second_handler-spec_step done persisted name tx entry r r' h k = ground arith

  -- The specification at one record of the log.
  abbrev pub spec_at :
      Tables ℕ → String → ℕ → Option (Entry C I B) → Option (List (ℕ × D)) → Option (List (ℕ × D))
  spec_at persisted name tx none v = v
  spec_at persisted name tx (some entry) v = spec_step persisted name tx entry v

  -- The specification of the records from `start` to the one before `t`.
  unfoldable pub spec_before :
      Tables ℕ
      → String
      → (ℕ → Option (Entry C I B))
      → ℕ
      → Option (List (ℕ × D))
      → ℕ
      → Option (List (ℕ × D))
  spec_before persisted name read start v zero = v
  spec_before persisted name read start v (suc t) =
      let before = spec_before persisted name read start v t in
      if leb start t then spec_at persisted name t (read t) before else v

  module _ (persisted : Tables ℕ) (name : String) (read : ℕ → Option (Entry C I B)) (start : ℕ)
      (v : Option (List (ℕ × D))) where
    spec_before-start : (t : ℕ) → t ≤ start → spec_before persisted name read start v t ≡ v
    unfolding spec_before
    spec_before-start zero h = refl
    spec_before-start (suc t) h = ground arith

    spec_before-suc :
        (t : ℕ) (e : Entry C I B)
        → start ≤ t
        → read t ≡ some e
        → spec_before persisted name read start v (t + 1)
          ≡ spec_step persisted name t e (spec_before persisted name read start v t)
    unfolding spec_before
    spec_before-suc t e h k =
        subst
          (λ n.
            spec_before persisted name read start v n
            ≡ spec_step persisted name t e (spec_before persisted name read start v t))
          (one t) (ground arith)
      where
        one : (n : ℕ) → suc n ≡ n + 1
        one n = omega arith

  -- The second replay up to the record `t` refines the specification.
  pub replayed-spec_before :
      (done : ℕ → Bool) (persisted : Tables ℕ) (read : ℕ → Option (Entry C I B)) (name : String)
      {start : ℕ} {r : Recovered codec} {t : ℕ} {r' : Recovered codec}
      → Prefix read (second_handler codec done persisted) start r t r'
      → ((s : ℕ) (e : Entry C I B) → start ≤ s → s < t → read s ≡ some e → BeginsNone name e)
      → view name (r'.db) ≡ spec_before persisted name read start (view name (r.db)) t
  replayed-spec_before done persisted read name {start = start} {r = r} none_yet b =
      sym (spec_before-start persisted name read start (view name (r.db)) start (omega arith))
  replayed-spec_before done persisted read name {start = start} {r = r}
        (one_more {t = t} {r = e} {g = g} {g' = g'} p k l) b =
      let low = Prefix-le read (second_handler codec done persisted) p in
      second_handler-spec_step done persisted name t e g g' l (b t e low (omega arith) k)
      ∙ ap (spec_step persisted name t e) (
          replayed-spec_before done persisted read name p (λ s e' x y. b s e' x (omega (arith, y))))
      ∙ sym (spec_before-suc persisted name read start (view name (r.db)) t e low k)
