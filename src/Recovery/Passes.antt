-- ===== src/Recovery/Passes.antt =====
-- `recover` on a log that can be read: both replays take every record.
use frostdb.Base.{
  ℕ, ◌+◌, ◌≤◌, ◌<◌, ◌≡◌, sym, ◌∙◌, Bool, false, Option, none, some, inl, inr, arith, ok, ltb,
  if◌then◌else◌,
}
use frostdb.Wal.Replay.{
  Handled, panics, Outcome, replayed, handler_error, repaired, not_repaired, Panics, replay,
  first_tx, Prefix, Prefix-le, Ends, replay-Ends,
}
use frostdb.Recovery.{
  Entry, new_table_block, Codec, Db, Failure, FirstPass, Recovered, Tables, first_handler,
  second_handler, recover, after_first, resume, reset_db,
}

-- Every record of the log can be read.
abbrev pub IsReadable : {R : Type 0} → (ℕ → Option R) → ℕ → ℕ → Type 0
IsReadable {R} read start last_index =
    (t : ℕ) → start ≤ t → t ≤ last_index → (r : R) × (read t ≡ some r)

module _ {R H E : Type 0} (truncate_back : ℕ → Option E) (read : ℕ → Option R)
    (handler : ℕ → R → H → Handled H E) where
  abbrev Complete : ℕ → ℕ → H → H × Outcome E → Type 0
  Complete start last_index h (g, replayed) = Prefix read handler start h (last_index + 1) g
  Complete start last_index h (g, handler_error e) = Unit
  Complete start last_index h (g, repaired k l) = ⊥
  Complete start last_index h (g, not_repaired k e) = ⊥

  panicked :
      (start last_index : ℕ) (h g : H) (t : ℕ)
      → IsReadable read start last_index
      → ((t : ℕ) (r : R) (g : H) → handler t r g ≡ panics → ⊥)
      → Panics read handler start last_index h t g
      → ⊥
  panicked start last_index h g t c n (p, q, inl u) =
      let v = c t (Prefix-le read handler p) q in none-some (sym u ∙ v.1)
    where
      none-some : {r : R} → none ≡ some r → ⊥
      none-some h = absurd (cc)
  panicked start last_index h g t c n (p, q, inr (r, u, v)) = n t r g v

  pub Ends-Complete :
      (start last_index : ℕ) (h : H) (x : H × Outcome E)
      → IsReadable read start last_index
      → ((t : ℕ) (r : R) (g : H) → handler t r g ≡ panics → ⊥)
      → Ends truncate_back read handler start last_index h x
      → Complete start last_index h x
  Ends-Complete start last_index h (g, replayed) c n e = e
  Ends-Complete start last_index h (g, handler_error x) c n e = tt
  Ends-Complete start last_index h (g, repaired k l) c n (t, p, _, _, _) =
      panicked start last_index h g t c n p
  Ends-Complete start last_index h (g, not_repaired k x) c n (t, p, _, _) =
      panicked start last_index h g t c n p

module _ {C I B D S : Type 0} (codec : Codec C I B D S) (done : ℕ → Bool) where
  first_handler-panics :
      (snapshot_tx t : ℕ) (e : Entry C I B) (g : FirstPass codec)
      → first_handler codec done snapshot_tx t e g ≡ panics
      → ⊥
  unfolding first_handler
  first_handler-panics snapshot_tx t (new_table_block m c i) g h = ground arith
  first_handler-panics snapshot_tx t e g h = ground arith

  second_handler-panics :
      (persisted : Tables ℕ) (t : ℕ) (e : Entry C I B) (g : Recovered codec)
      → second_handler codec done persisted t e g ≡ panics
      → ⊥
  unfolding second_handler
  second_handler-panics persisted t (new_table_block m c i) g h = ground arith
  second_handler-panics persisted t e g h = ground arith

  abbrev pub second_init : FirstPass codec → Recovered codec
  second_init s = record { db = s.1; last_tx = 0; perform_snapshot = false }

  -- What a recovery that returns has done.
  pub record Passes (read : ℕ → Option (Entry C I B)) (start last_index snapshot_tx : ℕ)
      (db db' : Db C I D S) : Type 0 where
    pub first : FirstPass codec
    pub second : Recovered codec
    pub first_pass :
        Prefix read
          (first_handler codec done snapshot_tx)
          start
          ((λ n. none), db)
          (last_index + 1)
          first
    pub second_pass :
        Prefix read
          (second_handler codec done (first.0))
          start
          (second_init first)
          (last_index + 1)
          second
    pub same_tables : db'.tables ≡ (second.db).tables
    pub watermark :
        db'.high_watermark
        ≡ (if ltb snapshot_tx (second.last_tx) then second.last_tx else snapshot_tx)
    pub resumed : db'.tx ≡ db'.high_watermark

  module _ (truncate_back : ℕ → Option Failure) (read : ℕ → Option (Entry C I B))
      (start last_index snapshot_tx : ℕ) (db db' : Db C I D S) (again : Bool) where
    second_done :
        (s : FirstPass codec) (y : Recovered codec × Outcome Failure)
        → Complete truncate_back read
            (first_handler codec done snapshot_tx)
            start
            last_index
            ((λ n. none), db)
            (s, replayed)
        → Complete truncate_back read
            (second_handler codec done (s.0))
            start
            last_index
            (second_init s)
            y
        → resume codec snapshot_tx y ≡ ok (db', again)
        → Passes read start last_index snapshot_tx db db'
    unfolding reset_db
    second_done s (r, replayed) p q e = record {
      first = s;
      second = r;
      first_pass = p;
      second_pass = q;
      same_tables = ground arith;
      watermark = ground arith;
      resumed = ground arith;
    }
    second_done s (r, handler_error x) p q e = absurd (ground arith)
    second_done s (r, repaired k l) p q e = absurd q
    second_done s (r, not_repaired k x) p q e = absurd q

  -- Conditions: the log has a record to start at, each of its records can be read, and `recover`
  -- returns a database. Then both replays have taken every record.
  pub recover-Passes :
      (truncate_back : ℕ → Option Failure) (read : ℕ → Option (Entry C I B))
      (first_index last_index snapshot_tx : ℕ) (db db' : Db C I D S) (again : Bool)
      → 0 < first_tx first_index snapshot_tx
      → first_tx first_index snapshot_tx ≤ last_index
      → IsReadable read (first_tx first_index snapshot_tx) last_index
      → recover codec truncate_back done read first_index last_index snapshot_tx db
        ≡ ok (db', again)
      → Passes read (first_tx first_index snapshot_tx) last_index snapshot_tx db db'
  unfolding recover
  recover-Passes truncate_back read first_index last_index snapshot_tx db db' again pos below
        readable e =
      go
        (replay truncate_back read (first_handler codec done snapshot_tx) first_index last_index
          snapshot_tx ((λ n. none), db))
        (Ends-Complete truncate_back read (first_handler codec done snapshot_tx) start last_index
          ((λ n. none), db)
          (replay truncate_back read (first_handler codec done snapshot_tx) first_index last_index
            snapshot_tx ((λ n. none), db))
          readable (first_handler-panics snapshot_tx)
          (replay-Ends truncate_back read (first_handler codec done snapshot_tx) first_index
            last_index snapshot_tx ((λ n. none), db) pos below))
        e
    where
      start : ℕ
      start = first_tx first_index snapshot_tx

      go :
          (x : FirstPass codec × Outcome Failure)
          → Complete truncate_back read
              (first_handler codec done snapshot_tx)
              start
              last_index
              ((λ n. none), db)
              x
          → after_first codec truncate_back done read first_index last_index snapshot_tx x
            ≡ ok (db', again)
          → Passes read start last_index snapshot_tx db db'
      go (s, replayed) p k =
          second_done truncate_back read start last_index snapshot_tx db db' again s
            (replay truncate_back read (second_handler codec done (s.0)) first_index last_index
              snapshot_tx (second_init s))
            p
            (Ends-Complete truncate_back read (second_handler codec done (s.0)) start last_index
              (second_init s)
              (replay truncate_back read (second_handler codec done (s.0)) first_index last_index
                snapshot_tx (second_init s))
              readable (second_handler-panics (s.0))
              (replay-Ends truncate_back read (second_handler codec done (s.0)) first_index
                last_index snapshot_tx (second_init s) pos below))
            k
      go (s, handler_error x) p k = absurd (ground arith)
      go (s, repaired a b) p k = absurd p
      go (s, not_repaired a x) p k = absurd p
