-- ===== src/Recovery/Tests.antt =====
-- Concrete logs and their recovery.
use mathlib.Core.Path.{subst}
use text.Mathlib.Text.{◌==◌ as str_eq}
use mathlib.Core.List.{Perm}
use frostdb.Base.{
  ℕ, zero, suc, ◌≤◌, ◌<◌, ◌≡◌, refl, Bool, true, false, Option, none, some, List, [], ◌∷◌, ◌++◌,
  ◌==◌, if◌then◌else◌, Result, ok, err, arith, length, All, length, All,
}
use frostdb.Wal.Replay.{first_tx}
use frostdb.Recovery.{
  Failure, Entry, new_table_block, write, table_block_persisted, snapshot_taken, Codec, Block,
  Table, Db, Tables, recover,
}
use frostdb.Recovery.Contents.{view}
use frostdb.Recovery.Persisted.{Persists}
use frostdb.Recovery.FirstPass.{NonePersisted}
use frostdb.Recovery.Passes.{IsReadable}
use frostdb.Recovery.Exact.{logged, NoBlocks, recover-logged}
use frostdb.Recovery.Above.{AreAbove, recover-AreAbove}

-- Configurations, ids, payloads, records and schemas are numbers.
abbrev pub plain : Codec ℕ ℕ ℕ ℕ ℕ
plain = record {
  has_schema = λ c. true;
  is_ulid = λ i. true;
  make_schema = λ c. some c;
  same_schema = λ c d. c == d;
  read_record = λ b. some b;
  num_rows = λ d. d;
  is_dropped = λ tx. false;
  is_late = λ w tx. false;
}

abbrev E : Type 0
E = Entry ℕ ℕ ℕ

abbrev never : ℕ → Bool
never t = false

abbrev repairable : ℕ → Option Failure
repairable t = none

abbrev nth : List E → ℕ → Option E
nth [] t = none
nth (e ∷ es) zero = some e
nth (e ∷ es) (suc t) = nth es t

-- The records of a log from 1 on.
abbrev log : List E → ℕ → Option E
log es zero = none
log es (suc t) = nth es t

abbrev block_7 : Block ℕ ℕ
block_7 = record { ulid = 7; min_tx = 1; prev_tx = 0; rows = (2, 20) ∷ [] }

abbrev table_7 : Table ℕ ℕ ℕ ℕ
table_7 = record { config = 5; schema = 5; active = block_7; pending_blocks = [] }

abbrev pub none_there : Tables (Table ℕ ℕ ℕ ℕ)
none_there n = none

abbrev one_table : Tables (Table ℕ ℕ ℕ ℕ)
one_table n = if str_eq "stacks" n then some table_7 else none

abbrev pub empty_db : Db ℕ ℕ ℕ ℕ
empty_db = record { tables = none_there; tx = 0; high_watermark = 0 }

-- A snapshot at 3 with one table.
abbrev loaded_db : Db ℕ ℕ ℕ ℕ
loaded_db = record { tables = one_table; tx = 3; high_watermark = 3 }

-- A table, a write, a second block and a write to it. Then the first block is persisted.
abbrev rotated : List E
rotated =
    new_table_block "stacks" 5 70
    ∷ write "stacks" true 20
    ∷ new_table_block "stacks" 5 71
    ∷ write "stacks" true 40
    ∷ table_block_persisted "stacks" 70
    ∷ []

abbrev result : Result Failure (Db ℕ ℕ ℕ ℕ × Bool)
result = recover plain repairable never (log rotated) 1 5 0 empty_db

abbrev db_of : Result Failure (Db ℕ ℕ ℕ ℕ × Bool) → Db ℕ ℕ ℕ ℕ
db_of (ok x) = x.0
db_of (err e) = empty_db

-- Of the second block, which was never persisted, nothing is left: not even the table.
rotated_lost : view "stacks" (db_of result) ≡ none
unfolding recover
rotated_lost = refl

rotated_ok : result ≡ ok (db_of result, true)
unfolding recover
rotated_ok = refl

nth_readable : (es : List E) (t : ℕ) → t < length es → (e : E) × (nth es t ≡ some e)
nth_readable [] t h = absurd (omega arith)
nth_readable (e ∷ es) zero h = (e, refl)
nth_readable (e ∷ es) (suc t) h = nth_readable es t (omega arith)

log-IsReadable :
    (es : List E) (start last_index : ℕ)
    → 0 < start
    → last_index ≤ length es
    → IsReadable (log es) start last_index
log-IsReadable es start last_index p h zero a b = absurd (omega arith)
log-IsReadable es start last_index p h (suc t) a b = nth_readable es t (omega arith)

nth_unpersisted :
    (es : List E)
    → All (λ e. Persists plain "stacks" (some e) → ⊥) es
    → (t : ℕ) (e : E) → nth es t ≡ some e
    → Persists plain "stacks" (some e)
    → ⊥
nth_unpersisted [] h t e k = absurd (cc)
nth_unpersisted (x ∷ es) h zero e k = subst (λ o. Persists plain "stacks" o → ⊥) k h.0
nth_unpersisted (x ∷ es) h (suc t) e k = nth_unpersisted es h.1 t e k

-- The snapshot was taken at 3; a write without rows leaves no trace.
abbrev unfinished : List E
unfinished =
    new_table_block "stacks" 5 7
    ∷ write "stacks" true 20
    ∷ snapshot_taken 3
    ∷ write "stacks" true 40
    ∷ write "stacks" true 0
    ∷ write "other" true 60
    ∷ []

abbrev resumed : Result Failure (Db ℕ ℕ ℕ ℕ × Bool)
resumed = recover plain repairable never (log unfinished) 1 6 3 loaded_db

resumed_ok : resumed ≡ ok (db_of resumed, false)
unfolding recover
resumed_ok = refl

unfinished_none : NonePersisted plain (log unfinished) "stacks" 3 7
unfinished_none zero a b p = absurd (omega arith)
unfinished_none (suc t) a b (e, k, h) =
    nth_unpersisted unfinished
      ((λ p. p), ((λ p. p), ((λ p. p), ((λ p. p), ((λ p. p), ((λ p. p), tt)))))) t e k h

unfinished-NoBlocks : NoBlocks plain "stacks" (log unfinished) 3 6
unfinished-NoBlocks zero c i a b h = absurd (omega arith)
unfinished-NoBlocks (suc zero) c i a b h = absurd (omega arith)
unfinished-NoBlocks (suc (suc zero)) c i a b h = absurd (omega arith)
unfinished-NoBlocks (suc (suc (suc zero))) c i a b h = absurd (cc)
unfinished-NoBlocks (suc (suc (suc (suc zero)))) c i a b h = absurd (cc)
unfinished-NoBlocks (suc (suc (suc (suc (suc zero))))) c i a b h = absurd (cc)
unfinished-NoBlocks (suc (suc (suc (suc (suc (suc zero)))))) c i a b h = absurd (cc)
unfinished-NoBlocks (suc (suc (suc (suc (suc (suc (suc t))))))) c i a b h = absurd (omega arith)

recover-logged_example :
    (rows : List (ℕ × ℕ)) × (view "stacks" (db_of resumed) ≡ some rows)
    × Perm rows (logged plain "stacks" (log unfinished) 3 7 ++ (2, 20) ∷ [])
unfolding first_tx
recover-logged_example =
    recover-logged plain repairable never (log unfinished) 1 6 3 loaded_db (db_of resumed) false
      "stacks" ((2, 20) ∷ []) (omega arith) (omega arith)
      (log-IsReadable unfinished 3 6 (omega arith) (omega arith)) unfinished_none
      unfinished-NoBlocks refl resumed_ok

logged_rows : logged plain "stacks" (log unfinished) 3 7 ≡ (4, 40) ∷ []
logged_rows = refl

abbrev rotated_twice : List E
rotated_twice =
    new_table_block "stacks" 5 70
    ∷ write "stacks" true 20
    ∷ new_table_block "stacks" 5 71
    ∷ write "stacks" true 40
    ∷ table_block_persisted "stacks" 70
    ∷ new_table_block "stacks" 5 72
    ∷ write "stacks" true 80
    ∷ []

abbrev rerun : Result Failure (Db ℕ ℕ ℕ ℕ × Bool)
rerun = recover plain repairable never (log rotated_twice) 1 7 0 empty_db

rerun_ok : rerun ≡ ok (db_of rerun, true)
unfolding recover
rerun_ok = refl

rerun_rows : view "stacks" (db_of rerun) ≡ some ((7, 80) ∷ [])
unfolding recover
rerun_rows = refl

recover-AreAbove_example : AreAbove 5 (view "stacks" (db_of rerun))
unfolding first_tx
recover-AreAbove_example =
    recover-AreAbove plain repairable never (log rotated_twice) 1 7 0 empty_db (db_of rerun) true
      "stacks" 5 (omega arith) (omega arith) (omega arith) (omega arith)
      (log-IsReadable rotated_twice 1 7 (omega arith) (omega arith))
      (table_block_persisted "stacks" 70, refl, refl) tt rerun_ok

-- The write at 3 runs when the block of 4 has begun, and the block that it ended is dropped.
abbrev hurried : Codec ℕ ℕ ℕ ℕ ℕ
hurried = record plain { is_dropped = λ tx. true; is_late = λ w tx. w == 3 }

abbrev crossed : List E
crossed =
    new_table_block "stacks" 5 7
    ∷ write "stacks" true 20
    ∷ write "stacks" true 30
    ∷ new_table_block "stacks" 5 8
    ∷ write "stacks" true 50
    ∷ []

crossed_rows :
    (view "stacks" (db_of (recover hurried repairable never (log crossed) 1 5 0 empty_db))
      ≡ some ((5, 50) ∷ (3, 30) ∷ []))
    × (view "stacks" (db_of (recover plain repairable never (log crossed) 1 5 0 empty_db))
        ≡ some ((5, 50) ∷ (3, 30) ∷ (2, 20) ∷ []))
unfolding recover
crossed_rows = (refl, refl)
