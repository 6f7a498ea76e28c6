-- ===== src/Snapshots.antt =====
-- snapshot.go: the names of snapshot files, and which of them is loaded and kept.
mod Names
mod Order
mod Load
mod Partial
mod Reclaim
mod Tests
use Prim.Native.Char.{code}
use Prim.Native.String.{String}
use frostdb.Filter.{name_eq}
use frostdb.Base.{
  ℕ, zero, suc, ◌+◌, ◌-◌, ◌*◌, ◌/◌, ◌%◌, ◌^◌, Bool, true, false, ◌&&◌, ◌||◌, Option, none, some,
  List, [], ◌∷◌, ◌++◌, length, ltb, leb, ◌==◌, if◌then◌else◌,
}

-- The last `width` decimal digits of a number.
unfoldable pub digits : ℕ → ℕ → List ℕ
digits zero n = []
digits (suc width) n = digits width (n / 10) ++ (48 + n % 10) ∷ []

-- `.fdbs`
abbrev pub extension : List ℕ
extension = 46 ∷ 102 ∷ 100 ∷ 98 ∷ 115 ∷ []

-- `snapshotFileName`: `%020d` of a uint64, which has at most 20 digits.
unfoldable pub snapshot_file_name : ℕ → List ℕ
unfolding digits
snapshot_file_name tx = digits 20 tx ++ extension

-- A step of `strconv.ParseUint` in base 10 for 64 bits.
abbrev pub parse_digit : ℕ → ℕ → Option ℕ
parse_digit n c =
    if leb 48 c && leb c 57
    then if ltb (n * 10 + (c - 48)) (2 ^ 64) then some (n * 10 + (c - 48)) else none
    else none

abbrev pub and_then : Option ℕ → (ℕ → Option ℕ) → Option ℕ
and_then none f = none
and_then (some n) f = f n

unfoldable pub parse_from : ℕ → List ℕ → Option ℕ
parse_from n [] = some n
parse_from n (c ∷ cs) = and_then (parse_digit n c) (λ m. parse_from m cs)

-- `strconv.ParseUint(s, 10, 64)`
unfoldable pub parse_uint : List ℕ → Option ℕ
unfolding parse_from
parse_uint [] = none
parse_uint (c ∷ cs) = parse_from 0 (c ∷ cs)

abbrev pub take {ℓ} : {A : Type ℓ} → ℕ → List A → List A
take zero xs = []
take (suc n) [] = []
take (suc n) (x ∷ xs) = x ∷ take n xs

-- `getTxFromSnapshotFileName`; the callers have seen that the name is long enough.
unfoldable pub get_tx_from_snapshot_file_name : List ℕ → Option ℕ
unfolding parse_uint
get_tx_from_snapshot_file_name name = parse_uint (take 20 name)

-- A file of the snapshots' directory; `F` is what it holds.
pub record DirEntry (F : Type 0) : Type 0 where
  pub name : List ℕ
  pub is_dir : Bool
  pub file : F

-- What a callback of `snapshotsDo` asks for: to go on, to stop, or to return an error.
pub data Next (E : Type 0) : Type 0 where
  go_on stop : Next E
  abort : E → Next E

-- The transaction of a file that `snapshotsDo` does not pass over.
unfoldable pub snapshot_tx : {F : Type 0} → DirEntry F → Option ℕ
unfolding get_tx_from_snapshot_file_name
snapshot_tx entry =
    if entry.is_dir || ltb (length entry.name) 20
    then none
    else get_tx_from_snapshot_file_name entry.name

module _ {F E S : Type 0} (callback : ℕ → DirEntry F → S → S × Next E) where
  abbrev pub after_callback : S × Next E → (S → S × Option E) → S × Option E
  after_callback (s, go_on) rest = rest s
  after_callback (s, stop) rest = (s, none)
  after_callback (s, abort e) rest = (s, some e)

  -- The loop of `snapshotsDo`, over the files from the last one on. (Its context is not canceled.)
  unfoldable pub snapshots_do : List (DirEntry F) → S → S × Option E
  snapshots_do [] s = (s, none)
  snapshots_do (f ∷ fs) s = elim (snapshot_tx f) [
    | none ↦ snapshots_do fs s
    | some tx ↦ after_callback (callback tx f s) (λ s'. snapshots_do fs s')
  ]

-- What `LoadSnapshot` does to a database: it is loaded, or an error is returned and the database is
-- as the attempt leaves it.
pub data Loaded (D : Type 0) : Type 0 where
  loaded failed : D → Loaded D

module _ {F D : Type 0} (load : ℕ → F → D → Loaded D) where
  -- The state of `loadLatestSnapshotFromDir`: the database and `loadedTxn`.
  abbrev load_entry : ℕ → Loaded D → ℕ → (D × ℕ) × Next (⊥)
  load_entry tx (loaded d) txn = ((d, tx), stop)
  load_entry tx (failed d) txn = ((d, txn), go_on)

  abbrev pub load_callback : ℕ → DirEntry F → D × ℕ → (D × ℕ) × Next (⊥)
  load_callback tx entry (d, txn) = load_entry tx (load tx entry.file d) txn

  -- `loadLatestSnapshot`, with the files from the last one on: the database and the transaction of
  -- the snapshot, 0 if an error is returned.
  unfoldable pub load_latest_snapshot : List (DirEntry F) → D → D × ℕ
  unfolding snapshots_do
  load_latest_snapshot files d = (snapshots_do load_callback files (d, 0)).0

module _ {F : Type 0} (is_valid : F → Bool) where
  abbrev pub valid_callback : ℕ → DirEntry F → ℕ → ℕ × Next (⊥)
  valid_callback tx entry latest = if is_valid entry.file then (tx, stop) else (latest, go_on)

  -- `getLatestValidSnapshotTxn`
  unfoldable pub get_latest_valid_snapshot_txn : List (DirEntry F) → ℕ
  unfolding snapshots_do
  get_latest_valid_snapshot_txn files = (snapshots_do valid_callback files 0).0

-- `os.Remove` of a file of the directory.
abbrev pub without {ℓ} : {F : Type ℓ} → (F → Bool) → List F → List F
without p [] = []
without p (f ∷ fs) = let rest = without p fs in if p f then rest else f ∷ rest

module _ {F : Type 0} (removes : List ℕ → Bool) where
  abbrev pub cleanup_callback :
      ℕ → ℕ → DirEntry F → List (DirEntry F) → List (DirEntry F) × Next (Unit {0})
  cleanup_callback tx file_tx entry remaining =
      if file_tx == tx
      then (remaining, go_on)
      else if removes entry.name
      then (without (λ f. name_eq entry.name f.name) remaining, go_on)
      else (remaining, abort tt)

  -- `cleanupSnapshotDir`: the files that are left, and the error, if a file cannot be removed.
  unfoldable pub cleanup_snapshot_dir :
      ℕ → List (DirEntry F) → List (DirEntry F) × Option (Unit {0})
  unfolding snapshots_do
  cleanup_snapshot_dir tx files = snapshots_do (cleanup_callback tx) files files

  abbrev pub truncate_after :
      ℕ → List (DirEntry F) × Option (Unit {0}) → List (DirEntry F) × Option ℕ
  truncate_after tx (remaining, none) = (remaining, some tx)
  truncate_after tx (remaining, some e) = (remaining, none)

  -- `reclaimDiskSpace`: the files that are left, and the transaction at which the log is truncated.
  unfoldable pub reclaim_disk_space : (F → Bool) → List (DirEntry F) → List (DirEntry F) × Option ℕ
  unfolding get_latest_valid_snapshot_txn cleanup_snapshot_dir
  reclaim_disk_space is_valid files =
      let tx = get_latest_valid_snapshot_txn is_valid files in
      if tx == 0 then (files, none) else truncate_after tx (cleanup_snapshot_dir tx files)
