-- ===== src/Snapshots/Tests.antt =====
-- Concrete names, directories and snapshots.
use frostdb.Base.{
  ℕ, ◌≡◌, refl, Bool, true, false, Option, none, some, List, [], ◌∷◌, ◌==◌, Elem, arith,
  if◌then◌else◌,
}
use frostdb.Groups.{compare_ℕ, compare_bytes}
use frostdb.Recovery.{Codec}
use frostdb.Recovery.Tests.{plain}
use frostdb.Snapshots.{
  DirEntry, snapshot_file_name, get_tx_from_snapshot_file_name, snapshot_tx, reclaim_disk_space,
}
use frostdb.Snapshots.Load.{TableMeta, codes}
use frostdb.Snapshots.Names.{get_tx-snapshot_file_name}
use frostdb.Snapshots.Order.{compare-snapshot_file_name}
use frostdb.Snapshots.Reclaim.{reclaim-Elem}
use frostdb.Snapshots.Partial.{one_part}

name_42 : snapshot_file_name 42 ≡ codes "00000000000000000042.fdbs"
unfolding snapshot_file_name
name_42 = refl

name_overflow : get_tx_from_snapshot_file_name (codes "18446744073709551616.fdbs") ≡ none
unfolding get_tx_from_snapshot_file_name
name_overflow = refl

get_tx-snapshot_file_name_example : get_tx_from_snapshot_file_name (snapshot_file_name 42) ≡ some 42
get_tx-snapshot_file_name_example = get_tx-snapshot_file_name 42 (omega arith)

compare-snapshot_file_name_example :
    compare_bytes (snapshot_file_name 9) (snapshot_file_name 10) ≡ compare_ℕ 9 10
compare-snapshot_file_name_example = compare-snapshot_file_name 9 10 (omega arith) (omega arith)

-- A snapshot at `tx`; it is valid if it holds `true`.
abbrev snapshot_at : ℕ → Bool → DirEntry Bool
snapshot_at tx valid = record { name = snapshot_file_name tx; is_dir = false; file = valid }

abbrev stray : DirEntry Bool
stray = record { name = codes "README"; is_dir = false; file = true }

-- The latest first.
abbrev directory : List (DirEntry Bool)
directory = stray ∷ snapshot_at 12 false ∷ snapshot_at 10 true ∷ snapshot_at 9 true ∷ []

abbrev left_over : List (DirEntry Bool)
left_over = stray ∷ snapshot_at 10 true ∷ []

reclaimed : reclaim_disk_space (λ n. true) (λ valid. valid) directory ≡ (left_over, some 10)
unfolding reclaim_disk_space snapshot_tx snapshot_file_name
reclaimed = refl

reclaim-Elem_example :
    (f : DirEntry Bool) × Elem f directory
    × Elem f left_over
    × (snapshot_tx f ≡ some 10)
    × (f.file ≡ true)
reclaim-Elem_example = reclaim-Elem (λ n. true) (λ valid. valid) directory left_over 10 reclaimed

-- A payload of 0 cannot be read.
abbrev choosy : Codec ℕ ℕ ℕ ℕ ℕ
choosy = record plain { read_record = λ b. if b == 0 then none else some b }

abbrev Footer : Type 0
Footer = Option (List (TableMeta ℕ ℕ ℕ))

abbrev dump_at : ℕ → Footer → DirEntry Footer
dump_at tx footer = record { name = snapshot_file_name tx; is_dir = false; file = footer }

abbrev newer : DirEntry Footer
newer = dump_at 12 (some (one_part choosy 7 "stacks" 5 70 3 30 (((4, 0) ∷ []) ∷ []) ∷ []))

abbrev older : DirEntry Footer
older = dump_at 10 (some (one_part choosy 7 "stacks" 5 70 3 30 [] ∷ []))
