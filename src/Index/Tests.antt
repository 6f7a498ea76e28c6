-- ===== src/Index/Tests.antt =====
-- A concrete index of two levels: records and row groups are lists of rows.
use mathlib.Core.Path.{subst}
use mathlib.Core.List.{append-nil, Perm}
use mathlib.Core.List.Perm
use frostdb.Base.{
  ℕ, zero, suc, ◌<◌, ◌≡◌, refl, arith, Bool, true, false, none, some, List, [], ◌∷◌, ◌++◌, length,
  get_elem?, All, Result, ok, err, ok-injective, inl,
}
use frostdb.Base.Int.{ℤ, pos, ◌+ℤ◌, ◌-ℤ◌}
use frostdb.Index.{
  Body, arrow, parquet, Part, sentinel, part, Failure, Compacted, LevelConfig, Lsm, new_lsm, add,
  find_level, run_of,
}
use frostdb.Index.Merge.{merge, compact, compact_of}
use frostdb.Index.Scan.{Item, a_record, a_group}
use frostdb.Index.Visible.{visible_rows, part_rows}
use frostdb.Index.Stable.{IsLossless, AllLossless, IsReadable, compact-visible}
use frostdb.Index.Isolation.{merge_leaks}
use frostdb.Index.Levels.{parts_at}
use frostdb.Index.Accounting.{bytes, CountsSizes, IsSized, merge-IsSized}

abbrev Rows : Type 0
Rows = List ℕ

abbrev rows : Body Rows Rows → Rows
rows (arrow r) = r
rows (parquet []) = []
rows (parquet (g ∷ gs)) = g ++ rows (parquet gs)

-- One file with all the rows, made for the transaction 0.
abbrev packed : List (Part Rows Rows) → ℕ → Part Rows Rows
packed ps level = record {
  tx = 0;
  size = 7;
  compaction_level = level;
  body = parquet (part_rows rows ps ∷ []);
}

abbrev pack : List (Part Rows Rows) → ℕ → Result ℕ (Compacted Rows Rows)
pack ps level =
    ok (record { new_parts = packed ps level ∷ []; size = bytes ps; compacted_size = 7 })

abbrev config : List (LevelConfig Rows Rows ℕ)
config =
    record { level = 0; max_size = pos 10; compact = some pack }
    ∷ record { level = 1; max_size = pos 100; compact = none }
    ∷ []

abbrev a_part : ℕ → ℕ → Part Rows Rows
a_part tx row = record { tx = tx; size = 5; compaction_level = 0; body = arrow (row ∷ []) }

abbrev two_parts : Lsm Rows Rows ℕ
two_parts = record {
  levels = sentinel 0 ∷ part (a_part 2 20) ∷ part (a_part 1 10) ∷ sentinel 1 ∷ [];
  sizes = pos 10 ∷ pos 0 ∷ [];
  configs = config;
  compacting = true;
}

-- The index that `NewLSM` makes, after two calls of `Add`; the second starts a compaction.
built : Result (Failure ℕ) (Lsm Rows Rows ℕ × Bool)
unfolding new_lsm add
built = elim (new_lsm config) [
  | err e ↦ err e
  | ok l ↦ elim (add 1 (10 ∷ []) 5 l) [ err e ↦ err e | ok (l', _) ↦ add 2 (20 ∷ []) 5 l' ]
]

built_eq : built ≡ ok (two_parts, true)
unfolding built ◌+ℤ◌
built_eq = refl

abbrev packing : List (Part Rows Rows) → ℕ → Compacted Rows Rows
packing ps level = record { new_parts = packed ps level ∷ []; size = bytes ps; compacted_size = 7 }

pack-IsLossless : IsLossless rows pack
unfolding part_rows
pack-IsLossless = record {
  keeps = λ ps level c e.
      subst (λ d. Perm (part_rows rows d.new_parts) (part_rows rows ps))
        (ok-injective (packing ps level) c e)
        (rw (append-nil, append-nil) (Perm.refl (part_rows rows ps)));
  at_zero = λ ps level c e.
      subst (λ d. All (λ p. p.tx ≡ 0) d.new_parts) (ok-injective (packing ps level) c e) (refl, tt);
}

pack-CountsSizes : CountsSizes pack
unfolding bytes
pack-CountsSizes ps level c e =
    subst (λ d. (d.size ≡ bytes ps) × (d.compacted_size ≡ bytes d.new_parts))
      (ok-injective (packing ps level) c e) (refl, refl)

config-function :
    (level : ℕ) (f : List (Part Rows Rows) → ℕ → Result ℕ (Compacted Rows Rows))
    → compact_of (get_elem? config level) ≡ some f
    → pack ≡ f
config-function zero f e = cc
config-function (suc zero) f e = cc
config-function (suc (suc level)) f e = cc

config-AllLossless : AllLossless rows config
config-AllLossless level f e = subst (IsLossless rows) (config-function level f e) pack-IsLossless

two_parts-IsReadable : IsReadable rows 2 two_parts
two_parts-IsReadable = record { shown = omega arith; lossless = config-AllLossless }

-- A forced compaction, seen by a read at 2.
compact-visible_example :
    Perm
      (visible_rows rows 2 (compact true two_parts).0.levels)
      (visible_rows rows 2 two_parts.levels)
compact-visible_example = compact-visible rows 2 true two_parts two_parts-IsReadable

abbrev merged : Lsm Rows Rows ℕ
merged = record two_parts {
  levels = sentinel 0 ∷ sentinel 1 ∷ part (packed (a_part 2 20 ∷ a_part 1 10 ∷ []) 1) ∷ [];
  sizes = pos 0 ∷ pos 7 ∷ [];
}

merge-two_parts : merge 0 none two_parts ≡ ok merged
unfolding merge bytes ◌+ℤ◌ ◌-ℤ◌
merge-two_parts = refl

-- A read at 1 is not shown the row of transaction 2 before the merge, and is afterwards.
merge_leaks_rows :
    (visible_rows rows 1 two_parts.levels ≡ 10 ∷ [])
    × (visible_rows rows 1 merged.levels ≡ 20 ∷ 10 ∷ [])
unfolding visible_rows part_rows
merge_leaks_rows = (refl, refl)

merge_leaks_example :
    length (visible_rows rows 1 two_parts.levels) < length (visible_rows rows 1 merged.levels)
unfolding find_level run_of
merge_leaks_example =
    merge_leaks rows 1 0 two_parts merged (sentinel 0 ∷ [])
      (part (a_part 2 20) ∷ part (a_part 1 10) ∷ sentinel 1 ∷ []) (a_part 2 20) config-AllLossless
      refl (inl refl) (omega arith) (omega arith) merge-two_parts

abbrev after_add : Lsm Rows Rows ℕ
after_add = record two_parts {
  levels =
      sentinel 0 ∷ part (a_part 3 30) ∷ part (a_part 2 20) ∷ part (a_part 1 10) ∷ sentinel 1 ∷ [];
  sizes = pos 15 ∷ pos 0 ∷ [];
}

add_3 : add 3 (30 ∷ []) 5 two_parts ≡ ok (after_add, false)
unfolding add ◌+ℤ◌
add_3 = refl

keep : Rows → Result ℕ Bool
keep g = ok true

collect_items : Item Rows Rows → Rows → Result ℕ Rows
collect_items (a_record r) c = ok (c ++ r)
collect_items (a_group g) c = ok (c ++ g)

compact-two_parts : compact true two_parts ≡ (record merged { compacting = false }, none)
unfolding compact merge bytes ◌+ℤ◌ ◌-ℤ◌
compact-two_parts = refl

two_parts-IsSized : IsSized two_parts
unfolding bytes parts_at
two_parts-IsSized = record { leveled = (refl, (refl, tt)); counted = at_level }
  where
    at_level :
        (i : ℕ) (s : ℤ)
        → get_elem? (pos 10 ∷ pos 0 ∷ []) i ≡ some s
        → s ≡ pos (bytes (parts_at i 0 two_parts.levels))
    at_level zero s e = ground arith
    at_level (suc zero) s e = ground arith
    at_level (suc (suc i)) s e = cc

merge-IsSized_example : IsSized merged
merge-IsSized_example =
    merge-IsSized 0 two_parts merged two_parts-IsSized
      (λ f e. subst CountsSizes (config-function 0 f e) pack-CountsSizes) merge-two_parts
