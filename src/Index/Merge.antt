-- ===== src/Index/Merge.antt =====
-- `merge`, `compact` and `Rotate` of index/lsm.go.
use frostdb.Base.{
  ℕ, zero, suc, ◌+◌, ◌-◌, Bool, true, false, not, ◌&&◌, ◌||◌, Option, none, some, List, [], ◌∷◌,
  ◌++◌, length, get_elem?, ltb, ◌==◌, if◌then◌else◌, Result, ok, err,
}
use frostdb.Base.Int.{ℤ, pos, ◌-ℤ◌, ltb_ℤ}
use frostdb.Index.{
  Part, Node, sentinel, Failure, panic, no_level, no_writer, failed, Compacted, LevelConfig, Lsm,
  add_at, find_level, run_of, part_nodes,
}

-- The end of `merge`: the old size is taken off the level, the new one added to the next.
unfoldable pub merge_sizes : {R G : Type 0} → ℕ → Compacted R G → List ℤ → Option (List ℤ)
unfolding add_at
merge_sizes level c sizes = elim (add_at (level + 1) (pos c.compacted_size) sizes) [
  | none ↦ none
  | some sizes' ↦ add_at level (pos 0 -ℤ pos c.size) sizes'
]

abbrev pub is_none {ℓ} : {A : Type ℓ} → Option A → Bool
is_none none = true
is_none (some a) = false

module _ {R G E : Type 0} where
  -- `merge` with the `Compact` function of the level, when there is a part to merge.
  unfoldable pub merge_compacted :
      ℕ
      → List (Node R G)
      → List (Node R G)
      → Result E (Compacted R G)
      → Lsm R G E
      → Result (Failure E) (Lsm R G E)
  unfolding merge_sizes
  merge_compacted level before next (err e) l = err (failed e)
  merge_compacted level before next (ok c) l = elim c.new_parts [
    | [] ↦ err panic
    | p ∷ ps ↦ elim (merge_sizes level c l.sizes) [
      | none ↦ err panic
      | some sizes' ↦ ok (record l {
        levels = before ++ (sentinel (level + 1) ∷ (part_nodes (p ∷ ps) ++ next));
        sizes = sizes';
      })
    ]
  ]

  -- `merge` with an external writer, which returns the size of what it wrote.
  unfoldable pub merge_external :
      ℕ
      → List (Node R G)
      → List (Node R G)
      → Result E ℕ
      → Lsm R G E
      → Result (Failure E) (Lsm R G E)
  unfolding add_at
  merge_external level before next (err e) l = err (failed e)
  merge_external level before next (ok size) l = elim (add_at level (pos 0 -ℤ pos size) l.sizes) [
    | none ↦ err panic
    | some sizes' ↦
        ok (record l { levels = before ++ (sentinel (level + 1) ∷ next); sizes = sizes' })
  ]

  abbrev pub compact_of :
      Option (LevelConfig R G E) → Option (List (Part R G) → ℕ → Result E (Compacted R G))
  compact_of none = none
  compact_of (some c) = c.compact

  -- `merge` with the parts of the level, behind its checks.
  unfoldable pub merge_run :
      ℕ
      → Option (List (Part R G) → Result E ℕ)
      → List (Node R G)
      → List (Part R G)
      → List (Node R G)
      → Lsm R G E
      → Result (Failure E) (Lsm R G E)
  unfolding merge_compacted merge_external
  merge_run level writer before [] next l = ok l
  merge_run level (some write) before (p ∷ ps) next l =
      merge_external level before next (write (p ∷ ps)) l
  merge_run level none before (p ∷ ps) next l = elim (compact_of (get_elem? l.configs level)) [
    | none ↦ err panic
    | some compact ↦ merge_compacted level before next (compact (p ∷ ps) (level + 1)) l
  ]

  -- `merge`. A part that `Add` links in while it runs stays in front of the new sentinel, as if it
  -- were added afterwards.
  unfoldable pub merge :
      ℕ → Option (List (Part R G) → Result E ℕ) → Lsm R G E → Result (Failure E) (Lsm R G E)
  unfolding find_level run_of merge_run
  merge level writer l =
      if ltb (length l.configs) level
      then err no_level
      else if level + 1 == length l.configs && is_none writer
      then err no_writer
      else elim (find_level level l.levels) [
        | none ↦ err panic
        | some (before, after) ↦
            let (ps, next) = run_of level after in merge_run level writer before ps next l
      ]

  -- The test of `compact` at a level.
  unfoldable pub is_due : ℕ → Lsm R G E → Bool
  is_due i l = elim (get_elem? l.sizes i) [
    | none ↦ false
    | some s ↦ elim (get_elem? l.configs i) [ none ↦ false | some c ↦ not (ltb_ℤ s c.max_size) ]
  ]

  -- The loop of `compact` from level `i` on, and of `Rotate`, where it ignores the sizes. What was
  -- merged before an error stays merged.
  unfoldable pub compact_loop : Bool → ℕ → ℕ → Lsm R G E → Lsm R G E × Option (Failure E)
  compact_loop ignore_sizes zero i l = (l, none)
  compact_loop ignore_sizes (suc rounds) i l =
      let skipped = compact_loop ignore_sizes rounds (i + 1) l in
      if ignore_sizes || is_due i l
      then elim (merge i none l) [
        | err e ↦ (l, some e)
        | ok l' ↦ compact_loop ignore_sizes rounds (i + 1) l'
      ]
      else skipped

  unfoldable pub compact : Bool → Lsm R G E → Lsm R G E × Option (Failure E)
  unfolding compact_loop
  compact ignore_sizes l =
      let (l', e) = compact_loop ignore_sizes (length l.configs - 1) 0 l in
      (record l' { compacting = false }, e)

  -- The end of `Rotate`.
  unfoldable pub rotate_last :
      ℕ
      → (List (Part R G) → Result E ℕ)
      → Lsm R G E × Option (Failure E)
      → Lsm R G E × Option (Failure E)
  rotate_last level write (l, some e) = (record l { compacting = false }, some e)
  rotate_last level write (l, none) = elim (merge level (some write) l) [
    | err e ↦ (record l { compacting = false }, some e)
    | ok l' ↦ (record l' { compacting = false }, none)
  ]

  -- `Rotate`, once it has set `compacting`.
  unfoldable pub rotate :
      ℕ → (List (Part R G) → Result E ℕ) → Lsm R G E → Lsm R G E × Option (Failure E)
  unfolding compact_loop rotate_last
  rotate level write l = rotate_last level write (compact_loop true (length l.configs - 1) 0 l)
