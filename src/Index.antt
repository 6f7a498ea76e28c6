-- ===== src/Index.antt =====
-- index/lsm.go, index/lsm_list.go and the parts that they hold: levels of parts in one linked list,
-- compaction of a level into the next, and the scan of a query.
-- `R` is an Arrow record, `G` a row group of a Parquet file, `E` an error.
pub mod Merge
pub mod Scan
mod Visible
pub mod Stable
pub mod Isolation
pub mod Levels
pub mod Sizes
pub mod Accounting
mod Tests
use frostdb.Base.{
  ℕ, zero, suc, ◌+◌, ◌-◌, Bool, true, false, not, ◌&&◌, ◌||◌, Option, none, some, List, [], ◌∷◌,
  ◌++◌, map, length, get_elem?, ltb, leb, ◌==◌, if◌then◌else◌, Result, ok, err,
}
use frostdb.Base.Int.{ℤ, pos, ◌+ℤ◌, ◌-ℤ◌, ltb_ℤ}

pub data Body (R G : Type 0) : Type 0 where
  arrow : R → Body R G
  parquet : List G → Body R G

pub record Part (R G : Type 0) : Type 0 where
  pub tx : ℕ
  pub size : ℕ
  pub compaction_level : ℕ
  pub body : Body R G

-- A node of the list: the start of a level, or a part. A pointer to a node is the list from there on.
pub data Node (R G : Type 0) : Type 0 where
  sentinel : ℕ → Node R G
  part : Part R G → Node R G

-- `panic` is Go's, at a nil pointer or an index out of range.
pub data Failure (E : Type 0) : Type 0 where
  panic no_level no_writer : Failure E
  not_in_order last_compacts no_compact : ℕ → Failure E
  failed : E → Failure E

-- What a `Compact` function returns: the new parts, the size of the old ones and of the new ones.
pub record Compacted (R G : Type 0) : Type 0 where
  pub new_parts : List (Part R G)
  pub size : ℕ
  pub compacted_size : ℕ

-- `Compact` takes the parts and the compaction level of the result.
pub record LevelConfig (R G E : Type 0) : Type 0 where
  pub level : ℕ
  pub max_size : ℤ
  pub compact : Option (List (Part R G) → ℕ → Result E (Compacted R G))

pub record Lsm (R G E : Type 0) : Type 0 where
  pub levels : List (Node R G)
  pub sizes : List ℤ
  pub configs : List (LevelConfig R G E)
  pub compacting : Bool

-- `sizes[i].Add(d)`; `none` is an index out of range.
unfoldable pub add_at : ℕ → ℤ → List ℤ → Option (List ℤ)
add_at i d [] = none
add_at zero d (s ∷ ss) = some ((s +ℤ d) ∷ ss)
add_at (suc i) d (s ∷ ss) = elim (add_at i d ss) [ none ↦ none | some ss' ↦ some (s ∷ ss') ]

-- `Size`
unfoldable pub total : List ℤ → ℤ
total [] = pos 0
total (s ∷ ss) = s +ℤ total ss

module _ {R G : Type 0} where
  -- `Prepend`: behind the node that the list starts with.
  unfoldable pub prepend : Node R G → List (Node R G) → List (Node R G)
  prepend node [] = []
  prepend node (first ∷ rest) = first ∷ node ∷ rest

  -- `findLevel`: the nodes up to the sentinel, with it, and those behind it; `none` is nil.
  unfoldable pub find_level : ℕ → List (Node R G) → Option (List (Node R G) × List (Node R G))
  find_level level [] = none
  find_level level (part p ∷ nodes) = elim (find_level level nodes) [
    | none ↦ none
    | some (before, after) ↦ some (part p ∷ before, after)
  ]
  find_level level (sentinel s ∷ nodes) =
      let later = find_level level nodes in
      if s == level
      then some (sentinel s ∷ [], nodes)
      else elim later [ none ↦ none | some (before, after) ↦ some (sentinel s ∷ before, after) ]

  -- The walk of `merge` behind the sentinel of a level: the parts of the level, and `next`, which
  -- skips the sentinel of the following level. (The source would pass over a second sentinel of the
  -- same level, and drop it; no operation makes one.)
  unfoldable pub run_of : ℕ → List (Node R G) → List (Part R G) × List (Node R G)
  run_of level [] = ([], [])
  run_of level (part p ∷ nodes) = let (ps, next) = run_of level nodes in (p ∷ ps, next)
  run_of level (sentinel s ∷ nodes) =
      let later = run_of level nodes in
      if s == level then later else if s == level + 1 then ([], nodes) else ([], sentinel s ∷ nodes)

  abbrev pub part_nodes : List (Part R G) → List (Node R G)
  part_nodes [] = []
  part_nodes (p ∷ ps) = part p ∷ part_nodes ps

module _ {R G E : Type 0} where
  -- `validateLevels`, from index `i` on.
  unfoldable pub validate_from : ℕ → List (LevelConfig R G E) → Result (Failure E) (Unit {0})
  validate_from i [] = ok tt
  validate_from i (c ∷ []) =
      if not (c.level == i)
      then err (not_in_order c.level)
      else elim c.compact [ none ↦ ok tt | some f ↦ err (last_compacts c.level) ]
  validate_from i (c ∷ d ∷ cs) =
      let later = validate_from (i + 1) (d ∷ cs) in
      if not (c.level == i)
      then err (not_in_order c.level)
      else elim c.compact [ none ↦ err (no_compact c.level) | some f ↦ later ]

  -- The chain of sentinels behind L0, from the configurations behind the first.
  unfoldable pub sentinels : List (LevelConfig R G E) → List (Node R G)
  sentinels [] = []
  sentinels (c ∷ cs) = sentinel c.level ∷ sentinels cs

  abbrev pub zeros : List (LevelConfig R G E) → List ℤ
  zeros [] = []
  zeros (c ∷ cs) = pos 0 ∷ zeros cs

  abbrev pub behind_first : List (LevelConfig R G E) → List (LevelConfig R G E)
  behind_first [] = []
  behind_first (c ∷ cs) = cs

  unfoldable pub new_lsm : List (LevelConfig R G E) → Result (Failure E) (Lsm R G E)
  unfolding validate_from sentinels
  new_lsm configs = elim (validate_from 0 configs) [
    | err e ↦ err e
    | ok _ ↦ ok (record {
      levels = sentinel 0 ∷ sentinels (behind_first configs);
      sizes = zeros configs;
      configs = configs;
      compacting = false;
    })
  ]

  -- The end of `Add`, at the new size of L0 and its largest size: whether a compaction starts.
  unfoldable pub add_trigger :
      Option ℤ → Option (LevelConfig R G E) → Lsm R G E → Result (Failure E) (Lsm R G E × Bool)
  add_trigger none c l = err panic
  add_trigger (some l0) none l = err panic
  add_trigger (some l0) (some c) l =
      if not (ltb_ℤ l0 c.max_size) && not l.compacting
      then ok (record l { compacting = true }, true)
      else ok (l, false)

  -- `Add`, of a record of the given size.
  unfoldable pub add : ℕ → R → ℕ → Lsm R G E → Result (Failure E) (Lsm R G E × Bool)
  unfolding prepend add_at add_trigger
  add tx r size l =
      let p : Part R G = record { tx = tx; size = size; compaction_level = 0; body = arrow r } in
      elim (add_at 0 (pos size) l.sizes) [
        | none ↦ err panic
        | some sizes' ↦
            add_trigger (get_elem? sizes' 0) (get_elem? l.configs 0)
              (record l { levels = prepend (part p) l.levels; sizes = sizes' })
      ]

  -- `InsertPart`
  unfoldable pub insert_part : ℕ → Part R G → Lsm R G E → Result (Failure E) (Lsm R G E)
  unfolding find_level add_at
  insert_part level p l = elim (find_level level l.levels) [
    | none ↦ err panic
    | some (before, after) ↦ elim (add_at level (pos p.size) l.sizes) [
      | none ↦ err panic
      | some sizes' ↦ ok (record l { levels = before ++ (part p ∷ after); sizes = sizes' })
    ]
  ]
