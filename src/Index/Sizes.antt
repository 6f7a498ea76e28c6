-- ===== src/Index/Sizes.antt =====
-- Where `merge` and `compact` of index/lsm.go put the parts, and the sizes that they keep.
use mathlib.Core.Path.{subst, subst⁻¹}
use mathlib.Core.List.{append-nil}
use frostdb.Base.{
  ℕ, zero, suc, ◌+◌, ◌-◌, ◌<◌, ◌≡◌, ◌≢◌, refl, sym, ◌∙◌, ap, arith, true, Option, none, some, List,
  [], ◌∷◌, ◌++◌, length, ◌==◌, if◌then◌else◌, Result, ok, err, inl, inr,
}
use frostdb.Index.{Part, Node, sentinel, Failure, Lsm, run_of, part_nodes}
use frostdb.Index.Merge.{merge, compact_loop, compact}
use frostdb.Index.Visible.{Merged, Unchanged, merge-ok, find_level-append}
use frostdb.Index.Levels.{
  IsChain, IsLeveled, parts_at, parts_at-append, IsChain-append, parts_at_lower, FoundIn,
  find_level-FoundIn, RunOf, RunOf-parts_at, parts_at-part_nodes, last_level-part_nodes,
  IsChain-part_nodes, parts_at_higher, IsLeveled-append,
}

module _ {R G : Type 0} where
  -- What a level holds after a merge of `level` with the given new parts.
  abbrev pub parts_after : ℕ → List (Part R G) → ℕ → List (Node R G) → List (Part R G)
  parts_after level new i nodes =
      if i == level
      then []
      else if i == level + 1
      then new ++ parts_at i 0 nodes
      else parts_at i 0 nodes

module _ {R G E : Type 0} where
  module _ (level : ℕ) (l l' : Lsm R G E) (h : IsLeveled l.levels) (m : Merged level l l') where
    found : FoundIn level (some (m.before, m.after))
    found = subst (FoundIn level) m.found (find_level-FoundIn level l.levels h)

    run :
        (i : ℕ)
        → (parts_at i level m.after
            ≡ parts_at i level (part_nodes m.old) ++ parts_at i (level + 1) m.rest)
          × IsChain (level + 1) m.rest
    run i =
        subst
          (λ s.
            (parts_at i level m.after
              ≡ parts_at i level (part_nodes s.0) ++ parts_at i (level + 1) s.1)
            × IsChain (level + 1) s.1)
          m.split (RunOf-parts_at i level m.after found.1)

    parts_at-before :
        (i : ℕ)
        → parts_at i 0 l.levels
          ≡ parts_at i 0 m.before
            ++ ((if i == level then m.old else []) ++ parts_at i (level + 1) m.rest)
    parts_at-before i =
        ap (parts_at i 0) (find_level-append m.before m.after level l.levels m.found)
        ∙ parts_at-append i 0 m.before m.after
        ∙ ap (λ k. parts_at i 0 m.before ++ parts_at i k m.after) found.0
        ∙ ap (λ ps. parts_at i 0 m.before ++ ps)
            ((run i).0
              ∙ ap (λ ps. ps ++ parts_at i (level + 1) m.rest) (parts_at-part_nodes i level m.old))

    parts_at-after :
        (i : ℕ)
        → parts_at i 0 l'.levels
          ≡ parts_at i 0 m.before
            ++ ((if i == level + 1 then m.result.new_parts else [])
                ++ parts_at i (level + 1) m.rest)
    unfolding parts_at
    parts_at-after i =
        ap (parts_at i 0) m.new_levels
        ∙ parts_at-append i 0 m.before
            (sentinel (level + 1) ∷ (part_nodes m.result.new_parts ++ m.rest))
        ∙ ap (λ ps. parts_at i 0 m.before ++ ps)
            (parts_at-append i (level + 1) (part_nodes m.result.new_parts) m.rest
              ∙ ap
                  (λ k.
                    parts_at i (level + 1) (part_nodes m.result.new_parts) ++ parts_at i k m.rest)
                  (last_level-part_nodes (level + 1) m.result.new_parts)
              ∙ ap (λ ps. ps ++ parts_at i (level + 1) m.rest)
                  (parts_at-part_nodes i (level + 1) m.result.new_parts))

    -- A merge empties its level and puts the new parts in front of those of the next; no other level
    -- changes.
    pub Merged-parts :
        (i : ℕ) → parts_at i 0 l'.levels ≡ parts_after level m.result.new_parts i l.levels
    Merged-parts i = ground (
      arith,
      parts_at-before i,
      parts_at-after i,
      found.2,
      parts_at_lower level (level + 1) m.rest (omega arith) (run i).1,
      parts_at_higher (level + 1) m.before found.3 (omega (arith, found.0)),
    )

    pub Merged-old : m.old ≡ parts_at level 0 l.levels
    Merged-old = ground (
      arith,
      parts_at-before level,
      found.2,
      append-nil m.old,
      parts_at_lower level (level + 1) m.rest (omega arith) (run level).1,
    )

    pub Merged-IsLeveled : IsLeveled l'.levels
    Merged-IsLeveled = subst⁻¹ IsLeveled m.new_levels (
        IsLeveled-append m.before (sentinel (level + 1) ∷ (part_nodes m.result.new_parts ++ m.rest))
          found.3
          (
            ap (λ k. k + 1) (sym found.0),
            subst⁻¹ (λ k. IsChain (k + 1) (part_nodes m.result.new_parts ++ m.rest)) found.0
                (IsChain-append (level + 1) (part_nodes m.result.new_parts) m.rest
                  (IsChain-part_nodes (level + 1) m.result.new_parts)
                  (subst⁻¹ (λ k. IsChain k m.rest)
                    (last_level-part_nodes (level + 1) m.result.new_parts) (run 0).1)),
          ))

  Unchanged-parts :
      (level : ℕ) (l l' : Lsm R G E)
      → IsLeveled l.levels
      → Unchanged level l l'
      → parts_at level 0 l.levels ≡ []
  Unchanged-parts level l l' h u =
      ap (parts_at level 0) (find_level-append u.before u.after level l.levels u.found)
      ∙ parts_at-append level 0 u.before u.after
      ∙ ap (λ k. parts_at level 0 u.before ++ parts_at level k u.after) found_at.0
      ∙ ground (
        arith,
        found_at.2,
        run_at.0,
        ap part_nodes u.empty,
        parts_at-part_nodes level level (run_of level u.after).0,
        parts_at_lower level (level + 1) (run_of level u.after).1 (omega arith) run_at.1,
      )
    where
      found_at : FoundIn level (some (u.before, u.after))
      found_at = subst (FoundIn level) u.found (find_level-FoundIn level l.levels h)

      run_at : RunOf level level u.after
      run_at = RunOf-parts_at level level u.after found_at.1

  -- What a successful merge does to the levels: its own is empty, only the next one gains, and the
  -- list stays in order.
  merge-parts :
      (level : ℕ) (l l' : Lsm R G E)
      → IsLeveled l.levels
      → merge level none l ≡ ok l'
      → (parts_at level 0 l'.levels ≡ [])
        × ((i : ℕ) → i ≢ level → i ≢ level + 1 → parts_at i 0 l'.levels ≡ parts_at i 0 l.levels)
        × IsLeveled l'.levels
  merge-parts level l l' h e = elim (merge-ok level l l' e) [
    | inl u ↦
        subst⁻¹
          (λ k.
            (parts_at level 0 k.levels ≡ [])
            × ((i : ℕ) → i ≢ level → i ≢ level + 1 → parts_at i 0 k.levels ≡ parts_at i 0 l.levels)
            × IsLeveled k.levels)
          u.same (Unchanged-parts level l l' h u, λ i p q. refl, h)
    | inr m ↦ (
      ground (arith, Merged-parts level l l' h m level),
      λ i p q. ground (arith, Merged-parts level l l' h m i),
      Merged-IsLeveled level l l' h m,
    )
  ]

  compact_loop-empties :
      (rounds i : ℕ) (l l' : Lsm R G E)
      → IsLeveled l.levels
      → ((j : ℕ) → j < i → parts_at j 0 l.levels ≡ [])
      → compact_loop true rounds i l ≡ (l', none)
      → (j : ℕ) → j < i + rounds
      → parts_at j 0 l'.levels ≡ []
  unfolding compact_loop
  compact_loop-empties zero i l l' h b e j k = ground (arith, b j (omega arith))
  compact_loop-empties (suc rounds) i l l' h b e j k =
      at_merge (merge i none l) refl
        (λ n c d f. compact_loop-empties rounds (i + 1) n l' c d f j (omega arith))
    where
      at_merge :
          (r : Result (Failure E) (Lsm R G E))
          → merge i none l ≡ r
          → ((n : Lsm R G E)
              → IsLeveled n.levels
              → ((j' : ℕ) → j' < i + 1 → parts_at j' 0 n.levels ≡ [])
              → compact_loop true rounds (i + 1) n ≡ (l', none)
              → parts_at j 0 l'.levels ≡ [])
          → parts_at j 0 l'.levels ≡ []
      at_merge (err x) m later = absurd (ground arith)
      at_merge (ok n) m later =
          let done = merge-parts i l n h m in
          later n done.2 (λ j' q. ground (arith, done.0, done.1 j', b j')) (ground arith)

  -- `EnsureCompaction`: when it returns no error, every level but the last is empty.
  compact_all-empties :
      (l l' : Lsm R G E)
      → IsLeveled l.levels
      → compact true l ≡ (l', none)
      → (j : ℕ) → j + 1 < length l.configs
      → parts_at j 0 l'.levels ≡ []
  unfolding compact
  compact_all-empties l l' h e j k =
      ap (λ (r : Lsm R G E × Option (Failure E)). parts_at j 0 r.0.levels) (sym e)
      ∙ compact_loop-empties (length l.configs - 1) 0 l looped.0 h (λ i q. absurd (omega arith))
          (λ i. (looped.0, (ap (λ (r : Lsm R G E × Option (Failure E)). r.1) e) i)) j (omega arith)
    where
      looped : Lsm R G E × Option (Failure E)
      looped = compact_loop true (length l.configs - 1) 0 l
