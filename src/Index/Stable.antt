-- ===== src/Index/Stable.antt =====
-- Compaction and reads: what a read at a transaction is shown before and after.
use mathlib.Core.Path.{subst, subst⁻¹}
use mathlib.Core.List.{Perm}
use mathlib.Core.List.Perm
use frostdb.Base.{
  ℕ, zero, suc, ◌+◌, ◌-◌, ◌≤◌, ◌≡◌, refl, ◌∙◌, ap, arith, Bool, true, false, ◌||◌, none, some, List,
  [], ◌∷◌, ◌++◌, length, get_elem?, All, All-append, Result, ok, err, inl, inr,
}
use frostdb.Index.{
  Body, Part, Node, sentinel, part, Failure, Compacted, LevelConfig, Lsm, run_of, part_nodes,
}
use frostdb.Index.Merge.{compact_of, merge, compact_loop, compact, is_due}
use frostdb.Index.Visible.{
  Merged, merge-ok, visible_rows, part_rows, find_level-append, visible_rows-append,
  visible_rows-find_level, visible_rows-run_of, visible_rows-part_nodes,
}

-- The read may see the part.
abbrev pub IsShown : {R G : Type 0} → ℕ → Node R G → Type 0
IsShown tx (sentinel s) = Unit
IsShown tx (part p) = p.tx ≤ tx

module _ {R G : Type 0} where
  All-zero-le : (tx : ℕ) (ps : List (Part R G)) → All (λ p. p.tx ≡ 0) ps → All (λ p. p.tx ≤ tx) ps
  All-zero-le tx [] h = tt
  All-zero-le tx (p ∷ ps) h = (omega arith, All-zero-le tx ps h.1)

module _ {R G E Row : Type 0} (rows : Body R G → List Row) where
  -- What the compaction functions of table.go do for a table with no unique primary index: the new
  -- parts hold the rows of the old ones, and are made for the transaction 0.
  pub record IsLossless (f : List (Part R G) → ℕ → Result E (Compacted R G)) : Type 0 where
    pub keeps :
        (ps : List (Part R G)) (level : ℕ) (c : Compacted R G)
        → f ps level ≡ ok c
        → Perm (part_rows rows c.new_parts) (part_rows rows ps)
    pub at_zero :
        (ps : List (Part R G)) (level : ℕ) (c : Compacted R G)
        → f ps level ≡ ok c
        → All (λ p. p.tx ≡ 0) c.new_parts

  abbrev pub AllLossless : List (LevelConfig R G E) → Type 0
  AllLossless configs =
      (level : ℕ) (f : List (Part R G) → ℕ → Result E (Compacted R G))
      → compact_of (get_elem? configs level) ≡ some f
      → IsLossless f

  visible_rows-Merged_new :
      (tx level : ℕ) (l l' : Lsm R G E) (m : Merged level l l')
      → IsLossless m.function
      → visible_rows rows tx l'.levels
        ≡ visible_rows rows tx m.before
          ++ (part_rows rows m.result.new_parts ++ visible_rows rows tx m.rest)
  unfolding visible_rows
  visible_rows-Merged_new tx level l l' m ll =
      ap (visible_rows rows tx) m.new_levels
      ∙ visible_rows-append rows tx m.before
          (sentinel (level + 1) ∷ (part_nodes m.result.new_parts ++ m.rest))
      ∙ ap (λ xs. visible_rows rows tx m.before ++ xs)
          (visible_rows-append rows tx (part_nodes m.result.new_parts) m.rest
            ∙ ap (λ xs. xs ++ visible_rows rows tx m.rest)
                (visible_rows-part_nodes rows tx m.result.new_parts (
                  All-zero-le tx m.result.new_parts
                    (ll.at_zero m.old (level + 1) m.result m.compacted))))

  pub visible_rows-Merged_old :
      (tx level : ℕ) (l l' : Lsm R G E) (m : Merged level l l')
      → visible_rows rows tx l.levels
        ≡ visible_rows rows tx m.before
          ++ (visible_rows rows tx (part_nodes m.old) ++ visible_rows rows tx m.rest)
  visible_rows-Merged_old tx level l l' m =
      visible_rows-find_level rows tx level l.levels m.found
      ∙ ap (λ xs. visible_rows rows tx m.before ++ xs)
          (subst
            (λ s.
              visible_rows rows tx m.after
              ≡ visible_rows rows tx (part_nodes s.0) ++ visible_rows rows tx s.1)
            m.split (visible_rows-run_of rows tx level m.after))

  -- After a merge a read is shown every row of the level that was merged, at any transaction.
  pub Merged-visible :
      (tx level : ℕ) (l l' : Lsm R G E) (m : Merged level l l')
      → IsLossless m.function
      → Perm
          (visible_rows rows tx l'.levels)
          (visible_rows rows tx m.before ++ (part_rows rows m.old ++ visible_rows rows tx m.rest))
  Merged-visible tx level l l' m ll = rw (visible_rows-Merged_new tx level l l' m ll) (
      Perm.append_left (visible_rows rows tx m.before) (
        Perm.append_right (visible_rows rows tx m.rest)
          (ll.keeps m.old (level + 1) m.result m.compacted)))

module _ {R G : Type 0} (tx : ℕ) where
  All-prefix_suffix :
      (xs ys : List (Node R G))
      → All (IsShown tx) (xs ++ ys)
      → All (IsShown tx) xs × All (IsShown tx) ys
  All-prefix_suffix [] ys h = (tt, h)
  All-prefix_suffix (x ∷ xs) ys h = let (a, b) = All-prefix_suffix xs ys h.1 in ((h.0, a), b)

  IsShown-run_of :
      (level : ℕ) (nodes : List (Node R G))
      → All (IsShown tx) nodes
      → All (λ p. p.tx ≤ tx) (run_of level nodes).0 × All (IsShown tx) (run_of level nodes).1
  unfolding run_of
  IsShown-run_of level [] h = (tt, tt)
  IsShown-run_of level (part p ∷ nodes) h =
      let (a, b) = IsShown-run_of level nodes h.1 in ((h.0, a), b)
  IsShown-run_of level (sentinel s ∷ nodes) h = ground (arith, IsShown-run_of level nodes h.1)

  IsShown-part_nodes :
      (ps : List (Part R G)) → All (λ p. p.tx ≡ 0) ps → All (IsShown tx) (part_nodes ps)
  IsShown-part_nodes [] h = tt
  IsShown-part_nodes (p ∷ ps) h = (omega arith, IsShown-part_nodes ps h.1)

module _ {R G E Row : Type 0} (rows : Body R G → List Row) where
  -- The state of an index that a read at `tx` sees whole, and that was set up by table.go.
  pub record IsReadable (tx : ℕ) (l : Lsm R G E) : Type 0 where
    pub shown : All (IsShown tx) l.levels
    pub lossless : AllLossless rows l.configs

  module _ (tx level : ℕ) (l l' : Lsm R G E) (h : IsReadable tx l) (m : Merged level l l') where
    cut : All (IsShown tx) m.before × All (IsShown tx) m.after
    cut = All-prefix_suffix tx m.before m.after (
        subst (All (IsShown tx)) (find_level-append m.before m.after level l.levels m.found)
          h.shown)

    run : All (λ p. p.tx ≤ tx) m.old × All (IsShown tx) m.rest
    run =
        subst (λ s. All (λ p. p.tx ≤ tx) s.0 × All (IsShown tx) s.1) m.split
          (IsShown-run_of tx level m.after cut.1)

    function-IsLossless : IsLossless rows m.function
    function-IsLossless = h.lossless level m.function m.configured

    Merged-IsReadable : IsReadable tx l'
    Merged-IsReadable = record {
      shown = subst⁻¹ (All (IsShown tx)) m.new_levels (
          All-append (IsShown tx) m.before
            (sentinel (level + 1) ∷ (part_nodes m.result.new_parts ++ m.rest)) cut.0
            (
              tt,
              All-append (IsShown tx) (part_nodes m.result.new_parts) m.rest
                  (IsShown-part_nodes tx m.result.new_parts
                    (function-IsLossless.at_zero m.old (level + 1) m.result m.compacted))
                  run.1,
            ));
      lossless = subst⁻¹ (AllLossless rows) m.same_configs h.lossless;
    }

    Merged-perm : Perm (visible_rows rows tx l'.levels) (visible_rows rows tx l.levels)
    Merged-perm =
        rw
          (
            visible_rows-Merged_old rows tx level l l' m,
            visible_rows-part_nodes rows tx m.old run.0,
          )
          (Merged-visible rows tx level l l' m function-IsLossless)

  merge-kept :
      (tx level : ℕ) (l l' : Lsm R G E)
      → IsReadable tx l
      → merge level none l ≡ ok l'
      → Perm (visible_rows rows tx l'.levels) (visible_rows rows tx l.levels) × IsReadable tx l'
  merge-kept tx level l l' h e = elim (merge-ok level l l' e) [
    | inl u ↦
        subst⁻¹
          (λ k.
            Perm (visible_rows rows tx k.levels) (visible_rows rows tx l.levels) × IsReadable tx k)
          u.same (Perm.refl (visible_rows rows tx l.levels), h)
    | inr m ↦ (Merged-perm tx level l l' h m, Merged-IsReadable tx level l l' h m)
  ]

  compact_loop-kept :
      (tx : ℕ) (ignore_sizes : Bool) (rounds i : ℕ) (l : Lsm R G E)
      → IsReadable tx l
      → Perm
          (visible_rows rows tx (compact_loop ignore_sizes rounds i l).0.levels)
          (visible_rows rows tx l.levels)
  unfolding compact_loop
  compact_loop-kept tx ignore_sizes zero i l h = Perm.refl (visible_rows rows tx l.levels)
  compact_loop-kept tx ignore_sizes (suc rounds) i l h =
      at_test (ignore_sizes || is_due i l) refl (merge i none l) refl
        (λ k. compact_loop-kept tx ignore_sizes rounds (i + 1) k)
    where
      Later : Type 0
      Later =
          (k : Lsm R G E)
          → IsReadable tx k
          → Perm (visible_rows rows tx (compact_loop ignore_sizes rounds (i + 1) k).0.levels)
              (visible_rows rows tx k.levels)

      at_test :
          (b : Bool)
          → (ignore_sizes || is_due i l) ≡ b
          → (r : Result (Failure E) (Lsm R G E)) → merge i none l ≡ r
          → Later
          → Perm
              (visible_rows rows tx (compact_loop ignore_sizes (suc rounds) i l).0.levels)
              (visible_rows rows tx l.levels)
      at_test false e r k later = rw (e) (later l h)
      at_test true e (err x) k later =
          rw (e) (rw (k, compact_loop) (Perm.refl (visible_rows rows tx l.levels)))
      at_test true e (ok l') k later =
          let kept = merge-kept tx i l l' h k in
          rw (e) (rw (k) (Perm.trans (later l' kept.1) kept.0))

  -- A compaction, forced or not, and also one that an error ends, shows the same rows as before to a
  -- read that is not older than any part of the index, if the compaction functions keep the rows.
  pub compact-visible :
      (tx : ℕ) (ignore_sizes : Bool) (l : Lsm R G E)
      → IsReadable tx l
      → Perm
          (visible_rows rows tx (compact ignore_sizes l).0.levels)
          (visible_rows rows tx l.levels)
  unfolding compact
  compact-visible tx ignore_sizes l h =
      compact_loop-kept tx ignore_sizes (length l.configs - 1) 0 l h
