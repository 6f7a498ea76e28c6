-- ===== src/Index/Visible.antt =====
-- Which rows a read at a transaction is shown, before and after a compaction.
use mathlib.Core.Path.{subst}
use mathlib.Core.List.{append_assoc}
use frostdb.Base.{
  ℕ, ◌+◌, ◌≤◌, ◌≡◌, refl, ◌∙◌, ap, arith, Option, none, some, List, [], ◌∷◌, ◌++◌, get_elem?, All,
  ltb, if◌then◌else◌, Result, ok, err, Bool-cases, ◌⊎◌, inl, inr,
}
use frostdb.Index.{Body, Part, Node, sentinel, part, Compacted, Lsm, find_level, run_of, part_nodes}
use frostdb.Index.Merge.{merge_sizes, compact_of, merge_compacted, merge_run, merge}

module _ {R G E : Type 0} where
  -- What a successful `merge` of a level with parts in it has done.
  pub record Merged (level : ℕ) (l l' : Lsm R G E) : Type 0 where
    pub before : List (Node R G)
    pub after : List (Node R G)
    pub old : List (Part R G)
    pub rest : List (Node R G)
    pub result : Compacted R G
    pub function : List (Part R G) → ℕ → Result E (Compacted R G)
    pub found : find_level level l.levels ≡ some (before, after)
    pub split : run_of level after ≡ (old, rest)
    pub configured : compact_of (get_elem? l.configs level) ≡ some function
    pub compacted : function old (level + 1) ≡ ok result
    pub new_levels :
        l'.levels ≡ before ++ (sentinel (level + 1) ∷ (part_nodes result.new_parts ++ rest))
    pub new_sizes : merge_sizes level result l.sizes ≡ some l'.sizes
    pub same_configs : l'.configs ≡ l.configs

  -- A successful `merge` of a level with no part in it.
  pub record Unchanged (level : ℕ) (l l' : Lsm R G E) : Type 0 where
    pub before : List (Node R G)
    pub after : List (Node R G)
    pub found : find_level level l.levels ≡ some (before, after)
    pub empty : (run_of level after).0 ≡ []
    pub same : l' ≡ l

  merge_compacted-ok :
      (level : ℕ) (before next : List (Node R G)) (r : Result E (Compacted R G)) (l l' : Lsm R G E)
      → merge_compacted level before next r l ≡ ok l'
      → (c : Compacted R G) × (r ≡ ok c)
        × (l'.levels ≡ before ++ (sentinel (level + 1) ∷ (part_nodes c.new_parts ++ next)))
        × (merge_sizes level c l.sizes ≡ some l'.sizes)
        × (l'.configs ≡ l.configs)
  unfolding merge_compacted
  merge_compacted-ok level before next (err e) l l' h = cc
  merge_compacted-ok level before next (ok c) l l' h =
      (c, refl, ground arith, ground arith, ground arith)

  merge_run-ok :
      (level : ℕ) (before : List (Node R G)) (ps : List (Part R G)) (next : List (Node R G))
      (l l' : Lsm R G E)
      → merge_run level none before ps next l ≡ ok l'
      → ((l' ≡ l) × (ps ≡ []))
        ⊎ ((f : List (Part R G) → ℕ → Result E (Compacted R G)) × (c : Compacted R G) × (compact_of
                (get_elem? l.configs level)
              ≡ some f)
            × (f ps (level + 1) ≡ ok c)
            × (l'.levels ≡ before ++ (sentinel (level + 1) ∷ (part_nodes c.new_parts ++ next)))
            × (merge_sizes level c l.sizes ≡ some l'.sizes)
            × (l'.configs ≡ l.configs))
  unfolding merge_run
  merge_run-ok level before [] next l l' h = inl (ground arith, refl)
  merge_run-ok level before (p ∷ ps) next l l' h =
      inr (go (compact_of (get_elem? l.configs level)) refl)
    where
      go :
          (o : Option (List (Part R G) → ℕ → Result E (Compacted R G)))
          → compact_of (get_elem? l.configs level) ≡ o
          → (f : List (Part R G) → ℕ → Result E (Compacted R G)) × (c : Compacted R G) × (compact_of
                (get_elem? l.configs level)
              ≡ some f)
            × (f (p ∷ ps) (level + 1) ≡ ok c)
            × (l'.levels ≡ before ++ (sentinel (level + 1) ∷ (part_nodes c.new_parts ++ next)))
            × (merge_sizes level c l.sizes ≡ some l'.sizes)
            × (l'.configs ≡ l.configs)
      go none e = absurd (ground arith)
      go (some f) e =
          let done =
            merge_compacted-ok level before next (f (p ∷ ps) (level + 1)) l l' (ground arith) in
          (f, done.0, e, done.1, done.2, done.3, done.4)

  -- A `merge` without an external writer that succeeds changes nothing, or it has replaced the parts
  -- of its level as the record says.
  pub merge-ok :
      (level : ℕ) (l l' : Lsm R G E)
      → merge level none l ≡ ok l'
      → Unchanged level l l' ⊎ Merged level l l'
  unfolding merge
  merge-ok level l l' h = go (find_level level l.levels) refl
    where
      go :
          (o : Option (List (Node R G) × List (Node R G)))
          → find_level level l.levels ≡ o
          → Unchanged level l l' ⊎ Merged level l l'
      go none e = absurd (ground arith)
      go (some (before, after)) e =
          elim (merge_run-ok level before (run_of level after).0 (run_of level after).1 l l'
            (ground arith)) [
              | inl (same, empty) ↦
                  inl (record {
                    before = before;
                    after = after;
                    found = e;
                    empty = empty;
                    same = same;
                  })
              | inr (f, c, g, d, n, z, k) ↦ inr (record {
                before = before;
                after = after;
                old = (run_of level after).0;
                rest = (run_of level after).1;
                result = c;
                function = f;
                found = e;
                split = refl;
                configured = g;
                compacted = d;
                new_levels = n;
                new_sizes = z;
                same_configs = k;
              })
            ]

module _ {R G : Type 0} where
  abbrev Splits : List (Node R G) → Option (List (Node R G) × List (Node R G)) → Type 0
  Splits nodes none = Unit
  Splits nodes (some (before, after)) = nodes ≡ before ++ after

  find_level-Splits : (level : ℕ) (nodes : List (Node R G)) → Splits nodes (find_level level nodes)
  unfolding find_level
  find_level-Splits level [] = tt
  find_level-Splits level (part p ∷ nodes) = ground (arith, find_level-Splits level nodes)
  find_level-Splits level (sentinel s ∷ nodes) = ground (arith, find_level-Splits level nodes)

  pub find_level-append :
      (before after : List (Node R G)) (level : ℕ) (nodes : List (Node R G))
      → find_level level nodes ≡ some (before, after)
      → nodes ≡ before ++ after
  find_level-append before after level nodes h =
      subst (Splits nodes) h (find_level-Splits level nodes)

module _ {R G Row : Type 0} (rows : Body R G → List Row) where
  -- The rows that `Scan` at a transaction comes by, if the filter keeps every row group.
  unfoldable pub visible_rows : ℕ → List (Node R G) → List Row
  visible_rows tx [] = []
  visible_rows tx (sentinel s ∷ nodes) = visible_rows tx nodes
  visible_rows tx (part p ∷ nodes) =
      if ltb tx p.tx then visible_rows tx nodes else rows p.body ++ visible_rows tx nodes

  -- The rows of parts, whatever their transaction.
  unfoldable pub part_rows : List (Part R G) → List Row
  part_rows [] = []
  part_rows (p ∷ ps) = rows p.body ++ part_rows ps

  pub visible_rows-append :
      (tx : ℕ) (xs ys : List (Node R G))
      → visible_rows tx (xs ++ ys) ≡ visible_rows tx xs ++ visible_rows tx ys
  unfolding visible_rows
  visible_rows-append tx [] ys = refl
  visible_rows-append tx (sentinel s ∷ xs) ys = visible_rows-append tx xs ys
  visible_rows-append tx (part p ∷ xs) ys = elim (Bool-cases (ltb tx p.tx)) [
    | inl e ↦ rw e (visible_rows-append tx xs ys)
    | inr e ↦ rw e (rw (visible_rows-append tx xs ys, append_assoc))
  ]

  pub visible_rows-find_level :
      {before after : List (Node R G)} (tx level : ℕ) (nodes : List (Node R G))
      → find_level level nodes ≡ some (before, after)
      → visible_rows tx nodes ≡ visible_rows tx before ++ visible_rows tx after
  visible_rows-find_level {before} {after} tx level nodes h =
      ap (visible_rows tx) (find_level-append before after level nodes h)
      ∙ visible_rows-append tx before after

  pub visible_rows-run_of :
      (tx level : ℕ) (nodes : List (Node R G))
      → visible_rows tx nodes
        ≡ visible_rows tx (part_nodes (run_of level nodes).0)
          ++ visible_rows tx (run_of level nodes).1
  unfolding visible_rows run_of
  visible_rows-run_of tx level [] = refl
  visible_rows-run_of tx level (part p ∷ nodes) = elim (Bool-cases (ltb tx p.tx)) [
    | inl e ↦ rw e (visible_rows-run_of tx level nodes)
    | inr e ↦
        rw e (rw (append_assoc) (ap (λ xs. rows p.body ++ xs) (visible_rows-run_of tx level nodes)))
  ]
  visible_rows-run_of tx level (sentinel s ∷ nodes) =
      ground (arith, visible_rows-run_of tx level nodes)

  -- Parts that the read may see show all their rows.
  pub visible_rows-part_nodes :
      (tx : ℕ) (ps : List (Part R G))
      → All (λ p. p.tx ≤ tx) ps
      → visible_rows tx (part_nodes ps) ≡ part_rows ps
  unfolding visible_rows part_rows
  visible_rows-part_nodes tx [] h = refl
  visible_rows-part_nodes tx (p ∷ ps) h = ground (arith, visible_rows-part_nodes tx ps h.1)
