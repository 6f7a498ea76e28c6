-- ===== src/Index/Isolation.antt =====
-- Snapshot reads of an index: what later writes leave alone, and what a compaction does not.
use mathlib.Core.List.{Perm, Permᴰ}
use mathlib.Core.Logic.{∥∥₁_elim}
use mathlib.Core.Path.{subst}
use native.Mathlib.Nat.{ℕ_set}
use frostdb.Base.{
  ℕ, suc, ◌≤◌, ◌<◌, ◌≡◌, ◌∙◌, refl, sym, ap, arith, Bool, List, [], ◌∷◌, ◌++◌, length,
  length-append, Elem, Option, none, some, Result, ok, inl, inr,
}
use frostdb.Base.Int.{ℤ, pos}
use frostdb.Index.{
  arrow, Body, Part, Node, sentinel, part, Lsm, prepend, add, add_at, part_nodes, find_level,
  run_of,
}
use frostdb.Index.Scan.{Item, scan}
use frostdb.Index.Merge.{merge}
use frostdb.Index.Visible.{Merged, merge-ok, visible_rows, part_rows}
use frostdb.Index.Stable.{IsLossless, AllLossless, Merged-visible, visible_rows-Merged_old}

length-Permᴰ : {A : Type 0} {xs ys : List A} → Permᴰ xs ys → length xs ≡ length ys
length-Permᴰ Permᴰ.nil = refl
length-Permᴰ (Permᴰ.cons e p) = ap suc (length-Permᴰ p)
length-Permᴰ (Permᴰ.swap e f) = refl
length-Permᴰ (Permᴰ.trans p q) = length-Permᴰ p ∙ length-Permᴰ q

-- Permuted lists have one length.
length-Perm : {A : Type 0} (xs ys : List A) → Perm xs ys → length xs ≡ length ys
length-Perm xs ys p = ∥∥₁_elim p (ℕ_set (length xs) (length ys)) length-Permᴰ

module _ {R G Row : Type 0} (rows : Body R G → List Row) where
  length-visible-le :
      (tx : ℕ) (ps : List (Part R G))
      → length (visible_rows rows tx (part_nodes ps)) ≤ length (part_rows rows ps)
  unfolding visible_rows part_rows
  length-visible-le tx [] = omega arith
  length-visible-le tx (q ∷ ps) = ground (
    arith,
    length-append (rows q.body) (part_rows rows ps),
    length-append (rows q.body) (visible_rows rows tx (part_nodes ps)),
    length-visible-le tx ps,
  )

  length-part_rows :
      (tx : ℕ) (ps : List (Part R G)) (p : Part R G)
      → Elem p ps
      → tx < p.tx
      → 0 < length (rows p.body)
      → length (visible_rows rows tx (part_nodes ps)) < length (part_rows rows ps)
  unfolding visible_rows part_rows
  length-part_rows tx [] p e h k = absurd e
  length-part_rows tx (q ∷ ps) p (inl e) h k = ground (
    arith,
    length-append (rows q.body) (part_rows rows ps),
    length-visible-le tx ps,
    ap (λ (b : Part R G). length (rows b.body)) e,
    ap (λ (b : Part R G). b.tx) e,
  )
  length-part_rows tx (q ∷ ps) p (inr e) h k = ground (
    arith,
    length-append (rows q.body) (part_rows rows ps),
    length-append (rows q.body) (visible_rows rows tx (part_nodes ps)),
    length-part_rows tx ps p e h k,
  )

module _ {R G E Row : Type 0} (rows : Body R G → List Row) where
  Merged-leaks :
      (tx level : ℕ) (l l' : Lsm R G E) (m : Merged level l l') (p : Part R G)
      → IsLossless rows m.function
      → Elem p m.old
      → tx < p.tx
      → 0 < length (rows p.body)
      → length (visible_rows rows tx l.levels) < length (visible_rows rows tx l'.levels)
  Merged-leaks tx level l l' m p ll e h k = omega (
    arith,
    ap length (visible_rows-Merged_old rows tx level l l' m),
    length-append (visible_rows rows tx m.before)
        (visible_rows rows tx (part_nodes m.old) ++ visible_rows rows tx m.rest),
    length-append (visible_rows rows tx (part_nodes m.old)) (visible_rows rows tx m.rest),
    length-Perm _ _ (Merged-visible rows tx level l l' m ll),
    length-append (visible_rows rows tx m.before)
        (part_rows rows m.old ++ visible_rows rows tx m.rest),
    length-append (part_rows rows m.old) (visible_rows rows tx m.rest),
    length-part_rows rows tx m.old p e h k,
  )

  -- Conditions: the compaction functions of the index keep the rows and make their parts for the
  -- transaction 0, the level is found in the list, a part with rows stands in the run of the level that
  -- a read at `tx` must not see, and `merge` of the level succeeds. Then the read is shown more rows
  -- after it than before.
  pub merge_leaks :
      (tx level : ℕ) (l l' : Lsm R G E) (before after : List (Node R G)) (p : Part R G)
      → AllLossless rows l.configs
      → find_level level l.levels ≡ some (before, after)
      → Elem p (run_of level after).0
      → tx < p.tx
      → 0 < length (rows p.body)
      → merge level none l ≡ ok l'
      → length (visible_rows rows tx l.levels) < length (visible_rows rows tx l'.levels)
  merge_leaks tx level l l' before after p ll f e h k ok_l = elim (merge-ok level l l' ok_l) [
    | inl u ↦ absurd (subst (Elem p) (run_at u.before u.after u.found ∙ u.empty) e)
    | inr m ↦
        Merged-leaks tx level l l' m p (ll level m.function m.configured)
          (subst (Elem p)
            (run_at m.before m.after m.found
              ∙ ap (λ (s : List (Part R G) × List (Node R G)). s.0) m.split)
            e)
          h k
  ]
    where
      run_at :
          (b a : List (Node R G))
          → find_level level l.levels ≡ some (b, a)
          → (run_of level after).0 ≡ (run_of level a).0
      run_at b a g = ap second_run (sym f ∙ g)
        where
          second_run : Option (List (Node R G) × List (Node R G)) → List (Part R G)
          second_run none = []
          second_run (some s) = (run_of level s.1).0

module _ {R G E C : Type 0} (eval : G → Result E Bool) (callback : Item R G → C → Result E C) where
  scan-prepend :
      (tx : ℕ) (p : Part R G) (nodes : List (Node R G)) (c : C)
      → tx < p.tx
      → scan eval callback tx (prepend (part p) nodes) c ≡ scan eval callback tx nodes c
  unfolding scan prepend
  scan-prepend tx p [] c h = refl
  scan-prepend tx p (sentinel s ∷ nodes) c h = ground arith
  scan-prepend tx p (part q ∷ nodes) c h = ground arith

  -- A record that is added for a later transaction changes nothing for a scan: its callbacks, its
  -- result and its error are the same.
  scan-add :
      (tx t size : ℕ) (r : R) (l l' : Lsm R G E) (started : Bool) (c : C)
      → tx < t
      → add t r size l ≡ ok (l', started)
      → scan eval callback tx l'.levels c ≡ scan eval callback tx l.levels c
  unfolding add
  scan-add tx t size r l l' started c h e =
      ap (λ ns. scan eval callback tx ns c) (levels-add (add_at 0 (pos size) l.sizes) refl)
      ∙ scan-prepend tx p l.levels c h
    where
      p : Part R G
      p = record { tx = t; size = size; compaction_level = 0; body = arrow r }

      levels-add :
          (o : Option (List ℤ))
          → add_at 0 (pos size) l.sizes ≡ o
          → l'.levels ≡ prepend (part p) l.levels
      levels-add none k = absurd (ground arith)
      levels-add (some ss) k = ground arith
