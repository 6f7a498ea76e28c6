-- ===== src/Index/Accounting.antt =====
-- The sizes that an index keeps for its levels are those of the parts in them.
use mathlib.Core.Path.{subst, subst⁻¹}
use frostdb.Base.{
  ℕ, zero, suc, ◌+◌, ◌≡◌, refl, ◌∙◌, ap, arith, Bool, Option, none, some, List, [], ◌∷◌, ◌++◌,
  get_elem?, ◌==◌, if◌then◌else◌, Result, ok, inl, inr,
}
use frostdb.Base.Int.{ℤ, pos, ◌+ℤ◌, ◌-ℤ◌}
use frostdb.Index.{Part, Node, sentinel, part, arrow, Compacted, Lsm, add_at, prepend, add}
use frostdb.Index.Merge.{merge, merge_sizes, compact_of}
use frostdb.Index.Visible.{Merged, merge-ok}
use frostdb.Index.Levels.{IsLeveled, parts_at}
use frostdb.Index.Sizes.{Merged-parts, Merged-old, Merged-IsLeveled}

module _ {R G : Type 0} where
  unfoldable pub bytes : List (Part R G) → ℕ
  bytes [] = 0
  bytes (p ∷ ps) = p.size + bytes ps

  bytes-append : (ps qs : List (Part R G)) → bytes (ps ++ qs) ≡ bytes ps + bytes qs
  unfolding bytes
  bytes-append [] qs = omega arith
  bytes-append (p ∷ ps) qs = omega (arith, bytes-append ps qs)

abbrev plus : Option ℤ → ℤ → Option ℤ
plus none d = none
plus (some s) d = some (s +ℤ d)

add_at-get_elem? :
    (i : ℕ) (d : ℤ) (ss ss' : List ℤ)
    → add_at i d ss ≡ some ss'
    → (j : ℕ) → get_elem? ss' j ≡ (if j == i then plus (get_elem? ss j) d else get_elem? ss j)
unfolding add_at
add_at-get_elem? i d [] ss' e j = cc
add_at-get_elem? zero d (s ∷ ss) ss' e zero = ground arith
add_at-get_elem? zero d (s ∷ ss) ss' e (suc j) = ground arith
add_at-get_elem? (suc i) d (s ∷ ss) ss' e j = at_tail (add_at i d ss) refl (add_at-get_elem? i d ss)
  where
    at_tail :
        (o : Option (List ℤ))
        → add_at i d ss ≡ o
        → ((ts : List ℤ)
            → add_at i d ss ≡ some ts
            → (n : ℕ)
            → get_elem? ts n ≡ (if n == i then plus (get_elem? ss n) d else get_elem? ss n))
        → get_elem? ss' j
          ≡ (if j == suc i then plus (get_elem? (s ∷ ss) j) d else get_elem? (s ∷ ss) j)
    at_tail none k later = absurd (ground arith)
    at_tail (some ts) k later = ap (λ us. get_elem? us j) whole ∙ at_index ts (later ts k) j
      where
        whole : ss' ≡ s ∷ ts
        whole = ground arith

        at_index :
            (ts' : List ℤ)
            → ((n : ℕ)
                → get_elem? ts' n ≡ (if n == i then plus (get_elem? ss n) d else get_elem? ss n))
            → (n : ℕ)
            → get_elem? (s ∷ ts') n
              ≡ (if n == suc i then plus (get_elem? (s ∷ ss) n) d else get_elem? (s ∷ ss) n)
        at_index ts' f zero = ground arith
        at_index ts' f (suc n) = ground (arith, f n)

module _ {R G : Type 0} where
  prepend-parts :
      (p : Part R G) (nodes : List (Node R G))
      → IsLeveled nodes
      → IsLeveled (prepend (part p) nodes)
        × ((i : ℕ)
            → parts_at i 0 (prepend (part p) nodes)
              ≡ (if i == 0 then p ∷ parts_at i 0 nodes else parts_at i 0 nodes))
  unfolding prepend parts_at
  prepend-parts p [] h = absurd h
  prepend-parts p (part q ∷ nodes) h = absurd h
  prepend-parts p (sentinel s ∷ nodes) h = (
    h,
    λ i.
        subst⁻¹
          (λ t.
            (if i == t then p ∷ parts_at i t nodes else parts_at i t nodes)
            ≡ (if i == 0 then p ∷ parts_at i t nodes else parts_at i t nodes))
          h.0 refl,
  )

  two_adds :
      (level : ℕ) (c : Compacted R G) (ss ss' : List ℤ)
      → merge_sizes level c ss ≡ some ss'
      → (i : ℕ)
      → get_elem? ss' i ≡ (
          if i == level
          then plus (get_elem? ss i) (pos 0 -ℤ pos c.size)
          else if i == level + 1
          then plus (get_elem? ss i) (pos c.compacted_size)
          else get_elem? ss i)
  unfolding merge_sizes
  two_adds level c ss ss' e i = at_first (add_at (level + 1) (pos c.compacted_size) ss) refl
    where
      at_first :
          (o : Option (List ℤ))
          → add_at (level + 1) (pos c.compacted_size) ss ≡ o
          → get_elem? ss' i ≡ (
              if i == level
              then plus (get_elem? ss i) (pos 0 -ℤ pos c.size)
              else if i == level + 1
              then plus (get_elem? ss i) (pos c.compacted_size)
              else get_elem? ss i)
      at_first none k = absurd (ground arith)
      at_first (some ts) k = ground (
        arith,
        add_at-get_elem? (level + 1) (pos c.compacted_size) ss ts k i,
        add_at-get_elem? level (pos 0 -ℤ pos c.size) ts ss' (ground arith) i,
      )

module _ {R G E : Type 0} where
  -- What the compaction functions of table.go return: the size of the parts that they were given,
  -- and of those that they made.
  abbrev pub CountsSizes : (List (Part R G) → ℕ → Result E (Compacted R G)) → Type 0
  CountsSizes f =
      (ps : List (Part R G)) (level : ℕ) (c : Compacted R G)
      → f ps level ≡ ok c
      → (c.size ≡ bytes ps) × (c.compacted_size ≡ bytes c.new_parts)

  -- `sizes[i]` is the size of the parts of level `i`.
  pub record IsSized (l : Lsm R G E) : Type 0 where
    pub leveled : IsLeveled l.levels
    pub counted :
        (i : ℕ) (s : ℤ) → get_elem? l.sizes i ≡ some s → s ≡ pos (bytes (parts_at i 0 l.levels))

  module _ (level : ℕ) (l l' : Lsm R G E) (h : IsSized l) (m : Merged level l l')
      (f : CountsSizes m.function) where
    counted_at :
        (i : ℕ) (o : Option ℤ)
        → get_elem? l.sizes i ≡ o
        → (s : ℤ) → get_elem? l'.sizes i ≡ some s
        → s ≡ pos (bytes (parts_at i 0 l'.levels))
    unfolding bytes ◌+ℤ◌ ◌-ℤ◌
    counted_at i none k s e = ground (arith, two_adds level m.result l.sizes l'.sizes m.new_sizes i)
    counted_at i (some t) k s e = ground (
      arith,
      two_adds level m.result l.sizes l'.sizes m.new_sizes i,
      h.counted i t k,
      Merged-parts level l l' h.leveled m i,
      Merged-old level l l' h.leveled m,
      f m.old (level + 1) m.result m.compacted,
      bytes-append m.result.new_parts (parts_at i 0 l.levels),
    )

    Merged-IsSized : IsSized l'
    Merged-IsSized = record {
      leveled = Merged-IsLeveled level l l' h.leveled m;
      counted = λ i s e. counted_at i (get_elem? l.sizes i) refl s e;
    }

  -- A merge that succeeds keeps the sizes right, if the compaction function of the level counts the
  -- parts that it is given and makes.
  pub merge-IsSized :
      (level : ℕ) (l l' : Lsm R G E)
      → IsSized l
      → ((f : List (Part R G) → ℕ → Result E (Compacted R G))
          → compact_of (get_elem? l.configs level) ≡ some f
          → CountsSizes f)
      → merge level none l ≡ ok l'
      → IsSized l'
  merge-IsSized level l l' h f e = elim (merge-ok level l l' e) [
    | inl u ↦ subst⁻¹ IsSized u.same h
    | inr m ↦ Merged-IsSized level l l' h m (f m.function m.configured)
  ]

  -- So does `Add`, which counts the record to L0.
  add-IsSized :
      (tx size : ℕ) (r : R) (l l' : Lsm R G E) (started : Bool)
      → IsSized l
      → add tx r size l ≡ ok (l', started)
      → IsSized l'
  unfolding add bytes ◌+ℤ◌
  add-IsSized tx size r l l' started h e = at_size (add_at 0 (pos size) l.sizes) refl
    where
      p : Part R G
      p = record { tx = tx; size = size; compaction_level = 0; body = arrow r }

      placed :
          IsLeveled (prepend (part p) l.levels)
          × ((i : ℕ)
              → parts_at i 0 (prepend (part p) l.levels)
                ≡ (if i == 0 then p ∷ parts_at i 0 l.levels else parts_at i 0 l.levels))
      placed = prepend-parts p l.levels h.leveled

      counted_at :
          (ss : List ℤ)
          → add_at 0 (pos size) l.sizes ≡ some ss
          → (i : ℕ) (o : Option ℤ) → get_elem? l.sizes i ≡ o
          → (s : ℤ) → get_elem? ss i ≡ some s
          → s ≡ pos (bytes (parts_at i 0 (prepend (part p) l.levels)))
      counted_at ss k i none g s q = ground (arith, add_at-get_elem? 0 (pos size) l.sizes ss k i)
      counted_at ss k i (some t) g s q =
          ground (arith, add_at-get_elem? 0 (pos size) l.sizes ss k i, h.counted i t g, placed.1 i)

      at_size : (o : Option (List ℤ)) → add_at 0 (pos size) l.sizes ≡ o → IsSized l'
      at_size none k = absurd (ground arith)
      at_size (some ss) k = record {
        leveled = subst⁻¹ IsLeveled same_levels placed.0;
        counted = λ i s q.
            subst⁻¹ (λ (n : List (Node R G)). s ≡ pos (bytes (parts_at i 0 n))) same_levels
              (counted_at ss k i (get_elem? l.sizes i) refl s
                (subst (λ ts. get_elem? ts i ≡ some s) same_sizes q));
      }
        where
          same_levels : l'.levels ≡ prepend (part p) l.levels
          same_levels = ground arith

          same_sizes : l'.sizes ≡ ss
          same_sizes = ground arith
