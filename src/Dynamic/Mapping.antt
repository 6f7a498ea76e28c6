-- ===== src/Dynamic/Mapping.antt =====
-- The columns of a row group map to their places in the merged columns.
use mathlib.Core.Path.{subst}
use frostdb.Base.{
  ℕ, suc, Bool, true, false, ◌||◌, Option, none, some, List, [], ◌∷◌, All, All-map_of, Elem, inl,
  inr, if◌then◌else◌, ◌≡◌, refl, sym, ap, ◌∙◌,
}
use frostdb.Filter.{name_eq, name_eq-eq}
use frostdb.Dynamic.{
  Columns, lookup, or_nil, before, seen, mapping_from, map_merged_column_name_indexes,
  merge_dynamic_column_sets,
}
use frostdb.Dynamic.Lookup.{name_same}
use frostdb.Dynamic.Sorted.{AreSorted, before_trans, before_irr, name_eq_flip}
use frostdb.Dynamic.Merged.{has_label, AreMaps, merge_dynamic_column_sets-IsMergedAt}

-- The place of a column among the original ones, the first of which has the place `j`.
abbrev pub place_from : ℕ → List ℕ → List (List ℕ) → Option ℕ
place_from j c [] = none
place_from j c (o ∷ original) = if name_eq o c then some j else place_from (suc j) c original

abbrev pub places : ℕ → List (List ℕ) → List (List ℕ) → List (Option ℕ)
places j [] original = []
places j (c ∷ merged) original = place_from j c original ∷ places j merged original

false_or_true : (a : List ℕ) → before a a ≡ true → ⊥
false_or_true a h = never (sym (before_irr a) ∙ h)
  where
    never : false ≡ true → ⊥
    never h = absurd (cc)

-- A string is not the one that comes before it.
before-differs : (a b : List ℕ) → before a b ≡ true → name_eq a b ≡ false
before-differs a b h = go (name_eq a b) refl
  where
    go : (c : Bool) → name_eq a b ≡ c → c ≡ false
    go true e = absurd (false_or_true a (ap (before a) (name_eq-eq a b e) ∙ h))
    go false e = refl

after-differs : (a b : List ℕ) → before a b ≡ true → name_eq b a ≡ false
after-differs a b h = go (name_eq b a) refl
  where
    go : (c : Bool) → name_eq b a ≡ c → c ≡ false
    go true e = absurd (false_or_true a (ap (before a) (sym (name_eq-eq b a e)) ∙ h))
    go false e = refl

seen-All :
    (P : List ℕ → Type 0) (xs : List (List ℕ)) (n : List ℕ) → All P xs → seen xs n ≡ true → P n
seen-All P [] n a h = absurd (cc)
seen-All P (x ∷ xs) n a h = go (name_eq x n) refl h (seen-All P xs n a.1)
  where
    go : (b : Bool) → name_eq x n ≡ b → (b || seen xs n) ≡ true → (seen xs n ≡ true → P n) → P n
    go true e h f = subst P (name_eq-eq x n e) a.0
    go false e h f = f h

place-none :
    (j : ℕ) (c : List ℕ) (os : List (List ℕ))
    → All (λ o. name_eq o c ≡ false) os
    → place_from j c os ≡ none
place-none j c [] h = refl
place-none j c (o ∷ os) h = rw (h.0) (place-none (suc j) c os h.1)

-- No merged column that is left is the first of the original ones.
places-next :
    (j : ℕ) (merged : List (List ℕ)) (o : List ℕ) (os : List (List ℕ))
    → All (λ m. name_eq o m ≡ false) merged
    → places (suc j) merged os ≡ places j merged (o ∷ os)
places-next j [] o os h = refl
places-next j (m ∷ merged) o os h =
    rw (h.0) (ap (λ l. place_from (suc j) m os ∷ l) (places-next j merged o os h.1))

-- What is seen in a list, and is not its first, is seen behind it.
seen-behind :
    (m : List ℕ) (merged os : List (List ℕ))
    → All (λ o. name_eq m o ≡ false) os
    → All (λ o. seen (m ∷ merged) o ≡ true) os
    → All (λ o. seen merged o ≡ true) os
seen-behind m merged [] d h = tt
seen-behind m merged (o ∷ os) d h =
    (sym (ap (λ b. b || seen merged o) d.0) ∙ h.0, seen-behind m merged os d.1 h.1)

mapping-places :
    (j : ℕ) (merged os : List (List ℕ))
    → AreSorted merged
    → AreSorted os
    → All (λ o. seen merged o ≡ true) os
    → mapping_from j merged os ≡ places j merged os
mapping-places j [] os s t h = refl
mapping-places j (m ∷ merged) [] s t h = ap (λ l. none ∷ l) (mapping-places j merged [] s.1 tt tt)
mapping-places j (m ∷ merged) (o ∷ os) s t h =
    go (name_eq o m) refl (λ a. mapping-places (suc j) merged os s.1 t.1 a)
      (λ a. mapping-places j merged (o ∷ os) s.1 t a)
  where
    Seen : List (List ℕ) → Type 0
    Seen ns = All (λ n. seen merged n ≡ true) ns

    go :
        (b : Bool)
        → name_eq o m ≡ b
        → (Seen os → mapping_from (suc j) merged os ≡ places (suc j) merged os)
        → (Seen (o ∷ os) → mapping_from j merged (o ∷ os) ≡ places j merged (o ∷ os))
        → (if b
            then some j ∷ mapping_from (suc j) merged os
            else none ∷ mapping_from j merged (o ∷ os))
          ≡ (if b then some j else place_from (suc j) m os) ∷ places j merged (o ∷ os)
    go true e f g =
        let same = name_eq-eq o m e in
        ap (λ l. some j ∷ l)
          (f (
              seen-behind m merged os
                (All-map_of os (λ n l. before-differs m n (subst (λ x. before x n ≡ true) same l))
                  t.0)
                h.1)
            ∙ places-next j merged o os (
                All-map_of merged
                  (λ n l. before-differs o n (subst (λ x. before x n ≡ true) (sym same) l)) s.0))
    go false e f g =
        let other = name_eq_flip o m e in
        let later =
          seen-All (λ n. before m n ≡ true) merged o s.0
            (sym (ap (λ b. b || seen merged o) other) ∙ h.0) in
        let all = All-map_of os (λ n l. before_trans m o n later l) t.0 in
        ap (λ l. none ∷ l)
          (g (
            seen-behind m merged (o ∷ os) (other, All-map_of os (λ n l. before-differs m n l) all)
              h))
        ∙ ap (λ p. p ∷ places j merged (o ∷ os))
            (sym (place-none (suc j) m os (All-map_of os (λ n l. after-differs m n l) all)))

has_label-Elem :
    (k : List ℕ) (sets : List Columns) (set : Columns) (n : List ℕ)
    → Elem set sets
    → seen (or_nil (lookup k set)) n ≡ true
    → has_label k sets n ≡ true
has_label-Elem k [] set n e h = elim e [ ]
has_label-Elem k (s ∷ sets) set n (inl e) h =
    ap (λ c. c || has_label k sets n)
      (ap (λ (x : Columns). seen (or_nil (lookup k x)) n) (sym e) ∙ h)
has_label-Elem k (s ∷ sets) set n (inr e) h =
    ap (λ c. seen (or_nil (lookup k s)) n || c) (has_label-Elem k sets set n e h)
    ∙ or_true (seen (or_nil (lookup k s)) n)
  where
    or_true : (b : Bool) → (b || true) ≡ true
    or_true true = refl
    or_true false = refl

All-seen :
    (xs ys : List (List ℕ))
    → ((n : List ℕ) → seen xs n ≡ true → seen ys n ≡ true)
    → All (λ n. seen ys n ≡ true) xs
All-seen [] ys f = tt
All-seen (x ∷ xs) ys f = (
  f x (ap (λ c. c || seen xs x) (name_same x)),
  All-seen xs ys (λ n h. f n (behind (name_eq x n) (seen xs n) h)),
)
  where
    behind : (a b : Bool) → b ≡ true → (a || b) ≡ true
    behind true b h = refl
    behind false b h = h

-- Conditions: the sets are maps, and the labels of one of them at a name are sorted, each once. Its
-- labels map to exactly their places in the merged labels at the name: each merged label to the place
-- of the same label of the set, or to none if the set does not have it.
pub map_merged-places :
    (sets : List Columns) (set : Columns) (k : List ℕ)
    → AreMaps sets
    → Elem set sets
    → AreSorted (or_nil (lookup k set))
    → map_merged_column_name_indexes
        (or_nil (lookup k (merge_dynamic_column_sets sets)))
        (or_nil (lookup k set))
      ≡ places 0 (or_nil (lookup k (merge_dynamic_column_sets sets))) (or_nil (lookup k set))
unfolding map_merged_column_name_indexes
map_merged-places sets set k d e s =
    let at = merge_dynamic_column_sets-IsMergedAt sets k d in
    let merged = or_nil (lookup k (merge_dynamic_column_sets sets)) in
    let labels = or_nil (lookup k set) in
    mapping-places 0 merged labels at.1 s
      (All-seen labels merged (λ n h. at.2 n ∙ has_label-Elem k sets set n e h))
