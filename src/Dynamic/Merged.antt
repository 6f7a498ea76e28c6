-- ===== src/Dynamic/Merged.antt =====
-- The merged sets of dynamic columns.
use mathlib.Core.Path.{subst⁻¹}
use frostdb.Base.{
  ℕ, Bool, true, false, ◌||◌, Option, none, some, List, [], ◌∷◌, ◌++◌, All, if◌then◌else◌, ◌≡◌,
  refl, sym, ap, ◌∙◌,
}
use frostdb.Filter.{name_eq, name_eq-eq}
use frostdb.Dynamic.{
  Columns, lookup, or_nil, put, keys, seen, merge_strings, collected, collect_set, collect_sets,
  merge_each, merge_dynamic_column_sets,
}
use frostdb.Dynamic.Lookup.{lookup-put}
use frostdb.Dynamic.Sorted.{
  AreSorted, AreDistinct, seen_in, merge_strings-AreSorted, merge_strings-seen, or_false,
}

abbrev pub has_entry : {A : Type 0} → Option A → Bool
has_entry none = false
has_entry (some a) = true

-- One of the sets has the name, and one has the label there.
abbrev pub has_key : List ℕ → List Columns → Bool
has_key k [] = false
has_key k (set ∷ sets) = has_entry (lookup k set) || has_key k sets

abbrev pub has_label : List ℕ → List Columns → List ℕ → Bool
has_label k [] n = false
has_label k (set ∷ sets) n = seen (or_nil (lookup k set)) n || has_label k sets n

-- A map has an entry of each of its keys.
abbrev pub AreMaps : List Columns → Type 0
AreMaps sets = All (λ (set : Columns). AreDistinct (keys set)) sets

-- What is collected of a set, and of sets, at a name.
abbrev gathered :
    Option (List (List ℕ)) → Option (List (List (List ℕ))) → Option (List (List (List ℕ)))
gathered none o = o
gathered (some v) o = some (collected o ++ v ∷ [])

abbrev gather_each :
    List ℕ → List Columns → Option (List (List (List ℕ))) → Option (List (List (List ℕ)))
gather_each k [] o = o
gather_each k (set ∷ sets) o = gather_each k sets (gathered (lookup k set) o)

abbrev merge_some : Option (List (List (List ℕ))) → Option (List (List ℕ))
merge_some none = none
merge_some (some vs) = some (merge_strings vs)

lookup-none : (k : List ℕ) (m : Columns) → seen (keys m) k ≡ false → lookup k m ≡ none
lookup-none k [] h = refl
lookup-none k ((n, v) ∷ m) h = go (name_eq n k) h (lookup-none k m)
  where
    go :
        (b : Bool)
        → (b || seen (keys m) k) ≡ false
        → (seen (keys m) k ≡ false → lookup k m ≡ none)
        → (if b then some v else lookup k m) ≡ none
    go true h f = absurd (cc)
    go false h f = f h

lookup-collect_set :
    (set : Columns) (all : List (List ℕ × List (List (List ℕ)))) (k : List ℕ)
    → AreDistinct (keys set)
    → lookup k (collect_set set all) ≡ gathered (lookup k set) (lookup k all)
lookup-collect_set [] all k d = refl
lookup-collect_set ((n, v) ∷ set) all k d =
    lookup-collect_set set (put n (collected (lookup n all) ++ v ∷ []) all) k d.1
    ∙ ap (gathered (lookup k set)) (lookup-put k n (collected (lookup n all) ++ v ∷ []) all)
    ∙ go (name_eq n k) refl
  where
    go :
        (b : Bool)
        → name_eq n k ≡ b
        → gathered
            (lookup k set)
            (if b then some (collected (lookup n all) ++ v ∷ []) else lookup k all)
          ≡ gathered (if b then some v else lookup k set) (lookup k all)
    go true e =
        let same = name_eq-eq n k e in
        ap (λ o. gathered o (some (collected (lookup n all) ++ v ∷ [])))
          (lookup-none k set (ap (seen (keys set)) (sym same) ∙ d.0))
        ∙ ap (λ m. some (collected (lookup m all) ++ v ∷ [])) same
    go false e = refl

lookup-collect_sets :
    (sets : List Columns) (all : List (List ℕ × List (List (List ℕ)))) (k : List ℕ)
    → AreMaps sets
    → lookup k (collect_sets sets all) ≡ gather_each k sets (lookup k all)
lookup-collect_sets [] all k d = refl
lookup-collect_sets (set ∷ sets) all k d =
    lookup-collect_sets sets (collect_set set all) k d.1
    ∙ ap (gather_each k sets) (lookup-collect_set set all k d.0)

lookup-merge_each :
    (all : List (List ℕ × List (List (List ℕ)))) (k : List ℕ)
    → lookup k (merge_each all) ≡ merge_some (lookup k all)
lookup-merge_each [] k = refl
lookup-merge_each ((n, vs) ∷ all) k = go (name_eq n k) (lookup-merge_each all k)
  where
    go :
        (b : Bool)
        → lookup k (merge_each all) ≡ merge_some (lookup k all)
        → (if b then some (merge_strings vs) else lookup k (merge_each all))
          ≡ merge_some (if b then some vs else lookup k all)
    go true h = refl
    go false h = h

lookup-merge_sets :
    (sets : List Columns) (k : List ℕ)
    → AreMaps sets
    → lookup k (merge_dynamic_column_sets sets) ≡ merge_some (gather_each k sets none)
unfolding merge_dynamic_column_sets
lookup-merge_sets sets k d =
    lookup-merge_each (collect_sets sets []) k ∙ ap merge_some (lookup-collect_sets sets [] k d)

or_assoc : (a b c : Bool) → ((a || b) || c) ≡ (a || (b || c))
or_assoc true b c = refl
or_assoc false b c = refl

gather-entry :
    (k : List ℕ) (sets : List Columns) (o : Option (List (List (List ℕ))))
    → has_entry (gather_each k sets o) ≡ (has_entry o || has_key k sets)
gather-entry k [] o = sym (or_false (has_entry o))
gather-entry k (set ∷ sets) o =
    gather-entry k sets (gathered (lookup k set) o)
    ∙ ap (λ c. c || has_key k sets) (one (lookup k set) o)
    ∙ or_assoc (has_entry o) (has_entry (lookup k set)) (has_key k sets)
  where
    one :
        (v : Option (List (List ℕ))) (o : Option (List (List (List ℕ))))
        → has_entry (gathered v o) ≡ (has_entry o || has_entry v)
    one none o = sym (or_false (has_entry o))
    one (some v) none = refl
    one (some v) (some vs) = refl

seen_in-append :
    (xs : List (List (List ℕ))) (v : List (List ℕ)) (n : List ℕ)
    → seen_in (xs ++ v ∷ []) n ≡ (seen_in xs n || seen v n)
seen_in-append [] v n = or_false (seen v n)
seen_in-append (x ∷ xs) v n =
    ap (λ c. seen x n || c) (seen_in-append xs v n)
    ∙ sym (or_assoc (seen x n) (seen_in xs n) (seen v n))

gather-seen :
    (k : List ℕ) (sets : List Columns) (o : Option (List (List (List ℕ)))) (n : List ℕ)
    → seen_in (collected (gather_each k sets o)) n ≡ (seen_in (collected o) n || has_label k sets n)
gather-seen k [] o n = sym (or_false (seen_in (collected o) n))
gather-seen k (set ∷ sets) o n =
    gather-seen k sets (gathered (lookup k set) o) n
    ∙ ap (λ c. c || has_label k sets n) (one (lookup k set) o)
    ∙ or_assoc (seen_in (collected o) n) (seen (or_nil (lookup k set)) n) (has_label k sets n)
  where
    one :
        (v : Option (List (List ℕ))) (o : Option (List (List (List ℕ))))
        → seen_in (collected (gathered v o)) n ≡ (seen_in (collected o) n || seen (or_nil v) n)
    one none o = sym (or_false (seen_in (collected o) n))
    one (some v) o = seen_in-append (collected o) v n

some-entry : (o : Option (List (List (List ℕ)))) → has_entry (merge_some o) ≡ has_entry o
some-entry none = refl
some-entry (some vs) = refl

some-AreSorted : (o : Option (List (List (List ℕ)))) → AreSorted (or_nil (merge_some o))
some-AreSorted none = tt
some-AreSorted (some vs) = merge_strings-AreSorted vs

some-seen :
    (o : Option (List (List (List ℕ)))) (n : List ℕ)
    → seen (or_nil (merge_some o)) n ≡ seen_in (collected o) n
some-seen none n = refl
some-seen (some vs) n = merge_strings-seen vs n

-- What a map of merged columns has at a name.
abbrev pub IsMergedAt : List ℕ → List Columns → Option (List (List ℕ)) → Type 0
IsMergedAt k sets o =
    (has_entry o ≡ has_key k sets)
    × AreSorted (or_nil o)
    × ((n : List ℕ) → seen (or_nil o) n ≡ has_label k sets n)

-- Condition: the sets are maps. The merged set has an entry at exactly the names at which one of the
-- sets has one, and there the labels of all sets, sorted and each once.
pub merge_dynamic_column_sets-IsMergedAt :
    (sets : List Columns) (k : List ℕ)
    → AreMaps sets
    → IsMergedAt k sets (lookup k (merge_dynamic_column_sets sets))
merge_dynamic_column_sets-IsMergedAt sets k d =
    subst⁻¹ (IsMergedAt k sets) (lookup-merge_sets sets k d) (
      some-entry (gather_each k sets none) ∙ gather-entry k sets none,
      some-AreSorted (gather_each k sets none),
      λ n. some-seen (gather_each k sets none) n ∙ gather-seen k sets none n,
    )
