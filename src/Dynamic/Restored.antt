-- ===== src/Dynamic/Restored.antt =====
-- The map that is read is the map that was written.
use frostdb.Base.{
  ℕ, Bool, true, false, ◌||◌, none, some, List, [], ◌∷◌, length, All, All-map_of, if◌then◌else◌,
  ◌≡◌, refl, ap, ◌∙◌, arith,
}
use frostdb.Filter.{name_eq, name_eq-eq}
use frostdb.Dynamic.{
  finished, Columns, lookup, or_nil, put, keys, sort_strings, joined, entries,
  serialize_dynamic_columns, deserialize_dynamic_columns, seen,
}
use frostdb.Dynamic.Lookup.{lookup-put, seen-sort, All-sort}
use frostdb.Dynamic.RoundTrip.{IsName, AreLabels, AreWritable, CanWrite, put_each, columns_joined}

lookup-put_each :
    (w : Columns) (names : List (List ℕ)) (m : Columns) (k : List ℕ)
    → lookup k (put_each w names m)
      ≡ (if seen names k then some (or_nil (lookup k w)) else lookup k m)
lookup-put_each w [] m k = refl
lookup-put_each w (name ∷ names) m k =
    lookup-put_each w names (put name (or_nil (lookup name w)) m) k
    ∙ ap (λ x. if seen names k then some (or_nil (lookup k w)) else x)
        (lookup-put k name (or_nil (lookup name w)) m)
    ∙ go (seen names k) (name_eq name k) refl
  where
    go :
        (c b : Bool)
        → name_eq name k ≡ b
        → (if c
            then some (or_nil (lookup k w))
            else if b
            then some (or_nil (lookup name w))
            else lookup k m)
          ≡ (if b || c then some (or_nil (lookup k w)) else lookup k m)
    go true true h = refl
    go true false h = refl
    go false true h = ap (λ n. some (or_nil (lookup n w))) (name_eq-eq name k h)
    go false false h = refl

-- What is looked up of the keys of a map is what the map has.
lookup-keys :
    (w : Columns) (k : List ℕ)
    → (if seen (keys w) k then some (or_nil (lookup k w)) else none) ≡ lookup k w
lookup-keys [] k = refl
lookup-keys ((n, v) ∷ w) k = go (name_eq n k) (lookup-keys w k)
  where
    go :
        (b : Bool)
        → (if seen (keys w) k then some (or_nil (lookup k w)) else none) ≡ lookup k w
        → (if b || seen (keys w) k then some (or_nil (if b then some v else lookup k w)) else none)
          ≡ (if b then some v else lookup k w)
    go true h = refl
    go false h = h

lookup-AreLabels : (w : Columns) (k : List ℕ) → AreWritable w → AreLabels (or_nil (lookup k w))
lookup-AreLabels [] k h = (tt, tt)
lookup-AreLabels ((n, v) ∷ w) k h = go (name_eq n k) (lookup-AreLabels w k h.1)
  where
    go :
        (b : Bool)
        → AreLabels (or_nil (lookup k w))
        → AreLabels (or_nil (if b then some v else lookup k w))
    go true r = h.0.1
    go false r = r

keys-IsName : (w : Columns) → AreWritable w → All IsName (keys w)
keys-IsName [] h = tt
keys-IsName ((n, v) ∷ w) h = (h.0.0, keys-IsName w h.1)

-- Conditions: no name has a colon or a semicolon, no label has a comma or a semicolon, and the last of
-- the labels of a name is not empty. What serializeDynamicColumns writes of a map is read by
-- deserializeDynamicColumns without an error, as a map with the same labels at each name and with no
-- other names.
pub deserialize-serialize :
    (m : Columns)
    → AreWritable m
    → (d : Columns) × (deserialize_dynamic_columns (serialize_dynamic_columns m) ≡ finished d)
      × ((k : List ℕ) → lookup k d ≡ lookup k m)
unfolding deserialize_dynamic_columns serialize_dynamic_columns
deserialize-serialize m h =
    let names = sort_strings (keys m) in
    let can =
      All-sort (CanWrite m) (keys m)
        (All-map_of (keys m) (λ n i. (i, lookup-AreLabels m n h)) (keys-IsName m h)) in
    (
      put_each m names [],
      columns_joined (length (joined b';' (entries m names))) m names [] can (omega arith),
      λ k.
          lookup-put_each m names [] k
          ∙ ap (λ c. if c then some (or_nil (lookup k m)) else none) (seen-sort (keys m) k)
          ∙ lookup-keys m k,
    )
