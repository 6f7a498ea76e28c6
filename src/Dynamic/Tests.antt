-- ===== src/Dynamic/Tests.antt =====
-- Concrete sets of dynamic columns.
use frostdb.Base.{ℕ, none, some, List, [], ◌∷◌, ◌≡◌, refl, arith, inl, inr}
use frostdb.Dynamic.{
  Columns, lookup, or_nil, finished, malformed, serialize_dynamic_columns,
  deserialize_dynamic_columns, merge_dynamic_column_sets, map_merged_column_name_indexes,
}
use frostdb.Dynamic.Restored.{deserialize-serialize}
use frostdb.Dynamic.Merged.{IsMergedAt, merge_dynamic_column_sets-IsMergedAt}
use frostdb.Dynamic.Mapping.{places, map_merged-places}
use frostdb.Dynamic.Rounds.{IsRead, deserialize-IsRead}

abbrev labels : List ℕ
labels = b'l' ∷ []

abbrev x : List ℕ
x = b'x' ∷ []

abbrev y : List ℕ
y = b'y' ∷ b'y' ∷ []

abbrev z : List ℕ
z = b'z' ∷ []

abbrev columns : Columns
columns = (z, []) ∷ (labels, x ∷ y ∷ []) ∷ []

-- `l:x,yy;z:`
written :
    serialize_dynamic_columns columns
    ≡ b'l' ∷ b':' ∷ b'x' ∷ b',' ∷ b'y' ∷ b'y' ∷ b';' ∷ b'z' ∷ b':' ∷ []
unfolding serialize_dynamic_columns
written = refl

read_back :
    deserialize_dynamic_columns (serialize_dynamic_columns columns)
    ≡ finished ((labels, x ∷ y ∷ []) ∷ (z, []) ∷ [])
unfolding serialize_dynamic_columns deserialize_dynamic_columns
read_back = refl

-- The label `;` makes what is written malformed.
separator_malformed :
    deserialize_dynamic_columns (serialize_dynamic_columns ((labels, (b';' ∷ b'x' ∷ []) ∷ []) ∷ []))
    ≡ malformed
unfolding serialize_dynamic_columns deserialize_dynamic_columns
separator_malformed = refl

-- A single empty label is lost.
empty_lost :
    deserialize_dynamic_columns (serialize_dynamic_columns ((labels, [] ∷ []) ∷ []))
    ≡ finished ((labels, []) ∷ [])
unfolding serialize_dynamic_columns deserialize_dynamic_columns
empty_lost = refl

mapped : map_merged_column_name_indexes (x ∷ y ∷ z ∷ []) (x ∷ z ∷ []) ≡ some 0 ∷ none ∷ some 1 ∷ []
unfolding map_merged_column_name_indexes
mapped = refl

deserialize-serialize_example :
    (d : Columns) × (deserialize_dynamic_columns (serialize_dynamic_columns columns) ≡ finished d)
    × ((k : List ℕ) → lookup k d ≡ lookup k columns)
deserialize-serialize_example = deserialize-serialize columns (
  (((refl, tt), (refl, tt)), (tt, tt)),
  (
    (
      ((refl, tt), (refl, tt)),
      ((((refl, tt), (refl, tt)), (((refl, (refl, tt)), (refl, (refl, tt))), tt)), omega arith),
    ),
    tt,
  ),
)

abbrev others : Columns
others = (labels, z ∷ []) ∷ []

merged : merge_dynamic_column_sets (columns ∷ others ∷ []) ≡ (z, []) ∷ (labels, x ∷ y ∷ z ∷ []) ∷ []
unfolding merge_dynamic_column_sets
merged = refl

merge_dynamic_column_sets-IsMergedAt_example :
    IsMergedAt labels
      (columns ∷ others ∷ [])
      (lookup labels (merge_dynamic_column_sets (columns ∷ others ∷ [])))
merge_dynamic_column_sets-IsMergedAt_example =
    merge_dynamic_column_sets-IsMergedAt (columns ∷ others ∷ []) labels
      ((refl, (refl, tt)), ((refl, tt), tt))

map_merged-places_example :
    map_merged_column_name_indexes
      (or_nil (lookup labels (merge_dynamic_column_sets (columns ∷ others ∷ []))))
      (or_nil (lookup labels others))
    ≡ places 0
        (or_nil (lookup labels (merge_dynamic_column_sets (columns ∷ others ∷ []))))
        (or_nil (lookup labels others))
map_merged-places_example =
    map_merged-places (columns ∷ others ∷ []) others labels ((refl, (refl, tt)), ((refl, tt), tt))
      (inr (inl refl)) (tt, tt)

deserialize-IsRead_example : IsRead (deserialize_dynamic_columns (b'l' ∷ b':' ∷ b'x' ∷ []))
deserialize-IsRead_example = deserialize-IsRead (b'l' ∷ b':' ∷ b'x' ∷ [])
