-- ===== src/Dynamic.antt =====
-- dynparquet/dynamiccolumns.go, and of dynparquet/schema.go how sets of dynamic columns are merged and
-- how the columns of a row group map to those of a merged schema.
pub mod Lookup
pub mod RoundTrip
pub mod Restored
pub mod Sorted
pub mod Merged
pub mod Mapping
pub mod Rounds
mod Tests
use frostdb.Base.{
  ℕ, zero, suc, Bool, true, false, ◌&&◌, ◌||◌, Option, none, some, List, [], ◌∷◌, ◌++◌, length, ltb,
  ◌==◌, if◌then◌else◌,
}
use frostdb.Filter.{name_eq}

-- A `map[string][]string`: its keys with their values, the first entry of a key standing for it.
abbrev pub Columns : Type 0
Columns = List (List ℕ × List (List ℕ))

abbrev pub lookup : {A : Type 0} → List ℕ → List (List ℕ × A) → Option A
lookup k [] = none
lookup k ((n, v) ∷ m) = if name_eq n k then some v else lookup k m

abbrev pub or_nil : Option (List (List ℕ)) → List (List ℕ)
or_nil none = []
or_nil (some v) = v

abbrev pub put : {A : Type 0} → List ℕ → A → List (List ℕ × A) → List (List ℕ × A)
put k v [] = (k, v) ∷ []
put k v ((n, w) ∷ m) = let rest = put k v m in if name_eq n k then (k, v) ∷ m else (n, w) ∷ rest

abbrev pub keys : {A : Type 0} → List (List ℕ × A) → List (List ℕ)
keys [] = []
keys ((n, v) ∷ m) = n ∷ keys m

-- `<` of strings, and `sort.Strings`.
abbrev pub before : List ℕ → List ℕ → Bool
before [] [] = false
before [] (b ∷ bs) = true
before (a ∷ as') [] = false
before (a ∷ as') (b ∷ bs) = ltb a b || (a == b && before as' bs)

abbrev pub insert_string : List ℕ → List (List ℕ) → List (List ℕ)
insert_string s [] = s ∷ []
insert_string s (x ∷ xs) =
    let rest = insert_string s xs in if before x s then x ∷ rest else s ∷ x ∷ xs

unfoldable pub sort_strings : List (List ℕ) → List (List ℕ)
sort_strings [] = []
sort_strings (x ∷ xs) = insert_string x (sort_strings xs)

-- The strings with the separator between them, as the loops write them.
abbrev pub preceded : ℕ → List (List ℕ) → List ℕ
preceded sep [] = []
preceded sep (x ∷ xs) = sep ∷ (x ++ preceded sep xs)

abbrev pub joined : ℕ → List (List ℕ) → List ℕ
joined sep [] = []
joined sep (x ∷ xs) = x ++ preceded sep xs

abbrev pub entry : Columns → List ℕ → List ℕ
entry m name = name ++ b':' ∷ joined b',' (or_nil (lookup name m))

abbrev pub entries : Columns → List (List ℕ) → List (List ℕ)
entries m [] = []
entries m (name ∷ names) = entry m name ∷ entries m names

-- `serializeDynamicColumns`
unfoldable pub serialize_dynamic_columns : Columns → List ℕ
unfolding sort_strings
serialize_dynamic_columns m = joined b';' (entries m (sort_strings (keys m)))

-- `strings.Cut` with a separator of one byte.
abbrev pub cut : ℕ → List ℕ → List ℕ × List ℕ × Bool
cut sep [] = ([], [], false)
cut sep (c ∷ cs) =
    let (piece, rest, found) = cut sep cs in
    if c == sep then ([], cs, true) else (c ∷ piece, rest, found)

-- What deserializeDynamicColumns returns: the map or `ErrMalformedDynamicColumns`; or its loops have not
-- come to an end within their rounds.
pub data Read (A : Type 0) : Type 0 where
  finished : A → Read A
  malformed unfinished : Read A

abbrev pub and_label : List ℕ → Read (List (List ℕ)) → Read (List (List ℕ))
and_label label (finished values) = finished (label ∷ values)
and_label label malformed = malformed
and_label label unfinished = unfinished

-- The loops, with a number of rounds.
abbrev pub labels_from : ℕ → List ℕ → Read (List (List ℕ))
labels_from zero labels = unfinished
labels_from (suc n) [] = finished []
labels_from (suc n) (c ∷ cs) =
    let (label, rest, found) = cut b',' (c ∷ cs) in and_label label (labels_from n rest)

abbrev pub with_values : Read (List (List ℕ)) → (List (List ℕ) → Read Columns) → Read Columns
with_values (finished values) f = f values
with_values malformed f = malformed
with_values unfinished f = unfinished

abbrev pub columns_from : ℕ → List ℕ → Columns → Read Columns
columns_from zero columns m = unfinished
columns_from (suc n) [] m = finished m
columns_from (suc n) (c ∷ cs) m =
    let (column, rest, found) = cut b';' (c ∷ cs) in
    let (name, labels, ok) = cut b':' column in
    let more =
      with_values (labels_from (suc (length labels)) labels)
        (λ values. columns_from n rest (put name values m)) in
    if ok then more else malformed

-- `deserializeDynamicColumns`, with a round more than the text has bytes.
unfoldable pub deserialize_dynamic_columns : List ℕ → Read Columns
deserialize_dynamic_columns columns = columns_from (suc (length columns)) columns []

-- `mergeStrings` with `MergeDeduplicatedDynCols`. What was seen is what the result has so far.
abbrev pub seen : List (List ℕ) → List ℕ → Bool
seen [] n = false
seen (x ∷ xs) n = name_eq x n || seen xs n

abbrev pub note_strings : List (List ℕ) → List (List ℕ) → List (List ℕ)
note_strings [] result = result
note_strings (n ∷ ns) result = note_strings ns (if seen result n then result else result ++ n ∷ [])

abbrev pub note_all : List (List (List ℕ)) → List (List ℕ) → List (List ℕ)
note_all [] result = result
note_all (s ∷ str) result = note_all str (note_strings s result)

unfoldable pub merge_strings : List (List (List ℕ)) → List (List ℕ)
unfolding sort_strings
merge_strings str = sort_strings (note_all str [])

-- `MergeDynamicColumnSets`
abbrev pub collected : Option (List (List (List ℕ))) → List (List (List ℕ))
collected none = []
collected (some vs) = vs

abbrev pub collect_set :
    Columns → List (List ℕ × List (List (List ℕ))) → List (List ℕ × List (List (List ℕ)))
collect_set [] all = all
collect_set ((k, v) ∷ set) all = collect_set set (put k (collected (lookup k all) ++ v ∷ []) all)

abbrev pub collect_sets :
    List Columns → List (List ℕ × List (List (List ℕ))) → List (List ℕ × List (List (List ℕ)))
collect_sets [] all = all
collect_sets (set ∷ sets) all = collect_sets sets (collect_set set all)

abbrev pub merge_each : List (List ℕ × List (List (List ℕ))) → Columns
merge_each [] = []
merge_each ((name, dyn) ∷ all) = (name, merge_strings dyn) ∷ merge_each all

unfoldable pub merge_dynamic_column_sets : List Columns → Columns
unfolding merge_strings
merge_dynamic_column_sets sets = merge_each (collect_sets sets [])

-- `mapMergedColumnNameIndexes`, with none for -1: from the `j`th of the original columns on.
abbrev pub mapping_from : ℕ → List (List ℕ) → List (List ℕ) → List (Option ℕ)
mapping_from j [] original = []
mapping_from j (col ∷ merged) [] = none ∷ mapping_from j merged []
mapping_from j (col ∷ merged) (o ∷ original) =
    let next = mapping_from (suc j) merged original in
    let same = mapping_from j merged (o ∷ original) in
    if name_eq o col then some j ∷ next else none ∷ same

unfoldable pub map_merged_column_name_indexes : List (List ℕ) → List (List ℕ) → List (Option ℕ)
map_merged_column_name_indexes merged original = mapping_from 0 merged original
