-- ===== src/Dynamic/Rounds.antt =====
-- The loops of deserializeDynamicColumns end within the rounds that they are given.
use frostdb.Base.{
  ℕ, zero, suc, ◌≤◌, ◌<◌, Bool, true, false, List, [], ◌∷◌, length, ◌==◌, if◌then◌else◌, arith,
}
use frostdb.Dynamic.{
  Columns, put, cut, labels_from, Read, finished, malformed, unfinished, and_label, with_values,
  columns_from, deserialize_dynamic_columns,
}

abbrev rest_of : List ℕ × List ℕ × Bool → List ℕ
rest_of t = t.1

cut-length : (sep : ℕ) (s : List ℕ) → length (cut sep s).1 ≤ length s
cut-length sep [] = omega arith
cut-length sep (c ∷ s) = go (c == sep) (cut-length sep s)
  where
    go :
        (b : Bool)
        → length (cut sep s).1 ≤ length s
        → length (
            rest_of
              (if b then ([], s, true) else (c ∷ (cut sep s).0, (cut sep s).1, (cut sep s).2)))
          ≤ suc (length s)
    go true h = omega arith
    go false h = omega (arith, h)

-- Something is cut off a text that is not empty.
cut-shorter : (sep c : ℕ) (s : List ℕ) → length (cut sep (c ∷ s)).1 ≤ length s
cut-shorter sep c s = go (c == sep) (cut-length sep s)
  where
    go :
        (b : Bool)
        → length (cut sep s).1 ≤ length s
        → length (
            rest_of
              (if b then ([], s, true) else (c ∷ (cut sep s).0, (cut sep s).1, (cut sep s).2)))
          ≤ length s
    go true h = omega arith
    go false h = h

-- The loops have ended.
abbrev pub IsRead : {A : Type 0} → Read A → Type 0
IsRead (finished a) = Unit
IsRead malformed = Unit
IsRead unfinished = ⊥

abbrev IsFinished : {A : Type 0} → Read A → Type 0
IsFinished (finished a) = Unit
IsFinished malformed = ⊥
IsFinished unfinished = ⊥

labels_from-IsFinished : (n : ℕ) (s : List ℕ) → length s < n → IsFinished (labels_from n s)
labels_from-IsFinished zero s h = absurd (omega arith)
labels_from-IsFinished (suc n) [] h = tt
labels_from-IsFinished (suc n) (c ∷ s) h =
    go (labels_from n (cut b',' (c ∷ s)).1)
      (labels_from-IsFinished n (cut b',' (c ∷ s)).1 (omega (arith, h, cut-shorter b',' c s)))
  where
    go : (r : Read (List (List ℕ))) → IsFinished r → IsFinished (and_label (cut b',' (c ∷ s)).0 r)
    go (finished values) k = tt
    go malformed k = k
    go unfinished k = k

columns_from-IsRead :
    (n : ℕ) (s : List ℕ) (m : Columns) → length s < n → IsRead (columns_from n s m)
columns_from-IsRead zero s m h = absurd (omega arith)
columns_from-IsRead (suc n) [] m h = tt
columns_from-IsRead (suc n) (c ∷ s) m h =
    let (column, rest, found) = cut b';' (c ∷ s) in
    let (name, labels, ok) = cut b':' column in
    go ok (labels_from (suc (length labels)) labels)
      (λ values. columns_from n rest (put name values m))
      (labels_from-IsFinished (suc (length labels)) labels (omega arith))
      (λ values.
        columns_from-IsRead n rest (put name values m) (omega (arith, h, cut-shorter b';' c s)))
  where
    go :
        (b : Bool) (r : Read (List (List ℕ))) (f : List (List ℕ) → Read Columns)
        → IsFinished r
        → ((values : List (List ℕ)) → IsRead (f values))
        → IsRead (if b then with_values r f else malformed)
    go true (finished values) f k g = g values
    go true malformed f k g = absurd k
    go true unfinished f k g = absurd k
    go false r f k g = tt

-- On any text, well-formed or not, both loops of deserializeDynamicColumns end within a round for each
-- byte and one more: it returns a map or `ErrMalformedDynamicColumns`.
pub deserialize-IsRead : (s : List ℕ) → IsRead (deserialize_dynamic_columns s)
unfolding deserialize_dynamic_columns
deserialize-IsRead s = columns_from-IsRead (suc (length s)) s [] (omega arith)
