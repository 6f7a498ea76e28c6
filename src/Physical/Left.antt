-- ===== src/Physical/Left.antt =====
-- The record that a PredicateFilter hands on has the rows that its expression says to keep.
use mathlib.Core.Path.{subst, subst⁻¹}
use frostdb.Base.{
  ok-injective, ℕ, ◌+◌, ◌<◌, ◌^◌, Bool, false, Option, none, some, List, [], ◌∷◌, length, All,
  All-map_of, Result, ok, err, ◌>>=◌, ◌≡◌, refl, sym, ap, ◌∙◌, arith,
}
use frostdb.Base.Order.{IsIncreasing}
use frostdb.Physical.Bitmaps.{Bitmaps}
use frostdb.Physical.Predicates.{
  Array, boolean_array, fixed_size_binary_array, string_array, binary_array, int64_array,
  dictionary_array, list_array, other_array, Record, Failure, BooleanExpression,
}
use frostdb.Physical.Evaluate.{
  Patterns, eval_rows, IndexRange, build_index_ranges, concatenate, concatenate_array, each_column,
  total_rows, take_rows, filter_record,
}
use frostdb.Physical.Ranges.{kept, kept_cong, has, build_index_ranges-kept}
use frostdb.Physical.Cells.{array_length}
use frostdb.Physical.Kept.{expression_says, IsRecord}
use frostdb.Physical.Filtered.{eval_rows-Says}
use frostdb.Physical.Indices.{
  total-build, length-below, length-kept, Elem-has, has-Elem, same_truth, All-has,
}

-- The rows of an array, and of each column of a record, that pass.
abbrev pub kept_array : (ℕ → Bool) → Array → Array
kept_array f (boolean_array xs) = boolean_array (kept f 0 xs)
kept_array f (fixed_size_binary_array xs) = fixed_size_binary_array (kept f 0 xs)
kept_array f (string_array xs) = string_array (kept f 0 xs)
kept_array f (binary_array xs) = binary_array (kept f 0 xs)
kept_array f (int64_array xs) = int64_array (kept f 0 xs)
kept_array f (dictionary_array d xs) = dictionary_array d (kept f 0 xs)
kept_array f (list_array xs) = list_array (kept f 0 xs)
kept_array f (other_array xs) = other_array (kept f 0 xs)

abbrev pub kept_columns : (ℕ → Bool) → List (List ℕ × Array) → List (List ℕ × Array)
kept_columns f [] = []
kept_columns f ((n, a) ∷ cols) = (n, kept_array f a) ∷ kept_columns f cols

-- What is left of a record: none if no row passes.
abbrev pub IsLeft : (ℕ → Bool) → Record → Option Record → Type 0
IsLeft f r none = (j : ℕ) → f j ≡ false
IsLeft f r (some s) = (s.columns ≡ kept_columns f r.columns) × IsRecord s

array-kept :
    (f : ℕ → Bool) (rs : List IndexRange) (a : Array)
    → ((A : Type 0) (xs : List A) → concatenate rs xs ≡ kept f 0 xs)
    → concatenate_array rs a ≡ kept_array f a
unfolding concatenate
array-kept f rs (boolean_array xs) h = ap boolean_array (h _ xs)
array-kept f rs (fixed_size_binary_array xs) h = ap fixed_size_binary_array (h _ xs)
array-kept f rs (string_array xs) h = ap string_array (h _ xs)
array-kept f rs (binary_array xs) h = ap binary_array (h _ xs)
array-kept f rs (int64_array xs) h = ap int64_array (h _ xs)
array-kept f rs (dictionary_array d xs) h = ap (dictionary_array d) (h _ xs)
array-kept f rs (list_array xs) h = ap list_array (h _ xs)
array-kept f rs (other_array xs) h = ap other_array (h _ xs)

columns-kept :
    (f : ℕ → Bool) (rs : List IndexRange) (cols : List (List ℕ × Array))
    → ((A : Type 0) (xs : List A) → concatenate rs xs ≡ kept f 0 xs)
    → each_column rs cols ≡ kept_columns f cols
unfolding concatenate
columns-kept f rs [] h = refl
columns-kept f rs ((n, a) ∷ cols) h =
    ap (λ b. (n, b) ∷ each_column rs cols) (array-kept f rs a h)
    ∙ ap (λ l. (n, kept_array f a) ∷ l) (columns-kept f rs cols h)

length-has :
    {A : Type 0} (is : List ℕ) (xs : List A)
    → All (λ i. i < length xs) is
    → IsIncreasing is
    → length (kept (has is) 0 xs) ≡ length is
length-has is xs b i =
    length-kept is 0 xs (All-map_of is (λ j l. omega arith) b)
      (All-map_of is (λ j l. omega (arith, l)) b) i

kept_array-length :
    (is : List ℕ) (a : Array)
    → All (λ i. i < array_length a) is
    → IsIncreasing is
    → array_length (kept_array (has is) a) ≡ length is
kept_array-length is (boolean_array xs) b i = length-has is xs b i
kept_array-length is (fixed_size_binary_array xs) b i = length-has is xs b i
kept_array-length is (string_array xs) b i = length-has is xs b i
kept_array-length is (binary_array xs) b i = length-has is xs b i
kept_array-length is (int64_array xs) b i = length-has is xs b i
kept_array-length is (dictionary_array d xs) b i = length-has is xs b i
kept_array-length is (list_array xs) b i = length-has is xs b i
kept_array-length is (other_array xs) b i = length-has is xs b i

kept_columns-length :
    (is : List ℕ) (n : ℕ) (cols : List (List ℕ × Array))
    → All (λ i. i < n) is
    → IsIncreasing is
    → All (λ (c : List ℕ × Array). array_length c.1 ≡ n) cols
    → All (λ (c : List ℕ × Array). array_length c.1 ≡ length is) (kept_columns (has is) cols)
kept_columns-length is n [] b i h = tt
kept_columns-length is n ((m, a) ∷ cols) b i h = (
  kept_array-length is a (All-map_of is (λ j l. omega (arith, l, h.0)) b) i,
  kept_columns-length is n cols b i h.1,
)

kept_array_cong :
    (f g : ℕ → Bool) (a : Array) → ((j : ℕ) → f j ≡ g j) → kept_array f a ≡ kept_array g a
kept_array_cong f g (boolean_array xs) h = ap boolean_array (kept_cong f g 0 xs (λ j l. h j))
kept_array_cong f g (fixed_size_binary_array xs) h =
    ap fixed_size_binary_array (kept_cong f g 0 xs (λ j l. h j))
kept_array_cong f g (string_array xs) h = ap string_array (kept_cong f g 0 xs (λ j l. h j))
kept_array_cong f g (binary_array xs) h = ap binary_array (kept_cong f g 0 xs (λ j l. h j))
kept_array_cong f g (int64_array xs) h = ap int64_array (kept_cong f g 0 xs (λ j l. h j))
kept_array_cong f g (dictionary_array d xs) h =
    ap (dictionary_array d) (kept_cong f g 0 xs (λ j l. h j))
kept_array_cong f g (list_array xs) h = ap list_array (kept_cong f g 0 xs (λ j l. h j))
kept_array_cong f g (other_array xs) h = ap other_array (kept_cong f g 0 xs (λ j l. h j))

kept_columns_cong :
    (f g : ℕ → Bool) (cols : List (List ℕ × Array))
    → ((j : ℕ) → f j ≡ g j)
    → kept_columns f cols ≡ kept_columns g cols
kept_columns_cong f g [] h = refl
kept_columns_cong f g ((n, a) ∷ cols) h =
    ap (λ b. (n, b) ∷ kept_columns f cols) (kept_array_cong f g a h)
    ∙ ap (λ l. (n, kept_array g a) ∷ l) (kept_columns_cong f g cols h)

-- The rows at increasing indices, where `f` says to keep these.
take-IsLeft :
    (is : List ℕ) (f : ℕ → Bool) (r : Record)
    → IsRecord r
    → All (λ i. i < r.num_rows) is
    → IsIncreasing is
    → ((j : ℕ) → has is j ≡ f j)
    → IsLeft f r (take_rows is r)
unfolding build_index_ranges concatenate
take-IsLeft [] f r h b i e = λ j. sym (e j)
take-IsLeft (m ∷ is) f r h b i e =
    let left =
      columns-kept (has (m ∷ is)) (build_index_ranges (m ∷ is)) r.columns
        (λ A xs. build_index_ranges-kept (m ∷ is) xs small i) in
    let total = total-build m is small in
    (
      left ∙ kept_columns_cong (has (m ∷ is)) f r.columns e,
      (
        subst⁻¹ Lengths left (
            All-map_of (kept_columns (has (m ∷ is)) r.columns) (λ c l. l ∙ sym total)
              (kept_columns-length (m ∷ is) r.num_rows r.columns b i h.0)),
        omega (
          arith,
          total,
          length-below (m ∷ is) 0 r.num_rows (omega arith)
              (All-map_of (m ∷ is) (λ j l. omega arith) b) b i,
          h.1,
        ),
      ),
    )
  where
    Lengths : List (List ℕ × Array) → Type 0
    Lengths =
        All (λ (c : List ℕ × Array). array_length c.1 ≡ total_rows (build_index_ranges (m ∷ is)))

    small : All (λ i. i + 1 < 2 ^ 32) (m ∷ is)
    small = All-map_of (m ∷ is) (λ j l. omega (arith, l, h.1)) b

module _ {B M : Type 0} (bits : Bitmaps B) (patterns : Patterns M) where
  -- The array of a bitmap has the rows that the bitmap has.
  has-contains : (b : B) (j : ℕ) → has (bits.to_array b) j ≡ bits.contains b j
  has-contains b j =
      same_truth (has (bits.to_array b) j) (bits.contains b j)
        (λ h. (bits.array-Elem b j).0 (has-Elem j (bits.to_array b) h))
        (λ h. Elem-has j (bits.to_array b) ((bits.array-Elem b j).1 h))

  -- Where a filter has a result, the record that it hands on has the rows of which the expression of
  -- the filter says so, in their order, with the columns as they are; there is none if there are no
  -- such rows.
  pub result-IsLeft :
      (e : BooleanExpression M) (r : Record) (o : Option Record)
      → IsRecord r
      → filter_record bits patterns e r ≡ ok o
      → IsLeft (expression_says patterns e r) r o
  unfolding filter_record
  result-IsLeft e r o h q = go (eval_rows bits patterns e r) refl q
    where
      go :
          (x : Result Failure B)
          → eval_rows bits patterns e r ≡ x
          → (x >>= λ b. ok (take_rows (bits.to_array b) r)) ≡ ok o
          → IsLeft (expression_says patterns e r) r o
      go (ok b) p q =
          let says = eval_rows-Says bits patterns e r b h p in
          subst (λ l. IsLeft (expression_says patterns e r) r l)
            (ok-injective (take_rows (bits.to_array b) r) o q)
            (take-IsLeft (bits.to_array b) (expression_says patterns e r) r h
              (All-has (λ j. j < r.num_rows) (bits.to_array b)
                (λ j t. (says j).1 (sym (has-contains b j ∙ (says j).0) ∙ t)))
              (bits.array-IsIncreasing b) (λ j. has-contains b j ∙ (says j).0))
      go (err f) p q = absurd (cc)
