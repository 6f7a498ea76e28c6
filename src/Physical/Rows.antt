-- ===== src/Physical/Rows.antt =====
-- The bitmaps of the comparisons say of each row what the comparisons say.
use frostdb.Base.{
  ok-injective, ℕ, suc, ◌+◌, ◌<◌, ◌≤◌, ◌^◌, Bool, true, false, not, ◌&&◌, ◌||◌, Option, List, [],
  ◌∷◌, length, Result, ok, ◌==◌, if◌then◌else◌, ◌≡◌, refl, sym, ap, ◌∙◌, arith,
}
use frostdb.Base.Int.{ℤ, ltb_ℤ}
use frostdb.Filter.{name_eq}
use frostdb.Filter.Build.{Scalar, string, binary_bytes, int64, boolean, null}
use frostdb.Plan.{Op}
use frostdb.Plan.Op.{eq, not_eq, lt, lt_eq, gt, gt_eq}
use frostdb.Physical.Bitmaps.{Bitmaps}
use frostdb.Physical.Predicates.{
  Dictionary, Array, boolean_array, fixed_size_binary_array, string_array, binary_array,
  int64_array, dictionary_array, list_array, other_array, Failure, u32, int_eq, bool_eq, if_value,
  if_null_or, select_from, scalar_data, in_dictionary, is_null, dictionary_equal,
  dictionary_not_equal, boolean_operation, bytes_operation, int64_operation, dictionary_operation,
  binary_scalar_operation,
}
use frostdb.Physical.Ranges.{u32-small}
use frostdb.Physical.Cells.{
  cell_says, boolean_says, bytes_say, int64_says, dictionary_says, array_says, array_length,
  and_true, and_false, or_false, cell_says-lt, from_says, from_says-cell,
}

module _ {B : Type 0} (bits : Bitmaps B) where
  -- The bitmap says `f` of each row, and of no row behind the last.
  abbrev pub Says : B → ℕ → (ℕ → Bool) → Type 0
  Says b n f = (j : ℕ) → (bits.contains b j ≡ f j) × (f j ≡ true → j < n)

  shuffle : (p q r : Bool) → (q || (p || r)) ≡ ((p || q) || r)
  shuffle true true r = refl
  shuffle true false r = refl
  shuffle false true r = refl
  shuffle false false r = refl

  select-from_says :
      {A : Type 0} (test : Option A → Bool) (i : ℕ) (xs : List (Option A)) (b : B) (j : ℕ)
      → i + length xs ≤ 2 ^ 32
      → bits.contains (select_from bits test i xs b) j
        ≡ (from_says test i xs j || bits.contains b j)
  unfolding select_from
  select-from_says test i [] b j h = refl
  select-from_says test i (x ∷ xs) b j h =
      select-from_says test (suc i) xs (if test x then bits.add (u32 i) b else b) j
        (omega (arith, h))
      ∙ ap (λ c. from_says test (suc i) xs j || c) (added (test x))
      ∙ shuffle (i == j && test x) (from_says test (suc i) xs j) (bits.contains b j)
    where
      added :
          (t : Bool)
          → bits.contains (if t then bits.add (u32 i) b else b) j
            ≡ ((i == j && t) || bits.contains b j)
      added true =
          bits.contains-add (u32 i) j b
          ∙ ap (λ n. n == j || bits.contains b j) (u32-small i (omega (arith, h)))
          ∙ ap (λ c. c || bits.contains b j) (and_true (i == j))
      added false = ap (λ c. c || bits.contains b j) (and_false (i == j))

  -- The bitmap that a loop over an array results in.
  pub selected :
      {A : Type 0} (test : Option A → Bool) (xs : List (Option A)) (b : B)
      → length xs ≤ 2 ^ 32
      → ◌≡◌ {A = Result Failure B} (ok (select_from bits test 0 xs bits.new_bitmap)) (ok b)
      → Says b (length xs) (cell_says test xs)
  selected test xs b h e j = (
    ap (λ c. bits.contains c j)
          (sym (ok-injective (select_from bits test 0 xs bits.new_bitmap) b e))
        ∙ select-from_says test 0 xs bits.new_bitmap j (omega (arith, h))
        ∙ ap (λ c. from_says test 0 xs j || c) (bits.contains-new j)
        ∙ or_false (from_says test 0 xs j)
        ∙ from_says-cell test xs j,
    cell_says-lt test xs j,
  )

  boolean-Says :
      (xs : List (Option Bool)) (right : Scalar) (op : Op) (b : B)
      → length xs ≤ 2 ^ 32
      → boolean_operation bits xs right op ≡ ok b
      → Says b (length xs) (boolean_says xs right op)
  unfolding boolean_operation
  boolean-Says xs (boolean r) eq b h e = selected (if_value (λ v. bool_eq v r)) xs b h e
  boolean-Says xs (boolean r) not_eq b h e = selected (if_value (λ v. not (bool_eq v r))) xs b h e
  boolean-Says xs right op b h e = absurd (cc)

  bytes-Says :
      (xs : List (Option (List ℕ))) (r : List ℕ) (op : Op) (b : B)
      → length xs ≤ 2 ^ 32
      → bytes_operation bits xs r op ≡ ok b
      → Says b (length xs) (bytes_say xs r op)
  unfolding bytes_operation
  bytes-Says xs r eq b h e = selected (if_value (λ v. name_eq v r)) xs b h e
  bytes-Says xs r not_eq b h e = selected (if_null_or (λ v. not (name_eq v r))) xs b h e
  bytes-Says xs r op b h e = absurd (cc)

  int64-Says :
      (xs : List (Option ℤ)) (r : ℤ) (op : Op) (b : B)
      → length xs ≤ 2 ^ 32
      → int64_operation bits xs r op ≡ ok b
      → Says b (length xs) (int64_says xs r op)
  unfolding int64_operation
  int64-Says xs r eq b h e = selected (if_value (λ v. int_eq v r)) xs b h e
  int64-Says xs r not_eq b h e = selected (if_null_or (λ v. not (int_eq v r))) xs b h e
  int64-Says xs r lt b h e = selected (if_value (λ v. ltb_ℤ v r)) xs b h e
  int64-Says xs r lt_eq b h e = selected (if_value (λ v. not (ltb_ℤ r v))) xs b h e
  int64-Says xs r gt b h e = selected (if_value (λ v. ltb_ℤ r v)) xs b h e
  int64-Says xs r gt_eq b h e = selected (if_value (λ v. not (ltb_ℤ v r))) xs b h e
  int64-Says xs r op b h e = absurd (cc)

  dictionary-Says :
      (d : Dictionary) (xs : List (Option (List ℕ))) (right : Scalar) (op : Op) (b : B)
      → length xs ≤ 2 ^ 32
      → dictionary_operation bits d xs right op ≡ ok b
      → Says b (length xs) (dictionary_says d xs right op)
  unfolding dictionary_operation dictionary_equal dictionary_not_equal
  dictionary-Says d xs null eq b h e = selected is_null xs b h e
  dictionary-Says d xs right eq b h e =
      selected (if_value (in_dictionary d (λ v. name_eq v (scalar_data right)))) xs b h e
  dictionary-Says d xs null not_eq b h e = selected (λ x. not (is_null x)) xs b h e
  dictionary-Says d xs right not_eq b h e =
      selected (if_value (in_dictionary d (λ v. not (name_eq v (scalar_data right))))) xs b h e
  dictionary-Says d xs right op b h e = absurd (cc)

  -- The bitmap of a comparison says of each row of the array what the comparison does.
  pub array-Says :
      (a : Array) (right : Scalar) (op : Op) (b : B)
      → array_length a ≤ 2 ^ 32
      → binary_scalar_operation bits a right op ≡ ok b
      → Says b (array_length a) (array_says a right op)
  unfolding binary_scalar_operation
  array-Says (boolean_array xs) right op b h e = boolean-Says xs right op b h e
  array-Says (string_array xs) (string r) op b h e = bytes-Says xs r op b h e
  array-Says (string_array xs) right op b h e = absurd (cc)
  array-Says (binary_array xs) (string r) op b h e = bytes-Says xs r op b h e
  array-Says (binary_array xs) (binary_bytes r) op b h e = bytes-Says xs r op b h e
  array-Says (binary_array xs) right op b h e = absurd (cc)
  array-Says (int64_array xs) (int64 r) op b h e = int64-Says xs r op b h e
  array-Says (int64_array xs) right op b h e = absurd (cc)
  array-Says (dictionary_array d xs) right op b h e = dictionary-Says d xs right op b h e
  array-Says (list_array xs) right op b h e = absurd (cc)
  array-Says (fixed_size_binary_array xs) right op b h e = absurd (cc)
  array-Says (other_array xs) right op b h e = absurd (cc)
