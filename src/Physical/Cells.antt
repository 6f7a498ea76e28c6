-- ===== src/Physical/Cells.antt =====
-- What the comparisons of query/physicalplan/binaryscalarexpr.go say of one row of an array.
use frostdb.Base.{
  ℕ, zero, suc, ◌+◌, ◌<◌, Bool, true, false, not, ◌&&◌, ◌||◌, Option, List, [], ◌∷◌, length, ◌==◌,
  ◌≡◌, refl, ap, ◌∙◌, arith,
}
use frostdb.Base.Int.{ℤ, ltb_ℤ}
use frostdb.Filter.{name_eq}
use frostdb.Filter.Build.{Scalar, string, binary_bytes, int64, boolean, null}
use frostdb.Plan.{Op}
use frostdb.Plan.Op.{eq, not_eq, lt, lt_eq, gt, gt_eq}
use frostdb.Physical.Predicates.{
  Dictionary, Array, boolean_array, fixed_size_binary_array, string_array, binary_array,
  int64_array, dictionary_array, list_array, other_array, int_eq, bool_eq, if_value, if_null_or,
  scalar_data, in_dictionary, is_null,
}

-- The cell of row `j` passes; a row that there is not does not.
abbrev pub cell_says : {A : Type 0} → (Option A → Bool) → List (Option A) → ℕ → Bool
cell_says test [] j = false
cell_says test (x ∷ xs) zero = test x
cell_says test (x ∷ xs) (suc j) = cell_says test xs j

abbrev pub boolean_says : List (Option Bool) → Scalar → Op → ℕ → Bool
boolean_says xs (boolean r) eq j = cell_says (if_value (λ v. bool_eq v r)) xs j
boolean_says xs (boolean r) not_eq j = cell_says (if_value (λ v. not (bool_eq v r))) xs j
boolean_says xs right op j = false

abbrev pub bytes_say : List (Option (List ℕ)) → List ℕ → Op → ℕ → Bool
bytes_say xs r eq j = cell_says (if_value (λ v. name_eq v r)) xs j
bytes_say xs r not_eq j = cell_says (if_null_or (λ v. not (name_eq v r))) xs j
bytes_say xs r op j = false

abbrev pub int64_says : List (Option ℤ) → ℤ → Op → ℕ → Bool
int64_says xs r eq j = cell_says (if_value (λ v. int_eq v r)) xs j
int64_says xs r not_eq j = cell_says (if_null_or (λ v. not (int_eq v r))) xs j
int64_says xs r lt j = cell_says (if_value (λ v. ltb_ℤ v r)) xs j
int64_says xs r lt_eq j = cell_says (if_value (λ v. not (ltb_ℤ r v))) xs j
int64_says xs r gt j = cell_says (if_value (λ v. ltb_ℤ r v)) xs j
int64_says xs r gt_eq j = cell_says (if_value (λ v. not (ltb_ℤ v r))) xs j
int64_says xs r op j = false

abbrev pub dictionary_says : Dictionary → List (Option (List ℕ)) → Scalar → Op → ℕ → Bool
dictionary_says d xs null eq j = cell_says is_null xs j
dictionary_says d xs right eq j =
    cell_says (if_value (in_dictionary d (λ v. name_eq v (scalar_data right)))) xs j
dictionary_says d xs null not_eq j = cell_says (λ x. not (is_null x)) xs j
dictionary_says d xs right not_eq j =
    cell_says (if_value (in_dictionary d (λ v. not (name_eq v (scalar_data right))))) xs j
dictionary_says d xs right op j = false

abbrev pub array_says : Array → Scalar → Op → ℕ → Bool
array_says (boolean_array xs) right op j = boolean_says xs right op j
array_says (string_array xs) (string r) op j = bytes_say xs r op j
array_says (binary_array xs) (string r) op j = bytes_say xs r op j
array_says (binary_array xs) (binary_bytes r) op j = bytes_say xs r op j
array_says (int64_array xs) (int64 r) op j = int64_says xs r op j
array_says (dictionary_array d xs) right op j = dictionary_says d xs right op j
array_says a right op j = false

abbrev pub array_length : Array → ℕ
array_length (boolean_array xs) = length xs
array_length (fixed_size_binary_array xs) = length xs
array_length (string_array xs) = length xs
array_length (binary_array xs) = length xs
array_length (int64_array xs) = length xs
array_length (dictionary_array d xs) = length xs
array_length (list_array xs) = length xs
array_length (other_array xs) = length xs

pub and_true : (b : Bool) → b ≡ (b && true)
and_true true = refl
and_true false = refl

pub and_false : (b : Bool) → false ≡ (b && false)
and_false true = refl
and_false false = refl

pub or_false : (b : Bool) → (b || false) ≡ b
or_false true = refl
or_false false = refl

pub cell_says-lt :
    {A : Type 0} (test : Option A → Bool) (xs : List (Option A)) (j : ℕ)
    → cell_says test xs j ≡ true
    → j < length xs
cell_says-lt test [] j h = absurd (cc)
cell_says-lt test (x ∷ xs) zero h = omega arith
cell_says-lt test (x ∷ xs) (suc j) h = omega (arith, cell_says-lt test xs j h)

-- The cell of row `j`, the first of the array being row `i`.
abbrev pub from_says : {A : Type 0} → (Option A → Bool) → ℕ → List (Option A) → ℕ → Bool
from_says test i [] j = false
from_says test i (x ∷ xs) j = (i == j && test x) || from_says test (suc i) xs j

from_says-before :
    {A : Type 0} (test : Option A → Bool) (i : ℕ) (xs : List (Option A)) (j : ℕ)
    → j < i
    → from_says test i xs j ≡ false
from_says-before test i [] j h = refl
from_says-before test i (x ∷ xs) j h =
    ap (λ c. (c && test x) || from_says test (suc i) xs j) (unequal i j h)
    ∙ from_says-before test (suc i) xs j (omega (arith, h))
  where
    unequal : (i j : ℕ) → j < i → (i == j) ≡ false
    unequal i j h = ground arith

from_says-shift :
    {A : Type 0} (test : Option A → Bool) (i : ℕ) (xs : List (Option A)) (j : ℕ)
    → from_says test i xs (j + i) ≡ cell_says test xs j
from_says-shift test i [] j = refl
from_says-shift test i (x ∷ xs) zero =
    ap (λ c. (c && test x) || from_says test (suc i) xs (0 + i)) (itself i)
    ∙ ap (λ c. test x || c) (from_says-before test (suc i) xs (0 + i) (omega arith))
    ∙ or_false (test x)
  where
    itself : (i : ℕ) → (i == 0 + i) ≡ true
    itself i = ground arith
from_says-shift test i (x ∷ xs) (suc j) =
    ap (λ c. (c && test x) || from_says test (suc i) xs (suc j + i)) (unequal i j)
    ∙ ap (from_says test (suc i) xs) (moved i j)
    ∙ from_says-shift test (suc i) xs j
  where
    unequal : (i j : ℕ) → (i == suc j + i) ≡ false
    unequal i j = ground arith

    moved : (i j : ℕ) → suc j + i ≡ j + suc i
    moved i j = omega arith

pub from_says-cell :
    {A : Type 0} (test : Option A → Bool) (xs : List (Option A)) (j : ℕ)
    → from_says test 0 xs j ≡ cell_says test xs j
from_says-cell test xs j = ap (from_says test 0 xs) (plain j) ∙ from_says-shift test 0 xs j
  where
    plain : (j : ℕ) → j ≡ j + 0
    plain j = omega arith
