-- ===== src/Physical/Predicates.antt =====
-- query/physicalplan/filter.go, binaryscalarexpr.go and regexpfilter.go: the rows of a record that an
-- expression selects.
use frostdb.Base.{
  ℕ, suc, ◌%◌, ◌^◌, Bool, true, false, not, ◌&&◌, Option, none, some, List, [], ◌∷◌, Result, ok,
  err, if◌then◌else◌,
}
use frostdb.Base.Int.{ℤ, ltb_ℤ}
use frostdb.Filter.{name_eq}
use frostdb.Filter.Build.{Scalar, string, binary_bytes, int64, boolean, null, nil}
use frostdb.Plan.{Op}
use frostdb.Plan.Op.{eq, not_eq, lt, lt_eq, gt, gt_eq}
use frostdb.Physical.Bitmaps.{Bitmaps}

-- The values of a dictionary.
pub data Dictionary : Type 0 where
  of_binary of_string of_others : Dictionary

-- Arrays of github.com/apache/arrow/go/v14, as the switches tell them apart; a null is none, and a
-- dictionary array is its values, looked up.
pub data Array : Type 0 where
  boolean_array : List (Option Bool) → Array
  fixed_size_binary_array string_array binary_array : List (Option (List ℕ)) → Array
  int64_array : List (Option ℤ) → Array
  dictionary_array : Dictionary → List (Option (List ℕ)) → Array
  list_array other_array : List (Option (List ℕ)) → Array

-- `arrow.Record`
pub record Record : Type 0 where
  pub columns : List (List ℕ × Array)
  pub num_rows : ℕ

pub data Failure : Type 0 where
  unsupported_binary_operation unsupported_operator unsupported_type : Failure
  unsupported_boolean_expression left_not_column bad_pattern panic : Failure

abbrev pub u32 : ℕ → ℕ
u32 n = n % 2 ^ 32

abbrev pub int_eq : ℤ → ℤ → Bool
int_eq a b = not (ltb_ℤ a b) && not (ltb_ℤ b a)

abbrev pub bool_eq : Bool → Bool → Bool
bool_eq true b = b
bool_eq false b = not b

-- What a loop does with a null, and with a value.
abbrev pub if_value : {A : Type 0} → (A → Bool) → Option A → Bool
if_value test none = false
if_value test (some a) = test a

abbrev pub if_null_or : {A : Type 0} → (A → Bool) → Option A → Bool
if_null_or test none = true
if_null_or test (some a) = test a

-- The bytes that the values of a dictionary are compared with.
abbrev pub scalar_data : Scalar → List ℕ
scalar_data (string s) = s
scalar_data (binary_bytes s) = s
scalar_data s = []

abbrev pub in_dictionary : Dictionary → (List ℕ → Bool) → List ℕ → Bool
in_dictionary of_binary test v = test v
in_dictionary of_string test v = test v
in_dictionary of_others test v = false

abbrev pub is_null : {A : Type 0} → Option A → Bool
is_null none = true
is_null (some a) = false

abbrev pub is_empty_bytes : List ℕ → Bool
is_empty_bytes [] = true
is_empty_bytes (c ∷ cs) = false

module _ {B : Type 0} (bits : Bitmaps B) where
  -- The loop of the functions on arrays.
  unfoldable pub select_from : {A : Type 0} → (Option A → Bool) → ℕ → List (Option A) → B → B
  select_from test i [] b = b
  select_from test i (x ∷ xs) b =
      select_from test (suc i) xs (if test x then bits.add (u32 i) b else b)

  abbrev pub select : {A : Type 0} → (Option A → Bool) → List (Option A) → Result Failure B
  select test xs = ok (select_from test 0 xs bits.new_bitmap)

  -- `DictionaryArrayScalarEqual` and `DictionaryArrayScalarNotEqual`
  unfoldable pub dictionary_equal : Dictionary → List (Option (List ℕ)) → Scalar → Result Failure B
  unfolding select_from
  dictionary_equal d xs null = select is_null xs
  dictionary_equal d xs right =
      select (if_value (in_dictionary d (λ v. name_eq v (scalar_data right)))) xs

  unfoldable pub dictionary_not_equal :
      Dictionary → List (Option (List ℕ)) → Scalar → Result Failure B
  unfolding select_from
  dictionary_not_equal d xs null = select (λ x. not (is_null x)) xs
  dictionary_not_equal d xs right =
      select (if_value (in_dictionary d (λ v. not (name_eq v (scalar_data right))))) xs

  -- The comparisons of `BinaryScalarOperation`, type by type; a failed assertion panics.
  unfoldable pub boolean_operation : List (Option Bool) → Scalar → Op → Result Failure B
  unfolding select_from
  boolean_operation xs (boolean r) eq = select (if_value (λ v. bool_eq v r)) xs
  boolean_operation xs (boolean r) not_eq = select (if_value (λ v. not (bool_eq v r))) xs
  boolean_operation xs right op = err panic

  unfoldable pub bytes_operation : List (Option (List ℕ)) → List ℕ → Op → Result Failure B
  unfolding select_from
  bytes_operation xs r eq = select (if_value (λ v. name_eq v r)) xs
  bytes_operation xs r not_eq = select (if_null_or (λ v. not (name_eq v r))) xs
  bytes_operation xs r op = err panic

  abbrev pub string_operation : List (Option (List ℕ)) → Scalar → Op → Result Failure B
  string_operation xs (string r) op = bytes_operation xs r op
  string_operation xs right op = err panic

  abbrev pub binary_operation : List (Option (List ℕ)) → Scalar → Op → Result Failure B
  binary_operation xs (string r) op = bytes_operation xs r op
  binary_operation xs (binary_bytes r) op = bytes_operation xs r op
  binary_operation xs right op = err panic

  unfoldable pub int64_operation : List (Option ℤ) → ℤ → Op → Result Failure B
  unfolding select_from
  int64_operation xs r eq = select (if_value (λ v. int_eq v r)) xs
  int64_operation xs r not_eq = select (if_null_or (λ v. not (int_eq v r))) xs
  int64_operation xs r lt = select (if_value (λ v. ltb_ℤ v r)) xs
  int64_operation xs r lt_eq = select (if_value (λ v. not (ltb_ℤ r v))) xs
  int64_operation xs r gt = select (if_value (λ v. ltb_ℤ r v)) xs
  int64_operation xs r gt_eq = select (if_value (λ v. not (ltb_ℤ v r))) xs
  int64_operation xs r op = err panic

  abbrev pub integer_operation : List (Option ℤ) → Scalar → Op → Result Failure B
  integer_operation xs (int64 r) op = int64_operation xs r op
  integer_operation xs right op = err panic

  unfoldable pub dictionary_operation :
      Dictionary → List (Option (List ℕ)) → Scalar → Op → Result Failure B
  unfolding dictionary_equal dictionary_not_equal
  dictionary_operation d xs right eq = dictionary_equal d xs right
  dictionary_operation d xs right not_eq = dictionary_not_equal d xs right
  dictionary_operation d xs right op = err unsupported_operator

  -- `BinaryScalarOperation`. The case for binary values of 16 bytes compares the type with a pointer
  -- that is made there, so it is never taken.
  unfoldable pub binary_scalar_operation : Array → Scalar → Op → Result Failure B
  unfolding boolean_operation bytes_operation int64_operation dictionary_operation
  binary_scalar_operation (boolean_array xs) right op = boolean_operation xs right op
  binary_scalar_operation (string_array xs) right op = string_operation xs right op
  binary_scalar_operation (binary_array xs) right op = binary_operation xs right op
  binary_scalar_operation (int64_array xs) right op = integer_operation xs right op
  binary_scalar_operation (dictionary_array d xs) right op = dictionary_operation d xs right op
  binary_scalar_operation (list_array xs) right op = err panic
  binary_scalar_operation (fixed_size_binary_array xs) right op = err unsupported_binary_operation
  binary_scalar_operation (other_array xs) right op = err unsupported_binary_operation

  abbrev pub all_rows : ℕ → Result Failure B
  all_rows n = ok (bits.add_range n bits.new_bitmap)

  abbrev pub no_rows : Result Failure B
  no_rows = ok bits.new_bitmap

  -- `BinaryScalarExpr.Eval` where the record has no such column.
  unfoldable pub missing_equal : Scalar → ℕ → Result Failure B
  missing_equal nil n = err panic
  missing_equal (string s) n = if is_empty_bytes s then all_rows n else no_rows
  missing_equal (binary_bytes s) n = if is_empty_bytes s then all_rows n else no_rows
  missing_equal right n = all_rows n

  unfoldable pub missing_not_equal : Scalar → ℕ → Result Failure B
  missing_not_equal nil n = err panic
  missing_not_equal null n = no_rows
  missing_not_equal right n = all_rows n

  unfoldable pub missing_operation : Scalar → Op → ℕ → Result Failure B
  unfolding missing_equal missing_not_equal
  missing_operation right eq n = missing_equal right n
  missing_operation right not_eq n = missing_not_equal right n
  missing_operation right lt n = no_rows
  missing_operation right lt_eq n = no_rows
  missing_operation right gt n = no_rows
  missing_operation right gt_eq n = no_rows
  missing_operation right op n = all_rows n

-- `Schema.FieldIndices`, with the arrays in place of the indices.
unfoldable pub field_arrays : List ℕ → List (List ℕ × Array) → List Array
field_arrays name [] = []
field_arrays name ((n, a) ∷ cols) =
    let rest = field_arrays name cols in if name_eq n name then a ∷ rest else rest

abbrev pub only : List Array → Option Array
only (a ∷ []) = some a
only as' = none

-- `ArrayRef.ArrowArray`
unfoldable pub arrow_array : List ℕ → Record → Option Array
unfolding field_arrays
arrow_array name r = only (field_arrays name r.columns)

-- `BooleanExpression`; `M` are compiled regular expressions.
pub data BooleanExpression (M : Type 0) : Type 0 where
  binary_scalar_expr : List ℕ → Op → Scalar → BooleanExpression M
  regexp_filter : List ℕ → Bool → M → BooleanExpression M
  and_expr or_expr : BooleanExpression M → BooleanExpression M → BooleanExpression M
