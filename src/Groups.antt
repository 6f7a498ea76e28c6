-- ===== src/Groups.antt =====
-- pqarrow/arrowutils/groupranges.go: where groups and ordered sets begin in sorted columns.
mod Heap
mod Empty
mod Pop
mod Sorted
mod Changes
mod Columns
mod Tests
use Prim.Native.Nat.{compare, Ordering}
use frostdb.Base.{
  ℕ, zero, suc, ◌+◌, Bool, true, false, Option, none, some, List, [], ◌∷◌, Result, ok, err, ◌>>=◌,
  ltb, leb, ◌==◌, if◌then◌else◌, length, not,
}
use frostdb.Base.Int.{ℤ, pos, negsuc}

-- The results -1, 0 and 1 of a comparison.
pub data Comparison : Type 0 where
  less same greater : Comparison

pub data Value : Type 0 where
  bytes string : List ℕ → Value
  int64 : ℤ → Value
  boolean : Bool → Value

-- The arrays that the switch knows; those of `dictionary` have bytes as their values.
pub data Kind : Type 0 where
  binary_array string_array int64_array boolean_array virtual_null_array dictionary_array : Kind

-- An array; `none` is a null.
pub record Array : Type 0 where
  pub kind : Kind
  pub values : List (Option Value)

-- The errors, and the panic of a type assertion.
pub data Failure : Type 0 where
  columns_mismatch null_comparison_invalid panic : Failure

-- `nullComparison`; without a value the comparison is to be disregarded.
unfoldable pub null_comparison : Bool → Bool → Option Comparison
null_comparison false false = none
null_comparison true false = some less
null_comparison true true = some same
null_comparison false true = some greater

abbrev pub compare_ℕ : ℕ → ℕ → Comparison
compare_ℕ a b = if ltb a b then less else if ltb b a then greater else same

-- `compareInt64`
unfoldable pub compare_int64 : ℤ → ℤ → Comparison
compare_int64 (pos a) (pos b) = compare_ℕ a b
compare_int64 (pos a) (negsuc b) = greater
compare_int64 (negsuc a) (pos b) = less
compare_int64 (negsuc a) (negsuc b) = compare_ℕ b a

-- `compareBools`
unfoldable pub compare_bools : Bool → Bool → Comparison
compare_bools true true = same
compare_bools false false = same
compare_bools false true = less
compare_bools true false = greater

abbrev pub then_compare : Comparison → Comparison → Comparison
then_compare same c = c
then_compare less c = less
then_compare greater c = greater

-- `bytes.Compare` and `strings.Compare`
unfoldable pub compare_bytes : List ℕ → List ℕ → Comparison
compare_bytes [] [] = same
compare_bytes [] (b ∷ bs) = less
compare_bytes (a ∷ xs) [] = greater
compare_bytes (a ∷ xs) (b ∷ bs) = then_compare (compare_ℕ a b) (compare_bytes xs bs)

unfoldable pub compare_values : Value → Value → Result Failure Comparison
unfolding compare_int64 compare_bools compare_bytes
compare_values (bytes a) (bytes b) = ok (compare_bytes a b)
compare_values (string a) (string b) = ok (compare_bytes a b)
compare_values (int64 a) (int64 b) = ok (compare_int64 a b)
compare_values (boolean a) (boolean b) = ok (compare_bools a b)
compare_values a b = err panic

abbrev pub is_nil_slice : List ℕ → Bool
is_nil_slice [] = true
is_nil_slice (b ∷ bs) = false

-- Whether the group's value is nil, after the type assertion. The group's bytes are a copy that is
-- made by appending to a nil slice: of no bytes it is nil itself.
unfoldable pub group_is_nil : Kind → Option Value → Result Failure Bool
group_is_nil kind none = ok true
group_is_nil binary_array (some (bytes b)) = ok (is_nil_slice b)
group_is_nil dictionary_array (some (bytes b)) = ok (is_nil_slice b)
group_is_nil string_array (some (string s)) = ok false
group_is_nil int64_array (some (int64 i)) = ok false
group_is_nil boolean_array (some (boolean b)) = ok false
group_is_nil virtual_null_array (some v) = ok false
group_is_nil kind (some v) = err panic

abbrev pub is_null : Option Value → Bool
is_null none = true
is_null (some v) = false

abbrev pub compare_present : Kind → Option Value → Option Value → Result Failure Comparison
compare_present virtual_null_array cur v = err null_comparison_invalid
compare_present kind none v = err panic
compare_present kind (some a) none = err panic
compare_present kind (some a) (some b) = compare_values a b

abbrev pub or_present : Option Comparison → Result Failure Comparison → Result Failure Comparison
or_present none present = present
or_present (some c) present = ok c

-- The comparison of the current group's value with a row's.
unfoldable pub row_compare : Kind → Option Value → Option Value → Result Failure Comparison
unfolding group_is_nil null_comparison compare_values
row_compare kind cur v = group_is_nil kind cur >>= λ nil.
    or_present (null_comparison nil (is_null v)) (compare_present kind cur v)

-- `Int64Heap` with `container/heap`: the elements in order, the least first.
unfoldable pub heap_push : ℕ → List ℕ → List ℕ
heap_push x [] = x ∷ []
heap_push x (y ∷ ys) = if leb x y then x ∷ y ∷ ys else y ∷ heap_push x ys

-- `PopNextNotEqual`: the element, if there is one, and the heap.
unfoldable pub pop_next_not_equal : ℕ → List ℕ → Option ℕ × List ℕ
pop_next_not_equal c [] = (none, [])
pop_next_not_equal c (x ∷ xs) =
    let rest = pop_next_not_equal c xs in if x == c then rest else (some x, xs)

-- The loop of `Unwrap` with the last element that was appended.
unfoldable pub unwrap_from : ℕ → List ℕ → List ℕ
unwrap_from c [] = []
unwrap_from c (x ∷ xs) =
    let kept = unwrap_from c xs in let next = unwrap_from x xs in if x == c then kept else x ∷ next

-- `Unwrap`; the heap is empty afterwards.
unfoldable pub unwrap : List ℕ → List ℕ
unfolding unwrap_from
unwrap [] = []
unwrap (x ∷ xs) = x ∷ unwrap_from x (x ∷ xs)

pub record Ranges : Type 0 where
  pub group_ranges : List ℕ
  pub set_ranges : List ℕ

-- `handleCmpResult`: the heaps, and the value of the group in the column.
unfoldable pub handle_cmp_result :
    Comparison → ℕ → Option Value → Ranges → Option Value → Ranges × Option Value
unfolding heap_push
handle_cmp_result same j v r cur = (r, cur)
handle_cmp_result less j v r cur = (record r { group_ranges = heap_push j r.group_ranges }, v)
handle_cmp_result greater j v r cur =
    (record { group_ranges = heap_push j r.group_ranges; set_ranges = heap_push j r.set_ranges }, v)

-- The loop over the rows of a column from row `j` on.
unfoldable pub column_loop :
    Kind → ℕ → List (Option Value) → Ranges → Option Value → Result Failure (Ranges × Option Value)
unfolding row_compare handle_cmp_result
column_loop kind j [] r cur = ok (r, cur)
column_loop kind j (v ∷ vs) r cur = row_compare kind cur v >>= λ c.
    let next = handle_cmp_result c j v r cur in column_loop kind (suc j) vs next.0 next.1

-- The loop over the columns, with the group's values in the columns that are left.
unfoldable pub columns_loop :
    List (Option Value) → List Array → Ranges → Result Failure (Ranges × List (Option Value))
unfolding column_loop
columns_loop [] [] r = ok (r, [])
columns_loop [] (a ∷ arrs) r = err columns_mismatch
columns_loop (g ∷ gs) [] r = err columns_mismatch
columns_loop (g ∷ gs) (a ∷ arrs) r =
    column_loop a.kind 0 a.values r g >>= λ s. columns_loop gs arrs s.0 >>= λ t. ok (t.0, s.1 ∷ t.1)

-- `GetGroupsAndOrderedSetRanges`
unfoldable pub get_groups_and_ordered_set_ranges :
    List (Option Value) → List Array → Result Failure (Ranges × List (Option Value))
unfolding columns_loop
get_groups_and_ordered_set_ranges first_group arrs =
    if length first_group == length arrs
    then columns_loop first_group arrs (record { group_ranges = []; set_ranges = [] })
    else err columns_mismatch
