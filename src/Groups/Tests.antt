-- ===== src/Groups/Tests.antt =====
-- Concrete columns, and the example of the source's comment.
use frostdb.Base.{true, ℕ, ◌≡◌, ◌↔◌, refl, Option, some, [], ◌∷◌, ok, err, Elem}
use frostdb.Groups.{
  Value, bytes, boolean, binary_array, Array, panic, Ranges, get_groups_and_ordered_set_ranges,
  pop_next_not_equal, compare_bytes, heap_push,
}
use frostdb.Groups.Sorted.{AreUnwrapped, unwrap-groups}
use frostdb.Groups.Columns.{AnyChanges, groups-AnyChanges}
use frostdb.Groups.Empty.{empties, push_all, empty_groups}

abbrev letter : ℕ → Option Value
letter c = some (bytes (c ∷ []))

-- a a c d a b c
abbrev letters : Array
letters = record {
  kind = binary_array;
  values = letter 1 ∷ letter 1 ∷ letter 3 ∷ letter 4 ∷ letter 1 ∷ letter 2 ∷ letter 3 ∷ [];
}

abbrev ranges_of_letters : Ranges
ranges_of_letters = record { group_ranges = 2 ∷ 3 ∷ 4 ∷ 5 ∷ 6 ∷ []; set_ranges = 4 ∷ [] }

letters_result :
    get_groups_and_ordered_set_ranges (letter 1 ∷ []) (letters ∷ [])
    ≡ ok (ranges_of_letters, letter 3 ∷ [])
unfolding get_groups_and_ordered_set_ranges compare_bytes
letters_result = refl

-- A group that does not have the type of its column makes the source panic.
letters_panic :
    get_groups_and_ordered_set_ranges (some (boolean true) ∷ []) (letters ∷ []) ≡ err panic
unfolding get_groups_and_ordered_set_ranges
letters_panic = refl

unwrap-groups_example : AreUnwrapped ranges_of_letters
unwrap-groups_example =
    unwrap-groups (letter 1 ∷ []) (letters ∷ []) (ranges_of_letters, letter 3 ∷ []) letters_result

groups-AnyChanges_example :
    Elem {A = ℕ} 4 (2 ∷ 3 ∷ 4 ∷ 5 ∷ 6 ∷ []) ↔ AnyChanges (letter 1 ∷ []) (letters ∷ []) 4
groups-AnyChanges_example =
    groups-AnyChanges (letter 1 ∷ []) (letters ∷ []) (ranges_of_letters, letter 3 ∷ []) (tt, tt)
      ((tt, (tt, (tt, (tt, (tt, (tt, (tt, tt))))))), tt) letters_result 4

popped : pop_next_not_equal 2 (2 ∷ 2 ∷ 5 ∷ 7 ∷ []) ≡ (some 5, 7 ∷ [])
unfolding pop_next_not_equal
popped = refl

empty_groups_example :
    get_groups_and_ordered_set_ranges
      (some (bytes []) ∷ [])
      (record { kind = binary_array; values = empties 3 } ∷ [])
    ≡ ok (record { group_ranges = push_all 0 3 []; set_ranges = [] }, some (bytes []) ∷ [])
empty_groups_example = empty_groups 3

empty_3 : push_all 0 3 [] ≡ 0 ∷ 1 ∷ 2 ∷ []
unfolding heap_push
empty_3 = refl
