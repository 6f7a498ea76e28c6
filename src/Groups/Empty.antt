-- ===== src/Groups/Empty.antt =====
-- Columns of empty bytes in `GetGroupsAndOrderedSetRanges` of pqarrow/arrowutils/groupranges.go.
use frostdb.Base.{ℕ, zero, suc, ◌≡◌, refl, Option, some, List, [], ◌∷◌, ok}
use frostdb.Groups.{
  Value, bytes, binary_array, Ranges, heap_push, handle_cmp_result, row_compare, null_comparison,
  group_is_nil, column_loop, columns_loop, get_groups_and_ordered_set_ranges,
}

-- `n` times the empty value.
abbrev pub empties : ℕ → List (Option Value)
empties zero = []
empties (suc n) = some (bytes []) ∷ empties n

-- Each of the numbers `j`, `j + 1`, ..., `n` of them, pushed to a heap.
abbrev pub push_all : ℕ → ℕ → List ℕ → List ℕ
push_all j zero h = h
push_all j (suc n) h = push_all (suc j) n (heap_push j h)

empties-loop :
    (j n : ℕ) (r : Ranges)
    → column_loop binary_array j (empties n) r (some (bytes []))
      ≡ ok (record r { group_ranges = push_all j n r.group_ranges }, some (bytes []))
unfolding column_loop handle_cmp_result row_compare null_comparison group_is_nil
empties-loop j zero r = refl
empties-loop j (suc n) r =
    empties-loop (suc j) n (record r { group_ranges = heap_push j r.group_ranges })

-- A column of equal values, all empty and none of them null, is one group. But a copy of no bytes is nil,
-- which counts as null, and every row is found to begin a new group.
pub empty_groups :
    (n : ℕ)
    → get_groups_and_ordered_set_ranges
        (some (bytes []) ∷ [])
        (record { kind = binary_array; values = empties n } ∷ [])
      ≡ ok (record { group_ranges = push_all 0 n []; set_ranges = [] }, some (bytes []) ∷ [])
unfolding get_groups_and_ordered_set_ranges columns_loop
empty_groups n = rw (empties-loop 0 n (record { group_ranges = []; set_ranges = [] }))
