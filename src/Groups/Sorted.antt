-- ===== src/Groups/Sorted.antt =====
-- What `GetGroupsAndOrderedSetRanges` of pqarrow/arrowutils/groupranges.go leaves in its heaps.
use mathlib.Core.Path.{subst}
use frostdb.Base.{
  ℕ, suc, ◌≡◌, ◌↔◌, refl, Option, List, [], ◌∷◌, Result, ok, err, ◌>>=◌, ok-injective, length, Elem,
  inl, inr, arith, ◌==◌, Bool, true, false, if◌then◌else◌,
}
use frostdb.Base.Order.{IsIncreasing}
use frostdb.Groups.{
  columns_mismatch, Value, Kind, Array, Failure, Ranges, Comparison, less, same, greater,
  handle_cmp_result, row_compare, column_loop, columns_loop, get_groups_and_ordered_set_ranges,
  unwrap,
}
use frostdb.Groups.Heap.{IsSorted, heap_push-IsSorted, Elem-heap_push, unwrap-IsIncreasing}

-- The heaps are in order, and an ordered set begins where a group begins.
abbrev pub IsWell : Ranges → Type 0
IsWell r =
    IsSorted r.group_ranges
    × IsSorted r.set_ranges
    × ((n : ℕ) → Elem n r.set_ranges → Elem n r.group_ranges)

handle_cmp_result-IsWell :
    (c : Comparison) (j : ℕ) (v : Option Value) (r : Ranges) (cur : Option Value)
    → IsWell r
    → IsWell (handle_cmp_result c j v r cur).0
unfolding handle_cmp_result
handle_cmp_result-IsWell same j v r cur h = h
handle_cmp_result-IsWell less j v r cur h = (
  heap_push-IsSorted j r.group_ranges h.0,
  h.1,
  λ n e. (Elem-heap_push n j r.group_ranges).1 (inr (h.2 n e)),
)
handle_cmp_result-IsWell greater j v r cur h = (
  heap_push-IsSorted j r.group_ranges h.0,
  heap_push-IsSorted j r.set_ranges h.1,
  λ n e.
      (Elem-heap_push n j r.group_ranges).1
        (elim ((Elem-heap_push n j r.set_ranges).0 e) [ inl k ↦ inl k | inr k ↦ inr (h.2 n k) ]),
)

column_loop-IsWell :
    (kind : Kind) (j : ℕ) (vs : List (Option Value)) (r : Ranges) (cur : Option Value)
    (s : Ranges × Option Value)
    → IsWell r
    → column_loop kind j vs r cur ≡ ok s
    → IsWell s.0
unfolding column_loop
column_loop-IsWell kind j [] r cur s h e = subst (λ t. IsWell t.0) (ok-injective (r, cur) s e) h
column_loop-IsWell kind j (v ∷ vs) r cur s h e =
    go (row_compare kind cur v)
      (λ c.
        let next = handle_cmp_result c j v r cur in
        column_loop-IsWell kind (suc j) vs next.0 next.1 s (handle_cmp_result-IsWell c j v r cur h))
      e
  where
    go :
        (o : Result Failure Comparison)
        → ((c : Comparison)
            → (column_loop kind
                  (suc j)
                  vs
                  (handle_cmp_result c j v r cur).0
                  (handle_cmp_result c j v r cur).1
                ≡ ok s)
            → IsWell s.0)
        → (o >>= λ c.
            column_loop kind
              (suc j)
              vs
              (handle_cmp_result c j v r cur).0
              (handle_cmp_result c j v r cur).1)
          ≡ ok s
        → IsWell s.0
    go (ok c) rest k = rest c k
    go (err x) rest k = absurd (ground arith)

columns_loop-IsWell :
    (gs : List (Option Value)) (arrs : List Array) (r : Ranges) (s : Ranges × List (Option Value))
    → IsWell r
    → columns_loop gs arrs r ≡ ok s
    → IsWell s.0
unfolding columns_loop
columns_loop-IsWell [] [] r s h e = subst (λ t. IsWell t.0) (ok-injective (r, []) s e) h
columns_loop-IsWell [] (a ∷ arrs) r s h e = absurd (ground arith)
columns_loop-IsWell (g ∷ gs) [] r s h e = absurd (ground arith)
columns_loop-IsWell (g ∷ gs) (a ∷ arrs) r s h e =
    go (column_loop a.kind 0 a.values r g) refl (λ q t. columns_loop-IsWell gs arrs q.0 t) e
  where
    last :
        (q : Ranges × Option Value) (o : Result Failure (Ranges × List (Option Value)))
        → columns_loop gs arrs q.0 ≡ o
        → ((t : Ranges × List (Option Value)) → columns_loop gs arrs q.0 ≡ ok t → IsWell t.0)
        → (o >>= λ t. ok (t.0, q.1 ∷ t.1)) ≡ ok s
        → IsWell s.0
    last q (ok t) k rest m = subst (λ u. IsWell u.0) (ok-injective (t.0, q.1 ∷ t.1) s m) (rest t k)
    last q (err x) k rest m = absurd (ground arith)

    go :
        (o : Result Failure (Ranges × Option Value))
        → column_loop a.kind 0 a.values r g ≡ o
        → ((q : Ranges × Option Value) (t : Ranges × List (Option Value))
            → IsWell q.0
            → columns_loop gs arrs q.0 ≡ ok t
            → IsWell t.0)
        → (o >>= λ q. columns_loop gs arrs q.0 >>= λ t. ok (t.0, q.1 ∷ t.1)) ≡ ok s
        → IsWell s.0
    go (ok q) k rest m =
        last q (columns_loop gs arrs q.0) refl
          (λ t. rest q t (column_loop-IsWell a.kind 0 a.values r g q h k)) m
    go (err x) k rest m = absurd (ground arith)

-- Of the heaps: `Unwrap` lists their elements, all of them and no other, once each in increasing order,
-- and an ordered set begins only where a group begins.
abbrev pub AreUnwrapped : Ranges → Type 0
AreUnwrapped r =
    (IsIncreasing (unwrap r.group_ranges)
      × ((n : ℕ) → Elem n r.group_ranges ↔ Elem n (unwrap r.group_ranges)))
    × (IsIncreasing (unwrap r.set_ranges)
        × ((n : ℕ) → Elem n r.set_ranges ↔ Elem n (unwrap r.set_ranges)))
    × ((n : ℕ) → Elem n (unwrap r.set_ranges) → Elem n (unwrap r.group_ranges))

-- Condition: `GetGroupsAndOrderedSetRanges` returns the ranges `s`. Then `Unwrap` lists the beginnings
-- of the groups that were pushed, all of them and no other, once each in increasing order, and the same
-- of the ordered sets, and an ordered set begins only where a group begins.
pub unwrap-groups :
    (first_group : List (Option Value)) (arrs : List Array) (s : Ranges × List (Option Value))
    → get_groups_and_ordered_set_ranges first_group arrs ≡ ok s
    → AreUnwrapped s.0
unfolding get_groups_and_ordered_set_ranges
unwrap-groups first_group arrs s e = go (length first_group == length arrs) e
  where
    result : IsWell s.0 → AreUnwrapped s.0
    result w =
        let g = unwrap-IsIncreasing s.0.group_ranges w.0 in
        let t = unwrap-IsIncreasing s.0.set_ranges w.1 in
        (g, t, λ n m. (g.1 n).0 (w.2 n ((t.1 n).1 m)))

    go :
        (b : Bool)
        → (if b
            then columns_loop first_group arrs (record { group_ranges = []; set_ranges = [] })
            else err columns_mismatch)
          ≡ ok s
        → AreUnwrapped s.0
    go true k = result (
        columns_loop-IsWell first_group arrs (record { group_ranges = []; set_ranges = [] }) s
          (tt, tt, λ n m. absurd m) k)
    go false k = absurd (ground arith)
