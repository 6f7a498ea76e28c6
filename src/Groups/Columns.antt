-- ===== src/Groups/Columns.antt =====
-- The groups that `GetGroupsAndOrderedSetRanges` of pqarrow/arrowutils/groupranges.go finds in columns.
use mathlib.Core.Path.{subst, subst⁻¹}
use frostdb.Base.{
  ℕ, suc, ◌≡◌, ◌↔◌, refl, sym, Bool, true, false, Option, List, [], ◌∷◌, Result, ok, err, ◌>>=◌,
  ok-injective, All, Elem, inl, inr, ◌⊎◌, arith, length, ◌==◌, if◌then◌else◌,
}
use frostdb.Groups.{
  Value, Kind, Array, Failure, columns_mismatch, Ranges, Comparison, less, same, greater, heap_push,
  handle_cmp_result, row_compare, column_loop, columns_loop, get_groups_and_ordered_set_ranges,
}
use frostdb.Groups.Changes.{
  IsKept, Changes, Says, row_compare-Says, Found, Found-unchanged, Found-changed,
}

handle_lem :
    (c : Comparison) (j : ℕ) (r : Ranges) (g v : Option Value) (vs : List (Option Value))
    (s : Ranges)
    → Says g v c
    → IsKept g
    → IsKept v
    → (IsKept (handle_cmp_result c j v r g).1
        → Found (suc j) (handle_cmp_result c j v r g).0 (handle_cmp_result c j v r g).1 vs s)
    → Found j r g (v ∷ vs) s
unfolding handle_cmp_result
handle_lem same j r g v vs s e h k rest =
    subst (λ x. Found j r x (v ∷ vs) s) (sym e)
      (Found-unchanged j r v vs s (subst (λ x. Found (suc j) r x vs s) e (rest h)))
handle_lem less j r g v vs s d h k rest =
    Found-changed j r (record r { group_ranges = heap_push j r.group_ranges }) g v vs s d refl
      (rest k)
handle_lem greater j r g v vs s d h k rest =
    Found-changed j r
      (record { group_ranges = heap_push j r.group_ranges; set_ranges = heap_push j r.set_ranges })
      g v vs s d refl (rest k)

column_loop-Found :
    (kind : Kind) (j : ℕ) (vs : List (Option Value)) (r : Ranges) (g : Option Value)
    (s : Ranges × Option Value)
    → IsKept g
    → All IsKept vs
    → column_loop kind j vs r g ≡ ok s
    → Found j r g vs s.0
unfolding column_loop
column_loop-Found kind j [] r g s h k e =
    subst (λ t. Found j r g [] t.0) (ok-injective (r, g) s e)
      (λ n. (λ m. inl m, λ m. elim m [ inl q ↦ q | inr (i, q, c) ↦ absurd c ]))
column_loop-Found kind j (v ∷ vs) r g s h k e =
    go (row_compare kind g v) refl
      (λ c m p.
        let next = handle_cmp_result c j v r g in
        column_loop-Found kind (suc j) vs next.0 next.1 s p k.1 m)
      e
  where
    go :
        (o : Result Failure Comparison)
        → row_compare kind g v ≡ o
        → ((c : Comparison)
            → (column_loop kind
                  (suc j)
                  vs
                  (handle_cmp_result c j v r g).0
                  (handle_cmp_result c j v r g).1
                ≡ ok s)
            → IsKept (handle_cmp_result c j v r g).1
            → Found (suc j) (handle_cmp_result c j v r g).0 (handle_cmp_result c j v r g).1 vs s.0)
        → (o >>= λ c.
            column_loop kind
              (suc j)
              vs
              (handle_cmp_result c j v r g).0
              (handle_cmp_result c j v r g).1)
          ≡ ok s
        → Found j r g (v ∷ vs) s.0
    go (ok c) q rest m =
        handle_lem c j r g v vs s.0 (row_compare-Says kind g v c h q) h k.0 (rest c m)
    go (err x) q rest m = absurd (ground arith)

-- One of the columns has another value in row `n` than in the row before.
abbrev pub AnyChanges : List (Option Value) → List Array → ℕ → Type 0
AnyChanges [] arrs n = ⊥
AnyChanges (g ∷ gs) [] n = ⊥
AnyChanges (g ∷ gs) (a ∷ arrs) n = Changes g a.values n ⊎ AnyChanges gs arrs n

join :
    (r q s : Ranges) (g : Option Value) (a : Array) (gs : List (Option Value)) (arrs : List Array)
    → Found 0 r g a.values q
    → ((n : ℕ) → Elem n s.group_ranges ↔ (Elem n q.group_ranges ⊎ AnyChanges gs arrs n))
    → (n : ℕ) → Elem n s.group_ranges ↔ (Elem n r.group_ranges ⊎ AnyChanges (g ∷ gs) (a ∷ arrs) n)
join r q s g a gs arrs f rest n = (
  λ e. elim ((rest n).0 e) [
    | inl k ↦ elim ((f n).0 k) [
      | inl m ↦ inl m
      | inr (i, m, c) ↦ inr (inl (subst⁻¹ (λ x. Changes g a.values x) (omega arith) c))
    ]
    | inr k ↦ inr (inr k)
  ],
  λ e. elim e [
    | inl k ↦ (rest n).1 (inl ((f n).1 (inl k)))
    | inr (inl k) ↦ (rest n).1 (inl ((f n).1 (inr (n, omega arith, k))))
    | inr (inr k) ↦ (rest n).1 (inr k)
  ],
)

columns_loop-AnyChanges :
    (gs : List (Option Value)) (arrs : List Array) (r : Ranges) (s : Ranges × List (Option Value))
    → All IsKept gs
    → All (λ a. All IsKept a.values) arrs
    → columns_loop gs arrs r ≡ ok s
    → (n : ℕ) → Elem n s.0.group_ranges ↔ (Elem n r.group_ranges ⊎ AnyChanges gs arrs n)
unfolding columns_loop
columns_loop-AnyChanges [] [] r s h k e =
    subst (λ t. (n : ℕ) → Elem n t.0.group_ranges ↔ (Elem n r.group_ranges ⊎ ⊥))
      (ok-injective (r, []) s e) (λ n. (λ m. inl m, λ m. elim m [ inl q ↦ q | inr q ↦ absurd q ]))
columns_loop-AnyChanges [] (a ∷ arrs) r s h k e = absurd (ground arith)
columns_loop-AnyChanges (g ∷ gs) [] r s h k e = absurd (ground arith)
columns_loop-AnyChanges (g ∷ gs) (a ∷ arrs) r s h k e =
    go (column_loop a.kind 0 a.values r g) refl
      (λ q t. columns_loop-AnyChanges gs arrs q.0 t h.1 k.1) e
  where
    last :
        (q : Ranges × Option Value) (o : Result Failure (Ranges × List (Option Value)))
        → columns_loop gs arrs q.0 ≡ o
        → ((t : Ranges × List (Option Value))
            → columns_loop gs arrs q.0 ≡ ok t
            → (n : ℕ)
            → Elem n t.0.group_ranges ↔ (Elem n r.group_ranges ⊎ AnyChanges (g ∷ gs) (a ∷ arrs) n))
        → (o >>= λ t. ok (t.0, q.1 ∷ t.1)) ≡ ok s
        → (n : ℕ)
        → Elem n s.0.group_ranges ↔ (Elem n r.group_ranges ⊎ AnyChanges (g ∷ gs) (a ∷ arrs) n)
    last q (ok t) p rest m =
        subst
          (λ u.
            (n : ℕ)
            → Elem n u.0.group_ranges ↔ (Elem n r.group_ranges ⊎ AnyChanges (g ∷ gs) (a ∷ arrs) n))
          (ok-injective (t.0, q.1 ∷ t.1) s m) (rest t p)
    last q (err x) p rest m = absurd (ground arith)

    go :
        (o : Result Failure (Ranges × Option Value))
        → column_loop a.kind 0 a.values r g ≡ o
        → ((q : Ranges × Option Value) (t : Ranges × List (Option Value))
            → columns_loop gs arrs q.0 ≡ ok t
            → (n : ℕ) → Elem n t.0.group_ranges ↔ (Elem n q.0.group_ranges ⊎ AnyChanges gs arrs n))
        → (o >>= λ q. columns_loop gs arrs q.0 >>= λ t. ok (t.0, q.1 ∷ t.1)) ≡ ok s
        → (n : ℕ)
        → Elem n s.0.group_ranges ↔ (Elem n r.group_ranges ⊎ AnyChanges (g ∷ gs) (a ∷ arrs) n)
    go (ok q) p rest m =
        last q (columns_loop gs arrs q.0) refl
          (λ t z.
            join r q.0 t.0 g a gs arrs (column_loop-Found a.kind 0 a.values r g q h.0 k.0 p)
              (rest q t z))
          m
    go (err x) p rest m = absurd (ground arith)

-- Conditions: `GetGroupsAndOrderedSetRanges` returns the ranges `s`, and neither the first group nor a
-- column has empty bytes. Then a group begins at exactly those rows at which a column has another
-- value than in the row before (at the first row: than in the first group).
pub groups-AnyChanges :
    (first_group : List (Option Value)) (arrs : List Array) (s : Ranges × List (Option Value))
    → All IsKept first_group
    → All (λ a. All IsKept a.values) arrs
    → get_groups_and_ordered_set_ranges first_group arrs ≡ ok s
    → (n : ℕ) → Elem n s.0.group_ranges ↔ AnyChanges first_group arrs n
unfolding get_groups_and_ordered_set_ranges
groups-AnyChanges first_group arrs s h k e = go (length first_group == length arrs) e
  where
    go :
        (b : Bool)
        → (if b
            then columns_loop first_group arrs (record { group_ranges = []; set_ranges = [] })
            else err columns_mismatch)
          ≡ ok s
        → (n : ℕ) → Elem n s.0.group_ranges ↔ AnyChanges first_group arrs n
    go true m n =
        let f =
          columns_loop-AnyChanges first_group arrs (record { group_ranges = []; set_ranges = [] }) s
            h k m n in
        (λ p. elim (f.0 p) [ inl q ↦ absurd q | inr q ↦ q ], λ p. f.1 (inr p))
    go false m n = absurd (ground arith)
