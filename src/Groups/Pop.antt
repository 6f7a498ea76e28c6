-- ===== src/Groups/Pop.antt =====
-- `PopNextNotEqual` of pqarrow/arrowutils/groupranges.go.
use frostdb.Base.{
  ℕ, ◌≤◌, ◌≡◌, ◌≢◌, refl, ◌∙◌, Bool, true, false, Option, none, some, List, [], ◌∷◌, All, Elem, inl,
  inr, ◌⊎◌, ◌==◌, ==_iff, if◌then◌else◌, arith,
}
use frostdb.Groups.{pop_next_not_equal}
use frostdb.Groups.Heap.{IsSorted}

-- What `PopNextNotEqual` promises of its result and of the heap that it leaves.
abbrev pub IsNext : ℕ → List ℕ → Option ℕ × List ℕ → Type 0
IsNext c h (none, rest) = All (λ x. x ≡ c) h × (rest ≡ [])
IsNext c h (some v, rest) =
    (v ≢ c)
    × Elem v h
    × All (λ x. v ≤ x) rest
    × IsSorted rest
    × ((n : ℕ) → Elem n h → n ≢ c → (n ≡ v) ⊎ Elem n rest)

skip : (c x : ℕ) (h : List ℕ) (r : Option ℕ × List ℕ) → x ≡ c → IsNext c h r → IsNext c (x ∷ h) r
skip c x h (none, rest) e p = ((e, p.0), p.1)
skip c x h (some v, rest) e p =
    (p.0, inr p.1, p.2, p.3, λ n m d. elim m [ inl k ↦ absurd (d (k ∙ e)) | inr k ↦ p.4 n k d ])

-- Condition: the heap yields its elements in order. Then `PopNextNotEqual` returns the least element
-- that is not the given one, and leaves a heap in order with every other such element; it returns
-- none only where the heap holds no such element, and leaves it empty then.
pop_next_not_equal-IsNext : (c : ℕ) (h : List ℕ) → IsSorted h → IsNext c h (pop_next_not_equal c h)
unfolding pop_next_not_equal
pop_next_not_equal-IsNext c [] s = (tt, refl)
pop_next_not_equal-IsNext c (x ∷ xs) s = go (x == c) refl (pop_next_not_equal-IsNext c xs s.1)
  where
    go :
        (b : Bool)
        → (x == c) ≡ b
        → IsNext c xs (pop_next_not_equal c xs)
        → IsNext c (x ∷ xs) (if b then pop_next_not_equal c xs else (some x, xs))
    go true e rest = skip c x xs (pop_next_not_equal c xs) ((==_iff x c).0 e) rest
    go false e rest = (λ k. absurd (ground arith), inl refl, s.0, s.1, λ n m d. m)
