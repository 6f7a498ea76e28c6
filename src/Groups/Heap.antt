-- ===== src/Groups/Heap.antt =====
-- `Int64Heap` of pqarrow/arrowutils/groupranges.go.
use mathlib.Core.Path.{subst⁻¹}
use frostdb.Base.{
  ℕ, ◌≤◌, ◌≡◌, ◌↔◌, refl, ◌∙◌, Bool, true, false, List, [], ◌∷◌, All, All-map_of, Elem,
  if◌then◌else◌, inl, inr, ◌⊎◌, arith, ==_iff, leb, ◌==◌,
}
use frostdb.Base.Order.{IsIncreasing, All-lt_trans}
use frostdb.Groups.{heap_push, unwrap_from, unwrap}

-- The elements of a heap in order.
abbrev pub IsSorted : List ℕ → Type 0
IsSorted [] = Unit
IsSorted (x ∷ xs) = All (λ y. x ≤ y) xs × IsSorted xs

All-le_trans : (a b : ℕ) (xs : List ℕ) → a ≤ b → All (λ y. b ≤ y) xs → All (λ y. a ≤ y) xs
All-le_trans a b xs h k = All-map_of xs (λ c p. omega arith) k

All-heap_push :
    (a x : ℕ) (xs : List ℕ) → a ≤ x → All (λ y. a ≤ y) xs → All (λ y. a ≤ y) (heap_push x xs)
unfolding heap_push
All-heap_push a x [] h k = (h, tt)
All-heap_push a x (y ∷ ys) h k = go (leb x y) (All-heap_push a x ys h k.1)
  where
    go :
        (b : Bool)
        → All (λ y. a ≤ y) (heap_push x ys)
        → All (λ y. a ≤ y) (if b then x ∷ y ∷ ys else y ∷ heap_push x ys)
    go true rest = (h, k)
    go false rest = (k.0, rest)

pub heap_push-IsSorted : (x : ℕ) (xs : List ℕ) → IsSorted xs → IsSorted (heap_push x xs)
unfolding heap_push
heap_push-IsSorted x [] h = (tt, tt)
heap_push-IsSorted x (y ∷ ys) h = go (leb x y) refl (heap_push-IsSorted x ys h.1)
  where
    go :
        (b : Bool)
        → leb x y ≡ b
        → IsSorted (heap_push x ys)
        → IsSorted (if b then x ∷ y ∷ ys else y ∷ heap_push x ys)
    go true e rest = ((ground arith, All-le_trans x y ys (ground arith) h.0), h)
    go false e rest = (All-heap_push y x ys (ground arith) h.0, rest)

swap : {P Q R : Type 0} → P ⊎ Q ⊎ R → Q ⊎ P ⊎ R
swap (inl p) = inr (inl p)
swap (inr (inl q)) = inl q
swap (inr (inr r)) = inr (inr r)

pub Elem-heap_push : (n x : ℕ) (xs : List ℕ) → Elem n (heap_push x xs) ↔ Elem n (x ∷ xs)
unfolding heap_push
Elem-heap_push n x [] = (λ e. e, λ e. e)
Elem-heap_push n x (y ∷ ys) = go (leb x y) (Elem-heap_push n x ys)
  where
    go :
        (b : Bool)
        → Elem n (heap_push x ys) ↔ Elem n (x ∷ ys)
        → Elem n (if b then x ∷ y ∷ ys else y ∷ heap_push x ys) ↔ Elem n (x ∷ y ∷ ys)
    go true rest = (λ e. e, λ e. e)
    go false rest = (
      λ e. elim e [ inl h ↦ inr (inl h) | inr h ↦ swap (inr (rest.0 h)) ],
      λ e. elim (swap e) [ inl h ↦ inl h | inr h ↦ inr (rest.1 h) ],
    )

==_refl : (x : ℕ) → (x == x) ≡ true
==_refl x = ground arith

-- What the loop of `Unwrap` makes behind the element `c`.
abbrev Unwrapped : ℕ → List ℕ → Type 0
Unwrapped c xs =
    IsIncreasing (c ∷ unwrap_from c xs)
    × ((n : ℕ) → Elem n (c ∷ xs) ↔ Elem n (c ∷ unwrap_from c xs))

unwrap_from-Unwrapped : (c : ℕ) (xs : List ℕ) → IsSorted (c ∷ xs) → Unwrapped c xs
unfolding unwrap_from
unwrap_from-Unwrapped c [] h = ((tt, tt), λ n. (λ e. e, λ e. e))
unwrap_from-Unwrapped c (x ∷ xs) h =
    go (x == c) refl (unwrap_from-Unwrapped c xs (h.0.1, h.1.1)) (unwrap_from-Unwrapped x xs h.1)
  where
    go :
        (b : Bool)
        → (x == c) ≡ b
        → Unwrapped c xs
        → Unwrapped x xs
        → IsIncreasing (c ∷ (if b then unwrap_from c xs else x ∷ unwrap_from x xs))
          × ((n : ℕ)
              → Elem n (c ∷ x ∷ xs)
                ↔ Elem n (c ∷ (if b then unwrap_from c xs else x ∷ unwrap_from x xs)))
    go true e kept next = (
      kept.0,
      λ n. (
        λ m. elim m [
          | inl k ↦ inl k
          | inr (inl k) ↦ inl (k ∙ (==_iff x c).0 e)
          | inr (inr k) ↦ (kept.1 n).0 (inr k)
        ],
        λ m. elim ((kept.1 n).1 m) [ inl k ↦ inl k | inr k ↦ inr (inr k) ],
      ),
    )
    go false e kept next = (
      ((ground (arith, h.0.0), All-lt_trans c x (unwrap_from x xs) h.0.0 next.0.0), next.0),
      λ n. (
        λ m. elim m [ inl k ↦ inl k | inr k ↦ inr ((next.1 n).0 k) ],
        λ m. elim m [ inl k ↦ inl k | inr k ↦ inr ((next.1 n).1 k) ],
      ),
    )

-- Condition: the heap yields its elements in order. Then `Unwrap` returns the elements of the heap, all
-- of them and no other, each once and in increasing order.
pub unwrap-IsIncreasing :
    (h : List ℕ) → IsSorted h → IsIncreasing (unwrap h) × ((n : ℕ) → Elem n h ↔ Elem n (unwrap h))
unfolding unwrap unwrap_from
unwrap-IsIncreasing [] s = (tt, λ n. (λ e. e, λ e. e))
unwrap-IsIncreasing (x ∷ xs) s =
    subst⁻¹
      (λ b.
        IsIncreasing (x ∷ (if b then unwrap_from x xs else x ∷ unwrap_from x xs))
        × ((n : ℕ)
            → Elem n (x ∷ xs)
              ↔ Elem n (x ∷ (if b then unwrap_from x xs else x ∷ unwrap_from x xs))))
      (==_refl x) (unwrap_from-Unwrapped x xs s)
