-- ===== src/Physical/Ranges.antt =====
-- The ranges of `buildIndexRanges` cut out the rows at the indices, in their order.
use frostdb.Base.{
  ℕ, zero, suc, ◌+◌, ◌<◌, ◌≤◌, ◌^◌, Bool, true, false, ◌&&◌, ◌||◌, List, [], ◌∷◌, ◌++◌, All, ltb,
  leb, ◌==◌, if◌then◌else◌, ◌≡◌, refl, sym, ap, ◌∙◌, ◌⊎◌, inl, inr, arith, All-map_of, ==_iff,
}
use frostdb.Base.Order.{IsIncreasing}
use frostdb.Physical.Predicates.{u32}
use frostdb.Physical.Evaluate.{ranges_from, build_index_ranges, slice, concatenate}

-- The indices from `s` to `e`, without it.
abbrev pub inside : ℕ → ℕ → ℕ → Bool
inside s e j = leb s j && ltb j e

abbrev pub has : List ℕ → ℕ → Bool
has [] j = false
has (i ∷ is) j = i == j || has is j

inside_shift : (s e k j : ℕ) → inside (suc k + s) (suc k + e) j ≡ inside (k + suc s) (k + suc e) j
inside_shift s e k j = ground arith

outside : (s k j : ℕ) → k ≤ j → inside (k + s) (k + 0) j ≡ false
outside s k j l = ground arith

first : (e k : ℕ) → inside (k + 0) (k + suc e) k ≡ true
first e k = ground arith

later : (e k j : ℕ) → suc k ≤ j → inside (suc k + 0) (suc k + e) j ≡ inside (k + 0) (k + suc e) j
later e k j l = ground arith

before : (s e k : ℕ) → inside (k + suc s) (k + suc e) k ≡ false
before s e k = ground arith

from_zero : (s e j : ℕ) → inside (0 + s) (0 + e) j ≡ inside s e j
from_zero s e j = ground arith

pub u32-small : (n : ℕ) → n < 2 ^ 32 → u32 n ≡ n
u32-small n h = omega (arith, h)

or_false : (b : Bool) → b ≡ (b || false)
or_false true = refl
or_false false = refl

pub or_true : (a b : Bool) → (a || b) ≡ true → (a ≡ true) ⊎ (b ≡ true)
or_true true b h = inl refl
or_true false b h = inr h

single : (n j : ℕ) → inside n (n + 1) j ≡ (n == j)
single n j = ground arith

longer :
    (s e n j : ℕ) (b : Bool)
    → s ≤ e
    → n ≡ e
    → (inside s (e + 1) j || b) ≡ (inside s e j || (n == j || b))
longer s e n j b o q = ground arith

near : (s e n j k : ℕ) → e ≤ n → inside s e j ≡ true → inside n (n + 1) k ≡ true → j < k
near s e n j k a p q = ground arith

far : (s e n j k : ℕ) → e ≤ n → inside s e j ≡ true → n < k → j < k
far s e n j k a p q = ground arith

has-above : (n k : ℕ) (is : List ℕ) → All (λ m. n < m) is → has is k ≡ true → n < k
has-above n k [] a h = absurd (cc)
has-above n k (i ∷ is) a h = elim (or_true (i == k) (has is k) h) [
  | inl e ↦ omega (arith, a.0, (==_iff i k).0 e)
  | inr g ↦ has-above n k is a.1 g
]

module _ {A : Type 0} where
  -- The elements whose index passes, the first index being `k`.
  abbrev pub kept : (ℕ → Bool) → ℕ → List A → List A
  kept f k [] = []
  kept f k (x ∷ xs) = let rest = kept f (suc k) xs in if f k then x ∷ rest else rest

  pub kept_cong :
      (f g : ℕ → Bool) (k : ℕ) (xs : List A)
      → ((j : ℕ) → k ≤ j → f j ≡ g j)
      → kept f k xs ≡ kept g k xs
  kept_cong f g k [] h = refl
  kept_cong f g k (x ∷ xs) h =
      rw
        (if◌then◌else◌, h k (omega arith), kept_cong f g (suc k) xs (λ j l. h j (omega (arith, l))))
        refl

  pub kept_none :
      (f : ℕ → Bool) (k : ℕ) (xs : List A) → ((j : ℕ) → k ≤ j → f j ≡ false) → kept f k xs ≡ []
  kept_none f k [] h = refl
  kept_none f k (x ∷ xs) h =
      rw (if◌then◌else◌, h k (omega arith)) (kept_none f (suc k) xs (λ j l. h j (omega (arith, l))))

  kept-append :
      (f g : ℕ → Bool) (k : ℕ) (xs : List A)
      → ((i j : ℕ) → f i ≡ true → g j ≡ true → i < j)
      → kept f k xs ++ kept g k xs ≡ kept (λ j. f j || g j) k xs
  kept-append f g k [] h = refl
  kept-append f g k (x ∷ xs) h = go (f k) (g k) refl refl (kept-append f g (suc k) xs h)
    where
      late : g k ≡ true → (b : Bool) (j : ℕ) → f j ≡ b → suc k ≤ j → b ≡ false
      late e true j p l = absurd (below (h j k p e))
        where
          below : j < k → ⊥
          below m = omega (arith, l, m)
      late e false j p l = refl

      go :
          (b c : Bool)
          → f k ≡ b
          → g k ≡ c
          → kept f (suc k) xs ++ kept g (suc k) xs ≡ kept (λ j. f j || g j) (suc k) xs
          → (if b then x ∷ kept f (suc k) xs else kept f (suc k) xs)
              ++ (if c then x ∷ kept g (suc k) xs else kept g (suc k) xs)
            ≡ (if b || c
                then x ∷ kept (λ j. f j || g j) (suc k) xs
                else kept (λ j. f j || g j) (suc k) xs)
      go true true p q r = absurd (never (h k k p q))
        where
          never : k < k → ⊥
          never m = omega (arith, m)
      go true false p q r = ap (λ l. x ∷ l) r
      go false false p q r = r
      go false true p q r =
          let none = kept_none f (suc k) xs (λ j l. late q (f j) j refl l) in
          ap (λ l. l ++ x ∷ kept g (suc k) xs) none
          ∙ ap (λ l. x ∷ l) (sym (ap (λ l. l ++ kept g (suc k) xs) none) ∙ r)

  slice-kept : (s e k : ℕ) (xs : List A) → slice s e xs ≡ kept (inside (k + s) (k + e)) k xs
  slice-kept s zero k xs = sym (kept_none (inside (k + s) (k + 0)) k xs (λ j l. outside s k j l))
  slice-kept s (suc e) k [] = refl
  slice-kept zero (suc e) k (x ∷ xs) =
      rw (if◌then◌else◌, first e k)
        (ap (λ l. x ∷ l)
          (slice-kept zero e (suc k) xs
            ∙ kept_cong (inside (suc k + 0) (suc k + e)) (inside (k + 0) (k + suc e)) (suc k) xs
                (λ j l. later e k j l)))
  slice-kept (suc s) (suc e) k (x ∷ xs) =
      rw (if◌then◌else◌, before s e k)
        (slice-kept s e (suc k) xs
          ∙ kept_cong (inside (suc k + s) (suc k + e)) (inside (k + suc s) (k + suc e)) (suc k) xs
              (λ j l. inside_shift s e k j))

  slice-inside : (s e : ℕ) (xs : List A) → slice s e xs ≡ kept (inside s e) 0 xs
  slice-inside s e xs =
      slice-kept s e 0 xs
      ∙ kept_cong (inside (0 + s) (0 + e)) (inside s e) 0 xs (λ j l. from_zero s e j)

  append_nil : (xs : List A) → xs ++ [] ≡ xs
  append_nil [] = refl
  append_nil (x ∷ xs) = ap (λ l. x ∷ l) (append_nil xs)

  -- A range and the indices behind it.
  ranges-kept :
      (s e : ℕ) (is : List ℕ) (xs : List A)
      → s ≤ e
      → All (λ i. e ≤ i) is
      → All (λ i. i + 1 < 2 ^ 32) is
      → IsIncreasing is
      → concatenate (ranges_from (record { start = s; end = e }) is) xs
        ≡ kept (λ j. inside s e j || has is j) 0 xs
  unfolding ranges_from concatenate
  ranges-kept s e [] xs o a w i =
      append_nil (slice s e xs)
      ∙ slice-inside s e xs
      ∙ kept_cong (inside s e) (λ j. inside s e j || false) 0 xs (λ j l. or_false (inside s e j))
  ranges-kept s e (n ∷ is) xs o a w i =
      go (n == e) refl
        (λ q.
          ranges-kept s (e + 1) is xs (omega (arith, o))
            (All-map_of is (λ m l. omega (arith, l, q)) i.0) w.1 i.1)
        (ranges-kept n (n + 1) is xs (omega arith) (All-map_of is (λ m l. omega (arith, l)) i.0) w.1
          i.1)
    where
      apart : (j k : ℕ) → inside s e j ≡ true → (inside n (n + 1) k || has is k) ≡ true → j < k
      apart j k p q = elim (or_true (inside n (n + 1) k) (has is k) q) [
        | inl u ↦ near s e n j k a.0 p u
        | inr u ↦ far s e n j k a.0 p (has-above n k is i.0 u)
      ]

      go :
          (b : Bool)
          → (n == e) ≡ b
          → (n ≡ e
              → concatenate (ranges_from (record { start = s; end = e + 1 }) is) xs
                ≡ kept (λ j. inside s (e + 1) j || has is j) 0 xs)
          → concatenate (ranges_from (record { start = n; end = n + 1 }) is) xs
            ≡ kept (λ j. inside n (n + 1) j || has is j) 0 xs
          → concatenate
              (if b
                then ranges_from (record { start = s; end = u32 (e + 1) }) is
                else (record { start = s; end = e })
                  ∷ ranges_from (record { start = n; end = u32 (n + 1) }) is)
              xs
            ≡ kept (λ j. inside s e j || (n == j || has is j)) 0 xs
      go true p f g =
          let q = (==_iff n e).0 p in
          ap (λ m. concatenate (ranges_from (record { start = s; end = m }) is) xs)
            (u32-small (e + 1) (omega (arith, w.0, q)))
          ∙ f q
          ∙ kept_cong (λ j. inside s (e + 1) j || has is j)
              (λ j. inside s e j || (n == j || has is j)) 0 xs
              (λ j l. longer s e n j (has is j) o q)
      go false p f g =
          ap (λ m. slice s e xs ++ concatenate (ranges_from (record { start = n; end = m }) is) xs)
            (u32-small (n + 1) w.0)
          ∙ ap (λ l. slice s e xs ++ l) g
          ∙ ap (λ l. l ++ kept (λ j. inside n (n + 1) j || has is j) 0 xs) (slice-inside s e xs)
          ∙ kept-append (inside s e) (λ j. inside n (n + 1) j || has is j) 0 xs apart
          ∙ kept_cong (λ j. inside s e j || (inside n (n + 1) j || has is j))
              (λ j. inside s e j || (n == j || has is j)) 0 xs
              (λ j l. ap (λ c. inside s e j || (c || has is j)) (single n j))

  -- The ranges of increasing indices, none of them 2^32 - 1, cut out the elements at these indices.
  pub build_index_ranges-kept :
      (is : List ℕ) (xs : List A)
      → All (λ i. i + 1 < 2 ^ 32) is
      → IsIncreasing is
      → concatenate (build_index_ranges is) xs ≡ kept (has is) 0 xs
  unfolding build_index_ranges concatenate
  build_index_ranges-kept [] xs w i = sym (kept_none (has []) 0 xs (λ j l. refl))
  build_index_ranges-kept (n ∷ is) xs w i =
      ap (λ m. concatenate (ranges_from (record { start = n; end = m }) is) xs)
        (u32-small (n + 1) w.0)
      ∙ ranges-kept n (n + 1) is xs (omega arith) (All-map_of is (λ m l. omega (arith, l)) i.0) w.1
          i.1
      ∙ kept_cong (λ j. inside n (n + 1) j || has is j) (has (n ∷ is)) 0 xs
          (λ j l. ap (λ c. c || has is j) (single n j))
