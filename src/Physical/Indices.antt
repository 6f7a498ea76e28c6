-- ===== src/Physical/Indices.antt =====
-- The indices of the rows that are kept, and the rows of the ranges that are built of them.
use frostdb.Base.{
  ℕ, suc, ◌+◌, ◌-◌, ◌<◌, ◌≤◌, ◌^◌, Bool, true, false, ◌||◌, List, [], ◌∷◌, length, Elem, All,
  All-map_of, ◌==◌, if◌then◌else◌, ◌≡◌, refl, sym, ap, ◌∙◌, inl, inr, arith, ==_iff,
}
use frostdb.Base.Order.{IsIncreasing}
use frostdb.Physical.Predicates.{u32}
use frostdb.Physical.Evaluate.{ranges_from, build_index_ranges, total_rows}
use frostdb.Physical.Ranges.{kept, kept_cong, kept_none, has, u32-small, or_true}

total-ranges :
    (s e : ℕ) (is : List ℕ)
    → s ≤ e
    → All (λ i. i + 1 < 2 ^ 32) is
    → total_rows (ranges_from (record { start = s; end = e }) is) ≡ (e - s) + length is
unfolding ranges_from
total-ranges s e [] o w = refl
total-ranges s e (n ∷ is) o w =
    go (n == e) refl (total-ranges s (e + 1) is (omega (arith, o)) w.1)
      (total-ranges n (n + 1) is (omega arith) w.1)
  where
    go :
        (b : Bool)
        → (n == e) ≡ b
        → total_rows (ranges_from (record { start = s; end = e + 1 }) is) ≡ (e + 1 - s) + length is
        → total_rows (ranges_from (record { start = n; end = n + 1 }) is) ≡ (n + 1 - n) + length is
        → total_rows (
            if b
            then ranges_from (record { start = s; end = u32 (e + 1) }) is
            else (record { start = s; end = e })
              ∷ ranges_from (record { start = n; end = u32 (n + 1) }) is)
          ≡ (e - s) + suc (length is)
    go true p f g =
        let q = (==_iff n e).0 p in
        ap (λ m. total_rows (ranges_from (record { start = s; end = m }) is))
          (u32-small (e + 1) (omega (arith, w.0, q)))
        ∙ f
        ∙ omega (arith, o)
    go false p f g =
        ap (λ m. (e - s) + total_rows (ranges_from (record { start = n; end = m }) is))
          (u32-small (n + 1) w.0)
        ∙ ap (λ m. (e - s) + m) g
        ∙ omega arith

-- The ranges of indices have as many rows as there are indices.
pub total-build :
    (i : ℕ) (is : List ℕ)
    → All (λ i. i + 1 < 2 ^ 32) (i ∷ is)
    → total_rows (build_index_ranges (i ∷ is)) ≡ suc (length is)
unfolding build_index_ranges
total-build i is w =
    ap (λ m. total_rows (ranges_from (record { start = i; end = m }) is)) (u32-small (i + 1) w.0)
    ∙ total-ranges i (i + 1) is (omega arith) w.1
    ∙ omega arith

-- Increasing indices from `k` on and below `n` are no more than there are between.
pub length-below :
    (is : List ℕ) (k n : ℕ)
    → k ≤ n
    → All (λ i. k ≤ i) is
    → All (λ i. i < n) is
    → IsIncreasing is
    → length is + k ≤ n
length-below [] k n o a b i = omega (arith, o)
length-below (m ∷ is) k n o a b i = omega (
  arith,
  a.0,
  length-below is (suc m) n (omega (arith, b.0)) (All-map_of is (λ j l. omega (arith, l)) i.0) b.1
      i.1,
)

has_above : (k : ℕ) (is : List ℕ) → All (λ i. k < i) is → has is k ≡ false
has_above k [] a = refl
has_above k (i ∷ is) a = rw (has_above k is a.1) (unequal i k a.0)
  where
    unequal : (i k : ℕ) → k < i → (i == k || false) ≡ false
    unequal i k l = ground arith

-- As many elements are kept as there are indices, if all of these are in the list.
pub length-kept :
    {A : Type 0} (is : List ℕ) (k : ℕ) (xs : List A)
    → All (λ i. k ≤ i) is
    → All (λ i. i < k + length xs) is
    → IsIncreasing is
    → length (kept (has is) k xs) ≡ length is
length-kept [] k xs a b i = ap length (kept_none (has []) k xs (λ j l. refl))
length-kept (m ∷ is) k [] a b i = absurd (never m k a.0 b.0)
  where
    never : (m k : ℕ) → k ≤ m → m < k + 0 → ⊥
    never m k p q = omega (arith, p, q)
length-kept (m ∷ is) k (x ∷ xs) a b i =
    go (m == k) refl
      (λ q.
        length-kept is (suc k) xs (All-map_of is (λ j l. omega (arith, l, q)) i.0)
          (All-map_of is (λ j l. omega (arith, l)) b.1) i.1)
      (λ q.
        length-kept (m ∷ is) (suc k) xs (q, All-map_of is (λ j l. omega (arith, l, q)) i.0)
          (omega (arith, b.0), All-map_of is (λ j l. omega (arith, l)) b.1) i)
  where
    unequal : (j : ℕ) → m ≡ k → suc k ≤ j → has (m ∷ is) j ≡ has is j
    unequal j q l = ap (λ c. c || has is j) (apart m j (omega (arith, q, l)))
      where
        apart : (m j : ℕ) → m < j → (m == j) ≡ false
        apart m j l = ground arith

    above : (m k : ℕ) → (m == k) ≡ false → k ≤ m → k < m
    above m k p q = ground arith

    go :
        (c : Bool)
        → (m == k) ≡ c
        → (m ≡ k → length (kept (has is) (suc k) xs) ≡ length is)
        → (k < m → length (kept (has (m ∷ is)) (suc k) xs) ≡ suc (length is))
        → length (
            if c || has is k
            then x ∷ kept (has (m ∷ is)) (suc k) xs
            else kept (has (m ∷ is)) (suc k) xs)
          ≡ suc (length is)
    go true p f g =
        let q = (==_iff m k).0 p in
        ap (λ l. suc (length l))
          (kept_cong (has (m ∷ is)) (has is) (suc k) xs (λ j l. unequal j q l))
        ∙ ap suc (f q)
    go false p f g =
        let q = above m k p a.0 in
        ap
          (λ c.
            length
              (if c then x ∷ kept (has (m ∷ is)) (suc k) xs else kept (has (m ∷ is)) (suc k) xs))
          (has_above k is (All-map_of is (λ j l. omega (arith, l, q)) i.0))
        ∙ g q

or_right : (a b : Bool) → b ≡ true → (a || b) ≡ true
or_right true b h = refl
or_right false b h = h

pub Elem-has : (j : ℕ) (is : List ℕ) → Elem j is → has is j ≡ true
Elem-has j [] p = elim p [ ]
Elem-has j (i ∷ is) (inl p) = itself i j p
  where
    itself : (i j : ℕ) → j ≡ i → (i == j || has is j) ≡ true
    itself i j p = ground arith
Elem-has j (i ∷ is) (inr p) = or_right (i == j) (has is j) (Elem-has j is p)

pub has-Elem : (j : ℕ) (is : List ℕ) → has is j ≡ true → Elem j is
has-Elem j [] h = absurd (cc)
has-Elem j (i ∷ is) h = elim (or_true (i == j) (has is j) h) [
  | inl p ↦ inl (sym ((==_iff i j).0 p))
  | inr p ↦ inr (has-Elem j is p)
]

pub same_truth : (a b : Bool) → (a ≡ true → b ≡ true) → (b ≡ true → a ≡ true) → a ≡ b
same_truth true b f g = sym (f refl)
same_truth false true f g = g refl
same_truth false false f g = refl

pub All-has : (P : ℕ → Type 0) (is : List ℕ) → ((j : ℕ) → has is j ≡ true → P j) → All P is
All-has P [] f = tt
All-has P (i ∷ is) f = (
  f i (Elem-has i (i ∷ is) (inl refl)),
  All-has P is (λ j h. f j (or_right (i == j) (has is j) h)),
)
