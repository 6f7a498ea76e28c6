-- ===== src/Physical/Listed.antt =====
-- Lists of numbers as bitmaps.
use frostdb.Base.{
  ℕ, zero, suc, ◌<◌, Bool, true, false, ◌&&◌, ◌||◌, List, [], ◌∷◌, ◌++◌, All, All-map_of, ltb, ◌==◌,
  ==_iff, if◌then◌else◌, ◌≡◌, refl, sym, ap, ◌∙◌, arith,
}
use frostdb.Base.Order.{IsIncreasing}
use frostdb.Physical.Bitmaps.{Bitmaps}
use frostdb.Physical.Ranges.{has}
use frostdb.Physical.Indices.{has-Elem, Elem-has}

abbrev insert : ℕ → List ℕ → List ℕ
insert n [] = n ∷ []
insert n (x ∷ xs) =
    let rest = x ∷ insert n xs in if ltb n x then n ∷ x ∷ xs else if n == x then x ∷ xs else rest

abbrev sorted : List ℕ → List ℕ
sorted [] = []
sorted (x ∷ xs) = insert x (sorted xs)

abbrev up_to : ℕ → List ℕ
up_to zero = []
up_to (suc n) = n ∷ up_to n

abbrev filtered : (ℕ → Bool) → List ℕ → List ℕ
filtered f [] = []
filtered f (x ∷ xs) = let rest = filtered f xs in if f x then x ∷ rest else rest

has-insert : (n : ℕ) (xs : List ℕ) (i : ℕ) → has (insert n xs) i ≡ (n == i || has xs i)
has-insert n [] i = refl
has-insert n (x ∷ xs) i = go (ltb n x) (n == x) refl (has-insert n xs i)
  where
    equal : (n x i : ℕ) (c : Bool) → (n == x) ≡ true → (x == i || c) ≡ (n == i || (x == i || c))
    equal n x i c h = ground arith

    swap : (a b c : Bool) → (a || (b || c)) ≡ (b || (a || c))
    swap true true c = refl
    swap true false c = refl
    swap false true c = refl
    swap false false c = refl

    go :
        (l e : Bool)
        → (n == x) ≡ e
        → has (insert n xs) i ≡ (n == i || has xs i)
        → has (if l then n ∷ x ∷ xs else if e then x ∷ xs else x ∷ insert n xs) i
          ≡ (n == i || (x == i || has xs i))
    go true e p h = refl
    go false true p h = equal n x i (has xs i) p
    go false false p h = ap (λ c. x == i || c) h ∙ swap (x == i) (n == i) (has xs i)

pub has-sorted : (xs : List ℕ) (i : ℕ) → has (sorted xs) i ≡ has xs i
has-sorted [] i = refl
has-sorted (x ∷ xs) i = has-insert x (sorted xs) i ∙ ap (λ c. x == i || c) (has-sorted xs i)

pub has-append : (xs ys : List ℕ) (i : ℕ) → has (xs ++ ys) i ≡ (has xs i || has ys i)
has-append [] ys i = refl
has-append (x ∷ xs) ys i = go (x == i) (has-append xs ys i)
  where
    go :
        (b : Bool)
        → has (xs ++ ys) i ≡ (has xs i || has ys i)
        → (b || has (xs ++ ys) i) ≡ ((b || has xs i) || has ys i)
    go true h = refl
    go false h = h

pub has-up_to : (n i : ℕ) → has (up_to n) i ≡ ltb i n
has-up_to zero i = ground arith
has-up_to (suc n) i = ap (λ c. n == i || c) (has-up_to n i) ∙ step n i
  where
    step : (n i : ℕ) → (n == i || ltb i n) ≡ ltb i (suc n)
    step n i = ground arith

pub has-filtered : (f : ℕ → Bool) (xs : List ℕ) (i : ℕ) → has (filtered f xs) i ≡ (has xs i && f i)
has-filtered f [] i = refl
has-filtered f (x ∷ xs) i = go (f x) (x == i) refl refl (has-filtered f xs i)
  where
    go :
        (b t : Bool)
        → f x ≡ b
        → (x == i) ≡ t
        → has (filtered f xs) i ≡ (has xs i && f i)
        → has (if b then x ∷ filtered f xs else filtered f xs) i ≡ ((t || has xs i) && f i)
    go true true p q h = rw (q) (sym (ap f (sym ((==_iff x i).0 q)) ∙ p))
    go true false p q h = rw (q) h
    go false true p q h =
        let no = ap f (sym ((==_iff x i).0 q)) ∙ p in h ∙ never (has xs i) (f i) no ∙ sym no
      where
        never : (a c : Bool) → c ≡ false → (a && c) ≡ false
        never true c h = h
        never false c h = refl
    go false false p q h = h

All-insert : (m n : ℕ) (xs : List ℕ) → m < n → All (λ i. m < i) xs → All (λ i. m < i) (insert n xs)
All-insert m n [] h a = (h, tt)
All-insert m n (x ∷ xs) h a = go (ltb n x) (n == x) (All-insert m n xs h a.1)
  where
    go :
        (l e : Bool)
        → All (λ i. m < i) (insert n xs)
        → All (λ i. m < i) (if l then n ∷ x ∷ xs else if e then x ∷ xs else x ∷ insert n xs)
    go true e r = (h, a)
    go false true r = a
    go false false r = (a.0, r)

insert-IsIncreasing : (n : ℕ) (xs : List ℕ) → IsIncreasing xs → IsIncreasing (insert n xs)
insert-IsIncreasing n [] h = (tt, tt)
insert-IsIncreasing n (x ∷ xs) h = go (ltb n x) (n == x) refl refl (insert-IsIncreasing n xs h.1)
  where
    less : ltb n x ≡ true → n < x
    less p = ground (arith, p)

    greater : ltb n x ≡ false → (n == x) ≡ false → x < n
    greater p q = ground (arith, p, q)

    go :
        (l e : Bool)
        → ltb n x ≡ l
        → (n == x) ≡ e
        → IsIncreasing (insert n xs)
        → IsIncreasing (if l then n ∷ x ∷ xs else if e then x ∷ xs else x ∷ insert n xs)
    go true e p q r = ((less p, All-map_of xs (λ i k. omega (arith, k, less p)) h.0), h)
    go false true p q r = h
    go false false p q r = (All-insert x n xs (greater p q) h.0, r)

pub sorted-IsIncreasing : (xs : List ℕ) → IsIncreasing (sorted xs)
sorted-IsIncreasing [] = tt
sorted-IsIncreasing (x ∷ xs) = insert-IsIncreasing x (sorted xs) (sorted-IsIncreasing xs)

abbrev pub listed : Bitmaps (List ℕ)
listed = record {
  new_bitmap = [];
  add = λ n b. n ∷ b;
  add_range = λ n b. up_to n ++ b;
  and_with = λ a b. filtered (has b) a;
  or_with = λ a b. a ++ b;
  to_array = sorted;
  contains = has;
  contains-new = λ i. refl;
  contains-add = λ n i b. refl;
  contains-range = λ n i b. has-append (up_to n) b i ∙ ap (λ c. c || has b i) (has-up_to n i);
  contains-and = λ a b i. has-filtered (has b) a i;
  contains-or = λ a b i. has-append a b i;
  array-IsIncreasing = sorted-IsIncreasing;
  array-Elem = λ b i. (
    λ e. sym (has-sorted b i) ∙ Elem-has i (sorted b) e,
    λ h. has-Elem i (sorted b) (has-sorted b i ∙ h),
  );
}
