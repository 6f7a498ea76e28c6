-- ===== src/Dynamic/Lookup.antt =====
-- Maps as lists of entries: what is looked up in them, and sorted keys.
use frostdb.Base.{
  ℕ, Bool, true, false, ◌&&◌, ◌||◌, some, List, [], ◌∷◌, ◌==◌, All, if◌then◌else◌, ◌≡◌, refl, sym,
  ap, ◌∙◌, arith,
}
use frostdb.Filter.{name_eq, name_eq-eq}
use frostdb.Dynamic.{lookup, put, before, insert_string, sort_strings, seen}

pub name_same : (n : List ℕ) → name_eq n n ≡ true
name_same [] = refl
name_same (c ∷ n) = go c (name_same n)
  where
    go : (c : ℕ) → name_eq n n ≡ true → (c == c && name_eq n n) ≡ true
    go c h = ground (arith, h)

pub lookup-put :
    {A : Type 0} (k n : List ℕ) (v : A) (m : List (List ℕ × A))
    → lookup k (put n v m) ≡ (if name_eq n k then some v else lookup k m)
lookup-put k n v [] = refl
lookup-put k n v ((x, w) ∷ m) =
    go (name_eq x n) (name_eq x k) (name_eq n k) refl refl refl (lookup-put k n v m)
  where
    clash : (a : List ℕ) → name_eq a a ≡ false → ⊥
    clash a h = never (sym (name_same a) ∙ h)
      where
        never : true ≡ false → ⊥
        never h = absurd (cc)

    go :
        (b c d : Bool)
        → name_eq x n ≡ b
        → name_eq x k ≡ c
        → name_eq n k ≡ d
        → lookup k (put n v m) ≡ (if d then some v else lookup k m)
        → lookup k (if b then (n, v) ∷ m else (x, w) ∷ put n v m)
          ≡ (if d then some v else if c then some w else lookup k m)
    go true c true p q r h = rw (r) refl
    go true true false p q r h =
        let same = sym (name_eq-eq x k q) ∙ name_eq-eq x n p in
        absurd (clash n (ap (name_eq n) (sym same) ∙ r))
    go true false false p q r h = rw (r) refl
    go false true true p q r h =
        let same = name_eq-eq x k q ∙ sym (name_eq-eq n k r) in
        absurd (clash x (ap (name_eq x) same ∙ p))
    go false true false p q r h = rw (q) refl
    go false false d p q r h = rw (q) h

pub seen-insert :
    (s : List ℕ) (xs : List (List ℕ)) (k : List ℕ)
    → seen (insert_string s xs) k ≡ (name_eq s k || seen xs k)
seen-insert s [] k = refl
seen-insert s (x ∷ xs) k = go (before x s) (seen-insert s xs k)
  where
    swap : (a b c : Bool) → (a || (b || c)) ≡ (b || (a || c))
    swap true true c = refl
    swap true false c = refl
    swap false true c = refl
    swap false false c = refl

    go :
        (b : Bool)
        → seen (insert_string s xs) k ≡ (name_eq s k || seen xs k)
        → seen (if b then x ∷ insert_string s xs else s ∷ x ∷ xs) k
          ≡ (name_eq s k || (name_eq x k || seen xs k))
    go true h = ap (λ c. name_eq x k || c) h ∙ swap (name_eq x k) (name_eq s k) (seen xs k)
    go false h = refl

pub seen-sort : (xs : List (List ℕ)) (k : List ℕ) → seen (sort_strings xs) k ≡ seen xs k
unfolding sort_strings
seen-sort [] k = refl
seen-sort (x ∷ xs) k =
    seen-insert x (sort_strings xs) k ∙ ap (λ c. name_eq x k || c) (seen-sort xs k)

pub All-insert_string :
    (P : List ℕ → Type 0) (s : List ℕ) (xs : List (List ℕ))
    → P s
    → All P xs
    → All P (insert_string s xs)
All-insert_string P s [] p h = (p, tt)
All-insert_string P s (x ∷ xs) p h = go (before x s) (All-insert_string P s xs p h.1)
  where
    go :
        (b : Bool)
        → All P (insert_string s xs)
        → All P (if b then x ∷ insert_string s xs else s ∷ x ∷ xs)
    go true r = (h.0, r)
    go false r = (p, h)

pub All-sort : (P : List ℕ → Type 0) (xs : List (List ℕ)) → All P xs → All P (sort_strings xs)
unfolding sort_strings
All-sort P [] h = tt
All-sort P (x ∷ xs) h = All-insert_string P x (sort_strings xs) h.0 (All-sort P xs h.1)
