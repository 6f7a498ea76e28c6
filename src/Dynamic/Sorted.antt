-- ===== src/Dynamic/Sorted.antt =====
-- The merged names of dynamic columns: sorted, each once, and those of all sets.
use frostdb.Base.{
  ℕ, Bool, true, false, ◌||◌, List, [], ◌∷◌, ◌++◌, All, All-map_of, if◌then◌else◌, ◌≡◌, refl, sym,
  ap, ◌∙◌, arith,
}
use frostdb.Filter.{name_eq, name_eq-eq}
use frostdb.Dynamic.{
  before, insert_string, sort_strings, seen, note_strings, note_all, merge_strings,
}
use frostdb.Dynamic.Lookup.{seen-sort, All-insert_string}

-- Each string comes before all that follow it.
abbrev pub AreSorted : List (List ℕ) → Type 0
AreSorted [] = Unit
AreSorted (x ∷ xs) = All (λ y. before x y ≡ true) xs × AreSorted xs

abbrev pub AreDistinct : List (List ℕ) → Type 0
AreDistinct [] = Unit
AreDistinct (x ∷ xs) = (seen xs x ≡ false) × AreDistinct xs

pub before_trans : (a b c : List ℕ) → before a b ≡ true → before b c ≡ true → before a c ≡ true
before_trans [] b [] h k = never b k
  where
    never : (b : List ℕ) → before b [] ≡ true → false ≡ true
    never [] k = k
    never (x ∷ b) k = k
before_trans [] b (z ∷ c) h k = refl
before_trans (x ∷ a) [] c h k = absurd (cc)
before_trans (x ∷ a) (y ∷ b) [] h k = absurd (cc)
before_trans (x ∷ a) (y ∷ b) (z ∷ c) h k = ground (arith, before_trans a b c)

pub before_irr : (a : List ℕ) → before a a ≡ false
before_irr [] = refl
before_irr (x ∷ a) = ground (arith, before_irr a)

-- Of two different strings one comes before the other.
connected : (a b : List ℕ) → before a b ≡ false → name_eq a b ≡ false → before b a ≡ true
connected [] [] h k = absurd (cc)
connected [] (y ∷ b) h k = absurd (cc)
connected (x ∷ a) [] h k = refl
connected (x ∷ a) (y ∷ b) h k = ground (arith, connected a b)

pub name_eq_flip : (a b : List ℕ) → name_eq a b ≡ false → name_eq b a ≡ false
name_eq_flip [] [] h = h
name_eq_flip [] (y ∷ b) h = refl
name_eq_flip (x ∷ a) [] h = refl
name_eq_flip (x ∷ a) (y ∷ b) h = ground (arith, name_eq_flip a b)

swap : (a b c : Bool) → (a || (b || c)) ≡ (b || (a || c))
swap true true c = refl
swap true false c = refl
swap false true c = refl
swap false false c = refl

swap_left : (a b c : Bool) → (a || (b || c)) ≡ ((b || a) || c)
swap_left true true c = refl
swap_left true false c = refl
swap_left false true c = refl
swap_left false false c = refl

pub or_false : (a : Bool) → (a || false) ≡ a
or_false true = refl
or_false false = refl

either_false : (a b : Bool) → (a || b) ≡ false → (a ≡ false) × (b ≡ false)
either_false true b h = absurd (cc)
either_false false b h = (refl, h)

insert-AreSorted :
    (s : List ℕ) (xs : List (List ℕ))
    → seen xs s ≡ false
    → AreSorted xs
    → AreSorted (insert_string s xs)
insert-AreSorted s [] d h = (tt, tt)
insert-AreSorted s (x ∷ xs) d h =
    let (e, f) = either_false (name_eq x s) (seen xs s) d in
    go (before x s) refl e (insert-AreSorted s xs f h.1)
  where
    go :
        (b : Bool)
        → before x s ≡ b
        → name_eq x s ≡ false
        → AreSorted (insert_string s xs)
        → AreSorted (if b then x ∷ insert_string s xs else s ∷ x ∷ xs)
    go true p e r = (All-insert_string (λ y. before x y ≡ true) s xs p h.0, r)
    go false p e r =
        let q = connected x s p e in ((q, All-map_of xs (λ y l. before_trans s x y q l) h.0), h)

sort-AreSorted : (xs : List (List ℕ)) → AreDistinct xs → AreSorted (sort_strings xs)
unfolding sort_strings
sort-AreSorted [] h = tt
sort-AreSorted (x ∷ xs) h =
    insert-AreSorted x (sort_strings xs) (seen-sort xs x ∙ h.0) (sort-AreSorted xs h.1)

-- Some of the lists has the string.
abbrev pub seen_in : List (List (List ℕ)) → List ℕ → Bool
seen_in [] n = false
seen_in (s ∷ str) n = seen s n || seen_in str n

seen-append :
    (xs : List (List ℕ)) (y n : List ℕ) → seen (xs ++ y ∷ []) n ≡ (name_eq y n || seen xs n)
seen-append [] y n = refl
seen-append (x ∷ xs) y n =
    ap (λ c. name_eq x n || c) (seen-append xs y n) ∙ swap (name_eq x n) (name_eq y n) (seen xs n)

-- A string that is there already adds nothing.
there :
    (x n : List ℕ) (xs : List (List ℕ)) → seen xs x ≡ true → seen xs n ≡ (name_eq x n || seen xs n)
there x n xs h = go (name_eq x n) refl
  where
    go : (b : Bool) → name_eq x n ≡ b → seen xs n ≡ (b || seen xs n)
    go true e = ap (seen xs) (sym (name_eq-eq x n e)) ∙ h
    go false e = refl

note-seen :
    (ns result : List (List ℕ)) (n : List ℕ)
    → seen (note_strings ns result) n ≡ (seen ns n || seen result n)
note-seen [] result n = refl
note-seen (x ∷ ns) result n =
    note-seen ns (if seen result x then result else result ++ x ∷ []) n
    ∙ ap (λ c. seen ns n || c) (added (seen result x) refl)
    ∙ swap_left (seen ns n) (name_eq x n) (seen result n)
  where
    added :
        (b : Bool)
        → seen result x ≡ b
        → seen (if b then result else result ++ x ∷ []) n ≡ (name_eq x n || seen result n)
    added true h = there x n result h
    added false h = seen-append result x n

note_all-seen :
    (str : List (List (List ℕ))) (result : List (List ℕ)) (n : List ℕ)
    → seen (note_all str result) n ≡ (seen_in str n || seen result n)
note_all-seen [] result n = refl
note_all-seen (s ∷ str) result n =
    note_all-seen str (note_strings s result) n
    ∙ ap (λ c. seen_in str n || c) (note-seen s result n)
    ∙ swap_left (seen_in str n) (seen s n) (seen result n)

append-AreDistinct :
    (xs : List (List ℕ)) (y : List ℕ)
    → AreDistinct xs
    → seen xs y ≡ false
    → AreDistinct (xs ++ y ∷ [])
append-AreDistinct [] y h d = (refl, tt)
append-AreDistinct (x ∷ xs) y h d =
    let (e, f) = either_false (name_eq x y) (seen xs y) d in
    (
      seen-append xs y x ∙ ap (λ c. c || seen xs x) (name_eq_flip x y e) ∙ h.0,
      append-AreDistinct xs y h.1 f,
    )

note-AreDistinct :
    (ns result : List (List ℕ)) → AreDistinct result → AreDistinct (note_strings ns result)
note-AreDistinct [] result h = h
note-AreDistinct (x ∷ ns) result h =
    note-AreDistinct ns (if seen result x then result else result ++ x ∷ [])
      (added (seen result x) refl)
  where
    added : (b : Bool) → seen result x ≡ b → AreDistinct (if b then result else result ++ x ∷ [])
    added true e = h
    added false e = append-AreDistinct result x h e

note_all-AreDistinct :
    (str : List (List (List ℕ))) (result : List (List ℕ))
    → AreDistinct result
    → AreDistinct (note_all str result)
note_all-AreDistinct [] result h = h
note_all-AreDistinct (s ∷ str) result h =
    note_all-AreDistinct str (note_strings s result) (note-AreDistinct s result h)

-- The merged strings stand in order, each once.
pub merge_strings-AreSorted : (str : List (List (List ℕ))) → AreSorted (merge_strings str)
unfolding merge_strings
merge_strings-AreSorted str = sort-AreSorted (note_all str []) (note_all-AreDistinct str [] tt)

-- They are the strings of all lists.
pub merge_strings-seen :
    (str : List (List (List ℕ))) (n : List ℕ) → seen (merge_strings str) n ≡ seen_in str n
unfolding merge_strings
merge_strings-seen str n =
    seen-sort (note_all str []) n ∙ note_all-seen str [] n ∙ or_false (seen_in str n)
