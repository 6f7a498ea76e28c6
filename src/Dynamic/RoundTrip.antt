-- ===== src/Dynamic/RoundTrip.antt =====
-- What serializeDynamicColumns writes, deserializeDynamicColumns reads.
use mathlib.Core.Path.{subst}
use frostdb.Base.{
  ℕ, zero, suc, ◌≤◌, ◌<◌, Bool, true, false, List, [], ◌∷◌, ◌++◌, length, All, All-append,
  All-map_of, ◌==◌, if◌then◌else◌, ◌≡◌, refl, sym, ap, ◌∙◌, arith, length-append,
}
use frostdb.Dynamic.{
  Columns, lookup, or_nil, put, preceded, joined, entry, entries, cut, labels_from, and_label,
  with_values, Read, finished, malformed, columns_from,
}

-- The text has no such byte.
abbrev pub Lacks : ℕ → List ℕ → Type 0
Lacks sep s = All (λ c. (c == sep) ≡ false) s

-- The last label is not empty, and no label has a separator.
abbrev pub IsFilled : List (List ℕ) → Type 0
IsFilled [] = Unit
IsFilled (l ∷ []) = 0 < length l
IsFilled (l ∷ k ∷ ls) = IsFilled (k ∷ ls)

abbrev pub AreLabels : List (List ℕ) → Type 0
AreLabels ls = All (λ l. Lacks b',' l × Lacks b';' l) ls × IsFilled ls

abbrev pub IsName : List ℕ → Type 0
IsName n = Lacks b':' n × Lacks b';' n

-- Names and labels that can be written.
abbrev pub AreWritable : Columns → Type 0
AreWritable m = All (λ (e : List ℕ × List (List ℕ)). IsName e.0 × AreLabels e.1) m

cut_found : (sep : ℕ) (s rest : List ℕ) → Lacks sep s → cut sep (s ++ sep ∷ rest) ≡ (s, rest, true)
cut_found sep [] rest h =
    ap
      (λ (b : Bool).
        if b
        then ([], rest, true)
        else (sep ∷ (cut sep rest).0, (cut sep rest).1, (cut sep rest).2))
      (itself sep)
  where
    itself : (sep : ℕ) → (sep == sep) ≡ true
    itself sep = ground arith
cut_found sep (c ∷ s) rest h = rw (h.0, cut_found sep s rest h.1) refl

cut_all : (sep : ℕ) (s : List ℕ) → Lacks sep s → cut sep s ≡ (s, [], false)
cut_all sep [] h = refl
cut_all sep (c ∷ s) h = rw (h.0, cut_all sep s h.1) refl

-- A round of the loop over the labels.
labels_round :
    (n : ℕ) (s : List ℕ)
    → 0 < length s
    → labels_from (suc n) s ≡ and_label (cut b',' s).0 (labels_from n (cut b',' s).1)
labels_round n [] h = absurd (never h)
  where
    never : 0 < 0 → ⊥
    never h = omega (arith, h)
labels_round n (c ∷ s) h = refl

labels_step :
    (n : ℕ) (s piece rest : List ℕ) (found : Bool) (ls : List (List ℕ))
    → 0 < length s
    → cut b',' s ≡ (piece, rest, found)
    → labels_from n rest ≡ finished ls
    → labels_from (suc n) s ≡ finished (piece ∷ ls)
labels_step n s piece rest found ls h c e =
    labels_round n s h
    ∙ ap (λ (t : List ℕ × List ℕ × Bool). and_label t.0 (labels_from n t.1)) c
    ∙ ap (and_label piece) e

append_nil : (s : List ℕ) → s ++ [] ≡ s
append_nil [] = refl
append_nil (c ∷ s) = ap (λ t. c ∷ t) (append_nil s)

-- What is behind a separator is shorter.
behind : (n sep : ℕ) (s rest : List ℕ) → length (s ++ sep ∷ rest) ≤ suc n → length rest ≤ n
behind n sep s rest h = omega (arith, h, length-append s (sep ∷ rest))

positive : (sep : ℕ) (s rest : List ℕ) → 0 < length (s ++ sep ∷ rest)
positive sep s rest = omega (arith, length-append s (sep ∷ rest))

zero_labels : (s : List ℕ) → 0 < length s → length s ≤ 0 → ⊥
zero_labels s h l = omega (arith, h, l)

labels-positive :
    (k : List ℕ) (ls : List (List ℕ)) → IsFilled (k ∷ ls) → 0 < length (joined b',' (k ∷ ls))
labels-positive k [] h = omega (arith, h, length-append k [])
labels-positive k (l ∷ ls) h = positive b',' k (l ++ preceded b',' ls)

labels_joined :
    (n : ℕ) (ls : List (List ℕ))
    → AreLabels ls
    → length (joined b',' ls) ≤ n
    → labels_from (suc n) (joined b',' ls) ≡ finished ls
labels_joined n [] h l = refl
labels_joined zero (k ∷ ls) h l =
    absurd (zero_labels (joined b',' (k ∷ ls)) (labels-positive k ls h.1) l)
labels_joined (suc n) (k ∷ []) h l =
    labels_step (suc n) (k ++ []) k [] false [] (labels-positive k [] h.1)
      (ap (cut b',') (append_nil k) ∙ cut_all b',' k h.0.0.0) refl
labels_joined (suc n) (k ∷ m ∷ ls) h l =
    labels_step (suc n) (k ++ b',' ∷ joined b',' (m ∷ ls)) k (joined b',' (m ∷ ls)) true (m ∷ ls)
      (labels-positive k (m ∷ ls) h.1) (cut_found b',' k (joined b',' (m ∷ ls)) h.0.0.0)
      (labels_joined n (m ∷ ls) (h.0.1, h.1) (behind n b',' k (joined b',' (m ∷ ls)) l))

Lacks-joined : (ls : List (List ℕ)) → All (λ l. Lacks b';' l) ls → Lacks b';' (joined b',' ls)
Lacks-joined [] h = tt
Lacks-joined (k ∷ ls) h =
    All-append (λ c. (c == b';') ≡ false) k (preceded b',' ls) h.0 (more ls h.1)
  where
    more : (ls : List (List ℕ)) → All (λ l. Lacks b';' l) ls → Lacks b';' (preceded b',' ls)
    more [] h = tt
    more (k ∷ ls) h =
        (refl, All-append (λ c. (c == b';') ≡ false) k (preceded b',' ls) h.0 (more ls h.1))

Lacks-written :
    (name : List ℕ) (ls : List (List ℕ))
    → IsName name
    → AreLabels ls
    → Lacks b';' (name ++ b':' ∷ joined b',' ls)
Lacks-written name ls h k =
    All-append (λ c. (c == b';') ≡ false) name (b':' ∷ joined b',' ls) h.1
      (refl, Lacks-joined ls (All-map_of ls (λ l h. h.1) k.0))

-- A round of the loop over the columns, from what its first and its second cut result in.
abbrev second_cut : ℕ → Columns → List ℕ → List ℕ × List ℕ × Bool → Read Columns
second_cut n m rest (name, labels, ok) =
    if ok
    then with_values (labels_from (suc (length labels)) labels)
        (λ values. columns_from n rest (put name values m))
    else malformed

abbrev first_cut : ℕ → Columns → List ℕ × List ℕ × Bool → Read Columns
first_cut n m (column, rest, found) = second_cut n m rest (cut b':' column)

columns_round :
    (n : ℕ) (s : List ℕ) (m : Columns)
    → 0 < length s
    → columns_from (suc n) s m ≡ first_cut n m (cut b';' s)
columns_round n [] m h = absurd (zero_labels [] h (omega arith))
columns_round n (c ∷ s) m h = refl

columns_step :
    (n : ℕ) (s rest name : List ℕ) (ls : List (List ℕ)) (found : Bool) (m : Columns)
    → IsName name
    → AreLabels ls
    → 0 < length s
    → cut b';' s ≡ (name ++ b':' ∷ joined b',' ls, rest, found)
    → columns_from (suc n) s m ≡ columns_from n rest (put name ls m)
columns_step n s rest name ls found m h k p e =
    columns_round n s m p
    ∙ ap (first_cut n m) e
    ∙ ap (second_cut n m rest) (cut_found b':' name (joined b',' ls) h.0)
    ∙ ap
        (λ (l : Read (List (List ℕ))).
          with_values l (λ values. columns_from n rest (put name values m)))
        (labels_joined (length (joined b',' ls)) ls k (omega arith))

abbrev pub put_each : Columns → List (List ℕ) → Columns → Columns
put_each w [] m = m
put_each w (name ∷ names) m = put_each w names (put name (or_nil (lookup name w)) m)

abbrev pub CanWrite : Columns → List ℕ → Type 0
CanWrite w name = IsName name × AreLabels (or_nil (lookup name w))

entry-positive : (w : Columns) (name : List ℕ) → 0 < length (entry w name)
entry-positive w name = positive b':' name (joined b',' (or_nil (lookup name w)))

pub columns_joined :
    (n : ℕ) (w : Columns) (names : List (List ℕ)) (m : Columns)
    → All (CanWrite w) names
    → length (joined b';' (entries w names)) ≤ n
    → columns_from (suc n) (joined b';' (entries w names)) m ≡ finished (put_each w names m)
columns_joined n w [] m h l = refl
columns_joined zero w (name ∷ []) m h l = absurd (
    zero_labels _
      (subst (λ s. 0 < length s) (sym (append_nil (entry w name))) (entry-positive w name)) l)
columns_joined zero w (name ∷ o ∷ names) m h l =
    absurd (zero_labels _ (positive b';' (entry w name) _) l)
columns_joined (suc n) w (name ∷ []) m h l =
    let ls = or_nil (lookup name w) in
    columns_step (suc n) (entry w name ++ []) [] name ls false m h.0.0 h.0.1
      (subst (λ s. 0 < length s) (sym (append_nil (entry w name))) (entry-positive w name))
      (ap (cut b';') (append_nil (entry w name))
        ∙ cut_all b';' (entry w name) (Lacks-written name ls h.0.0 h.0.1))
columns_joined (suc n) w (name ∷ o ∷ names) m h l =
    let ls = or_nil (lookup name w) in
    let rest = joined b';' (entries w (o ∷ names)) in
    columns_step (suc n) (entry w name ++ b';' ∷ rest) rest name ls true m h.0.0 h.0.1
      (positive b';' (entry w name) rest)
      (cut_found b';' (entry w name) rest (Lacks-written name ls h.0.0 h.0.1))
    ∙ columns_joined n w (o ∷ names) (put name ls m) h.1 (behind n b';' (entry w name) rest l)
