-- ===== src/Physical/Ordering/Covered.antt =====
-- The columns that a filter fixes: the rows that pass it have one value there.
use mathlib.Core.Path.{subst}
use frostdb.Base.{
  ℕ, suc, Bool, true, false, ◌&&◌, ◌||◌, some, List, [], ◌∷◌, All, ◌≡◌, refl, sym, ap, ◌∙◌, ◌⊎◌,
  inl, inr, if◌then◌else◌,
}
use frostdb.Filter.{name_eq, name_eq-eq}
use frostdb.Plan.{Op, Expr, binary, column, literal, accept, continue_with}
use frostdb.Plan.Op.{eq, not_eq, lt, lt_eq, gt, gt_eq, regex_match, regex_not_match, and}
use frostdb.Plan.Filters.{meaning}
use frostdb.Physical.Ordering.{
  SortingColumn, equality_visitor, equality_columns, listed, count_covered, slice_from,
}

pub data IsOtherOp : Op → Type 0 where
  other_not_eq : IsOtherOp not_eq
  other_lt : IsOtherOp lt
  other_lt_eq : IsOtherOp lt_eq
  other_gt : IsOtherOp gt
  other_gt_eq : IsOtherOp gt_eq
  other_match : IsOtherOp regex_match
  other_not_match : IsOtherOp regex_not_match

-- A conjunction of comparisons of a column with a literal.
pub data IsConjunction {S M : Type 0} : Expr S M → Type 0 where
  both :
      {left right : Expr S M}
      → IsConjunction left
      → IsConjunction right
      → IsConjunction (binary left and right)
  equals : (c : List ℕ) (s : S) → IsConjunction (binary (column c) eq (literal s))
  compares :
      (c : List ℕ) {op : Op} (s : S)
      → IsOtherOp op
      → IsConjunction (binary (column c) op (literal s))

-- Two rows in the order of some columns, `less` being the order of values.
abbrev pub InOrder :
    {V : Type 0} → (V → V → Type 0) → List SortingColumn → (List ℕ → V) → (List ℕ → V) → Type 0
InOrder less [] r s = Unit
InOrder less (c ∷ cols) r s =
    less (r c.name) (s c.name) ⊎ ((r c.name ≡ s c.name) × InOrder less cols r s)

both_true : (a b : Bool) → (a && b) ≡ true → (a ≡ true) × (b ≡ true)
both_true true b h = (refl, h)
both_true false b h = absurd (cc)

accept-and :
    {S M : Type 0} (left right : Expr S M) (names ns os : List (List ℕ))
    → accept equality_visitor left names ≡ (true, ns)
    → accept equality_visitor right ns ≡ (true, os)
    → accept equality_visitor (binary left and right) names ≡ (true, os)
unfolding accept
accept-and left right names ns os p q =
    ap
      (λ (x : Bool × List (List ℕ)).
        continue_with x (λ t. continue_with (accept equality_visitor right t) (λ u. (true, u))))
      p
    ∙ ap (λ (x : Bool × List (List ℕ)). continue_with x (λ u. (true, u))) q

-- Two rows, with what the comparisons of filters say of each.
module _ {S M V : Type 0} (r s : List ℕ → V) (of_r of_s : Expr S M → Bool) where
  abbrev pub Agree : List (List ℕ) → Type 0
  Agree names = All (λ c. r c ≡ s c) names

  -- Rows that equal one literal in a column equal one another there.
  abbrev pub Fixes : Type 0
  Fixes =
      (c : List ℕ) (v : S)
      → of_r (binary (column c) eq (literal v)) ≡ true
      → of_s (binary (column c) eq (literal v)) ≡ true
      → r c ≡ s c

  module _ (fixes : Fixes) where
    accept-Agree :
        {e : Expr S M} (names : List (List ℕ))
        → IsConjunction e
        → meaning of_r e ≡ true
        → meaning of_s e ≡ true
        → Agree names
        → (ns : List (List ℕ)) × (accept equality_visitor e names ≡ (true, ns)) × Agree ns
    unfolding accept
    accept-Agree names (both {left = l} {right = t} hl ht) m n a =
        let (ml, mr) = both_true (meaning of_r l) (meaning of_r t) m in
        let (nl, nr) = both_true (meaning of_s l) (meaning of_s t) n in
        let (ns, p, b) = accept-Agree names hl ml nl a in
        let (os, q, c) = accept-Agree ns ht mr nr b in (os, accept-and l t names ns os p q, c)
    accept-Agree names (equals c v) m n a = (c ∷ names, refl, (fixes c v m n, a))
    accept-Agree names (compares c v other_not_eq) m n a = (names, refl, a)
    accept-Agree names (compares c v other_lt) m n a = (names, refl, a)
    accept-Agree names (compares c v other_lt_eq) m n a = (names, refl, a)
    accept-Agree names (compares c v other_gt) m n a = (names, refl, a)
    accept-Agree names (compares c v other_gt_eq) m n a = (names, refl, a)
    accept-Agree names (compares c v other_match) m n a = (names, refl, a)
    accept-Agree names (compares c v other_not_match) m n a = (names, refl, a)

    pub equality_columns-Agree :
        {e : Expr S M}
        → IsConjunction e
        → meaning of_r e ≡ true
        → meaning of_s e ≡ true
        → Agree (equality_columns e)
    unfolding equality_columns
    equality_columns-Agree h m n =
        let (ns, p, a) = accept-Agree [] h m n tt in
        subst (λ (x : Bool × List (List ℕ)). Agree x.1) (sym p) a

  listed-Agree :
      (names : List (List ℕ)) (c : List ℕ) → listed names c ≡ true → Agree names → r c ≡ s c
  listed-Agree [] c h a = absurd (cc)
  listed-Agree (n ∷ names) c h a = go (name_eq n c) refl h (λ k. listed-Agree names c k a.1)
    where
      go :
          (b : Bool)
          → name_eq n c ≡ b
          → (b || listed names c) ≡ true
          → (listed names c ≡ true → r c ≡ s c)
          → r c ≡ s c
      go true e h f = subst (λ (x : List ℕ). r x ≡ s x) (name_eq-eq n c e) a.0
      go false e h f = f h

  -- What is left of the order of two rows that agree in the columns that are counted.
  pub count_covered-InOrder :
      (less : V → V → Type 0) (names : List (List ℕ)) (cols : List SortingColumn)
      → ((v : V) → less v v → ⊥)
      → Agree names
      → InOrder less cols r s
      → (rest : List SortingColumn) × (slice_from (count_covered names cols) cols ≡ some rest)
        × InOrder less rest r s
  unfolding count_covered
  count_covered-InOrder less names [] irr a h = ([], refl, tt)
  count_covered-InOrder less names (c ∷ cols) irr a h =
      go c.dynamic (listed names c.name) refl (λ k. count_covered-InOrder less names cols irr a k)
    where
      below : (r c.name ≡ s c.name) → InOrder less cols r s
      below e = elim h [
        | inl l ↦ absurd (irr (s c.name) (subst (λ (v : V). less v (s c.name)) e l))
        | inr k ↦ k.1
      ]

      go :
          (d l : Bool)
          → listed names c.name ≡ l
          → (InOrder less cols r s
              → (rest : List SortingColumn) × (slice_from (count_covered names cols) cols
                  ≡ some rest)
                × InOrder less rest r s)
          → (rest : List SortingColumn) × (slice_from
                (if d then 0 else if l then suc (count_covered names cols) else 0)
                (c ∷ cols)
              ≡ some rest)
            × InOrder less rest r s
      go true l e f = (c ∷ cols, refl, h)
      go false false e f = (c ∷ cols, refl, h)
      go false true e f = f (below (listed-Agree names c.name e a))
