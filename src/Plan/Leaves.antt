-- ===== src/Plan/Leaves.antt =====
-- What a visitor that stops at what it looks for finds in an expression.
use frostdb.Base.{
  ℕ, Bool, true, false, ◌||◌, Option, none, some, List, [], ◌∷◌, ◌++◌, ◌≡◌, refl, sym, ap, ◌∙◌, ◌↔◌,
  if◌then◌else◌,
}
use frostdb.Plan.{
  Expr, binary, column, literal, aggregation, alias, Visitor, accept, accept_leaf, continue_with,
}
use frostdb.Plan.Validate.{
  nil_type_compared, string_compared_with_number, number_compared_with_string, LogicalType, nil,
  utf8, integer, other_type, Kinds, left_column, right_literal, validate_comparing_types,
  column_finder, literal_finder,
}

abbrev or_else : {A : Type 0} → Option A → Option A → Option A
or_else none o = o
or_else (some a) o = some a

-- A visitor goes on with what it had, or stops with what it found.
abbrev found : {A : Type 0} → Option A → Option A → Bool × Option A
found t none = (true, t)
found t (some a) = (false, some a)

kept : {A : Type 0} (o : Option A) → (found none o).1 ≡ o
kept none = refl
kept (some a) = refl

module _ {S M : Type 0} where
  -- The leaves of an expression that a visitor comes by, from the left to the right.
  abbrev pub leaves : Expr S M → List (Expr S M)
  leaves (binary left op right) = leaves left ++ leaves right
  leaves (aggregation f e) = leaves e
  leaves (alias e a) = leaves e
  leaves e = e ∷ []

  abbrev pub first_column : List (Expr S M) → Option (List ℕ)
  first_column [] = none
  first_column (column name ∷ es) = some name
  first_column (e ∷ es) = first_column es

  abbrev pub first_literal : List (Expr S M) → Option S
  first_literal [] = none
  first_literal (literal s ∷ es) = some s
  first_literal (e ∷ es) = first_literal es

  -- What is found first.
  abbrev first : {A : Type 0} → (Expr S M → Option A) → List (Expr S M) → Option A
  first test [] = none
  first test (e ∷ es) = or_else (test e) (first test es)

  first-append :
      {A : Type 0} (test : Expr S M → Option A) (xs ys : List (Expr S M))
      → first test (xs ++ ys) ≡ or_else (first test xs) (first test ys)
  first-append test [] ys = refl
  first-append test (x ∷ xs) ys =
      ap (or_else (test x)) (first-append test xs ys)
      ∙ assoc (test x) (first test xs) (first test ys)
    where
      assoc : {A : Type 0} (a b c : Option A) → or_else a (or_else b c) ≡ or_else (or_else a b) c
      assoc none b c = refl
      assoc (some x) b c = refl

  -- A visitor that looks for what passes a test, which no inner expression does.
  record Finder {A : Type 0} (v : Visitor S M (Option A)) (test : Expr S M → Option A)
      : Type 0 where
    before : (e : Expr S M) (t : Option A) → v.pre_visit e t ≡ (true, t)
    between : (e : Expr S M) (t : Option A) → v.visit e t ≡ (true, t)
    after : (e : Expr S M) (t : Option A) → v.post_visit e t ≡ found t (test e)

  module _ {A : Type 0} (v : Visitor S M (Option A)) (test : Expr S M → Option A)
      (f : Finder v test) (in_binary : (l r : Expr S M) (op : _) → test (binary l op r) ≡ none)
      (in_aggregation : (g : _) (e : Expr S M) → test (aggregation g e) ≡ none)
      (in_alias : (e : Expr S M) (a : _) → test (alias e a) ≡ none) where
    at_leaf : (e : Expr S M) (t : Option A) → accept_leaf v e t ≡ found t (or_else (test e) none)
    at_leaf e t =
        ap (λ x. continue_with x (v.post_visit e)) (f.before e t) ∙ f.after e t ∙ plain (test e)
      where
        plain : (o : Option A) → found t o ≡ found t (or_else o none)
        plain none = refl
        plain (some a) = refl

    -- An inner expression adds nothing behind its parts.
    behind :
        (e : Expr S M) (t o : Option A)
        → test e ≡ none
        → continue_with (found t o) (v.post_visit e) ≡ found t o
    behind e t none h = f.after e t ∙ ap (found t) h
    behind e t (some a) h = refl

    accept-first : (e : Expr S M) (t : Option A) → accept v e t ≡ found t (first test (leaves e))
    unfolding accept
    accept-first (binary left op right) t =
        let e = binary left op right in
        ap
          (λ x. continue_with x (λ t. continue_with (accept v left t) (λ t.
            continue_with (v.visit e t) (λ t. continue_with (accept v right t) (v.post_visit e)))))
          (f.before e t)
        ∙ ap
            (λ x. continue_with x (λ t.
              continue_with (v.visit e t) (λ t. continue_with (accept v right t) (v.post_visit e))))
            (accept-first left t)
        ∙ go (first test (leaves left)) (accept-first right t)
        ∙ ap (found t) (sym (first-append test (leaves left) (leaves right)))
      where
        go :
            (a : Option A)
            → accept v right t ≡ found t (first test (leaves right))
            → continue_with (found t a) (λ t.
              continue_with
                (v.visit (binary left op right) t)
                (λ t. continue_with (accept v right t) (v.post_visit (binary left op right))))
              ≡ found t (or_else a (first test (leaves right)))
        go none h =
            let e = binary left op right in
            ap (λ x. continue_with x (λ t. continue_with (accept v right t) (v.post_visit e)))
              (f.between e t)
            ∙ ap (λ x. continue_with x (v.post_visit e)) h
            ∙ behind e t (first test (leaves right)) (in_binary left right op)
        go (some a) h = refl
    accept-first (aggregation g e) t =
        ap
          (λ x.
            continue_with x (λ t. continue_with (accept v e t) (v.post_visit (aggregation g e))))
          (f.before (aggregation g e) t)
        ∙ ap (λ x. continue_with x (v.post_visit (aggregation g e))) (accept-first e t)
        ∙ behind (aggregation g e) t (first test (leaves e)) (in_aggregation g e)
    accept-first (alias e a) t =
        ap (λ x. continue_with x (λ t. continue_with (accept v e t) (v.post_visit (alias e a))))
          (f.before (alias e a) t)
        ∙ ap (λ x. continue_with x (v.post_visit (alias e a))) (accept-first e t)
        ∙ behind (alias e a) t (first test (leaves e)) (in_alias e a)
    accept-first e t = at_leaf e t

  abbrev column_of : Expr S M → Option (List ℕ)
  column_of (column name) = some name
  column_of e = none

  abbrev literal_of : Expr S M → Option S
  literal_of (literal s) = some s
  literal_of e = none

  column-Finder : Finder column_finder column_of
  column-Finder = record { before = λ e t. refl; between = λ e t. refl; after = after' }
    where
      after' :
          (e : Expr S M) (t : Option (List ℕ))
          → column_finder.post_visit e t ≡ found t (column_of e)
      after' (column name) t = refl
      after' e t = refl

  literal-Finder : Finder literal_finder literal_of
  literal-Finder = record { before = λ e t. refl; between = λ e t. refl; after = after' }
    where
      after' :
          (e : Expr S M) (t : Option S) → literal_finder.post_visit e t ≡ found t (literal_of e)
      after' (literal s) t = refl
      after' e t = refl

  columns-first : (es : List (Expr S M)) → first column_of es ≡ first_column es
  columns-first [] = refl
  columns-first (column name ∷ es) = refl
  columns-first (e ∷ es) = columns-first es

  literals-first : (es : List (Expr S M)) → first literal_of es ≡ first_literal es
  literals-first [] = refl
  literals-first (literal s ∷ es) = refl
  literals-first (e ∷ es) = literals-first es

  -- The column that the validation finds is the first of the leaves, and so is the literal.
  pub left_column-first : (e : Expr S M) → left_column e ≡ first_column (leaves e)
  unfolding left_column
  left_column-first e =
      ap (λ (x : Bool × Option (List ℕ)). x.1)
        (accept-first column_finder column_of column-Finder (λ l r op. refl) (λ g e. refl)
          (λ e a. refl) e none)
      ∙ kept (first column_of (leaves e))
      ∙ columns-first (leaves e)

  pub right_literal-first : (e : Expr S M) → right_literal e ≡ first_literal (leaves e)
  unfolding right_literal
  right_literal-first e =
      ap (λ (x : Bool × Option S). x.1)
        (accept-first literal_finder literal_of literal-Finder (λ l r op. refl) (λ g e. refl)
          (λ e a. refl) e none)
      ∙ kept (first literal_of (leaves e))
      ∙ literals-first (leaves e)

-- The literals that a column of a type may be compared with: a column without a logical type with a
-- Boolean, a text with no number, and an integer with no text.
abbrev pub IsAllowed : {S : Type 0} → Kinds S → LogicalType → S → Type 0
IsAllowed kinds nil s = kinds.is_boolean s ≡ true
IsAllowed kinds utf8 s = (kinds.is_float64 s ≡ false) × (kinds.is_int64 s ≡ false)
IsAllowed kinds integer s = kinds.is_string s ≡ false
IsAllowed kinds other_type s = Unit

pub validate_comparing_types-IsAllowed :
    {S : Type 0} (kinds : Kinds S) (t : LogicalType) (s : S)
    → (validate_comparing_types kinds t s ≡ none) ↔ IsAllowed kinds t s
unfolding validate_comparing_types
validate_comparing_types-IsAllowed kinds nil s = go (kinds.is_boolean s)
  where
    go : (b : Bool) → ((if b then none else some nil_type_compared) ≡ none) ↔ (b ≡ true)
    go true = (λ h. refl, λ h. refl)
    go false = (λ h. absurd (cc), λ h. absurd (cc))
validate_comparing_types-IsAllowed kinds utf8 s = go (kinds.is_float64 s) (kinds.is_int64 s)
  where
    go :
        (a b : Bool)
        → ((if a || b then some string_compared_with_number else none) ≡ none)
          ↔ ((a ≡ false) × (b ≡ false))
    go true b = (λ h. absurd (cc), λ h. absurd (no h.0))
      where
        no : true ≡ false → ⊥
        no h = absurd (cc)
    go false true = (λ h. absurd (cc), λ h. absurd (no h.1))
      where
        no : true ≡ false → ⊥
        no h = absurd (cc)
    go false false = (λ h. (refl, refl), λ h. refl)
validate_comparing_types-IsAllowed kinds integer s = go (kinds.is_string s)
  where
    go : (b : Bool) → ((if b then some number_compared_with_string else none) ≡ none) ↔ (b ≡ false)
    go true = (λ h. absurd (cc), λ h. absurd (cc))
    go false = (λ h. refl, λ h. refl)
validate_comparing_types-IsAllowed kinds other_type s = (λ h. tt, λ h. refl)
