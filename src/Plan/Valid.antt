-- ===== src/Plan/Valid.antt =====
-- Which filters ValidateFilterExpr lets pass.
use frostdb.Base.{ℕ, Option, none, some, List, ◌≡◌, refl, sym, ap, ◌∙◌, ◌↔◌}
use frostdb.Plan.{
  Op, Expr, binary, column, dynamic_column, literal, aggregation, alias, duration, average,
  regexp_column_match, all, not_expr,
}
use frostdb.Plan.Op.{
  and, or, unknown, eq, not_eq, lt, lt_eq, gt, gt_eq, regex_match, regex_not_match,
}
use frostdb.Plan.Validate.{
  LogicalType, Kinds, Message, ExprValidationError, Schema, left_column, right_literal, children,
  validate_comparing_types, comparing_error, compare_types, compare_column, column_type,
  validate_comparison, validate_filter_expr,
}
use frostdb.Plan.Leaves.{
  leaves, first_column, first_literal, left_column-first, right_literal-first, IsAllowed,
  validate_comparing_types-IsAllowed,
}

some-none : {A : Type 0} {a : A} → some a ≡ none → ⊥
some-none h = absurd (cc)

module _ {S M : Type 0} (kinds : Kinds S) (schema : Schema) where
  -- A column stands among the leaves of the left, and where the schema has the first of them, its type
  -- may be compared with the first literal among the leaves of the right, if there is one.
  abbrev pub IsComparable : Expr S M → Expr S M → Type 0
  IsComparable left right =
      (name : List ℕ) × (first_column (leaves left) ≡ some name)
      × ((t : LogicalType) (s : S)
          → column_type schema name ≡ some t
          → first_literal (leaves right) ≡ some s
          → IsAllowed kinds t s)

  -- The same with what the visitors find.
  abbrev FindsComparable : Expr S M → Expr S M → Type 0
  FindsComparable left right =
      (name : List ℕ) × (left_column left ≡ some name)
      × ((t : LogicalType) (s : S)
          → column_type schema name ≡ some t
          → right_literal right ≡ some s
          → validate_comparing_types kinds t s ≡ none)

  -- All comparisons of the filter are such.
  abbrev pub IsValid : Expr S M → Type 0
  IsValid (binary left and right) = IsValid left × IsValid right
  IsValid (binary left or right) = IsValid left × IsValid right
  IsValid (binary left op right) = IsComparable left right
  IsValid e = Unit

  compares :
      (e : Expr S M) (t : Option LogicalType) (s : Option S)
      → ((u : LogicalType) (v : S)
          → t ≡ some u
          → s ≡ some v
          → validate_comparing_types kinds u v ≡ none)
      → compare_types kinds e t s ≡ none
  compares e none s h = refl
  compares e (some u) none h = refl
  compares e (some u) (some v) h = ap (comparing_error kinds e) (h u v refl refl)

  compared :
      (e : Expr S M) (t : Option LogicalType) (s : Option S) (u : LogicalType) (v : S)
      → compare_types kinds e t s ≡ none
      → t ≡ some u
      → s ≡ some v
      → validate_comparing_types kinds u v ≡ none
  compared e t s u v h p q = go (validate_comparing_types kinds u v) refl (
      sym (ap (λ z. compare_types kinds e z s) p ∙ ap (λ z. compare_types kinds e (some u) z) q)
      ∙ h)
    where
      go :
          (m : Option Message)
          → validate_comparing_types kinds u v ≡ m
          → comparing_error kinds e (validate_comparing_types kinds u v) ≡ none
          → validate_comparing_types kinds u v ≡ none
      go none k g = k
      go (some m) k g = absurd (some-none (sym (ap (comparing_error kinds e) k) ∙ g))

  comparison-FindsComparable :
      (left right : Expr S M) (op : Op)
      → (validate_comparison kinds schema left op right ≡ none) ↔ FindsComparable left right
  unfolding validate_comparison
  comparison-FindsComparable left right op = (forward (left_column left) refl, backward)
    where
      forward :
          (c : Option (List ℕ))
          → left_column left ≡ c
          → compare_column kinds schema
              (binary left op right)
              (left_column left)
              (right_literal right)
            ≡ none
          → FindsComparable left right
      forward none k h = absurd (
          some-none (
            sym (
              ap (λ z. compare_column kinds schema (binary left op right) z (right_literal right))
                k)
            ∙ h))
      forward (some name) k h = (
        name,
        k,
        λ t s p q.
            compared (binary left op right) (column_type schema name) (right_literal right) t s
              (sym (
                  ap
                    (λ z.
                      compare_column kinds schema (binary left op right) z (right_literal right))
                    k)
                ∙ h)
              p q,
      )

      backward :
          FindsComparable left right
          → compare_column kinds schema
              (binary left op right)
              (left_column left)
              (right_literal right)
            ≡ none
      backward (name, k, h) =
          ap (λ z. compare_column kinds schema (binary left op right) z (right_literal right)) k
          ∙ compares (binary left op right) (column_type schema name) (right_literal right) h

  same_comparison : (left right : Expr S M) → FindsComparable left right ↔ IsComparable left right
  same_comparison left right = (
    λ (n, c, f). (
      n,
      sym (left_column-first left) ∙ c,
      λ t s p q.
          (validate_comparing_types-IsAllowed kinds t s).0
            (f t s p (right_literal-first right ∙ q)),
    ),
    λ (n, c, f). (
      n,
      left_column-first left ∙ c,
      λ t s p q.
          (validate_comparing_types-IsAllowed kinds t s).1
            (f t s p (sym (right_literal-first right) ∙ q)),
    ),
  )

  comparison-IsComparable :
      (left right : Expr S M) (op : Op)
      → (validate_comparison kinds schema left op right ≡ none) ↔ IsComparable left right
  comparison-IsComparable left right op =
      let f = comparison-FindsComparable left right op in
      let g = same_comparison left right in (λ h. g.0 (f.0 h), λ h. f.1 (g.1 h))

  children-none :
      {P Q : Type 0} (e : Expr S M) (l r : Option (ExprValidationError S M))
      → (l ≡ none) ↔ P
      → (r ≡ none) ↔ Q
      → (children e l r ≡ none) ↔ (P × Q)
  children-none e none none f g = (λ h. (f.0 refl, g.0 refl), λ h. refl)
  children-none e (some l) none f g = (λ h. absurd (cc), λ h. absurd (some-none (f.1 h.0)))
  children-none e none (some r) f g = (λ h. absurd (cc), λ h. absurd (some-none (g.1 h.1)))
  children-none e (some l) (some r) f g = (λ h. absurd (cc), λ h. absurd (some-none (f.1 h.0)))

  -- ValidateFilterExpr finds nothing wrong exactly if each comparison under the conjunctions and the
  -- disjunctions of the filter has a column on its left of which the first, where the schema has it, is
  -- of a type that allows the first literal on its right: a Boolean where the type is nil, no Int64 or
  -- Float64 where it is text, and no text where it is an integer.
  pub validate_filter_expr-IsValid :
      (e : Expr S M) → (validate_filter_expr kinds schema e ≡ none) ↔ IsValid e
  unfolding validate_filter_expr
  validate_filter_expr-IsValid (binary left and right) =
      children-none (binary left and right) (validate_filter_expr kinds schema left)
        (validate_filter_expr kinds schema right) (validate_filter_expr-IsValid left)
        (validate_filter_expr-IsValid right)
  validate_filter_expr-IsValid (binary left or right) =
      children-none (binary left or right) (validate_filter_expr kinds schema left)
        (validate_filter_expr kinds schema right) (validate_filter_expr-IsValid left)
        (validate_filter_expr-IsValid right)
  validate_filter_expr-IsValid (binary left unknown right) =
      comparison-IsComparable left right unknown
  validate_filter_expr-IsValid (binary left eq right) = comparison-IsComparable left right eq
  validate_filter_expr-IsValid (binary left not_eq right) =
      comparison-IsComparable left right not_eq
  validate_filter_expr-IsValid (binary left lt right) = comparison-IsComparable left right lt
  validate_filter_expr-IsValid (binary left lt_eq right) = comparison-IsComparable left right lt_eq
  validate_filter_expr-IsValid (binary left gt right) = comparison-IsComparable left right gt
  validate_filter_expr-IsValid (binary left gt_eq right) = comparison-IsComparable left right gt_eq
  validate_filter_expr-IsValid (binary left regex_match right) =
      comparison-IsComparable left right regex_match
  validate_filter_expr-IsValid (binary left regex_not_match right) =
      comparison-IsComparable left right regex_not_match
  validate_filter_expr-IsValid (column c) = (λ h. tt, λ h. refl)
  validate_filter_expr-IsValid (dynamic_column c) = (λ h. tt, λ h. refl)
  validate_filter_expr-IsValid (literal s) = (λ h. tt, λ h. refl)
  validate_filter_expr-IsValid (aggregation f e) = (λ h. tt, λ h. refl)
  validate_filter_expr-IsValid (alias e a) = (λ h. tt, λ h. refl)
  validate_filter_expr-IsValid (duration d) = (λ h. tt, λ h. refl)
  validate_filter_expr-IsValid (average e) = (λ h. tt, λ h. refl)
  validate_filter_expr-IsValid (regexp_column_match i m) = (λ h. tt, λ h. refl)
  validate_filter_expr-IsValid (not_expr e) = (λ h. tt, λ h. refl)
  validate_filter_expr-IsValid all = (λ h. tt, λ h. refl)
