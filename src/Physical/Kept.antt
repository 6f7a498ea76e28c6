-- ===== src/Physical/Kept.antt =====
-- A PredicateFilter keeps the rows of a record that its expression says to keep.
use mathlib.Core.Path.{subst}
use frostdb.Base.{
  ok-injective, ℕ, ◌<◌, ◌^◌, Bool, true, false, ◌&&◌, ◌||◌, Option, none, some, List, [], ◌∷◌, All,
  Result, ok, err, ltb, if◌then◌else◌, ◌≡◌, refl, sym, ap, ◌∙◌, arith, ltb→lt,
}
use frostdb.Filter.{name_eq}
use frostdb.Filter.Build.{Scalar, string, binary_bytes, null, nil}
use frostdb.Plan.{Op}
use frostdb.Plan.Op.{eq, not_eq, lt, lt_eq, gt, gt_eq}
use frostdb.Physical.Bitmaps.{Bitmaps}
use frostdb.Physical.Predicates.{
  of_binary, Array, string_array, binary_array, dictionary_array, Record, Failure, if_value,
  is_empty_bytes, missing_equal, missing_not_equal, missing_operation, field_arrays, only,
  arrow_array, BooleanExpression, binary_scalar_expr, regexp_filter, and_expr, or_expr,
}
use frostdb.Physical.Evaluate.{Patterns, inverted}
use frostdb.Physical.Cells.{cell_says, array_says, array_length}
use frostdb.Physical.Rows.{Says}

-- What a comparison says of the rows of a record that lacks the column.
abbrev pub missing_says : Scalar → Op → Bool
missing_says (string s) eq = is_empty_bytes s
missing_says (binary_bytes s) eq = is_empty_bytes s
missing_says right eq = true
missing_says null not_eq = false
missing_says right not_eq = true
missing_says right lt = false
missing_says right lt_eq = false
missing_says right gt = false
missing_says right gt_eq = false
missing_says right op = true

abbrev pub scalar_says : Option Array → Op → Scalar → ℕ → ℕ → Bool
scalar_says none op right n j = ltb j n && missing_says right op
scalar_says (some a) op right n j = array_says a right op j

module _ {M : Type 0} (patterns : Patterns M) where
  abbrev pub pattern_says : Bool → M → List ℕ → Bool
  pattern_says not_match m v = inverted not_match (patterns.matches m v)

  abbrev pub regexp_says : Option Array → Bool → M → ℕ → ℕ → Bool
  regexp_says none not_match m n j = ltb j n && pattern_says not_match m []
  regexp_says (some (binary_array xs)) not_match m n j =
      cell_says (if_value (pattern_says not_match m)) xs j
  regexp_says (some (string_array xs)) not_match m n j =
      cell_says (if_value (pattern_says not_match m)) xs j
  regexp_says (some (dictionary_array of_binary xs)) not_match m n j =
      cell_says (if_value (pattern_says not_match m)) xs j
  regexp_says (some a) not_match m n j = false

  -- What an expression says of row `j` of a record.
  abbrev pub expression_says : BooleanExpression M → Record → ℕ → Bool
  expression_says (binary_scalar_expr name op right) r j =
      scalar_says (arrow_array name r) op right r.num_rows j
  expression_says (regexp_filter name not_match m) r j =
      regexp_says (arrow_array name r) not_match m r.num_rows j
  expression_says (and_expr left right) r j = expression_says left r j && expression_says right r j
  expression_says (or_expr left right) r j = expression_says left r j || expression_says right r j

-- The columns of a record have its number of rows, which is less than 2^32.
abbrev pub IsRecord : Record → Type 0
IsRecord r =
    All (λ (c : List ℕ × Array). array_length c.1 ≡ r.num_rows) r.columns × (r.num_rows < 2 ^ 32)

fields-length :
    (name : List ℕ) (n : ℕ) (cols : List (List ℕ × Array))
    → All (λ (c : List ℕ × Array). array_length c.1 ≡ n) cols
    → All (λ a. array_length a ≡ n) (field_arrays name cols)
unfolding field_arrays
fields-length name n [] h = tt
fields-length name n ((m, a) ∷ cols) h = go (name_eq m name) (fields-length name n cols h.1)
  where
    go :
        (b : Bool)
        → All (λ a. array_length a ≡ n) (field_arrays name cols)
        → All
            (λ a. array_length a ≡ n)
            (if b then a ∷ field_arrays name cols else field_arrays name cols)
    go true rest = (h.0, rest)
    go false rest = rest

only-length :
    (as' : List Array) (a : Array) (n : ℕ)
    → All (λ a. array_length a ≡ n) as'
    → only as' ≡ some a
    → array_length a ≡ n
only-length [] a n h e = absurd (cc)
only-length (b ∷ []) a n h e = ap array_length (sym (some-injective e)) ∙ h.0
  where
    some-injective : some b ≡ some a → b ≡ a
    some-injective e = cc
only-length (b ∷ c ∷ as') a n h e = absurd (cc)

pub arrow_array-length :
    (name : List ℕ) (r : Record) (a : Array)
    → IsRecord r
    → arrow_array name r ≡ some a
    → array_length a ≡ r.num_rows
unfolding arrow_array
arrow_array-length name r a h e =
    only-length (field_arrays name r.columns) a r.num_rows
      (fields-length name r.num_rows r.columns h.0) e

module _ {B : Type 0} (bits : Bitmaps B) where
  pub none-Says : (n : ℕ) → Says bits bits.new_bitmap n (λ j. ltb j n && false)
  none-Says n j = (bits.contains-new j ∙ and_false (ltb j n), λ h. absurd (never (ltb j n) h))
    where
      and_false : (b : Bool) → false ≡ (b && false)
      and_false true = refl
      and_false false = refl

      never : (b : Bool) → (b && false) ≡ true → ⊥
      never true h = ground arith
      never false h = ground arith

  pub range-Says : (n : ℕ) → Says bits (bits.add_range n bits.new_bitmap) n (λ j. ltb j n && true)
  range-Says n j = (
    bits.contains-range n j bits.new_bitmap
        ∙ ap (λ c. ltb j n || c) (bits.contains-new j)
        ∙ or_and (ltb j n),
    λ h. ltb→lt j n (sym (or_and' (ltb j n)) ∙ h),
  )
    where
      or_and : (b : Bool) → (b || false) ≡ (b && true)
      or_and true = refl
      or_and false = refl

      or_and' : (b : Bool) → (b && true) ≡ b
      or_and' true = refl
      or_and' false = refl

  -- Says of the result that a bitmap is.
  abbrev pub SaysOf : Result Failure B → ℕ → (ℕ → Bool) → Type 0
  SaysOf r n f = (b : B) → r ≡ ok b → Says bits b n f

  pub of_ok : (a : B) (n : ℕ) (f : ℕ → Bool) → Says bits a n f → SaysOf (ok a) n f
  of_ok a n f h b e = subst (λ c. Says bits c n f) (ok-injective a b e) h

  pub of_err : (f : Failure) (n : ℕ) (g : ℕ → Bool) → SaysOf (err f) n g
  of_err f n g b e = absurd (cc)

  pub empty_or_all :
      (t : Bool) (n : ℕ)
      → SaysOf
          (if t then ok (bits.add_range n bits.new_bitmap) else ok bits.new_bitmap)
          n
          (λ j. ltb j n && t)
  empty_or_all true n =
      of_ok (bits.add_range n bits.new_bitmap) n (λ j. ltb j n && true) (range-Says n)
  empty_or_all false n = of_ok bits.new_bitmap n (λ j. ltb j n && false) (none-Says n)

  pub missing-Says :
      (right : Scalar) (op : Op) (n : ℕ)
      → SaysOf (missing_operation bits right op n) n (λ j. ltb j n && missing_says right op)
  unfolding missing_operation missing_equal missing_not_equal
  missing-Says nil eq n = of_err _ n _
  missing-Says (string s) eq n = empty_or_all (is_empty_bytes s) n
  missing-Says (binary_bytes s) eq n = empty_or_all (is_empty_bytes s) n
  missing-Says right eq n = empty_or_all true n
  missing-Says nil not_eq n = of_err _ n _
  missing-Says null not_eq n = empty_or_all false n
  missing-Says right not_eq n = empty_or_all true n
  missing-Says right lt n = empty_or_all false n
  missing-Says right lt_eq n = empty_or_all false n
  missing-Says right gt n = empty_or_all false n
  missing-Says right gt_eq n = empty_or_all false n
  missing-Says right op n = empty_or_all true n
