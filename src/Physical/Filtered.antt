-- ===== src/Physical/Filtered.antt =====
-- The evaluation of an expression on a record, and the record of the rows that are kept.
use mathlib.Core.Path.{subst}
use frostdb.Base.{
  ok-injective, ℕ, zero, suc, ◌+◌, ◌<◌, ◌^◌, Bool, true, false, ◌&&◌, ◌||◌, Option, none, some,
  List, [], length, Result, ok, err, ◌>>=◌, ltb, leb, ◌==◌, if◌then◌else◌, ◌≡◌, refl, sym, ap, ◌∙◌,
  inl, inr, arith,
}
use frostdb.Plan.{Op}
use frostdb.Filter.Build.{Scalar}
use frostdb.Physical.Bitmaps.{Bitmaps}
use frostdb.Physical.Predicates.{
  of_binary, Array, string_array, binary_array, dictionary_array, Record, Failure, u32, if_value,
  select_from, arrow_array, BooleanExpression, binary_scalar_expr, regexp_filter, and_expr, or_expr,
}
use frostdb.Physical.Evaluate.{
  Patterns, regexp_operation, add_rows, eval_scalar, eval_regexp, eval_rows,
}
use frostdb.Physical.Ranges.{u32-small, or_true}
use frostdb.Physical.Cells.{cell_says, array_says, array_length}
use frostdb.Physical.Rows.{Says, selected, array-Says}
use frostdb.Physical.Kept.{
  scalar_says, pattern_says, regexp_says, expression_says, IsRecord, arrow_array-length, SaysOf,
  of_ok, none-Says, missing-Says,
}

two : (f : Bool → Bool → Bool) {a b c d : Bool} → a ≡ b → c ≡ d → f a c ≡ f b d
two f {b} {c} p q = ap (λ x. f x c) p ∙ ap (f b) q

left_true : (a b : Bool) → (a && b) ≡ true → a ≡ true
left_true true b h = refl
left_true false b h = absurd (cc)

module _ {B M : Type 0} (bits : Bitmaps B) (patterns : Patterns M) where
  add_rows-contains :
      (n i : ℕ) (b : B) (j : ℕ)
      → bits.contains (add_rows bits patterns n i b) j
        ≡ (leb i j && ltb j (i + n) || bits.contains b j)
  unfolding add_rows
  add_rows-contains zero i b j = ap (λ c. c || bits.contains b j) (nothing i j)
    where
      nothing : (i j : ℕ) → false ≡ (leb i j && ltb j (i + 0))
      nothing i j = ground arith
  add_rows-contains (suc n) i b j =
      add_rows-contains n (suc i) (bits.add i b) j
      ∙ ap (λ c. leb (suc i) j && ltb j (suc i + n) || c) (bits.contains-add i j b)
      ∙ step i n j (bits.contains b j)
    where
      step :
          (i n j : ℕ) (c : Bool)
          → (leb (suc i) j && ltb j (suc i + n) || (i == j || c))
            ≡ (leb i j && ltb j (i + suc n) || c)
      step i n j c = ground arith

  add_all-Says :
      (n : ℕ) → Says bits (add_rows bits patterns n 0 bits.new_bitmap) n (λ j. ltb j n && true)
  add_all-Says n j = (
    add_rows-contains n 0 bits.new_bitmap j
        ∙ ap (λ c. leb 0 j && ltb j (0 + n) || c) (bits.contains-new j)
        ∙ plain n j,
    λ h. bound n j h,
  )
    where
      plain : (n j : ℕ) → (leb 0 j && ltb j (0 + n) || false) ≡ (ltb j n && true)
      plain n j = ground arith

      bound : (n j : ℕ) → (ltb j n && true) ≡ true → j < n
      bound n j h = ground arith

  missing_regexp-Says :
      (t : Bool) (n : ℕ)
      → n < 2 ^ 32
      → SaysOf bits
          (if t then ok (add_rows bits patterns (u32 n) 0 bits.new_bitmap) else ok bits.new_bitmap)
          n
          (λ j. ltb j n && t)
  missing_regexp-Says true n h =
      subst
        (λ (k : ℕ).
          SaysOf bits (ok (add_rows bits patterns k 0 bits.new_bitmap)) n (λ j. ltb j n && true))
        (sym (u32-small n h))
        (of_ok bits (add_rows bits patterns n 0 bits.new_bitmap) n (λ j. ltb j n && true)
          (add_all-Says n))
  missing_regexp-Says false n h =
      of_ok bits bits.new_bitmap n (λ j. ltb j n && false) (none-Says bits n)

  -- A loop over an array of the rows of a record.
  selected_rows :
      {A : Type 0} (test : Option A → Bool) (xs : List (Option A)) (n : ℕ) (b : B)
      → length xs ≡ n
      → n < 2 ^ 32
      → ◌≡◌ {A = Result Failure B} (ok (select_from bits test 0 xs bits.new_bitmap)) (ok b)
      → Says bits b n (cell_says test xs)
  selected_rows test xs n b l h e =
      subst (λ (k : ℕ). Says bits b k (cell_says test xs)) l
        (selected bits test xs b (omega (arith, l, h)) e)

  regexp-Says :
      (o : Option Array) (not_match : Bool) (m : M) (n : ℕ) (b : B)
      → ((a : Array) → o ≡ some a → array_length a ≡ n)
      → n < 2 ^ 32
      → eval_regexp bits patterns o not_match m n ≡ ok b
      → Says bits b n (regexp_says patterns o not_match m n)
  unfolding eval_regexp regexp_operation
  regexp-Says none not_match m n b l h e =
      missing_regexp-Says (pattern_says patterns not_match m []) n h b e
  regexp-Says (some (binary_array xs)) not_match m n b l h e =
      selected_rows (if_value (pattern_says patterns not_match m)) xs n b (l (binary_array xs) refl)
        h e
  regexp-Says (some (string_array xs)) not_match m n b l h e =
      selected_rows (if_value (pattern_says patterns not_match m)) xs n b (l (string_array xs) refl)
        h e
  regexp-Says (some (dictionary_array of_binary xs)) not_match m n b l h e =
      selected_rows (if_value (pattern_says patterns not_match m)) xs n b
        (l (dictionary_array of_binary xs) refl) h e
  regexp-Says (some a) not_match m n b l h e = absurd (cc)

  scalar-Says :
      (o : Option Array) (op : Op) (right : Scalar) (n : ℕ) (b : B)
      → ((a : Array) → o ≡ some a → array_length a ≡ n)
      → n < 2 ^ 32
      → eval_scalar bits patterns o op right n ≡ ok b
      → Says bits b n (scalar_says o op right n)
  unfolding eval_scalar
  scalar-Says none op right n b l h e = missing-Says bits right op n b e
  scalar-Says (some a) op right n b l h e =
      subst (λ (k : ℕ). Says bits b k (array_says a right op)) (l a refl)
        (array-Says bits a right op b (omega (arith, l a refl, h)) e)

  both_ok :
      (l r : Result Failure B) (f : B → B → B) (b : B)
      → (l >>= λ x. r >>= λ y. ok (f x y)) ≡ ok b
      → (x : B) × (y : B) × (l ≡ ok x) × (r ≡ ok y) × (f x y ≡ b)
  both_ok (ok x) (ok y) f b e = (x, y, refl, refl, ok-injective (f x y) b e)
  both_ok (ok x) (err g) f b e = absurd (cc)
  both_ok (err g) r f b e = absurd (cc)

  -- The bitmap of an expression says of each row of a record what the expression does.
  pub eval_rows-Says :
      (e : BooleanExpression M) (r : Record) (b : B)
      → IsRecord r
      → eval_rows bits patterns e r ≡ ok b
      → Says bits b r.num_rows (expression_says patterns e r)
  unfolding eval_rows
  eval_rows-Says (binary_scalar_expr name op right) r b h e =
      scalar-Says (arrow_array name r) op right r.num_rows b
        (λ a q. arrow_array-length name r a h q) h.1 e
  eval_rows-Says (regexp_filter name not_match m) r b h e =
      regexp-Says (arrow_array name r) not_match m r.num_rows b
        (λ a q. arrow_array-length name r a h q) h.1 e
  eval_rows-Says (and_expr left right) r b h e =
      let (x, y, p, q, s) =
        both_ok (eval_rows bits patterns left r) (eval_rows bits patterns right r) bits.and_with b
          e in
      let l = eval_rows-Says left r x h p in
      let k = eval_rows-Says right r y h q in
      subst
        (λ c.
          Says bits c r.num_rows
            (λ j. expression_says patterns left r j && expression_says patterns right r j))
        s
        (λ j. (
          bits.contains-and x y j ∙ two (λ c d. c && d) (l j).0 (k j).0,
          λ t. (l j).1 (
              left_true (expression_says patterns left r j) (expression_says patterns right r j) t),
        ))
  eval_rows-Says (or_expr left right) r b h e =
      let (x, y, p, q, s) =
        both_ok (eval_rows bits patterns left r) (eval_rows bits patterns right r) bits.or_with b
          e in
      let l = eval_rows-Says left r x h p in
      let k = eval_rows-Says right r y h q in
      subst
        (λ c.
          Says bits c r.num_rows
            (λ j. expression_says patterns left r j || expression_says patterns right r j))
        s
        (λ j. (
          bits.contains-or x y j ∙ two (λ c d. c || d) (l j).0 (k j).0,
          λ t.
              elim (or_true (expression_says patterns left r j) (expression_says patterns right r j)
                t) [ inl u ↦ (l j).1 u | inr u ↦ (k j).1 u ],
        ))
