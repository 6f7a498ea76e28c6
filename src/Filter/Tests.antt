-- ===== src/Filter/Tests.antt =====
-- Concrete row groups, filters and expressions.
use mathlib.Core.Path.{subst}
use frostdb.Base.{
  ok-injective, ℕ, ◌≡◌, refl, arith, Bool, true, false, Option, none, some, List, [], ◌∷◌, length,
  Result, ok, err, inl, inr, leb, if◌then◌else◌,
}
use frostdb.Base.Int.{pos, negsuc}
use frostdb.Plan.{Expr, binary, literal, column, accept}
use frostdb.Plan.Op.{eq, not_eq, lt, gt, and, regex_match}
use frostdb.Filter.{
  find_column, Values, Page, Chunk, Filter, always_true, scalar, and_expr, RowGroup, eval, min_of,
  max_of, pages_operation, name_eq,
}
use frostdb.Filter.Rows.{Stands, Describes, matches, row_matches}
use frostdb.Filter.Build.{
  Scalar, int64, nil, other, ValueOf, unsupported_expression, left_not_column, boolean_expr,
  arrow_scalar_to_parquet_value,
}
use frostdb.Filter.Sound.{Holds, IsRow, IsCell, eval_discards}
use frostdb.Filter.Meaning.{IsPlain, holds, boolean_expr_discards}
use frostdb.Filter.NullPages.{null_between, values_between, null_page_hides}

pub leb_trans : (a b c : ℕ) → leb a b ≡ true → leb b c ≡ true → leb a c ≡ true
leb_trans a b c h k = ground arith

pub leb_total : (a b : ℕ) → leb a b ≡ false → leb b a ≡ true
leb_total a b h = ground arith

abbrev pub numbers : Values ℕ
numbers = record {
  leq = leb;
  zero = 0;
  is_bytes = λ n. false;
  is_empty = λ n. false;
  leq_trans = leb_trans;
  leq_total = leb_total;
}

abbrev pub value_of : ValueOf ℕ
value_of = record {
  of_string = λ s. length s;
  of_int64 = λ i. elim i [ pos n ↦ n | negsuc n ↦ 0 ];
  of_bytes = λ s. length s;
  of_bool = λ b. 0;
}

abbrev pub page : ℕ → ℕ → ℕ → Page ℕ
page a b n = record { min_value = some a; max_value = some b; null_count = n }

abbrev pub pages_5 : List (Page ℕ)
pages_5 = page 5 9 1 ∷ page 3 4 0 ∷ []

abbrev rows_5 : List (List (Option ℕ))
rows_5 = (some 5 ∷ none ∷ some 9 ∷ []) ∷ (some 3 ∷ some 4 ∷ []) ∷ []

abbrev pub chunk_5 : Chunk ℕ ℕ
chunk_5 = record { column_index = ok pages_5; num_values = 5; bloom_filter = none }

abbrev pub name_a : List ℕ
name_a = 97 ∷ []

abbrev group_5 : RowGroup ℕ ℕ
group_5 = (name_a, chunk_5) ∷ []

abbrev cell_9 : List ℕ → Option (Option ℕ)
cell_9 name = if name_eq name_a name then some (some 9) else none

min_5 : (min_of numbers pages_5 ≡ some 3) × (max_of numbers pages_5 ≡ some 9)
unfolding min_of max_of
min_5 = (refl, refl)

-- 7 is between the bounds, so that the row group is read.
eval_7 : eval numbers (scalar name_a eq (some 7)) group_5 ≡ ok true
unfolding eval
eval_7 = refl

abbrev above_10 : Filter ℕ
above_10 = scalar name_a gt (some 10)

eval_10 : eval numbers above_10 group_5 ≡ ok false
unfolding eval
eval_10 = refl

index_5 : Describes numbers pages_5 rows_5
index_5 = (
  ((5, 9, refl, refl, refl, refl), (tt, ((5, 9, refl, refl, refl, refl), tt))),
  (refl, (((3, 4, refl, refl, refl, refl), ((3, 4, refl, refl, refl, refl), tt)), (refl, tt))),
)

found_5 :
    (pages : List (Page ℕ))
    → ◌≡◌ {A = Result ℕ (List (Page ℕ))} (ok pages_5) (ok pages)
    → Holds numbers chunk_5 pages (some 9)
found_5 pages e =
    subst (λ ps. Holds numbers chunk_5 ps (some 9)) (ok-injective pages_5 pages e)
      (record {
        rows = rows_5;
        described = index_5;
        counted = refl;
        nulls_in_front = refl;
        stands = inl (inr (inr (inl refl)));
        known = tt;
      })

is_row : IsRow numbers group_5 cell_9
unfolding find_column
is_row name = go (name_eq name_a name)
  where
    go :
        (b : Bool)
        → IsCell numbers (if b then some chunk_5 else none) (if b then some (some 9) else none)
    go true = (some 9, refl, found_5)
    go false = refl

eval_discards_example : row_matches numbers above_10 cell_9 ≡ false
unfolding find_column
eval_discards_example = eval_discards numbers above_10 group_5 cell_9 is_row tt eval_10

-- a > 10 && a =~ ...
abbrev expr_10 : Expr Scalar ℕ
expr_10 =
    binary (binary (column name_a) gt (literal (int64 (pos 10)))) and
      (binary (column name_a) regex_match (literal other))

abbrev filter_10 : Filter ℕ
filter_10 = and_expr above_10 always_true

built_10 : boolean_expr {M = ℕ} value_of (some expr_10) ≡ ok filter_10
unfolding boolean_expr accept arrow_scalar_to_parquet_value
built_10 = refl

comparisons_10 : IsPlain expr_10
unfolding IsPlain
comparisons_10 = (tt, tt)

discarded_10 : eval numbers filter_10 group_5 ≡ ok false
unfolding eval
discarded_10 = refl

boolean_expr_discards_example : holds numbers value_of (λ e. true) expr_10 cell_9 ≡ false
unfolding find_column
boolean_expr_discards_example =
    boolean_expr_discards numbers value_of (λ e. true) expr_10 filter_10 group_5 cell_9
      comparisons_10 built_10 is_row (tt, tt) discarded_10

-- The visitor does not reach the right of a sum, and a lone column is no filter.
built_left :
    boolean_expr {M = ℕ} value_of (some (binary (literal nil) lt (column name_a)))
    ≡ err left_not_column
unfolding boolean_expr accept
built_left = refl

built_column : boolean_expr {M = ℕ} value_of (some (column name_a)) ≡ err unsupported_expression
unfolding boolean_expr
built_column = refl

-- 5, null and 7 in pages of their own.
null_page_hides_example :
    Describes numbers (null_between 5 7) (values_between 5 7)
    × (pages_operation {E = ℕ} numbers (null_between 5 7) 3 none (some 7) lt ≡ ok false)
    × Stands {V = ℕ} (some 5) (values_between 5 7)
    × (matches numbers lt (some 5) (some 7) ≡ true)
null_page_hides_example = null_page_hides numbers 5 7 refl refl

-- Row groups that `!=` discards and a record's rows satisfy: where the column is null throughout, and
-- where it is lacking. So is one that lacks a column, for `=` with a number.
abbrev nulls_2 : RowGroup ℕ ℕ
nulls_2 =
    (
      name_a,
      record {
        column_index = ok (record { min_value = none; max_value = none; null_count = 2 } ∷ []);
        num_values = 2;
        bloom_filter = none;
      },
    )
    ∷ []

unequal_hides :
    (eval numbers (scalar name_a not_eq (some 5)) nulls_2 ≡ ok false)
    × (row_matches numbers (scalar name_a not_eq (some 5)) (λ n. some none) ≡ true)
    × (eval {E = ℕ} numbers (scalar name_a not_eq (some 5)) [] ≡ ok false)
    × (row_matches numbers (scalar name_a not_eq (some 5)) (λ n. none) ≡ true)
    × (eval {E = ℕ} numbers (scalar name_a eq (some 5)) [] ≡ ok false)
    × (row_matches numbers (scalar name_a eq (some 5)) (λ n. none) ≡ true)
unfolding eval
unequal_hides = (refl, refl, refl, refl, refl, refl)
