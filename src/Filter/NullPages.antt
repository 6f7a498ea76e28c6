-- ===== src/Filter/NullPages.antt =====
-- `Min` of query/expr/binaryscalarexpr.go where a page of nulls follows a page with values.
use frostdb.Base.{◌≡◌, refl, true, false, Option, none, some, List, [], ◌∷◌, ok, inl, arith}
use frostdb.Plan.Op.{lt}
use frostdb.Filter.{Values, Page, min_from, min_of, null_count, order_operation, pages_operation}
use frostdb.Filter.Rows.{InBounds, Stands, Describes, matches, count_values}

abbrev pub page_of : {V : Type 0} → V → Page V
page_of v = record { min_value = some v; max_value = some v; null_count = 0 }

-- The pages of the values `a`, null and `b`.
abbrev pub null_between : {V : Type 0} → V → V → List (Page V)
null_between a b =
    page_of a ∷ record { min_value = none; max_value = none; null_count = 1 } ∷ page_of b ∷ []

abbrev pub values_between : {V : Type 0} → V → V → List (List (Option V))
values_between a b = (some a ∷ []) ∷ (none ∷ []) ∷ (some b ∷ []) ∷ []

within : {V : Type 0} (o : Values V) (a : V) → InBounds o (some a) (some a) (some a)
within o a = (a, a, refl, refl, ground (arith, o.leq_total a a), ground (arith, o.leq_total a a))

-- Conditions: `a` is above zero and below `b`, and the error type is any. The pages of a column are
-- `a`, null and `b`, and their index describes them. A null that is compared counts as zero, so `Min`
-- takes the null page for a new minimum and then forgets it: a query for values below `b` discards the
-- column, in which `a` is below `b`.
pub null_page_hides :
    {V E : Type 0} (o : Values V) (a b : V)
    → o.leq a o.zero ≡ false
    → o.leq b a ≡ false
    → Describes o (null_between a b) (values_between a b)
      × (pages_operation {E = E} o
            (null_between a b)
            (count_values (values_between a b))
            none
            (some b)
            lt
          ≡ ok false)
      × Stands (some a) (values_between a b)
      × (matches o lt (some a) (some b) ≡ true)
unfolding pages_operation order_operation min_of min_from null_count
null_page_hides o a b ha hb = (
  ((within o a, tt), (refl, ((tt, tt), (refl, ((within o b, tt), (refl, tt)))))),
  ground (arith, o.leq_total b b),
  inl (inl refl),
  ground arith,
)
