-- ===== src/Parts/Tests.antt =====
-- Concrete parts, whose rows are numbers.
use frostdb.Base.{ℕ, ◌≡◌, refl, List, [], ◌∷◌, Result, ok, err, arith, leb}
use frostdb.Filter.Tests.{leb_trans, leb_total}
use frostdb.Parts.{
  Part, find_maximum_non_overlapping_set, sweep, sweep_step, finish, ends_differently,
}
use frostdb.Parts.Chains.{RowOrder}
use frostdb.Parts.Best.{IsBest, find_maximum-IsBest}

abbrev rows : RowOrder ℕ
rows = record { leq = leb; leq_trans = leb_trans; leq_total = leb_total }

abbrev part : ℕ → ℕ → ℕ → Part ℕ ℕ
part id a b = record { id = id; least = ok a; most = ok b }

abbrev read : Result ℕ ℕ → ℕ
read (ok a) = a
read (err e) = 0

abbrev start : Part ℕ ℕ → ℕ
start p = read p.least

abbrev end_of : Part ℕ ℕ → ℕ
end_of p = read p.most

abbrev sorted : List (Part ℕ ℕ) → Result ℕ (List (Part ℕ ℕ))
sorted ps = ok ps

abbrev wide : Part ℕ ℕ
wide = part 1 1 9

abbrev low : Part ℕ ℕ
low = part 2 2 4

abbrev high : Part ℕ ℕ
high = part 3 5 7

wide_is_dropped :
    find_maximum_non_overlapping_set leb sorted (wide ∷ low ∷ high ∷ [])
    ≡ ok (low ∷ high ∷ [], wide ∷ [])
unfolding find_maximum_non_overlapping_set sweep sweep_step finish ends_differently
wide_is_dropped = refl

-- Of two parts that overlap, the second with the higher end, none is left.
two_overlap :
    find_maximum_non_overlapping_set leb sorted (part 1 1 5 ∷ part 2 2 7 ∷ [])
    ≡ ok ([], part 2 2 7 ∷ part 1 1 5 ∷ [])
unfolding find_maximum_non_overlapping_set sweep sweep_step finish ends_differently
two_overlap = refl

find_maximum-IsBest_example :
    (r : List (Part ℕ ℕ) × List (Part ℕ ℕ)) × (find_maximum_non_overlapping_set leb sorted
        (wide ∷ low ∷ high ∷ [])
      ≡ ok r)
    × IsBest rows start end_of (wide ∷ low ∷ high ∷ []) r
find_maximum-IsBest_example =
    find_maximum-IsBest rows start end_of sorted wide low wide low (high ∷ []) (high ∷ []) refl
      ((refl, refl), ((refl, refl), ((refl, refl), tt)))
      ((refl, (refl, tt)), ((refl, tt), (tt, tt))) (λ h. ground arith, (λ h. ground arith, tt))
