-- ===== src/Snapshots/Order.antt =====
-- The names of snapshot files in a directory stand in the order of their transactions.
use frostdb.Base.{
  ℕ, zero, suc, ◌+◌, ◌/◌, ◌%◌, ◌^◌, ◌<◌, ◌≡◌, refl, sym, ap, ◌∙◌, List, [], ◌∷◌, ◌++◌, length,
  arith,
}
use frostdb.Groups.{Comparison, less, same, greater, compare_ℕ, compare_bytes, then_compare}
use frostdb.Snapshots.{digits, extension, snapshot_file_name}
use frostdb.Snapshots.Names.{Fits, Fits-20, length-digits}

then_compare_assoc :
    (a b c : Comparison) → then_compare a (then_compare b c) ≡ then_compare (then_compare a b) c
then_compare_assoc less b c = refl
then_compare_assoc same b c = refl
then_compare_assoc greater b c = refl

compare_bytes-append :
    (xs ys us vs : List ℕ)
    → length xs ≡ length ys
    → compare_bytes (xs ++ us) (ys ++ vs) ≡ then_compare (compare_bytes xs ys) (compare_bytes us vs)
unfolding compare_bytes
compare_bytes-append [] [] us vs h = refl
compare_bytes-append [] (y ∷ ys) us vs h = absurd (omega arith)
compare_bytes-append (x ∷ xs) [] us vs h = absurd (omega arith)
compare_bytes-append (x ∷ xs) (y ∷ ys) us vs h =
    ap (then_compare (compare_ℕ x y)) (compare_bytes-append xs ys us vs (omega arith))
    ∙ then_compare_assoc (compare_ℕ x y) (compare_bytes xs ys) (compare_bytes us vs)

last_digit :
    (a b : ℕ)
    → then_compare
        (compare_ℕ (a / 10) (b / 10))
        (compare_bytes ((48 + a % 10) ∷ []) ((48 + b % 10) ∷ []))
      ≡ compare_ℕ a b
unfolding compare_bytes
last_digit a b = ground arith

compare_bytes-digits :
    (width a b : ℕ)
    → Fits width a
    → Fits width b
    → compare_bytes (digits width a) (digits width b) ≡ compare_ℕ a b
unfolding digits compare_bytes
compare_bytes-digits zero a b h k = ground arith
compare_bytes-digits (suc width) a b h k =
    compare_bytes-append (digits width (a / 10)) (digits width (b / 10)) ((48 + a % 10) ∷ [])
      ((48 + b % 10) ∷ []) (length-digits width (a / 10) ∙ sym (length-digits width (b / 10)))
    ∙ ap (λ c. then_compare c (compare_bytes ((48 + a % 10) ∷ []) ((48 + b % 10) ∷ [])))
        (compare_bytes-digits width (a / 10) (b / 10) h k)
    ∙ last_digit a b

-- Condition: the transactions are uint64. The names of snapshots compare as texts as their
-- transactions compare as numbers, so that the last name of a directory is that of the latest snapshot.
pub compare-snapshot_file_name :
    (a b : ℕ)
    → a < 2 ^ 64
    → b < 2 ^ 64
    → compare_bytes (snapshot_file_name a) (snapshot_file_name b) ≡ compare_ℕ a b
unfolding snapshot_file_name compare_bytes
compare-snapshot_file_name a b h k =
    compare_bytes-append (digits 20 a) (digits 20 b) extension extension
      (length-digits 20 a ∙ sym (length-digits 20 b))
    ∙ ap (λ c. then_compare c (compare_bytes extension extension))
        (compare_bytes-digits 20 a b (Fits-20 a h) (Fits-20 b k))
    ∙ then_same (compare_ℕ a b)
  where
    then_same : (c : Comparison) → then_compare c (compare_bytes extension extension) ≡ c
    then_same less = refl
    then_same same = refl
    then_same greater = refl
