-- ===== src/Snapshots/Names.antt =====
-- `getTxFromSnapshotFileName` reads what `snapshotFileName` of snapshot.go writes.
use mathlib.Core.Path.{subst}
use frostdb.Base.{
  ℕ, zero, suc, ◌+◌, ◌/◌, ◌%◌, ◌^◌, ◌<◌, ◌≡◌, refl, ap, ◌∙◌, Option, none, some, List, [], ◌∷◌,
  ◌++◌, length, length-append, arith,
}
use frostdb.Snapshots.{
  digits, extension, snapshot_file_name, parse_digit, and_then, parse_from, parse_uint, take,
  get_tx_from_snapshot_file_name,
}

-- A number has at most so many digits.
abbrev pub Fits : ℕ → ℕ → Type 0
Fits zero n = n ≡ 0
Fits (suc width) n = Fits width (n / 10)

pub length-digits : (width n : ℕ) → length (digits width n) ≡ width
unfolding digits
length-digits zero n = refl
length-digits (suc width) n = omega (
  arith,
  length-append (digits width (n / 10)) ((48 + n % 10) ∷ []),
  length-digits width (n / 10),
)

take-append : {A : Type 0} (xs ys : List A) → take (length xs) (xs ++ ys) ≡ xs
take-append [] ys = refl
take-append (x ∷ xs) ys = ap (λ zs. x ∷ zs) (take-append xs ys)

and_then-some : (o : Option ℕ) → and_then o (λ m. some m) ≡ o
and_then-some none = refl
and_then-some (some m) = refl

parse_from-append :
    (n c : ℕ) (cs : List ℕ)
    → parse_from n (cs ++ c ∷ []) ≡ and_then (parse_from n cs) (λ m. parse_digit m c)
unfolding parse_from
parse_from-append n c [] = and_then-some (parse_digit n c)
parse_from-append n c (d ∷ cs) = go (parse_digit n d) (λ m. parse_from-append m c cs)
  where
    go :
        (o : Option ℕ)
        → ((m : ℕ)
            → parse_from m (cs ++ c ∷ []) ≡ and_then (parse_from m cs) (λ k. parse_digit k c))
        → and_then o (λ m. parse_from m (cs ++ c ∷ []))
          ≡ and_then (and_then o (λ m. parse_from m cs)) (λ k. parse_digit k c)
    go none ih = refl
    go (some m) ih = ih m

digit_lem : (n : ℕ) → n < 2 ^ 64 → parse_digit (n / 10) (48 + n % 10) ≡ some n
digit_lem n h = ground arith

parse_from-digits :
    (width n : ℕ) → n < 2 ^ 64 → Fits width n → parse_from 0 (digits width n) ≡ some n
unfolding digits parse_from
parse_from-digits zero n h f = ground arith
parse_from-digits (suc width) n h f =
    parse_from-append 0 (48 + n % 10) (digits width (n / 10))
    ∙ ap (λ o. and_then o (λ m. parse_digit m (48 + n % 10)))
        (parse_from-digits width (n / 10) (omega arith) f)
    ∙ digit_lem n h

pub Fits-20 : (n : ℕ) → n < 2 ^ 64 → Fits 20 n
Fits-20 n h = omega arith

parse_uint-digits : (n : ℕ) → n < 2 ^ 64 → parse_uint (digits 20 n) ≡ some n
unfolding parse_uint
parse_uint-digits n h =
    go (digits 20 n) (length-digits 20 n) (parse_from-digits 20 n h (Fits-20 n h))
  where
    go : (cs : List ℕ) → length cs ≡ 20 → parse_from 0 cs ≡ some n → parse_uint cs ≡ some n
    go [] l e = absurd (omega (arith, l))
    go (c ∷ cs) l e = e

-- Condition: `tx` is a uint64. The transaction that is read from the name of a snapshot's file is that
-- of the snapshot.
pub get_tx-snapshot_file_name :
    (tx : ℕ) → tx < 2 ^ 64 → get_tx_from_snapshot_file_name (snapshot_file_name tx) ≡ some tx
unfolding get_tx_from_snapshot_file_name snapshot_file_name
get_tx-snapshot_file_name tx h =
    ap parse_uint (prefix (digits 20 tx) (length-digits 20 tx)) ∙ parse_uint-digits tx h
  where
    prefix : (cs : List ℕ) → length cs ≡ 20 → take 20 (cs ++ extension) ≡ cs
    prefix cs l = subst (λ k. take k (cs ++ extension) ≡ cs) l (take-append cs extension)
