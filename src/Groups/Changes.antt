-- ===== src/Groups/Changes.antt =====
-- The rows at which `GetGroupsAndOrderedSetRanges` of pqarrow/arrowutils/groupranges.go finds a group.
use mathlib.Core.Path.{subst, subst⁻¹}
use frostdb.Base.{
  ℕ, zero, suc, ◌+◌, ◌≡◌, ◌≢◌, ◌↔◌, refl, ap, Bool, true, false, Option, none, some, List, [], ◌∷◌,
  ok, err, ok-injective, Elem, inl, inr, ◌⊎◌, arith,
}
use frostdb.Base.Int.{ℤ, pos, negsuc}
use frostdb.Groups.{
  Value, bytes, string, int64, boolean, Kind, binary_array, string_array, int64_array,
  boolean_array, virtual_null_array, dictionary_array, panic, Ranges, Comparison, less, same,
  greater, heap_push, row_compare, null_comparison, compare_bytes, compare_int64, compare_bools,
  compare_values, compare_present, group_is_nil,
}
use frostdb.Groups.Heap.{Elem-heap_push}

-- Not the empty bytes.
abbrev pub IsKept : Option Value → Type 0
IsKept (some (bytes [])) = ⊥
IsKept v = Unit

bytes_same : (a b : List ℕ) → compare_bytes a b ≡ same → a ≡ b
unfolding compare_bytes
bytes_same [] [] h = refl
bytes_same [] (b ∷ bs) h = absurd (ground arith)
bytes_same (a ∷ xs) [] h = absurd (ground arith)
bytes_same (a ∷ xs) (b ∷ bs) h = ground (arith, bytes_same xs bs)

bytes_refl : (a : List ℕ) → compare_bytes a a ≡ same
unfolding compare_bytes
bytes_refl [] = refl
bytes_refl (a ∷ xs) = ground (arith, bytes_refl xs)

int64_same : (a b : ℤ) → compare_int64 a b ≡ same → a ≡ b
unfolding compare_int64
int64_same (pos a) (pos b) h = ground arith
int64_same (pos a) (negsuc b) h = absurd (ground arith)
int64_same (negsuc a) (pos b) h = absurd (ground arith)
int64_same (negsuc a) (negsuc b) h = ground arith

int64_refl : (a : ℤ) → compare_int64 a a ≡ same
unfolding compare_int64
int64_refl (pos a) = ground arith
int64_refl (negsuc a) = ground arith

bools_same : (a b : Bool) → compare_bools a b ≡ same → a ≡ b
unfolding compare_bools
bools_same true true h = refl
bools_same true false h = absurd (ground arith)
bools_same false true h = absurd (ground arith)
bools_same false false h = refl

bools_refl : (a : Bool) → compare_bools a a ≡ same
unfolding compare_bools
bools_refl true = refl
bools_refl false = refl

values_same : (a b : Value) → compare_values a b ≡ ok same → a ≡ b
unfolding compare_values
values_same (bytes a) (bytes b) h =
    ap bytes (bytes_same a b (ok-injective (compare_bytes a b) same h))
values_same (string a) (string b) h =
    ap string (bytes_same a b (ok-injective (compare_bytes a b) same h))
values_same (int64 a) (int64 b) h =
    ap int64 (int64_same a b (ok-injective (compare_int64 a b) same h))
values_same (boolean a) (boolean b) h =
    ap boolean (bools_same a b (ok-injective (compare_bools a b) same h))
values_same a b h = absurd (ground arith)

values_refl : (a : Value) → compare_values a a ≡ ok same
unfolding compare_values
values_refl (bytes a) = ap ok (bytes_refl a)
values_refl (string a) = ap ok (bytes_refl a)
values_refl (int64 a) = ap ok (int64_refl a)
values_refl (boolean a) = ap ok (bools_refl a)

present_same :
    (kind : Kind) (a b : Value) → compare_present kind (some a) (some b) ≡ ok same → a ≡ b
present_same virtual_null_array a b h = absurd (ground arith)
present_same kind a b h = values_same a b h

present_refl :
    (kind : Kind) (a : Value) (c : Comparison)
    → compare_present kind (some a) (some a) ≡ ok c
    → c ≡ same
present_refl virtual_null_array a c h = absurd (ground arith)
present_refl kind a c h = ground (arith, values_refl a)

nil_cases :
    (kind : Kind) (a : Value)
    → IsKept (some a)
    → (group_is_nil kind (some a) ≡ ok false) ⊎ (group_is_nil kind (some a) ≡ err panic)
unfolding group_is_nil
nil_cases kind (bytes []) h = absurd h
nil_cases binary_array (bytes (b ∷ bs)) h = inl refl
nil_cases dictionary_array (bytes (b ∷ bs)) h = inl refl
nil_cases string_array (string s) h = inl refl
nil_cases int64_array (int64 i) h = inl refl
nil_cases boolean_array (boolean b) h = inl refl
nil_cases virtual_null_array (bytes (b ∷ bs)) h = inl refl
nil_cases virtual_null_array a h = inl refl
nil_cases kind a h = inr refl

-- What a comparison of a group's value with a row's says of them.
abbrev pub Says : Option Value → Option Value → Comparison → Type 0
Says g v same = g ≡ v
Says g v less = g ≢ v
Says g v greater = g ≢ v

differs :
    (kind : Kind) (a b : Value) (c : Comparison)
    → compare_present kind (some a) (some b) ≡ ok c
    → c ≢ same
    → ◌≢◌ {A = Option Value} (some a) (some b)
differs kind a b c h n e =
    n (present_refl kind a c (subst⁻¹ (λ x. compare_present kind (some a) x ≡ ok c) e h))

present_of :
    (kind : Kind) (a b : Value) (c : Comparison)
    → IsKept (some a)
    → row_compare kind (some a) (some b) ≡ ok c
    → compare_present kind (some a) (some b) ≡ ok c
unfolding row_compare null_comparison
present_of kind a b c h e = elim (nil_cases kind a h) [
  | inl k ↦ ground arith
  | inr k ↦ absurd (ground arith)
]

pub row_compare-Says :
    (kind : Kind) (g v : Option Value) (c : Comparison)
    → IsKept g
    → row_compare kind g v ≡ ok c
    → Says g v c
unfolding row_compare null_comparison group_is_nil
row_compare-Says kind none none same h e = refl
row_compare-Says kind none none c h e = absurd (ground arith)
row_compare-Says kind none (some b) same h e = absurd (ground arith)
row_compare-Says kind none (some b) c h e = λ k. absurd (cc)
row_compare-Says kind (some a) none same h e = elim (nil_cases kind a h) [
  | inl k ↦ absurd (ground arith)
  | inr k ↦ absurd (ground arith)
]
row_compare-Says kind (some a) none c h e = λ k. absurd (cc)
row_compare-Says kind (some a) (some b) same h e =
    ap some (present_same kind a b (present_of kind a b same h e))
row_compare-Says kind (some a) (some b) less h e =
    λ k. differs kind a b less (present_of kind a b less h e) (λ m. absurd (cc)) k
row_compare-Says kind (some a) (some b) greater h e =
    λ k. differs kind a b greater (present_of kind a b greater h e) (λ m. absurd (cc)) k

-- Row `n` of a column has another value than the row before, the first than the group `g`.
abbrev pub Changes : Option Value → List (Option Value) → ℕ → Type 0
Changes g [] n = ⊥
Changes g (v ∷ vs) zero = g ≢ v
Changes g (v ∷ vs) (suc n) = Changes v vs n

-- `n` was in the heap before, or the column changes there, counted from row `j`.
abbrev pub Begins : ℕ → Ranges → Option Value → List (Option Value) → ℕ → Type 0
Begins j r g vs n = Elem n r.group_ranges ⊎ ((i : ℕ) × (n ≡ j + i) × Changes g vs i)

abbrev pub Found : ℕ → Ranges → Option Value → List (Option Value) → Ranges → Type 0
Found j r g vs s = (n : ℕ) → Elem n s.group_ranges ↔ Begins j r g vs n

pub Found-unchanged :
    (j : ℕ) (r : Ranges) (v : Option Value) (vs : List (Option Value)) (s : Ranges)
    → Found (suc j) r v vs s
    → Found j r v (v ∷ vs) s
Found-unchanged j r v vs s f n = (
  λ e. elim ((f n).0 e) [ inl k ↦ inl k | inr (i, k, c) ↦ inr (suc i, omega arith, c) ],
  λ e. elim e [
    | inl k ↦ (f n).1 (inl k)
    | inr (zero, k, c) ↦ absurd (c refl)
    | inr (suc i, k, c) ↦ (f n).1 (inr (i, omega arith, c))
  ],
)

pub Found-changed :
    (j : ℕ) (r r' : Ranges) (g v : Option Value) (vs : List (Option Value)) (s : Ranges)
    → g ≢ v
    → r'.group_ranges ≡ heap_push j r.group_ranges
    → Found (suc j) r' v vs s
    → Found j r g (v ∷ vs) s
Found-changed j r r' g v vs s d p f n = (
  λ e. elim ((f n).0 e) [
    | inl k ↦ elim ((Elem-heap_push n j r.group_ranges).0 (subst (λ h. Elem n h) p k)) [
      | inl q ↦ inr (zero, omega arith, d)
      | inr q ↦ inl q
    ]
    | inr (i, k, c) ↦ inr (suc i, omega arith, c)
  ],
  λ e. elim e [
    | inl k ↦
        (f n).1 (inl (subst⁻¹ (λ h. Elem n h) p ((Elem-heap_push n j r.group_ranges).1 (inr k))))
    | inr (zero, k, c) ↦ (f n).1 (
        inl (subst⁻¹ (λ h. Elem n h) p ((Elem-heap_push n j r.group_ranges).1 (inl (omega arith)))))
    | inr (suc i, k, c) ↦ (f n).1 (inr (i, omega arith, c))
  ],
)
