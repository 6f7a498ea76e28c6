-- ===== src/Filter/Rows.antt =====
-- The values that stand in the row groups of query/expr/filter.go, and how an index describes them.
use mathlib.Core.Path.{subst⁻¹}
use frostdb.Base.{
  ℕ, ◌+◌, ◌≤◌, ◌<◌, ◌≡◌, refl, Bool, true, false, not, ◌&&◌, ◌||◌, Option, none, some, List, [],
  ◌∷◌, length, All, Elem, inl, inr, ◌⊎◌, arith,
}
use frostdb.Plan.{Op}
use frostdb.Plan.Op.{eq, not_eq, lt, lt_eq, gt, gt_eq}
use frostdb.Filter.{Values, Page, null_count, Filter, always_true, scalar, and_expr, or_expr}
use frostdb.Filter.Bounds.{MinBound, MaxBound}

-- The values of the pages of a column chunk; `none` is a null.
abbrev pub nulls : {V : Type 0} → List (Option V) → ℕ
nulls [] = 0
nulls (none ∷ vs) = 1 + nulls vs
nulls (some v ∷ vs) = nulls vs

abbrev pub count_values : {V : Type 0} → List (List (Option V)) → ℕ
count_values [] = 0
count_values (r ∷ rs) = length r + count_values rs

abbrev pub Stands : {V : Type 0} → Option V → List (List (Option V)) → Type 0
Stands v [] = ⊥
Stands v (r ∷ rs) = Elem v r ⊎ Stands v rs

module _ {V : Type 0} (o : Values V) where
  -- A value lies between a minimum and a maximum.
  abbrev pub InBounds : Option V → Option V → Option V → Type 0
  InBounds m x none = Unit
  InBounds m x (some v) =
      (a : V) × (b : V) × (m ≡ some a) × (x ≡ some b) × (o.leq a v ≡ true) × (o.leq v b ≡ true)

  -- The index describes the values.
  abbrev pub Describes : List (Page V) → List (List (Option V)) → Type 0
  Describes [] [] = Unit
  Describes [] (r ∷ rs) = ⊥
  Describes (p ∷ ps) [] = ⊥
  Describes (p ∷ ps) (r ∷ rs) =
      All (InBounds p.min_value p.max_value) r × ((nulls r ≡ p.null_count) × Describes ps rs)

  -- The comparison of a value with the literal of a query, as query/physicalplan/binaryscalarexpr.go
  -- makes it; nothing is assumed of the operators that are no comparisons.
  abbrev pub compares : Op → V → V → Bool
  compares eq v r = o.leq v r && o.leq r v
  compares not_eq v r = not (o.leq v r && o.leq r v)
  compares lt v r = not (o.leq r v)
  compares lt_eq v r = o.leq v r
  compares gt v r = not (o.leq v r)
  compares gt_eq v r = o.leq r v
  compares op v r = true

  -- A null in a column: it is equal to null, and different from every literal.
  abbrev pub matches : Op → Option V → Option V → Bool
  matches eq none none = true
  matches not_eq none (some r) = true
  matches op none right = false
  matches eq (some v) none = false
  matches op (some v) none = true
  matches op (some v) (some r) = compares op v r

  -- A row whose record lacks the column: it counts as equal to null, to the empty text and to every
  -- literal that is no text, and as different from every literal.
  abbrev pub missing_matches : Op → Option V → Bool
  missing_matches eq none = true
  missing_matches eq (some r) = not (o.is_bytes r) || o.is_empty r
  missing_matches not_eq none = false
  missing_matches not_eq (some r) = true
  missing_matches lt right = false
  missing_matches lt_eq right = false
  missing_matches gt right = false
  missing_matches gt_eq right = false
  missing_matches op right = true

  -- A cell is none where the record lacks the column, and none in it where it is null there.
  abbrev pub cell_matches : Op → Option (Option V) → Option V → Bool
  cell_matches op none right = missing_matches op right
  cell_matches op (some v) right = matches op v right

  -- A row fulfils a filter.
  abbrev pub row_matches : Filter V → (List ℕ → Option (Option V)) → Bool
  row_matches always_true cell = true
  row_matches (scalar name op right) cell = cell_matches op (cell name) right
  row_matches (and_expr left right) cell = row_matches left cell && row_matches right cell
  row_matches (or_expr left right) cell = row_matches left cell || row_matches right cell

  value_in :
      (m x : Option V) (p : Page V) (ps : List (Page V)) (v : Option V)
      → MinBound o (p ∷ ps) m
      → MaxBound o (p ∷ ps) x
      → InBounds p.min_value p.max_value v
      → InBounds m x v
  value_in m x p ps none hm hx h = tt
  value_in none x p ps (some v) hm hx h = absurd (cc)
  value_in (some r) none p ps (some v) hm hx h = absurd (cc)
  value_in (some r) (some s) p ps (some v) hm hx h = (
    r,
    s,
    refl,
    refl,
    o.leq_trans r h.0 v (hm.0 h.0 h.2) h.4,
    o.leq_trans v h.1 s h.5 (hx.0 h.1 h.3),
  )

  tail_min :
      (m : Option V) (p : Page V) (ps : List (Page V)) → MinBound o (p ∷ ps) m → MinBound o ps m
  tail_min none p ps h = h.1
  tail_min (some r) p ps h = h.1

  tail_max :
      (m : Option V) (p : Page V) (ps : List (Page V)) → MaxBound o (p ∷ ps) m → MaxBound o ps m
  tail_max none p ps h = h.1
  tail_max (some r) p ps h = h.1

  find : (P : Option V → Type 0) (v : Option V) (vs : List (Option V)) → All P vs → Elem v vs → P v
  find P v [] h e = elim e [ ]
  find P v (w ∷ vs) h (inl e) = subst⁻¹ P e h.0
  find P v (w ∷ vs) h (inr e) = find P v vs h.1 e

  -- A value of the chunk lies between bounds of all pages.
  pub Stands-InBounds :
      (m x : Option V) (ps : List (Page V)) (rs : List (List (Option V))) (v : Option V)
      → MinBound o ps m
      → MaxBound o ps x
      → Describes ps rs
      → Stands v rs
      → InBounds m x v
  Stands-InBounds m x [] [] v hm hx d e = elim e [ ]
  Stands-InBounds m x [] (r ∷ rs) v hm hx d e = elim d [ ]
  Stands-InBounds m x (p ∷ ps) [] v hm hx d e = elim d [ ]
  Stands-InBounds m x (p ∷ ps) (r ∷ rs) v hm hx d (inl e) =
      value_in m x p ps v hm hx (find (InBounds p.min_value p.max_value) v r d.0 e)
  Stands-InBounds m x (p ∷ ps) (r ∷ rs) v hm hx d (inr e) =
      Stands-InBounds m x ps rs v (tail_min m p ps hm) (tail_max x p ps hx) d.1.1 e

  nulls_le : (r : List (Option V)) → nulls r ≤ length r
  nulls_le [] = omega arith
  nulls_le (none ∷ r) = omega (arith, nulls_le r)
  nulls_le (some v ∷ r) = omega (arith, nulls_le r)

  null_counted : (r : List (Option V)) → Elem none r → 0 < nulls r
  null_counted [] e = elim e [ ]
  null_counted (w ∷ r) (inl e) = ground arith
  null_counted (none ∷ r) (inr e) = omega arith
  null_counted (some v ∷ r) (inr e) = null_counted r e

  value_counted : (v : V) (r : List (Option V)) → Elem (some v) r → nulls r < length r
  value_counted v [] e = elim e [ ]
  value_counted v (none ∷ r) (inl e) = absurd (cc)
  value_counted v (some w ∷ r) (inl e) = omega (arith, nulls_le r)
  value_counted v (none ∷ r) (inr e) = omega (arith, value_counted v r e)
  value_counted v (some w ∷ r) (inr e) = omega (arith, value_counted v r e)

  null_count_le :
      (ps : List (Page V)) (rs : List (List (Option V)))
      → Describes ps rs
      → null_count ps ≤ count_values rs
  unfolding null_count
  null_count_le [] [] d = omega arith
  null_count_le [] (r ∷ rs) d = elim d [ ]
  null_count_le (p ∷ ps) [] d = elim d [ ]
  null_count_le (p ∷ ps) (r ∷ rs) d = omega (arith, nulls_le r, null_count_le ps rs d.1.1, d.1.0)

  -- Where a null stands, the null count is positive; where a value stands, it is not the number of
  -- all values.
  pub null_count_pos :
      (ps : List (Page V)) (rs : List (List (Option V)))
      → Describes ps rs
      → Stands none rs
      → 0 < null_count ps
  unfolding null_count
  null_count_pos [] [] d e = elim e [ ]
  null_count_pos [] (r ∷ rs) d e = elim d [ ]
  null_count_pos (p ∷ ps) [] d e = elim d [ ]
  null_count_pos (p ∷ ps) (r ∷ rs) d (inl e) = omega (arith, null_counted r e, d.1.0)
  null_count_pos (p ∷ ps) (r ∷ rs) d (inr e) = omega (arith, null_count_pos ps rs d.1.1 e)

  pub null_count_lt :
      (v : V) (ps : List (Page V)) (rs : List (List (Option V)))
      → Describes ps rs
      → Stands (some v) rs
      → null_count ps < count_values rs
  unfolding null_count
  null_count_lt v [] [] d e = elim e [ ]
  null_count_lt v [] (r ∷ rs) d e = elim d [ ]
  null_count_lt v (p ∷ ps) [] d e = elim d [ ]
  null_count_lt v (p ∷ ps) (r ∷ rs) d (inl e) =
      omega (arith, value_counted v r e, null_count_le ps rs d.1.1, d.1.0)
  null_count_lt v (p ∷ ps) (r ∷ rs) d (inr e) =
      omega (arith, nulls_le r, null_count_lt v ps rs d.1.1 e, d.1.0)
