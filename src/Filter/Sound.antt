-- ===== src/Filter/Sound.antt =====
-- `BinaryScalarOperation` and `Eval` of query/expr against the rows of the row groups.
use mathlib.Core.Path.{subst, subst⁻¹}
use frostdb.Base.{
  ℕ, ◌≡◌, ◌≢◌, refl, Bool, true, false, Option, none, some, List, Result, ok, err, Bool-cases, inl,
  inr, ◌>>=◌, arith,
}
use frostdb.Plan.{Op}
use frostdb.Plan.Op.{eq, not_eq, lt, lt_eq, gt, gt_eq}
use frostdb.Filter.{
  Values, Page, Chunk, min_of, max_of, eq_operation, order_operation, pages_operation,
  binary_scalar_operation, missing_column, Filter, always_true, scalar, and_expr, or_expr, RowGroup,
  find_column, scalar_eval, eval,
}
use frostdb.Filter.Bounds.{nulls_first, min_of-MinBound}
use frostdb.Filter.Rows.{
  count_values, Stands, InBounds, Describes, compares, matches, missing_matches, cell_matches,
  row_matches, Stands-InBounds, null_count_pos, null_count_lt,
}

-- Not `!=` with a literal, which nulls satisfy where the engine evaluates it.
abbrev pub AsksNoNulls : {V : Type 0} → Op → Option V → Type 0
AsksNoNulls not_eq (some r) = ⊥
AsksNoNulls op right = Unit

module _ {V E : Type 0} (o : Values V) where
  -- A bloom filter has no false negatives.
  abbrev pub Knows : Option (V → Result E Bool) → Option V → Type 0
  Knows none v = Unit
  Knows (some check) none = Unit
  Knows (some check) (some v) = (r : V) → compares o eq v r ≡ true → check r ≢ ok false

  -- Where the row group lacks the column, only an order, or an equality with null or a text.
  abbrev pub IsDecidedOp : Option (Chunk V E) → Op → Option V → Type 0
  IsDecidedOp (some c) op right = AsksNoNulls op right
  IsDecidedOp none eq none = Unit
  IsDecidedOp none eq (some r) = o.is_bytes r ≡ true
  IsDecidedOp none not_eq none = Unit
  IsDecidedOp none lt right = Unit
  IsDecidedOp none lt_eq right = Unit
  IsDecidedOp none gt right = Unit
  IsDecidedOp none gt_eq right = Unit
  IsDecidedOp none op right = ⊥

  -- Each comparison of a filter is such, for a row group.
  abbrev pub IsDecided : RowGroup V E → Filter V → Type 0
  IsDecided p always_true = Unit
  IsDecided p (scalar name op right) = IsDecidedOp (find_column name p) op right
  IsDecided p (and_expr left right) = IsDecided p left × IsDecided p right
  IsDecided p (or_expr left right) = IsDecided p left × IsDecided p right

  module _ (pages : List (Page V)) (v r : V)
      (b : InBounds o (min_of o pages) (max_of o pages) (some v)) where
    -- The switch discards no chunk with a value that matches.
    order_false :
        (op : Op) → order_operation {E = E} o pages r op ≡ ok false → compares o op v r ≡ false
    unfolding order_operation
    order_false lt_eq h = ground (arith, o.leq_trans b.0 v r)
    order_false lt h = ground (arith, o.leq_trans r b.0 v)
    order_false gt h = ground (arith, o.leq_trans v b.1 r)
    order_false gt_eq h = ground (arith, o.leq_trans r v b.1)
    order_false op h = absurd (ground arith)

    eq_false :
        (bloom : Option (V → Result E Bool))
        → Knows bloom (some v)
        → eq_operation o pages bloom r ≡ ok false
        → compares o eq v r ≡ false
    unfolding eq_operation
    eq_false none k h = ground (arith, o.leq_trans b.0 v r, o.leq_trans r v b.1)
    eq_false (some check) k h = elim (Bool-cases (compares o eq v r)) [
      | inl m ↦ absurd (k r m h)
      | inr m ↦ m
    ]

  -- Whatever the operator, a chunk whose index describes its values is discarded only where none of
  -- them matches.
  module _ (pages : List (Page V)) (rs : List (List (Option V))) (n : ℕ)
      (bloom : Option (V → Result E Bool)) (d : Describes o pages rs) (c : count_values rs ≡ n)
      (f : nulls_first pages ≡ true) where
    bounds : (v : V) → Stands (some v) rs → InBounds o (min_of o pages) (max_of o pages) (some v)
    bounds v e =
        let b = min_of-MinBound o pages f in
        Stands-InBounds o (min_of o pages) (max_of o pages) pages rs (some v) b.0 b.1 d e

    pages_operation_lem :
        (v right : Option V) (op : Op)
        → AsksNoNulls op right
        → Stands v rs
        → Knows bloom v
        → pages_operation o pages n bloom right op ≡ ok false
        → matches o op v right ≡ false
    unfolding pages_operation
    pages_operation_lem none none eq u e k h = ground (arith, null_count_pos o pages rs d e)
    pages_operation_lem (some v) none eq u e k h = refl
    pages_operation_lem none none op u e k h = refl
    pages_operation_lem none (some r) eq u e k h = refl
    pages_operation_lem none (some r) not_eq u e k h = absurd u
    pages_operation_lem none (some r) op u e k h = refl
    pages_operation_lem (some v) none op u e k h = absurd (ground arith)
    pages_operation_lem (some v) (some r) eq u e k h =
        eq_false pages v r (bounds v e) bloom k (ground (arith, null_count_lt o v pages rs d e))
    pages_operation_lem (some v) (some r) op u e k h =
        order_false pages v r (bounds v e) op (ground (arith, null_count_lt o v pages rs d e))

  -- A value stands in a chunk that the given index describes.
  pub record Holds (c : Chunk V E) (pages : List (Page V)) (v : Option V) : Type 0 where
    pub rows : List (List (Option V))
    pub described : Describes o pages rows
    pub counted : count_values rows ≡ c.num_values
    pub nulls_in_front : nulls_first pages ≡ true
    pub stands : Stands v rows
    pub known : Knows c.bloom_filter v

  abbrev pub IsCellOf : Chunk V E → Option V → Type 0
  IsCellOf c v = (pages : List (Page V)) → c.column_index ≡ ok pages → Holds c pages v

  -- What a row has in a column, nothing where the row group does not have the column.
  abbrev pub IsCell : Option (Chunk V E) → Option (Option V) → Type 0
  IsCell none x = x ≡ none
  IsCell (some c) x = (v : Option V) × (x ≡ some v) × IsCellOf c v

  abbrev pub IsRow : RowGroup V E → (List ℕ → Option (Option V)) → Type 0
  IsRow p cell = (name : List ℕ) → IsCell (find_column name p) (cell name)

  binary_scalar_operation_lem :
      (c : Chunk V E) (v right : Option V) (op : Op)
      → AsksNoNulls op right
      → IsCellOf c v
      → binary_scalar_operation o c right op ≡ ok false
      → matches o op v right ≡ false
  unfolding binary_scalar_operation
  binary_scalar_operation_lem c v right op u h e = go c.column_index refl
    where
      go : (i : Result E (List (Page V))) → c.column_index ≡ i → matches o op v right ≡ false
      go (err x) k = absurd (ground arith)
      go (ok pages) k =
          let r = h pages k in
          pages_operation_lem pages r.rows c.num_values c.bloom_filter r.described r.counted
            r.nulls_in_front v right op u r.stands r.known
            (subst
              (λ i.
                (i >>= λ ps. pages_operation o ps c.num_values c.bloom_filter right op) ≡ ok false)
              k e)

  missing_column_lem :
      (right : Option V) (op : Op)
      → IsDecidedOp none op right
      → missing_column {E = E} o right op ≡ ok false
      → missing_matches o op right ≡ false
  unfolding missing_column
  missing_column_lem none eq d e = absurd (ground arith)
  missing_column_lem none not_eq d e = refl
  missing_column_lem right lt d e = refl
  missing_column_lem right lt_eq d e = refl
  missing_column_lem right gt d e = refl
  missing_column_lem right gt_eq d e = refl
  missing_column_lem (some r) eq d e = ground (arith, d)
  missing_column_lem (some r) not_eq d e = absurd d
  missing_column_lem right op d e = absurd d

  scalar_eval_lem :
      (c : Option (Chunk V E)) (x : Option (Option V)) (right : Option V) (op : Op)
      → IsDecidedOp c op right
      → IsCell c x
      → scalar_eval o c op right ≡ ok false
      → cell_matches o op x right ≡ false
  unfolding scalar_eval
  scalar_eval_lem none x right op d h e =
      subst⁻¹ (λ w. cell_matches o op w right ≡ false) h (missing_column_lem right op d e)
  scalar_eval_lem (some c) x right op d (v, q, h) e =
      subst⁻¹ (λ w. cell_matches o op w right ≡ false) q
        (binary_scalar_operation_lem c v right op d h e)

  -- Conditions: `p` is a row group, `cell` a row of it: the value of each column that `p` has stands in
  -- the column's chunk, whose index describes its values, has its null pages in front of the others,
  -- and whose bloom filter has no false negatives; the row lacks the columns that `p` lacks. The filter
  -- has no `!=` with a literal, and compares a column that `p` lacks only by order, or for equality with
  -- null or a text. Then a filter that discards the row group, `Eval` is false, is not fulfilled by the
  -- row.
  pub eval_discards :
      (filter : Filter V) (p : RowGroup V E) (cell : List ℕ → Option (Option V))
      → IsRow p cell
      → IsDecided p filter
      → eval o filter p ≡ ok false
      → row_matches o filter cell ≡ false
  unfolding eval
  eval_discards always_true p cell h d e = absurd (ground arith)
  eval_discards (scalar name op right) p cell h d e =
      scalar_eval_lem (find_column name p) (cell name) right op d (h name) e
  eval_discards (and_expr left right) p cell h d e =
      ground (arith, eval_discards left p cell h d.0, eval_discards right p cell h d.1)
  eval_discards (or_expr left right) p cell h d e =
      ground (arith, eval_discards left p cell h d.0, eval_discards right p cell h d.1)
