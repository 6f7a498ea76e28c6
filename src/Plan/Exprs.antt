-- ===== src/Plan/Exprs.antt =====
-- query/logicalplan/expr.go: the names of expressions, the columns they read and match, their copies,
-- and conjunctions.
use frostdb.Base.{
  ℕ, Bool, true, false, not, ◌&&◌, Option, none, some, List, [], ◌∷◌, ◌++◌, ◌==◌, if◌then◌else◌,
}
use frostdb.Filter.{name_eq}
use frostdb.Plan.{
  Op, AggFunc, unknown_func, sum, min, max, count, avg, Expr, binary, column, dynamic_column,
  literal, aggregation, alias, duration, average, regexp_column_match, all, not_expr,
}
use frostdb.Plan.Op.{
  unknown, eq, not_eq, lt, lt_eq, gt, gt_eq, regex_match, regex_not_match, and, or,
}

-- `Op.String`; none where it panics.
unfoldable pub op_string : Op → Option (List ℕ)
op_string unknown = none
op_string eq = some (61 ∷ 61 ∷ [])  -- ==
op_string not_eq = some (33 ∷ 61 ∷ [])  -- !=
op_string lt = some (60 ∷ [])  -- <
op_string lt_eq = some (60 ∷ 61 ∷ [])  -- <=
op_string gt = some (62 ∷ [])  -- >
op_string gt_eq = some (62 ∷ 61 ∷ [])  -- >=
op_string regex_match = some (61 ∷ 126 ∷ [])  -- =~
op_string regex_not_match = some (33 ∷ 126 ∷ [])  -- !~
op_string and = some (38 ∷ 38 ∷ [])  -- &&
op_string or = some (124 ∷ 124 ∷ [])  -- ||

-- `AggFunc.String`
unfoldable pub func_string : AggFunc → Option (List ℕ)
func_string unknown_func = none
func_string sum = some (115 ∷ 117 ∷ 109 ∷ [])
func_string min = some (109 ∷ 105 ∷ 110 ∷ [])
func_string max = some (109 ∷ 97 ∷ 120 ∷ [])
func_string count = some (99 ∷ 111 ∷ 117 ∷ 110 ∷ 116 ∷ [])
func_string avg = some (97 ∷ 118 ∷ 103 ∷ [])

abbrev pub and_then : {A B : Type 0} → Option A → (A → Option B) → Option B
and_then none f = none
and_then (some a) f = f a

-- What the code calls of the scalars and of the regular expressions.
pub record Names (S M : Type 0) : Type 0 where
  pub scalar_string : S → List ℕ
  pub regexp_string : M → List ℕ
  pub match_string : M → List ℕ → Bool

abbrev pub has_prefix : List ℕ → List ℕ → Bool
has_prefix name [] = true
has_prefix [] (p ∷ ps) = false
has_prefix (n ∷ ns) (p ∷ ps) = n == p && has_prefix ns ps

-- `timestamp`
abbrev pub timestamp : List ℕ
timestamp = 116 ∷ 105 ∷ 109 ∷ 101 ∷ 115 ∷ 116 ∷ 97 ∷ 109 ∷ 112 ∷ []

module _ {S M : Type 0} (names : Names S M) where
  -- `Name`; none where it panics.
  unfoldable pub name : Expr S M → Option (List ℕ)
  unfolding op_string func_string
  name (binary left op right) =
      let r = name right in
      and_then (name left)
        (λ l. and_then (op_string op) (λ o. and_then r (λ r. some (l ++ 32 ∷ o ++ 32 ∷ r))))
  name (column c) = some c
  name (dynamic_column c) = some c
  name (literal s) = some (names.scalar_string s)
  name (aggregation f e) =
      let n = name e in
      and_then (func_string f) (λ s. and_then n (λ n. some (s ++ 40 ∷ n ++ 41 ∷ [])))
  name (alias e a) = some a
  name (duration d) = some []
  name (average e) = name e
  name (regexp_column_match inverse m) = some (names.regexp_string m)
  name all = some (97 ∷ 108 ∷ 108 ∷ [])
  name (not_expr e) = and_then (name e) (λ n. some (110 ∷ 111 ∷ 116 ∷ 32 ∷ n))

  -- `MatchColumn`
  unfoldable pub match_column : Expr S M → List ℕ → Option Bool
  unfolding name
  match_column (column c) column_name = some (name_eq c column_name)
  match_column (dynamic_column c) column_name = some (has_prefix column_name (c ++ 46 ∷ []))
  match_column (duration d) column_name = some (name_eq column_name timestamp)
  match_column (average e) column_name = match_column e column_name
  match_column (regexp_column_match inverse m) column_name =
      some (if names.match_string m column_name then not inverse else inverse)
  match_column all column_name = some true
  match_column (not_expr e) column_name = and_then (match_column e column_name) (λ b. some (not b))
  match_column e column_name = and_then (name e) (λ n. some (name_eq n column_name))

  -- `MatchPath`
  unfoldable pub match_path : Expr S M → List ℕ → Option Bool
  unfolding name
  match_path (duration d) path = some false
  match_path (average e) path = match_path e path
  match_path (regexp_column_match inverse m) path =
      some (if names.match_string m path then not inverse else inverse)
  match_path all path = some true
  match_path (not_expr e) path = and_then (match_path e path) (λ b. some (not b))
  match_path e path = and_then (name e) (λ n. some (has_prefix n path))

module _ {S M : Type 0} where
  -- `ColumnsUsedExprs`
  unfoldable pub columns_used_exprs : Expr S M → List (Expr S M)
  columns_used_exprs (binary left op right) = columns_used_exprs left ++ columns_used_exprs right
  columns_used_exprs (column c) = column c ∷ []
  columns_used_exprs (dynamic_column c) = dynamic_column c ∷ []
  columns_used_exprs (literal s) = []
  columns_used_exprs (aggregation f e) = columns_used_exprs e
  columns_used_exprs (alias e a) = columns_used_exprs e
  columns_used_exprs (duration d) = column timestamp ∷ []
  columns_used_exprs (average e) = columns_used_exprs e
  columns_used_exprs (regexp_column_match inverse m) = regexp_column_match inverse m ∷ []
  columns_used_exprs all = all ∷ []
  columns_used_exprs (not_expr e) = not_expr e ∷ []

  -- `Computed`
  unfoldable pub computed : Expr S M → Bool
  computed (binary left op right) = true
  computed (aggregation f e) = true
  computed (alias e a) = computed e
  computed (average e) = true
  computed (regexp_column_match inverse m) = true
  computed e = false

  -- `Clone`. A copy of a regular expression loses `inverse`.
  unfoldable pub clone : Expr S M → Expr S M
  clone (binary left op right) = binary (clone left) op (clone right)
  clone (aggregation f e) = aggregation f (clone e)
  clone (alias e a) = alias (clone e) a
  clone (average e) = average (clone e)
  clone (regexp_column_match inverse m) = regexp_column_match false m
  clone e = e

  -- The loop of `computeBinaryExpr` that leaves out what is nil.
  unfoldable pub non_nil_exprs : List (Option (Expr S M)) → List (Expr S M)
  non_nil_exprs [] = []
  non_nil_exprs (none ∷ es) = non_nil_exprs es
  non_nil_exprs (some e ∷ es) = e ∷ non_nil_exprs es

  -- The recursion of `computeBinaryExpr`, which meets no nil behind the first call.
  unfoldable pub combine : Op → Expr S M → List (Expr S M) → Expr S M
  combine op e [] = e
  combine op e (f ∷ es) = binary e op (combine op f es)

  abbrev pub combine_all : Op → List (Expr S M) → Option (Expr S M)
  combine_all op [] = none
  combine_all op (e ∷ es) = some (combine op e es)

  unfoldable pub compute_binary_expr : List (Option (Expr S M)) → Op → Option (Expr S M)
  unfolding non_nil_exprs combine
  compute_binary_expr exprs op = combine_all op (non_nil_exprs exprs)

  -- `and`
  unfoldable pub and_of : List (Option (Expr S M)) → Option (Expr S M)
  unfolding compute_binary_expr
  and_of exprs = compute_binary_expr exprs and
