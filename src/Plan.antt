-- ===== src/Plan.antt =====
-- query/logicalplan/expr.go: expressions and the traversal that visitors share.
pub mod Exprs
pub mod Optimize
pub mod Filters
pub mod Reads
pub mod Projections
pub mod Covered
pub mod Pushed
pub mod Average
pub mod OneAverage
pub mod Validate
pub mod Leaves
mod Valid
mod Tests
use frostdb.Base.{ℕ, Bool, true, false, List}
use frostdb.Base.Int.{ℤ}

pub data Op : Type 0 where
  unknown eq not_eq lt lt_eq gt gt_eq regex_match regex_not_match and or : Op

pub data AggFunc : Type 0 where
  unknown_func sum min max count avg : AggFunc

-- `S` are the scalars of github.com/apache/arrow/go/v14, `M` the compiled regular expressions; a name
-- is its code points.
pub data Expr (S M : Type 0) : Type 0 where
  binary : Expr S M → Op → Expr S M → Expr S M
  column dynamic_column : List ℕ → Expr S M
  literal : S → Expr S M
  aggregation : AggFunc → Expr S M → Expr S M
  alias : Expr S M → List ℕ → Expr S M
  duration : ℤ → Expr S M
  average : Expr S M → Expr S M
  regexp_column_match : Bool → M → Expr S M
  all : Expr S M
  not_expr : Expr S M → Expr S M

-- `Visitor`, with the state that its methods change; a result tells whether to go on.
pub record Visitor (S M T : Type 0) : Type 0 where
  pub pre_visit : Expr S M → T → Bool × T
  pub visit : Expr S M → T → Bool × T
  pub post_visit : Expr S M → T → Bool × T

abbrev pub continue_with : {T : Type 0} → Bool × T → (T → Bool × T) → Bool × T
continue_with (true, t) f = f t
continue_with (false, t) f = (false, t)

module _ {S M T : Type 0} (v : Visitor S M T) where
  abbrev pub accept_leaf : Expr S M → T → Bool × T
  accept_leaf e t = continue_with (v.pre_visit e t) (v.post_visit e)

  -- `Accept` of the expressions. Only three of them lead the visitor into their parts.
  unfoldable pub accept : Expr S M → T → Bool × T
  accept (binary left op right) t =
      let e = binary left op right in
      continue_with (v.pre_visit e t) (λ t.
        continue_with (accept left t)
          (λ t. continue_with (v.visit e t) (λ t. continue_with (accept right t) (v.post_visit e))))
  accept (aggregation f e) t =
      continue_with (v.pre_visit (aggregation f e) t)
        (λ t. continue_with (accept e t) (v.post_visit (aggregation f e)))
  accept (alias e a) t =
      continue_with (v.pre_visit (alias e a) t)
        (λ t. continue_with (accept e t) (v.post_visit (alias e a)))
  accept e t = accept_leaf e t
