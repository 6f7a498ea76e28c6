-- ===== src/Index/Scan.antt =====
-- `Scan` of index/lsm.go.
use frostdb.Base.{ℕ, Bool, List, [], ◌∷◌, ltb, if◌then◌else◌, Result, ok, err}
use frostdb.Index.{Body, arrow, parquet, Node, sentinel, part}

-- What the callback of a scan is given.
pub data Item (R G : Type 0) : Type 0 where
  a_record : R → Item R G
  a_group : G → Item R G

-- `eval` is the filter on a row group, `callback` works on a state `C`.
module _ {R G E C : Type 0} (eval : G → Result E Bool) (callback : Item R G → C → Result E C) where
  unfoldable pub scan_groups : List G → C → Result E C
  scan_groups [] c = ok c
  scan_groups (g ∷ gs) c = elim (eval g) [
    | err e ↦ err e
    | ok useful ↦ elim (if useful then callback (a_group g) c else ok c) [
      | err e ↦ err e
      | ok c' ↦ scan_groups gs c'
    ]
  ]

  unfoldable pub scan_body : Body R G → C → Result E C
  unfolding scan_groups
  scan_body (arrow r) c = callback (a_record r) c
  scan_body (parquet gs) c = scan_groups gs c

  -- `Scan` at a transaction, over the nodes from a place in the list on.
  unfoldable pub scan : ℕ → List (Node R G) → C → Result E C
  unfolding scan_body
  scan tx [] c = ok c
  scan tx (sentinel s ∷ nodes) c = scan tx nodes c
  scan tx (part p ∷ nodes) c =
      let skipped = scan tx nodes c in
      if ltb tx p.tx
      then skipped
      else elim (scan_body p.body c) [ err e ↦ err e | ok c' ↦ scan tx nodes c' ]
