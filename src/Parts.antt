-- ===== src/Parts.antt =====
-- FindMaximumNonOverlappingSet of parts/part.go.
pub mod Runs
pub mod Kept
pub mod Chains
pub mod Bound
pub mod Best
mod Tests
use frostdb.Base.{
  ℕ, Bool, true, false, not, Option, none, some, List, [], ◌∷◌, ◌++◌, Result, ok, err, ◌>>=◌, ◌==◌,
  if◌then◌else◌,
}

-- A part: the identity of its pointer, and `Least` and `Most`, which can fail.
pub record Part (R E : Type 0) : Type 0 where
  pub id : ℕ
  pub least : Result E R
  pub most : Result E R

-- The variables of the loop; `prev` is the part at the index of that name.
pub record Sweep (R E : Type 0) : Type 0 where
  pub prev : Part R E
  pub prev_end : R
  pub non_overlapping : List (Part R E)
  pub overlapping : List (Part R E)
  pub missing : Option (Part R E)

module _ {R E : Type 0} where
  abbrev pub last_part : Part R E → List (Part R E) → Part R E
  last_part p [] = p
  last_part p (q ∷ ps) = last_part q ps

  abbrev pub is_last : List (Part R E) → Bool
  is_last [] = true
  is_last (p ∷ ps) = false

  -- The three ways of an iteration.
  abbrev pub no_overlap : Part R E → R → Sweep R E → Sweep R E
  no_overlap x cur_end s = record s {
    prev = x;
    prev_end = cur_end;
    non_overlapping = s.non_overlapping ++ s.prev ∷ [];
  }

  abbrev pub drop_previous : Part R E → R → Sweep R E → Sweep R E
  drop_previous x cur_end s = record s {
    prev = x;
    prev_end = cur_end;
    overlapping = s.overlapping ++ s.prev ∷ [];
  }

  abbrev pub drop_current : Bool → Part R E → Sweep R E → Sweep R E
  drop_current last x s = record s {
    overlapping = s.overlapping ++ x ∷ [];
    missing = if last then some s.prev else s.missing;
  }

  -- `overlapping` is empty or ends with another part.
  unfoldable pub ends_differently : List (Part R E) → Part R E → Bool
  ends_differently [] last = true
  ends_differently (p ∷ []) last = not (p.id == last.id)
  ends_differently (p ∷ q ∷ ps) last = ends_differently (q ∷ ps) last

  abbrev pub add_missing : Option (Part R E) → List (Part R E) → List (Part R E)
  add_missing none ps = ps
  add_missing (some p) ps = ps ++ p ∷ []

  -- What comes behind the loop.
  unfoldable pub finish : Sweep R E → Part R E → List (Part R E) × List (Part R E)
  unfolding ends_differently
  finish s last =
      if ends_differently s.overlapping last
      then (s.non_overlapping ++ last ∷ [], s.overlapping)
      else (s.non_overlapping, add_missing s.missing s.overlapping)

-- `leq a b` is `schema.Cmp(a, b) <= 0`.
module _ {R E : Type 0} (leq : R → R → Bool) where
  abbrev pub sweep_to : Bool → R → R → Part R E → Sweep R E → Sweep R E
  sweep_to last start cur_end x s =
      if leq s.prev_end start
      then no_overlap x cur_end s
      else if leq cur_end s.prev_end
      then drop_previous x cur_end s
      else drop_current last x s

  -- An iteration of the loop.
  unfoldable pub sweep_step : Bool → Part R E → Sweep R E → Result E (Sweep R E)
  sweep_step last x s =
      x.least >>= λ start. x.most >>= λ cur_end. ok (sweep_to last start cur_end x s)

  unfoldable pub sweep : List (Part R E) → Sweep R E → Result E (Sweep R E)
  unfolding sweep_step
  sweep [] s = ok s
  sweep (x ∷ xs) s = sweep_step (is_last xs) x s >>= λ t. sweep xs t

  abbrev pub sweep_sorted : List (Part R E) → Result E (List (Part R E) × List (Part R E))
  sweep_sorted [] = ok ([], [])
  sweep_sorted (p ∷ ps) = p.most >>= λ prev_end.
      sweep ps (record {
        prev = p;
        prev_end = prev_end;
        non_overlapping = [];
        overlapping = [];
        missing = none;
      })
      >>= λ s. ok (finish s (last_part p ps))

  -- `sort_parts` is `sort.Sort` with a PartSorter, and the error that its `Less` has met.
  unfoldable pub find_maximum_non_overlapping_set :
      (List (Part R E) → Result E (List (Part R E)))
      → List (Part R E)
      → Result E (List (Part R E) × List (Part R E))
  unfolding sweep finish
  find_maximum_non_overlapping_set sort_parts [] = ok ([], [])
  find_maximum_non_overlapping_set sort_parts (p ∷ []) = ok (p ∷ [], [])
  find_maximum_non_overlapping_set sort_parts (p ∷ q ∷ ps) =
      sort_parts (p ∷ q ∷ ps) >>= λ sorted. sweep_sorted sorted
