-- ===== src/Blocks/MinPersisted.antt =====
-- Where maintainWAL truncates the log that the tables of a database share.
use mathlib.Core.Path.{subst}
use frostdb.Base.{
  ℕ, suc, ◌≤◌, ◌<◌, ◌-◌, ◌^◌, Bool, true, false, none, some, List, [], ◌∷◌, ltb, if◌then◌else◌,
  Elem, ◌≡◌, refl, sym, inl, inr, arith, tests,
}
use frostdb.Blocks.{Completion, min_persisted_from, get_min_tx_persisted, maintain_wal}
use frostdb.Blocks.Advance.{t_mono}
use frostdb.Blocks.Progress.{NoRepeats, completed, completed_prefix}

min_from_le : (m : ℕ) (ts : List Completion) → min_persisted_from m ts ≤ m
unfolding min_persisted_from
min_from_le m [] = omega arith
min_from_le m (c ∷ ts) = go (ltb c.last_completed m) refl (λ n. min_from_le n ts)
  where
    go :
        (x : Bool)
        → ltb c.last_completed m ≡ x
        → ((n : ℕ) → min_persisted_from n ts ≤ n)
        → min_persisted_from (if x then c.last_completed else m) ts ≤ m
    go true h f = omega (tests, h, f c.last_completed)
    go false h f = f m

min_from-Elem :
    (m : ℕ) (c : Completion) (ts : List Completion)
    → Elem c ts
    → min_persisted_from m ts ≤ c.last_completed
unfolding min_persisted_from
min_from-Elem m c [] h = absurd h
min_from-Elem m c (d ∷ ts) (inr h) =
    min_from-Elem (if ltb d.last_completed m then d.last_completed else m) c ts h
min_from-Elem m c (d ∷ ts) (inl e) =
    subst (λ (x : Completion). min_persisted_from m (d ∷ ts) ≤ x.last_completed) (sym e)
      (go (ltb d.last_completed m) refl (λ n. min_from_le n ts))
  where
    go :
        (x : Bool)
        → ltb d.last_completed m ≡ x
        → ((n : ℕ) → min_persisted_from n ts ≤ n)
        → min_persisted_from (if x then d.last_completed else m) ts ≤ d.last_completed
    go true h f = f d.last_completed
    go false h f = ground (arith, f m)

maintain_wal-min :
    (tables : List Completion) (n : ℕ)
    → maintain_wal tables ≡ some n
    → n ≡ get_min_tx_persisted tables
unfolding maintain_wal
maintain_wal-min tables n h = go (ltb 0 (get_min_tx_persisted tables)) h
  where
    go :
        (x : Bool)
        → (if x then some (get_min_tx_persisted tables) else none) ≡ some n
        → n ≡ get_min_tx_persisted tables
    go true h = cc
    go false h = absurd (cc)

-- Wherever maintainWAL truncates the log, that transaction is below the one at which a block of any of
-- the tables begins that is not completed, the blocks of that table having completed in any order, each
-- at most once.
pub maintain_wal-below :
    (t : ℕ → ℕ) (grows : (i : ℕ) → t i < t (suc i)) (is : List ℕ) (i n : ℕ)
    (tables : List Completion)
    → t 0 ≡ 0
    → NoRepeats is
    → Elem (completed t grows is) tables
    → maintain_wal tables ≡ some n
    → (Elem i is → ⊥)
    → n < t (suc i)
unfolding get_min_tx_persisted
maintain_wal-below t grows is i n tables z r m h new =
    let (k, e, below, next) = completed_prefix t grows is z r in
    let least = min_from-Elem (2 ^ 64 - 1) (completed t grows is) tables m in
    let reached = behind k i (λ l. new (below i l)) in
    omega (arith, maintain_wal-min tables n h, least, e, t_mono t grows k i reached, grows i)
  where
    behind : (k i : ℕ) → (i < k → ⊥) → k ≤ i
    behind k i h = ground arith
