-- ===== src/Wal/Truncation.antt =====
-- Truncations of wal/wal.go: asked for by `Truncate`, done by the next tick of `run`.
use Prim.Native.Nat.{max}
use native.Mathlib.Nat.{mod-eq_of_lt}
use frostdb.Base.{lt→ltb, ℕ, ◌+◌, ◌≤◌, ◌<◌, ◌^◌, ◌≡◌, refl, arith, List, [], ◌∷◌, All, Elem}
use frostdb.Wal.{LogRequest, FileWal, drain, truncate, after_truncate, drop_below}
use frostdb.Wal.Batch.{IsSorted}

drop_below-All :
    (n : ℕ) (queue : List LogRequest) → IsSorted queue → All (λ r. n ≤ r.tx) (drop_below n queue)
unfolding drop_below
drop_below-All n [] s = tt
drop_below-All n (r ∷ queue) s = ground (arith, drop_below-All n queue s.1, above n r.tx queue)
  where
    above :
        (a b : ℕ) (qs : List LogRequest) → a ≤ b → All (λ q. b ≤ q.tx) qs → All (λ q. a ≤ q.tx) qs
    above a b [] h k = tt
    above a b (q ∷ qs) h k = (omega arith, above a b qs h k.1)

drop_below-Elem :
    (n : ℕ) (queue : List LogRequest) (q : LogRequest)
    → n ≤ q.tx
    → Elem q queue
    → Elem q (drop_below n queue)
unfolding drop_below
drop_below-Elem n [] q h e = e
drop_below-Elem n (r ∷ queue) q h e = ground (arith, drop_below-Elem n queue q h)

after_truncate-eq :
    {S : Type 0} (tx : ℕ) (w : FileWal S)
    → w.next_tx < tx
    → tx + 1 < 2 ^ 64
    → after_truncate tx w ≡ record w { next_tx = tx + 1; queue = drop_below (tx + 1) w.queue }
unfolding after_truncate
after_truncate-eq tx w h k = rw (lt→ltb w.next_tx tx h, mod-eq_of_lt k)

-- A truncation past the next expected transaction moves that one behind it, and leaves of the queue
-- what is not below it, and no less.
after_truncate_past :
    {S : Type 0} (tx : ℕ) (w : FileWal S)
    → w.next_tx < tx
    → tx + 1 < 2 ^ 64
    → IsSorted w.queue
    → ((after_truncate tx w).next_tx ≡ tx + 1)
      × All (λ r. tx + 1 ≤ r.tx) (after_truncate tx w).queue
      × ((r : LogRequest) → tx + 1 ≤ r.tx → Elem r w.queue → Elem r (after_truncate tx w).queue)
after_truncate_past tx w h k s =
    rw (after_truncate-eq tx w h k)
      (refl, drop_below-All (tx + 1) w.queue s, drop_below-Elem (tx + 1) w.queue)

-- Of several truncations that are asked for before the next tick the highest counts, in any order.
pub truncate_comm :
    {S : Type 0} (a b : ℕ) (w : FileWal S) → truncate a (truncate b w) ≡ truncate b (truncate a w)
unfolding truncate
truncate_comm a b w = ground arith

pub truncate_tx-truncate :
    {S : Type 0} (tx : ℕ) (w : FileWal S) → (truncate tx w).truncate_tx ≡ max tx w.truncate_tx
unfolding truncate
truncate_tx-truncate tx w = ground arith

-- A tick takes every truncation that was asked for, and asks for none.
pub drain-truncate_tx :
    {S : Type 0} (w : FileWal S)
    → ((drain w).1.truncate_tx ≡ w.truncate_tx) × ((drain w).0.truncate_tx ≡ 0)
unfolding drain
drain-truncate_tx w = (refl, refl)
