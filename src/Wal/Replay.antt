-- ===== src/Wal/Replay.antt =====
-- `Replay` of wal/wal.go: the records from a transaction on, and the repair of a log that cannot be
-- read further.
use Prim.Native.Nat.{max}
use mathlib.Core.Path.{subst}
use frostdb.Base.{
  inl, inr, ◌⊎◌, ℕ, zero, suc, ◌+◌, ◌-◌, ◌≤◌, ◌<◌, ◌≡◌, refl, arith, Bool, true, false, ◌||◌,
  Option, none, some, ltb, ◌==◌, if◌then◌else◌,
}

-- What a replay handler returns, or that it panics.
pub data Handled (H E : Type 0) : Type 0 where
  go_on : H → Handled H E
  fails : E → Handled H E
  panics : Handled H E

-- How a replay ends: every record was handled; the handler's error is returned; or a panic was
-- recovered, by `TruncateBack keep` and with so many records counted as lost, or with the error of
-- `TruncateBack`, which is returned.
pub data Outcome (E : Type 0) : Type 0 where
  replayed : Outcome E
  handler_error : E → Outcome E
  repaired : (keep lost : ℕ) → Outcome E
  not_repaired : (keep : ℕ) → E → Outcome E

-- The transaction at which the loop starts.
unfoldable pub first_tx : ℕ → ℕ → ℕ
first_tx log_first_index tx = if tx == 0 || ltb tx log_first_index then log_first_index else tx

-- What a repair that keeps the log up to `keep` ends in.
abbrev pub repair : {E : Type 0} → ℕ → ℕ → Option E → Outcome E
repair keep lost none = repaired keep lost
repair keep lost (some e) = not_repaired keep e

-- `R` is a record, `H` what the handler changes. `read tx` is `GetLog` followed by `UnmarshalVT`:
-- `none` if either fails, which panics. `truncate_back` is the error of `TruncateBack` at an index, if
-- there is one.
module _ {R H E : Type 0} (truncate_back : ℕ → Option E) (read : ℕ → Option R)
    (handler : ℕ → R → H → Handled H E) where
  -- The deferred function, at the transaction where the panic came.
  abbrev pub recover_at : ℕ → ℕ → Outcome E
  recover_at last_index tx = repair (tx - 1) (last_index - tx + 1) (truncate_back (tx - 1))

  -- `for ; tx <= lastIndex; tx++`, with the number of rounds.
  unfoldable pub replay_loop : ℕ → ℕ → ℕ → H → H × Outcome E
  replay_loop zero tx last_index h = (h, replayed)
  replay_loop (suc rounds) tx last_index h = elim (read tx) [
    | none ↦ (h, recover_at last_index tx)
    | some record' ↦ elim (handler tx record' h) [
      | go_on h' ↦ replay_loop rounds (tx + 1) last_index h'
      | fails e ↦ (h, handler_error e)
      | panics ↦ (h, recover_at last_index tx)
    ]
  ]

  -- `Replay` with a handler, at the first and last index of the log.
  unfoldable pub replay : ℕ → ℕ → ℕ → H → H × Outcome E
  unfolding replay_loop first_tx
  replay log_first_index last_index tx h =
      let start = first_tx log_first_index tx in
      if start == 0 || last_index == 0
      then (h, replayed)
      else replay_loop (last_index + 1 - start) start last_index h

module _ {R H E : Type 0} (read : ℕ → Option R) (handler : ℕ → R → H → Handled H E) where
  -- From `start` and `h` on, the handler has taken every record before a transaction, in order.
  pub data Prefix (start : ℕ) (h : H) : ℕ → H → Type 0 where
    none_yet : Prefix start h start h
    one_more :
        {t : ℕ} {r : R} {g g' : H}
        → Prefix start h t g
        → read t ≡ some r
        → handler t r g ≡ go_on g'
        → Prefix start h (t + 1) g'

  pub Prefix-le : {start : ℕ} {h : H} {t : ℕ} {g : H} → Prefix start h t g → start ≤ t
  Prefix-le none_yet = omega arith
  Prefix-le (one_more p k l) = omega (arith, Prefix-le p)

  -- All records before `t` were handled, and this one could not be read, or the handler panicked at it.
  abbrev pub Panics : ℕ → ℕ → H → ℕ → H → Type 0
  Panics start last_index h t g =
      Prefix start h t g
      × (t ≤ last_index)
      × ((read t ≡ none) ⊎ ((r : R) × (read t ≡ some r) × (handler t r g ≡ panics)))

module _ {R H E : Type 0} (truncate_back : ℕ → Option E) (read : ℕ → Option R)
    (handler : ℕ → R → H → Handled H E) where
  -- What each outcome says of the records.
  abbrev pub Ends : ℕ → ℕ → H → H × Outcome E → Type 0
  Ends start last_index h (g, replayed) = Prefix read handler start h (last_index + 1) g
  Ends start last_index h (g, handler_error e) =
      (t : ℕ) × (r : R) × Prefix read handler start h t g
      × (t ≤ last_index)
      × (read t ≡ some r)
      × (handler t r g ≡ fails e)
  Ends start last_index h (g, repaired keep lost) =
      (t : ℕ) × Panics read handler start last_index h t g
      × (keep ≡ t - 1)
      × (lost ≡ last_index - t + 1)
      × (truncate_back keep ≡ none)
  Ends start last_index h (g, not_repaired keep e) =
      (t : ℕ) × Panics read handler start last_index h t g
      × (keep ≡ t - 1)
      × (truncate_back keep ≡ some e)

  replay_loop-Ends :
      (start rounds tx last_index : ℕ) (h g : H)
      → tx + rounds ≡ last_index + 1
      → Prefix read handler start h tx g
      → Ends start last_index h (replay_loop truncate_back read handler rounds tx last_index g)
  unfolding replay_loop
  replay_loop-Ends start zero tx last_index h g e p =
      subst (λ t. Prefix read handler start h t g) (omega arith) p
  replay_loop-Ends start (suc rounds) tx last_index h g e p =
      at_record (read tx) refl
        (λ g' q. replay_loop-Ends start rounds (tx + 1) last_index h g' (omega arith) q)
    where
      Goal : Type 0
      Goal =
          Ends start last_index h
            (replay_loop truncate_back read handler (suc rounds) tx last_index g)

      Later : Type 0
      Later =
          (g' : H)
          → Prefix read handler start h (tx + 1) g'
          → Ends start last_index h
              (replay_loop truncate_back read handler rounds (tx + 1) last_index g')

      at_panic :
          Panics read handler start last_index h tx g
          → Ends start last_index h (g, recover_at truncate_back read handler last_index tx)
      at_panic q = go (truncate_back (tx - 1)) refl
        where
          go :
              (o : Option E)
              → truncate_back (tx - 1) ≡ o
              → Ends start last_index h (g, repair (tx - 1) (last_index - tx + 1) o)
          go none k = (tx, q, refl, refl, k)
          go (some x) k = (tx, q, refl, k)

      at_handled : (r : R) (o : Handled H E) → read tx ≡ some r → handler tx r g ≡ o → Later → Goal
      at_handled r (go_on g') k l later = rw (k, replay_loop, l) (later g' (one_more p k l))
      at_handled r (fails x) k l later = rw (k, replay_loop, l) (tx, r, p, omega arith, k, l)
      at_handled r panics k l later =
          rw (k, replay_loop, l) (at_panic (p, omega arith, inr (r, k, l)))

      at_record : (o : Option R) → read tx ≡ o → Later → Goal
      at_record none k later = rw (k, replay_loop) (at_panic (p, omega arith, inl k))
      at_record (some r) k later = at_handled r (handler tx r g) k refl later

  -- A replay that has a record to start at ends in one of four ways. Either the handler has taken
  -- every record up to the last; or its error at a record is returned, after it took all before; or
  -- a record could not be read, or the handler panicked at it: then it took all before, and either the
  -- log is cut just before it, and the records from it on are counted as lost, or the error of cutting
  -- the log there is returned.
  pub replay-Ends :
      (log_first_index last_index tx : ℕ) (h : H)
      → 0 < first_tx log_first_index tx
      → first_tx log_first_index tx ≤ last_index
      → Ends
          (first_tx log_first_index tx)
          last_index
          h
          (replay truncate_back read handler log_first_index last_index tx h)
  unfolding replay
  replay-Ends log_first_index last_index tx h p q =
      rw (not_zero start last_index p q) (
        replay_loop-Ends start (last_index + 1 - start) start last_index h h (omega arith) none_yet)
    where
      start : ℕ
      start = first_tx log_first_index tx

      not_zero : (a b : ℕ) → 0 < a → a ≤ b → (a == 0 || b == 0) ≡ false
      not_zero a b k l = ground arith

module _ {R H E : Type 0} (truncate_back : ℕ → Option E) (read : ℕ → Option R)
    (handler : ℕ → R → H → Handled H E) where
  -- A log that ends before the start has nothing to replay.
  pub replay-nothing :
      (log_first_index last_index tx : ℕ) (h : H)
      → last_index < first_tx log_first_index tx
      → replay truncate_back read handler log_first_index last_index tx h ≡ (h, replayed)
  unfolding replay replay_loop
  replay-nothing log_first_index last_index tx h k =
      go (first_tx log_first_index tx == 0 || last_index == 0)
        (last_index + 1 - first_tx log_first_index tx) (omega (arith, k))
    where
      start : ℕ
      start = first_tx log_first_index tx

      go :
          (b : Bool) (n : ℕ)
          → n ≡ 0
          → (if b
              then (h, replayed)
              else replay_loop truncate_back read handler n start last_index h)
            ≡ (h, replayed)
      go true n e = refl
      go false zero e = refl
      go false (suc n) e = absurd (omega (arith, e))

-- The start is the transaction that is asked for, or the first of the log if that is later.
pub first_tx-max : (log_first_index tx : ℕ) → first_tx log_first_index tx ≡ max log_first_index tx
unfolding first_tx
first_tx-max log_first_index tx = ground arith
