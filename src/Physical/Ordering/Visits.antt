-- ===== src/Physical/Ordering/Visits.antt =====
-- What the state of the ordering remembers of the operators that were visited.
use frostdb.Base.{ℕ, zero, suc, Bool, true, false, not, ◌≡◌, refl, ◌⊎◌, inl, inr}
use frostdb.Physical.Ordering.{
  State, init, new_node_visited, maintained, invalidated, OrderingInfo, next_state, new_node,
  maintained_state, node_maintains_ordering, is_maintained, ordering_maintained,
}

-- Visits of operators that do not maintain the order.
abbrev pub visits : ℕ → OrderingInfo → OrderingInfo
visits zero i = i
visits (suc n) i = new_node (visits n i)

abbrev pub is_even : ℕ → Bool
is_even zero = true
is_even (suc n) = not (is_even n)

abbrev IsAfter : Bool → State → Type 0
IsAfter true s = (s ≡ maintained) ⊎ (s ≡ invalidated)
IsAfter false s = s ≡ new_node_visited

next-IsAfter : (b : Bool) (s : State) → IsAfter b s → IsAfter (not b) (next_state s)
unfolding next_state
next-IsAfter true s (inl e) = rw e refl
next-IsAfter true s (inr e) = rw e refl
next-IsAfter false s e = inr (rw e refl)

visits-IsAfter :
    (n : ℕ) (i : OrderingInfo) → i.state ≡ maintained → IsAfter (is_even n) (visits n i).state
unfolding new_node
visits-IsAfter zero i e = inl e
visits-IsAfter (suc n) i e = next-IsAfter (is_even n) (visits n i).state (visits-IsAfter n i e)

told : (b : Bool) (s : State) → IsAfter b s → is_maintained (next_state s) ≡ b
unfolding next_state
told true s (inl e) = rw e refl
told true s (inr e) = rw e refl
told false s e = rw e refl

-- Behind an operator that maintains the order, visited in the first place or behind one that does, and
-- any number of operators that do not, the next operator is told that the order is maintained exactly
-- if that number is even.
pub ordering_maintained-visits :
    (n : ℕ) (i : OrderingInfo)
    → (i.state ≡ init) ⊎ (i.state ≡ maintained)
    → ordering_maintained (new_node (visits n (node_maintains_ordering (new_node i)))) ≡ is_even n
unfolding new_node node_maintains_ordering next_state maintained_state
ordering_maintained-visits n i h = told (is_even n) (visits n j).state (visits-IsAfter n j (now h))
  where
    j : OrderingInfo
    j = node_maintains_ordering (new_node i)

    now :
        (i.state ≡ init) ⊎ (i.state ≡ maintained)
        → maintained_state (next_state i.state) ≡ maintained
    now (inl e) = rw e refl
    now (inr e) = rw e refl
