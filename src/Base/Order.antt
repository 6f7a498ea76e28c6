-- ===== src/Base/Order.antt =====
-- Lists of numbers in order.
use frostdb.Base.{ℕ, ◌≤◌, ◌<◌, List, [], ◌∷◌, All, All-map_of, arith}

-- Each element is below all that follow it.
abbrev pub IsIncreasing : List ℕ → Type 0
IsIncreasing [] = Unit
IsIncreasing (x ∷ xs) = All (λ y. x < y) xs × IsIncreasing xs

pub All-lt_trans : (a b : ℕ) (xs : List ℕ) → a ≤ b → All (λ y. b < y) xs → All (λ y. a < y) xs
All-lt_trans a b xs h k = All-map_of xs (λ c p. omega arith) k
