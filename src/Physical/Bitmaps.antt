-- ===== src/Physical/Bitmaps.antt =====
-- What query/physicalplan uses of github.com/RoaringBitmap/roaring.
use frostdb.Base.{ℕ, Bool, true, false, ◌&&◌, ◌||◌, List, Elem, ltb, ◌==◌, ◌≡◌, ◌↔◌}
use frostdb.Base.Order.{IsIncreasing}

-- Sets of numbers below 2^32, which the code calls bitmaps.
pub record Bitmaps (B : Type 0) : Type 0 where
  pub new_bitmap : B
  pub add : ℕ → B → B
  -- `AddRange(0, n)`
  pub add_range : ℕ → B → B
  pub and_with : B → B → B
  pub or_with : B → B → B
  pub to_array : B → List ℕ
  pub contains : B → ℕ → Bool
  pub contains-new : (i : ℕ) → contains new_bitmap i ≡ false
  pub contains-add : (n i : ℕ) (b : B) → contains (add n b) i ≡ (n == i || contains b i)
  pub contains-range : (n i : ℕ) (b : B) → contains (add_range n b) i ≡ (ltb i n || contains b i)
  pub contains-and : (a b : B) (i : ℕ) → contains (and_with a b) i ≡ (contains a i && contains b i)
  pub contains-or : (a b : B) (i : ℕ) → contains (or_with a b) i ≡ (contains a i || contains b i)
  pub array-IsIncreasing : (b : B) → IsIncreasing (to_array b)
  pub array-Elem : (b : B) (i : ℕ) → Elem i (to_array b) ↔ (contains b i ≡ true)
