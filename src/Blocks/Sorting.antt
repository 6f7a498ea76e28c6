-- ===== src/Blocks/Sorting.antt =====
-- The order of completed blocks.
use frostdb.Base.{
  ◌<◌, Bool, true, false, List, [], ◌∷◌, ltb, if◌then◌else◌, Elem, All, ◌≡◌, ◌≢◌, refl, inl, inr,
  arith, ltb→lt, All-map_of,
}
use frostdb.Blocks.{CompletedBlock, insert_by_prev, sort_by_prev}

abbrev pub Apart : CompletedBlock → CompletedBlock → Type 0
Apart b c = b.prev_tx ≢ c.prev_tx

abbrev pub Below : CompletedBlock → CompletedBlock → Type 0
Below b c = b.prev_tx < c.prev_tx

abbrev pub AreApart : List CompletedBlock → Type 0
AreApart [] = Unit
AreApart (b ∷ bs) = All (Apart b) bs × AreApart bs

abbrev pub IsIncreasing : List CompletedBlock → Type 0
IsIncreasing [] = Unit
IsIncreasing (b ∷ bs) = All (Below b) bs × IsIncreasing bs

module _ (P : CompletedBlock → Type 0) where
  All-insert :
      (b : CompletedBlock) (cs : List CompletedBlock) → P b → All P cs → All P (insert_by_prev b cs)
  unfolding insert_by_prev
  All-insert b [] h hs = (h, tt)
  All-insert b (c ∷ cs) h hs = go (ltb b.prev_tx c.prev_tx) (All-insert b cs h hs.1)
    where
      go :
          (t : Bool)
          → All P (insert_by_prev b cs)
          → All P (if t then b ∷ c ∷ cs else c ∷ insert_by_prev b cs)
      go true rest = (h, hs)
      go false rest = (hs.0, rest)

  pub All-sort : (bs : List CompletedBlock) → All P bs → All P (sort_by_prev bs)
  unfolding sort_by_prev
  All-sort [] h = tt
  All-sort (b ∷ bs) h = All-insert b (sort_by_prev bs) h.0 (All-sort bs h.1)

trans-Below : (b c d : CompletedBlock) → Below b c → Below c d → Below b d
trans-Below b c d h k = omega (arith, h, k)

insert-IsIncreasing :
    (b : CompletedBlock) (cs : List CompletedBlock)
    → All (Apart b) cs
    → IsIncreasing cs
    → IsIncreasing (insert_by_prev b cs)
unfolding insert_by_prev
insert-IsIncreasing b [] a h = (tt, tt)
insert-IsIncreasing b (c ∷ cs) a h =
    go (ltb b.prev_tx c.prev_tx) refl (insert-IsIncreasing b cs a.1 h.1)
  where
    above : (b c : CompletedBlock) → Apart b c → ltb b.prev_tx c.prev_tx ≡ false → Below c b
    above b c a t = ground arith

    go :
        (t : Bool)
        → ltb b.prev_tx c.prev_tx ≡ t
        → IsIncreasing (insert_by_prev b cs)
        → IsIncreasing (if t then b ∷ c ∷ cs else c ∷ insert_by_prev b cs)
    go true e rest =
        let l = ltb→lt b.prev_tx c.prev_tx e in
        ((l, All-map_of cs (λ d. trans-Below b c d l) h.0), h)
    go false e rest = (All-insert (Below c) b cs (above b c a.0 e) h.0, rest)

pub sort-IsIncreasing : (bs : List CompletedBlock) → AreApart bs → IsIncreasing (sort_by_prev bs)
unfolding sort_by_prev
sort-IsIncreasing [] h = tt
sort-IsIncreasing (b ∷ bs) h =
    insert-IsIncreasing b (sort_by_prev bs) (All-sort (Apart b) bs h.0) (sort-IsIncreasing bs h.1)

insert-Elem :
    (x b : CompletedBlock) (cs : List CompletedBlock)
    → Elem x (b ∷ cs)
    → Elem x (insert_by_prev b cs)
unfolding insert_by_prev
insert-Elem x b [] h = h
insert-Elem x b (c ∷ cs) h = go (ltb b.prev_tx c.prev_tx) (λ k. insert-Elem x b cs k) h
  where
    go :
        (t : Bool)
        → (Elem x (b ∷ cs) → Elem x (insert_by_prev b cs))
        → Elem x (b ∷ c ∷ cs)
        → Elem x (if t then b ∷ c ∷ cs else c ∷ insert_by_prev b cs)
    go true f h = h
    go false f (inl e) = inr (f (inl e))
    go false f (inr (inl e)) = inl e
    go false f (inr (inr k)) = inr (f (inr k))

pub sort-Elem :
    (x : CompletedBlock) (bs : List CompletedBlock) → Elem x bs → Elem x (sort_by_prev bs)
unfolding sort_by_prev
sort-Elem x [] h = h
sort-Elem x (b ∷ bs) (inl e) = insert-Elem x b (sort_by_prev bs) (inl e)
sort-Elem x (b ∷ bs) (inr h) = insert-Elem x b (sort_by_prev bs) (inr (sort-Elem x bs h))
