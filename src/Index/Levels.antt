-- ===== src/Index/Levels.antt =====
-- The levels of an index: which parts stand in which, and how `merge` moves them.
use mathlib.Core.Path.{subst, subst⁻¹}
use frostdb.Base.{
  ℕ, ◌+◌, ◌≤◌, ◌<◌, ◌≡◌, refl, arith, true, false, Option, none, some, List, [], ◌∷◌, ◌++◌, ◌==◌,
  if◌then◌else◌,
}
use frostdb.Index.{Part, Node, sentinel, part, find_level, run_of, part_nodes}

eqb_suc : (n : ℕ) → ((n + 1) == n) ≡ false
eqb_suc n = ground arith

eqb_refl : (n : ℕ) → (n == n) ≡ true
eqb_refl n = ground arith

module _ {R G : Type 0} where
  -- Behind the sentinel of level `k` the sentinels count on.
  abbrev pub IsChain : ℕ → List (Node R G) → Type 0
  IsChain k [] = Unit
  IsChain k (part p ∷ nodes) = IsChain k nodes
  IsChain k (sentinel s ∷ nodes) = (s ≡ k + 1) × IsChain (k + 1) nodes

  -- The list of an index starts with L0.
  abbrev pub IsLeveled : List (Node R G) → Type 0
  IsLeveled [] = ⊥
  IsLeveled (part p ∷ nodes) = ⊥
  IsLeveled (sentinel s ∷ nodes) = (s ≡ 0) × IsChain 0 nodes

  -- The parts of level `i`, in a list that goes on in level `k`.
  unfoldable pub parts_at : ℕ → ℕ → List (Node R G) → List (Part R G)
  parts_at i k [] = []
  parts_at i k (part p ∷ nodes) = if i == k then p ∷ parts_at i k nodes else parts_at i k nodes
  parts_at i k (sentinel s ∷ nodes) = parts_at i s nodes

  -- The level in which a list ends.
  unfoldable pub last_level : ℕ → List (Node R G) → ℕ
  last_level k [] = k
  last_level k (part p ∷ nodes) = last_level k nodes
  last_level k (sentinel s ∷ nodes) = last_level s nodes

  pub parts_at-append :
      (i k : ℕ) (xs ys : List (Node R G))
      → parts_at i k (xs ++ ys) ≡ parts_at i k xs ++ parts_at i (last_level k xs) ys
  unfolding parts_at last_level
  parts_at-append i k [] ys = refl
  parts_at-append i k (part p ∷ xs) ys = ground (arith, parts_at-append i k xs ys)
  parts_at-append i k (sentinel s ∷ xs) ys = parts_at-append i s xs ys

  pub IsChain-append :
      (k : ℕ) (xs ys : List (Node R G))
      → IsChain k xs
      → IsChain (last_level k xs) ys
      → IsChain k (xs ++ ys)
  unfolding last_level
  IsChain-append k [] ys h q = q
  IsChain-append k (part p ∷ xs) ys h q = IsChain-append k xs ys h q
  IsChain-append k (sentinel s ∷ xs) ys h q =
      (h.0, IsChain-append (k + 1) xs ys h.1 (subst (λ n. IsChain (last_level n xs) ys) h.0 q))

  pub parts_at_lower :
      (i k : ℕ) (nodes : List (Node R G)) → i < k → IsChain k nodes → parts_at i k nodes ≡ []
  unfolding parts_at
  parts_at_lower i k [] h c = refl
  parts_at_lower i k (part p ∷ nodes) h c = ground (arith, parts_at_lower i k nodes h c)
  parts_at_lower i k (sentinel s ∷ nodes) h c =
      rw (c.0) (parts_at_lower i (k + 1) nodes (omega arith) c.1)

  -- What `find_level` finds in a chain.
  abbrev Found : ℕ → ℕ → Option (List (Node R G) × List (Node R G)) → Type 0
  Found k level none = Unit
  Found k level (some (before, after)) =
      IsChain k before
      × (last_level k before ≡ level)
      × IsChain level after
      × (parts_at level k before ≡ [])

  find_level-Found :
      (k level : ℕ) (nodes : List (Node R G))
      → k < level
      → IsChain k nodes
      → Found k level (find_level level nodes)
  unfolding find_level last_level parts_at
  find_level-Found k level [] h c = tt
  find_level-Found k level (part p ∷ nodes) h c = ground (arith, find_level-Found k level nodes h c)
  find_level-Found k level (sentinel s ∷ nodes) h c =
      subst⁻¹ (λ t. Found k level (find_level level (sentinel t ∷ nodes))) c.0
        (ground (arith, find_level-Found (k + 1) level nodes))

  -- The same from L0 on.
  abbrev pub FoundIn : ℕ → Option (List (Node R G) × List (Node R G)) → Type 0
  FoundIn level none = Unit
  FoundIn level (some (before, after)) =
      (last_level 0 before ≡ level)
      × IsChain level after
      × (parts_at level 0 before ≡ [])
      × IsLeveled before

  pub find_level-FoundIn :
      (level : ℕ) (nodes : List (Node R G))
      → IsLeveled nodes
      → FoundIn level (find_level level nodes)
  unfolding find_level last_level parts_at
  find_level-FoundIn level [] h = tt
  find_level-FoundIn level (part p ∷ nodes) h = absurd h
  find_level-FoundIn level (sentinel s ∷ nodes) h =
      subst⁻¹ (λ t. FoundIn level (find_level level (sentinel t ∷ nodes))) h.0
        (ground (arith, find_level-Found 0 level nodes))

  -- The walk of `merge` in a chain: the parts of the level, and the levels behind it.
  abbrev pub RunOf : ℕ → ℕ → List (Node R G) → Type 0
  RunOf i level nodes =
      (parts_at i level nodes
        ≡ parts_at i level (part_nodes (run_of level nodes).0)
          ++ parts_at i (level + 1) (run_of level nodes).1)
      × IsChain (level + 1) (run_of level nodes).1

  run_of-sentinel :
      (level : ℕ) (nodes : List (Node R G))
      → run_of level (sentinel (level + 1) ∷ nodes) ≡ ([], nodes)
  unfolding run_of
  run_of-sentinel level nodes = rw (eqb_suc level, eqb_refl (level + 1))

  RunOf-at_sentinel :
      (i level : ℕ) (nodes : List (Node R G))
      → IsChain (level + 1) nodes
      → RunOf i level (sentinel (level + 1) ∷ nodes)
  unfolding parts_at
  RunOf-at_sentinel i level nodes c = rw (run_of-sentinel level nodes) (refl, c)

  pub RunOf-parts_at :
      (i level : ℕ) (nodes : List (Node R G)) → IsChain level nodes → RunOf i level nodes
  unfolding run_of parts_at
  RunOf-parts_at i level [] c = ground arith
  RunOf-parts_at i level (part p ∷ nodes) c = ground (arith, RunOf-parts_at i level nodes c)
  RunOf-parts_at i level (sentinel s ∷ nodes) c =
      subst⁻¹ (λ t. RunOf i level (sentinel t ∷ nodes)) c.0 (RunOf-at_sentinel i level nodes c.1)

  pub parts_at-part_nodes :
      (i k : ℕ) (ps : List (Part R G)) → parts_at i k (part_nodes ps) ≡ (if i == k then ps else [])
  unfolding parts_at
  parts_at-part_nodes i k [] = ground arith
  parts_at-part_nodes i k (p ∷ ps) = ground (arith, parts_at-part_nodes i k ps)

  pub last_level-part_nodes : (k : ℕ) (ps : List (Part R G)) → last_level k (part_nodes ps) ≡ k
  unfolding last_level
  last_level-part_nodes k [] = refl
  last_level-part_nodes k (p ∷ ps) = last_level-part_nodes k ps

  pub IsChain-part_nodes : (k : ℕ) (ps : List (Part R G)) → IsChain k (part_nodes ps)
  IsChain-part_nodes k [] = tt
  IsChain-part_nodes k (p ∷ ps) = IsChain-part_nodes k ps

  level-le-last_level : (k : ℕ) (nodes : List (Node R G)) → IsChain k nodes → k ≤ last_level k nodes
  unfolding last_level
  level-le-last_level k [] c = omega arith
  level-le-last_level k (part p ∷ nodes) c = level-le-last_level k nodes c
  level-le-last_level k (sentinel s ∷ nodes) c =
      subst⁻¹ (λ t. k ≤ last_level t nodes) c.0
        (omega (arith, level-le-last_level (k + 1) nodes c.1))

  parts_at_chain_higher :
      (i k : ℕ) (nodes : List (Node R G))
      → IsChain k nodes
      → last_level k nodes < i
      → parts_at i k nodes ≡ []
  unfolding parts_at last_level
  parts_at_chain_higher i k [] c h = refl
  parts_at_chain_higher i k (part p ∷ nodes) c h =
      ground (arith, parts_at_chain_higher i k nodes c h, level-le-last_level k nodes c)
  parts_at_chain_higher i k (sentinel s ∷ nodes) c h =
      subst⁻¹ (λ t. parts_at i t nodes ≡ []) c.0
        (parts_at_chain_higher i (k + 1) nodes c.1 (subst (λ t. last_level t nodes < i) c.0 h))

  pub parts_at_higher :
      (i : ℕ) (nodes : List (Node R G))
      → IsLeveled nodes
      → last_level 0 nodes < i
      → parts_at i 0 nodes ≡ []
  unfolding parts_at last_level
  parts_at_higher i [] h k = refl
  parts_at_higher i (part p ∷ nodes) h k = absurd h
  parts_at_higher i (sentinel s ∷ nodes) h k =
      subst⁻¹ (λ t. parts_at i t nodes ≡ []) h.0
        (parts_at_chain_higher i 0 nodes h.1 (subst (λ t. last_level t nodes < i) h.0 k))

  pub IsLeveled-append :
      (xs ys : List (Node R G)) → IsLeveled xs → IsChain (last_level 0 xs) ys → IsLeveled (xs ++ ys)
  unfolding last_level
  IsLeveled-append [] ys h c = absurd h
  IsLeveled-append (part p ∷ xs) ys h c = absurd h
  IsLeveled-append (sentinel s ∷ xs) ys h c =
      (h.0, IsChain-append 0 xs ys h.1 (subst (λ t. IsChain (last_level t xs) ys) h.0 c))
