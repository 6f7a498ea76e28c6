-- ===== src/Filter/Bounds.antt =====
-- `Min` and `Max` of query/expr/binaryscalarexpr.go where the pages without a value come first.
use mathlib.Core.Path.{subst⁻¹}
use frostdb.Base.{
  ap, ◌∙◌, ◌≡◌, refl, Bool, true, false, ◌&&◌, Option, none, some, List, [], ◌∷◌, All,
  if◌then◌else◌, Bool-cases, inl, inr, arith,
}
use frostdb.Filter.{Values, Page, is_null, min_from, min_of, max_from, max_of}

abbrev pub no_nulls : {V : Type 0} → List (Page V) → Bool
no_nulls [] = true
no_nulls (p ∷ ps) =
    if is_null p.min_value then false else if is_null p.max_value then false else no_nulls ps

-- No page without a value follows one with values.
abbrev pub nulls_first : {V : Type 0} → List (Page V) → Bool
nulls_first [] = true
nulls_first (p ∷ ps) =
    if is_null p.min_value && is_null p.max_value then nulls_first ps else no_nulls (p ∷ ps)

module _ {V : Type 0} (o : Values V) where
  abbrev pub AboveMin : V → Page V → Type 0
  AboveMin m p = (a : V) → p.min_value ≡ some a → o.leq m a ≡ true

  abbrev pub BelowMax : V → Page V → Type 0
  BelowMax m p = (a : V) → p.max_value ≡ some a → o.leq a m ≡ true

  -- The bound that the loop of `Min` returns.
  abbrev pub LeastBound : V → List (Page V) → Type 0
  LeastBound m ps =
      (r : V) × (min_from o (some m) ps ≡ some r) × (o.leq r m ≡ true) × All (AboveMin r) ps

  abbrev pub GreatestBound : V → List (Page V) → Type 0
  GreatestBound m ps =
      (r : V) × (max_from o (some m) ps ≡ some r) × (o.leq m r ≡ true) × All (BelowMax r) ps

  leq_refl : (a : V) → o.leq a a ≡ true
  leq_refl a = ground (arith, o.leq_total a a)

  -- The page with minimum `a` behind the running minimum `m`.
  min_step :
      (m a : V) (p : Page V) (ps : List (Page V))
      → p.min_value ≡ some a
      → ((n : V) → LeastBound n ps)
      → LeastBound m (p ∷ ps)
  unfolding min_from
  min_step m a p ps e rest = elim (Bool-cases (o.leq m a)) [
    | inl k ↦
        let r = rest m in
        (r.0, ground (arith, r.1), r.2, (λ b q. ground (arith, o.leq_trans r.0 m a, r.2), r.3))
    | inr k ↦
        let r = rest a in
        (
          r.0,
          ground (arith, r.1),
          o.leq_trans r.0 a m r.2 (o.leq_total m a k),
          (λ b q. ground (arith, r.2), r.3),
        )
  ]

  max_step :
      (m a : V) (p : Page V) (ps : List (Page V))
      → p.max_value ≡ some a
      → ((n : V) → GreatestBound n ps)
      → GreatestBound m (p ∷ ps)
  unfolding max_from
  max_step m a p ps e rest = elim (Bool-cases (o.leq a m)) [
    | inl k ↦
        let r = rest m in
        (r.0, ground (arith, r.1), r.2, (λ b q. ground (arith, o.leq_trans a m r.0, r.2), r.3))
    | inr k ↦
        let r = rest a in
        (
          r.0,
          ground (arith, r.1),
          o.leq_trans m a r.0 (o.leq_total a m k) r.2,
          (λ b q. ground (arith, r.2), r.3),
        )
  ]

  -- A page that `no_nulls` lets through.
  abbrev Both : Page V → Type 0
  Both p = (a : V) × (b : V) × (p.min_value ≡ some a) × (p.max_value ≡ some b)

  both :
      (p : Page V) (ps : List (Page V)) → no_nulls (p ∷ ps) ≡ true → Both p × (no_nulls ps ≡ true)
  both p ps h = go p.min_value p.max_value refl refl
    where
      go : (x y : Option V) → p.min_value ≡ x → p.max_value ≡ y → Both p × (no_nulls ps ≡ true)
      go none y e f = absurd (ground arith)
      go (some a) none e f = absurd (ground arith)
      go (some a) (some b) e f = ((a, b, e, f), ground arith)

  pub min_from-LeastBound : (m : V) (ps : List (Page V)) → no_nulls ps ≡ true → LeastBound m ps
  unfolding min_from
  min_from-LeastBound m [] h = (m, refl, leq_refl m, tt)
  min_from-LeastBound m (p ∷ ps) h =
      let b = both p ps h in min_step m b.0.0 p ps b.0.2 (λ n. min_from-LeastBound n ps b.1)

  pub max_from-GreatestBound :
      (m : V) (ps : List (Page V)) → no_nulls ps ≡ true → GreatestBound m ps
  unfolding max_from
  max_from-GreatestBound m [] h = (m, refl, leq_refl m, tt)
  max_from-GreatestBound m (p ∷ ps) h =
      let b = both p ps h in max_step m b.0.1 p ps b.0.3 (λ n. max_from-GreatestBound n ps b.1)

  -- What `Min` and `Max` return: a value within the bounds of no page when all are null, and
  -- otherwise a bound of all pages.
  abbrev pub MinBound : List (Page V) → Option V → Type 0
  MinBound ps none = All (λ p. p.min_value ≡ none) ps
  MinBound ps (some r) = All (AboveMin r) ps

  abbrev pub MaxBound : List (Page V) → Option V → Type 0
  MaxBound ps none = All (λ p. p.max_value ≡ none) ps
  MaxBound ps (some r) = All (BelowMax r) ps

  cons_min :
      (p : Page V) (ps : List (Page V)) (r : Option V)
      → p.min_value ≡ none
      → MinBound ps r
      → MinBound (p ∷ ps) r
  cons_min p ps none e h = (e, h)
  cons_min p ps (some r) e h = (λ a q. absurd (cc), h)

  cons_max :
      (p : Page V) (ps : List (Page V)) (r : Option V)
      → p.max_value ≡ none
      → MaxBound ps r
      → MaxBound (p ∷ ps) r
  cons_max p ps none e h = (e, h)
  cons_max p ps (some r) e h = (λ a q. absurd (cc), h)

  from_none :
      (ps : List (Page V)) → (min_from o none ps ≡ min_of o ps) × (max_from o none ps ≡ max_of o ps)
  unfolding min_from max_from min_of max_of
  from_none [] = (refl, refl)
  from_none (p ∷ ps) = (refl, refl)

  -- `Min` and `Max` bound every page where no page without a value follows one with values.
  pub min_of-MinBound :
      (ps : List (Page V))
      → nulls_first ps ≡ true
      → MinBound ps (min_of o ps) × MaxBound ps (max_of o ps)
  unfolding min_of max_of
  min_of-MinBound [] h = (tt, tt)
  min_of-MinBound (p ∷ ps) h = go p.min_value p.max_value refl refl (λ k. min_of-MinBound ps k)
    where
      go :
          (x y : Option V)
          → p.min_value ≡ x
          → p.max_value ≡ y
          → (nulls_first ps ≡ true → MinBound ps (min_of o ps) × MaxBound ps (max_of o ps))
          → MinBound (p ∷ ps) (min_from o p.min_value ps)
            × MaxBound (p ∷ ps) (max_from o p.max_value ps)
      go none none e f rest =
          let r = rest (ground arith) in
          (
            subst⁻¹ (MinBound (p ∷ ps)) (ap (λ x. min_from o x ps) e ∙ (from_none ps).0)
                (cons_min p ps (min_of o ps) e r.0),
            subst⁻¹ (MaxBound (p ∷ ps)) (ap (λ x. max_from o x ps) f ∙ (from_none ps).1)
                (cons_max p ps (max_of o ps) f r.1),
          )
      go none (some b) e f rest = absurd (ground arith)
      go (some a) none e f rest = absurd (ground arith)
      go (some a) (some b) e f rest =
          let n = min_from-LeastBound a ps (ground arith) in
          let x = max_from-GreatestBound b ps (ground arith) in
          (
            subst⁻¹ (MinBound (p ∷ ps)) (ap (λ x. min_from o x ps) e ∙ n.1)
                ((λ c q. ground (arith, n.2)), n.3),
            subst⁻¹ (MaxBound (p ∷ ps)) (ap (λ x. max_from o x ps) f ∙ x.1)
                ((λ c q. ground (arith, x.2)), x.3),
          )
