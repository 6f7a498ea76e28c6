-- ===== src/Plan/Covered.antt =====
-- ProjectionPushDown: the test that projections keep the columns of filters and of aggregations.
use frostdb.Base.{
  ℕ, Bool, true, false, ◌||◌, Option, none, some, List, [], ◌∷◌, Elem, ◌≡◌, refl, sym, ap, ◌∙◌, ◌⊎◌,
  inl, inr, All, arith, Bool-cases, if◌then◌else◌,
}
use frostdb.Filter.{name_eq, name_eq-eq}
use frostdb.Plan.{Expr}
use frostdb.Plan.Exprs.{Names, and_then, name}
use frostdb.Plan.Optimize.{project_map, in_map, covers}

some-injective : {A : Type 0} {a b : A} → some a ≡ some b → a ≡ b
some-injective h = cc

or_right : (b : Bool) → (b || true) ≡ true
or_right true = refl
or_right false = refl

name_eq_refl : (n : List ℕ) → name_eq n n ≡ true
name_eq_refl [] = refl
name_eq_refl (c ∷ n) = ground (arith, name_eq_refl n)

module _ {S M : Type 0} (names : Names S M) where
  -- Each of the columns has the name of a column of the projections.
  abbrev pub IsCovered : List (Expr S M) → List (Expr S M) → Type 0
  IsCovered ps [] = Unit
  IsCovered ps (e ∷ es) =
      ((n : List ℕ) × (p : Expr S M) × (name names e ≡ some n)
        × Elem p ps
        × (name names p ≡ some n))
      × IsCovered ps es

  project_map-cons :
      (p : Expr S M) (ps : List (Expr S M)) (ns : List (List ℕ))
      → project_map names (p ∷ ps) ≡ some ns
      → (m : List ℕ) × (ms : List (List ℕ)) × (name names p ≡ some m)
        × (project_map names ps ≡ some ms)
        × (ns ≡ m ∷ ms)
  unfolding project_map
  project_map-cons p ps ns h = go (name names p) (project_map names ps) refl refl h
    where
      go :
          (o : Option (List ℕ)) (r : Option (List (List ℕ)))
          → name names p ≡ o
          → project_map names ps ≡ r
          → and_then o (λ m. and_then r (λ ms. some (m ∷ ms))) ≡ some ns
          → (m : List ℕ) × (ms : List (List ℕ)) × (name names p ≡ some m)
            × (project_map names ps ≡ some ms)
            × (ns ≡ m ∷ ms)
      go none r e f g = absurd (cc)
      go (some m) none e f g = absurd (cc)
      go (some m) (some ms) e f g = (m, ms, e, f, cc)

  or_true : (a b : Bool) → (a || b) ≡ true → (a ≡ true) ⊎ (b ≡ true)
  or_true true b h = inl refl
  or_true false b h = inr h

  in_map-Elem :
      (n : List ℕ) (ps : List (Expr S M)) (ns : List (List ℕ))
      → project_map names ps ≡ some ns
      → in_map names ns n ≡ true
      → (p : Expr S M) × Elem p ps × (name names p ≡ some n)
  unfolding project_map
  in_map-Elem n [] [] h k = absurd (cc)
  in_map-Elem n [] (m ∷ ns) h k = absurd (cc)
  in_map-Elem n (p ∷ ps) ns h k =
      let (m, ms, e, f, g) = project_map-cons p ps ns h in
      elim (or_true (name_eq m n) (in_map names ms n) (sym (ap (λ l. in_map names l n) g) ∙ k)) [
        | inl q ↦ (p, inl refl, e ∙ ap some (name_eq-eq m n q))
        | inr q ↦ let (r, i, u) = in_map-Elem n ps ms f q in (r, inr i, u)
      ]

  covers-cons :
      (ns : List (List ℕ)) (e : Expr S M) (es : List (Expr S M))
      → covers names ns (e ∷ es) ≡ some true
      → (n : List ℕ) × (name names e ≡ some n)
        × (in_map names ns n ≡ true)
        × (covers names ns es ≡ some true)
  unfolding covers
  covers-cons ns e es h = go (name names e) refl h
    where
      inner :
          (n : List ℕ) (b : Bool)
          → name names e ≡ some n
          → in_map names ns n ≡ b
          → (if b then covers names ns es else some false) ≡ some true
          → (n : List ℕ) × (name names e ≡ some n)
            × (in_map names ns n ≡ true)
            × (covers names ns es ≡ some true)
      inner n true u v g = (n, u, v, g)
      inner n false u v g = absurd (cc)

      go :
          (o : Option (List ℕ))
          → name names e ≡ o
          → and_then o (λ n. if in_map names ns n then covers names ns es else some false)
            ≡ some true
          → (n : List ℕ) × (name names e ≡ some n)
            × (in_map names ns n ≡ true)
            × (covers names ns es ≡ some true)
      go none u g = absurd (cc)
      go (some n) u g = inner n (in_map names ns n) u refl g

  pub covers-IsCovered :
      (ps : List (Expr S M)) (ns : List (List ℕ)) (es : List (Expr S M))
      → project_map names ps ≡ some ns
      → covers names ns es ≡ some true
      → IsCovered ps es
  covers-IsCovered ps ns [] h k = tt
  covers-IsCovered ps ns (e ∷ es) h k =
      let (n, u, v, w) = covers-cons ns e es k in
      let (p, i, q) = in_map-Elem n ps ns h v in ((n, p, u, i, q), covers-IsCovered ps ns es h w)

  Elem-in_map :
      (n : List ℕ) (p : Expr S M) (ps : List (Expr S M)) (ns : List (List ℕ))
      → project_map names ps ≡ some ns
      → Elem p ps
      → name names p ≡ some n
      → in_map names ns n ≡ true
  Elem-in_map n p [] ns h e q = elim e [ ]
  Elem-in_map n p (r ∷ ps) ns h e q =
      let (m, ms, f, g, k) = project_map-cons r ps ns h in
      ap (λ l. in_map names l n) k ∙ go m ms f (λ e. Elem-in_map n p ps ms g e q) e
    where
      equal : (m : List ℕ) → m ≡ n → name_eq m n ≡ true
      equal m u = ap (λ x. name_eq x n) u ∙ name_eq_refl n

      go :
          (m : List ℕ) (ms : List (List ℕ))
          → name names r ≡ some m
          → (Elem p ps → in_map names ms n ≡ true)
          → (p ≡ r) ⊎ Elem p ps
          → (name_eq m n || in_map names ms n) ≡ true
      go m ms f rest (inl u) =
          ap (λ b. b || in_map names ms n)
            (equal m (some-injective (sym f ∙ ap (name names) (sym u) ∙ q)))
      go m ms f rest (inr u) = ap (λ b. name_eq m n || b) (rest u) ∙ or_right (name_eq m n)

  -- Where the test fails, a column does not have the name of a column of the projections.
  pub covers-uncovered :
      (ps : List (Expr S M)) (ns : List (List ℕ)) (es : List (Expr S M))
      → project_map names ps ≡ some ns
      → covers names ns es ≡ some false
      → IsCovered ps es
      → ⊥
  unfolding covers
  covers-uncovered ps ns [] h k c = absurd (cc)
  covers-uncovered ps ns (e ∷ es) h k c =
      let (n, p, u, i, v) = c.0 in
      covers-uncovered ps ns es h
        (sym (
            ap (λ o. and_then o (λ n. if in_map names ns n then covers names ns es else some false))
              u
            ∙ ap (λ b. if b then covers names ns es else some false) (Elem-in_map n p ps ns h i v))
          ∙ k)
        c.1

  abbrev pub Named : Expr S M → Type 0
  Named e = (n : List ℕ) × (name names e ≡ some n)

  pub project_map-Named :
      (es : List (Expr S M))
      → All Named es
      → (ns : List (List ℕ)) × (project_map names es ≡ some ns)
  unfolding project_map
  project_map-Named [] h = ([], refl)
  project_map-Named (e ∷ es) h =
      let (ns, k) = project_map-Named es h.1 in ((h.0).0 ∷ ns, rw (and_then, (h.0).1, k) refl)

  pub covers-Named :
      (ns : List (List ℕ)) (es : List (Expr S M))
      → All Named es
      → (b : Bool) × (covers names ns es ≡ some b)
  unfolding covers
  covers-Named ns [] h = (true, refl)
  covers-Named ns (e ∷ es) h =
      let (b, k) = covers-Named ns es h.1 in
      elim (Bool-cases (in_map names ns (h.0).0)) [
        | inl t ↦ (b, rw (and_then, (h.0).1, t) k)
        | inr f ↦ (false, rw (and_then, (h.0).1, f) refl)
      ]
