-- ===== src/Snapshots/Reclaim.antt =====
-- `reclaimDiskSpace` of db.go never leaves the log truncated without its snapshot.
use mathlib.Core.Path.{subst}
use frostdb.Base.{
  ℕ, ◌≡◌, ◌≢◌, refl, sym, ap, ◌∙◌, Bool, true, false, Option, none, some, Option-cases, List, [],
  ◌∷◌, Elem, inl, inr, ◌⊎◌, arith, ◌==◌, if◌then◌else◌, Bool-cases,
}
use frostdb.Filter.{name_eq, name_eq-eq}
use frostdb.Snapshots.{
  DirEntry, Next, go_on, stop, abort, snapshot_tx, snapshots_do, valid_callback,
  get_latest_valid_snapshot_txn, without, cleanup_callback, after_callback, cleanup_snapshot_dir,
  truncate_after, reclaim_disk_space,
}

module _ {F : Type 0} where
  -- Two files of one name are snapshots of one transaction.
  same_tx :
      (f g : DirEntry F) (s t : ℕ)
      → f.name ≡ g.name
      → snapshot_tx f ≡ some s
      → snapshot_tx g ≡ some t
      → s ≡ t
  unfolding snapshot_tx
  same_tx f g s t e h k = ground arith

  -- What is found is a valid snapshot of the directory.
  abbrev Holds : (F → Bool) → List (DirEntry F) → ℕ → Type 0
  Holds is_valid files tx =
      (f : DirEntry F) × Elem f files × (snapshot_tx f ≡ some tx) × (is_valid f.file ≡ true)

  latest_lem :
      (is_valid : F → Bool) (files : List (DirEntry F)) (latest tx : ℕ)
      → (snapshots_do (valid_callback is_valid) files latest).0 ≡ tx
      → tx ≢ latest
      → Holds is_valid files tx
  unfolding snapshots_do
  latest_lem is_valid [] latest tx h n = absurd (n (sym h))
  latest_lem is_valid (f ∷ fs) latest tx h n = elim (Option-cases (snapshot_tx f)) [
    | inl e ↦ let r = latest_lem is_valid fs latest tx (ground arith) n in (r.0, inr r.1, r.2, r.3)
    | inr (t, e) ↦ elim (Bool-cases (is_valid f.file)) [
      | inl v ↦ (f, inl refl, ground arith, v)
      | inr v ↦
          let r = latest_lem is_valid fs latest tx (ground arith) n in (r.0, inr r.1, r.2, r.3)
    ]
  ]

  Elem-without :
      (p : DirEntry F → Bool) (f : DirEntry F) (fs : List (DirEntry F))
      → p f ≡ false
      → Elem f fs
      → Elem f (without p fs)
  Elem-without p f [] h e = elim e [ ]
  Elem-without p f (g ∷ fs) h e = go (p g) refl e (λ k. Elem-without p f fs h k)
    where
      go :
          (b : Bool)
          → p g ≡ b
          → (f ≡ g) ⊎ Elem f fs
          → (Elem f fs → Elem f (without p fs))
          → Elem f (if b then without p fs else g ∷ without p fs)
      go true k (inl q) rest = absurd (cc (sym h ∙ ap p q ∙ k))
      go true k (inr q) rest = rest q
      go false k (inl q) rest = inl q
      go false k (inr q) rest = inr (rest q)

  -- A callback of the clean-up leaves the snapshots of the transaction that is kept.
  cleanup_callback-Elem :
      (removes : List ℕ → Bool) (tx t : ℕ) (g f : DirEntry F) (remaining : List (DirEntry F))
      → snapshot_tx g ≡ some t
      → snapshot_tx f ≡ some tx
      → Elem f remaining
      → Elem f (cleanup_callback removes tx t g remaining).0
  cleanup_callback-Elem removes tx t g f remaining e k h = go (t == tx) refl (removes g.name)
    where
      go :
          (b : Bool)
          → (t == tx) ≡ b
          → (c : Bool)
          → Elem f
              (if◌then◌else◌ {A = List (DirEntry F) × Next (Unit {0})} b
                (remaining, go_on)
                (if c
                  then (without (λ x. name_eq g.name x.name) remaining, go_on)
                  else (remaining, abort tt))).0
      go true q c = h
      go false q false = h
      go false q true = elim (Bool-cases (name_eq g.name f.name)) [
        | inl m ↦ absurd (ground (arith, same_tx g f t tx (name_eq-eq g.name f.name m) e k))
        | inr m ↦ Elem-without (λ x. name_eq g.name x.name) f remaining m h
      ]

  cleanup-Elem :
      (removes : List ℕ → Bool) (tx : ℕ) (f : DirEntry F) (files remaining : List (DirEntry F))
      → snapshot_tx f ≡ some tx
      → Elem f remaining
      → Elem f (snapshots_do (cleanup_callback removes tx) files remaining).0
  unfolding snapshots_do
  cleanup-Elem removes tx f [] remaining k h = h
  cleanup-Elem removes tx f (g ∷ fs) remaining k h =
      go (snapshot_tx g) refl (λ r q. cleanup-Elem removes tx f fs r k q)
    where
      done :
          (x : List (DirEntry F) × Next (Unit {0}))
          → Elem f x.0
          → ((r : List (DirEntry F))
              → Elem f r
              → Elem f (snapshots_do (cleanup_callback removes tx) fs r).0)
          → Elem f
              (after_callback
                (cleanup_callback removes tx)
                x
                (λ s'. snapshots_do (cleanup_callback removes tx) fs s')).0
      done (r, go_on) q rest = rest r q
      done (r, stop) q rest = q
      done (r, abort z) q rest = q

      go :
          (o : Option ℕ)
          → snapshot_tx g ≡ o
          → ((r : List (DirEntry F))
              → Elem f r
              → Elem f (snapshots_do (cleanup_callback removes tx) fs r).0)
          → Elem f
              (elim o as (λ x. List (DirEntry F) × Option (Unit {0})) [
                | none ↦ snapshots_do (cleanup_callback removes tx) fs remaining
                | some t ↦
                    after_callback
                      (cleanup_callback removes tx)
                      (cleanup_callback removes tx t g remaining)
                      (λ s'. snapshots_do (cleanup_callback removes tx) fs s')
              ]).0
      go none q rest = rest remaining h
      go (some t) q rest =
          done (cleanup_callback removes tx t g remaining)
            (cleanup_callback-Elem removes tx t g f remaining q k h) rest

  -- If the log is truncated at a transaction after the snapshots are cleaned up, then a valid snapshot
  -- of this transaction was in the directory, and still is.
  pub reclaim-Elem :
      (removes : List ℕ → Bool) (is_valid : F → Bool) (files remaining : List (DirEntry F)) (tx : ℕ)
      → reclaim_disk_space removes is_valid files ≡ (remaining, some tx)
      → (f : DirEntry F) × Elem f files
        × Elem f remaining
        × (snapshot_tx f ≡ some tx)
        × (is_valid f.file ≡ true)
  unfolding reclaim_disk_space get_latest_valid_snapshot_txn cleanup_snapshot_dir
  reclaim-Elem removes is_valid files remaining tx h = elim (Bool-cases (latest == 0)) [
    | inl z ↦ absurd (ground arith)
    | inr z ↦ go (cleanup_snapshot_dir removes latest files) refl (ground arith) z
  ]
    where
      latest : ℕ
      latest = get_latest_valid_snapshot_txn is_valid files

      Goal : Type 0
      Goal =
          (f : DirEntry F) × Elem f files
          × Elem f remaining
          × (snapshot_tx f ≡ some tx)
          × (is_valid f.file ≡ true)

      go :
          (x : List (DirEntry F) × Option (Unit {0}))
          → cleanup_snapshot_dir removes latest files ≡ x
          → truncate_after removes latest x ≡ (remaining, some tx)
          → (latest == 0) ≡ false
          → Goal
      go (r, some e) k l z = absurd (ground arith)
      go (r, none) k l z =
          let found = latest_lem is_valid files 0 latest refl (ground arith) in
          let same : latest ≡ tx = ground arith in
          let left : (cleanup_snapshot_dir removes latest files).0 ≡ remaining = ground arith in
          (
            found.0,
            found.1,
            subst (Elem found.0) left
                (cleanup-Elem removes latest found.0 files files found.2 found.1),
            found.2 ∙ ap some same,
            found.3,
          )
