-- ===== src/Recovery/FirstPass.antt =====
-- The first replay of `recover` as a whole: the last persisted transaction of a table, and its rows.
use Prim.Native.String.{String}
use mathlib.Core.Path.{subst}
use frostdb.Base.{
  ap, ℕ, ◌≤◌, ◌<◌, ◌≡◌, refl, sym, ◌∙◌, Bool, Option, some, inl, inr, arith, ℕ_discrete,
}
use frostdb.Wal.Replay.{Prefix, Prefix-le, none_yet, one_more}
use frostdb.Recovery.{Entry, Codec, FirstPass, first_handler}
use frostdb.Recovery.Contents.{view}
use frostdb.Recovery.Persisted.{
  Persists, IsLoaded, NoRows, first_handler-Noted, first_handler-Leaves,
}

module _ {C I B D S : Type 0} (codec : Codec C I B D S) (read : ℕ → Option (Entry C I B))
    (name : String) where
  -- Record `p` persists a block of the table.
  abbrev pub PersistsAt : ℕ → Type 0
  PersistsAt p = (e : Entry C I B) × (read p ≡ some e) × Persists codec name (some e)

  abbrev pub NonePersisted : ℕ → ℕ → Type 0
  NonePersisted start t = (p : ℕ) → start ≤ p → p < t → PersistsAt p → ⊥

module _ {C I B D S : Type 0} (codec : Codec C I B D S) (done : ℕ → Bool) (snapshot_tx : ℕ)
    (read : ℕ → Option (Entry C I B)) (name : String) where
  same_record :
      (p t : ℕ) (e : Entry C I B)
      → p ≡ t
      → read t ≡ some e
      → PersistsAt codec read name p
      → Persists codec name (some e)
  same_record p t e q k (f, l, h) = subst (Persists codec name) (sym l ∙ ap read q ∙ k) h

  abbrev Pass : ℕ → FirstPass codec → ℕ → FirstPass codec → Type 0
  Pass start s t s' = Prefix read (first_handler codec done snapshot_tx) start s t s'

  pub persisted_last :
      {start : ℕ} {s : FirstPass codec} {t : ℕ} {s' : FirstPass codec}
      → Pass start s t s'
      → (p : ℕ) → start ≤ p
      → p < t
      → PersistsAt codec read name p
      → (q : ℕ) × (s'.0 name ≡ some q) × (p ≤ q)
  persisted_last none_yet p h k l = absurd (omega arith)
  persisted_last (one_more {t = t} {r = e} {g = g} {g' = g'} prev k l) p h m n =
      elim (first_handler-Noted codec done snapshot_tx t name e g g' l) [
        | inl (_, q) ↦ (t, q, omega arith)
        | inr (d, q, _) ↦ elim (ℕ_discrete p t) [
          | yes x ↦ absurd (d (same_record p t e x k n))
          | no x ↦ let r = persisted_last prev p h (omega arith) n in (r.0, q ∙ r.1, r.2)
        ]
      ]

  pub none_persisted :
      {start : ℕ} {s : FirstPass codec} {t : ℕ} {s' : FirstPass codec}
      → Pass start s t s'
      → NonePersisted codec read name start t
      → (s'.0 name ≡ s.0 name) × ((s'.1).tables name ≡ (s.1).tables name)
  none_persisted none_yet n = (refl, refl)
  none_persisted (one_more {t = t} {r = e} {g = g} {g' = g'} prev k l) n =
      elim (first_handler-Noted codec done snapshot_tx t name e g g' l) [
        | inl (q, _) ↦ absurd (
            n t (Prefix-le read (first_handler codec done snapshot_tx) prev) (omega arith)
              (e, k, q))
        | inr (_, q, r) ↦
            let h = none_persisted prev (λ p a b c. n p a (omega arith) c) in (q ∙ h.0, r ∙ h.1)
      ]

  abbrev Emptied : FirstPass codec → ℕ → ℕ → Type 0
  Emptied s start t =
      IsLoaded codec ((s.1).tables name)
      × ((p : ℕ)
          → start ≤ p
          → p < t
          → snapshot_tx < p
          → PersistsAt codec read name p
          → NoRows codec (view name (s.1)))

  pub emptied :
      {start : ℕ} {s : FirstPass codec} {t : ℕ} {s' : FirstPass codec}
      → Pass start s t s'
      → IsLoaded codec ((s.1).tables name)
      → Emptied s' start t
  emptied none_yet h = (h, λ p a b c d. absurd (omega arith))
  emptied (one_more {t = t} {r = e} {g = g} {g' = g'} prev k l) h =
      let before = emptied prev h in
      let after = first_handler-Leaves codec done snapshot_tx t name e g g' l before.0 in
      (
        after.0,
        λ p a b c d. elim (ℕ_discrete p t) [
          | yes x ↦ after.1 (same_record p t e x k d) (omega arith)
          | no x ↦ after.2 (before.1 p a (omega arith) c d)
        ],
      )
