-- ===== src/Deferred/Settled.antt =====
-- What the sweep does with a record that is the only one.
use eudi_dev.Base.{
  ◌+◌, ◌*◌, ◌≤◌, ◌<◌, ℕ, codes, Text, true, false, Bool-cases, List, [], ◌∷◌, ◌≡◌, refl, inl, inr,
  ◌⊎◌, text_eq_refl, ltb, arith,
}
use eudi_dev.Deferred.{DeferredIssuance, is_expired, remove_deferred_issuance}
use eudi_dev.Deferred.Poller.{
  Poller, Issuer, abandon_deferred, attempt_deferred_collection, collect_due,
}
use eudi_dev.Deferred.Once.{IsOutcome, attempt-IsOutcome}

-- What the sweep does with a record that is the only one: the record or nothing, and the import or
-- nothing.
abbrev pub alone : Issuer → ℕ → List Text → DeferredIssuance → Poller
alone env now in_flight p =
    collect_due env now p (record { issuances = p ∷ []; in_flight = in_flight; imported = [] })

-- The poller with this record only.
abbrev pub only : List Text → DeferredIssuance → Poller
only in_flight p = record { issuances = p ∷ []; in_flight = in_flight; imported = [] }

-- A day, which the wallet gives an issuer.
abbrev pub day : ℕ
day = 24 * 60 * 60 * 1000000000

-- A record that is older than a day.
abbrev pub IsOld : ℕ → DeferredIssuance → Type 0
IsOld now p = p.created_at + day < now

-- What the sweep does with the only record: it waits until the record is due, gives up on one that is
-- older than a day without an import, and else makes one attempt, which leaves what it reports.
abbrev pub IsSettled : Issuer → ℕ → List Text → DeferredIssuance → Type 0
IsSettled env now in_flight p =
    ((now < p.next_attempt_at) × (alone env now in_flight p ≡ only in_flight p))
    ⊎ (((p.next_attempt_at ≤ now)
          × IsOld now p
          × ((alone env now in_flight p).issuances ≡ [])
          × ((alone env now in_flight p).imported ≡ []))
        ⊎ ((p.next_attempt_at ≤ now)
            × (now ≤ p.created_at + day)
            × IsOutcome p.id (alone env now in_flight p)
                (attempt_deferred_collection env p (only in_flight p)).1))

pub expired-IsOld : (now : ℕ) (p : DeferredIssuance) → is_expired now p ≡ true → IsOld now p
unfolding is_expired
expired-IsOld now p h = ground arith

pub young_unless :
    (now : ℕ) (p : DeferredIssuance) → is_expired now p ≡ false → now ≤ p.created_at + day
unfolding is_expired
young_unless now p h = ground arith

abandoned_alone :
    (p : DeferredIssuance) (e : Text) (flight : List Text)
    → (abandon_deferred p e (only flight p)).0.issuances ≡ []
unfolding abandon_deferred remove_deferred_issuance
abandoned_alone p e flight = ground (arith, text_eq_refl p.id)

abandoned_nothing :
    (p : DeferredIssuance) (e : Text) (flight : List Text)
    → (abandon_deferred p e (only flight p)).0.imported ≡ []
unfolding abandon_deferred
abandoned_nothing p e flight = refl

pub alone-IsSettled :
    (env : Issuer) (now : ℕ) (flight : List Text) (p : DeferredIssuance)
    → IsSettled env now flight p
unfolding collect_due
alone-IsSettled env now flight p = elim (Bool-cases (ltb now p.next_attempt_at)) [
  | inl e ↦ inl (ground arith, rw e refl)
  | inr e ↦
      let due : p.next_attempt_at ≤ now = ground arith in
      elim (Bool-cases (is_expired now p)) [
        | inl f ↦
            let reason = codes "the issuer did not produce it within 24h0m0s" in
            inr (
              inl (
                due,
                expired-IsOld now p f,
                rw (e, f) (abandoned_alone p reason flight),
                rw (e, f) (abandoned_nothing p reason flight),
              ))
        | inr f ↦ inr (
            inr (
              due,
              young_unless now p f,
              rw (e, f) (attempt-IsOutcome env p (only flight p) (refl, p, refl, refl)),
            ))
      ]
]
