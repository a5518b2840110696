-- ===== src/Deferred/Frame.antt =====
-- An attempt to collect one record leaves the records around it alone.
use eudi_dev.Base.{
  ℕ, ℤ, codes, Text, text_eq, false, Option, none, some, Option-cases, List, [], ◌∷◌, ◌++◌,
  append_assoc, All, ◌≡◌, refl, sym, ap, subst, inl, inr, arith,
}
use eudi_dev.Deferred.{
  DeferredIssuance, interval, remove_deferred_issuance, update_deferred_issuance,
}
use eudi_dev.Deferred.Poller.{
  Poller, AttemptError, AccessGrant, Issuer, DeferredAttempt, reschedule_deferred, abandon_deferred,
  handle_deferred_attempt_error, refreshed, with_tokens, refresh_deferred_access_token,
  finish_collection, ask_issuer, collect_with_token, collect_claimed, attempt_deferred_collection,
  collect_due,
}

-- No record of the list has this id.
abbrev pub IsAway : Text → List DeferredIssuance → Type 0
IsAway id = All (λ q. text_eq q.id id ≡ false)

remove-framed :
    (id : Text) (done ps rest : List DeferredIssuance)
    → IsAway id done
    → IsAway id rest
    → remove_deferred_issuance id (done ++ ps ++ rest)
      ≡ done ++ remove_deferred_issuance id ps ++ rest
unfolding remove_deferred_issuance
remove-framed id [] [] [] h k = refl
remove-framed id [] [] (q ∷ rest) h (n, k) =
    rw n (ap (λ l. q ∷ l) (remove-framed id [] [] rest tt k))
remove-framed id [] (p ∷ ps) rest h k = ground (arith, remove-framed id [] ps rest tt k)
remove-framed id (q ∷ done) ps rest (n, h) k =
    rw n (ap (λ l. q ∷ l) (remove-framed id done ps rest h k))

update-framed :
    (id : Text) (apply : DeferredIssuance → DeferredIssuance) (done ps rest : List DeferredIssuance)
    → IsAway id done
    → IsAway id rest
    → update_deferred_issuance id apply (done ++ ps ++ rest)
      ≡ done ++ update_deferred_issuance id apply ps ++ rest
unfolding update_deferred_issuance
update-framed id apply [] [] [] h k = refl
update-framed id apply [] [] (q ∷ rest) h (n, k) =
    rw n (ap (λ l. q ∷ l) (update-framed id apply [] [] rest tt k))
update-framed id apply [] (p ∷ ps) rest h k = ground (arith, update-framed id apply [] ps rest tt k)
update-framed id apply (q ∷ done) ps rest (n, h) k =
    rw n (ap (λ l. q ∷ l) (update-framed id apply done ps rest h k))

-- The state with more records around its own, and more ids before those it imported.
abbrev pub framed : List DeferredIssuance → List DeferredIssuance → List Text → Poller → Poller
framed done rest log s = record s {
  issuances = done ++ s.issuances ++ rest;
  imported = log ++ s.imported;
}

abbrev framed_attempt :
    List DeferredIssuance
    → List DeferredIssuance
    → List Text
    → Poller × DeferredAttempt
    → Poller × DeferredAttempt
framed_attempt done rest log (s, attempt) = (framed done rest log s, attempt)

pub refreshed-id :
    (g : AccessGrant) (err : Option Text) (p : DeferredIssuance) → (refreshed g err p).id ≡ p.id
unfolding refreshed
refreshed-id g err p = ground arith

pub renewed-id :
    (env : Issuer) (p : DeferredIssuance) (s : Poller)
    → (refresh_deferred_access_token env p s).1.id ≡ p.id
unfolding refresh_deferred_access_token
renewed-id env p s = elim (Option-cases (env.refresh_access_token p).0) [
  | inl e ↦ ground arith
  | inr (g, e) ↦ ground (arith, refreshed-id g (env.refresh_access_token p).1 p)
]

module _ (env : Issuer) (done rest : List DeferredIssuance) (log : List Text) where
  -- Neither the records before nor those behind have the id of this one.
  abbrev IsAlone : DeferredIssuance → Type 0
  IsAlone p = IsAway p.id done × IsAway p.id rest

  reschedule-framed :
      (p : DeferredIssuance) (delay : ℤ) (e : Text) (s : Poller)
      → IsAlone p
      → reschedule_deferred env p delay e (framed done rest log s)
        ≡ framed_attempt done rest log (reschedule_deferred env p delay e s)
  unfolding reschedule_deferred
  reschedule-framed p delay e s (before, behind) =
      rw (update-framed p.id _ done s.issuances rest before behind) refl

  abandon-framed :
      (p : DeferredIssuance) (e : Text) (s : Poller)
      → IsAlone p
      → abandon_deferred p e (framed done rest log s)
        ≡ framed_attempt done rest log (abandon_deferred p e s)
  unfolding abandon_deferred
  abandon-framed p e s (before, behind) =
      rw (remove-framed p.id done s.issuances rest before behind) refl

  error-framed :
      (p : DeferredIssuance) (err : AttemptError) (s : Poller)
      → IsAlone p
      → handle_deferred_attempt_error env p err (framed done rest log s)
        ≡ framed_attempt done rest log (handle_deferred_attempt_error env p err s)
  unfolding handle_deferred_attempt_error
  error-framed p err s alone = elim (Option-cases err.still_pending) [
    | inl e ↦ ground (
      arith,
      reschedule-framed p (interval p) err.message s alone,
      abandon-framed p err.message s alone,
    )
    | inr (delay, e) ↦ ground (arith, reschedule-framed p delay [] s alone)
  ]

  finish-framed :
      (p : DeferredIssuance) (err : Option AttemptError) (s : Poller)
      → IsAlone p
      → finish_collection env p err (framed done rest log s)
        ≡ framed_attempt done rest log (finish_collection env p err s)
  unfolding finish_collection
  finish-framed p (some err) s alone = error-framed p err s alone
  finish-framed p none s alone = elim (Option-cases (env.store p)) [
    | inl e ↦ ground (
      arith,
      remove-framed p.id done s.issuances rest alone.0 alone.1,
      append_assoc log s.imported (p.id ∷ []),
    )
    | inr (reason, e) ↦ ground (arith, abandon-framed p reason s alone)
  ]

  refresh-framed :
      (p : DeferredIssuance) (s : Poller)
      → IsAlone p
      → refresh_deferred_access_token env p (framed done rest log s) ≡ (
        framed done rest log (refresh_deferred_access_token env p s).0,
        (refresh_deferred_access_token env p s).1,
        (refresh_deferred_access_token env p s).2,
      )
  unfolding refresh_deferred_access_token
  refresh-framed p s alone = elim (Option-cases (env.refresh_access_token p).0) [
    | inl e ↦ ground arith
    | inr (g, e) ↦
        let updated = refreshed g (env.refresh_access_token p).1 p in
        let away =
          subst (λ i. IsAway i done × IsAway i rest)
            (sym (refreshed-id g (env.refresh_access_token p).1 p)) alone in
        ground (
          arith,
          update-framed updated.id (with_tokens updated) done s.issuances rest away.0 away.1,
        )
  ]

  renewed-IsAlone :
      (p : DeferredIssuance) (s : Poller)
      → IsAlone p
      → IsAlone (refresh_deferred_access_token env p s).1
  renewed-IsAlone p s alone =
      subst (λ i. IsAway i done × IsAway i rest) (sym (renewed-id env p s)) alone

  ask-framed :
      (p : DeferredIssuance) (s : Poller)
      → IsAlone p
      → ask_issuer env p (framed done rest log s)
        ≡ framed_attempt done rest log (ask_issuer env p s)
  unfolding ask_issuer
  ask-framed p s alone =
      let r = refresh_deferred_access_token env p s in
      elim (Option-cases (env.request p)) [
        | inl e ↦ ground (arith, finish-framed p none s alone)
        | inr (err, e) ↦ ground (
          arith,
          refresh-framed p s alone,
          finish-framed p (some err) s alone,
          finish-framed p (some err) r.0 alone,
          finish-framed r.1 (env.second_request r.1) r.0 (renewed-IsAlone p s alone),
        )
      ]

  token-framed :
      (p : DeferredIssuance) (s : Poller)
      → IsAlone p
      → collect_with_token env p (framed done rest log s)
        ≡ framed_attempt done rest log (collect_with_token env p s)
  unfolding collect_with_token
  token-framed p s alone = elim (Option-cases (env.read_metadata p)) [
    | inr (e, q) ↦ ground (
      arith,
      reschedule-framed p (interval p) (codes "the issuer metadata can't be used: " ++ e) s alone,
    )
    | inl q ↦ elim (Option-cases (env.check_issuer p)) [
      | inr (e, r) ↦ ground (arith, abandon-framed p e s alone)
      | inl r ↦ elim (Option-cases (env.encryption p)) [
        | inr (e, t) ↦ ground (arith, reschedule-framed p (interval p) e s alone)
        | inl t ↦ ground (arith, ask-framed p s alone)
      ]
    ]
  ]

  claimed-framed :
      (p : DeferredIssuance) (s : Poller)
      → IsAlone p
      → collect_claimed env p (framed done rest log s)
        ≡ framed_attempt done rest log (collect_claimed env p s)
  unfolding collect_claimed
  claimed-framed p s alone =
      let r = refresh_deferred_access_token env p s in
      elim (Option-cases (env.proof_keys p)) [
        | inr (e, q) ↦
            ground (
              arith,
              abandon-framed p (codes "its proof keys could not be read back: " ++ e) s alone,
            )
        | inl q ↦ elim (Option-cases r.2) [
          | inl t ↦ ground (
            arith,
            refresh-framed p s alone,
            token-framed p s alone,
            token-framed r.1 r.0 (renewed-IsAlone p s alone),
          )
          | inr (e, t) ↦ ground (
            arith,
            refresh-framed p s alone,
            token-framed p s alone,
            abandon-framed p (codes "its access token expired and could not be renewed: " ++ e) r.0
                alone,
          )
        ]
      ]

  attempt-framed :
      (p : DeferredIssuance) (s : Poller)
      → IsAlone p
      → attempt_deferred_collection env p (framed done rest log s)
        ≡ framed_attempt done rest log (attempt_deferred_collection env p s)
  unfolding attempt_deferred_collection
  attempt-framed p s alone =
      ground (arith, claimed-framed p (record s { in_flight = p.id ∷ s.in_flight }) alone)

  pub due-framed :
      (now : ℕ) (p : DeferredIssuance) (s : Poller)
      → IsAlone p
      → collect_due env now p (framed done rest log s)
        ≡ framed done rest log (collect_due env now p s)
  unfolding collect_due
  due-framed now p s alone = ground (
    arith,
    attempt-framed p s alone,
    abandon-framed p (codes "the issuer did not produce it within 24h0m0s") s alone,
  )
