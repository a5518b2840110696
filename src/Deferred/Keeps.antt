-- ===== src/Deferred/Keeps.antt =====
-- An attempt to collect a record leaves no record with another id, and the claims as they are.
use eudi_dev.Base.{
  ℕ, ℤ, codes, Text, text_eq, text_eq_refl, contains, ltb, false, not, ◌&&◌, Option, none, some,
  Option-cases, Bool-cases, List, [], ◌∷◌, ◌++◌, keep_if, All, ◌≡◌, refl, ◌∙◌, ap, inl, inr, arith,
}
use eudi_dev.Deferred.{
  DeferredIssuance, is_expired, access_token_expired, can_refresh, interval,
  remove_deferred_issuance, update_deferred_issuance,
}
use eudi_dev.Deferred.Poller.{
  Poller, AttemptError, Issuer, is_authorization_rejected, is_retryable_deferred_error, rescheduled,
  reschedule_deferred, abandon_deferred, handle_deferred_attempt_error, refreshed, with_tokens,
  refresh_deferred_access_token, finish_collection, ask_issuer, collect_with_token, collect_claimed,
  attempt_deferred_collection, collect_due,
}

-- Rescheduling and new tokens do not change whether this holds of a record.
pub record IsStable (P : DeferredIssuance → Type 0) : Type 0 where
  pub rescheduling :
      (next : ℕ) (delay : ℤ) (e : Text) (q : DeferredIssuance)
      → P q
      → P (rescheduled next delay e q)
  pub tokens : (updated q : DeferredIssuance) → P q → P (with_tokens updated q)

abbrev pub Keeps : (DeferredIssuance → Type 0) → Poller → Poller → Type 0
Keeps P s t = (t.in_flight ≡ s.in_flight) × (All P s.issuances → All P t.issuances)

remove-All :
    (P : DeferredIssuance → Type 0) (other : Text) (ps : List DeferredIssuance)
    → All P ps
    → All P (remove_deferred_issuance other ps)
unfolding remove_deferred_issuance
remove-All P other [] h = tt
remove-All P other (p ∷ ps) (e, h) = elim (Bool-cases (text_eq p.id other)) [
  | inl q ↦ rw q h
  | inr q ↦ rw q (e, remove-All P other ps h)
]

update-All :
    (P : DeferredIssuance → Type 0) (other : Text) (apply : DeferredIssuance → DeferredIssuance)
    (ps : List DeferredIssuance)
    → ((p : DeferredIssuance) → P p → P (apply p))
    → All P ps
    → All P (update_deferred_issuance other apply ps)
unfolding update_deferred_issuance
update-All P other apply [] stable h = tt
update-All P other apply (p ∷ ps) stable (e, h) = elim (Bool-cases (text_eq p.id other)) [
  | inl q ↦ rw q (stable p e, h)
  | inr q ↦ rw q (e, update-All P other apply ps stable h)
]

module _ (env : Issuer) (P : DeferredIssuance → Type 0) (stable : IsStable P) where
  reschedule-Keeps :
      (p : DeferredIssuance) (delay : ℤ) (e : Text) (s : Poller)
      → Keeps P s (reschedule_deferred env p delay e s).0
  unfolding reschedule_deferred
  reschedule-Keeps p delay e s =
      (refl, update-All P p.id _ s.issuances (stable.rescheduling _ delay e))

  abandon-Keeps :
      (p : DeferredIssuance) (e : Text) (s : Poller) → Keeps P s (abandon_deferred p e s).0
  unfolding abandon_deferred
  abandon-Keeps p e s = (refl, remove-All P p.id s.issuances)

  error-Keeps :
      (p : DeferredIssuance) (err : AttemptError) (s : Poller)
      → Keeps P s (handle_deferred_attempt_error env p err s).0
  unfolding handle_deferred_attempt_error
  error-Keeps p err s = elim (Option-cases err.still_pending) [
    | inl e ↦ elim (Bool-cases (is_retryable_deferred_error err.message)) [
      | inl r ↦
          rw (e, r, handle_deferred_attempt_error) (reschedule-Keeps p (interval p) err.message s)
      | inr r ↦ rw (e, r, handle_deferred_attempt_error) (abandon-Keeps p err.message s)
    ]
    | inr (delay, e) ↦ rw (e, handle_deferred_attempt_error) (reschedule-Keeps p delay [] s)
  ]

  finish-Keeps :
      (p : DeferredIssuance) (err : Option AttemptError) (s : Poller)
      → Keeps P s (finish_collection env p err s).0
  unfolding finish_collection
  finish-Keeps p (some err) s = error-Keeps p err s
  finish-Keeps p none s = elim (Option-cases (env.store p)) [
    | inl e ↦ rw (e, finish_collection) (refl, remove-All P p.id s.issuances)
    | inr (reason, e) ↦ rw (e, finish_collection) (abandon-Keeps p reason s)
  ]

  refresh-Keeps :
      (p : DeferredIssuance) (s : Poller) → Keeps P s (refresh_deferred_access_token env p s).0
  unfolding refresh_deferred_access_token
  refresh-Keeps p s = elim (Option-cases (env.refresh_access_token p).0) [
    | inl e ↦ rw (e, refresh_deferred_access_token) (refl, λ h. h)
    | inr (g, e) ↦
        rw (e, refresh_deferred_access_token)
          (
            refl,
            update-All P _ (with_tokens (refreshed g (env.refresh_access_token p).1 p)) s.issuances
                (stable.tokens (refreshed g (env.refresh_access_token p).1 p)),
          )
  ]

  Keeps-trans : (s t u : Poller) → Keeps P s t → Keeps P t u → Keeps P s u
  Keeps-trans s t u (a, f) (b, g) = (b ∙ a, λ h. g (f h))

  ask-Keeps : (p : DeferredIssuance) (s : Poller) → Keeps P s (ask_issuer env p s).0
  unfolding ask_issuer
  ask-Keeps p s =
      let r = refresh_deferred_access_token env p s in
      elim (Option-cases (env.request p)) [
        | inl e ↦ rw (e, ask_issuer) (finish-Keeps p none s)
        | inr (err, e) ↦
            elim (Bool-cases (is_authorization_rejected err.message && can_refresh p)) [
              | inr b ↦ rw (e, b, ask_issuer) (finish-Keeps p (some err) s)
              | inl b ↦ elim (Option-cases r.2) [
                | inl f ↦
                    rw (e, b, f, ask_issuer)
                      (Keeps-trans s r.0 (finish_collection env r.1 (env.second_request r.1) r.0).0
                        (refresh-Keeps p s) (finish-Keeps r.1 (env.second_request r.1) r.0))
                | inr (x, f) ↦
                    rw (e, b, f, ask_issuer)
                      (Keeps-trans s r.0 (finish_collection env p (some err) r.0).0
                        (refresh-Keeps p s) (finish-Keeps p (some err) r.0))
              ]
            ]
      ]

  token-Keeps : (p : DeferredIssuance) (s : Poller) → Keeps P s (collect_with_token env p s).0
  unfolding collect_with_token
  token-Keeps p s = elim (Option-cases (env.read_metadata p)) [
    | inr (e, q) ↦ rw (q, collect_with_token) (reschedule-Keeps p (interval p) _ s)
    | inl q ↦ elim (Option-cases (env.check_issuer p)) [
      | inr (e, r) ↦ rw (q, r, collect_with_token) (abandon-Keeps p e s)
      | inl r ↦ elim (Option-cases (env.encryption p)) [
        | inr (e, t) ↦ rw (q, r, t, collect_with_token) (reschedule-Keeps p (interval p) e s)
        | inl t ↦ rw (q, r, t, collect_with_token) (ask-Keeps p s)
      ]
    ]
  ]

  claimed-Keeps : (p : DeferredIssuance) (s : Poller) → Keeps P s (collect_claimed env p s).0
  unfolding collect_claimed
  claimed-Keeps p s =
      let r = refresh_deferred_access_token env p s in
      elim (Option-cases (env.proof_keys p)) [
        | inr (e, q) ↦ rw (q, collect_claimed) (abandon-Keeps p _ s)
        | inl q ↦ elim (Bool-cases (access_token_expired (env.clock p) p && can_refresh p)) [
          | inr b ↦ rw (q, b, collect_claimed) (token-Keeps p s)
          | inl b ↦ elim (Option-cases r.2) [
            | inl f ↦
                rw (q, b, f, collect_claimed)
                  (Keeps-trans s r.0 (collect_with_token env r.1 r.0).0 (refresh-Keeps p s)
                    (token-Keeps r.1 r.0))
            | inr (x, f) ↦
                rw (q, b, f, collect_claimed)
                  (let e = codes "its access token expired and could not be renewed: " ++ x in
                    Keeps-trans s r.0 (abandon_deferred p e r.0).0 (refresh-Keeps p s)
                      (abandon-Keeps p e r.0))
          ]
        ]
      ]

unclaimed :
    (id : Text) (ids : List Text)
    → contains ids id ≡ false
    → keep_if (λ other. not (text_eq other id)) ids ≡ ids
unfolding contains
unclaimed id [] h = refl
unclaimed id (x ∷ ids) h = ground (arith, unclaimed id ids)

module _ (env : Issuer) (P : DeferredIssuance → Type 0) (stable : IsStable P) where
  attempt-Keeps :
      (p : DeferredIssuance) (s : Poller) → Keeps P s (attempt_deferred_collection env p s).0
  unfolding attempt_deferred_collection
  attempt-Keeps p s = elim (Bool-cases (contains s.in_flight p.id)) [
    | inl e ↦ rw e (refl, λ h. h)
    | inr e ↦
        let claimed = record s { in_flight = p.id ∷ s.in_flight } in
        let (flight, ids) = claimed-Keeps env P stable p claimed in
        rw e (
          ap (keep_if (λ other. not (text_eq other p.id))) flight
              ∙ ground (arith, text_eq_refl p.id, unclaimed p.id s.in_flight e),
          ids,
        )
  ]

  pub due-Keeps :
      (now : ℕ) (p : DeferredIssuance) (s : Poller) → Keeps P s (collect_due env now p s)
  unfolding collect_due
  due-Keeps now p s = elim (Bool-cases (ltb now p.next_attempt_at)) [
    | inl e ↦ rw e (refl, λ h. h)
    | inr e ↦ elim (Bool-cases (is_expired now p)) [
      | inl f ↦ rw (e, f) (abandon-Keeps env P stable p _ s)
      | inr f ↦ rw (e, f) (attempt-Keeps p s)
    ]
  ]
