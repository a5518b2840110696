-- ===== src/Deferred/Once.antt =====
-- What an attempt leaves of the only record: the record, nothing, or the import of its credential.
use eudi_dev.Base.{
  ℤ, Text, text_eq, text_eq_refl, contains, not, ◌&&◌, Option, none, some, Option-cases, Bool-cases,
  List, [], ◌∷◌, ◌++◌, keep_if, ◌≡◌, refl, sym, ◌∙◌, ap, subst, inl, inr,
}
use eudi_dev.Deferred.{
  DeferredIssuance, add_time, access_token_expired, can_refresh, interval, remove_deferred_issuance,
  update_deferred_issuance,
}
use eudi_dev.Deferred.Poller.{
  Poller, AttemptError, Issuer, DeferredAttempt, collected, already_running, still_waiting,
  abandoned, is_authorization_rejected, is_retryable_deferred_error, rescheduled,
  reschedule_deferred, abandon_deferred, handle_deferred_attempt_error, refreshed, with_tokens,
  refresh_deferred_access_token, finish_collection, ask_issuer, collect_with_token, collect_claimed,
  attempt_deferred_collection,
}
use eudi_dev.Deferred.Frame.{renewed-id, refreshed-id}

-- One record, with this id, and nothing imported.
abbrev pub IsAlone : Text → Poller → Type 0
IsAlone id s = (s.imported ≡ []) × (q : DeferredIssuance) × (s.issuances ≡ q ∷ []) × (q.id ≡ id)

-- What an attempt that reports this leaves of the only record: where it reports that the credential is
-- collected, one import and no record; where it gives up, neither; and else the record and no import.
abbrev pub IsOutcome : Text → Poller → DeferredAttempt → Type 0
IsOutcome id t collected = (t.issuances ≡ []) × (t.imported ≡ id ∷ [])
IsOutcome id t (abandoned reason) = (t.issuances ≡ []) × (t.imported ≡ [])
IsOutcome id t (still_waiting at reason) = IsAlone id t
IsOutcome id t already_running = IsAlone id t

remove_alone :
    (id : Text) (s : Poller) → IsAlone id s → remove_deferred_issuance id s.issuances ≡ []
unfolding remove_deferred_issuance
remove_alone id s (i, q, e, f) = rw (e, f, text_eq_refl id) refl

update_alone :
    (id other : Text) (apply : DeferredIssuance → DeferredIssuance)
    → other ≡ id
    → ((q : DeferredIssuance) → (apply q).id ≡ q.id)
    → (s : Poller) → IsAlone id s
    → (q : DeferredIssuance) × (update_deferred_issuance other apply s.issuances ≡ q ∷ [])
      × (q.id ≡ id)
unfolding update_deferred_issuance
update_alone id other apply same keeps s (i, q, e, f) =
    (apply q, rw (e, same, f, text_eq_refl id) refl, keeps q ∙ f)

module _ (env : Issuer) where
  reschedule-IsOutcome :
      (p : DeferredIssuance) (delay : ℤ) (e : Text) (s : Poller)
      → IsAlone p.id s
      → IsOutcome p.id
          (reschedule_deferred env p delay e s).0
          (reschedule_deferred env p delay e s).1
  unfolding reschedule_deferred rescheduled
  reschedule-IsOutcome p delay e s h =
      let next = add_time (env.clock p) delay in
      let (q, left, same) =
        update_alone p.id p.id (rescheduled next delay e) refl (λ q. refl) s h in
      (h.0, q, left, same)

  abandon-IsOutcome :
      (p : DeferredIssuance) (e : Text) (s : Poller)
      → IsAlone p.id s
      → IsOutcome p.id (abandon_deferred p e s).0 (abandon_deferred p e s).1
  unfolding abandon_deferred
  abandon-IsOutcome p e s h = (remove_alone p.id s h, h.0)

  error-IsOutcome :
      (p : DeferredIssuance) (err : AttemptError) (s : Poller)
      → IsAlone p.id s
      → IsOutcome p.id
          (handle_deferred_attempt_error env p err s).0
          (handle_deferred_attempt_error env p err s).1
  unfolding handle_deferred_attempt_error
  error-IsOutcome p err s h = elim (Option-cases err.still_pending) [
    | inl e ↦ elim (Bool-cases (is_retryable_deferred_error err.message)) [
      | inl r ↦
          rw (e, r, handle_deferred_attempt_error)
            (reschedule-IsOutcome p (interval p) err.message s h)
      | inr r ↦ rw (e, r, handle_deferred_attempt_error) (abandon-IsOutcome p err.message s h)
    ]
    | inr (delay, e) ↦ rw (e, handle_deferred_attempt_error) (reschedule-IsOutcome p delay [] s h)
  ]

  finish-IsOutcome :
      (p : DeferredIssuance) (err : Option AttemptError) (s : Poller)
      → IsAlone p.id s
      → IsOutcome p.id (finish_collection env p err s).0 (finish_collection env p err s).1
  unfolding finish_collection
  finish-IsOutcome p (some err) s h = error-IsOutcome p err s h
  finish-IsOutcome p none s h = elim (Option-cases (env.store p)) [
    | inl e ↦ rw (e, finish_collection) (remove_alone p.id s h, ap (λ l. l ++ p.id ∷ []) h.0)
    | inr (reason, e) ↦ rw (e, finish_collection) (abandon-IsOutcome p reason s h)
  ]

  refresh-IsAlone :
      (p : DeferredIssuance) (s : Poller)
      → IsAlone p.id s
      → IsAlone p.id (refresh_deferred_access_token env p s).0
  unfolding refresh_deferred_access_token
  refresh-IsAlone p s h = elim (Option-cases (env.refresh_access_token p).0) [
    | inl e ↦ rw (e, refresh_deferred_access_token) h
    | inr (g, e) ↦
        let updated = refreshed g (env.refresh_access_token p).1 p in
        let (q, left, same) =
          update_alone p.id updated.id (with_tokens updated)
            (refreshed-id g (env.refresh_access_token p).1 p) (λ q. refl) s h in
        rw (e, refresh_deferred_access_token) (h.0, q, left, same)
  ]

  -- The same where the record goes on with new tokens.
  renewed-IsOutcome :
      (p : DeferredIssuance) (s : Poller)
      (next : DeferredIssuance → Poller → Poller × DeferredAttempt)
      → ((q : DeferredIssuance) (t : Poller)
          → IsAlone q.id t
          → IsOutcome q.id (next q t).0 (next q t).1)
      → IsAlone p.id s
      → let r = refresh_deferred_access_token env p s in
        IsOutcome p.id (next r.1 r.0).0 (next r.1 r.0).1
  renewed-IsOutcome p s next keeps h =
      let r = refresh_deferred_access_token env p s in
      subst (λ i. IsOutcome i (next r.1 r.0).0 (next r.1 r.0).1) (renewed-id env p s)
        (keeps r.1 r.0
          (subst (λ i. IsAlone i r.0) (sym (renewed-id env p s)) (refresh-IsAlone p s h)))

  ask-IsOutcome :
      (p : DeferredIssuance) (s : Poller)
      → IsAlone p.id s
      → IsOutcome p.id (ask_issuer env p s).0 (ask_issuer env p s).1
  unfolding ask_issuer
  ask-IsOutcome p s h =
      let r = refresh_deferred_access_token env p s in
      elim (Option-cases (env.request p)) [
        | inl e ↦ rw (e, ask_issuer) (finish-IsOutcome p none s h)
        | inr (err, e) ↦
            elim (Bool-cases (is_authorization_rejected err.message && can_refresh p)) [
              | inr b ↦ rw (e, b, ask_issuer) (finish-IsOutcome p (some err) s h)
              | inl b ↦ elim (Option-cases r.2) [
                | inl f ↦
                    rw (e, b, f, ask_issuer)
                      (renewed-IsOutcome p s
                        (λ q t. finish_collection env q (env.second_request q) t)
                        (λ q t. finish-IsOutcome q (env.second_request q) t) h)
                | inr (x, f) ↦
                    rw (e, b, f, ask_issuer)
                      (finish-IsOutcome p (some err) r.0 (refresh-IsAlone p s h))
              ]
            ]
      ]

  token-IsOutcome :
      (p : DeferredIssuance) (s : Poller)
      → IsAlone p.id s
      → IsOutcome p.id (collect_with_token env p s).0 (collect_with_token env p s).1
  unfolding collect_with_token
  token-IsOutcome p s h = elim (Option-cases (env.read_metadata p)) [
    | inr (e, q) ↦ rw (q, collect_with_token) (reschedule-IsOutcome p (interval p) _ s h)
    | inl q ↦ elim (Option-cases (env.check_issuer p)) [
      | inr (e, r) ↦ rw (q, r, collect_with_token) (abandon-IsOutcome p e s h)
      | inl r ↦ elim (Option-cases (env.encryption p)) [
        | inr (e, t) ↦ rw (q, r, t, collect_with_token) (reschedule-IsOutcome p (interval p) e s h)
        | inl t ↦ rw (q, r, t, collect_with_token) (ask-IsOutcome p s h)
      ]
    ]
  ]

  claimed-IsOutcome :
      (p : DeferredIssuance) (s : Poller)
      → IsAlone p.id s
      → IsOutcome p.id (collect_claimed env p s).0 (collect_claimed env p s).1
  unfolding collect_claimed
  claimed-IsOutcome p s h =
      let r = refresh_deferred_access_token env p s in
      elim (Option-cases (env.proof_keys p)) [
        | inr (e, q) ↦ rw (q, collect_claimed) (abandon-IsOutcome p _ s h)
        | inl q ↦ elim (Bool-cases (access_token_expired (env.clock p) p && can_refresh p)) [
          | inr b ↦ rw (q, b, collect_claimed) (token-IsOutcome p s h)
          | inl b ↦ elim (Option-cases r.2) [
            | inl f ↦
                rw (q, b, f, collect_claimed)
                  (renewed-IsOutcome p s (λ q t. collect_with_token env q t)
                    (λ q t. token-IsOutcome q t) h)
            | inr (x, f) ↦
                rw (q, b, f, collect_claimed) (abandon-IsOutcome p _ r.0 (refresh-IsAlone p s h))
          ]
        ]
      ]

  -- The ids that are claimed play no part.
  flight-IsOutcome :
      (id : Text) (t : Poller) (ids : List Text) (a : DeferredAttempt)
      → IsOutcome id t a
      → IsOutcome id (record t { in_flight = ids }) a
  flight-IsOutcome id t ids collected h = h
  flight-IsOutcome id t ids (abandoned reason) h = h
  flight-IsOutcome id t ids (still_waiting at reason) h = h
  flight-IsOutcome id t ids already_running h = h

  pub attempt-IsOutcome :
      (p : DeferredIssuance) (s : Poller)
      → IsAlone p.id s
      → IsOutcome p.id
          (attempt_deferred_collection env p s).0
          (attempt_deferred_collection env p s).1
  unfolding attempt_deferred_collection
  attempt-IsOutcome p s h = elim (Bool-cases (contains s.in_flight p.id)) [
    | inl e ↦ rw (e, attempt_deferred_collection) h
    | inr e ↦
        let (after, a) = collect_claimed env p (record s { in_flight = p.id ∷ s.in_flight }) in
        rw (e, attempt_deferred_collection)
          (flight-IsOutcome p.id after (keep_if (λ id. not (text_eq id p.id)) after.in_flight) a
            (claimed-IsOutcome p (record s { in_flight = p.id ∷ s.in_flight }) h))
  ]
