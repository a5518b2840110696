-- ===== src/Requests/Consented.antt =====
-- An approval that internal/wallet/server_requests.go accepts, and the flow that takes its result.
use eudi_dev.Base.{
  ℕ, Text, true, not, ◌&&◌, Option, none, some, Bool-cases, List, [], ◌∷◌, is_empty, ◌≡◌, refl, sym,
  ◌∙◌, subst, inl, inr, arith,
}
use eudi_dev.Credential.{StoredCredential}
use eudi_dev.Consent.{ConsentResult}
use eudi_dev.Consent.Validate.{accepted, validate_consent_selection}
use eudi_dev.Dcql.Match.{ValidationMode, CredentialMatch}
use eudi_dev.Requests.{approved, Decision, ConsentRequest, Runtime}
use eudi_dev.Requests.Handlers.{
  Caller, Approval, Reply, answered, approval_result, handle_approve_request, consented_matches,
}
use eudi_dev.Requests.Steps.{World, initial, Reach}
use eudi_dev.Consent.Apply.{
  apply_consent_selection, select_credentials, apply_claim_set_choices, apply_selected_claims,
}
use eudi_dev.Consent.Apply.Served.{select_credentials-IsServed}
use eudi_dev.Dcql.Options.{ConsentCredentialOptions}
use eudi_dev.Requests.Answers.{IsChecked, IsAnswered, IsApproval, handle_approve_request-outcome}

answered-injective : (a b : ℕ) → answered a ≡ answered b → a ≡ b
answered-injective a b e = ground arith

unchosen :
    (options : ConsentCredentialOptions) (matches : List CredentialMatch) (result : ConsentResult)
    → (is_empty result.picks && is_empty result.set_choices) ≡ true
    → select_credentials options matches result ≡ some matches
unfolding select_credentials
unchosen options matches result e = ground arith

checked-selects :
    (options : Option ConsentCredentialOptions) (matches : List CredentialMatch)
    (result : ConsentResult)
    → validate_consent_selection options result.picks result.set_choices result.claim_set_choices
      ≡ accepted
    → (chosen : List CredentialMatch) × (apply_consent_selection options matches result
        ≡ some chosen)
unfolding validate_consent_selection apply_consent_selection
checked-selects none matches result h = (matches, refl)
checked-selects (some options) matches result h =
    elim (Bool-cases (is_empty result.picks && is_empty result.set_choices)) [
      | inl e ↦ (
        apply_claim_set_choices result.claim_set_choices matches,
        rw (unchosen options matches result e) refl,
      )
      | inr e ↦
          let (selected, is, served) = select_credentials-IsServed options matches result h e in
          (apply_claim_set_choices result.claim_set_choices selected, rw is refl)
    ]

checked-consents :
    (creds : List StoredCredential) (mode : ValidationMode) (caller : Caller) (body : Approval)
    (r after : ConsentRequest) (matches : List CredentialMatch)
    → IsChecked mode caller body r
    → after.credential_options ≡ r.credential_options
    → (chosen : List CredentialMatch) × (consented_matches creds mode after matches
          (approval_result caller body)
        ≡ some chosen)
unfolding consented_matches approval_result
checked-consents creds mode caller body r after matches h e =
    let (chosen, is) =
      checked-selects r.credential_options matches (approval_result caller body).selection
        h.valid in
    (apply_selected_claims creds mode chosen body.selected_claims, rw (e, is) refl)

approval-consents :
    (mode : ValidationMode) (caller : Caller) (id : Text) (body : Approval) (rt after : Runtime)
    (a : ℕ) (reply : Reply) (creds : List StoredCredential) (matches : List CredentialMatch)
    → reply ≡ answered a
    → IsApproval mode caller id body rt after reply
    → (d : Decision) × (chosen : List CredentialMatch) × ((after.heap a).result_ch ≡ d ∷ [])
      × (consented_matches creds mode (after.heap a) matches d ≡ some chosen)
approval-consents mode caller id body rt after a reply creds matches q (inl (same, not)) =
    absurd (not a q)
approval-consents mode caller id body rt after a reply creds matches q (inr (b, e, checked, h)) =
    let at =
      subst (λ n. IsAnswered id approved (approval_result caller body) rt after n)
        (answered-injective b a (sym e ∙ q)) h in
    let ok =
      subst (λ n. IsChecked mode caller body (rt.heap n)) (answered-injective b a (sym e ∙ q))
        checked in
    let (chosen, is) =
      checked-consents creds mode caller body (rt.heap a) (after.heap a) matches ok at.options in
    (approval_result caller body, chosen, at.result, is)

-- In every reachable world, where the approval of a request is answered with the request's address, the
-- request's channel holds one result, and with that result the flow's selection of credentials and
-- claims does not panic, whatever credentials are stored and whatever matches the flow has.
pub approved-consents :
    {nothing : ConsentRequest} {w : World} (mode : ValidationMode) (caller : Caller) (id : Text)
    (body : Approval) (after : Runtime) (a : ℕ) (creds : List StoredCredential)
    (matches : List CredentialMatch)
    → Reach (initial nothing) w
    → handle_approve_request mode caller id (some body) w.runtime ≡ some (after, answered a)
    → (d : Decision) × (chosen : List CredentialMatch) × ((after.heap a).result_ch ≡ d ∷ [])
      × (consented_matches creds mode (after.heap a) matches d ≡ some chosen)
approved-consents {w} mode caller id body after a creds matches r e =
    let (after', reply, is, outcome) = handle_approve_request-outcome mode caller id body r in
    approval-consents mode caller id body w.runtime after a reply creds matches (grind arith)
      (subst (λ rt. IsApproval mode caller id body w.runtime rt reply) (grind arith) outcome)
