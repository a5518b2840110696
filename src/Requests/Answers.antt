-- ===== src/Requests/Answers.antt =====
-- What the handlers of internal/wallet/server_requests.go answer, on every branch.
use eudi_dev.Base.{
  ℕ, Text, contains, lookup, true, false, ◌||◌, Option, none, some, Option-cases, Bool-cases, List,
  [], ◌∷◌, is_empty, ◌==◌, ==_iff, ◌≡◌, ◌≢◌, refl, subst, inl, inr, arith, ◌⊎◌,
}
use eudi_dev.Consent.Validate.{accepted, validate_consent_selection, debug_only_selection}
use eudi_dev.Dcql.Match.{ValidationMode}
use eudi_dev.Requests.{
  RequestStatus, approved, is_pending, Waiter, Decision, ConsentRequest, Runtime, update,
  send_result,
}
use eudi_dev.Requests.Handlers.{
  Caller, Approval, caller_owners, owns_request, given_picks, Reply, answered, is_strict,
  check_approval, refused_reply, answer_request, approval_result, handle_approve_request,
}
use eudi_dev.Requests.Steps.{World, initial, Reach}
use eudi_dev.Requests.Sound.{
  IsCoherent, undecided, in_flight, buffered, delivered, lapsed, status_of-not_pending,
  lookup-IsListed,
}
use eudi_dev.Requests.Kept.{Reach-IsSound}
use eudi_dev.Requests.Invariant.{
  IsSound, resolved, resolve_request-missing, resolve_request-decided, resolve_request-pending,
}

-- What an approval has passed when `check_approval` lets it through.
pub record IsChecked (mode : ValidationMode) (caller : Caller) (body : Approval)
    (r : ConsentRequest) : Type 0 where
  pub owned : owns_request (caller_owners caller) r caller.named ≡ true
  pub offered :
      (is_empty body.configuration_id || contains r.offer_configs body.configuration_id) ≡ true
  pub valid :
      validate_consent_selection r.credential_options
        (given_picks body.picks)
        body.set_choices
        body.claim_sets
      ≡ accepted
  pub matching :
      is_strict mode ≡ true
      → debug_only_selection r.credential_options (given_picks body.picks) body.claim_sets ≡ false

check_approval-IsChecked :
    (mode : ValidationMode) (caller : Caller) (body : Approval) (r : ConsentRequest)
    → check_approval mode caller body r ≡ none
    → IsChecked mode caller body r
unfolding check_approval
check_approval-IsChecked mode caller body r e = grind arith

pending-empty :
    (r : ConsentRequest) (w : Waiter) (s : List Decision)
    → is_pending r.status ≡ true
    → IsCoherent r w s
    → r.result_ch ≡ []
pending-empty r w s p (undecided a b c e) = b
pending-empty r w s p (in_flight d a b c e) = b
pending-empty r w s p (buffered d a b c e) = absurd (ground (arith, status_of-not_pending d))
pending-empty r w s p (delivered d a b c e) = b
pending-empty r w s p (lapsed a b c e) = b

check_approval-refused :
    (mode : ValidationMode) (caller : Caller) (body : Approval) (r : ConsentRequest) (reply : Reply)
    → check_approval mode caller body r ≡ some reply
    → (a : ℕ) → reply ≢ answered a
unfolding check_approval
check_approval-refused mode caller body r reply e a q = grind arith

-- A request that was pending now has this status and the result in its channel, and the others are
-- as they were.
pub record IsAnswered (id : Text) (status : RequestStatus) (d : Decision) (rt after : Runtime)
    (a : ℕ) : Type 0 where
  pub registered : lookup id rt.requests ≡ some a
  pub was_pending : is_pending (rt.heap a).status ≡ true
  pub decided : (after.heap a).status ≡ status
  pub result : (after.heap a).result_ch ≡ d ∷ []
  pub options : (after.heap a).credential_options ≡ (rt.heap a).credential_options
  pub others : (b : ℕ) → (a == b) ≡ false → after.heap b ≡ rt.heap b

-- The two ends of a handler: nothing is changed and the reply is a refusal, or the request at the
-- address that the reply names is answered.
abbrev pub IsOutcome : Text → RequestStatus → Decision → Runtime → Runtime → Reply → Type 0
IsOutcome id status d rt after reply =
    ((after ≡ rt) × ((a : ℕ) → reply ≢ answered a))
    ⊎ ((a : ℕ) × (reply ≡ answered a) × IsAnswered id status d rt after a)

refused_reply-not_answered : (rt : Runtime) (o : Option ℕ) (a : ℕ) → refused_reply rt o ≢ answered a
unfolding refused_reply
refused_reply-not_answered rt none a = cc
refused_reply-not_answered rt (some b) a = cc

sent_to :
    (id : Text) (status : RequestStatus) (d : Decision) (rt after : Runtime) (a : ℕ)
    → lookup id rt.requests ≡ some a
    → is_pending (rt.heap a).status ≡ true
    → send_result a d (resolved a status rt) ≡ some after
    → IsAnswered id status d rt after a
unfolding send_result
sent_to id status d rt after a e p s = record {
  registered = e;
  was_pending = p;
  decided = grind (arith, ==_iff a a);
  result = grind (arith, ==_iff a a);
  options = grind (arith, ==_iff a a);
  others = λ b n. grind arith;
}

-- The pending requests of the registry have an empty channel.
abbrev pub HaveEmptyChannels : Runtime → Type 0
HaveEmptyChannels rt =
    (id : Text) (a : ℕ)
    → lookup id rt.requests ≡ some a
    → is_pending (rt.heap a).status ≡ true
    → (rt.heap a).result_ch ≡ []

abbrev pub answered_world : ℕ → RequestStatus → Decision → Runtime → Runtime
answered_world a status d rt =
    let r = (resolved a status rt).heap a in
    record (resolved a status rt) {
      heap = update (resolved a status rt).heap a (record r { result_ch = d ∷ [] });
    }

send_result-resolved :
    (a : ℕ) (status : RequestStatus) (d : Decision) (rt : Runtime)
    → (rt.heap a).result_ch ≡ []
    → send_result a d (resolved a status rt) ≡ some (answered_world a status d rt)
unfolding send_result
send_result-resolved a status d rt e = grind (arith, ==_iff a a)

answer_request-IsOutcome :
    (id : Text) (status : RequestStatus) (d : Decision) (rt : Runtime)
    → HaveEmptyChannels rt
    → (after : Runtime) × (reply : Reply) × (answer_request id status d rt ≡ some (after, reply))
      × IsOutcome id status d rt after reply
unfolding answer_request
answer_request-IsOutcome id status d rt empty = elim (Option-cases (lookup id rt.requests)) [
  | inl q ↦ (
    rt,
    refused_reply rt none,
    grind (arith, resolve_request-missing id status rt q),
    inl (refl, refused_reply-not_answered rt none),
  )
  | inr (a, q) ↦ elim (Bool-cases (is_pending (rt.heap a).status)) [
    | inl p ↦
        let s = send_result-resolved a status d rt (empty id a q p) in
        (
          answered_world a status d rt,
          answered a,
          grind (arith, resolve_request-pending id status rt a q p, s),
          inr (a, refl, sent_to id status d rt (answered_world a status d rt) a q p s),
        )
    | inr p ↦ (
      rt,
      refused_reply rt (some a),
      grind (arith, resolve_request-decided id status rt a q p),
      inl (refl, refused_reply-not_answered rt (some a)),
    )
  ]
]

-- The two ends of an approval.
abbrev pub IsApproval :
    ValidationMode → Caller → Text → Approval → Runtime → Runtime → Reply → Type 0
IsApproval mode caller id body rt after reply =
    ((after ≡ rt) × ((a : ℕ) → reply ≢ answered a))
    ⊎ ((a : ℕ) × (reply ≡ answered a)
        × IsChecked mode caller body (rt.heap a)
        × IsAnswered id approved (approval_result caller body) rt after a)

checked_outcome :
    (mode : ValidationMode) (caller : Caller) (id : Text) (body : Approval) (rt after : Runtime)
    (reply : Reply)
    → ((a : ℕ) → lookup id rt.requests ≡ some a → IsChecked mode caller body (rt.heap a))
    → IsOutcome id approved (approval_result caller body) rt after reply
    → IsApproval mode caller id body rt after reply
checked_outcome mode caller id body rt after reply checked (inl o) = inl o
checked_outcome mode caller id body rt after reply checked (inr (a, e, h)) =
    inr (a, e, checked a h.registered, h)

approve-IsApproval :
    (mode : ValidationMode) (caller : Caller) (id : Text) (body : Approval) (rt : Runtime)
    → HaveEmptyChannels rt
    → (after : Runtime) × (reply : Reply) × (handle_approve_request mode caller id (some body) rt
        ≡ some (after, reply))
      × IsApproval mode caller id body rt after reply
unfolding handle_approve_request
approve-IsApproval mode caller id body rt empty =
    let (after, reply, e, outcome) =
      answer_request-IsOutcome id approved (approval_result caller body) rt empty in
    elim (Option-cases (lookup id rt.requests)) [
      | inl q ↦ (
        after,
        reply,
        grind arith,
        checked_outcome mode caller id body rt after reply (λ a l. absurd (cc)) outcome,
      )
      | inr (a, q) ↦ elim (Option-cases (check_approval mode caller body (rt.heap a))) [
        | inl c ↦ (
          after,
          reply,
          grind arith,
          checked_outcome mode caller id body rt after reply
              (λ b l.
                subst (λ n. IsChecked mode caller body (rt.heap n)) (grind arith)
                  (check_approval-IsChecked mode caller body (rt.heap a) c))
              outcome,
        )
        | inr (refusal, c) ↦ (
          rt,
          refusal,
          grind arith,
          inl (refl, check_approval-refused mode caller body (rt.heap a) refusal c),
        )
      ]
    ]

reachable-HaveEmptyChannels : (w : World) → IsSound w → HaveEmptyChannels w.runtime
reachable-HaveEmptyChannels w inv id a e p =
    pending-empty (w.runtime.heap a) (w.waiters a) (w.sending a) p
      (inv.each a (lookup-IsListed w.runtime id a w.runtime.requests inv.listed e).0)

-- In every reachable world, the approval of a request by a body that is JSON does not block, and ends in
-- one of two ways. Either nothing changes and the reply is a refusal. Or the request was pending, the
-- caller owns it, the offer lists the configuration that the body names, the selection is valid, and
-- strict mode has no selection for debug mode: the request is now approved, its channel holds the
-- result of the approval, and no other request has changed.
pub handle_approve_request-outcome :
    {nothing : ConsentRequest} {w : World} (mode : ValidationMode) (caller : Caller) (id : Text)
    (body : Approval)
    → Reach (initial nothing) w
    → (after : Runtime) × (reply : Reply) × (handle_approve_request mode caller id
          (some body)
          w.runtime
        ≡ some (after, reply))
      × IsApproval mode caller id body w.runtime after reply
handle_approve_request-outcome {w} mode caller id body r =
    approve-IsApproval mode caller id body w.runtime
      (reachable-HaveEmptyChannels w (Reach-IsSound r))
