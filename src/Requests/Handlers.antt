-- ===== src/Requests/Handlers.antt =====
-- internal/wallet/server_requests.go and server_owner.go: the handlers that answer a request.
use eudi_dev.Base.{
  ◌>>=◌, ℕ, ℤ, Text, codes, text_eq, contains, Bool, true, false, not, ◌&&◌, ◌||◌, Option, none,
  some, List, [], ◌∷◌, ◌++◌, is_empty, length, if◌then◌else◌, ltb,
}
use eudi_dev.Base.Trim.{trim_space}
use eudi_dev.Credential.{StoredCredential}
use eudi_dev.Consent.Apply.{apply_consent_selection, apply_selected_claims}
use eudi_dev.Consent.Validate.{accepted, refused, validate_consent_selection, debug_only_selection}
use eudi_dev.Dcql.Match.{ValidationMode, strict, CredentialMatch}
use eudi_dev.Requests.{
  RequestStatus, approved, denied, expired, Decision, ConsentRequest, Runtime, get_request,
  resolve_request, send_result,
}

-- `boundedOwner`.
unfoldable pub bounded_owner : Text → Text
bounded_owner value = let owner = trim_space value in if ltb 128 (length owner) then [] else owner

-- What a caller presents: its session cookie, the owner header and the owner of the query string,
-- as `namedRequest` gives it the request that the page's address names. Absent ones are empty.
pub record Caller : Type 0 where
  pub session : Text
  pub header : Text
  pub query : Text
  pub named : Text

-- `presentedOwner`.
unfoldable pub presented_owner : Caller → Text
presented_owner c =
    if is_empty (bounded_owner c.header) then bounded_owner c.query else bounded_owner c.header

-- `requestOwner`.
unfoldable pub request_owner : Caller → Text
request_owner c = if is_empty (bounded_owner c.header) then c.session else bounded_owner c.header

-- `callerOwners`.
unfoldable pub caller_owners : Caller → List Text
caller_owners c =
    let owners = if is_empty c.session then [] else c.session ∷ [] in
    let token = presented_owner c in
    if not (is_empty token) && not (contains owners token) then owners ++ token ∷ [] else owners

-- `ownsRequest` of a request that is not nil.
unfoldable pub owns_request : List Text → ConsentRequest → Text → Bool
owns_request owners r named =
    is_empty r.owner || contains owners r.owner || (not (is_empty named) && text_eq r.id named)

-- The body of an approval. A pick of null is `none`.
pub record Approval : Type 0 where
  pub selected_claims : List (Text × List Text)
  pub tx_code : Text
  pub configuration_id : Text
  pub picks : List (Text × Option (List Text))
  pub set_choices : List ℤ
  pub claim_sets : List (Text × ℤ)

-- The loop over `body.Picks`, which leaves out null.
unfoldable pub given_picks : List (Text × Option (List Text)) → List (Text × List Text)
given_picks [] = []
given_picks ((qid, pick) ∷ picks) =
    let rest = given_picks picks in elim pick [ none ↦ rest | some ids ↦ (qid, ids) ∷ rest ]

-- What the handlers answer with at once, or the request whose submission they go on to wait for.
pub data Reply : Type 0 where
  bad_request not_found : Reply
  conflict : Text → Reply
  answered : ℕ → Reply

-- `refusalReason`.
unfoldable pub refusal_reason : RequestStatus → Text
refusal_reason expired = codes "This request timed out before it was answered"
refusal_reason _ = codes "This request was already answered"

-- `s.wallet.Mode() == ValidationModeStrict`.
abbrev pub is_strict : ValidationMode → Bool
is_strict strict = true
is_strict _ = false

-- The checks on an approval of a request that is registered; `none` lets it pass.
unfoldable pub check_approval : ValidationMode → Caller → Approval → ConsentRequest → Option Reply
check_approval mode caller body r =
    let picks = given_picks body.picks in
    if not (owns_request (caller_owners caller) r caller.named)
    then some not_found
    else if not (is_empty body.configuration_id)
        && not (contains r.offer_configs body.configuration_id)
    then some bad_request
    else elim (validate_consent_selection r.credential_options picks body.set_choices
        body.claim_sets) [
          | refused e ↦ some bad_request
          | accepted ↦
              if is_strict mode && debug_only_selection r.credential_options picks body.claim_sets
              then some bad_request
              else none
        ]

-- The reply to an answer that `ResolveRequest` refuses.
unfoldable pub refused_reply : Runtime → Option ℕ → Reply
refused_reply rt none = not_found
refused_reply rt (some a) = conflict (refusal_reason (rt.heap a).status)

-- What both handlers do from `ResolveRequest` on, up to the wait for the submission.
unfoldable pub answer_request : Text → RequestStatus → Decision → Runtime → Option (Runtime × Reply)
answer_request id status d rt =
    let (after, found, ok) = resolve_request id status rt in
    if ok
    then (found >>= λ a. send_result a d after >>= λ sent. some (sent, answered a))
    else some (after, refused_reply after found)

-- The result that an approval sends.
unfoldable pub approval_result : Caller → Approval → Decision
approval_result caller body = record {
  is_approved = true;
  owner = request_owner caller;
  selected_claims = body.selected_claims;
  tx_code = trim_space body.tx_code;
  configuration_id = body.configuration_id;
  selection = record {
    picks = given_picks body.picks;
    set_choices = body.set_choices;
    claim_set_choices = body.claim_sets;
  };
}

-- `handleApproveRequest` up to the wait for the submission. `none` for the body is one that is no
-- JSON, and `none` for the result a send that blocks.
unfoldable pub handle_approve_request :
    ValidationMode → Caller → Text → Option Approval → Runtime → Option (Runtime × Reply)
handle_approve_request mode caller id none rt = some (rt, bad_request)
handle_approve_request mode caller id (some body) rt =
    let answer = answer_request id approved (approval_result caller body) rt in
    elim (get_request id rt) [
      | none ↦ answer
      | some a ↦ elim (check_approval mode caller body (rt.heap a)) [
        | some reply ↦ some (rt, reply)
        | none ↦ answer
      ]
    ]

-- `ConsentResult{Approved: false}`.
abbrev pub denial : Decision
denial = record {
  is_approved = false;
  owner = [];
  selected_claims = [];
  tx_code = [];
  configuration_id = [];
  selection = record { picks = []; set_choices = []; claim_set_choices = [] };
}

-- `handleDenyRequest` up to the wait for the submission.
unfoldable pub handle_deny_request : Caller → Text → Runtime → Option (Runtime × Reply)
handle_deny_request caller id rt =
    let answer = answer_request id denied denial rt in
    elim (get_request id rt) [
      | none ↦ answer
      | some a ↦
          if owns_request (caller_owners caller) (rt.heap a) caller.named
          then answer
          else some (rt, not_found)
    ]

-- `consentedMatches`; `none` is a panic.
unfoldable pub consented_matches :
    List StoredCredential
    → ValidationMode
    → ConsentRequest
    → List CredentialMatch
    → Decision
    → Option (List CredentialMatch)
consented_matches creds mode r matches d =
    apply_consent_selection r.credential_options matches d.selection >>= λ chosen.
    some (apply_selected_claims creds mode chosen d.selected_claims)
