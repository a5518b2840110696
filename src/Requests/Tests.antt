-- ===== src/Requests/Tests.antt =====
-- Runs of the registry, and the theorems at concrete inputs.
use eudi_dev.Base.{
  ◌>>=◌, ◌≡◌, ◌≢◌, refl, Text, codes, text_eq, contains, lookup, insert, true, Option, none, some,
  List, [], ◌∷◌, arith,
}
use eudi_dev.Consent.Validate.{validate_consent_selection, debug_only_selection}
use eudi_dev.Consent.Apply.{apply_consent_selection, apply_selected_claims}
use eudi_dev.Dcql.Match.{strict, CredentialMatch}
use eudi_dev.Base.Trim.{trim_start, trim_space}
use eudi_dev.Requests.{
  pending, approved, Decision, ConsentRequest, Runtime, update, is_stale, create_consent_request,
  resolve_request, get_pending_requests, subscribe, unsubscribe, send_result, receive_result,
  selecting, committed, returned, time_out_consent,
}
use eudi_dev.Requests.Handlers.{
  bounded_owner, presented_owner, request_owner, caller_owners, owns_request, Caller, Approval,
  given_picks, Reply, bad_request, not_found, conflict, answered, refusal_reason, check_approval,
  refused_reply, answer_request, approval_result, handle_approve_request, handle_deny_request,
  consented_matches,
}
use eudi_dev.Requests.Steps.{
  World, initial, create, resolve, send, receive, time_out, Reach, here, next,
}
use eudi_dev.Requests.Outcome.{
  outcome_status, returned-outcome, send_result-ready, awaiting-returns,
}
use eudi_dev.Requests.Delivery.{resolved-returned}
use eudi_dev.Requests.Answers.{IsApproval, handle_approve_request-outcome}
use eudi_dev.Requests.Consented.{approved-consents}

everything : Unit {0}
unfolding text_eq contains lookup insert is_stale create_consent_request resolve_request
    get_pending_requests subscribe unsubscribe send_result receive_result time_out_consent
    trim_start trim_space bounded_owner presented_owner request_owner caller_owners owns_request
    given_picks refusal_reason check_approval refused_reply answer_request approval_result
    handle_approve_request handle_deny_request consented_matches validate_consent_selection
    debug_only_selection apply_consent_selection apply_selected_claims
everything = tt

abbrev request : Text → ConsentRequest
request id = record {
  id = id;
  owner = codes "tab";
  status = pending;
  created_at = 5;
  offer_configs = codes "pid" ∷ [];
  credential_options = none;
  result_ch = [];
}

abbrev tab : Caller
tab = record { session = []; header = codes " tab "; query = []; named = [] }

abbrev stranger : Caller
stranger = record { session = codes "other"; header = []; query = []; named = [] }

abbrev body : Approval
body = record {
  selected_claims = [];
  tx_code = codes " 1234 ";
  configuration_id = codes "pid";
  picks = (codes "q", none) ∷ [];
  set_choices = [];
  claim_sets = [];
}

abbrev yes_result : Decision
yes_result = record {
  is_approved = true;
  owner = codes "tab";
  selected_claims = [];
  tx_code = codes "1234";
  configuration_id = codes "pid";
  selection = record { picks = []; set_choices = []; claim_set_choices = [] };
}

abbrev empty_runtime : Runtime
empty_runtime = (initial (request [])).runtime

-- A request is made, a handler approves it, the timeout fires, and the result is sent and received.
abbrev asked : World
unfolding everything
asked = record {
  runtime = (create_consent_request 7 (request (codes "r1")) empty_runtime).0;
  waiters = update (initial (request [])).waiters 0 selecting;
  sending = update (initial (request [])).sending 0 [];
}

abbrev asked_runtime : Runtime
asked_runtime = asked.runtime

unfoldable approves : Option (Runtime × Reply) → Option Reply
approves none = none
approves (some x) = some x.1

approve_replies :
    approves (handle_approve_request strict tab (codes "r1") (some body) asked_runtime)
    ≡ some (answered 0)
unfolding everything approves
approve_replies = refl

approve_conflict :
    (handle_approve_request strict tab (codes "r1") (some body) asked_runtime >>= λ done.
    approves (handle_approve_request strict tab (codes "r1") (some body) done.0))
    ≡ some (conflict (codes "This request was already answered"))
unfolding everything approves
approve_conflict = refl

expired_conflict :
    approves (handle_deny_request tab (codes "r1") (time_out_consent 0 asked_runtime).0)
    ≡ some (conflict (codes "This request timed out before it was answered"))
unfolding everything approves
expired_conflict = refl

trimmed :
    trim_space (0xE2 ∷ 0x80 ∷ 0x89 ∷ 9 ∷ 65 ∷ 32 ∷ 66 ∷ 0xC2 ∷ 0xA0 ∷ 32 ∷ []) ≡ 65 ∷ 32 ∷ 66 ∷ []
unfolding everything
trimmed = refl

approve_stranger :
    approves (handle_approve_request strict stranger (codes "r1") (some body) asked_runtime)
    ≡ some not_found
unfolding everything approves
approve_stranger = refl

approve_unlisted :
    approves (
      handle_approve_request strict tab
        (codes "r1")
        (some (record body { configuration_id = codes "mdl" }))
        asked_runtime)
    ≡ some bad_request
unfolding everything approves
approve_unlisted = refl

approval_sent : approval_result tab body ≡ yes_result
unfolding everything
approval_sent = refl

asked-Reach : Reach (initial (request [])) asked
unfolding everything
asked-Reach = next here (
    create (initial (request [])) 7 (request (codes "r1")) refl refl (λ b lt. absurd (omega arith))
      (λ b lt. absurd (omega arith)))

abbrev approved_runtime : Runtime
unfolding everything
approved_runtime = (resolve_request (codes "r1") approved asked.runtime).0

approved-resolves :
    resolve_request (codes "r1") approved asked.runtime ≡ (approved_runtime, some 0, true)
unfolding everything
approved-resolves = refl

abbrev approved_world : World
approved_world = record asked {
  runtime = approved_runtime;
  sending = update asked.sending 0 (yes_result ∷ []);
}

approved-Reach : Reach (initial (request [])) approved_world
unfolding everything
approved-Reach =
    next asked-Reach (resolve asked (codes "r1") yes_result 0 approved_runtime approved-resolves)

abbrev late_world : World
unfolding everything
late_world = record approved_world {
  runtime = (time_out_consent 0 approved_runtime).0;
  waiters = update approved_world.waiters 0 committed;
}

late-Reach : Reach approved_world late_world
unfolding everything
late-Reach = next here (time_out approved_world 0 (omega arith) refl)

abbrev sent_runtime : Runtime
unfolding everything
sent_runtime = record approved_runtime {
  heap =
      update approved_runtime.heap 0
        (record (approved_runtime.heap 0) { result_ch = yes_result ∷ [] });
}

abbrev sent_world : World
sent_world = record late_world { runtime = sent_runtime; sending = update late_world.sending 0 [] }

sent-Reach : Reach approved_world sent_world
unfolding everything
sent-Reach = next late-Reach (send late_world 0 yes_result [] sent_runtime (omega arith) refl refl)

abbrev done_runtime : Runtime
unfolding everything
done_runtime = record sent_runtime {
  heap = update sent_runtime.heap 0 (record (sent_runtime.heap 0) { result_ch = [] });
}

abbrev done_world : World
done_world = record sent_world {
  runtime = done_runtime;
  waiters = update sent_world.waiters 0 (returned (some yes_result));
}

done-Reach : Reach approved_world done_world
unfolding everything
done-Reach = next sent-Reach (receive sent_world 0 yes_result done_runtime (omega arith) refl refl)

joined : {u v w : World} → Reach u v → Reach v w → Reach u w
joined r here = r
joined r (next s st) = next (joined r s) st

approve_sends :
    handle_approve_request strict tab (codes "r1") (some body) asked.runtime
    ≡ some (sent_runtime, answered 0)
unfolding everything
approve_sends = refl

returned-outcome_example :
    ((done_world.runtime.heap 0).status ≡ outcome_status (some yes_result))
    × ((done_world.runtime.heap 0).result_ch ≡ [])
    × (done_world.sending 0 ≡ [])
unfolding done_runtime
returned-outcome_example =
    returned-outcome 0 (some yes_result) (joined approved-Reach done-Reach) (omega arith) refl

send_result-ready_example :
    (◌≡◌ {A = List Decision} [] []) × (send_result 0 yes_result late_world.runtime ≢ none)
unfolding late_world
send_result-ready_example =
    send_result-ready 0 yes_result [] (joined approved-Reach late-Reach) (omega arith) refl

awaiting-returns_example :
    (v : World) × (o : Option Decision) × Reach late_world v × (v.waiters 0 ≡ returned o)
unfolding late_world
awaiting-returns_example = awaiting-returns 0 (joined approved-Reach late-Reach) (omega arith)

resolved-returned_example : some yes_result ≡ some yes_result
unfolding asked
resolved-returned_example =
    resolved-returned (codes "r1") yes_result 0 approved_runtime (some yes_result) asked-Reach
      approved-resolves done-Reach refl

handle_approve_request-outcome_example :
    (after : Runtime) × (reply : Reply) × (handle_approve_request strict tab
        (codes "r1")
        (some body)
        asked.runtime
      ≡ some (after, reply))
    × IsApproval strict tab (codes "r1") body asked.runtime after reply
handle_approve_request-outcome_example =
    handle_approve_request-outcome strict tab (codes "r1") body asked-Reach

approved-consents_example :
    (d : Decision) × (chosen : List CredentialMatch) × ((sent_runtime.heap 0).result_ch ≡ d ∷ [])
    × (consented_matches [] strict (sent_runtime.heap 0) [] d ≡ some chosen)
approved-consents_example =
    approved-consents strict tab (codes "r1") body sent_runtime 0 [] [] asked-Reach approve_sends
