-- ===== src/Requests/Outcome.antt =====
-- What the flow of a request returns, and that it can.
use eudi_dev.Base.{ℕ, ◌<◌, true, Option, none, some, List, [], ◌∷◌, ==_iff, ◌≡◌, ◌≢◌, ap, arith}
use eudi_dev.Requests.{
  RequestStatus, expired, is_pending, Decision, ConsentRequest, Runtime, update, send_result,
  receive_result, Waiter, selecting, returned,
}
use eudi_dev.Requests.Steps.{
  World, status_of, initial, is_waiting, Step, send, receive, time_out, Reach, here, next,
}
use eudi_dev.Requests.Sound.{IsCoherent, undecided, in_flight, buffered, delivered, lapsed}
use eudi_dev.Requests.Invariant.{IsSound}
use eudi_dev.Requests.Kept.{Reach-IsSound, time_out_consent-expired}

-- The status of a request whose flow returned this.
abbrev pub outcome_status : Option Decision → RequestStatus
outcome_status none = expired
outcome_status (some d) = status_of d

pub outcome-coherent :
    (r : ConsentRequest) (w : Waiter) (s : List Decision) (o : Option Decision)
    → IsCoherent r w s
    → w ≡ returned o
    → (r.status ≡ outcome_status o) × (r.result_ch ≡ []) × (s ≡ [])
outcome-coherent r w s o (undecided a b c e) q = absurd (cc)
outcome-coherent r w s o (in_flight d a b c e) q = absurd (ground arith)
outcome-coherent r w s o (buffered d a b c e) q = absurd (ground arith)
outcome-coherent r w s o (delivered d a b c e) q = ground arith
outcome-coherent r w s o (lapsed a b c e) q = ground arith

-- In every reachable world, a flow that returned a result did so with the status its request has:
-- approved or denied as the result says, or expired where the wait timed out. No further result is
-- in the request's channel or about to be sent.
pub returned-outcome :
    {nothing : ConsentRequest} {w : World} (a : ℕ) (o : Option Decision)
    → Reach (initial nothing) w
    → a < w.runtime.next
    → w.waiters a ≡ returned o
    → ((w.runtime.heap a).status ≡ outcome_status o)
      × ((w.runtime.heap a).result_ch ≡ [])
      × (w.sending a ≡ [])
returned-outcome {w} a o r lt e =
    outcome-coherent (w.runtime.heap a) (w.waiters a) (w.sending a) o ((Reach-IsSound r).each a lt)
      e

send-ready :
    (r : ConsentRequest) (w : Waiter) (s ds : List Decision) (d : Decision)
    → IsCoherent r w s
    → s ≡ d ∷ ds
    → (r.result_ch ≡ []) × (ds ≡ [])
send-ready r w s ds d (undecided a b c e) q = absurd (cc)
send-ready r w s ds d (in_flight d' a b c e) q = ground arith
send-ready r w s ds d (buffered d' a b c e) q = absurd (cc)
send-ready r w s ds d (delivered d' a b c e) q = absurd (cc)
send-ready r w s ds d (lapsed a b c e) q = absurd (cc)

sent : ℕ → Decision → Runtime → Runtime
sent a d rt = record rt { heap = update rt.heap a (record (rt.heap a) { result_ch = d ∷ [] }) }

send_result-sent :
    (a : ℕ) (d : Decision) (rt : Runtime)
    → (rt.heap a).result_ch ≡ []
    → send_result a d rt ≡ some (sent a d rt)
unfolding send_result sent
send_result-sent a d rt e = ground arith

-- In every reachable world, a handler that has resolved a request is alone in doing so, and the
-- send of its result does not block.
pub send_result-ready :
    {nothing : ConsentRequest} {w : World} (a : ℕ) (d : Decision) (ds : List Decision)
    → Reach (initial nothing) w
    → a < w.runtime.next
    → w.sending a ≡ d ∷ ds
    → (ds ≡ []) × (send_result a d w.runtime ≢ none)
send_result-ready {w} a d ds r lt e =
    let (empty, alone) =
      send-ready (w.runtime.heap a) (w.waiters a) (w.sending a) ds d ((Reach-IsSound r).each a lt)
        e in
    (alone, λ blocked. ground (arith, send_result-sent a d w.runtime empty))

taken : ℕ → Runtime → Runtime
taken a rt = record rt { heap = update rt.heap a (record (rt.heap a) { result_ch = [] }) }

receive_result-taken :
    (a : ℕ) (d : Decision) (rt : Runtime)
    → (rt.heap a).result_ch ≡ d ∷ []
    → receive_result a rt ≡ some (taken a rt, d)
unfolding receive_result taken
receive_result-taken a d rt e = ground arith

-- A result in the channel reaches the flow in one step, and one that is not sent yet in two.
receives :
    (w : World) (a : ℕ) (d : Decision)
    → a < w.runtime.next
    → is_waiting (w.waiters a) ≡ true
    → (w.runtime.heap a).result_ch ≡ d ∷ []
    → (v : World) × Step w v × (v.waiters a ≡ returned (some d))
receives w a d lt q e = (
  _,
  receive w a d (taken a w.runtime) lt q (receive_result-taken a d w.runtime e),
  ground (arith, ==_iff a a),
)

sends :
    (w : World) (a : ℕ) (d : Decision)
    → a < w.runtime.next
    → is_waiting (w.waiters a) ≡ true
    → w.sending a ≡ d ∷ []
    → (w.runtime.heap a).result_ch ≡ []
    → (v : World) × Reach w v × (v.waiters a ≡ returned (some d))
unfolding sent
sends w a d lt q s e =
    let u = record w { runtime = sent a d w.runtime; sending = update w.sending a [] } in
    let (v, st, done) = receives u a d lt q (ground (arith, ==_iff a a)) in
    (
      v,
      next (next here (send w a d [] (sent a d w.runtime) lt s (send_result-sent a d w.runtime e)))
          st,
      done,
    )

expires :
    (w : World) (a : ℕ)
    → IsSound w
    → a < w.runtime.next
    → w.waiters a ≡ selecting
    → is_pending (w.runtime.heap a).status ≡ true
    → (v : World) × Step w v × (v.waiters a ≡ returned none)
expires w a inv lt q p =
    (_, time_out w a lt q, ground (arith, ==_iff a a, time_out_consent-expired w a inv lt q p))

returns :
    (w : World) (a : ℕ)
    → IsSound w
    → a < w.runtime.next
    → IsCoherent (w.runtime.heap a) (w.waiters a) (w.sending a)
    → (v : World) × (o : Option Decision) × Reach w v × (v.waiters a ≡ returned o)
returns w a inv lt (undecided p b c e) =
    let (v, st, done) = expires w a inv lt e (ap is_pending p) in (v, none, next here st, done)
returns w a inv lt (in_flight d p b c e) =
    let (v, r, done) = sends w a d lt e c b in (v, some d, r, done)
returns w a inv lt (buffered d p b c e) =
    let (v, st, done) = receives w a d lt e b in (v, some d, next here st, done)
returns w a inv lt (delivered d p b c e) = (w, some d, here, e)
returns w a inv lt (lapsed p b c e) = (w, none, here, e)

-- From every reachable world, the flow of each request can return: no flow waits for a result that
-- nobody is going to send, not even one whose timeout fired after its request was resolved.
pub awaiting-returns :
    {nothing : ConsentRequest} {w : World} (a : ℕ)
    → Reach (initial nothing) w
    → a < w.runtime.next
    → (v : World) × (o : Option Decision) × Reach w v × (v.waiters a ≡ returned o)
awaiting-returns {w} a r lt = let inv = Reach-IsSound r in returns w a inv lt (inv.each a lt)
