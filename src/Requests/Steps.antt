-- ===== src/Requests/Steps.antt =====
-- The steps in which handlers, flows and the registry of internal/wallet/wallet_events.go take
-- turns. Each is one critical section, or one operation on the channel of a request.
use eudi_dev.Base.{
  ℕ, ◌-◌, ◌≤◌, ◌<◌, Text, Bool, true, false, some, List, [], ◌∷◌, if◌then◌else◌, ◌≡◌, ◌≢◌,
}
use eudi_dev.Requests.{
  RequestStatus, pending, approved, denied, Decision, ConsentRequest, Runtime, update,
  consent_request_max_age, create_consent_request, resolve_request, send_result, receive_result,
  Waiter, selecting, returned, time_out_consent,
}

-- The registry, where the flow of each request stands, and the results of the handlers that have
-- resolved a request and not sent yet.
pub record World : Type 0 where
  pub runtime : Runtime
  pub waiters : ℕ → Waiter
  pub sending : ℕ → List Decision

-- The status that a handler gives the request whose flow gets this result.
abbrev pub status_of : Decision → RequestStatus
status_of d = if d.is_approved then approved else denied

-- Before the first request.
abbrev pub initial : ConsentRequest → World
initial nothing = record {
  runtime = record {
    heap = λ _. nothing;
    next = 0;
    requests = [];
    subscribers = [];
    sub_id = 0;
    state_subscribers = [];
  };
  waiters = λ _. selecting;
  sending = λ _. [];
}

abbrev pub is_waiting : Waiter → Bool
is_waiting (returned o) = false
is_waiting _ = true

-- No request has this id yet, as `newConsentID` makes it.
abbrev pub IsFresh : Text → Runtime → Type 0
IsFresh id rt = (b : ℕ) → b < rt.next → (rt.heap b).id ≢ id

-- Whoever still waits for an answer does so for a request that is no older than the limit, as
-- `awaitConsent` has a timeout of minutes.
abbrev pub IsPrompt : ℕ → World → Type 0
IsPrompt now w =
    (b : ℕ)
    → b < w.runtime.next
    → w.waiters b ≡ selecting
    → now - (w.runtime.heap b).created_at ≤ consent_request_max_age

pub data Step : World → World → Type 0 where
  -- A flow makes a request, registers it and waits.
  create :
      (w : World) (now : ℕ) (r : ConsentRequest)
      → r.status ≡ pending
      → r.result_ch ≡ []
      → IsFresh r.id w.runtime
      → IsPrompt now w
      → Step w (record {
        runtime = (create_consent_request now r w.runtime).0;
        waiters = update w.waiters w.runtime.next selecting;
        sending = update w.sending w.runtime.next [];
      })
  -- A handler resolves a request.
  resolve :
      (w : World) (id : Text) (d : Decision) (a : ℕ) (after : Runtime)
      → resolve_request id (status_of d) w.runtime ≡ (after, some a, true)
      → Step w (record w { runtime = after; sending = update w.sending a (d ∷ w.sending a) })
  -- A handler sends its result.
  send :
      (w : World) (a : ℕ) (d : Decision) (ds : List Decision) (after : Runtime)
      → a < w.runtime.next
      → w.sending a ≡ d ∷ ds
      → send_result a d w.runtime ≡ some after
      → Step w (record w { runtime = after; sending = update w.sending a ds })
  -- The flow of a request receives a result.
  receive :
      (w : World) (a : ℕ) (d : Decision) (after : Runtime)
      → a < w.runtime.next
      → is_waiting (w.waiters a) ≡ true
      → receive_result a w.runtime ≡ some (after, d)
      → Step w (record w { runtime = after; waiters = update w.waiters a (returned (some d)) })
  -- The timeout of a flow fires first.
  time_out :
      (w : World) (a : ℕ)
      → a < w.runtime.next
      → w.waiters a ≡ selecting
      → Step w (record w {
        runtime = (time_out_consent a w.runtime).0;
        waiters = update w.waiters a (time_out_consent a w.runtime).1;
      })

pub data Reach (w : World) : World → Type 0 where
  here : Reach w w
  next : {u v : World} → Reach w u → Step u v → Reach w v
