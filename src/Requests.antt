-- ===== src/Requests.antt =====
-- internal/wallet/wallet_events.go: the registry of the requests that wait for consent.
pub mod Handlers
pub mod Steps
pub mod Sound
pub mod Invariant
pub mod Create
pub mod Kept
pub mod Outcome
pub mod Delivery
pub mod Answers
pub mod Consented
mod Tests
use eudi_dev.Base.{
  ℕ, suc, ◌+◌, ◌-◌, Text, lookup, insert, Bool, true, false, not, ◌&&◌, ◌||◌, Option, none, some,
  List, [], ◌∷◌, ◌++◌, is_empty, length, keep_if, map, if◌then◌else◌, ltb, ◌==◌,
}
use eudi_dev.Consent.{ConsentResult}
use eudi_dev.Dcql.Options.{ConsentCredentialOptions}

-- The values of `ConsentRequest.Status`.
pub data RequestStatus : Type 0 where
  pending approved denied expired : RequestStatus

-- `status == "pending"`.
abbrev pub is_pending : RequestStatus → Bool
is_pending pending = true
is_pending _ = false

-- `ConsentResult` with the fields beside the selection.
pub record Decision : Type 0 where
  pub is_approved : Bool
  pub owner : Text
  pub selected_claims : List (Text × List Text)
  pub tx_code : Text
  pub configuration_id : Text
  pub selection : ConsentResult

-- The fields of `ConsentRequest` that the registry and the handlers read. Times are nanoseconds
-- since the zero time. `result_ch` holds what the channel buffers.
pub record ConsentRequest : Type 0 where
  pub id : Text
  pub owner : Text
  pub status : RequestStatus
  pub created_at : ℕ
  pub offer_configs : List Text
  pub credential_options : Option ConsentCredentialOptions
  pub result_ch : List Decision

-- The registry, which holds pointers: `heap` gives the request at an address, and addresses from
-- `next` on are free. A subscriber has the pointers its channel buffers, and a subscriber to state
-- changes one slot.
pub record Runtime : Type 0 where
  pub heap : ℕ → ConsentRequest
  pub next : ℕ
  pub requests : List (Text × ℕ)
  pub subscribers : List (ℕ × List ℕ)
  pub sub_id : ℕ
  pub state_subscribers : List (ℕ × Bool)

-- A write through a pointer, to what stands at an address.
abbrev pub update {ℓ} : {A : Type ℓ} → (ℕ → A) → ℕ → A → ℕ → A
update f a v b = if a == b then v else f b

abbrev pub resolved_consent_retention : ℕ
resolved_consent_retention = 600000000000

abbrev pub consent_request_max_age : ℕ
consent_request_max_age = 3600000000000

-- The test of the loop that prunes. An age below zero is as good as zero there.
unfoldable pub is_stale : ℕ → ConsentRequest → Bool
is_stale now r =
    let age = now - r.created_at in
    ltb consent_request_max_age age
    || (not (is_pending r.status) && ltb resolved_consent_retention age)

-- `case ch <- req: default:` for a channel of 16.
abbrev pub offer : ℕ → ℕ × List ℕ → ℕ × List ℕ
offer a (sub, buffered) =
    if ltb (length buffered) 16 then (sub, buffered ++ a ∷ []) else (sub, buffered)

-- The request's creation time, which is the clock's where it has none.
abbrev pub stamped : ℕ → ConsentRequest → ConsentRequest
stamped now r = if r.created_at == 0 then record r { created_at = now } else r

-- `CreateConsentRequest` of a request that was just allocated, and its address.
unfoldable pub create_consent_request : ℕ → ConsentRequest → Runtime → Runtime × ℕ
create_consent_request now r rt = (
  record rt {
    heap = update rt.heap rt.next (stamped now r);
    next = suc rt.next;
    requests =
        insert r.id rt.next (keep_if (λ entry. not (is_stale now (rt.heap entry.1))) rt.requests);
    subscribers = map (offer rt.next) rt.subscribers;
  },
  rt.next,
)

-- `GetRequest`.
abbrev pub get_request : Text → Runtime → Option ℕ
get_request id rt = lookup id rt.requests

-- `NotifyStateChanged`.
abbrev pub notify_state_changed : Runtime → Runtime
notify_state_changed rt = record rt {
  state_subscribers = map (λ sub. (sub.0, true)) rt.state_subscribers;
}

-- `ResolveRequest`.
unfoldable pub resolve_request : Text → RequestStatus → Runtime → Runtime × Option ℕ × Bool
resolve_request id status rt = elim (get_request id rt) [
  | none ↦ (rt, none, false)
  | some a ↦
      let r = rt.heap a in
      if is_pending r.status
      then (
        notify_state_changed (record rt { heap = update rt.heap a (record r { status = status }) }),
        some a,
        true,
      )
      else (rt, some a, false)
]

-- `GetPendingRequests`.
unfoldable pub get_pending_requests : Runtime → List ℕ
get_pending_requests rt =
    map (λ entry. entry.1) (keep_if (λ entry. is_pending (rt.heap entry.1).status) rt.requests)

-- `Subscribe`, and the function it returns.
unfoldable pub subscribe : Runtime → Runtime × ℕ
subscribe rt = (
  record rt { sub_id = suc rt.sub_id; subscribers = rt.subscribers ++ (suc rt.sub_id, []) ∷ [] },
  suc rt.sub_id,
)

unfoldable pub unsubscribe : ℕ → Runtime → Runtime
unsubscribe sub rt = record rt {
  subscribers = keep_if (λ entry. not (entry.0 == sub)) rt.subscribers;
}

-- `req.ResultCh <- result` on a channel of capacity 1; `none` where it blocks.
unfoldable pub send_result : ℕ → Decision → Runtime → Option Runtime
send_result a d rt =
    let r = rt.heap a in
    if is_empty r.result_ch
    then some (record rt { heap = update rt.heap a (record r { result_ch = d ∷ [] }) })
    else none

-- `<-req.ResultCh`; `none` where it blocks.
unfoldable pub receive_result : ℕ → Runtime → Option (Runtime × Decision)
receive_result a rt =
    let r = rt.heap a in
    elim r.result_ch [
      | [] ↦ none
      | d ∷ ds ↦ some (record rt { heap = update rt.heap a (record r { result_ch = ds }) }, d)
    ]

-- Where `awaitConsent` stands: in its `select`, in the receive that follows a timeout that came
-- too late, or returned, with `none` for the result that was not answered.
pub data Waiter : Type 0 where
  selecting committed : Waiter
  returned : Option Decision → Waiter

-- The timeout branch of `awaitConsent`.
unfoldable pub time_out_consent : ℕ → Runtime → Runtime × Waiter
time_out_consent a rt =
    let (after, found, ok) = resolve_request (rt.heap a).id expired rt in
    (after, if ok then returned none else committed)
