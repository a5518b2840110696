-- ===== src/Requests/Invariant.antt =====
-- The invariant of every reachable world, kept by each step.
use eudi_dev.Base.{
  ℕ, ◌<◌, Text, lookup, true, false, none, some, Option-cases, Bool-cases, List, All, ◌==◌, ==_iff,
  ◌≡◌, sym, ◌∙◌, ap, subst, inl, inr, arith,
}
use eudi_dev.Requests.{
  RequestStatus, is_pending, Decision, ConsentRequest, Runtime, update, notify_state_changed,
  resolve_request, Waiter, selecting,
}
use eudi_dev.Requests.Steps.{World}
use eudi_dev.Requests.Sound.{IsCoherent, IsListed, All-imp}

pub record IsSound (w : World) : Type 0 where
  pub each :
      (a : ℕ) → a < w.runtime.next → IsCoherent (w.runtime.heap a) (w.waiters a) (w.sending a)
  pub listed : All (IsListed w.runtime) w.runtime.requests
  pub unique :
      (a b : ℕ)
      → a < w.runtime.next
      → b < w.runtime.next
      → (w.runtime.heap a).id ≡ (w.runtime.heap b).id
      → a ≡ b
  pub found :
      (a : ℕ)
      → a < w.runtime.next
      → w.waiters a ≡ selecting
      → is_pending (w.runtime.heap a).status ≡ true
      → lookup (w.runtime.heap a).id w.runtime.requests ≡ some a

-- A write through the pointer to a request that is not new, which keeps its id.
pub record IsWrite (rt after : Runtime) (a : ℕ) (r : ConsentRequest) : Type 0 where
  pub heap : after.heap ≡ update rt.heap a r
  pub next : after.next ≡ rt.next
  pub requests : after.requests ≡ rt.requests
  pub below : a < rt.next
  pub id : r.id ≡ (rt.heap a).id

heap_id :
    (rt after : Runtime) (a b : ℕ) (r : ConsentRequest)
    → IsWrite rt after a r
    → (after.heap b).id ≡ (rt.heap b).id
heap_id rt after a b r h = elim (Bool-cases (a == b)) [
  | inl e ↦ ground (arith, ap (λ f. f b) h.heap, ==_iff a b)
  | inr e ↦ ground (arith, ap (λ f. f b) h.heap, ==_iff a b)
]

-- A step that writes to one request, and changes no flow but that of the request, keeps the
-- invariant where it keeps the request coherent.
pub IsSound-write :
    (w v : World) (a : ℕ) (r : ConsentRequest) (x : Waiter) (s : List Decision)
    → v.waiters ≡ update w.waiters a x
    → v.sending ≡ update w.sending a s
    → IsSound w
    → IsWrite w.runtime v.runtime a r
    → IsCoherent r x s
    → (x ≡ selecting
        → is_pending r.status ≡ true
        → (w.waiters a ≡ selecting) × (is_pending (w.runtime.heap a).status ≡ true))
    → IsSound v
IsSound-write w v a r x s ws ss inv h c back = record {
  each = λ b lt. elim (Bool-cases (a == b)) [
    | inl e ↦ rw (h.heap, ws, ss, e) c
    | inr e ↦ rw (h.heap, ws, ss, e) (inv.each b (subst (λ n. b < n) h.next lt))
  ];
  listed = rw h.requests (
      All-imp w.runtime v.runtime w.runtime.requests
        (λ entry (lt, e).
          (subst (λ n. entry.1 < n) (sym h.next) lt, heap_id w.runtime v.runtime a entry.1 r h ∙ e))
        inv.listed);
  unique = λ b c lt lt' e.
      inv.unique b c (subst (λ n. b < n) h.next lt) (subst (λ n. c < n) h.next lt')
        (sym (heap_id w.runtime v.runtime a b r h) ∙ e ∙ heap_id w.runtime v.runtime a c r h);
  found = λ b lt q p.
      rw (heap_id w.runtime v.runtime a b r h, h.requests)
        (let held = was b q p in inv.found b (subst (λ n. b < n) h.next lt) held.0 held.1);
}
  where
    was :
        (b : ℕ)
        → v.waiters b ≡ selecting
        → is_pending (v.runtime.heap b).status ≡ true
        → (w.waiters b ≡ selecting) × (is_pending (w.runtime.heap b).status ≡ true)
    was b q p = elim (Bool-cases (a == b)) [
      | inl e ↦ ground (arith, h.heap, ws, ==_iff a b, back)
      | inr e ↦ ground (arith, h.heap, ws)
    ]

pub update_self {ℓ} : {A : Type ℓ} (f : ℕ → A) (a : ℕ) → update f a (f a) ≡ f
update_self f a i b = same b i
  where
    same : (b : ℕ) → update f a (f a) b ≡ f b
    same b = ground (arith, ==_iff a b)

abbrev pub resolved : ℕ → RequestStatus → Runtime → Runtime
resolved a status rt =
    notify_state_changed
      (record rt { heap = update rt.heap a (record (rt.heap a) { status = status }) })

-- What `ResolveRequest` does when it succeeds.
pub resolve_request-resolved :
    (id : Text) (status : RequestStatus) (rt after : Runtime) (a : ℕ)
    → resolve_request id status rt ≡ (after, some a, true)
    → (lookup id rt.requests ≡ some a)
      × (is_pending (rt.heap a).status ≡ true)
      × (resolved a status rt ≡ after)
unfolding resolve_request
resolve_request-resolved id status rt after a e = elim (Option-cases (lookup id rt.requests)) [
  | inl q ↦ absurd (ground arith)
  | inr (b, q) ↦ elim (Bool-cases (is_pending (rt.heap b).status)) [
    | inl p ↦ grind arith
    | inr p ↦ absurd (ground arith)
  ]
]

-- What it does when it fails.
pub resolve_request-missing :
    (id : Text) (status : RequestStatus) (rt : Runtime)
    → lookup id rt.requests ≡ none
    → resolve_request id status rt ≡ (rt, none, false)
unfolding resolve_request
resolve_request-missing id status rt e = ground arith

pub resolve_request-decided :
    (id : Text) (status : RequestStatus) (rt : Runtime) (a : ℕ)
    → lookup id rt.requests ≡ some a
    → is_pending (rt.heap a).status ≡ false
    → resolve_request id status rt ≡ (rt, some a, false)
unfolding resolve_request
resolve_request-decided id status rt a e p = ground arith

pub resolve_request-pending :
    (id : Text) (status : RequestStatus) (rt : Runtime) (a : ℕ)
    → lookup id rt.requests ≡ some a
    → is_pending (rt.heap a).status ≡ true
    → resolve_request id status rt ≡ (resolved a status rt, some a, true)
unfolding resolve_request
resolve_request-pending id status rt a e p = ground arith
