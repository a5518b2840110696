-- ===== src/Requests/Kept.antt =====
-- Each step keeps the invariant, and so every reachable world has it.
use eudi_dev.Base.{
  ℕ, ◌<◌, Text, lookup, true, false, none, some, Option-cases, Bool-cases, List, [], ◌∷◌, ◌≡◌, refl,
  sym, subst, inl, inr, arith,
}
use eudi_dev.Requests.{
  expired, is_pending, Decision, ConsentRequest, Runtime, update, resolve_request, send_result,
  receive_result, selecting, committed, returned, time_out_consent,
}
use eudi_dev.Requests.Steps.{
  World, status_of, initial, Step, create, resolve, send, receive, time_out, Reach, here, next,
}
use eudi_dev.Requests.Sound.{
  status_of-not_pending, IsCoherent-resolve, IsCoherent-send, IsCoherent-receive, IsCoherent-expire,
  IsCoherent-commit, lookup-IsListed,
}
use eudi_dev.Requests.Create.{create-IsSound}
use eudi_dev.Requests.Invariant.{
  IsSound, IsWrite, IsSound-write, update_self, resolved, resolve_request-resolved,
  resolve_request-missing, resolve_request-decided, resolve_request-pending,
}

pub send_result-sent :
    (a : ℕ) (d : Decision) (rt after : Runtime)
    → send_result a d rt ≡ some after
    → ((rt.heap a).result_ch ≡ [])
      × (record rt { heap = update rt.heap a (record (rt.heap a) { result_ch = d ∷ [] }) } ≡ after)
unfolding send_result
send_result-sent a d rt after e = grind arith

pub receive_result-received :
    (a : ℕ) (d : Decision) (rt after : Runtime)
    → receive_result a rt ≡ some (after, d)
    → (ds : List Decision) × ((rt.heap a).result_ch ≡ d ∷ ds)
      × (record rt { heap = update rt.heap a (record (rt.heap a) { result_ch = ds }) } ≡ after)
unfolding receive_result
receive_result-received a d rt after e = go (rt.heap a).result_ch refl
  where
    go :
        (ch : List Decision)
        → (rt.heap a).result_ch ≡ ch
        → (ds : List Decision) × ((rt.heap a).result_ch ≡ d ∷ ds)
          × (record rt { heap = update rt.heap a (record (rt.heap a) { result_ch = ds }) } ≡ after)
    go [] q = absurd (ground arith)
    go (d' ∷ ds) q = (ds, ground arith, ground arith)

pub resolve-IsSound :
    (w : World) (id : Text) (d : Decision) (a : ℕ) (after : Runtime)
    → IsSound w
    → resolve_request id (status_of d) w.runtime ≡ (after, some a, true)
    → IsSound (record w { runtime = after; sending = update w.sending a (d ∷ w.sending a) })
resolve-IsSound w id d a after inv e =
    let (listed, open_now, is) = resolve_request-resolved id (status_of d) w.runtime after a e in
    let lt = (lookup-IsListed w.runtime id a w.runtime.requests inv.listed listed).0 in
    IsSound-write w _ a (record (w.runtime.heap a) { status = status_of d }) (w.waiters a)
      (d ∷ w.sending a) (sym (update_self w.waiters a)) refl inv
      (subst (λ rt. IsWrite w.runtime rt a (record (w.runtime.heap a) { status = status_of d })) is
        (record { heap = refl; next = refl; requests = refl; below = lt; id = refl }))
      (IsCoherent-resolve (w.runtime.heap a) (w.waiters a) (w.sending a) d open_now (inv.each a lt))
      (λ q p. absurd (ground (arith, status_of-not_pending d)))

-- One write, which leaves the id and, to a request that is no longer pending, the status.
IsWrite-of :
    (rt after : Runtime) (a : ℕ) (r : ConsentRequest)
    → a < rt.next
    → r.id ≡ (rt.heap a).id
    → record rt { heap = update rt.heap a r } ≡ after
    → IsWrite rt after a r
IsWrite-of rt after a r lt e is =
    subst (λ x. IsWrite rt x a r) is
      (record { heap = refl; next = refl; requests = refl; below = lt; id = e })

send-IsSound :
    (w : World) (a : ℕ) (d : Decision) (ds : List Decision) (after : Runtime)
    → IsSound w
    → a < w.runtime.next
    → w.sending a ≡ d ∷ ds
    → send_result a d w.runtime ≡ some after
    → IsSound (record w { runtime = after; sending = update w.sending a ds })
send-IsSound w a d ds after inv lt e sent =
    let (empty, is) = send_result-sent a d w.runtime after sent in
    IsSound-write w _ a (record (w.runtime.heap a) { result_ch = d ∷ [] }) (w.waiters a) ds
      (sym (update_self w.waiters a)) refl inv (IsWrite-of w.runtime after a _ lt refl is)
      (IsCoherent-send (w.runtime.heap a) (w.waiters a) (w.sending a) ds d e (inv.each a lt))
      (λ q p. (q, p))

receive-IsSound :
    (w : World) (a : ℕ) (d : Decision) (after : Runtime)
    → IsSound w
    → a < w.runtime.next
    → receive_result a w.runtime ≡ some (after, d)
    → IsSound (record w { runtime = after; waiters = update w.waiters a (returned (some d)) })
receive-IsSound w a d after inv lt e =
    let (ds, full, is) = receive_result-received a d w.runtime after e in
    IsSound-write w _ a (record (w.runtime.heap a) { result_ch = ds }) (returned (some d))
      (w.sending a) refl (sym (update_self w.sending a)) inv
      (IsWrite-of w.runtime after a _ lt refl is)
      (IsCoherent-receive (w.runtime.heap a) (w.waiters a) (w.sending a) ds d full (inv.each a lt))
      (λ q p. absurd (cc))

pub time_out_consent-expired :
    (w : World) (a : ℕ)
    → IsSound w
    → a < w.runtime.next
    → w.waiters a ≡ selecting
    → is_pending (w.runtime.heap a).status ≡ true
    → time_out_consent a w.runtime ≡ (resolved a expired w.runtime, returned none)
unfolding time_out_consent
time_out_consent-expired w a inv lt q p =
    rw (resolve_request-pending (w.runtime.heap a).id expired w.runtime a (inv.found a lt q p) p)
      refl

pub lookup_self :
    (w : World) (a b : ℕ)
    → IsSound w
    → a < w.runtime.next
    → lookup (w.runtime.heap a).id w.runtime.requests ≡ some b
    → a ≡ b
lookup_self w a b inv lt e =
    let (below, id) =
      lookup-IsListed w.runtime (w.runtime.heap a).id b w.runtime.requests inv.listed e in
    inv.unique a b lt below (sym id)

pub time_out_consent-committed :
    (w : World) (a : ℕ)
    → IsSound w
    → a < w.runtime.next
    → is_pending (w.runtime.heap a).status ≡ false
    → time_out_consent a w.runtime ≡ (w.runtime, committed)
unfolding time_out_consent
time_out_consent-committed w a inv lt p =
    elim (Option-cases (lookup (w.runtime.heap a).id w.runtime.requests)) [
      | inl e ↦ rw (resolve_request-missing (w.runtime.heap a).id expired w.runtime e) refl
      | inr (b, e) ↦
          rw
            (resolve_request-decided (w.runtime.heap a).id expired w.runtime b e (
              subst (λ c. is_pending (w.runtime.heap c).status ≡ false) (lookup_self w a b inv lt e)
                p))
            refl
    ]

time_out-IsSound :
    (w : World) (a : ℕ)
    → IsSound w
    → a < w.runtime.next
    → w.waiters a ≡ selecting
    → IsSound (record w {
      runtime = (time_out_consent a w.runtime).0;
      waiters = update w.waiters a (time_out_consent a w.runtime).1;
    })
time_out-IsSound w a inv lt q = elim (Bool-cases (is_pending (w.runtime.heap a).status)) [
  | inl p ↦ rw (time_out_consent-expired w a inv lt q p) (
      IsSound-write w _ a (record (w.runtime.heap a) { status = expired }) (returned none)
        (w.sending a) refl (sym (update_self w.sending a)) inv
        (record { heap = refl; next = refl; requests = refl; below = lt; id = refl })
        (IsCoherent-expire (w.runtime.heap a) (w.waiters a) (w.sending a) p (inv.each a lt))
        (λ q p. absurd (cc)))
  | inr p ↦ rw (time_out_consent-committed w a inv lt p) (
      IsSound-write w _ a (w.runtime.heap a) committed (w.sending a) refl
        (sym (update_self w.sending a)) inv
        (record {
          heap = sym (update_self w.runtime.heap a);
          next = refl;
          requests = refl;
          below = lt;
          id = refl;
        })
        (IsCoherent-commit (w.runtime.heap a) (w.waiters a) (w.sending a) p q (inv.each a lt))
        (λ q p. absurd (cc)))
]

pub Step-IsSound : {w v : World} → Step w v → IsSound w → IsSound v
Step-IsSound (create w now r p c fresh prompt) inv = create-IsSound w now r inv p c fresh prompt
Step-IsSound (resolve w id d a after e) inv = resolve-IsSound w id d a after inv e
Step-IsSound (send w a d ds after lt e sent) inv = send-IsSound w a d ds after inv lt e sent
Step-IsSound (receive w a d after lt q e) inv = receive-IsSound w a d after inv lt e
Step-IsSound (time_out w a lt q) inv = time_out-IsSound w a inv lt q

initial-IsSound : (nothing : ConsentRequest) → IsSound (initial nothing)
initial-IsSound nothing = record {
  each = λ a lt. absurd (omega arith);
  listed = tt;
  unique = λ a b lt lt' e. absurd (omega arith);
  found = λ a lt q p. absurd (omega arith);
}

pub Reach-IsSound : {nothing : ConsentRequest} {w : World} → Reach (initial nothing) w → IsSound w
Reach-IsSound {nothing} here = initial-IsSound nothing
Reach-IsSound (next r st) = Step-IsSound st (Reach-IsSound r)
