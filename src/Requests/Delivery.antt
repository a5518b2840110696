-- ===== src/Requests/Delivery.antt =====
-- The result of the handler that resolved a request is the one that the request's flow returns.
use eudi_dev.Base.{
  ℕ, ◌<◌, Text, true, false, Option, none, some, Bool-cases, List, [], ◌∷◌, ◌==◌, ==_iff, ◌≡◌, refl,
  sym, ap, subst, inl, inr, arith,
}
use eudi_dev.Requests.{
  expired, is_pending, Decision, ConsentRequest, Runtime, update, create_consent_request, stamped,
  resolve_request, Waiter, selecting, committed, returned, time_out_consent,
}
use eudi_dev.Requests.Steps.{
  World, status_of, initial, is_waiting, Step, create, resolve, send, receive, time_out, Reach,
  here, next,
}
use eudi_dev.Requests.Sound.{
  IsCoherent, undecided, in_flight, buffered, delivered, lapsed, status_of-not_pending,
  lookup-IsListed,
}
use eudi_dev.Requests.Invariant.{IsSound, resolved, resolve_request-resolved, update_self}
use eudi_dev.Requests.Outcome.{outcome-coherent}
use eudi_dev.Requests.Kept.{
  Reach-IsSound, Step-IsSound, resolve-IsSound, time_out_consent-expired,
  time_out_consent-committed, send_result-sent, receive_result-received,
}

-- The result `d` of a request is with its handler, in its channel, or with its flow.
data IsCarried (d : Decision) (r : ConsentRequest) (w : Waiter) (s : List Decision) : Type 0 where
  on_hand : r.status ≡ status_of d → s ≡ d ∷ [] → r.result_ch ≡ [] → IsCarried d r w s
  in_channel : r.status ≡ status_of d → s ≡ [] → r.result_ch ≡ d ∷ [] → IsCarried d r w s
  arrived : r.status ≡ status_of d → w ≡ returned (some d) → IsCarried d r w s

abbrev IsCarriedAt : Decision → ℕ → World → Type 0
IsCarriedAt d a w = IsCarried d (w.runtime.heap a) (w.waiters a) (w.sending a)

-- A step that writes at `b` alone.
carried-write :
    (w v : World) (d : Decision) (a b : ℕ) (r : ConsentRequest) (x : Waiter) (s : List Decision)
    → v.runtime.heap ≡ update w.runtime.heap b r
    → v.waiters ≡ update w.waiters b x
    → v.sending ≡ update w.sending b s
    → IsCarriedAt d a w
    → (b ≡ a → IsCarriedAt d b w → IsCarried d r x s)
    → IsCarriedAt d a v
carried-write w v d a b r x s hs ws ss c at = elim (Bool-cases (b == a)) [
  | inl e ↦
      rw (hs, ws, ss, e)
        (at ((==_iff b a).0 e) (subst (λ n. IsCarriedAt d n w) (sym ((==_iff b a).0 e)) c))
  | inr e ↦ rw (hs, ws, ss, e) c
]

carried-decided :
    (d : Decision) (r : ConsentRequest) (w : Waiter) (s : List Decision)
    → IsCarried d r w s
    → is_pending r.status ≡ false
carried-decided d r w s (on_hand p e b) = ground (arith, status_of-not_pending d)
carried-decided d r w s (in_channel p e b) = ground (arith, status_of-not_pending d)
carried-decided d r w s (arrived p e) = ground (arith, status_of-not_pending d)

IsCarried-send :
    (d d' : Decision) (r : ConsentRequest) (w : Waiter) (s ds : List Decision)
    → IsCoherent r w s
    → s ≡ d' ∷ ds
    → IsCarried d r w s
    → IsCarried d (record r { result_ch = d' ∷ [] }) w ds
IsCarried-send d d' r w s ds h q (on_hand p e b) = in_channel p (ground arith) (ground arith)
IsCarried-send d d' r w s ds h q (in_channel p e b) = absurd (cc)
IsCarried-send d d' r w s ds h q (arrived p e) = arrived p e

IsCarried-receive :
    (d d' : Decision) (r : ConsentRequest) (w : Waiter) (s ds : List Decision)
    → is_waiting w ≡ true
    → r.result_ch ≡ d' ∷ ds
    → IsCarried d r w s
    → IsCarried d (record r { result_ch = ds }) (returned (some d')) s
IsCarried-receive d d' r w s ds h q (on_hand p e b) = absurd (cc)
IsCarried-receive d d' r w s ds h q (in_channel p e b) = arrived p (ground arith)
IsCarried-receive d d' r w s ds h q (arrived p e) = absurd (ground arith)

IsCarried-commit :
    (d : Decision) (r : ConsentRequest) (w : Waiter) (s : List Decision)
    → w ≡ selecting
    → IsCarried d r w s
    → IsCarried d r committed s
IsCarried-commit d r w s q (on_hand p e b) = on_hand p e b
IsCarried-commit d r w s q (in_channel p e b) = in_channel p e b
IsCarried-commit d r w s q (arrived p e) = absurd (cc)

time_out-carried :
    (w : World) (d : Decision) (a b : ℕ)
    → IsSound w
    → b < w.runtime.next
    → w.waiters b ≡ selecting
    → IsCarriedAt d a w
    → IsCarriedAt d a (record w {
      runtime = (time_out_consent b w.runtime).0;
      waiters = update w.waiters b (time_out_consent b w.runtime).1;
    })
time_out-carried w d a b inv lt q c = elim (Bool-cases (is_pending (w.runtime.heap b).status)) [
  | inl p ↦ rw (time_out_consent-expired w b inv lt q p) (
      carried-write w
        (record w {
          runtime = resolved b expired w.runtime;
          waiters = update w.waiters b (returned none);
        })
        d a b (record (w.runtime.heap b) { status = expired }) (returned none) (w.sending b) refl
        refl (sym (update_self w.sending b)) c
        (λ same here. absurd (ground (arith, carried-decided d _ _ _ here))))
  | inr p ↦ rw (time_out_consent-committed w b inv lt p) (
      carried-write w (record w { waiters = update w.waiters b committed }) d a b (w.runtime.heap b)
        committed (w.sending b) (sym (update_self w.runtime.heap b)) refl
        (sym (update_self w.sending b)) c
        (λ same. IsCarried-commit d (w.runtime.heap b) (w.waiters b) (w.sending b) q))
]

time_out-next :
    (w : World) (b : ℕ)
    → IsSound w
    → b < w.runtime.next
    → w.waiters b ≡ selecting
    → (time_out_consent b w.runtime).0.next ≡ w.runtime.next
time_out-next w b inv lt q = elim (Bool-cases (is_pending (w.runtime.heap b).status)) [
  | inl p ↦ rw (time_out_consent-expired w b inv lt q p) refl
  | inr p ↦ rw (time_out_consent-committed w b inv lt p) refl
]

Step-carried :
    {w v : World} (d : Decision) (a : ℕ)
    → IsSound w
    → Step w v
    → (a < w.runtime.next) × IsCarriedAt d a w
    → (a < v.runtime.next) × IsCarriedAt d a v
unfolding create_consent_request
Step-carried {v = v} d a inv (create w now r p e fresh prompt) (lt, c) = (
  omega arith,
  carried-write w v d a w.runtime.next (stamped now r) selecting [] refl refl refl c
      (λ same here. absurd (ground arith)),
)
Step-carried {v = v} d a inv (resolve w id d' b after e) (lt, c) =
    let (listed, open_now, is) = resolve_request-resolved id (status_of d') w.runtime after b e in
    (
      subst (λ rt. a < rt.next) is lt,
      carried-write w v d a b (record (w.runtime.heap b) { status = status_of d' }) (w.waiters b)
          (d' ∷ w.sending b) (sym (ap (λ rt. rt.heap) is)) (sym (update_self w.waiters b)) refl c
          (λ same here. absurd (ground (arith, carried-decided d _ _ _ here))),
    )
Step-carried {v = v} d a inv (send w b d' ds after lt' e sent) (lt, c) =
    let (empty, is) = send_result-sent b d' w.runtime after sent in
    (
      subst (λ rt. a < rt.next) is lt,
      carried-write w v d a b (record (w.runtime.heap b) { result_ch = d' ∷ [] }) (w.waiters b) ds
          (sym (ap (λ rt. rt.heap) is)) (sym (update_self w.waiters b)) refl c
          (λ same. IsCarried-send d d' _ (w.waiters b) (w.sending b) ds (inv.each b lt') e),
    )
Step-carried {v = v} d a inv (receive w b d' after lt' q e) (lt, c) =
    let (ds, full, is) = receive_result-received b d' w.runtime after e in
    (
      subst (λ rt. a < rt.next) is lt,
      carried-write w v d a b (record (w.runtime.heap b) { result_ch = ds }) (returned (some d'))
          (w.sending b) (sym (ap (λ rt. rt.heap) is)) refl (sym (update_self w.sending b)) c
          (λ same. IsCarried-receive d d' _ (w.waiters b) (w.sending b) ds q full),
    )
Step-carried {v = v} d a inv (time_out w b lt' q) (lt, c) = (
  subst (λ n. a < n) (sym (time_out-next w b inv lt' q)) lt,
  time_out-carried w d a b inv lt' q c,
)

Reach-carried :
    {w v : World} (d : Decision) (a : ℕ)
    → IsSound w
    → Reach w v
    → (a < w.runtime.next) × IsCarriedAt d a w
    → IsSound v × (a < v.runtime.next) × IsCarriedAt d a v
Reach-carried d a inv here c = (inv, c.0, c.1)
Reach-carried d a inv (next r st) c =
    let (held, below, there) = Reach-carried d a inv r c in
    let (below', there') = Step-carried d a held st (below, there) in
    (Step-IsSound st held, below', there')

carried-returned :
    (d : Decision) (r : ConsentRequest) (w : Waiter) (s : List Decision) (o : Option Decision)
    → IsCoherent r w s
    → w ≡ returned o
    → IsCarried d r w s
    → o ≡ some d
carried-returned d r w s o h q (on_hand p e b) =
    absurd (ground (arith, (outcome-coherent r w s o h q).2))
carried-returned d r w s o h q (in_channel p e b) =
    absurd (ground (arith, (outcome-coherent r w s o h q).1))
carried-returned d r w s o h q (arrived p e) = ground arith

IsCarried-sending :
    (d : Decision) (r : ConsentRequest) (w : Waiter) (s ds : List Decision)
    → IsCoherent r w s
    → s ≡ d ∷ ds
    → IsCarried d r w s
IsCarried-sending d r w s ds (undecided a b c e) q = absurd (cc)
IsCarried-sending d r w s ds (in_flight d' a b c e) q = on_hand (ground arith) (ground arith) b
IsCarried-sending d r w s ds (buffered d' a b c e) q = absurd (cc)
IsCarried-sending d r w s ds (delivered d' a b c e) q = absurd (cc)
IsCarried-sending d r w s ds (lapsed a b c e) q = absurd (cc)

resolved-IsCarried :
    (w : World) (id : Text) (d : Decision) (a : ℕ) (after : Runtime)
    → IsSound w
    → resolve_request id (status_of d) w.runtime ≡ (after, some a, true)
    → (a < after.next)
      × IsCarried d (after.heap a) (w.waiters a) (update w.sending a (d ∷ w.sending a) a)
resolved-IsCarried w id d a after inv e =
    let (listed, _, is) = resolve_request-resolved id (status_of d) w.runtime after a e in
    let lt =
      subst (λ rt. a < rt.next) is
        (lookup-IsListed w.runtime id a w.runtime.requests inv.listed listed).0 in
    (
      lt,
      IsCarried-sending d (after.heap a) (w.waiters a) _ (w.sending a)
          ((resolve-IsSound w id d a after inv e).each a lt) (ground (arith, ==_iff a a)),
    )

-- Where a handler resolves a request in a reachable world, whatever steps follow: once the flow of
-- the request has returned, it has returned the result of that handler.
pub resolved-returned :
    {nothing : ConsentRequest} {w v : World} (id : Text) (d : Decision) (a : ℕ) (after : Runtime)
    (o : Option Decision)
    → Reach (initial nothing) w
    → resolve_request id (status_of d) w.runtime ≡ (after, some a, true)
    → Reach (record w { runtime = after; sending = update w.sending a (d ∷ w.sending a) }) v
    → v.waiters a ≡ returned o
    → o ≡ some d
resolved-returned {w} {v} id d a after o r e later q =
    let inv = Reach-IsSound r in
    let (held, below, there) =
      Reach-carried d a (resolve-IsSound w id d a after inv e) later
        (resolved-IsCarried w id d a after inv e) in
    carried-returned d (v.runtime.heap a) (v.waiters a) (v.sending a) o (held.each a below) q there
