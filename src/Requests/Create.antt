-- ===== src/Requests/Create.antt =====
-- The registration of a request keeps the invariant.
use eudi_dev.Base.{
  ℕ, suc, ◌<◌, Text, text_eq_iff, text_eq_refl, lookup, lookup-insert, true, not, some, Bool-cases,
  List, [], keep_if, All-keep_if, if◌then◌else◌, ◌==◌, ==_iff, ◌≡◌, refl, sym, ◌∙◌, inl, inr, arith,
}
use eudi_dev.Requests.{
  pending, is_pending, ConsentRequest, Runtime, update, is_stale, create_consent_request, stamped,
  selecting,
}
use eudi_dev.Requests.Steps.{World, IsFresh, IsPrompt}
use eudi_dev.Requests.Sound.{undecided, IsListed, All-insert, All-imp, lookup-keep_if}
use eudi_dev.Requests.Invariant.{IsSound}

-- What the new address holds, and the others.
created_id :
    (rt : Runtime) (now b : ℕ) (r : ConsentRequest)
    → (update rt.heap rt.next (stamped now r) b).id
      ≡ (if rt.next == b then r.id else (rt.heap b).id)
created_id rt now b r = ground arith

kept_listed :
    (w : World) (now b : ℕ)
    → IsSound w
    → IsPrompt now w
    → b < w.runtime.next
    → w.waiters b ≡ selecting
    → is_pending (w.runtime.heap b).status ≡ true
    → lookup
        (w.runtime.heap b).id
        (keep_if (λ entry. not (is_stale now (w.runtime.heap entry.1))) w.runtime.requests)
      ≡ some b
unfolding is_stale
kept_listed w now b inv prompt lt q p =
    lookup-keep_if (λ entry. not (is_stale now (w.runtime.heap entry.1))) (w.runtime.heap b).id b
      w.runtime.requests (inv.found b lt q p) (ground (arith, prompt b lt q))

-- A new request is listed, and what waits for an answer is not pruned.
pub create-IsSound :
    (w : World) (now : ℕ) (r : ConsentRequest)
    → IsSound w
    → r.status ≡ pending
    → r.result_ch ≡ []
    → IsFresh r.id w.runtime
    → IsPrompt now w
    → IsSound (record {
      runtime = (create_consent_request now r w.runtime).0;
      waiters = update w.waiters w.runtime.next selecting;
      sending = update w.sending w.runtime.next [];
    })
unfolding create_consent_request
create-IsSound w now r inv p c fresh prompt = record {
  each = λ b lt. elim (Bool-cases (rt.next == b)) [
    | inl e ↦ rw e (undecided (ground arith) (ground arith) refl refl)
    | inr e ↦ rw e (inv.each b (ground arith))
  ];
  listed =
      All-insert after r.id rt.next _ (ground arith, ground arith)
        (All-keep_if (IsListed after) (λ entry. not (is_stale now (rt.heap entry.1))) rt.requests
          (All-imp rt after rt.requests
            (λ entry (lt, e). (ground arith, created_id rt now entry.1 r ∙ ground arith))
            inv.listed));
  unique =
      λ b d lt lt' e. same b d lt lt' (sym (created_id rt now b r) ∙ e ∙ created_id rt now d r);
  found = λ b lt q s. elim (Bool-cases (rt.next == b)) [
    | inl e ↦ ground (
      arith,
      lookup-insert r.id (stamped now r).id rt.next kept,
      text_eq_refl r.id,
      ==_iff rt.next b,
    )
    | inr e ↦ rw e (
        lookup-insert r.id (rt.heap b).id rt.next kept
        ∙ ground (
          arith,
          fresh b,
          text_eq_iff r.id (rt.heap b).id,
          kept_listed w now b inv prompt (ground arith) (ground arith) (ground arith),
        ))
  ];
}
  where
    open w use {runtime as rt}

    after : Runtime
    after = (create_consent_request now r w.runtime).0

    kept : List (Text × ℕ)
    kept = keep_if (λ entry. not (is_stale now (rt.heap entry.1))) rt.requests

    same :
        (b d : ℕ)
        → b < suc rt.next
        → d < suc rt.next
        → (if rt.next == b then r.id else (rt.heap b).id)
          ≡ (if rt.next == d then r.id else (rt.heap d).id)
        → b ≡ d
    same b d lt lt' e = ground (arith, fresh b, fresh d, inv.unique b d)
