-- ===== src/Proxy/Store/Flows.antt =====
-- Entries that share a correlation key share a flow, while the key is known.
use eudi_dev.Base.{
  suc, ◌<◌, Text, contains, lookup, lookup-insert, insert, true, false, some, List, [], ◌∷◌,
  is_empty, length, if◌then◌else◌, ◌≡◌, refl, ap, ◌∙◌, arith, Bool-cases, inl, inr,
}
use eudi_dev.Proxy.Store.{TrafficEntry, Store, find_flow, set_flows, flow_name, label, add}

lookup-set_flows :
    (flow : Text) (ks : List Text) (flows : List (Text × Text)) (k : Text)
    → lookup k (set_flows flow ks flows) ≡ (if contains ks k then some flow else lookup k flows)
unfolding set_flows contains
lookup-set_flows flow [] flows k = refl
lookup-set_flows flow (j ∷ ks) flows k =
    let known = lookup-insert j k flow flows in
    let rest = lookup-set_flows flow ks (insert j flow flows) k in ground arith

contains-ne : (ks : List Text) (k : Text) → contains ks k ≡ true → is_empty ks ≡ false
unfolding contains
contains-ne [] k h = cc
contains-ne (j ∷ ks) k h = refl

-- The flow of an entry with keys is never empty.
flow_given :
    (s : Store) (a : TrafficEntry)
    → is_empty a.keys ≡ false
    → is_empty (label s a).0.flow_id ≡ false
unfolding label
flow_given s a h = rw h (elim (Bool-cases (is_empty (find_flow s.flows a.keys a.flow_id))) [
  | inl e ↦ rw e refl
  | inr e ↦ rw e e
])

flows_of_keys :
    (s : Store) (a : TrafficEntry)
    → is_empty a.keys ≡ false
    → (label s a).2 ≡ set_flows (label s a).0.flow_id a.keys s.flows
unfolding label
flows_of_keys s a h = rw h refl

flows_kept :
    (s t : Store) (a : TrafficEntry)
    → length s.entries < s.max_size
    → add s a ≡ some t
    → t.flows ≡ (label s a).2
unfolding add
flows_kept s t a few h = ground arith

find_flow-first :
    (flows : List (Text × Text)) (k : Text) (ks : List Text) (before : Text) {flow : Text}
    → lookup k flows ≡ some flow
    → find_flow flows (k ∷ ks) before ≡ flow
unfolding find_flow
find_flow-first flows k ks before known = rw (known, find_flow) refl

joins_flow :
    (t : Store) (b : TrafficEntry) (k : Text) (ks : List Text) {flow : Text}
    → b.keys ≡ k ∷ ks
    → lookup k t.flows ≡ some flow
    → is_empty flow ≡ false
    → (label t b).0.flow_id ≡ flow
unfolding label
joins_flow t b k ks {flow} h known given = rw h (
    ap (λ f. if is_empty f then flow_name (suc t.next_flow_id) else f)
      (find_flow-first t.flows k ks b.flow_id known)
    ∙ named flow given)
  where
    named :
        (f : Text)
        → is_empty f ≡ false
        → (if is_empty f then flow_name (suc t.next_flow_id) else f) ≡ f
    named [] e = cc
    named (c ∷ f) e = refl

-- An entry whose first key is one of those of the entry just before it joins that entry's flow, where
-- adding the earlier entry evicted nothing.
pub label-joins_flow :
    (s t : Store) (a b : TrafficEntry) (k : Text) (ks : List Text)
    → length s.entries < s.max_size
    → add s a ≡ some t
    → contains a.keys k ≡ true
    → b.keys ≡ k ∷ ks
    → (label t b).0.flow_id ≡ (label s a).0.flow_id
label-joins_flow s t a b k ks few h shared first =
    let some_key = contains-ne a.keys k shared in
    joins_flow t b k ks first
      (ap (lookup k) (flows_kept s t a few h ∙ flows_of_keys s a some_key)
        ∙ lookup-set_flows (label s a).0.flow_id a.keys s.flows k
        ∙ rw shared refl)
      (flow_given s a some_key)
