-- ===== src/Proxy/Store/Tests.antt =====
-- Runs of the store, and the theorem at a concrete input.
use eudi_dev.Base.{
  true, ◌>>=◌, ◌-◌, Text, codes, text_eq, contains, lookup, insert, delete, decimal, none, some,
  List, [], ◌∷◌, length, map, drop, ◌≡◌, refl, arith,
}
use eudi_dev.Proxy.Store.{
  TrafficEntry, Store, new_store, find_flow, set_flows, delete_flows, label, add, add_all,
  flow_entries,
}
use eudi_dev.Proxy.Store.Flows.{label-joins_flow}
use eudi_dev.Proxy.Store.Newest.{seen, numbered, add_all-newest}

everything : Unit {0}
unfolding text_eq lookup insert delete decimal find_flow set_flows delete_flows label add add_all
    flow_entries
everything = tt

abbrev with_keys : List Text → TrafficEntry
with_keys keys = record { id = 0; flow_id = []; keys = keys }

abbrev request : TrafficEntry
request = with_keys (codes "vp:state:1" ∷ [])

abbrev flows_of : Store → List Text
flows_of s = map (λ e. e.flow_id) s.entries

-- Entries that share a key share a flow. When the first of them is evicted the key is forgotten, so the
-- next entry starts a flow, although entries of the old one are still there.
flow_tests :
    ((add_all (new_store 5) (request ∷ request ∷ request ∷ request ∷ []) >>= λ s. some (flows_of s))
      ≡ some (codes "flow-1" ∷ codes "flow-1" ∷ codes "flow-1" ∷ codes "flow-1" ∷ []))
    × ((add_all (new_store 2) (request ∷ request ∷ request ∷ request ∷ []) >>= λ s.
          some (flows_of s))
        ≡ some (codes "flow-1" ∷ codes "flow-2" ∷ []))
    × (add (new_store 0) request ≡ none)
unfolding everything
flow_tests = (refl, refl, refl)

add_all-newest_example :
    (s : Store) × (add_all (new_store 2) (request ∷ with_keys [] ∷ request ∷ []) ≡ some s)
    × (map seen s.entries
        ≡ drop
            (length (numbered 0 (request ∷ with_keys [] ∷ request ∷ [])) - 2)
            (numbered 0 (request ∷ with_keys [] ∷ request ∷ [])))
add_all-newest_example = add_all-newest 2 (request ∷ with_keys [] ∷ request ∷ []) (omega arith)

abbrev stored : Store
stored = record {
  entries = record { id = 1; flow_id = codes "flow-1"; keys = codes "vp:state:1" ∷ [] } ∷ [];
  max_size = 5;
  next_id = 1;
  next_flow_id = 1;
  flows = (codes "vp:state:1", codes "flow-1") ∷ [];
}

added : add (new_store 5) request ≡ some stored
unfolding everything
added = refl

shared : contains request.keys (codes "vp:state:1") ≡ true
unfolding everything contains
shared = refl

label-joins_flow_example :
    (label stored request).0.flow_id ≡ (label (new_store 5) request).0.flow_id
label-joins_flow_example =
    label-joins_flow (new_store 5) stored request request (codes "vp:state:1") [] (omega arith)
      added shared refl
