-- ===== src/Proxy/Store.antt =====
-- internal/proxy/store.go: the traffic entries that the proxy keeps.
pub mod Newest
pub mod Flows
mod Tests
use eudi_dev.Base.{
  ◌>>=◌, ℕ, suc, ◌+◌, Text, codes, text_eq, lookup, insert, delete, decimal, Bool, true, false,
  Option, none, some, List, [], ◌∷◌, ◌++◌, is_empty, length, leb, if◌then◌else◌,
}

-- The fields of `TrafficEntry` that the store reads. `keys` are its correlation keys
-- (`ExtractCorrelationKeys`), which depend on the request and the response alone.
pub record TrafficEntry : Type 0 where
  pub id : ℕ
  pub flow_id : Text
  pub keys : List Text

-- `Store`, without its subscribers, which get each entry and do not change it.
pub record Store : Type 0 where
  pub entries : List TrafficEntry
  pub max_size : ℕ
  pub next_id : ℕ
  pub next_flow_id : ℕ
  pub flows : List (Text × Text)

-- `NewStore`.
abbrev pub new_store : ℕ → Store
new_store max_size = record {
  entries = [];
  max_size = max_size;
  next_id = 0;
  next_flow_id = 0;
  flows = [];
}

-- The first loop over the keys: the flow of the first key that has one.
unfoldable pub find_flow : List (Text × Text) → List Text → Text → Text
find_flow flows [] flow = flow
find_flow flows (k ∷ ks) flow =
    let later = find_flow flows ks flow in
    elim (lookup k flows) [ none ↦ later | some found ↦ found ]

-- The second loop over the keys.
unfoldable pub set_flows : Text → List Text → List (Text × Text) → List (Text × Text)
set_flows flow [] flows = flows
set_flows flow (k ∷ ks) flows = set_flows flow ks (insert k flow flows)

-- The loop over the keys of the entry that is evicted.
unfoldable pub delete_flows : List Text → List (Text × Text) → List (Text × Text)
delete_flows [] flows = flows
delete_flows (k ∷ ks) flows = delete_flows ks (delete k flows)

-- `fmt.Sprintf("flow-%d", n)`.
abbrev pub flow_name : ℕ → Text
flow_name n = codes "flow-" ++ decimal n

-- The entry with its id and its flow, the last flow number, and the flows of the keys.
unfoldable pub label : Store → TrafficEntry → TrafficEntry × ℕ × List (Text × Text)
label s e =
    let found = find_flow s.flows e.keys e.flow_id in
    let number = if is_empty found then suc s.next_flow_id else s.next_flow_id in
    let flow = if is_empty found then flow_name (suc s.next_flow_id) else found in
    if is_empty e.keys
    then (
      record { id = suc s.next_id; flow_id = e.flow_id; keys = e.keys },
      s.next_flow_id,
      s.flows,
    )
    else (
      record { id = suc s.next_id; flow_id = flow; keys = e.keys },
      number,
      set_flows flow e.keys s.flows,
    )

-- `Add`; `none` is the panic of `s.entries[0]` where there is none.
unfoldable pub add : Store → TrafficEntry → Option Store
add s e =
    let (entry, number, flows) = label s e in
    let kept = some (record {
      entries = s.entries ++ entry ∷ [];
      max_size = s.max_size;
      next_id = suc s.next_id;
      next_flow_id = number;
      flows = flows;
    }) in
    let evicting : Option Store = elim s.entries [
      | [] ↦ none
      | evicted ∷ rest ↦ some (record {
        entries = rest ++ entry ∷ [];
        max_size = s.max_size;
        next_id = suc s.next_id;
        next_flow_id = number;
        flows = delete_flows evicted.keys flows;
      })
    ] in
    if leb s.max_size (length s.entries) then evicting else kept

-- Calls of `Add` in turn.
unfoldable pub add_all : Store → List TrafficEntry → Option Store
add_all s [] = some s
add_all s (e ∷ es) = add s e >>= λ next. add_all next es

-- `FlowEntries`.
unfoldable pub flow_entries : Text → List TrafficEntry → List TrafficEntry
flow_entries flow [] = []
flow_entries flow (e ∷ es) =
    let rest = flow_entries flow es in if text_eq e.flow_id flow then e ∷ rest else rest
