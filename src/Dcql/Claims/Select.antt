-- ===== src/Dcql/Claims/Select.antt =====
-- Claim selection: `selectClaims` and the functions that it calls.
use eudi_dev.Base.{
  ◌>>=◌, ℕ, ◌+◌, Float64, Text, codes, lookup, Bool, true, false, Option, none, some, List, [], ◌∷◌,
  ◌++◌, is_empty, if◌then◌else◌,
}
use eudi_dev.Credential.{StoredCredential, is_mdoc}
use eudi_dev.Dcql.Value.{Value, str, as_object, as_array, as_string}
use eudi_dev.Dcql.Selector.{claim_path_string, filter_claims}
use eudi_dev.Dcql.Claims.{
  Object, array_member, array_or_empty, claim_key_from_path, ClaimSelection, ConsentClaimSet,
  build_claim_by_id, values_allow,
}

-- `format_other` is `strconv.FormatFloat` on the numbers that are no small integers.
module _ (format_other : Float64 → Text) where
  -- `claimSelectorFromPath`.
  unfoldable pub claim_selector_from_path : StoredCredential → List Value → Text
  unfolding claim_key_from_path
  claim_selector_from_path cred path =
      if is_empty path
      then []
      else if is_mdoc cred
      then claim_key_from_path cred path
      else if is_empty (claim_key_from_path cred path)
      then []
      else claim_path_string format_other path

  -- `claimSelectorFor`.
  unfoldable pub claim_selector_for : StoredCredential → Object → Text
  unfolding claim_selector_from_path values_allow
  claim_selector_for cred claim_query = elim (array_member (codes "path") claim_query) [
    | none ↦ []
    | some path ↦
        let selector = claim_selector_from_path cred path in
        if is_empty selector
        then []
        else if values_allow cred claim_query path
        then selector
        else []
  ]

  -- `missingClaimLabel`.
  unfoldable pub missing_claim_label : StoredCredential → List Value → Text
  missing_claim_label cred (str ns ∷ str el ∷ []) =
      if is_mdoc cred
      then ns ++ b':' ∷ el
      else claim_path_string format_other (str ns ∷ str el ∷ [])
  missing_claim_label cred path = claim_path_string format_other path

  -- The loop of `claimSetSelectors`.
  unfoldable pub resolve_refs :
      StoredCredential → List (Text × Object) → List Value → Option (List Text)
  unfolding claim_selector_for
  resolve_refs cred by_id [] = some []
  resolve_refs cred by_id (ref ∷ refs) = do
    id ← as_string ref
    claim_query ← lookup id by_id
    let selector = claim_selector_for cred claim_query
    rest ← resolve_refs cred by_id refs
    if is_empty selector then none else some (selector ∷ rest)

  -- `claimSetSelectors`; `none` is a claim set that the credential cannot answer.
  unfoldable pub claim_set_selectors :
      StoredCredential → List (Text × Object) → Value → Option (List Text)
  unfolding resolve_refs
  claim_set_selectors cred by_id claim_set = do
    ids ← as_array claim_set
    selected ← resolve_refs cred by_id ids
    if is_empty selected then none else some selected

  -- The loop of `selectFromClaimSets`.
  unfoldable pub first_claim_set : StoredCredential → List (Text × Object) → List Value → List Text
  unfolding claim_set_selectors
  first_claim_set cred by_id [] = []
  first_claim_set cred by_id (cs ∷ claim_sets) =
      let later = first_claim_set cred by_id claim_sets in
      elim (claim_set_selectors cred by_id cs) [ none ↦ later | some selected ↦ selected ]

  -- `selectFromClaimSets`.
  unfoldable pub select_from_claim_sets : StoredCredential → List Value → List Value → List Text
  unfolding first_claim_set build_claim_by_id
  select_from_claim_sets cred claims_query claim_sets =
      first_claim_set cred (build_claim_by_id claims_query) claim_sets

  -- The loop of `satisfiableClaimSets`, at position `i`.
  unfoldable pub claim_set_options :
      StoredCredential → List (Text × Object) → ℕ → List Value → List ConsentClaimSet
  unfolding claim_set_selectors
  claim_set_options cred by_id i [] = []
  claim_set_options cred by_id i (cs ∷ claim_sets) =
      let later = claim_set_options cred by_id (i + 1) claim_sets in
      elim (claim_set_selectors cred by_id cs) [
        | none ↦ later
        | some selected ↦
            record { index = i; keys = selected; claims = filter_claims cred selected } ∷ later
      ]

  -- `satisfiableClaimSets`.
  unfoldable pub satisfiable_claim_sets : StoredCredential → Object → List ConsentClaimSet
  unfolding claim_set_options build_claim_by_id
  satisfiable_claim_sets cred query =
      let claims_query = array_or_empty (array_member (codes "claims") query) in
      let claim_sets = array_or_empty (array_member (codes "claim_sets") query) in
      if is_empty claims_query
      then []
      else if is_empty claim_sets
      then []
      else claim_set_options cred (build_claim_by_id claims_query) 0 claim_sets

-- `discloses_empty_array` reads the disclosures of the credential (`disclosesEmptyArray`).
module _ (format_other : Float64 → Text)
    (discloses_empty_array : StoredCredential → List Value → Bool) where
  abbrev selects : StoredCredential → List Value → Text → ClaimSelection → ClaimSelection
  selects cred path selector rest = record {
    selected_keys = selector ∷ rest.selected_keys;
    missing_required = rest.missing_required;
    empty_arrays =
        if discloses_empty_array cred path
        then claim_path_string format_other path ∷ rest.empty_arrays
        else rest.empty_arrays;
    match = rest.match;
  }

  abbrev misses : StoredCredential → List Value → ClaimSelection → ClaimSelection
  misses cred path rest = record {
    selected_keys = rest.selected_keys;
    missing_required = missing_claim_label format_other cred path ∷ rest.missing_required;
    empty_arrays = rest.empty_arrays;
    match = rest.match;
  }

  -- The loop of `selectAllRequestedClaims`; entries that are no objects or have no path are skipped.
  unfoldable pub requested_claims : StoredCredential → List Value → ClaimSelection
  unfolding claim_selector_for
  requested_claims cred [] = record {
    selected_keys = [];
    missing_required = [];
    empty_arrays = [];
    match = true;
  }
  requested_claims cred (cq ∷ cqs) =
      let rest = requested_claims cred cqs in
      elim (as_object cq) [
        | none ↦ rest
        | some claim_query ↦ elim (array_member (codes "path") claim_query) [
          | none ↦ rest
          | some path ↦
              let selector = claim_selector_for format_other cred claim_query in
              if is_empty selector then misses cred path rest else selects cred path selector rest
        ]
      ]

  -- `selectAllRequestedClaims`.
  unfoldable pub select_all_requested_claims : StoredCredential → List Value → ClaimSelection
  unfolding requested_claims
  select_all_requested_claims cred claims_query =
      let all = requested_claims cred claims_query in
      if is_empty all.selected_keys
      then record {
        selected_keys = [];
        missing_required = all.missing_required;
        empty_arrays = [];
        match = false;
      }
      else all

  -- `selectClaims`.
  unfoldable pub select_claims : StoredCredential → Object → ClaimSelection
  unfolding select_from_claim_sets select_all_requested_claims
  select_claims cred query =
      let claims_query = array_or_empty (array_member (codes "claims") query) in
      let claim_sets = array_or_empty (array_member (codes "claim_sets") query) in
      let selected = select_from_claim_sets format_other cred claims_query claim_sets in
      if is_empty claims_query
      then record { selected_keys = []; missing_required = []; empty_arrays = []; match = true }
      else if is_empty claim_sets
      then select_all_requested_claims cred claims_query
      else record {
        selected_keys = selected;
        missing_required = [];
        empty_arrays = [];
        match = if is_empty selected then false else true;
      }
