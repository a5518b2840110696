-- ===== src/Dcql/Options.antt =====
-- `buildConsentCredentialOptions`: what the consent dialog offers.
use eudi_dev.Base.{
  ℕ, suc, Text, codes, contains, Bool, not, ◌||◌, Option, none, some, List, [], ◌∷◌, ◌++◌, is_empty,
  if◌then◌else◌, length, map,
}
use eudi_dev.Dcql.Value.{Value, as_object}
use eudi_dev.Dcql.Claims.{Object, array_member}
use eudi_dev.Dcql.Meta.{text_member}
use eudi_dev.Dcql.Match.{CredentialMatch}
use eudi_dev.Dcql.Sets.{matches_for, has_match, satisfiable_option, order_options, is_required}

-- `ConsentSetOptions`.
pub record ConsentSetOptions : Type 0 where
  pub options : List (List Text)
  pub optional : Bool
  pub unmatched : List ℕ

-- `ConsentQueryOptions`.
pub record ConsentQueryOptions : Type 0 where
  pub id : Text
  pub multiple : Bool
  pub candidates : List CredentialMatch
  pub non_matching : List CredentialMatch

-- `ConsentCredentialOptions`.
pub record ConsentCredentialOptions : Type 0 where
  pub sets : List ConsentSetOptions
  pub queries : List ConsentQueryOptions

-- The query ids of the candidates, each at its first place.
unfoldable pub candidate_order : List Text → List CredentialMatch → List Text
candidate_order order [] = order
candidate_order order (m ∷ ms) =
    candidate_order (if contains order m.query_id then order else order ++ m.query_id ∷ []) ms

-- Queries that only non-matching credentials answer come last, in request order.
unfoldable pub non_matching_order :
    List CredentialMatch → List CredentialMatch → List Text → List Value → List Text
non_matching_order candidates non_matching order [] = order
non_matching_order candidates non_matching order (cq ∷ cqs) =
    let id : Text = elim (as_object cq) [
      | none ↦ []
      | some query ↦ text_member (codes "id") query
    ] in
    non_matching_order candidates non_matching
      (if has_match candidates id
        then order
        else if has_match non_matching id
        then (if contains order id then order else order ++ id ∷ [])
        else order)
      cqs

abbrev query_options :
    List CredentialMatch → List CredentialMatch → List Text → Text → ConsentQueryOptions
query_options candidates non_matching multiple id = record {
  id = id;
  multiple = contains multiple id;
  candidates = matches_for id candidates;
  non_matching = matches_for id non_matching;
}

-- The options of a set that the candidates satisfy.
unfoldable pub satisfied_options : List CredentialMatch → List Value → List (List Text)
satisfied_options candidates [] = []
satisfied_options candidates (opt ∷ opts) =
    let rest = satisfied_options candidates opts in
    elim (satisfiable_option (has_match candidates) opt) [ none ↦ rest | some ids ↦ ids ∷ rest ]

-- The options that only non-matching credentials complete.
unfoldable pub completed_options :
    List CredentialMatch → List CredentialMatch → List Value → List (List Text)
completed_options candidates non_matching [] = []
completed_options candidates non_matching (opt ∷ opts) =
    let rest = completed_options candidates non_matching opts in
    elim (satisfiable_option (has_match candidates) opt) [
      | some ids ↦ rest
      | none ↦
          elim (satisfiable_option (λ id. has_match candidates id || has_match non_matching id)
            opt) [ none ↦ rest | some ids ↦ ids ∷ rest ]
    ]

-- `set.Unmatched`: the positions from `i` on, one for each option.
unfoldable pub positions_from : ℕ → List (List Text) → List ℕ
positions_from i [] = []
positions_from i (o ∷ os) = i ∷ positions_from (suc i) os

-- The set options of one entry of `credential_sets`.
unfoldable pub set_options :
    List CredentialMatch → List CredentialMatch → Text → Object → List Value → ConsentSetOptions
set_options candidates non_matching preferred set raw =
    let ordered = order_options raw candidates preferred in
    let satisfied = satisfied_options candidates ordered in
    let completed = completed_options candidates non_matching ordered in
    record {
      options = satisfied ++ completed;
      optional = not (is_required set);
      unmatched = positions_from (length satisfied) completed;
    }

-- The loop over `credential_sets`.
unfoldable pub all_set_options :
    List CredentialMatch → List CredentialMatch → Text → List Value → List ConsentSetOptions
all_set_options candidates non_matching preferred [] = []
all_set_options candidates non_matching preferred (cs ∷ sets) =
    let rest = all_set_options candidates non_matching preferred sets in
    elim (as_object cs) [
      | none ↦ rest
      | some set ↦ elim (array_member (codes "options") set) [
        | none ↦ rest
        | some raw ↦
            let options = set_options candidates non_matching preferred set raw in
            if is_empty options.options then rest else options ∷ rest
      ]
    ]

-- `buildConsentCredentialOptions`.
unfoldable pub build_consent_credential_options :
    List CredentialMatch
    → List CredentialMatch
    → List Value
    → List Value
    → List Text
    → Text
    → Option ConsentCredentialOptions
build_consent_credential_options candidates non_matching queries sets multiple preferred =
    let order =
      non_matching_order candidates non_matching (candidate_order [] candidates) queries in
    let options = some (record {
      sets = all_set_options candidates non_matching preferred sets;
      queries = map (query_options candidates non_matching multiple) order;
    }) in
    if is_empty candidates then (if is_empty non_matching then none else options) else options
