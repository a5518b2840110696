-- ===== src/Consent/Tests.antt =====
-- Runs of the consent selection, and the theorems at concrete inputs.
use eudi_dev.Base.{
  ◌≤◌, negsuc, Text, codes, text_eq, contains, lookup, insert, truncate, is_integral, decimal, atoi,
  false, ◌&&◌, some, List, [], ◌∷◌, is_empty, length, All, ◌≡◌, refl,
}
use mathlib.Core.List.{Memᴰ}
use eudi_dev.Credential.{is_mdoc}
use eudi_dev.Credential.Resolve.{has_prefix, resolve_from, resolve_id, get_credential}
use eudi_dev.Dcql.Value.{str}
use eudi_dev.Dcql.Path.{index_int, claim_path_exists}
use eudi_dev.Dcql.Selector.{
  parse_sdjwt_selector, claim_value_at_path, claim_value_by_path, claim_value_by_selector,
  filter_claims,
}
use eudi_dev.Dcql.Match.{strict, CredentialMatch}
use eudi_dev.Dcql.Options.{ConsentQueryOptions, ConsentCredentialOptions}
use eudi_dev.Consent.{
  picks_for, default_choice, find_consent_query, find_consent_candidate, find_claim_set,
  picked_candidates, add_new, active_from, active_queries, ConsentResult,
}
use eudi_dev.Consent.Validate.{
  accepted, refused, single_query, required_skipped, check_sets, check_credentials, check_pick,
  check_picks, check_active, have_claim_set, validate_claim_set_choices, validate_with,
  validate_consent_selection, picks_non_matching, debug_only_selection,
}
use eudi_dev.Consent.Validate.Single.{picked_candidates-le_one}
use eudi_dev.Consent.Validate.Debug.{picked_candidates-matching}
use eudi_dev.Consent.Apply.{
  apply_claim_set_choices, taken_option, needed_from, picked_for, select_credentials,
  apply_consent_selection, disclosed_keys, apply_selected_claims,
}
use eudi_dev.Consent.Apply.Withheld.{Pairwise, IsWithheld, apply_selected_claims-IsWithheld}
use eudi_dev.Consent.Apply.Served.{IsServed, select_credentials-IsServed}
use eudi_dev.Dcql.Examples.{person}

everything : Unit {0}
unfolding text_eq contains lookup insert truncate is_integral decimal atoi is_mdoc has_prefix
    resolve_from resolve_id get_credential index_int claim_path_exists parse_sdjwt_selector
    claim_value_at_path claim_value_by_path claim_value_by_selector filter_claims default_choice
    find_consent_query find_consent_candidate find_claim_set picked_candidates add_new active_from
    active_queries check_sets check_credentials check_pick check_picks check_active have_claim_set
    validate_claim_set_choices validate_with validate_consent_selection picks_non_matching
    debug_only_selection apply_claim_set_choices taken_option needed_from picked_for
    select_credentials apply_consent_selection disclosed_keys apply_selected_claims
everything = tt

abbrev offered_match : Text → CredentialMatch
offered_match id = record {
  query_id = codes "pid";
  credential_id = id;
  format = codes "dc+sd-jwt";
  vct = codes "urn:eudi:pid:1";
  doc_type = [];
  claims = (codes "given_name", str (codes "Ann")) ∷ [];
  selected_keys = codes "given_name" ∷ [];
  untrusted_authority = false;
  unbound = false;
  empty_array_claims = [];
  missing_claims = [];
  mismatches = [];
  claim_sets = [];
}

abbrev pid_options : ConsentQueryOptions
pid_options = record {
  id = codes "pid";
  multiple = false;
  candidates = offered_match (codes "c1") ∷ offered_match (codes "c1x") ∷ [];
  non_matching = [];
}

abbrev options : ConsentCredentialOptions
options = record {
  sets = record { options = (codes "pid" ∷ []) ∷ []; optional = false; unmatched = [] } ∷ [];
  queries = pid_options ∷ [];
}

-- The user picks the second credential.
abbrev result : ConsentResult
result = record {
  picks = (codes "pid", codes "c1x" ∷ []) ∷ [];
  set_choices = [];
  claim_set_choices = [];
}

selection_tests :
    (validate_consent_selection (some options) result.picks [] [] ≡ accepted)
    × (validate_consent_selection
          (some options)
          ((codes "pid", codes "c1" ∷ codes "c1x" ∷ []) ∷ [])
          []
          []
        ≡ refused (single_query (codes "pid")))
    × (validate_consent_selection (some options) [] (negsuc 0 ∷ []) []
        ≡ refused (required_skipped 0))
    × (apply_consent_selection (some options) (offered_match (codes "c1") ∷ []) result
        ≡ some (offered_match (codes "c1x") ∷ []))
    × (apply_selected_claims
          (person ∷ [])
          strict
          (offered_match (codes "c1") ∷ [])
          ((codes "c1", codes "given_name" ∷ codes "address" ∷ []) ∷ [])
        ≡ offered_match (codes "c1") ∷ [])
    × (get_credential (person ∷ []) (codes "c") ≡ some person)
unfolding everything
selection_tests = (refl, refl, refl, refl, refl, refl)

checked : validate_with options result.picks result.set_choices result.claim_set_choices ≡ accepted
unfolding everything
checked = refl

some_pick : (is_empty result.picks && is_empty result.set_choices) ≡ false
some_pick = refl

known : find_consent_query options (codes "pid") ≡ some pid_options
unfolding everything
known = refl

pick_checked : check_pick options (codes "pid") (codes "c1x" ∷ []) ≡ accepted
unfolding everything
pick_checked = refl

select_credentials-IsServed_example :
    (selected : List CredentialMatch) × (select_credentials options
        (offered_match (codes "c1") ∷ [])
        result
      ≡ some selected)
    × All (IsServed options result.picks selected) (active_queries options result.set_choices)
select_credentials-IsServed_example =
    select_credentials-IsServed options (offered_match (codes "c1") ∷ []) result checked some_pick

picked_candidates-le_one_example : length (picked_candidates pid_options (codes "c1x" ∷ [])) ≤ 1
picked_candidates-le_one_example =
    picked_candidates-le_one options (codes "pid") (codes "c1x" ∷ []) pid_options known pick_checked
      refl (((λ e. cc), tt), (tt, tt))

apply_selected_claims-IsWithheld_example :
    Pairwise (IsWithheld (person ∷ [])) (offered_match (codes "c1") ∷ []) (
      apply_selected_claims
        (person ∷ [])
        strict
        (offered_match (codes "c1") ∷ [])
        ((codes "c1", codes "address" ∷ []) ∷ []))
apply_selected_claims-IsWithheld_example =
    apply_selected_claims-IsWithheld (person ∷ []) (offered_match (codes "c1") ∷ [])
      ((codes "c1", codes "address" ∷ []) ∷ [])

no_debug : debug_only_selection (some options) result.picks [] ≡ false
unfolding everything
no_debug = refl

picked_candidates-matching_example :
    All
      (λ m. Memᴰ m pid_options.candidates)
      (picked_candidates pid_options (picks_for (codes "pid") result.picks))
picked_candidates-matching_example =
    picked_candidates-matching options result.picks [] (codes "pid") pid_options no_debug known
