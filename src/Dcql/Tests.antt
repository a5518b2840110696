-- ===== src/Dcql/Tests.antt =====
-- Runs of the evaluation, and the theorems at concrete inputs.
use eudi_dev.Credential.{is_mdoc}
use eudi_dev.Credtype.{
  cut_prefix, before, is_number, extends, add_type, add_types, add_parent, add_base_types, chain,
  aka_vcts, answers,
}
use eudi_dev.Dcql.Value.{as_object, as_array, as_string, as_bool, Value, str, null}
use eudi_dev.Dcql.Path.{
  index_int, claim_path_exists, claim_path_index, select_segment, next_selection, select_from,
  select_json_claims,
}
use eudi_dev.Dcql.Selector.{
  format_float, segment_text, path_text, claim_path_string, flush_name, close_bracket, scan_char,
  scan_all, finish_scan, parse_sdjwt_selector, values_of, claim_value_at_path, claim_value_by_path,
  claim_value_by_selector, filter_claims,
}
use eudi_dev.Dcql.Claims.{
  Object, array_or_empty, array_member, mdoc_claim_key_from_path, json_claim_key_from_path,
  claim_key_from_path, numeric_claim_value, mdoc_value_as_json, claim_value_equals,
  values_constraint_satisfied, claim_values_at_path, build_claim_by_id_from, build_claim_by_id,
  values_allow,
}
use eudi_dev.Dcql.Claims.Select.{
  claim_selector_from_path, claim_selector_for, missing_claim_label, resolve_refs,
  claim_set_selectors, first_claim_set, select_from_claim_sets, claim_set_options,
  satisfiable_claim_sets, requested_claims, select_all_requested_claims, select_claims,
}
use eudi_dev.Dcql.Meta.{
  bool_member, matches_format, find_vct, vct_allowed, doc_type_allowed, matches_meta,
  requires_holder_binding,
}
use eudi_dev.Dcql.Trust.{
  authority_values, check_authority_key_identifiers, trusted_by, check_trusted_authorities,
}
use eudi_dev.Dcql.Match.{
  binding_check, type_mismatches, is_bound, is_untrusted, claim_mismatches, all_mismatches,
  offered_claim_sets, non_match, full_match, match_credential, match_credentials, match_queries,
  strict, debug, skipped, matched, CredentialMatch,
}
use eudi_dev.Dcql.Order.{
  credential_by_id, newer, issued, sort_newest_first, sort_by_preferred_format, more_trusted,
  sort_trusted_first, sort_complete_first,
}
use eudi_dev.Dcql.Batch.{
  batch_groups, fewest_uses, least_used, choose_batch_copy, keep_chosen, collapse_batch_matches,
}
use eudi_dev.Dcql.Sets.{
  multiple_queries, keep_one_from, keep_one_presentation_per_query, option_ids, satisfiable_option,
  ids_match_format, option_matches_format, order_options, first_option, needed_queries,
  apply_credential_sets, unmatched_from, unmatched_credential_queries, matches_for,
}
use eudi_dev.Dcql.Findings.{
  is_identifier_char, all_identifier_chars, is_dcql_identifier, id_findings, meta_findings,
  query_findings, findings_from, dcql_query_findings,
}
use eudi_dev.Dcql.Options.{
  candidate_order, non_matching_order, satisfied_options, completed_options, positions_from,
  set_options, all_set_options, build_consent_credential_options,
}
use eudi_dev.Dcql.Evaluate.{
  has_list_findings, order_matches, candidates, non_matching, selection, evaluate_queries,
  evaluate_dcql_with_options, Evaluation, refused, answered,
}
use eudi_dev.Base.Sort.{insert_left, sort_onto, reverse_onto, stable_sort}
use eudi_dev.Base.Base64.{encode_base64url}
use eudi_dev.Base.{
  any, subst, ◌<◌, ◌==◌, ◌||◌, ◌≤◌, text_eq, contains, lookup, insert, decimal, atoi, truncate,
  is_integral, is_below_zero, float_eq, float_of_int, Text, codes, true, false, not, Option, none,
  some, List, [], ◌∷◌, is_empty, length, map, All, ◌≡◌, ◌≢◌, ◌↔◌, refl, arith,
}
use eudi_dev.Dcql.Path.Laws.{
  IsMatchable, reach, select_json_claims-eq-reach, claim_path_exists-eq-select,
}
use eudi_dev.Dcql.Selector.RoundTrip.{
  IsNameChar, IsPlainName, IsPointerSegment, selector_segment, parse-claim_path_string,
}
use eudi_dev.Dcql.Selector.Values.{is_present, claim_value_at_path-exists}
use eudi_dev.Dcql.Claims.Laws.{first_keys, IsAnswered, select_claims-IsAnswered}
use eudi_dev.Dcql.Claims.Shown.{selector-is_present, mdoc_selector-is_present}
use eudi_dev.Dcql.Match.Offered.{match_credential-first_keys}
use eudi_dev.Dcql.Match.Strict.{selection_of, IsConforming, answer, match_credential-strict_iff}
use eudi_dev.Dcql.Sets.Options.{IsSatisfied}
use eudi_dev.Dcql.Options.{ConsentCredentialOptions}
use eudi_dev.Dcql.Evaluate.Laws.{
  IsSingle, queries_of, sets_of, IsDelivered, evaluate-IsDelivered, evaluate-IsSatisfied,
  evaluate-le_one,
}
use eudi_dev.Dcql.Evaluate.Strict.{IsAnswerOf, evaluate-strict}
use eudi_dev.Dcql.Findings.Request.{IsEntry, AreNew, id_of, dcql_query_findings_iff}
use eudi_dev.Dcql.Examples.{
  object, array, person, licence, plain_format, no_empty_array, test_reader, wallet_in,
  second_nationality, person_query, choice_query, request, set_of_options, set_request,
}

everything : Unit {0}
unfolding text_eq contains lookup insert decimal atoi truncate is_integral is_below_zero float_eq
    float_of_int is_mdoc cut_prefix before is_number extends add_type add_types add_parent
    add_base_types chain aka_vcts answers as_object as_array as_string as_bool index_int
    claim_path_exists claim_path_index select_segment next_selection select_from select_json_claims
    format_float segment_text path_text claim_path_string flush_name close_bracket scan_char
    scan_all finish_scan parse_sdjwt_selector values_of claim_value_at_path claim_value_by_path
    claim_value_by_selector filter_claims mdoc_claim_key_from_path json_claim_key_from_path
    claim_key_from_path numeric_claim_value mdoc_value_as_json claim_value_equals
    values_constraint_satisfied claim_values_at_path build_claim_by_id_from build_claim_by_id
    values_allow claim_selector_from_path claim_selector_for missing_claim_label resolve_refs
    claim_set_selectors first_claim_set select_from_claim_sets claim_set_options
    satisfiable_claim_sets requested_claims select_all_requested_claims select_claims matches_format
    find_vct vct_allowed doc_type_allowed matches_meta requires_holder_binding authority_values
    check_authority_key_identifiers trusted_by check_trusted_authorities binding_check
    type_mismatches is_bound is_untrusted claim_mismatches all_mismatches offered_claim_sets
    non_match full_match match_credential match_credentials match_queries credential_by_id newer
    issued sort_newest_first sort_by_preferred_format more_trusted sort_trusted_first
    sort_complete_first batch_groups fewest_uses least_used choose_batch_copy keep_chosen
    collapse_batch_matches multiple_queries keep_one_from keep_one_presentation_per_query option_ids
    satisfiable_option ids_match_format option_matches_format order_options first_option
    needed_queries apply_credential_sets unmatched_from unmatched_credential_queries
    is_identifier_char all_identifier_chars is_dcql_identifier id_findings meta_findings
    query_findings findings_from dcql_query_findings candidate_order non_matching_order
    satisfied_options completed_options positions_from set_options all_set_options
    build_consent_credential_options has_list_findings order_matches candidates non_matching
    selection evaluate_queries evaluate_dcql_with_options insert_left sort_onto reverse_onto
    stable_sort encode_base64url
everything = tt

abbrev credentials_of : Evaluation → List CredentialMatch
credentials_of (refused code) = []
credentials_of (answered ms options) = ms

abbrev options_of : Evaluation → Option ConsentCredentialOptions
options_of (refused code) = none
options_of (answered ms options) = options

abbrev person_match : CredentialMatch
person_match = answer test_reader person_query person

run_request :
    evaluate_dcql_with_options (wallet_in strict) request
    ≡ answered
        (person_match ∷ [])
        (options_of (evaluate_dcql_with_options (wallet_in strict) request))
unfolding everything
run_request = refl

run_sets :
    evaluate_dcql_with_options (wallet_in strict) set_request
    ≡ answered
        (person_match ∷ [])
        (options_of (evaluate_dcql_with_options (wallet_in strict) set_request))
unfolding everything
run_sets = refl

evaluate-strict_example :
    (is_empty (dcql_query_findings (some request)) ≡ true)
    × (has_list_findings (wallet_in strict) (queries_of request) ≡ false)
    × All (IsAnswerOf (wallet_in strict) (queries_of request)) (person_match ∷ [])
evaluate-strict_example =
    evaluate-strict (wallet_in strict) request (person_match ∷ [])
      (options_of (evaluate_dcql_with_options (wallet_in strict) request)) refl run_request

no_sets : sets_of request ≡ []
unfolding everything
no_sets = refl

some_sets : is_empty (sets_of set_request) ≡ false
unfolding everything
some_sets = refl

person_fields :
    (query : Object) → as_object (object person_query) ≡ some query → person_query ≡ query
unfolding everything
person_fields query e = cc

not_multiple : bool_member (codes "multiple") person_query ≢ some true
unfolding everything
not_multiple e = cc

pid-IsSingle : All (IsSingle (codes "pid")) (queries_of request)
unfolding everything
pid-IsSingle = (
  (λ query e f.
      subst (λ q. bool_member (codes "multiple") q ≢ some true) (person_fields query e)
        not_multiple),
  tt,
)

some_match : person_match ∷ [] ≢ []
some_match e = cc

evaluate-IsDelivered_example : All (IsDelivered (person_match ∷ [])) (queries_of request)
evaluate-IsDelivered_example =
    evaluate-IsDelivered (wallet_in strict) request (person_match ∷ [])
      (options_of (evaluate_dcql_with_options (wallet_in strict) request)) run_request no_sets
      some_match

evaluate-IsSatisfied_example : All (IsSatisfied (person_match ∷ [])) (sets_of set_request)
evaluate-IsSatisfied_example =
    evaluate-IsSatisfied (wallet_in strict) set_request (person_match ∷ [])
      (options_of (evaluate_dcql_with_options (wallet_in strict) set_request)) run_sets some_sets
      some_match

evaluate-le_one_example : length (matches_for (codes "pid") (person_match ∷ [])) ≤ 1
evaluate-le_one_example =
    evaluate-le_one (wallet_in strict) request (person_match ∷ [])
      (options_of (evaluate_dcql_with_options (wallet_in strict) request)) (codes "pid") run_request
      pid-IsSingle

match_credential-strict_iff_example :
    ((match_credential test_reader strict person_query person ≡ matched person_match) ↔ (
      IsConforming test_reader person_query person
      × (person_match ≡ answer test_reader person_query person)))
    × ((match_credential test_reader strict person_query person ≡ skipped)
        ↔ (IsConforming test_reader person_query person → ⊥))
match_credential-strict_iff_example =
    match_credential-strict_iff test_reader person_query person person_match

abbrev nationalities : Value
nationalities = array (str (codes "DE") ∷ str (codes "FR") ∷ [])

names_of : (k : Text) → any (λ c. c == b'.' || c == b'[') k ≡ false → All IsNameChar k
names_of [] h = tt
names_of (c ∷ k) h = (ground arith, names_of k (ground arith))

no_mark : any (λ c. c == b'.' || c == b'[') (codes "nationalities") ≡ false
no_mark = refl

plain_name : IsPlainName (codes "nationalities")
plain_name = ((λ e. cc), names_of (codes "nationalities") no_mark)

second-IsMatchable : IsMatchable second_nationality
unfolding everything
second-IsMatchable = ((refl, refl), tt)

second_is_pointer : All IsPointerSegment second_nationality
unfolding everything
second_is_pointer = (record { index = 1; value = refl; integral = refl; small = omega arith }, tt)

no_claim_sets : is_empty (array_or_empty (array_member (codes "claim_sets") person_query)) ≡ true
unfolding everything
no_claim_sets = refl

nothing_missing :
    (select_claims plain_format no_empty_array person person_query).missing_required ≡ []
unfolding everything
nothing_missing = refl

is_json : is_mdoc person ≡ false
unfolding everything
is_json = refl

selector_there :
    is_empty (
      claim_selector_from_path plain_format person
        (str (codes "nationalities") ∷ second_nationality))
    ≡ false
unfolding everything
selector_there = refl

element_there :
    is_empty
      (claim_selector_from_path plain_format licence (str (codes "ns") ∷ str (codes "name") ∷ []))
    ≡ false
unfolding everything
element_there = refl

is_element : is_mdoc licence ≡ true
unfolding everything
is_element = refl

none_multiple : contains [] (codes "pid") ≡ false
unfolding everything
none_multiple = refl

set_answered : apply_credential_sets (person_match ∷ []) (set_of_options ∷ []) [] ≢ []
unfolding everything
set_answered e = cc

select_json_claims-eq-reach_example :
    select_json_claims nationalities (null ∷ []) ≡ reach (null ∷ []) nationalities
select_json_claims-eq-reach_example = select_json_claims-eq-reach nationalities (null ∷ [])

claim_path_exists-eq-select_example :
    claim_path_exists nationalities second_nationality
    ≡ not (is_empty (select_json_claims nationalities second_nationality))
claim_path_exists-eq-select_example =
    claim_path_exists-eq-select nationalities second_nationality second-IsMatchable

parse-claim_path_string_example :
    parse_sdjwt_selector
      (claim_path_string plain_format (str (codes "nationalities") ∷ second_nationality))
    ≡ some (str (codes "nationalities") ∷ map selector_segment second_nationality)
parse-claim_path_string_example =
    parse-claim_path_string plain_format (codes "nationalities") second_nationality plain_name
      second_is_pointer

claim_value_at_path-exists_example :
    is_present (claim_value_at_path nationalities (map selector_segment second_nationality))
    ≡ claim_path_exists nationalities second_nationality
claim_value_at_path-exists_example =
    claim_value_at_path-exists second_nationality nationalities second_is_pointer

-- The query with two claim sets that `person` can answer.
abbrev offering_query : Object
offering_query =
    (codes "claim_sets", array (array (str (codes "l") ∷ []) ∷ array (str (codes "n") ∷ []) ∷ []))
    ∷ person_query

abbrev offering_match : CredentialMatch
offering_match =
    full_match test_reader debug person offering_query
      (selection_of test_reader offering_query person) false false

offering_matched : match_credential test_reader debug offering_query person ≡ matched offering_match
unfolding everything
offering_matched = refl

some_offer : is_empty offering_match.claim_sets ≡ false
unfolding everything
some_offer = refl

match_credential-first_keys_example :
    (debug ≡ debug)
    × (1 < length offering_match.claim_sets)
    × (offering_match.selected_keys ≡ first_keys offering_match.claim_sets)
match_credential-first_keys_example =
    match_credential-first_keys test_reader debug offering_query person offering_match
      offering_matched some_offer

-- The first claim set names an unknown claim, so the second one is selected.
second_set :
    (select_claims plain_format no_empty_array person choice_query).selected_keys
    ≡ codes "address.locality" ∷ []
unfolding everything
second_set = refl

select_claims-IsAnswered_example :
    All
      (IsAnswered plain_format person)
      (array_or_empty (array_member (codes "claims") person_query))
select_claims-IsAnswered_example =
    select_claims-IsAnswered plain_format person no_empty_array person_query no_claim_sets
      nothing_missing

selector-is_present_example :
    is_present (
      claim_value_by_selector person (
        claim_selector_from_path plain_format person
          (str (codes "nationalities") ∷ second_nationality)))
    ≡ true
selector-is_present_example =
    selector-is_present plain_format person (codes "nationalities") second_nationality is_json
      plain_name second_is_pointer selector_there

mdoc_selector-is_present_example :
    is_present (
      claim_value_by_selector licence (
        claim_selector_from_path plain_format licence (str (codes "ns") ∷ str (codes "name") ∷ [])))
    ≡ true
mdoc_selector-is_present_example =
    mdoc_selector-is_present plain_format licence (str (codes "ns") ∷ str (codes "name") ∷ [])
      is_element element_there

dcql_query_findings_iff_example : (is_empty (dcql_query_findings (some request)) ≡ true) ↔ (
    (is_empty (array_or_empty (array_member (codes "credentials") request)) ≡ false)
    × All IsEntry (array_or_empty (array_member (codes "credentials") request))
    × AreNew [] (map id_of (array_or_empty (array_member (codes "credentials") request))))
dcql_query_findings_iff_example = dcql_query_findings_iff request
