-- ===== src/Consent/Validate.antt =====
-- `ValidateConsentSelection`.
pub mod Single
pub mod Debug
use eudi_dev.Base.{
  ℕ, suc, ℤ, pos, negsuc, eq_ℤ, Text, text_eq, contains, lookup, Bool, true, false, not, ◌&&◌, ◌||◌,
  Option, none, some, List, [], ◌∷◌, ◌++◌, is_empty, length, any, if◌then◌else◌, ltb,
}
use eudi_dev.Dcql.Match.{CredentialMatch}
use eudi_dev.Dcql.Options.{ConsentSetOptions, ConsentQueryOptions, ConsentCredentialOptions}
use eudi_dev.Consent.{
  choice_of, later_choices, option_at, find_consent_query, find_consent_candidate, find_claim_set,
  picks_for, picked_candidates, active_queries,
}

-- The errors, by what their texts report.
pub data SelectionError : Type 0 where
  no_selection too_many_choices nothing_answered : SelectionError
  required_skipped : ℕ → SelectionError
  no_option : ℕ → ℤ → SelectionError
  unknown_query no_pick single_query no_match no_claim_set : Text → SelectionError
  picked_twice not_matching : Text → Text → SelectionError

-- `error`: nil, or why the selection is refused.
pub data Verdict : Type 0 where
  accepted : Verdict
  refused : SelectionError → Verdict

-- `if err := ...; err != nil { return err }`.
abbrev pub and_then : Verdict → Verdict → Verdict
and_then accepted later = later
and_then (refused e) later = refused e

-- The loop over the sets, at position `i`; `answered` is the variable.
unfoldable pub check_sets : ℕ → Bool → List ConsentSetOptions → List ℤ → Verdict
check_sets i answered [] choices = if answered then accepted else refused nothing_answered
check_sets i answered (set ∷ sets) choices =
    let choice = choice_of set choices in
    let skipped = check_sets (suc i) answered sets (later_choices choices) in
    let taken = check_sets (suc i) true sets (later_choices choices) in
    if eq_ℤ choice (negsuc 0)
    then (if set.optional then skipped else refused (required_skipped i))
    else elim (option_at set choice) [ none ↦ refused (no_option i choice) | some ids ↦ taken ]

-- The loop over the credentials picked for a query.
unfoldable pub check_credentials : ConsentQueryOptions → List Text → List Text → Verdict
check_credentials query seen [] = accepted
check_credentials query seen (id ∷ ids) =
    let later = check_credentials query (id ∷ seen) ids in
    if contains seen id
    then refused (picked_twice id query.id)
    else elim (find_consent_candidate query id) [
      | none ↦ refused (not_matching id query.id)
      | some m ↦ later
    ]

-- One round of the loop over the picks.
unfoldable pub check_pick : ConsentCredentialOptions → Text → List Text → Verdict
check_pick options qid ids = elim (find_consent_query options qid) [
  | none ↦ refused (unknown_query qid)
  | some query ↦
      if is_empty ids
      then refused (no_pick qid)
      else if ltb 1 (length ids) && not query.multiple
      then refused (single_query qid)
      else check_credentials query [] ids
]

unfoldable pub check_picks : ConsentCredentialOptions → List (Text × List Text) → Verdict
check_picks options [] = accepted
check_picks options ((qid, ids) ∷ picks) =
    and_then (check_pick options qid ids) (check_picks options picks)

-- The loop over the active queries.
unfoldable pub check_active :
    ConsentCredentialOptions → List (Text × List Text) → List Text → Verdict
check_active options picks [] = accepted
check_active options picks (qid ∷ qids) =
    let later = check_active options picks qids in
    elim (find_consent_query options qid) [
      | none ↦ later
      | some query ↦
          if is_empty (picked_candidates query (picks_for qid picks))
          then refused (no_match qid)
          else later
    ]

-- `validateClaimSetChoices`.
unfoldable pub have_claim_set : ℤ → List CredentialMatch → Bool
have_claim_set index [] = true
have_claim_set index (m ∷ ms) =
    let later = have_claim_set index ms in
    elim (find_claim_set m index) [ none ↦ false | some set ↦ later ]

unfoldable pub validate_claim_set_choices :
    ConsentCredentialOptions → List (Text × List Text) → List (Text × ℤ) → Verdict
validate_claim_set_choices options picks [] = accepted
validate_claim_set_choices options picks ((qid, index) ∷ choices) =
    let later = validate_claim_set_choices options picks choices in
    elim (find_consent_query options qid) [
      | none ↦ refused (unknown_query qid)
      | some query ↦
          if have_claim_set index (picked_candidates query (picks_for qid picks))
          then later
          else refused (no_claim_set qid)
    ]

-- What `ValidateConsentSelection` does with options.
unfoldable pub validate_with :
    ConsentCredentialOptions → List (Text × List Text) → List ℤ → List (Text × ℤ) → Verdict
validate_with options picks set_choices claim_sets =
    if ltb (length options.sets) (length set_choices)
    then refused too_many_choices
    else and_then (check_sets 0 (is_empty options.sets) options.sets set_choices) (
        and_then (check_picks options picks) (
          and_then (check_active options picks (active_queries options set_choices))
            (validate_claim_set_choices options picks claim_sets)))

-- `ValidateConsentSelection`.
unfoldable pub validate_consent_selection :
    Option ConsentCredentialOptions → List (Text × List Text) → List ℤ → List (Text × ℤ) → Verdict
validate_consent_selection none picks set_choices claim_sets =
    if is_empty picks && (is_empty set_choices && is_empty claim_sets)
    then accepted
    else refused no_selection
validate_consent_selection (some options) picks set_choices claim_sets =
    validate_with options picks set_choices claim_sets

-- The loop of `debugOnlySelection`: whether a pick is a non-matching credential.
unfoldable pub picks_non_matching : ConsentCredentialOptions → List (Text × List Text) → Bool
picks_non_matching options [] = false
picks_non_matching options ((qid, ids) ∷ picks) =
    let later = picks_non_matching options picks in
    elim (find_consent_query options qid) [
      | none ↦ later
      | some query ↦
          if any (λ id. any (λ m. text_eq m.credential_id id) query.non_matching) ids
          then true
          else later
    ]

-- `debugOnlySelection`.
unfoldable pub debug_only_selection :
    Option ConsentCredentialOptions → List (Text × List Text) → List (Text × ℤ) → Bool
debug_only_selection none picks claim_sets = false
debug_only_selection (some options) picks claim_sets =
    if picks_non_matching options picks then true else not (is_empty claim_sets)
