-- ===== src/Consent/Apply.antt =====
-- `ApplyConsentSelection` and `applySelectedClaims`: what is presented after consent.
pub mod Withheld
pub mod Chosen
pub mod Picked
pub mod Served
use eudi_dev.Base.{
  ◌>>=◌, ℕ, ℤ, pos, negsuc, eq_ℤ, Text, text_eq, contains, lookup, Bool, true, false, ◌&&◌, Option,
  none, some, List, [], ◌∷◌, ◌++◌, is_empty, get_elem?, keep_if, map, if◌then◌else◌,
}
use eudi_dev.Credential.{StoredCredential}
use eudi_dev.Credential.Resolve.{get_credential}
use eudi_dev.Dcql.Value.{Value}
use eudi_dev.Dcql.Selector.{filter_claims}
use eudi_dev.Dcql.Match.{ValidationMode, is_debug, CredentialMatch}
use eudi_dev.Dcql.Options.{ConsentSetOptions, ConsentQueryOptions, ConsentCredentialOptions}
use eudi_dev.Consent.{
  choice_of, later_choices, option_at, add_new, find_consent_query, find_claim_set, picks_for,
  picked_candidates, ConsentResult,
}

-- The match with other keys and claims.
abbrev pub with_claims : CredentialMatch → List Text → List (Text × Value) → CredentialMatch
with_claims m keys claims = record {
  query_id = m.query_id;
  credential_id = m.credential_id;
  format = m.format;
  vct = m.vct;
  doc_type = m.doc_type;
  claims = claims;
  selected_keys = keys;
  untrusted_authority = m.untrusted_authority;
  unbound = m.unbound;
  empty_array_claims = m.empty_array_claims;
  missing_claims = m.missing_claims;
  mismatches = m.mismatches;
  claim_sets = m.claim_sets;
}

-- `applyClaimSetChoices`.
unfoldable pub apply_claim_set_choices :
    List (Text × ℤ) → List CredentialMatch → List CredentialMatch
apply_claim_set_choices choices [] = []
apply_claim_set_choices choices (m ∷ ms) =
    let later = apply_claim_set_choices choices ms in
    elim (lookup m.query_id choices) [
      | none ↦ m ∷ later
      | some index ↦ elim (find_claim_set m index) [
        | none ↦ m ∷ later
        | some set ↦ with_claims m set.keys set.claims ∷ later
      ]
    ]

-- The option of a set that `selectCredentials` takes: an index out of range counts as 0. A set without
-- options panics there; `buildConsentCredentialOptions` makes none.
unfoldable pub taken_option : ConsentSetOptions → ℤ → Option (List Text)
taken_option set choice =
    let first = get_elem? set.options 0 in
    if eq_ℤ choice (negsuc 0) && set.optional
    then some []
    else elim (option_at set choice) [ none ↦ first | some ids ↦ some ids ]

-- The loop of `selectCredentials` over the sets; `none` is a panic.
unfoldable pub needed_from : List Text → List ConsentSetOptions → List ℤ → Option (List Text)
needed_from needed [] choices = some needed
needed_from needed (set ∷ sets) choices = taken_option set (choice_of set choices) >>= λ ids.
    needed_from (add_new needed ids) sets (later_choices choices)

-- The last loop of `selectCredentials`.
unfoldable pub picked_for :
    ConsentCredentialOptions → List (Text × List Text) → List Text → List CredentialMatch
picked_for options picks [] = []
picked_for options picks (qid ∷ qids) =
    let later = picked_for options picks qids in
    elim (find_consent_query options qid) [
      | none ↦ later
      | some query ↦ picked_candidates query (picks_for qid picks) ++ later
    ]

-- `selectCredentials`.
unfoldable pub select_credentials :
    ConsentCredentialOptions → List CredentialMatch → ConsentResult → Option (List CredentialMatch)
select_credentials options matches result =
    let needed : Option (List Text) =
      if is_empty options.sets
      then some (map (λ q. q.id) options.queries)
      else needed_from [] options.sets result.set_choices in
    let chosen = needed >>= λ ids.
    some (let out = picked_for options result.picks ids in if is_empty out then matches else out) in
    if is_empty result.picks && is_empty result.set_choices then some matches else chosen

-- `ApplyConsentSelection`; `none` is a panic.
unfoldable pub apply_consent_selection :
    Option ConsentCredentialOptions
    → List CredentialMatch
    → ConsentResult
    → Option (List CredentialMatch)
apply_consent_selection none matches result = some matches
apply_consent_selection (some options) matches result =
    select_credentials options matches result >>= λ selected.
    some (apply_claim_set_choices result.claim_set_choices selected)

-- The keys that are disclosed: strict mode drops those that were not requested.
unfoldable pub disclosed_keys : ValidationMode → CredentialMatch → List Text → List Text
disclosed_keys mode m keys =
    if is_debug mode then keys else keep_if (λ k. contains m.selected_keys k) keys

-- The loop of `applySelectedClaims` over the matches; `creds` are the stored credentials.
unfoldable pub apply_selected_claims :
    List StoredCredential
    → ValidationMode
    → List CredentialMatch
    → List (Text × List Text)
    → List CredentialMatch
apply_selected_claims creds mode [] selected = []
apply_selected_claims creds mode (m ∷ ms) selected =
    let later = apply_selected_claims creds mode ms selected in
    elim (lookup m.credential_id selected) [
      | none ↦ m ∷ later
      | some keys ↦ elim (get_credential creds m.credential_id) [
        | none ↦ m ∷ later
        | some cred ↦
            let disclosed = disclosed_keys mode m keys in
            with_claims m disclosed (filter_claims cred disclosed) ∷ later
      ]
    ]
