-- ===== src/Dcql/Match.antt =====
-- The inner loop of `EvaluateDCQLWithOptions`: one credential against one credential query.
pub mod Strict
pub mod Offered
use eudi_dev.Base.{
  ◌>>=◌, ℕ, Float64, Text, codes, text_eq, lookup, Bool, true, false, Option, none, some, List, [],
  ◌∷◌, ◌++◌, is_empty, if◌then◌else◌, ◌||◌, ltb, length,
}
use eudi_dev.Credential.{StoredCredential, is_mdoc, dc_sd_jwt}
use eudi_dev.Dcql.Value.{Value, as_object}
use eudi_dev.Dcql.Selector.{filter_claims}
use eudi_dev.Dcql.Claims.{Object, array_member, array_or_empty, ClaimSelection, ConsentClaimSet}
use eudi_dev.Dcql.Claims.Select.{select_claims, satisfiable_claim_sets}
use eudi_dev.Dcql.Meta.{text_member, matches_format, matches_meta, requires_holder_binding}
use eudi_dev.Dcql.Trust.{Certificates, check_trusted_authorities}

-- `ValidationMode`.
pub data ValidationMode : Type 0 where
  debug strict : ValidationMode

abbrev pub is_debug : ValidationMode → Bool
is_debug debug = true
is_debug strict = false

-- The texts of `mismatches`, by what they report.
pub data Mismatch : Type 0 where
  wrong_format wrong_type no_holder_binding no_device_key no_claim_set : Mismatch
  lacks : List Text → Mismatch

-- `CredentialMatch`.
pub record CredentialMatch : Type 0 where
  pub query_id : Text
  pub credential_id : Text
  pub format : Text
  pub vct : Text
  pub doc_type : Text
  pub claims : Object
  pub selected_keys : List Text
  pub untrusted_authority : Bool
  pub unbound : Bool
  pub empty_array_claims : List Text
  pub missing_claims : List Text
  pub mismatches : List Mismatch
  pub claim_sets : List ConsentClaimSet

-- What evaluation reads through code of other parts: number formatting, the disclosures of an
-- SD-JWT, its holder binding (`credentialHolderBinding(cred.Raw).Bound`), and its certificates.
pub record Reader : Type 0 where
  pub format_other : Float64 → Text
  pub discloses_empty_array : StoredCredential → List Value → Bool
  pub holder_bound : StoredCredential → Bool
  pub certificates : Certificates

-- What the loop does with a credential.
pub data Outcome : Type 0 where
  skipped : Outcome
  matched : CredentialMatch → Outcome
  offered : CredentialMatch → Outcome

-- The `switch` on holder binding: whether to flag the credential, and what it adds to `mismatches`.
unfoldable pub binding_check :
    ValidationMode → Bool → StoredCredential → Object → Bool × List Mismatch
binding_check mode bound cred query =
    if bound
    then (false, [])
    else if requires_holder_binding query
    then (if is_debug mode then (true, []) else (false, no_holder_binding ∷ []))
    else if is_debug mode
    then (false, [])
    else if is_mdoc cred
    then (false, no_device_key ∷ [])
    else (false, [])

unfoldable pub type_mismatches : StoredCredential → Object → List Mismatch
type_mismatches cred query =
    (if matches_format cred (text_member (codes "format") query) then [] else wrong_format ∷ [])
    ++ (if matches_meta cred query then [] else wrong_type ∷ [])

module _ (r : Reader) where
  -- `bound[cred.ID]`.
  unfoldable pub is_bound : StoredCredential → Bool
  is_bound cred =
      if text_eq cred.format dc_sd_jwt
      then r.holder_bound cred
      else if is_mdoc cred
      then r.holder_bound cred
      else false

  -- The test on `trusted_authorities`: whether it fails.
  unfoldable pub is_untrusted : StoredCredential → Object → Bool
  is_untrusted cred query =
      let ta_list = array_or_empty (array_member (codes "trusted_authorities") query) in
      if is_empty ta_list
      then false
      else if check_trusted_authorities r.certificates cred ta_list
      then false
      else true

module _ (r : Reader) (mode : ValidationMode) where
  -- Missing claims are a mismatch, unless debug mode has some claim to show.
  unfoldable pub claim_mismatches : ClaimSelection → List Mismatch
  claim_mismatches selection =
      if is_empty selection.missing_required
      then (if selection.match then [] else no_claim_set ∷ [])
      else if is_empty selection.selected_keys
      then lacks selection.missing_required ∷ []
      else if is_debug mode
      then (if selection.match then [] else no_claim_set ∷ [])
      else lacks selection.missing_required ∷ []

  -- The list `mismatches` when the loop tests it. Claims count only where nothing else failed.
  unfoldable pub all_mismatches : StoredCredential → Object → ClaimSelection → List Mismatch
  all_mismatches cred query selection =
      let before =
        type_mismatches cred query ++ (binding_check mode (is_bound r cred) cred query).1 in
      if is_empty before then claim_mismatches selection else before

  -- Debug mode offers the claim sets where there is more than one.
  unfoldable pub offered_claim_sets : StoredCredential → Object → List ConsentClaimSet
  offered_claim_sets cred query =
      let sets = satisfiable_claim_sets r.format_other cred query in
      if is_debug mode then (if ltb 1 (length sets) then sets else []) else []

  unfoldable pub non_match :
      StoredCredential → Object → ClaimSelection → List Mismatch → CredentialMatch
  non_match cred query selection mismatches = record {
    query_id = text_member (codes "id") query;
    credential_id = cred.id;
    format = cred.format;
    vct = cred.vct;
    doc_type = cred.doc_type;
    claims = filter_claims cred selection.selected_keys;
    selected_keys = selection.selected_keys;
    untrusted_authority = false;
    unbound = false;
    empty_array_claims = [];
    missing_claims = [];
    mismatches = mismatches;
    claim_sets = [];
  }

  unfoldable pub full_match :
      StoredCredential → Object → ClaimSelection → Bool → Bool → CredentialMatch
  full_match cred query selection untrusted unbound = record {
    query_id = text_member (codes "id") query;
    credential_id = cred.id;
    format = cred.format;
    vct = cred.vct;
    doc_type = cred.doc_type;
    claims = filter_claims cred selection.selected_keys;
    selected_keys = selection.selected_keys;
    untrusted_authority = untrusted;
    unbound = unbound;
    empty_array_claims = selection.empty_arrays;
    missing_claims = selection.missing_required;
    mismatches = [];
    claim_sets = offered_claim_sets cred query;
  }

  -- One round of the loop over the credentials.
  unfoldable pub match_credential : Object → StoredCredential → Outcome
  match_credential query cred =
      let selection = select_claims r.format_other r.discloses_empty_array cred query in
      let mismatches = all_mismatches cred query selection in
      let unbound = (binding_check mode (is_bound r cred) cred query).0 in
      let untrusted = is_untrusted r cred query in
      if is_empty mismatches
      then (if untrusted
          then (if is_debug mode
              then matched (full_match cred query selection true unbound)
              else skipped)
          else matched (full_match cred query selection false unbound))
      else if is_debug mode
      then offered (non_match cred query selection mismatches)
      else skipped

  -- The loop over the credentials for one query: the matches and the non-matching offers.
  unfoldable pub match_credentials :
      Object → List StoredCredential → List CredentialMatch × List CredentialMatch
  match_credentials query [] = ([], [])
  match_credentials query (cred ∷ creds) =
      let (matches, offers) = match_credentials query creds in
      elim (match_credential query cred) [
        | skipped ↦ (matches, offers)
        | matched m ↦ (m ∷ matches, offers)
        | offered m ↦ (matches, m ∷ offers)
      ]

  -- The loop over the queries; an entry that is no object is passed over.
  unfoldable pub match_queries :
      List Value → List StoredCredential → List CredentialMatch × List CredentialMatch
  match_queries [] creds = ([], [])
  match_queries (cq ∷ cqs) creds =
      let (matches, offers) = match_queries cqs creds in
      elim (as_object cq) [
        | none ↦ (matches, offers)
        | some query ↦
            let (here, there) = match_credentials query creds in (here ++ matches, there ++ offers)
      ]
