-- ===== src/Dcql/Evaluate.antt =====
-- `EvaluateDCQLWithOptions`: the whole evaluation of a query.
pub mod Laws
pub mod Strict
use eudi_dev.Base.{
  ℕ, Text, codes, Bool, true, false, Option, none, some, List, [], ◌∷◌, is_empty, if◌then◌else◌,
}
use eudi_dev.Credential.{StoredCredential}
use eudi_dev.Dcql.Value.{Value, as_object}
use eudi_dev.Dcql.Claims.{Object, array_member, array_or_empty}
use eudi_dev.Dcql.Match.{
  ValidationMode, debug, strict, is_debug, Reader, CredentialMatch, match_queries,
}
use eudi_dev.Dcql.Order.{
  sort_newest_first, sort_by_preferred_format, sort_trusted_first, sort_complete_first,
}
use eudi_dev.Dcql.Batch.{collapse_batch_matches}
use eudi_dev.Dcql.Sets.{
  multiple_queries, keep_one_presentation_per_query, apply_credential_sets,
  unmatched_credential_queries,
}
use eudi_dev.Dcql.Findings.{dcql_query_findings}
use eudi_dev.Dcql.Options.{ConsentCredentialOptions, build_consent_credential_options}

-- The codes of `authorizationError`.
pub data ErrorCode : Type 0 where
  invalid_request access_denied : ErrorCode

-- The results of `EvaluateDCQLWithOptions`. No matches are the empty list.
pub data Evaluation : Type 0 where
  refused : ErrorCode → Evaluation
  answered : List CredentialMatch → Option ConsentCredentialOptions → Evaluation

-- The wallet as the evaluation sees it. `list_findings` says whether `etsiTrustedListAnchors` finds a
-- list of `trusted_authorities` that it cannot use; `pick` and `pick_other` are the random choices
-- for the matches and for the other credentials.
pub record Wallet : Type 0 where
  pub credentials : List StoredCredential
  pub mode : ValidationMode
  pub preferred_format : Text
  pub reader : Reader
  pub issued_at : StoredCredential → Option ℕ
  pub list_findings : List Value → Bool
  pub pick : List ℕ → ℕ → ℕ
  pub pick_other : List ℕ → ℕ → ℕ

-- The test on trusted lists of the loop over the queries, which strict mode ends with an error.
unfoldable pub has_list_findings : Wallet → List Value → Bool
has_list_findings w [] = false
has_list_findings w (cq ∷ cqs) =
    let later = has_list_findings w cqs in
    elim (as_object cq) [
      | none ↦ later
      | some query ↦
          if w.list_findings (array_or_empty (array_member (codes "trusted_authorities") query))
          then true
          else later
    ]

-- The four sorts, the last of which decides first.
unfoldable pub order_matches : Wallet → List CredentialMatch → List CredentialMatch
order_matches w ms =
    let newest = sort_newest_first w.issued_at w.credentials ms in
    let preferred =
      if is_empty w.preferred_format
      then newest
      else sort_by_preferred_format w.preferred_format newest in
    sort_complete_first (sort_trusted_first preferred)

-- The matches in order of preference, and those that debug mode offers beside them.
unfoldable pub candidates : Wallet → List Value → List CredentialMatch
candidates w queries = order_matches w (
    collapse_batch_matches w.pick (match_queries w.reader w.mode queries w.credentials).0
      w.credentials)

unfoldable pub non_matching : Wallet → List Value → List CredentialMatch
non_matching w queries = sort_newest_first w.issued_at w.credentials (
    collapse_batch_matches w.pick_other (match_queries w.reader w.mode queries w.credentials).1
      w.credentials)

-- The credentials to present.
unfoldable pub selection : Wallet → List Value → List Value → List CredentialMatch
selection w queries sets =
    let kept = keep_one_presentation_per_query (candidates w queries) (multiple_queries queries) in
    if is_empty sets
    then (if is_empty (unmatched_credential_queries queries kept) then kept else [])
    else apply_credential_sets kept sets w.preferred_format

-- What follows the checks of the query.
unfoldable pub evaluate_queries : Wallet → List Value → List Value → Evaluation
evaluate_queries w queries sets =
    let matches = selection w queries sets in
    let others = non_matching w queries in
    let options =
      build_consent_credential_options (candidates w queries) others queries sets
        (multiple_queries queries) w.preferred_format in
    if is_empty matches
    then (if is_empty others then answered [] none else answered matches options)
    else answered matches options

-- `EvaluateDCQLWithOptions`.
unfoldable pub evaluate_dcql_with_options : Wallet → Object → Evaluation
evaluate_dcql_with_options w query =
    let queries = array_or_empty (array_member (codes "credentials") query) in
    let sets = array_or_empty (array_member (codes "credential_sets") query) in
    let evaluation = evaluate_queries w queries sets in
    if is_debug w.mode
    then evaluation
    else if is_empty (dcql_query_findings (some query))
    then (if has_list_findings w queries then refused access_denied else evaluation)
    else refused invalid_request
