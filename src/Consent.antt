-- ===== src/Consent.antt =====
-- internal/wallet/consent_selection.go: the choices made in the consent dialog.
pub mod Validate
pub mod Apply
mod Tests
use eudi_dev.Base.{
  ℕ, suc, ℤ, pos, negsuc, eq_ℤ, Text, text_eq, contains, lookup, Bool, true, false, ◌&&◌, Option,
  none, some, List, [], ◌∷◌, ◌++◌, is_empty, length, get_elem?, find_first, keep_if, map,
  if◌then◌else◌, ◌==◌,
}
use eudi_dev.Dcql.Claims.{ConsentClaimSet}
use eudi_dev.Dcql.Match.{CredentialMatch}
use eudi_dev.Dcql.Options.{ConsentSetOptions, ConsentQueryOptions, ConsentCredentialOptions}

-- `defaultChoice`.
unfoldable pub default_choice : ConsentSetOptions → ℤ
default_choice set =
    if set.optional && (length set.unmatched == length set.options) then negsuc 0 else pos 0

-- `setChoices[i]` while there is one, and the rest of the choices.
abbrev pub choice_of : ConsentSetOptions → List ℤ → ℤ
choice_of set [] = default_choice set
choice_of set (c ∷ choices) = c

abbrev pub later_choices : List ℤ → List ℤ
later_choices [] = []
later_choices (c ∷ choices) = choices

-- `set.Options[choice]` inside its bounds.
abbrev pub option_at : ConsentSetOptions → ℤ → Option (List Text)
option_at set (pos n) = get_elem? set.options n
option_at set (negsuc n) = none

-- `findConsentQuery`.
unfoldable pub find_consent_query : ConsentCredentialOptions → Text → Option ConsentQueryOptions
find_consent_query options id = find_first (λ q. text_eq q.id id) options.queries

-- `findConsentCandidate`.
unfoldable pub find_consent_candidate : ConsentQueryOptions → Text → Option CredentialMatch
find_consent_candidate query id =
    let other = find_first (λ m. text_eq m.credential_id id) query.non_matching in
    elim (find_first (λ m. text_eq m.credential_id id) query.candidates) [
      | none ↦ other
      | some m ↦ some m
    ]

-- `findClaimSet`.
unfoldable pub find_claim_set : CredentialMatch → ℤ → Option ConsentClaimSet
find_claim_set m index = find_first (λ set. eq_ℤ (pos set.index) index) m.claim_sets

-- `picks[qid]`; a missing key gives nil.
abbrev pub picks_for : Text → List (Text × List Text) → List Text
picks_for id picks = elim (lookup id picks) [ none ↦ [] | some ids ↦ ids ]

-- `pickedCandidates`.
unfoldable pub picked_candidates : ConsentQueryOptions → List Text → List CredentialMatch
picked_candidates query ids =
    let picked =
      keep_if (λ m. contains ids m.credential_id) (query.candidates ++ query.non_matching) in
    if is_empty picked
    then elim query.candidates [
      | [] ↦ []
      | m ∷ rest ↦ if query.multiple then query.candidates else m ∷ []
    ]
    else picked

-- `if !slices.Contains(ids, qid) { ids = append(ids, qid) }`.
unfoldable pub add_new : List Text → List Text → List Text
add_new ids [] = ids
add_new ids (q ∷ qs) = add_new (if contains ids q then ids else ids ++ q ∷ []) qs

-- The loop of `activeQueries` over the sets.
unfoldable pub active_from : List Text → List ConsentSetOptions → List ℤ → List Text
active_from ids [] choices = ids
active_from ids (set ∷ sets) choices =
    active_from
      (elim (option_at set (choice_of set choices)) [
        | none ↦ ids
        | some chosen ↦ add_new ids chosen
      ])
      sets (later_choices choices)

-- `activeQueries`.
unfoldable pub active_queries : ConsentCredentialOptions → List ℤ → List Text
active_queries options choices =
    if is_empty options.sets
    then map (λ q. q.id) options.queries
    else active_from [] options.sets choices

-- The fields of `ConsentResult` that concern the selection.
pub record ConsentResult : Type 0 where
  pub picks : List (Text × List Text)
  pub set_choices : List ℤ
  pub claim_set_choices : List (Text × ℤ)
