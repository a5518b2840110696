-- ===== src/Dcql/Order.antt =====
-- The orders in which matches are preferred: the `sortMatches...` functions.
use eudi_dev.Base.{
  ℕ, Text, text_eq, Bool, true, false, not, ◌&&◌, Option, none, some, List, [], ◌∷◌, is_empty, ltb,
  if◌then◌else◌,
}
use eudi_dev.Base.Sort.{stable_sort}
use eudi_dev.Credential.{StoredCredential}
use eudi_dev.Dcql.Match.{CredentialMatch}

-- `byID[id]`, where a later credential replaces an earlier one.
unfoldable pub credential_by_id : Text → List StoredCredential → Option StoredCredential
credential_by_id id [] = none
credential_by_id id (c ∷ cs) =
    let here = if text_eq c.id id then some c else none in
    elim (credential_by_id id cs) [ none ↦ here | some later ↦ some later ]

-- The comparison functions leave matches of different queries in place.
abbrev same_query : CredentialMatch → CredentialMatch → Bool → Bool
same_query a b less = if text_eq a.query_id b.query_id then less else false

-- `a.After(b)`, where `none` is the zero time, which comes last.
unfoldable pub newer : Option ℕ → Option ℕ → Bool
newer none b = false
newer (some a) none = true
newer (some a) (some b) = ltb b a

-- `issued_at` is `CredentialIssuedAt`, in seconds; `none` is the zero time.
unfoldable pub issued :
    (StoredCredential → Option ℕ) → List StoredCredential → CredentialMatch → Option ℕ
issued issued_at creds m = elim (credential_by_id m.credential_id creds) [
  | none ↦ none
  | some c ↦ issued_at c
]

-- `sortMatchesNewestFirst`.
unfoldable pub sort_newest_first :
    (StoredCredential → Option ℕ)
    → List StoredCredential
    → List CredentialMatch
    → List CredentialMatch
sort_newest_first issued_at creds =
    stable_sort λ a b. same_query a b (newer (issued issued_at creds a) (issued issued_at creds b))

-- `sortMatchesByPreferredFormat`.
unfoldable pub sort_by_preferred_format : Text → List CredentialMatch → List CredentialMatch
sort_by_preferred_format preferred =
    stable_sort
      λ a b. same_query a b (text_eq a.format preferred && not (text_eq b.format preferred))

-- `sortMatchesTrustedFirst`.
unfoldable pub more_trusted : CredentialMatch → CredentialMatch → Bool
more_trusted a b =
    if a.untrusted_authority
    then (if b.untrusted_authority then not a.unbound && b.unbound else false)
    else if b.untrusted_authority
    then true
    else not a.unbound && b.unbound

unfoldable pub sort_trusted_first : List CredentialMatch → List CredentialMatch
sort_trusted_first = stable_sort λ a b. same_query a b (more_trusted a b)

-- `sortMatchesCompleteFirst`.
unfoldable pub sort_complete_first : List CredentialMatch → List CredentialMatch
sort_complete_first =
    stable_sort λ a b. same_query a b (is_empty a.missing_claims && not (is_empty b.missing_claims))
