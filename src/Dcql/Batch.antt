-- ===== src/Dcql/Batch.antt =====
-- internal/wallet/issuance_batch.go: one copy of a credential batch for each query.
pub mod Laws
pub mod Record
pub mod Rotation
mod Tests
use eudi_dev.Base.{
  ℕ, suc, Text, text_eq, lookup, insert, Bool, true, false, Option, none, some, List, [], ◌∷◌, ◌++◌,
  is_empty, ltb, ◌==◌, if◌then◌else◌, length, get_or, get_elem?, any, map,
}
use eudi_dev.Credential.{StoredCredential}
use eudi_dev.Dcql.Match.{CredentialMatch}
use eudi_dev.Dcql.Order.{credential_by_id}

-- `byID[m.CredentialID].BatchGroup` and `.Uses`; a missing credential has the zero value.
abbrev pub batch_group_of : List StoredCredential → CredentialMatch → Text
batch_group_of creds m = elim (credential_by_id m.credential_id creds) [
  | none ↦ []
  | some c ↦ c.batch_group
]

abbrev pub uses_of : List StoredCredential → CredentialMatch → ℕ
uses_of creds m = elim (credential_by_id m.credential_id creds) [ none ↦ 0 | some c ↦ c.uses ]

-- `m.QueryID + "\x00" + group`.
abbrev group_key : CredentialMatch → Text → Text
group_key m group = m.query_id ++ 0 ∷ group

abbrev indices_of : Option (List ℕ) → List ℕ
indices_of none = []
indices_of (some is) = is

-- The map `groups`, from position `i`.
unfoldable pub batch_groups :
    List StoredCredential → ℕ → List CredentialMatch → List (Text × List ℕ) → List (Text × List ℕ)
batch_groups creds i [] groups = groups
batch_groups creds i (m ∷ ms) groups =
    let group = batch_group_of creds m in
    let key = group_key m group in
    batch_groups creds (suc i) ms (
      if is_empty group
      then groups
      else insert key (indices_of (lookup key groups) ++ i ∷ []) groups)

module _ (uses : ℕ → ℕ) where
  -- The loop that computes `fewest`, which is -1 (`none`) at the start.
  unfoldable pub fewest_uses : Option ℕ → List ℕ → Option ℕ
  fewest_uses fewest [] = fewest
  fewest_uses fewest (i ∷ is) =
      fewest_uses
        (elim fewest [
          | none ↦ some (uses i)
          | some n ↦ if ltb (uses i) n then some (uses i) else some n
        ])
        is

  unfoldable pub least_used : ℕ → List ℕ → List ℕ
  least_used n [] = []
  least_used n (i ∷ is) = let rest = least_used n is in if uses i == n then i ∷ rest else rest

  -- `chooseBatchCopy`; `pick` is `secureIntn`.
  unfoldable pub choose_batch_copy : (ℕ → ℕ) → List ℕ → ℕ
  unfolding fewest_uses least_used
  choose_batch_copy pick is = elim (fewest_uses none is) [
    | none ↦ 0
    | some n ↦ let least = least_used n is in get_or least (pick (length least)) 0
  ]

-- The uses of the credential of the match at a position.
abbrev pub uses_at : List StoredCredential → List CredentialMatch → ℕ → ℕ
uses_at creds ms i = elim (get_elem? ms i) [ none ↦ 0 | some m ↦ uses_of creds m ]

-- The last loop of `collapseBatchMatches`.
unfoldable pub keep_chosen :
    List StoredCredential → List ℕ → ℕ → List CredentialMatch → List CredentialMatch
keep_chosen creds keep i [] = []
keep_chosen creds keep i (m ∷ ms) =
    let rest = keep_chosen creds keep (suc i) ms in
    if is_empty (batch_group_of creds m)
    then m ∷ rest
    else if any (λ j. j == i) keep
    then m ∷ rest
    else rest

-- `collapseBatchMatches`. Each group has its own call of `secureIntn`: `pick is` is the one for the
-- group at the positions `is`.
unfoldable pub collapse_batch_matches :
    (List ℕ → ℕ → ℕ) → List CredentialMatch → List StoredCredential → List CredentialMatch
unfolding batch_groups keep_chosen choose_batch_copy
collapse_batch_matches pick ms creds =
    let groups = batch_groups creds 0 ms [] in
    if is_empty groups
    then ms
    else keep_chosen creds (map (λ g. choose_batch_copy (uses_at creds ms) (pick g.1) g.1) groups) 0
        ms

-- `recordBatchPresentation` on the credentials of the wallet.
unfoldable pub record_batch_presentation : Text → List StoredCredential → List StoredCredential
record_batch_presentation id [] = []
record_batch_presentation id (c ∷ cs) =
    let later = record_batch_presentation id cs in
    if text_eq c.id id
    then (if is_empty c.batch_group then c else record c { uses = suc c.uses }) ∷ cs
    else c ∷ later
