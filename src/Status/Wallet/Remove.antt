-- ===== src/Status/Wallet/Remove.antt =====
-- internal/wallet/wallet.go: the removal of credentials, which leaves their status entries.
use eudi_dev.Base.{
  ℕ, zero, suc, Text, text_eq, not, ◌&&◌, ◌||◌, Option, none, some, List, [], ◌∷◌, is_empty, any,
  keep_if, length, if◌then◌else◌, leb,
}
use eudi_dev.Credential.{StoredCredential}
use eudi_dev.Credential.Resolve.{resolve_id}
use eudi_dev.Status.Wallet.{StatusStore, group_to_set}

-- The last loop of `RemoveCredential`, and whether it removes.
abbrev pub without : Text → Text → List StoredCredential → List StoredCredential
without id group creds =
    keep_if (λ c. not (text_eq c.id id || (not (is_empty group) && text_eq c.batch_group group)))
      creds

-- `RemoveCredential`. Its first loop is that of `SetCredentialStatus`, which also refuses a protected
-- credential and else gives the batch group.
unfoldable pub remove_credential : Text → StatusStore → StatusStore
remove_credential id s =
    let full = resolve_id s.credentials id in
    elim (group_to_set full s.credentials) [
      | none ↦ s
      | some group ↦
          if not (is_empty group)
            && any (λ c. text_eq c.batch_group group && c.protected) s.credentials
          then s
          else record s { credentials = without full group s.credentials }
    ]

-- `ClearCredentials`.
unfoldable pub clear_credentials : StatusStore → StatusStore
clear_credentials s = record s { credentials = keep_if (λ c. c.protected) s.credentials }

-- `removeProtected`.
unfoldable pub remove_protected : StatusStore → StatusStore
remove_protected s = record s { credentials = keep_if (λ c. not c.protected) s.credentials }

-- The deletion of the first credential that is not protected.
unfoldable pub delete_first : List StoredCredential → Option (List StoredCredential)
delete_first [] = none
delete_first (c ∷ cs) =
    let later = delete_first cs in
    if c.protected then elim later [ none ↦ none | some rest ↦ some (c ∷ rest) ] else some cs

-- The loop of `makeCredentialRoomLocked`; each round but the last deletes a credential.
unfoldable pub make_room : ℕ → ℕ → List StoredCredential → List StoredCredential
make_room zero capacity creds = creds
make_room (suc fuel) capacity creds =
    let rest : List StoredCredential = elim (delete_first creds) [
      | none ↦ creds
      | some left ↦ make_room fuel capacity left
    ] in
    if leb capacity (length creds) then rest else creds

-- `makeCredentialRoomLocked`, with as many rounds as there are credentials.
unfoldable pub make_credential_room : ℕ → StatusStore → StatusStore
make_credential_room capacity s =
    if leb capacity 0
    then s
    else record s { credentials = make_room (length s.credentials) capacity s.credentials }
