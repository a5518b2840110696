-- ===== src/Status/Wallet/Issue.antt =====
-- internal/wallet/issue.go and wallet_import.go: the status index of a credential that is issued.
use eudi_dev.Base.{
  ◌>>=◌, ℤ, pos, negsuc, Text, text_eq, lookup, delete, insert, Bool, true, false, not, ◌&&◌, ◌||◌,
  Option, none, some, List, [], ◌∷◌, ◌++◌, is_empty, keep_if, map, if◌then◌else◌,
}
use eudi_dev.Base.Trim.{trim_space}
use eudi_dev.Credential.{StoredCredential}
use eudi_dev.Status.Wallet.{StatusStore, next_status_index, register_status_entry}
use eudi_dev.Status.Reference.{StatusRef, idx_negative}

-- `ownStatusRef`, of the reference that the credential carries.
unfoldable pub own_status_ref : Text → Option StatusRef → Option StatusRef
own_status_ref own none = none
own_status_ref own (some ref) =
    if not (is_empty (trim_space own)) && text_eq ref.uri (trim_space own) then some ref else none

-- `adoptOwnStatusEntry`.
unfoldable pub adopt_own_status_entry : Text → Text → Option StatusRef → StatusStore → StatusStore
adopt_own_status_entry own id ref s = elim (own_status_ref own ref) [
  | none ↦ s
  | some r ↦ elim (lookup id s.entries) [
    | some e ↦ s
    | none ↦ register_status_entry s id (pos r.idx)
  ]
]

-- `importCredential` with its effect on the status list, where nothing bounds the credentials.
unfoldable pub import_credential :
    Text → StoredCredential → Option StatusRef → StatusStore → StatusStore
import_credential own c ref s =
    adopt_own_status_entry own c.id ref (record s { credentials = s.credentials ++ c ∷ [] })

-- `resolveIssueStatus`: the URI, the index, and whether the entry is registered. `none` is an error.
unfoldable pub resolve_issue_status :
    Text → Option Text → Option ℤ → StatusStore → Option (StatusStore × Text × ℤ × Bool)
resolve_issue_status own (some uri) idx s =
    let status_uri = trim_space uri in
    if is_empty status_uri
    then some (s, [], pos 0, false)
    else some (s, status_uri, elim idx [ none ↦ pos 0 | some i ↦ i ], text_eq status_uri own)
resolve_issue_status own none (some i) s =
    if is_empty (trim_space own) then none else some (s, trim_space own, i, true)
resolve_issue_status own none none s =
    let (after, i) = next_status_index s in
    if is_empty (trim_space own)
    then some (s, [], pos 0, false)
    else some (after, trim_space own, pos i, true)

-- The reference that a credential signed with this URI and index carries.
abbrev pub signed_ref : Text → ℤ → Option StatusRef
signed_ref uri (pos i) =
    if is_empty uri then none else some (record { uri = uri; idx = i; invalid = none })
signed_ref uri (negsuc n) =
    if is_empty uri
    then none
    else some (record { uri = uri; idx = 0; invalid = some (idx_negative (negsuc n)) })

-- The import of a signed credential, and the registration of its entry.
unfoldable pub store_copy : Text → Text → Bool → ℤ → StoredCredential → StatusStore → StatusStore
store_copy own uri register i c s =
    let imported = import_credential own c (signed_ref uri i) s in
    if register then register_status_entry imported c.id i else imported

-- The loop over the further copies of a batch.
unfoldable pub store_copies :
    Text → Text → Bool → ℤ → List StoredCredential → StatusStore → StatusStore
store_copies own uri register i [] s = s
store_copies own uri register i (c ∷ cs) s =
    let (after, next) = next_status_index s in
    let counted =
      store_copies own uri register i cs (store_copy own uri register (pos next) c after) in
    let shared = store_copies own uri register i cs (store_copy own uri register i c s) in
    if register then counted else shared

abbrev pub is_given {ℓ} : {A : Type ℓ} → Option A → Bool
is_given none = false
is_given (some a) = true

-- The status part of `IssueCredential`, of the first copy and the further ones; `none` is an error.
unfoldable pub issue_credential :
    Text
    → Option Text
    → Option ℤ
    → StoredCredential
    → List StoredCredential
    → StatusStore
    → Option StatusStore
issue_credential own uri idx first copies s =
    resolve_issue_status own uri idx s >>= λ (resolved, status_uri, i, register).
    let (counted, next) = next_status_index resolved in
    let recounted = not (is_empty copies) && register && (is_given idx || is_given uri) in
    some (
      if recounted
      then store_copies own status_uri register (pos next) copies
          (store_copy own status_uri register (pos next) first counted)
      else store_copies own status_uri register i copies
          (store_copy own status_uri register i first resolved))

-- `renameCredential`.
unfoldable pub rename_credential : Text → Text → StatusStore → StatusStore
rename_credential old new s = record s {
  credentials = map (λ c. if text_eq c.id old then record c { id = new } else c) s.credentials;
  entries = elim (lookup old s.entries) [
    | none ↦ s.entries
    | some e ↦ insert new e (delete old s.entries)
  ];
}

-- `replaceCredential`.
unfoldable pub replace_credential : Text → Text → StatusStore → StatusStore
replace_credential id added s =
    if text_eq id added
    then s
    else rename_credential added id (record s {
      credentials = keep_if (λ c. not (text_eq c.id id)) s.credentials;
      entries = delete id s.entries;
    })
