-- ===== src/Status/Wallet/History.antt =====
-- The status entries over the history of a wallet, and the list that it publishes.
use eudi_dev.Base.{All-member, ℕ, ℤ, pos, Text, lookup, Option, none, some, List, [], ◌≡◌, inl, inr}
use eudi_dev.Credential.{StoredCredential}
use eudi_dev.Status.Reference.{StatusRef}
use eudi_dev.Status.Wallet.Remove.{
  remove_credential, clear_credentials, remove_protected, make_credential_room,
}
use eudi_dev.Status.Bitstring.{extract_status}
use eudi_dev.Status.Wallet.{StatusEntry, StatusStore, set_credential_status, build_status_list}
use eudi_dev.Status.Wallet.Write.{HaveDistinctIndices}
use eudi_dev.Status.Wallet.Read.{extract_status-build}
use eudi_dev.Status.Wallet.Revoke.{entries, lookup-Memᴰ}
use eudi_dev.Status.Wallet.Issue.{
  own_status_ref, import_credential, issue_credential, rename_credential, replace_credential,
}
use eudi_dev.Status.Wallet.Allocated.{IsEntry}
use eudi_dev.Status.Wallet.Operations.{
  IsCounted, IsAllocated, issued_by_counter, issued_as_batch, set-IsAllocated, rename-IsAllocated,
  replace-IsAllocated, foreign-IsAllocated, remove-IsAllocated, clear-IsAllocated,
  unprotect-IsAllocated, evict-IsAllocated,
}

-- What the wallet does to its credentials with the own list at this URL. A credential that is issued
-- gets its index from the counter, and one that is imported does not name the own list.
pub data Step (own : Text) : StatusStore → StatusStore → Type 0 where
  issue :
      (uri : Option Text) (idx : Option ℤ) (first : StoredCredential)
      (copies : List StoredCredential) (s t : StatusStore)
      → IsCounted uri idx copies
      → issue_credential own uri idx first copies s ≡ some t
      → Step own s t
  set_status :
      (id : Text) (status : ℤ) (s t : StatusStore) (shown : StatusEntry)
      → set_credential_status s id status ≡ some (t, shown)
      → Step own s t
  rename : (old new : Text) (s : StatusStore) → Step own s (rename_credential old new s)
  replace : (id added : Text) (s : StatusStore) → Step own s (replace_credential id added s)
  import_foreign :
      (c : StoredCredential) (ref : Option StatusRef) (s : StatusStore)
      → own_status_ref own ref ≡ none
      → Step own s (import_credential own c ref s)
  remove : (id : Text) (s : StatusStore) → Step own s (remove_credential id s)
  clear : (s : StatusStore) → Step own s (clear_credentials s)
  unprotect : (s : StatusStore) → Step own s (remove_protected s)
  evict : (capacity : ℕ) (s : StatusStore) → Step own s (make_credential_room capacity s)

-- A wallet without credentials.
abbrev pub empty_wallet : StatusStore
empty_wallet = record { credentials = []; entries = []; counter = 0 }

pub data Reach (own : Text) : StatusStore → Type 0 where
  here : Reach own empty_wallet
  next : {s t : StatusStore} → Reach own s → Step own s t → Reach own t

issue-IsAllocated :
    (own : Text) (uri : Option Text) (idx : Option ℤ) (first : StoredCredential)
    (copies : List StoredCredential) (s t : StatusStore)
    → IsCounted uri idx copies
    → IsAllocated s
    → issue_credential own uri idx first copies s ≡ some t
    → IsAllocated t
issue-IsAllocated own (some uri) idx first copies s t (u, cases) h e = absurd (cc)
issue-IsAllocated own none none first copies s t counted h e =
    issued_by_counter own first copies s t h e
issue-IsAllocated own none (some i) first copies s t (u, inl q) h e = absurd (cc)
issue-IsAllocated own none (some i) first copies s t (u, inr several) h e =
    issued_as_batch own i first copies s t several h e

Step-IsAllocated : {own : Text} {s t : StatusStore} → Step own s t → IsAllocated s → IsAllocated t
Step-IsAllocated {own} (issue uri idx first copies s t counted e) h =
    issue-IsAllocated own uri idx first copies s t counted h e
Step-IsAllocated (set_status id status s t shown e) h = set-IsAllocated s t id status shown h e
Step-IsAllocated (rename old new s) h = rename-IsAllocated old new s h
Step-IsAllocated (replace id added s) h = replace-IsAllocated id added s h
Step-IsAllocated {own} (import_foreign c ref s e) h = foreign-IsAllocated own c ref s e h
Step-IsAllocated (remove id s) h = remove-IsAllocated id s h
Step-IsAllocated (clear s) h = clear-IsAllocated s h
Step-IsAllocated (unprotect s) h = unprotect-IsAllocated s h
Step-IsAllocated (evict capacity s) h = evict-IsAllocated capacity s h

Reach-IsAllocated : {own : Text} {s : StatusStore} → Reach own s → IsAllocated s
Reach-IsAllocated here = (tt, tt)
Reach-IsAllocated (next r st) = Step-IsAllocated st (Reach-IsAllocated r)

-- From an empty wallet, after any sequence of these operations: issuing credentials and batches with
-- indices from the counter, setting a status, renaming, replacing, removing and clearing credentials,
-- making room for others, and importing credentials that do not name the own status list. Then no two
-- entries share an index, and for every entry that the wallet has, the published list, read as a verifier
-- reads it at the entry's index, shows the entry's status.
pub published-shown :
    {own : Text} {s : StatusStore} (id : Text) (e : StatusEntry)
    → Reach own s
    → lookup id s.entries ≡ some e
    → HaveDistinctIndices (entries s.entries)
      × (j : ℕ) × (n : ℕ) × (e.index ≡ pos j)
      × (e.status ≡ pos n)
      × (bits : ℕ) × (bitstring : List ℕ) × (build_status_list s ≡ some (bits, bitstring))
      × (extract_status bitstring (pos j) bits ≡ some n)
published-shown {s} id e r found =
    let (h, d) = Reach-IsAllocated r in
    let m = lookup-Memᴰ id s.entries found in
    let (j, n, index, given, status, small) =
      All-member (IsEntry s.counter) (entries s.entries) m h in
    let (bits, bitstring, built, shown) =
      extract_status-build s e j n d m index status small given in
    (d, j, n, index, status, bits, bitstring, built, shown)
