-- ===== src/Status/Wallet/Operations.antt =====
-- What each operation does to the status entries.
use eudi_dev.Base.{
  leb, any, All-member, ℕ, ◌≤◌, ℤ, pos, negsuc, Text, text_eq, lookup, delete, Bool, true, false,
  not, ◌&&◌, ◌||◌, Option, none, some, Option-cases, Bool-cases, List, [], is_empty, if◌then◌else◌,
  ◌≡◌, ◌⊎◌, refl, sym, subst, arith, inl, inr,
}
use eudi_dev.Base.Trim.{trim_space}
use eudi_dev.Credential.{StoredCredential}
use eudi_dev.Credential.Resolve.{resolve_id}
use eudi_dev.Status.Reference.{StatusRef}
use eudi_dev.Status.Wallet.Remove.{
  remove_credential, clear_credentials, remove_protected, make_credential_room,
}
use eudi_dev.Status.Wallet.{
  group_to_set, StatusEntry, StatusStore, set_credential_status, is_status, next_status_index,
}
use eudi_dev.Status.Wallet.Revoke.{entries, set_statuses-distinct, lookup-Memᴰ, set_status_parts}
use eudi_dev.Status.Wallet.Issue.{
  own_status_ref, adopt_own_status_entry, import_credential, store_copy, store_copies,
  resolve_issue_status, is_given, issue_credential, rename_credential, replace_credential,
}
use eudi_dev.Status.Wallet.Entries.{
  All-insert, All-delete, All-set_statuses, insert-distinct, delete-distinct, deleted-away,
}
use eudi_dev.Status.Wallet.Allocated.{
  IsEntry, AreAllocated, store_copies-unlisted, counted-AreAllocated, store_copies-AreAllocated,
  store_copy-unlisted,
}

-- Neither the URI nor the index is given, or an index for a batch: then each index comes from the
-- counter.
abbrev pub IsCounted : Option Text → Option ℤ → List StoredCredential → Type 0
IsCounted uri idx copies = (uri ≡ none) × ((idx ≡ none) ⊎ (is_empty copies ≡ false))

abbrev pub IsAllocated : StatusStore → Type 0
IsAllocated s = AreAllocated s.counter s.entries

-- What is issued where the status is resolved.
abbrev issued :
    Text → Text → Bool → ℤ → StoredCredential → List StoredCredential → StatusStore → StatusStore
issued own uri register i first copies s =
    store_copies own uri register i copies (store_copy own uri register i first s)

issue-resolved :
    (own : Text) (uri : Option Text) (idx : Option ℤ) (first : StoredCredential)
    (copies : List StoredCredential) (s r : StatusStore) (u : Text) (i : ℤ) (register : Bool)
    → resolve_issue_status own uri idx s ≡ some (r, u, i, register)
    → issue_credential own uri idx first copies s
      ≡ some (
          if not (is_empty copies) && register && (is_given idx || is_given uri)
          then issued own u register
              (pos (next_status_index r).1)
              first
              copies
              (next_status_index r).0
          else issued own u register i first copies r)
unfolding issue_credential
issue-resolved own uri idx first copies s r u i register e = rw (e, issue_credential) refl

issue-unresolved :
    (own : Text) (uri : Option Text) (idx : Option ℤ) (first : StoredCredential)
    (copies : List StoredCredential) (s : StatusStore)
    → resolve_issue_status own uri idx s ≡ none
    → issue_credential own uri idx first copies s ≡ none
unfolding issue_credential
issue-unresolved own uri idx first copies s e = rw (e, issue_credential) refl

counted-issued :
    (own uri : Text) (first : StoredCredential) (copies : List StoredCredential) (s : StatusStore)
    → IsAllocated s
    → IsAllocated
        (issued own uri true (pos (next_status_index s).1) first copies (next_status_index s).0)
counted-issued own uri first copies s h =
    store_copies-AreAllocated own uri (pos (next_status_index s).1) copies
      (store_copy own uri true (pos (next_status_index s).1) first (next_status_index s).0)
      (counted-AreAllocated own uri first s h)

unlisted-issued :
    (own : Text) (first : StoredCredential) (copies : List StoredCredential) (s : StatusStore)
    → IsAllocated s
    → IsAllocated (issued own [] false (pos 0) first copies s)
unlisted-issued own first copies s h =
    store_copies-unlisted own (pos 0) copies (store_copy own [] false (pos 0) first s)
      (subst IsAllocated (sym (store_copy-unlisted own (pos 0) first s)) h)

pub issued_by_counter :
    (own : Text) (first : StoredCredential) (copies : List StoredCredential) (s t : StatusStore)
    → IsAllocated s
    → issue_credential own none none first copies s ≡ some t
    → IsAllocated t
unfolding resolve_issue_status
issued_by_counter own first copies s t h e = elim (Bool-cases (is_empty (trim_space own))) [
  | inl q ↦
      let is : issued own [] false (pos 0) first copies s ≡ t =
        ground
          (arith, issue-resolved own none none first copies s s [] (pos 0) false (ground arith)) in
      subst IsAllocated is (unlisted-issued own first copies s h)
  | inr q ↦
      let (after, i) = next_status_index s in
      let is : issued own (trim_space own) true (pos i) first copies after ≡ t = ground (
        arith,
        issue-resolved own none none first copies s after (trim_space own) (pos i) true
            (ground arith),
      ) in
      subst IsAllocated is (counted-issued own (trim_space own) first copies s h)
]

pub issued_as_batch :
    (own : Text) (i : ℤ) (first : StoredCredential) (copies : List StoredCredential)
    (s t : StatusStore)
    → is_empty copies ≡ false
    → IsAllocated s
    → issue_credential own none (some i) first copies s ≡ some t
    → IsAllocated t
unfolding resolve_issue_status
issued_as_batch own i first copies s t several h e = elim (Bool-cases (is_empty (trim_space own))) [
  | inl q ↦
      absurd (ground (arith, issue-unresolved own none (some i) first copies s (ground arith)))
  | inr q ↦
      let (after, k) = next_status_index s in
      let is : issued own (trim_space own) true (pos k) first copies after ≡ t = ground (
        arith,
        issue-resolved own none (some i) first copies s s (trim_space own) i true (ground arith),
      ) in
      subst IsAllocated is (counted-issued own (trim_space own) first copies s h)
]

status_value : (status : ℤ) → is_status status ≡ true → (n : ℕ) × (status ≡ pos n) × (n ≤ 255)
status_value (pos n) h = (n, refl, ground arith)
status_value (negsuc n) h = cc

pub set-IsAllocated :
    (s t : StatusStore) (id : Text) (status : ℤ) (shown : StatusEntry)
    → IsAllocated s
    → set_credential_status s id status ≡ some (t, shown)
    → IsAllocated t
set-IsAllocated s t id status shown (h, d) e =
    let (ids, valid, _, new, counter) = set_status_parts s t id status shown e in
    rw (new, counter)
      (
        All-set_statuses (IsEntry s.counter) status ids s.entries
            (λ x (j, n, a, b, c, k).
              let (value, is, small) = status_value status valid in (j, value, a, b, is, small))
            h,
        set_statuses-distinct status ids s.entries d,
      )

pub rename-IsAllocated :
    (old new : Text) (s : StatusStore) → IsAllocated s → IsAllocated (rename_credential old new s)
unfolding rename_credential
rename-IsAllocated old new s (h, d) = elim (Option-cases (lookup old s.entries)) [
  | inl e ↦ rw (e, rename_credential) (h, d)
  | inr (x, e) ↦
      rw (e, rename_credential)
        (
          All-insert (IsEntry s.counter) new x (delete old s.entries)
              (All-member (IsEntry s.counter) (entries s.entries) (lookup-Memᴰ old s.entries e) h)
              (All-delete (IsEntry s.counter) old s.entries h),
          insert-distinct new x (delete old s.entries) (deleted-away old x s.entries e d)
              (delete-distinct old s.entries d),
        )
]

pub replace-IsAllocated :
    (id added : Text) (s : StatusStore)
    → IsAllocated s
    → IsAllocated (replace_credential id added s)
unfolding replace_credential
replace-IsAllocated id added s (h, d) = elim (Bool-cases (text_eq id added)) [
  | inl e ↦ rw e (h, d)
  | inr e ↦ rw e (
      rename-IsAllocated added id _
        (All-delete (IsEntry s.counter) id s.entries h, delete-distinct id s.entries d))
]

pub foreign-IsAllocated :
    (own : Text) (c : StoredCredential) (ref : Option StatusRef) (s : StatusStore)
    → own_status_ref own ref ≡ none
    → IsAllocated s
    → IsAllocated (import_credential own c ref s)
unfolding import_credential adopt_own_status_entry
foreign-IsAllocated own c ref s e h = rw (e, import_credential, adopt_own_status_entry) h

pub remove-IsAllocated :
    (id : Text) (s : StatusStore) → IsAllocated s → IsAllocated (remove_credential id s)
unfolding remove_credential
remove-IsAllocated id s h =
    elim (Option-cases (group_to_set (resolve_id s.credentials id) s.credentials)) [
      | inl e ↦ rw (e, remove_credential) h
      | inr (group, e) ↦
          elim (Bool-cases (
            not (is_empty group)
            && any (λ c. text_eq c.batch_group group && c.protected) s.credentials)) [
              | inl q ↦ rw (e, q, remove_credential) h
              | inr q ↦ rw (e, q, remove_credential) h
            ]
    ]

pub clear-IsAllocated : (s : StatusStore) → IsAllocated s → IsAllocated (clear_credentials s)
unfolding clear_credentials
clear-IsAllocated s h = h

pub unprotect-IsAllocated : (s : StatusStore) → IsAllocated s → IsAllocated (remove_protected s)
unfolding remove_protected
unprotect-IsAllocated s h = h

pub evict-IsAllocated :
    (capacity : ℕ) (s : StatusStore) → IsAllocated s → IsAllocated (make_credential_room capacity s)
unfolding make_credential_room
evict-IsAllocated capacity s h = elim (Bool-cases (leb capacity 0)) [
  | inl e ↦ rw (e, make_credential_room) h
  | inr e ↦ rw (e, make_credential_room) h
]
