-- ===== src/Status/Wallet/Copies.antt =====
-- Revoking a credential revokes every copy of its batch.
use eudi_dev.Base.{
  ℕ, ◌≤◌, ◌<◌, pos, Text, text_eq, text_eq_iff, text_eq_refl, contains, lookup, true, false, Option,
  none, some, List, [], ◌∷◌, is_empty, if◌then◌else◌, find_first, ◌≡◌, ◌≢◌, refl, sym, ap, ◌∙◌,
  subst, arith, Option-cases, Bool-cases, inl, inr,
}
use mathlib.Core.List.{Memᴰ}
use eudi_dev.Credential.{StoredCredential}
use eudi_dev.Status.Bitstring.{extract_status}
use eudi_dev.Status.Wallet.{
  StatusEntry, StatusStore, build_status_list, group_to_set, batch_ids, set_statuses, ids_to_set,
  set_credential_status,
}
use eudi_dev.Status.Wallet.Write.{HaveDistinctIndices}
use eudi_dev.Status.Wallet.Read.{extract_status-build}
use eudi_dev.Status.Wallet.Revoke.{
  entries, with_status, lookup-set_statuses, set_statuses-distinct, lookup-Memᴰ, set_status_parts,
}

-- The credential with an id: the first one.
abbrev pub credential_with : Text → List StoredCredential → Option StoredCredential
credential_with id = find_first (λ c. text_eq c.id id)

-- A stored credential of the same batch as the one with the id.
pub record IsBatchCopy (creds : List StoredCredential) (id : Text) (copy : StoredCredential)
    : Type 0 where
  pub named : StoredCredential
  pub is_named : credential_with id creds ≡ some named
  pub in_batch : named.batch_group ≢ []
  pub stored : Memᴰ copy creds
  pub same_batch : copy.batch_group ≡ named.batch_group

group_of_named :
    (id : Text) (creds : List StoredCredential) {group : Text} {c : StoredCredential}
    → group_to_set id creds ≡ some group
    → credential_with id creds ≡ some c
    → (c.batch_group ≡ group) × (c.protected ≡ false) × Memᴰ c creds × (text_eq c.id id ≡ true)
unfolding group_to_set
group_of_named id [] h k = cc
group_of_named id (x ∷ creds) {c = c} h k = elim (Bool-cases (text_eq x.id id)) [
  | inl e ↦
      let same = first_is e k in
      let (g, free) = at_named e h in
      (
        ap (λ y. y.batch_group) (sym same) ∙ g,
        ap (λ y. y.protected) (sym same) ∙ free,
        Memᴰ.head (sym same),
        ap (λ y. text_eq y.id id) (sym same) ∙ e,
      )
  | inr e ↦
      let (group, free, m, named) = group_of_named id creds (rw e at h) (rw e at k) in
      (group, free, Memᴰ.tail m, named)
]
  where
    first_is :
        {y : StoredCredential}
        → text_eq x.id id ≡ true
        → (if text_eq x.id id then some x else credential_with id creds) ≡ some y
        → x ≡ y
    first_is e k = ground arith

    at_named :
        {g : Text}
        → text_eq x.id id ≡ true
        → (if text_eq x.id id
            then (if x.protected then none else some x.batch_group)
            else group_to_set id creds)
          ≡ some g
        → (x.batch_group ≡ g) × (x.protected ≡ false)
    at_named e h = ground arith

group_of_unknown :
    (id : Text) (creds : List StoredCredential) {group : Text}
    → group_to_set id creds ≡ some group
    → credential_with id creds ≡ none
    → group ≡ []
unfolding group_to_set
group_of_unknown id [] h k = ground arith
group_of_unknown id (x ∷ creds) h k = elim (Bool-cases (text_eq x.id id)) [
  | inl e ↦ absurd (ground arith)
  | inr e ↦ group_of_unknown id creds (rw e at h) (rw e at k)
]

batch_ids-copy :
    (group : Text) (creds : List StoredCredential) (copy : StoredCredential) {ids : List Text}
    → batch_ids group creds ≡ some ids
    → Memᴰ copy creds
    → copy.batch_group ≡ group
    → (contains ids copy.id ≡ true) × (copy.protected ≡ false)
unfolding batch_ids contains
batch_ids-copy group [] copy h m g = elim m [ ]
batch_ids-copy group (x ∷ creds) copy h (Memᴰ.head q) g =
    elim (Option-cases (batch_ids group creds)) [
      | inl e ↦ absurd (let same = in_group q g in ground arith)
      | inr (rest, e) ↦
          let same = in_group q g in
          let (unprotected, made) = at_head same e h in
          (
            ap (λ l. contains l copy.id) made
                ∙ rw (ap (λ y. text_eq x.id y.id) q ∙ text_eq_refl x.id) refl,
            ap (λ y. y.protected) q ∙ unprotected,
          )
    ]
  where
    in_group : copy ≡ x → copy.batch_group ≡ group → text_eq x.batch_group group ≡ true
    in_group q g = (text_eq_iff x.batch_group group).1 (ap (λ y. y.batch_group) (sym q) ∙ g)

    at_head :
        {rest out : List Text}
        → text_eq x.batch_group group ≡ true
        → batch_ids group creds ≡ some rest
        → batch_ids group (x ∷ creds) ≡ some out
        → (x.protected ≡ false) × (out ≡ x.id ∷ rest)
    at_head same e h = ground arith
batch_ids-copy group (x ∷ creds) copy {ids} h (Memᴰ.tail m) g =
    elim (Option-cases (batch_ids group creds)) [
      | inl e ↦ absurd (ground arith)
      | inr (rest, e) ↦
          let (listed, free) = batch_ids-copy group creds copy e m g in (kept rest e h listed, free)
    ]
  where
    kept :
        (rest : List Text) {out : List Text}
        → batch_ids group creds ≡ some rest
        → batch_ids group (x ∷ creds) ≡ some out
        → contains rest copy.id ≡ true
        → contains out copy.id ≡ true
    kept rest e h listed = ground arith

ids_alone :
    (id group : Text) (creds : List StoredCredential) {ids : List Text}
    → group_to_set id creds ≡ some group
    → ids_to_set id creds ≡ some ids
    → is_empty group ≡ true
    → ids ≡ id ∷ []
unfolding ids_to_set
ids_alone id group creds e h k = ground arith

ids_of_batch :
    (id group : Text) (creds : List StoredCredential) {ids : List Text}
    → group_to_set id creds ≡ some group
    → ids_to_set id creds ≡ some ids
    → is_empty group ≡ false
    → batch_ids group creds ≡ some ids
unfolding ids_to_set
ids_of_batch id group creds e h k = ground arith

is_empty_of_ne : (t : Text) → t ≢ [] → is_empty t ≡ false
is_empty_of_ne [] h = absurd (h refl)
is_empty_of_ne (c ∷ t) h = refl

contains_alone : (id : Text) → contains (id ∷ []) id ≡ true
unfolding contains
contains_alone id = rw (text_eq_refl id) refl

ids_to_set_self :
    (id : Text) (creds : List StoredCredential) {ids : List Text}
    → ids_to_set id creds ≡ some ids
    → contains ids id ≡ true
unfolding ids_to_set contains
ids_to_set_self id creds h = elim (Option-cases (group_to_set id creds)) [
  | inl e ↦ absurd (ground arith)
  | inr (group, e) ↦ elim (Bool-cases (is_empty group)) [
    | inl alone ↦ ap (λ l. contains l id) (ids_alone id group creds e h alone) ∙ contains_alone id
    | inr batch ↦ elim (Option-cases (credential_with id creds)) [
      | inl f ↦ absurd (let g = group_of_unknown id creds e f in ground arith)
      | inr (c, f) ↦
          let (g, free, m, named) = group_of_named id creds e f in
          ap (contains _) (sym ((text_eq_iff c.id id).0 named))
          ∙ (batch_ids-copy group creds c (ids_of_batch id group creds e h batch) m g).0
    ]
  ]
]

ids_to_set-copy :
    (id : Text) (creds : List StoredCredential) (copy : StoredCredential) {ids : List Text}
    → ids_to_set id creds ≡ some ids
    → IsBatchCopy creds id copy
    → (contains ids copy.id ≡ true) × (copy.protected ≡ false)
unfolding ids_to_set
ids_to_set-copy id creds copy h c = elim (Option-cases (group_to_set id creds)) [
  | inl e ↦ absurd (ground arith)
  | inr (group, e) ↦
      let (g, free, m, named) = group_of_named id creds e c.is_named in
      let some_group = is_empty_of_ne group (λ z. c.in_batch (g ∙ z)) in
      batch_ids-copy group creds copy (ids_of_batch id group creds e h some_group) c.stored
        (c.same_batch ∙ g)
]

shown_after :
    (s t : StatusStore) (ids : List Text) (n j : ℕ) (copy : Text) (old : StatusEntry)
    → t.entries ≡ set_statuses (pos n) ids s.entries
    → t.counter ≡ s.counter
    → contains ids copy ≡ true
    → HaveDistinctIndices (entries s.entries)
    → lookup copy s.entries ≡ some old
    → old.index ≡ pos j
    → n ≤ 255
    → j < s.counter
    → (bits : ℕ) × (bitstring : List ℕ) × (build_status_list t ≡ some (bits, bitstring))
      × (extract_status bitstring (pos j) bits ≡ some n)
shown_after s t ids n j copy old made same_counter listed d kept index small given =
    extract_status-build t (with_status (pos n) old) j n
      (subst (λ m. HaveDistinctIndices (entries m)) (sym made)
        (set_statuses-distinct (pos n) ids s.entries d))
      (subst (λ m. Memᴰ (with_status (pos n) old) (entries m)) (sym made)
        (lookup-Memᴰ copy (set_statuses (pos n) ids s.entries)
          (lookup-set_statuses (pos n) ids s.entries copy ∙ rw (listed, kept) refl)))
      index refl small (subst (λ c. j < c) (sym same_counter) given)

-- When the wallet accepts a status for a credential, the list that it publishes next shows that status
-- at the index of the credential and of every copy of its batch, and none of these copies is protected;
-- for entries whose index the counter has given, where no two entries share an index.
pub set_credential_status-shown :
    (s t : StatusStore) (id : Text) (n : ℕ) (shown : StatusEntry)
    → set_credential_status s id (pos n) ≡ some (t, shown)
    → HaveDistinctIndices (entries s.entries)
    → (copy : StoredCredential) (old : StatusEntry) (j : ℕ) → IsBatchCopy s.credentials id copy
    → lookup copy.id s.entries ≡ some old
    → old.index ≡ pos j
    → j < s.counter
    → (copy.protected ≡ false)
      × ((bits : ℕ) × (bitstring : List ℕ) × (build_status_list t ≡ some (bits, bitstring))
          × (extract_status bitstring (pos j) bits ≡ some n))
set_credential_status-shown s t id n shown h d copy old j c kept index given =
    let (ids, small, made_of, made, same_counter) = set_status_parts s t id (pos n) shown h in
    let (listed, free) = ids_to_set-copy id s.credentials copy made_of c in
    (
      free,
      shown_after s t ids n j copy.id old made same_counter listed d kept index (ground arith)
          given,
    )

-- When the wallet accepts a status for a credential, the list that it publishes next shows that status
-- at the index of the credential itself, whether or not it belongs to a batch; for entries whose index
-- the counter has given, where no two entries share an index.
pub set_credential_status-shown_self :
    (s t : StatusStore) (id : Text) (n : ℕ) (shown : StatusEntry)
    → set_credential_status s id (pos n) ≡ some (t, shown)
    → HaveDistinctIndices (entries s.entries)
    → (old : StatusEntry) (j : ℕ) → lookup id s.entries ≡ some old
    → old.index ≡ pos j
    → j < s.counter
    → (bits : ℕ) × (bitstring : List ℕ) × (build_status_list t ≡ some (bits, bitstring))
      × (extract_status bitstring (pos j) bits ≡ some n)
set_credential_status-shown_self s t id n shown h d old j kept index given =
    let (ids, small, made_of, made, same_counter) = set_status_parts s t id (pos n) shown h in
    shown_after s t ids n j id old made same_counter (ids_to_set_self id s.credentials made_of) d
      kept index (ground arith) given
