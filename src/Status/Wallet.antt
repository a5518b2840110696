-- ===== src/Status/Wallet.antt =====
-- internal/wallet/wallet_status.go: setting a status, and building the list that is published.
pub mod Publish
pub mod Write
pub mod Read
pub mod Revoke
pub mod Copies
pub mod Issue
pub mod Remove
pub mod Entries
pub mod Allocated
pub mod Operations
pub mod History
pub mod Tests
use eudi_dev.Base.{
  ◌>>=◌, ℕ, zero, suc, ◌+◌, ◌-◌, ◌*◌, ◌/◌, ◌%◌, ◌^◌, ℤ, pos, negsuc, Text, text_eq, lookup, insert,
  Bool, true, false, Option, none, some, List, [], ◌∷◌, is_empty, length, replicate, map,
  if◌then◌else◌, ltb, leb, ◌==◌, ◌&&◌,
}
use eudi_dev.Credential.{StoredCredential}
use eudi_dev.Status.Bitstring.{bits_for_status, or_entry}

-- `StatusEntry`.
pub record StatusEntry : Type 0 where
  pub index : ℤ
  pub status : ℤ

-- The fields of `Wallet` that concern the status list. The counter is never negative.
pub record StatusStore : Type 0 where
  pub credentials : List StoredCredential
  pub entries : List (Text × StatusEntry)
  pub counter : ℕ

-- `entry.Status & mask`, in two's complement.
unfoldable pub mask_status : ℕ → ℤ → ℕ
mask_status bits (pos n) = n % 2 ^ bits
mask_status bits (negsuc n) = 2 ^ bits - 1 - n % 2 ^ bits

-- `if entry.Index >= 0 && entry.Status > maxStatus`.
abbrev pub raise_status : ℕ → StatusEntry → ℕ
raise_status top e = elim e.index [
  | negsuc i ↦ top
  | pos i ↦ elim e.status [ negsuc n ↦ top | pos n ↦ if ltb top n then n else top ]
]

-- The loop that computes `maxStatus`.
unfoldable pub max_status : ℕ → List StatusEntry → ℕ
max_status top [] = top
max_status top (e ∷ es) = max_status (raise_status top e) es

-- The number of bits, which falls back to the widest.
unfoldable pub list_bits : List StatusEntry → ℕ
list_bits es = elim (bits_for_status (pos (max_status 0 es))) [ none ↦ 8 | some bits ↦ bits ]

-- `numBytes`.
unfoldable pub list_bytes : ℕ → ℕ → ℕ
list_bytes bits counter = let bytes = (counter * bits + 7) / 8 in if ltb bytes 16 then 16 else bytes

-- One round of the loop over the entries.
unfoldable pub write_entry : ℕ → ℕ → StatusEntry → List ℕ → Option (List ℕ)
write_entry bits capacity e bitstring = elim e.index [
  | negsuc i ↦ some bitstring
  | pos i ↦
      let out = or_entry bits i (mask_status bits e.status) bitstring in
      if leb capacity i
      then some bitstring
      else elim e.status [ negsuc n ↦ out | pos n ↦ if n == 0 then some bitstring else out ]
]

-- The loop; `none` is an index out of range, which panics.
unfoldable pub write_entries : ℕ → ℕ → List StatusEntry → List ℕ → Option (List ℕ)
write_entries bits capacity [] bitstring = some bitstring
write_entries bits capacity (e ∷ es) bitstring =
    write_entry bits capacity e bitstring >>= λ next. write_entries bits capacity es next

-- `BuildStatusList`. The map is ranged over in some order, that of the list.
unfoldable pub build_status_list : StatusStore → Option (ℕ × List ℕ)
build_status_list s =
    let es = map (λ e. e.1) s.entries in
    let bits = list_bits es in
    let bytes = list_bytes bits s.counter in
    write_entries bits (bytes * 8 / bits) es (replicate bytes 0) >>= λ bitstring.
    some (bits, bitstring)

-- The first loop of `SetCredentialStatus`: the batch group, or `none` for a protected credential.
unfoldable pub group_to_set : Text → List StoredCredential → Option Text
group_to_set id [] = some []
group_to_set id (c ∷ cs) =
    let later = group_to_set id cs in
    if text_eq c.id id then (if c.protected then none else some c.batch_group) else later

-- The second loop: the ids of the batch, or `none` where one of its credentials is protected.
unfoldable pub batch_ids : Text → List StoredCredential → Option (List Text)
batch_ids group [] = some []
batch_ids group (c ∷ cs) =
    let later = batch_ids group cs in
    if text_eq c.batch_group group
    then (if c.protected then none else later >>= λ ids. some (c.id ∷ ids))
    else later

-- The third loop; the entries are changed in place.
unfoldable pub set_statuses : ℤ → List Text → List (Text × StatusEntry) → List (Text × StatusEntry)
set_statuses status [] entries = entries
set_statuses status (id ∷ ids) entries = set_statuses status ids (elim (lookup id entries) [
  | none ↦ entries
  | some e ↦ insert id (record { index = e.index; status = status }) entries
])

-- The ids to set: the copies of a batch, or the credential alone.
unfoldable pub ids_to_set : Text → List StoredCredential → Option (List Text)
ids_to_set id creds = group_to_set id creds >>= λ group.
    if is_empty group then some (id ∷ []) else batch_ids group creds

-- `status < 0 || status > 255`.
abbrev pub is_status : ℤ → Bool
is_status (pos n) = leb n 255
is_status (negsuc n) = false

-- `SetCredentialStatus`: the new state and the entry of the credential, or `none` where it refuses.
unfoldable pub set_credential_status : StatusStore → Text → ℤ → Option (StatusStore × StatusEntry)
set_credential_status s id status =
    let done = ids_to_set id s.credentials >>= λ ids. lookup id s.entries >>= λ old.
    let entries = set_statuses status ids s.entries in
    some (
      record { credentials = s.credentials; entries = entries; counter = s.counter },
      elim (lookup id entries) [ none ↦ old | some new ↦ new ],
    ) in
    if is_status status then done else none

-- `NextStatusIndex` without a shared counter.
unfoldable pub next_status_index : StatusStore → StatusStore × ℕ
next_status_index s = (
  record { credentials = s.credentials; entries = s.entries; counter = s.counter + 1 },
  s.counter,
)

-- `registerStatusEntry`.
unfoldable pub register_status_entry : StatusStore → Text → ℤ → StatusStore
register_status_entry s id (negsuc n) = s
register_status_entry s id (pos idx) = record {
  credentials = s.credentials;
  entries = insert id (record { index = pos idx; status = pos 0 }) s.entries;
  counter = s.counter;
}
