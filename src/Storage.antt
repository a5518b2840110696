-- ===== src/Storage.antt =====
-- internal/storage: the keys of a store, and the store in memory (memory.go).
pub mod Keys
pub mod Names
pub mod Accepted
pub mod Versions
pub mod Swap
mod Tests
use eudi_dev.Base.{
  ℕ, ◌+◌, ◌%◌, ◌^◌, Text, codes, text_eq, lookup, insert, delete, decimal, Bool, true, false, not,
  ◌&&◌, Option, none, some, List, [], ◌∷◌, ◌++◌, any, is_empty, length, keep_if, flat_map, map,
  if◌then◌else◌, ltb, ◌==◌,
}
use eudi_dev.Base.Sort.{stable_sort}
use eudi_dev.Credential.Resolve.{has_prefix}
use eudi_dev.Storage.Keys.{StoreError, not_exist, conflict, clean_key, clean_prefix, slash}

-- `memoryBlob`.
pub record MemoryBlob : Type 0 where
  pub data_of : Text
  pub version : ℕ

-- `memoryStore`. The last version is a uint64.
pub record MemoryStore : Type 0 where
  pub blobs : List (Text × MemoryBlob)
  pub seq : ℕ

-- `Stamp`.
pub record Stamp : Type 0 where
  pub version : Text
  pub size : ℕ

-- A result and an error, as Go returns them.
pub data Result {ℓ} (A : Type ℓ) : Type ℓ where
  ok : A → Result A
  failed : StoreError → Result A

-- `memoryBlob.stamp`.
abbrev pub stamp : MemoryBlob → Stamp
stamp b = record { version = decimal b.version; size = length b.data_of }

-- `NewMemory`.
abbrev pub new_memory : MemoryStore
new_memory = record { blobs = []; seq = 0 }

-- `put`.
unfoldable pub put : Text → Text → MemoryStore → MemoryStore × Stamp
put key content s =
    let seq = (s.seq + 1) % 2 ^ 64 in
    let blob : MemoryBlob = record { data_of = content; version = seq } in
    (record { blobs = insert key blob s.blobs; seq = seq }, stamp blob)

-- `Read`.
unfoldable pub read : Text → MemoryStore → Result Text
read key s = elim (clean_key key) [
  | some e ↦ failed e
  | none ↦ elim (lookup key s.blobs) [ none ↦ failed not_exist | some b ↦ ok b.data_of ]
]

-- `Write`.
unfoldable pub write : Text → Text → MemoryStore → MemoryStore × Result Stamp
write key content s =
    let (after, done) = put key content s in
    elim (clean_key key) [ some e ↦ (s, failed e) | none ↦ (after, ok done) ]

-- `Delete`.
unfoldable pub delete_blob : Text → MemoryStore → MemoryStore × Option StoreError
delete_blob key s = elim (clean_key key) [
  | some e ↦ (s, some e)
  | none ↦ (record s { blobs = delete key s.blobs }, none)
]

-- `Stat`.
unfoldable pub stat : Text → MemoryStore → Result Stamp
stat key s = elim (clean_key key) [
  | some e ↦ failed e
  | none ↦ elim (lookup key s.blobs) [ none ↦ failed not_exist | some b ↦ ok (stamp b) ]
]

-- The test of `WriteIf` on the blob that is stored.
abbrev pub is_conflict : Option MemoryBlob → Text → Bool
is_conflict none expected = not (is_empty expected)
is_conflict (some b) expected = not (text_eq (stamp b).version expected)

-- `WriteIf`.
unfoldable pub write_if : Text → Text → Text → MemoryStore → MemoryStore × Result Stamp
write_if key content expected s =
    let (after, done) = put key content s in
    elim (clean_key key) [
      | some e ↦ (s, failed e)
      | none ↦
          if is_conflict (lookup key s.blobs) expected
          then (s, failed conflict)
          else (after, ok done)
    ]

-- `if prefix != "" { prefix += "/" }`.
abbrev pub folder : Text → Text
folder prefix = if is_empty prefix then [] else prefix ++ slash ∷ []

-- The rest of a key after a prefix.
unfoldable pub after_prefix : Text → Text → Option Text
after_prefix [] key = some key
after_prefix (p ∷ ps) [] = none
after_prefix (p ∷ ps) (c ∷ cs) = let rest = after_prefix ps cs in if p == c then rest else none

-- `a < b` on strings.
unfoldable pub text_lt : Text → Text → Bool
text_lt a [] = false
text_lt [] (c ∷ cs) = true
text_lt (a ∷ s) (b ∷ t) =
    let rest = text_lt s t in if ltb a b then true else if a == b then rest else false

-- The name of a blob directly under a prefix, or nothing.
abbrev pub name_under : Text → Text → List Text
name_under prefix key = elim (after_prefix prefix key) [
  | none ↦ []
  | some name ↦ if any (λ c. c == slash) name then [] else name ∷ []
]

-- `List`.
unfoldable pub list_names : Text → MemoryStore → Result (List Text)
list_names prefix s = elim (clean_prefix prefix) [
  | some e ↦ failed e
  | none ↦ ok (stable_sort text_lt (flat_map (λ entry. name_under (folder prefix) entry.0) s.blobs))
]

-- The entries of `ReadAll`, whose keys have the prefix.
unfoldable pub read_all : Text → MemoryStore → Result (List (Text × MemoryBlob))
read_all prefix s = elim (clean_prefix prefix) [
  | some e ↦ failed e
  | none ↦ ok (keep_if (λ entry. has_prefix entry.0 (folder prefix)) s.blobs)
]

-- `Stamps`.
unfoldable pub stamps : Text → MemoryStore → Result (List (Text × Stamp))
stamps prefix s = elim (read_all prefix s) [
  | failed e ↦ failed e
  | ok blobs ↦ ok (map (λ entry. (entry.0, stamp entry.1)) blobs)
]
