-- ===== src/Storage/Versions.antt =====
-- The versions of the store in internal/storage/memory.go under any changes.
use eudi_dev.Base.{
  ℕ, ◌+◌, ◌^◌, ◌%◌, ◌≤◌, ◌<◌, Text, text_eq, lookup, delete, lookup-insert, lookup-delete, Option,
  some, Option-cases, Bool-cases, List, [], ◌∷◌, length, ◌≡◌, ◌⊎◌, refl, inl, inr, arith,
}
use eudi_dev.Storage.{MemoryBlob, MemoryStore, put, write, delete_blob, is_conflict, write_if}
use eudi_dev.Storage.Keys.{clean_key}

-- The operations that change a store.
pub data Change : Type 0 where
  writing : Text → Text → Change
  writing_if : Text → Text → Text → Change
  deleting : Text → Change

unfoldable pub apply : Change → MemoryStore → MemoryStore
apply (writing key content) s = (write key content s).0
apply (writing_if key content expected) s = (write_if key content expected s).0
apply (deleting key) s = (delete_blob key s).0

-- The operations of any callers, in the order in which they take the lock.
unfoldable pub run : List Change → MemoryStore → MemoryStore
run [] s = s
run (c ∷ cs) s = run cs (apply c s)

-- No blob has a version beyond the last one.
abbrev pub IsSound : MemoryStore → Type 0
IsSound s = (k : Text) (b : MemoryBlob) → lookup k s.blobs ≡ some b → b.version ≤ s.seq

-- A store that came from another: under each key it has what the other has, or nothing, or a blob with
-- a version that the other has not given yet.
pub record IsLater (s t : MemoryStore) : Type 0 where
  pub le : s.seq ≤ t.seq
  pub each :
      (k : Text)
      → (lookup k t.blobs ≡ lookup k s.blobs)
        ⊎ ((b : MemoryBlob) → lookup k t.blobs ≡ some b → (s.seq < b.version) × (b.version ≤ t.seq))

-- What stands under a key, as `IsLater` has it, against a last version.
abbrev IsNewer : ℕ → ℕ → Option MemoryBlob → Option MemoryBlob → Type 0
IsNewer from last old new =
    (new ≡ old) ⊎ ((b : MemoryBlob) → new ≡ some b → (from < b.version) × (b.version ≤ last))

IsNewer-widen :
    (from last later : ℕ) (old new : Option MemoryBlob)
    → last ≤ later
    → IsNewer from last old new
    → IsNewer from later old new
IsNewer-widen from last later old new le (inl e) = inl e
IsNewer-widen from last later old new le (inr f) =
    inr (λ b q. let (above, below) = f b q in (above, omega (arith, below, le)))

put-IsLater :
    (s t : MemoryStore) (key content : Text)
    → t.seq + 1 < 2 ^ 64
    → IsLater s t
    → IsLater s (put key content t).0
unfolding put
put-IsLater s t key content small h = record {
  le = omega (arith, h.le);
  each = λ k. elim (Bool-cases (text_eq key k)) [
    | inl e ↦ inr (λ b q. grind (
      arith,
      lookup-insert key k (record { data_of = content; version = (t.seq + 1) % 2 ^ 64 }) t.blobs,
      h.le,
    ))
    | inr e ↦
        rw
          (
            lookup-insert key k (record { data_of = content; version = (t.seq + 1) % 2 ^ 64 })
                t.blobs,
            e,
          )
          (IsNewer-widen s.seq t.seq ((t.seq + 1) % 2 ^ 64) (lookup k s.blobs) (lookup k t.blobs)
            (omega arith) (h.each k))
  ];
}

delete-IsLater :
    (s t : MemoryStore) (key : Text)
    → IsLater s t
    → IsLater s (record t { blobs = delete key t.blobs })
delete-IsLater s t key h = record {
  le = h.le;
  each = λ k. elim (Bool-cases (text_eq key k)) [
    | inl e ↦ inr (λ b q. grind (arith, lookup-delete key k t.blobs))
    | inr e ↦ rw (lookup-delete key k t.blobs, e) (h.each k)
  ];
}

-- One change gives at most one version.
abbrev IsStep : MemoryStore → MemoryStore → MemoryStore → Type 0
IsStep s t u = IsLater s u × (u.seq ≤ t.seq + 1)

put-le_suc : (t : MemoryStore) (key content : Text) → (put key content t).0.seq ≤ t.seq + 1
unfolding put
put-le_suc t key content = omega arith

write-IsStep :
    (s t : MemoryStore) (key content : Text)
    → t.seq + 1 < 2 ^ 64
    → IsLater s t
    → IsStep s t (write key content t).0
unfolding write
write-IsStep s t key content small h = elim (Option-cases (clean_key key)) [
  | inl e ↦ rw (e, write) (put-IsLater s t key content small h, put-le_suc t key content)
  | inr (x, e) ↦ rw (e, write) (h, omega arith)
]

write_if-IsStep :
    (s t : MemoryStore) (key content expected : Text)
    → t.seq + 1 < 2 ^ 64
    → IsLater s t
    → IsStep s t (write_if key content expected t).0
unfolding write_if
write_if-IsStep s t key content expected small h = elim (Option-cases (clean_key key)) [
  | inl e ↦ elim (Bool-cases (is_conflict (lookup key t.blobs) expected)) [
    | inl c ↦ rw (e, c, write_if) (h, omega arith)
    | inr c ↦ rw (e, c, write_if) (put-IsLater s t key content small h, put-le_suc t key content)
  ]
  | inr (x, e) ↦ rw (e, write_if) (h, omega arith)
]

delete_blob-IsStep :
    (s t : MemoryStore) (key : Text) → IsLater s t → IsStep s t (delete_blob key t).0
unfolding delete_blob
delete_blob-IsStep s t key h = elim (Option-cases (clean_key key)) [
  | inl e ↦ rw (e, delete_blob) (delete-IsLater s t key h, omega arith)
  | inr (x, e) ↦ rw (e, delete_blob) (h, omega arith)
]

apply-IsStep :
    (c : Change) (s t : MemoryStore) → t.seq + 1 < 2 ^ 64 → IsLater s t → IsStep s t (apply c t)
unfolding apply
apply-IsStep (writing key content) s t small h = write-IsStep s t key content small h
apply-IsStep (writing_if key content expected) s t small h =
    write_if-IsStep s t key content expected small h
apply-IsStep (deleting key) s t small h = delete_blob-IsStep s t key h

-- What any changes lead to, and how many versions they give at most.
pub run-IsLater :
    (cs : List Change) (s t : MemoryStore)
    → t.seq + length cs < 2 ^ 64
    → IsLater s t
    → IsLater s (run cs t) × ((run cs t).seq ≤ t.seq + length cs)
unfolding run
run-IsLater [] s t small h = (h, omega arith)
run-IsLater (c ∷ cs) s t small h =
    let (later, le) = apply-IsStep c s t (omega arith) h in
    let (reached, most) = run-IsLater cs s (apply c t) (omega (arith, le)) later in
    (reached, omega (arith, most, le))

pub here-IsLater : (s : MemoryStore) → IsLater s s
here-IsLater s = record { le = omega arith; each = λ k. inl refl }
