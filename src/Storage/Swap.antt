-- ===== src/Storage/Swap.antt =====
-- Compare and swap: `WriteIf` of internal/storage/memory.go with the stamp of an earlier read.
use eudi_dev.Base.{
  ℕ, ◌+◌, ◌≤◌, ◌<◌, Text, text_eq_iff, text_eq_refl, lookup, decimal, decimal-ne-nil, atoi-decimal,
  int_limit, true, false, none, some, Option-cases, Bool-cases, List, [], ◌∷◌, is_empty, length,
  ◌≡◌, ◌↔◌, refl, sym, subst, ◌∙◌, inl, inr, arith,
}
use eudi_dev.Storage.{
  MemoryBlob, MemoryStore, new_memory, Stamp, Result, ok, stamp, put, stat, is_conflict, write_if,
}
use eudi_dev.Storage.Keys.{clean_key}
use eudi_dev.Storage.Versions.{Change, run, IsSound, IsLater, run-IsLater, here-IsLater}

decimal-injective : (m n : ℕ) → m < int_limit → n < int_limit → decimal m ≡ decimal n → m ≡ n
decimal-injective m n a b e = ground (arith, atoi-decimal m a, atoi-decimal n b)

empty_nil : (t : Text) → is_empty t ≡ true → t ≡ []
empty_nil [] h = refl
empty_nil (c ∷ cs) h = cc

-- The blob that is stored has the version that is expected, in a later store, exactly where it is the
-- blob that was there before.
version-unchanged :
    (s t : MemoryStore) (key : Text) (b : MemoryBlob)
    → IsSound s
    → IsLater s t
    → t.seq < int_limit
    → lookup key s.blobs ≡ some b
    → (is_conflict (lookup key t.blobs) (stamp b).version ≡ false) ↔ (lookup key t.blobs ≡ some b)
version-unchanged s t key b sound later small e = (
  λ free. elim (later.each key) [
    | inl same ↦ same ∙ e
    | inr newer ↦ elim (Option-cases (lookup key t.blobs)) [
      | inl gone ↦ absurd (nothing_there (ground arith))
      | inr (other, there) ↦
          let (above, below) = newer other there in
          absurd (
            other_there other above below
              (ground (arith, text_eq_iff (decimal other.version) (decimal b.version))))
    ]
  ],
  λ there. ground (arith, text_eq_refl (decimal b.version)),
)
  where
    nothing_there : is_empty (decimal b.version) ≡ true → ⊥
    nothing_there q = decimal-ne-nil b.version (empty_nil (decimal b.version) q)

    other_there :
        (other : MemoryBlob)
        → s.seq < other.version
        → other.version ≤ t.seq
        → decimal other.version ≡ decimal b.version
        → ⊥
    other_there other above below q = omega (
      arith,
      sound key b e,
      above,
      decimal-injective other.version b.version (omega (arith, below))
          (omega (arith, sound key b e, later.le)) q,
    )

empty_store : (k : Text) → lookup k new_memory.blobs ≡ none
unfolding lookup
empty_store k = refl

-- A store that came from an empty one by any changes has no version beyond its last one.
run-IsSound :
    (cs : List Change)
    → length cs < int_limit
    → IsSound (run cs new_memory) × ((run cs new_memory).seq ≤ length cs)
run-IsSound cs small =
    let (later, most) =
      run-IsLater cs new_memory new_memory (omega arith) (here-IsLater new_memory) in
    (
      λ k b e. elim (later.each k) [
        | inl same ↦ absurd (ground (arith, empty_store k))
        | inr newer ↦ (newer b e).1
      ],
      omega (arith, most),
    )

stat-found :
    (key : Text) (s : MemoryStore) (st : Stamp)
    → stat key s ≡ ok st
    → (b : MemoryBlob) × (clean_key key ≡ none) × (lookup key s.blobs ≡ some b) × (stamp b ≡ st)
unfolding stat
stat-found key s st e = elim (Option-cases (clean_key key)) [
  | inr (x, q) ↦ absurd (ground arith)
  | inl q ↦ elim (Option-cases (lookup key s.blobs)) [
    | inl r ↦ absurd (ground arith)
    | inr (b, r) ↦ (b, q, r, ground arith)
  ]
]

-- The result of a write that went through.
abbrev pub IsSwapped : MemoryStore × Result Stamp → Type 0
IsSwapped (t, done) = (st : Stamp) × (done ≡ ok st)

write_if-IsSwapped :
    (key content expected : Text) (t : MemoryStore)
    → clean_key key ≡ none
    → IsSwapped (write_if key content expected t)
      ↔ (is_conflict (lookup key t.blobs) expected ≡ false)
unfolding write_if
write_if-IsSwapped key content expected t q =
    elim (Bool-cases (is_conflict (lookup key t.blobs) expected)) [
      | inl c ↦ rw (q, c, write_if) (λ (st, e). absurd (cc), λ e. absurd (cc))
      | inr c ↦ rw (q, c, write_if) (λ e. refl, λ e. ((put key content t).1, refl))
    ]

-- A client reads the stamp of a key in a store that came from an empty one by any changes, other
-- clients make any changes, and the client writes with the version that it read: the write goes through
-- exactly where the key still holds the blob that it held. This is so although keys are deleted and
-- written again, as long as there are fewer than 2^63 changes.
pub write_if-unchanged_iff :
    (before changes : List Change) (key content : Text) (st : Stamp)
    → length before + length changes < int_limit
    → stat key (run before new_memory) ≡ ok st
    → let s = run before new_memory in
      let t = run changes s in
      IsSwapped (write_if key content st.version t) ↔ (lookup key t.blobs ≡ lookup key s.blobs)
write_if-unchanged_iff before changes key content st small e =
    let s = run before new_memory in
    let t = run changes s in
    let (sound, few) = run-IsSound before (omega arith) in
    let (later, most) = run-IsLater changes s s (omega (arith, few)) (here-IsLater s) in
    let (b, clean, found, is) = stat-found key s st e in
    let (to, from) = version-unchanged s t key b sound later (omega (arith, few, most)) found in
    let (swaps, swapped) = write_if-IsSwapped key content st.version t clean in
    (
      λ q.
          to (subst (λ x. is_conflict (lookup key t.blobs) x.version ≡ false) (sym is) (swaps q))
          ∙ sym found,
      λ same. swapped (
          subst (λ x. is_conflict (lookup key t.blobs) x.version ≡ false) is (from (same ∙ found))),
    )
