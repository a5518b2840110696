-- ===== src/Status/Wallet/Revoke.antt =====
-- A status that is set is the status that the published list shows, for every copy of a batch.
use eudi_dev.Base.{
  ◌>>=◌, ℤ, Text, text_eq, text_eq_iff, contains, lookup, insert, lookup-insert, Bool, true, false,
  Option, none, some, List, [], ◌∷◌, map, if◌then◌else◌, All, ◌≡◌, ◌≢◌, refl, sym, ap, ◌∙◌, subst,
  arith, Option-cases, Bool-cases, inl, inr,
}
use mathlib.Core.List.{Memᴰ}
use eudi_dev.Status.Wallet.{
  StatusEntry, StatusStore, set_statuses, ids_to_set, is_status, set_credential_status,
}
use eudi_dev.Status.Wallet.Write.{HaveDistinctIndices}

abbrev pub entries : List (Text × StatusEntry) → List StatusEntry
entries m = map (λ entry. entry.1) m

abbrev indices : List StatusEntry → List ℤ
indices es = map (λ e. e.index) es

-- The entry with another status.
abbrev pub with_status : ℤ → StatusEntry → StatusEntry
with_status status e = record { index = e.index; status = status }

set_one : ℤ → Text → List (Text × StatusEntry) → List (Text × StatusEntry)
set_one status id m = elim (lookup id m) [ none ↦ m | some e ↦ insert id (with_status status e) m ]

lookup-set_one :
    (status : ℤ) (id j : Text) (m : List (Text × StatusEntry))
    → lookup j (set_one status id m)
      ≡ (if text_eq id j then (lookup j m >>= λ e. some (with_status status e)) else lookup j m)
unfolding set_one
lookup-set_one status id j m = elim (Option-cases (lookup id m)) [
  | inl e ↦
      rw (e, set_one)
        (elim (Bool-cases (text_eq id j)) [
          | inl same ↦ rw same (
              lookup_same same
              ∙ e
              ∙ sym (ap (λ o. o >>= λ x. some (with_status status x)) (lookup_same same ∙ e)))
          | inr other ↦ rw other refl
        ])
  | inr (old, e) ↦
      rw (e, set_one)
        (lookup-insert id j (with_status status old) m ∙ elim (Bool-cases (text_eq id j)) [
          | inl same ↦
              rw same
                (sym (ap (λ o. o >>= λ x. some (with_status status x)) (lookup_same same ∙ e)))
          | inr other ↦ rw other refl
        ])
]
  where
    lookup_same : text_eq id j ≡ true → lookup j m ≡ lookup id m
    lookup_same same = ap (λ k. lookup k m) (sym ((text_eq_iff id j).0 same))

indices-insert :
    (id : Text) (new old : StatusEntry) (m : List (Text × StatusEntry))
    → lookup id m ≡ some old
    → new.index ≡ old.index
    → indices (entries (insert id new m)) ≡ indices (entries m)
unfolding insert lookup
indices-insert id new old [] h k = cc
indices-insert id new old ((i, e) ∷ m) h k = elim (Bool-cases (text_eq i id)) [
  | inl same ↦ rw same (ap (λ x. x ∷ indices (entries m)) (k ∙ ap (λ x. x.index) (found same h)))
  | inr other ↦ rw other (ap (λ l. e.index ∷ l) (indices-insert id new old m (rw other at h) k))
]
  where
    found :
        text_eq i id ≡ true → (if text_eq i id then some e else lookup id m) ≡ some old → old ≡ e
    found same h = ground arith

indices-set_one :
    (status : ℤ) (id : Text) (m : List (Text × StatusEntry))
    → indices (entries (set_one status id m)) ≡ indices (entries m)
unfolding set_one
indices-set_one status id m = elim (Option-cases (lookup id m)) [
  | inl e ↦ rw (e, set_one) refl
  | inr (old, e) ↦ rw (e, set_one) (indices-insert id (with_status status old) old m e refl)
]

-- Setting statuses gives the entries that are named the new status, keeps their indices, and changes no
-- other entry.
pub lookup-set_statuses :
    (status : ℤ) (ids : List Text) (m : List (Text × StatusEntry)) (j : Text)
    → lookup j (set_statuses status ids m)
      ≡ (if contains ids j then (lookup j m >>= λ e. some (with_status status e)) else lookup j m)
unfolding set_statuses contains set_one
lookup-set_statuses status [] m j = refl
lookup-set_statuses status (id ∷ ids) m j =
    lookup-set_statuses status ids (set_one status id m) j
    ∙ twice (text_eq id j) (contains ids j) (lookup j m) (lookup-set_one status id j m)
  where
    twice :
        (here later : Bool) (old : Option StatusEntry) {new : Option StatusEntry}
        → new ≡ (if here then (old >>= λ e. some (with_status status e)) else old)
        → (if later then (new >>= λ e. some (with_status status e)) else new) ≡ (
            if (if here then true else later)
            then (old >>= λ e. some (with_status status e))
            else old)
    twice true true none h = rw h refl
    twice true true (some e) h = rw h refl
    twice true false old h = rw h refl
    twice false true old h = rw h refl
    twice false false old h = h

indices-set_statuses :
    (status : ℤ) (ids : List Text) (m : List (Text × StatusEntry))
    → indices (entries (set_statuses status ids m)) ≡ indices (entries m)
unfolding set_statuses set_one
indices-set_statuses status [] m = refl
indices-set_statuses status (id ∷ ids) m =
    indices-set_statuses status ids (set_one status id m) ∙ indices-set_one status id m

-- Indices that are distinct stay so.
abbrev AreDistinct : List ℤ → Type 0
AreDistinct [] = Unit
AreDistinct (i ∷ is) = All (λ k. k ≢ i) is × AreDistinct is

to_indices :
    (a : ℤ) (es : List StatusEntry) → All (λ y. y.index ≢ a) es → All (λ k. k ≢ a) (indices es)
to_indices a [] h = tt
to_indices a (e ∷ es) (n, h) = (n, to_indices a es h)

of_indices :
    (a : ℤ) (es : List StatusEntry) → All (λ k. k ≢ a) (indices es) → All (λ y. y.index ≢ a) es
of_indices a [] h = tt
of_indices a (e ∷ es) (n, h) = (n, of_indices a es h)

to_distinct : (es : List StatusEntry) → HaveDistinctIndices es → AreDistinct (indices es)
to_distinct [] h = tt
to_distinct (e ∷ es) (n, h) = (to_indices e.index es n, to_distinct es h)

of_distinct : (es : List StatusEntry) → AreDistinct (indices es) → HaveDistinctIndices es
of_distinct [] h = tt
of_distinct (e ∷ es) (n, h) = (of_indices e.index es n, of_distinct es h)

pub set_statuses-distinct :
    (status : ℤ) (ids : List Text) (m : List (Text × StatusEntry))
    → HaveDistinctIndices (entries m)
    → HaveDistinctIndices (entries (set_statuses status ids m))
set_statuses-distinct status ids m h =
    of_distinct (entries (set_statuses status ids m))
      (subst AreDistinct (sym (indices-set_statuses status ids m)) (to_distinct (entries m) h))

pub lookup-Memᴰ :
    (j : Text) (m : List (Text × StatusEntry)) {e : StatusEntry}
    → lookup j m ≡ some e
    → Memᴰ e (entries m)
unfolding lookup
lookup-Memᴰ j [] h = cc
lookup-Memᴰ j ((i, x) ∷ m) h = elim (Bool-cases (text_eq i j)) [
  | inl same ↦ Memᴰ.head (ground arith)
  | inr other ↦ Memᴰ.tail (lookup-Memᴰ j m (rw other at h))
]

-- What a status that was set did to the state.
pub set_status_parts :
    (s t : StatusStore) (id : Text) (status : ℤ) (shown : StatusEntry)
    → set_credential_status s id status ≡ some (t, shown)
    → (ids : List Text) × (is_status status ≡ true)
      × (ids_to_set id s.credentials ≡ some ids)
      × (t.entries ≡ set_statuses status ids s.entries)
      × (t.counter ≡ s.counter)
unfolding set_credential_status
set_status_parts s t id status shown h = elim (Option-cases (ids_to_set id s.credentials)) [
  | inl e ↦ absurd (ground arith)
  | inr (ids, e) ↦ elim (Option-cases (lookup id s.entries)) [
    | inl f ↦ absurd (ground arith)
    | inr (old, f) ↦ (ids, ground arith, e, ground arith, ground arith)
  ]
]
