-- ===== src/Status/Wallet/Entries.antt =====
-- The entries of the wallet's status list under insertion, deletion and statuses that are set.
use eudi_dev.Base.{
  All-member, ℤ, Text, text_eq, text_eq_refl, lookup, insert, delete, some, Option-cases,
  Bool-cases, List, [], ◌∷◌, All, ◌≡◌, ◌≢◌, sym, subst, arith, inl, inr,
}
use eudi_dev.Status.Wallet.{StatusEntry, set_statuses}
use eudi_dev.Status.Wallet.Write.{HaveDistinctIndices}
use eudi_dev.Status.Wallet.Revoke.{entries, with_status, lookup-Memᴰ}

module _ (P : StatusEntry → Type 0) where
  pub All-insert :
      (id : Text) (e : StatusEntry) (m : List (Text × StatusEntry))
      → P e
      → All P (entries m)
      → All P (entries (insert id e m))
  unfolding insert
  All-insert id e [] p h = (p, tt)
  All-insert id e ((j, x) ∷ m) p (q, h) = elim (Bool-cases (text_eq j id)) [
    | inl same ↦ rw same (p, h)
    | inr other ↦ rw other (q, All-insert id e m p h)
  ]

  pub All-delete :
      (id : Text) (m : List (Text × StatusEntry))
      → All P (entries m)
      → All P (entries (delete id m))
  unfolding delete
  All-delete id [] h = tt
  All-delete id ((j, x) ∷ m) (q, h) = elim (Bool-cases (text_eq j id)) [
    | inl same ↦ rw same (All-delete id m h)
    | inr other ↦ rw other (q, All-delete id m h)
  ]

  pub All-set_statuses :
      (status : ℤ) (ids : List Text) (m : List (Text × StatusEntry))
      → ((e : StatusEntry) → P e → P (with_status status e))
      → All P (entries m)
      → All P (entries (set_statuses status ids m))
  unfolding set_statuses
  All-set_statuses status [] m stable h = h
  All-set_statuses status (id ∷ ids) m stable h = elim (Option-cases (lookup id m)) [
    | inl e ↦ rw (e, set_statuses) (All-set_statuses status ids m stable h)
    | inr (x, e) ↦
        rw (e, set_statuses)
          (All-set_statuses status ids (insert id (with_status status x) m) stable (
            All-insert id (with_status status x) m
              (stable x (All-member P (entries m) (lookup-Memᴰ id m e) h)) h))
  ]

AwayFrom : StatusEntry → StatusEntry → Type 0
AwayFrom e y = y.index ≢ e.index

pub insert-distinct :
    (id : Text) (e : StatusEntry) (m : List (Text × StatusEntry))
    → All (λ y. y.index ≢ e.index) (entries m)
    → HaveDistinctIndices (entries m)
    → HaveDistinctIndices (entries (insert id e m))
unfolding insert
insert-distinct id e [] away h = (tt, tt)
insert-distinct id e ((j, x) ∷ m) (n, away) (d, h) = elim (Bool-cases (text_eq j id)) [
  | inl same ↦ rw same (away, h)
  | inr other ↦
      rw other (
        All-insert (λ y. y.index ≢ x.index) id e m (λ q. n (sym q)) d,
        insert-distinct id e m away h,
      )
]

pub delete-distinct :
    (id : Text) (m : List (Text × StatusEntry))
    → HaveDistinctIndices (entries m)
    → HaveDistinctIndices (entries (delete id m))
unfolding delete
delete-distinct id [] h = tt
delete-distinct id ((j, x) ∷ m) (d, h) = elim (Bool-cases (text_eq j id)) [
  | inl same ↦ rw same (delete-distinct id m h)
  | inr other ↦ rw other (All-delete (λ y. y.index ≢ x.index) id m d, delete-distinct id m h)
]

-- Once an entry is deleted, no other has its index.
pub deleted-away :
    (id : Text) (e : StatusEntry) (m : List (Text × StatusEntry))
    → lookup id m ≡ some e
    → HaveDistinctIndices (entries m)
    → All (λ y. y.index ≢ e.index) (entries (delete id m))
unfolding delete lookup
deleted-away id e [] q h = tt
deleted-away id e ((j, x) ∷ m) q (d, h) = elim (Bool-cases (text_eq j id)) [
  | inl same ↦
      let is : x ≡ e = ground arith in
      rw same (
        subst {A = StatusEntry} (λ z. All (λ y. y.index ≢ z.index) (entries (delete id m))) is
          (All-delete (λ y. y.index ≢ x.index) id m d))
  | inr other ↦
      let found : lookup id m ≡ some e = ground arith in
      rw other (
        λ r. All-member (λ y. y.index ≢ x.index) (entries m) (lookup-Memᴰ id m found) d (sym r),
        deleted-away id e m found h,
      )
]

pub insert-insert :
    (id : Text) (e : StatusEntry) (m : List (Text × StatusEntry))
    → insert id e (insert id e m) ≡ insert id e m
unfolding insert
insert-insert id e [] = ground (arith, text_eq_refl id)
insert-insert id e ((j, x) ∷ m) = ground (arith, text_eq_refl id, insert-insert id e m)
