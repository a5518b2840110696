-- ===== src/Dcql/Batch/Record.antt =====
-- What the record of a presentation does to the credentials.
use eudi_dev.Base.{
  ℕ, suc, ◌+◌, Text, text_eq, text_eq_iff, Bool, true, false, not, Option, none, some, Option-cases,
  List, [], ◌∷◌, is_empty, if◌then◌else◌, get_elem?, ◌≡◌, ◌⊎◌, refl, ap, arith, Bool-cases, inl,
  inr,
}
use eudi_dev.Credential.{StoredCredential}
use eudi_dev.Dcql.Match.{CredentialMatch}
use eudi_dev.Dcql.Order.{credential_by_id}
use eudi_dev.Dcql.Batch.{uses_of, uses_at, record_batch_presentation}

-- Either the credential with an id is as before, or it is the one presented, and used once more.
abbrev pub IsCounted : Text → Text → Option StoredCredential → Option StoredCredential → Type 0
IsCounted id other before after =
    (after ≡ before)
    ⊎ ((c : StoredCredential) × (before ≡ some c)
        × (after ≡ some (record c { uses = suc c.uses }))
        × (other ≡ id))

module _ (id : Text) (c : StoredCredential) (cs : List StoredCredential) where
  record-single :
      text_eq c.id id ≡ true
      → is_empty c.batch_group ≡ true
      → record_batch_presentation id (c ∷ cs) ≡ c ∷ cs
  unfolding record_batch_presentation
  record-single e q = rw (e, q) refl

  record-copy :
      text_eq c.id id ≡ true
      → is_empty c.batch_group ≡ false
      → record_batch_presentation id (c ∷ cs) ≡ record c { uses = suc c.uses } ∷ cs
  unfolding record_batch_presentation
  record-copy e q = rw (e, q) refl

  record-other :
      text_eq c.id id ≡ false
      → record_batch_presentation id (c ∷ cs) ≡ c ∷ record_batch_presentation id cs
  unfolding record_batch_presentation
  record-other e = rw e refl

copy-IsCounted :
    (id other : Text) (c : StoredCredential) (cs : List StoredCredential)
    → text_eq c.id id ≡ true
    → IsCounted id other
        (credential_by_id other (c ∷ cs))
        (credential_by_id other (record c { uses = suc c.uses } ∷ cs))
unfolding credential_by_id
copy-IsCounted id other c cs e = elim (Option-cases (credential_by_id other cs)) [
  | inr (x, later) ↦ rw later (inl refl)
  | inl nowhere ↦ rw nowhere (elim (Bool-cases (text_eq c.id other)) [
    | inl o ↦
        rw o (inr (c, refl, refl, ground (arith, text_eq_iff c.id id, text_eq_iff c.id other)))
    | inr o ↦ rw o (inl refl)
  ])
]

other-IsCounted :
    (id other : Text) (c : StoredCredential) (cs rest : List StoredCredential)
    → IsCounted id other (credential_by_id other cs) (credential_by_id other rest)
    → IsCounted id other (credential_by_id other (c ∷ cs)) (credential_by_id other (c ∷ rest))
unfolding credential_by_id
other-IsCounted id other c cs rest (inl same) = rw same (inl refl)
other-IsCounted id other c cs rest (inr (x, before, after, is)) =
    rw (before, after) (inr (x, refl, refl, is))

by_id-record :
    (id other : Text) (creds : List StoredCredential)
    → IsCounted id other
        (credential_by_id other creds)
        (credential_by_id other (record_batch_presentation id creds))
unfolding record_batch_presentation
by_id-record id other [] = inl refl
by_id-record id other (c ∷ cs) = elim (Bool-cases (text_eq c.id id)) [
  | inl e ↦ elim (Bool-cases (is_empty c.batch_group)) [
    | inl q ↦ rw (record-single id c cs e q) (inl refl)
    | inr q ↦ rw (record-copy id c cs e q) (copy-IsCounted id other c cs e)
  ]
  | inr e ↦
      rw (record-other id c cs e)
        (other-IsCounted id other c cs (record_batch_presentation id cs) (by_id-record id other cs))
]

-- Whether the credential with the id is a copy of a batch.
unfoldable pub is_copy : Text → List StoredCredential → Bool
is_copy id [] = false
is_copy id (c ∷ cs) =
    let later = is_copy id cs in if text_eq c.id id then not (is_empty c.batch_group) else later

-- The match at the position is one of a stored copy.
abbrev pub IsCopy : List StoredCredential → List CredentialMatch → ℕ → Type 0
IsCopy creds ms i =
    (m : CredentialMatch) × (get_elem? ms i ≡ some m) × (is_copy m.credential_id creds ≡ true)

-- The uses of all credentials.
abbrev pub total_uses : List StoredCredential → ℕ
total_uses [] = 0
total_uses (c ∷ cs) = c.uses + total_uses cs

pub total_uses-record :
    (id : Text) (creds : List StoredCredential)
    → is_copy id creds ≡ true
    → total_uses (record_batch_presentation id creds) ≡ suc (total_uses creds)
unfolding is_copy
total_uses-record id [] h = absurd (cc)
total_uses-record id (c ∷ cs) h = elim (Bool-cases (text_eq c.id id)) [
  | inl e ↦
      let batch : is_empty c.batch_group ≡ false = ground arith in
      rw (record-copy id c cs e batch) (omega arith)
  | inr e ↦
      let ih = total_uses-record id cs (ground arith) in rw (record-other id c cs e) (omega arith)
]

pub is_copy-record :
    (id other : Text) (creds : List StoredCredential)
    → is_copy other (record_batch_presentation id creds) ≡ is_copy other creds
unfolding is_copy record_batch_presentation
is_copy-record id other [] = refl
is_copy-record id other (c ∷ cs) = elim (Bool-cases (text_eq c.id id)) [
  | inl e ↦ elim (Bool-cases (is_empty c.batch_group)) [
    | inl q ↦ rw (record-single id c cs e q) refl
    | inr q ↦ rw (record-copy id c cs e q) refl
  ]
  | inr e ↦ rw (record-other id c cs e, is_copy-record id other cs) refl
]

pub uses_of-record :
    (id : Text) (creds : List StoredCredential) (k : CredentialMatch)
    → (uses_of (record_batch_presentation id creds) k ≡ uses_of creds k)
      ⊎ ((uses_of (record_batch_presentation id creds) k ≡ suc (uses_of creds k))
          × (k.credential_id ≡ id))
uses_of-record id creds k = elim (by_id-record id k.credential_id creds) [
  | inl same ↦ rw (same, uses_of) (inl refl)
  | inr (c, before, after, is) ↦ rw (before, after, uses_of) (inr (refl, is))
]

module _ (creds : List StoredCredential) (ms : List CredentialMatch) (p : ℕ) (m : CredentialMatch)
    (at : get_elem? ms p ≡ some m) where
  abbrev presented : List StoredCredential
  presented = record_batch_presentation m.credential_id creds

  pub uses-presented :
      (j : ℕ)
      → IsCopy creds ms j
      → (uses_at presented ms j ≡ uses_at creds ms j)
        ⊎ ((uses_at presented ms j ≡ suc (uses_at creds ms j))
            × (uses_at creds ms j ≡ uses_at creds ms p))
  uses-presented j (k, e, copy) =
      rw (e, at, uses_at)
        (elim (uses_of-record m.credential_id creds k) [
          | inl same ↦ inl same
          | inr (more, is) ↦
              inr
                (more, ap (λ t. elim (credential_by_id t creds) [ none ↦ 0 | some c ↦ c.uses ]) is)
        ])
