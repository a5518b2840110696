-- ===== src/Dcql/Batch/Rotation.antt =====
-- The copies of a batch over several presentations.
use eudi_dev.Base.{
  All-member, ℕ, suc, ◌+◌, ◌≤◌, ◌<◌, Text, none, some, List, [], ◌∷◌, ◌==◌, length, get_elem?, All,
  ◌≡◌, ◌⊎◌, refl, subst, ap, ◌∙◌, arith, Bool-cases, inl, inr,
}
use eudi_dev.Credential.{StoredCredential}
use eudi_dev.Dcql.Match.{CredentialMatch}
use eudi_dev.Dcql.Batch.{uses_at, choose_batch_copy, record_batch_presentation}
use eudi_dev.Dcql.Batch.Record.{
  IsCopy, total_uses, total_uses-record, is_copy-record, uses-presented,
}
use eudi_dev.Dcql.Batch.Laws.{IsFewest, choose_batch_copy-IsFewest}

-- Whether no copy at these positions is used more than once more than another.
abbrev pub IsBalanced : (ℕ → ℕ) → List ℕ → ℕ → Type 0
IsBalanced uses is n = All (λ j. (n ≤ uses j) × (uses j ≤ suc n)) is

-- Some copy is used more, and it was one that was used least.
abbrev IsUsed : (ℕ → ℕ) → (ℕ → ℕ) → ℕ → ℕ → Type 0
IsUsed before after least j =
    (after j ≡ before j) ⊎ ((after j ≡ suc (before j)) × (before j ≡ least))

IsBalanced-below :
    (before after : ℕ → ℕ) (n : ℕ) (is : List ℕ)
    → IsBalanced before is n
    → All (IsUsed before after n) is
    → IsBalanced after is n
IsBalanced-below before after n [] h u = tt
IsBalanced-below before after n (j ∷ is) ((low, high), h) (u, us) = (
  elim u [ inl e ↦ (omega arith, omega arith) | inr (e, f) ↦ (omega arith, omega arith) ],
  IsBalanced-below before after n is h us,
)

IsBalanced-above :
    (before after : ℕ → ℕ) (n : ℕ) (is : List ℕ)
    → IsBalanced before is n
    → IsFewest before is (suc n)
    → All (IsUsed before after (suc n)) is
    → IsBalanced after is (suc n)
IsBalanced-above before after n [] h f u = tt
IsBalanced-above before after n (j ∷ is) ((low, high), h) (f, fs) (u, us) = (
  elim u [ inl e ↦ (omega arith, omega arith) | inr (e, g) ↦ (omega arith, omega arith) ],
  IsBalanced-above before after n is h fs us,
)

equal-IsBalanced :
    (uses : ℕ → ℕ) (n : ℕ) (is : List ℕ) → All (λ j. uses j ≡ n) is → IsBalanced uses is n
equal-IsBalanced uses n [] h = tt
equal-IsBalanced uses n (j ∷ is) (e, h) = ((omega arith, omega arith), equal-IsBalanced uses n is h)

rotated :
    (before after : ℕ → ℕ) (is : List ℕ) (n least : ℕ)
    → n ≤ least
    → least ≤ suc n
    → IsBalanced before is n
    → IsFewest before is least
    → All (IsUsed before after least) is
    → (m : ℕ) × IsBalanced after is m
rotated before after is n least low high h fewest used = elim (Bool-cases (least == n)) [
  | inl e ↦
      let same : least ≡ n = ground arith in
      (
        n,
        IsBalanced-below before after n is h
            (subst (λ k. All (IsUsed before after k) is) same used),
      )
  | inr e ↦
      let same : least ≡ suc n = ground arith in
      (
        suc n,
        IsBalanced-above before after n is h (subst (IsFewest before is) same fewest)
            (subst (λ k. All (IsUsed before after k) is) same used),
      )
]

module _ (ms : List CredentialMatch) where
  -- A presentation of the copies at these positions, and its record.
  unfoldable pub present_copy : (ℕ → ℕ) → List ℕ → List StoredCredential → List StoredCredential
  present_copy pick is creds = elim (get_elem? ms (choose_batch_copy (uses_at creds ms) pick is)) [
    | none ↦ creds
    | some m ↦ record_batch_presentation m.credential_id creds
  ]

  -- Presentations in turn, each with its random choice.
  unfoldable pub present_copies :
      List (ℕ → ℕ) → List ℕ → List StoredCredential → List StoredCredential
  present_copies [] is creds = creds
  present_copies (pick ∷ picks) is creds = present_copies picks is (present_copy pick is creds)

  -- A random choice is below the number of candidates.
  abbrev pub IsRandom : (ℕ → ℕ) → Type 0
  IsRandom pick = (n : ℕ) → 0 < n → pick n < n

  All-IsUsed :
      (creds : List StoredCredential) (p : ℕ) (m : CredentialMatch)
      → get_elem? ms p ≡ some m
      → (is : List ℕ) → All (IsCopy creds ms) is
      → All
          (IsUsed
            (uses_at creds ms)
            (uses_at (record_batch_presentation m.credential_id creds) ms)
            (uses_at creds ms p))
          is
  All-IsUsed creds p m at [] h = tt
  All-IsUsed creds p m at (j ∷ is) (h, hs) =
      (uses-presented creds ms p m at j h, All-IsUsed creds p m at is hs)

  All-IsCopy :
      (creds : List StoredCredential) (id : Text) (is : List ℕ)
      → All (IsCopy creds ms) is
      → All (IsCopy (record_batch_presentation id creds) ms) is
  All-IsCopy creds id [] h = tt
  All-IsCopy creds id (j ∷ is) ((k, e, copy), hs) =
      ((k, e, is_copy-record id k.credential_id creds ∙ copy), All-IsCopy creds id is hs)

  -- The copies after a number of presentations.
  record IsRotated (is : List ℕ) (total : ℕ) (creds : List StoredCredential) : Type 0 where
    copies : All (IsCopy creds ms) is
    least : ℕ
    balanced : IsBalanced (uses_at creds ms) is least
    total_is : total_uses creds ≡ total

  present-IsRotated :
      (pick : ℕ → ℕ) (i : ℕ) (is : List ℕ) (total : ℕ) (creds : List StoredCredential)
      → IsRandom pick
      → IsRotated (i ∷ is) total creds
      → IsRotated (i ∷ is) (suc total) (present_copy pick (i ∷ is) creds)
  unfolding present_copy
  present-IsRotated pick i is total creds random h =
      let uses = uses_at creds ms in
      let p = choose_batch_copy uses pick (i ∷ is) in
      let (listed, fewest) = choose_batch_copy-IsFewest uses pick i is random in
      let (m, at, copy) = All-member (IsCopy creds ms) (i ∷ is) listed h.copies in
      let (low, high) =
        All-member (λ j. (h.least ≤ uses j) × (uses j ≤ suc h.least)) (i ∷ is) listed h.balanced in
      let used = All-IsUsed creds p m at (i ∷ is) h.copies in
      let after = uses_at (record_batch_presentation m.credential_id creds) ms in
      let (next, balanced) =
        rotated uses after (i ∷ is) h.least (uses p) low high h.balanced fewest used in
      rw (at, present_copy)
        (record {
          copies = All-IsCopy creds m.credential_id (i ∷ is) h.copies;
          least = next;
          balanced = balanced;
          total_is = total_uses-record m.credential_id creds copy ∙ ap suc h.total_is;
        })

  present_copies-IsRotated :
      (picks : List (ℕ → ℕ)) (i : ℕ) (is : List ℕ) (total : ℕ) (creds : List StoredCredential)
      → All IsRandom picks
      → IsRotated (i ∷ is) total creds
      → IsRotated (i ∷ is) (length picks + total) (present_copies picks (i ∷ is) creds)
  unfolding present_copies
  present_copies-IsRotated [] i is total creds randoms h =
      subst (λ n. IsRotated (i ∷ is) n creds) (omega arith) h
  present_copies-IsRotated (pick ∷ picks) i is total creds (random, randoms) h =
      subst
        (λ n.
          IsRotated (i ∷ is) n (present_copies picks (i ∷ is) (present_copy pick (i ∷ is) creds)))
        (omega arith)
        (present_copies-IsRotated picks i is (suc total) (present_copy pick (i ∷ is) creds) randoms
          (present-IsRotated pick i is total creds random h))

  -- The copies of a batch that have been used equally often, presented any number of times, each time
  -- one that is chosen and recorded, for any random choices below the number of candidates: each
  -- presentation is counted once, and no copy is ever used more than once more than another.
  pub present_copies-IsBalanced :
      (picks : List (ℕ → ℕ)) (i : ℕ) (is : List ℕ) (n : ℕ) (creds : List StoredCredential)
      → All IsRandom picks
      → All (IsCopy creds ms) (i ∷ is)
      → All (λ j. uses_at creds ms j ≡ n) (i ∷ is)
      → (total_uses (present_copies picks (i ∷ is) creds) ≡ length picks + total_uses creds)
        × (least : ℕ) × IsBalanced (uses_at (present_copies picks (i ∷ is) creds) ms) (i ∷ is) least
  present_copies-IsBalanced picks i is n creds randoms copies equal =
      let h = present_copies-IsRotated picks i is (total_uses creds) creds randoms (record {
        copies = copies;
        least = n;
        balanced = equal-IsBalanced (uses_at creds ms) n (i ∷ is) equal;
        total_is = refl;
      }) in
      (h.total_is, h.least, h.balanced)
