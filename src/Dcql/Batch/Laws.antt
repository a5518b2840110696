-- ===== src/Dcql/Batch/Laws.antt =====
-- What collapsing batches keeps.
use eudi_dev.Base.{
  ℕ, suc, ◌≤◌, ◌<◌, Bool, true, false, some, List, [], ◌∷◌, is_empty, ltb, ◌==◌, ==_iff,
  if◌then◌else◌, length, get_or, any, map, All, ◌≡◌, refl, subst, sym, ap, ◌∙◌, arith, Bool-cases,
  inl, inr, zero,
}
use mathlib.Core.List.{Memᴰ}
use mathlib.Core.Logic.{◌⊎◌}
use eudi_dev.Credential.{StoredCredential}
use eudi_dev.Dcql.Match.{CredentialMatch}
use eudi_dev.Dcql.Batch.{
  batch_group_of, batch_groups, fewest_uses, least_used, choose_batch_copy, keep_chosen, uses_at,
  collapse_batch_matches,
}

module _ {κ} (P : CredentialMatch → Type κ) (creds : List StoredCredential) where
  All-keep_chosen :
      (keep : List ℕ) (i : ℕ) (ms : List CredentialMatch)
      → All P ms
      → All P (keep_chosen creds keep i ms)
  unfolding keep_chosen
  All-keep_chosen keep i [] h = tt
  All-keep_chosen keep i (m ∷ ms) (p, h) =
      split (is_empty (batch_group_of creds m)) (any (λ j. j == i) keep)
        (All-keep_chosen keep (suc i) ms h)
    where
      split :
          (s t : Bool)
          → All P (keep_chosen creds keep (suc i) ms)
          → All P (
              if s
              then m ∷ keep_chosen creds keep (suc i) ms
              else (if t
                  then m ∷ keep_chosen creds keep (suc i) ms
                  else keep_chosen creds keep (suc i) ms))
      split true t k = (p, k)
      split false true k = (p, k)
      split false false k = k

  -- What holds of every match holds of those that collapsing keeps.
  pub All-collapse :
      (pick : List ℕ → ℕ → ℕ) (ms : List CredentialMatch)
      → All P ms
      → All P (collapse_batch_matches pick ms creds)
  unfolding collapse_batch_matches
  All-collapse pick ms h = split (is_empty (batch_groups creds 0 ms []))
    where
      chosen : List ℕ
      chosen =
          map (λ g. choose_batch_copy (uses_at creds ms) (pick g.1) g.1)
            (batch_groups creds 0 ms [])

      split : (b : Bool) → All P (if b then ms else keep_chosen creds chosen 0 ms)
      split true = h
      split false = All-keep_chosen chosen 0 ms h

module _ (uses : ℕ → ℕ) where
  -- The number that the loop ends with is used by some copy, and no copy is used less.
  abbrev pub IsFewest : List ℕ → ℕ → Type 0
  IsFewest is n = All (λ i. n ≤ uses i) is

  le_of_less : (n i k : ℕ) → n ≤ uses i → ltb (uses i) k ≡ true → n ≤ k
  le_of_less n i k h l = ground arith

  le_of_not_less : (n i k : ℕ) → n ≤ k → ltb (uses i) k ≡ false → n ≤ uses i
  le_of_not_less n i k h l = ground arith

  least-IsFewest :
      (k : ℕ) (is : List ℕ) {n : ℕ}
      → fewest_uses uses (some k) is ≡ some n
      → (n ≤ k) × IsFewest is n
  unfolding fewest_uses
  least-IsFewest k [] h = ground arith
  least-IsFewest k (i ∷ is) {n} h = elim (Bool-cases (ltb (uses i) k)) [
    | inl less ↦
        let (below, all) = least-IsFewest (uses i) is {n = n} (ground arith) in
        (le_of_less n i k below less, (below, all))
    | inr more ↦
        let (below, all) = least-IsFewest k is {n = n} (ground arith) in
        (below, (le_of_not_less n i k below more, all))
  ]

  least_used-All :
      (n : ℕ) (is : List ℕ) → All (λ i. (uses i ≡ n) × Memᴰ i is) (least_used uses n is)
  unfolding least_used
  least_used-All n [] = tt
  least_used-All n (i ∷ is) = elim (Bool-cases (uses i == n)) [
    | inl e ↦ rw e (
      ((==_iff (uses i) n).0 e, Memᴰ.head refl),
      later (least_used uses n is) (least_used-All n is),
    )
    | inr e ↦ rw e (later (least_used uses n is) (least_used-All n is))
  ]
    where
      later :
          (xs : List ℕ)
          → All (λ j. (uses j ≡ n) × Memᴰ j is) xs
          → All (λ j. (uses j ≡ n) × Memᴰ j (i ∷ is)) xs
      later [] h = tt
      later (x ∷ xs) ((u, m), h) = ((u, Memᴰ.tail m), later xs h)

  -- The loop ends with the count it had or with the count of some copy.
  fewest-reached :
      (k : ℕ) (is : List ℕ) {n : ℕ}
      → fewest_uses uses (some k) is ≡ some n
      → (n ≡ k) ⊎ (0 < length (least_used uses n is))
  unfolding fewest_uses least_used
  fewest-reached k [] h = ground arith
  fewest-reached k (i ∷ is) {n} h = elim (Bool-cases (ltb (uses i) k)) [
    | inl less ↦ let r = fewest-reached (uses i) is {n = n} (ground arith) in ground arith
    | inr more ↦ let r = fewest-reached k is {n = n} (ground arith) in ground arith
  ]

  fewest-total : (k : ℕ) (is : List ℕ) → (n : ℕ) × (fewest_uses uses (some k) is ≡ some n)
  unfolding fewest_uses
  fewest-total k [] = (k, refl)
  fewest-total k (i ∷ is) = elim (Bool-cases (ltb (uses i) k)) [
    | inl less ↦ let (n, e) = fewest-total (uses i) is in (n, rw less e)
    | inr more ↦ let (n, e) = fewest-total k is in (n, rw more e)
  ]

  get_or-All {κ} :
      (P : ℕ → Type κ) (xs : List ℕ) (i d : ℕ) → All P xs → i < length xs → P (get_or xs i d)
  get_or-All P [] i d h l = elim l [ ]
  get_or-All P (x ∷ xs) zero d (p, h) l = p
  get_or-All P (x ∷ xs) (suc i) d (p, h) l = get_or-All P xs i d h (omega arith)

  some_least :
      (i : ℕ) (is : List ℕ) {n : ℕ}
      → fewest_uses uses (some (uses i)) is ≡ some n
      → 0 < length (least_used uses n (i ∷ is))
  unfolding least_used
  some_least i is {n} e = let r = fewest-reached (uses i) is {n = n} e in ground arith

  chosen_copy :
      (pick : ℕ → ℕ) (i : ℕ) (is : List ℕ) {n : ℕ}
      → fewest_uses uses (some (uses i)) is ≡ some n
      → choose_batch_copy uses pick (i ∷ is)
        ≡ get_or (least_used uses n (i ∷ is)) (pick (length (least_used uses n (i ∷ is)))) 0
  unfolding choose_batch_copy
  chosen_copy pick i is e = rw (e, choose_batch_copy) refl

  IsFewest-cons : (i n : ℕ) (is : List ℕ) → n ≤ uses i → IsFewest is n → IsFewest (i ∷ is) n
  IsFewest-cons i n is h k = (h, k)

  -- The copy that is presented is one of the batch, and no other copy of it has been used less, for
  -- any random choice below the number of candidates.
  pub choose_batch_copy-IsFewest :
      (pick : ℕ → ℕ) (i : ℕ) (is : List ℕ)
      → ((n : ℕ) → 0 < n → pick n < n)
      → Memᴰ (choose_batch_copy uses pick (i ∷ is)) (i ∷ is)
        × IsFewest (i ∷ is) (uses (choose_batch_copy uses pick (i ∷ is)))
  choose_batch_copy-IsFewest pick i is random =
      let (n, e) = fewest-total (uses i) is in
      let (below, all) = least-IsFewest (uses i) is e in
      let (count, listed) =
        get_or-All (λ j. (uses j ≡ n) × Memᴰ j (i ∷ is)) (least_used uses n (i ∷ is))
          (pick (length (least_used uses n (i ∷ is)))) 0 (least_used-All n (i ∷ is))
          (random (length (least_used uses n (i ∷ is))) (some_least i is e)) in
      let same = chosen_copy pick i is e in
      (
        rw same listed,
        subst (IsFewest (i ∷ is)) (sym (ap uses same ∙ count)) (IsFewest-cons i n is below all),
      )
