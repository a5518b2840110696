-- ===== src/Consent/Apply/Withheld.antt =====
-- In strict mode the claims that the user selects add none that was not requested.
use eudi_dev.Base.{
  Text, text_eq_refl, contains, lookup, Bool, true, some, List, [], ◌∷◌, keep_if, All, ◌≡◌, refl,
  ◌⊎◌, inl, inr, arith, Option-cases, Bool-cases,
}
use eudi_dev.Credential.{StoredCredential}
use eudi_dev.Credential.Resolve.{get_credential}
use eudi_dev.Dcql.Selector.{filter_claims}
use eudi_dev.Dcql.Match.{strict, CredentialMatch}
use eudi_dev.Consent.Apply.{with_claims, disclosed_keys, apply_selected_claims}

contains-head : (x : Text) (xs : List Text) → contains (x ∷ xs) x ≡ true
unfolding contains
contains-head x xs = rw (text_eq_refl x) refl

contains-tail : (x k : Text) (xs : List Text) → contains xs k ≡ true → contains (x ∷ xs) k ≡ true
unfolding contains
contains-tail x k xs h = ground arith

weaken :
    (x : Text) (xs ks : List Text)
    → All (λ k. contains xs k ≡ true) ks
    → All (λ k. contains (x ∷ xs) k ≡ true) ks
weaken x xs [] h = tt
weaken x xs (k ∷ ks) (p, h) = (contains-tail x k xs p, weaken x xs ks h)

contains-All : (xs : List Text) → All (λ k. contains xs k ≡ true) xs
contains-All [] = tt
contains-All (x ∷ xs) = (contains-head x xs, weaken x xs xs (contains-All xs))

keep_if-All : (p : Text → Bool) (ks : List Text) → All (λ k. p k ≡ true) (keep_if p ks)
keep_if-All p [] = tt
keep_if-All p (k ∷ ks) = elim (Bool-cases (p k)) [
  | inl e ↦ rw e (e, keep_if-All p ks)
  | inr e ↦ rw e (keep_if-All p ks)
]

-- Two lists of the same length whose elements are related.
abbrev pub Pairwise {ℓ} : {A : Type ℓ} → (A → A → Type 0) → List A → List A → Type 0
Pairwise R [] [] = Unit
Pairwise R (x ∷ xs) (y ∷ ys) = R x y × Pairwise R xs ys
Pairwise R [] (y ∷ ys) = ⊥
Pairwise R (x ∷ xs) [] = ⊥

-- The same credential for the same query, with no key that was not requested; it is unchanged, or its
-- claims are those of the stored credential under its keys.
pub record IsWithheld (creds : List StoredCredential) (before after : CredentialMatch)
    : Type 0 where
  pub same_query : after.query_id ≡ before.query_id
  pub same_credential : after.credential_id ≡ before.credential_id
  pub requested : All (λ k. contains before.selected_keys k ≡ true) after.selected_keys
  pub shown :
      (after ≡ before)
      ⊎ ((cred : StoredCredential) × (get_credential creds before.credential_id ≡ some cred)
          × (after.claims ≡ filter_claims cred after.selected_keys))

module _ (creds : List StoredCredential) where
  unchanged : (m : CredentialMatch) → IsWithheld creds m m
  unchanged m = record {
    same_query = refl;
    same_credential = refl;
    requested = contains-All m.selected_keys;
    shown = inl refl;
  }

  restricted :
      (m : CredentialMatch) (keys : List Text) (cred : StoredCredential)
      → get_credential creds m.credential_id ≡ some cred
      → IsWithheld creds m (
          with_claims m
            (disclosed_keys strict m keys)
            (filter_claims cred (disclosed_keys strict m keys)))
  unfolding disclosed_keys
  restricted m keys cred e = record {
    same_query = refl;
    same_credential = refl;
    requested = keep_if-All (λ k. contains m.selected_keys k) keys;
    shown = inr (cred, e, refl);
  }

  -- In strict mode the claims that the user selects leave the credentials as they are, one for one, and
  -- disclose only keys that were selected for the request; where they change a credential's claims,
  -- these are the stored credential's claims under the keys that are left.
  pub apply_selected_claims-IsWithheld :
      (ms : List CredentialMatch) (selected : List (Text × List Text))
      → Pairwise (IsWithheld creds) ms (apply_selected_claims creds strict ms selected)
  unfolding apply_selected_claims
  apply_selected_claims-IsWithheld [] selected = tt
  apply_selected_claims-IsWithheld (m ∷ ms) selected =
      let later = apply_selected_claims-IsWithheld ms selected in
      elim (Option-cases (lookup m.credential_id selected)) [
        | inl e ↦ rw (e, apply_selected_claims) (unchanged m, later)
        | inr (keys, e) ↦ elim (Option-cases (get_credential creds m.credential_id)) [
          | inl f ↦ rw (e, f, apply_selected_claims) (unchanged m, later)
          | inr (cred, f) ↦ rw (e, f, apply_selected_claims) (restricted m keys cred f, later)
        ]
      ]
