-- ===== src/Dcql/Match/Strict.antt =====
-- Which credentials strict mode matches.
use eudi_dev.Base.{
  codes, true, false, List, [], ◌∷◌, ◌++◌, is_empty, ◌≡◌, ◌≢◌, refl, ◌↔◌, ◌⊎◌, arith,
}
use eudi_dev.Credential.{StoredCredential, is_mdoc}
use eudi_dev.Dcql.Value.{Value}
use eudi_dev.Dcql.Claims.{Object, ClaimSelection, array_member, array_or_empty}
use eudi_dev.Dcql.Claims.Select.{select_claims}
use eudi_dev.Dcql.Trust.{check_trusted_authorities}
use eudi_dev.Dcql.Meta.{text_member, matches_format, matches_meta, requires_holder_binding}
use eudi_dev.Dcql.Match.{
  strict, Mismatch, CredentialMatch, Reader, Outcome, skipped, matched, offered, binding_check,
  is_bound, type_mismatches, claim_mismatches, all_mismatches, is_untrusted, full_match,
  match_credential,
}

module _ (r : Reader) where
  abbrev pub selection_of : Object → StoredCredential → ClaimSelection
  selection_of query cred = select_claims r.format_other r.discloses_empty_array cred query

  abbrev pub authorities_of : Object → List Value
  authorities_of query = array_or_empty (array_member (codes "trusted_authorities") query)

  -- What OID4VP 1.0 §6 asks of a credential that answers a query.
  pub record IsConforming (query : Object) (cred : StoredCredential) : Type 0 where
    pub format : matches_format cred (text_member (codes "format") query) ≡ true
    pub meta : matches_meta cred query ≡ true
    pub binding :
        (is_bound r cred ≡ true)
        ⊎ ((requires_holder_binding query ≡ false) × (is_mdoc cred ≡ false))
    pub claims : (selection_of query cred).missing_required ≡ []
    pub some_set : (selection_of query cred).match ≡ true
    pub trust :
        (is_empty (authorities_of query) ≡ true)
        ⊎ (check_trusted_authorities r.certificates cred (authorities_of query) ≡ true)

  untrusted_iff :
      (query : Object) (cred : StoredCredential)
      → (is_untrusted r cred query ≡ false) ↔ (
          (is_empty (authorities_of query) ≡ true)
          ⊎ (check_trusted_authorities r.certificates cred (authorities_of query) ≡ true))
  unfolding is_untrusted
  untrusted_iff query cred = ground arith

  type_mismatches_iff :
      (query : Object) (cred : StoredCredential)
      → (is_empty (type_mismatches cred query) ≡ true) ↔ (
          (matches_format cred (text_member (codes "format") query) ≡ true)
          × (matches_meta cred query ≡ true))
  unfolding type_mismatches
  type_mismatches_iff query cred = ground arith

  binding_iff :
      (query : Object) (cred : StoredCredential)
      → (is_empty (binding_check strict (is_bound r cred) cred query).1 ≡ true) ↔ (
          (is_bound r cred ≡ true)
          ⊎ ((requires_holder_binding query ≡ false) × (is_mdoc cred ≡ false)))
  unfolding binding_check
  binding_iff query cred = ground arith

  unbound_strict :
      (query : Object) (cred : StoredCredential)
      → (binding_check strict (is_bound r cred) cred query).0 ≡ false
  unfolding binding_check
  unbound_strict query cred = ground arith

  claims_iff :
      (s : ClaimSelection)
      → (is_empty (claim_mismatches r strict s) ≡ true)
        ↔ ((s.missing_required ≡ []) × (s.match ≡ true))
  unfolding claim_mismatches
  claims_iff s = ground arith

  is_empty-append :
      (xs ys : List Mismatch)
      → (is_empty (xs ++ ys) ≡ true) ↔ ((is_empty xs ≡ true) × (is_empty ys ≡ true))
  is_empty-append [] ys = ground arith
  is_empty-append (x ∷ xs) ys = ground arith

  no_mismatch_iff :
      (query : Object) (cred : StoredCredential)
      → (is_empty (all_mismatches r strict cred query (selection_of query cred)) ≡ true) ↔ (
          (is_empty (type_mismatches cred query) ≡ true)
          × (is_empty (binding_check strict (is_bound r cred) cred query).1 ≡ true)
          × (is_empty (claim_mismatches r strict (selection_of query cred)) ≡ true))
  unfolding all_mismatches
  no_mismatch_iff query cred = ground (
    arith,
    is_empty-append (type_mismatches cred query)
        (binding_check strict (is_bound r cred) cred query).1,
  )

  abbrev pub answer : Object → StoredCredential → CredentialMatch
  answer query cred = full_match r strict cred query (selection_of query cred) false false

  match_of_tests :
      (query : Object) (cred : StoredCredential) (m : CredentialMatch)
      → (match_credential r strict query cred ≡ matched m) ↔ (
          (is_empty (all_mismatches r strict cred query (selection_of query cred)) ≡ true)
          × (is_untrusted r cred query ≡ false)
          × (m ≡ answer query cred))
  unfolding match_credential
  match_of_tests query cred m = ground (arith, unbound_strict query cred)

  match_iff_IsConforming :
      (query : Object) (cred : StoredCredential) (m : CredentialMatch)
      → (match_credential r strict query cred ≡ matched m)
        ↔ (IsConforming query cred × (m ≡ answer query cred))
  match_iff_IsConforming query cred m = (to_conforming, from_conforming)
    where
      to_conforming :
          match_credential r strict query cred ≡ matched m
          → IsConforming query cred × (m ≡ answer query cred)
      to_conforming e =
          let (none_missing, trusted, same) = (match_of_tests query cred m).0 e in
          let (types, binding, claims) = (no_mismatch_iff query cred).0 none_missing in
          let (format, meta) = (type_mismatches_iff query cred).0 types in
          let (complete, some_set) = (claims_iff (selection_of query cred)).0 claims in
          (
            record {
              format = format;
              meta = meta;
              binding = (binding_iff query cred).0 binding;
              claims = complete;
              some_set = some_set;
              trust = (untrusted_iff query cred).0 trusted;
            },
            same,
          )

      from_conforming :
          IsConforming query cred × (m ≡ answer query cred)
          → match_credential r strict query cred ≡ matched m
      from_conforming (c, same) = (match_of_tests query cred m).1 (
        (no_mismatch_iff query cred).1 (
          (type_mismatches_iff query cred).1 (c.format, c.meta),
          (binding_iff query cred).1 c.binding,
          (claims_iff (selection_of query cred)).1 (c.claims, c.some_set),
        ),
        (untrusted_iff query cred).1 c.trust,
        same,
      )

  not_offered :
      (query : Object) (cred : StoredCredential) (m : CredentialMatch)
      → match_credential r strict query cred ≢ offered m
  unfolding match_credential
  not_offered query cred m e = ground arith

  not_both : (m : CredentialMatch) {o : Outcome} → o ≡ skipped → o ≡ matched m → ⊥
  not_both m e f = cc

  skipped_unless :
      (query : Object) (cred : StoredCredential) (o : Outcome)
      → match_credential r strict query cred ≡ o
      → (IsConforming query cred → ⊥)
      → match_credential r strict query cred ≡ skipped
  skipped_unless query cred skipped e n = e
  skipped_unless query cred (matched m) e n =
      absurd (n ((match_iff_IsConforming query cred m).0 e).0)
  skipped_unless query cred (offered m) e n = absurd (not_offered query cred m e)

  -- Strict mode matches a credential with a query exactly when it conforms, and the match is then
  -- neither flagged nor partial. It passes over any other credential, which it does not offer either.
  pub match_credential-strict_iff :
      (query : Object) (cred : StoredCredential) (m : CredentialMatch)
      → ((match_credential r strict query cred ≡ matched m)
          ↔ (IsConforming query cred × (m ≡ answer query cred)))
        × ((match_credential r strict query cred ≡ skipped) ↔ (IsConforming query cred → ⊥))
  match_credential-strict_iff query cred m = (
    match_iff_IsConforming query cred m,
    (
      λ e c.
          not_both (answer query cred) e
            ((match_iff_IsConforming query cred (answer query cred)).1 (c, refl)),
      skipped_unless query cred (match_credential r strict query cred) refl,
    ),
  )
