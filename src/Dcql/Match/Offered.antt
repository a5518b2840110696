-- ===== src/Dcql/Match/Offered.antt =====
-- The claim sets that a match offers, and the keys that it selects.
use eudi_dev.Base.{
  ◌<◌, codes, true, false, is_empty, length, ltb, ◌≡◌, refl, sym, ap, subst, ◌∙◌, inl, inr, arith,
  Bool-cases,
}
use eudi_dev.Credential.{StoredCredential}
use eudi_dev.Dcql.Claims.{Object, array_member, array_or_empty}
use eudi_dev.Dcql.Claims.Select.{select_claims, satisfiable_claim_sets}
use eudi_dev.Dcql.Claims.Laws.{first_keys, select_claims-first_keys}
use eudi_dev.Dcql.Match.{
  ValidationMode, debug, strict, is_debug, CredentialMatch, Reader, Outcome, skipped, matched,
  offered, full_match, offered_claim_sets, match_credential, all_mismatches, is_untrusted,
}

module _ (r : Reader) (mode : ValidationMode) (query : Object) (cred : StoredCredential) where
  -- The keys of a match are those that are selected, and its claim sets are those to offer.
  abbrev HasFields : Outcome → Type 0
  HasFields (matched m) =
      (m.selected_keys
        ≡ (select_claims r.format_other r.discloses_empty_array cred query).selected_keys)
      × (m.claim_sets ≡ offered_claim_sets r mode cred query)
  HasFields (offered m) = Unit
  HasFields skipped = Unit

  match-HasFields : HasFields (match_credential r mode query cred)
  unfolding match_credential full_match
  match-HasFields =
      let selection = select_claims r.format_other r.discloses_empty_array cred query in
      elim (Bool-cases (is_empty (all_mismatches r mode cred query selection))) [
        | inl e ↦ elim (Bool-cases (is_untrusted r cred query)) [
          | inr u ↦ rw (e, u, match_credential) (refl, refl)
          | inl u ↦ elim (Bool-cases (is_debug mode)) [
            | inl d ↦ rw (e, u, d, match_credential) (refl, refl)
            | inr d ↦ rw (e, u, d, match_credential) tt
          ]
        ]
        | inr e ↦ elim (Bool-cases (is_debug mode)) [
          | inl d ↦ rw (e, d, match_credential) tt
          | inr d ↦ rw (e, d, match_credential) tt
        ]
      ]

  offered_sets :
      is_empty (offered_claim_sets r mode cred query) ≡ false
      → (is_debug mode ≡ true)
        × (1 < length (offered_claim_sets r mode cred query))
        × (offered_claim_sets r mode cred query ≡ satisfiable_claim_sets r.format_other cred query)
  unfolding offered_claim_sets
  offered_sets h = elim (Bool-cases (is_debug mode)) [
    | inr e ↦ absurd (ground arith)
    | inl e ↦
        elim (Bool-cases (ltb 1 (length (satisfiable_claim_sets r.format_other cred query)))) [
          | inr f ↦ absurd (ground arith)
          | inl f ↦ (e, rw (e, f) (ground arith), rw (e, f) refl)
        ]
  ]

  -- Claim sets are satisfiable where there are claims and claim sets.
  asked :
      is_empty (satisfiable_claim_sets r.format_other cred query) ≡ false
      → (is_empty (array_or_empty (array_member (codes "claims") query)) ≡ false)
        × (is_empty (array_or_empty (array_member (codes "claim_sets") query)) ≡ false)
  unfolding satisfiable_claim_sets
  asked h = elim (Bool-cases (is_empty (array_or_empty (array_member (codes "claims") query)))) [
    | inl e ↦ absurd (let none_left : true ≡ false = (rw (e, satisfiable_claim_sets) at h) in cc)
    | inr e ↦
        elim (Bool-cases (is_empty (array_or_empty (array_member (codes "claim_sets") query)))) [
          | inl f ↦
              absurd (let none_left : true ≡ false = (rw (e, f, satisfiable_claim_sets) at h) in cc)
          | inr f ↦ (e, f)
        ]
  ]

  debug_mode : is_debug mode ≡ true → mode ≡ debug
  debug_mode e = of_mode mode e
    where
      of_mode : (k : ValidationMode) → is_debug k ≡ true → k ≡ debug
      of_mode debug e = refl
      of_mode strict e = cc

  -- Where a match offers claim sets in the consent dialog, the wallet evaluates in debug mode, there is
  -- more than one of them, and the keys that are selected without the user are those of the first.
  pub match_credential-first_keys :
      (m : CredentialMatch)
      → match_credential r mode query cred ≡ matched m
      → is_empty m.claim_sets ≡ false
      → (mode ≡ debug) × (1 < length m.claim_sets) × (m.selected_keys ≡ first_keys m.claim_sets)
  match_credential-first_keys m e h =
      let (keys, sets) = subst HasFields e match-HasFields in
      let some_offer = ap is_empty (sym sets) ∙ h in
      let (is, several, all_of_them) = offered_sets some_offer in
      let (claims, claim_sets) = asked (ap is_empty (sym all_of_them) ∙ some_offer) in
      (
        debug_mode is,
        rw sets several,
        keys
            ∙ select_claims-first_keys r.format_other cred r.discloses_empty_array query claims
                claim_sets
            ∙ ap first_keys (sym all_of_them ∙ sym sets),
      )
