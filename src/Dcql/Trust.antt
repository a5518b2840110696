-- ===== src/Dcql/Trust.antt =====
-- `checkTrustedAuthorities`: the `trusted_authorities` of a credential query.
use eudi_dev.Base.{
  Text, codes, text_eq, contains, Bool, false, Option, none, some, List, [], ◌∷◌, is_empty,
  if◌then◌else◌, any,
}
use eudi_dev.Base.Base64.{encode_base64url}
use eudi_dev.Credential.{StoredCredential}
use eudi_dev.Dcql.Value.{Value, as_object, as_string}
use eudi_dev.Dcql.Claims.{Object, array_member, array_or_empty}
use eudi_dev.Dcql.Meta.{text_member}

-- What evaluation reads from the certificates of a credential: the authority key identifiers of its
-- chain (`extractCredentialCertificates`, none where the chain cannot be read), and whether the chain
-- ends in an anchor of the list at a URL (`checkETSITrustList` with the anchors read before).
pub record Certificates : Type 0 where
  pub authority_keys : StoredCredential → Option (List Text)
  pub chain_anchored : StoredCredential → Text → Bool

-- The strings of an entry's `values` that are not empty.
unfoldable pub authority_values : List Value → List Text
authority_values [] = []
authority_values (v ∷ vs) =
    let rest = authority_values vs in
    elim (as_string v) [ none ↦ rest | some s ↦ if is_empty s then rest else s ∷ rest ]

module _ (certs : Certificates) (cred : StoredCredential) where
  -- `checkAuthorityKeyIdentifiers`; a certificate without the extension has an empty key.
  unfoldable pub check_authority_key_identifiers : List Text → Bool
  check_authority_key_identifiers values = elim (certs.authority_keys cred) [
    | none ↦ false
    | some keys ↦
        any (λ key. if is_empty key then false else contains values (encode_base64url key)) keys
  ]

  -- One round of the loop.
  unfoldable pub trusted_by : Object → Bool
  trusted_by authority =
      let kind = text_member (codes "type") authority in
      let values = authority_values (array_or_empty (array_member (codes "values") authority)) in
      if is_empty values
      then false
      else if text_eq kind (codes "aki")
      then check_authority_key_identifiers values
      else if text_eq kind (codes "etsi_tl")
      then any (certs.chain_anchored cred) values
      else false

  -- `checkTrustedAuthorities`.
  unfoldable pub check_trusted_authorities : List Value → Bool
  check_trusted_authorities ta_list =
      any (λ entry. elim (as_object entry) [ none ↦ false | some authority ↦ trusted_by authority ])
        ta_list
