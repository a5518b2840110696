-- ===== src/Dcql/Claims/Shown.antt =====
-- The claims that a selection shows: `filterClaims` finds a value for the selected keys.
use eudi_dev.Base.{
  Float64, Text, lookup, true, false, some, List, [], ◌∷◌, ◌++◌, is_empty, All, map, ◌≡◌, ◌∙◌,
  arith, Option-cases, inl, inr,
}
use eudi_dev.Credential.{StoredCredential, is_mdoc}
use eudi_dev.Dcql.Value.{Value, str, as_string}
use eudi_dev.Dcql.Path.{claim_path_exists}
use eudi_dev.Dcql.Selector.{
  claim_value_by_selector, claim_value_by_path, claim_path_string, parse_sdjwt_selector,
}
use eudi_dev.Dcql.Selector.RoundTrip.{
  IsPointerSegment, IsPlainName, selector_segment, parse-claim_path_string,
}
use eudi_dev.Dcql.Selector.Values.{is_present, claim_value_at_path-exists}
use eudi_dev.Dcql.Claims.{claim_key_from_path}
use eudi_dev.Dcql.Claims.Select.{claim_selector_from_path}

module _ (g : Float64 → Text) (cred : StoredCredential) (k : Text) (rest : List Value) where
  json_key_exists :
      is_mdoc cred ≡ false
      → is_empty (claim_key_from_path cred (str k ∷ rest)) ≡ false
      → (v : Value) × (lookup k cred.claims ≡ some v) × (claim_path_exists v rest ≡ true)
  unfolding claim_key_from_path as_string
  json_key_exists m h = elim (Option-cases (lookup k cred.claims)) [
    | inl e ↦ absurd (ground arith)
    | inr (v, e) ↦ (v, e, ground arith)
  ]

  value_at_parsed :
      (v : Value)
      → lookup k cred.claims ≡ some v
      → claim_path_exists v rest ≡ true
      → All IsPointerSegment rest
      → is_present (claim_value_by_path cred (str k ∷ map selector_segment rest)) ≡ true
  unfolding claim_value_by_path
  value_at_parsed v e x p = rw (e, claim_value_by_path) (claim_value_at_path-exists rest v p ∙ x)

  selector-text :
      is_mdoc cred ≡ false
      → is_empty (claim_selector_from_path g cred (str k ∷ rest)) ≡ false
      → (is_empty (claim_key_from_path cred (str k ∷ rest)) ≡ false)
        × (claim_selector_from_path g cred (str k ∷ rest) ≡ claim_path_string g (str k ∷ rest))
  unfolding claim_selector_from_path
  selector-text m h = ground arith

  value_by_text :
      is_mdoc cred ≡ false
      → (t : Text) {path : List Value} → parse_sdjwt_selector t ≡ some path
      → is_present (claim_value_by_path cred path) ≡ true
      → is_present (claim_value_by_selector cred t) ≡ true
  unfolding claim_value_by_selector
  value_by_text m t e h = rw (m, e) h

  -- For JSON claims and a path pointer that starts at a key, has plain names and indexes below 2^53:
  -- a selector that claim selection returns names a value, so the claim is shown under it.
  pub selector-is_present :
      is_mdoc cred ≡ false
      → IsPlainName k
      → All IsPointerSegment rest
      → is_empty (claim_selector_from_path g cred (str k ∷ rest)) ≡ false
      → is_present (claim_value_by_selector cred (claim_selector_from_path g cred (str k ∷ rest)))
        ≡ true
  selector-is_present m n p h =
      let (key, text) = selector-text m h in
      let (v, found, exists) = json_key_exists m key in
      rw text (
        value_by_text m (claim_path_string g (str k ∷ rest)) (parse-claim_path_string g k rest n p)
          (value_at_parsed v found exists p))

mdoc_key_exists :
    (g : Float64 → Text) (cred : StoredCredential) (path : List Value)
    → is_mdoc cred ≡ true
    → is_empty (claim_selector_from_path g cred path) ≡ false
    → is_present (lookup (claim_selector_from_path g cred path) cred.claims) ≡ true
unfolding claim_selector_from_path
mdoc_key_exists g cred [] m h = cc
mdoc_key_exists g cred (a ∷ []) m h = ground arith
mdoc_key_exists g cred (a ∷ b ∷ []) m h = elim (Option-cases (as_string a)) [
  | inl e ↦ absurd (ground arith)
  | inr (ns, e) ↦ elim (Option-cases (as_string b)) [
    | inl f ↦ absurd (ground arith)
    | inr (el, f) ↦ elim (Option-cases (lookup (ns ++ b':' ∷ el) cred.claims)) [
      | inl x ↦ absurd (ground arith)
      | inr (v, x) ↦ ground arith
    ]
  ]
]
mdoc_key_exists g cred (a ∷ b ∷ c ∷ path) m h = ground arith

mdoc_value :
    (cred : StoredCredential)
    → is_mdoc cred ≡ true
    → (t : Text) → is_present (lookup t cred.claims) ≡ true
    → is_present (claim_value_by_selector cred t) ≡ true
unfolding claim_value_by_selector
mdoc_value cred m t h = rw m h

-- For an mdoc every selector that claim selection returns is the key of a data element.
pub mdoc_selector-is_present :
    (g : Float64 → Text) (cred : StoredCredential) (path : List Value)
    → is_mdoc cred ≡ true
    → is_empty (claim_selector_from_path g cred path) ≡ false
    → is_present (claim_value_by_selector cred (claim_selector_from_path g cred path)) ≡ true
mdoc_selector-is_present g cred path m h = mdoc_value cred m _ (mdoc_key_exists g cred path m h)
