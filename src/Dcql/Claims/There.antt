-- ===== src/Dcql/Claims/There.antt =====
-- When a claims path pointer names a claim of a credential.
use eudi_dev.Base.{
  Text, lookup, true, false, some, List, [], ◌∷◌, ◌++◌, is_empty, ◌≡◌, ap₂, subst, inl, inr,
  Bool-cases, Option-cases,
}
use eudi_dev.Credential.{StoredCredential, is_mdoc}
use eudi_dev.Dcql.Value.{Value, null, bool, str, num, int, bytes, arr, obj, as_string}
use eudi_dev.Dcql.Path.{claim_path_exists}
use eudi_dev.Dcql.Claims.{mdoc_claim_key_from_path, json_claim_key_from_path, claim_key_from_path}

-- An element of an mdoc by its namespace and its name, or a member of the JSON claims in which the rest of
-- the path exists.
pub data IsThere (cred : StoredCredential) : List Value → Type 0 where
  element :
      (namespace name : Text) (v : Value)
      → is_mdoc cred ≡ true
      → lookup (namespace ++ b':' ∷ name) cred.claims ≡ some v
      → IsThere cred (str namespace ∷ str name ∷ [])
  member :
      (key : Text) (rest : List Value) (v : Value)
      → is_mdoc cred ≡ false
      → lookup key cred.claims ≡ some v
      → claim_path_exists v rest ≡ true
      → IsThere cred (str key ∷ rest)

string_of : (v : Value) (t : Text) → as_string v ≡ some t → str t ≡ v
unfolding as_string
string_of (str u) t e = cc
string_of null t e = absurd (cc)
string_of (bool b) t e = absurd (cc)
string_of (num f) t e = absurd (cc)
string_of (int i) t e = absurd (cc)
string_of (bytes b) t e = absurd (cc)
string_of (arr vs) t e = absurd (cc)
string_of (obj fs) t e = absurd (cc)

module _ (cred : StoredCredential) where
  mdoc-IsThere :
      (path : List Value)
      → is_mdoc cred ≡ true
      → is_empty (mdoc_claim_key_from_path cred path) ≡ false
      → IsThere cred path
  unfolding mdoc_claim_key_from_path
  mdoc-IsThere [] m h = absurd (cc)
  mdoc-IsThere (v ∷ []) m h = absurd (cc)
  mdoc-IsThere (v ∷ w ∷ x ∷ path) m h = absurd (cc)
  mdoc-IsThere (v ∷ w ∷ []) m h = elim (Option-cases (as_string v)) [
    | inl e ↦ absurd (let empty : true ≡ false = (rw (e, mdoc_claim_key_from_path) at h) in cc)
    | inr (namespace, e) ↦ elim (Option-cases (as_string w)) [
      | inl f ↦ absurd (let empty : true ≡ false = (rw (e, f, mdoc_claim_key_from_path) at h) in cc)
      | inr (name, f) ↦ elim (Option-cases (lookup (namespace ++ b':' ∷ name) cred.claims)) [
        | inl g ↦
            absurd (let empty : true ≡ false = (rw (e, f, g, mdoc_claim_key_from_path) at h) in cc)
        | inr (x, g) ↦
            subst (IsThere cred)
              (ap₂ (λ a b. a ∷ b ∷ []) (string_of v namespace e) (string_of w name f))
              (element namespace name x m g)
      ]
    ]
  ]

  json-IsThere :
      (path : List Value)
      → is_mdoc cred ≡ false
      → is_empty (json_claim_key_from_path cred path) ≡ false
      → IsThere cred path
  unfolding json_claim_key_from_path
  json-IsThere [] m h = absurd (cc)
  json-IsThere (v ∷ rest) m h = elim (Option-cases (as_string v)) [
    | inl e ↦ absurd (let empty : true ≡ false = (rw (e, json_claim_key_from_path) at h) in cc)
    | inr (key, e) ↦ elim (Option-cases (lookup key cred.claims)) [
      | inl f ↦ absurd (let empty : true ≡ false = (rw (e, f, json_claim_key_from_path) at h) in cc)
      | inr (x, f) ↦ elim (Bool-cases (claim_path_exists x rest)) [
        | inl g ↦ subst (λ a. IsThere cred (a ∷ rest)) (string_of v key e) (member key rest x m f g)
        | inr g ↦
            absurd (let empty : true ≡ false = (rw (e, f, g, json_claim_key_from_path) at h) in cc)
      ]
    ]
  ]

  pub key-IsThere :
      (path : List Value) → is_empty (claim_key_from_path cred path) ≡ false → IsThere cred path
  unfolding claim_key_from_path
  key-IsThere path h = elim (Bool-cases (is_empty path)) [
    | inl e ↦ absurd (let empty : true ≡ false = (rw (e, claim_key_from_path) at h) in cc)
    | inr e ↦ elim (Bool-cases (is_mdoc cred)) [
      | inl m ↦ mdoc-IsThere path m (rw (e, m, claim_key_from_path) at h)
      | inr m ↦ json-IsThere path m (rw (e, m, claim_key_from_path) at h)
    ]
  ]
