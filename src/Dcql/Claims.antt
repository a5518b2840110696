-- ===== src/Dcql/Claims.antt =====
-- The claims of a credential that the `claims` of a credential query name, and their `values`. A query
-- object is its list of members.
pub mod Select
pub mod Same
pub mod There
pub mod Laws
pub mod Shown
use eudi_dev.Base.{
  ◌>>=◌, ℕ, ℤ, zero, suc, ◌+◌, Float64, float_eq, float_of_int, Text, codes, text_eq, lookup,
  insert, Bool, true, false, Option, none, some, List, [], ◌∷◌, ◌++◌, is_empty, any, if◌then◌else◌,
  length, ◌==◌,
}
use eudi_dev.Base.Base64.{encode_base64url}
use eudi_dev.Credential.{StoredCredential, is_mdoc}
use eudi_dev.Dcql.Value.{
  Value, null, bool, str, num, int, bytes, as_object, as_array, as_string, string_or_empty,
  to_items, obj, Fields, end, field,
}
use eudi_dev.Dcql.Path.{claim_path_exists, select_json_claims}
use eudi_dev.Dcql.Selector.{claim_path_string, filter_claims}

abbrev pub Object : Type 0
Object = List (Text × Value)

abbrev pub to_fields : Object → Fields
to_fields [] = end
to_fields ((k, v) ∷ m) = field k v (to_fields m)

-- `m[key].([]any)` with the comma-ok form.
abbrev pub array_member : Text → Object → Option (List Value)
array_member key m = lookup key m >>= as_array

-- `m[key].([]any)` with the length test: a missing or empty array is empty.
abbrev pub array_or_empty : Option (List Value) → List Value
array_or_empty none = []
array_or_empty (some vs) = vs

-- `mdocClaimKeyFromPath`; the empty key says that the element is not there.
unfoldable pub mdoc_claim_key_from_path : StoredCredential → List Value → Text
mdoc_claim_key_from_path cred (namespace ∷ element ∷ []) = elim (as_string namespace) [
  | none ↦ []
  | some ns ↦ elim (as_string element) [
    | none ↦ []
    | some el ↦
        let key = ns ++ b':' ∷ el in elim (lookup key cred.claims) [ none ↦ [] | some v ↦ key ]
  ]
]
mdoc_claim_key_from_path cred _ = []

-- The part of `claimKeyFromPath` for JSON claims.
unfoldable pub json_claim_key_from_path : StoredCredential → List Value → Text
json_claim_key_from_path cred [] = []
json_claim_key_from_path cred (segment ∷ rest) = elim (as_string segment) [
  | none ↦ []
  | some key ↦ elim (lookup key cred.claims) [
    | none ↦ []
    | some val ↦ if claim_path_exists val rest then key else []
  ]
]

-- `claimKeyFromPath`.
unfoldable pub claim_key_from_path : StoredCredential → List Value → Text
unfolding mdoc_claim_key_from_path json_claim_key_from_path
claim_key_from_path cred path =
    if is_empty path
    then []
    else if is_mdoc cred
    then mdoc_claim_key_from_path cred path
    else json_claim_key_from_path cred path

-- `numericClaimValue`: a float, or any Go integer as a float.
unfoldable pub numeric_claim_value : Value → Option Float64
numeric_claim_value (num f) = some f
numeric_claim_value (int i) = some (float_of_int i)
numeric_claim_value _ = none

-- `mdocValueAsJSON`, for the kinds of value of the model.
unfoldable pub mdoc_value_as_json : Value → Value
unfolding numeric_claim_value
mdoc_value_as_json (bytes b) = str (encode_base64url b)
mdoc_value_as_json v = elim (numeric_claim_value v) [ none ↦ v | some n ↦ num n ]

-- `claimValueEquals`.
unfoldable pub claim_value_equals : Value → Value → Bool
unfolding numeric_claim_value
claim_value_equals claim (str expected) = elim (as_string claim) [
  | none ↦ false
  | some got ↦ text_eq got expected
]
claim_value_equals (bool true) (bool expected) = expected
claim_value_equals (bool false) (bool expected) = if expected then false else true
claim_value_equals _ (bool expected) = false
claim_value_equals claim want = elim (numeric_claim_value want) [
  | none ↦ false
  | some want_num ↦ elim (numeric_claim_value claim) [
    | none ↦ false
    | some got_num ↦ float_eq got_num want_num
  ]
]

-- `valuesConstraintSatisfied`.
unfoldable pub values_constraint_satisfied : List Value → List Value → Bool
values_constraint_satisfied selected values =
    any (λ claim. any (λ want. claim_value_equals claim want) values) selected

-- `claimValuesAtPath`.
unfoldable pub claim_values_at_path : StoredCredential → List Value → List Value
unfolding mdoc_claim_key_from_path
claim_values_at_path cred path =
    if is_empty path
    then []
    else if is_mdoc cred
    then (let key = mdoc_claim_key_from_path cred path in
        if is_empty key then [] else elim (lookup key cred.claims) [
          | none ↦ mdoc_value_as_json null ∷ []
          | some v ↦ mdoc_value_as_json v ∷ []
        ])
    else select_json_claims (obj (to_fields cred.claims)) path

-- `claimSelection`.
pub record ClaimSelection : Type 0 where
  pub selected_keys : List Text
  pub missing_required : List Text
  pub empty_arrays : List Text
  pub match : Bool

-- `ConsentClaimSet`.
pub record ConsentClaimSet : Type 0 where
  pub index : ℕ
  pub keys : List Text
  pub claims : Object

-- `buildClaimByID`: the claims queries with an id and a path, the last one for an id.
unfoldable pub build_claim_by_id_from : List (Text × Object) → List Value → List (Text × Object)
build_claim_by_id_from by_id [] = by_id
build_claim_by_id_from by_id (cq ∷ cqs) =
    build_claim_by_id_from
      (elim (as_object cq) [
        | none ↦ by_id
        | some claim_query ↦
            let id = string_or_empty (lookup (codes "id") claim_query) in
            if is_empty id then by_id else elim (array_member (codes "path") claim_query) [
              | none ↦ by_id
              | some path ↦ insert id claim_query by_id
            ]
      ])
      cqs

unfoldable pub build_claim_by_id : List Value → List (Text × Object)
unfolding build_claim_by_id_from
build_claim_by_id claims_query = build_claim_by_id_from [] claims_query

-- The `values` test of `claimSelectorFor`.
unfoldable pub values_allow : StoredCredential → Object → List Value → Bool
values_allow cred claim_query path =
    let values = array_or_empty (array_member (codes "values") claim_query) in
    if is_empty values
    then true
    else values_constraint_satisfied (claim_values_at_path cred path) values
