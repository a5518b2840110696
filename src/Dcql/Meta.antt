-- ===== src/Dcql/Meta.antt =====
-- The tests of a credential query that do not concern claims: format, metadata, holder binding.
use eudi_dev.Base.{
  ◌>>=◌, Text, codes, text_eq, contains, lookup, Bool, true, false, Option, none, some, List, [],
  ◌∷◌, is_empty, if◌then◌else◌,
}
use eudi_dev.Credential.{StoredCredential}
use eudi_dev.Credtype.{chain, aka_vcts}
use eudi_dev.Dcql.Value.{Value, as_object, as_string, as_bool}
use eudi_dev.Dcql.Claims.{Object, array_member}

-- `m[key].(string)` and `m[key].(bool)` with the comma-ok form.
abbrev pub string_member : Text → Object → Option Text
string_member key m = lookup key m >>= as_string

abbrev pub bool_member : Text → Object → Option Bool
bool_member key m = lookup key m >>= as_bool

-- `s, _ := m[key].(string)`.
abbrev pub text_member : Text → Object → Text
text_member key m = elim (string_member key m) [ none ↦ [] | some s ↦ s ]

-- `matchesFormat`.
unfoldable pub matches_format : StoredCredential → Text → Bool
matches_format cred query_format =
    if is_empty query_format then true else text_eq cred.format query_format

abbrev pub types_of : Option (List Text) → List Text
types_of none = []
types_of (some types) = types

-- The loop over `vct_values`: the first value that is one of the credential's types, or "".
unfoldable pub find_vct : List Text → List Value → Text
find_vct types [] = []
find_vct types (v ∷ vs) =
    let later = find_vct types vs in
    elim (as_string v) [
      | none ↦ later
      | some s ↦ if contains types s then (if is_empty s then later else s) else later
    ]

-- `if vctValues, ok := meta["vct_values"].([]any)`.
unfoldable pub vct_allowed : StoredCredential → Option (List Value) → Bool
vct_allowed cred none = true
vct_allowed cred (some vct_values) =
    if is_empty cred.vct
    then false
    else if is_empty (find_vct (types_of (chain cred.vct (aka_vcts cred.claims))) vct_values)
    then false
    else true

-- `if docType, ok := meta["doctype_value"].(string)`.
unfoldable pub doc_type_allowed : StoredCredential → Option Text → Bool
doc_type_allowed cred none = true
doc_type_allowed cred (some doc_type) = text_eq cred.doc_type doc_type

-- `matchesMeta`.
unfoldable pub matches_meta : StoredCredential → Object → Bool
matches_meta cred query = elim (lookup (codes "meta") query >>= as_object) [
  | none ↦ true
  | some meta ↦
      if vct_allowed cred (array_member (codes "vct_values") meta)
      then doc_type_allowed cred (string_member (codes "doctype_value") meta)
      else false
]

-- `requiresHolderBinding`.
unfoldable pub requires_holder_binding : Object → Bool
requires_holder_binding query =
    elim (bool_member (codes "require_cryptographic_holder_binding") query) [
      | none ↦ true
      | some required ↦ required
    ]
