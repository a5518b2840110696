-- ===== src/Dcql/Findings.antt =====
-- `DCQLQueryFindings`: where a query departs from OID4VP 1.0 §6.
pub mod Laws
pub mod Request
use eudi_dev.Base.{
  ℕ, suc, Text, codes, contains, lookup, Bool, true, false, Option, none, some, List, [], ◌∷◌, ◌++◌,
  is_empty, if◌then◌else◌, leb, ◌==◌, ◌&&◌, ◌||◌,
}
use eudi_dev.Dcql.Value.{Value, as_object, as_bool}
use eudi_dev.Dcql.Claims.{Object, array_member, array_or_empty}
use eudi_dev.Dcql.Meta.{text_member}

-- The findings, by what their texts report of the query at a position.
pub data Finding : Type 0 where
  no_credentials : Finding
  not_an_object bad_id repeated_id no_format bad_multiple bad_binding no_meta bad_meta : ℕ → Finding

-- `r >= 'a' && r <= 'z', ...`.
unfoldable pub is_identifier_char : ℕ → Bool
is_identifier_char r =
    (leb b'a' r && leb r b'z')
    || (leb b'A' r && leb r b'Z')
    || (leb b'0' r && leb r b'9')
    || r == b'_'
    || r == b'-'

unfoldable pub all_identifier_chars : Text → Bool
unfolding is_identifier_char
all_identifier_chars [] = true
all_identifier_chars (r ∷ rs) = if is_identifier_char r then all_identifier_chars rs else false

-- `isDCQLIdentifier`.
unfoldable pub is_dcql_identifier : Text → Bool
unfolding all_identifier_chars
is_dcql_identifier id = if is_empty id then false else all_identifier_chars id

-- A member that is there must be a boolean.
abbrev pub boolean_findings : Text → Object → Finding → List Finding
boolean_findings key query finding = elim (lookup key query) [
  | none ↦ []
  | some v ↦ elim (as_bool v) [ none ↦ finding ∷ [] | some b ↦ [] ]
]

unfoldable pub id_findings : ℕ → List Text → Text → List Finding
id_findings i seen id =
    if is_dcql_identifier id
    then (if contains seen id then repeated_id i ∷ [] else [])
    else bad_id i ∷ []

unfoldable pub meta_findings : ℕ → Object → List Finding
meta_findings i query = elim (lookup (codes "meta") query) [
  | none ↦ no_meta i ∷ []
  | some meta ↦ elim (as_object meta) [ none ↦ bad_meta i ∷ [] | some o ↦ [] ]
]

-- The findings on one query.
unfoldable pub query_findings : ℕ → List Text → Object → List Finding
query_findings i seen query =
    id_findings i seen (text_member (codes "id") query)
    ++ ((if is_empty (text_member (codes "format") query) then no_format i ∷ [] else [])
        ++ (boolean_findings (codes "multiple") query (bad_multiple i)
            ++ (boolean_findings (codes "require_cryptographic_holder_binding") query
                  (bad_binding i)
                ++ meta_findings i query)))

-- `seen[id] = true`, for an identifier that is new.
abbrev pub see : List Text → Text → List Text
see seen id = if is_dcql_identifier id then (if contains seen id then seen else id ∷ seen) else seen

-- The loop over the queries, from position `i`.
unfoldable pub findings_from : ℕ → List Text → List Value → List Finding
findings_from i seen [] = []
findings_from i seen (cq ∷ cqs) =
    let skipped = not_an_object i ∷ findings_from (suc i) seen cqs in
    elim (as_object cq) [
      | none ↦ skipped
      | some query ↦
          query_findings i seen query
          ++ findings_from (suc i) (see seen (text_member (codes "id") query)) cqs
    ]

-- `DCQLQueryFindings`; a nil query has no findings.
unfoldable pub dcql_query_findings : Option Object → List Finding
dcql_query_findings none = []
dcql_query_findings (some query) =
    let queries = array_or_empty (array_member (codes "credentials") query) in
    if is_empty queries then no_credentials ∷ [] else findings_from 0 [] queries
