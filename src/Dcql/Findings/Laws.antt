-- ===== src/Dcql/Findings/Laws.antt =====
-- A credential query without findings is one that OID4VP 1.0 §6.1 allows.
use eudi_dev.Base.{
  ℕ, ◌≤◌, Text, codes, contains, lookup, Bool, true, false, Option, none, some, List, [], ◌∷◌, ◌++◌,
  is_empty, if◌then◌else◌, All, ◌≡◌, ◌≢◌, ◌⊎◌, ◌↔◌, inl, inr, refl, arith,
}
use eudi_dev.Dcql.Value.{
  Value, bool, obj, Fields, as_object, as_bool, null, str, num, int, bytes, arr,
}
use eudi_dev.Dcql.Claims.{Object}
use eudi_dev.Dcql.Meta.{text_member}
use eudi_dev.Dcql.Findings.{
  Finding, no_format, bad_multiple, bad_binding, no_meta, bad_meta, is_identifier_char,
  all_identifier_chars, is_dcql_identifier, boolean_findings, id_findings, meta_findings,
  query_findings,
}

-- "alphanumeric, underscore (_), or hyphen (-)".
abbrev pub IsIdentifierChar : ℕ → Type 0
IsIdentifierChar c =
    ((97 ≤ c) × (c ≤ 122))
    ⊎ (((65 ≤ c) × (c ≤ 90)) ⊎ (((48 ≤ c) × (c ≤ 57)) ⊎ ((c ≡ 95) ⊎ (c ≡ 45))))

-- A member that is not there, or is a boolean.
abbrev pub IsOptionalBoolean : Option Value → Type 0
IsOptionalBoolean member = (member ≡ none) ⊎ ((b : Bool) × (member ≡ some (bool b)))

-- What §6.1 asks of one credential query by itself.
pub record IsCredentialQuery (query : Object) : Type 0 where
  pub id_given : text_member (codes "id") query ≢ []
  pub id_chars : All IsIdentifierChar (text_member (codes "id") query)
  pub format : text_member (codes "format") query ≢ []
  pub multiple : IsOptionalBoolean (lookup (codes "multiple") query)
  pub binding : IsOptionalBoolean (lookup (codes "require_cryptographic_holder_binding") query)
  pub meta : (m : Fields) × (lookup (codes "meta") query ≡ some (obj m))

is_identifier_char_iff : (c : ℕ) → (is_identifier_char c ≡ true) ↔ IsIdentifierChar c
unfolding is_identifier_char
is_identifier_char_iff c = ground arith

all_identifier_chars_iff : (t : Text) → (all_identifier_chars t ≡ true) ↔ All IsIdentifierChar t
unfolding all_identifier_chars
all_identifier_chars_iff [] = ground arith
all_identifier_chars_iff (c ∷ t) =
    split (is_identifier_char c) (is_identifier_char_iff c) (all_identifier_chars_iff t)
  where
    split :
        (b : Bool)
        → (b ≡ true) ↔ IsIdentifierChar c
        → (all_identifier_chars t ≡ true) ↔ All IsIdentifierChar t
        → ((if b then all_identifier_chars t else false) ≡ true)
          ↔ (IsIdentifierChar c × All IsIdentifierChar t)
    split true (f, g) (p, q) = ((λ h. (f refl, p h)), (λ h. q h.1))
    split false (f, g) (p, q) = ((λ h. cc), (λ h. absurd (let z = g h.0 in cc)))

pub is_dcql_identifier_iff :
    (t : Text) → (is_dcql_identifier t ≡ true) ↔ ((t ≢ []) × All IsIdentifierChar t)
unfolding is_dcql_identifier
is_dcql_identifier_iff [] = ((λ h. cc), (λ h. absurd (h.0 refl)))
is_dcql_identifier_iff (c ∷ t) =
    let (f, g) = all_identifier_chars_iff (c ∷ t) in ((λ h. ((λ e. cc), f h)), (λ h. g h.1))

is_empty_iff : (t : Text) → (is_empty t ≡ false) ↔ (t ≢ [])
is_empty_iff [] = ((λ h. cc), (λ h. absurd (h refl)))
is_empty_iff (c ∷ t) = ((λ h e. cc), (λ h. refl))

pub is_empty-append :
    (xs ys : List Finding)
    → (is_empty (xs ++ ys) ≡ true) ↔ ((is_empty xs ≡ true) × (is_empty ys ≡ true))
is_empty-append [] ys = ground arith
is_empty-append (x ∷ xs) ys = ground arith

boolean_of :
    (finding : Finding) (member : Option Value)
    → (is_empty {A = Finding} (elim member [
      | none ↦ []
      | some v ↦ elim (as_bool v) [ none ↦ finding ∷ [] | some b ↦ [] ]
    ])
        ≡ true)
      ↔ IsOptionalBoolean member
unfolding as_bool
boolean_of finding none = ((λ h. inl refl), (λ h. refl))
boolean_of finding (some (bool b)) = ((λ h. inr (b, refl)), (λ h. refl))
boolean_of finding (some null) = ground arith
boolean_of finding (some (str s)) = ground arith
boolean_of finding (some (num f)) = ground arith
boolean_of finding (some (int n)) = ground arith
boolean_of finding (some (bytes b)) = ground arith
boolean_of finding (some (arr vs)) = ground arith
boolean_of finding (some (obj fs)) = ground arith

meta_of :
    (i : ℕ) (member : Option Value)
    → (is_empty {A = Finding} (elim member [
      | none ↦ no_meta i ∷ []
      | some meta ↦ elim (as_object meta) [ none ↦ bad_meta i ∷ [] | some o ↦ [] ]
    ])
        ≡ true)
      ↔ ((m : Fields) × (member ≡ some (obj m)))
unfolding as_object
meta_of i none = ground arith
meta_of i (some (obj m)) = ((λ h. (m, refl)), (λ h. refl))
meta_of i (some null) = ground arith
meta_of i (some (bool b)) = ground arith
meta_of i (some (str s)) = ground arith
meta_of i (some (num f)) = ground arith
meta_of i (some (int n)) = ground arith
meta_of i (some (bytes b)) = ground arith
meta_of i (some (arr vs)) = ground arith

id_findings_iff :
    (i : ℕ) (seen : List Text) (id : Text)
    → (is_empty (id_findings i seen id) ≡ true)
      ↔ ((is_dcql_identifier id ≡ true) × (contains seen id ≡ false))
unfolding id_findings
id_findings_iff i seen id = ground arith

format_findings_iff :
    (i : ℕ) (format : Text)
    → (is_empty (if is_empty format then no_format i ∷ [] else []) ≡ true)
      ↔ (is_empty format ≡ false)
format_findings_iff i format = ground arith

-- The findings on one query, whose id must not be one that was seen.
pub query_findings_iff :
    (i : ℕ) (seen : List Text) (query : Object)
    → (is_empty (query_findings i seen query) ≡ true)
      ↔ (IsCredentialQuery query × (contains seen (text_member (codes "id") query) ≡ false))
unfolding query_findings meta_findings
query_findings_iff i seen query = (to_query, of_query)
  where
    id : Text
    id = text_member (codes "id") query

    multiple : List Finding
    multiple = boolean_findings (codes "multiple") query (bad_multiple i)

    binding : List Finding
    binding = boolean_findings (codes "require_cryptographic_holder_binding") query (bad_binding i)

    format : List Finding
    format = if is_empty (text_member (codes "format") query) then no_format i ∷ [] else []

    to_query :
        is_empty (query_findings i seen query) ≡ true
        → IsCredentialQuery query × (contains seen id ≡ false)
    to_query h =
        let (ids, h1) =
          (is_empty-append (id_findings i seen id)
              (format ++ (multiple ++ (binding ++ meta_findings i query)))).0
            h in
        let (formats, h2) =
          (is_empty-append format (multiple ++ (binding ++ meta_findings i query))).0 h1 in
        let (multiples, h3) = (is_empty-append multiple (binding ++ meta_findings i query)).0 h2 in
        let (bindings, metas) = (is_empty-append binding (meta_findings i query)).0 h3 in
        let (identifier, fresh) = (id_findings_iff i seen id).0 ids in
        let (given, chars) = (is_dcql_identifier_iff id).0 identifier in
        (
          record {
            id_given = given;
            id_chars = chars;
            format =
                (is_empty_iff (text_member (codes "format") query)).0
                  ((format_findings_iff i (text_member (codes "format") query)).0 formats);
            multiple = (boolean_of (bad_multiple i) (lookup (codes "multiple") query)).0 multiples;
            binding =
                (boolean_of (bad_binding i)
                    (lookup (codes "require_cryptographic_holder_binding") query)).0
                  bindings;
            meta = (meta_of i (lookup (codes "meta") query)).0 metas;
          },
          fresh,
        )

    of_query :
        IsCredentialQuery query × (contains seen id ≡ false)
        → is_empty (query_findings i seen query) ≡ true
    of_query (c, fresh) =
        (is_empty-append (id_findings i seen id)
            (format ++ (multiple ++ (binding ++ meta_findings i query)))).1
          (
            (id_findings_iff i seen id).1
                ((is_dcql_identifier_iff id).1 (c.id_given, c.id_chars), fresh),
            (is_empty-append format (multiple ++ (binding ++ meta_findings i query))).1 (
              (format_findings_iff i (text_member (codes "format") query)).1
                  ((is_empty_iff (text_member (codes "format") query)).1 c.format),
              (is_empty-append multiple (binding ++ meta_findings i query)).1 (
                (boolean_of (bad_multiple i) (lookup (codes "multiple") query)).1 c.multiple,
                (is_empty-append binding (meta_findings i query)).1 (
                  (boolean_of (bad_binding i)
                        (lookup (codes "require_cryptographic_holder_binding") query)).1
                      c.binding,
                  (meta_of i (lookup (codes "meta") query)).1 c.meta,
                ),
              ),
            ),
          )
