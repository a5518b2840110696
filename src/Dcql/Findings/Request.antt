-- ===== src/Dcql/Findings/Request.antt =====
-- Which requests have no findings.
use eudi_dev.Base.{
  ℕ, suc, Text, codes, contains, true, false, none, some, List, [], ◌∷◌, ◌++◌, is_empty,
  if◌then◌else◌, All, map, ◌≡◌, ◌↔◌, inl, inr, refl, sym, arith, Option-cases, subst,
}
use eudi_dev.Dcql.Value.{Value, as_object}
use eudi_dev.Dcql.Claims.{Object, array_member, array_or_empty}
use eudi_dev.Dcql.Meta.{text_member}
use eudi_dev.Dcql.Findings.{no_credentials, query_findings, see, findings_from, dcql_query_findings}
use eudi_dev.Dcql.Findings.Laws.{
  is_dcql_identifier_iff, IsCredentialQuery, query_findings_iff, is_empty-append,
}

abbrev pub id_of : Value → Text
id_of cq = elim (as_object cq) [ none ↦ [] | some query ↦ text_member (codes "id") query ]

-- No id is among those before it, nor among those in `seen`.
abbrev pub AreNew : List Text → List Text → Type 0
AreNew seen [] = Unit
AreNew seen (id ∷ ids) = (contains seen id ≡ false) × AreNew (id ∷ seen) ids

-- An entry of `credentials` that is an object as §6.1 has it.
abbrev pub IsEntry : Value → Type 0
IsEntry cq = (query : Object) × (as_object cq ≡ some query) × IsCredentialQuery query

see_new :
    (i : ℕ) (seen : List Text) (query : Object)
    → IsCredentialQuery query × (contains seen (text_member (codes "id") query) ≡ false)
    → see seen (text_member (codes "id") query) ≡ text_member (codes "id") query ∷ seen
see_new i seen query (c, fresh) =
    let identifier =
      (is_dcql_identifier_iff (text_member (codes "id") query)).1 (c.id_given, c.id_chars) in
    rw (identifier, fresh) refl

to_entries :
    (i : ℕ) (seen : List Text) (cqs : List Value)
    → is_empty (findings_from i seen cqs) ≡ true
    → All IsEntry cqs × AreNew seen (map id_of cqs)
unfolding findings_from
to_entries i seen [] h = (tt, tt)
to_entries i seen (cq ∷ cqs) h = elim (Option-cases (as_object cq)) [
  | inl e ↦ absurd (ground arith)
  | inr (query, e) ↦
      let (here, rest) =
        (is_empty-append (query_findings i seen query)
            (findings_from (suc i) (see seen (text_member (codes "id") query)) cqs)).0
          (at_object e h) in
      let (c, fresh) = (query_findings_iff i seen query).0 here in
      let (entries, new) = to_entries (suc i) (text_member (codes "id") query ∷ seen) cqs (
        subst (λ s. is_empty (findings_from (suc i) s cqs) ≡ true) (see_new i seen query (c, fresh))
          rest) in
      let same = id_at e in (((query, e, c), entries), (rw same fresh, rw same new))
]
  where
    at_object :
        {query : Object}
        → as_object cq ≡ some query
        → is_empty (findings_from i seen (cq ∷ cqs)) ≡ true
        → is_empty (
            query_findings i seen query
            ++ findings_from (suc i) (see seen (text_member (codes "id") query)) cqs)
          ≡ true
    at_object e h = rw (e, findings_from) at h

    id_at : {query : Object} → as_object cq ≡ some query → id_of cq ≡ text_member (codes "id") query
    id_at e = rw (e, id_of) refl

of_entries :
    (i : ℕ) (seen : List Text) (cqs : List Value)
    → All IsEntry cqs × AreNew seen (map id_of cqs)
    → is_empty (findings_from i seen cqs) ≡ true
unfolding findings_from
of_entries i seen [] h = refl
of_entries i seen (cq ∷ cqs) (((query, e, c), entries), (fresh, new)) =
    let same : id_of cq ≡ text_member (codes "id") query = rw (e, id_of) refl in
    let fresh_id = subst (λ t. contains seen t ≡ false) same fresh in
    let rest =
      of_entries (suc i) (text_member (codes "id") query ∷ seen) cqs
        (entries, subst (λ t. AreNew (t ∷ seen) (map id_of cqs)) same new) in
    rw (e, findings_from)
      ((is_empty-append (query_findings i seen query)
          (findings_from (suc i) (see seen (text_member (codes "id") query)) cqs)).1
        (
          (query_findings_iff i seen query).1 (c, fresh_id),
          subst (λ s. is_empty (findings_from (suc i) s cqs) ≡ true)
              (sym (see_new i seen query (c, fresh_id))) rest,
        ))

-- A query has no findings exactly when `credentials` is an array that is not empty, each of its entries
-- is an object with an identifier, a format, metadata, and booleans for `multiple` and holder binding
-- where they are given, and no id is there twice.
pub dcql_query_findings_iff :
    (query : Object)
    → (is_empty (dcql_query_findings (some query)) ≡ true) ↔ (
        (is_empty (array_or_empty (array_member (codes "credentials") query)) ≡ false)
        × All IsEntry (array_or_empty (array_member (codes "credentials") query))
        × AreNew [] (map id_of (array_or_empty (array_member (codes "credentials") query))))
unfolding dcql_query_findings
dcql_query_findings_iff query =
    of_queries (array_or_empty (array_member (codes "credentials") query))
  where
    of_queries :
        (queries : List Value)
        → (is_empty (if is_empty queries then no_credentials ∷ [] else findings_from 0 [] queries)
            ≡ true)
          ↔ ((is_empty queries ≡ false) × All IsEntry queries × AreNew [] (map id_of queries))
    of_queries [] = ((λ h. cc), (λ h. absurd (let z = h.0 in cc)))
    of_queries (cq ∷ cqs) = (
      (λ h. let (a, b) = to_entries 0 [] (cq ∷ cqs) h in (refl, a, b)),
      (λ (n, a, b). of_entries 0 [] (cq ∷ cqs) (a, b)),
    )
