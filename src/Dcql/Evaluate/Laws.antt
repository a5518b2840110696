-- ===== src/Dcql/Evaluate/Laws.antt =====
-- What an evaluated query guarantees.
use eudi_dev.Base.{
  text_eq_iff, ℕ, suc, ◌≤◌, Text, codes, text_eq, contains, Bool, true, false, Option, some, List,
  [], ◌∷◌, is_empty, keep_if, length, All, ◌≡◌, ◌≢◌, ◌⊎◌, ◌∙◌, refl, arith, Bool-cases,
  Option-cases, inl, inr, subst,
}
use eudi_dev.Dcql.Value.{Value, as_object}
use eudi_dev.Dcql.Claims.{Object, array_member, array_or_empty}
use eudi_dev.Dcql.Meta.{text_member, bool_member}
use eudi_dev.Dcql.Match.{CredentialMatch}
use eudi_dev.Dcql.Sets.{
  matches_for, has_match, multiple_queries, keep_one_presentation_per_query, apply_credential_sets,
  needed_queries, Unmatched, unmatched_from, unmatched_credential_queries,
}
use eudi_dev.Dcql.Sets.Laws.{keep_one-le_one}
use eudi_dev.Dcql.Sets.Options.{IsSatisfied, apply_credential_sets-IsSatisfied}
use eudi_dev.Dcql.Options.{ConsentCredentialOptions}
use eudi_dev.Dcql.Evaluate.{
  answered, Wallet, candidates, selection, evaluate_queries, evaluate_dcql_with_options,
}

abbrev pub queries_of : Object → List Value
queries_of query = array_or_empty (array_member (codes "credentials") query)

abbrev pub sets_of : Object → List Value
sets_of query = array_or_empty (array_member (codes "credential_sets") query)

evaluated_selection :
    (w : Wallet) (queries sets : List Value) (ms : List CredentialMatch)
    (o : Option ConsentCredentialOptions)
    → evaluate_queries w queries sets ≡ answered ms o
    → ms ≡ selection w queries sets
unfolding evaluate_queries
evaluated_selection w queries sets ms o e = ground arith

pub answered_selection :
    (w : Wallet) (query : Object) (ms : List CredentialMatch) (o : Option ConsentCredentialOptions)
    → evaluate_dcql_with_options w query ≡ answered ms o
    → ms ≡ selection w (queries_of query) (sets_of query)
unfolding evaluate_dcql_with_options
answered_selection w query ms o e =
    evaluated_selection w (queries_of query) (sets_of query) ms o (ground arith)

-- A credential query that some match answers.
abbrev pub IsDelivered : List CredentialMatch → Value → Type 0
IsDelivered ms cq =
    (query : Object) × (as_object cq ≡ some query)
    × (is_empty (text_member (codes "id") query) ≡ false)
    × (has_match ms (text_member (codes "id") query) ≡ true)

unmatched-IsDelivered :
    (i : ℕ) (cqs : List Value) (ms : List CredentialMatch)
    → unmatched_from i cqs ms ≡ []
    → All (IsDelivered ms) cqs
unfolding unmatched_from
unmatched-IsDelivered i [] ms h = tt
unmatched-IsDelivered i (cq ∷ cqs) ms h = elim (Option-cases (as_object cq)) [
  | inl e ↦ absurd (ground arith)
  | inr (query, e) ↦
      ((query, e, ground arith, ground arith), unmatched-IsDelivered (suc i) cqs ms (ground arith))
]

selection-IsDelivered :
    (w : Wallet) (queries : List Value)
    → selection w queries [] ≢ []
    → All (IsDelivered (selection w queries [])) queries
unfolding selection unmatched_credential_queries
selection-IsDelivered w queries h =
    split (Bool-cases (is_empty (unmatched_credential_queries queries kept)))
  where
    kept : List CredentialMatch
    kept = keep_one_presentation_per_query (candidates w queries) (multiple_queries queries)

    nothing : (xs : List Unmatched) → is_empty xs ≡ true → xs ≡ []
    nothing [] e = refl
    nothing (x ∷ xs) e = cc

    split :
        (is_empty (unmatched_credential_queries queries kept) ≡ true)
          ⊎ (is_empty (unmatched_credential_queries queries kept) ≡ false)
        → All (IsDelivered (selection w queries [])) queries
    split (inl e) =
        rw (e, selection)
          (unmatched-IsDelivered 0 queries kept
            (nothing (unmatched_credential_queries queries kept) e))
    split (inr e) = absurd (h (rw (e, selection) refl))

-- Without credential sets, either no credential is returned, or every credential query is an object
-- with an id that some returned credential answers.
pub evaluate-IsDelivered :
    (w : Wallet) (query : Object) (ms : List CredentialMatch) (o : Option ConsentCredentialOptions)
    → evaluate_dcql_with_options w query ≡ answered ms o
    → sets_of query ≡ []
    → ms ≢ []
    → All (IsDelivered ms) (queries_of query)
evaluate-IsDelivered w query ms o e none_set h =
    let same = answered_selection w query ms o e in
    let at_empty = subst (λ sets. ms ≡ selection w (queries_of query) sets) none_set same in
    rw at_empty (selection-IsDelivered w (queries_of query) (λ n. h (at_empty ∙ n)))

selection-IsSatisfied :
    (w : Wallet) (queries sets : List Value)
    → is_empty sets ≡ false
    → selection w queries sets ≢ []
    → All (IsSatisfied (selection w queries sets)) sets
unfolding selection
selection-IsSatisfied w queries sets e h = rw e (
    apply_credential_sets-IsSatisfied
      (keep_one_presentation_per_query (candidates w queries) (multiple_queries queries)) sets
      w.preferred_format (rw e at h))

-- With credential sets, either no credential is returned, or every set that is an object with an array
-- of options, and whose `required` is not false, has an option, an array of query ids, for each of which
-- some returned credential answers the query with that id.
pub evaluate-IsSatisfied :
    (w : Wallet) (query : Object) (ms : List CredentialMatch) (o : Option ConsentCredentialOptions)
    → evaluate_dcql_with_options w query ≡ answered ms o
    → is_empty (sets_of query) ≡ false
    → ms ≢ []
    → All (IsSatisfied ms) (sets_of query)
evaluate-IsSatisfied w query ms o e some_set h =
    let same = answered_selection w query ms o e in
    rw same
      (selection-IsSatisfied w (queries_of query) (sets_of query) some_set (λ n. h (same ∙ n)))

length-keep_if :
    (p q : CredentialMatch → Bool) (ms : List CredentialMatch)
    → length (keep_if p (keep_if q ms)) ≤ length (keep_if p ms)
length-keep_if p q [] = omega arith
length-keep_if p q (m ∷ ms) = ground (arith, length-keep_if p q ms)

apply_sets-le_one :
    (ms : List CredentialMatch) (sets : List Value) (preferred id : Text)
    → length (matches_for id ms) ≤ 1
    → length (matches_for id (apply_credential_sets ms sets preferred)) ≤ 1
unfolding apply_credential_sets
apply_sets-le_one ms sets preferred id h = elim (Option-cases (needed_queries ms preferred sets)) [
  | inl e ↦ rw (e, apply_credential_sets) (omega arith)
  | inr (needed, e) ↦
      rw (e, apply_credential_sets)
        (omega (
          arith,
          h,
          length-keep_if (λ m. text_eq m.query_id id) (λ m. contains needed m.query_id) ms,
        ))
]

selection-le_one :
    (w : Wallet) (queries sets : List Value) (id : Text)
    → contains (multiple_queries queries) id ≡ false
    → length (matches_for id (selection w queries sets)) ≤ 1
unfolding selection
selection-le_one w queries sets id h = ground (
  arith,
  keep_one-le_one (multiple_queries queries) id (candidates w queries) h,
  apply_sets-le_one
      (keep_one_presentation_per_query (candidates w queries) (multiple_queries queries)) sets
      w.preferred_format id,
)

-- A credential query that does not both have the id and allow several credentials.
abbrev pub IsSingle : Text → Value → Type 0
IsSingle id cq =
    (query : Object)
    → as_object cq ≡ some query
    → text_member (codes "id") query ≡ id
    → bool_member (codes "multiple") query ≢ some true

single-multiple_queries :
    (id : Text) (cqs : List Value)
    → All (IsSingle id) cqs
    → contains (multiple_queries cqs) id ≡ false
unfolding multiple_queries contains
single-multiple_queries id [] h = refl
single-multiple_queries id (cq ∷ cqs) (single, h) =
    let later = single-multiple_queries id cqs h in
    elim (Option-cases (as_object cq)) [
      | inl e ↦ rw (e, multiple_queries) later
      | inr (query, e) ↦ elim (Bool-cases (is_empty (text_member (codes "id") query))) [
        | inl i ↦ rw (e, i, multiple_queries) later
        | inr i ↦ elim (Option-cases (bool_member (codes "multiple") query)) [
          | inl m ↦ rw (e, i, m, multiple_queries) later
          | inr (false, m) ↦ rw (e, i, m, multiple_queries) later
          | inr (true, m) ↦ elim (Bool-cases (text_eq (text_member (codes "id") query) id)) [
            | inl q ↦
                absurd (single query e ((text_eq_iff (text_member (codes "id") query) id).0 q) m)
            | inr q ↦ rw (e, i, m, multiple_queries) (rw (q, contains) later)
          ]
        ]
      ]
    ]

-- In an answer, an id that no credential query with `multiple` set to true has is answered by at most
-- one credential.
pub evaluate-le_one :
    (w : Wallet) (query : Object) (ms : List CredentialMatch) (o : Option ConsentCredentialOptions)
    (id : Text)
    → evaluate_dcql_with_options w query ≡ answered ms o
    → All (IsSingle id) (queries_of query)
    → length (matches_for id ms) ≤ 1
evaluate-le_one w query ms o id e h = rw (answered_selection w query ms o e) (
    selection-le_one w (queries_of query) (sets_of query) id
      (single-multiple_queries id (queries_of query) h))
