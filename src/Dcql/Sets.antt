-- ===== src/Dcql/Sets.antt =====
-- Which matches are presented: one for each query, and the credential sets of the request.
pub mod Laws
pub mod Options
use eudi_dev.Base.{
  ◌>>=◌, ℕ, suc, Text, codes, text_eq, contains, lookup, Bool, true, false, not, ◌&&◌, Option, none,
  some, List, [], ◌∷◌, ◌++◌, is_empty, if◌then◌else◌, keep_if,
}
use eudi_dev.Base.Sort.{stable_sort}
use eudi_dev.Dcql.Value.{Value, bool, as_object, as_array, as_string}
use eudi_dev.Dcql.Claims.{Object, array_member}
use eudi_dev.Dcql.Meta.{bool_member, text_member}
use eudi_dev.Dcql.Match.{CredentialMatch}

-- `multipleQueries`: the ids of the queries that set `multiple`.
unfoldable pub multiple_queries : List Value → List Text
multiple_queries [] = []
multiple_queries (cq ∷ cqs) =
    let rest = multiple_queries cqs in
    elim (as_object cq) [
      | none ↦ rest
      | some query ↦
          let id = text_member (codes "id") query in
          if is_empty id then rest else elim (bool_member (codes "multiple") query) [
            | none ↦ rest
            | some multiple ↦ if multiple then id ∷ rest else rest
          ]
    ]

-- The loop of `keepOnePresentationPerQuery`; `seen` holds the query ids that were kept.
unfoldable pub keep_one_from : List Text → List Text → List CredentialMatch → List CredentialMatch
keep_one_from multiple seen [] = []
keep_one_from multiple seen (m ∷ ms) =
    let kept = m ∷ keep_one_from multiple (m.query_id ∷ seen) ms in
    let dropped = keep_one_from multiple seen ms in
    if contains seen m.query_id
    then (if contains multiple m.query_id then kept else dropped)
    else kept

-- `keepOnePresentationPerQuery`.
unfoldable pub keep_one_presentation_per_query :
    List CredentialMatch → List Text → List CredentialMatch
keep_one_presentation_per_query ms multiple = keep_one_from multiple [] ms

-- `byQuery[id]`; the key is there when some match has it.
abbrev pub matches_for : Text → List CredentialMatch → List CredentialMatch
matches_for id = keep_if (λ m. text_eq m.query_id id)

abbrev pub has_match : List CredentialMatch → Text → Bool
has_match ms id = not (is_empty (matches_for id ms))

-- The loop of `satisfiableOption`.
unfoldable pub option_ids : (Text → Bool) → List Value → Option (List Text)
option_ids has [] = some []
option_ids has (v ∷ vs) = do
  qid ← as_string v
  rest ← option_ids has vs
  if has qid then some (qid ∷ rest) else none

-- `satisfiableOption`.
unfoldable pub satisfiable_option : (Text → Bool) → Value → Option (List Text)
satisfiable_option has opt = do ids ← as_array opt; option_ids has ids

-- `queryFormat[qid]`: the format of the first match of a query.
abbrev query_format : List CredentialMatch → Text → Text
query_format ms id = elim (matches_for id ms) [ [] ↦ [] | m ∷ rest ↦ m.format ]

-- The loop of `optionMatchesFormat`.
unfoldable pub ids_match_format : List CredentialMatch → Text → List Value → Bool
ids_match_format ms format [] = false
ids_match_format ms format (v ∷ vs) = elim (as_string v) [
  | none ↦ false
  | some qid ↦
      let later = ids_match_format ms format vs in
      if text_eq (query_format ms qid) format then true else later
]

-- `optionMatchesFormat`.
unfoldable pub option_matches_format : List CredentialMatch → Text → Value → Bool
option_matches_format ms format opt = elim (as_array opt) [
  | none ↦ false
  | some ids ↦ ids_match_format ms format ids
]

-- `orderOptionsByPreferredFormat`.
unfoldable pub order_options : List Value → List CredentialMatch → Text → List Value
order_options options ms preferred =
    if is_empty preferred
    then options
    else stable_sort
        (λ a b. option_matches_format ms preferred a && not (option_matches_format ms preferred b))
        options

-- The first satisfiable option of a set.
unfoldable pub first_option : List CredentialMatch → List Value → Option (List Text)
first_option ms [] = none
first_option ms (opt ∷ opts) =
    let later = first_option ms opts in
    elim (satisfiable_option (has_match ms) opt) [ none ↦ later | some ids ↦ some ids ]

-- `required := true; if r, ok := csMap["required"].(bool); ok { required = r }`.
abbrev pub is_required : Object → Bool
is_required set = elim (bool_member (codes "required") set) [ none ↦ true | some b ↦ b ]

-- The loop over the sets: the needed query ids, or `none` where a required set is not satisfied.
unfoldable pub needed_queries : List CredentialMatch → Text → List Value → Option (List Text)
needed_queries ms preferred [] = some []
needed_queries ms preferred (cs ∷ sets) =
    let later = needed_queries ms preferred sets in
    elim (as_object cs) [
      | none ↦ later
      | some set ↦ elim (array_member (codes "options") set) [
        | none ↦ later
        | some options ↦ elim (first_option ms (order_options options ms preferred)) [
          | none ↦ if is_required set then none else later
          | some ids ↦ elim later [ none ↦ none | some rest ↦ some (ids ++ rest) ]
        ]
      ]
    ]

-- `applyCredentialSets`; nil is the empty list.
unfoldable pub apply_credential_sets :
    List CredentialMatch → List Value → Text → List CredentialMatch
apply_credential_sets ms sets preferred = elim (needed_queries ms preferred sets) [
  | none ↦ []
  | some needed ↦ keep_if (λ m. contains needed m.query_id) ms
]

-- What `unmatchedCredentialQueries` reports: a position, or an id.
pub data Unmatched : Type 0 where
  position : ℕ → Unmatched
  query : Text → Unmatched

unfoldable pub unmatched_from : ℕ → List Value → List CredentialMatch → List Unmatched
unmatched_from i [] ms = []
unmatched_from i (cq ∷ cqs) ms =
    let rest = unmatched_from (suc i) cqs ms in
    elim (as_object cq) [
      | none ↦ position i ∷ rest
      | some q ↦
          let id = text_member (codes "id") q in
          if is_empty id
          then position i ∷ rest
          else if has_match ms id
          then rest
          else query id ∷ rest
    ]

-- `unmatchedCredentialQueries`.
unfoldable pub unmatched_credential_queries : List Value → List CredentialMatch → List Unmatched
unmatched_credential_queries cqs ms = unmatched_from 0 cqs ms
