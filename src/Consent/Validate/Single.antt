-- ===== src/Consent/Validate/Single.antt =====
-- A query that takes one credential gets at most one.
use eudi_dev.Base.{
  ◌≤◌, Text, text_eq_iff, contains, true, false, some, List, [], ◌∷◌, ◌++◌, is_empty, length,
  keep_if, if◌then◌else◌, All, ◌≡◌, ◌≢◌, refl, sym, ◌∙◌, inl, inr, arith, Bool-cases,
}
use eudi_dev.Dcql.Match.{CredentialMatch}
use eudi_dev.Dcql.Options.{ConsentQueryOptions, ConsentCredentialOptions}
use eudi_dev.Consent.{find_consent_query, picked_candidates}
use eudi_dev.Consent.Validate.{accepted, check_pick}

-- No two of the credentials offered for a query are the same.
abbrev pub HaveDistinctIds : List CredentialMatch → Type 0
HaveDistinctIds [] = Unit
HaveDistinctIds (m ∷ ms) = All (λ n. n.credential_id ≢ m.credential_id) ms × HaveDistinctIds ms

module _ (ids : List Text) (one : length ids ≤ 1) where
  abbrev picked : List CredentialMatch → List CredentialMatch
  picked = keep_if (λ m. contains ids m.credential_id)

  same_pick : (s t : Text) → contains ids s ≡ true → contains ids t ≡ true → s ≡ t
  unfolding contains
  same_pick s t h k = of_list ids one h k
    where
      of_list : (l : List Text) → length l ≤ 1 → contains l s ≡ true → contains l t ≡ true → s ≡ t
      of_list [] o h k = cc
      of_list (x ∷ []) o h k =
          sym ((text_eq_iff x s).0 (ground arith)) ∙ (text_eq_iff x t).0 (ground arith)
      of_list (x ∷ y ∷ l) o h k = absurd (omega arith)

  none_left :
      (m : CredentialMatch) (ms : List CredentialMatch)
      → contains ids m.credential_id ≡ true
      → All (λ n. n.credential_id ≢ m.credential_id) ms
      → picked ms ≡ []
  none_left m [] h d = refl
  none_left m (n ∷ ms) h (ne, d) = elim (Bool-cases (contains ids n.credential_id)) [
    | inl e ↦ absurd (ne (same_pick n.credential_id m.credential_id e h))
    | inr e ↦ rw e (none_left m ms h d)
  ]

  picked-le_one : (ms : List CredentialMatch) → HaveDistinctIds ms → length (picked ms) ≤ 1
  picked-le_one [] d = omega arith
  picked-le_one (m ∷ ms) (ne, d) = elim (Bool-cases (contains ids m.credential_id)) [
    | inl e ↦ rw e (let nothing = none_left m ms e ne in rw nothing (omega arith))
    | inr e ↦ rw e (picked-le_one ms d)
  ]

  candidates-le_one :
      (query : ConsentQueryOptions)
      → query.multiple ≡ false
      → HaveDistinctIds (query.candidates ++ query.non_matching)
      → length (picked_candidates query ids) ≤ 1
  unfolding picked_candidates
  candidates-le_one query single d =
      split (picked (query.candidates ++ query.non_matching)) query.candidates
        (picked-le_one (query.candidates ++ query.non_matching) d)
    where
      split :
          (p candidates : List CredentialMatch)
          → length p ≤ 1
          → length (
              if is_empty p
              then elim candidates [
                | [] ↦ []
                | m ∷ rest ↦ if query.multiple then query.candidates else m ∷ []
              ]
              else p)
            ≤ 1
      split [] [] h = omega arith
      split [] (m ∷ rest) h = rw single (omega arith)
      split (x ∷ p) candidates h = h

single_pick :
    (options : ConsentCredentialOptions) (qid : Text) (ids : List Text)
    {query : ConsentQueryOptions}
    → find_consent_query options qid ≡ some query
    → check_pick options qid ids ≡ accepted
    → query.multiple ≡ false
    → length ids ≤ 1
unfolding check_pick
single_pick options qid ids e h single = elim (Bool-cases (is_empty ids)) [
  | inl z ↦ of_empty ids z
  | inr some_id ↦ ground arith
]
  where
    of_empty : (l : List Text) → is_empty l ≡ true → length l ≤ 1
    of_empty [] z = omega arith
    of_empty (x ∷ l) z = cc

-- For a query that does not set `multiple`, a pick that the check accepts gives at most one
-- presentation, where the dialog offers no credential twice.
pub picked_candidates-le_one :
    (options : ConsentCredentialOptions) (qid : Text) (ids : List Text)
    (query : ConsentQueryOptions)
    → find_consent_query options qid ≡ some query
    → check_pick options qid ids ≡ accepted
    → query.multiple ≡ false
    → HaveDistinctIds (query.candidates ++ query.non_matching)
    → length (picked_candidates query ids) ≤ 1
picked_candidates-le_one options qid ids query e h single d =
    candidates-le_one ids (single_pick options qid ids e h single) query single d
