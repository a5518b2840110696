-- ===== src/Consent/Validate/Debug.antt =====
-- A selection that needs no debug mode presents matching credentials only.
use eudi_dev.Base.{
  ℤ, Text, text_eq, text_eq_iff, contains, lookup, Bool, true, false, some, List, [], ◌∷◌, ◌++◌,
  is_empty, any, keep_if, if◌then◌else◌, All, ◌≡◌, refl, ap, ◌∙◌, inl, inr, arith, Bool-cases,
}
use mathlib.Core.List.{Memᴰ}
use eudi_dev.Dcql.Match.{CredentialMatch}
use eudi_dev.Dcql.Sets.Options.{All-self, All-map}
use eudi_dev.Dcql.Options.{ConsentQueryOptions, ConsentCredentialOptions}
use eudi_dev.Consent.{find_consent_query, picks_for, picked_candidates}
use eudi_dev.Consent.Validate.{picks_non_matching, debug_only_selection}

abbrev has_id : Text → List CredentialMatch → Bool
has_id id ms = any (λ m. text_eq m.credential_id id) ms

-- A credential that no pick names is not picked.
not_listed :
    (m : CredentialMatch) (ids : List Text) (ms : List CredentialMatch)
    → any (λ id. has_id id (m ∷ ms)) ids ≡ false
    → (contains ids m.credential_id ≡ false) × (any (λ id. has_id id ms) ids ≡ false)
unfolding contains
not_listed m [] ms h = (refl, refl)
not_listed m (id ∷ ids) ms h =
    ground
      (arith, not_listed m ids ms, text_eq_iff m.credential_id id, text_eq_iff id m.credential_id)

none_picked :
    (ids : List Text) (ms : List CredentialMatch)
    → any (λ id. has_id id ms) ids ≡ false
    → keep_if (λ m. contains ids m.credential_id) ms ≡ []
none_picked ids [] h = refl
none_picked ids (m ∷ ms) h =
    let (absent, rest) = not_listed m ids ms h in rw absent (none_picked ids ms rest)

picked_of_matching :
    (ids : List Text) (ms others : List CredentialMatch)
    → keep_if (λ m. contains ids m.credential_id) others ≡ []
    → All (λ m. Memᴰ m ms) (keep_if (λ m. contains ids m.credential_id) (ms ++ others))
picked_of_matching ids [] others h = rw h tt
picked_of_matching ids (m ∷ ms) others h =
    let later =
      All-map (λ n. Memᴰ n ms) (λ n. Memᴰ n (m ∷ ms)) (λ n i. Memᴰ.tail i)
        (keep_if (λ n. contains ids n.credential_id) (ms ++ others))
        (picked_of_matching ids ms others h) in
    elim (Bool-cases (contains ids m.credential_id)) [
      | inl e ↦ rw e (Memᴰ.head refl, later)
      | inr e ↦ rw e later
    ]

candidates_only :
    (query : ConsentQueryOptions) (ids : List Text)
    → any (λ id. has_id id query.non_matching) ids ≡ false
    → All (λ m. Memᴰ m query.candidates) (picked_candidates query ids)
unfolding picked_candidates
candidates_only query ids h =
    split (keep_if (λ m. contains ids m.credential_id) (query.candidates ++ query.non_matching))
      query.candidates
      (picked_of_matching ids query.candidates query.non_matching
        (none_picked ids query.non_matching h))
      (All-self query.candidates)
  where
    split :
        (p c : List CredentialMatch)
        → All (λ m. Memᴰ m query.candidates) p
        → All (λ m. Memᴰ m query.candidates) c
        → All
            (λ m. Memᴰ m query.candidates)
            (if is_empty p
              then elim c [
                | [] ↦ []
                | m ∷ rest ↦ if query.multiple then query.candidates else m ∷ []
              ]
              else p)
    split [] [] a b = tt
    split [] (m ∷ rest) a (b, bs) =
        elim query.multiple
          as (λ t. All (λ m. Memᴰ m query.candidates) (if t then query.candidates else m ∷ [])) [
            | true ↦ All-self query.candidates
            | false ↦ (b, tt)
          ]
    split (x ∷ p) c a b = a

named_only :
    (options : ConsentCredentialOptions) (picks : List (Text × List Text)) (qid : Text)
    (query : ConsentQueryOptions)
    → picks_non_matching options picks ≡ false
    → find_consent_query options qid ≡ some query
    → any (λ id. has_id id query.non_matching) (picks_for qid picks) ≡ false
unfolding picks_non_matching lookup
named_only options [] qid query h e = refl
named_only options ((q, ids) ∷ picks) qid query h e = elim (Bool-cases (text_eq q qid)) [
  | inl same ↦ here same ((text_eq_iff q qid).0 same) h
  | inr other ↦
      ap (λ l. any (λ id. has_id id query.non_matching) l) (past other)
      ∙ named_only options picks qid query (later h) e
]
  where
    later :
        picks_non_matching options ((q, ids) ∷ picks) ≡ false
        → picks_non_matching options picks ≡ false
    later k = ground arith

    past : text_eq q qid ≡ false → picks_for qid ((q, ids) ∷ picks) ≡ picks_for qid picks
    past other = rw (other, picks_for) refl

    at_head : text_eq q qid ≡ true → picks_for qid ((q, ids) ∷ picks) ≡ ids
    at_head same = rw (same, picks_for) refl

    here :
        text_eq q qid ≡ true
        → q ≡ qid
        → picks_non_matching options ((q, ids) ∷ picks) ≡ false
        → any (λ id. has_id id query.non_matching) (picks_for qid ((q, ids) ∷ picks)) ≡ false
    here same is k =
        ap (λ l. any (λ id. has_id id query.non_matching) l) (at_head same)
        ∙ (at_query (ap (find_consent_query options) is ∙ e) k)
      where
        at_query :
            find_consent_query options q ≡ some query
            → picks_non_matching options ((q, ids) ∷ picks) ≡ false
            → any (λ id. has_id id query.non_matching) ids ≡ false
        at_query f k = ground arith

not_debug :
    (options : ConsentCredentialOptions) (picks : List (Text × List Text))
    (claim_sets : List (Text × ℤ))
    → debug_only_selection (some options) picks claim_sets ≡ false
    → picks_non_matching options picks ≡ false
unfolding debug_only_selection
not_debug options picks claim_sets h = ground arith

-- Where the selection is not one that only debug mode offers, the credentials picked for a query of the
-- dialog are all among those that match it.
pub picked_candidates-matching :
    (options : ConsentCredentialOptions) (picks : List (Text × List Text))
    (claim_sets : List (Text × ℤ)) (qid : Text) (query : ConsentQueryOptions)
    → debug_only_selection (some options) picks claim_sets ≡ false
    → find_consent_query options qid ≡ some query
    → All (λ m. Memᴰ m query.candidates) (picked_candidates query (picks_for qid picks))
picked_candidates-matching options picks claim_sets qid query h e =
    candidates_only query (picks_for qid picks)
      (named_only options picks qid query (not_debug options picks claim_sets h) e)
