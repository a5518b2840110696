-- ===== src/Consent/Apply/Picked.antt =====
-- What is picked for a query, by the ids that the user named and the credentials that are offered.
use eudi_dev.Base.{
  Text, text_eq, text_eq_iff, text_eq_refl, contains, lookup, Bool, true, false, some, List, [],
  ◌∷◌, ◌++◌, is_empty, keep_if, find_first, if◌then◌else◌, All, ◌≡◌, refl, ap, sym, ◌∙◌, subst, inl,
  inr, arith, Bool-cases, Option-cases,
}
use mathlib.Core.List.{Memᴰ}
use eudi_dev.Dcql.Match.{CredentialMatch}
use eudi_dev.Dcql.Options.{ConsentQueryOptions, ConsentCredentialOptions}
use eudi_dev.Dcql.Sets.Options.{All-self}
use eudi_dev.Consent.{find_consent_query, find_consent_candidate, picked_candidates}
use eudi_dev.Consent.Validate.{
  Verdict, accepted, refused, and_then, check_credentials, check_pick, check_picks,
}

-- The credentials that the dialog offers for a query.
abbrev pub offered_for : ConsentQueryOptions → List CredentialMatch
offered_for query = query.candidates ++ query.non_matching

contains_member : (ids : List Text) (id : Text) → Memᴰ id ids → contains ids id ≡ true
unfolding contains
contains_member [] id m = elim m [ ]
contains_member (x ∷ ids) id (Memᴰ.head e) = rw (e, text_eq_refl x) refl
contains_member (x ∷ ids) id (Memᴰ.tail m) = let later = contains_member ids id m in ground arith

keep_if-member :
    (t : CredentialMatch → Bool) (m : CredentialMatch) (ms : List CredentialMatch)
    → Memᴰ m ms
    → t m ≡ true
    → Memᴰ m (keep_if t ms)
keep_if-member t m [] i h = elim i [ ]
keep_if-member t m (x ∷ ms) (Memᴰ.head e) h =
    let same : t x ≡ true = ap t (sym e) ∙ h in rw same (Memᴰ.head e)
keep_if-member t m (x ∷ ms) (Memᴰ.tail i) h = elim (Bool-cases (t x)) [
  | inl e ↦ rw e (Memᴰ.tail (keep_if-member t m ms i h))
  | inr e ↦ rw e (keep_if-member t m ms i h)
]

some_member : (m : CredentialMatch) (ms : List CredentialMatch) → Memᴰ m ms → is_empty ms ≡ false
some_member m [] i = elim i [ ]
some_member m (x ∷ ms) i = refl

-- An offered credential whose id is named is picked.
pub picked_candidates-named :
    (query : ConsentQueryOptions) (ids : List Text) (m : CredentialMatch)
    → Memᴰ m (offered_for query)
    → Memᴰ m.credential_id ids
    → Memᴰ m (picked_candidates query ids)
unfolding picked_candidates
picked_candidates-named query ids m offered named =
    let kept =
      keep_if-member (λ n. contains ids n.credential_id) m (offered_for query) offered
        (contains_member ids m.credential_id named) in
    rw (some_member m _ kept) kept

All-keep :
    (t : CredentialMatch → Bool) (P : CredentialMatch → Type 0) (ms : List CredentialMatch)
    → All P ms
    → All P (keep_if t ms)
All-keep t P [] h = tt
All-keep t P (m ∷ ms) (p, h) = elim (Bool-cases (t m)) [
  | inl e ↦ rw e (p, All-keep t P ms h)
  | inr e ↦ rw e (All-keep t P ms h)
]

split-left :
    (P : CredentialMatch → Type 0) (xs ys : List CredentialMatch) → All P (xs ++ ys) → All P xs
split-left P [] ys h = tt
split-left P (x ∷ xs) ys (p, h) = (p, split-left P xs ys h)

-- A credential that the dialog offers for a query.
abbrev pub IsOffered : ConsentQueryOptions → CredentialMatch → Type 0
IsOffered query m = Memᴰ m (offered_for query)

-- What is picked is offered.
pub picked_candidates-IsOffered :
    (query : ConsentQueryOptions) (ids : List Text)
    → All (IsOffered query) (picked_candidates query ids)
unfolding picked_candidates
picked_candidates-IsOffered query ids =
    split (keep_if (λ m. contains ids m.credential_id) (offered_for query)) query.candidates
      (All-keep (λ m. contains ids m.credential_id) (IsOffered query) (offered_for query) every)
      (split-left (IsOffered query) query.candidates query.non_matching every)
  where
    every : All (IsOffered query) (offered_for query)
    every = All-self (offered_for query)

    split :
        (kept candidates : List CredentialMatch)
        → All (IsOffered query) kept
        → All (IsOffered query) candidates
        → All (IsOffered query) (
            if is_empty kept
            then elim candidates [
              | [] ↦ []
              | m ∷ rest ↦ if query.multiple then query.candidates else m ∷ []
            ]
            else kept)
    split [] [] h k = tt
    split [] (m ∷ rest) h (p, k) = elim (Bool-cases query.multiple) [
      | inl e ↦ rw e (split-left (IsOffered query) query.candidates query.non_matching every)
      | inr e ↦ rw e (p, tt)
    ]
    split (x ∷ kept) candidates h k = h

find_first-member :
    (t : CredentialMatch → Bool) (ms : List CredentialMatch) {m : CredentialMatch}
    → find_first t ms ≡ some m
    → Memᴰ m ms × (t m ≡ true)
find_first-member t [] h = absurd (cc)
find_first-member t (x ∷ ms) {m} h = elim (Bool-cases (t x)) [
  | inl e ↦
      let here : some x ≡ some m = (rw e at h) in
      let same : m ≡ x = cc in (Memᴰ.head same, ap t same ∙ e)
  | inr e ↦ let (i, k) = find_first-member t ms {m = m} (rw e at h) in (Memᴰ.tail i, k)
]

-- The credential with an id, among those that are offered.
abbrev pub HasOffer : ConsentQueryOptions → Text → Type 0
HasOffer query id = (m : CredentialMatch) × Memᴰ m (offered_for query) × (m.credential_id ≡ id)

append-left : (xs ys : List CredentialMatch) {m : CredentialMatch} → Memᴰ m xs → Memᴰ m (xs ++ ys)
append-left [] ys i = elim i [ ]
append-left (x ∷ xs) ys (Memᴰ.head e) = Memᴰ.head e
append-left (x ∷ xs) ys (Memᴰ.tail i) = Memᴰ.tail (append-left xs ys i)

append-right : (xs ys : List CredentialMatch) {m : CredentialMatch} → Memᴰ m ys → Memᴰ m (xs ++ ys)
append-right [] ys i = i
append-right (x ∷ xs) ys i = Memᴰ.tail (append-right xs ys i)

found-HasOffer :
    (query : ConsentQueryOptions) (id : Text) {m : CredentialMatch}
    → find_consent_candidate query id ≡ some m
    → HasOffer query id
unfolding find_consent_candidate
found-HasOffer query id {m} h =
    elim (Option-cases (find_first (λ n. text_eq n.credential_id id) query.candidates)) [
      | inr (n, e) ↦
          let (i, k) = find_first-member (λ n. text_eq n.credential_id id) query.candidates e in
          (
            n,
            append-left query.candidates query.non_matching i,
            (text_eq_iff n.credential_id id).0 k,
          )
      | inl e ↦
          let other : find_first (λ n. text_eq n.credential_id id) query.non_matching ≡ some m =
            (rw (e, find_consent_candidate) at h) in
          let (i, k) =
            find_first-member (λ n. text_eq n.credential_id id) query.non_matching other in
          (
            m,
            append-right query.candidates query.non_matching i,
            (text_eq_iff m.credential_id id).0 k,
          )
    ]

credentials-HasOffer :
    (query : ConsentQueryOptions) (seen ids : List Text)
    → check_credentials query seen ids ≡ accepted
    → All (HasOffer query) ids
unfolding check_credentials
credentials-HasOffer query seen [] h = tt
credentials-HasOffer query seen (id ∷ ids) h =
    elim (Option-cases (find_consent_candidate query id)) [
      | inl e ↦ absurd (ground arith)
      | inr (m, e) ↦
          (found-HasOffer query id e, credentials-HasOffer query (id ∷ seen) ids (ground arith))
    ]

pick-HasOffer :
    (options : ConsentCredentialOptions) (qid : Text) (ids : List Text)
    (query : ConsentQueryOptions)
    → find_consent_query options qid ≡ some query
    → check_pick options qid ids ≡ accepted
    → All (HasOffer query) ids
unfolding check_pick
pick-HasOffer options qid ids query e h = credentials-HasOffer query [] ids (ground arith)

-- The ids that the user named for a query, where the check accepts them, are those of offered
-- credentials.
pub checked-HasOffer :
    (options : ConsentCredentialOptions) (picks : List (Text × List Text)) (qid : Text)
    (ids : List Text) (query : ConsentQueryOptions)
    → check_picks options picks ≡ accepted
    → find_consent_query options qid ≡ some query
    → lookup qid picks ≡ some ids
    → All (HasOffer query) ids
unfolding check_picks lookup
checked-HasOffer options [] qid ids query h e f = absurd (cc)
checked-HasOffer options ((k, l) ∷ picks) qid ids query h e f =
    let (first, later) = both (check_pick options k l) h in
    elim (Bool-cases (text_eq k qid)) [
      | inl q ↦
          let same : k ≡ qid = (text_eq_iff k qid).0 q in
          let named : some l ≡ some ids = (rw q at f) in
          let these : l ≡ ids = cc in
          pick-HasOffer options qid ids query e (
            subst (λ x. check_pick options x ids ≡ accepted) same
              (subst (λ x. check_pick options k x ≡ accepted) these first))
      | inr q ↦ checked-HasOffer options picks qid ids query later e (rw q at f)
    ]
  where
    both : (a : Verdict) {b : Verdict} → and_then a b ≡ accepted → (a ≡ accepted) × (b ≡ accepted)
    both accepted h = (refl, h)
    both (refused x) h = cc
