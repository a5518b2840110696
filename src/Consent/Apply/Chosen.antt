-- ===== src/Consent/Apply/Chosen.antt =====
-- What the check of a selection gives: the options that are taken, and the queries that are answered.
use eudi_dev.Base.{
  ◌>>=◌, ℕ, suc, ℤ, pos, negsuc, eq_ℤ, Text, Bool, true, false, ◌&&◌, Option, none, some, List, [],
  ◌∷◌, ◌++◌, is_empty, get_elem?, ltb, length, if◌then◌else◌, All, ◌≡◌, ◌≢◌, refl, ap, ◌∙◌, inl,
  inr, arith, Option-cases, Bool-cases, subst, ◌==◌,
}
use eudi_dev.Dcql.Match.{CredentialMatch}
use eudi_dev.Dcql.Options.{ConsentSetOptions, ConsentQueryOptions, ConsentCredentialOptions}
use eudi_dev.Consent.{
  choice_of, later_choices, option_at, add_new, active_from, active_queries, find_consent_query,
  picks_for, picked_candidates,
}
use eudi_dev.Consent.Validate.{
  Verdict, accepted, refused, no_option, required_skipped, and_then, check_sets, check_picks,
  check_active, validate_with,
}
use eudi_dev.Consent.Apply.{taken_option, needed_from, picked_for}

-- One set: what the check and the selection do with a choice.
module _ (set : ConsentSetOptions) (sets : List ConsentSetOptions) (later : List ℤ) (i : ℕ)
    (ih : (answered : Bool) (ids : List Text)
      → check_sets (suc i) answered sets later ≡ accepted
      → needed_from ids sets later ≡ some (active_from ids sets later)) where
  taken :
      (ids : List Text) (o first : Option (List Text)) (c : ℤ)
      → (elim o [
        | none ↦ refused (no_option i c)
        | some chosen ↦ check_sets (suc i) true sets later
      ])
        ≡ accepted
      → ((elim o [ none ↦ first | some chosen ↦ some chosen ]) >>= λ chosen.
          needed_from (add_new ids chosen) sets later)
        ≡ some (active_from (elim o [ none ↦ ids | some chosen ↦ add_new ids chosen ]) sets later)
  taken ids none first c k = cc
  taken ids (some chosen) first c k = ih true (add_new ids chosen) k

  skipped :
      (answered : Bool) (ids : List Text) (optional : Bool) (first : Option (List Text))
      → (if optional then check_sets (suc i) answered sets later else refused (required_skipped i))
        ≡ accepted
      → ((if optional then some [] else first) >>= λ chosen.
          needed_from (add_new ids chosen) sets later)
        ≡ some (active_from ids sets later)
  unfolding add_new
  skipped answered ids true first k = ih answered ids k
  skipped answered ids false first k = cc

  step :
      (answered : Bool) (ids : List Text) (c : ℤ)
      → (if eq_ℤ c (negsuc 0)
          then (if set.optional
              then check_sets (suc i) answered sets later
              else refused (required_skipped i))
          else elim (option_at set c) [
            | none ↦ refused (no_option i c)
            | some chosen ↦ check_sets (suc i) true sets later
          ])
        ≡ accepted
      → (taken_option set c >>= λ chosen. needed_from (add_new ids chosen) sets later)
        ≡ some (
            active_from
              (elim (option_at set c) [ none ↦ ids | some chosen ↦ add_new ids chosen ])
              sets
              later)
  unfolding taken_option
  step answered ids (pos n) k =
      taken ids (get_elem? set.options n) (get_elem? set.options 0) (pos n) k
  step answered ids (negsuc n) k = negative (n == 0) set.optional k
    where
      negative :
          (first_negative optional : Bool)
          → (if first_negative
              then (if optional
                  then check_sets (suc i) answered sets later
                  else refused (required_skipped i))
              else refused (no_option i (negsuc n)))
            ≡ accepted
          → ((if first_negative && optional then some [] else get_elem? set.options 0) >>= λ chosen.
              needed_from (add_new ids chosen) sets later)
            ≡ some (active_from ids sets later)
      negative true true k = skipped answered ids true none k
      negative true false k = cc
      negative false optional k = cc

-- Choices that pass the check are the options that the selection takes.
pub needed-active :
    (i : ℕ) (answered : Bool) (ids : List Text) (sets : List ConsentSetOptions) (choices : List ℤ)
    → check_sets i answered sets choices ≡ accepted
    → needed_from ids sets choices ≡ some (active_from ids sets choices)
unfolding check_sets needed_from active_from
needed-active i answered ids [] choices h = refl
needed-active i answered ids (set ∷ sets) choices h =
    step set sets (later_choices choices) i
      (λ b ids. needed-active (suc i) b ids sets (later_choices choices)) answered ids
      (choice_of set choices) h

pub answered_by :
    (options : ConsentCredentialOptions) (picks : List (Text × List Text)) (qids : List Text)
    → check_active options picks qids ≡ accepted
    → All
        (λ qid.
          (query : ConsentQueryOptions)
          → find_consent_query options qid ≡ some query
          → picked_candidates query (picks_for qid picks) ≢ [])
        qids
unfolding check_active
answered_by options picks [] h = tt
answered_by options picks (qid ∷ qids) h = elim (Option-cases (find_consent_query options qid)) [
  | inl e ↦ ((λ query f. absurd (ground arith)), answered_by options picks qids (ground arith))
  | inr (found, e) ↦
      let (some_pick, later) = at_query e h in
      (
        (λ query f z.
            some_pick (ap (λ q. picked_candidates q (picks_for qid picks)) (same_query e f) ∙ z)),
        answered_by options picks qids later,
      )
]
  where
    same_query :
        {p q : ConsentQueryOptions}
        → find_consent_query options qid ≡ some p
        → find_consent_query options qid ≡ some q
        → p ≡ q
    same_query e f = ground arith

    at_query :
        {query : ConsentQueryOptions}
        → find_consent_query options qid ≡ some query
        → check_active options picks (qid ∷ qids) ≡ accepted
        → (picked_candidates query (picks_for qid picks) ≢ [])
          × (check_active options picks qids ≡ accepted)
    at_query e h = ground arith

-- What a checked selection gives.
pub accepted_parts :
    (options : ConsentCredentialOptions) (picks : List (Text × List Text)) (choices : List ℤ)
    (claim_sets : List (Text × ℤ))
    → validate_with options picks choices claim_sets ≡ accepted
    → (check_sets 0 (is_empty options.sets) options.sets choices ≡ accepted)
      × (check_picks options picks ≡ accepted)
      × (check_active options picks (active_queries options choices) ≡ accepted)
unfolding validate_with
accepted_parts options picks choices claim_sets h =
    elim (Bool-cases (ltb (length options.sets) (length choices))) [
      | inl many ↦ absurd (ground arith)
      | inr few ↦
          let (sets, h1) =
            both (check_sets 0 (is_empty options.sets) options.sets choices) (rw few at h) in
          let (picked, h2) = both (check_picks options picks) h1 in
          let (active, h3) =
            both (check_active options picks (active_queries options choices)) h2 in
          (sets, picked, active)
    ]
  where
    both : (a : Verdict) {b : Verdict} → and_then a b ≡ accepted → (a ≡ accepted) × (b ≡ accepted)
    both accepted h = (refl, h)
    both (refused e) h = cc

split-All :
    (P : CredentialMatch → Type 0) (xs ys : List CredentialMatch)
    → All P (xs ++ ys)
    → All P xs × All P ys
split-All P [] ys h = (tt, h)
split-All P (x ∷ xs) ys (p, h) = let (l, r) = split-All P xs ys h in ((p, l), r)

pub picked_for-All :
    (P : CredentialMatch → Type 0) (options : ConsentCredentialOptions)
    (picks : List (Text × List Text)) (qids : List Text)
    → All P (picked_for options picks qids)
    → All
        (λ qid.
          (query : ConsentQueryOptions)
          → find_consent_query options qid ≡ some query
          → All P (picked_candidates query (picks_for qid picks)))
        qids
unfolding picked_for
picked_for-All P options picks [] h = tt
picked_for-All P options picks (qid ∷ qids) h =
    elim (Option-cases (find_consent_query options qid)) [
      | inl e ↦ (
        (λ query f. absurd (ground arith)),
        picked_for-All P options picks qids (subst (All P) (passed e) h),
      )
      | inr (found, e) ↦
          let (here, later) =
            split-All P (picked_candidates found (picks_for qid picks))
              (picked_for options picks qids) (subst (All P) (taken_here e) h) in
          (
            (λ query f.
                subst (λ q. All P (picked_candidates q (picks_for qid picks))) (same_query e f)
                  here),
            picked_for-All P options picks qids later,
          )
    ]
  where
    same_query :
        {p q : ConsentQueryOptions}
        → find_consent_query options qid ≡ some p
        → find_consent_query options qid ≡ some q
        → p ≡ q
    same_query e f = ground arith

    passed :
        find_consent_query options qid ≡ none
        → picked_for options picks (qid ∷ qids) ≡ picked_for options picks qids
    passed e = ground arith

    taken_here :
        {query : ConsentQueryOptions}
        → find_consent_query options qid ≡ some query
        → picked_for options picks (qid ∷ qids)
          ≡ picked_candidates query (picks_for qid picks) ++ picked_for options picks qids
    taken_here e = ground arith
