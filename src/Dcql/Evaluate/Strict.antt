-- ===== src/Dcql/Evaluate/Strict.antt =====
-- What strict mode guarantees of every credential in an answer.
use eudi_dev.Base.{
  Text, contains, Bool, true, false, Option, some, List, [], ◌∷◌, is_empty, if◌then◌else◌, All,
  All-append, All-keep_if, ◌≡◌, ◌⊎◌, refl, sym, arith, Option-cases, inl, inr, subst,
}
use mathlib.Core.List.{Memᴰ}
use eudi_dev.Base.Sort.{All-stable_sort}
use eudi_dev.Credential.{StoredCredential}
use eudi_dev.Dcql.Value.{Value, as_object}
use eudi_dev.Dcql.Claims.{Object}
use eudi_dev.Dcql.Match.{
  strict, CredentialMatch, Reader, Outcome, skipped, matched, offered, match_credential,
  match_credentials, match_queries,
}
use eudi_dev.Dcql.Match.Strict.{IsConforming, answer, match_credential-strict_iff}
use eudi_dev.Dcql.Order.{
  sort_newest_first, sort_by_preferred_format, sort_trusted_first, sort_complete_first,
}
use eudi_dev.Dcql.Batch.Laws.{All-collapse}
use eudi_dev.Dcql.Sets.{
  multiple_queries, keep_one_presentation_per_query, apply_credential_sets, needed_queries,
  unmatched_credential_queries,
}
use eudi_dev.Dcql.Sets.Laws.{All-keep_one}
use eudi_dev.Dcql.Findings.{dcql_query_findings}
use eudi_dev.Dcql.Options.{ConsentCredentialOptions}
use eudi_dev.Dcql.Evaluate.{
  answered, Wallet, has_list_findings, order_matches, candidates, selection,
  evaluate_dcql_with_options,
}
use eudi_dev.Dcql.Evaluate.Laws.{queries_of, sets_of, answered_selection}

-- A match that strict mode made: of a query of the request and a stored credential that conforms to
-- it.
pub record IsAnswerOf (w : Wallet) (queries : List Value) (m : CredentialMatch) : Type 0 where
  pub entry : Value
  pub query : Object
  pub credential : StoredCredential
  pub requested : Memᴰ entry queries
  pub is_object : as_object entry ≡ some query
  pub stored : Memᴰ credential w.credentials
  pub conforming : IsConforming w.reader query credential
  pub complete : m ≡ answer w.reader query credential

Outcome-cases :
    (o : Outcome)
    → ((o ≡ skipped) ⊎ ((m : CredentialMatch) × (o ≡ offered m)))
      ⊎ ((m : CredentialMatch) × (o ≡ matched m))
Outcome-cases skipped = inl (inl refl)
Outcome-cases (offered m) = inl (inr (m, refl))
Outcome-cases (matched m) = inr (m, refl)

-- The matches of one query.
credentials-answers :
    (r : Reader) (P : CredentialMatch → Type 0) (query : Object) (creds : List StoredCredential)
    → ((cred : StoredCredential) (m : CredentialMatch)
        → Memᴰ cred creds
        → match_credential r strict query cred ≡ matched m
        → P m)
    → All P (match_credentials r strict query creds).0
unfolding match_credentials
credentials-answers r P query [] f = tt
credentials-answers r P query (cred ∷ creds) f =
    let later = credentials-answers r P query creds (λ c m mem e. f c m (Memᴰ.tail mem) e) in
    elim (Outcome-cases (match_credential r strict query cred)) [
      | inl (inl e) ↦ rw (e, match_credentials) later
      | inl (inr (m, e)) ↦ rw (e, match_credentials) later
      | inr (m, e) ↦ rw (e, match_credentials) (f cred m (Memᴰ.head refl) e, later)
    ]

queries-answers :
    (r : Reader) (P : CredentialMatch → Type 0) (cqs : List Value) (creds : List StoredCredential)
    → ((entry : Value) (query : Object) (cred : StoredCredential) (m : CredentialMatch)
        → Memᴰ entry cqs
        → as_object entry ≡ some query
        → Memᴰ cred creds
        → match_credential r strict query cred ≡ matched m
        → P m)
    → All P (match_queries r strict cqs creds).0
unfolding match_queries
queries-answers r P [] creds f = tt
queries-answers r P (cq ∷ cqs) creds f =
    let later =
      queries-answers r P cqs creds
        (λ entry query c m in_queries. f entry query c m (Memᴰ.tail in_queries)) in
    elim (Option-cases (as_object cq)) [
      | inl e ↦ rw (e, match_queries) later
      | inr (query, e) ↦
          rw (e, match_queries)
            (All-append P (match_credentials r strict query creds).0
              (match_queries r strict cqs creds).0
              (credentials-answers r P query creds (λ c m. f cq query c m (Memᴰ.head refl) e))
              later)
    ]

All-order :
    (w : Wallet) (P : CredentialMatch → Type 0) (ms : List CredentialMatch)
    → All P ms
    → All P (order_matches w ms)
unfolding order_matches sort_newest_first sort_by_preferred_format sort_trusted_first
    sort_complete_first
All-order w P ms h = All-stable_sort P _ _ (All-stable_sort P _ _ preferred)
  where
    newest : All P (sort_newest_first w.issued_at w.credentials ms)
    newest = All-stable_sort P _ ms h

    preferred : All P (
        if is_empty w.preferred_format
        then sort_newest_first w.issued_at w.credentials ms
        else sort_by_preferred_format w.preferred_format
            (sort_newest_first w.issued_at w.credentials ms))
    preferred =
        elim (is_empty w.preferred_format)
          as (λ b. All P (
            if b
            then sort_newest_first w.issued_at w.credentials ms
            else sort_by_preferred_format w.preferred_format
                (sort_newest_first w.issued_at w.credentials ms))) [
                  | true ↦ newest
                  | false ↦ All-stable_sort P _ _ newest
                ]

All-apply_sets :
    (P : CredentialMatch → Type 0) (ms : List CredentialMatch) (sets : List Value)
    (preferred : Text)
    → All P ms
    → All P (apply_credential_sets ms sets preferred)
unfolding apply_credential_sets
All-apply_sets P ms sets preferred h = elim (Option-cases (needed_queries ms preferred sets)) [
  | inl e ↦ rw (e, apply_credential_sets) tt
  | inr (needed, e) ↦
      rw (e, apply_credential_sets) (All-keep_if P (λ m. contains needed m.query_id) ms h)
]

-- What holds of every match holds of every credential that is presented.
All-selection :
    (w : Wallet) (P : CredentialMatch → Type 0) (queries sets : List Value)
    → All P (match_queries w.reader w.mode queries w.credentials).0
    → All P (selection w queries sets)
unfolding selection candidates
All-selection w P queries sets h =
    split (is_empty sets) (is_empty (unmatched_credential_queries queries kept))
  where
    kept : List CredentialMatch
    kept = keep_one_presentation_per_query (candidates w queries) (multiple_queries queries)

    kept_all : All P kept
    kept_all =
        All-keep_one P (multiple_queries queries) (candidates w queries)
          (All-order w P _ (All-collapse P w.credentials w.pick _ h))

    split :
        (none_set complete : Bool)
        → All P (
            if none_set
            then (if complete then kept else [])
            else apply_credential_sets kept sets w.preferred_format)
    split true true = kept_all
    split true false = tt
    split false complete = All-apply_sets P kept sets w.preferred_format kept_all

strict_checks :
    (w : Wallet) (query : Object) (ms : List CredentialMatch) (o : Option ConsentCredentialOptions)
    → w.mode ≡ strict
    → evaluate_dcql_with_options w query ≡ answered ms o
    → (is_empty (dcql_query_findings (some query)) ≡ true)
      × (has_list_findings w (queries_of query) ≡ false)
unfolding evaluate_dcql_with_options
strict_checks w query ms o s e = ground arith

-- In strict mode an answer exists only for a query without findings and with usable trusted lists,
-- and every credential in it is a stored credential that conforms to a query of the request, neither
-- flagged nor partial.
pub evaluate-strict :
    (w : Wallet) (query : Object) (ms : List CredentialMatch) (o : Option ConsentCredentialOptions)
    → w.mode ≡ strict
    → evaluate_dcql_with_options w query ≡ answered ms o
    → (is_empty (dcql_query_findings (some query)) ≡ true)
      × (has_list_findings w (queries_of query) ≡ false)
      × All (IsAnswerOf w (queries_of query)) ms
evaluate-strict w query ms o s e =
    let (valid, usable) = strict_checks w query ms o s e in
    (
      valid,
      usable,
      rw (answered_selection w query ms o e) (
          All-selection w (IsAnswerOf w (queries_of query)) (queries_of query) (sets_of query) (
            subst
              (λ mode.
                All (IsAnswerOf w (queries_of query))
                  (match_queries w.reader mode (queries_of query) w.credentials).0)
              (sym s)
              (queries-answers w.reader (IsAnswerOf w (queries_of query)) (queries_of query)
                w.credentials conforms))),
    )
  where
    conforms :
        (entry : Value) (cq : Object) (cred : StoredCredential) (m : CredentialMatch)
        → Memᴰ entry (queries_of query)
        → as_object entry ≡ some cq
        → Memᴰ cred w.credentials
        → match_credential w.reader strict cq cred ≡ matched m
        → IsAnswerOf w (queries_of query) m
    conforms entry cq cred m in_queries is_object in_wallet matches =
        let (conforming, complete) = (match_credential-strict_iff w.reader cq cred m).0.0 matches in
        record {
          entry = entry;
          query = cq;
          credential = cred;
          requested = in_queries;
          is_object = is_object;
          stored = in_wallet;
          conforming = conforming;
          complete = complete;
        }
