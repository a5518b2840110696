-- ===== src/Deferred/Poller.antt =====
-- internal/wallet/deferred_poller.go: the attempts to collect a deferred credential.
use eudi_dev.Base.{
  ◌>>=◌, ℕ, suc, ◌/◌, ℤ, pos, negsuc, Text, codes, text_eq, contains, Bool, true, not, ◌&&◌, ◌||◌,
  Option, none, some, List, [], ◌∷◌, ◌++◌, any, is_empty, keep_if, find_first, if◌then◌else◌, ltb,
  leb,
}
use eudi_dev.Credential.Resolve.{has_prefix}
use eudi_dev.Deferred.{
  DeferredIssuance, second, add_time, interval, is_expired, access_token_expired, can_refresh,
  remove_deferred_issuance, update_deferred_issuance,
}

-- The deferred issuances of the wallet, the ids that are being collected, and the ids whose credential
-- was imported, in the order of their import.
pub record Poller : Type 0 where
  pub issuances : List DeferredIssuance
  pub in_flight : List Text
  pub imported : List Text

-- The error of a request to the issuer: its message, and for a `stillPendingError` the interval.
pub record AttemptError : Type 0 where
  pub message : Text
  pub still_pending : Option ℤ

-- `accessGrant`, with the time at which the access token expires.
pub record AccessGrant : Type 0 where
  pub access_token : Text
  pub auth_scheme : Text
  pub refresh_token : Text
  pub expires_at : ℕ

-- What the issuer, its metadata and the key store answer, and the clock. `none` is no error. The
-- second request to the issuer is the one after a refusal.
pub record Issuer : Type 0 where
  pub proof_keys : DeferredIssuance → Option Text
  pub refresh_access_token : DeferredIssuance → Option AccessGrant × Option Text
  pub read_metadata : DeferredIssuance → Option Text
  pub check_issuer : DeferredIssuance → Option Text
  pub encryption : DeferredIssuance → Option Text
  pub request : DeferredIssuance → Option AttemptError
  pub second_request : DeferredIssuance → Option AttemptError
  pub store : DeferredIssuance → Option Text
  pub clock : DeferredIssuance → ℕ

-- `DeferredAttempt`, by its kind.
pub data DeferredAttempt : Type 0 where
  collected already_running : DeferredAttempt
  still_waiting : ℕ → Text → DeferredAttempt
  abandoned : Text → DeferredAttempt

-- `strings.Contains`.
unfoldable pub has_substring : Text → Text → Bool
has_substring [] part = is_empty part
has_substring (c ∷ cs) part = if has_prefix (c ∷ cs) part then true else has_substring cs part

-- `isAuthorizationRejected`.
unfoldable pub is_authorization_rejected : Text → Bool
is_authorization_rejected message =
    has_substring message (codes "HTTP 401")
    || has_substring message (codes "HTTP 403")
    || has_substring message (codes "invalid_token")

abbrev pub fatal_errors : List Text
fatal_errors =
    codes "invalid_token"
    ∷ codes "invalid_grant"
    ∷ codes "invalid_transaction_id"
    ∷ codes "invalid_request"
    ∷ codes "invalid_client"
    ∷ codes "expired"
    ∷ codes "HTTP 401"
    ∷ codes "HTTP 403"
    ∷ []

-- `isRetryableDeferredError`.
unfoldable pub is_retryable_deferred_error : Text → Bool
is_retryable_deferred_error message = not (any (λ fatal. has_substring message fatal) fatal_errors)

-- `seconds := int(interval / time.Second); seconds >= 1`, and the interval otherwise.
abbrev pub interval_after : ℤ → ℤ → ℤ
interval_after (pos n) old = if leb 1 (n / second) then pos (n / second) else old
interval_after (negsuc n) old = old

-- What `rescheduleDeferred` does to the record.
unfoldable pub rescheduled : ℕ → ℤ → Text → DeferredIssuance → DeferredIssuance
rescheduled next delay last_error p = record p {
  attempts = suc p.attempts;
  next_attempt_at = next;
  last_error = last_error;
  interval_seconds = interval_after delay p.interval_seconds;
}

abbrev pub with_issuances : Poller → List DeferredIssuance → Poller
with_issuances s issuances = record s { issuances = issuances }

-- `rescheduleDeferred`.
unfoldable pub reschedule_deferred :
    Issuer → DeferredIssuance → ℤ → Text → Poller → Poller × DeferredAttempt
reschedule_deferred env p delay last_error s =
    let next = add_time (env.clock p) delay in
    (
      with_issuances s
          (update_deferred_issuance p.id (rescheduled next delay last_error) s.issuances),
      still_waiting next last_error,
    )

-- `abandonDeferred`.
unfoldable pub abandon_deferred : DeferredIssuance → Text → Poller → Poller × DeferredAttempt
abandon_deferred p reason s =
    (with_issuances s (remove_deferred_issuance p.id s.issuances), abandoned reason)

-- `handleDeferredAttemptError`.
unfoldable pub handle_deferred_attempt_error :
    Issuer → DeferredIssuance → AttemptError → Poller → Poller × DeferredAttempt
handle_deferred_attempt_error env p err s = elim err.still_pending [
  | some delay ↦ reschedule_deferred env p delay [] s
  | none ↦
      if is_retryable_deferred_error err.message
      then reschedule_deferred env p (interval p) err.message s
      else abandon_deferred p err.message s
]

-- The record with the refresh token of the grant, and with its access token where nothing failed.
unfoldable pub refreshed : AccessGrant → Option Text → DeferredIssuance → DeferredIssuance
refreshed grant err p =
    let kept = record p {
      refresh_token = if is_empty grant.refresh_token then p.refresh_token else grant.refresh_token;
    } in
    elim err [
      | some e ↦ kept
      | none ↦ record kept {
        access_token = grant.access_token;
        auth_scheme = grant.auth_scheme;
        access_token_expires_at = grant.expires_at;
      }
    ]

-- The tokens of a record, written to the stored one.
abbrev pub with_tokens : DeferredIssuance → DeferredIssuance → DeferredIssuance
with_tokens updated p = record p {
  access_token = updated.access_token;
  auth_scheme = updated.auth_scheme;
  refresh_token = updated.refresh_token;
  access_token_expires_at = updated.access_token_expires_at;
}

-- `refreshDeferredAccessToken`: the record and the error.
unfoldable pub refresh_deferred_access_token :
    Issuer → DeferredIssuance → Poller → Poller × DeferredIssuance × Option Text
refresh_deferred_access_token env p s =
    let (grant, err) = env.refresh_access_token p in
    elim grant [
      | none ↦ (s, p, err)
      | some g ↦
          let updated = refreshed g err p in
          (
            with_issuances s
                (update_deferred_issuance updated.id (with_tokens updated) s.issuances),
            updated,
            err,
          )
    ]

-- What follows the answer of the issuer.
unfoldable pub finish_collection :
    Issuer → DeferredIssuance → Option AttemptError → Poller → Poller × DeferredAttempt
finish_collection env p (some err) s = handle_deferred_attempt_error env p err s
finish_collection env p none s = elim (env.store p) [
  | some reason ↦ abandon_deferred p reason s
  | none ↦ (
    record s {
      issuances = remove_deferred_issuance p.id s.issuances;
      imported = s.imported ++ p.id ∷ [];
    },
    collected,
  )
]

-- The request, and the one retry of an issuer that refuses the authorization.
unfoldable pub ask_issuer : Issuer → DeferredIssuance → Poller → Poller × DeferredAttempt
ask_issuer env p s = elim (env.request p) [
  | none ↦ finish_collection env p none s
  | some err ↦
      let (after, renewed, failed) = refresh_deferred_access_token env p s in
      if is_authorization_rejected err.message && can_refresh p
      then elim failed [
        | none ↦ finish_collection env renewed (env.second_request renewed) after
        | some e ↦ finish_collection env p (some err) after
      ]
      else finish_collection env p (some err) s
]

-- The checks before the request.
unfoldable pub collect_with_token : Issuer → DeferredIssuance → Poller → Poller × DeferredAttempt
collect_with_token env p s = elim (env.read_metadata p) [
  | some err ↦
      reschedule_deferred env p (interval p) (codes "the issuer metadata can't be used: " ++ err) s
  | none ↦ elim (env.check_issuer p) [
    | some err ↦ abandon_deferred p err s
    | none ↦ elim (env.encryption p) [
      | some err ↦ reschedule_deferred env p (interval p) err s
      | none ↦ ask_issuer env p s
    ]
  ]
]

-- The collection of a record that this call has claimed.
unfoldable pub collect_claimed : Issuer → DeferredIssuance → Poller → Poller × DeferredAttempt
collect_claimed env p s = elim (env.proof_keys p) [
  | some err ↦ abandon_deferred p (codes "its proof keys could not be read back: " ++ err) s
  | none ↦
      let (after, renewed, failed) = refresh_deferred_access_token env p s in
      if access_token_expired (env.clock p) p && can_refresh p
      then elim failed [
        | some err ↦
            abandon_deferred p (codes "its access token expired and could not be renewed: " ++ err)
              after
        | none ↦ collect_with_token env renewed after
      ]
      else collect_with_token env p s
]

-- `attemptDeferredCollection`, with `beginDeferredCollection` and `endDeferredCollection`.
unfoldable pub attempt_deferred_collection :
    Issuer → DeferredIssuance → Poller → Poller × DeferredAttempt
attempt_deferred_collection env p s =
    if contains s.in_flight p.id
    then (s, already_running)
    else let (after, attempt) =
        collect_claimed env p (record s { in_flight = p.id ∷ s.in_flight }) in
      (record after { in_flight = keep_if (λ id. not (text_eq id p.id)) after.in_flight }, attempt)

-- The body of the loop of `collectDueDeferredCredentials`.
unfoldable pub collect_due : Issuer → ℕ → DeferredIssuance → Poller → Poller
collect_due env now p s =
    if ltb now p.next_attempt_at
    then s
    else if is_expired now p
    then (abandon_deferred p (codes "the issuer did not produce it within 24h0m0s") s).0
    else (attempt_deferred_collection env p s).0

unfoldable pub collect_each : Issuer → ℕ → List DeferredIssuance → Poller → Poller
collect_each env now [] s = s
collect_each env now (p ∷ ps) s = collect_each env now ps (collect_due env now p s)

-- `collectDueDeferredCredentials`, which goes through the list as it is at the start.
unfoldable pub collect_due_deferred_credentials : Issuer → ℕ → Poller → Poller
collect_due_deferred_credentials env now s = collect_each env now s.issuances s

-- The loops that look for a record by its id in the list.
unfoldable pub find_deferred : Text → List DeferredIssuance → Option DeferredIssuance
find_deferred id ps = find_first (λ p. text_eq p.id id) ps

-- `CollectDeferredNow`; `none` where there is no such record.
unfoldable pub collect_deferred_now : Issuer → Text → Poller → Option (Poller × DeferredAttempt)
collect_deferred_now env id s =
    find_deferred id s.issuances >>= λ p. some (attempt_deferred_collection env p s)

-- `AbandonDeferredNow`; `none` where there is no such record.
unfoldable pub abandon_deferred_now : Text → Poller → Option (Poller × DeferredIssuance)
abandon_deferred_now id s = find_deferred id s.issuances >>= λ p.
    some (with_issuances s (remove_deferred_issuance p.id s.issuances), p)
