-- ===== src/Deferred/Tests.antt =====
-- Runs of the collection, and the theorems at concrete inputs.
use eudi_dev.Base.{
  ℕ, pos, negsuc, Text, codes, text_eq, contains, false, none, some, [], ◌∷◌, All, ◌≡◌, refl,
  if◌then◌else◌,
}
use eudi_dev.Credential.Resolve.{has_prefix}
use eudi_dev.Deferred.{
  DeferredIssuance, interval, is_expired, access_token_expired, can_refresh, add_deferred_issuance,
  remove_deferred_issuance, update_deferred_issuance,
}
use eudi_dev.Deferred.Poller.{
  Poller, Issuer, has_substring, is_authorization_rejected, is_retryable_deferred_error,
  rescheduled, reschedule_deferred, abandon_deferred, handle_deferred_attempt_error, refreshed,
  refresh_deferred_access_token, finish_collection, ask_issuer, collect_with_token, collect_claimed,
  attempt_deferred_collection, collect_due, collect_each, collect_due_deferred_credentials,
}
use eudi_dev.Deferred.Settled.{IsSettled}
use eudi_dev.Deferred.Sweep.{
  HaveDistinctRecords, each_alone, IsGivenUp, IsLive, collect_due_deferred-each_alone,
  collect_due_deferred-IsLive,
}

everything : Unit {0}
unfolding text_eq contains has_prefix interval is_expired access_token_expired can_refresh
    add_deferred_issuance remove_deferred_issuance update_deferred_issuance has_substring
    is_authorization_rejected is_retryable_deferred_error rescheduled reschedule_deferred
    abandon_deferred handle_deferred_attempt_error refreshed refresh_deferred_access_token
    finish_collection ask_issuer collect_with_token collect_claimed attempt_deferred_collection
    collect_due collect_each collect_due_deferred_credentials
everything = tt

abbrev record_of : Text → ℕ → ℕ → DeferredIssuance
record_of id created next = record {
  id = id;
  transaction_id = codes "tx";
  issuer = codes "https://issuer.example";
  configuration_id = codes "pid";
  token_endpoint = codes "https://issuer.example/token";
  refresh_token = codes "r0";
  access_token = codes "a0";
  auth_scheme = codes "Bearer";
  access_token_expires_at = 0;
  interval_seconds = pos 5;
  created_at = created;
  next_attempt_at = next;
  attempts = 0;
  last_error = [];
}

-- The issuer answers `ready` with a credential and the others with an interval of a minute. It first
-- refuses the access token of `stale`, and takes the refreshed one.
abbrev issuer : Issuer
unfolding everything
issuer = record {
  proof_keys = λ p. none;
  refresh_access_token = λ p. (
    some (record {
      access_token = codes "a1";
      auth_scheme = codes "Bearer";
      refresh_token = codes "r1";
      expires_at = 90;
    }),
    none,
  );
  read_metadata = λ p. none;
  check_issuer = λ p. none;
  encryption = λ p. none;
  request = λ p.
      if text_eq p.id (codes "ready")
      then none
      else if text_eq p.id (codes "stale")
      then some (record { message = codes "HTTP 401"; still_pending = none })
      else some (record { message = codes "not ready"; still_pending = some (pos 60000000000) });
  second_request =
      λ p. some (record { message = codes "not ready"; still_pending = some (pos 60000000000) });
  store = λ p. none;
  clock = λ p. 100;
}

abbrev now : ℕ
now = 86400000000050

abbrev poller : Poller
poller = record {
  issuances =
      record_of (codes "old") 10 20
      ∷ record_of (codes "ready") 90 30
      ∷ record_of (codes "stale") 90 40
      ∷ record_of (codes "later") 90 86400000000060
      ∷ [];
  in_flight = [];
  imported = [];
}

abbrev stale_after : DeferredIssuance
stale_after = record (record_of (codes "stale") 90 60000000100) {
  access_token = codes "a1";
  refresh_token = codes "r1";
  access_token_expires_at = 90;
  interval_seconds = pos 60;
  attempts = 1;
}

-- The old record is given up, the ready one is imported, the stale one is asked again with a fresh
-- token and waits for a minute, and the last is not due.
swept : collect_due_deferred_credentials issuer now poller ≡ record {
  issuances = stale_after ∷ record_of (codes "later") 90 86400000000060 ∷ [];
  in_flight = [];
  imported = codes "ready" ∷ [];
}
unfolding everything
swept = refl

fatal : is_retryable_deferred_error (codes "token error: invalid_grant") ≡ false
unfolding everything
fatal = refl

interval_wraps :
    interval (record (record_of [] 0 0) { interval_seconds = pos 9223372037 })
    ≡ negsuc 9223372036709551615
unfolding everything
interval_wraps = refl

newest_kept :
    add_deferred_issuance 1 (record_of (codes "b") 0 0) (record_of (codes "a") 0 0 ∷ [])
    ≡ record_of (codes "b") 0 0 ∷ []
unfolding everything
newest_kept = refl

distinct : HaveDistinctRecords poller.issuances
unfolding everything
distinct = ((refl, (refl, (refl, tt))), ((refl, (refl, tt)), ((refl, tt), (tt, tt))))

collect_due_deferred-each_alone_example :
    (collect_due_deferred_credentials issuer now poller ≡ each_alone issuer now poller)
    × All (IsSettled issuer now poller.in_flight) poller.issuances
unfolding everything
collect_due_deferred-each_alone_example = collect_due_deferred-each_alone issuer now poller distinct

collect_due_deferred-IsLive_example :
    All
      (IsGivenUp now (collect_due_deferred_credentials issuer now poller).issuances)
      poller.issuances
    × All (IsLive now) (collect_due_deferred_credentials issuer now poller).issuances
unfolding everything
collect_due_deferred-IsLive_example = collect_due_deferred-IsLive issuer now poller distinct
