-- ===== src/Deferred.antt =====
-- internal/wallet/deferred.go: the issuances that the wallet collects later.
pub mod Poller
pub mod Frame
pub mod Keeps
pub mod Once
pub mod Settled
pub mod Sweep
mod Tests
use eudi_dev.Base.{
  ℕ, suc, ◌+◌, ◌-◌, ◌*◌, ◌/◌, ◌%◌, ◌^◌, ℤ, pos, negsuc, Text, text_eq, Bool, true, false, not, ◌&&◌,
  List, [], ◌∷◌, ◌++◌, is_empty, length, drop, if◌then◌else◌, ltb, leb, ◌==◌,
}

-- `DeferredIssuance` with the fields that the poller reads and changes. Times are nanoseconds since
-- the zero time, and a time that is not set is 0.
pub record DeferredIssuance : Type 0 where
  pub id : Text
  pub transaction_id : Text
  pub issuer : Text
  pub configuration_id : Text
  pub token_endpoint : Text
  pub refresh_token : Text
  pub access_token : Text
  pub auth_scheme : Text
  pub access_token_expires_at : ℕ
  pub interval_seconds : ℤ
  pub created_at : ℕ
  pub next_attempt_at : ℕ
  pub attempts : ℕ
  pub last_error : Text

abbrev pub second : ℕ
second = 1000000000

-- A product of durations, which wraps to 64 bits.
abbrev pub wrap_int64 : ℕ → ℤ
wrap_int64 n = let r = n % 2 ^ 64 in if ltb r (2 ^ 63) then pos r else negsuc (2 ^ 64 - 1 - r)

-- `time.Time.Add`, of a time after the zero time.
abbrev pub add_time : ℕ → ℤ → ℕ
add_time t (pos n) = t + n
add_time t (negsuc n) = t - suc n

-- `deferredPollInterval`.
abbrev pub deferred_poll_interval : ℤ
deferred_poll_interval = pos 5000000000

-- `DeferredIssuance.Interval`.
unfoldable pub interval : DeferredIssuance → ℤ
interval p = elim p.interval_seconds [
  | negsuc n ↦ deferred_poll_interval
  | pos n ↦ if n == 0 then deferred_poll_interval else wrap_int64 (n * second)
]

-- `deferredIssuanceMaxAge`, a day.
abbrev pub deferred_issuance_max_age : ℕ
deferred_issuance_max_age = 86400000000000

-- `DeferredIssuance.Expired`. An age below zero is as good as zero.
unfoldable pub is_expired : ℕ → DeferredIssuance → Bool
is_expired now p = ltb deferred_issuance_max_age (now - p.created_at)

-- `DeferredIssuance.AccessTokenExpired`, with a margin of 15 seconds.
unfoldable pub access_token_expired : ℕ → DeferredIssuance → Bool
access_token_expired now p =
    not (p.access_token_expires_at == 0) && ltb p.access_token_expires_at (now + 15000000000)

-- `DeferredIssuance.CanRefresh`.
unfoldable pub can_refresh : DeferredIssuance → Bool
can_refresh p = not (is_empty p.refresh_token) && not (is_empty p.token_endpoint)

-- `AddDeferredIssuance`, with the capacity for deferred issuances, where 0 is none.
unfoldable pub add_deferred_issuance :
    ℕ → DeferredIssuance → List DeferredIssuance → List DeferredIssuance
add_deferred_issuance capacity p issuances =
    if ltb 0 capacity && leb capacity (length issuances)
    then drop (length issuances - capacity + 1) issuances ++ p ∷ []
    else issuances ++ p ∷ []

-- `RemoveDeferredIssuance`.
unfoldable pub remove_deferred_issuance : Text → List DeferredIssuance → List DeferredIssuance
remove_deferred_issuance id [] = []
remove_deferred_issuance id (p ∷ ps) =
    let rest = remove_deferred_issuance id ps in if text_eq p.id id then ps else p ∷ rest

-- `UpdateDeferredIssuance`.
unfoldable pub update_deferred_issuance :
    Text → (DeferredIssuance → DeferredIssuance) → List DeferredIssuance → List DeferredIssuance
update_deferred_issuance id apply [] = []
update_deferred_issuance id apply (p ∷ ps) =
    let rest = update_deferred_issuance id apply ps in
    if text_eq p.id id then apply p ∷ ps else p ∷ rest
