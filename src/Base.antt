-- ===== src/Base.antt =====
-- The values that all components pass on: instants, credentials and errors (auth.go,
-- failover.go, refresh.go). An instant is the number of nanoseconds since
-- Go's zero time, so that IsZero is a test for 0; a duration is a number of nanoseconds.
use codex_oauth_proxy.Prelude.{ℕ, Bool, List, Text, trim_space, is_empty, ltb, ◌==◌}

abbrev pub Time : Type 0
Time = ℕ

abbrev pub is_zero : Time → Bool
is_zero t = t == 0

abbrev pub after : Time → Time → Bool
after t u = ltb u t

abbrev pub before : Time → Time → Bool
before t u = ltb t u

abbrev pub second : ℕ
second = 1_000_000_000

abbrev pub minute : ℕ
minute = 60_000_000_000

abbrev pub hour : ℕ
hour = 3_600_000_000_000

-- The fields of Auth that decisions read; Metadata and renameFile serve only Save.
pub record Auth : Type 0 where
  pub id : Text
  pub path : Text
  pub email : Text
  pub account_id : Text
  pub access_token : Text
  pub refresh_token : Text
  pub id_token : Text
  pub expires_at : Time
  pub disabled : Bool
  pub source_paths : List Text
  pub relative_path : Text
  pub source_ids : List Text

pub record ProxyFinalError : Type 0 where
  pub status_code : ℕ
  pub code : Text
  pub message : Text
  pub retry_at : Time

-- Go's error values, as far as the code tells them apart: the sentinels, an error of a library, an
-- error that wraps another, and the two structured ones. `nil_error` is an absent cause.
pub data Error : Type 0 where
  invalid_input duplicate_user_name user_not_found invalid_api_key disabled_credential : Error
  no_rows tx_done canceled deadline_exceeded no_eligible_auth nil_error : Error
  driver : Text → Error
  plain : Text → Error
  storage_failure : Text → Error → Error
  oauth :
      (reason : Text) → (status : ℕ) → (code : Text) → (retryable : Bool) → (cause : Error) → Error
  proxy_final : ProxyFinalError → Error

-- strings.TrimSpace(s) == ""
abbrev pub is_blank : Text → Bool
is_blank s = is_empty (trim_space s)
