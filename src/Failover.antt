-- ===== src/Failover.antt =====
-- internal/codexonly/failover.go: the failures of upstream attempts and what they mean. The children
-- hold the classification of responses, the final error, and the loop that fails over between
-- credentials, with their laws.
pub mod Loop
pub mod Rounds
pub mod Rules
pub mod Sent
pub mod Totals
pub mod Fuel
pub mod Final
pub mod Classify
use codex_oauth_proxy.Base.{
  Auth, Time, Error, proxy_final, oauth, ProxyFinalError, is_zero, is_blank, minute,
}
use codex_oauth_proxy.Health.{AuthHealthState, AuthHealthRegistry, safe_health_code}
use codex_oauth_proxy.Health.Marks.{mark_unavailable, mark_model_unsupported}
use codex_oauth_proxy.Prelude.{
  ℕ, ◌+◌, Bool, true, false, if◌then◌else◌, List, [], ◌∷◌, Option, none, some, Text, text, text_eq,
  Dict, insert, is_empty, M, return,
}
use codex_oauth_proxy.Store.{
  AuthHealthKind, quota, invalid_grant, unauthorized, credential_invalid, transient,
  model_unsupported, unset,
}

pub data UpstreamFailureKind : Type 0 where
  failure_none request_scoped failure_unauthorized failure_quota : UpstreamFailureKind
  failure_transient failure_model_unsupported failure_credential : UpstreamFailureKind

pub record UpstreamFailure : Type 0 where
  pub kind : UpstreamFailureKind
  pub status_code : ℕ
  pub error_code : Text
  pub reason : Text
  pub retry_at : Time
  pub explicit : Bool

abbrev pub default_transient_cooldown : ℕ
default_transient_cooldown = minute

-- failureAggregate.record
unfoldable pub record_failure : Auth → UpstreamFailure → Dict UpstreamFailure → Dict UpstreamFailure
record_failure auth failure by_auth =
    if is_blank auth.id then by_auth else insert auth.id failure by_auth

-- What executeUpstream makes of an attempt that got no response.
unfoldable pub network_failure : Time → UpstreamFailure
network_failure now = record {
  kind = failure_transient;
  status_code = 502;
  error_code = [];
  reason = text "network";
  retry_at = now + default_transient_cooldown;
  explicit = false;
}

-- errors.As into *oauthRefreshError finds the outermost one; the other errors of this program wrap
-- none but in a storage failure.
pub data Refresh : Type 0 where
  refresh_error : (status : ℕ) → (code : Text) → (retryable : Bool) → Refresh
  other_error : Refresh

as_refresh_error : Error → Refresh
as_refresh_error (oauth reason status code retryable cause) = refresh_error status code retryable
as_refresh_error (Error.storage_failure op e) = as_refresh_error e
as_refresh_error _ = other_error

abbrev credential_failure : ℕ → Text → Text → UpstreamFailure
credential_failure status code reason = record {
  kind = failure_credential;
  status_code = status;
  error_code = code;
  reason = reason;
  retry_at = 0;
  explicit = false;
}

refresh_failure : Refresh → Time → UpstreamFailure
refresh_failure other_error now = credential_failure 503 [] (text "credential_invalid")
refresh_failure (refresh_error status code retryable) now =
    let safe = safe_health_code code in
    if text_eq safe (text "invalid_grant")
    then credential_failure status safe (text "invalid_grant")
    else if retryable
    then record {
      kind = failure_transient;
      status_code = status;
      error_code = safe;
      reason = text "refresh_failed";
      retry_at = now + default_transient_cooldown;
      explicit = false;
    }
    else credential_failure status safe (text "credential_invalid")

unfoldable pub preparation_failure : Error → Time → UpstreamFailure
unfolding as_refresh_error refresh_failure
preparation_failure e now = refresh_failure (as_refresh_error e) now

-- firstNonEmptyString, of two.
unfoldable pub first_non_empty : Text → Text → Text
first_non_empty a b = if is_empty a then b else a

abbrev plain_state : AuthHealthKind → UpstreamFailure → AuthHealthState
plain_state kind failure = record {
  kind = kind;
  reason = failure.reason;
  retry_at = failure.retry_at;
  authoritative = false;
  credential_fingerprint = [];
  status_code = failure.status_code;
  error_code = failure.error_code;
  updated_at = 0;
}

abbrev kind_of_failure : UpstreamFailureKind → AuthHealthKind
kind_of_failure failure_model_unsupported = model_unsupported
kind_of_failure failure_quota = quota
kind_of_failure failure_unauthorized = unauthorized
kind_of_failure failure_credential = credential_invalid
kind_of_failure failure_transient = transient
kind_of_failure failure_none = unset
kind_of_failure request_scoped = unset

unfoldable pub health_state_from_failure : UpstreamFailure → AuthHealthState
health_state_from_failure failure = plain_state (kind_of_failure failure.kind) failure

-- A deadline that the failure does not name is a minute away.
abbrev deadline_or_default : Time → Time → Time
deadline_or_default retry_at now =
    if is_zero retry_at then now + default_transient_cooldown else retry_at

-- The state that markAuthFailure hands to MarkUnavailable, none where it calls another method or none.
unfoldable pub unavailable_state :
    UpstreamFailureKind → UpstreamFailure → Time → Option AuthHealthState
unfolding first_non_empty
unavailable_state failure_quota f now = some (record (plain_state quota f) {
  reason = text "quota";
  retry_at = deadline_or_default f.retry_at now;
  authoritative = f.explicit;
})
unavailable_state failure_unauthorized f now = some (record (plain_state unauthorized f) {
  reason = text "unauthorized";
  retry_at = 0;
  status_code = 401;
  error_code = first_non_empty f.error_code (text "unauthorized");
})
unavailable_state failure_credential f now =
    some
      (record (plain_state
        (if text_eq f.error_code (text "invalid_grant") then invalid_grant else credential_invalid)
        f) { retry_at = 0 })
unavailable_state failure_transient f now =
    some (record (plain_state transient f) { retry_at = deadline_or_default f.retry_at now })
unavailable_state failure_model_unsupported f now = none
unavailable_state failure_none f now = none
unavailable_state request_scoped f now = none

module _ (sha256_hex : Text → Text) (deadline_now now later : Time) where
  mark_state : Option AuthHealthState → Auth → M AuthHealthRegistry Error (Unit {0})
  mark_state none auth = return tt
  mark_state (some s) auth = mark_unavailable sha256_hex now later auth s

  mark_by_kind :
      UpstreamFailureKind → Auth → Text → UpstreamFailure → M AuthHealthRegistry Error (Unit {0})
  unfolding mark_state
  mark_by_kind failure_model_unsupported auth model f =
      mark_model_unsupported sha256_hex now later auth model f.status_code f.error_code
  mark_by_kind kind auth model f = mark_state (unavailable_state kind f deadline_now) auth

  -- `deadline_now` is the reading that a default deadline counts from.
  unfoldable pub mark_auth_failure :
      Auth → Text → UpstreamFailure → M AuthHealthRegistry Error (Unit {0})
  unfolding mark_by_kind
  mark_auth_failure auth model f = mark_by_kind f.kind auth model f
