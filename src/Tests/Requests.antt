-- ===== src/Tests/Requests.antt =====
-- Requests that fail over between credentials (failover.go).
use codex_oauth_proxy.Failover.Classify.{
  UpstreamErrorInfo, UpstreamResponse, max_duration, parse_uint, parse_retry_after_deadline,
  classify_upstream_response, explicit_quota_recovery_time, explicit_quota_recovery_time-ahead,
  explicit_quota_recovery_time-past, parse_retry_after_deadline-bounded,
  classify_upstream_response-deadline,
}
use codex_oauth_proxy.Auths.{AuthReconcileResult}
use codex_oauth_proxy.Base.{Auth, Time, Error, no_eligible_auth}
use codex_oauth_proxy.Failover.{UpstreamFailure, failure_unauthorized, failure_quota}
use codex_oauth_proxy.Failover.Fuel.{IsFinished, execute_upstream_finishes}
use codex_oauth_proxy.Failover.Loop.{Upstream, RetryConfig}
use codex_oauth_proxy.Failover.Rounds.{execute_upstream}
use codex_oauth_proxy.Failover.Sent.{Counts}
use codex_oauth_proxy.Failover.Totals.{execute_upstream_once, execute_upstream_limited}
use codex_oauth_proxy.Health.Rows.{contains}
use codex_oauth_proxy.Prelude.{
  ℕ, suc, ◌+◌, ◌*◌, ◌≤◌, ◌≡◌, refl, true, false, if◌then◌else◌, not, ◌&&◌, List, [], ◌∷◌, none,
  Option, Text, text, trim_space, ◌⊎◌, ◌<◌, M, Result, ok, err, arith,
}
use codex_oauth_proxy.Store.{SessionAffinityBinding}
use codex_oauth_proxy.Tests.{auth_a, identity_hash}

abbrev first_scan : AuthReconcileResult
first_scan = record { auths = auth_a ∷ []; active = auth_a ∷ []; changes = [] }

-- An upstream that refuses every token. The state counts the requests.
abbrev refused : ℕ → Text → Time → UpstreamFailure
refused status model now = record {
  kind = failure_unauthorized;
  status_code = status;
  error_code = [];
  reason = text "unauthorized";
  retry_at = 0;
  explicit = false;
}

abbrev choose_a :
    Text
    → List Text
    → List Text
    → SessionAffinityBinding
    → M ℕ Error (Auth × SessionAffinityBinding)
choose_a model tried allowed b s =
    if contains auth_a.id allowed && not (contains auth_a.id tried)
    then (ok (auth_a, b), s)
    else (err no_eligible_auth, s)

abbrev refusing : Upstream ℕ ℕ
refusing = record {
  reconcile_auths = λ s. (ok first_scan, s);
  supporting_auth_ids = λ m active s. none;
  select_candidate = choose_a;
  prepare_auth = λ a s. (ok a, s);
  attempt = λ a s. (ok 401, suc s);
  classify = refused;
  mark_auth_failure = λ a m f s. (ok tt, s);
  mark_healthy = λ a m s. (ok tt, s);
  mark_credential_healthy = λ a s. (ok tt, s);
  refresh_after_unauthorized = λ a t s. (ok a, s);
  nearest_cooldown = λ m g allowed s. (ok none, s);
  final_proxy_error = λ m g allowed s. (no_eligible_auth, s);
  wait = λ d s. (ok tt, s);
  ctx_error = λ s. none;
  current_time = λ s. 7;
}

abbrev requests : ℕ → ℕ
requests s = s

refusing-Counts : Counts refusing requests
refusing-Counts = record {
  of_attempt = λ a s. omega arith;
  of_reconcile = λ s. refl;
  of_select = λ m tried allowed b s. ground arith;
  of_prepare = λ a s. refl;
  of_mark = λ a m f s. refl;
  of_healthy = λ a m s. refl;
  of_credential = λ a s. refl;
  of_refresh = λ a t s. refl;
  of_cooldown = λ m g allowed s. refl;
  of_final = λ m g allowed s. refl;
  of_wait = λ d s. refl;
}

abbrev config : RetryConfig
config = record { request_retry = 2; max_retry_credentials = 1; max_retry_interval = 30 }

execute_upstream_once_example :
    (execute_upstream refusing config 2 (text "gpt-5") false 0).1 ≤ 0 + 1
execute_upstream_once_example =
    execute_upstream_once refusing requests refusing-Counts (text "gpt-5") config 2 0

execute_upstream_limited_example :
    (execute_upstream refusing config 2 (text "gpt-5") true 0).1 ≤ 0 + (2 + 1) * (2 * 1)
execute_upstream_limited_example =
    execute_upstream_limited refusing requests refusing-Counts (text "gpt-5") config 2 0
      (omega arith)

auth_of : Result Error (Auth × SessionAffinityBinding) → Auth
auth_of (ok (a, b)) = a
auth_of (err e) = auth_a

-- A selection that does not care for the credentials that were tried.
abbrev repeating : Upstream ℕ ℕ
repeating = record refusing { select_candidate = λ m tried allowed b s. (ok (auth_a, b), s) }

execute_upstream_finishes_example :
    IsFinished (execute_upstream repeating config 2 (text "gpt-5") true 0).0
execute_upstream_finishes_example =
    execute_upstream_finishes repeating (text "gpt-5") true config 2 (omega arith) (omega arith) 0

abbrev no_date : Text → Option Time
no_date s = none

abbrev recovers_in : ℕ → UpstreamErrorInfo
recovers_in seconds = record {
  code = text "usage_limit_reached";
  type_name = [];
  message = [];
  resets_at = 0;
  resets_in_seconds = seconds;
}

explicit_quota_recovery_time-ahead_example :
    (explicit_quota_recovery_time (recovers_in 60) 5 ≡ 0)
    ⊎ (5 < explicit_quota_recovery_time (recovers_in 60) 5)
explicit_quota_recovery_time-ahead_example =
    explicit_quota_recovery_time-ahead (recovers_in 60) 5 (omega arith)

explicit_quota_recovery_time-past_example :
    explicit_quota_recovery_time (recovers_in 9_223_372_037) 5 ≤ 5
explicit_quota_recovery_time-past_example =
    explicit_quota_recovery_time-past (recovers_in 9_223_372_037) 5 refl (omega arith) (omega arith)

parse_retry_after_deadline-bounded_example :
    (7 ≤ parse_retry_after_deadline identity_hash no_date (text " 120 ") 7)
    × (parse_retry_after_deadline identity_hash no_date (text " 120 ") 7 ≤ 7 + max_duration)
unfolding trim_space parse_uint
parse_retry_after_deadline-bounded_example =
    parse_retry_after_deadline-bounded identity_hash no_date (text " 120 ") 7 120 refl refl

abbrev limited_response : UpstreamResponse
limited_response = record {
  status_code = 429;
  retry_after = text "120";
  body = [];
  info = recovers_in 60;
}

classify_upstream_response-deadline_example :
    let f = classify_upstream_response identity_hash no_date limited_response (text "gpt-5") 7 in
    ((f.retry_at ≡ 0) × (f.explicit ≡ false))
    ⊎ ((f.kind ≡ failure_quota)
        × (0 < f.retry_at)
        × (f.explicit ≡ true)
        × (limited_response.status_code ≡ 429))
classify_upstream_response-deadline_example =
    classify_upstream_response-deadline identity_hash no_date limited_response (text "gpt-5") 7
