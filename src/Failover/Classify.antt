-- ===== src/Failover/Classify.antt =====
-- classifyUpstreamResponse and what it reads of a response (internal/codexonly/failover.go). The JSON of an
-- error body is decoded by a library: `info` is what parseUpstreamErrorInfo finds in it, with 0 for a number
-- that is not positive, since only positive ones are read. `to_lower` is strings.ToLower, and
-- `parse_http_time` http.ParseTime.
use codex_oauth_proxy.Base.{Time, after, is_zero, second}
use codex_oauth_proxy.Failover.{
  UpstreamFailure, UpstreamFailureKind, failure_none, request_scoped, failure_unauthorized,
  failure_quota, failure_transient, failure_model_unsupported,
}
use codex_oauth_proxy.Health.{normalize_model_identifier, safe_health_code}
use codex_oauth_proxy.Prelude.{
  ℕ, ◌+◌, ◌-◌, ◌*◌, ◌%◌, ◌^◌, ◌≤◌, ◌<◌, ◌==◌, ltb, leb, Bool, true, false, not, ◌&&◌, ◌||◌,
  if◌then◌else◌, List, [], ◌∷◌, ◌++◌, Option, none, some, Text, text, text_eq, is_empty, trim_space,
  ◌≡◌, arith, ◌⊎◌,
}

pub record UpstreamErrorInfo : Type 0 where
  pub code : Text
  pub type_name : Text
  pub message : Text
  pub resets_at : ℕ
  pub resets_in_seconds : ℕ

pub record UpstreamResponse : Type 0 where
  pub status_code : ℕ
  pub retry_after : Text
  pub body : Text
  pub info : UpstreamErrorInfo

-- strconv.ParseUint(value, 10, 64)
abbrev pub digits_from : ℕ → Text → Option ℕ
digits_from n [] = some n
digits_from n (c ∷ s) =
    let rest = digits_from (n * 10 + (c - 0x30)) s in
    if leb 0x30 c && leb c 0x39 then rest else none

abbrev pub in_range : Option ℕ → Option ℕ
in_range none = none
in_range (some n) = if ltb n (2 ^ 64) then some n else none

unfoldable pub parse_uint : Text → Option ℕ
parse_uint [] = none
parse_uint (c ∷ s) = in_range (digits_from 0 (c ∷ s))

-- math.MaxInt64 as a duration, and the seconds that fit in it.
abbrev pub max_duration : ℕ
max_duration = 9_223_372_036_854_775_807

abbrev pub max_seconds : ℕ
max_seconds = 9_223_372_036

unfoldable pub seconds_after : Time → ℕ → Time
seconds_after now seconds =
    if ltb max_seconds seconds then now + max_duration else now + seconds * second

abbrev pub or_never : Option Time → Time
or_never none = 0
or_never (some t) = t

abbrev pub deadline_of : Option ℕ → Option Time → Time → Time
deadline_of (some seconds) date now = seconds_after now seconds
deadline_of none date now = or_never date

-- A duration of so many seconds in 64 bits, and an instant that a duration is added to.
unfoldable pub wrapped_seconds : ℕ → ℕ
wrapped_seconds seconds = seconds * second % 2 ^ 64

unfoldable pub add_duration : Time → ℕ → Time
add_duration now d = if ltb d (2 ^ 63) then now + d else now - (2 ^ 64 - d)

-- The instant of the Unix epoch.
abbrev pub unix_epoch : Time
unix_epoch = 62_135_596_800 * second

-- explicitQuotaRecoveryTime, of a resets_at from 0 on that time.Unix can hold.
unfoldable pub explicit_quota_recovery_time : UpstreamErrorInfo → Time → Time
unfolding wrapped_seconds add_duration
explicit_quota_recovery_time info now =
    let at = unix_epoch + info.resets_at * second in
    if ltb 0 info.resets_at && after at now
    then at
    else if ltb 0 info.resets_in_seconds
    then add_duration now (wrapped_seconds info.resets_in_seconds)
    else 0

-- strings.NewReplacer("-", "_", " ", "_")
abbrev pub underscored : Text → Text
underscored [] = []
underscored (c ∷ s) = (if c == 0x2d || c == 0x20 then 0x5f else c) ∷ underscored s

abbrev pub is_model_code : Text → Bool
is_model_code s =
    text_eq s (text "model_not_supported")
    || text_eq s (text "unsupported_model")
    || text_eq s (text "model_not_found")
    || text_eq s (text "unknown_model")
    || text_eq s (text "model_unavailable")

abbrev pub begins : Text → Text → Bool
begins [] s = true
begins (c ∷ p) [] = false
begins (c ∷ p) (d ∷ s) = c == d && begins p s

-- strings.Contains
abbrev pub contains_text : Text → Text → Bool
contains_text p [] = is_empty p
contains_text p (c ∷ s) = begins p (c ∷ s) || contains_text p s

abbrev pub contains_any : List Text → Text → Bool
contains_any [] s = false
contains_any (p ∷ ps) s = contains_text p s || contains_any ps s

abbrev pub model_phrases : List Text
model_phrases =
    text "requested model is not supported"
    ∷ text "requested model is unsupported"
    ∷ text "model is not supported"
    ∷ text "model not supported"
    ∷ text "unsupported model"
    ∷ text "not available for your plan"
    ∷ text "not available for your account"
    ∷ []

abbrev pub is_valid_model : Text → Bool
is_valid_model model = elim (normalize_model_identifier model) [ none ↦ false | some _ ↦ true ]

module _ (to_lower : Text → Text) (parse_http_time : Text → Option Time) where
  unfoldable pub parse_retry_after_deadline : Text → Time → Time
  unfolding seconds_after
  parse_retry_after_deadline raw now =
      let value = trim_space raw in
      if is_empty value then 0 else deadline_of (parse_uint value) (parse_http_time value) now

  unfoldable pub is_model_unsupported_failure : ℕ → Text → UpstreamErrorInfo → Text → Bool
  is_model_unsupported_failure status model info body =
      is_valid_model model
      && (status == 400 || status == 404 || status == 422)
      && (is_model_code (underscored (to_lower (trim_space info.code)))
          || is_model_code (underscored (to_lower (trim_space info.type_name)))
          || contains_any model_phrases (to_lower (info.message ++ 0x20 ∷ body)))

  abbrev pub failure_of : UpstreamFailureKind → Text → UpstreamResponse → UpstreamFailure
  failure_of kind reason resp = record {
    kind = kind;
    status_code = resp.status_code;
    error_code = safe_health_code resp.info.code;
    reason = reason;
    retry_at = 0;
    explicit = false;
  }

  abbrev pub no_failure : UpstreamFailure
  no_failure = record {
    kind = failure_none;
    status_code = 0;
    error_code = [];
    reason = [];
    retry_at = 0;
    explicit = false;
  }

  -- The deadline of a response to too many requests: its header, or else its body.
  unfoldable pub quota_deadline : UpstreamResponse → Time → Time
  unfolding parse_retry_after_deadline explicit_quota_recovery_time
  quota_deadline resp now =
      let header = parse_retry_after_deadline resp.retry_after now in
      if is_zero header then explicit_quota_recovery_time resp.info now else header

  unfoldable pub classify_upstream_response : UpstreamResponse → Text → Time → UpstreamFailure
  unfolding quota_deadline is_model_unsupported_failure
  classify_upstream_response resp model now =
      let status = resp.status_code in
      if ltb status 400
      then no_failure
      else if status == 401
      then failure_of failure_unauthorized (text "unauthorized") resp
      else if status == 429
      then record (failure_of failure_quota (text "quota") resp) {
        retry_at = quota_deadline resp now;
        explicit = not (is_zero (quota_deadline resp now));
      }
      else if status == 408
      then failure_of failure_transient (text "request_timeout") resp
      else if status == 500 || status == 502 || status == 503 || status == 504
      then failure_of failure_transient (text "upstream_error") resp
      else if is_model_unsupported_failure status model resp.info resp.body
      then failure_of failure_model_unsupported (text "model_not_supported") resp
      else if ltb status 500
      then failure_of request_scoped (text "request_error") resp
      else failure_of failure_transient (text "upstream_error") resp

-- A number of seconds never moves a deadline into the past, nor further than the longest duration.
seconds_after-bounded :
    (now : Time) (seconds : ℕ)
    → (now ≤ seconds_after now seconds) × (seconds_after now seconds ≤ now + max_duration)
unfolding seconds_after
seconds_after-bounded now seconds = ground arith

small_duration : (seconds : ℕ) → seconds ≤ max_seconds → wrapped_seconds seconds ≡ seconds * second
unfolding wrapped_seconds
small_duration seconds h = omega arith

-- The deadline that the body of a response names lies ahead, or there is none, as long as the number of
-- seconds in it is one that a duration can hold.
pub explicit_quota_recovery_time-ahead :
    (info : UpstreamErrorInfo) (now : Time)
    → info.resets_in_seconds ≤ max_seconds
    → (explicit_quota_recovery_time info now ≡ 0) ⊎ (now < explicit_quota_recovery_time info now)
unfolding explicit_quota_recovery_time add_duration
explicit_quota_recovery_time-ahead info now h =
    ground (arith, small_duration info.resets_in_seconds h)

-- If the body gives no instant (resets_at is 0) and more seconds than a duration holds, but at most twice as
-- many, the duration wraps and the deadline is not ahead.
pub explicit_quota_recovery_time-past :
    (info : UpstreamErrorInfo) (now : Time)
    → info.resets_at ≡ 0
    → max_seconds < info.resets_in_seconds
    → info.resets_in_seconds ≤ 2 * max_seconds
    → explicit_quota_recovery_time info now ≤ now
unfolding explicit_quota_recovery_time add_duration wrapped_seconds
explicit_quota_recovery_time-past info now none_at more less = ground (arith, none_at)

module _ (to_lower : Text → Text) (parse_http_time : Text → Option Time) where
  -- A Retry-After header that holds a number of seconds is a deadline from now on, and no further than the
  -- longest duration: a larger number is cut, and does not wrap.
  pub parse_retry_after_deadline-bounded :
      (raw : Text) (now : Time) (seconds : ℕ)
      → is_empty (trim_space raw) ≡ false
      → parse_uint (trim_space raw) ≡ some seconds
      → (now ≤ parse_retry_after_deadline to_lower parse_http_time raw now)
        × (parse_retry_after_deadline to_lower parse_http_time raw now ≤ now + max_duration)
  unfolding parse_retry_after_deadline
  parse_retry_after_deadline-bounded raw now seconds some_text number =
      rw (some_text, parse_retry_after_deadline)
        (rw (number, parse_retry_after_deadline) (seconds_after-bounded now seconds))

  -- A failure names a deadline exactly if it is explicit, and only a quota failure does.
  pub classify_upstream_response-deadline :
      (resp : UpstreamResponse) (model : Text) (now : Time)
      → let f = classify_upstream_response to_lower parse_http_time resp model now in
        ((f.retry_at ≡ 0) × (f.explicit ≡ false))
        ⊎ ((f.kind ≡ failure_quota)
            × (0 < f.retry_at)
            × (f.explicit ≡ true)
            × (resp.status_code ≡ 429))
  unfolding classify_upstream_response
  classify_upstream_response-deadline resp model now = ground arith
