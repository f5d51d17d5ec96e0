-- ===== src/Refresh/Exchange.antt =====
-- One exchange with the token endpoint and what its answer means (internal/codexonly/refresh.go):
-- refreshCodexTokenAttempt, the classes of its errors, and Retry-After. What JSON decodes is a field of
-- the answer.
use codex_oauth_proxy.Base.{
  Time, Error, oauth, canceled, deadline_exceeded, nil_error, storage_failure, after, second,
  is_blank,
}
use codex_oauth_proxy.Failover.Classify.{parse_uint, max_duration, max_seconds}
use codex_oauth_proxy.Prelude.{
  ℕ, ◌-◌, ◌*◌, ◌==◌, ltb, leb, Bool, true, false, not, ◌&&◌, ◌||◌, if◌then◌else◌, [], ◌∷◌, Option,
  none, some, Text, text, text_eq, is_empty, trim_space, length, Result, ok, err,
}

pub data Sentinel : Type 0 where
  eof unexpected_eof econnreset econnrefused epipe etimedout enetunreach ehostunreach : Sentinel
  no_sentinel : Sentinel

-- What makes an error of the network transient.
pub record NetworkError : Type 0 where
  pub cause : Error
  pub is_timeout : Bool
  pub is_temporary : Bool
  pub sentinel : Sentinel

-- The two errors of a context: the deadline is a timeout in the sense of net.Error.
abbrev pub is_timeout_error : Error → Bool
is_timeout_error deadline_exceeded = true
is_timeout_error _ = false

unfoldable pub transient_oauth_network_error : NetworkError → Bool
transient_oauth_network_error e =
    e.is_timeout || e.is_temporary || elim e.sentinel [ no_sentinel ↦ false | _ ↦ true ]

pub record OauthRefreshResponse : Type 0 where
  pub access_token : Text
  pub refresh_token : Text
  pub id_token : Text
  pub expires_in_negative : Bool
  pub expires_in : ℕ

-- The answer of the token endpoint: its status, its header Retry-After, the length of its body as far as
-- it is read, the field `error` of the body, and the body as a token response.
pub record TokenAnswer : Type 0 where
  pub status_code : ℕ
  pub retry_after : Text
  pub body_length : ℕ
  pub error_code : Text
  pub parsed : Option OauthRefreshResponse

pub data Exchange : Type 0 where
  not_created : Error → Exchange
  not_sent : (context : Option Error) → NetworkError → Exchange
  unreadable : (status : ℕ) → NetworkError → Exchange
  answered : TokenAnswer → Exchange

is_code_char : ℕ → Bool
is_code_char c =
    (leb 0x61 c && leb c 0x7a)
    || (leb 0x41 c && leb c 0x5a)
    || (leb 0x30 c && leb c 0x39)
    || c == 0x5f
    || c == 0x2d
    || c == 0x2e

unfoldable pub all_code_chars : Text → Bool
unfolding is_code_char
all_code_chars [] = true
all_code_chars (c ∷ s) = is_code_char c && all_code_chars s

unfoldable pub safe_oauth_error_code : Text → Text
unfolding all_code_chars
safe_oauth_error_code raw =
    let code = trim_space raw in
    if is_empty code || ltb 64 (length code) then [] else if all_code_chars code then code else []

unfoldable pub new_oauth_refresh_error : Text → ℕ → Text → Error → Error
unfolding safe_oauth_error_code
new_oauth_refresh_error reason status code cause =
    oauth reason status (safe_oauth_error_code code) false cause

unfoldable pub new_retryable_oauth_refresh_error : Text → ℕ → Text → Error → Error
unfolding safe_oauth_error_code
new_retryable_oauth_refresh_error reason status code cause =
    oauth reason status (safe_oauth_error_code code) true cause

abbrev pub oauth_error : Bool → Text → ℕ → Text → Error → Error
oauth_error true = new_retryable_oauth_refresh_error
oauth_error false = new_oauth_refresh_error

unfoldable pub ascii_digits : Text → Bool
ascii_digits [] = true
ascii_digits (c ∷ s) = leb 0x30 c && leb c 0x39 && ascii_digits s

-- parseOAuthRetryAfter, with -1 as `none`; `parse_http_time` is http.ParseTime.
unfoldable pub parse_oauth_retry_after : (Text → Option Time) → Text → Time → Option ℕ
unfolding ascii_digits
parse_oauth_retry_after parse_http_time raw now =
    let value = trim_space raw in
    if is_empty value then none else elim (parse_uint value) [
      | some seconds ↦ some (if ltb max_seconds seconds then max_duration else seconds * second)
      | none ↦ if ascii_digits value then some max_duration else elim (parse_http_time value) [
        | none ↦ none
        | some retry_at ↦ some (if after retry_at now then retry_at - now else 0)
      ]
    ]

unfoldable pub oauth_refresh_status_retryable : ℕ → Bool
oauth_refresh_status_retryable status =
    status == 408
    || status == 429
    || status == 500
    || status == 502
    || status == 503
    || status == 504

abbrev pub max_oauth_refresh_body_bytes : ℕ
max_oauth_refresh_body_bytes = 1_048_576

-- What refreshCodexTokenAttempt returns: tokens, or an error and what the server said about a next try.
abbrev pub Attempt : Type 0
Attempt = Result (Error × Option ℕ) OauthRefreshResponse

abbrev failed : Bool → Text → ℕ → Error → Attempt
failed retryable reason status cause = err (oauth_error retryable reason status [] cause, none)

abbrev trimmed : OauthRefreshResponse → OauthRefreshResponse
trimmed r = record r {
  access_token = trim_space r.access_token;
  refresh_token = trim_space r.refresh_token;
  id_token = trim_space r.id_token;
}

unfoldable pub accepted : ℕ → Option OauthRefreshResponse → Attempt
unfolding new_oauth_refresh_error
accepted status none = failed false (text "malformed response") status nil_error
accepted status (some r) =
    if is_blank r.access_token
    then failed false (text "response missing access token") status nil_error
    else if r.expires_in_negative || ltb max_seconds r.expires_in
    then failed false (text "invalid token expiry") status nil_error
    else ok (trimmed r)

unfoldable pub refresh_codex_token_attempt : (Text → Option Time) → Time → Exchange → Attempt
unfolding new_oauth_refresh_error new_retryable_oauth_refresh_error transient_oauth_network_error
    oauth_refresh_status_retryable parse_oauth_retry_after accepted
refresh_codex_token_attempt parse_http_time now (not_created e) =
    failed false (text "request creation failed") 0 e
refresh_codex_token_attempt parse_http_time now (not_sent (some e) n) =
    failed (is_timeout_error e) (text "request failed") 0 e
refresh_codex_token_attempt parse_http_time now (not_sent none n) =
    failed (transient_oauth_network_error n) (text "request failed") 0 n.cause
refresh_codex_token_attempt parse_http_time now (unreadable status n) =
    failed (transient_oauth_network_error n) (text "response read failed") status n.cause
refresh_codex_token_attempt parse_http_time now (answered a) =
    if ltb max_oauth_refresh_body_bytes a.body_length
    then failed false (text "response is too large") a.status_code nil_error
    else if ltb a.status_code 200 || leb 300 a.status_code
    then err (
      oauth_error
          (oauth_refresh_status_retryable a.status_code
            && not (text_eq (safe_oauth_error_code a.error_code) (text "invalid_grant")))
          (text "token endpoint rejected request") a.status_code a.error_code nil_error,
      parse_oauth_retry_after parse_http_time a.retry_after now,
    )
    else accepted a.status_code a.parsed

-- errors.Is(err, context.Canceled) || errors.Is(err, context.DeadlineExceeded)
abbrev pub is_context_error : Error → Bool
is_context_error canceled = true
is_context_error deadline_exceeded = true
is_context_error (oauth reason status code retryable cause) = is_context_error cause
is_context_error (storage_failure op cause) = is_context_error cause
is_context_error _ = false

-- The first *oauthRefreshError of a chain, if any, decides.
unfoldable pub is_retryable : Error → Bool
is_retryable (oauth reason status code retryable cause) = retryable
is_retryable (storage_failure op cause) = is_retryable cause
is_retryable _ = false

unfoldable pub oauth_refresh_retryable : Error → Bool
unfolding is_retryable
oauth_refresh_retryable e = not (is_context_error e) && is_retryable e

abbrev pub max_oauth_refresh_attempts : ℕ
max_oauth_refresh_attempts = 3
