-- ===== src/Refresh/Loop.antt =====
-- Refresher.Refresh (internal/codexonly/refresh.go), with Expired, ReparseIdentity, tokenExpiry and the
-- outcome of Save (auth.go). The exchanges, the claims of a token, the clock, read once for an attempt,
-- the context and the files are parameters; the state keeps what the code asks of them.
use codex_oauth_proxy.Auths.{stable_auth_id}
use codex_oauth_proxy.Base.{Auth, Time, Error, nil_error, is_zero, after, minute, second, is_blank}
use codex_oauth_proxy.Prelude.{
  ℕ, zero, suc, ◌+◌, ◌*◌, ◌==◌, ltb, Bool, false, not, ◌||◌, if◌then◌else◌, List, [], ◌∷◌, Option,
  none, some, Text, text, is_empty, M, ok, err, fail, ◌>>◌,
}
use codex_oauth_proxy.Refresh.Exchange.{
  OauthRefreshResponse, Exchange, not_created, not_sent, unreadable, answered,
  new_oauth_refresh_error, Attempt, refresh_codex_token_attempt, oauth_refresh_retryable,
  max_oauth_refresh_attempts,
}

-- Auth.Expired, five minutes ahead.
unfoldable pub is_expired : Auth → Time → Bool
is_expired a now =
    if is_zero a.expires_at then false else not (after a.expires_at (now + 5 * minute))

-- The claims of a token, as far as they are read: `exp` is 0 where there is none or it is not positive.
pub record TokenClaims : Type 0 where
  pub account_id : Text
  pub email : Text
  pub exp : ℕ

abbrev pub unix_epoch : ℕ
unix_epoch = 62_135_596_800

unfoldable pub token_expiry : TokenClaims → Time
token_expiry c = if c.exp == 0 then 0 else (unix_epoch + c.exp) * second

abbrev first_text : Text → Text → Text → Text
first_text a b c = if not (is_empty a) then a else if not (is_empty b) then b else c

-- Auth.ReparseIdentity
unfoldable pub reparse_identity : (Text → TokenClaims) → Auth → Auth
unfolding stable_auth_id
reparse_identity claims a =
    let id_claims = claims a.id_token in
    let access_claims = claims a.access_token in
    let account_id = first_text access_claims.account_id id_claims.account_id a.account_id in
    record a {
      account_id = account_id;
      email = first_text access_claims.email id_claims.email a.email;
      id = stable_auth_id account_id a.relative_path;
    }

-- What a refresh meets outside: attempt `n` gets the exchange with the token endpoint, and the wait after
-- it may be cut short by the context; `save` writes the credential's file.
pub record World : Type 0 where
  pub exchange : ℕ → Text → Exchange
  pub interrupted : ℕ → Option Error
  pub clock : ℕ → Time
  pub parse_http_time : Text → Option Time
  pub claims : Text → TokenClaims
  pub save : Auth → Option Error

-- What a refresh has done: the refresh tokens whose requests client.Do got, the waits, and the credentials that were
-- saved, newest first.
pub record Trace : Type 0 where
  pub posts : List Text
  pub waits : List ℕ
  pub saved : List Auth

abbrev pub millisecond : ℕ
millisecond = 1_000_000

unfoldable pub retry_delay : Option ℕ → ℕ → ℕ
retry_delay (some d) attempt = d
retry_delay none attempt = attempt * (100 * millisecond)

unfoldable pub waited : Option Error → M Trace Error (Unit {0})
waited none s = (ok tt, s)
waited (some e) s = (err (new_oauth_refresh_error (text "canceled") 0 [] e), s)

unfoldable pub wait_oauth_refresh_retry : World → Option ℕ → ℕ → M Trace Error (Unit {0})
unfolding retry_delay waited
wait_oauth_refresh_retry w retry_after attempt s =
    waited (w.interrupted attempt) (record s { waits = retry_delay retry_after attempt ∷ s.waits })

unfoldable pub refreshed_auth : World → ℕ → Auth → OauthRefreshResponse → Auth
unfolding token_expiry reparse_identity
refreshed_auth w attempt a r =
    let expiry = token_expiry (w.claims r.access_token) in
    reparse_identity w.claims (record a {
      access_token = r.access_token;
      refresh_token = (if is_empty r.refresh_token then a.refresh_token else r.refresh_token);
      id_token = (if is_empty r.id_token then a.id_token else r.id_token);
      expires_at =
          (if ltb 0 r.expires_in
            then w.clock attempt + r.expires_in * second
            else if is_zero expiry
            then a.expires_at
            else expiry);
    })

unfoldable pub saved_as : Auth → Option Error → M Trace Error Auth
unfolding new_oauth_refresh_error
saved_as a none s = (ok a, record s { saved = a ∷ s.saved })
saved_as a (some e) s = (err (new_oauth_refresh_error (text "persistence failed") 0 [] e), s)

unfoldable pub save_auth : World → Auth → M Trace Error Auth
unfolding saved_as
save_auth w a = saved_as a (w.save a)

-- The end of an attempt: success, the last failure, or another attempt (`again`) after a wait.
unfoldable pub after_attempt : World → Auth → ℕ → M Trace Error Auth → Attempt → M Trace Error Auth
unfolding oauth_refresh_retryable wait_oauth_refresh_retry refreshed_auth save_auth
after_attempt w a attempt again (ok r) = save_auth w (refreshed_auth w attempt a r)
after_attempt w a attempt again (err (e, retry_after)) =
    if attempt == max_oauth_refresh_attempts || not (oauth_refresh_retryable e)
    then fail e
    else (wait_oauth_refresh_retry w retry_after attempt >> again)

abbrev pub post : Text → Trace → Trace
post token s = record s { posts = token ∷ s.posts }

-- client.Do gets the request, if it could be created.
abbrev pub sent_post : Exchange → Text → Trace → Trace
sent_post (not_created e) token s = s
sent_post (not_sent context n) token s = post token s
sent_post (unreadable status n) token s = post token s
sent_post (answered answer) token s = post token s

abbrev pub attempt_result : World → Auth → ℕ → Attempt
attempt_result w a attempt =
    refresh_codex_token_attempt w.parse_http_time (w.clock attempt)
      (w.exchange attempt a.refresh_token)

-- The loop of Refresh, with the number of attempts that its condition still allows.
unfoldable pub refresh_attempts : World → Auth → ℕ → ℕ → M Trace Error Auth
unfolding refresh_codex_token_attempt after_attempt
refresh_attempts w a zero attempt =
    fail (new_oauth_refresh_error (text "attempt limit reached") 0 [] nil_error)
refresh_attempts w a (suc left) attempt =
    let again = refresh_attempts w a left (suc attempt) in
    λ s.
      after_attempt w a attempt again (attempt_result w a attempt)
        (sent_post (w.exchange attempt a.refresh_token) a.refresh_token s)

-- Refresher.Refresh; the credential that it returns is copied over the caller's.
unfoldable pub refresh : World → Auth → M Trace Error Auth
unfolding refresh_attempts
refresh w a =
    if is_blank a.refresh_token
    then fail (new_oauth_refresh_error (text "missing refresh token") 0 [] nil_error)
    else refresh_attempts w a max_oauth_refresh_attempts 1
