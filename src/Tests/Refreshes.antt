-- ===== src/Tests/Refreshes.antt =====
-- Examples of token refreshes, alone and shared.
use codex_oauth_proxy.Auths.{AuthReconcileResult}
use codex_oauth_proxy.Base.{Auth, Error}
use codex_oauth_proxy.Prelude.{
  ◌-◌, ℕ, ◌+◌, ◌==◌, ◌≤◌, ◌≡◌, refl, arith, true, false, [], ◌∷◌, none, some, Text, text, length,
  Result, ok, trim_space, text_eq, lookup, insert, if◌then◌else◌, ◌⊎◌,
}
use codex_oauth_proxy.Refresh.Exchange.{Exchange, answered, OauthRefreshResponse}
use codex_oauth_proxy.Refresh.Loop.{World, Trace, refresh, attempt_result}
use codex_oauth_proxy.Refresh.Attempts.{posted, post_count, refresh-posts, IsSaved, refresh-IsSaved}
use codex_oauth_proxy.Refresh.Settled.{conclusion, settled, posts_with, refresh-settled}
use codex_oauth_proxy.Refresh.Current.{matching_auth, Request, refresh_current_auth}
use codex_oauth_proxy.Refresh.Tokens.{refresh_current_auth-posts}
use codex_oauth_proxy.Refresh.Shared.{
  AuthManager, enter, finish, wake, initial, Reach, start, later, enters, finishes, wakes,
}
use codex_oauth_proxy.Refresh.Shared.Progress.{
  Reach-one_leader, Reach-same_outcome, CanReturn, Reach-CanReturn,
}
use codex_oauth_proxy.Tests.{auth_a}

abbrev new_tokens : OauthRefreshResponse
new_tokens = record {
  access_token = text "new";
  refresh_token = text "next";
  id_token = [];
  expires_in_negative = false;
  expires_in = 3600;
}

abbrev unavailable : Exchange
unavailable = answered (record {
  status_code = 503;
  retry_after = text "1";
  body_length = 0;
  error_code = [];
  parsed = none;
})

abbrev granted : Exchange
granted = answered (record {
  status_code = 200;
  retry_after = [];
  body_length = 100;
  error_code = [];
  parsed = some new_tokens;
})

-- The endpoint is unavailable once.
abbrev flaky : World
flaky = record {
  exchange = λ n token. if n == 1 then unavailable else granted;
  interrupted = λ n. none;
  clock = λ n. 0;
  parse_http_time = λ t. none;
  claims = λ t. record { account_id = []; email = []; exp = 0 };
  save = λ a. none;
}

abbrev no_trace : Trace
no_trace = record { posts = []; waits = []; saved = [] }

refresh-posts_example :
    (n : ℕ) × (post_count (flaky.exchange 1 auth_a.refresh_token) ≤ n)
    × (n ≤ 3)
    × ((refresh flaky auth_a no_trace).1.posts ≡ posted n auth_a.refresh_token no_trace.posts)
    × (length (refresh flaky auth_a no_trace).1.waits ≤ length no_trace.waits + n)
unfolding trim_space
refresh-posts_example = refresh-posts flaky auth_a no_trace refl

refresh-IsSaved_example : IsSaved no_trace (refresh flaky auth_a no_trace)
refresh-IsSaved_example = refresh-IsSaved flaky auth_a no_trace

refresh-settled_example :
    ((refresh flaky auth_a no_trace).0
      ≡ conclusion flaky auth_a
          (settled flaky auth_a)
          (attempt_result flaky auth_a (settled flaky auth_a)))
    × ((refresh flaky auth_a no_trace).1.posts
        ≡ posted
            (posts_with
              (settled flaky auth_a - 1)
              (flaky.exchange (settled flaky auth_a) auth_a.refresh_token))
            auth_a.refresh_token
            no_trace.posts)
unfolding trim_space
refresh-settled_example = refresh-settled flaky auth_a no_trace refl (λ n. refl)

refresh_posts_twice : (refresh flaky auth_a no_trace).1.posts ≡ text "refresh" ∷ text "refresh" ∷ []
unfolding refresh trim_space text_eq
refresh_posts_twice = refl

abbrev one_credential : AuthReconcileResult
one_credential = record { auths = auth_a ∷ []; active = auth_a ∷ []; changes = [] }

abbrev unauthorized : Request
unauthorized = record {
  failed_access_token = text "token";
  reuse_changed_token = true;
  force = false;
}

refresh_current_auth-posts_example :
    ((refresh_current_auth flaky 0 (ok one_credential) auth_a unauthorized no_trace).1 ≡ no_trace)
    ⊎ ((c : Auth) × (matching_auth
            (if unauthorized.force then one_credential.auths else one_credential.active)
            auth_a
          ≡ some c)
        × (c.id ≡ auth_a.id)
        × (n : ℕ) × (n ≤ 3)
        × ((refresh_current_auth flaky 0 (ok one_credential) auth_a unauthorized no_trace).1.posts
            ≡ posted n c.refresh_token no_trace.posts))
refresh_current_auth-posts_example =
    refresh_current_auth-posts flaky 0 one_credential auth_a unauthorized no_trace

-- Two requests with one credential: the second joins the first, which refreshes.
abbrev keys : ℕ → Text
keys i = text "account:a"

abbrev both_in : AuthManager
both_in = enter 1 (text "account:a") (enter 0 (text "account:a") (initial keys))

both_in-Reach : Reach keys both_in
unfolding enter lookup insert text_eq
both_in-Reach =
    later (later start (enters 0 (text "account:a") refl)) (enters 1 (text "account:a") refl)

Reach-one_leader_example : ◌≡◌ {A = ℕ} 0 0
unfolding enter lookup insert text_eq
Reach-one_leader_example =
    Reach-one_leader keys both_in 0 0 0 0 (text "account:a") both_in-Reach refl refl

abbrev both_out : AuthManager
both_out = wake 1 0 (ok auth_a) (finish 0 0 (text "account:a") (ok auth_a) both_in)

both_out-Reach : Reach keys both_out
unfolding enter finish wake lookup insert text_eq
both_out-Reach =
    later (later both_in-Reach (finishes 0 0 (text "account:a") (ok auth_a) refl))
      (wakes 1 0 (ok auth_a) refl refl)

Reach-same_outcome_example : ◌≡◌ {A = Result Error Auth} (ok auth_a) (ok auth_a)
unfolding enter finish wake lookup insert text_eq
Reach-same_outcome_example =
    Reach-same_outcome keys both_out 0 1 0 (ok auth_a) (ok auth_a) both_out-Reach refl refl

Reach-CanReturn_example : CanReturn both_in 1
unfolding enter lookup insert text_eq
Reach-CanReturn_example = Reach-CanReturn keys both_in 1 both_in-Reach (λ e h. ground (arith, h))
