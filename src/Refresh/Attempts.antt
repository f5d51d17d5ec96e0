-- ===== src/Refresh/Attempts.antt =====
-- How often Refresher.Refresh posts, when it stops, and what it has saved (internal/codexonly/refresh.go).
use codex_oauth_proxy.Base.{Auth, Error, Time, is_blank}
use codex_oauth_proxy.Prelude.{
  ℕ, zero, suc, ◌+◌, ◌≤◌, ◌==◌, ◌≡◌, refl, ap, ◌∙◌, arith, Bool, true, false, not, ◌||◌,
  if◌then◌else◌, List, ◌∷◌, Option, none, some, Text, length, M, Result, ok, err, ◌>>◌, inl, inr,
  Bool-cases, ltb, leb, is_empty,
}
use codex_oauth_proxy.Failover.Classify.{max_seconds}
use codex_oauth_proxy.Refresh.Exchange.{
  Attempt, max_oauth_refresh_body_bytes, Exchange, not_created, not_sent, unreadable, answered,
  accepted, refresh_codex_token_attempt, OauthRefreshResponse, oauth_refresh_retryable,
  new_oauth_refresh_error, max_oauth_refresh_attempts,
}
use codex_oauth_proxy.Refresh.Loop.{
  World, Trace, refresh, refresh_attempts, after_attempt, attempt_result, wait_oauth_refresh_retry,
  reparse_identity, save_auth, saved_as, waited, refreshed_auth, post, sent_post, retry_delay,
}

unfoldable pub is_retried : Attempt → Bool
is_retried (ok r) = false
is_retried (err (e, d)) = oauth_refresh_retryable e

-- `n` more posts of a token.
unfoldable pub posted : ℕ → Text → List Text → List Text
posted zero token posts = posts
posted (suc n) token posts = token ∷ posted n token posts

posted-suc :
    (n : ℕ) (token : Text) (posts : List Text)
    → posted n token (token ∷ posts) ≡ posted (suc n) token posts
unfolding posted
posted-suc zero token posts = refl
posted-suc (suc n) token posts = ap (λ l. token ∷ l) (posted-suc n token posts)

-- Between `low` and `high` posts of the token, and no more waits than posts.
abbrev Posts : Text → ℕ → ℕ → Trace → Trace → Type 0
Posts token low high s t =
    (n : ℕ) × (low ≤ n)
    × (n ≤ high)
    × (t.posts ≡ posted n token s.posts)
    × (length t.waits ≤ length s.waits + n)

abbrev IsAttempted : Auth → ℕ → (Trace → Result Error Auth × Trace) → Type 0
IsAttempted a left run = (s : Trace) → Posts a.refresh_token 0 left s (run s).1

saved_as-Posts :
    (a b : Auth) (left : ℕ) (o : Option Error) (s : Trace)
    → Posts a.refresh_token 1 (suc left) s (saved_as b o (post a.refresh_token s)).1
unfolding saved_as posted
saved_as-Posts a b left none s = (1, omega arith, omega arith, refl, omega arith)
saved_as-Posts a b left (some e) s = (1, omega arith, omega arith, refl, omega arith)

retried-Posts :
    (a : Auth) (left d : ℕ) (again : M Trace Error Auth) (o : Option Error) (s : Trace)
    → IsAttempted a left again
    → Posts a.refresh_token 1
        (suc left)
        s
        ((waited o >> again) (record (post a.refresh_token s) { waits = d ∷ s.waits })).1
unfolding waited posted
retried-Posts a left d again (some e) s h = (1, omega arith, omega arith, refl, omega arith)
retried-Posts a left d again none s h =
    let (n, low, high, posts, waits) =
      h (record (post a.refresh_token s) { waits = d ∷ s.waits }) in
    (suc n, omega arith, omega arith, posts ∙ posted-suc n a.refresh_token s.posts, omega arith)

after_attempt-Posts :
    (w : World) (a : Auth) (left attempt : ℕ) (again : M Trace Error Auth) (r : Attempt) (s : Trace)
    → IsAttempted a left again
    → Posts a.refresh_token 1
        (suc left)
        s
        (after_attempt w a attempt again r (post a.refresh_token s)).1
unfolding after_attempt wait_oauth_refresh_retry save_auth posted
after_attempt-Posts w a left attempt again (ok r) s h =
    saved_as-Posts a (refreshed_auth w attempt a r) left (w.save (refreshed_auth w attempt a r)) s
after_attempt-Posts w a left attempt again (err (e, d)) s h =
    elim (Bool-cases (attempt == max_oauth_refresh_attempts || not (oauth_refresh_retryable e))) [
      | inl q ↦ rw q (1, omega arith, omega arith, refl, omega arith)
      | inr q ↦
          rw q (retried-Posts a left (retry_delay d attempt) again (w.interrupted attempt) s h)
    ]

-- How many posts an exchange stands for.
abbrev pub post_count : Exchange → ℕ
post_count (not_created e) = 0
post_count (not_sent context n) = 1
post_count (unreadable status n) = 1
post_count (answered answer) = 1

-- A request that cannot be created is not tried again.
pub not_created-retryable :
    (f : Text → Option Time) (now : Time) (e : Error)
    → is_retried (refresh_codex_token_attempt f now (not_created e)) ≡ false
unfolding is_retried refresh_codex_token_attempt oauth_refresh_retryable new_oauth_refresh_error
not_created-retryable f now e = ground arith

sent_post-Posts :
    (w : World) (a : Auth) (left attempt : ℕ) (again : M Trace Error Auth) (x : Exchange)
    (s : Trace)
    → IsAttempted a left again
    → Posts a.refresh_token
        (post_count x)
        (suc left)
        s
        (after_attempt w a attempt again
          (refresh_codex_token_attempt w.parse_http_time (w.clock attempt) x)
          (sent_post x a.refresh_token s)).1
unfolding after_attempt refresh_codex_token_attempt is_retried posted
sent_post-Posts w a left attempt again (not_created e) s h =
    let over = not_created-retryable w.parse_http_time (w.clock attempt) e in
    elim (Bool-cases (attempt == max_oauth_refresh_attempts)) [
      | inl q ↦ rw (over, q) (0, omega arith, omega arith, refl, omega arith)
      | inr q ↦ rw (over, q) (0, omega arith, omega arith, refl, omega arith)
    ]
sent_post-Posts w a left attempt again (not_sent context n) s h =
    after_attempt-Posts w a left attempt again
      (refresh_codex_token_attempt w.parse_http_time (w.clock attempt) (not_sent context n)) s h
sent_post-Posts w a left attempt again (unreadable status n) s h =
    after_attempt-Posts w a left attempt again
      (refresh_codex_token_attempt w.parse_http_time (w.clock attempt) (unreadable status n)) s h
sent_post-Posts w a left attempt again (answered answer) s h =
    after_attempt-Posts w a left attempt again
      (refresh_codex_token_attempt w.parse_http_time (w.clock attempt) (answered answer)) s h

refresh_attempts-Posts :
    (w : World) (a : Auth) (left attempt : ℕ)
    → IsAttempted a left (refresh_attempts w a left attempt)
unfolding refresh_attempts posted
refresh_attempts-Posts w a zero attempt s = (0, omega arith, omega arith, refl, omega arith)
refresh_attempts-Posts w a (suc left) attempt s =
    let (n, low, high, posts, waits) =
      sent_post-Posts w a left attempt (refresh_attempts w a left (suc attempt))
        (w.exchange attempt a.refresh_token) s (refresh_attempts-Posts w a left (suc attempt)) in
    (n, omega arith, omega arith, posts, omega arith)

-- A refresh of a credential with a refresh token posts that token three times at most, and nothing else,
-- whatever the endpoint answers: once at least, if the first request can be created; and it waits no more
-- often than it posts.
pub refresh-posts :
    (w : World) (a : Auth) (s : Trace)
    → is_blank a.refresh_token ≡ false
    → (n : ℕ) × (post_count (w.exchange 1 a.refresh_token) ≤ n)
      × (n ≤ 3)
      × ((refresh w a s).1.posts ≡ posted n a.refresh_token s.posts)
      × (length (refresh w a s).1.waits ≤ length s.waits + n)
unfolding refresh refresh_attempts
refresh-posts w a s h = rw h (
    sent_post-Posts w a 2 1 (refresh_attempts w a 2 2) (w.exchange 1 a.refresh_token) s
      (refresh_attempts-Posts w a 2 2))

-- What a run leaves of the files: the credential that it returns is saved, and one that fails saves none.
abbrev pub IsSaved : Trace → Result Error Auth × Trace → Type 0
IsSaved s (ok b, t) = (t.saved ≡ b ∷ s.saved) × (is_empty b.access_token ≡ false)
IsSaved s (err e, t) = t.saved ≡ s.saved

saved_as-IsSaved :
    (b : Auth) (o : Option Error) (s : Trace)
    → is_empty b.access_token ≡ false
    → IsSaved s (saved_as b o s)
unfolding saved_as
saved_as-IsSaved b none s h = (refl, h)
saved_as-IsSaved b (some e) s h = refl

retried-IsSaved :
    (again : M Trace Error Auth) (o : Option Error) (s : Trace)
    → ((t : Trace) → IsSaved t (again t))
    → IsSaved s ((waited o >> again) s)
unfolding waited
retried-IsSaved again none s h = h s
retried-IsSaved again (some e) s h = refl

-- An exchange that is accepted has an access token.
abbrev HasToken : Attempt → Type 0
HasToken (ok r) = is_empty r.access_token ≡ false
HasToken (err e) = Unit

after_attempt-IsSaved :
    (w : World) (a : Auth) (attempt : ℕ) (again : M Trace Error Auth) (r : Attempt) (s : Trace)
    → HasToken r
    → ((t : Trace) → IsSaved t (again t))
    → IsSaved s (after_attempt w a attempt again r s)
unfolding after_attempt wait_oauth_refresh_retry save_auth refreshed_auth reparse_identity
after_attempt-IsSaved w a attempt again (ok r) s h k =
    saved_as-IsSaved (refreshed_auth w attempt a r) (w.save (refreshed_auth w attempt a r)) s h
after_attempt-IsSaved w a attempt again (err (e, d)) s h k =
    elim (Bool-cases (attempt == max_oauth_refresh_attempts || not (oauth_refresh_retryable e))) [
      | inl q ↦ rw q refl
      | inr q ↦ rw q (retried-IsSaved again (w.interrupted attempt) _ k)
    ]

if_cases :
    {A : Type 0} (P : A → Type 0) (b : Bool) (x y : A)
    → (b ≡ true → P x)
    → (b ≡ false → P y)
    → P (if b then x else y)
if_cases P true x y f g = f refl
if_cases P false x y f g = g refl

accepted-HasToken : (status : ℕ) (o : Option OauthRefreshResponse) → HasToken (accepted status o)
unfolding accepted
accepted-HasToken status none = tt
accepted-HasToken status (some r) =
    if_cases HasToken (is_blank r.access_token) _ _ (λ h. tt)
      (λ h.
        if_cases HasToken (r.expires_in_negative || ltb max_seconds r.expires_in) _ _ (λ k. tt)
          (λ k. h))

attempt-HasToken :
    (f : Text → Option Time) (now : Time) (x : Exchange)
    → HasToken (refresh_codex_token_attempt f now x)
unfolding refresh_codex_token_attempt
attempt-HasToken f now (not_created e) = tt
attempt-HasToken f now (not_sent (some e) n) = tt
attempt-HasToken f now (not_sent none n) = tt
attempt-HasToken f now (unreadable status n) = tt
attempt-HasToken f now (answered x) =
    if_cases HasToken (ltb max_oauth_refresh_body_bytes x.body_length) _ _ (λ h. tt)
      (λ h.
        if_cases HasToken (ltb x.status_code 200 || leb 300 x.status_code) _ _ (λ k. tt)
          (λ k. accepted-HasToken x.status_code x.parsed))

sent_post-IsSaved :
    (x : Exchange) (token : Text) (s : Trace) (r : Result Error Auth × Trace)
    → IsSaved (sent_post x token s) r
    → IsSaved s r
sent_post-IsSaved (not_created e) token s r h = h
sent_post-IsSaved (not_sent context n) token s (ok b, t) h = h
sent_post-IsSaved (not_sent context n) token s (err e, t) h = h
sent_post-IsSaved (unreadable status n) token s (ok b, t) h = h
sent_post-IsSaved (unreadable status n) token s (err e, t) h = h
sent_post-IsSaved (answered answer) token s (ok b, t) h = h
sent_post-IsSaved (answered answer) token s (err e, t) h = h

refresh_attempts-IsSaved :
    (w : World) (a : Auth) (left attempt : ℕ) (s : Trace)
    → IsSaved s (refresh_attempts w a left attempt s)
unfolding refresh_attempts
refresh_attempts-IsSaved w a zero attempt s = refl
refresh_attempts-IsSaved w a (suc left) attempt s =
    let x = w.exchange attempt a.refresh_token in
    sent_post-IsSaved x a.refresh_token s _ (
      after_attempt-IsSaved w a attempt (refresh_attempts w a left (suc attempt))
        (attempt_result w a attempt) (sent_post x a.refresh_token s)
        (attempt-HasToken w.parse_http_time (w.clock attempt) x)
        (refresh_attempts-IsSaved w a left (suc attempt)))

-- A refresh that succeeds returns the credential that it has saved, with an access token; one that fails
-- has saved nothing.
pub refresh-IsSaved : (w : World) (a : Auth) (s : Trace) → IsSaved s (refresh w a s)
unfolding refresh
refresh-IsSaved w a s = elim (Bool-cases (is_blank a.refresh_token)) [
  | inl e ↦ rw e refl
  | inr e ↦ rw e (refresh_attempts-IsSaved w a 3 1 s)
]
