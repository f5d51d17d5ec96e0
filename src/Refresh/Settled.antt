-- ===== src/Refresh/Settled.antt =====
-- Which attempt of Refresher.Refresh decides when no wait is interrupted (internal/codexonly/refresh.go):
-- the first one that succeeds or fails for good, and the third at the latest.
use codex_oauth_proxy.Base.{Auth, Error, Time, is_blank}
use codex_oauth_proxy.Prelude.{
  ℕ, ◌-◌, List, Text, suc, ◌==◌, ◌≡◌, refl, ap, ◌∙◌, arith, true, false, not, ◌||◌, if◌then◌else◌,
  [], ◌∷◌, Option, none, some, text, M, Result, ok, err, inl, inr, Bool-cases,
}
use codex_oauth_proxy.Refresh.Exchange.{
  Attempt, Exchange, not_created, not_sent, unreadable, answered, refresh_codex_token_attempt,
  new_oauth_refresh_error,
}
use codex_oauth_proxy.Refresh.Loop.{
  World, Trace, refresh, refresh_attempts, after_attempt, attempt_result, wait_oauth_refresh_retry,
  waited, save_auth, saved_as, refreshed_auth, sent_post, retry_delay,
}
use codex_oauth_proxy.Refresh.Attempts.{posted, is_retried, not_created-retryable}

-- The attempt that decides.
unfoldable pub settled : World → Auth → ℕ
unfolding is_retried
settled w a =
    if is_retried (attempt_result w a 1)
    then if is_retried (attempt_result w a 2) then 3 else 2
    else 1

abbrev save_outcome : Auth → Option Error → Result Error Auth
save_outcome b none = ok b
save_outcome b (some e) = err (new_oauth_refresh_error (text "persistence failed") 0 [] e)

-- What attempt `n` makes of a refresh when it is the last.
unfoldable pub conclusion : World → Auth → ℕ → Attempt → Result Error Auth
conclusion w a n (ok r) = save_outcome (refreshed_auth w n a r) (w.save (refreshed_auth w n a r))
conclusion w a n (err (e, d)) = err e

abbrev IsUninterrupted : World → Type 0
IsUninterrupted w = (n : ℕ) → w.interrupted n ≡ none

-- A run that ends here, without another post.
abbrev Concludes : World → Auth → ℕ → Attempt → Trace → Result Error Auth × Trace → Type 0
Concludes w a n r s x = (x.0 ≡ conclusion w a n r) × (x.1.posts ≡ s.posts)

saved_as-outcome :
    (b : Auth) (o : Option Error) (s : Trace)
    → ((saved_as b o s).0 ≡ save_outcome b o) × ((saved_as b o s).1.posts ≡ s.posts)
unfolding saved_as
saved_as-outcome b none s = (refl, refl)
saved_as-outcome b (some e) s = (refl, refl)

after_attempt-last :
    (w : World) (a : Auth) (n : ℕ) (again : M Trace Error Auth) (r : Attempt) (s : Trace)
    → ((n == 3) || not (is_retried r)) ≡ true
    → Concludes w a n r s (after_attempt w a n again r s)
unfolding after_attempt conclusion is_retried save_auth
after_attempt-last w a n again (ok r) s h =
    saved_as-outcome (refreshed_auth w n a r) (w.save (refreshed_auth w n a r)) s
after_attempt-last w a n again (err (e, d)) s h = rw h (refl, refl)

-- The trace after a failed attempt and the wait that follows.
abbrev waited_trace : ℕ → Attempt → Trace → Trace
waited_trace n (ok r) s = s
waited_trace n (err (e, d)) s = record s { waits = retry_delay d n ∷ s.waits }

after_attempt-again :
    (w : World) (a : Auth) (n : ℕ) (again : M Trace Error Auth) (r : Attempt) (s : Trace)
    → IsUninterrupted w
    → (n == 3) ≡ false
    → is_retried r ≡ true
    → after_attempt w a n again r s ≡ again (waited_trace n r s)
unfolding after_attempt is_retried wait_oauth_refresh_retry waited
after_attempt-again w a n again (ok r) s u h k = ground arith
after_attempt-again w a n again (err (e, d)) s u h k = rw (h, k, u n) refl

waited_trace-posts : (n : ℕ) (r : Attempt) (s : Trace) → (waited_trace n r s).posts ≡ s.posts
waited_trace-posts n (ok r) s = refl
waited_trace-posts n (err (e, d)) s = refl

-- How many posts there are with an exchange, after `k` others.
unfoldable pub posts_with : ℕ → Exchange → ℕ
posts_with k (not_created e) = k
posts_with k (not_sent context n) = suc k
posts_with k (unreadable status n) = suc k
posts_with k (answered answer) = suc k

sent_post-posts :
    (k : ℕ) (x : Exchange) (token : Text) (posts : List Text) (t : Trace)
    → t.posts ≡ posted k token posts
    → (sent_post x token t).posts ≡ posted (posts_with k x) token posts
unfolding posts_with posted
sent_post-posts k (not_created e) token posts t h = h
sent_post-posts k (not_sent context n) token posts t h = ap (λ l. token ∷ l) h
sent_post-posts k (unreadable status n) token posts t h = ap (λ l. token ∷ l) h
sent_post-posts k (answered answer) token posts t h = ap (λ l. token ∷ l) h

-- A request that is tried again was posted.
retried-posts_with :
    (f : Text → Option Time) (now : Time) (k : ℕ) (x : Exchange)
    → is_retried (refresh_codex_token_attempt f now x) ≡ true
    → posts_with k x ≡ suc k
unfolding posts_with
retried-posts_with f now k (not_created e) h = ground (arith, h, not_created-retryable f now e)
retried-posts_with f now k (not_sent context n) h = refl
retried-posts_with f now k (unreadable status n) h = refl
retried-posts_with f now k (answered answer) h = refl

abbrev exchange_of : World → Auth → ℕ → Exchange
exchange_of w a n = w.exchange n a.refresh_token

abbrev pub Settles : World → Auth → Trace → ℕ → Result Error Auth × Trace → Type 0
Settles w a s n x =
    (x.0 ≡ conclusion w a n (attempt_result w a n))
    × (x.1.posts ≡ posted (posts_with (n - 1) (exchange_of w a n)) a.refresh_token s.posts)

attempts_from : (w : World) (a : Auth) (left n : ℕ) (s : Trace) → Result Error Auth × Trace
attempts_from w a left n s =
    after_attempt w a n (refresh_attempts w a left (suc n)) (attempt_result w a n)
      (sent_post (exchange_of w a n) a.refresh_token s)

-- The trace with which the attempt after attempt `n` begins.
after_wait : (w : World) (a : Auth) (n : ℕ) (s : Trace) → Trace
after_wait w a n s =
    waited_trace n (attempt_result w a n) (sent_post (exchange_of w a n) a.refresh_token s)

after_wait-posts :
    (w : World) (a : Auth) (k n : ℕ) (posts : List Text) (s : Trace)
    → is_retried (attempt_result w a n) ≡ true
    → s.posts ≡ posted k a.refresh_token posts
    → (after_wait w a n s).posts ≡ posted (suc k) a.refresh_token posts
unfolding after_wait
after_wait-posts w a k n posts s r h =
    waited_trace-posts n (attempt_result w a n) (sent_post (exchange_of w a n) a.refresh_token s)
    ∙ sent_post-posts k (exchange_of w a n) a.refresh_token posts s h
    ∙ ap (λ m. posted m a.refresh_token posts)
        (retried-posts_with w.parse_http_time (w.clock n) k (exchange_of w a n) r)

next_attempt :
    (w : World) (a : Auth) (left n : ℕ) (s : Trace)
    → IsUninterrupted w
    → (n == 3) ≡ false
    → is_retried (attempt_result w a n) ≡ true
    → attempts_from w a (suc left) n s ≡ attempts_from w a left (suc n) (after_wait w a n s)
unfolding attempts_from refresh_attempts after_wait
next_attempt w a left n s u h k =
    after_attempt-again w a n (refresh_attempts w a (suc left) (suc n)) (attempt_result w a n) _ u h
      k

-- The attempt after `k` others is the last.
last_attempt :
    (w : World) (a : Auth) (left k : ℕ) (posts : List Text) (s : Trace)
    → ((suc k == 3) || not (is_retried (attempt_result w a (suc k)))) ≡ true
    → s.posts ≡ posted k a.refresh_token posts
    → ((attempts_from w a left (suc k) s).0 ≡ conclusion w a (suc k) (attempt_result w a (suc k)))
      × ((attempts_from w a left (suc k) s).1.posts
          ≡ posted (posts_with k (exchange_of w a (suc k))) a.refresh_token posts)
unfolding attempts_from
last_attempt w a left k posts s h p =
    let (same, end) =
      after_attempt-last w a (suc k) (refresh_attempts w a left (suc (suc k)))
        (attempt_result w a (suc k)) (sent_post (exchange_of w a (suc k)) a.refresh_token s) h in
    (same, end ∙ sent_post-posts k (exchange_of w a (suc k)) a.refresh_token posts s p)

via :
    (w : World) (a : Auth) (s : Trace) (n : ℕ) (x y : Result Error Auth × Trace)
    → x ≡ y
    → Settles w a s n y
    → Settles w a s n x
via w a s n x y e h = (ap (λ z. z.0) e ∙ h.0, ap (λ z. z.1.posts) e ∙ h.1)

attempts_from-settled :
    (w : World) (a : Auth) (s : Trace)
    → IsUninterrupted w
    → Settles w a s (settled w a) (attempts_from w a 2 1 s)
unfolding settled posted
attempts_from-settled w a s u =
    let t = after_wait w a 1 s in
    let t' = after_wait w a 2 t in
    elim (Bool-cases (is_retried (attempt_result w a 1))) [
      | inr one ↦ rw one (last_attempt w a 2 0 s.posts s (rw one refl) refl)
      | inl one ↦
          let posts = after_wait-posts w a 0 1 s.posts s one refl in
          elim (Bool-cases (is_retried (attempt_result w a 2))) [
            | inr two ↦
                rw (one, two)
                  (via w a s 2 (attempts_from w a 2 1 s) (attempts_from w a 1 2 t)
                    (next_attempt w a 1 1 s u refl one)
                    (last_attempt w a 1 1 s.posts t (rw two refl) posts))
            | inl two ↦
                rw (one, two)
                  (via w a s 3 (attempts_from w a 2 1 s) (attempts_from w a 0 3 t')
                    (next_attempt w a 1 1 s u refl one ∙ next_attempt w a 0 2 t u refl two)
                    (last_attempt w a 0 2 s.posts t' refl
                      (after_wait-posts w a 1 2 s.posts t two posts)))
          ]
    ]

-- A refresh with a refresh token, whose waits are not interrupted, returns what the deciding attempt makes
-- of it, and has posted the token once for each attempt up to that one, but for the deciding one if its
-- request could not be created.
pub refresh-settled :
    (w : World) (a : Auth) (s : Trace)
    → is_blank a.refresh_token ≡ false
    → ((n : ℕ) → w.interrupted n ≡ none)
    → ((refresh w a s).0 ≡ conclusion w a (settled w a) (attempt_result w a (settled w a)))
      × ((refresh w a s).1.posts
          ≡ posted
              (posts_with (settled w a - 1) (w.exchange (settled w a) a.refresh_token))
              a.refresh_token
              s.posts)
unfolding refresh refresh_attempts attempts_from
refresh-settled w a s h u = rw h (attempts_from-settled w a s u)
