-- ===== src/Failover/Totals.antt =====
-- How often executeUpstream (internal/codexonly/failover.go) sends a request: once if it cannot be repeated,
-- and within the configured limits if it can.
use codex_oauth_proxy.Auths.{AuthReconcileResult, stable_auth_ids}
use codex_oauth_proxy.Base.{Auth, Time, Error}
use codex_oauth_proxy.Failover.{UpstreamFailure}
use codex_oauth_proxy.Failover.Loop.{
  Upstream, RetryConfig, Step, ended, continued, failed, Round, closed, open_round, out_of_fuel,
  round, try_auth, stepped, selected, is_no_eligible_auth,
}
use codex_oauth_proxy.Failover.Rounds.{
  Outcome, rounds, between_rounds, execute_upstream, or_finish, after_delay, after_cooldown,
  retry_delay, rounded, conclude, with_support, known_support, empty_binding,
}
use codex_oauth_proxy.Failover.Rules.{if_rule}
use codex_oauth_proxy.Failover.Sent.{
  Counts, Budget, Budget-true_inv, Budget-false_ended, Budget-false_continued, try_auth-Budget,
}
use codex_oauth_proxy.Prelude.{
  ℕ, zero, suc, ◌+◌, ◌-◌, ◌*◌, ◌≤◌, ◌<◌, ◌≡◌, inl, inr, if◌then◌else◌, Bool, true, false, not, ltb,
  leb, ◌==◌, ◌&&◌, ◌||◌, List, [], ◌∷◌, Option, none, some, Text, Dict, Result, ok, err, arith,
  Bool-cases,
}
use codex_oauth_proxy.Store.{SessionAffinityBinding}

one_more : (left m : ℕ) → (suc left + 1) * m ≡ (left + 1) * m + m
one_more left m = grind arith

module _ {S R : Type 0} (u : Upstream S R) (sent : S → ℕ) (c : Counts u sent) (model : Text) where
  module _ (allowed : List Text) where
    -- After a step that cannot be repeated, only one that sent nothing leads on.
    stepped_once :
        (s₀ : S) (x : Step R × S) (next : Dict UpstreamFailure → S → Round R × S)
        → Budget u sent c model false s₀ x
        → ((g : Dict UpstreamFailure) (s : S) → sent (next g s).1 ≤ sent s + 1)
        → sent (stepped u model false allowed x next).1 ≤ sent s₀ + 1
    stepped_once s₀ (ended x, s) next h k = Budget-false_ended u sent c model s₀ x s h
    stepped_once s₀ (continued g, s) next h k =
        omega (arith, k g s, Budget-false_continued u sent c model s₀ g s h)

    stepped_repeated :
        (n : ℕ) (s₀ : S) (x : Step R × S) (next : Dict UpstreamFailure → S → Round R × S)
        → Budget u sent c model true s₀ x
        → ((g : Dict UpstreamFailure) (s : S) → sent (next g s).1 ≤ sent s + n)
        → sent (stepped u model true allowed x next).1 ≤ sent s₀ + (n + 2)
    stepped_repeated n s₀ (ended x, s) next h k =
        omega (arith, Budget-true_inv u sent c model s₀ (ended x, s) h)
    stepped_repeated n s₀ (continued g, s) next h k =
        omega (arith, k g s, Budget-true_inv u sent c model s₀ (continued g, s) h)

    -- Whatever a selection leads to, if it sends no more than `n` requests where it succeeds.
    selected_within :
        (replayable : Bool) (n : ℕ) (s₀ : S) (r : Result Error (Auth × SessionAffinityBinding) × S)
        (on_error : Error → S → Round R × S)
        (next : Auth → SessionAffinityBinding → S → Round R × S)
        → sent r.1 ≤ sent s₀
        → ((e : Error) (s : S) → sent (on_error e s).1 ≤ sent s + n)
        → ((a : Auth) (b : SessionAffinityBinding) (s : S) → sent (next a b s).1 ≤ sent s + n)
        → sent (selected u model replayable allowed r on_error next).1 ≤ sent s₀ + n
    selected_within replayable n s₀ (ok (a, b), s) on_error next h k k' = omega (arith, k' a b s)
    selected_within replayable n s₀ (err e, s) on_error next h k k' = omega (arith, k e s)

    no_candidate_within :
        (n : ℕ) (g : Dict UpstreamFailure) (b : SessionAffinityBinding) (e : Error) (s : S)
        → sent
            (if◌then◌else◌ {A = Round R × S}
              (is_no_eligible_auth e)
              (open_round g b, s)
              (closed (failed e), s)).1
          ≤ sent s + n
    no_candidate_within n g b e s =
        if_rule (λ (r : Round R × S). sent r.1 ≤ sent s + n) (is_no_eligible_auth e) (omega arith)
          (omega arith)

    round_once :
        (limit fuel : ℕ) (tried : List Text) (attempted : ℕ) (g : Dict UpstreamFailure)
        (b : SessionAffinityBinding) (s : S)
        → sent (round u model false allowed limit fuel tried attempted g b s).1 ≤ sent s + 1
    unfolding round
    round_once limit zero tried attempted g b s = omega arith
    round_once limit (suc fuel) tried attempted g b s =
        if_rule (λ (r : Round R × S). sent r.1 ≤ sent s + 1) (ltb 0 limit && leb limit attempted)
          (omega arith)
          (selected_within false 1 s (u.select_candidate model tried allowed b s) _ _
            (omega (arith, c.of_select model tried allowed b s)) (no_candidate_within 1 g b)
            (λ a b' s₁.
              stepped_once s₁ (try_auth u model false allowed a b' g s₁) _
                (try_auth-Budget u sent c model false allowed a b' g s₁)
                (λ g' s'. round_once limit fuel (a.id ∷ tried) (attempted + 1) g' b' s')))

    -- With a limit, each credential of a round costs two requests.
    round_limited :
        (limit fuel : ℕ) (tried : List Text) (attempted : ℕ) (g : Dict UpstreamFailure)
        (b : SessionAffinityBinding) (s : S)
        → 0 < limit
        → sent (round u model true allowed limit fuel tried attempted g b s).1
          ≤ sent s + 2 * (limit - attempted)
    unfolding round
    round_limited limit zero tried attempted g b s h = omega arith
    round_limited limit (suc fuel) tried attempted g b s h =
        elim (Bool-cases (leb limit attempted)) [
          | inl full ↦ ground (arith, full)
          | inr more ↦
              if_rule (λ (r : Round R × S). sent r.1 ≤ sent s + 2 * (limit - attempted))
                (ltb 0 limit && leb limit attempted) (omega arith)
                (selected_within true (2 * (limit - attempted)) s
                  (u.select_candidate model tried allowed b s) _ _
                  (omega (arith, c.of_select model tried allowed b s))
                  (no_candidate_within (2 * (limit - attempted)) g b)
                  (λ a b' s₁. ground (
                    arith,
                    stepped_repeated (2 * (limit - (attempted + 1))) s₁
                        (try_auth u model true allowed a b' g s₁)
                        (λ g'.
                          round u model true allowed limit fuel (a.id ∷ tried) (attempted + 1) g'
                            b')
                        (try_auth-Budget u sent c model true allowed a b' g s₁)
                        (λ g' s'.
                          round_limited limit fuel (a.id ∷ tried) (attempted + 1) g' b' s' h),
                  )))
        ]

    module _ (cfg : RetryConfig) (fuel : ℕ) where
      or_finish_within :
          {A : Type 0} (n : ℕ) (s₀ : S) (r : Result Error A × S) (next : A → S → Outcome R × S)
          → sent r.1 ≤ sent s₀
          → ((a : A) (s : S) → sent (next a s).1 ≤ sent s + n)
          → sent (or_finish u cfg fuel r next).1 ≤ sent s₀ + n
      or_finish_within n s₀ (ok a, s) next h k = omega (arith, k a s)
      or_finish_within n s₀ (err e, s) next h k = omega arith

      conclude_within :
          (n : ℕ) (g : Dict UpstreamFailure) (s : S)
          → sent (conclude u cfg fuel model allowed g s).1 ≤ sent s + n
      conclude_within n g s = omega (arith, c.of_final model g allowed s)

      module _ (n : ℕ) (s : S) (stop : Outcome R × S) (h : sent stop.1 ≤ sent s + n) where
        after_delay_within :
            (d : Option ℕ) (next : ℕ → Outcome R × S)
            → ((d : ℕ) → sent (next d).1 ≤ sent s + n)
            → sent (after_delay u cfg fuel d next stop).1 ≤ sent s + n
        after_delay_within none next k = h
        after_delay_within (some d) next k = k d

        after_cooldown_within :
            (d : Option Time) (next : Time → Outcome R × S)
            → ((t : Time) → sent (next t).1 ≤ sent s + n)
            → sent (after_cooldown u cfg fuel d next stop).1 ≤ sent s + n
        after_cooldown_within none next k = h
        after_cooldown_within (some t) next k = k t

      between_rounds_within :
          (n : ℕ) (g : Dict UpstreamFailure) (next : S → Outcome R × S) (s : S)
          → ((s' : S) → sent (next s').1 ≤ sent s' + n)
          → sent (between_rounds u cfg fuel model allowed g next s).1 ≤ sent s + n
      unfolding between_rounds
      between_rounds_within n g next s k =
          or_finish_within n s (u.nearest_cooldown model g allowed s) _
            (omega (arith, c.of_cooldown model g allowed s))
            (λ nearest s₁.
              after_cooldown_within n s₁ _ (conclude_within n g s₁) nearest _ (λ deadline.
                after_delay_within n s₁ _ (conclude_within n g s₁)
                  (retry_delay u cfg fuel deadline (u.current_time s₁)) _
                  (λ delay.
                    or_finish_within n s₁ (u.wait delay s₁) _ (omega (arith, c.of_wait delay s₁))
                      (λ _ s₂. k s₂))))

      -- A round within `m`, and what follows it within `n`.
      rounded_within :
          (m n : ℕ) (s₀ : S) (r : Round R × S)
          (next : Dict UpstreamFailure → SessionAffinityBinding → S → Outcome R × S)
          → sent r.1 ≤ sent s₀ + m
          → ((g : Dict UpstreamFailure) (b : SessionAffinityBinding) (s : S)
              → sent (next g b s).1 ≤ sent s + n)
          → sent (rounded u cfg fuel r next).1 ≤ sent s₀ + (m + n)
      rounded_within m n s₀ (closed x, s) next h k = omega arith
      rounded_within m n s₀ (open_round g b, s) next h k = omega (arith, k g b s)
      rounded_within m n s₀ (out_of_fuel, s) next h k = omega arith

      rounds_once :
          (left : ℕ) (g : Dict UpstreamFailure) (b : SessionAffinityBinding) (s : S)
          → sent (rounds u cfg fuel left model false allowed g b s).1 ≤ sent s + 1
      unfolding rounds
      rounds_once zero g b s =
          rounded_within 1 0 s
            (round u model false allowed cfg.max_retry_credentials fuel [] 0 g b s) _
            (round_once cfg.max_retry_credentials fuel [] 0 g b s)
            (λ g' _ s'. conclude_within 0 g' s')
      rounds_once (suc left) g b s =
          rounded_within 1 0 s
            (round u model false allowed cfg.max_retry_credentials fuel [] 0 g b s) _
            (round_once cfg.max_retry_credentials fuel [] 0 g b s)
            (λ g' _ s'. conclude_within 0 g' s')

      first_round :
          (g : Dict UpstreamFailure) (b : SessionAffinityBinding) (s : S)
          → 0 < cfg.max_retry_credentials
          → sent (round u model true allowed cfg.max_retry_credentials fuel [] 0 g b s).1
            ≤ sent s + 2 * cfg.max_retry_credentials
      first_round g b s h = omega (arith, round_limited cfg.max_retry_credentials fuel [] 0 g b s h)

      rounds_limited :
          (left : ℕ) (g : Dict UpstreamFailure) (b : SessionAffinityBinding) (s : S)
          → 0 < cfg.max_retry_credentials
          → sent (rounds u cfg fuel left model true allowed g b s).1
            ≤ sent s + (left + 1) * (2 * cfg.max_retry_credentials)
      unfolding rounds
      rounds_limited zero g b s h = omega (
        arith,
        rounded_within (2 * cfg.max_retry_credentials) 0 s
            (round u model true allowed cfg.max_retry_credentials fuel [] 0 g b s)
            (λ g' _. conclude u cfg fuel model allowed g') (first_round g b s h)
            (λ g' _ s'. conclude_within 0 g' s'),
      )
      rounds_limited (suc left) g b s h = omega (
        arith,
        one_more left (2 * cfg.max_retry_credentials),
        rounded_within (2 * cfg.max_retry_credentials)
            ((left + 1) * (2 * cfg.max_retry_credentials)) s
            (round u model true allowed cfg.max_retry_credentials fuel [] 0 g b s)
            (λ g' b' s₁.
              if not true || cfg.max_retry_interval == 0
              then conclude u cfg fuel model allowed g' s₁
              else between_rounds u cfg fuel model allowed g'
                  (rounds u cfg fuel left model true allowed g' b') s₁)
            (first_round g b s h)
            (λ g' b' s₁.
              if_rule
                (λ (r : Outcome R × S).
                  sent r.1 ≤ sent s₁ + (left + 1) * (2 * cfg.max_retry_credentials))
                (not true || cfg.max_retry_interval == 0)
                (conclude_within ((left + 1) * (2 * cfg.max_retry_credentials)) g' s₁)
                (between_rounds_within ((left + 1) * (2 * cfg.max_retry_credentials)) g'
                  (rounds u cfg fuel left model true allowed g' b') s₁
                  (λ s₂. rounds_limited left g' b' s₂ h))),
      )

  start_once :
      (cfg : RetryConfig) (fuel : ℕ) (known : Option (List Text)) (initial : AuthReconcileResult)
      (s : S)
      → sent (with_support u cfg fuel known model false initial s).1 ≤ sent s + 1
  start_once cfg fuel none initial s =
      rounds_once (stable_auth_ids initial.auths) cfg fuel cfg.request_retry [] empty_binding s
  start_once cfg fuel (some []) initial s = omega arith
  start_once cfg fuel (some (id ∷ ids)) initial s =
      rounds_once (id ∷ ids) cfg fuel cfg.request_retry [] empty_binding s

  -- If an attempt sends one request and nothing else sends any, a request that cannot be repeated goes
  -- upstream at most once, whatever the configured retries, the credentials, the store, the clock and the
  -- upstream do.
  pub execute_upstream_once :
      (cfg : RetryConfig) (fuel : ℕ) (s : S)
      → sent (execute_upstream u cfg fuel model false s).1 ≤ sent s + 1
  unfolding execute_upstream
  execute_upstream_once cfg fuel s =
      or_finish_within [] cfg fuel 1 s (u.reconcile_auths s) _ (omega (arith, c.of_reconcile s))
        (λ initial s₁. start_once cfg fuel (known_support u cfg fuel model initial s₁) initial s₁)

  start_limited :
      (cfg : RetryConfig) (fuel : ℕ) (known : Option (List Text)) (initial : AuthReconcileResult)
      (s : S)
      → 0 < cfg.max_retry_credentials
      → sent (with_support u cfg fuel known model true initial s).1
        ≤ sent s + (cfg.request_retry + 1) * (2 * cfg.max_retry_credentials)
  start_limited cfg fuel none initial s h =
      rounds_limited (stable_auth_ids initial.auths) cfg fuel cfg.request_retry [] empty_binding s h
  start_limited cfg fuel (some []) initial s h = omega arith
  start_limited cfg fuel (some (id ∷ ids)) initial s h =
      rounds_limited (id ∷ ids) cfg fuel cfg.request_retry [] empty_binding s h

  -- If an attempt sends one request and nothing else sends any, then with a limit on the credentials of a
  -- round, a request that can be repeated goes upstream at most
  -- twice for each of them, the second time with refreshed tokens, in the first round and in each retry.
  pub execute_upstream_limited :
      (cfg : RetryConfig) (fuel : ℕ) (s : S)
      → 0 < cfg.max_retry_credentials
      → sent (execute_upstream u cfg fuel model true s).1
        ≤ sent s + (cfg.request_retry + 1) * (2 * cfg.max_retry_credentials)
  unfolding execute_upstream
  execute_upstream_limited cfg fuel s h =
      or_finish_within [] cfg fuel ((cfg.request_retry + 1) * (2 * cfg.max_retry_credentials)) s
        (u.reconcile_auths s) _ (omega (arith, c.of_reconcile s))
        (λ initial s₁.
          start_limited cfg fuel (known_support u cfg fuel model initial s₁) initial s₁ h)
