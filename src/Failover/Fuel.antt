-- ===== src/Failover/Fuel.antt =====
-- The loop of executeUpstream (internal/codexonly/failover.go) under a limit on the credentials of a round.
use codex_oauth_proxy.Auths.{AuthReconcileResult, stable_auth_ids}
use codex_oauth_proxy.Base.{Auth, Time, Error}
use codex_oauth_proxy.Failover.{UpstreamFailure}
use codex_oauth_proxy.Failover.Loop.{
  Upstream, RetryConfig, Step, ended, continued, Round, closed, open_round, out_of_fuel, round,
  try_auth, stepped, selected, is_no_eligible_auth,
}
use codex_oauth_proxy.Failover.Rounds.{
  Outcome, finished, starved, rounds, between_rounds, execute_upstream, or_finish, after_delay,
  after_cooldown, retry_delay, rounded, with_support, known_support, empty_binding,
}
use codex_oauth_proxy.Failover.Rules.{if_rule}
use codex_oauth_proxy.Prelude.{
  Bool-cases, inl, inr, ℕ, zero, suc, ◌+◌, ◌≤◌, ◌<◌, ◌≡◌, refl, Bool, not, ltb, leb, ◌==◌, ◌&&◌,
  ◌||◌, List, [], ◌∷◌, Option, none, some, Text, Dict, Result, ok, err, arith,
}
use codex_oauth_proxy.Store.{SessionAffinityBinding}

-- The outcome is a result of the request.
abbrev pub IsFinished : {R : Type 0} → Outcome R → Type 0
IsFinished (finished x) = Unit
IsFinished starved = ⊥

abbrev Lasts : {R : Type 0} → Round R → Type 0
Lasts (closed x) = Unit
Lasts (open_round g b) = Unit
Lasts out_of_fuel = ⊥

module _ {S R : Type 0} (u : Upstream S R) (model : Text) (replayable : Bool) where
  module _ (allowed : List Text) where
    stepped-Lasts :
        (x : Step R × S) (next : Dict UpstreamFailure → S → Round R × S)
        → ((g : Dict UpstreamFailure) (s : S) → Lasts (next g s).0)
        → Lasts (stepped u model replayable allowed x next).0
    stepped-Lasts (ended x, s) next k = tt
    stepped-Lasts (continued g, s) next k = k g s

    selected-Lasts :
        (r : Result Error (Auth × SessionAffinityBinding) × S) (on_error : Error → S → Round R × S)
        (next : Auth → SessionAffinityBinding → S → Round R × S)
        → ((e : Error) (s : S) → Lasts (on_error e s).0)
        → ((a : Auth) (b : SessionAffinityBinding) (s : S) → r.0 ≡ ok (a, b) → Lasts (next a b s).0)
        → Lasts (selected u model replayable allowed r on_error next).0
    selected-Lasts (ok (a, b), s) on_error next k k' = k' a b s refl
    selected-Lasts (err e, s) on_error next k k' = k e s

    round-Lasts :
        (limit fuel : ℕ) (tried : List Text) (attempted : ℕ) (g : Dict UpstreamFailure)
        (b : SessionAffinityBinding) (s : S)
        → 0 < limit
        → attempted ≤ limit
        → limit < attempted + fuel
        → Lasts (round u model replayable allowed limit fuel tried attempted g b s).0
    unfolding round
    round-Lasts limit zero tried attempted g b s some_limit within enough = omega arith
    round-Lasts limit (suc fuel) tried attempted g b s some_limit within enough =
        elim (Bool-cases (ltb 0 limit && leb limit attempted)) [
          | inl full ↦ rw full tt
          | inr more ↦ rw more (
              selected-Lasts (u.select_candidate model tried allowed b s) _ _
                (λ e s₁. if_rule (λ (r : Round R × S). Lasts r.0) (is_no_eligible_auth e) tt tt)
                (λ a b' s₁ _.
                  stepped-Lasts (try_auth u model replayable allowed a b' g s₁) _ (λ g' s'.
                    round-Lasts limit fuel (a.id ∷ tried) (attempted + 1) g' b' s' some_limit
                      (ground (arith, more)) (omega arith))))
        ]

    module _ (cfg : RetryConfig) (fuel : ℕ) (limited : 0 < cfg.max_retry_credentials)
        (enough : cfg.max_retry_credentials < fuel) where
      or_finish_finishes :
          {A : Type 0} (r : Result Error A × S) (next : A → S → Outcome R × S)
          → ((a : A) (s : S) → r.0 ≡ ok a → IsFinished (next a s).0)
          → IsFinished (or_finish u cfg fuel r next).0
      or_finish_finishes (ok a, s) next k = k a s refl
      or_finish_finishes (err e, s) next k = tt

      after_delay_finishes :
          (d : Option ℕ) (next : ℕ → Outcome R × S) (stop : Outcome R × S)
          → IsFinished stop.0
          → ((d : ℕ) → IsFinished (next d).0)
          → IsFinished (after_delay u cfg fuel d next stop).0
      after_delay_finishes none next stop h k = h
      after_delay_finishes (some d) next stop h k = k d

      after_cooldown_finishes :
          (d : Option Time) (next : Time → Outcome R × S) (stop : Outcome R × S)
          → IsFinished stop.0
          → ((t : Time) → IsFinished (next t).0)
          → IsFinished (after_cooldown u cfg fuel d next stop).0
      after_cooldown_finishes none next stop h k = h
      after_cooldown_finishes (some t) next stop h k = k t

      between_rounds_finishes :
          (g : Dict UpstreamFailure) (next : S → Outcome R × S) (s : S)
          → ((s' : S) → IsFinished (next s').0)
          → IsFinished (between_rounds u cfg fuel model allowed g next s).0
      unfolding between_rounds
      between_rounds_finishes g next s k =
          or_finish_finishes (u.nearest_cooldown model g allowed s) _ (λ nearest s₁ _.
            after_cooldown_finishes nearest _ _ tt (λ deadline.
              after_delay_finishes (retry_delay u cfg fuel deadline (u.current_time s₁)) _ _ tt
                (λ delay. or_finish_finishes (u.wait delay s₁) _ (λ _ s₂ _. k s₂))))

      rounded_finishes :
          (r : Round R × S)
          (next : Dict UpstreamFailure → SessionAffinityBinding → S → Outcome R × S)
          → Lasts r.0
          → ((g : Dict UpstreamFailure) (b : SessionAffinityBinding) (s : S)
              → IsFinished (next g b s).0)
          → IsFinished (rounded u cfg fuel r next).0
      rounded_finishes (closed x, s) next h k = tt
      rounded_finishes (open_round g b, s) next h k = k g b s
      rounded_finishes (out_of_fuel, s) next h k = elim h [ ]

      rounds_finish :
          (left : ℕ) (g : Dict UpstreamFailure) (b : SessionAffinityBinding) (s : S)
          → IsFinished (rounds u cfg fuel left model replayable allowed g b s).0
      unfolding rounds
      rounds_finish zero g b s =
          rounded_finishes
            (round u model replayable allowed cfg.max_retry_credentials fuel [] 0 g b s) _
            (round-Lasts cfg.max_retry_credentials fuel [] 0 g b s limited (omega arith)
              (omega arith))
            (λ g' _ s'. tt)
      rounds_finish (suc left) g b s =
          rounded_finishes
            (round u model replayable allowed cfg.max_retry_credentials fuel [] 0 g b s) _
            (round-Lasts cfg.max_retry_credentials fuel [] 0 g b s limited (omega arith)
              (omega arith))
            (λ g' b' s₁.
              if_rule (λ (r : Outcome R × S). IsFinished r.0)
                (not replayable || cfg.max_retry_interval == 0) tt
                (between_rounds_finishes g' (rounds u cfg fuel left model replayable allowed g' b')
                  s₁ (λ s₂. rounds_finish left g' b' s₂)))

  module _ (cfg : RetryConfig) (fuel : ℕ) (limited : 0 < cfg.max_retry_credentials)
      (enough : cfg.max_retry_credentials < fuel) where
    start_finishes :
        (known : Option (List Text)) (initial : AuthReconcileResult) (s : S)
        → IsFinished (with_support u cfg fuel known model replayable initial s).0
    start_finishes none initial s =
        rounds_finish (stable_auth_ids initial.auths) cfg fuel limited enough cfg.request_retry []
          empty_binding s
    start_finishes (some []) initial s = tt
    start_finishes (some (id ∷ ids)) initial s =
        rounds_finish (id ∷ ids) cfg fuel limited enough cfg.request_retry [] empty_binding s

    -- With a limit on the credentials of a round, fuel above the limit is enough for every round: the request
    -- gets a result, whatever credentials the selection answers with, and however often the same.
    pub execute_upstream_finishes :
        (s : S) → IsFinished (execute_upstream u cfg fuel model replayable s).0
    unfolding execute_upstream
    execute_upstream_finishes s = finish_after (u.reconcile_auths s)
      where
        finish_after :
            (r : Result Error AuthReconcileResult × S)
            → IsFinished
                (or_finish u cfg fuel r (λ a s₁.
                  with_support u cfg fuel
                    (known_support u cfg fuel model a s₁)
                    model
                    replayable
                    a
                    s₁)).0
        finish_after (ok a, s₁) = start_finishes (known_support u cfg fuel model a s₁) a s₁
        finish_after (err e, s₁) = tt
