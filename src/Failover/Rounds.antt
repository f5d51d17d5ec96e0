-- ===== src/Failover/Rounds.antt =====
-- The outer loop of executeUpstream (internal/codexonly/failover.go): which credentials are
-- allowed, the rounds, and the waits between them.
use codex_oauth_proxy.Auths.{AuthReconcileResult, stable_auth_ids}
use codex_oauth_proxy.Base.{Time, Error, proxy_final, second}
use codex_oauth_proxy.Failover.{UpstreamFailure}
use codex_oauth_proxy.Failover.Loop.{
  Upstream, RetryConfig, Ending, failed, Round, closed, open_round, out_of_fuel, round,
}
use codex_oauth_proxy.Health.{normalize_model_identifier}
use codex_oauth_proxy.Prelude.{
  ℕ, zero, suc, ◌-◌, ◌*◌, Bool, not, ◌||◌, ltb, ◌==◌, if◌then◌else◌, List, [], ◌∷◌, Option, none,
  some, Text, text, Dict, Result, ok, err,
}
use codex_oauth_proxy.Store.{SessionAffinityBinding}

-- The request's result; or the fuel was too little.
pub data Outcome (R : Type 0) : Type 0 where
  finished : Ending R → Outcome R
  starved : Outcome R

abbrev pub empty_binding : SessionAffinityBinding
empty_binding = record { digests = []; binding_digest = []; tenant_scope_digest = []; auth_id = [] }

unfoldable pub model_not_found : Error
model_not_found = proxy_final (record {
  status_code = 404;
  code = text "model_not_found";
  message = text "requested model is unavailable for all configured Codex auths";
  retry_at = 0;
})

module _ {S R : Type 0} (u : Upstream S R) (cfg : RetryConfig) (fuel : ℕ) where
  -- finalProxyError as the request's result.
  abbrev pub conclude : Text → List Text → Dict UpstreamFailure → S → Outcome R × S
  conclude model allowed aggregate s =
      let (e, s') = u.final_proxy_error model aggregate allowed s in (finished (failed e), s')

  abbrev pub or_finish : {A : Type 0} → Result Error A × S → (A → S → Outcome R × S) → Outcome R × S
  or_finish (ok a, s) next = next a s
  or_finish (err e, s) next = (finished (failed e), s)

  -- How long a round waits for the nearest deadline: none if that is further away than the limit.
  unfoldable pub retry_delay : Time → Time → Option ℕ
  retry_delay deadline now =
      let delay = deadline - now in
      if ltb (cfg.max_retry_interval * second) delay then none else some delay

  abbrev pub after_delay : Option ℕ → (ℕ → Outcome R × S) → Outcome R × S → Outcome R × S
  after_delay (some delay) next stop = next delay
  after_delay none next stop = stop

  abbrev pub after_cooldown : Option Time → (Time → Outcome R × S) → Outcome R × S → Outcome R × S
  after_cooldown (some deadline) next stop = next deadline
  after_cooldown none next stop = stop

  -- The end of a round: give up, or wait for the nearest deadline and start the next round.
  unfoldable pub between_rounds :
      Text → List Text → Dict UpstreamFailure → (S → Outcome R × S) → S → Outcome R × S
  unfolding retry_delay
  between_rounds model allowed aggregate next s =
      or_finish (u.nearest_cooldown model aggregate allowed s) (λ nearest s₁.
        after_cooldown nearest
          (λ deadline.
            after_delay (retry_delay deadline (u.current_time s₁))
              (λ delay. or_finish (u.wait delay s₁) (λ _. next))
              (conclude model allowed aggregate s₁))
          (conclude model allowed aggregate s₁))

  abbrev pub rounded :
      Round R × S
      → (Dict UpstreamFailure → SessionAffinityBinding → S → Outcome R × S)
      → Outcome R × S
  rounded (closed x, s) next = (finished x, s)
  rounded (open_round aggregate binding, s) next = next aggregate binding s
  rounded (out_of_fuel, s) next = (starved, s)

  -- `left` counts the rounds that may follow this one: requestRetry - round.
  unfoldable pub rounds :
      ℕ
      → Text
      → Bool
      → List Text
      → Dict UpstreamFailure
      → SessionAffinityBinding
      → S
      → Outcome R × S
  unfolding between_rounds
  rounds zero model replayable allowed aggregate binding s =
      rounded
        (round u model replayable allowed cfg.max_retry_credentials fuel [] 0 aggregate binding s)
        (λ aggregate' _. conclude model allowed aggregate')
  rounds (suc left) model replayable allowed aggregate binding s =
      rounded
        (round u model replayable allowed cfg.max_retry_credentials fuel [] 0 aggregate binding s)
        (λ aggregate' binding' s₁.
          if not replayable || cfg.max_retry_interval == 0
          then conclude model allowed aggregate' s₁
          else between_rounds model allowed aggregate'
              (rounds left model replayable allowed aggregate' binding') s₁)

  abbrev pub known_support : Text → AuthReconcileResult → S → Option (List Text)
  known_support model initial s = elim (normalize_model_identifier model) [
    | none ↦ none
    | some _ ↦ u.supporting_auth_ids model initial.active s
  ]

  abbrev pub start : Text → Bool → List Text → S → Outcome R × S
  start model replayable allowed s =
      rounds cfg.request_retry model replayable allowed [] empty_binding s

  abbrev pub with_support :
      Option (List Text) → Text → Bool → AuthReconcileResult → S → Outcome R × S
  with_support none model replayable initial s =
      start model replayable (stable_auth_ids initial.auths) s
  with_support (some []) model replayable initial s = (finished (failed model_not_found), s)
  with_support (some (id ∷ ids)) model replayable initial s = start model replayable (id ∷ ids) s

  unfoldable pub execute_upstream : Text → Bool → S → Outcome R × S
  unfolding rounds
  execute_upstream model replayable s =
      or_finish (u.reconcile_auths s)
        (λ initial s₁. with_support (known_support model initial s₁) model replayable initial s₁)
