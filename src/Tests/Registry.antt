-- ===== src/Tests/Registry.antt =====
-- Histories of the registry of credential health (auth_health.go).
use codex_oauth_proxy.Health.Expiry.{unexpired, prune_expired-unexpired}
use codex_oauth_proxy.Health.Lifecycle.{prune_expired}
use codex_oauth_proxy.Health.{persisted_auth_health_kind}
use codex_oauth_proxy.Health.Marks.{forget_state}
use codex_oauth_proxy.Prelude.{insert}
use codex_oauth_proxy.Base.{Time, driver}
use codex_oauth_proxy.Health.{
  normalize_model_identifier, AuthHealthState, AuthHealthRegistry, AuthModelExclusion,
  oldest_model_exclusion,
}
use codex_oauth_proxy.Health.Blocking.{
  is_some, mark_unavailable-blocked, mark_healthy-blocked, after_success,
}
use codex_oauth_proxy.Health.Bounds.{
  IsOldest, oldest_model_exclusion-IsOldest, with_exclusion-bounded,
}
use codex_oauth_proxy.Health.Cooldown.{deadline, Attained, nearest_cooldown-least}
use codex_oauth_proxy.Health.History.{
  Event, run, run-IsValid, new_auth_health_registry, new_auth_health_registry-IsValid,
}
use codex_oauth_proxy.Health.Invariant.{IsValid}
use codex_oauth_proxy.Health.Marks.{persists, mark_unavailable, mark_healthy, with_exclusion}
use codex_oauth_proxy.Health.Queries.{blocked, nearest_cooldown}
use codex_oauth_proxy.Health.Rows.{delete_auth_health_state}
use codex_oauth_proxy.Prelude.{
  ◌≤◌, ◌≡◌, refl, true, List, [], ◌∷◌, none, some, text, Dict, All, length, arith, lookup, ◌⊎◌, ◌<◌,
  IsTrimmed, trim_space, text_eq,
}
use codex_oauth_proxy.Storage.{check_ready, call}
use codex_oauth_proxy.Store.{quota}
use codex_oauth_proxy.Tests.{
  auth_a, identity_hash, empty_registry, network_down, down_registry, at_ten,
}

abbrev quota_reached : AuthHealthState
quota_reached = record network_down { kind = quota; authoritative = true; status_code = 429 }

-- A transient failure, a quota whose row the database does not take, and a success.
abbrev events : List Event
events =
    Event.failed 5 5 auth_a network_down
    ∷ Event.failed 6 6 auth_a quota_reached
    ∷ Event.succeeded 7 auth_a (text "gpt-5")
    ∷ []

abbrev broken_registry : AuthHealthRegistry
broken_registry = new_auth_health_registry (some (driver (text "disk full")) ∷ [])

IsTrimmed-a : IsTrimmed auth_a.id
unfolding trim_space
IsTrimmed-a = refl

run-IsValid_example : IsValid (run identity_hash events broken_registry)
run-IsValid_example =
    run-IsValid identity_hash events broken_registry (IsTrimmed-a, (IsTrimmed-a, (IsTrimmed-a, tt)))
      (new_auth_health_registry-IsValid (some (driver (text "disk full")) ∷ []))

mark_unavailable-blocked_example :
    is_some (
      blocked auth_a
        (text "gpt-5")
        5
        (mark_unavailable identity_hash 5 5 auth_a network_down empty_registry).1)
    ≡ true
unfolding mark_unavailable new_auth_health_registry trim_space lookup persists
    delete_auth_health_state check_ready call
mark_unavailable-blocked_example =
    mark_unavailable-blocked auth_a IsTrimmed-a (text "gpt-5") 5 identity_hash network_down
      empty_registry refl refl

mark_healthy-blocked_example :
    blocked auth_a (text "gpt-5") 9 (mark_healthy 9 auth_a (text "gpt-5") empty_registry).1
    ≡ after_success (lookup auth_a.id empty_registry.states) 9
unfolding mark_healthy new_auth_health_registry trim_space lookup normalize_model_identifier
mark_healthy-blocked_example =
    mark_healthy-blocked auth_a IsTrimmed-a 9 (text "gpt-5") empty_registry refl

nearest_cooldown-least_example :
    ((nearest_cooldown (auth_a ∷ []) (text "gpt-5") 10 at_ten down_registry ≡ none)
      × All (λ a. deadline (text "gpt-5") 10 at_ten down_registry a ≡ 0) (auth_a ∷ []))
    ⊎ ((t : Time) × (nearest_cooldown (auth_a ∷ []) (text "gpt-5") 10 at_ten down_registry ≡ some t)
        × (0 < t)
        × Attained (text "gpt-5") 10 at_ten down_registry t (auth_a ∷ [])
        × All
            (λ a.
              (deadline (text "gpt-5") 10 at_ten down_registry a ≡ 0)
              ⊎ (t ≤ deadline (text "gpt-5") 10 at_ten down_registry a))
            (auth_a ∷ []))
nearest_cooldown-least_example =
    nearest_cooldown-least (text "gpt-5") 10 at_ten down_registry (auth_a ∷ [])

abbrev excluded_at : Time → AuthModelExclusion
excluded_at t = record {
  fingerprint = [];
  reason = [];
  status_code = 404;
  error_code = [];
  updated_at = t;
}

abbrev two_exclusions : Dict AuthModelExclusion
two_exclusions = (text "gpt-5", excluded_at 8) ∷ (text "gpt-4", excluded_at 3) ∷ []

oldest_model_exclusion-IsOldest_example :
    (e : AuthModelExclusion) × IsOldest (oldest_model_exclusion two_exclusions) e two_exclusions
unfolding lookup text_eq
oldest_model_exclusion-IsOldest_example =
    oldest_model_exclusion-IsOldest two_exclusions (omega arith) (refl, (refl, tt))
      (refl, (refl, tt))

with_exclusion-bounded_example :
    length (with_exclusion (text "gpt-6") (excluded_at 9) two_exclusions) ≤ 64
unfolding lookup text_eq
with_exclusion-bounded_example =
    with_exclusion-bounded (text "gpt-6") (excluded_at 9) two_exclusions (refl, (refl, tt))
      (refl, (refl, tt)) (omega arith)

abbrev failed_once : List Event
failed_once = Event.failed 5 5 auth_a network_down ∷ []

abbrev once_failed : AuthHealthRegistry
once_failed = run identity_hash failed_once empty_registry

prune_expired-unexpired_example :
    lookup auth_a.id (prune_expired 200 once_failed).1.states
    ≡ unexpired 200 (lookup auth_a.id once_failed.states)
unfolding run prune_expired new_auth_health_registry trim_space lookup persists
    delete_auth_health_state check_ready call mark_unavailable insert forget_state
    persisted_auth_health_kind
prune_expired-unexpired_example =
    prune_expired-unexpired 200 auth_a.id once_failed
      (run-IsValid identity_hash failed_once empty_registry (IsTrimmed-a, tt)
        (new_auth_health_registry-IsValid []))
      refl
