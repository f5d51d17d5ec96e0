-- ===== src/Health/History.antt =====
-- Histories of the registry: any sequence of its operations, with any outcomes of the database.
use codex_oauth_proxy.Auths.{AuthReconcileResult}
use codex_oauth_proxy.Base.{Auth, Time, Error}
use codex_oauth_proxy.Prelude.{ℕ, List, [], ◌∷◌, Option, Text, IsTrimmed, All, lookup}
use codex_oauth_proxy.Storage.{new_storage_failure_state}
use codex_oauth_proxy.Health.{AuthHealthState, AuthHealthRegistry}
use codex_oauth_proxy.Health.Invariant.{
  IsValid, mark_unavailable-IsValid, clear_cooldown-IsValid, mark_healthy-IsValid,
  mark_credential_healthy-IsValid, mark_model_unsupported-IsValid,
}
use codex_oauth_proxy.Health.Lifecycle.{prune_expired, reconcile}
use codex_oauth_proxy.Health.Marks.{
  mark_unavailable, clear_cooldown, mark_healthy, mark_credential_healthy, mark_model_unsupported,
}
use codex_oauth_proxy.Health.Models.{none-AreValid}
use codex_oauth_proxy.Health.Upkeep.{prune_expired-IsValid, reconcile-IsValid}

-- A call of the registry, with the instants that it reads.
pub data Event : Type 0 where
  failed : (now later : Time) → Auth → AuthHealthState → Event
  cleared : Auth → Event
  succeeded : Time → Auth → Text → Event
  repaired : Auth → Event
  unsupported : (now later : Time) → Auth → Text → ℕ → Text → Event
  pruned : Time → Event
  reconciled : Time → AuthReconcileResult → Event

-- Stable ids have no white space around them (stableAuthID trims what it builds them from).
abbrev pub HasTrimmedIds : Event → Type 0
HasTrimmedIds (failed now later auth s) = IsTrimmed auth.id
HasTrimmedIds (cleared auth) = IsTrimmed auth.id
HasTrimmedIds (succeeded now auth model) = IsTrimmed auth.id
HasTrimmedIds (repaired auth) = IsTrimmed auth.id
HasTrimmedIds (unsupported now later auth model status code) = IsTrimmed auth.id
HasTrimmedIds (pruned now) = Unit
HasTrimmedIds (reconciled now result) = All (λ c. IsTrimmed c.id) result.changes

module _ (sha256_hex : Text → Text) where
  -- The registry after a call, whether it succeeded or failed.
  unfoldable pub step : Event → AuthHealthRegistry → AuthHealthRegistry
  step (failed now later auth s) r = (mark_unavailable sha256_hex now later auth s r).1
  step (cleared auth) r = (clear_cooldown auth r).1
  step (succeeded now auth model) r = (mark_healthy now auth model r).1
  step (repaired auth) r = (mark_credential_healthy auth r).1
  step (unsupported now later auth model status code) r =
      (mark_model_unsupported sha256_hex now later auth model status code r).1
  step (pruned now) r = (prune_expired now r).1
  step (reconciled now result) r = (reconcile sha256_hex now result r).1

  unfoldable pub run : List Event → AuthHealthRegistry → AuthHealthRegistry
  unfolding step
  run [] r = r
  run (e ∷ es) r = run es (step e r)

  step-IsValid :
      (e : Event) (r : AuthHealthRegistry) → HasTrimmedIds e → IsValid r → IsValid (step e r)
  unfolding step
  step-IsValid (failed now later auth s) r t v =
      mark_unavailable-IsValid auth t sha256_hex now later s r v
  step-IsValid (cleared auth) r t v = clear_cooldown-IsValid auth t r v
  step-IsValid (succeeded now auth model) r t v = mark_healthy-IsValid auth t now model r v
  step-IsValid (repaired auth) r t v = mark_credential_healthy-IsValid auth t r v
  step-IsValid (unsupported now later auth model status code) r t v =
      mark_model_unsupported-IsValid auth t sha256_hex now later model status code r v
  step-IsValid (pruned now) r t v = prune_expired-IsValid now r v
  step-IsValid (reconciled now result) r t v = reconcile-IsValid sha256_hex now result r t v

  -- After any history whose ids are trimmed, in which any of the database calls may have failed, the
  -- table auth_health_states holds exactly the states in memory that are to survive a restart, each
  -- with its kind, deadline, fingerprint and status, and no credential has more than 64 exclusions.
  pub run-IsValid :
      (es : List Event) (r : AuthHealthRegistry)
      → All HasTrimmedIds es
      → IsValid r
      → IsValid (run es r)
  unfolding run
  run-IsValid [] r t v = v
  run-IsValid (e ∷ es) r t v = run-IsValid es (step e r) t.1 (step-IsValid e r t.0 v)

-- newAuthHealthRegistry over an empty table; `script` says how the database's calls will end.
unfoldable pub new_auth_health_registry : List (Option Error) → AuthHealthRegistry
new_auth_health_registry script = record {
  store = record {
    tables = record { auth_health_states = []; session_affinity_bindings = [] };
    script = script;
    failures = new_storage_failure_state;
  };
  states = [];
  model_exclusions = [];
  healthy_epochs = [];
}

pub new_auth_health_registry-IsValid :
    (script : List (Option Error)) → IsValid (new_auth_health_registry script)
unfolding new_auth_health_registry lookup
new_auth_health_registry-IsValid script = record {
  mirrors = λ id. tt;
  unique = tt;
  models = λ id. none-AreValid;
  keys = tt;
}
