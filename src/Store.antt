-- ===== src/Store.antt =====
-- The tables of UserStore that selection and health read and write: auth_health_states
-- (internal/codexonly/auth_health.go) and session_affinity_bindings (session_affinity.go). A column
-- that holds an instant holds its RFC 3339 text, which the store parses back to the same instant;
-- the tables hold the instants, and 0 stands for a NULL retry_at.
use codex_oauth_proxy.Base.{Time}
use codex_oauth_proxy.Prelude.{ℕ, Text, List, Dict}
use codex_oauth_proxy.Storage.{Database}

-- `unset` is the empty kind of a zero state.
pub data AuthHealthKind : Type 0 where
  quota invalid_grant unauthorized credential_invalid transient model_unsupported unset :
      AuthHealthKind

pub record PersistedAuthHealthState : Type 0 where
  pub auth_id : Text
  pub kind : AuthHealthKind
  pub reason : Text
  pub retry_at : Time
  pub credential_fingerprint : Text
  pub status_code : ℕ
  pub error_code : Text
  pub updated_at : Time

pub record SessionAffinityRow : Type 0 where
  pub digest : Text
  pub binding_digest : Text
  pub tenant_scope_digest : Text
  pub auth_id : Text
  pub created : Time
  pub updated : Time
  pub expires : Time

pub record SessionAffinityBinding : Type 0 where
  pub digests : List Text
  pub binding_digest : Text
  pub tenant_scope_digest : Text
  pub auth_id : Text

-- A row's key is its primary key: auth_id, session_digest.
pub record Tables : Type 0 where
  pub auth_health_states : Dict PersistedAuthHealthState
  pub session_affinity_bindings : Dict SessionAffinityRow

abbrev pub UserStore : Type 0
UserStore = Database Tables
