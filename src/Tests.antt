-- ===== src/Tests.antt =====
-- Concrete runs of the operations, to which the theorems apply: the data that the runs share.
mod Requests
mod Registry
mod Sessions
mod Storages
mod Paths
mod Chats
mod Selections
mod Users
mod Refreshes
use codex_oauth_proxy.Base.{Auth, Time, driver}
use codex_oauth_proxy.Health.{AuthHealthState, AuthHealthRegistry}
use codex_oauth_proxy.Health.History.{new_auth_health_registry}
use codex_oauth_proxy.Prelude.{false, [], ◌∷◌, none, some, Text, text}
use codex_oauth_proxy.Store.{UserStore, transient}

abbrev pub auth_a : Auth
auth_a = record {
  id = text "account:a";
  path = text "a.json";
  email = text "a@example.com";
  account_id = text "a";
  access_token = text "token";
  refresh_token = text "refresh";
  id_token = [];
  expires_at = 0;
  disabled = false;
  source_paths = [];
  relative_path = text "a.json";
  source_ids = [];
}

abbrev pub identity_hash : Text → Text
identity_hash t = t

abbrev pub empty_registry : AuthHealthRegistry
empty_registry = new_auth_health_registry []

abbrev pub network_down : AuthHealthState
network_down = record {
  kind = transient;
  reason = text "network";
  retry_at = 100;
  authoritative = false;
  credential_fingerprint = [];
  status_code = 502;
  error_code = [];
  updated_at = 0;
}

abbrev pub down_registry : AuthHealthRegistry
down_registry = record empty_registry { states = (auth_a.id, network_down) ∷ [] }

abbrev pub empty_store : UserStore
empty_store = empty_registry.store

-- The commit fails.
abbrev pub failing_store : UserStore
failing_store = record empty_store {
  script = none ∷ none ∷ none ∷ some (driver (text "disk full")) ∷ [];
}

abbrev pub at_ten : Auth → Time
at_ten a = 10
