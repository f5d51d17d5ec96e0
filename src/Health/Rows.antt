-- ===== src/Health/Rows.antt =====
-- The table auth_health_states: save, load and delete (auth_health.go).
use codex_oauth_proxy.Base.{Time, Error, invalid_input, is_zero}
use codex_oauth_proxy.Prelude.{
  Bool, false, not, ◌&&◌, ◌||◌, if◌then◌else◌, List, [], ◌∷◌, ◌++◌, Text, text, Dict, insert,
  remove, text_eq, text_ltb, is_empty, trim_space, M, ◌>>◌, fail,
}
use codex_oauth_proxy.Storage.{check_ready, exec, query}
use codex_oauth_proxy.Store.{PersistedAuthHealthState, Tables, UserStore}
use codex_oauth_proxy.Health.{
  persisted_auth_health_kind, safe_health_text, safe_health_code, is_quota,
}

-- slices.Contains
unfoldable pub contains : Text → List Text → Bool
contains x [] = false
contains x (y ∷ ys) = text_eq y x || contains x ys

abbrev normalize_from : List Text → List Text → List Text
normalize_from result [] = result
normalize_from result (v ∷ vs) =
    let value = trim_space v in
    normalize_from
      (if is_empty value || contains value result then result else result ++ (value ∷ [])) vs

-- normalizeStrings (session_affinity.go).
unfoldable pub normalize_strings : List Text → List Text
normalize_strings values = normalize_from [] values

-- What SaveAuthHealthState writes; `now` is read only for a state with no update time.
unfoldable pub sanitized : Time → PersistedAuthHealthState → PersistedAuthHealthState
sanitized now s = record {
  auth_id = trim_space s.auth_id;
  kind = s.kind;
  reason = safe_health_text s.reason;
  retry_at = s.retry_at;
  credential_fingerprint = trim_space s.credential_fingerprint;
  status_code = s.status_code;
  error_code = safe_health_code s.error_code;
  updated_at = if is_zero s.updated_at then now else s.updated_at;
}

abbrev pub put_row : PersistedAuthHealthState → Tables → Tables
put_row row t = record t { auth_health_states = insert row.auth_id row t.auth_health_states }

unfoldable pub save_auth_health_state :
    Time → PersistedAuthHealthState → M UserStore Error (Unit {0})
unfolding sanitized
save_auth_health_state now state = do
  check_ready
  let row = sanitized now state
  if is_empty row.auth_id || not (persisted_auth_health_kind row.kind)
      then fail invalid_input
      else if is_quota row.kind && is_zero row.retry_at
      then fail invalid_input
      else exec (text "save auth health state") (put_row row)

abbrev insert_sorted :
    PersistedAuthHealthState → List PersistedAuthHealthState → List PersistedAuthHealthState
insert_sorted r [] = r ∷ []
insert_sorted r (q ∷ qs) =
    if text_ltb r.auth_id q.auth_id then r ∷ q ∷ qs else q ∷ insert_sorted r qs

-- ORDER BY auth_id
unfoldable pub sorted_rows : Dict PersistedAuthHealthState → List PersistedAuthHealthState
sorted_rows [] = []
sorted_rows ((k, r) ∷ m) = insert_sorted r (sorted_rows m)

unfoldable pub load_auth_health_states : M UserStore Error (List PersistedAuthHealthState)
load_auth_health_states = do
  check_ready
  query (text "load auth health states") (λ t. sorted_rows t.auth_health_states)

abbrev pub delete_row : Text → Tables → Tables
delete_row id t = record t { auth_health_states = remove id t.auth_health_states }

unfoldable pub delete_auth_health_state : Text → M UserStore Error (Unit {0})
delete_auth_health_state auth_id = do
  check_ready
  let id = trim_space auth_id
  if is_empty id then fail invalid_input else exec (text "delete auth health state") (delete_row id)

abbrev keep_rows : List Text → Dict PersistedAuthHealthState → Dict PersistedAuthHealthState
keep_rows ids [] = []
keep_rows ids ((k, r) ∷ m) = if contains k ids then (k, r) ∷ keep_rows ids m else keep_rows ids m

-- With no ids left the statement has no WHERE clause, and deletes every row.
unfoldable pub delete_auth_health_except_auth_ids : List Text → M UserStore Error (Unit {0})
delete_auth_health_except_auth_ids auth_ids = do
  check_ready
  let ids = normalize_strings auth_ids
  exec (text "delete unavailable auth health states")
      (λ t. record t { auth_health_states = keep_rows ids t.auth_health_states })
