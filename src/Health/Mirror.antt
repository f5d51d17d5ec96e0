-- ===== src/Health/Mirror.antt =====
-- The table auth_health_states against the registry's memory.
use codex_oauth_proxy.Base.{Auth, Time}
use codex_oauth_proxy.Prelude.{
  ◌≡◌, refl, true, false, if◌then◌else◌, List, Option, none, some, Text, text, IsTrimmed,
  trim_space, lookup, insert, remove, lookup-insert, lookup-remove, text_eq_iff, arith, succeeded,
}
use codex_oauth_proxy.Storage.{check_ready}
use codex_oauth_proxy.Storage.Outcomes.{Writes, exec-Writes}
use codex_oauth_proxy.Store.{PersistedAuthHealthState, UserStore}
use codex_oauth_proxy.Health.{AuthHealthState, AuthHealthRegistry, persisted_auth_health_kind}
use codex_oauth_proxy.Health.Rows.{
  put_row, delete_row, sanitized, save_auth_health_state, delete_auth_health_state,
}
use codex_oauth_proxy.Health.Marks.{persists, to_persisted, write_state, forget_state}

-- What a restart needs of a state, and what a row keeps of it.
pub record Keeps (id : Text) (s : AuthHealthState) (row : PersistedAuthHealthState) : Type 0 where
  pub persistent : persists s ≡ true
  pub key : row.auth_id ≡ id
  pub kind : row.kind ≡ s.kind
  pub retry_at : row.retry_at ≡ s.retry_at
  pub fingerprint : row.credential_fingerprint ≡ trim_space s.credential_fingerprint
  pub status_code : row.status_code ≡ s.status_code

-- A row exists exactly for a state that is to survive a restart, and keeps that state.
abbrev pub Agrees : Text → Option AuthHealthState → Option PersistedAuthHealthState → Type 0
Agrees id none none = Unit {0}
Agrees id none (some row) = ⊥
Agrees id (some s) none = persists s ≡ false
Agrees id (some s) (some row) = Keeps id s row

abbrev pub rows : AuthHealthRegistry → List (Text × PersistedAuthHealthState)
rows r = r.store.tables.auth_health_states

abbrev pub Mirrors : AuthHealthRegistry → Type 0
Mirrors r = (id : Text) → Agrees id (lookup id r.states) (lookup id (rows r))

delete-Writes :
    (id : Text) (d : UserStore)
    → Writes (delete_row (trim_space id)) d (delete_auth_health_state id d)
unfolding delete_auth_health_state check_ready
delete-Writes id d =
    ground (arith, exec-Writes (text "delete auth health state") (delete_row (trim_space id)) d)

save-Writes :
    (now : Time) (p : PersistedAuthHealthState) (d : UserStore)
    → Writes (put_row (sanitized now p)) d (save_auth_health_state now p d)
unfolding save_auth_health_state check_ready
save-Writes now p d =
    ground (arith, exec-Writes (text "save auth health state") (put_row (sanitized now p)) d)

module _ (id : Text) (s : AuthHealthState) (trimmed : IsTrimmed id) where
  -- The state's own key, after its row was written or deleted.
  saved-Keeps : (now : Time) → persists s ≡ true → Keeps id s (sanitized now (to_persisted id s))
  unfolding sanitized to_persisted
  saved-Keeps now h = record {
    persistent = h;
    key = trimmed;
    kind = refl;
    retry_at = refl;
    fingerprint = refl;
    status_code = refl;
  }

  -- The table after the state was written or deleted.
  abbrev pub saved :
      Time → List (Text × PersistedAuthHealthState) → List (Text × PersistedAuthHealthState)
  saved now m = if persists s then insert id (sanitized now (to_persisted id s)) m else remove id m

  pub write_state_lem :
      (now : Time) (auth : Auth) (r : AuthHealthRegistry)
      → auth.id ≡ id
      → let w = write_state now auth s r in
        (w.1.states ≡ (if succeeded w.0 then insert id s r.states else r.states))
        × (rows w.1 ≡ (if succeeded w.0 then saved now (rows r) else rows r))
        × (w.1.model_exclusions ≡ r.model_exclusions)
        × (w.1.healthy_epochs ≡ r.healthy_epochs)
  unfolding write_state sanitized to_persisted
  write_state_lem now auth r e =
      ground (arith, trimmed, save-Writes now (to_persisted id s) r.store, delete-Writes id r.store)

  pub saved-Agrees :
      (now : Time) (r : AuthHealthRegistry) (j : Text)
      → Agrees j (lookup j r.states) (lookup j (rows r))
      → Agrees j (lookup j (insert id s r.states)) (lookup j (saved now (rows r)))
  saved-Agrees now r j h = ground (
    arith,
    lookup-insert id j s r.states,
    lookup-insert id j (sanitized now (to_persisted id s)) (rows r),
    lookup-remove id j (rows r),
    text_eq_iff id j,
    saved-Keeps now,
  )

persists-persisted :
    (s : AuthHealthState) → persists s ≡ true → persisted_auth_health_kind s.kind ≡ true
unfolding persists persisted_auth_health_kind
persists-persisted s h = ground arith

module _ (id : Text) (s : AuthHealthState) (trimmed : IsTrimmed id) where
  -- The table after the state was forgotten.
  abbrev pub forgotten :
      List (Text × PersistedAuthHealthState) → List (Text × PersistedAuthHealthState)
  forgotten m = if persisted_auth_health_kind s.kind then remove id m else m

  pub forget_state_lem :
      (r : AuthHealthRegistry)
      → let w = forget_state id s r in
        (w.1.states ≡ (if succeeded w.0 then remove id r.states else r.states))
        × (rows w.1 ≡ (if succeeded w.0 then forgotten (rows r) else rows r))
        × (w.1.model_exclusions ≡ r.model_exclusions)
        × (w.1.healthy_epochs ≡ r.healthy_epochs)
  unfolding forget_state
  forget_state_lem r = ground (arith, trimmed, delete-Writes id r.store)

  pub forgotten-Agrees :
      (r : AuthHealthRegistry) (j : Text)
      → lookup id r.states ≡ some s
      → Agrees j (lookup j r.states) (lookup j (rows r))
      → Agrees j (lookup j (remove id r.states)) (lookup j (forgotten (rows r)))
  forgotten-Agrees r j e h = ground (
    arith,
    lookup-remove id j r.states,
    lookup-remove id j (rows r),
    text_eq_iff id j,
    persists-persisted s,
  )
