-- ===== src/Health/Lifecycle.antt =====
-- The registry over time: Restore at start-up, PruneExpired, and Reconcile after each scan of the
-- credential files (auth_health.go). A range over a map goes through the
-- entries that it has when the range starts.
use codex_oauth_proxy.Auths.{
  AuthChange, AuthChangeKind, auth_added, auth_updated, auth_removed, AuthReconcileResult,
  auths_by_stable_id, stable_auth_ids,
}
use codex_oauth_proxy.Base.{Auth, Time, Error, is_zero, after}
use codex_oauth_proxy.Prelude.{
  Bool, true, not, ◌&&◌, ◌||◌, leb, length, if◌then◌else◌, List, [], ◌∷◌, Option, none, some, Text,
  Dict, insert, lookup, remove, text_eq, M, ok, ◌>>=◌, ◌>>◌, return,
}
use codex_oauth_proxy.Store.{PersistedAuthHealthState, UserStore}
use codex_oauth_proxy.Health.{
  AuthHealthState, AuthModelExclusion, AuthHealthRegistry, auth_credential_fingerprint,
  credential_health_kind, is_quota,
}
use codex_oauth_proxy.Health.Queries.{expired}
use codex_oauth_proxy.Health.Rows.{
  delete_auth_health_state, delete_auth_health_except_auth_ids, load_auth_health_states,
}
use codex_oauth_proxy.Health.Marks.{on_store, forget_state, bump_epoch, put_models}

-- The state that a row is restored to.
unfoldable pub of_row : PersistedAuthHealthState → AuthHealthState
of_row row = record {
  kind = row.kind;
  reason = row.reason;
  retry_at = row.retry_at;
  authoritative = is_quota row.kind;
  credential_fingerprint = row.credential_fingerprint;
  status_code = row.status_code;
  error_code = row.error_code;
  updated_at = row.updated_at;
}

abbrev row_expired : PersistedAuthHealthState → Time → Bool
row_expired row now = not (is_zero row.retry_at) && not (after row.retry_at now)

-- pruneExpiredLocked, over the entries of the map.
unfoldable pub prune_entries : Time → Dict AuthHealthState → M AuthHealthRegistry Error (Unit {0})
prune_entries now [] = return tt
prune_entries now ((id, s) ∷ rest) =
    let others = prune_entries now rest in
    if expired s now then forget_state id s >> others else others

unfoldable pub prune_expired_locked : Time → M AuthHealthRegistry Error (Unit {0})
unfolding prune_entries
prune_expired_locked now r = prune_entries now r.states r

unfoldable pub prune_expired : Time → M AuthHealthRegistry Error (Unit {0})
unfolding prune_expired_locked
prune_expired now = prune_expired_locked now

unfoldable pub drop_history : Text → M AuthHealthRegistry Error (Unit {0})
drop_history id r = (
  ok tt,
  record r {
    model_exclusions = remove id r.model_exclusions;
    healthy_epochs = remove id r.healthy_epochs;
  },
)

-- An AuthRemoved change. A delete of a key that a map lacks changes nothing.
unfoldable pub forget_auth : Text → M AuthHealthRegistry Error (Unit {0})
unfolding drop_history forget_state
forget_auth id r = elim (lookup id r.states) [
  | none ↦ drop_history id r
  | some s ↦ (forget_state id s >> drop_history id) r
]

abbrev pub keep_fingerprint : Text → Dict AuthModelExclusion → Dict AuthModelExclusion
keep_fingerprint fingerprint [] = []
keep_fingerprint fingerprint ((m, e) ∷ rest) =
    if text_eq e.fingerprint fingerprint
    then (m, e) ∷ keep_fingerprint fingerprint rest
    else keep_fingerprint fingerprint rest

-- The exclusions that were learnt with the present credentials; an empty map goes.
abbrev pub refresh_exclusions :
    Text → Text → Dict (Dict AuthModelExclusion) → Dict (Dict AuthModelExclusion)
refresh_exclusions id fingerprint m = elim (lookup id m) [
  | none ↦ m
  | some models ↦
      if leb 1 (length models) then put_models id (keep_fingerprint fingerprint models) m else m
]

unfoldable pub refresh_models : Text → Text → M AuthHealthRegistry Error (Unit {0})
refresh_models id fingerprint r =
    (ok tt, record r { model_exclusions = refresh_exclusions id fingerprint r.model_exclusions })

-- A credential's state that was learnt with other tokens goes.
unfoldable pub refresh_state : Text → Text → M AuthHealthRegistry Error (Unit {0})
unfolding forget_state
refresh_state id fingerprint r = elim (lookup id r.states) [
  | none ↦ (ok tt, r)
  | some s ↦
      if credential_health_kind s.kind && not (text_eq s.credential_fingerprint fingerprint)
      then forget_state id s r
      else (ok tt, r)
]

-- An AuthUpdated change, with the fingerprint of the present credentials.
unfoldable pub update_auth : Text → Text → Bool → M AuthHealthRegistry Error (Unit {0})
unfolding refresh_state refresh_models bump_epoch
update_auth id fingerprint credentials_changed = do
  refresh_state id fingerprint
  refresh_models id fingerprint
  if credentials_changed then bump_epoch id else return tt

module _ (sha256_hex : Text → Text) where
  -- The second argument is the credential as the scan read it.
  unfoldable pub apply_change :
      AuthChangeKind → Option Auth → AuthChange → M AuthHealthRegistry Error (Unit {0})
  unfolding forget_auth update_auth
  apply_change auth_added auth c = return tt
  apply_change auth_removed auth c = forget_auth c.id
  apply_change auth_updated none c = return tt
  apply_change auth_updated (some auth) c =
      update_auth c.id (auth_credential_fingerprint sha256_hex auth) c.credentials_changed

  unfoldable pub reconcile_change : Dict Auth → AuthChange → M AuthHealthRegistry Error (Unit {0})
  unfolding apply_change
  reconcile_change by_id c = apply_change c.kind (lookup c.id by_id) c

  unfoldable pub reconcile_changes :
      Dict Auth → List AuthChange → M AuthHealthRegistry Error (Unit {0})
  reconcile_changes by_id [] = return tt
  reconcile_changes by_id (c ∷ cs) = reconcile_change by_id c >> reconcile_changes by_id cs

  unfoldable pub reconcile : Time → AuthReconcileResult → M AuthHealthRegistry Error (Unit {0})
  unfolding reconcile_changes
  reconcile now result =
      reconcile_changes (auths_by_stable_id result.auths) result.changes >> prune_expired_locked now

  -- Whether a row is stale: its credential is gone, its deadline has passed, or it was learnt with
  -- other tokens.
  unfoldable pub removes_row : Dict Auth → Time → PersistedAuthHealthState → Bool
  removes_row by_id now row = elim (lookup row.auth_id by_id) [
    | none ↦ true
    | some auth ↦
        row_expired row now
        || (credential_health_kind row.kind
            && not
                (text_eq row.credential_fingerprint (auth_credential_fingerprint sha256_hex auth)))
  ]

  unfoldable pub restore_rows :
      Dict Auth
      → Time
      → Dict AuthHealthState
      → List PersistedAuthHealthState
      → M UserStore Error (Dict AuthHealthState)
  unfolding of_row
  restore_rows by_id now states [] = return states
  restore_rows by_id now states (row ∷ rows) =
      let dropped = delete_auth_health_state row.auth_id >> restore_rows by_id now states rows in
      let kept = restore_rows by_id now (insert row.auth_id (of_row row) states) rows in
      if removes_row by_id now row then dropped else kept

  unfoldable pub reset : Dict AuthHealthState → M AuthHealthRegistry Error (Unit {0})
  reset states r = (ok tt, record r { states = states; model_exclusions = []; healthy_epochs = [] })

  unfoldable pub restore : Time → List Auth → M AuthHealthRegistry Error (Unit {0})
  unfolding restore_rows reset
  restore now auths = do
    on_store (delete_auth_health_except_auth_ids (stable_auth_ids auths))
    rows ← on_store load_auth_health_states
    states ← on_store (restore_rows (auths_by_stable_id auths) now [] rows)
    reset states
