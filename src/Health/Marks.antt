-- ===== src/Health/Marks.antt =====
-- What a request's outcome does to the registry: MarkUnavailable, ClearCooldown, MarkHealthy,
-- MarkCredentialHealthy and MarkModelUnsupported (auth_health.go). The database is written first, and the maps only if that succeeds.
use codex_oauth_proxy.Base.{Auth, Time, Error, invalid_input, is_zero, after, is_blank}
use codex_oauth_proxy.Prelude.{
  ℕ, ◌+◌, ◌%◌, ◌^◌, Bool, true, false, not, ◌&&◌, ◌||◌, leb, if◌then◌else◌, [], ◌∷◌, none, some,
  Text, text, Dict, insert, lookup, remove, length, M, ok, err, ◌>>=◌, ◌>>◌, return, fail,
}
use codex_oauth_proxy.Store.{PersistedAuthHealthState, UserStore}
use codex_oauth_proxy.Health.{
  AuthHealthState, AuthModelExclusion, AuthHealthRegistry, auth_credential_fingerprint,
  credential_health_kind, persisted_auth_health_kind, preserve_existing_health_state,
  safe_health_text, safe_health_code, is_quota, is_transient, is_invalid_grant, is_unauthorized,
  normalize_model_identifier, oldest_model_exclusion, models_of,
}
use codex_oauth_proxy.Health.Rows.{save_auth_health_state, delete_auth_health_state}

-- A call of the store that the registry holds.
abbrev pub on_store : {A : Type 0} → M UserStore Error A → M AuthHealthRegistry Error A
on_store m r = let (x, store) = m r.store in (x, record r { store = store })

abbrev pub max_model_exclusions_per_auth : ℕ
max_model_exclusions_per_auth = 64

unfoldable pub to_persisted : Text → AuthHealthState → PersistedAuthHealthState
to_persisted id s = record {
  auth_id = id;
  kind = s.kind;
  reason = s.reason;
  retry_at = s.retry_at;
  credential_fingerprint = s.credential_fingerprint;
  status_code = s.status_code;
  error_code = s.error_code;
  updated_at = s.updated_at;
}

-- Which states survive a restart.
unfoldable pub persists : AuthHealthState → Bool
persists s =
    (is_quota s.kind && s.authoritative && not (is_zero s.retry_at))
    || is_invalid_grant s.kind
    || is_unauthorized s.kind

unfoldable pub put_state : Text → AuthHealthState → M AuthHealthRegistry Error (Unit {0})
put_state id s r = (ok tt, record r { states = insert id s r.states })

unfoldable pub drop_state : Text → M AuthHealthRegistry Error (Unit {0})
drop_state id r = (ok tt, record r { states = remove id r.states })

-- The critical section, once the state that is there does not take precedence.
unfoldable pub write_state : Time → Auth → AuthHealthState → M AuthHealthRegistry Error (Unit {0})
unfolding put_state
write_state store_now auth s = do
  on_store (
      if persists s
      then save_auth_health_state store_now (to_persisted auth.id s)
      else delete_auth_health_state auth.id)
  put_state auth.id s

-- healthyEpochs is a map to uint64.
abbrev pub bump : Text → Dict ℕ → Dict ℕ
bump id m = insert id (elim (lookup id m) [ none ↦ 1 | some e ↦ (e + 1) % 2 ^ 64 ]) m

unfoldable pub bump_epoch : Text → M AuthHealthRegistry Error (Unit {0})
bump_epoch id r = (ok tt, record r { healthy_epochs = bump id r.healthy_epochs })

-- The end of ClearCooldown, MarkCredentialHealthy and markHealthyLocked: forget a state.
unfoldable pub forget_state : Text → AuthHealthState → M AuthHealthRegistry Error (Unit {0})
unfolding drop_state
forget_state id s = do
  on_store (if persisted_auth_health_kind s.kind then delete_auth_health_state id else return tt)
  drop_state id

unfoldable pub clear_cooldown : Auth → M AuthHealthRegistry Error Bool
unfolding forget_state bump_epoch
clear_cooldown auth r =
    if is_blank auth.id then (err invalid_input, r) else elim (lookup auth.id r.states) [
      | none ↦ (ok false, r)
      | some s ↦
          let clear = do forget_state auth.id s; bump_epoch auth.id; return true
          in if is_zero s.retry_at || (not (is_quota s.kind) && not (is_transient s.kind))
            then (ok false, r)
            else clear r
    ]

unfoldable pub mark_credential_healthy : Auth → M AuthHealthRegistry Error (Unit {0})
unfolding forget_state bump_epoch
mark_credential_healthy auth r =
    if is_blank auth.id then (err invalid_input, r) else elim (lookup auth.id r.states) [
      | none ↦ (ok tt, r)
      | some s ↦
          if credential_health_kind s.kind
          then (forget_state auth.id s >> bump_epoch auth.id) r
          else (ok tt, r)
    ]

-- An explicit quota deadline that has not passed.
unfoldable pub preserves_quota : AuthHealthState → Time → Bool
preserves_quota s now = is_quota s.kind && s.authoritative && after s.retry_at now

-- The exclusions of a credential; an empty map goes.
abbrev pub put_models :
    Text → Dict AuthModelExclusion → Dict (Dict AuthModelExclusion) → Dict (Dict AuthModelExclusion)
put_models id [] m = remove id m
put_models id (e ∷ rest) m = insert id (e ∷ rest) m

abbrev pub without_exclusion :
    Text → Text → Dict (Dict AuthModelExclusion) → Dict (Dict AuthModelExclusion)
without_exclusion id model m = elim (lookup id m) [
  | none ↦ m
  | some models ↦ put_models id (remove model models) m
]

unfoldable pub include_model : Text → Text → M AuthHealthRegistry Error (Unit {0})
include_model id model r = elim (normalize_model_identifier model) [
  | none ↦ (ok tt, r)
  | some m ↦ (ok tt, record r { model_exclusions = without_exclusion id m r.model_exclusions })
]

-- The first half of markHealthyLocked; the answer is whether a state was cleared.
unfoldable pub clear_state : Time → Auth → M AuthHealthRegistry Error Bool
unfolding forget_state preserves_quota
clear_state now auth r = elim (lookup auth.id r.states) [
  | none ↦ (ok false, r)
  | some s ↦
      if preserves_quota s now then (ok false, r) else (forget_state auth.id s >> return true) r
]

unfoldable pub mark_healthy_locked : Time → Auth → Text → M AuthHealthRegistry Error Bool
unfolding clear_state include_model
mark_healthy_locked now auth model = do
  cleared ← clear_state now auth
  include_model auth.id model
  return cleared

unfoldable pub mark_healthy : Time → Auth → Text → M AuthHealthRegistry Error (Unit {0})
unfolding mark_healthy_locked bump_epoch
mark_healthy now auth model =
    if is_blank auth.id
    then fail invalid_input
    else mark_healthy_locked now auth model >> bump_epoch auth.id

-- The exclusions of one credential with one more: at the limit the oldest makes room.
unfoldable pub with_exclusion :
    Text → AuthModelExclusion → Dict AuthModelExclusion → Dict AuthModelExclusion
with_exclusion model e models = elim (lookup model models) [
  | some _ ↦ insert model e models
  | none ↦
      if leb max_model_exclusions_per_auth (length models)
      then insert model e (remove (oldest_model_exclusion models) models)
      else insert model e models
]

unfoldable pub exclude_model :
    Text → Text → AuthModelExclusion → M AuthHealthRegistry Error (Unit {0})
unfolding with_exclusion
exclude_model id model e r = (
  ok tt,
  record r {
    model_exclusions =
        insert id (with_exclusion model e (models_of id r.model_exclusions)) r.model_exclusions;
  },
)

module _ (sha256_hex : Text → Text) where
  -- The state that MarkUnavailable is about to write.
  unfoldable pub incoming_state : Time → Auth → AuthHealthState → AuthHealthState
  incoming_state now auth s = record s {
    reason = safe_health_text s.reason;
    error_code = safe_health_code s.error_code;
    updated_at = now;
    credential_fingerprint =
        if credential_health_kind s.kind
        then auth_credential_fingerprint sha256_hex auth
        else s.credential_fingerprint;
  }

  -- `now` dates the update and `later` is the reading that decides on the state that is there.
  unfoldable pub mark_unavailable :
      Time → Time → Auth → AuthHealthState → M AuthHealthRegistry Error (Unit {0})
  unfolding write_state incoming_state
  mark_unavailable now later auth s r =
      let incoming = incoming_state now auth s in
      if is_blank auth.id then (err invalid_input, r) else elim (lookup auth.id r.states) [
        | none ↦ write_state now auth incoming r
        | some previous ↦
            if preserve_existing_health_state previous incoming later
            then (ok tt, r)
            else write_state now auth incoming r
      ]

  unfoldable pub mark_model_unsupported :
      Time → Time → Auth → Text → ℕ → Text → M AuthHealthRegistry Error (Unit {0})
  unfolding mark_healthy_locked exclude_model
  mark_model_unsupported now later auth model status_code error_code r =
      if is_blank auth.id then (err invalid_input, r) else elim (normalize_model_identifier model) [
        | none ↦ (err invalid_input, r)
        | some m ↦
            (mark_healthy_locked later auth []
                >> exclude_model auth.id m (record {
                  fingerprint = auth_credential_fingerprint sha256_hex auth;
                  reason = text "model_not_supported";
                  status_code = status_code;
                  error_code = error_code;
                  updated_at = now;
                }))
              r
      ]
