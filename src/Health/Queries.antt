-- ===== src/Health/Queries.antt =====
-- What is asked of the registry: State, Snapshot, Blocked, HealthyEpoch and NearestCooldown
-- (auth_health.go).
use codex_oauth_proxy.Base.{Auth, Time, is_zero, after, before}
use codex_oauth_proxy.Prelude.{
  ℕ, Bool, false, not, ◌&&◌, ◌||◌, if◌then◌else◌, List, [], ◌∷◌, Option, none, some, Text, Dict,
  lookup, text_ltb, trim_space,
}
use codex_oauth_proxy.Store.{model_unsupported}
use codex_oauth_proxy.Health.{
  AuthHealthState, AuthModelExclusion, AuthHealthRegistry, normalize_model_identifier, models_of,
}

unfoldable pub excluded_state : AuthModelExclusion → AuthHealthState
excluded_state e = record {
  kind = model_unsupported;
  reason = e.reason;
  retry_at = 0;
  authoritative = false;
  credential_fingerprint = [];
  status_code = e.status_code;
  error_code = e.error_code;
  updated_at = e.updated_at;
}

-- The exclusion of a model that is a valid identifier, if there is one.
unfoldable pub exclusion_for : Text → Text → AuthHealthRegistry → Option AuthModelExclusion
exclusion_for id model r = elim (normalize_model_identifier model) [
  | none ↦ none
  | some m ↦ lookup m (models_of id r.model_exclusions)
]

unfoldable pub state : Text → Text → AuthHealthRegistry → Option AuthHealthState
unfolding exclusion_for excluded_state
state auth_id model r =
    let id = trim_space auth_id in
    elim (exclusion_for id model r) [ some e ↦ some (excluded_state e) | none ↦ lookup id r.states ]

abbrev pub expired : AuthHealthState → Time → Bool
expired s now = not (is_zero s.retry_at) && not (after s.retry_at now)

unfoldable pub blocked : Auth → Text → Time → AuthHealthRegistry → Option AuthHealthState
unfolding state
blocked auth model now r = elim (state auth.id model r) [
  | none ↦ none
  | some s ↦ if expired s now then none else some s
]

pub record AuthModelHealthState : Type 0 where
  pub model : Text
  pub reason : Text
  pub status_code : ℕ
  pub error_code : Text
  pub updated_at : Time

abbrev insert_by_model :
    AuthModelHealthState → List AuthModelHealthState → List AuthModelHealthState
insert_by_model e [] = e ∷ []
insert_by_model e (f ∷ fs) =
    if text_ltb f.model e.model then f ∷ insert_by_model e fs else e ∷ f ∷ fs

abbrev sort_by_model : Dict AuthModelExclusion → List AuthModelHealthState
sort_by_model [] = []
sort_by_model ((m, e) ∷ rest) =
    insert_by_model
      (record {
        model = m;
        reason = e.reason;
        status_code = e.status_code;
        error_code = e.error_code;
        updated_at = e.updated_at;
      })
      (sort_by_model rest)

unfoldable pub snapshot :
    Text → AuthHealthRegistry → Option AuthHealthState × List AuthModelHealthState
snapshot auth_id r =
    let id = trim_space auth_id in
    (
      lookup id r.states,
      elim (lookup id r.model_exclusions) [ none ↦ [] | some models ↦ sort_by_model models ],
    )

unfoldable pub healthy_epoch : Text → AuthHealthRegistry → ℕ
healthy_epoch auth_id r = elim (lookup (trim_space auth_id) r.healthy_epochs) [
  | none ↦ 0
  | some e ↦ e
]

-- Go's minimum so far, 0 for none, after one more credential. `now` and `at` are two readings.
unfoldable pub nearer : Text → Time → Time → AuthHealthRegistry → Time → Auth → Time
unfolding blocked
nearer model now at r nearest auth = elim (blocked auth model at r) [
  | none ↦ nearest
  | some s ↦
      if is_zero s.retry_at || not (after s.retry_at now)
      then nearest
      else if is_zero nearest || before s.retry_at nearest
      then s.retry_at
      else nearest
]

-- The readings that Blocked makes come from `at`, one for each credential.
unfoldable pub nearest_from :
    Text → Time → (Auth → Time) → AuthHealthRegistry → Time → List Auth → Time
unfolding nearer
nearest_from model now at r nearest [] = nearest
nearest_from model now at r nearest (a ∷ auths) =
    nearest_from model now at r (nearer model now (at a) r nearest a) auths

-- NearestCooldown; the second result of the source is that the first is not the zero time.
unfoldable pub nearest_cooldown :
    List Auth → Text → Time → (Auth → Time) → AuthHealthRegistry → Option Time
unfolding nearest_from
nearest_cooldown auths model now at r =
    let nearest = nearest_from model now at r 0 auths in
    if is_zero nearest then none else some nearest
