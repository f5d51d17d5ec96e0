-- ===== src/Health/Blocking.antt =====
-- What an outcome does to a credential's eligibility: it is blocked until its deadline, a stronger
-- state is not weakened, and a success unblocks it.
use codex_oauth_proxy.Base.{Auth, Time}
use codex_oauth_proxy.Prelude.{
  ◌≡◌, refl, inl, inr, Bool, true, false, if◌then◌else◌, [], ◌∷◌, Option, none, some, Text, Dict,
  IsTrimmed, lookup, remove, lookup-insert_self, lookup-remove_self, Option-cases, arith, ok,
  succeeded,
}
use codex_oauth_proxy.Health.{
  models_of, normalize_model_identifier, AuthModelExclusion, AuthHealthState, AuthHealthRegistry,
  preserve_existing_health_state,
}
use codex_oauth_proxy.Health.Marks.{
  clear_state, include_model, write_state, incoming_state, mark_unavailable, mark_healthy,
  preserves_quota, put_models, without_exclusion,
}
use codex_oauth_proxy.Health.Mirror.{write_state_lem, forget_state_lem}
use codex_oauth_proxy.Health.Queries.{blocked, exclusion_for, expired}

abbrev pub is_some {ℓ} : {A : Type ℓ} → Option A → Bool
is_some none = false
is_some (some a) = true

-- A credential whose state has not expired is blocked for every model.
blocked_of_state :
    (auth : Auth) (model : Text) (now : Time) (r : AuthHealthRegistry) (s : AuthHealthState)
    → IsTrimmed auth.id
    → lookup auth.id r.states ≡ some s
    → expired s now ≡ false
    → is_some (blocked auth model now r) ≡ true
unfolding blocked
blocked_of_state auth model now r s trimmed here current = ground arith

preserved_current :
    (existing incoming : AuthHealthState) (now : Time)
    → preserve_existing_health_state existing incoming now ≡ true
    → expired existing now ≡ false
unfolding preserve_existing_health_state
preserved_current existing incoming now h = ground arith

module _ (auth : Auth) (trimmed : IsTrimmed auth.id) (model : Text) (now : Time) where
  write_state-blocked :
      (s : AuthHealthState) (r : AuthHealthRegistry)
      → expired s now ≡ false
      → (write_state now auth s r).0 ≡ ok tt
      → is_some (blocked auth model now (write_state now auth s r).1) ≡ true
  write_state-blocked s r current done =
      blocked_of_state auth model now (write_state now auth s r).1 s trimmed
        (rw ((write_state_lem auth.id s trimmed now auth r refl).0, done)
          (lookup-insert_self auth.id s r.states))
        current

  module _ (sha256_hex : Text → Text) where
    -- After MarkUnavailable has succeeded, at one reading of the clock and for a trimmed id, the credential
    -- is blocked for every model, if the deadline
    -- is open or has not passed: either by the state that was reported, or by a stronger one.
    pub mark_unavailable-blocked :
        (s : AuthHealthState) (r : AuthHealthRegistry)
        → expired s now ≡ false
        → (mark_unavailable sha256_hex now now auth s r).0 ≡ ok tt
        → is_some (blocked auth model now (mark_unavailable sha256_hex now now auth s r).1) ≡ true
    unfolding mark_unavailable incoming_state
    mark_unavailable-blocked s r current done = elim (Option-cases (lookup auth.id r.states)) [
      | inl fresh ↦ ground (arith, write_state-blocked (incoming_state sha256_hex now auth s) r)
      | inr (previous, here) ↦ ground (
        arith,
        blocked_of_state auth model now r previous trimmed here,
        preserved_current previous (incoming_state sha256_hex now auth s) now,
        write_state-blocked (incoming_state sha256_hex now auth s) r,
      )
    ]

models_of-put_models :
    (id : Text) (models : Dict AuthModelExclusion) (m : Dict (Dict AuthModelExclusion))
    → models_of id (put_models id models m) ≡ models
models_of-put_models id [] m = rw (lookup-remove_self id m, models_of)
models_of-put_models id (e ∷ rest) m = rw (lookup-insert_self id (e ∷ rest) m, models_of)

lookup-without_exclusion :
    (id model : Text) (m : Dict (Dict AuthModelExclusion))
    → lookup model (models_of id (without_exclusion id model m)) ≡ none
unfolding lookup
lookup-without_exclusion id model m = elim (Option-cases (lookup id m)) [
  | inl e ↦ rw (e, without_exclusion) (rw (e, models_of))
  | inr (models, e) ↦
      rw (e, without_exclusion)
        (rw (models_of-put_models id (remove model models) m) (lookup-remove_self model models))
]

-- The state that a success leaves: an explicit quota deadline that has not passed, or none.
abbrev pub after_success : Option AuthHealthState → Time → Option AuthHealthState
after_success none now = none
after_success (some s) now = if preserves_quota s now then some s else none

module _ (auth : Auth) (trimmed : IsTrimmed auth.id) (now : Time) where
  clear_state_lem :
      (r : AuthHealthRegistry)
      → succeeded (clear_state now auth r).0 ≡ true
      → lookup auth.id (clear_state now auth r).1.states
        ≡ after_success (lookup auth.id r.states) now
  unfolding clear_state
  clear_state_lem r done = elim (Option-cases (lookup auth.id r.states)) [
    | inl fresh ↦ ground arith
    | inr (s, here) ↦
        ground (arith, forget_state_lem auth.id s trimmed r, lookup-remove_self auth.id r.states)
  ]

  exclusion_for-include_model :
      (model : Text) (r : AuthHealthRegistry)
      → exclusion_for auth.id model (include_model auth.id model r).1 ≡ none
  unfolding exclusion_for include_model
  exclusion_for-include_model model r = elim (Option-cases (normalize_model_identifier model)) [
    | inl e ↦ rw (e, exclusion_for)
    | inr (m, e) ↦
        rw (e, exclusion_for)
          (rw (e, include_model) (lookup-without_exclusion auth.id m r.model_exclusions))
  ]

  include_model-states :
      (id model : Text) (r : AuthHealthRegistry) → (include_model id model r).1.states ≡ r.states
  unfolding include_model
  include_model-states id model r = ground arith

  include_model-ok :
      (id model : Text) (r : AuthHealthRegistry) → (include_model id model r).0 ≡ ok tt
  unfolding include_model
  include_model-ok id model r = ground arith

  -- What a request that succeeded leaves: the model is no longer excluded, and no state but an
  -- explicit quota deadline that has not passed.
  mark_healthy_lem :
      (model : Text) (r : AuthHealthRegistry)
      → (mark_healthy now auth model r).0 ≡ ok tt
      → let r' = (mark_healthy now auth model r).1 in
        (exclusion_for auth.id model r' ≡ none)
        × (lookup auth.id r'.states ≡ after_success (lookup auth.id r.states) now)
  unfolding mark_healthy exclusion_for
  mark_healthy_lem model r done = ground (
    arith,
    clear_state_lem r,
    include_model-ok auth.id model (clear_state now auth r).1,
    include_model-states auth.id model (clear_state now auth r).1,
    exclusion_for-include_model model (clear_state now auth r).1,
  )

  -- After MarkHealthy has succeeded, for a trimmed id, the credential is eligible for the model again, but for an
  -- explicit quota deadline that has not passed: that one still blocks.
  pub mark_healthy-blocked :
      (model : Text) (r : AuthHealthRegistry)
      → (mark_healthy now auth model r).0 ≡ ok tt
      → blocked auth model now (mark_healthy now auth model r).1
        ≡ after_success (lookup auth.id r.states) now
  unfolding blocked preserves_quota
  mark_healthy-blocked model r done = ground (arith, trimmed, mark_healthy_lem model r)
