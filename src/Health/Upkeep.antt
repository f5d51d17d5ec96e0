-- ===== src/Health/Upkeep.antt =====
-- The invariant over the registry's life: pruning, and reconciling with a scan of the credentials.
use codex_oauth_proxy.Auths.{
  AuthChange, AuthChangeKind, auth_added, auth_updated, auth_removed, AuthReconcileResult,
  auths_by_stable_id,
}
use codex_oauth_proxy.Base.{Auth, Time, Error}
use codex_oauth_proxy.Prelude.{
  ◌≡◌, inl, inr, Bool, true, false, if◌then◌else◌, List, [], ◌∷◌, Option, none, some, Text, Dict,
  IsMap, IsTrimmed, Tracks, Tracks-self, Tracks-remove, lookup, All, Bool-cases, Option-cases,
  arith, M, succeeded, ◌>>◌, return,
}
use codex_oauth_proxy.Health.{AuthHealthState, AuthHealthRegistry}
use codex_oauth_proxy.Health.Invariant.{
  Keeps, AreTrimmed, forget_state-IsValid, and_then-IsValid, and_then-IsValid_at,
  bump_epoch-IsValid,
}
use codex_oauth_proxy.Health.Lifecycle.{
  prune_entries, prune_expired_locked, prune_expired, drop_history, forget_auth, refresh_models,
  refresh_state, apply_change, update_auth, reconcile_change, reconcile_changes, reconcile,
}
use codex_oauth_proxy.Health.Marks.{forget_state, bump_epoch}
use codex_oauth_proxy.Health.Mirror.{forget_state_lem}
use codex_oauth_proxy.Health.Models.{refresh_exclusions-AllValid, remove-AllValid}
use codex_oauth_proxy.Health.Queries.{expired}

-- What the range still has to visit stands in the registry as it was read.
forget_state-Tracks :
    (id : Text) (s : AuthHealthState) (entries : Dict AuthHealthState) (r : AuthHealthRegistry)
    → IsTrimmed id
    → lookup id entries ≡ none
    → Tracks entries r.states
    → Tracks entries (forget_state id s r).1.states
forget_state-Tracks id s entries r trimmed fresh h =
    let (states, _, _, _) = forget_state_lem id s trimmed r in
    elim (Bool-cases (succeeded (forget_state id s r).0)) [
      | inl done ↦ rw (states, done) (Tracks-remove id entries r.states fresh h)
      | inr stopped ↦ rw (states, stopped) h
    ]

prune_entries-IsValid :
    (now : Time) (entries : Dict AuthHealthState) (r : AuthHealthRegistry)
    → IsMap entries
    → AreTrimmed entries
    → Tracks entries r.states
    → Keeps (prune_entries now entries) r
unfolding prune_entries
prune_entries-IsValid now [] r map trimmed tracks v = v
prune_entries-IsValid now ((id, s) ∷ rest) r map trimmed tracks v =
    elim (Bool-cases (expired s now)) [
      | inr current ↦ rw current (prune_entries-IsValid now rest r map.1 trimmed.1 tracks.1 v)
      | inl over ↦ rw over (
          and_then-IsValid_at (forget_state id s r) (λ _. prune_entries now rest)
            (forget_state-IsValid id s r trimmed.0 tracks.0 v)
            (λ _.
              prune_entries-IsValid now rest (forget_state id s r).1 map.1 trimmed.1
                (forget_state-Tracks id s rest r trimmed.0 map.0 tracks.1)))
    ]

pub prune_expired-IsValid : (now : Time) (r : AuthHealthRegistry) → Keeps (prune_expired now) r
unfolding prune_expired prune_expired_locked
prune_expired-IsValid now r v =
    prune_entries-IsValid now r.states r v.unique v.keys (Tracks-self r.states v.unique) v

-- A step after one that keeps the invariant.
then-IsValid :
    (m k : M AuthHealthRegistry Error (Unit {0})) (r : AuthHealthRegistry)
    → Keeps m r
    → ((r' : AuthHealthRegistry) → Keeps k r')
    → Keeps (m >> k) r
then-IsValid m k r first second v =
    and_then-IsValid (m r) (λ _. k) (first v) (λ _ r' v'. second r' v')

refresh_models-IsValid : (id f : Text) (r : AuthHealthRegistry) → Keeps (refresh_models id f) r
unfolding refresh_models
refresh_models-IsValid id f r v = record {
  mirrors = v.mirrors;
  unique = v.unique;
  models = refresh_exclusions-AllValid id f r.model_exclusions v.models;
  keys = v.keys;
}

module _ (id : Text) (trimmed : IsTrimmed id) where
  refresh_state-IsValid : (f : Text) (r : AuthHealthRegistry) → Keeps (refresh_state id f) r
  unfolding refresh_state
  refresh_state-IsValid f r v = elim (Option-cases (lookup id r.states)) [
    | inl e ↦ rw (e, refresh_state) v
    | inr (s, e) ↦ ground (arith, v, forget_state-IsValid id s r trimmed e v)
  ]

  drop_history-IsValid : (r : AuthHealthRegistry) → Keeps (drop_history id) r
  unfolding drop_history
  drop_history-IsValid r v = record {
    mirrors = v.mirrors;
    unique = v.unique;
    models = remove-AllValid id r.model_exclusions v.models;
    keys = v.keys;
  }

  forget_auth-IsValid : (r : AuthHealthRegistry) → Keeps (forget_auth id) r
  unfolding forget_auth
  forget_auth-IsValid r v = elim (Option-cases (lookup id r.states)) [
    | inl e ↦ rw (e, forget_auth) (drop_history-IsValid r v)
    | inr (s, e) ↦
        rw (e, forget_auth)
          (then-IsValid (forget_state id s) (drop_history id) r
            (forget_state-IsValid id s r trimmed e) drop_history-IsValid v)
  ]

  update_auth-IsValid :
      (f : Text) (changed : Bool) (r : AuthHealthRegistry) → Keeps (update_auth id f changed) r
  unfolding update_auth
  update_auth-IsValid f changed r =
      then-IsValid (refresh_state id f) (refresh_models id f >> finish changed) r
        (refresh_state-IsValid f r)
        (λ r'.
          then-IsValid (refresh_models id f) (finish changed) r' (refresh_models-IsValid id f r')
            (last changed))
    where
      finish : Bool → M AuthHealthRegistry Error (Unit {0})
      finish b = if b then bump_epoch id else return tt

      last : (b : Bool) (q : AuthHealthRegistry) → Keeps (finish b) q
      last true q = bump_epoch-IsValid id q
      last false q = λ v. v

module _ (sha256_hex : Text → Text) where
  apply_change-IsValid :
      (kind : AuthChangeKind) (auth : Option Auth) (c : AuthChange) (r : AuthHealthRegistry)
      → IsTrimmed c.id
      → Keeps (apply_change sha256_hex kind auth c) r
  unfolding apply_change
  apply_change-IsValid auth_added auth c r trimmed = λ v. v
  apply_change-IsValid auth_removed auth c r trimmed = forget_auth-IsValid c.id trimmed r
  apply_change-IsValid auth_updated none c r trimmed = λ v. v
  apply_change-IsValid auth_updated (some auth) c r trimmed =
      update_auth-IsValid c.id trimmed _ c.credentials_changed r

  reconcile_changes-IsValid :
      (by_id : Dict Auth) (cs : List AuthChange) (r : AuthHealthRegistry)
      → All (λ c. IsTrimmed c.id) cs
      → Keeps (reconcile_changes sha256_hex by_id cs) r
  unfolding reconcile_changes reconcile_change
  reconcile_changes-IsValid by_id [] r trimmed = λ v. v
  reconcile_changes-IsValid by_id (c ∷ cs) r trimmed =
      then-IsValid (reconcile_change sha256_hex by_id c) _ r
        (apply_change-IsValid c.kind (lookup c.id by_id) c r trimmed.0)
        (λ r'. reconcile_changes-IsValid by_id cs r' trimmed.1)

  pub reconcile-IsValid :
      (now : Time) (result : AuthReconcileResult) (r : AuthHealthRegistry)
      → All (λ c. IsTrimmed c.id) result.changes
      → Keeps (reconcile sha256_hex now result) r
  unfolding reconcile prune_expired
  reconcile-IsValid now result r trimmed =
      then-IsValid (reconcile_changes sha256_hex (auths_by_stable_id result.auths) result.changes) _
        r (reconcile_changes-IsValid (auths_by_stable_id result.auths) result.changes r trimmed)
        (λ r'. prune_expired-IsValid now r')
