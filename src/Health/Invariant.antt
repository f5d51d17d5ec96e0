-- ===== src/Health/Invariant.antt =====
-- The registry's invariant, and that every operation keeps it, also when the database fails in the
-- middle of the operation.
use codex_oauth_proxy.Base.{Auth, Time, Error, is_blank}
use codex_oauth_proxy.Prelude.{
  ℕ, ◌≡◌, refl, inl, inr, true, [], some, Text, Dict, IsMap, IsTrimmed, lookup, insert-IsMap,
  remove-IsMap, Bool-cases, Option-cases, arith, M, All-insert, All-remove, Result, ok, err,
  succeeded, All, ◌>>◌, and_then, return,
}
use codex_oauth_proxy.Health.{
  models_of, AuthHealthState, AuthModelExclusion, AuthHealthRegistry, normalize_model_identifier,
}
use codex_oauth_proxy.Health.Marks.{
  write_state, forget_state, clear_cooldown, mark_credential_healthy, clear_state, include_model,
  mark_healthy_locked, mark_healthy, exclude_model, incoming_state, mark_unavailable,
  mark_model_unsupported, bump_epoch,
}
use codex_oauth_proxy.Health.Mirror.{
  Mirrors, saved-Agrees, write_state_lem, forgotten-Agrees, forget_state_lem,
}
use codex_oauth_proxy.Health.Models.{
  AllValid, with_exclusion-AreValid, insert-AllValid, without_exclusion-AllValid,
  normalize_model_identifier-named,
}

abbrev pub AreTrimmed : Dict AuthHealthState → Type 0
AreTrimmed = All (λ entry. IsTrimmed entry.0)

-- The table holds exactly the states that are to survive a restart; a credential has one state; and
-- its exclusions are at most 64 named models. No id has white space around it.
pub record IsValid (r : AuthHealthRegistry) : Type 0 where
  pub mirrors : Mirrors r
  pub unique : IsMap r.states
  pub models : AllValid r.model_exclusions
  pub keys : AreTrimmed r.states

abbrev pub Keeps : {A : Type 0} → M AuthHealthRegistry Error A → AuthHealthRegistry → Type 0
Keeps m r = IsValid r → IsValid (m r).1

write_state-IsValid :
    (now : Time) (auth : Auth) (s : AuthHealthState) (r : AuthHealthRegistry)
    → IsTrimmed auth.id
    → Keeps (write_state now auth s) r
write_state-IsValid now auth s r trimmed v =
    let (states, table, exclusions, epochs) = write_state_lem auth.id s trimmed now auth r refl in
    elim (Bool-cases (succeeded (write_state now auth s r).0)) [
      | inl done ↦ record {
        mirrors =
            λ j. rw (states, table, done) (saved-Agrees auth.id s trimmed now r j (v.mirrors j));
        unique = rw (states, done) (insert-IsMap auth.id s r.states v.unique);
        keys = rw (states, done) (All-insert _ auth.id s r.states trimmed v.keys);
        models = rw exclusions v.models;
      }
      | inr stopped ↦ record {
        mirrors = λ j. rw (states, table, stopped) (v.mirrors j);
        unique = rw (states, stopped) v.unique;
        keys = rw (states, stopped) v.keys;
        models = rw exclusions v.models;
      }
    ]

pub forget_state-IsValid :
    (id : Text) (s : AuthHealthState) (r : AuthHealthRegistry)
    → IsTrimmed id
    → lookup id r.states ≡ some s
    → Keeps (forget_state id s) r
forget_state-IsValid id s r trimmed here v =
    let (states, table, exclusions, epochs) = forget_state_lem id s trimmed r in
    elim (Bool-cases (succeeded (forget_state id s r).0)) [
      | inl done ↦ record {
        mirrors =
            λ j. rw (states, table, done) (forgotten-Agrees id s trimmed r j here (v.mirrors j));
        unique = rw (states, done) (remove-IsMap id r.states v.unique);
        keys = rw (states, done) (All-remove _ id r.states v.keys);
        models = rw exclusions v.models;
      }
      | inr stopped ↦ record {
        mirrors = λ j. rw (states, table, stopped) (v.mirrors j);
        unique = rw (states, stopped) v.unique;
        keys = rw (states, stopped) v.keys;
        models = rw exclusions v.models;
      }
    ]

-- A step that runs after another, if that succeeds.
pub and_then-IsValid :
    {A B : Type 0} (x : Result Error A × AuthHealthRegistry) (f : A → M AuthHealthRegistry Error B)
    → IsValid x.1
    → ((a : A) (r : AuthHealthRegistry) → Keeps (f a) r)
    → IsValid (and_then x f).1
and_then-IsValid (ok a, r) f v keeps = keeps a r v
and_then-IsValid (err e, r) f v keeps = v

-- The same, where the second step is only known to keep the invariant from there.
pub and_then-IsValid_at :
    {A B : Type 0} (x : Result Error A × AuthHealthRegistry) (f : A → M AuthHealthRegistry Error B)
    → IsValid x.1
    → ((a : A) → Keeps (f a) x.1)
    → IsValid (and_then x f).1
and_then-IsValid_at (ok a, r) f v keeps = keeps a v
and_then-IsValid_at (err e, r) f v keeps = v

pub bump_epoch-IsValid : (id : Text) (r : AuthHealthRegistry) → Keeps (bump_epoch id) r
unfolding bump_epoch
bump_epoch-IsValid id r v = record {
  mirrors = v.mirrors;
  unique = v.unique;
  models = v.models;
  keys = v.keys;
}

module _ (auth : Auth) (trimmed : IsTrimmed auth.id) where
  pub clear_cooldown-IsValid : (r : AuthHealthRegistry) → Keeps (clear_cooldown auth) r
  unfolding clear_cooldown
  clear_cooldown-IsValid r v = elim (Option-cases (lookup auth.id r.states)) [
    | inl e ↦ ground (arith, v)
    | inr (s, e) ↦ ground (
      arith,
      v,
      and_then-IsValid (forget_state auth.id s r) (λ _. bump_epoch auth.id >> return true)
          (forget_state-IsValid auth.id s r trimmed e v)
          (λ (a : Unit {0}) (r' : AuthHealthRegistry). bump_epoch-IsValid auth.id r'),
    )
  ]

  pub mark_credential_healthy-IsValid :
      (r : AuthHealthRegistry) → Keeps (mark_credential_healthy auth) r
  unfolding mark_credential_healthy
  mark_credential_healthy-IsValid r v = elim (Option-cases (lookup auth.id r.states)) [
    | inl e ↦ ground (arith, v)
    | inr (s, e) ↦ ground (
      arith,
      v,
      and_then-IsValid (forget_state auth.id s r) (λ _. bump_epoch auth.id)
          (forget_state-IsValid auth.id s r trimmed e v)
          (λ (a : Unit {0}) (r' : AuthHealthRegistry). bump_epoch-IsValid auth.id r'),
    )
  ]

  clear_state-IsValid : (now : Time) (r : AuthHealthRegistry) → Keeps (clear_state now auth) r
  unfolding clear_state
  clear_state-IsValid now r v = elim (Option-cases (lookup auth.id r.states)) [
    | inl e ↦ ground (arith, v)
    | inr (s, e) ↦ ground (
      arith,
      v,
      and_then-IsValid (forget_state auth.id s r) (λ _. return true)
          (forget_state-IsValid auth.id s r trimmed e v)
          (λ (a : Unit {0}) (r' : AuthHealthRegistry) (v' : IsValid r'). v'),
    )
  ]

  include_model-IsValid :
      (id model : Text) (r : AuthHealthRegistry) → Keeps (include_model id model) r
  unfolding include_model
  include_model-IsValid id model r v = elim (Option-cases (normalize_model_identifier model)) [
    | inl e ↦ rw (e, include_model) v
    | inr (m, e) ↦
        rw (e, include_model)
          (record {
            mirrors = v.mirrors;
            unique = v.unique;
            keys = v.keys;
            models = without_exclusion-AllValid id m r.model_exclusions v.models;
          })
  ]

  mark_healthy_locked-IsValid :
      (now : Time) (model : Text) (r : AuthHealthRegistry)
      → Keeps (mark_healthy_locked now auth model) r
  unfolding mark_healthy_locked
  mark_healthy_locked-IsValid now model r v =
      and_then-IsValid (clear_state now auth r)
        (λ cleared. include_model auth.id model >> return cleared) (clear_state-IsValid now r v)
        (λ cleared r' v'.
          and_then-IsValid (include_model auth.id model r') (λ _. return cleared)
            (include_model-IsValid auth.id model r' v') (λ _ r'' v''. v''))

  pub mark_healthy-IsValid :
      (now : Time) (model : Text) (r : AuthHealthRegistry) → Keeps (mark_healthy now auth model) r
  unfolding mark_healthy
  mark_healthy-IsValid now model r v = elim (Bool-cases (is_blank auth.id)) [
    | inl blank ↦ rw blank v
    | inr named ↦ rw named (
        and_then-IsValid (mark_healthy_locked now auth model r) (λ _. bump_epoch auth.id)
          (mark_healthy_locked-IsValid now model r v) (λ _ r' v'. bump_epoch-IsValid auth.id r' v'))
  ]

  exclude_model-IsValid :
      (model m : Text) (e : AuthModelExclusion) (r : AuthHealthRegistry)
      → normalize_model_identifier model ≡ some m
      → Keeps (exclude_model auth.id m e) r
  unfolding exclude_model
  exclude_model-IsValid model m e r valid v = record {
    mirrors = v.mirrors;
    unique = v.unique;
    keys = v.keys;
    models =
        insert-AllValid auth.id _ r.model_exclusions
          (with_exclusion-AreValid m e (models_of auth.id r.model_exclusions)
            (normalize_model_identifier-named model m valid) (v.models auth.id))
          v.models;
  }

  module _ (sha256_hex : Text → Text) (now later : Time) where
    pub mark_unavailable-IsValid :
        (s : AuthHealthState) (r : AuthHealthRegistry)
        → Keeps (mark_unavailable sha256_hex now later auth s) r
    unfolding mark_unavailable
    mark_unavailable-IsValid s r v =
        ground (
          arith,
          v,
          write_state-IsValid now auth (incoming_state sha256_hex now auth s) r trimmed v,
        )

    pub mark_model_unsupported-IsValid :
        (model : Text) (status_code : ℕ) (error_code : Text) (r : AuthHealthRegistry)
        → Keeps (mark_model_unsupported sha256_hex now later auth model status_code error_code) r
    unfolding mark_model_unsupported
    mark_model_unsupported-IsValid model status_code error_code r v =
        elim (Bool-cases (is_blank auth.id)) [
          | inl blank ↦ rw blank v
          | inr named ↦ rw named (elim (Option-cases (normalize_model_identifier model)) [
            | inl e ↦ rw e v
            | inr (m, e) ↦ rw e (
                and_then-IsValid (mark_healthy_locked later auth [] r) _
                  (mark_healthy_locked-IsValid later [] r v)
                  (λ _ r' v'. exclude_model-IsValid model m _ r' e v'))
          ])
        ]
