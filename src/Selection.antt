-- ===== src/Selection.antt =====
-- The state of the server that the selection of credentials reads (internal/codexonly/server.go), the round
-- robin of AuthManager and the cleanup of bindings that a selection may begin with. The readings of the
-- clock are arguments.
use codex_oauth_proxy.Affinity.{valid}
use codex_oauth_proxy.Affinity.Deletes.{
  delete_session_affinity_by_auth_ids, cleanup_expired_session_affinity,
  session_affinity_cleanup_batch_size, session_affinity_cleanup_interval,
}
use codex_oauth_proxy.Affinity.Operations.{
  lookup_session_affinity, bind_session_affinity, rebind_session_affinity,
}
use codex_oauth_proxy.Auths.{
  AuthReconcileResult, AuthChange, AuthChangeKind, auth_added, auth_updated, auth_removed,
  auths_by_stable_id,
}
use codex_oauth_proxy.Base.{
  Auth, Time, Error, plain, no_eligible_auth, invalid_input, before, is_zero,
}
use codex_oauth_proxy.Health.{AuthHealthRegistry, AuthHealthState}
use codex_oauth_proxy.Health.Lifecycle.{reconcile, prune_expired}
use codex_oauth_proxy.Health.Queries.{blocked}
use codex_oauth_proxy.Health.Rows.{contains}
use codex_oauth_proxy.Prelude.{
  ℕ, zero, suc, ◌+◌, ◌%◌, ◌^◌, ◌-◌, ◌==◌, ltb, Bool, true, false, not, ◌&&◌, if◌then◌else◌, List,
  [], ◌∷◌, Option, none, some, Text, text, text_eq, is_empty, trim_space, length, keep, Dict,
  lookup, M, Result, ok, err, ◌>>=◌, ◌>>◌, return, fail, and_then,
}
use codex_oauth_proxy.Store.{SessionAffinityBinding, UserStore}
pub mod Candidate
pub mod Selected

-- `next` is the counter of the round robin, an atomic.Uint64.
pub record Server : Type 0 where
  pub health : AuthHealthRegistry
  pub next : ℕ
  pub next_affinity_cleanup_at : Time

abbrev pub on_health : {A : Type 0} → M AuthHealthRegistry Error A → M Server Error A
on_health m s = let (x, health) = m s.health in (x, record s { health = health })

abbrev pub on_users : {A : Type 0} → M UserStore Error A → M Server Error A
on_users m s =
    let (x, store) = m s.health.store in
    (x, record s { health = record (s.health) { store = store } })

pub record AuthSelection : Type 0 where
  pub auth : Auth
  pub binding : SessionAffinityBinding

abbrev pub no_binding : SessionAffinityBinding
no_binding = record { digests = []; binding_digest = []; tenant_scope_digest = []; auth_id = [] }

-- One reading of the clock for each place that reads it.
pub record Clock : Type 0 where
  pub reconcile_at : Time
  pub prune_at : Time
  pub cleanup_at : Time
  pub cleanup_rows_at : Time
  pub blocked_at : Auth → Time
  pub lookup_at : Time
  pub refresh_at : Time
  pub bind_at : Time
  pub rebind_at : Time

-- What a selection is asked for; `binding` is that of the selection before, in the same request.
pub record SelectionRequest : Type 0 where
  pub tenant_scope_digest : Text
  pub digests : List Text
  pub model : Text
  pub tried : List Text
  pub allowed : Option (List Text)
  pub binding : SessionAffinityBinding

unfoldable pub nth : ℕ → List Auth → Option Auth
nth i [] = none
nth zero (a ∷ auths) = some a
nth (suc i) (a ∷ auths) = nth i auths

abbrev pub picked : Option Auth → Result Error Auth
picked (some a) = ok a
picked none = err (plain (text "index out of range"))

-- int(n) % len on 64 bits: of a counter from 2^63 on, the index is negative unless it is 0.
unfoldable pub round_robin_index : ℕ → ℕ → Option ℕ
round_robin_index n len =
    if ltb n (2 ^ 63) then some (n % len) else if (2 ^ 64 - n) % len == 0 then some 0 else none

abbrev pub at_index : List Auth → Option ℕ → Option Auth
at_index auths none = none
at_index auths (some i) = nth i auths

-- AuthManager.nextAuth; an index out of range is a panic.
unfoldable pub next_auth : List Auth → M Server Error Auth
unfolding round_robin_index nth
next_auth auths s =
    if length auths == 0 then (err (plain (text "no active codex auth files found")), s) else (
      picked (at_index auths (round_robin_index s.next (length auths))),
      record s { next = (s.next + 1) % 2 ^ 64 },
    )

abbrev pub is_removed : AuthChangeKind → Bool
is_removed auth_removed = true
is_removed auth_added = false
is_removed auth_updated = false

unfoldable pub removed_ids : List AuthChange → List Text
removed_ids [] = []
removed_ids (c ∷ changes) =
    let rest = removed_ids changes in if is_removed c.kind then c.id ∷ rest else rest

-- maybeCleanupExpiredSessionAffinity
unfoldable pub maybe_cleanup_expired_session_affinity : Clock → M Server Error (Unit {0})
unfolding cleanup_expired_session_affinity
maybe_cleanup_expired_session_affinity clock s =
    if not (is_zero s.next_affinity_cleanup_at)
      && before clock.cleanup_at s.next_affinity_cleanup_at
    then (ok tt, s)
    else and_then
        (on_users
          (cleanup_expired_session_affinity clock.cleanup_rows_at
            session_affinity_cleanup_batch_size)
          s)
        (λ deleted t. (
          ok tt,
          record t {
            next_affinity_cleanup_at =
                (if ltb deleted session_affinity_cleanup_batch_size
                  then clock.cleanup_at + session_affinity_cleanup_interval
                  else clock.cleanup_at);
          },
        ))
