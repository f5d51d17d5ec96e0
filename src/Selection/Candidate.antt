-- ===== src/Selection/Candidate.antt =====
-- The selection of a credential for a request (internal/codexonly/server.go): reconcileAuths,
-- selectProxyAuthCandidate and RebindAuthSelection. The scan of the files is an argument; the model
-- catalog's Reconcile is left out.
use codex_oauth_proxy.Affinity.{valid}
use codex_oauth_proxy.Affinity.Deletes.{delete_session_affinity_by_auth_ids}
use codex_oauth_proxy.Affinity.Operations.{
  lookup_session_affinity, bind_session_affinity, rebind_session_affinity,
}
use codex_oauth_proxy.Auths.{AuthReconcileResult, auths_by_stable_id}
use codex_oauth_proxy.Base.{Auth, Time, Error, plain, no_eligible_auth, invalid_input}
use codex_oauth_proxy.Health.{AuthHealthRegistry, AuthHealthState}
use codex_oauth_proxy.Health.Lifecycle.{reconcile, prune_expired}
use codex_oauth_proxy.Health.Queries.{blocked}
use codex_oauth_proxy.Health.Rows.{contains}
use codex_oauth_proxy.Prelude.{
  ◌==◌, Bool, true, false, not, ◌&&◌, if◌then◌else◌, List, Option, none, some, Text, text, text_eq,
  is_empty, trim_space, length, keep, lookup, M, Result, ◌>>=◌, ◌>>◌, return, fail,
}
use codex_oauth_proxy.Store.{SessionAffinityBinding}
use codex_oauth_proxy.Selection.{
  AuthSelection, Clock, SelectionRequest, Server, maybe_cleanup_expired_session_affinity, next_auth,
  no_binding, on_health, on_users, removed_ids,
}

abbrev pub is_allowed : Option (List Text) → Auth → Bool
is_allowed none a = true
is_allowed (some ids) a = contains a.id ids

abbrev pub is_blocked : Option AuthHealthState → Bool
is_blocked none = false
is_blocked (some state) = true

-- The tests of a credential in selectProxyAuthCandidate.
unfoldable pub is_eligible : Clock → SelectionRequest → AuthHealthRegistry → Auth → Bool
unfolding blocked
is_eligible clock q r a =
    is_allowed q.allowed a
    && not (contains a.id q.tried)
    && not (is_blocked (blocked a q.model (clock.blocked_at a) r))

abbrev pub selected : Auth → SessionAffinityBinding → AuthSelection
selected a b = record { auth = a; binding = b }

abbrev pub bound_auth : SessionAffinityBinding → Option Auth → M Server Error AuthSelection
bound_auth b none = fail (plain (text "session-bound codex auth is unavailable"))
bound_auth b (some a) = return (selected a b)

abbrev pub by_id : Text → List Auth → Option Auth
by_id id auths = lookup id (auths_by_stable_id auths)

-- Another round, when the binding names a credential that is not eligible.
unfoldable pub rebind_elsewhere :
    Clock → List Auth → List Auth → SessionAffinityBinding → M Server Error AuthSelection
unfolding next_auth
rebind_elsewhere clock active eligible binding =
    let filtered = keep (λ (a : Auth). not (text_eq a.id binding.auth_id)) eligible in
    if length filtered == 0 then fail no_eligible_auth else do
      candidate ← next_auth filtered
      b ← on_users (rebind_session_affinity clock.rebind_at binding candidate.id)
      bound_auth b (by_id b.auth_id active)

-- The selection that a binding stands for, if its credential is active and eligible.
unfoldable pub bound_selection :
    Clock
    → List Auth
    → List Auth
    → SessionAffinityBinding
    → Option Auth
    → Option Auth
    → M Server Error AuthSelection
unfolding rebind_elsewhere
bound_selection clock active eligible b none _ = rebind_elsewhere clock active eligible b
bound_selection clock active eligible b (some a) none = rebind_elsewhere clock active eligible b
bound_selection clock active eligible b (some a) (some e) = return (selected a b)

abbrev pub eligible_binding : Option SessionAffinityBinding → List Auth → Option Auth
eligible_binding none eligible = none
eligible_binding (some b) eligible = by_id b.auth_id eligible

abbrev pub binding_or_none : Option SessionAffinityBinding → SessionAffinityBinding
binding_or_none none = no_binding
binding_or_none (some b) = b

unfoldable pub bind_candidate :
    Clock
    → SelectionRequest
    → Option SessionAffinityBinding
    → Text
    → M Server Error SessionAffinityBinding
bind_candidate clock q (some b) id = on_users (rebind_session_affinity clock.rebind_at b id)
bind_candidate clock q none id =
    on_users (bind_session_affinity clock.bind_at q.tenant_scope_digest q.digests id)

-- The candidate of the round robin, bound to the session.
unfoldable pub select_next :
    Clock
    → SelectionRequest
    → List Auth
    → List Auth
    → Option SessionAffinityBinding
    → M Server Error AuthSelection
unfolding next_auth bind_candidate bound_selection
select_next clock q active eligible found = do
  candidate ← next_auth eligible
  b ← bind_candidate clock q found candidate.id
  bound_selection clock active eligible b (by_id b.auth_id active) (by_id b.auth_id eligible)

-- The selection by the session's binding, if `auth` is the eligible credential that it names.
unfoldable pub select_bound :
    Clock
    → SelectionRequest
    → List Auth
    → List Auth
    → Option SessionAffinityBinding
    → (auth : Option Auth) → M Server Error AuthSelection
unfolding select_next
select_bound clock q active eligible found (some a) = return (selected a (binding_or_none found))
select_bound clock q active eligible found none = select_next clock q active eligible found

unfoldable pub select_session :
    Clock
    → SelectionRequest
    → List Auth
    → List Auth
    → Option SessionAffinityBinding
    → M Server Error AuthSelection
unfolding select_bound
select_session clock q active eligible found =
    select_bound clock q active eligible found (eligible_binding found eligible)

unfoldable pub find_binding :
    Clock → SelectionRequest → M Server Error (Option SessionAffinityBinding)
find_binding clock q =
    if valid q.binding
    then return (some q.binding)
    else on_users
        (lookup_session_affinity clock.lookup_at clock.refresh_at q.tenant_scope_digest q.digests)

-- selectProxyAuthCandidate, once the eligible credentials are known.
unfoldable pub select_eligible :
    Clock → SelectionRequest → List Auth → List Auth → M Server Error AuthSelection
unfolding next_auth find_binding select_session
select_eligible clock q active eligible =
    if length eligible == 0
    then fail no_eligible_auth
    else if length q.digests == 0
    then (next_auth eligible >>= (λ a. return (selected a no_binding)))
    else (find_binding clock q >>= select_session clock q active eligible)

module _ (sha256_hex : Text → Text) where
  unfoldable pub reconcile_auths :
      Time → Result Error AuthReconcileResult → M Server Error AuthReconcileResult
  unfolding removed_ids delete_session_affinity_by_auth_ids reconcile
  reconcile_auths now scan = do
    result ← (λ s. (scan, s))
    let removed = removed_ids result.changes
    if length removed == 0
        then return tt
        else (on_users (delete_session_affinity_by_auth_ids removed) >> return tt)
    on_health (reconcile sha256_hex now result)
    return result

  -- selectProxyAuthCandidate
  unfoldable pub select_proxy_auth_candidate :
      Clock → Result Error AuthReconcileResult → SelectionRequest → M Server Error AuthSelection
  unfolding reconcile_auths maybe_cleanup_expired_session_affinity is_eligible select_eligible
  select_proxy_auth_candidate clock scan q = do
    result ← reconcile_auths clock.reconcile_at scan
    on_health (prune_expired clock.prune_at)
    maybe_cleanup_expired_session_affinity clock
    λ s. select_eligible clock q result.active (keep (is_eligible clock q s.health) result.active) s

  -- RebindAuthSelection, up to prepareAuth.
  unfoldable pub rebind_auth_selection :
      Clock
      → Result Error AuthReconcileResult
      → SessionAffinityBinding
      → Text
      → M Server Error AuthSelection
  unfolding reconcile_auths
  rebind_auth_selection clock scan binding raw_id =
      let id = trim_space raw_id in
      if is_empty id then fail invalid_input else do
        result ← reconcile_auths clock.reconcile_at scan
        elim (by_id id result.active) [
          | none ↦ fail (plain (text "candidate codex auth is unavailable"))
          | some candidate ↦
              if not (valid binding)
              then return (selected candidate no_binding)
              else (on_users (rebind_session_affinity clock.rebind_at binding id)
                  >>= (λ b. bound_auth b (by_id b.auth_id result.active)))
        ]
