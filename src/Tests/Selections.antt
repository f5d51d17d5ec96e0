-- ===== src/Tests/Selections.antt =====
-- Examples of the selection of credentials, and of the deletion of bindings.
use codex_oauth_proxy.Affinity.Cleared.{HasNone, delete_session_affinity_by_auth_ids-HasNone}
use codex_oauth_proxy.Affinity.Deletes.{bound_to, delete_session_affinity_by_auth_ids}
use codex_oauth_proxy.Auths.{AuthReconcileResult}
use codex_oauth_proxy.Base.{Auth}
use codex_oauth_proxy.Health.{normalize_model_identifier}
use codex_oauth_proxy.Health.History.{new_auth_health_registry}
use codex_oauth_proxy.Health.Lifecycle.{prune_expired_locked, prune_expired}
use codex_oauth_proxy.Storage.{check_ready, call}
use codex_oauth_proxy.Health.Rows.{normalize_strings, contains}
use codex_oauth_proxy.Prelude.{
  ◌≡◌, refl, [], ◌∷◌, ◌+◌, none, Text, text, length, ok, ◌⊎◌, IsIn, keep, lookup, text_eq,
  trim_space,
}
use codex_oauth_proxy.Selection.{Server, Clock, SelectionRequest, no_binding}
use codex_oauth_proxy.Selection.Candidate.{selected, select_proxy_auth_candidate}
use codex_oauth_proxy.Selection.Selected.{IsFound, IsAnswer, select_proxy_auth_candidate-offers}
use codex_oauth_proxy.Store.{SessionAffinityRow, Tables, UserStore}
use codex_oauth_proxy.Tests.{auth_a, identity_hash, down_registry, empty_store}

abbrev auth_b : Auth
auth_b = record auth_a { id = text "account:b"; account_id = text "b" }

abbrev both : AuthReconcileResult
both = record { auths = auth_a ∷ auth_b ∷ []; active = auth_a ∷ auth_b ∷ []; changes = [] }

abbrev at_five : Clock
at_five = record {
  reconcile_at = 5;
  prune_at = 5;
  cleanup_at = 5;
  cleanup_rows_at = 5;
  blocked_at = λ a. 5;
  lookup_at = 5;
  refresh_at = 5;
  bind_at = 5;
  rebind_at = 5;
}

-- A request without session signals.
abbrev anonymous : SelectionRequest
anonymous = record {
  tenant_scope_digest = [];
  digests = [];
  model = [];
  tried = [];
  allowed = none;
  binding = no_binding;
}

-- The first credential is cooling down.
abbrev server : Server
server = record { health = down_registry; next = 0; next_affinity_cleanup_at = 100 }

select_run :
    select_proxy_auth_candidate identity_hash at_five (ok both) anonymous server
    ≡ (ok (selected auth_b no_binding), record server { next = 1 })
unfolding select_proxy_auth_candidate prune_expired_locked prune_expired keep contains
    normalize_model_identifier lookup text_eq trim_space
select_run = refl

abbrev after_selection : Server
after_selection = record server { next = 1 }

select_proxy_auth_candidate-offers_example :
    IsIn auth_b both.active
    × (((e : Auth) × IsFound at_five anonymous both.active after_selection.health e
          × (e.id ≡ auth_b.id))
        ⊎ ((auth_b.id ≡ no_binding.auth_id)
            × IsAnswer
                (IsFound at_five anonymous both.active after_selection.health)
                at_five
                no_binding
                after_selection))
select_proxy_auth_candidate-offers_example =
    select_proxy_auth_candidate-offers identity_hash at_five both anonymous server after_selection
      (selected auth_b no_binding) select_run

abbrev row_of : Text → Text → SessionAffinityRow
row_of digest auth_id = record {
  digest = digest;
  binding_digest = digest;
  tenant_scope_digest = [];
  auth_id = auth_id;
  created = 1;
  updated = 1;
  expires = 9;
}

abbrev tables_ab : Tables
tables_ab = record (empty_store.tables) {
  session_affinity_bindings =
      (text "x", row_of (text "x") auth_a.id) ∷ (text "y", row_of (text "y") auth_b.id) ∷ [];
}

abbrev tables_b : Tables
tables_b = record tables_ab {
  session_affinity_bindings = (text "y", row_of (text "y") auth_b.id) ∷ [];
}

abbrev store_ab : UserStore
store_ab = record empty_store { tables = tables_ab }

abbrev store_b : UserStore
store_b = record empty_store { tables = tables_b }

delete_session_affinity_by_auth_ids-HasNone_example :
    HasNone (bound_to (normalize_strings (auth_a.id ∷ []))) store_b.tables.session_affinity_bindings
    × (1 + length store_b.tables.session_affinity_bindings
        ≡ length store_ab.tables.session_affinity_bindings)
unfolding delete_session_affinity_by_auth_ids normalize_strings trim_space contains check_ready
    new_auth_health_registry call text_eq
delete_session_affinity_by_auth_ids-HasNone_example =
    delete_session_affinity_by_auth_ids-HasNone (auth_a.id ∷ []) 1 store_ab store_b refl refl
