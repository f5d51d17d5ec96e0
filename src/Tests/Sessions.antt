-- ===== src/Tests/Sessions.antt =====
-- Sessions that are bound to credentials (session_affinity.go).
use codex_oauth_proxy.Affinity.{
  choose_session_affinity_winner, normalize_session_affinity_digests, is_digest,
  session_affinity_row_digests, with_tenant, new_row, canonical_session_affinity_digest,
}
use codex_oauth_proxy.Affinity.Aliases.{Names}
use codex_oauth_proxy.Affinity.Bindings.{bind_session_affinity-binds, rebind_session_affinity-binds}
use codex_oauth_proxy.Affinity.Operations.{bind_session_affinity, rebind_session_affinity}
use codex_oauth_proxy.Affinity.Winner.{IsFirst, choose_session_affinity_winner-IsFirst}
use codex_oauth_proxy.Base.{after}
use codex_oauth_proxy.Health.History.{new_auth_health_registry}
use codex_oauth_proxy.Health.Rows.{contains}
use codex_oauth_proxy.Prelude.{
  false, ◌⊎◌, ◌≡◌, refl, true, [], ◌∷◌, Text, text, All, trim_space, text_eq, insert,
}
use codex_oauth_proxy.Storage.{check_ready, call}
use codex_oauth_proxy.Store.{SessionAffinityRow, SessionAffinityBinding, UserStore}
use codex_oauth_proxy.Tests.{auth_a, empty_store}

abbrev digest_one : Text
digest_one = text "1111111111111111111111111111111111111111111111111111111111111111"

abbrev row_one : SessionAffinityRow
row_one = record {
  digest = digest_one;
  binding_digest = digest_one;
  tenant_scope_digest = [];
  auth_id = auth_a.id;
  created = 3;
  updated = 3;
  expires = 50;
}

choose_session_affinity_winner-IsFirst_example :
    (after row_one.expires 10 ≡ true)
    × IsFirst 10 (record row_one { expires = 4 } ∷ row_one ∷ []) row_one
unfolding choose_session_affinity_winner
choose_session_affinity_winner-IsFirst_example =
    choose_session_affinity_winner-IsFirst 10 (record row_one { expires = 4 } ∷ row_one ∷ [])
      row_one refl

abbrev binding_one : Text → SessionAffinityBinding
binding_one auth_id = record {
  digests = digest_one ∷ [];
  binding_digest = digest_one;
  tenant_scope_digest = [];
  auth_id = auth_id;
}

bind_session_affinity-binds_example :
    All
      (Names auth_a.id (bind_session_affinity 5 [] (digest_one ∷ []) auth_a.id empty_store).1)
      (digest_one ∷ [])
unfolding bind_session_affinity check_ready new_auth_health_registry
    normalize_session_affinity_digests is_digest trim_space contains call
    session_affinity_row_digests with_tenant choose_session_affinity_winner new_row
    canonical_session_affinity_digest
bind_session_affinity-binds_example =
    bind_session_affinity-binds 5 [] (digest_one ∷ []) auth_a.id empty_store (binding_one auth_a.id)
      refl

abbrev bound_store : UserStore
bound_store = record empty_store {
  tables = record {
    auth_health_states = [];
    session_affinity_bindings = (digest_one, row_one) ∷ [];
  };
}

rebind_session_affinity-binds_example :
    ((text "account:b" ≡ text "account:b") ⊎ (text_eq (text "account:b") auth_a.id ≡ false))
    × All
        (Names
          (text "account:b")
          (rebind_session_affinity 5 (binding_one auth_a.id) (text "account:b") bound_store).1)
        (digest_one ∷ [])
unfolding rebind_session_affinity check_ready new_auth_health_registry
    normalize_session_affinity_digests is_digest trim_space contains call
    session_affinity_row_digests text_eq insert with_tenant choose_session_affinity_winner
rebind_session_affinity-binds_example =
    rebind_session_affinity-binds 5 (binding_one auth_a.id) (text "account:b") bound_store
      (binding_one (text "account:b")) refl
