-- ===== src/Affinity/Deletes.antt =====
-- Deleting and counting bindings, and the cleanup of the expired ones
-- (internal/codexonly/session_affinity.go). The columns of instants hold texts, which SQLite compares; the
-- model compares the instants, as texts with equally many digits of the fraction do.
use codex_oauth_proxy.Affinity.Operations.{rows_where}
use codex_oauth_proxy.Base.{Time, Error, invalid_input, after}
use codex_oauth_proxy.Health.Rows.{contains, normalize_strings}
use codex_oauth_proxy.Prelude.{
  ℕ, ◌+◌, ◌==◌, ltb, Bool, not, ◌&&◌, if◌then◌else◌, List, [], ◌∷◌, Text, text, text_eq, is_empty,
  trim_space, length, take, Dict, M, ◌>>=◌, ◌>>◌, return, fail,
}
use codex_oauth_proxy.Storage.{check_ready, call, exec, query, transaction, commit_transaction}
use codex_oauth_proxy.Store.{SessionAffinityRow, Tables, UserStore}

-- The rows that stay when those that pass a test are deleted.
unfoldable pub rows_without :
    (SessionAffinityRow → Bool) → Dict SessionAffinityRow → Dict SessionAffinityRow
rows_without test [] = []
rows_without test ((k, r) ∷ m) =
    let rest = rows_without test m in if test r then rest else (k, r) ∷ rest

abbrev pub without : (SessionAffinityRow → Bool) → Tables → Tables
without test t = record t {
  session_affinity_bindings = rows_without test t.session_affinity_bindings;
}

abbrev pub affected : (SessionAffinityRow → Bool) → Tables → ℕ
affected test t = length (rows_where test t.session_affinity_bindings)

-- A DELETE, and RowsAffected of its result.
unfoldable pub delete_rows : Text → Text → (SessionAffinityRow → Bool) → M UserStore Error ℕ
unfolding rows_without rows_where
delete_rows op count_op test = do
  n ← call op (without test) (affected test)
  query count_op (λ _. n)

abbrev pub bound_to : List Text → SessionAffinityRow → Bool
bound_to auth_ids r = contains r.auth_id auth_ids

-- DeleteSessionAffinityByAuthIDs
unfoldable pub delete_session_affinity_by_auth_ids : List Text → M UserStore Error ℕ
unfolding delete_rows
delete_session_affinity_by_auth_ids raw = do
  check_ready
  let auth_ids = normalize_strings raw
  if length auth_ids == 0
      then return 0
      else delete_rows (text "delete session affinity for removed auths")
          (text "read removed auth session affinity count") (bound_to auth_ids)

-- DeleteSessionAffinityExceptAuthIDs; without identifiers it deletes every row.
unfoldable pub delete_session_affinity_except_auth_ids : List Text → M UserStore Error ℕ
unfolding delete_rows
delete_session_affinity_except_auth_ids raw = do
  check_ready
  let auth_ids = normalize_strings raw
  delete_rows (text "delete session affinity for unavailable auths")
      (text "read unavailable auth session affinity count") (λ r. not (bound_to auth_ids r))

-- COUNT(DISTINCT binding_digest)
abbrev pub distinct_bindings : List Text → List SessionAffinityRow → ℕ
distinct_bindings seen [] = 0
distinct_bindings seen (r ∷ rows) =
    if contains r.binding_digest seen
    then distinct_bindings seen rows
    else 1 + distinct_bindings (r.binding_digest ∷ seen) rows

unfoldable pub count_bindings : (SessionAffinityRow → Bool) → Tables → ℕ
unfolding rows_where
count_bindings test t = distinct_bindings [] (rows_where test t.session_affinity_bindings)

abbrev pub counts_of : Time → Tables → List Text → Dict ℕ
counts_of now t [] = []
counts_of now t (id ∷ ids) =
    let rest = counts_of now t ids in
    let n = count_bindings (λ r. text_eq r.auth_id id && after r.expires now) t in
    if n == 0 then rest else (id, n) ∷ rest

-- CountSessionAffinityBindingsByAuthIDs: identifiers without rows have no entry.
unfoldable pub count_session_affinity_bindings_by_auth_ids :
    Time → List Text → M UserStore Error (Dict ℕ)
unfolding count_bindings
count_session_affinity_bindings_by_auth_ids now raw = do
  check_ready
  let auth_ids = normalize_strings raw
  if length auth_ids == 0
      then return []
      else query (text "count auth session affinity bindings") (λ t. counts_of now t auth_ids)

unfoldable pub clear_body :
    (SessionAffinityRow → Bool) → (Tables → SessionAffinityRow → Bool) → M UserStore Error ℕ
unfolding count_bindings rows_without commit_transaction
clear_body counted deleted = do
  n ← query (text "count cleared session affinity") (count_bindings counted)
  exec (text "clear session affinity") (λ t. without (deleted t) t)
  commit_transaction (text "commit cleared session affinity")
  return n

-- deleteSessionAffinityBindingsWithArgs: the test of the rows to delete may read the table.
unfoldable pub delete_session_affinity_bindings_with_args :
    (SessionAffinityRow → Bool) → (Tables → SessionAffinityRow → Bool) → M UserStore Error ℕ
unfolding clear_body transaction
delete_session_affinity_bindings_with_args counted deleted = do
  check_ready
  transaction (text "begin clear session affinity") (clear_body counted deleted)

abbrev pub in_tenant : Text → SessionAffinityRow → Bool
in_tenant digest r = text_eq r.tenant_scope_digest digest

module _ (sha256_hex : Text → Text) where
  unfoldable pub session_affinity_tenant_scope_digest : Text → Text
  session_affinity_tenant_scope_digest raw =
      let tenant_scope = trim_space raw in
      if is_empty tenant_scope then [] else sha256_hex tenant_scope

  -- DeleteSessionAffinityByTenantScope
  unfoldable pub delete_session_affinity_by_tenant_scope : Text → M UserStore Error ℕ
  unfolding session_affinity_tenant_scope_digest delete_session_affinity_bindings_with_args
  delete_session_affinity_by_tenant_scope tenant_scope =
      let digest = session_affinity_tenant_scope_digest tenant_scope in
      if is_empty digest
      then fail invalid_input
      else delete_session_affinity_bindings_with_args (in_tenant digest) (λ t. in_tenant digest)

-- DeleteSessionAffinityByAccountID
unfoldable pub delete_session_affinity_by_account_id : Text → M UserStore Error ℕ
unfolding delete_session_affinity_bindings_with_args
delete_session_affinity_by_account_id raw =
    let auth_id = trim_space raw in
    let test = λ (r : SessionAffinityRow). text_eq r.auth_id auth_id in
    if is_empty auth_id
    then fail invalid_input
    else delete_session_affinity_bindings_with_args test (λ t. test)

abbrev pub session_affinity_cleanup_interval : ℕ
session_affinity_cleanup_interval = 300_000_000_000

abbrev pub session_affinity_cleanup_batch_size : ℕ
session_affinity_cleanup_batch_size = 100

-- ORDER BY expires_at ASC
abbrev pub insert_by_expiry : SessionAffinityRow → List SessionAffinityRow → List SessionAffinityRow
insert_by_expiry r [] = r ∷ []
insert_by_expiry r (s ∷ rows) =
    if ltb r.expires s.expires then r ∷ s ∷ rows else s ∷ insert_by_expiry r rows

abbrev pub by_expiry : List SessionAffinityRow → List SessionAffinityRow
by_expiry [] = []
by_expiry (r ∷ rows) = insert_by_expiry r (by_expiry rows)

abbrev pub session_digests : List SessionAffinityRow → List Text
session_digests [] = []
session_digests (r ∷ rows) = r.digest ∷ session_digests rows

abbrev pub has_expired : Time → SessionAffinityRow → Bool
has_expired now r = not (after r.expires now)

-- The subselect of the cleanup.
unfoldable pub expired_digests : Time → ℕ → Tables → List Text
unfolding rows_where
expired_digests now limit t =
    session_digests
      (take limit (by_expiry (rows_where (has_expired now) t.session_affinity_bindings)))

-- CleanupExpiredSessionAffinity; a limit below 1 stands for the batch size.
unfoldable pub cleanup_expired_session_affinity : Time → ℕ → M UserStore Error ℕ
unfolding expired_digests rows_without rows_where
cleanup_expired_session_affinity now raw_limit = do
  check_ready
  let limit = if raw_limit == 0 then session_affinity_cleanup_batch_size else raw_limit
  let test =
      λ (t : Tables) (r : SessionAffinityRow). contains r.digest (expired_digests now limit t)
  n ←
      call (text "cleanup expired session affinity") (λ t. without (test t) t)
        (λ t. affected (test t) t)
  query (text "read expired session affinity cleanup count") (λ _. n)
