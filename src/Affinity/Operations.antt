-- ===== src/Affinity/Operations.antt =====
-- The operations of UserStore on the table session_affinity_bindings (session_affinity.go):
-- lookup, bind, rebind and refresh. `now` and `later` are readings of the store's clock.
use codex_oauth_proxy.Affinity.{
  normalize_session_affinity_digests, session_affinity_row_digests, choose_session_affinity_winner,
  session_affinity_needs_write, completed, with_tenant, new_row, binding_of,
  session_affinity_renewal_threshold, session_affinity_expiry,
}
use codex_oauth_proxy.Base.{Time, Error, invalid_input, after}
use codex_oauth_proxy.Health.Rows.{contains}
use codex_oauth_proxy.Prelude.{
  ◌+◌, ◌==◌, Bool, not, ◌||◌, if◌then◌else◌, List, [], ◌∷◌, ◌++◌, Option, none, some, Text, text,
  text_eq, is_empty, trim_space, length, Dict, insert, M, ◌>>=◌, ◌>>◌, return, fail,
}
use codex_oauth_proxy.Storage.{check_ready, exec, query, transaction, commit_transaction}
use codex_oauth_proxy.Store.{SessionAffinityRow, SessionAffinityBinding, Tables, UserStore}

-- The rows that pass a test, without their keys.
unfoldable pub rows_where :
    (SessionAffinityRow → Bool) → Dict SessionAffinityRow → List SessionAffinityRow
rows_where test [] = []
rows_where test ((k, r) ∷ m) = if test r then r ∷ rows_where test m else rows_where test m

abbrev pub session_column : SessionAffinityRow → Text
session_column r = r.digest

abbrev pub binding_column : SessionAffinityRow → Text
binding_column r = r.binding_digest

-- readSessionAffinityRows, by the column that it is called with.
unfoldable pub read_session_affinity_rows :
    Text → (SessionAffinityRow → Text) → List Text → M UserStore Error (List SessionAffinityRow)
unfolding rows_where
read_session_affinity_rows op column digests =
    let keys = normalize_session_affinity_digests digests in
    if length keys == 0
    then return []
    else query op
        (λ (t : Tables). rows_where (λ r. contains (column r) keys) t.session_affinity_bindings)

abbrev pub binding_digests : List SessionAffinityRow → List Text
binding_digests [] = []
binding_digests (r ∷ rows) = r.binding_digest ∷ binding_digests rows

abbrev pub by_digest : Dict SessionAffinityRow → List SessionAffinityRow → Dict SessionAffinityRow
by_digest m [] = m
by_digest m (r ∷ rows) = by_digest (insert r.digest r m) rows

abbrev pub values : Dict SessionAffinityRow → List SessionAffinityRow
values [] = []
values ((k, r) ∷ m) = r ∷ values m

-- loadSessionAffinityRows: the rows of the digests, and of the bindings that they belong to.
unfoldable pub load_session_affinity_rows :
    Text → List Text → List Text → M UserStore Error (List SessionAffinityRow)
unfolding read_session_affinity_rows
load_session_affinity_rows op digests bindings = do
  rows ← read_session_affinity_rows op session_column digests
  let keys = normalize_session_affinity_digests (bindings ++ binding_digests rows)
  if length keys == 0 then return rows else do
    group ← read_session_affinity_rows op binding_column keys
    return (values (by_digest (by_digest [] rows) group))

abbrev pub put_alias : Text → SessionAffinityRow → Tables → Tables
put_alias digest winner t = record t {
  session_affinity_bindings =
      insert digest (record winner { digest = digest }) t.session_affinity_bindings;
}

unfoldable pub write_aliases : Text → List Text → SessionAffinityRow → M UserStore Error (Unit {0})
write_aliases op [] winner = return tt
write_aliases op (d ∷ ds) winner = exec op (put_alias d winner) >> write_aliases op ds winner

-- writeSessionAffinityAliases
unfoldable pub write_session_affinity_aliases :
    Text → List Text → SessionAffinityRow → Time → M UserStore Error (Unit {0})
unfolding write_aliases
write_session_affinity_aliases op digests winner now =
    write_aliases op digests (completed now digests winner)

-- bindSessionAffinity, once the arguments are checked.
unfoldable pub bind_body : Time → Text → List Text → Text → M UserStore Error SessionAffinityBinding
unfolding load_session_affinity_rows write_session_affinity_aliases commit_transaction
bind_body now tenant_scope_digest digests auth_id = do
  rows ← load_session_affinity_rows (text "read session affinity before bind") digests []
  let all_digests = session_affinity_row_digests rows digests
  let winner = with_tenant tenant_scope_digest (elim (choose_session_affinity_winner now rows) [
    | none ↦ new_row now tenant_scope_digest auth_id all_digests
    | some row ↦ row
  ])
  write_session_affinity_aliases (text "write session affinity binding") all_digests winner now
  commit_transaction (text "commit session affinity binding")
  return (binding_of all_digests winner)

unfoldable pub bind_session_affinity :
    Time → Text → List Text → Text → M UserStore Error SessionAffinityBinding
unfolding bind_body transaction
bind_session_affinity now tenant_scope_digest raw_digests raw_auth_id = do
  check_ready
  let digests = normalize_session_affinity_digests raw_digests
  let auth_id = trim_space raw_auth_id
  if length digests == 0 || is_empty auth_id
      then fail invalid_input
      else transaction (text "begin bind session affinity")
          (bind_body now tenant_scope_digest digests auth_id)

-- The winner of a rebinding: a new one, the one that the caller saw with its new credential, or the one
-- that another request has bound in the meantime.
unfoldable pub rebound :
    Time
    → SessionAffinityBinding
    → Text
    → Text
    → List Text
    → Option SessionAffinityRow
    → SessionAffinityRow
rebound now binding expected auth_id all_digests none =
    new_row now binding.tenant_scope_digest auth_id all_digests
rebound now binding expected auth_id all_digests (some row) =
    if text_eq row.auth_id expected
    then record row { auth_id = auth_id; updated = now; expires = now + session_affinity_expiry }
    else row

unfoldable pub rebind_body :
    Time
    → SessionAffinityBinding
    → List Text
    → Text
    → Text
    → M UserStore Error SessionAffinityBinding
unfolding load_session_affinity_rows write_session_affinity_aliases commit_transaction rebound
rebind_body now binding digests expected auth_id = do
  rows ←
      load_session_affinity_rows (text "read session affinity before rebind") digests
        (binding.binding_digest ∷ [])
  let all_digests = session_affinity_row_digests rows digests
  let winner =
      with_tenant binding.tenant_scope_digest
        (rebound now binding expected auth_id all_digests (choose_session_affinity_winner now rows))
  write_session_affinity_aliases (text "write rebound session affinity") all_digests winner now
  commit_transaction (text "commit rebound session affinity")
  return (binding_of all_digests winner)

unfoldable pub rebind_session_affinity :
    Time → SessionAffinityBinding → Text → M UserStore Error SessionAffinityBinding
unfolding rebind_body transaction
rebind_session_affinity now binding raw_auth_id = do
  check_ready
  let digests = normalize_session_affinity_digests binding.digests
  let expected = trim_space binding.auth_id
  let auth_id = trim_space raw_auth_id
  if length digests == 0 || is_empty expected || is_empty auth_id
      then fail invalid_input
      else transaction (text "begin rebind session affinity")
          (rebind_body now binding digests expected auth_id)

-- A winner that was not updated for half an hour is renewed.
unfoldable pub renewed : Time → SessionAffinityRow → SessionAffinityRow
renewed now winner =
    if not (after (winner.updated + session_affinity_renewal_threshold) now)
    then record winner { updated = now; expires = now + session_affinity_expiry }
    else winner

unfoldable pub refresh_winner :
    Time
    → Text
    → List Text
    → Option SessionAffinityRow
    → M UserStore Error (Option SessionAffinityBinding)
unfolding write_session_affinity_aliases commit_transaction
refresh_winner now tenant_scope_digest all_digests none = return none
refresh_winner now tenant_scope_digest all_digests (some row) =
    let winner = renewed now (with_tenant tenant_scope_digest row) in
    write_session_affinity_aliases (text "refresh session affinity aliases") all_digests winner now
    >> commit_transaction (text "commit refreshed session affinity")
    >> return (some (binding_of all_digests winner))

-- refreshSessionAffinity
unfoldable pub refresh_session_affinity :
    Time → Text → List Text → M UserStore Error (Option SessionAffinityBinding)
unfolding load_session_affinity_rows transaction refresh_winner
refresh_session_affinity now tenant_scope_digest digests =
    transaction (text "begin refresh session affinity") (
      load_session_affinity_rows (text "read session affinity for refresh") digests [] >>= (λ rows.
        refresh_winner now tenant_scope_digest (session_affinity_row_digests rows digests)
          (choose_session_affinity_winner now rows)))

unfoldable pub lookup_winner :
    Time
    → Time
    → Text
    → List Text
    → List SessionAffinityRow
    → Option SessionAffinityRow
    → M UserStore Error (Option SessionAffinityBinding)
unfolding refresh_session_affinity
lookup_winner now later tenant_scope_digest digests rows none = return none
lookup_winner now later tenant_scope_digest digests rows (some row) =
    let winner = with_tenant tenant_scope_digest row in
    if session_affinity_needs_write rows digests winner tenant_scope_digest now
    then refresh_session_affinity later tenant_scope_digest digests
    else return (some (binding_of (session_affinity_row_digests rows digests) winner))

-- lookupSessionAffinity
unfoldable pub lookup_session_affinity :
    Time → Time → Text → List Text → M UserStore Error (Option SessionAffinityBinding)
unfolding load_session_affinity_rows lookup_winner
lookup_session_affinity now later tenant_scope_digest raw_digests = do
  check_ready
  let digests = normalize_session_affinity_digests raw_digests
  if length digests == 0 then return none else do
    rows ← load_session_affinity_rows (text "lookup session affinity") digests []
    lookup_winner now later tenant_scope_digest digests rows
        (choose_session_affinity_winner now rows)
