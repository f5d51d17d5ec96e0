-- ===== src/Affinity.antt =====
-- Session affinity (internal/codexonly/session_affinity.go): which credential the requests of one session
-- go to. A session has digests of its signals; each is the key of a row, and rows with one binding digest
-- belong to one binding. The rows that a query answers come in the order of the table, where Go ranges over
-- a map: the choice of a winner does not depend on the order.
use codex_oauth_proxy.Base.{Time, is_zero, after, before, minute, hour}
use codex_oauth_proxy.Health.Rows.{contains}
use codex_oauth_proxy.Prelude.{
  ℕ, ◌+◌, ◌*◌, ◌==◌, ltb, leb, Bool, true, false, not, ◌&&◌, ◌||◌, if◌then◌else◌, List, [], ◌∷◌,
  ◌++◌, Option, none, some, Text, text_eq, text_ltb, is_empty, trim_space, length, Dict, insert,
  lookup,
}
use codex_oauth_proxy.Store.{SessionAffinityRow, SessionAffinityBinding}
pub mod Operations
pub mod Winner
pub mod Aliases
pub mod Bindings
pub mod Deletes
pub mod Cleared

abbrev pub session_affinity_expiry : ℕ
session_affinity_expiry = hour

abbrev pub session_affinity_renewal_threshold : ℕ
session_affinity_renewal_threshold = 30 * minute

-- hex.DecodeString accepts both cases.
abbrev pub is_hex_digit : ℕ → Bool
is_hex_digit b =
    (leb 0x30 b && leb b 0x39) || (leb 0x61 b && leb b 0x66) || (leb 0x41 b && leb b 0x46)

abbrev pub is_hex : Text → Bool
is_hex [] = true
is_hex (b ∷ s) = is_hex_digit b && is_hex s

-- The texts that normalizeSessionAffinityDigests keeps: the 64 hexadecimal digits of a SHA-256 sum.
unfoldable pub is_digest : Text → Bool
is_digest d = length d == 64 && is_hex d

abbrev pub normalize_digests_from : List Text → List Text → List Text
normalize_digests_from result [] = result
normalize_digests_from result (d ∷ ds) =
    let digest = trim_space d in
    normalize_digests_from
      (if is_digest digest && not (contains digest result) then result ++ (digest ∷ []) else result)
      ds

unfoldable pub normalize_session_affinity_digests : List Text → List Text
normalize_session_affinity_digests digests = normalize_digests_from [] digests

-- slices.Sort puts the least digest first.
abbrev pub least_from : Text → List Text → Text
least_from d [] = d
least_from d (e ∷ es) = least_from (if text_ltb e d then e else d) es

abbrev pub first_sorted : List Text → Text
first_sorted [] = []
first_sorted (d ∷ ds) = least_from d ds

unfoldable pub canonical_session_affinity_digest : List Text → Text
canonical_session_affinity_digest digests =
    first_sorted (normalize_session_affinity_digests digests)

abbrev pub row_digests : List SessionAffinityRow → List Text
row_digests [] = []
row_digests (r ∷ rows) = r.digest ∷ row_digests rows

unfoldable pub session_affinity_row_digests : List SessionAffinityRow → List Text → List Text
session_affinity_row_digests rows requested =
    normalize_session_affinity_digests (requested ++ row_digests rows)

-- Whether a row is chosen rather than the winner so far.
abbrev pub precedes : SessionAffinityRow → SessionAffinityRow → Bool
precedes r w = before r.created w.created || (r.created == w.created && text_ltb r.digest w.digest)

abbrev pub better : SessionAffinityRow → Option SessionAffinityRow → Option SessionAffinityRow
better r none = some r
better r (some w) = if precedes r w then some r else some w

unfoldable pub winner_from :
    Time → Option SessionAffinityRow → List SessionAffinityRow → Option SessionAffinityRow
winner_from now winner [] = winner
winner_from now winner (r ∷ rows) =
    winner_from now (if not (after r.expires now) then winner else better r winner) rows

unfoldable pub choose_session_affinity_winner :
    Time → List SessionAffinityRow → Option SessionAffinityRow
unfolding winner_from
choose_session_affinity_winner now rows = winner_from now none rows

abbrev pub active_from :
    Time → Dict SessionAffinityRow → List SessionAffinityRow → Dict SessionAffinityRow
active_from now active [] = active
active_from now active (r ∷ rows) =
    active_from now (if after r.expires now then insert r.digest r active else active) rows

-- The row of an alias is missing, or of another binding, or of another tenant.
abbrev pub is_stale : SessionAffinityRow → Text → Option SessionAffinityRow → Bool
is_stale winner tenant_scope_digest none = true
is_stale winner tenant_scope_digest (some row) =
    not (text_eq row.auth_id winner.auth_id)
    || not (text_eq row.binding_digest winner.binding_digest)
    || (not (is_empty tenant_scope_digest)
        && not (text_eq row.tenant_scope_digest tenant_scope_digest))

abbrev pub any_stale : SessionAffinityRow → Text → Dict SessionAffinityRow → List Text → Bool
any_stale winner tenant_scope_digest active [] = false
any_stale winner tenant_scope_digest active (d ∷ ds) =
    is_stale winner tenant_scope_digest (lookup d active)
    || any_stale winner tenant_scope_digest active ds

unfoldable pub session_affinity_needs_write :
    List SessionAffinityRow → List Text → SessionAffinityRow → Text → Time → Bool
session_affinity_needs_write rows digests winner tenant_scope_digest now =
    not (after (winner.updated + session_affinity_renewal_threshold) now)
    || any_stale winner tenant_scope_digest (active_from now [] rows) digests

-- What writeSessionAffinityAliases makes of a winner whose fields are not all set.
unfoldable pub completed : Time → List Text → SessionAffinityRow → SessionAffinityRow
completed now digests winner =
    let updated = if is_zero winner.updated then now else winner.updated in
    record {
      digest = winner.digest;
      binding_digest =
          if is_empty winner.binding_digest
          then canonical_session_affinity_digest digests
          else winner.binding_digest;
      tenant_scope_digest = winner.tenant_scope_digest;
      auth_id = winner.auth_id;
      created = if is_zero winner.created then now else winner.created;
      updated = updated;
      expires =
          if is_zero winner.expires || not (after winner.expires now)
          then updated + session_affinity_expiry
          else winner.expires;
    }

-- A binding without a tenant takes the one that asks.
unfoldable pub with_tenant : Text → SessionAffinityRow → SessionAffinityRow
with_tenant tenant_scope_digest winner =
    if is_empty winner.tenant_scope_digest && not (is_empty tenant_scope_digest)
    then record winner { tenant_scope_digest = tenant_scope_digest }
    else winner

unfoldable pub new_row : Time → Text → Text → List Text → SessionAffinityRow
new_row now tenant_scope_digest auth_id all_digests = record {
  digest = [];
  binding_digest = canonical_session_affinity_digest all_digests;
  tenant_scope_digest = tenant_scope_digest;
  auth_id = auth_id;
  created = now;
  updated = now;
  expires = now + session_affinity_expiry;
}

abbrev pub binding_of : List Text → SessionAffinityRow → SessionAffinityBinding
binding_of digests winner = record {
  digests = digests;
  binding_digest = winner.binding_digest;
  tenant_scope_digest = winner.tenant_scope_digest;
  auth_id = winner.auth_id;
}

-- SessionAffinityBinding.valid
unfoldable pub valid : SessionAffinityBinding → Bool
valid b =
    not (is_empty (trim_space b.auth_id))
    && not (is_empty (canonical_session_affinity_digest (b.binding_digest ∷ [])))
    && ltb 0 (length (normalize_session_affinity_digests b.digests))
