-- ===== src/Health.antt =====
-- internal/codexonly/auth_health.go: what the proxy knows of the health of each credential. Here are
-- the states, the tests on them, and the registry; the children hold its operations and their laws.
-- SHA-256 (with hex) is a parameter of what uses it, and an instant that a method reads from the
-- clock is an argument, one for each reading. A logged line is not modelled.
pub mod Rows
pub mod Marks
pub mod Queries
pub mod Lifecycle
pub mod Bounds
pub mod Models
pub mod Invariant
pub mod Blocking
pub mod History
pub mod Cooldown
pub mod Expiry
pub mod Upkeep
pub mod Mirror
use codex_oauth_proxy.Base.{Auth, Time, is_zero, after, before, Error}
use codex_oauth_proxy.Prelude.{
  ℕ, ◌+◌, ◌%◌, ◌^◌, Bool, true, false, not, ◌&&◌, ◌||◌, ◌==◌, ltb, leb, if◌then◌else◌, List, [],
  ◌∷◌, ◌++◌, reverse, Option, none, some, Text, text, Dict, insert, lookup, text_eq, text_ltb,
  is_empty, trim_space, length, take, M,
}
use codex_oauth_proxy.Store.{
  AuthHealthKind, quota, invalid_grant, unauthorized, credential_invalid, transient,
  model_unsupported, unset, UserStore,
}

pub record AuthHealthState : Type 0 where
  pub kind : AuthHealthKind
  pub reason : Text
  pub retry_at : Time
  pub authoritative : Bool
  pub credential_fingerprint : Text
  pub status_code : ℕ
  pub error_code : Text
  pub updated_at : Time

pub record AuthModelExclusion : Type 0 where
  pub fingerprint : Text
  pub reason : Text
  pub status_code : ℕ
  pub error_code : Text
  pub updated_at : Time

unfoldable pub persisted_auth_health_kind : AuthHealthKind → Bool
persisted_auth_health_kind quota = true
persisted_auth_health_kind invalid_grant = true
persisted_auth_health_kind unauthorized = true
persisted_auth_health_kind _ = false

unfoldable pub credential_health_kind : AuthHealthKind → Bool
credential_health_kind invalid_grant = true
credential_health_kind unauthorized = true
credential_health_kind credential_invalid = true
credential_health_kind _ = false

abbrev pub is_quota : AuthHealthKind → Bool
is_quota quota = true
is_quota _ = false

abbrev pub is_transient : AuthHealthKind → Bool
is_transient transient = true
is_transient _ = false

abbrev pub is_credential_invalid : AuthHealthKind → Bool
is_credential_invalid credential_invalid = true
is_credential_invalid _ = false

abbrev pub is_invalid_grant : AuthHealthKind → Bool
is_invalid_grant invalid_grant = true
is_invalid_grant _ = false

abbrev pub is_unauthorized : AuthHealthKind → Bool
is_unauthorized unauthorized = true
is_unauthorized _ = false

-- Whether an incoming state is too weak to replace the one that is there.
unfoldable pub preserve_existing_health_state : AuthHealthState → AuthHealthState → Time → Bool
unfolding credential_health_kind
preserve_existing_health_state existing incoming now =
    if not (is_zero existing.retry_at) && not (after existing.retry_at now)
    then false
    else if not (
        is_transient incoming.kind
        || is_credential_invalid incoming.kind
        || (is_quota incoming.kind && not incoming.authoritative))
    then false
    else credential_health_kind existing.kind || (is_quota existing.kind && existing.authoritative)

abbrev is_letter_or_digit : ℕ → Bool
is_letter_or_digit c =
    (leb b'a' c && leb c b'z') || (leb b'A' c && leb c b'Z') || (leb b'0' c && leb c b'9')

abbrev all_bytes : (ℕ → Bool) → Text → Bool
all_bytes p [] = true
all_bytes p (c ∷ s) = p c && all_bytes p s

-- A range over the characters of a string sees a byte above 127 as a character above 127, which no
-- case admits.
unfoldable pub safe_health_code : Text → Text
safe_health_code s =
    let code = trim_space s in
    if ltb 64 (length code)
    then []
    else if all_bytes (λ c. is_letter_or_digit c || c == b'_' || c == b'-' || c == b'.') code
    then code
    else []

unfoldable pub safe_health_text : Text → Text
safe_health_text s =
    let value = trim_space s in if ltb 128 (length value) then take 128 value else value

-- strings.Trim(s, " ")
drop_blanks : Text → Text
drop_blanks [] = []
drop_blanks (c ∷ s) = if c == 32 then drop_blanks s else c ∷ s

abbrev pub max_model_identifier_bytes : ℕ
max_model_identifier_bytes = 128

abbrev is_model_byte : ℕ → Bool
is_model_byte c =
    is_letter_or_digit c
    || c == b'-'
    || c == b'_'
    || c == b'.'
    || c == b'/'
    || c == b':'
    || c == b'@'

unfoldable pub normalize_model_identifier : Text → Option Text
unfolding drop_blanks
normalize_model_identifier s =
    let model = reverse (drop_blanks (reverse (drop_blanks s))) in
    if is_empty model || ltb max_model_identifier_bytes (length model)
    then none
    else if all_bytes is_model_byte model
    then some model
    else none

abbrev zero_exclusion : AuthModelExclusion
zero_exclusion = record {
  fingerprint = [];
  reason = [];
  status_code = 0;
  error_code = [];
  updated_at = 0;
}

abbrev older : Text → AuthModelExclusion → Text → AuthModelExclusion → Bool
older model exclusion oldest_model oldest =
    is_empty oldest_model
    || before exclusion.updated_at oldest.updated_at
    || (exclusion.updated_at == oldest.updated_at && text_ltb model oldest_model)

oldest_from : Text → AuthModelExclusion → Dict AuthModelExclusion → Text
oldest_from oldest_model oldest [] = oldest_model
oldest_from oldest_model oldest ((model, exclusion) ∷ rest) =
    let older_here = older model exclusion oldest_model oldest in
    oldest_from (if older_here then model else oldest_model)
      (if older_here then exclusion else oldest) rest

unfoldable pub oldest_model_exclusion : Dict AuthModelExclusion → Text
unfolding oldest_from
oldest_model_exclusion exclusions = oldest_from [] zero_exclusion exclusions

pub record AuthHealthRegistry : Type 0 where
  pub store : UserStore
  pub states : Dict AuthHealthState
  pub model_exclusions : Dict (Dict AuthModelExclusion)
  pub healthy_epochs : Dict ℕ

-- r.modelExclusions[id]; a nil map reads as an empty one.
abbrev pub models_of : Text → Dict (Dict AuthModelExclusion) → Dict AuthModelExclusion
models_of id m = elim (lookup id m) [ none ↦ [] | some models ↦ models ]

module _ (sha256_hex : Text → Text) where
  unfoldable pub auth_credential_fingerprint : Auth → Text
  auth_credential_fingerprint auth =
      sha256_hex (auth.access_token ++ (0 ∷ (auth.refresh_token ++ (0 ∷ auth.id_token))))
