-- ===== src/Users.antt =====
-- Users and their API keys (internal/codexonly/user_store.go): the tables users and api_keys of the
-- store. SQLite checks the constraints that `migrate` declares and reports a violation in its
-- documented words, which mapSQLiteError reads. SHA-256 and the random tokens are parameters.
use codex_oauth_proxy.Base.{
  Time, Error, invalid_input, duplicate_user_name, user_not_found, invalid_api_key,
  disabled_credential, driver,
}
use codex_oauth_proxy.Failover.Classify.{contains_text}
use codex_oauth_proxy.Prelude.{
  ℕ, ◌+◌, ◌-◌, leb, Bool, true, false, not, ◌&&◌, ◌||◌, if◌then◌else◌, List, [], ◌∷◌, ◌++◌, Option,
  none, some, Text, text, text_eq, is_empty, trim_space, length, take, drop, map,
}
use codex_oauth_proxy.Storage.{Database, database_error}
use codex_oauth_proxy.Prelude.{M, ok}
pub mod Operations
pub mod Rules
pub mod Rows
pub mod Invariant
pub mod Keys
pub mod Accepted

pub record UserRecord : Type 0 where
  pub id : Text
  pub name : Text
  pub enabled : Bool
  pub created_at : Time
  pub updated_at : Time

pub record ApiKeyRecord : Type 0 where
  pub id : Text
  pub user_id : Text
  pub key_hash : Text
  pub key_prefix : Text
  pub masked_key : Text
  pub enabled : Bool
  pub created_at : Time
  pub rotated_at : Option Time
  pub last_used_at : Option Time

-- The rows in the order in which they were inserted.
pub record UserTables : Type 0 where
  pub users : List UserRecord
  pub api_keys : List ApiKeyRecord

abbrev pub KeyStore : Type 0
KeyStore = Database UserTables

pub record UserWithApiKey : Type 0 where
  pub user : UserRecord
  pub api_key : Option ApiKeyRecord

pub record CreatedUserApiKey : Type 0 where
  pub user : UserRecord
  pub api_key : ApiKeyRecord
  pub plaintext_api_key : Text

pub record AuthenticatedApiKey : Type 0 where
  pub user : UserRecord
  pub api_key : ApiKeyRecord

unfoldable pub display_key_prefix : Text → Text
display_key_prefix key = if leb (length key) 12 then key else take 12 key

unfoldable pub mask_api_key : Text → Text
unfolding display_key_prefix
mask_api_key key =
    if leb (length key) 18
    then display_key_prefix key ++ text "..."
    else take 11 key ++ (text "..." ++ drop (length key - 6) key)

-- strings.ToLower on ASCII, which SQLite's messages are.
abbrev to_lower : Text → Text
to_lower [] = []
to_lower (c ∷ s) = (if leb 0x41 c && leb c 0x5a then c + 32 else c) ∷ to_lower s

unfoldable pub map_sqlite_error : Error → Error
map_sqlite_error (driver t) =
    let message = to_lower t in
    if contains_text (text "unique") message && contains_text (text "users.name") message
    then duplicate_user_name
    else if contains_text (text "constraint") message
    then invalid_input
    else driver t
map_sqlite_error e = e

abbrev pub script_entry : List (Option Error) → Option Error
script_entry [] = none
script_entry (o ∷ rest) = o

abbrev pub script_rest : List (Option Error) → List (Option Error)
script_rest [] = []
script_rest (o ∷ rest) = rest

-- A statement that may violate a constraint of the tables.
unfoldable pub ran :
    Text → Option Error → Option Error → (UserTables → UserTables) → M KeyStore Error (Unit {0})
unfolding map_sqlite_error
ran op (some e) violation f d = database_error op (map_sqlite_error e) d
ran op none (some e) f d = database_error op (map_sqlite_error e) d
ran op none none f d = (ok tt, record d { tables = f d.tables })

unfoldable pub statement :
    Text → (UserTables → Option Error) → (UserTables → UserTables) → M KeyStore Error (Unit {0})
unfolding ran
statement op violation f d =
    ran op (script_entry d.script) (violation d.tables) f
      (record d { script = script_rest d.script })

unfoldable pub find_user : Text → List UserRecord → Option UserRecord
find_user id [] = none
find_user id (u ∷ users) = let rest = find_user id users in if text_eq u.id id then some u else rest

-- COLLATE NOCASE folds ASCII letters.
unfoldable pub has_name : Text → Text → List UserRecord → Bool
has_name id name [] = false
has_name id name (u ∷ users) =
    (text_eq (to_lower u.name) (to_lower name) && not (text_eq u.id id)) || has_name id name users

unfoldable pub find_key : (ApiKeyRecord → Bool) → List ApiKeyRecord → Option ApiKeyRecord
find_key test [] = none
find_key test (k ∷ keys) = let rest = find_key test keys in if test k then some k else rest

abbrev pub is_some {ℓ} : {A : Type ℓ} → Option A → Bool
is_some none = false
is_some (some a) = true

abbrev pub enabled_of : Text → ApiKeyRecord → Bool
enabled_of user_id k = text_eq k.user_id user_id && k.enabled

abbrev pub has_hash : Text → ApiKeyRecord → Bool
has_hash hash k = text_eq k.key_hash hash

abbrev pub has_id : Text → ApiKeyRecord → Bool
has_id id k = text_eq k.id id

abbrev violated : Text → Option Error
violated message = some (driver message)

-- The constraints on a new row of users, of api_keys, and on a new name of a user.
unfoldable pub user_violation : UserRecord → UserTables → Option Error
unfolding find_user has_name
user_violation u t =
    if is_some (find_user u.id t.users)
    then violated (text "UNIQUE constraint failed: users.id")
    else if has_name u.id u.name t.users
    then violated (text "UNIQUE constraint failed: users.name")
    else none

unfoldable pub key_violation : ApiKeyRecord → UserTables → Option Error
unfolding find_user find_key
key_violation k t =
    if is_some (find_key (has_id k.id) t.api_keys)
    then violated (text "UNIQUE constraint failed: api_keys.id")
    else if is_some (find_key (has_hash k.key_hash) t.api_keys)
    then violated (text "UNIQUE constraint failed: api_keys.key_hash")
    else if not (is_some (find_user k.user_id t.users))
    then violated (text "FOREIGN KEY constraint failed")
    else none

unfoldable pub rename_violation : Text → Text → UserTables → Option Error
unfolding has_name
rename_violation id name t =
    if is_some (find_user id t.users) && has_name id name t.users
    then violated (text "UNIQUE constraint failed: users.name")
    else none
