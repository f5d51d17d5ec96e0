-- ===== src/Users/Operations.antt =====
-- The operations of UserStore on users and their API keys (internal/codexonly/user_store.go). `hash` is
-- hashAPIKey; a random token, or the error that reading it met, is an argument, as is the clock's reading.
use codex_oauth_proxy.Base.{
  Time, Error, invalid_input, user_not_found, invalid_api_key, disabled_credential,
}
use codex_oauth_proxy.Prelude.{
  Bool, true, false, not, if◌then◌else◌, [], ◌∷◌, ◌++◌, Option, none, some, Text, text, text_eq,
  is_empty, trim_space, map, M, Result, ok, err, ◌>>=◌, ◌>>◌, return, fail,
}
use codex_oauth_proxy.Storage.{check_ready, query, exec, transaction, commit_transaction}
use codex_oauth_proxy.Users.{
  UserRecord, ApiKeyRecord, UserTables, KeyStore, UserWithApiKey, CreatedUserApiKey,
  AuthenticatedApiKey, display_key_prefix, mask_api_key, statement, find_user, find_key, enabled_of,
  has_hash, user_violation, key_violation, rename_violation,
}

-- The result of a call that reads or writes no store.
abbrev pub lifted : {A : Type 0} → Result Error A → M KeyStore Error A
lifted r d = (r, d)

unfoldable pub normalize_user_name : Text → Result Error Text
normalize_user_name raw =
    let name = trim_space raw in if is_empty name then err invalid_input else ok name

-- The user with its enabled key, as userWithKeySelect joins them.
abbrev pub with_key : UserTables → UserRecord → UserWithApiKey
with_key t u = record { user = u; api_key = find_key (enabled_of u.id) t.api_keys }

abbrev pub joined_user : Text → UserTables → Option UserWithApiKey
joined_user id t = elim (find_user id t.users) [ none ↦ none | some u ↦ some (with_key t u) ]

abbrev pub or_fail : {A : Type 0} → Error → Option A → M KeyStore Error A
or_fail e none = fail e
or_fail e (some a) = return a

unfoldable pub get_user : Text → M KeyStore Error UserWithApiKey
unfolding find_user find_key
get_user id = do
  check_ready
  found ← query (text "get user") (joined_user (trim_space id))
  or_fail user_not_found found

unfoldable pub new_api_key : (Text → Text) → Text → Text → Text → Option Time → Time → ApiKeyRecord
unfolding display_key_prefix mask_api_key
new_api_key hash id user_id plain_key rotated_at now = record {
  id = id;
  user_id = user_id;
  key_hash = hash plain_key;
  key_prefix = display_key_prefix plain_key;
  masked_key = mask_api_key plain_key;
  enabled = true;
  created_at = now;
  rotated_at = rotated_at;
  last_used_at = none;
}

abbrev pub new_user : Text → Text → Bool → Time → UserRecord
new_user id name enabled now = record {
  id = id;
  name = name;
  enabled = enabled;
  created_at = now;
  updated_at = now;
}

abbrev pub add_user : UserRecord → UserTables → UserTables
add_user u t = record t { users = t.users ++ u ∷ [] }

abbrev pub add_key : ApiKeyRecord → UserTables → UserTables
add_key k t = record t { api_keys = t.api_keys ++ k ∷ [] }

abbrev pub disabled_key : Text → ApiKeyRecord → ApiKeyRecord
disabled_key user_id k = if enabled_of user_id k then record k { enabled = false } else k

abbrev pub disable_keys : Text → UserTables → UserTables
disable_keys user_id t = record t { api_keys = map (disabled_key user_id) t.api_keys }

abbrev pub touched_key : Text → Time → ApiKeyRecord → ApiKeyRecord
touched_key id now k = if text_eq k.id id then record k { last_used_at = some now } else k

abbrev pub touch_key : Text → Time → UserTables → UserTables
touch_key id now t = record t { api_keys = map (touched_key id now) t.api_keys }

abbrev pub renamed_user : Text → Text → Bool → Time → UserRecord → UserRecord
renamed_user id name enabled now u =
    if text_eq u.id id then record u { name = name; enabled = enabled; updated_at = now } else u

abbrev pub rename_user : Text → Text → Bool → Time → UserTables → UserTables
rename_user id name enabled now t = record t {
  users = map (renamed_user id name enabled now) t.users;
}

-- The texts that randomToken makes for one operation.
pub record Tokens : Type 0 where
  pub api_key : Result Error Text
  pub user : Result Error Text
  pub api_key_id : Result Error Text

abbrev pub prefixed : Text → Text → Text
prefixed p token = p ++ token

abbrev pub api_key_prefix : Text
api_key_prefix = text "cop_"

unfoldable pub create_body : UserRecord → ApiKeyRecord → Text → M KeyStore Error CreatedUserApiKey
unfolding statement user_violation key_violation commit_transaction
create_body user key plain_key = do
  statement (text "insert user") (user_violation user) (add_user user)
  statement (text "insert user API key") (key_violation key) (add_key key)
  commit_transaction (text "commit create user")
  return (record { user = user; api_key = key; plaintext_api_key = plain_key })

abbrev pub or_default : Bool → Option Bool → Bool
or_default b none = b
or_default b (some c) = c

-- CreateUser
unfoldable pub create_user :
    (Text → Text) → Tokens → Time → Text → Option Bool → M KeyStore Error CreatedUserApiKey
unfolding normalize_user_name new_api_key create_body transaction
create_user hash tokens now raw_name enabled = do
  check_ready
  name ← lifted (normalize_user_name raw_name)
  token ← lifted tokens.api_key
  user_token ← lifted tokens.user
  key_token ← lifted tokens.api_key_id
  let plain_key = api_key_prefix ++ token
  let user_id = text "usr_" ++ user_token
  transaction (text "begin create user") (
      create_body (new_user user_id name (or_default true enabled) now)
        (new_api_key hash (text "key_" ++ key_token) user_id plain_key none now) plain_key)

unfoldable pub new_name : Text → Option Text → Result Error Text
unfolding normalize_user_name
new_name current none = ok current
new_name current (some raw) = normalize_user_name raw

-- UpdateUser
unfoldable pub update_user :
    Time → Text → Option Text → Option Bool → M KeyStore Error UserWithApiKey
unfolding get_user statement rename_violation new_name
update_user now raw_id raw_name enabled = do
  check_ready
  let id = trim_space raw_id
  if is_empty id then fail user_not_found else do
    current ← get_user id
    name ← lifted (new_name current.user.name raw_name)
    statement (text "update user") (rename_violation id name)
        (rename_user id name (or_default current.user.enabled enabled) now)
    get_user id

unfoldable pub reset_body : UserRecord → ApiKeyRecord → Text → M KeyStore Error CreatedUserApiKey
unfolding statement key_violation commit_transaction
reset_body user key plain_key = do
  exec (text "disable previous API keys") (disable_keys user.id)
  statement (text "insert replacement API key") (key_violation key) (add_key key)
  commit_transaction (text "commit reset API key")
  return (record { user = user; api_key = key; plaintext_api_key = plain_key })

-- ResetUserAPIKey
unfoldable pub reset_user_api_key :
    (Text → Text) → Tokens → Time → Text → M KeyStore Error CreatedUserApiKey
unfolding get_user new_api_key reset_body transaction
reset_user_api_key hash tokens now user_id = do
  check_ready
  found ← get_user user_id
  token ← lifted tokens.api_key
  key_token ← lifted tokens.api_key_id
  let plain_key = api_key_prefix ++ token
  transaction (text "begin reset API key") (
      reset_body found.user
        (new_api_key hash (text "key_" ++ key_token) found.user.id plain_key (some now) now)
        plain_key)

-- The key of a hash with its user.
abbrev pub key_with_user : ApiKeyRecord → Option UserRecord → Option AuthenticatedApiKey
key_with_user k none = none
key_with_user k (some u) = some (record { user = u; api_key = k })

abbrev pub join_user : UserTables → Option ApiKeyRecord → Option AuthenticatedApiKey
join_user t none = none
join_user t (some k) = key_with_user k (find_user k.user_id t.users)

abbrev pub joined_key : Text → UserTables → Option AuthenticatedApiKey
joined_key hash t = join_user t (find_key (has_hash hash) t.api_keys)

unfoldable pub authenticated : Time → AuthenticatedApiKey → M KeyStore Error AuthenticatedApiKey
authenticated now a =
    if not a.api_key.enabled
    then fail invalid_api_key
    else if not a.user.enabled
    then fail disabled_credential
    else (exec (text "update API key last used") (touch_key a.api_key.id now)
        >> return (record a { api_key = record (a.api_key) { last_used_at = some now } }))

-- AuthenticateAPIKey
unfoldable pub authenticate_api_key :
    (Text → Text) → Time → Text → M KeyStore Error AuthenticatedApiKey
unfolding find_user find_key authenticated
authenticate_api_key hash now raw_key = do
  check_ready
  let key = trim_space raw_key
  if is_empty key then fail invalid_api_key else do
    found ← query (text "authenticate API key") (joined_key (hash key))
    a ← or_fail invalid_api_key found
    authenticated now a
