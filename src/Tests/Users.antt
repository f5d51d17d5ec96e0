-- ===== src/Tests/Users.antt =====
-- Examples of users and API keys.
use codex_oauth_proxy.Base.{disabled_credential}
use codex_oauth_proxy.Prelude.{
  ◌≡◌, refl, true, false, List, [], ◌∷◌, none, some, Text, text, ok, err, if◌then◌else◌, trim_space,
  text_eq, arith, ◌++◌,
}
use codex_oauth_proxy.Storage.{check_ready, call, new_storage_failure_state}
use codex_oauth_proxy.Users.{
  KeyStore, ApiKeyRecord, find_key, find_user, has_hash, CreatedUserApiKey, AuthenticatedApiKey,
}
use codex_oauth_proxy.Users.Operations.{
  Tokens, create_user, new_user, new_api_key, authenticate_api_key, reset_user_api_key,
}
use codex_oauth_proxy.Users.Invariant.{
  Call, creates, resets, authenticates, after_calls, after_calls-IsConsistent,
}
use codex_oauth_proxy.Users.Rows.{IsConsistent}
use codex_oauth_proxy.Users.Rules.{count}
use codex_oauth_proxy.Users.Keys.{stamped, create_user-authenticate}
use codex_oauth_proxy.Users.Accepted.{authenticate_api_key-accepted, reset_user_api_key-replaces}

abbrev no_users : KeyStore
no_users = record {
  tables = record { users = []; api_keys = [] };
  script = [];
  failures = new_storage_failure_state;
}

abbrev plain_hash : Text → Text
plain_hash t = text "#" ++ t

abbrev first_tokens : Tokens
first_tokens = record {
  api_key = ok (text "one");
  user = ok (text "u");
  api_key_id = ok (text "k");
}

abbrev second_tokens : Tokens
second_tokens = record {
  api_key = ok (text "two");
  user = ok (text "v");
  api_key_id = ok (text "l");
}

abbrev created : CreatedUserApiKey
created = record {
  user = new_user (text "usr_u") (text "ann") true 1;
  api_key = new_api_key plain_hash (text "key_k") (text "usr_u") (text "cop_one") none 1;
  plaintext_api_key = text "cop_one";
}

abbrev with_ann : KeyStore
with_ann = record no_users {
  tables = record { users = created.user ∷ []; api_keys = created.api_key ∷ [] };
}

create_user_run :
    create_user plain_hash first_tokens 1 (text " ann ") none no_users ≡ (ok created, with_ann)
unfolding create_user check_ready trim_space call text_eq
create_user_run = refl

create_user-authenticate_example :
    (authenticate_api_key plain_hash 2 (text "cop_one") with_ann).0 ≡ (
      if created.user.enabled
      then ok (stamped 2 (record { user = created.user; api_key = created.api_key }))
      else err disabled_credential)
unfolding trim_space
create_user-authenticate_example =
    create_user-authenticate plain_hash first_tokens 1 2 (text " ann ") none no_users with_ann
      created create_user_run refl refl refl

empty-IsConsistent : IsConsistent no_users.tables
unfolding count
empty-IsConsistent = record {
  one_key = λ id. omega arith;
  one_hash = λ hash. omega arith;
  owned = λ id h. refl;
}

abbrev calls : List Call
calls =
    creates first_tokens 1 (text "ann") none
    ∷ resets second_tokens 2 (text "usr_u")
    ∷ authenticates 3 (text "cop_two")
    ∷ []

after_calls-IsConsistent_example : IsConsistent (after_calls plain_hash calls no_users).tables
after_calls-IsConsistent_example =
    after_calls-IsConsistent plain_hash calls no_users empty-IsConsistent

abbrev accepted_ann : AuthenticatedApiKey
accepted_ann = stamped 2 (record { user = created.user; api_key = created.api_key })

abbrev touched_ann : KeyStore
touched_ann = record no_users {
  tables = record { users = created.user ∷ []; api_keys = accepted_ann.api_key ∷ [] };
}

authenticate_run :
    authenticate_api_key plain_hash 2 (text "cop_one") with_ann ≡ (ok accepted_ann, touched_ann)
unfolding authenticate_api_key check_ready trim_space call text_eq new_api_key
authenticate_run = refl

authenticate_api_key-accepted_example :
    (k : ApiKeyRecord) × (find_key
        (has_hash (plain_hash (trim_space (text "cop_one"))))
        with_ann.tables.api_keys
      ≡ some k)
    × (find_user k.user_id with_ann.tables.users ≡ some accepted_ann.user)
    × (k.enabled ≡ true)
    × (accepted_ann.user.enabled ≡ true)
authenticate_api_key-accepted_example =
    authenticate_api_key-accepted plain_hash 2 (text "cop_one") with_ann touched_ann accepted_ann
      authenticate_run

abbrev reset_key : CreatedUserApiKey
reset_key = record {
  user = created.user;
  api_key = new_api_key plain_hash (text "key_l") (text "usr_u") (text "cop_two") (some 3) 3;
  plaintext_api_key = text "cop_two";
}

abbrev with_two_keys : KeyStore
with_two_keys = record no_users {
  tables = record {
    users = created.user ∷ [];
    api_keys = record (created.api_key) { enabled = false } ∷ reset_key.api_key ∷ [];
  };
}

reset_run :
    reset_user_api_key plain_hash second_tokens 3 (text "usr_u") with_ann
    ≡ (ok reset_key, with_two_keys)
unfolding reset_user_api_key check_ready trim_space call text_eq
reset_run = refl

abbrev accepted_new : AuthenticatedApiKey
accepted_new = stamped 4 (record { user = created.user; api_key = reset_key.api_key })

new_key_run : authenticate_api_key plain_hash 4 (text "cop_two") with_two_keys ≡ (
  ok accepted_new,
  record with_two_keys {
    tables = record {
      users = created.user ∷ [];
      api_keys = record (created.api_key) { enabled = false } ∷ accepted_new.api_key ∷ [];
    };
  },
)
unfolding authenticate_api_key check_ready trim_space call text_eq new_api_key
new_key_run = refl

reset_user_api_key-replaces_example :
    plain_hash (trim_space (text "cop_two")) ≡ reset_key.api_key.key_hash
reset_user_api_key-replaces_example =
    reset_user_api_key-replaces plain_hash second_tokens 3 4 (text "usr_u") (text "cop_two")
      with_ann with_two_keys with_two_keys _ reset_key accepted_new reset_run refl new_key_run refl
