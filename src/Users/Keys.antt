-- ===== src/Users/Keys.antt =====
-- The API key of a new user, from CreateUser to AuthenticateAPIKey
-- (internal/codexonly/user_store.go).
use codex_oauth_proxy.Base.{Time, Error, invalid_api_key, disabled_credential}
use codex_oauth_proxy.Prelude.{
  ◌≡◌, refl, sym, ap, ◌∙◌, arith, Bool, true, false, not, List, [], ◌∷◌, ◌++◌, Option, none, some,
  Text, text, text_eq_refl, trim_space, is_empty, Result, ok, err, M, and_then, if◌then◌else◌,
}
use codex_oauth_proxy.Storage.{check_ready, exec, call, commit_transaction}
use codex_oauth_proxy.Users.{
  UserRecord, ApiKeyRecord, UserTables, KeyStore, statement, find_user, find_key, has_hash,
  user_violation, key_violation, AuthenticatedApiKey, CreatedUserApiKey,
}
use codex_oauth_proxy.Users.Operations.{
  Tokens, create_user, create_body, authenticate_api_key, authenticated, normalize_user_name,
  new_api_key, new_user, api_key_prefix, add_user, add_key, lifted, or_default, joined_key,
  join_user, key_with_user,
}
use codex_oauth_proxy.Users.Rules.{
  Ends, ok-Ends, call-Ends, and_then-Ends, statement-Ends, transaction-Ends, find_key-append,
}
use mathlib.Core.Path.{subst}

-- Rules for a run before which nothing is known of the tables.
pub any-Ends :
    {A B : Type 0} (Q : A → UserTables → Type 0) (x : Result Error B × KeyStore)
    (f : B → M KeyStore Error A)
    → ((b : B) (d : KeyStore) → Ends Q (f b d))
    → Ends Q (and_then x f)
unfolding Ends
any-Ends Q (ok b, d) f k = k b d
any-Ends Q (err e, d) f k = tt

pub branch-Ends :
    {A : Type 0} (Q : A → UserTables → Type 0) (b : Bool) (m n : M KeyStore Error A) (d : KeyStore)
    → (b ≡ true → Ends Q (m d))
    → (b ≡ false → Ends Q (n d))
    → Ends Q ((if b then m else n) d)
branch-Ends Q true m n d h k = h refl
branch-Ends Q false m n d h k = k refl

pub of_run :
    {A : Type 0} (Q : A → UserTables → Type 0) (x : Result Error A × KeyStore) (a : A)
    (d : KeyStore)
    → Ends Q x
    → x ≡ (ok a, d)
    → Q a d.tables
unfolding Ends
of_run Q x a d h e = subst (Ends Q) e h

find_user-append :
    (us : List UserRecord) (u : UserRecord)
    → find_user u.id us ≡ none
    → find_user u.id (us ++ u ∷ []) ≡ some u
unfolding find_user
find_user-append [] u h = ground (arith, text_eq_refl u.id)
find_user-append (v ∷ us) u h = ground (arith, h, find_user-append us u)

-- The key and the user of a plaintext key, as they stand in the tables.
abbrev IsRegistered : (Text → Text) → CreatedUserApiKey → UserTables → Type 0
IsRegistered hash c t =
    (joined_key (hash c.plaintext_api_key) t ≡ some (record { user = c.user; api_key = c.api_key }))
    × (c.api_key.enabled ≡ true)
    × (is_empty c.plaintext_api_key ≡ false)

found_user :
    (u : UserRecord) (t : UserTables)
    → user_violation u t ≡ none
    → find_user u.id (add_user u t).users ≡ some u
unfolding user_violation
found_user u t h = find_user-append t.users u (ground (arith, h))

found_key :
    (k : ApiKeyRecord) (t : UserTables)
    → key_violation k t ≡ none
    → find_key (has_hash k.key_hash) (add_key k t).api_keys ≡ some k
unfolding key_violation find_key
found_key k t h =
    find_key-append (has_hash k.key_hash) t.api_keys (k ∷ []) (ground (arith, h))
    ∙ ground (arith, text_eq_refl k.key_hash)

registered :
    (k : ApiKeyRecord) (u : UserRecord) (t : UserTables)
    → k.user_id ≡ u.id
    → key_violation k t ≡ none
    → find_user u.id t.users ≡ some u
    → joined_key k.key_hash (add_key k t) ≡ some (record { user = u; api_key = k })
registered k u t e v h =
    ap (join_user (add_key k t)) (found_key k t v)
    ∙ ap (key_with_user k) (ap (λ id. find_user id t.users) e ∙ h)

pub committed :
    {A : Type 0} (Q : A → UserTables → Type 0) (op : Text) (x : A) (d : KeyStore)
    → Q x d.tables
    → Ends Q (and_then (commit_transaction op d) (λ _ e. (ok x, e)))
unfolding commit_transaction
committed Q op x d c =
    and_then-Ends Q (λ _. Q x) (exec op (λ t. t) d) _
      (call-Ends (λ _. Q x) op (λ t. t) (λ _. tt) d c) (λ _ e c'. ok-Ends Q x e c')

create_body-IsRegistered :
    (hash : Text → Text) (u : UserRecord) (k : ApiKeyRecord) (key : Text) (d : KeyStore)
    → k.user_id ≡ u.id
    → k.key_hash ≡ hash key
    → k.enabled ≡ true
    → is_empty key ≡ false
    → Ends (IsRegistered hash) (create_body u k key d)
unfolding create_body
create_body-IsRegistered hash u k key d e h on full =
    and_then-Ends _ (λ _ t. find_user u.id t.users ≡ some u)
      (statement _ (user_violation u) (add_user u) d) _
      (statement-Ends (λ _ t. find_user u.id t.users ≡ some u) _ (user_violation u) (add_user u) d
        (found_user u d.tables))
      (λ _ d' f.
        and_then-Ends _ (λ _ t. joined_key k.key_hash t ≡ some (record { user = u; api_key = k }))
          (statement _ (key_violation k) (add_key k) d') _
          (statement-Ends (λ _ t. joined_key k.key_hash t ≡ some (record { user = u; api_key = k }))
            _ (key_violation k) (add_key k) d' (λ v. registered k u d'.tables e v f))
          (λ _ d'' j.
            committed (IsRegistered hash) _
              (record { user = u; api_key = k; plaintext_api_key = key }) d''
              (rw (sym h) j, on, full)))

create_user-IsRegistered :
    (hash : Text → Text) (tokens : Tokens) (now : Time) (name : Text) (enabled : Option Bool)
    (d : KeyStore)
    → Ends (IsRegistered hash) (create_user hash tokens now name enabled d)
unfolding create_user new_api_key
create_user-IsRegistered hash tokens now name enabled d = any-Ends _ (check_ready d) _ (λ _ d'.
    any-Ends _ (lifted (normalize_user_name name) d') _ (λ name' d'.
      any-Ends _ (lifted tokens.api_key d') _ (λ token d'.
        any-Ends _ (lifted tokens.user d') _ (λ user_token d'.
          any-Ends _ (lifted tokens.api_key_id d') _ (λ key_token d'.
            let id = text "usr_" ++ user_token in
            let key = api_key_prefix ++ token in
            let u = new_user id name' (or_default true enabled) now in
            let k = new_api_key hash (text "key_" ++ key_token) id key none now in
            transaction-Ends (text "begin create user") (create_body u k key) d' (IsRegistered hash)
              (λ e q. create_body-IsRegistered hash u k key e refl refl refl refl))))))

-- What the row of an accepted key becomes.
abbrev pub stamped : Time → AuthenticatedApiKey → AuthenticatedApiKey
stamped now a = record a { api_key = record (a.api_key) { last_used_at = some now } }

-- What authentication answers on a store whose statements succeed.
abbrev verdict : Time → AuthenticatedApiKey → Result Error AuthenticatedApiKey
verdict now a =
    if not a.api_key.enabled
    then err invalid_api_key
    else if not a.user.enabled
    then err disabled_credential
    else ok (stamped now a)

authenticated-verdict :
    (now : Time) (a : AuthenticatedApiKey) (d : KeyStore)
    → d.script ≡ []
    → (authenticated now a d).0 ≡ verdict now a
unfolding authenticated call
authenticated-verdict now a d s = ground (arith, s)

authenticate_api_key-found :
    (hash : Text → Text) (now : Time) (key : Text) (d : KeyStore) (a : AuthenticatedApiKey)
    → d.script ≡ []
    → d.failures.cause ≡ none
    → is_empty (trim_space key) ≡ false
    → joined_key (hash (trim_space key)) d.tables ≡ some a
    → (authenticate_api_key hash now key d).0 ≡ verdict now a
unfolding authenticate_api_key check_ready call
authenticate_api_key-found hash now key d a s r e j =
    rw (r, e, s, j) (authenticated-verdict now a _ s)

-- A key that CreateUser has returned is accepted, with its user, by the store that CreateUser has left, or
-- refused as disabled if the user was created disabled; the statements of the authentication succeed, and
-- trimming leaves the key as it is.
pub create_user-authenticate :
    (hash : Text → Text) (tokens : Tokens) (now later : Time) (name : Text) (enabled : Option Bool)
    (d d' : KeyStore) (c : CreatedUserApiKey)
    → create_user hash tokens now name enabled d ≡ (ok c, d')
    → d'.script ≡ []
    → d'.failures.cause ≡ none
    → trim_space c.plaintext_api_key ≡ c.plaintext_api_key
    → (authenticate_api_key hash later c.plaintext_api_key d').0 ≡ (
        if c.user.enabled
        then ok (stamped later (record { user = c.user; api_key = c.api_key }))
        else err disabled_credential)
create_user-authenticate hash tokens now later name enabled d d' c run s r trim =
    let (found, on, full) =
      of_run (IsRegistered hash) (create_user hash tokens now name enabled d) c d'
        (create_user-IsRegistered hash tokens now name enabled d) run in
    let key = c.plaintext_api_key in
    authenticate_api_key-found hash later key d' (record { user = c.user; api_key = c.api_key }) s r
      (ap is_empty trim ∙ full) (ap (λ k. joined_key (hash k) d'.tables) trim ∙ found)
    ∙ ground (arith, on)
