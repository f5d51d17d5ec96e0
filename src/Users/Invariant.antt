-- ===== src/Users/Invariant.antt =====
-- What every operation on users and API keys keeps, also when it fails
-- (internal/codexonly/user_store.go).
use codex_oauth_proxy.Base.{Time, Error, invalid_api_key, user_not_found}
use codex_oauth_proxy.Prelude.{
  ◌≡◌, refl, arith, sym, Bool, true, false, not, List, [], ◌∷◌, ◌++◌, Option, none, some, Text,
  text, trim_space, is_empty, Result, ok, err, M, and_then, if◌then◌else◌, succeeded, ◌>>=◌,
}
use codex_oauth_proxy.Storage.{
  check_ready, exec, call, transaction, commit_transaction, query, database_error,
}
use codex_oauth_proxy.Storage.Outcomes.{call-Writes}
use codex_oauth_proxy.Users.{
  UserRecord, ApiKeyRecord, UserTables, KeyStore, statement, ran, user_violation, key_violation,
  rename_violation, AuthenticatedApiKey, CreatedUserApiKey,
}
use codex_oauth_proxy.Users.Operations.{
  Tokens, create_user, create_body, update_user, reset_user_api_key, reset_body,
  authenticate_api_key, authenticated, get_user, normalize_user_name, new_api_key, new_user,
  api_key_prefix, add_user, add_key, disable_keys, touch_key, rename_user, lifted, or_fail,
  or_default, joined_user, joined_key,
}
use codex_oauth_proxy.Users.Rows.{
  IsConsistent, IsKeyless, add_user-IsConsistent, add_key-IsConsistent, disable_keys-IsConsistent,
  disable_keys-IsKeyless, touch_key-IsConsistent, rename_user-IsConsistent,
}
use codex_oauth_proxy.Users.Rules.{
  Ends, call-Ends, and_then-Ends, statement-Ends, transaction-keeps, ok-Ends,
}
use mathlib.Core.Path.{subst}

database_error-tables :
    (A : Type 0) (op : Text) (e : Error) (d : KeyStore)
    → (database_error {A = A} op e d).1.tables ≡ d.tables
unfolding database_error
database_error-tables A op e d = ground arith

check_ready-tables : (d : KeyStore) → (check_ready d).1.tables ≡ d.tables
unfolding check_ready
check_ready-tables d = ground arith

module _ (P : UserTables → Type 0) where
  -- What a run leaves satisfies `P`, whatever it returns.
  unfoldable pub Keeps : {A : Type 0} → Result Error A × KeyStore → Type 0
  Keeps x = P x.1.tables

  same-Keeps : {A : Type 0} (r : Result Error A) (d : KeyStore) → P d.tables → Keeps (r, d)
  unfolding Keeps
  same-Keeps r d h = h

  and_then-Keeps :
      {A B : Type 0} (x : Result Error B × KeyStore) (f : B → M KeyStore Error A)
      → Keeps x
      → ((b : B) (d : KeyStore) → P d.tables → Keeps (f b d))
      → Keeps (and_then x f)
  unfolding Keeps
  and_then-Keeps (ok b, d) f h k = k b d h
  and_then-Keeps (err e, d) f h k = h

  either_tables : (b : Bool) (t u : UserTables) → P t → P u → P (if b then t else u)
  either_tables true t u h k = h
  either_tables false t u h k = k

  call-Keeps :
      {A : Type 0} (op : Text) (f : UserTables → UserTables) (g : UserTables → A) (d : KeyStore)
      → P d.tables
      → P (f d.tables)
      → Keeps (call op f g d)
  unfolding Keeps
  call-Keeps {A} op f g d h k =
      subst P (sym (call-Writes A op f g d))
        (either_tables (succeeded (call op f g d).0) (f d.tables) d.tables k h)

  ran-Keeps :
      (op : Text) (o v : Option Error) (f : UserTables → UserTables) (d : KeyStore)
      → P d.tables
      → (v ≡ none → P (f d.tables))
      → Keeps (ran op o v f d)
  unfolding ran Keeps
  ran-Keeps op (some e) v f d h k = subst P (sym (database_error-tables _ op _ d)) h
  ran-Keeps op none (some e) f d h k = subst P (sym (database_error-tables _ op _ d)) h
  ran-Keeps op none none f d h k = k refl

  statement-Keeps :
      (op : Text) (v : UserTables → Option Error) (f : UserTables → UserTables) (d : KeyStore)
      → P d.tables
      → (v d.tables ≡ none → P (f d.tables))
      → Keeps (statement op v f d)
  unfolding statement
  statement-Keeps op v f d h k = ran-Keeps op _ (v d.tables) f _ h k

  check_ready-Keeps : (d : KeyStore) → P d.tables → Keeps (check_ready d)
  unfolding Keeps check_ready
  check_ready-Keeps d h = subst P (sym (check_ready-tables d)) h

  if-Keeps :
      {A : Type 0} (b : Bool) (m n : M KeyStore Error A) (d : KeyStore)
      → Keeps (m d)
      → Keeps (n d)
      → Keeps ((if b then m else n) d)
  if-Keeps true m n d h k = h
  if-Keeps false m n d h k = k

-- Every run of an operation keeps the tables consistent.
abbrev Preserves : {A : Type 0} → M KeyStore Error A → Type 0
Preserves m = (d : KeyStore) → IsConsistent d.tables → Keeps IsConsistent (m d)

ready : Preserves check_ready
ready = check_ready-Keeps IsConsistent

pure : {A : Type 0} (r : Result Error A) → Preserves (lifted r)
pure r = same-Keeps IsConsistent r

found_or : {A : Type 0} (e : Error) (o : Option A) → Preserves (or_fail e o)
found_or e none = pure (err e)
found_or e (some a) = pure (ok a)

bind :
    {A B : Type 0} (m : M KeyStore Error B) (f : B → M KeyStore Error A)
    → Preserves m
    → ((b : B) → Preserves (f b))
    → Preserves (m >>= f)
bind m f h k d c = and_then-Keeps IsConsistent (m d) f (h d c) k

branch :
    {A : Type 0} (b : Bool) (m n : M KeyStore Error A)
    → Preserves m
    → Preserves n
    → Preserves (if b then m else n)
branch b m n h k d c = if-Keeps IsConsistent b m n d (h d c) (k d c)

asked : {A : Type 0} (op : Text) (g : UserTables → A) → Preserves (query op g)
asked op g d c = call-Keeps IsConsistent op (λ t. t) g d c c

get_user-Preserves : (id : Text) → Preserves (get_user id)
unfolding get_user
get_user-Preserves id =
    bind check_ready _ ready
      (λ _. bind (query _ (joined_user (trim_space id))) _ (asked _ _) (found_or user_not_found))

authenticated-Preserves : (now : Time) (a : AuthenticatedApiKey) → Preserves (authenticated now a)
unfolding authenticated
authenticated-Preserves now a = branch (not a.api_key.enabled) _ _ (pure _) (
    branch (not a.user.enabled) _ _ (pure _) (
      bind (exec _ (touch_key a.api_key.id now)) _
        (λ d c.
          call-Keeps IsConsistent _ _ _ d c (touch_key-IsConsistent a.api_key.id now d.tables c))
        (λ _. pure _)))

authenticate_api_key-Preserves :
    (hash : Text → Text) (now : Time) (raw : Text) → Preserves (authenticate_api_key hash now raw)
unfolding authenticate_api_key
authenticate_api_key-Preserves hash now raw = bind check_ready _ ready (λ _.
    branch (is_empty (trim_space raw)) _ _ (pure _) (
      bind (query _ (joined_key (hash (trim_space raw)))) _ (asked _ _) (λ found.
        bind (or_fail invalid_api_key found) _ (found_or _ found) (authenticated-Preserves now))))

renaming :
    (op id name : Text) (enabled : Bool) (now : Time)
    → Preserves (statement op (rename_violation id name) (rename_user id name enabled now))
renaming op id name enabled now d c =
    statement-Keeps IsConsistent op (rename_violation id name) (rename_user id name enabled now) d c
      (λ _. rename_user-IsConsistent id name enabled now d.tables c)

update_user-Preserves :
    (now : Time) (id : Text) (name : Option Text) (enabled : Option Bool)
    → Preserves (update_user now id name enabled)
unfolding update_user
update_user-Preserves now raw_id name enabled =
    let id = trim_space raw_id in
    bind check_ready _ ready (λ _. branch (is_empty id) _ _ (pure _) (
      bind (get_user id) _ (get_user-Preserves id) (λ current. bind (lifted _) _ (pure _) (λ name'.
        bind (statement _ (rename_violation id name') (rename_user id name' _ now)) _
          (renaming (text "update user") id name' (or_default current.user.enabled enabled) now)
          (λ _. get_user-Preserves id)))))

-- What the transaction of CreateUser has made so far.
abbrev Added : UserRecord → UserTables → Type 0
Added u t = IsConsistent t × IsKeyless u.id t

added :
    (u : UserRecord) (t : UserTables)
    → IsConsistent t
    → user_violation u t ≡ none
    → Added u (add_user u t)
unfolding user_violation
added u t c h = (add_user-IsConsistent u t c, c.owned u.id (ground (arith, h)))

-- The end of both transactions.
committed :
    (op : Text) (x : CreatedUserApiKey) (d : KeyStore)
    → IsConsistent d.tables
    → Ends (λ a. IsConsistent) (and_then (commit_transaction op d) (λ _ e. (ok x, e)))
unfolding commit_transaction
committed op x d c =
    and_then-Ends _ (λ _. IsConsistent) (exec op (λ t. t) d) _
      (call-Ends (λ _. IsConsistent) op (λ t. t) (λ _. tt) d c) (λ _ e c'. ok-Ends _ x e c')

create_body-Ends :
    (u : UserRecord) (k : ApiKeyRecord) (key : Text) (d : KeyStore)
    → k.user_id ≡ u.id
    → IsConsistent d.tables
    → Ends (λ a. IsConsistent) (create_body u k key d)
unfolding create_body
create_body-Ends u k key d e c =
    and_then-Ends _ (λ _. Added u) (statement _ (user_violation u) (add_user u) d) _
      (statement-Ends (λ _. Added u) _ (user_violation u) (add_user u) d (added u d.tables c))
      (λ _ d' a.
        and_then-Ends _ (λ _. IsConsistent) (statement _ (key_violation k) (add_key k) d') _
          (statement-Ends (λ _. IsConsistent) _ (key_violation k) (add_key k) d'
            (λ v. add_key-IsConsistent k d'.tables v (rw e a.1) a.0))
          (λ _. committed _ _))

creating :
    (begin : Text) (u : UserRecord) (k : ApiKeyRecord) (key : Text)
    → k.user_id ≡ u.id
    → Preserves (transaction begin (create_body u k key))
unfolding Keeps
creating begin u k key h d c =
    transaction-keeps begin (create_body u k key) d IsConsistent c
      (λ e q. create_body-Ends u k key e h (subst IsConsistent (sym q) c))

create_user-Preserves :
    (hash : Text → Text) (tokens : Tokens) (now : Time) (name : Text) (enabled : Option Bool)
    → Preserves (create_user hash tokens now name enabled)
unfolding create_user new_api_key
create_user-Preserves hash tokens now name enabled = bind check_ready _ ready (λ _.
    bind (lifted (normalize_user_name name)) _ (pure _) (λ name'.
      bind (lifted tokens.api_key) _ (pure _) (λ token.
        bind (lifted tokens.user) _ (pure _) (λ user_token.
          bind (lifted tokens.api_key_id) _ (pure _) (λ key_token.
            let id = text "usr_" ++ user_token in
            let key = api_key_prefix ++ token in
            creating (text "begin create user") (new_user id name' (or_default true enabled) now)
              (new_api_key hash (text "key_" ++ key_token) id key none now) key refl)))))

reset_body-Ends :
    (u : UserRecord) (k : ApiKeyRecord) (key : Text) (d : KeyStore)
    → k.user_id ≡ u.id
    → IsConsistent d.tables
    → Ends (λ a. IsConsistent) (reset_body u k key d)
unfolding reset_body
reset_body-Ends u k key d e c =
    and_then-Ends _ (λ _. Added u) (exec _ (disable_keys u.id) d) _
      (call-Ends (λ _. Added u) _ (disable_keys u.id) (λ _. tt) d
        (disable_keys-IsConsistent u.id d.tables c, disable_keys-IsKeyless u.id d.tables))
      (λ _ d' a.
        and_then-Ends _ (λ _. IsConsistent) (statement _ (key_violation k) (add_key k) d') _
          (statement-Ends (λ _. IsConsistent) _ (key_violation k) (add_key k) d'
            (λ v. add_key-IsConsistent k d'.tables v (rw e a.1) a.0))
          (λ _. committed _ _))

resetting :
    (begin : Text) (u : UserRecord) (k : ApiKeyRecord) (key : Text)
    → k.user_id ≡ u.id
    → Preserves (transaction begin (reset_body u k key))
unfolding Keeps
resetting begin u k key h d c =
    transaction-keeps begin (reset_body u k key) d IsConsistent c
      (λ e q. reset_body-Ends u k key e h (subst IsConsistent (sym q) c))

reset_user_api_key-Preserves :
    (hash : Text → Text) (tokens : Tokens) (now : Time) (id : Text)
    → Preserves (reset_user_api_key hash tokens now id)
unfolding reset_user_api_key new_api_key
reset_user_api_key-Preserves hash tokens now id = bind check_ready _ ready (λ _.
    bind (get_user id) _ (get_user-Preserves id) (λ found.
      bind (lifted tokens.api_key) _ (pure _) (λ token.
        bind (lifted tokens.api_key_id) _ (pure _) (λ key_token.
          let key = api_key_prefix ++ token in
          resetting (text "begin reset API key") found.user
            (new_api_key hash (text "key_" ++ key_token) found.user.id key (some now) now) key
            refl))))

-- The calls that a process makes of the store.
pub data Call : Type 0 where
  creates : Tokens → Time → (name : Text) → Option Bool → Call
  updates : Time → (id : Text) → Option Text → Option Bool → Call
  resets : Tokens → Time → (id : Text) → Call
  gets : (id : Text) → Call
  authenticates : Time → (key : Text) → Call

pub after_calls : (Text → Text) → List Call → KeyStore → KeyStore
unfolding create_user update_user reset_user_api_key get_user authenticate_api_key
after_calls hash [] d = d
after_calls hash (creates tokens now name enabled ∷ calls) d =
    after_calls hash calls (create_user hash tokens now name enabled d).1
after_calls hash (updates now id name enabled ∷ calls) d =
    after_calls hash calls (update_user now id name enabled d).1
after_calls hash (resets tokens now id ∷ calls) d =
    after_calls hash calls (reset_user_api_key hash tokens now id d).1
after_calls hash (gets id ∷ calls) d = after_calls hash calls (get_user id d).1
after_calls hash (authenticates now key ∷ calls) d =
    after_calls hash calls (authenticate_api_key hash now key d).1

-- Whatever calls are made of a consistent store, and whichever of them fail at whichever statement, a user
-- has at most one enabled key, a hash belongs to at most one key, and no key is enabled without its user.
pub after_calls-IsConsistent :
    (hash : Text → Text) (calls : List Call) (d : KeyStore)
    → IsConsistent d.tables
    → IsConsistent (after_calls hash calls d).tables
unfolding after_calls Keeps
after_calls-IsConsistent hash [] d c = c
after_calls-IsConsistent hash (creates tokens now name enabled ∷ calls) d c =
    after_calls-IsConsistent hash calls _ (create_user-Preserves hash tokens now name enabled d c)
after_calls-IsConsistent hash (updates now id name enabled ∷ calls) d c =
    after_calls-IsConsistent hash calls _ (update_user-Preserves now id name enabled d c)
after_calls-IsConsistent hash (resets tokens now id ∷ calls) d c =
    after_calls-IsConsistent hash calls _ (reset_user_api_key-Preserves hash tokens now id d c)
after_calls-IsConsistent hash (gets id ∷ calls) d c =
    after_calls-IsConsistent hash calls _ (get_user-Preserves id d c)
after_calls-IsConsistent hash (authenticates now key ∷ calls) d c =
    after_calls-IsConsistent hash calls _ (authenticate_api_key-Preserves hash now key d c)
