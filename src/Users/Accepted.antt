-- ===== src/Users/Accepted.antt =====
-- What lies behind an API key that is accepted, and which keys a reset ends
-- (internal/codexonly/user_store.go).
use codex_oauth_proxy.Base.{Time, invalid_api_key}
use codex_oauth_proxy.Prelude.{
  ◌≡◌, refl, sym, ap, ◌∙◌, arith, Bool, true, not, List, [], ◌∷◌, ◌++◌, Option, none, some, Text,
  text, text_eq_iff, text_eq_refl, trim_space, is_empty, map, ok, and_then, All, All-append,
  Option-cases, Bool-cases, inl, inr,
}
use codex_oauth_proxy.Storage.{check_ready, exec, query}
use codex_oauth_proxy.Users.{
  UserRecord, ApiKeyRecord, UserTables, KeyStore, statement, find_user, find_key, enabled_of,
  has_hash, key_violation, AuthenticatedApiKey, CreatedUserApiKey,
}
use codex_oauth_proxy.Users.Operations.{
  Tokens, reset_user_api_key, reset_body, authenticate_api_key, authenticated, get_user,
  new_api_key, api_key_prefix, add_key, disable_keys, disabled_key, touch_key, lifted, or_fail,
  joined_key, join_user, key_with_user,
}
use codex_oauth_proxy.Users.Rules.{
  Ends, err-Ends, ok-Ends, call-Ends, and_then-Ends, statement-Ends, transaction-Ends,
  find_key-passes,
}
use mathlib.Core.Path.{subst}
use codex_oauth_proxy.Users.Keys.{any-Ends, branch-Ends, of_run, committed, stamped}

-- The row and the user behind an accepted key.
abbrev IsBacked : (Text → Text) → Text → UserTables → AuthenticatedApiKey → Type 0
IsBacked hash key t a =
    (k : ApiKeyRecord) × (find_key (has_hash (hash key)) t.api_keys ≡ some k)
    × (find_user k.user_id t.users ≡ some a.user)
    × (k.enabled ≡ true)
    × (a.user.enabled ≡ true)

join_user-found :
    (t : UserTables) (o : Option ApiKeyRecord) (a : AuthenticatedApiKey)
    → join_user t o ≡ some a
    → (o ≡ some a.api_key) × (find_user a.api_key.user_id t.users ≡ some a.user)
join_user-found t none a h = ground (arith, h)
join_user-found t (some k) a h = go (find_user k.user_id t.users) refl h
  where
    go :
        (u : Option UserRecord)
        → find_user k.user_id t.users ≡ u
        → key_with_user k u ≡ some a
        → (some k ≡ some a.api_key) × (find_user a.api_key.user_id t.users ≡ some a.user)
    go none e h' = ground (arith, h')
    go (some u) e h' =
        let p = ap (λ o. elim o [ none ↦ a | some b ↦ b ]) h' in
        (
          ap (λ b. some b.api_key) p,
          ap (λ b. find_user b.api_key.user_id t.users) (sym p) ∙ e ∙ ap (λ b. some b.user) p,
        )

authenticated-IsBacked :
    (hash : Text → Text) (now : Time) (key : Text) (t : UserTables) (a : AuthenticatedApiKey)
    (d : KeyStore)
    → joined_key (hash key) t ≡ some a
    → Ends (λ b u. IsBacked hash key t b) (authenticated now a d)
unfolding authenticated
authenticated-IsBacked hash now key t a d j =
    let (k, u) = join_user-found t (find_key (has_hash (hash key)) t.api_keys) a j in
    branch-Ends _ (not a.api_key.enabled) _ _ d (λ _. err-Ends _ _ d)
      (λ on.
        branch-Ends _ (not a.user.enabled) _ _ d (λ _. err-Ends _ _ d)
          (λ user_on. any-Ends _ (exec _ (touch_key a.api_key.id now) d) _ (λ _ e.
            ok-Ends _ (stamped now a) e
              (a.api_key, k, u, ground (arith, on), ground (arith, user_on)))))

check_ready-same : (d : KeyStore) → Ends (λ _ t. t ≡ d.tables) (check_ready d)
unfolding check_ready
check_ready-same d = elim (Option-cases d.failures.cause) [
  | inl e ↦ rw e (ok-Ends _ tt _ refl)
  | inr (f, e) ↦ rw e (err-Ends _ f _)
]

asked-IsBacked :
    (hash : Text → Text) (now : Time) (key : Text) (t : UserTables) (o : Option AuthenticatedApiKey)
    (d : KeyStore)
    → o ≡ joined_key (hash key) t
    → Ends
        (λ b u. IsBacked hash key t b)
        (and_then (or_fail invalid_api_key o d) (authenticated now))
asked-IsBacked hash now key t none d h = err-Ends _ _ d
asked-IsBacked hash now key t (some a) d h = authenticated-IsBacked hash now key t a d (sym h)

authenticate_api_key-IsBacked :
    (hash : Text → Text) (now : Time) (key : Text) (d : KeyStore)
    → Ends (λ a t. IsBacked hash (trim_space key) d.tables a) (authenticate_api_key hash now key d)
unfolding authenticate_api_key
authenticate_api_key-IsBacked hash now raw d =
    let key = trim_space raw in
    let Q = λ (a : AuthenticatedApiKey) (t : UserTables). IsBacked hash key d.tables a in
    and_then-Ends Q (λ _ t. t ≡ d.tables) (check_ready d) _ (check_ready-same d)
      (λ _ d' same.
        branch-Ends Q (is_empty key) _ _ d' (λ _. err-Ends Q _ d')
          (λ full.
            and_then-Ends Q (λ o t. o ≡ joined_key (hash key) d.tables)
              (query (text "authenticate API key") (joined_key (hash key)) d') _
              (call-Ends (λ o t. o ≡ joined_key (hash key) d.tables) _ (λ t. t)
                (joined_key (hash key)) d' (ap (joined_key (hash key)) same))
              (λ o e found. asked-IsBacked hash now key d.tables o e found)))

-- An API key is accepted only if the first row with the hash of the trimmed key is enabled and belongs to
-- an enabled user, who is the one that is returned.
pub authenticate_api_key-accepted :
    (hash : Text → Text) (now : Time) (key : Text) (d d' : KeyStore) (a : AuthenticatedApiKey)
    → authenticate_api_key hash now key d ≡ (ok a, d')
    → (k : ApiKeyRecord) × (find_key (has_hash (hash (trim_space key))) d.tables.api_keys ≡ some k)
      × (find_user k.user_id d.tables.users ≡ some a.user)
      × (k.enabled ≡ true)
      × (a.user.enabled ≡ true)
authenticate_api_key-accepted hash now key d d' a run =
    of_run (λ b t. IsBacked hash (trim_space key) d.tables b) (authenticate_api_key hash now key d)
      a d' (authenticate_api_key-IsBacked hash now key d) run

-- Every enabled key of the user has the hash of the new key.
abbrev IsReplaced : CreatedUserApiKey → UserTables → Type 0
IsReplaced c t =
    All (λ k. enabled_of c.user.id k ≡ true → k.key_hash ≡ c.api_key.key_hash) t.api_keys

All-disabled :
    (id hash : Text) (keys : List ApiKeyRecord)
    → All (λ k. enabled_of id k ≡ true → k.key_hash ≡ hash) (map (disabled_key id) keys)
All-disabled id hash [] = tt
All-disabled id hash (k ∷ keys) = (λ h. ground (arith, h), All-disabled id hash keys)

reset_body-IsReplaced :
    (u : UserRecord) (k : ApiKeyRecord) (key : Text) (d : KeyStore)
    → Ends IsReplaced (reset_body u k key d)
unfolding reset_body
reset_body-IsReplaced u k key d =
    let P = λ (t : UserTables).
      All (λ j. enabled_of u.id j ≡ true → j.key_hash ≡ k.key_hash) t.api_keys in
    and_then-Ends IsReplaced (λ _. P) (exec _ (disable_keys u.id) d) _
      (call-Ends (λ _. P) _ (disable_keys u.id) (λ _. tt) d
        (All-disabled u.id k.key_hash d.tables.api_keys))
      (λ _ d' a.
        and_then-Ends IsReplaced (λ _. P) (statement _ (key_violation k) (add_key k) d') _
          (statement-Ends (λ _. P) _ (key_violation k) (add_key k) d'
            (λ v. All-append _ d'.tables.api_keys (k ∷ []) a (λ h. refl, tt)))
          (λ _ d'' b.
            committed IsReplaced _ (record { user = u; api_key = k; plaintext_api_key = key }) d''
              b))

reset_user_api_key-IsReplaced :
    (hash : Text → Text) (tokens : Tokens) (now : Time) (id : Text) (d : KeyStore)
    → Ends IsReplaced (reset_user_api_key hash tokens now id d)
unfolding reset_user_api_key new_api_key
reset_user_api_key-IsReplaced hash tokens now id d = any-Ends _ (check_ready d) _ (λ _ d'.
    any-Ends _ (get_user id d') _ (λ found d'. any-Ends _ (lifted tokens.api_key d') _ (λ token d'.
      any-Ends _ (lifted tokens.api_key_id d') _ (λ key_token d'.
        let key = api_key_prefix ++ token in
        let k = new_api_key hash (text "key_" ++ key_token) found.user.id key (some now) now in
        transaction-Ends (text "begin reset API key") (reset_body found.user k key) d' IsReplaced
          (λ e q. reset_body-IsReplaced found.user k key e)))))

All-find_key :
    (P : ApiKeyRecord → Type 0) (test : ApiKeyRecord → Bool) (keys : List ApiKeyRecord)
    (k : ApiKeyRecord)
    → All P keys
    → find_key test keys ≡ some k
    → P k
unfolding find_key
All-find_key P test [] k h e = absurd (ground (arith, e))
All-find_key P test (j ∷ keys) k h e = elim (Bool-cases (test j)) [
  | inl t ↦ subst P (ground (arith, e, t)) h.0
  | inr t ↦ All-find_key P test keys k h.1 (ground (arith, e, t))
]

find_user-id :
    (id : Text) (us : List UserRecord) (u : UserRecord) → find_user id us ≡ some u → u.id ≡ id
unfolding find_user
find_user-id id [] u h = ground (arith, h)
find_user-id id (v ∷ us) u h = ground (arith, h, find_user-id id us u, text_eq_iff v.id id)

-- In the tables that a reset of a user's key has left, a key that is accepted for that user has the hash of
-- the new one.
pub reset_user_api_key-replaces :
    (hash : Text → Text) (tokens : Tokens) (now later : Time) (id key : Text) (d d' e e' : KeyStore)
    (c : CreatedUserApiKey) (a : AuthenticatedApiKey)
    → reset_user_api_key hash tokens now id d ≡ (ok c, d')
    → e.tables ≡ d'.tables
    → authenticate_api_key hash later key e ≡ (ok a, e')
    → a.user.id ≡ c.user.id
    → hash (trim_space key) ≡ c.api_key.key_hash
reset_user_api_key-replaces hash tokens now later id key d d' e e' c a run same auth owner =
    let replaced =
      of_run IsReplaced (reset_user_api_key hash tokens now id d) c d'
        (reset_user_api_key-IsReplaced hash tokens now id d) run in
    let (k, found, user, on, user_on) = authenticate_api_key-accepted hash later key e e' a auth in
    let test = has_hash (hash (trim_space key)) in
    let hashed = find_key-passes test e.tables.api_keys k found in
    let newest =
      All-find_key _ test e.tables.api_keys k (subst (IsReplaced c) (sym same) replaced) found in
    sym ((text_eq_iff k.key_hash (hash (trim_space key))).0 hashed)
    ∙ newest (
        ground (
          arith,
          on,
          owner,
          find_user-id k.user_id e.tables.users a.user user,
          text_eq_refl c.user.id,
        ))
