-- ===== src/Users/Rows.antt =====
-- What one row more, or one row changed, keeps of the tables of users and API keys
-- (internal/codexonly/user_store.go).
use codex_oauth_proxy.Base.{Time}
use codex_oauth_proxy.Prelude.{
  ◌≤◌, ◌≡◌, refl, arith, Bool, true, List, [], ◌∷◌, ◌++◌, none, Text, text_eq_iff, text_eq_refl,
  map,
}
use codex_oauth_proxy.Users.{
  UserRecord, ApiKeyRecord, UserTables, find_user, enabled_of, has_hash, is_some, key_violation,
}
use codex_oauth_proxy.Users.Operations.{
  add_user, add_key, disable_keys, disabled_key, touch_key, touched_key, rename_user, renamed_user,
}
use codex_oauth_proxy.Users.Rules.{
  count, count-append, count-map_le, count-map_zero, count-find_key,
}

-- At most one enabled key of a user and one key of a hash, and no enabled key without its user.
pub record IsConsistent (t : UserTables) : Type 0 where
  pub one_key : (id : Text) → count (enabled_of id) t.api_keys ≤ 1
  pub one_hash : (hash : Text) → count (has_hash hash) t.api_keys ≤ 1
  pub owned : (id : Text) → find_user id t.users ≡ none → count (enabled_of id) t.api_keys ≡ 0

find_user-append_none :
    (id : Text) (us : List UserRecord) (u : UserRecord)
    → find_user id (us ++ u ∷ []) ≡ none
    → find_user id us ≡ none
unfolding find_user
find_user-append_none id [] u h = refl
find_user-append_none id (v ∷ us) u h = ground (arith, h, find_user-append_none id us u)

pub find_user-append_self :
    (us : List UserRecord) (u : UserRecord) → is_some (find_user u.id (us ++ u ∷ [])) ≡ true
unfolding find_user
find_user-append_self [] u = ground (arith, text_eq_refl u.id)
find_user-append_self (v ∷ us) u = ground (arith, find_user-append_self us u)

pub add_user-IsConsistent :
    (u : UserRecord) (t : UserTables) → IsConsistent t → IsConsistent (add_user u t)
add_user-IsConsistent u t c = record {
  one_key = c.one_key;
  one_hash = c.one_hash;
  owned = λ id h. c.owned id (find_user-append_none id t.users u h);
}

-- No key of the user is enabled.
abbrev pub IsKeyless : Text → UserTables → Type 0
IsKeyless id t = count (enabled_of id) t.api_keys ≡ 0

pub add_key-IsConsistent :
    (k : ApiKeyRecord) (t : UserTables)
    → key_violation k t ≡ none
    → IsKeyless k.user_id t
    → IsConsistent t
    → IsConsistent (add_key k t)
unfolding key_violation count
add_key-IsConsistent k t v keyless c = record {
  one_key = λ id. ground (
    arith,
    count-append (enabled_of id) t.api_keys (k ∷ []),
    c.one_key id,
    keyless,
    text_eq_iff k.user_id id,
  );
  one_hash = λ hash. ground (
    arith,
    count-append (has_hash hash) t.api_keys (k ∷ []),
    c.one_hash hash,
    v,
    count-find_key (has_hash hash) t.api_keys,
    text_eq_iff k.key_hash hash,
  );
  owned = λ id h. ground (
    arith,
    count-append (enabled_of id) t.api_keys (k ∷ []),
    c.owned id h,
    h,
    v,
    text_eq_iff k.user_id id,
  );
}

disabled_key-of :
    (id uid : Text) (k : ApiKeyRecord)
    → enabled_of id (disabled_key uid k) ≡ true
    → enabled_of id k ≡ true
disabled_key-of id uid k h = ground (arith, h)

pub disable_keys-IsConsistent :
    (id : Text) (t : UserTables) → IsConsistent t → IsConsistent (disable_keys id t)
disable_keys-IsConsistent uid t c = record {
  one_key = λ id. omega (
    arith,
    c.one_key id,
    count-map_le (enabled_of id) (disabled_key uid) (disabled_key-of id uid) t.api_keys,
  );
  one_hash = λ hash. omega (
    arith,
    c.one_hash hash,
    count-map_le (has_hash hash) (disabled_key uid) (λ k h. ground (arith, h)) t.api_keys,
  );
  owned = λ id h. omega (
    arith,
    c.owned id h,
    count-map_le (enabled_of id) (disabled_key uid) (disabled_key-of id uid) t.api_keys,
  );
}

pub disable_keys-IsKeyless : (id : Text) (t : UserTables) → IsKeyless id (disable_keys id t)
disable_keys-IsKeyless id t =
    count-map_zero (enabled_of id) (disabled_key id) (λ k. ground arith) t.api_keys

pub touch_key-IsConsistent :
    (id : Text) (now : Time) (t : UserTables) → IsConsistent t → IsConsistent (touch_key id now t)
touch_key-IsConsistent kid now t c = record {
  one_key = λ id. omega (
    arith,
    c.one_key id,
    count-map_le (enabled_of id) (touched_key kid now) (λ k h. ground (arith, h)) t.api_keys,
  );
  one_hash = λ hash. omega (
    arith,
    c.one_hash hash,
    count-map_le (has_hash hash) (touched_key kid now) (λ k h. ground (arith, h)) t.api_keys,
  );
  owned = λ id h. omega (
    arith,
    c.owned id h,
    count-map_le (enabled_of id) (touched_key kid now) (λ k e. ground (arith, e)) t.api_keys,
  );
}

find_user-rename :
    (id uid name : Text) (enabled : Bool) (now : Time) (us : List UserRecord)
    → find_user id (map (renamed_user uid name enabled now) us) ≡ none
    → find_user id us ≡ none
unfolding find_user
find_user-rename id uid name enabled now [] h = refl
find_user-rename id uid name enabled now (u ∷ us) h =
    ground (arith, h, find_user-rename id uid name enabled now us)

pub rename_user-IsConsistent :
    (uid name : Text) (enabled : Bool) (now : Time) (t : UserTables)
    → IsConsistent t
    → IsConsistent (rename_user uid name enabled now t)
rename_user-IsConsistent uid name enabled now t c = record {
  one_key = c.one_key;
  one_hash = c.one_hash;
  owned = λ id h. c.owned id (find_user-rename id uid name enabled now t.users h);
}
