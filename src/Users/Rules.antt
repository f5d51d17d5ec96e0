-- ===== src/Users/Rules.antt =====
-- What the operations on users leave in the tables when they succeed: rules for the steps that they are
-- made of, and counts of rows (internal/codexonly/user_store.go).
use codex_oauth_proxy.Base.{Error}
use codex_oauth_proxy.Prelude.{
  ℕ, ◌+◌, ◌≤◌, ◌≡◌, refl, arith, Bool, true, false, List, [], ◌∷◌, ◌++◌, Option, none, some, Text,
  map, Result, ok, err, M, succeeded, and_then, if◌then◌else◌,
}
use codex_oauth_proxy.Storage.{database_error, call, exec, transaction, rolled_back}
use codex_oauth_proxy.Users.{ApiKeyRecord, UserTables, KeyStore, statement, ran, find_key}

-- A postcondition of the runs that succeed.
unfoldable pub Ends : {A : Type 0} → (A → UserTables → Type 0) → Result Error A × KeyStore → Type 0
Ends Q (ok a, d) = Q a d.tables
Ends Q (err e, d) = Unit

module _ {A : Type 0} (Q : A → UserTables → Type 0) where
  failed-Ends : (x : Result Error A × KeyStore) → succeeded x.0 ≡ false → Ends Q x
  unfolding Ends
  failed-Ends (ok a, d) h = ground (arith, h)
  failed-Ends (err e, d) h = tt

  pub err-Ends : (e : Error) (d : KeyStore) → Ends Q (err e, d)
  unfolding Ends
  err-Ends e d = tt

  pub ok-Ends : (a : A) (d : KeyStore) → Q a d.tables → Ends Q (ok a, d)
  unfolding Ends
  ok-Ends a d h = h

  database_error-Ends : (op : Text) (e : Error) (d : KeyStore) → Ends Q (database_error op e d)
  unfolding database_error
  database_error-Ends op e d = failed-Ends (database_error op e d) (ground arith)

  pub result-Ends :
      (r : Result Error A) (d : KeyStore) → ((a : A) → r ≡ ok a → Q a d.tables) → Ends Q (r, d)
  unfolding Ends
  result-Ends (ok a) d h = h a refl
  result-Ends (err e) d h = tt

  scripted-Ends :
      (op : Text) (f : UserTables → UserTables) (g : UserTables → A) (s : List (Option Error))
      (d : KeyStore)
      → Q (g d.tables) (f d.tables)
      → Ends Q (call op f g (record d { script = s }))
  unfolding call Ends
  scripted-Ends op f g [] d h = h
  scripted-Ends op f g (none ∷ rest) d h = h
  scripted-Ends op f g (some e ∷ rest) d h = database_error-Ends op e _

  pub call-Ends :
      (op : Text) (f : UserTables → UserTables) (g : UserTables → A) (d : KeyStore)
      → Q (g d.tables) (f d.tables)
      → Ends Q (call op f g d)
  call-Ends op f g d h = scripted-Ends op f g d.script d h

  pub and_then-Ends :
      {B : Type 0} (P : B → UserTables → Type 0) (x : Result Error B × KeyStore)
      (f : B → M KeyStore Error A)
      → Ends P x
      → ((b : B) (d : KeyStore) → P b d.tables → Ends Q (f b d))
      → Ends Q (and_then x f)
  unfolding Ends
  and_then-Ends P (ok b, d) f h k = k b d h
  and_then-Ends P (err e, d) f h k = tt

ran-Ends :
    (Q : Unit {0} → UserTables → Type 0) (op : Text) (o v : Option Error)
    (f : UserTables → UserTables) (d : KeyStore)
    → (v ≡ none → Q tt (f d.tables))
    → Ends Q (ran op o v f d)
unfolding ran Ends
ran-Ends Q op (some e) v f d h = database_error-Ends Q op _ d
ran-Ends Q op none (some e) f d h = database_error-Ends Q op _ d
ran-Ends Q op none none f d h = h refl

pub statement-Ends :
    (Q : Unit {0} → UserTables → Type 0) (op : Text) (v : UserTables → Option Error)
    (f : UserTables → UserTables) (d : KeyStore)
    → (v d.tables ≡ none → Q tt (f d.tables))
    → Ends Q (statement op v f d)
unfolding statement
statement-Ends Q op v f d h = ran-Ends Q op _ (v d.tables) f _ h

rolled_back-keeps :
    {A : Type 0} (P : UserTables → Type 0) (t : UserTables) (x : Result Error A × KeyStore)
    → P t
    → Ends (λ a. P) x
    → P (rolled_back t x).1.tables
unfolding Ends
rolled_back-keeps P t (ok a, d) h k = k
rolled_back-keeps P t (err e, d) h k = h

rolled_back-Ends :
    {A : Type 0} (Q : A → UserTables → Type 0) (t : UserTables) (x : Result Error A × KeyStore)
    → Ends Q x
    → Ends Q (rolled_back t x)
unfolding Ends
rolled_back-Ends Q t (ok a, d) k = k
rolled_back-Ends Q t (err e, d) k = tt

module _ {A : Type 0} (begin : Text) (body : M KeyStore Error A) (d : KeyStore) where
  begun-Ends :
      (Q : A → UserTables → Type 0)
      → ((e : KeyStore) → e.tables ≡ d.tables → Ends Q (body e))
      → Ends Q (and_then (exec begin (λ t. t) d) (λ _. body))
  begun-Ends Q k =
      and_then-Ends Q (λ _ t. t ≡ d.tables) (exec begin (λ t. t) d) (λ _. body)
        (call-Ends (λ _ t. t ≡ d.tables) begin (λ t. t) (λ _. tt) d refl) (λ _. k)

  -- A failed transaction leaves the tables, a successful one what its body leaves.
  pub transaction-keeps :
      (P : UserTables → Type 0)
      → P d.tables
      → ((e : KeyStore) → e.tables ≡ d.tables → Ends (λ a. P) (body e))
      → P (transaction begin body d).1.tables
  unfolding transaction
  transaction-keeps P h k = rolled_back-keeps P d.tables _ h (begun-Ends (λ a. P) k)

  pub transaction-Ends :
      (Q : A → UserTables → Type 0)
      → ((e : KeyStore) → e.tables ≡ d.tables → Ends Q (body e))
      → Ends Q (transaction begin body d)
  unfolding transaction
  transaction-Ends Q k = rolled_back-Ends Q d.tables _ (begun-Ends Q k)

-- The rows that pass a test.
unfoldable pub count : (ApiKeyRecord → Bool) → List ApiKeyRecord → ℕ
count test [] = 0
count test (k ∷ keys) = let rest = count test keys in if test k then 1 + rest else rest

module _ (test : ApiKeyRecord → Bool) where
  pub count-append :
      (xs ys : List ApiKeyRecord) → count test (xs ++ ys) ≡ count test xs + count test ys
  unfolding count
  count-append [] ys = omega arith
  count-append (x ∷ xs) ys = ground (arith, count-append xs ys)

  pub count-map_le :
      (f : ApiKeyRecord → ApiKeyRecord)
      → ((k : ApiKeyRecord) → test (f k) ≡ true → test k ≡ true)
      → (xs : List ApiKeyRecord) → count test (map f xs) ≤ count test xs
  unfolding count
  count-map_le f h [] = omega arith
  count-map_le f h (x ∷ xs) = ground (arith, h x, count-map_le f h xs)

  pub count-map_zero :
      (f : ApiKeyRecord → ApiKeyRecord)
      → ((k : ApiKeyRecord) → test (f k) ≡ false)
      → (xs : List ApiKeyRecord) → count test (map f xs) ≡ 0
  unfolding count
  count-map_zero f h [] = refl
  count-map_zero f h (x ∷ xs) = ground (arith, h x, count-map_zero f h xs)

  pub count-find_key : (xs : List ApiKeyRecord) → find_key test xs ≡ none → count test xs ≡ 0
  unfolding count find_key
  count-find_key [] h = refl
  count-find_key (x ∷ xs) h = ground (arith, h, count-find_key xs)

  pub find_key-append :
      (xs ys : List ApiKeyRecord)
      → find_key test xs ≡ none
      → find_key test (xs ++ ys) ≡ find_key test ys
  unfolding find_key
  find_key-append [] ys h = refl
  find_key-append (x ∷ xs) ys h = ground (arith, h, find_key-append xs ys)

  pub find_key-passes :
      (xs : List ApiKeyRecord) (k : ApiKeyRecord) → find_key test xs ≡ some k → test k ≡ true
  unfolding find_key
  find_key-passes [] k h = ground (arith, h)
  find_key-passes (x ∷ xs) k h = ground (arith, h, find_key-passes xs k)
