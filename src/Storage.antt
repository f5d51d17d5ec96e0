-- ===== src/Storage.antt =====
-- internal/codexonly/storage_failure.go: the sticky storage failure, and the database that the
-- stores write to. SQLite is not part of the program: a call of it consumes the next entry of
-- `script`, which says whether the call succeeds or with which error it fails, and a call beyond the
-- end of the script succeeds. A statement that fails changes no table.
pub mod Sticky
pub mod Outcomes
use codex_oauth_proxy.Base.{
  Error, invalid_input, duplicate_user_name, user_not_found, invalid_api_key, disabled_credential,
  no_rows, tx_done, canceled, deadline_exceeded, no_eligible_auth, nil_error, driver, plain,
  storage_failure, oauth, proxy_final,
}
use codex_oauth_proxy.Prelude.{
  ℕ, ◌+◌, Bool, true, false, List, [], ◌∷◌, ◌++◌, Option, none, some, Text, M, Result, ok, err,
  if◌then◌else◌, ◌>>=◌, ◌>>◌, return, fail, and_then,
}

-- storageFailureState: `fired` is the sync.Once, `sent` what its channel was sent, `reports` how
-- often onReport was called.
pub record StorageFailureState : Type 0 where
  pub fired : Bool
  pub cause : Option Error
  pub sent : List Error
  pub reports : ℕ

abbrev pub new_storage_failure_state : StorageFailureState
new_storage_failure_state = record { fired = false; cause = none; sent = []; reports = 0 }

-- report, of an error that is not nil: the new state and the error that it returns.
unfoldable pub report : Error → StorageFailureState → StorageFailureState
report e s =
    if s.fired
    then s
    else record { fired = true; cause = some e; sent = s.sent ++ e ∷ []; reports = s.reports + 1 }

-- expectedStoreError; an error that wraps others is expected if one of those is.
unfoldable pub expected_store_error : Error → Bool
expected_store_error invalid_input = true
expected_store_error duplicate_user_name = true
expected_store_error user_not_found = true
expected_store_error invalid_api_key = true
expected_store_error disabled_credential = true
expected_store_error no_rows = true
expected_store_error tx_done = true
expected_store_error canceled = true
expected_store_error deadline_exceeded = true
expected_store_error no_eligible_auth = false
expected_store_error nil_error = false
expected_store_error (driver t) = false
expected_store_error (plain t) = false
expected_store_error (storage_failure op e) = expected_store_error e
expected_store_error (oauth reason status code retryable cause) = expected_store_error cause
expected_store_error (proxy_final e) = false

-- A database handle over tables of type `T`, with the failure state that guards it.
pub record Database (T : Type 0) : Type 0 where
  pub tables : T
  pub script : List (Option Error)
  pub failures : StorageFailureState

-- What `report` returns: the first failure.
abbrev reported : Error → StorageFailureState → Error
reported e s = elim s.cause [ none ↦ e | some first ↦ first ]

module _ {T : Type 0} where
  -- UserStore.checkReady, of an open store.
  unfoldable pub check_ready : M (Database T) Error (Unit {0})
  check_ready d = elim d.failures.cause [ none ↦ (ok tt, d) | some e ↦ (err e, d) ]

  -- UserStore.databaseError, of an error that is not nil.
  unfoldable pub database_error : {A : Type 0} → Text → Error → M (Database T) Error A
  unfolding report
  database_error op e d = if expected_store_error e then (err e, d) else elim d.failures.cause [
    | some first ↦ (err first, d)
    | none ↦
        let failures = report (storage_failure op e) d.failures in
        (err (reported (storage_failure op e) failures), record d { failures = failures })
  ]

  -- One call of the driver that, if it succeeds, changes the tables by `f` and answers `g`.
  unfoldable pub call : {A : Type 0} → Text → (T → T) → (T → A) → M (Database T) Error A
  call op f g d = elim d.script [
    | [] ↦ (ok (g d.tables), record d { tables = f d.tables })
    | o ∷ rest ↦ elim o [
      | none ↦ (ok (g d.tables), record d { tables = f d.tables; script = rest })
      | some e ↦ database_error op e (record d { script = rest })
    ]
  ]

  abbrev pub exec : Text → (T → T) → M (Database T) Error (Unit {0})
  exec op f = call op f (λ _. tt)

  abbrev pub query : {A : Type 0} → Text → (T → A) → M (Database T) Error A
  query op g = call op (λ t. t) g

  -- A transaction: what fails before the commit, or in it, leaves the tables as they were.
  abbrev pub rolled_back :
      {A : Type 0} → T → Result Error A × Database T → Result Error A × Database T
  rolled_back t (ok a, d) = (ok a, d)
  rolled_back t (err e, d) = (err e, record d { tables = t })

  unfoldable pub transaction : {A : Type 0} → Text → M (Database T) Error A → M (Database T) Error A
  transaction begin body d = rolled_back d.tables (and_then (exec begin (λ t. t) d) (λ _. body))

  unfoldable pub commit_transaction : Text → M (Database T) Error (Unit {0})
  commit_transaction op = exec op (λ t. t)
