-- ===== src/Storage/Sticky.antt =====
-- What storage_failure.go promises: the first failure of the database is reported once and stays.
use codex_oauth_proxy.Base.{Error}
use codex_oauth_proxy.Prelude.{
  ℕ, ◌≡◌, Bool, true, false, List, [], ◌∷◌, Option, none, some, Text, arith,
}
use codex_oauth_proxy.Storage.{StorageFailureState, report, Database, database_error, call}

abbrev is_set : Option Error → Bool
is_set none = false
is_set (some e) = true

abbrev once : Option Error → List Error
once none = []
once (some e) = e ∷ []

abbrev count : Option Error → ℕ
count none = 0
count (some e) = 1

-- The cause that is kept was sent on the channel, and told to the callback, once; nothing else was.
pub record IsConsistent (s : StorageFailureState) : Type 0 where
  pub fired : s.fired ≡ is_set s.cause
  pub sent : s.sent ≡ once s.cause
  pub reports : s.reports ≡ count s.cause

pub report-IsConsistent :
    (e : Error) (s : StorageFailureState) → IsConsistent s → IsConsistent (report e s)
unfolding report
report-IsConsistent e s v = ground arith

module _ {T : Type 0} (A : Type 0) where
  pub database_error-IsConsistent :
      (op : Text) (e : Error) (d : Database T)
      → IsConsistent d.failures
      → IsConsistent (database_error {A = A} op e d).1.failures
  unfolding database_error
  database_error-IsConsistent op e d v = ground arith

  -- A call of the database keeps it so that the failure that is kept, and nothing else, was sent on the
  -- channel and reported to the callback once.
  pub call-IsConsistent :
      (op : Text) (f : T → T) (g : T → A) (d : Database T)
      → IsConsistent d.failures
      → IsConsistent (call op f g d).1.failures
  unfolding call database_error
  call-IsConsistent op f g d v = ground arith

  -- Once a failure is kept, every later call leaves it, and what was sent, as they are.
  pub call_keeps_cause :
      (op : Text) (f : T → T) (g : T → A) (d : Database T) (e : Error)
      → IsConsistent d.failures
      → d.failures.cause ≡ some e
      → (call op f g d).1.failures ≡ d.failures
  unfolding call database_error
  call_keeps_cause op f g d e v h = ground arith
