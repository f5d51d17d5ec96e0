-- ===== src/Storage/Outcomes.antt =====
-- A statement that fails leaves the tables as they were.
use codex_oauth_proxy.Base.{Error}
use codex_oauth_proxy.Prelude.{
  ◌≡◌, refl, Text, M, Result, ok, err, and_then, arith, succeeded, if◌then◌else◌,
}
use codex_oauth_proxy.Storage.{Database, database_error, call, exec, check_ready}

module _ {T : Type 0} where
  -- The tables are changed by `f` exactly when the call succeeds.
  abbrev pub Writes : {A : Type 0} → (T → T) → Database T → Result Error A × Database T → Type 0
  Writes f d r = r.1.tables ≡ (if succeeded r.0 then f d.tables else d.tables)

  pub exec-Writes : (op : Text) (f : T → T) (d : Database T) → Writes f d (exec op f d)
  unfolding call database_error
  exec-Writes op f d = ground arith

  pub call-Writes :
      (A : Type 0) (op : Text) (f : T → T) (g : T → A) (d : Database T) → Writes f d (call op f g d)
  unfolding call database_error
  call-Writes A op f g d = ground arith

  -- A call that succeeds answers and writes by the tables that it met.
  pub call_ok :
      (A : Type 0) (op : Text) (f : T → T) (g : T → A) (a : A) (d e : Database T)
      → call op f g d ≡ (ok a, e)
      → (a ≡ g d.tables) × (e.tables ≡ f d.tables)
  unfolding call database_error
  call_ok A op f g a d e h = ground (arith, h)

  pub check_ready_ok :
      (u : Unit {0}) (d e : Database T) → check_ready d ≡ (ok u, e) → e.tables ≡ d.tables
  unfolding check_ready
  check_ready_ok u d e h = ground (arith, h)

  -- What a chain that succeeds went through.
  pub and_then_ok :
      (A B : Type 0) (x : Result Error B × Database T) (f : B → M (Database T) Error A) (a : A)
      (e : Database T)
      → and_then x f ≡ (ok a, e)
      → (b : B) × (d : Database T) × (x ≡ (ok b, d)) × (f b d ≡ (ok a, e))
  and_then_ok A B (ok b, d) f a e h = (b, d, refl, h)
  and_then_ok A B (err er, d) f a e h = ground (arith, h)
