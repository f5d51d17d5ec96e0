-- ===== src/Refresh/Shared.antt =====
-- The refresh that concurrent requests share: AuthManager.refresh (internal/codexonly/server.go). Each
-- request is in one of four places; the two sections under refreshMu are the operations `enter` and
-- `finish`, and a step is one of them or the end of a wait. What refreshCurrentAuth returns is arbitrary.
use codex_oauth_proxy.Base.{Auth, Error}
use codex_oauth_proxy.Prelude.{
  ℕ, suc, ◌==◌, ◌≡◌, if◌then◌else◌, [], Option, none, some, Text, text, Dict, lookup, insert,
  remove, Result, err,
}
use codex_oauth_proxy.Refresh.Exchange.{new_oauth_refresh_error}
pub mod Invariant
pub mod Progress

pub data Phase : Type 0 where
  arrived : (key : Text) → Phase
  leading : (call : ℕ) → (key : Text) → Phase
  waiting : (call : ℕ) → Phase
  returned : (call : ℕ) → Result Error Auth → Phase
  gave_up : Error → Phase

-- `done` holds what an authRefreshCall was closed with; `next` numbers the next call.
pub record AuthManager : Type 0 where
  pub refreshes : Dict ℕ
  pub done : ℕ → Option (Result Error Auth)
  pub next : ℕ
  pub requests : ℕ → Phase

abbrev pub at {ℓ} : {A : Type ℓ} → ℕ → A → (ℕ → A) → ℕ → A
at i a f j = if i == j then a else f j

unfoldable pub entered : ℕ → Text → AuthManager → Option ℕ → AuthManager
entered i key s (some call) = record s { requests = at i (waiting call) s.requests }
entered i key s none = record s {
  refreshes = insert key s.next s.refreshes;
  next = suc s.next;
  requests = at i (leading s.next key) s.requests;
}

-- refresh up to its first Unlock: the request joins the call that is under way, or starts one.
unfoldable pub enter : ℕ → Text → AuthManager → AuthManager
unfolding entered
enter i key s = entered i key s (lookup key s.refreshes)

-- The second section under the lock: the call is closed with what the refresh returned.
unfoldable pub finish : ℕ → ℕ → Text → Result Error Auth → AuthManager → AuthManager
finish i call key r s = record s {
  refreshes = remove key s.refreshes;
  done = at call (some r) s.done;
  requests = at i (returned call r) s.requests;
}

-- A wait ends: the call is closed, or the request's own context is.
unfoldable pub wake : ℕ → ℕ → Result Error Auth → AuthManager → AuthManager
wake i call r s = record s { requests = at i (returned call r) s.requests }

unfoldable pub give_up : ℕ → Error → AuthManager → AuthManager
unfolding new_oauth_refresh_error
give_up i e s = record s {
  requests = at i (gave_up (new_oauth_refresh_error (text "canceled") 0 [] e)) s.requests;
}

pub data Step (s : AuthManager) : AuthManager → Type 0 where
  enters : (i : ℕ) (key : Text) → s.requests i ≡ arrived key → Step s (enter i key s)
  finishes :
      (i call : ℕ) (key : Text) (r : Result Error Auth)
      → s.requests i ≡ leading call key
      → Step s (finish i call key r s)
  wakes :
      (i call : ℕ) (r : Result Error Auth)
      → s.requests i ≡ waiting call
      → s.done call ≡ some r
      → Step s (wake i call r s)
  gives_up : (i call : ℕ) (e : Error) → s.requests i ≡ waiting call → Step s (give_up i e s)

-- Requests that have not yet entered, each with its credential's key.
abbrev pub initial : (ℕ → Text) → AuthManager
initial keys = record {
  refreshes = [];
  done = λ call. none;
  next = 0;
  requests = λ i. arrived (keys i);
}

pub data Reach (keys : ℕ → Text) : AuthManager → Type 0 where
  start : Reach keys (initial keys)
  later : {s t : AuthManager} → Reach keys s → Step s t → Reach keys t
