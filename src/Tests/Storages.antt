-- ===== src/Tests/Storages.antt =====
-- A database that has failed (storage_failure.go).
use codex_oauth_proxy.Writer.{
  was_copied, was_hijacked, was_pushed, StorageResponseWriter, new_storage_response_writer, Event,
  header_written, written, was_flushed, run, flushed, body_sent, header_sent, headers_deleted,
  internal_server_error,
}
use codex_oauth_proxy.Base.{driver}
use codex_oauth_proxy.Prelude.{List, [], ◌∷◌, ℕ, ◌≡◌, refl, true, [], ◌∷◌, some, text, length}
use codex_oauth_proxy.Storage.{call, StorageFailureState}
use codex_oauth_proxy.Storage.Sticky.{IsConsistent, call_keeps_cause, call-IsConsistent}
use codex_oauth_proxy.Store.{Tables, UserStore}
use codex_oauth_proxy.Tests.{failing_store}

abbrev failed_state : StorageFailureState
failed_state = record {
  fired = true;
  cause = some (driver (text "disk full"));
  sent = driver (text "disk full") ∷ [];
  reports = 1;
}

failed_state-IsConsistent : IsConsistent failed_state
failed_state-IsConsistent = record { fired = refl; sent = refl; reports = refl }

abbrev failed_store : UserStore
failed_store = record failing_store {
  failures = failed_state;
  script = some (driver (text "locked")) ∷ [];
}

abbrev unchanged : Tables → Tables
unchanged t = t

abbrev row_count : Tables → ℕ
row_count t = length t.auth_health_states

call_keeps_cause_example :
    (call (text "list") unchanged row_count failed_store).1.failures ≡ failed_store.failures
call_keeps_cause_example =
    call_keeps_cause ℕ (text "list") unchanged row_count failed_store (driver (text "disk full"))
      failed_state-IsConsistent refl

call-IsConsistent_example :
    IsConsistent (call (text "list") unchanged row_count failed_store).1.failures
call-IsConsistent_example =
    call-IsConsistent ℕ (text "list") unchanged row_count failed_store failed_state-IsConsistent

-- A handler that answers with a body, after the failure.
abbrev failed_writer : StorageResponseWriter
failed_writer = new_storage_response_writer failed_state

abbrev answered : List Event
answered =
    was_pushed true
    ∷ header_written 200
    ∷ was_copied (text "[]")
    ∷ written (text "[]")
    ∷ was_hijacked true true
    ∷ was_flushed
    ∷ []

-- The client gets the error, and no part of the body.
answered_calls :
    (run answered failed_writer).calls
    ≡ flushed ∷ body_sent internal_server_error ∷ header_sent 500 ∷ headers_deleted ∷ []
unfolding run
answered_calls = refl
