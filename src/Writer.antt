-- ===== src/Writer.antt =====
-- The response writer that storage failures block (internal/codexonly/storage_response_writer.go). The
-- writer below it is a library's: the model records which calls it gets, newest first. What it answers is
-- passed on to the caller, and decides nothing here but whether it can be hijacked or push; header fields
-- are not kept. Unwrap, which hands out the writer below, is left out.
use codex_oauth_proxy.Base.{Error}
use codex_oauth_proxy.Prelude.{
  ℕ, ◌+◌, ◌==◌, ltb, leb, Bool, true, false, not, ◌||◌, if◌then◌else◌, List, [], ◌∷◌, Option, none,
  some, Text, text,
}
use codex_oauth_proxy.Storage.{StorageFailureState, report}

pub data Call : Type 0 where
  header_sent : ℕ → Call
  body_sent : Text → Call
  headers_deleted flushed pushed : Call
  hijacked : (committed : Bool) → Call

pub record StorageResponseWriter : Type 0 where
  pub calls : List Call
  pub failures : StorageFailureState
  pub committed : Bool
  pub blocked : Bool
  pub fatal_err : Option Error

abbrev pub new_storage_response_writer : StorageFailureState → StorageResponseWriter
new_storage_response_writer failures = record {
  calls = [];
  failures = failures;
  committed = false;
  blocked = false;
  fatal_err = none;
}

abbrev pub sent : Call → StorageResponseWriter → StorageResponseWriter
sent c w = record w { calls = c ∷ w.calls }

-- writeError's body, of the message of a failure.
abbrev pub internal_server_error : Text
internal_server_error =
    text "{\"error\":{\"message\":\"internal server error\",\"type\":\"Internal Server Error\"}}\n"

-- writeFatalLocked
unfoldable pub write_fatal_locked : Error → StorageResponseWriter → StorageResponseWriter
write_fatal_locked e w =
    record (sent (body_sent internal_server_error)
      (sent (header_sent 500) (sent headers_deleted w))) {
        committed = true;
        blocked = true;
        fatal_err = some e;
      }

-- The end of writeHeaderLocked: an informational status leaves the response open.
abbrev pub committed_by : ℕ → StorageResponseWriter → StorageResponseWriter
committed_by status w = if leb 200 status || status == 101 then record w { committed = true } else w

-- storageFailureState.commit, of the header.
abbrev pub send_header : ℕ → Option Error → StorageResponseWriter → StorageResponseWriter
send_header status (some e) w = write_fatal_locked e w
send_header status none w = committed_by status (sent (header_sent status) w)

-- writeHeaderLocked
unfoldable pub write_header_locked : ℕ → StorageResponseWriter → StorageResponseWriter
unfolding write_fatal_locked
write_header_locked status w =
    if w.committed
    then w
    else if ltb status 400
    then send_header status w.failures.cause w
    else committed_by status (sent (header_sent status) w)

-- WriteHeader, Write and FlushError.
abbrev pub opened : StorageResponseWriter → StorageResponseWriter
opened w = if w.committed then w else write_header_locked 200 w

unfoldable pub write : Text → StorageResponseWriter → StorageResponseWriter
unfolding write_header_locked
write bytes w = let o = opened w in if o.blocked then o else sent (body_sent bytes) o

unfoldable pub flush_error : StorageResponseWriter → StorageResponseWriter
unfolding write_header_locked
flush_error w = sent flushed (opened w)

-- ReadFrom, of a source that yields these bytes.
unfoldable pub read_from : Text → StorageResponseWriter → StorageResponseWriter
unfolding write_header_locked
read_from bytes w = let o = opened w in if o.blocked then o else sent (body_sent bytes) o

-- commit, of a connection that is taken over before any header.
abbrev pub take_over : Bool → Option Error → StorageResponseWriter → StorageResponseWriter
take_over succeeds (some e) w = write_fatal_locked e w
take_over succeeds none w = record (sent (hijacked false) w) { committed = w.committed || succeeds }

-- Hijack: whether the writer below is a Hijacker, and whether it takes the connection over.
unfoldable pub hijack : Bool → Bool → StorageResponseWriter → StorageResponseWriter
unfolding write_fatal_locked
hijack supported succeeds w =
    if w.blocked || not supported
    then w
    else if w.committed
    then sent (hijacked true) w
    else take_over succeeds w.failures.cause w

abbrev pub push_unless : Option Error → StorageResponseWriter → StorageResponseWriter
push_unless (some e) w = w
push_unless none w = sent pushed w

-- Push: whether the writer below is a Pusher.
unfoldable pub push_promise : Bool → StorageResponseWriter → StorageResponseWriter
push_promise supported w = if supported then push_unless w.failures.cause w else w

-- What happens to a response: the handler's calls, and the failures that other requests report.
pub data Event : Type 0 where
  header_written : ℕ → Event
  written : Text → Event
  was_copied : Text → Event
  was_flushed : Event
  was_hijacked : (supported : Bool) → (succeeds : Bool) → Event
  was_pushed : (supported : Bool) → Event
  failure_reported : Error → Event

unfoldable pub step : Event → StorageResponseWriter → StorageResponseWriter
unfolding write read_from flush_error hijack push_promise
step (header_written status) w = write_header_locked status w
step (written bytes) w = write bytes w
step (was_copied bytes) w = read_from bytes w
step was_flushed w = flush_error w
step (was_hijacked supported succeeds) w = hijack supported succeeds w
step (was_pushed supported) w = push_promise supported w
step (failure_reported e) w = record w { failures = report e w.failures }

unfoldable pub run : List Event → StorageResponseWriter → StorageResponseWriter
unfolding step
run [] w = w
run (e ∷ es) w = run es (step e w)

-- How many headers below 400 were sent, promises pushed, and connections taken over without a header.
abbrev pub is_accepting : Call → Bool
is_accepting (header_sent status) = ltb status 400
is_accepting (body_sent bytes) = false
is_accepting headers_deleted = false
is_accepting flushed = false
is_accepting pushed = true
is_accepting (hijacked committed) = not committed

unfoldable pub accepting : List Call → ℕ
accepting [] = 0
accepting (c ∷ cs) = if is_accepting c then accepting cs + 1 else accepting cs
