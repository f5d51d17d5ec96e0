-- ===== src/Chat/Stream.antt =====
-- Streamed chat completions (internal/codexonly/chat_completions.go): streamChatCompletion, which answers the
-- events of the upstream with chunks. Each write to the client succeeds.
use codex_oauth_proxy.Chat.Apply.{apply_responses_event}
use codex_oauth_proxy.Chat.Terminal.{final_finish_reason}
use codex_oauth_proxy.Chat.Completion.{
  ChatStreamFailure, protocol_failure, ChatCompletionState, first_of,
}
use codex_oauth_proxy.Chat.Events.{ChatStreamUpdate, ToolDelta}
use codex_oauth_proxy.Chat.Json.{Json, Fields}
use codex_oauth_proxy.Chat.Stops.{ChatStopFilter, new_chat_stop_filter, push, flush}
use codex_oauth_proxy.Prelude.{
  ℕ, Bool, true, false, ◌||◌, if◌then◌else◌, List, [], ◌∷◌, ◌++◌, Option, none, some, Text, text,
  is_empty, Result, ok, err,
}
pub mod Sent

-- What is written to the client.
pub data ChatChunk : Type 0 where
  role_chunk : ChatChunk
  content_chunk : Text → ChatChunk
  tool_chunk : ToolDelta → ChatChunk
  finish_chunk : (reason : Text) → ChatChunk
  usage_chunk : Option Json → ChatChunk
  error_chunk : Option ChatStreamFailure → ChatChunk
  done_chunk : ChatChunk

-- The answer with the outcome that is recorded of it; an error of the first event is not streamed.
pub data ChatAnswer : Type 0 where
  proxy_error : ChatStreamFailure → ChatAnswer
  upstream_failure : List ChatChunk → ChatAnswer
  success : List ChatChunk → ChatAnswer

-- A stream after its events, with the failure that ended it early.
pub record ChatStream : Type 0 where
  pub chunks : List ChatChunk
  pub failure : Option ChatStreamFailure
  pub filter : ChatStopFilter
  pub state : ChatCompletionState

abbrev pub content_chunks : Text → List ChatChunk
content_chunks delta = if is_empty delta then [] else content_chunk delta ∷ []

abbrev pub tool_chunks : List ToolDelta → List ChatChunk
tool_chunks [] = []
tool_chunks (d ∷ deltas) = tool_chunk d ∷ tool_chunks deltas

abbrev pub with_metadata : ChatStreamUpdate → Bool → ChatCompletionState → ChatCompletionState
with_metadata update stopped s = record s {
  id = first_of update.response_id s.id;
  model = first_of update.response_model s.model;
  stopped = s.stopped || stopped;
}

abbrev pub tools_unless : Bool → ChatStreamUpdate → List ChatChunk
tools_unless stopped update = if stopped then [] else tool_chunks update.tool_deltas

unfoldable pub filtered_delta : Text → ChatStopFilter → (Text × Bool) × ChatStopFilter
unfolding push
filtered_delta delta f = if is_empty delta then (([], false), f) else push delta f

-- emitUpdate
unfoldable pub emit_update :
    ChatStreamUpdate
    → ChatStopFilter
    → ChatCompletionState
    → List ChatChunk × (ChatStopFilter × ChatCompletionState)
unfolding filtered_delta
emit_update update f s =
    let ((delta, stopped), g) = filtered_delta update.content_delta f in
    (
      content_chunks delta ++ tools_unless (s.stopped || stopped) update,
      (g, with_metadata update stopped s),
    )

abbrev pub after_chunks : List ChatChunk → ChatStream → ChatStream
after_chunks cs r = record r { chunks = cs ++ r.chunks }

-- An event that is applied, and the rest of the stream.
unfoldable pub on_event :
    Result ChatStreamFailure ChatStreamUpdate × ChatCompletionState
    → ChatStopFilter
    → (ChatStopFilter → ChatCompletionState → ChatStream)
    → ChatStream
unfolding emit_update
on_event (err e, s) f rest = record { chunks = []; failure = some e; filter = f; state = s }
on_event (ok update, s) f rest =
    let (cs, (g, t)) = emit_update update f s in after_chunks cs (rest g t)

abbrev pub broken : Option ChatStreamFailure → ChatStream → ChatAnswer × ChatCompletionState
broken e r = (upstream_failure ((role_chunk ∷ r.chunks) ++ error_chunk e ∷ []), r.state)

abbrev pub last_chunks : Bool → Option Json → List ChatChunk
last_chunks include_usage usage =
    if include_usage then usage_chunk usage ∷ done_chunk ∷ [] else done_chunk ∷ []

unfoldable pub complete : Bool → ChatStream → ChatAnswer × ChatCompletionState
unfolding flush final_finish_reason
complete include_usage r =
    let end =
      finish_chunk (final_finish_reason r.state) ∷ last_chunks include_usage r.state.usage in
    (success ((role_chunk ∷ r.chunks) ++ (content_chunks (flush r.filter).0 ++ end)), r.state)

-- The end of the stream: `read_failed` is an error of the reader that is not a chatStreamFailure.
unfoldable pub end_stream :
    Bool → Bool → Option ChatStreamFailure → ChatStream → ChatAnswer × ChatCompletionState
unfolding complete
end_stream read_failed include_usage (some e) r = broken (some e) r
end_stream read_failed include_usage none r =
    if r.state.terminal
    then complete include_usage r
    else if read_failed
    then broken none r
    else broken (some (protocol_failure (text "incomplete_stream"))) r

module _ (new_id : ℕ → Text) (counts : Json → Bool) where
  unfoldable pub stream_events :
      List (Text × Fields) → ChatStopFilter → ChatCompletionState → ChatStream
  unfolding on_event apply_responses_event
  stream_events [] f s = record { chunks = []; failure = none; filter = f; state = s }
  stream_events ((event_type, payload) ∷ events) f s =
      on_event (apply_responses_event new_id counts event_type payload true s) f
        (λ g t. stream_events events g t)

  -- The first event of a prepared body is applied before anything is written.
  unfoldable pub prepared :
      List (Text × Fields)
      → ChatStopFilter
      → Bool
      → Bool
      → Result ChatStreamFailure ChatStreamUpdate × ChatCompletionState
      → ChatAnswer × ChatCompletionState
  unfolding end_stream on_event
  prepared events f read_failed include_usage (err e, s) = (proxy_error e, s)
  prepared events f read_failed include_usage (ok update, s) =
      let r = on_event (ok update, s) f (stream_events events) in
      end_stream read_failed include_usage r.failure r

  -- streamChatCompletion
  unfoldable pub stream_chat_completion :
      List Text
      → Option (Text × Fields)
      → List (Text × Fields)
      → Bool
      → Bool
      → ChatCompletionState
      → ChatAnswer × ChatCompletionState
  unfolding new_chat_stop_filter stream_events prepared end_stream
  stream_chat_completion stops none events read_failed include_usage s =
      let r = stream_events events (new_chat_stop_filter stops) s in
      end_stream read_failed include_usage r.failure r
  stream_chat_completion stops (some (event_type, payload)) events read_failed include_usage s =
      prepared events (new_chat_stop_filter stops) read_failed include_usage
        (apply_responses_event new_id counts event_type payload true s)
