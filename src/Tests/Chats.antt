-- ===== src/Tests/Chats.antt =====
-- Tests and examples of chat completions.
use codex_oauth_proxy.Chat.Stops.{
  truncate_at_stop_sequence, new_chat_stop_filter, streamed, joined, IsUnambiguous,
}
use codex_oauth_proxy.Chat.Stops.Filter.{streamed-truncate_at_stop_sequence}
use codex_oauth_proxy.Chat.Completion.{ChatCompletionState, new_chat_completion_state}
use codex_oauth_proxy.Chat.Json.{
  Json, Fields, string, array, object, no_fields, field, no_items, item,
}
use codex_oauth_proxy.Chat.Stream.{
  ChatChunk, role_chunk, content_chunk, finish_chunk, done_chunk, ChatAnswer, success,
  stream_chat_completion,
}
use codex_oauth_proxy.Chat.Stream.Sent.{content_of, stream_chat_completion-content_of}
use codex_oauth_proxy.Chat.Apply.{apply_responses_event}
use codex_oauth_proxy.Chat.Calls.{IsIndexed}
use codex_oauth_proxy.Chat.Calls.Steps.{Keeps}
use codex_oauth_proxy.Chat.Calls.Steps.Events.{apply_responses_event-Keeps}
use codex_oauth_proxy.Prelude.{
  lookup, insert, arith, text_eq, trim_space, ℕ, Bool, false, some, ◌≡◌, refl, true, List, [], ◌∷◌,
  Text, text,
}

abbrev two_stops : List Text
two_stops = text "END" ∷ text "\n\n" ∷ []

abbrev parts : List Text
parts = text "ab" ∷ text "cE" ∷ [] ∷ text "ND d" ∷ text "e" ∷ []

two_stops-IsUnambiguous : IsUnambiguous two_stops two_stops
unfolding IsUnambiguous truncate_at_stop_sequence
two_stops-IsUnambiguous = (refl, (refl, tt))

streamed-truncate_at_stop_sequence_example :
    streamed (new_chat_stop_filter two_stops) parts
    ≡ truncate_at_stop_sequence (joined parts) two_stops
streamed-truncate_at_stop_sequence_example =
    streamed-truncate_at_stop_sequence two_stops parts two_stops-IsUnambiguous

two_stops_run : streamed (new_chat_stop_filter two_stops) parts ≡ (text "abc", true)
unfolding streamed new_chat_stop_filter
two_stops_run = refl

-- With one stop sequence inside another the answer depends on how the stream is cut.
abbrev nested_stops : List Text
nested_stops = text "abc" ∷ text "b" ∷ []

nested_stops_whole :
    streamed (new_chat_stop_filter nested_stops) (text "xabc" ∷ []) ≡ (text "x", true)
unfolding streamed new_chat_stop_filter
nested_stops_whole = refl

nested_stops_cut :
    streamed (new_chat_stop_filter nested_stops) (text "xab" ∷ text "c" ∷ []) ≡ (text "xa", true)
unfolding streamed new_chat_stop_filter
nested_stops_cut = refl

-- A stream of two deltas, the finished message and the end.
abbrev delta_event : Text → Text × Fields
delta_event delta =
    (text "response.output_text.delta", field (text "delta") (string delta) no_fields)

abbrev finished_message : Fields
finished_message = field (text "type") (string (text "message")) (
    field (text "content")
      (array (item (object (field (text "text") (string (text "abcEND de")) no_fields)) no_items))
      no_fields)

abbrev message_events : List (Text × Fields)
message_events =
    delta_event (text "cEND d")
    ∷ (text "response.output_item.done", field (text "item") (object finished_message) no_fields)
    ∷ (text "response.completed", field (text "response") (object no_fields) no_fields)
    ∷ []

abbrev call_name : ℕ → Text
call_name n = text "call_1"

abbrev counts_nothing : Json → Bool
counts_nothing v = false

abbrev message_stream : ChatAnswer × ChatCompletionState
unfolding stream_chat_completion new_chat_completion_state
message_stream =
    stream_chat_completion call_name counts_nothing two_stops (some (delta_event (text "ab")))
      message_events false false (new_chat_completion_state (text "chatcmpl-1") (text "gpt-5"))

abbrev message_chunks : List ChatChunk
message_chunks =
    role_chunk ∷ content_chunk (text "abc") ∷ finish_chunk (text "stop") ∷ done_chunk ∷ []

message_stream_run : message_stream ≡ (success message_chunks, message_stream.1)
unfolding stream_chat_completion new_chat_completion_state text_eq trim_space
message_stream_run = refl

stream_chat_completion-content_of_example :
    content_of message_chunks ≡ (truncate_at_stop_sequence message_stream.1.content two_stops).0
unfolding stream_chat_completion new_chat_completion_state
stream_chat_completion-content_of_example =
    stream_chat_completion-content_of two_stops two_stops-IsUnambiguous false false call_name
      counts_nothing (some (delta_event (text "ab"))) message_events
      (new_chat_completion_state (text "chatcmpl-1") (text "gpt-5")) message_stream.1 message_chunks
      refl message_stream_run

-- A tool call is added, then some of its arguments arrive.
abbrev function_call : Fields
function_call = field (text "type") (string (text "function_call")) (
    field (text "id") (string (text "fc_1"))
      (field (text "call_id") (string (text "c_1")) no_fields))

abbrev call_state : ChatCompletionState
unfolding apply_responses_event new_chat_completion_state
call_state =
    (apply_responses_event call_name counts_nothing (text "response.output_item.added")
      (field (text "item") (object function_call) no_fields) true
      (new_chat_completion_state (text "chatcmpl-1") (text "gpt-5"))).1

call_state-IsIndexed : IsIndexed call_state
unfolding apply_responses_event new_chat_completion_state IsIndexed text_eq trim_space lookup insert
call_state-IsIndexed = ((omega arith, tt), ((omega arith, tt), (omega arith, tt)))

abbrev call_arguments : Fields
call_arguments =
    field (text "item_id") (string (text "fc_1"))
      (field (text "delta") (string (text "{}")) no_fields)

apply_responses_event-Keeps_example : Keeps (
    apply_responses_event call_name counts_nothing
      (text "response.function_call_arguments.delta")
      call_arguments
      true
      call_state)
apply_responses_event-Keeps_example =
    apply_responses_event-Keeps call_name counts_nothing
      (text "response.function_call_arguments.delta") call_arguments true call_state
      call_state-IsIndexed
