-- ===== src/Chat/Apply.antt =====
-- The dispatch on event types (internal/codexonly/chat_completions.go): applyTerminalResponse and
-- applyResponsesEvent.
use codex_oauth_proxy.Chat.Completion.{
  ChatToolCallState, protocol_failure, event_failure, index_out_of_range, Step,
  tool_index_for_payload, call_at, output_index_for_event, ensure_tool_call,
  reconcile_text_snapshot, reconcile_tool_arguments, set_arguments, first_of,
}
use codex_oauth_proxy.Chat.Events.{
  arguments_delta, ChatStreamUpdate, no_update, content_update, tool_update, malformed, change,
  initial_tool_call_delta, arguments_update, type_of, reconcile_streaming_output_item,
  apply_response_metadata, apply_response_usage,
}
use codex_oauth_proxy.Chat.Json.{
  Json, Fields, as_string, as_object, value_of, raw_string_from_map, string_from_map,
}
use codex_oauth_proxy.Prelude.{
  and_then, ℕ, Bool, true, false, not, if◌then◌else◌, [], ◌∷◌, ◌++◌, Option, none, some, Text, text,
  text_eq, ok, err, ◌>>=◌, ◌>>◌, return, fail,
}
use codex_oauth_proxy.Chat.Terminal.{reconcile_terminal_output, finished}

unfoldable pub argument_added : ℕ → Text → Option ChatToolCallState → Step ChatStreamUpdate
unfolding set_arguments
argument_added i delta none s = (err index_out_of_range, s)
argument_added i delta (some c) s =
    and_then (set_arguments i (c.arguments ++ delta) s)
      (λ _. return (tool_update (arguments_delta i delta ∷ [])))

module _ (new_id : ℕ → Text) (counts : Json → Bool) where
  -- applyTerminalResponse
  unfoldable pub apply_terminal_response : Fields → Bool → Bool → Step ChatStreamUpdate
  unfolding apply_response_metadata apply_response_usage reconcile_terminal_output finished
  apply_terminal_response response incomplete streaming = do
    change (λ s. (tt, apply_response_usage counts response (apply_response_metadata response s)))
    update ← reconcile_terminal_output new_id response streaming
    finished response incomplete update

  -- Marks the state as terminal.
  unfoldable pub closed : ChatStreamUpdate → Step ChatStreamUpdate
  closed update s = (
    ok (record update { terminal = true; response_id = s.id; response_model = s.model }),
    record s { terminal = true },
  )

  unfoldable pub created_event : Option Fields → Step ChatStreamUpdate
  unfolding apply_response_metadata
  created_event none = malformed
  created_event (some response) = do
    change (λ s. (tt, apply_response_metadata response s))
    λ s. (ok (record no_update { response_id = s.id; response_model = s.model }), s)

  unfoldable pub text_delta_event : Option Text → Step ChatStreamUpdate
  text_delta_event none = malformed
  text_delta_event (some delta) = do
    change (λ s. (tt, record s { content = s.content ++ delta }))
    return (content_update delta)

  unfoldable pub text_done_event : Fields → Bool → Step ChatStreamUpdate
  unfolding reconcile_text_snapshot raw_string_from_map
  text_done_event payload streaming =
      reconcile_text_snapshot
        (first_of (raw_string_from_map (text "text") payload)
          (raw_string_from_map (text "output_text") payload))
        streaming
      >>= (λ delta. return (content_update delta))

  unfoldable pub item_added_event : Fields → Option Fields → Step ChatStreamUpdate
  unfolding output_index_for_event ensure_tool_call initial_tool_call_delta string_from_map
  item_added_event payload none = malformed
  item_added_event payload (some item) =
      if not (text_eq (type_of item) (text "function_call")) then return no_update else do
        output_index ← output_index_for_event payload item
        (i, created) ← ensure_tool_call new_id item output_index
        if created
            then (initial_tool_call_delta i >>= (λ deltas. return (tool_update deltas)))
            else return no_update

  unfoldable pub item_done_event : Fields → Option Fields → Bool → Step ChatStreamUpdate
  unfolding output_index_for_event reconcile_streaming_output_item
  item_done_event payload none streaming = malformed
  item_done_event payload (some item) streaming = do
    output_index ← output_index_for_event payload item
    change (λ s. (tt, record s { output_items = (output_index, item) ∷ s.output_items }))
    if streaming then reconcile_streaming_output_item new_id item output_index else return no_update

  -- A function call's arguments, by the call that is found and the text that is given.
  unfoldable pub arguments_delta_event : Option ℕ → Option Text → Step ChatStreamUpdate
  unfolding call_at argument_added
  arguments_delta_event (some i) (some delta) s = argument_added i delta (call_at i s.tool_calls) s
  arguments_delta_event (some i) none s = (err (protocol_failure (text "malformed_event")), s)
  arguments_delta_event none delta s = (err (protocol_failure (text "malformed_event")), s)

  unfoldable pub arguments_done_event : Option ℕ → Option Text → Bool → Step ChatStreamUpdate
  unfolding reconcile_tool_arguments
  arguments_done_event (some i) (some full) streaming =
      reconcile_tool_arguments i full streaming
      >>= (λ delta. return (tool_update (arguments_update i delta)))
  arguments_done_event (some i) none streaming = malformed
  arguments_done_event none full streaming = malformed

  unfoldable pub terminal_event : Option Fields → Bool → Bool → Step ChatStreamUpdate
  unfolding apply_terminal_response closed
  terminal_event none incomplete streaming = malformed
  terminal_event (some response) incomplete streaming =
      apply_terminal_response response incomplete streaming >>= closed

  unfoldable pub failed_event : Fields → Text → Option Fields → Step ChatStreamUpdate
  unfolding apply_response_metadata apply_response_usage
  failed_event payload event_type none = fail (event_failure payload event_type)
  failed_event payload event_type (some response) = do
    change (λ s. (tt, apply_response_usage counts response (apply_response_metadata response s)))
    fail (event_failure payload event_type)

  -- The switch of applyResponsesEvent.
  unfoldable pub apply_event : Text → Fields → Bool → Step ChatStreamUpdate
  unfolding created_event text_delta_event text_done_event item_added_event item_done_event
      arguments_delta_event arguments_done_event terminal_event failed_event value_of
      tool_index_for_payload
  apply_event event_type payload streaming s =
      let is = λ (t : Text). text_eq event_type t in
      let response = as_object (value_of (text "response") payload) in
      let entry = as_object (value_of (text "item") payload) in
      let delta = as_string (value_of (text "delta") payload) in
      let index = tool_index_for_payload payload s in
      if is (text "response.created")
      then created_event response s
      else if is (text "response.output_text.delta")
      then text_delta_event delta s
      else if is (text "response.output_text.done")
      then text_done_event payload streaming s
      else if is (text "response.output_item.added")
      then item_added_event payload entry s
      else if is (text "response.output_item.done")
      then item_done_event payload entry streaming s
      else if is (text "response.function_call_arguments.delta")
      then arguments_delta_event index delta s
      else if is (text "response.function_call_arguments.done")
      then arguments_done_event index (as_string (value_of (text "arguments") payload)) streaming s
      else if is (text "response.completed")
      then terminal_event response false streaming s
      else if is (text "response.incomplete")
      then terminal_event response true streaming s
      else if is (text "response.failed")
      then failed_event payload event_type response s
      else if is (text "error")
      then (err (event_failure payload event_type), s)
      else (ok no_update, s)

  -- applyResponsesEvent
  unfoldable pub apply_responses_event : Text → Fields → Bool → Step ChatStreamUpdate
  unfolding apply_event
  apply_responses_event event_type payload streaming s =
      if s.terminal
      then (err (protocol_failure (text "data_after_terminal")), s)
      else apply_event event_type payload streaming s
