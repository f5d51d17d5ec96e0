-- ===== src/Chat/Terminal.antt =====
-- The end of a response (internal/codexonly/chat_completions.go): reconcileTerminalOutput and the finish reason.
use codex_oauth_proxy.Chat.Completion.{
  ChatToolCallState, ChatCompletionState, Step, find_at, lookup_tool_call_index, ensure_tool_call,
  output_conflict, reconcile_text_snapshot, set_arguments,
}
use codex_oauth_proxy.Chat.Events.{
  ToolDelta, ChatStreamUpdate, no_update, change, reconcile_tool_snapshot, resolved_response_output,
  items_of_type, message_text,
}
use codex_oauth_proxy.Chat.Json.{Fields, as_object, value_of, raw_string_from_map, string_from_map}
use codex_oauth_proxy.Prelude.{
  ℕ, ◌==◌, Bool, true, false, not, ◌&&◌, ◌||◌, if◌then◌else◌, List, [], ◌∷◌, ◌++◌, Option, none,
  some, Text, text, text_eq, is_empty, length, ok, err, ◌>>=◌, ◌>>◌, return,
}

-- The tool calls of a response that is collected take the place of those so far.
unfoldable pub reset_tool_calls : ChatCompletionState → ChatCompletionState
reset_tool_calls s = record s {
  tool_calls = [];
  tool_index_by_item = [];
  tool_index_by_call = [];
  tool_index_by_output = [];
  current_tool_index = none;
}

unfoldable pub collect_tools : (ℕ → Text) → List (ℕ × Fields) → Step (Unit {0})
unfolding ensure_tool_call set_arguments raw_string_from_map
collect_tools new_id [] = return tt
collect_tools new_id ((output_index, item) ∷ items) = do
  (i, created) ← ensure_tool_call new_id item output_index
  set_arguments i (raw_string_from_map (text "arguments") item)
  collect_tools new_id items

abbrev pub mentions : ℕ → List ℕ → Bool
mentions i [] = false
mentions i (j ∷ seen) = i == j || mentions i seen

abbrev pub final_index : Option ℕ → Option ℕ → ℕ
final_index (some i) other = i
final_index none (some i) = i
final_index none none = 0

-- The deltas of the tool calls of the terminal event, and which calls it names.
unfoldable pub stream_tools :
    (ℕ → Text) → List ℕ → List (ℕ × Fields) → Step (List ToolDelta × List ℕ)
unfolding reconcile_tool_snapshot lookup_tool_call_index find_at
stream_tools new_id seen [] = return ([], seen)
stream_tools new_id seen ((output_index, item) ∷ items) = do
  deltas ← reconcile_tool_snapshot new_id item output_index true
  i ← (λ s. (
    ok (final_index (lookup_tool_call_index item s) (find_at output_index s.tool_index_by_output)),
    s,
  ))
  (more, all) ← stream_tools new_id (if mentions i seen then seen else i ∷ seen) items
  return (deltas ++ more, all)

-- The text of a terminal event while streaming: there is none only if none was streamed.
unfoldable pub stream_text : List (ℕ × Fields) → Step Text
unfolding reconcile_text_snapshot
stream_text [] s = if is_empty s.content then (ok [], s) else (err output_conflict, s)
stream_text (m ∷ messages) s = reconcile_text_snapshot (message_text (m ∷ messages)) true s

abbrev pub terminal_update : Text → List ToolDelta → ChatStreamUpdate
terminal_update delta tools = record no_update { content_delta = delta; tool_deltas = tools }

unfoldable pub stream_output :
    (ℕ → Text) → List (ℕ × Fields) → List (ℕ × Fields) → Step ChatStreamUpdate
unfolding stream_text stream_tools
stream_output new_id messages tools = do
  delta ← stream_text messages
  (deltas, seen) ← stream_tools new_id [] tools
  λ s.
      if length seen == length s.tool_calls
      then (ok (terminal_update delta deltas), s)
      else (err output_conflict, s)

unfoldable pub collect_output :
    (ℕ → Text) → List (ℕ × Fields) → List (ℕ × Fields) → Step ChatStreamUpdate
unfolding reset_tool_calls collect_tools
collect_output new_id messages tools = do
  change (λ s. (tt, record (reset_tool_calls s) { content = message_text messages }))
  collect_tools new_id tools
  return no_update

-- reconcileTerminalOutput
unfoldable pub reconcile_terminal_output : (ℕ → Text) → Fields → Bool → Step ChatStreamUpdate
unfolding resolved_response_output items_of_type stream_output collect_output
reconcile_terminal_output new_id response streaming = do
  items ← resolved_response_output response
  let messages = items_of_type (text "message") items
  let tools = items_of_type (text "function_call") items
  if length messages == 0 && length tools == 0
      then return no_update
      else if streaming
      then stream_output new_id messages tools
      else collect_output new_id messages tools

abbrev details_reason : Option Fields → Text
details_reason none = []
details_reason (some details) = string_from_map (text "reason") details

-- incompleteFinishReason: the reason, and one that is not known.
unfoldable pub incomplete_finish_reason : Fields → Text × Text
unfolding value_of string_from_map
incomplete_finish_reason response =
    let reason = details_reason (as_object (value_of (text "incomplete_details") response)) in
    if text_eq reason (text "content_filter")
    then (text "content_filter", [])
    else if text_eq reason (text "max_tokens") || text_eq reason (text "max_output_tokens")
    then (text "length", [])
    else (text "length", reason)

abbrev pub tool_reason : List ChatToolCallState → Text
tool_reason [] = text "stop"
tool_reason (c ∷ calls) = text "tool_calls"

-- finalFinishReason
unfoldable pub final_finish_reason : ChatCompletionState → Text
final_finish_reason s =
    if s.stopped
    then text "stop"
    else if not (is_empty s.finish_reason)
    then s.finish_reason
    else tool_reason s.tool_calls

-- The finish reason of a terminal event, with the update so far.
unfoldable pub finished : Fields → Bool → ChatStreamUpdate → Step ChatStreamUpdate
unfolding incomplete_finish_reason final_finish_reason
finished response incomplete update s =
    let (reason, unknown) =
      if incomplete then incomplete_finish_reason response else (tool_reason s.tool_calls, []) in
    let t = record s { finish_reason = reason } in
    (ok (record update { finish_reason = final_finish_reason t; unknown_reason = unknown }), t)
