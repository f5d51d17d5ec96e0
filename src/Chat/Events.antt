-- ===== src/Chat/Events.antt =====
-- The events of the responses protocol, applied to the state of a chat completion
-- (internal/codexonly/chat_completions.go): applyResponsesEvent and what it calls. An event is given with its
-- type and payload as decodeChatResponsesEvent returns them.
use codex_oauth_proxy.Chat.Completion.{
  protocol_failure, index_out_of_range, ChatToolCallState, ChatCompletionState, Step, find_at,
  call_at, ensure_tool_call, reconcile_text_snapshot, reconcile_tool_arguments, set_arguments,
  first_of,
}
use codex_oauth_proxy.Chat.Json.{
  Json, Fields, value_of, raw_string_from_map, string_from_map, objects_of, array, has_key,
  object_array,
}
use codex_oauth_proxy.Prelude.{
  ℕ, zero, suc, ◌+◌, ltb, Bool, true, false, if◌then◌else◌, List, [], ◌∷◌, ◌++◌, Option, none, some,
  Text, text, text_eq, is_empty, ok, err, ◌>>=◌, ◌>>◌, return, fail,
}

pub data ToolDelta : Type 0 where
  initial_delta : (index : ℕ) → (id : Text) → (name : Text) → (arguments : Text) → ToolDelta
  arguments_delta : (index : ℕ) → (arguments : Text) → ToolDelta

pub record ChatStreamUpdate : Type 0 where
  pub content_delta : Text
  pub tool_deltas : List ToolDelta
  pub terminal : Bool
  pub finish_reason : Text
  pub response_id : Text
  pub response_model : Text
  pub unknown_reason : Text

abbrev pub no_update : ChatStreamUpdate
no_update = record {
  content_delta = [];
  tool_deltas = [];
  terminal = false;
  finish_reason = [];
  response_id = [];
  response_model = [];
  unknown_reason = [];
}

abbrev pub content_update : Text → ChatStreamUpdate
content_update delta = record no_update { content_delta = delta }

abbrev pub tool_update : List ToolDelta → ChatStreamUpdate
tool_update deltas = record no_update { tool_deltas = deltas }

abbrev pub malformed : {A : Type 0} → Step A
malformed = fail (protocol_failure (text "malformed_event"))

-- A change of the state that cannot fail.
abbrev pub change : {A : Type 0} → (ChatCompletionState → A × ChatCompletionState) → Step A
change f s = let (a, t) = f s in (ok a, t)

abbrev pub described_delta : ℕ → Option ChatToolCallState → Step (List ToolDelta)
described_delta i none = fail index_out_of_range
described_delta i (some c) = return (initial_delta i c.id c.name c.arguments ∷ [])

-- initialToolCallDelta
unfoldable pub initial_tool_call_delta : ℕ → Step (List ToolDelta)
unfolding call_at
initial_tool_call_delta i s = described_delta i (call_at i s.tool_calls) s

abbrev pub arguments_update : ℕ → Text → List ToolDelta
arguments_update i delta = if is_empty delta then [] else arguments_delta i delta ∷ []

-- reconcileToolSnapshot
unfoldable pub reconcile_tool_snapshot : (ℕ → Text) → Fields → ℕ → Bool → Step (List ToolDelta)
unfolding ensure_tool_call set_arguments reconcile_tool_arguments initial_tool_call_delta
    raw_string_from_map
reconcile_tool_snapshot new_id item output_index streaming = do
  (i, created) ← ensure_tool_call new_id item output_index
  let full = raw_string_from_map (text "arguments") item
  if created
      then (set_arguments i full >> initial_tool_call_delta i)
      else (reconcile_tool_arguments i full streaming
          >>= (λ delta. return (arguments_update i delta)))

abbrev texts_of : List Fields → Text
texts_of [] = []
texts_of (part ∷ parts) = raw_string_from_map (text "text") part ++ texts_of parts

-- outputTextFromMessage
unfoldable pub output_text_from_message : Fields → Text
unfolding raw_string_from_map value_of
output_text_from_message message = elim (value_of (text "content") message) [
  | array parts ↦ texts_of (objects_of parts)
  | _ ↦ []
]

abbrev pub type_of : Fields → Text
type_of m = string_from_map (text "type") m

-- reconcileStreamingOutputItem
unfoldable pub reconcile_streaming_output_item : (ℕ → Text) → Fields → ℕ → Step ChatStreamUpdate
unfolding reconcile_text_snapshot output_text_from_message reconcile_tool_snapshot
reconcile_streaming_output_item new_id item output_index =
    if text_eq (type_of item) (text "message")
    then (reconcile_text_snapshot (output_text_from_message item) true
        >>= (λ delta. return (content_update delta)))
    else if text_eq (type_of item) (text "function_call")
    then (reconcile_tool_snapshot new_id item output_index true
        >>= (λ deltas. return (tool_update deltas)))
    else return no_update

-- applyResponseMetadata
unfoldable pub apply_response_metadata : Fields → ChatCompletionState → ChatCompletionState
unfolding string_from_map
apply_response_metadata response s = record s {
  id = first_of (string_from_map (text "id") response) s.id;
  model = first_of (string_from_map (text "model") response) s.model;
}

-- applyResponseUsage; `counts` is whether usageCountersFromValue reads counters from a value.
unfoldable pub apply_response_usage :
    (Json → Bool) → Fields → ChatCompletionState → ChatCompletionState
unfolding value_of
apply_response_usage counts response s =
    let usage = value_of (text "usage") response in
    if counts usage then record s { usage = some usage } else s

abbrev pub numbered : ℕ → List Fields → List (ℕ × Fields)
numbered i [] = []
numbered i (m ∷ ms) = (i, m) ∷ numbered (suc i) ms

abbrev pub above_all : ℕ → List (ℕ × Fields) → ℕ
above_all n [] = n
above_all n ((i, m) ∷ items) = above_all (if ltb n (i + 1) then i + 1 else n) items

abbrev pub prepend_item : ℕ → Option Fields → List (ℕ × Fields) → List (ℕ × Fields)
prepend_item i none items = items
prepend_item i (some m) items = (i, m) ∷ items

abbrev pub either_item : Option Fields → Option Fields → Option Fields
either_item none saved = saved
either_item (some m) saved = some m

-- The items of the terminal event, with those that were done before where it has none.
unfoldable pub resolve_from : List (ℕ × Fields) → List (ℕ × Fields) → ℕ → ℕ → List (ℕ × Fields)
unfolding find_at
resolve_from terminal saved i zero = []
resolve_from terminal saved i (suc left) =
    prepend_item i (either_item (find_at i terminal) (find_at i saved))
      (resolve_from terminal saved (suc i) left)

abbrev pub resolved : ChatCompletionState → List Fields → List (ℕ × Fields)
resolved s output =
    let terminal = numbered 0 output in
    resolve_from terminal s.output_items 0 (above_all (above_all 0 terminal) s.output_items)

abbrev pub resolve_or_fail : Option (List Fields) → Step (List (ℕ × Fields))
resolve_or_fail none s = (err (protocol_failure (text "malformed_event")), s)
resolve_or_fail (some output) s = (ok (resolved s output), s)

abbrev pub output_of : Json → Option (List Fields)
output_of (array items) = object_array items
output_of _ = none

-- resolvedResponseOutput, of output indices that the capacity of a slice can hold.
unfoldable pub resolved_response_output : Fields → Step (List (ℕ × Fields))
unfolding has_key value_of object_array resolve_from
resolved_response_output response = resolve_or_fail (
    if has_key (text "output") response
    then output_of (value_of (text "output") response)
    else some [])

unfoldable pub items_of_type : Text → List (ℕ × Fields) → List (ℕ × Fields)
unfolding string_from_map
items_of_type t [] = []
items_of_type t ((i, m) ∷ items) =
    let rest = items_of_type t items in if text_eq (type_of m) t then (i, m) ∷ rest else rest

abbrev pub message_text : List (ℕ × Fields) → Text
message_text [] = []
message_text ((i, m) ∷ items) = output_text_from_message m ++ message_text items
