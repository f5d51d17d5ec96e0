-- ===== src/Chat/Completion.antt =====
-- The state that collects a chat completion (internal/codexonly/chat_completions.go): the text, the tool
-- calls, and the maps that find a tool call again. An index out of range, which is a panic in
-- Go, is the failure index_out_of_range.
use codex_oauth_proxy.Chat.Json.{Json, Fields, as_natural, value_of, string_from_map}
use codex_oauth_proxy.Chat.Stops.{has_prefix}
use codex_oauth_proxy.Prelude.{
  and_then, return, ℕ, zero, suc, ◌+◌, ◌==◌, ltb, leb, Bool, true, false, if◌then◌else◌, List, [],
  ◌∷◌, ◌++◌, Option, none, some, Text, text, is_empty, length, drop, Dict, lookup, insert, M, ok,
  err,
}

-- chatStreamFailure: a violation of the protocol with its code, a failure that the upstream reports in an
-- event, and the panic.
pub data ChatStreamFailure : Type 0 where
  protocol_failure : (code : Text) → ChatStreamFailure
  event_failure : (payload : Fields) → (event_type : Text) → ChatStreamFailure
  index_out_of_range : ChatStreamFailure

-- `output_index` is none below 0.
pub record ChatToolCallState : Type 0 where
  pub id : Text
  pub item_id : Text
  pub name : Text
  pub output_index : Option ℕ
  pub arguments : Text

-- `current_tool_index` is none for -1; `usage` is the last value that counts tokens.
pub record ChatCompletionState : Type 0 where
  pub id : Text
  pub model : Text
  pub content : Text
  pub tool_calls : List ChatToolCallState
  pub tool_index_by_item : Dict ℕ
  pub tool_index_by_call : Dict ℕ
  pub tool_index_by_output : List (ℕ × ℕ)
  pub current_tool_index : Option ℕ
  pub output_items : List (ℕ × Fields)
  pub next_output_index : ℕ
  pub usage : Option Json
  pub finish_reason : Text
  pub terminal : Bool
  pub stopped : Bool

-- newChatCompletionState, with the identifier that it makes of the time.
unfoldable pub new_chat_completion_state : Text → Text → ChatCompletionState
new_chat_completion_state id model = record {
  id = id;
  model = model;
  content = [];
  tool_calls = [];
  tool_index_by_item = [];
  tool_index_by_call = [];
  tool_index_by_output = [];
  current_tool_index = none;
  output_items = [];
  next_output_index = 0;
  usage = none;
  finish_reason = [];
  terminal = false;
  stopped = false;
}

abbrev pub Step : Type 0 → Type 0
Step A = M ChatCompletionState ChatStreamFailure A

-- Maps with numbers as keys; the entry in front counts.
unfoldable pub find_at {ℓ} : {A : Type ℓ} → ℕ → List (ℕ × A) → Option A
find_at k [] = none
find_at k ((j, a) ∷ m) = let rest = find_at k m in if j == k then some a else rest

abbrev pub or_else : Option ℕ → Option ℕ → Option ℕ
or_else none other = other
or_else (some i) other = some i

abbrev pub find_if_any : Text → Dict ℕ → Option ℕ
find_if_any key m = if is_empty key then none else lookup key m

abbrev pub find_output : Option ℕ → List (ℕ × ℕ) → Option ℕ
find_output none m = none
find_output (some k) m = find_at k m

abbrev pub first_of : Text → Text → Text
first_of a b = if is_empty a then b else a

abbrev pub call_id_of : Fields → Text
call_id_of item =
    first_of (string_from_map (text "call_id") item) (string_from_map (text "id") item)

abbrev pub output_index_of : Fields → Option ℕ
output_index_of m = as_natural (value_of (text "output_index") m)

-- lookupToolCallIndex
unfoldable pub lookup_tool_call_index : Fields → ChatCompletionState → Option ℕ
unfolding find_at string_from_map value_of
lookup_tool_call_index item s =
    or_else (find_if_any (string_from_map (text "id") item) s.tool_index_by_item) (
      or_else (find_if_any (call_id_of item) s.tool_index_by_call)
        (find_output (output_index_of item) s.tool_index_by_output))

abbrev pub current_if_any : ChatCompletionState → Option ℕ
current_if_any s = elim s.current_tool_index [
  | none ↦ none
  | some i ↦ if ltb i (length s.tool_calls) then some i else none
]

-- toolIndexForPayload
unfoldable pub tool_index_for_payload : Fields → ChatCompletionState → Option ℕ
unfolding find_at string_from_map value_of
tool_index_for_payload payload s =
    or_else (find_if_any (string_from_map (text "item_id") payload) s.tool_index_by_item) (
      or_else (find_if_any (string_from_map (text "output_item_id") payload) s.tool_index_by_item) (
        or_else (find_if_any (string_from_map (text "id") payload) s.tool_index_by_item) (
          or_else (find_if_any (string_from_map (text "call_id") payload) s.tool_index_by_call) (
            or_else (find_output (output_index_of payload) s.tool_index_by_output)
              (current_if_any s)))))

unfoldable pub call_at : ℕ → List ChatToolCallState → Option ChatToolCallState
call_at i [] = none
call_at zero (c ∷ calls) = some c
call_at (suc i) (c ∷ calls) = call_at i calls

abbrev pub in_front :
    ChatToolCallState → Option (List ChatToolCallState) → Option (List ChatToolCallState)
in_front c none = none
in_front c (some calls) = some (c ∷ calls)

unfoldable pub with_call :
    ℕ
    → (ChatToolCallState → ChatToolCallState)
    → List ChatToolCallState
    → Option (List ChatToolCallState)
with_call i f [] = none
with_call zero f (c ∷ calls) = some (f c ∷ calls)
with_call (suc i) f (c ∷ calls) = in_front c (with_call i f calls)

abbrev pub wrote : Option (List ChatToolCallState) → Step (Unit {0})
wrote none s = (err index_out_of_range, s)
wrote (some calls) s = (ok tt, record s { tool_calls = calls })

-- A write to s.toolCalls[i].
unfoldable pub edit_call : ℕ → (ChatToolCallState → ChatToolCallState) → Step (Unit {0})
unfolding with_call
edit_call i f s = wrote (with_call i f s.tool_calls) s

abbrev pub output_index_at : Option ChatToolCallState → Step (Option ℕ)
output_index_at none s = (err index_out_of_range, s)
output_index_at (some c) s = (ok c.output_index, s)

unfoldable pub known_output_index : Option ℕ → Step (Option ℕ)
unfolding call_at
known_output_index none s = (ok none, s)
known_output_index (some i) s = output_index_at (call_at i s.tool_calls) s

abbrev pub next_output : Option ℕ → Step ℕ
next_output (some i) s = (ok i, s)
next_output none s =
    (ok s.next_output_index, record s { next_output_index = s.next_output_index + 1 })

unfoldable pub output_index_or_next : Option ℕ → Fields → Step ℕ
unfolding known_output_index lookup_tool_call_index
output_index_or_next (some i) item s = (
  ok i,
  record s {
    next_output_index = (if leb s.next_output_index i then i + 1 else s.next_output_index);
  },
)
output_index_or_next none item s =
    and_then (known_output_index (lookup_tool_call_index item s) s) next_output

-- outputIndexForEvent
unfoldable pub output_index_for_event : Fields → Fields → Step ℕ
unfolding output_index_or_next
output_index_for_event payload item = output_index_or_next (output_index_of payload) item

-- What an item says of its tool call.
unfoldable pub described_call : Fields → ℕ → ChatToolCallState → ChatToolCallState
unfolding string_from_map
described_call item output_index c = record c {
  item_id = first_of (string_from_map (text "id") item) c.item_id;
  id = first_of (call_id_of item) c.id;
  name = first_of (string_from_map (text "name") item) c.name;
  output_index = some output_index;
}

abbrev pub inserted : Text → ℕ → Dict ℕ → Dict ℕ
inserted key i m = if is_empty key then m else insert key i m

abbrev pub found_or_new : Option ℕ → ChatCompletionState → ℕ × Bool
found_or_new none s = (length s.tool_calls, true)
found_or_new (some i) s = (i, false)

abbrev pub empty_call : Text → ChatToolCallState
empty_call id = record { id = id; item_id = []; name = []; output_index = none; arguments = [] }

abbrev pub added_call : Bool → ChatToolCallState → ChatCompletionState → ChatCompletionState
added_call true c s = record s { tool_calls = s.tool_calls ++ c ∷ [] }
added_call false c s = s

-- The maps under which call `i` is found again.
unfoldable pub indexed_call : Fields → ℕ → ℕ → ChatCompletionState → ChatCompletionState
unfolding string_from_map
indexed_call item output_index i s = record s {
  tool_index_by_item = inserted (string_from_map (text "id") item) i s.tool_index_by_item;
  tool_index_by_call = inserted (call_id_of item) i s.tool_index_by_call;
  tool_index_by_output = (output_index, i) ∷ s.tool_index_by_output;
  current_tool_index = some i;
}

unfoldable pub ensured : Fields → ℕ → ℕ × Bool → Step (ℕ × Bool)
unfolding edit_call described_call indexed_call
ensured item output_index p s =
    and_then (edit_call p.0 (described_call item output_index) s)
      (λ _ t. (ok p, indexed_call item output_index p.0 t))

-- ensureToolCall, of an output index from 0 on; `new_id` is the identifier call_<n> of a call without one.
unfoldable pub ensure_tool_call : (ℕ → Text) → Fields → ℕ → Step (ℕ × Bool)
unfolding lookup_tool_call_index find_at ensured
ensure_tool_call new_id item output_index s =
    let found =
      or_else (lookup_tool_call_index item s) (find_at output_index s.tool_index_by_output) in
    let p = found_or_new found s in
    ensured item output_index p (added_call p.1 (empty_call (new_id p.0)) s)

abbrev pub output_conflict : ChatStreamFailure
output_conflict = protocol_failure (text "output_conflict")

-- reconcileTextSnapshot: the text that the snapshot adds.
unfoldable pub reconcile_text_snapshot : Text → Bool → Step Text
unfolding has_prefix
reconcile_text_snapshot snapshot streaming s =
    if has_prefix s.content snapshot
    then (let suffix = drop (length s.content) snapshot in
        (ok suffix, record s { content = s.content ++ suffix }))
    else if streaming
    then (err output_conflict, s)
    else (ok [], record s { content = snapshot })

abbrev pub with_arguments : Text → ChatToolCallState → ChatToolCallState
with_arguments arguments c = record c { arguments = arguments }

unfoldable pub set_arguments : ℕ → Text → Step (Unit {0})
unfolding edit_call
set_arguments i arguments = edit_call i (with_arguments arguments)

unfoldable pub reconciled_arguments : ℕ → Text → Bool → Option ChatToolCallState → Step Text
unfolding has_prefix set_arguments
reconciled_arguments i full streaming none s = (err index_out_of_range, s)
reconciled_arguments i full streaming (some c) s =
    if has_prefix c.arguments full
    then (let suffix = drop (length c.arguments) full in
        and_then (set_arguments i (c.arguments ++ suffix) s) (λ _. return suffix))
    else if streaming
    then (err output_conflict, s)
    else and_then (set_arguments i full s) (λ _. return [])

-- reconcileToolArguments
unfoldable pub reconcile_tool_arguments : ℕ → Text → Bool → Step Text
unfolding reconciled_arguments call_at
reconcile_tool_arguments i full streaming s =
    reconciled_arguments i full streaming (call_at i s.tool_calls) s
