-- ===== src/Chat/Calls/Steps.antt =====
-- What an event is made of keeps the indices of the tool calls in range
-- (internal/codexonly/chat_completions.go).
use codex_oauth_proxy.Chat.Apply.{
  apply_terminal_response, closed, created_event, text_delta_event, text_done_event,
  item_added_event, item_done_event, arguments_delta_event, arguments_done_event, terminal_event,
  failed_event, apply_event, apply_responses_event,
}
use codex_oauth_proxy.Chat.Terminal.{
  reset_tool_calls, collect_tools, stream_tools, stream_text, stream_output, collect_output,
  reconcile_terminal_output, finished, mentions, final_index, incomplete_finish_reason, tool_reason,
  terminal_update,
}
use codex_oauth_proxy.Chat.Calls.{
  IsIndexed, Below, IsReported, Ensures, SameLength, InRange, edit_call-Ensures,
  ensure_tool_call-Ensures, call_at-some, lookup_tool_call_index-Below,
}
use codex_oauth_proxy.Chat.Completion.{
  output_index_at, output_index_or_next, ChatStreamFailure, protocol_failure, event_failure,
  event_failure, index_out_of_range, with_call, with_arguments, first_of, output_conflict,
  ChatCompletionState, ChatToolCallState, Step, ensure_tool_call, lookup_tool_call_index, find_at,
  output_index_for_event, reconcile_text_snapshot, reconcile_tool_arguments, reconciled_arguments,
  call_at, set_arguments, tool_index_for_payload, next_output, known_output_index, output_index_of,
}
use codex_oauth_proxy.Chat.Events.{
  arguments_delta, ChatStreamUpdate, ToolDelta, arguments_delta, no_update, content_update,
  tool_update, malformed, change, described_delta, initial_tool_call_delta, arguments_update,
  reconcile_tool_snapshot, reconcile_streaming_output_item, output_text_from_message, type_of,
  apply_response_metadata, apply_response_usage, resolved_response_output, resolve_or_fail,
  items_of_type, message_text,
}
use codex_oauth_proxy.Chat.Json.{
  Json, Fields, string_from_map, as_object, as_string, value_of, raw_string_from_map,
}
use codex_oauth_proxy.Chat.Stops.{has_prefix}
use codex_oauth_proxy.Prelude.{
  drop, ℕ, ◌<◌, ◌>>◌, ◌+◌, ◌==◌, ◌≡◌, refl, sym, ap, ◌∙◌, arith, Bool, true, false, not, ◌&&◌,
  if◌then◌else◌, List, [], ◌∷◌, ◌++◌, Option, none, some, Text, text, text_eq, leb, is_empty,
  length, Result, ok, err, ◌>>=◌, and_then, return, fail,
}
use mathlib.Core.List.{append_assoc, append-nil}
use mathlib.Core.Path.{subst}
pub mod Events

-- A run that ends with every index in range.
unfoldable pub Keeps : {A : Type 0} → Result ChatStreamFailure A × ChatCompletionState → Type 0
Keeps (ok a, s) = IsIndexed s
Keeps (err e, s) = IsReported e × IsIndexed s

and_then-Keeps :
    {A B : Type 0} (x : Result ChatStreamFailure B × ChatCompletionState) (f : B → Step A)
    → Keeps x
    → ((b : B) (s : ChatCompletionState) → IsIndexed s → Keeps (f b s))
    → Keeps (and_then x f)
unfolding Keeps
and_then-Keeps (ok b, s) f h k = k b s h
and_then-Keeps (err e, s) f h k = h

bind-Keeps :
    {A B : Type 0} (P : B → ChatCompletionState → Type 0)
    (x : Result ChatStreamFailure B × ChatCompletionState) (f : B → Step A)
    → Ensures P x
    → ((b : B) (s : ChatCompletionState) → IsIndexed s → P b s → Keeps (f b s))
    → Keeps (and_then x f)
unfolding Keeps Ensures
bind-Keeps P (ok b, s) f h k = k b s h.0 h.1
bind-Keeps P (err e, s) f h k = h

map-Keeps :
    {A B : Type 0} (x : Result ChatStreamFailure B × ChatCompletionState) (g : B → A)
    → Keeps x
    → Keeps (and_then x (λ b. return (g b)))
unfolding Keeps
map-Keeps (ok b, s) g h = h
map-Keeps (err e, s) g h = h

either-Keeps :
    {A : Type 0} (b : Bool) (x y : Result ChatStreamFailure A × ChatCompletionState)
    → Keeps x
    → Keeps y
    → Keeps (if b then x else y)
either-Keeps true x y h k = h
either-Keeps false x y h k = k

branch-Keeps :
    {A : Type 0} (b : Bool) (m n : Step A) (s : ChatCompletionState)
    → Keeps (m s)
    → Keeps (n s)
    → Keeps ((if b then m else n) s)
branch-Keeps true m n s h k = h
branch-Keeps false m n s h k = k

ok-Keeps : {A : Type 0} (a : A) (s : ChatCompletionState) → IsIndexed s → Keeps (ok a, s)
unfolding Keeps
ok-Keeps a s h = h

protocol-Keeps :
    (A : Type 0) (t : Text) (s : ChatCompletionState)
    → IsIndexed s
    → Keeps {A = A} (err (protocol_failure t), s)
unfolding Keeps IsReported
protocol-Keeps A t s h = (tt, h)

event-Keeps :
    (A : Type 0) (m : Fields) (t : Text) (s : ChatCompletionState)
    → IsIndexed s
    → Keeps {A = A} (err (event_failure m t), s)
unfolding Keeps IsReported
event-Keeps A m t s h = (tt, h)

set_arguments-Ensures :
    (i : ℕ) (t : Text) (s : ChatCompletionState)
    → i < length s.tool_calls
    → IsIndexed s
    → Ensures (SameLength (length s.tool_calls)) (set_arguments i t s)
unfolding set_arguments
set_arguments-Ensures i t s k h = edit_call-Ensures i (with_arguments t) s k h

-- A write of arguments, and what is returned after it.
set_arguments-Keeps :
    {A : Type 0} (i : ℕ) (t : Text) (a : A) (s : ChatCompletionState)
    → i < length s.tool_calls
    → IsIndexed s
    → Keeps (and_then (set_arguments i t s) (λ _. return a))
set_arguments-Keeps i t a s k h =
    bind-Keeps (SameLength (length s.tool_calls)) (set_arguments i t s) (λ _. return a)
      (set_arguments-Ensures i t s k h) (λ _ u g e. ok-Keeps a u g)

reconcile_text_snapshot-Keeps :
    (t : Text) (streaming : Bool) (s : ChatCompletionState)
    → IsIndexed s
    → Keeps (reconcile_text_snapshot t streaming s)
unfolding reconcile_text_snapshot IsIndexed
reconcile_text_snapshot-Keeps t streaming s h =
    either-Keeps (has_prefix s.content t) _ _ (ok-Keeps _ _ h)
      (either-Keeps streaming _ _ (protocol-Keeps _ _ s h) (ok-Keeps _ _ h))

reconcile_tool_arguments-Keeps :
    (i : ℕ) (full : Text) (streaming : Bool) (s : ChatCompletionState)
    → i < length s.tool_calls
    → IsIndexed s
    → Keeps (reconcile_tool_arguments i full streaming s)
unfolding reconcile_tool_arguments reconciled_arguments
reconcile_tool_arguments-Keeps i full streaming s k h =
    let c = call_at-some i s.tool_calls k in
    subst (λ o. Keeps (reconciled_arguments i full streaming o s)) (sym c.1)
      (either-Keeps (has_prefix c.0.arguments full) _ _
        (set_arguments-Keeps i _ (drop (length c.0.arguments) full) s k h)
        (either-Keeps streaming _ _ (protocol-Keeps _ _ s h) (set_arguments-Keeps i full [] s k h)))

initial_tool_call_delta-Keeps :
    (i : ℕ) (s : ChatCompletionState)
    → i < length s.tool_calls
    → IsIndexed s
    → Keeps (initial_tool_call_delta i s)
unfolding initial_tool_call_delta
initial_tool_call_delta-Keeps i s k h =
    let c = call_at-some i s.tool_calls k in
    subst (λ o. Keeps (described_delta i o s)) (sym c.1) (ok-Keeps _ s h)

reconcile_tool_snapshot-Keeps :
    (new_id : ℕ → Text) (item : Fields) (o : ℕ) (streaming : Bool) (s : ChatCompletionState)
    → IsIndexed s
    → Keeps (reconcile_tool_snapshot new_id item o streaming s)
unfolding reconcile_tool_snapshot
reconcile_tool_snapshot-Keeps new_id item o streaming s h =
    let full = raw_string_from_map (text "arguments") item in
    bind-Keeps InRange (ensure_tool_call new_id item o s) _
      (ensure_tool_call-Ensures new_id item o s h)
      (λ p t g k.
        branch-Keeps p.1 (set_arguments p.0 full >> initial_tool_call_delta p.0)
          (reconcile_tool_arguments p.0 full streaming
            >>= (λ delta. return (arguments_update p.0 delta)))
          t
          (bind-Keeps (SameLength (length t.tool_calls)) (set_arguments p.0 full t) _
            (set_arguments-Ensures p.0 full t k g)
            (λ _ u l e. initial_tool_call_delta-Keeps p.0 u (subst (λ n. p.0 < n) (sym e) k) l))
          (map-Keeps (reconcile_tool_arguments p.0 full streaming t) (arguments_update p.0)
            (reconcile_tool_arguments-Keeps p.0 full streaming t k g)))

known_output_index-Keeps :
    (o : Option ℕ) (s : ChatCompletionState)
    → Below (length s.tool_calls) o
    → IsIndexed s
    → Keeps (known_output_index o s)
unfolding known_output_index Below
known_output_index-Keeps none s b h = ok-Keeps _ s h
known_output_index-Keeps (some i) s b h =
    let c = call_at-some i s.tool_calls b in
    subst (λ o. Keeps (output_index_at o s)) (sym c.1) (ok-Keeps _ s h)

next_output-Keeps : (o : Option ℕ) (s : ChatCompletionState) → IsIndexed s → Keeps (next_output o s)
unfolding IsIndexed
next_output-Keeps none s h = ok-Keeps _ _ h
next_output-Keeps (some i) s h = ok-Keeps _ s h

output_index_or_next-Keeps :
    (o : Option ℕ) (item : Fields) (s : ChatCompletionState)
    → IsIndexed s
    → Keeps (output_index_or_next o item s)
unfolding output_index_or_next IsIndexed
output_index_or_next-Keeps (some i) item s h = ok-Keeps _ _ h
output_index_or_next-Keeps none item s h =
    and_then-Keeps (known_output_index (lookup_tool_call_index item s) s) next_output
      (known_output_index-Keeps (lookup_tool_call_index item s) s
        (lookup_tool_call_index-Below item s h) h)
      (λ o t g. next_output-Keeps o t g)

output_index_for_event-Keeps :
    (payload item : Fields) (s : ChatCompletionState)
    → IsIndexed s
    → Keeps (output_index_for_event payload item s)
unfolding output_index_for_event
output_index_for_event-Keeps payload item s h =
    output_index_or_next-Keeps (output_index_of payload) item s h

reconcile_streaming_output_item-Keeps :
    (new_id : ℕ → Text) (item : Fields) (o : ℕ) (s : ChatCompletionState)
    → IsIndexed s
    → Keeps (reconcile_streaming_output_item new_id item o s)
unfolding reconcile_streaming_output_item
reconcile_streaming_output_item-Keeps new_id item o s h =
    branch-Keeps (text_eq (type_of item) (text "message")) _ _ s
      (map-Keeps _ content_update
        (reconcile_text_snapshot-Keeps (output_text_from_message item) true s h))
      (branch-Keeps (text_eq (type_of item) (text "function_call")) _ _ s
        (map-Keeps _ tool_update (reconcile_tool_snapshot-Keeps new_id item o true s h))
        (ok-Keeps _ s h))

stream_text-Keeps :
    (messages : List (ℕ × Fields)) (s : ChatCompletionState)
    → IsIndexed s
    → Keeps (stream_text messages s)
unfolding stream_text
stream_text-Keeps [] s h =
    either-Keeps (is_empty s.content) _ _ (ok-Keeps _ s h) (protocol-Keeps _ _ s h)
stream_text-Keeps (m ∷ messages) s h =
    reconcile_text_snapshot-Keeps (message_text (m ∷ messages)) true s h

stream_tools-Keeps :
    (new_id : ℕ → Text) (items : List (ℕ × Fields)) (seen : List ℕ) (s : ChatCompletionState)
    → IsIndexed s
    → Keeps (stream_tools new_id seen items s)
unfolding stream_tools
stream_tools-Keeps new_id [] seen s h = ok-Keeps _ s h
stream_tools-Keeps new_id ((o, item) ∷ items) seen s h =
    and_then-Keeps _ _ (reconcile_tool_snapshot-Keeps new_id item o true s h)
      (λ d t k. map-Keeps _ (λ p. (d ++ p.0, p.1)) (stream_tools-Keeps new_id items _ t k))

stream_output-Keeps :
    (new_id : ℕ → Text) (messages tools : List (ℕ × Fields)) (s : ChatCompletionState)
    → IsIndexed s
    → Keeps (stream_output new_id messages tools s)
unfolding stream_output
stream_output-Keeps new_id messages tools s h =
    and_then-Keeps _ _ (stream_text-Keeps messages s h) (λ d t k.
      and_then-Keeps _ _ (stream_tools-Keeps new_id tools [] t k) (λ p u l.
        either-Keeps (length p.1 == length u.tool_calls) _ _ (ok-Keeps _ u l)
          (protocol-Keeps _ _ u l)))

collect_tools-Keeps :
    (new_id : ℕ → Text) (items : List (ℕ × Fields)) (s : ChatCompletionState)
    → IsIndexed s
    → Keeps (collect_tools new_id items s)
unfolding collect_tools
collect_tools-Keeps new_id [] s h = ok-Keeps _ s h
collect_tools-Keeps new_id ((o, item) ∷ items) s h =
    bind-Keeps InRange (ensure_tool_call new_id item o s) _
      (ensure_tool_call-Ensures new_id item o s h)
      (λ p t g k.
        bind-Keeps (SameLength (length t.tool_calls)) (set_arguments p.0 _ t) _
          (set_arguments-Ensures p.0 (raw_string_from_map (text "arguments") item) t k g)
          (λ _ u l e. collect_tools-Keeps new_id items u l))

collect_output-Keeps :
    (new_id : ℕ → Text) (messages tools : List (ℕ × Fields)) (s : ChatCompletionState)
    → Keeps (collect_output new_id messages tools s)
unfolding collect_output reset_tool_calls IsIndexed
collect_output-Keeps new_id messages tools s =
    and_then-Keeps
      (collect_tools new_id tools (record (reset_tool_calls s) { content = message_text messages }))
      _ (collect_tools-Keeps new_id tools _ (tt, (tt, tt))) (λ b t h. ok-Keeps _ t h)

resolve_or_fail-Keeps :
    (o : Option (List Fields)) (s : ChatCompletionState) → IsIndexed s → Keeps (resolve_or_fail o s)
resolve_or_fail-Keeps none s h = protocol-Keeps _ _ s h
resolve_or_fail-Keeps (some output) s h = ok-Keeps _ s h

reconcile_terminal_output-Keeps :
    (new_id : ℕ → Text) (response : Fields) (streaming : Bool) (s : ChatCompletionState)
    → IsIndexed s
    → Keeps (reconcile_terminal_output new_id response streaming s)
unfolding reconcile_terminal_output resolved_response_output
reconcile_terminal_output-Keeps new_id response streaming s h =
    and_then-Keeps (resolved_response_output response s)
      (λ items.
        let messages = items_of_type (text "message") items in
        let tools = items_of_type (text "function_call") items in
        if length messages == 0 && length tools == 0
        then return no_update
        else if streaming
        then stream_output new_id messages tools
        else collect_output new_id messages tools)
      (resolve_or_fail-Keeps _ s h)
      (λ items t k.
        let messages = items_of_type (text "message") items in
        let tools = items_of_type (text "function_call") items in
        branch-Keeps (length messages == 0 && length tools == 0) _ _ t (ok-Keeps _ t k) (
          branch-Keeps streaming (stream_output new_id messages tools)
            (collect_output new_id messages tools) t (stream_output-Keeps new_id messages tools t k)
            (collect_output-Keeps new_id messages tools t)))

apply_response_usage-IsIndexed :
    (counts : Json → Bool) (response : Fields) (s : ChatCompletionState)
    → IsIndexed s
    → IsIndexed (apply_response_usage counts response s)
unfolding apply_response_usage IsIndexed
apply_response_usage-IsIndexed counts response s h = go (counts (value_of (text "usage") response))
  where
    go :
        (b : Bool)
        → IsIndexed (if b then record s { usage = some (value_of (text "usage") response) } else s)
    go true = h
    go false = h

apply_response_metadata-IsIndexed :
    (response : Fields) (s : ChatCompletionState)
    → IsIndexed s
    → IsIndexed (apply_response_metadata response s)
unfolding apply_response_metadata IsIndexed
apply_response_metadata-IsIndexed response s h = h
