-- ===== src/Chat/Content.antt =====
-- The text that a step adds (internal/codexonly/chat_completions.go): the delta of an update and the text of the
-- state, through the operations that events are made of.
use codex_oauth_proxy.Chat.Apply.{
  apply_terminal_response, closed, created_event, text_delta_event, text_done_event,
  item_added_event, item_done_event, arguments_delta_event, arguments_done_event, terminal_event,
  failed_event, apply_event, apply_responses_event,
}
use codex_oauth_proxy.Chat.Terminal.{
  stream_tools, stream_text, stream_output, reconcile_terminal_output, finished, mentions,
  terminal_update, final_index,
}
use codex_oauth_proxy.Chat.Completion.{
  wrote, edit_call, with_arguments, added_call, ensured, indexed_call, found_or_new, or_else,
  empty_call, described_call, output_index_at, output_index_or_next, with_call, ChatStreamFailure,
  protocol_failure, event_failure, index_out_of_range, ChatCompletionState, ChatToolCallState, Step,
  ensure_tool_call, lookup_tool_call_index, find_at, output_index_for_event,
  reconcile_text_snapshot, reconcile_tool_arguments, reconciled_arguments, call_at, set_arguments,
  tool_index_for_payload, next_output, known_output_index, output_index_of,
}
use codex_oauth_proxy.Chat.Events.{
  ChatStreamUpdate, ToolDelta, arguments_delta, no_update, content_update, tool_update, malformed,
  change, described_delta, initial_tool_call_delta, arguments_update, reconcile_tool_snapshot,
  reconcile_streaming_output_item, output_text_from_message, type_of, apply_response_metadata,
  apply_response_usage, resolved_response_output, resolve_or_fail, items_of_type, message_text,
}
use codex_oauth_proxy.Chat.Json.{Json, Fields, as_object, as_string, value_of, raw_string_from_map}
use codex_oauth_proxy.Chat.Stops.{
  has_prefix, joined, IsUnambiguous, streamed, new_chat_stop_filter, truncate_at_stop_sequence,
}
use codex_oauth_proxy.Chat.Stops.Filter.{streamed-truncate_at_stop_sequence}
use codex_oauth_proxy.Prelude.{
  drop, ◌>>◌, ℕ, ◌+◌, ◌==◌, ◌≡◌, refl, sym, ap, ◌∙◌, arith, Bool, true, false, not, ◌&&◌,
  if◌then◌else◌, List, [], ◌∷◌, ◌++◌, Option, none, some, Text, text, text_eq, leb, is_empty,
  length, Result, ok, err, ◌>>=◌, and_then, return, fail,
}
use mathlib.Core.List.{append_assoc, append-nil}
use mathlib.Core.Path.{subst}
pub mod Events

-- A postcondition of the value and the text of a run that succeeds.
unfoldable pub Gives :
    {A : Type 0} → (A → Text → Type 0) → Result ChatStreamFailure A × ChatCompletionState → Type 0
Gives Q (ok a, s) = Q a s.content
Gives Q (err e, s) = Unit

module _ {A : Type 0} (Q : A → Text → Type 0) where
  and_then-Gives :
      {B : Type 0} (P : B → Text → Type 0) (x : Result ChatStreamFailure B × ChatCompletionState)
      (f : B → Step A)
      → Gives P x
      → ((b : B) (s : ChatCompletionState) → P b s.content → Gives Q (f b s))
      → Gives Q (and_then x f)
  unfolding Gives
  and_then-Gives P (ok b, s) f h k = k b s h
  and_then-Gives P (err e, s) f h k = tt

  ok-Gives : (a : A) (s : ChatCompletionState) → Q a s.content → Gives Q (ok a, s)
  unfolding Gives
  ok-Gives a s h = h

  err-Gives : (e : ChatStreamFailure) (s : ChatCompletionState) → Gives Q (err e, s)
  unfolding Gives
  err-Gives e s = tt

  map-Gives :
      {B : Type 0} (P : B → Text → Type 0) (x : Result ChatStreamFailure B × ChatCompletionState)
      (g : B → A)
      → Gives P x
      → ((b : B) (c : Text) → P b c → Q (g b) c)
      → Gives Q (and_then x (λ b. return (g b)))
  unfolding Gives
  map-Gives P (ok b, s) g h k = k b s.content h
  map-Gives P (err e, s) g h k = tt

  branch-Gives :
      (b : Bool) (m n : Step A) (s : ChatCompletionState)
      → Gives Q (m s)
      → Gives Q (n s)
      → Gives Q ((if b then m else n) s)
  branch-Gives true m n s h k = h
  branch-Gives false m n s h k = k

  either-Gives :
      (b : Bool) (x y : Result ChatStreamFailure A × ChatCompletionState)
      → Gives Q x
      → Gives Q y
      → Gives Q (if b then x else y)
  either-Gives true x y h k = h
  either-Gives false x y h k = k

-- The text is left as it is, or the value's delta is added to it.
abbrev Same : {A : Type 0} → Text → A → Text → Type 0
Same c a c' = c' ≡ c

abbrev pub Adds : Text → ChatStreamUpdate → Text → Type 0
Adds c u c' = c' ≡ c ++ u.content_delta

reconcile_text_snapshot-Gives :
    (t : Text) (s : ChatCompletionState)
    → Gives (λ d c'. c' ≡ s.content ++ d) (reconcile_text_snapshot t true s)
unfolding reconcile_text_snapshot
reconcile_text_snapshot-Gives t s =
    either-Gives _ (has_prefix s.content t) _ _ (ok-Gives _ _ _ refl) (err-Gives _ _ s)

wrote-Gives :
    (o : Option (List ChatToolCallState)) (s : ChatCompletionState)
    → Gives (Same s.content) (wrote o s)
wrote-Gives none s = err-Gives _ _ s
wrote-Gives (some calls) s = ok-Gives _ _ _ refl

set_arguments-Gives :
    (i : ℕ) (t : Text) (s : ChatCompletionState) → Gives (Same s.content) (set_arguments i t s)
unfolding set_arguments edit_call
set_arguments-Gives i t s = wrote-Gives (with_call i (with_arguments t) s.tool_calls) s

reconciled_arguments-Gives :
    (i : ℕ) (full : Text) (o : Option ChatToolCallState) (s : ChatCompletionState)
    → Gives (Same s.content) (reconciled_arguments i full true o s)
unfolding reconciled_arguments
reconciled_arguments-Gives i full none s = err-Gives _ _ s
reconciled_arguments-Gives i full (some c) s =
    either-Gives (Same s.content) (has_prefix c.arguments full) _ _
      (map-Gives (Same s.content) (Same s.content)
        (set_arguments i (c.arguments ++ drop (length c.arguments) full) s)
        (λ _. drop (length c.arguments) full) (set_arguments-Gives i _ s) (λ d u h. h))
      (err-Gives _ _ s)

described_delta-Gives :
    (i : ℕ) (o : Option ChatToolCallState) (s : ChatCompletionState)
    → Gives (Same s.content) (described_delta i o s)
described_delta-Gives i none s = err-Gives _ _ s
described_delta-Gives i (some c) s = ok-Gives _ _ s refl

-- From another state with the same text.
Same-Gives :
    {A : Type 0} {c d : Text} (x : Result ChatStreamFailure A × ChatCompletionState)
    → d ≡ c
    → Gives (Same d) x
    → Gives (Same c) x
Same-Gives x h k = subst (λ e. Gives (Same e) x) h k

added_call-content :
    (b : Bool) (c : ChatToolCallState) (s : ChatCompletionState)
    → (added_call b c s).content ≡ s.content
added_call-content true c s = refl
added_call-content false c s = refl

ensure_tool_call-Gives :
    (new_id : ℕ → Text) (item : Fields) (o : ℕ) (s : ChatCompletionState)
    → Gives (Same s.content) (ensure_tool_call new_id item o s)
unfolding ensure_tool_call ensured edit_call indexed_call
ensure_tool_call-Gives new_id item o s =
    let p =
      found_or_new (or_else (lookup_tool_call_index item s) (find_at o s.tool_index_by_output)) s in
    let t = added_call p.1 (empty_call (new_id p.0)) s in
    Same-Gives (ensured item o p t) (added_call-content p.1 (empty_call (new_id p.0)) s) (
      and_then-Gives (Same t.content) (Same t.content) (edit_call p.0 (described_call item o) t) _
        (wrote-Gives (with_call p.0 (described_call item o) t.tool_calls) t)
        (λ _ u h. ok-Gives (Same t.content) p _ h))

reconcile_tool_snapshot-Gives :
    (new_id : ℕ → Text) (item : Fields) (i : ℕ) (s : ChatCompletionState)
    → Gives (Same s.content) (reconcile_tool_snapshot new_id item i true s)
unfolding reconcile_tool_snapshot initial_tool_call_delta reconcile_tool_arguments
reconcile_tool_snapshot-Gives new_id item i s =
    let full = raw_string_from_map (text "arguments") item in
    and_then-Gives (Same s.content) (Same s.content) (ensure_tool_call new_id item i s) _
      (ensure_tool_call-Gives new_id item i s)
      (λ p t h.
        branch-Gives (Same s.content) p.1 (set_arguments p.0 full >> initial_tool_call_delta p.0)
          (reconcile_tool_arguments p.0 full true
            >>= (λ delta. return (arguments_update p.0 delta)))
          t
          (and_then-Gives (Same s.content) (Same t.content) (set_arguments p.0 full t) _
            (set_arguments-Gives p.0 full t)
            (λ _ u k.
              Same-Gives (initial_tool_call_delta p.0 u) (k ∙ h)
                (described_delta-Gives p.0 (call_at p.0 u.tool_calls) u)))
          (map-Gives (Same s.content) (Same t.content) (reconcile_tool_arguments p.0 full true t)
            (arguments_update p.0)
            (reconciled_arguments-Gives p.0 full (call_at p.0 t.tool_calls) t) (λ d c k. k ∙ h)))

next_output-Gives :
    (o : Option ℕ) (s : ChatCompletionState) → Gives (Same s.content) (next_output o s)
next_output-Gives none s = ok-Gives _ _ _ refl
next_output-Gives (some i) s = ok-Gives _ _ s refl

output_index_at-Gives :
    (o : Option ChatToolCallState) (s : ChatCompletionState)
    → Gives (Same s.content) (output_index_at o s)
output_index_at-Gives none s = err-Gives _ _ s
output_index_at-Gives (some c) s = ok-Gives _ _ s refl

known_output_index-Gives :
    (o : Option ℕ) (s : ChatCompletionState) → Gives (Same s.content) (known_output_index o s)
unfolding known_output_index
known_output_index-Gives none s = ok-Gives _ _ s refl
known_output_index-Gives (some i) s = output_index_at-Gives (call_at i s.tool_calls) s

output_index_or_next-Gives :
    (o : Option ℕ) (item : Fields) (s : ChatCompletionState)
    → Gives (Same s.content) (output_index_or_next o item s)
unfolding output_index_or_next
output_index_or_next-Gives (some i) item s = ok-Gives _ _ _ refl
output_index_or_next-Gives none item s =
    and_then-Gives (Same s.content) (Same s.content)
      (known_output_index (lookup_tool_call_index item s) s) next_output
      (known_output_index-Gives (lookup_tool_call_index item s) s)
      (λ o t h. Same-Gives (next_output o t) h (next_output-Gives o t))

output_index_for_event-Gives :
    (payload item : Fields) (s : ChatCompletionState)
    → Gives (Same s.content) (output_index_for_event payload item s)
unfolding output_index_for_event
output_index_for_event-Gives payload item s =
    output_index_or_next-Gives (output_index_of payload) item s

reconcile_streaming_output_item-Gives :
    (new_id : ℕ → Text) (item : Fields) (i : ℕ) (s : ChatCompletionState)
    → Gives (Adds s.content) (reconcile_streaming_output_item new_id item i s)
unfolding reconcile_streaming_output_item
reconcile_streaming_output_item-Gives new_id item i s =
    branch-Gives _ (text_eq (type_of item) (text "message")) _ _ s
      (map-Gives _ (λ d c'. c' ≡ s.content ++ d) _ content_update
        (reconcile_text_snapshot-Gives (output_text_from_message item) s) (λ d c h. h))
      (branch-Gives _ (text_eq (type_of item) (text "function_call")) _ _ s
        (map-Gives _ (Same s.content) _ tool_update (reconcile_tool_snapshot-Gives new_id item i s)
          (λ d c h. h ∙ sym (append-nil s.content)))
        (ok-Gives _ _ s (sym (append-nil s.content))))
