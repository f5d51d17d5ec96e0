-- ===== src/Chat/Calls/Steps/Events.antt =====
-- Every event keeps the indices of the tool calls in range (internal/codexonly/chat_completions.go).
use codex_oauth_proxy.Chat.Apply.{
  argument_added, apply_terminal_response, closed, created_event, text_delta_event, text_done_event,
  item_added_event, item_done_event, arguments_delta_event, arguments_done_event, terminal_event,
  failed_event, apply_event, apply_responses_event,
}
use codex_oauth_proxy.Chat.Terminal.{reconcile_terminal_output, finished}
use codex_oauth_proxy.Chat.Calls.{
  IsIndexed, Below, call_at-some, InRange, ensure_tool_call-Ensures, tool_index_for_payload-Below,
}
use codex_oauth_proxy.Chat.Completion.{
  ChatCompletionState, ensure_tool_call, output_index_for_event, tool_index_for_payload,
}
use codex_oauth_proxy.Chat.Events.{
  arguments_delta, arguments_delta, no_update, content_update, tool_update, initial_tool_call_delta,
  arguments_update, reconcile_streaming_output_item, type_of, apply_response_metadata,
  apply_response_usage,
}
use codex_oauth_proxy.Chat.Json.{Json, Fields, as_object, as_string, value_of}
use codex_oauth_proxy.Prelude.{
  ℕ, sym, Bool, true, false, not, [], ◌∷◌, Option, none, some, Text, text, text_eq, length, ◌>>=◌,
  return,
}
use mathlib.Core.Path.{subst}
use codex_oauth_proxy.Chat.Calls.Steps.{
  Keeps, and_then-Keeps, map-Keeps, either-Keeps, branch-Keeps, ok-Keeps, protocol-Keeps,
  event-Keeps, set_arguments-Keeps, bind-Keeps, reconcile_text_snapshot-Keeps,
  reconcile_tool_arguments-Keeps, initial_tool_call_delta-Keeps, output_index_for_event-Keeps,
  reconcile_streaming_output_item-Keeps, reconcile_terminal_output-Keeps,
  apply_response_usage-IsIndexed, apply_response_metadata-IsIndexed,
}

module _ (new_id : ℕ → Text) (counts : Json → Bool) where
  described-IsIndexed :
      (response : Fields) (s : ChatCompletionState)
      → IsIndexed s
      → IsIndexed (apply_response_usage counts response (apply_response_metadata response s))
  described-IsIndexed response s h =
      apply_response_usage-IsIndexed counts response _
        (apply_response_metadata-IsIndexed response s h)

  terminal_event-Keeps :
      (o : Option Fields) (incomplete streaming : Bool) (s : ChatCompletionState)
      → IsIndexed s
      → Keeps (terminal_event new_id counts o incomplete streaming s)
  unfolding terminal_event apply_terminal_response closed finished IsIndexed
  terminal_event-Keeps none incomplete streaming s h = protocol-Keeps _ _ s h
  terminal_event-Keeps (some response) incomplete streaming s h =
      let t = apply_response_usage counts response (apply_response_metadata response s) in
      and_then-Keeps (apply_terminal_response new_id counts response incomplete streaming s)
        (closed new_id counts)
        (and_then-Keeps (reconcile_terminal_output new_id response streaming t)
          (finished response incomplete)
          (reconcile_terminal_output-Keeps new_id response streaming t
            (described-IsIndexed response s h))
          (λ update u k. ok-Keeps _ _ k))
        (λ update u k. ok-Keeps _ _ k)

  item_added_event-Keeps :
      (payload : Fields) (o : Option Fields) (s : ChatCompletionState)
      → IsIndexed s
      → Keeps (item_added_event new_id counts payload o s)
  unfolding item_added_event
  item_added_event-Keeps payload none s h = protocol-Keeps _ _ s h
  item_added_event-Keeps payload (some item) s h =
      branch-Keeps (not (text_eq (type_of item) (text "function_call"))) (return no_update) _ s
        (ok-Keeps _ s h)
        (and_then-Keeps (output_index_for_event payload item s) _
          (output_index_for_event-Keeps payload item s h)
          (λ o t g.
            bind-Keeps InRange (ensure_tool_call new_id item o t) _
              (ensure_tool_call-Ensures new_id item o t g)
              (λ p u l k.
                branch-Keeps p.1
                  (initial_tool_call_delta p.0 >>= (λ deltas. return (tool_update deltas)))
                  (return no_update) u
                  (map-Keeps (initial_tool_call_delta p.0 u) tool_update
                    (initial_tool_call_delta-Keeps p.0 u k l))
                  (ok-Keeps _ u l))))

  item_done_event-Keeps :
      (payload : Fields) (o : Option Fields) (streaming : Bool) (s : ChatCompletionState)
      → IsIndexed s
      → Keeps (item_done_event new_id counts payload o streaming s)
  unfolding item_done_event IsIndexed
  item_done_event-Keeps payload none streaming s h = protocol-Keeps _ _ s h
  item_done_event-Keeps payload (some item) streaming s h =
      and_then-Keeps (output_index_for_event payload item s) _
        (output_index_for_event-Keeps payload item s h)
        (λ o t g.
          let u = record t { output_items = (o, item) ∷ t.output_items } in
          branch-Keeps streaming (reconcile_streaming_output_item new_id item o) (return no_update)
            u (reconcile_streaming_output_item-Keeps new_id item o u g) (ok-Keeps _ u g))

  text_delta_event-Keeps :
      (o : Option Text) (s : ChatCompletionState)
      → IsIndexed s
      → Keeps (text_delta_event new_id counts o s)
  unfolding text_delta_event IsIndexed
  text_delta_event-Keeps none s h = protocol-Keeps _ _ s h
  text_delta_event-Keeps (some delta) s h = ok-Keeps _ _ h

  text_done_event-Keeps :
      (payload : Fields) (streaming : Bool) (s : ChatCompletionState)
      → IsIndexed s
      → Keeps (text_done_event new_id counts payload streaming s)
  unfolding text_done_event
  text_done_event-Keeps payload streaming s h =
      map-Keeps _ content_update (reconcile_text_snapshot-Keeps _ streaming s h)

  arguments_delta_event-Keeps :
      (i : Option ℕ) (o : Option Text) (s : ChatCompletionState)
      → Below (length s.tool_calls) i
      → IsIndexed s
      → Keeps (arguments_delta_event new_id counts i o s)
  unfolding arguments_delta_event argument_added Below
  arguments_delta_event-Keeps none o s k h = protocol-Keeps _ _ s h
  arguments_delta_event-Keeps (some i) none s k h = protocol-Keeps _ _ s h
  arguments_delta_event-Keeps (some i) (some delta) s k h =
      let c = call_at-some i s.tool_calls k in
      subst (λ o. Keeps (argument_added i delta o s)) (sym c.1)
        (set_arguments-Keeps i _ (tool_update (arguments_delta i delta ∷ [])) s k h)

  arguments_done_event-Keeps :
      (i : Option ℕ) (o : Option Text) (streaming : Bool) (s : ChatCompletionState)
      → Below (length s.tool_calls) i
      → IsIndexed s
      → Keeps (arguments_done_event new_id counts i o streaming s)
  unfolding arguments_done_event Below
  arguments_done_event-Keeps none none streaming s k h = protocol-Keeps _ _ s h
  arguments_done_event-Keeps none (some full) streaming s k h = protocol-Keeps _ _ s h
  arguments_done_event-Keeps (some i) none streaming s k h = protocol-Keeps _ _ s h
  arguments_done_event-Keeps (some i) (some full) streaming s k h =
      map-Keeps _ (λ d. tool_update (arguments_update i d))
        (reconcile_tool_arguments-Keeps i full streaming s k h)

  created_event-Keeps :
      (o : Option Fields) (s : ChatCompletionState)
      → IsIndexed s
      → Keeps (created_event new_id counts o s)
  unfolding created_event
  created_event-Keeps none s h = protocol-Keeps _ _ s h
  created_event-Keeps (some response) s h =
      ok-Keeps _ _ (apply_response_metadata-IsIndexed response s h)

  failed_event-Keeps :
      (payload : Fields) (t : Text) (o : Option Fields) (s : ChatCompletionState)
      → IsIndexed s
      → Keeps (failed_event new_id counts payload t o s)
  unfolding failed_event
  failed_event-Keeps payload t none s h = event-Keeps _ payload t s h
  failed_event-Keeps payload t (some response) s h =
      event-Keeps _ payload t _ (described-IsIndexed response s h)

  apply_event-Keeps :
      (event_type : Text) (payload : Fields) (streaming : Bool) (s : ChatCompletionState)
      → IsIndexed s
      → Keeps (apply_event new_id counts event_type payload streaming s)
  unfolding apply_event
  apply_event-Keeps event_type payload streaming s h =
      let is = λ (t : Text). text_eq event_type t in
      let response = as_object (value_of (text "response") payload) in
      let entry = as_object (value_of (text "item") payload) in
      let delta = as_string (value_of (text "delta") payload) in
      let full = as_string (value_of (text "arguments") payload) in
      let index = tool_index_for_payload payload s in
      let below = tool_index_for_payload-Below payload s h in
      either-Keeps (is (text "response.created")) _ _ (created_event-Keeps response s h) (
        either-Keeps (is (text "response.output_text.delta")) _ _ (text_delta_event-Keeps delta s h)
          (either-Keeps (is (text "response.output_text.done")) _ _
            (text_done_event-Keeps payload streaming s h)
            (either-Keeps (is (text "response.output_item.added")) _ _
              (item_added_event-Keeps payload entry s h)
              (either-Keeps (is (text "response.output_item.done")) _ _
                (item_done_event-Keeps payload entry streaming s h)
                (either-Keeps (is (text "response.function_call_arguments.delta")) _ _
                  (arguments_delta_event-Keeps index delta s below h)
                  (either-Keeps (is (text "response.function_call_arguments.done")) _ _
                    (arguments_done_event-Keeps index full streaming s below h)
                    (either-Keeps (is (text "response.completed")) _ _
                      (terminal_event-Keeps response false streaming s h)
                      (either-Keeps (is (text "response.incomplete")) _ _
                        (terminal_event-Keeps response true streaming s h)
                        (either-Keeps (is (text "response.failed")) _ _
                          (failed_event-Keeps payload event_type response s h)
                          (either-Keeps (is (text "error")) _ _
                            (event-Keeps _ payload event_type s h)
                            (ok-Keeps no_update s h)))))))))))

  -- If every index in the maps of tool calls is below the number of calls, then an event, streaming or not, finds
  -- no index out of range and leaves the indices below the number of calls.
  pub apply_responses_event-Keeps :
      (event_type : Text) (payload : Fields) (streaming : Bool) (s : ChatCompletionState)
      → IsIndexed s
      → Keeps (apply_responses_event new_id counts event_type payload streaming s)
  unfolding apply_responses_event
  apply_responses_event-Keeps event_type payload streaming s h =
      either-Keeps s.terminal _ _ (protocol-Keeps _ _ s h)
        (apply_event-Keeps event_type payload streaming s h)
