-- ===== src/Chat/Content/Events.antt =====
-- Each event adds its content delta to the text of a streamed chat completion
-- (internal/codexonly/chat_completions.go).
use codex_oauth_proxy.Chat.Apply.{
  argument_added, apply_terminal_response, closed, created_event, text_delta_event, text_done_event,
  item_added_event, item_done_event, arguments_delta_event, arguments_done_event, terminal_event,
  failed_event, apply_event, apply_responses_event,
}
use codex_oauth_proxy.Chat.Terminal.{
  stream_tools, stream_text, stream_output, reconcile_terminal_output, finished,
}
use codex_oauth_proxy.Chat.Completion.{
  ChatStreamFailure, event_failure, ChatCompletionState, ChatToolCallState, Step, ensure_tool_call,
  output_index_for_event, reconcile_tool_arguments, call_at, set_arguments, tool_index_for_payload,
}
use codex_oauth_proxy.Chat.Events.{
  ChatStreamUpdate, arguments_delta, no_update, content_update, tool_update,
  initial_tool_call_delta, arguments_update, type_of, apply_response_metadata, apply_response_usage,
  resolved_response_output, resolve_or_fail, items_of_type, message_text,
}
use codex_oauth_proxy.Chat.Json.{Json, Fields, as_object, as_string, value_of}
use codex_oauth_proxy.Prelude.{
  ℕ, ◌==◌, ◌≡◌, refl, sym, ◌∙◌, Bool, true, false, not, ◌&&◌, if◌then◌else◌, List, [], ◌∷◌, ◌++◌,
  Option, none, some, Text, text, text_eq, is_empty, length, Result, ok, ◌>>=◌, return,
}
use mathlib.Core.List.{append-nil}
use mathlib.Core.Path.{subst}
use codex_oauth_proxy.Chat.Content.{
  Gives, and_then-Gives, ok-Gives, err-Gives, map-Gives, branch-Gives, either-Gives, Same, Adds,
  reconcile_text_snapshot-Gives, reconciled_arguments-Gives, described_delta-Gives,
  reconcile_tool_snapshot-Gives, output_index_for_event-Gives, ensure_tool_call-Gives,
  set_arguments-Gives, reconcile_streaming_output_item-Gives,
}

stream_text-Gives :
    (messages : List (ℕ × Fields)) (s : ChatCompletionState)
    → Gives (λ d c'. c' ≡ s.content ++ d) (stream_text messages s)
unfolding stream_text
stream_text-Gives [] s =
    either-Gives _ (is_empty s.content) _ _ (ok-Gives _ _ s (sym (append-nil s.content)))
      (err-Gives _ _ s)
stream_text-Gives (m ∷ messages) s = reconcile_text_snapshot-Gives (message_text (m ∷ messages)) s

stream_tools-Gives :
    (new_id : ℕ → Text) (items : List (ℕ × Fields)) (seen : List ℕ) (s : ChatCompletionState)
    → Gives (Same s.content) (stream_tools new_id seen items s)
unfolding stream_tools
stream_tools-Gives new_id [] seen s = ok-Gives _ _ s refl
stream_tools-Gives new_id ((o, item) ∷ items) seen s =
    and_then-Gives (Same s.content) (Same s.content) _ _
      (reconcile_tool_snapshot-Gives new_id item o s)
      (λ d t h.
        map-Gives (Same s.content) (Same t.content) _ (λ p. (d ++ p.0, p.1))
          (stream_tools-Gives new_id items _ t) (λ p c k. k ∙ h))

stream_output-Gives :
    (new_id : ℕ → Text) (messages tools : List (ℕ × Fields)) (s : ChatCompletionState)
    → Gives (Adds s.content) (stream_output new_id messages tools s)
unfolding stream_output
stream_output-Gives new_id messages tools s =
    and_then-Gives _ (λ d c'. c' ≡ s.content ++ d) _ _ (stream_text-Gives messages s)
      (λ d t h.
        and_then-Gives _ (Same t.content) _ _ (stream_tools-Gives new_id tools [] t) (λ p u k.
          either-Gives _ (length p.1 == length u.tool_calls) _ _ (ok-Gives _ _ u (k ∙ h))
            (err-Gives _ _ u)))

resolve_or_fail-Gives :
    (o : Option (List Fields)) (s : ChatCompletionState)
    → Gives (Same s.content) (resolve_or_fail o s)
resolve_or_fail-Gives none s = err-Gives _ _ s
resolve_or_fail-Gives (some output) s = ok-Gives _ _ s refl

abbrev output_or_text : (ℕ → Text) → List (ℕ × Fields) → Step ChatStreamUpdate
unfolding stream_output items_of_type
output_or_text new_id items =
    let messages = items_of_type (text "message") items in
    let tools = items_of_type (text "function_call") items in
    if length messages == 0 && length tools == 0
    then return no_update
    else stream_output new_id messages tools

reconcile_terminal_output-Gives :
    (new_id : ℕ → Text) (response : Fields) (s : ChatCompletionState)
    → Gives (Adds s.content) (reconcile_terminal_output new_id response true s)
unfolding reconcile_terminal_output resolved_response_output
reconcile_terminal_output-Gives new_id response s =
    and_then-Gives (Adds s.content) (Same s.content) (resolved_response_output response s)
      (output_or_text new_id) (resolve_or_fail-Gives _ s)
      (λ items t h.
        let messages = items_of_type (text "message") items in
        let tools = items_of_type (text "function_call") items in
        branch-Gives (Adds s.content) (length messages == 0 && length tools == 0) (return no_update)
          (stream_output new_id messages tools) t
          (ok-Gives (Adds s.content) no_update t (h ∙ sym (append-nil s.content)))
          (subst (λ c. Gives (Adds c) (stream_output new_id messages tools t)) h
            (stream_output-Gives new_id messages tools t)))

-- A run that starts from another state with the same text.
from-Gives :
    {c c' : Text} (x : Result ChatStreamFailure ChatStreamUpdate × ChatCompletionState)
    → c' ≡ c
    → Gives (Adds c') x
    → Gives (Adds c) x
from-Gives x h k = subst (λ d. Gives (Adds d) x) h k

no_update-Gives :
    (c : Text) (s : ChatCompletionState) → s.content ≡ c → Gives (Adds c) (ok no_update, s)
no_update-Gives c s h = ok-Gives (Adds c) no_update s (h ∙ sym (append-nil c))

apply_response_usage-content :
    (counts : Json → Bool) (response : Fields) (s : ChatCompletionState)
    → (apply_response_usage counts response s).content ≡ s.content
unfolding apply_response_usage
apply_response_usage-content counts response s = go (counts (value_of (text "usage") response))
  where
    go :
        (b : Bool)
        → (if b then record s { usage = some (value_of (text "usage") response) } else s).content
          ≡ s.content
    go true = refl
    go false = refl

argument_added-Gives :
    (i : ℕ) (delta : Text) (o : Option ChatToolCallState) (s : ChatCompletionState)
    → Gives (Adds s.content) (argument_added i delta o s)
unfolding argument_added
argument_added-Gives i delta none s = err-Gives _ _ s
argument_added-Gives i delta (some c) s =
    map-Gives (Adds s.content) (Same s.content) (set_arguments i (c.arguments ++ delta) s)
      (λ _. tool_update (arguments_delta i delta ∷ [])) (set_arguments-Gives i _ s)
      (λ d u h. h ∙ sym (append-nil s.content))

module _ (new_id : ℕ → Text) (counts : Json → Bool) where
  terminal_event-Gives :
      (o : Option Fields) (incomplete : Bool) (s : ChatCompletionState)
      → Gives (Adds s.content) (terminal_event new_id counts o incomplete true s)
  unfolding terminal_event apply_terminal_response closed finished apply_response_metadata
  terminal_event-Gives none incomplete s = err-Gives _ _ s
  terminal_event-Gives (some response) incomplete s =
      let t = apply_response_usage counts response (apply_response_metadata response s) in
      let same =
        apply_response_usage-content counts response (apply_response_metadata response s) in
      and_then-Gives (Adds s.content) (Adds s.content)
        (apply_terminal_response new_id counts response incomplete true s) (closed new_id counts)
        (and_then-Gives (Adds s.content) (Adds s.content)
          (reconcile_terminal_output new_id response true t) (finished response incomplete)
          (from-Gives (reconcile_terminal_output new_id response true t) same
            (reconcile_terminal_output-Gives new_id response t))
          (λ update u h. ok-Gives (Adds s.content) _ _ h))
        (λ update u h. ok-Gives (Adds s.content) _ _ h)

  item_added_event-Gives :
      (payload : Fields) (o : Option Fields) (s : ChatCompletionState)
      → Gives (Adds s.content) (item_added_event new_id counts payload o s)
  unfolding item_added_event initial_tool_call_delta
  item_added_event-Gives payload none s = err-Gives _ _ s
  item_added_event-Gives payload (some item) s =
      branch-Gives (Adds s.content) (not (text_eq (type_of item) (text "function_call")))
        (return no_update) _ s (no_update-Gives s.content s refl)
        (and_then-Gives (Adds s.content) (Same s.content) (output_index_for_event payload item s) _
          (output_index_for_event-Gives payload item s)
          (λ o t h.
            and_then-Gives (Adds s.content) (Same t.content) (ensure_tool_call new_id item o t) _
              (ensure_tool_call-Gives new_id item o t)
              (λ p u k.
                branch-Gives (Adds s.content) p.1
                  (initial_tool_call_delta p.0 >>= (λ deltas. return (tool_update deltas)))
                  (return no_update) u
                  (map-Gives (Adds s.content) (Same u.content) (initial_tool_call_delta p.0 u)
                    tool_update (described_delta-Gives p.0 (call_at p.0 u.tool_calls) u)
                    (λ d c e. e ∙ k ∙ h ∙ sym (append-nil s.content)))
                  (no_update-Gives s.content u (k ∙ h)))))

  item_done_event-Gives :
      (payload : Fields) (o : Option Fields) (s : ChatCompletionState)
      → Gives (Adds s.content) (item_done_event new_id counts payload o true s)
  unfolding item_done_event
  item_done_event-Gives payload none s = err-Gives _ _ s
  item_done_event-Gives payload (some item) s =
      and_then-Gives (Adds s.content) (Same s.content) (output_index_for_event payload item s) _
        (output_index_for_event-Gives payload item s)
        (λ o t h. from-Gives _ h (reconcile_streaming_output_item-Gives new_id item o _))

  text_delta_event-Gives :
      (o : Option Text) (s : ChatCompletionState)
      → Gives (Adds s.content) (text_delta_event new_id counts o s)
  unfolding text_delta_event
  text_delta_event-Gives none s = err-Gives _ _ s
  text_delta_event-Gives (some delta) s = ok-Gives _ (content_update delta) _ refl

  text_done_event-Gives :
      (payload : Fields) (s : ChatCompletionState)
      → Gives (Adds s.content) (text_done_event new_id counts payload true s)
  unfolding text_done_event
  text_done_event-Gives payload s =
      map-Gives (Adds s.content) (λ d c'. c' ≡ s.content ++ d) _ content_update
        (reconcile_text_snapshot-Gives _ s) (λ d c h. h)

  arguments_delta_event-Gives :
      (i : Option ℕ) (o : Option Text) (s : ChatCompletionState)
      → Gives (Adds s.content) (arguments_delta_event new_id counts i o s)
  unfolding arguments_delta_event
  arguments_delta_event-Gives none o s = err-Gives _ _ s
  arguments_delta_event-Gives (some i) none s = err-Gives _ _ s
  arguments_delta_event-Gives (some i) (some delta) s =
      argument_added-Gives i delta (call_at i s.tool_calls) s

  arguments_done_event-Gives :
      (i : Option ℕ) (o : Option Text) (s : ChatCompletionState)
      → Gives (Adds s.content) (arguments_done_event new_id counts i o true s)
  unfolding arguments_done_event reconcile_tool_arguments
  arguments_done_event-Gives none o s = err-Gives _ _ s
  arguments_done_event-Gives (some i) none s = err-Gives _ _ s
  arguments_done_event-Gives (some i) (some full) s =
      map-Gives (Adds s.content) (Same s.content) _ (λ d. tool_update (arguments_update i d))
        (reconciled_arguments-Gives i full (call_at i s.tool_calls) s)
        (λ d c h. h ∙ sym (append-nil s.content))

  created_event-Gives :
      (o : Option Fields) (s : ChatCompletionState)
      → Gives (Adds s.content) (created_event new_id counts o s)
  unfolding created_event apply_response_metadata
  created_event-Gives none s = err-Gives _ _ s
  created_event-Gives (some response) s = ok-Gives (Adds s.content) _ _ (sym (append-nil s.content))

  failed_event-Gives :
      (payload : Fields) (t : Text) (o : Option Fields) (s : ChatCompletionState)
      → Gives (Adds s.content) (failed_event new_id counts payload t o s)
  unfolding failed_event
  failed_event-Gives payload t none s = err-Gives _ _ s
  failed_event-Gives payload t (some response) s = err-Gives _ _ _

  apply_event-Gives :
      (event_type : Text) (payload : Fields) (s : ChatCompletionState)
      → Gives (Adds s.content) (apply_event new_id counts event_type payload true s)
  unfolding apply_event
  apply_event-Gives event_type payload s =
      let Q = Adds s.content in
      let is = λ (t : Text). text_eq event_type t in
      let response = as_object (value_of (text "response") payload) in
      let entry = as_object (value_of (text "item") payload) in
      let delta = as_string (value_of (text "delta") payload) in
      let full = as_string (value_of (text "arguments") payload) in
      let index = tool_index_for_payload payload s in
      either-Gives Q (is (text "response.created")) _ _ (created_event-Gives response s) (
        either-Gives Q (is (text "response.output_text.delta")) _ _ (text_delta_event-Gives delta s)
          (either-Gives Q (is (text "response.output_text.done")) _ _
            (text_done_event-Gives payload s)
            (either-Gives Q (is (text "response.output_item.added")) _ _
              (item_added_event-Gives payload entry s)
              (either-Gives Q (is (text "response.output_item.done")) _ _
                (item_done_event-Gives payload entry s)
                (either-Gives Q (is (text "response.function_call_arguments.delta")) _ _
                  (arguments_delta_event-Gives index delta s)
                  (either-Gives Q (is (text "response.function_call_arguments.done")) _ _
                    (arguments_done_event-Gives index full s)
                    (either-Gives Q (is (text "response.completed")) _ _
                      (terminal_event-Gives response false s)
                      (either-Gives Q (is (text "response.incomplete")) _ _
                        (terminal_event-Gives response true s)
                        (either-Gives Q (is (text "response.failed")) _ _
                          (failed_event-Gives payload event_type response s)
                          (either-Gives Q (is (text "error")) _ _
                            (err-Gives Q (event_failure payload event_type) s)
                            (no_update-Gives s.content s refl)))))))))))

  pub apply_responses_event-Gives :
      (event_type : Text) (payload : Fields) (s : ChatCompletionState)
      → Gives (Adds s.content) (apply_responses_event new_id counts event_type payload true s)
  unfolding apply_responses_event
  apply_responses_event-Gives event_type payload s =
      either-Gives (Adds s.content) s.terminal _ _ (err-Gives _ _ s)
        (apply_event-Gives event_type payload s)
