-- ===== src/Chat/Stream/Sent.antt =====
-- The text that a streamed chat completion sends (internal/codexonly/chat_completions.go) against the text
-- that the state collects.
use codex_oauth_proxy.Chat.Apply.{apply_responses_event}
use codex_oauth_proxy.Chat.Terminal.{final_finish_reason}
use codex_oauth_proxy.Chat.Completion.{ChatStreamFailure, protocol_failure, ChatCompletionState}
use codex_oauth_proxy.Chat.Content.{Gives, Adds}
use codex_oauth_proxy.Chat.Content.Events.{apply_responses_event-Gives}
use codex_oauth_proxy.Chat.Events.{ChatStreamUpdate, ToolDelta}
use codex_oauth_proxy.Chat.Json.{Json, Fields}
use codex_oauth_proxy.Chat.Stops.{
  ChatStopFilter, new_chat_stop_filter, flush, streamed, joined, IsUnambiguous,
  truncate_at_stop_sequence,
}
use codex_oauth_proxy.Chat.Stops.Filter.{streamed-truncate_at_stop_sequence}
use codex_oauth_proxy.Chat.Stream.{
  ChatChunk, role_chunk, content_chunk, tool_chunk, finish_chunk, usage_chunk, error_chunk,
  done_chunk, ChatAnswer, proxy_error, upstream_failure, success, ChatStream, content_chunks,
  tool_chunks, tools_unless, filtered_delta, emit_update, after_chunks, on_event, broken,
  last_chunks, complete, end_stream, stream_events, prepared, stream_chat_completion,
}
use codex_oauth_proxy.Prelude.{
  ℕ, Bool, true, false, ◌||◌, if◌then◌else◌, List, [], ◌∷◌, ◌++◌, Option, none, some, Text, text,
  Result, ok, err, ◌≡◌, refl, sym, ap, ◌∙◌,
}
use mathlib.Core.List.{append_assoc, append-nil}
use mathlib.Core.Path.{subst}

-- The text that a client puts together from the chunks.
unfoldable pub content_of : List ChatChunk → Text
content_of [] = []
content_of (content_chunk delta ∷ chunks) = delta ++ content_of chunks
content_of (c ∷ chunks) = content_of chunks

content_of-append :
    (cs ds : List ChatChunk) → content_of (cs ++ ds) ≡ content_of cs ++ content_of ds
unfolding content_of
content_of-append [] ds = refl
content_of-append (role_chunk ∷ cs) ds = content_of-append cs ds
content_of-append (content_chunk t ∷ cs) ds =
    ap (λ x. t ++ x) (content_of-append cs ds)
    ∙ sym (append_assoc t (content_of cs) (content_of ds))
content_of-append (tool_chunk d ∷ cs) ds = content_of-append cs ds
content_of-append (finish_chunk r ∷ cs) ds = content_of-append cs ds
content_of-append (usage_chunk u ∷ cs) ds = content_of-append cs ds
content_of-append (error_chunk e ∷ cs) ds = content_of-append cs ds
content_of-append (done_chunk ∷ cs) ds = content_of-append cs ds

content_of-content_chunks : (t : Text) → content_of (content_chunks t) ≡ t
unfolding content_of
content_of-content_chunks [] = refl
content_of-content_chunks (a ∷ t) = append-nil (a ∷ t)

content_of-tool_chunks : (ds : List ToolDelta) → content_of (tool_chunks ds) ≡ []
unfolding content_of
content_of-tool_chunks [] = refl
content_of-tool_chunks (d ∷ ds) = content_of-tool_chunks ds

content_of-tools_unless : (b : Bool) (u : ChatStreamUpdate) → content_of (tools_unless b u) ≡ []
unfolding content_of
content_of-tools_unless true u = refl
content_of-tools_unless false u = content_of-tool_chunks u.tool_deltas

-- Some deltas, which make up the text added to `c`, pass the filter `f` to give the text `sent`.
abbrev Filtered : ChatStopFilter → Text → Text → Text → Type 0
Filtered f c sent c' =
    (deltas : List Text) × ((sent ≡ (streamed f deltas).0) × (c' ≡ c ++ joined deltas))

-- What is sent and held back of a stream whose events all apply.
unfoldable Follows : ChatStopFilter → Text → Option ChatStreamFailure → ChatStream → Type 0
Follows f c none r = Filtered f c (content_of r.chunks ++ (flush r.filter).0) r.state.content
Follows f c (some e) r = Unit

filtered_delta-streamed :
    (delta : Text) (f : ChatStopFilter) (deltas : List Text)
    → (all : List Text) × (((streamed f all).0
          ≡ (filtered_delta delta f).0.0 ++ (streamed (filtered_delta delta f).1 deltas).0)
        × (joined all ≡ delta ++ joined deltas))
unfolding filtered_delta streamed
filtered_delta-streamed [] f deltas = (deltas, (refl, refl))
filtered_delta-streamed (a ∷ delta) f deltas = ((a ∷ delta) ∷ deltas, (refl, refl))

-- Chunks in front of a stream, with the text that they add.
after_chunks-Follows :
    (cs : List ChatChunk) (r : ChatStream) (o : Option ChatStreamFailure) (f g : ChatStopFilter)
    (c d : Text)
    → ((sent c' : Text) → Filtered g d sent c' → Filtered f c (content_of cs ++ sent) c')
    → Follows g d o r
    → Follows f c o (after_chunks cs r)
unfolding Follows
after_chunks-Follows cs r (some e) f g c d k h = tt
after_chunks-Follows cs r none f g c d k h =
    subst (λ t. Filtered f c t r.state.content)
      (sym (append_assoc (content_of cs) (content_of r.chunks) (flush r.filter).0)
        ∙ ap (λ t. t ++ (flush r.filter).0) (sym (content_of-append cs r.chunks)))
      (k _ r.state.content h)

emit_update-content_of :
    (u : ChatStreamUpdate) (f : ChatStopFilter) (s : ChatCompletionState)
    → content_of (emit_update u f s).0 ≡ (filtered_delta u.content_delta f).0.0
unfolding emit_update
emit_update-content_of u f s =
    let out = filtered_delta u.content_delta f in
    content_of-append (content_chunks out.0.0) (tools_unless (s.stopped || out.0.1) u)
    ∙ ap (λ t. content_of (content_chunks out.0.0) ++ t)
        (content_of-tools_unless (s.stopped || out.0.1) u)
    ∙ append-nil (content_of (content_chunks out.0.0))
    ∙ content_of-content_chunks out.0.0

on_event-Follows :
    (x : Result ChatStreamFailure ChatStreamUpdate × ChatCompletionState) (f : ChatStopFilter)
    (c : Text) (rest : ChatStopFilter → ChatCompletionState → ChatStream)
    → Gives (Adds c) x
    → ((g : ChatStopFilter) (t : ChatCompletionState)
        → Follows g t.content (rest g t).failure (rest g t))
    → Follows f c (on_event x f rest).failure (on_event x f rest)
unfolding on_event Gives Follows emit_update
on_event-Follows (err e, s) f c rest h k = tt
on_event-Follows (ok u, s) f c rest h k =
    let p = emit_update u f s in
    after_chunks-Follows p.0 (rest p.1.0 p.1.1) _ f p.1.0 c p.1.1.content
      (λ sent c' q.
        let all = filtered_delta-streamed u.content_delta f q.0 in
        (
          all.0,
          (
            ap (λ t. t ++ sent) (emit_update-content_of u f s)
                ∙ ap (λ t. (filtered_delta u.content_delta f).0.0 ++ t) q.1.0
                ∙ sym all.1.0,
            q.1.1
                ∙ ap (λ t. t ++ joined q.0) h
                ∙ append_assoc c u.content_delta (joined q.0)
                ∙ ap (λ t. c ++ t) (sym all.1.1),
          ),
        ))
      (k p.1.0 p.1.1)

-- What the answer promises of the text that it sends, when it is complete.
unfoldable Sends : List Text → ChatAnswer × ChatCompletionState → Type 0
Sends stops (success chunks, s) = content_of chunks ≡ (truncate_at_stop_sequence s.content stops).0
Sends stops (upstream_failure chunks, s) = Unit
Sends stops (proxy_error e, s) = Unit

-- The last chunks send what the filter held back.
complete-content_of :
    (include_usage : Bool) (usage : Option Json) (reason held : Text) (chunks : List ChatChunk)
    → content_of (
        (role_chunk ∷ chunks)
        ++ (content_chunks held ++ finish_chunk reason ∷ last_chunks include_usage usage))
      ≡ content_of chunks ++ held
unfolding content_of
complete-content_of include_usage usage reason held chunks =
    content_of-append chunks _
    ∙ ap (λ t. content_of chunks ++ t)
        (content_of-append (content_chunks held) _
          ∙ ap (λ t. content_of (content_chunks held) ++ t) (tail include_usage)
          ∙ append-nil (content_of (content_chunks held))
          ∙ content_of-content_chunks held)
  where
    tail : (b : Bool) → content_of (last_chunks b usage) ≡ []
    tail true = refl
    tail false = refl

-- A complete stream from an empty text.
complete-Sends :
    (stops : List Text) (sent c : Text)
    → IsUnambiguous stops stops
    → Filtered (new_chat_stop_filter stops) [] sent c
    → sent ≡ (truncate_at_stop_sequence c stops).0
complete-Sends stops sent c h (deltas, (p, q)) =
    p
    ∙ ap (λ a. a.0) (streamed-truncate_at_stop_sequence stops deltas h)
    ∙ ap (λ t. (truncate_at_stop_sequence t stops).0) (sym q)

module _ (stops : List Text) (unambiguous : IsUnambiguous stops stops)
    (read_failed include_usage : Bool) where
  either-Sends :
      (b : Bool) (x y : ChatAnswer × ChatCompletionState)
      → Sends stops x
      → Sends stops y
      → Sends stops (if b then x else y)
  either-Sends true x y h k = h
  either-Sends false x y h k = k

  end_stream-Sends :
      (o : Option ChatStreamFailure) (r : ChatStream)
      → Follows (new_chat_stop_filter stops) [] o r
      → Sends stops (end_stream read_failed include_usage o r)
  unfolding end_stream complete Sends Follows
  end_stream-Sends (some e) r h = tt
  end_stream-Sends none r h =
      either-Sends r.state.terminal (complete include_usage r) _
        (complete-content_of include_usage r.state.usage (final_finish_reason r.state)
            (flush r.filter).0 r.chunks
          ∙ complete-Sends stops _ r.state.content unambiguous h)
        (either-Sends read_failed (broken none r)
          (broken (some (protocol_failure (text "incomplete_stream"))) r) tt tt)

  module _ (new_id : ℕ → Text) (counts : Json → Bool) where
    stream_events-Follows :
        (events : List (Text × Fields)) (f : ChatStopFilter) (s : ChatCompletionState)
        → Follows f s.content
            (stream_events new_id counts events f s).failure
            (stream_events new_id counts events f s)
    unfolding stream_events Follows streamed content_of
    stream_events-Follows [] f s = ([], (refl, sym (append-nil s.content)))
    stream_events-Follows ((event_type, payload) ∷ events) f s =
        on_event-Follows (apply_responses_event new_id counts event_type payload true s) f s.content
          (λ g t. stream_events new_id counts events g t)
          (apply_responses_event-Gives new_id counts event_type payload s)
          (stream_events-Follows events)

    prepared-Sends :
        (events : List (Text × Fields))
        (x : Result ChatStreamFailure ChatStreamUpdate × ChatCompletionState)
        → Gives (Adds []) x
        → Sends stops
            (prepared new_id counts events (new_chat_stop_filter stops) read_failed include_usage x)
    unfolding prepared Sends
    prepared-Sends events (err e, s) h = tt
    prepared-Sends events (ok u, s) h = end_stream-Sends _ _ (
        on_event-Follows (ok u, s) (new_chat_stop_filter stops) []
          (stream_events new_id counts events) h (stream_events-Follows events))

    stream_chat_completion-Sends :
        (first : Option (Text × Fields)) (events : List (Text × Fields)) (s : ChatCompletionState)
        → s.content ≡ []
        → Sends stops
            (stream_chat_completion new_id counts stops first events read_failed include_usage s)
    unfolding stream_chat_completion
    stream_chat_completion-Sends none events s h = end_stream-Sends _ _ (
        subst
          (λ c.
            let r = stream_events new_id counts events (new_chat_stop_filter stops) s in
            Follows (new_chat_stop_filter stops) c r.failure r)
          h (stream_events-Follows events (new_chat_stop_filter stops) s))
    stream_chat_completion-Sends (some (event_type, payload)) events s h =
        prepared-Sends events (apply_responses_event new_id counts event_type payload true s) (
          subst
            (λ c. Gives (Adds c) (apply_responses_event new_id counts event_type payload true s)) h
            (apply_responses_event-Gives new_id counts event_type payload s))

    -- A stream that starts from an empty text and is recorded as a success has sent the client the text that
    -- the state collected, up to the first stop sequence, where no stop sequence stands inside another.
    pub stream_chat_completion-content_of :
        (first : Option (Text × Fields)) (events : List (Text × Fields)) (s t : ChatCompletionState)
        (chunks : List ChatChunk)
        → s.content ≡ []
        → stream_chat_completion new_id counts stops first events read_failed include_usage s
          ≡ (success chunks, t)
        → content_of chunks ≡ (truncate_at_stop_sequence t.content stops).0
    unfolding Sends
    stream_chat_completion-content_of first events s t chunks h e =
        subst (Sends stops) e (stream_chat_completion-Sends first events s h)
