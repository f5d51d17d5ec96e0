-- ===== src/Chat/Calls.antt =====
-- The tool calls of a chat completion (internal/codexonly/chat_completions.go): the maps that find them again
-- hold indices of calls that exist.
use codex_oauth_proxy.Chat.Completion.{
  ChatStreamFailure, protocol_failure, event_failure, index_out_of_range, Step, wrote, edit_call,
  in_front, added_call, indexed_call, ensured, ChatStreamFailure, protocol_failure, event_failure,
  index_out_of_range, ChatCompletionState, ChatToolCallState, Step, find_at, or_else, find_if_any,
  find_output, call_id_of, output_index_of, lookup_tool_call_index, current_if_any,
  tool_index_for_payload, call_at, with_call, described_call, inserted, found_or_new, empty_call,
  ensure_tool_call, next_output, known_output_index, output_index_for_event,
}
use codex_oauth_proxy.Chat.Json.{Json, Fields, string_from_map}
use codex_oauth_proxy.Prelude.{
  Result, ok, err, and_then, ℕ, zero, suc, ◌+◌, ◌==◌, ltb, leb, ◌<◌, ◌≤◌, ◌≡◌, refl, sym, ap, ◌∙◌,
  arith, Bool, true, false, if◌then◌else◌, List, [], ◌∷◌, ◌++◌, Option, none, some, Text, text,
  text_eq, is_empty, length, length-append, All, All-mono, Dict, lookup, insert, Result, ok, err,
}
use mathlib.Core.Path.{subst}
pub mod Steps

unfoldable pub Below : ℕ → Option ℕ → Type 0
Below n none = Unit
Below n (some i) = i < n

abbrev pub AllBelow : {K : Type 0} → ℕ → List (K × ℕ) → Type 0
AllBelow n m = All (λ e. e.1 < n) m

-- The maps with `n` tool calls.
abbrev pub Indexed : ℕ → Dict ℕ → Dict ℕ → List (ℕ × ℕ) → Type 0
Indexed n items calls outputs = AllBelow n items × (AllBelow n calls × AllBelow n outputs)

-- Every index in a map is below the number of tool calls.
unfoldable pub IsIndexed : ChatCompletionState → Type 0
IsIndexed s =
    Indexed (length s.tool_calls) s.tool_index_by_item s.tool_index_by_call s.tool_index_by_output

if-Below :
    (n : ℕ) (b : Bool) (o p : Option ℕ) → Below n o → Below n p → Below n (if b then o else p)
if-Below n true o p h k = h
if-Below n false o p h k = k

lookup-Below : (n : ℕ) (k : Text) (m : Dict ℕ) → AllBelow n m → Below n (lookup k m)
unfolding lookup Below
lookup-Below n k [] h = tt
lookup-Below n k ((j, i) ∷ m) h =
    if-Below n (text_eq j k) (some i) (lookup k m) h.0 (lookup-Below n k m h.1)

find_at-Below : (n k : ℕ) (m : List (ℕ × ℕ)) → AllBelow n m → Below n (find_at k m)
unfolding find_at Below
find_at-Below n k [] h = tt
find_at-Below n k ((j, i) ∷ m) h =
    if-Below n (j == k) (some i) (find_at k m) h.0 (find_at-Below n k m h.1)

or_else-Below : (n : ℕ) (o p : Option ℕ) → Below n o → Below n p → Below n (or_else o p)
unfolding Below
or_else-Below n none p h k = k
or_else-Below n (some i) p h k = h

find_if_any-Below : (n : ℕ) (k : Text) (m : Dict ℕ) → AllBelow n m → Below n (find_if_any k m)
unfolding Below
find_if_any-Below n k m h = if-Below n (is_empty k) none (lookup k m) tt (lookup-Below n k m h)

find_output-Below :
    (n : ℕ) (o : Option ℕ) (m : List (ℕ × ℕ)) → AllBelow n m → Below n (find_output o m)
unfolding Below
find_output-Below n none m h = tt
find_output-Below n (some k) m h = find_at-Below n k m h

lookup_tool_call_index-Below :
    (item : Fields) (s : ChatCompletionState)
    → IsIndexed s
    → Below (length s.tool_calls) (lookup_tool_call_index item s)
unfolding IsIndexed lookup_tool_call_index
lookup_tool_call_index-Below item s h =
    or_else-Below _ _ _ (find_if_any-Below _ (string_from_map (text "id") item) _ h.0) (
      or_else-Below _ _ _ (find_if_any-Below _ (call_id_of item) _ h.1.0)
        (find_output-Below _ (output_index_of item) _ h.1.1))

current_if_any-Below : (s : ChatCompletionState) → Below (length s.tool_calls) (current_if_any s)
unfolding Below
current_if_any-Below s = go s.current_tool_index
  where
    go :
        (o : Option ℕ)
        → Below (length s.tool_calls) (elim o as (λ x. Option ℕ) [
          | none ↦ none
          | some i ↦ if ltb i (length s.tool_calls) then some i else none
        ])
    go none = tt
    go (some i) = ground arith

tool_index_for_payload-Below :
    (payload : Fields) (s : ChatCompletionState)
    → IsIndexed s
    → Below (length s.tool_calls) (tool_index_for_payload payload s)
unfolding IsIndexed tool_index_for_payload
tool_index_for_payload-Below payload s h =
    or_else-Below _ _ _ (find_if_any-Below _ (string_from_map (text "item_id") payload) _ h.0) (
      or_else-Below _ _ _
        (find_if_any-Below _ (string_from_map (text "output_item_id") payload) _ h.0)
        (or_else-Below _ _ _ (find_if_any-Below _ (string_from_map (text "id") payload) _ h.0) (
          or_else-Below _ _ _
            (find_if_any-Below _ (string_from_map (text "call_id") payload) _ h.1.0)
            (or_else-Below _ _ _ (find_output-Below _ (output_index_of payload) _ h.1.1)
              (current_if_any-Below s)))))

-- A write to a call that exists.
in_front-some :
    (n : ℕ) (c : ChatToolCallState) (o : Option (List ChatToolCallState))
    → ((calls : List ChatToolCallState) × (o ≡ some calls) × (length calls ≡ n))
    → (calls : List ChatToolCallState) × (in_front c o ≡ some calls) × (length calls ≡ suc n)
in_front-some n c o (calls, e, same) = (c ∷ calls, ap (in_front c) e, omega (arith, same))

with_call-some :
    (i : ℕ) (f : ChatToolCallState → ChatToolCallState) (calls : List ChatToolCallState)
    → i < length calls
    → (written : List ChatToolCallState) × (with_call i f calls ≡ some written)
      × (length written ≡ length calls)
unfolding with_call
with_call-some i f [] h = ground arith
with_call-some zero f (c ∷ calls) h = (f c ∷ calls, refl, refl)
with_call-some (suc i) f (c ∷ calls) h =
    in_front-some (length calls) c (with_call i f calls) (with_call-some i f calls (omega arith))

call_at-some :
    (i : ℕ) (calls : List ChatToolCallState)
    → i < length calls
    → (c : ChatToolCallState) × (call_at i calls ≡ some c)
unfolding call_at
call_at-some i [] h = ground arith
call_at-some zero (c ∷ calls) h = (c, refl)
call_at-some (suc i) (c ∷ calls) h = call_at-some i calls (omega arith)

if-AllBelow :
    (n : ℕ) (b : Bool) (x y : Dict ℕ)
    → AllBelow n x
    → AllBelow n y
    → AllBelow n (if b then x else y)
if-AllBelow n true x y h k = h
if-AllBelow n false x y h k = k

insert-AllBelow :
    (n i : ℕ) (k : Text) (m : Dict ℕ) → i < n → AllBelow n m → AllBelow n (insert k i m)
unfolding insert
insert-AllBelow n i k [] h g = (h, tt)
insert-AllBelow n i k ((j, w) ∷ m) h g =
    if-AllBelow n (text_eq j k) ((k, i) ∷ m) ((j, w) ∷ insert k i m) (h, g.1)
      (g.0, insert-AllBelow n i k m h g.1)

inserted-AllBelow :
    (n i : ℕ) (k : Text) (m : Dict ℕ) → i < n → AllBelow n m → AllBelow n (inserted k i m)
inserted-AllBelow n i k m h g =
    if-AllBelow n (is_empty k) m (insert k i m) g (insert-AllBelow n i k m h g)

AllBelow-mono : {K : Type 0} (m : List (K × ℕ)) (n p : ℕ) → n ≤ p → AllBelow n m → AllBelow p m
AllBelow-mono m n p h g = All-mono (λ e. e.1 < n) (λ e. e.1 < p) (λ e k. omega arith) m g

-- The failures that the code reports: all but an index out of range.
unfoldable pub IsReported : ChatStreamFailure → Type 0
IsReported (protocol_failure code) = Unit
IsReported (event_failure payload event_type) = Unit
IsReported index_out_of_range = ⊥

-- A run that ends with every index in range, and with `Q` if it succeeds.
unfoldable pub Ensures :
    {A : Type 0}
    → (A → ChatCompletionState → Type 0)
    → Result ChatStreamFailure A × ChatCompletionState
    → Type 0
Ensures Q (ok a, s) = IsIndexed s × Q a s
Ensures Q (err e, s) = IsReported e × IsIndexed s

and_then-Ensures :
    {A B : Type 0} (P : B → ChatCompletionState → Type 0) (Q : A → ChatCompletionState → Type 0)
    (x : Result ChatStreamFailure B × ChatCompletionState) (f : B → Step A)
    → Ensures P x
    → ((b : B) (s : ChatCompletionState) → IsIndexed s → P b s → Ensures Q (f b s))
    → Ensures Q (and_then x f)
unfolding Ensures
and_then-Ensures P Q (ok b, s) f h k = k b s h.0 h.1
and_then-Ensures P Q (err e, s) f h k = h

-- As many tool calls as there were.
abbrev pub SameLength : {A : Type 0} → ℕ → A → ChatCompletionState → Type 0
SameLength n a s = length s.tool_calls ≡ n

edit_call-Ensures :
    (i : ℕ) (f : ChatToolCallState → ChatToolCallState) (s : ChatCompletionState)
    → i < length s.tool_calls
    → IsIndexed s
    → Ensures (SameLength (length s.tool_calls)) (edit_call i f s)
unfolding edit_call Ensures IsIndexed
edit_call-Ensures i f s k h =
    let (written, e, same) = with_call-some i f s.tool_calls k in
    subst (λ o. Ensures (SameLength (length s.tool_calls)) (wrote o s)) (sym e)
      (
        subst (λ n. Indexed n s.tool_index_by_item s.tool_index_by_call s.tool_index_by_output)
            (sym same) h,
        same,
      )

abbrev pub InRange : ℕ × Bool → ChatCompletionState → Type 0
InRange p s = p.0 < length s.tool_calls

-- The index that is found or new, with a new call for a new one.
added_call-IsIndexed :
    (o : Option ℕ) (c : ChatToolCallState) (s : ChatCompletionState)
    → Below (length s.tool_calls) o
    → IsIndexed s
    → InRange (found_or_new o s) (added_call (found_or_new o s).1 c s)
      × IsIndexed (added_call (found_or_new o s).1 c s)
unfolding Below IsIndexed
added_call-IsIndexed none c s b h =
    let more = length-append s.tool_calls (c ∷ []) in
    (
      omega (arith, more),
      (
        AllBelow-mono _ _ _ (omega (arith, more)) h.0,
        (
          AllBelow-mono _ _ _ (omega (arith, more)) h.1.0,
          AllBelow-mono _ _ _ (omega (arith, more)) h.1.1,
        ),
      ),
    )
added_call-IsIndexed (some i) c s b h = (b, h)

indexed_call-IsIndexed :
    (item : Fields) (o i : ℕ) (s : ChatCompletionState)
    → i < length s.tool_calls
    → IsIndexed s
    → IsIndexed (indexed_call item o i s)
unfolding indexed_call IsIndexed
indexed_call-IsIndexed item o i s k h =
    (inserted-AllBelow _ i _ _ k h.0, (inserted-AllBelow _ i _ _ k h.1.0, (k, h.1.1)))

ensured-Ensures :
    (item : Fields) (o : ℕ) (p : ℕ × Bool) (s : ChatCompletionState)
    → p.0 < length s.tool_calls
    → IsIndexed s
    → Ensures InRange (ensured item o p s)
unfolding ensured Ensures
ensured-Ensures item o p s k h =
    and_then-Ensures (SameLength (length s.tool_calls)) InRange
      (edit_call p.0 (described_call item o) s) _
      (edit_call-Ensures p.0 (described_call item o) s k h)
      (λ _ t g e.
        let k' = subst (λ n. p.0 < n) (sym e) k in (indexed_call-IsIndexed item o p.0 t k' g, k'))

pub ensure_tool_call-Ensures :
    (new_id : ℕ → Text) (item : Fields) (o : ℕ) (s : ChatCompletionState)
    → IsIndexed s
    → Ensures InRange (ensure_tool_call new_id item o s)
unfolding ensure_tool_call IsIndexed
ensure_tool_call-Ensures new_id item o s h =
    let found = or_else (lookup_tool_call_index item s) (find_at o s.tool_index_by_output) in
    let p = found_or_new found s in
    let (k, g) =
      added_call-IsIndexed found (empty_call (new_id p.0)) s
        (or_else-Below _ _ _ (lookup_tool_call_index-Below item s h)
          (find_at-Below _ o s.tool_index_by_output h.1.1))
        h in
    ensured-Ensures item o p (added_call p.1 (empty_call (new_id p.0)) s) k g
