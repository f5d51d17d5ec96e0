-- ===== src/Chat/Stops.antt =====
-- Stop sequences of chat completions (internal/codexonly/chat_completions.go): truncateAtStopSequence,
-- which a collected answer passes, and chatStopFilter, which the parts of a streamed one pass. Both get
-- strings that the JSON decoder made, which are valid UTF-8; they stand here as their code points, so
-- that `[]rune` is the identity and an index counts code points.
use codex_oauth_proxy.Prelude.{
  ℕ, suc, ◌-◌, ◌==◌, ltb, leb, Bool, true, false, ◌&&◌, if◌then◌else◌, List, [], ◌∷◌, ◌++◌, Option,
  none, some, Text, is_empty, length, take, drop, All, ◌≡◌,
}
pub mod Cut
pub mod Filter

-- strings.HasPrefix(s, prefix)
unfoldable pub has_prefix : Text → Text → Bool
has_prefix [] s = true
has_prefix (p ∷ ps) [] = false
has_prefix (p ∷ ps) (c ∷ s) = p == c && has_prefix ps s

abbrev pub later : Option ℕ → Option ℕ
later none = none
later (some i) = some (suc i)

-- strings.Index(content, stop)
unfoldable pub index : Text → Text → Option ℕ
unfolding has_prefix
index [] stop = if is_empty stop then some 0 else none
index (c ∷ s) stop =
    let rest = index s stop in if has_prefix stop (c ∷ s) then some 0 else later rest

-- found >= 0 && (index < 0 || found < index)
unfoldable pub earlier : Option ℕ → Option ℕ → Option ℕ
earlier none best = best
earlier (some found) none = some found
earlier (some found) (some best) = if ltb found best then some found else some best

unfoldable pub stop_index : Text → List Text → Option ℕ → Option ℕ
unfolding index earlier
stop_index content [] best = best
stop_index content (stop ∷ stops) best =
    stop_index content stops (if is_empty stop then best else earlier (index content stop) best)

unfoldable pub cut_at : Text → Option ℕ → Text × Bool
cut_at content none = (content, false)
cut_at content (some i) = (take i content, true)

unfoldable pub truncate_at_stop_sequence : Text → List Text → Text × Bool
unfolding stop_index cut_at
truncate_at_stop_sequence content stops = cut_at content (stop_index content stops none)

pub record ChatStopFilter : Type 0 where
  pub stop_sequences : List Text
  pub buffered : Text
  pub max_stop_runes : ℕ
  pub stopped : Bool

unfoldable pub max_runes : ℕ → List Text → ℕ
max_runes best [] = best
max_runes best (stop ∷ stops) =
    max_runes (if ltb best (length stop) then length stop else best) stops

unfoldable pub new_chat_stop_filter : List Text → ChatStopFilter
unfolding max_runes
new_chat_stop_filter stops = record {
  stop_sequences = stops;
  buffered = [];
  max_stop_runes = max_runes 0 stops;
  stopped = false;
}

-- The part of push after the search for a stop sequence: what no stop sequence can reach is passed on.
unfoldable pub hold_back : Text → ChatStopFilter → (Text × Bool) × ChatStopFilter
hold_back combined f =
    let keep = f.max_stop_runes - 1 in
    if keep == 0
    then ((combined, false), f)
    else if leb (length combined) keep
    then (([], false), record f { buffered = combined })
    else (let emit_len = length combined - keep in
        ((take emit_len combined, false), record f { buffered = drop emit_len combined }))

unfoldable pub pushed : Text → ChatStopFilter → Text × Bool → (Text × Bool) × ChatStopFilter
unfolding hold_back
pushed combined f (content, true) = ((content, true), record f { buffered = []; stopped = true })
pushed combined f (content, false) = hold_back combined f

-- chatStopFilter.push
unfoldable pub push : Text → ChatStopFilter → (Text × Bool) × ChatStopFilter
unfolding truncate_at_stop_sequence pushed
push delta f =
    if f.max_stop_runes == 0
    then ((delta, false), f)
    else if f.stopped
    then (([], true), f)
    else if is_empty delta
    then (([], false), f)
    else (let combined = f.buffered ++ delta in
        pushed combined f (truncate_at_stop_sequence combined f.stop_sequences))

-- chatStopFilter.flush
unfoldable pub flush : ChatStopFilter → Text × ChatStopFilter
flush f =
    if f.max_stop_runes == 0
    then ([], f)
    else if f.stopped
    then ([], f)
    else (f.buffered, record f { buffered = [] })

-- The answer that a client puts together from the parts of a stream, and whether it was stopped.
unfoldable pub streamed : ChatStopFilter → List Text → Text × Bool
unfolding push flush
streamed f [] = ((flush f).0, f.stopped)
streamed f (delta ∷ deltas) =
    let p = push delta f in let rest = streamed p.1 deltas in (p.0.0 ++ rest.0, rest.1)

abbrev pub joined : List Text → Text
joined [] = []
joined (t ∷ ts) = t ++ joined ts

-- All but the last rune.
abbrev pub init : Text → Text
init [] = []
init (a ∷ []) = []
init (a ∷ b ∷ s) = a ∷ init (b ∷ s)

-- None of the stop sequences `others` contains one of `stops` before its last rune.
unfoldable pub IsUnambiguous : List Text → List Text → Type 0
IsUnambiguous stops others = All (λ b. (truncate_at_stop_sequence (init b) stops).1 ≡ false) others
