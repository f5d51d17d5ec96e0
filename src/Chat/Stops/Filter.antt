-- ===== src/Chat/Stops/Filter.antt =====
-- chatStopFilter against truncateAtStopSequence (internal/codexonly/chat_completions.go): what a client
-- puts together from the parts of a streamed answer is what it gets of a collected one.
use codex_oauth_proxy.Chat.Stops.{
  has_prefix, truncate_at_stop_sequence, ChatStopFilter, max_runes, new_chat_stop_filter, hold_back,
  pushed, push, flush, streamed, joined, init, IsUnambiguous,
}
use codex_oauth_proxy.Chat.Stops.Cut.{hits, cut, truncate_at_stop_sequence-cut}
use codex_oauth_proxy.Prelude.{
  ℕ, suc, ◌-◌, ◌≤◌, ◌==◌, ltb, leb, ◌≡◌, refl, ap, sym, arith, Bool, true, false, if◌then◌else◌,
  List, [], ◌∷◌, ◌++◌, Text, length, take, drop, All, Bool-cases, inl, inr, ◌⊎◌, zero,
  length-append, ◌∙◌,
}
use mathlib.Core.List.{append_assoc, append-nil}

-- Cut.truncate_at_stop_sequence's reading of IsUnambiguous.
abbrev Unnested : List Text → List Text → Type 0
Unnested stops others = All (λ b. (cut stops (init b)).1 ≡ false) others

has_prefix-append : (p s t : Text) → has_prefix p s ≡ true → has_prefix p (s ++ t) ≡ true
unfolding has_prefix
has_prefix-append [] s t h = refl
has_prefix-append (a ∷ p) [] t h = ground arith
has_prefix-append (a ∷ p) (c ∷ s) t h = ground (arith, has_prefix-append p s t)

has_prefix_trans :
    (p s w : Text) → has_prefix p s ≡ true → has_prefix s w ≡ true → has_prefix p w ≡ true
unfolding has_prefix
has_prefix_trans [] s w h k = refl
has_prefix_trans (a ∷ p) [] w h k = ground arith
has_prefix_trans (a ∷ p) (c ∷ s) [] h k = ground arith
has_prefix_trans (a ∷ p) (c ∷ s) (d ∷ w) h k = ground (arith, has_prefix_trans p s w)

has_prefix-local : (p s t : Text) → length p ≤ length s → has_prefix p (s ++ t) ≡ has_prefix p s
unfolding has_prefix
has_prefix-local [] s t h = refl
has_prefix-local (a ∷ p) [] t h = ground arith
has_prefix-local (a ∷ p) (c ∷ s) t h = ground (arith, has_prefix-local p s t)

-- A text that begins only with what is added to `s` runs past the end of `s`.
has_prefix-init :
    (b s t : Text)
    → has_prefix b s ≡ false
    → has_prefix b (s ++ t) ≡ true
    → has_prefix s (init b) ≡ true
unfolding has_prefix
has_prefix-init [] s t h k = ground arith
has_prefix-init (a ∷ b) [] t h k = refl
has_prefix-init (a ∷ []) (c ∷ s) t h k = ground arith
has_prefix-init (a ∷ b ∷ bs) (c ∷ s) t h k = ground (arith, has_prefix-init (b ∷ bs) s t)

hits-has_prefix :
    (stops : List Text) (s w : Text)
    → hits stops s ≡ true
    → has_prefix s w ≡ true
    → hits stops w ≡ true
unfolding hits
hits-has_prefix [] s w h k = h
hits-has_prefix (b ∷ stops) s w h k =
    ground (arith, hits-has_prefix stops s w, has_prefix_trans b s w)

cut-has_prefix :
    (stops : List Text) (s w : Text)
    → (cut stops s).1 ≡ true
    → has_prefix s w ≡ true
    → (cut stops w).1 ≡ true
unfolding cut has_prefix
cut-has_prefix stops [] w h k = ground arith
cut-has_prefix stops (c ∷ s) [] h k = ground arith
cut-has_prefix stops (c ∷ s) (d ∷ w) h k =
    ground (arith, hits-has_prefix stops (c ∷ s) (d ∷ w), cut-has_prefix stops s w)

hits-local :
    (n : ℕ) (stops : List Text) (s t : Text)
    → All (λ b. length b ≤ n) stops
    → n ≤ length s
    → hits stops (s ++ t) ≡ hits stops s
unfolding hits
hits-local n [] s t h k = refl
hits-local n (b ∷ stops) s t h k =
    ground (arith, h.0, hits-local n stops s t h.1 k, has_prefix-local b s t)

hits-append : (stops : List Text) (s t : Text) → hits stops s ≡ true → hits stops (s ++ t) ≡ true
unfolding hits
hits-append [] s t h = h
hits-append (b ∷ stops) s t h = ground (arith, hits-append stops s t, has_prefix-append b s t)

-- What is added to a text that contains a stop sequence does not make one begin before it.
hits-Unnested :
    (stops others : List Text) (s t : Text)
    → Unnested stops others
    → (cut stops s).1 ≡ true
    → hits others s ≡ false
    → hits others (s ++ t) ≡ false
unfolding hits
hits-Unnested stops [] s t u h k = refl
hits-Unnested stops (b ∷ others) s t u h k = ground (
  arith,
  u.0,
  hits-Unnested stops others s t u.1 h,
  has_prefix-init b s t,
  cut-has_prefix stops s (init b) h,
)

cut-stopped :
    (stops : List Text) (s t : Text)
    → Unnested stops stops
    → (cut stops s).1 ≡ true
    → cut stops (s ++ t) ≡ cut stops s
unfolding cut
cut-stopped stops [] t u h = ground arith
cut-stopped stops (c ∷ s) t u h = ground (
  arith,
  hits-append stops (c ∷ s) t,
  hits-Unnested stops stops (c ∷ s) t u,
  cut-stopped stops s t u,
)

cut-whole : (stops : List Text) (s : Text) → (cut stops s).1 ≡ false → (cut stops s).0 ≡ s
unfolding cut
cut-whole stops [] h = refl
cut-whole stops (c ∷ s) h = ground (arith, cut-whole stops s)

cut-unstopped : (stops : List Text) (s : Text) → (cut stops s).1 ≡ false → cut stops s ≡ (s, false)
cut-unstopped stops s h = ground (arith, cut-whole stops s h)

cut-held :
    (n : ℕ) (stops : List Text) (e b d : Text)
    → All (λ stop. length stop ≤ suc n) stops
    → n ≤ length b
    → (cut stops (e ++ b)).1 ≡ false
    → cut stops (e ++ (b ++ d)) ≡ (e ++ (cut stops (b ++ d)).0, (cut stops (b ++ d)).1)
unfolding cut
cut-held n stops [] b d bound h k = refl
cut-held n stops (c ∷ e) b d bound h k = ground (
  arith,
  cut-held n stops e b d bound h,
  hits-local (suc n) stops (c ∷ (e ++ b)) d bound,
  length-append e b,
  append_assoc e b d,
)

max_runes-le : (best : ℕ) (stops : List Text) → best ≤ max_runes best stops
unfolding max_runes
max_runes-le best [] = omega arith
max_runes-le best (stop ∷ stops) =
    ground (arith, max_runes-le best stops, max_runes-le (length stop) stops)

max_runes-bounds :
    (best : ℕ) (stops : List Text) → All (λ stop. length stop ≤ max_runes best stops) stops
unfolding max_runes
max_runes-bounds best [] = tt
max_runes-bounds best (stop ∷ stops) = (
  ground (arith, max_runes-le best stops, max_runes-le (length stop) stops),
  max_runes-bounds (if ltb best (length stop) then length stop else best) stops,
)

take-drop : (n : ℕ) (s : Text) → take n s ++ drop n s ≡ s
take-drop zero s = refl
take-drop (suc n) [] = refl
take-drop (suc n) (c ∷ s) = ap (λ r. c ∷ r) (take-drop n s)

length-drop : (n : ℕ) (s : Text) → length (drop n s) ≡ length s - n
length-drop zero s = omega arith
length-drop (suc n) [] = omega arith
length-drop (suc n) (c ∷ s) = ground (arith, length-drop n s)

-- A filter that has passed `e` on and holds `b` back.
abbrev running : List Text → ℕ → Text → ChatStopFilter
running stops keep b = record {
  stop_sequences = stops;
  buffered = b;
  max_stop_runes = suc keep;
  stopped = false;
}

abbrev halted : List Text → ℕ → ChatStopFilter
halted stops keep = record {
  stop_sequences = stops;
  buffered = [];
  max_stop_runes = suc keep;
  stopped = true;
}

push-halted :
    (stops : List Text) (keep : ℕ) (d : Text)
    → push d (halted stops keep) ≡ (([], true), halted stops keep)
unfolding push
push-halted stops keep d = ground arith

flush-halted : (stops : List Text) (keep : ℕ) → (flush (halted stops keep)).0 ≡ []
unfolding flush
flush-halted stops keep = ground arith

flush-running : (stops : List Text) (keep : ℕ) (b : Text) → (flush (running stops keep b)).0 ≡ b
unfolding flush
flush-running stops keep b = ground arith

push-empty :
    (stops : List Text) (keep : ℕ) (b : Text)
    → push [] (running stops keep b) ≡ (([], false), running stops keep b)
unfolding push
push-empty stops keep b = ground arith

suc_ne_zero : (n : ℕ) → (suc n == 0) ≡ false
suc_ne_zero n = ground arith

push-running :
    (stops : List Text) (keep : ℕ) (b : Text) (c : ℕ) (d : Text)
    → push (c ∷ d) (running stops keep b)
      ≡ pushed (b ++ (c ∷ d)) (running stops keep b) (cut stops (b ++ (c ∷ d)))
unfolding push pushed
push-running stops keep b c d = rw (suc_ne_zero keep) (
    ap (pushed (b ++ (c ∷ d)) (running stops keep b))
      (truncate_at_stop_sequence-cut stops (b ++ (c ∷ d))))

streamed-halted :
    (stops : List Text) (keep : ℕ) (deltas : List Text)
    → streamed (halted stops keep) deltas ≡ ([], true)
unfolding streamed
streamed-halted stops keep [] = rw (flush-halted stops keep) refl
streamed-halted stops keep (d ∷ deltas) =
    rw (push-halted stops keep d) (streamed-halted stops keep deltas)

-- What hold_back leaves of a filter: it passes on a part and holds the rest, which has `keep` runes
-- unless nothing was passed on.
hold_back-running :
    (stops : List Text) (keep : ℕ) (b s : Text)
    → ((keep ≡ 0) → b ≡ [])
    → (e : Text) × (r : Text) × (hold_back s (running stops keep b)
        ≡ ((e, false), running stops keep r))
      × (e ++ r ≡ s)
      × ((e ≡ []) ⊎ (keep ≤ length r))
      × ((keep ≡ 0) → r ≡ [])
unfolding hold_back
hold_back-running stops keep b s h = elim (Bool-cases (keep == 0)) [
  | inl z ↦ (s, b, ground (arith), rw (h (ground arith)) (append-nil s), inr (ground arith), h)
  | inr z ↦ elim (Bool-cases (leb (length s) keep)) [
    | inl l ↦ ([], s, ground (arith), refl, inl refl, ground (arith))
    | inr l ↦ (
      take (length s - keep) s,
      drop (length s - keep) s,
      ground (arith),
      take-drop (length s - keep) s,
      inr (ground (arith, length-drop (length s - keep) s)),
      ground (arith),
    )
  ]
]

-- What `f` makes of the parts that follow, behind what has been passed on.
abbrev behind : Text → Text × Bool → Text × Bool
behind e p = (e ++ p.0, p.1)

abbrev Bounded : List Text → ℕ → Type 0
Bounded stops keep = All (λ stop. length stop ≤ suc keep) stops

cut-running :
    (stops : List Text) (keep : ℕ) (e b d : Text)
    → Bounded stops keep
    → (e ≡ []) ⊎ (keep ≤ length b)
    → (cut stops (e ++ b)).1 ≡ false
    → cut stops (e ++ (b ++ d)) ≡ behind e (cut stops (b ++ d))
cut-running stops keep [] b d bound h k = refl
cut-running stops keep (c ∷ e) b d bound (inl h) k = ground arith
cut-running stops keep (c ∷ e) b d bound (inr h) k = cut-held keep stops (c ∷ e) b d bound h k

pushed-stopped :
    (stops : List Text) (keep : ℕ) (b s : Text) (q : Text × Bool)
    → q.1 ≡ true
    → pushed s (running stops keep b) q ≡ (q, halted stops keep)
unfolding pushed
pushed-stopped stops keep b s (t, true) h = refl
pushed-stopped stops keep b s (t, false) h = ground arith

pushed-held :
    (s : Text) (f : ChatStopFilter) (q : Text × Bool) → q.1 ≡ false → pushed s f q ≡ hold_back s f
unfolding pushed
pushed-held s f (t, true) h = ground arith
pushed-held s f (t, false) h = refl

abbrev carried_on : (Text × Bool) × ChatStopFilter → List Text → Text × Bool
carried_on p deltas = behind p.0.0 (streamed p.1 deltas)

behind_stopped : (q : Text × Bool) → q.1 ≡ true → behind q.0 ([], true) ≡ q
behind_stopped (t, true) h = rw (append-nil t) refl
behind_stopped (t, false) h = ground arith

cut-behind :
    (stops : List Text) (e s j : Text)
    → Unnested stops stops
    → (cut stops s).1 ≡ true
    → cut stops (e ++ s) ≡ behind e (cut stops s)
    → cut stops (e ++ (s ++ j)) ≡ behind e (cut stops s)
cut-behind stops e s j u h k =
    rw (sym (append_assoc e s j)) (cut-stopped stops (e ++ s) j u (ap (λ p. p.1) k ∙ h) ∙ k)

-- The parts passed on are behind one another.
held_bound :
    (keep : ℕ) (e b x e' r : Text)
    → (e ≡ []) ⊎ (keep ≤ length b)
    → (e' ≡ []) ⊎ (keep ≤ length r)
    → e' ++ r ≡ b ++ x
    → (e ++ e' ≡ []) ⊎ (keep ≤ length r)
held_bound keep e b x e' r h (inr k) q = inr k
held_bound keep e b x e' r (inl h) (inl k) q = inl (rw (h, k) refl)
held_bound keep e b x e' r (inr h) (inl k) q =
    inr (ground (arith, h, length-append b x, ap length (sym (ap (λ t. t ++ r) k) ∙ q)))

streamed-running :
    (stops : List Text) (keep : ℕ) (e b : Text) (deltas : List Text)
    → Unnested stops stops
    → Bounded stops keep
    → (e ≡ []) ⊎ (keep ≤ length b)
    → ((keep ≡ 0) → b ≡ [])
    → (cut stops (e ++ b)).1 ≡ false
    → behind e (streamed (running stops keep b) deltas) ≡ cut stops (e ++ (b ++ joined deltas))
unfolding streamed
streamed-running stops keep e b [] u bound h z k =
    rw (flush-running stops keep b, append-nil b, cut-unstopped stops (e ++ b) k) refl
streamed-running stops keep e b ([] ∷ deltas) u bound h z k =
    rw (push-empty stops keep b) (streamed-running stops keep e b deltas u bound h z k)
streamed-running stops keep e b ((c ∷ d) ∷ deltas) u bound h z k =
    let s = b ++ (c ∷ d) in
    let here = cut-running stops keep e b (c ∷ d) bound h k in
    rw (push-running stops keep b c d) (elim (Bool-cases (cut stops s).1) [
      | inl stop ↦
          ap (λ p. behind e (carried_on p deltas))
            (pushed-stopped stops keep b s (cut stops s) stop)
          ∙ ap (λ p. behind e (behind (cut stops s).0 p)) (streamed-halted stops keep deltas)
          ∙ ap (behind e) (behind_stopped (cut stops s) stop)
          ∙ sym (cut-behind stops e s (joined deltas) u stop here)
          ∙ ap (λ t. cut stops (e ++ t)) (append_assoc b (c ∷ d) (joined deltas))
      | inr none_yet ↦
          let (e', r, q, split, long, empty) = hold_back-running stops keep b s z in
          let whole = append_assoc e e' r ∙ ap (λ t. e ++ t) split in
          ap (λ p. behind e (carried_on p deltas))
            (pushed-held s (running stops keep b) (cut stops s) none_yet ∙ q)
          ∙ ap (λ t. (t, (streamed (running stops keep r) deltas).1))
              (sym (append_assoc e e' (streamed (running stops keep r) deltas).0))
          ∙ streamed-running stops keep (e ++ e') r deltas u bound
              (held_bound keep e b (c ∷ d) e' r h long split) empty
              (ap (λ t. (cut stops t).1) whole ∙ ap (λ p. p.1) here ∙ none_yet)
          ∙ ap (cut stops) (
              sym (append_assoc (e ++ e') r (joined deltas))
              ∙ ap (λ t. t ++ joined deltas) whole
              ∙ append_assoc e s (joined deltas)
              ∙ ap (λ t. e ++ t) (append_assoc b (c ∷ d) (joined deltas)))
    ])

-- A filter without stop sequences.
abbrev open_filter : List Text → ChatStopFilter
open_filter stops = record {
  stop_sequences = stops;
  buffered = [];
  max_stop_runes = 0;
  stopped = false;
}

streamed-open_filter :
    (stops deltas : List Text) → streamed (open_filter stops) deltas ≡ (joined deltas, false)
unfolding streamed push flush
streamed-open_filter stops [] = refl
streamed-open_filter stops (d ∷ deltas) = rw (streamed-open_filter stops deltas) refl

hits-zero :
    (stops : List Text) (s : Text) → All (λ stop. length stop ≤ 0) stops → hits stops s ≡ false
unfolding hits
hits-zero [] s h = refl
hits-zero ([] ∷ stops) s h = hits-zero stops s h.1
hits-zero ((c ∷ p) ∷ stops) s h = ground (arith, h.0)

cut-zero :
    (stops : List Text) (s : Text) → All (λ stop. length stop ≤ 0) stops → cut stops s ≡ (s, false)
unfolding cut
cut-zero stops [] h = refl
cut-zero stops (c ∷ s) h = rw (hits-zero stops (c ∷ s) h, cut-zero stops s h) refl

streamed-cut :
    (stops deltas : List Text) (m : ℕ)
    → Unnested stops stops
    → All (λ stop. length stop ≤ m) stops
    → streamed (record (open_filter stops) { max_stop_runes = m }) deltas
      ≡ cut stops (joined deltas)
unfolding cut
streamed-cut stops deltas zero u bound =
    streamed-open_filter stops deltas ∙ sym (cut-zero stops (joined deltas) bound)
streamed-cut stops deltas (suc keep) u bound =
    streamed-running stops keep [] [] deltas u bound (inl refl) (λ _. refl) refl

Unnested-of_IsUnambiguous :
    (stops others : List Text) → IsUnambiguous stops others → Unnested stops others
unfolding IsUnambiguous
Unnested-of_IsUnambiguous stops [] h = tt
Unnested-of_IsUnambiguous stops (b ∷ others) h = (
  ap (λ p. p.1) (sym (truncate_at_stop_sequence-cut stops (init b))) ∙ h.0,
  Unnested-of_IsUnambiguous stops others h.1,
)

-- If no stop sequence contains a complete one before its last rune, then the answer that a client puts
-- together from the parts of a stream, and whether it was stopped, are what truncateAtStopSequence makes
-- of the whole answer, however the answer is cut into parts.
pub streamed-truncate_at_stop_sequence :
    (stops deltas : List Text)
    → IsUnambiguous stops stops
    → streamed (new_chat_stop_filter stops) deltas ≡ truncate_at_stop_sequence (joined deltas) stops
unfolding new_chat_stop_filter
streamed-truncate_at_stop_sequence stops deltas h =
    streamed-cut stops deltas (max_runes 0 stops) (Unnested-of_IsUnambiguous stops stops h)
      (max_runes-bounds 0 stops)
    ∙ sym (truncate_at_stop_sequence-cut stops (joined deltas))
