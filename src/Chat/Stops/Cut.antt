-- ===== src/Chat/Stops/Cut.antt =====
-- truncateAtStopSequence, read from left to right: the text ends at the first place where a stop
-- sequence begins.
use codex_oauth_proxy.Chat.Stops.{
  has_prefix, later, index, earlier, stop_index, cut_at, truncate_at_stop_sequence,
}
use codex_oauth_proxy.Prelude.{
  ℕ, ◌≡◌, refl, arith, Bool, true, false, not, ◌&&◌, ◌||◌, if◌then◌else◌, List, [], ◌∷◌, Option,
  none, some, Text, is_empty, Bool-cases, inl, inr,
}

-- Some stop sequence begins a text.
unfoldable pub hits : List Text → Text → Bool
unfolding has_prefix
hits [] s = false
hits (stop ∷ stops) s = (not (is_empty stop) && has_prefix stop s) || hits stops s

unfoldable pub cut : List Text → Text → Text × Bool
unfolding hits
cut stops [] = ([], false)
cut stops (c ∷ s) =
    let rest = cut stops s in if hits stops (c ∷ s) then ([], true) else (c ∷ rest.0, rest.1)

hits-nil : (stops : List Text) → hits stops [] ≡ false
unfolding hits has_prefix
hits-nil [] = refl
hits-nil ([] ∷ stops) = hits-nil stops
hits-nil ((p ∷ ps) ∷ stops) = hits-nil stops

earlier-zero : (o : Option ℕ) → earlier o (some 0) ≡ some 0
unfolding earlier
earlier-zero none = refl
earlier-zero (some i) = ground arith

zero-earlier : (o : Option ℕ) → earlier (some 0) o ≡ some 0
unfolding earlier
zero-earlier none = refl
zero-earlier (some i) = ground arith

stop_index-zero : (s : Text) (stops : List Text) → stop_index s stops (some 0) ≡ some 0
unfolding stop_index
stop_index-zero s [] = refl
stop_index-zero s ([] ∷ stops) = stop_index-zero s stops
stop_index-zero s ((p ∷ ps) ∷ stops) =
    rw (earlier-zero (index s (p ∷ ps))) (stop_index-zero s stops)

stop_index-hits :
    (c : ℕ) (s : Text) (stops : List Text) (best : Option ℕ)
    → hits stops (c ∷ s) ≡ true
    → stop_index (c ∷ s) stops best ≡ some 0
unfolding stop_index hits index
stop_index-hits c s [] best h = ground arith
stop_index-hits c s ([] ∷ stops) best h = stop_index-hits c s stops best h
stop_index-hits c s ((p ∷ ps) ∷ stops) best h = elim (Bool-cases (has_prefix (p ∷ ps) (c ∷ s))) [
  | inl e ↦ rw e (rw (zero-earlier best) (stop_index-zero (c ∷ s) stops))
  | inr e ↦ stop_index-hits c s stops (earlier (index (c ∷ s) (p ∷ ps)) best) (ground arith)
]

earlier-later : (a b : Option ℕ) → earlier (later a) (later b) ≡ later (earlier a b)
unfolding earlier
earlier-later none b = refl
earlier-later (some i) none = refl
earlier-later (some i) (some j) = ground arith

stop_index-later :
    (c : ℕ) (s : Text) (stops : List Text) (best : Option ℕ)
    → hits stops (c ∷ s) ≡ false
    → stop_index (c ∷ s) stops (later best) ≡ later (stop_index s stops best)
unfolding stop_index hits index
stop_index-later c s [] best h = refl
stop_index-later c s ([] ∷ stops) best h = stop_index-later c s stops best h
stop_index-later c s ((p ∷ ps) ∷ stops) best h = elim (Bool-cases (has_prefix (p ∷ ps) (c ∷ s))) [
  | inl e ↦ ground (arith)
  | inr e ↦ rw e (
      rw (earlier-later (index s (p ∷ ps)) best)
        (stop_index-later c s stops (earlier (index s (p ∷ ps)) best) (ground arith)))
]

stop_index-nil : (stops : List Text) → stop_index [] stops none ≡ none
unfolding stop_index index earlier
stop_index-nil [] = refl
stop_index-nil ([] ∷ stops) = stop_index-nil stops
stop_index-nil ((p ∷ ps) ∷ stops) = stop_index-nil stops

cut_at-later :
    (c : ℕ) (s : Text) (o : Option ℕ)
    → cut_at (c ∷ s) (later o) ≡ (c ∷ (cut_at s o).0, (cut_at s o).1)
unfolding cut_at
cut_at-later c s none = refl
cut_at-later c s (some i) = refl

pub truncate_at_stop_sequence-cut :
    (stops : List Text) (s : Text) → truncate_at_stop_sequence s stops ≡ cut stops s
unfolding truncate_at_stop_sequence cut cut_at
truncate_at_stop_sequence-cut stops [] = rw (stop_index-nil stops) refl
truncate_at_stop_sequence-cut stops (c ∷ s) = elim (Bool-cases (hits stops (c ∷ s))) [
  | inl e ↦ rw (e, stop_index-hits c s stops none e) refl
  | inr e ↦
      rw
        (
          e,
          stop_index-later c s stops none e,
          cut_at-later c s (stop_index s stops none),
          truncate_at_stop_sequence-cut stops s,
        )
        refl
]
