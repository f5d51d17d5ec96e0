-- ===== src/Affinity/Winner.antt =====
-- The choice of a winner (session_affinity.go).
use mathlib.Core.Path.{subst}
use codex_oauth_proxy.Affinity.{choose_session_affinity_winner, winner_from, precedes}
use codex_oauth_proxy.Base.{Time, after}
use codex_oauth_proxy.Prelude.{
  true, false, List, [], ◌∷◌, Option, none, some, Text, text_ltb, ◌≡◌, refl, arith, inl, inr,
  Bool-cases, All, ap, sym, ◌∙◌,
}
use codex_oauth_proxy.Store.{SessionAffinityRow}

text_ltb_irrefl : (s : Text) → text_ltb s s ≡ false
unfolding text_ltb
text_ltb_irrefl [] = refl
text_ltb_irrefl (a ∷ s) = ground (arith, text_ltb_irrefl s)

text_ltb_trans : (s t u : Text) → text_ltb s t ≡ true → text_ltb t u ≡ true → text_ltb s u ≡ true
unfolding text_ltb
text_ltb_trans [] [] u h h' = ground (arith, h)
text_ltb_trans [] (b ∷ t) [] h h' = ground (arith, h')
text_ltb_trans [] (b ∷ t) (c ∷ u) h h' = refl
text_ltb_trans (a ∷ s) [] u h h' = ground (arith, h)
text_ltb_trans (a ∷ s) (b ∷ t) [] h h' = ground (arith, h')
text_ltb_trans (a ∷ s) (b ∷ t) (c ∷ u) h h' = ground (arith, text_ltb_trans s t u, h, h')

precedes_irrefl : (r : SessionAffinityRow) → precedes r r ≡ false
precedes_irrefl r = ground (arith, text_ltb_irrefl r.digest)

precedes_trans :
    (q r s : SessionAffinityRow) → precedes q r ≡ true → precedes r s ≡ true → precedes q s ≡ true
precedes_trans q r s h h' = ground (arith, text_ltb_trans q.digest r.digest s.digest, h, h')

-- No unexpired row of a list comes before a winner.
abbrev pub IsFirst : Time → List SessionAffinityRow → SessionAffinityRow → Type 0
IsFirst now rows w = All (λ r. after r.expires now ≡ true → precedes r w ≡ false) rows

-- What a search that starts with `w` ends with.
record Found (now : Time) (w : SessionAffinityRow) (rows : List SessionAffinityRow) : Type 0 where
  winner : SessionAffinityRow
  is_result : winner_from now (some w) rows ≡ some winner
  is_active : after w.expires now ≡ true → after winner.expires now ≡ true
  is_no_later : (x : SessionAffinityRow) → precedes x w ≡ false → precedes x winner ≡ false
  is_first : IsFirst now rows winner

get_or : SessionAffinityRow → Option SessionAffinityRow → SessionAffinityRow
get_or r none = r
get_or r (some x) = x

some_inj : (a b : SessionAffinityRow) → some a ≡ some b → a ≡ b
unfolding get_or
some_inj a b h = ap (get_or a) h

later_still :
    (x r w : SessionAffinityRow) → precedes x w ≡ false → precedes r w ≡ true → precedes x r ≡ false
later_still x r w h earlier = elim (Bool-cases (precedes x r)) [
  | inl before_r ↦ ground (arith, h, precedes_trans x r w before_r earlier)
  | inr other ↦ other
]

search : (now : Time) (w : SessionAffinityRow) (rows : List SessionAffinityRow) → Found now w rows
unfolding winner_from
search now w [] = record {
  winner = w;
  is_result = refl;
  is_active = λ h. h;
  is_no_later = λ x h. h;
  is_first = tt;
}
search now w (r ∷ rows) = elim (Bool-cases (after r.expires now)) [
  | inr expired ↦
      let f = search now w rows in
      record {
        winner = f.winner;
        is_result = rw expired f.is_result;
        is_active = f.is_active;
        is_no_later = f.is_no_later;
        is_first = (λ h. ground (arith, h, expired), f.is_first);
      }
  | inl active ↦ elim (Bool-cases (precedes r w)) [
    | inl earlier ↦
        let f = search now r rows in
        record {
          winner = f.winner;
          is_result = rw (active, earlier) f.is_result;
          is_active = λ _. f.is_active active;
          is_no_later = λ x h. f.is_no_later x (later_still x r w h earlier);
          is_first = (λ _. f.is_no_later r (precedes_irrefl r), f.is_first);
        }
    | inr later ↦
        let f = search now w rows in
        record {
          winner = f.winner;
          is_result = rw (active, later) f.is_result;
          is_active = f.is_active;
          is_no_later = f.is_no_later;
          is_first = (λ _. f.is_no_later r later, f.is_first);
        }
  ]
]

-- The winner has not expired, and no row that has not either was created before it, or at the same instant
-- with a smaller digest.
pub choose_session_affinity_winner-IsFirst :
    (now : Time) (rows : List SessionAffinityRow) (w : SessionAffinityRow)
    → choose_session_affinity_winner now rows ≡ some w
    → (after w.expires now ≡ true) × IsFirst now rows w
unfolding choose_session_affinity_winner winner_from
choose_session_affinity_winner-IsFirst now [] w h = ground (arith, h)
choose_session_affinity_winner-IsFirst now (r ∷ rows) w h =
    elim (Bool-cases (after r.expires now)) [
      | inr expired ↦
          let rest = choose_session_affinity_winner-IsFirst now rows w (rw expired at h) in
          (rest.0, (λ h'. ground (arith, h', expired), rest.1))
      | inl active ↦
          let f = search now r rows in
          subst (λ x. (after x.expires now ≡ true) × IsFirst now (r ∷ rows) x)
            (some_inj f.winner w (sym f.is_result ∙ (rw active at h)))
            (f.is_active active, (λ _. f.is_no_later r (precedes_irrefl r), f.is_first))
    ]
