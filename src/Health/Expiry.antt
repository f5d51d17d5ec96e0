-- ===== src/Health/Expiry.antt =====
-- What PruneExpired leaves of the states (auth_health.go).
use codex_oauth_proxy.Base.{Time, Error}
use codex_oauth_proxy.Health.{AuthHealthState, AuthHealthRegistry}
use codex_oauth_proxy.Health.Invariant.{IsValid, AreTrimmed}
use codex_oauth_proxy.Health.Lifecycle.{prune_entries, prune_expired_locked, prune_expired}
use codex_oauth_proxy.Health.Marks.{forget_state}
use codex_oauth_proxy.Health.Mirror.{forget_state_lem}
use codex_oauth_proxy.Health.Queries.{expired}
use codex_oauth_proxy.Prelude.{
  ◌≡◌, refl, true, false, if◌then◌else◌, [], ◌∷◌, Option, none, some, Text, Dict, lookup, remove,
  lookup-remove, text_eq, text_eq_iff, IsMap, Bool-cases, inl, inr, ap, sym, ◌∙◌, arith, Result, ok,
  err, succeeded, and_then,
}

-- What is left of a state that the range has visited as `entry`.
abbrev pub pruned : Time → Option AuthHealthState → Option AuthHealthState → Option AuthHealthState
pruned now none current = current
pruned now (some s) current = if expired s now then none else current

-- A state that has not expired.
abbrev pub unexpired : Time → Option AuthHealthState → Option AuthHealthState
unexpired now none = none
unexpired now (some s) = if expired s now then none else some s

module _ (now : Time) (k id : Text) (s : AuthHealthState) (rest : Dict AuthHealthState)
    (fresh : lookup k rest ≡ none) where
  absent : text_eq k id ≡ true → lookup id rest ≡ none
  absent same = rw (sym ((text_eq_iff k id).0 same)) fresh

  head_stays :
      (o : Option AuthHealthState)
      → expired s now ≡ false
      → pruned now (lookup id rest) o
        ≡ pruned now (if text_eq k id then some s else lookup id rest) o
  head_stays o current = elim (Bool-cases (text_eq k id)) [
    | inl same ↦ rw (same, absent same, current) refl
    | inr other ↦ rw other refl
  ]

  head_goes :
      (states : Dict AuthHealthState)
      → expired s now ≡ true
      → pruned now (lookup id rest) (lookup id (remove k states))
        ≡ pruned now (if text_eq k id then some s else lookup id rest) (lookup id states)
  head_goes states over = elim (Bool-cases (text_eq k id)) [
    | inl same ↦ rw (lookup-remove k id states, same, absent same, over) refl
    | inr other ↦ rw (lookup-remove k id states, other) refl
  ]

prune_entries_lem :
    (now : Time) (entries : Dict AuthHealthState) (id : Text) (r : AuthHealthRegistry)
    → IsMap entries
    → AreTrimmed entries
    → succeeded (prune_entries now entries r).0 ≡ true
    → lookup id (prune_entries now entries r).1.states
      ≡ pruned now (lookup id entries) (lookup id r.states)
unfolding prune_entries lookup
prune_entries_lem now [] id r map trimmed done = refl
prune_entries_lem now ((k, s) ∷ rest) id r map trimmed done = elim (Bool-cases (expired s now)) [
  | inr current ↦ rw current (
      prune_entries_lem now rest id r map.1 trimmed.1 (rw current at done)
      ∙ head_stays now k id s rest map.0 (lookup id r.states) current)
  | inl over ↦ rw over (
      go (forget_state k s r) (forget_state_lem k s trimmed.0 r).0
        (λ r'. prune_entries_lem now rest id r' map.1 trimmed.1) (rw over at done)
      ∙ head_goes now k id s rest map.0 r.states over)
]
  where
    go :
        (x : Result Error (Unit {0}) × AuthHealthRegistry)
        → x.1.states ≡ (if succeeded x.0 then remove k r.states else r.states)
        → ((r' : AuthHealthRegistry)
            → succeeded (prune_entries now rest r').0 ≡ true
            → lookup id (prune_entries now rest r').1.states
              ≡ pruned now (lookup id rest) (lookup id r'.states))
        → succeeded (and_then x (λ _. prune_entries now rest)).0 ≡ true
        → lookup id (and_then x (λ _. prune_entries now rest)).1.states
          ≡ pruned now (lookup id rest) (lookup id (remove k r.states))
    go (ok a, r') e ih h =
        ih r' h ∙ ap (λ (m : Dict AuthHealthState). pruned now (lookup id rest) (lookup id m)) e
    go (err x, r') e ih h = ground (arith, h)

unexpired-pruned : (now : Time) (o : Option AuthHealthState) → pruned now o o ≡ unexpired now o
unexpired-pruned now none = refl
unexpired-pruned now (some s) = refl

-- After PruneExpired has succeeded on a valid registry, a credential has the state that it had, unless
-- that has expired: then it has none.
pub prune_expired-unexpired :
    (now : Time) (id : Text) (r : AuthHealthRegistry)
    → IsValid r
    → (prune_expired now r).0 ≡ ok tt
    → lookup id (prune_expired now r).1.states ≡ unexpired now (lookup id r.states)
unfolding prune_expired prune_expired_locked
prune_expired-unexpired now id r v done =
    prune_entries_lem now r.states id r v.unique v.keys (ap succeeded done)
    ∙ unexpired-pruned now (lookup id r.states)
