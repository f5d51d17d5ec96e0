-- ===== src/Refresh/Shared/Progress.antt =====
-- One refresh of a credential at a time, one outcome for all that share it, and no request that waits
-- for ever (AuthManager.refresh of internal/codexonly/server.go).
use codex_oauth_proxy.Base.{Auth, Error, nil_error}
use codex_oauth_proxy.Prelude.{
  ℕ, ◌≡◌, ◌≢◌, refl, arith, Option, none, some, Text, lookup, Result, err, Option-cases, inl, inr,
}
use codex_oauth_proxy.Refresh.Shared.{
  Phase, arrived, leading, waiting, returned, gave_up, AuthManager, entered, enter, finish, wake,
  Step, enters, finishes, wakes, Reach, later,
}
use codex_oauth_proxy.Refresh.Shared.Invariant.{Inv, Reach-Inv}

-- In every state that requests can bring about, at most one of them refreshes the credential of a key.
pub Reach-one_leader :
    (keys : ℕ → Text) (s : AuthManager) (i j c d : ℕ) (key : Text)
    → Reach keys s
    → s.requests i ≡ leading c key
    → s.requests j ≡ leading d key
    → i ≡ j
Reach-one_leader keys s i j c d key r h k =
    let inv = Reach-Inv keys s r in
    ground (arith, inv.alone i j c key key h, inv.leads i c key h, inv.leads j d key k, k)

-- In every state that requests can bring about, two requests that returned from the same call have the same
-- outcome.
pub Reach-same_outcome :
    (keys : ℕ → Text) (s : AuthManager) (i j c : ℕ) (r r' : Result Error Auth)
    → Reach keys s
    → s.requests i ≡ returned c r
    → s.requests j ≡ returned c r'
    → r ≡ r'
Reach-same_outcome keys s i j c r r' reach h k =
    let inv = Reach-Inv keys s reach in ground (arith, inv.agreed i c r h, inv.agreed j c r' k)

pub data Steps (s : AuthManager) : AuthManager → Type 0 where
  here : Steps s s
  more : {t u : AuthManager} → Steps s t → Step t u → Steps s u

-- `s` can become a state in which request `i` has returned.
abbrev pub CanReturn : AuthManager → ℕ → Type 0
CanReturn s i =
    (t : AuthManager) × Steps s t
    × (c : ℕ) × (r : Result Error Auth) × (t.requests i ≡ returned c r)

prepend : {s t u : AuthManager} → Step s t → Steps t u → Steps s u
prepend step here = more here step
prepend step (more steps last) = more (prepend step steps) last

data PhaseView (p : Phase) : Type 0 where
  at_arrived : (key : Text) → p ≡ arrived key → PhaseView p
  at_leading : (c : ℕ) (key : Text) → p ≡ leading c key → PhaseView p
  at_waiting : (c : ℕ) → p ≡ waiting c → PhaseView p
  at_returned : (c : ℕ) (r : Result Error Auth) → p ≡ returned c r → PhaseView p
  at_gave_up : (e : Error) → p ≡ gave_up e → PhaseView p

Phase-cases : (p : Phase) → PhaseView p
Phase-cases (arrived key) = at_arrived key refl
Phase-cases (leading c key) = at_leading c key refl
Phase-cases (waiting c) = at_waiting c refl
Phase-cases (returned c r) = at_returned c r refl
Phase-cases (gave_up e) = at_gave_up e refl

before_steps : {s t : AuthManager} → (i : ℕ) → Step s t → CanReturn t i → CanReturn s i
before_steps i step (u, steps, c, r, e) = (u, prepend step steps, c, r, e)

-- The outcome of a refresh that a run may assume.
abbrev some_outcome : Result Error Auth
some_outcome = err nil_error

leading-CanReturn :
    (s : AuthManager) (i c : ℕ) (key : Text) → s.requests i ≡ leading c key → CanReturn s i
unfolding finish
leading-CanReturn s i c key h = (
  finish i c key some_outcome s,
  more here (finishes i c key some_outcome h),
  c,
  some_outcome,
  ground arith,
)

closed-CanReturn :
    (s : AuthManager) (i c : ℕ) (r : Result Error Auth)
    → s.requests i ≡ waiting c
    → s.done c ≡ some r
    → CanReturn s i
unfolding wake
closed-CanReturn s i c r h k = (wake i c r s, more here (wakes i c r h k), c, r, ground arith)

waiting-CanReturn : (s : AuthManager) (i c : ℕ) → Inv s → s.requests i ≡ waiting c → CanReturn s i
unfolding finish
waiting-CanReturn s i c inv h = elim (Option-cases (s.done c)) [
  | inr (r, e) ↦ closed-CanReturn s i c r h e
  | inl e ↦
      let (j, key, l) = inv.awaited i c h e in
      before_steps i (finishes j c key some_outcome l) (
        closed-CanReturn (finish j c key some_outcome s) i c some_outcome (ground (arith, h, l))
          (ground arith))
]

entered-CanReturn :
    (s : AuthManager) (i : ℕ) (key : Text) (o : Option ℕ)
    → Inv (entered i key s o)
    → CanReturn (entered i key s o) i
unfolding entered
entered-CanReturn s i key none inv = leading-CanReturn _ i s.next key (ground arith)
entered-CanReturn s i key (some c) inv = waiting-CanReturn _ i c inv (ground arith)

-- From every state that requests can bring about, each request that did not give up can still return with
-- the outcome of a call.
pub Reach-CanReturn :
    (keys : ℕ → Text) (s : AuthManager) (i : ℕ)
    → Reach keys s
    → ((e : Error) → s.requests i ≢ gave_up e)
    → CanReturn s i
unfolding enter
Reach-CanReturn keys s i r h =
    let inv = Reach-Inv keys s r in
    elim (Phase-cases (s.requests i)) [
      | at_arrived key e ↦ before_steps i (enters i key e) (
          entered-CanReturn s i key (lookup key s.refreshes)
            (Reach-Inv keys _ (later r (enters i key e))))
      | at_leading c key e ↦ leading-CanReturn s i c key e
      | at_waiting c e ↦ waiting-CanReturn s i c inv e
      | at_returned c r e ↦ (s, here, c, r, e)
      | at_gave_up e q ↦ absurd (h e q)
    ]
