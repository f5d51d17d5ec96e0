-- ===== src/Health/Cooldown.antt =====
-- NearestCooldown finds the earliest deadline; PruneExpired leaves none that has passed.
use codex_oauth_proxy.Base.{Auth, Time}
use codex_oauth_proxy.Prelude.{
  ◌≡◌, ◌≤◌, ◌<◌, ◌⊎◌, refl, inl, inr, if◌then◌else◌, List, [], ◌∷◌, none, some, Text, All, All-mono,
  Bool-cases, ◌==◌, arith, Option-cases, ltb,
}
use codex_oauth_proxy.Health.{AuthHealthRegistry}
use codex_oauth_proxy.Health.Queries.{blocked, nearer, nearest_from, nearest_cooldown}

module _ (model : Text) (now : Time) (at : Auth → Time) (r : AuthHealthRegistry) where
  -- The deadline of a blocked credential that still lies ahead; 0 if there is none.
  unfoldable pub deadline : Auth → Time
  deadline a = elim (blocked a model (at a) r) [
    | none ↦ 0
    | some s ↦ if ltb now s.retry_at then s.retry_at else 0
  ]

  -- No earlier than now, and no later than any deadline ahead.
  abbrev pub Bounds : Time → Auth → Type 0
  Bounds t a = (deadline a ≡ 0) ⊎ ((t ≤ deadline a) × (0 < t))

  nearer_lem :
      (t : Time) (a : Auth)
      → let u = nearer model now (at a) r t a in
        Bounds u a × ((u ≡ t) ⊎ (u ≡ deadline a)) × ((t ≡ 0) ⊎ ((u ≤ t) × (0 < u)))
  unfolding nearer deadline
  nearer_lem t a = elim (Option-cases (blocked a model (at a) r)) [
    | inl e ↦ ground arith
    | inr (s, e) ↦ ground arith
  ]

  -- `t` is the deadline of one of the credentials.
  abbrev pub Attained : Time → List Auth → Type 0
  Attained t [] = ⊥
  Attained t (a ∷ auths) = (t ≡ deadline a) ⊎ Attained t auths

  nearest_from_lem :
      (t : Time) (auths : List Auth)
      → let u = nearest_from model now at r t auths in
        All (Bounds u) auths × ((u ≡ t) ⊎ Attained u auths) × ((t ≡ 0) ⊎ ((u ≤ t) × (0 < u)))
  unfolding nearest_from
  nearest_from_lem t [] = (tt, inl refl, ground arith)
  nearest_from_lem t (a ∷ auths) =
      let (here, from, less) = nearer_lem t a in
      let (all, from', less') = nearest_from_lem (nearer model now (at a) r t a) auths in
      ((ground arith, all), ground arith, ground arith)

  -- NearestCooldown answers the earliest deadline ahead among the blocked credentials, and that is the
  -- deadline of one of them; it answers none exactly when no deadline lies ahead.
  pub nearest_cooldown-least :
      (auths : List Auth)
      → ((nearest_cooldown auths model now at r ≡ none) × All (λ a. deadline a ≡ 0) auths)
        ⊎ ((t : Time) × (nearest_cooldown auths model now at r ≡ some t)
            × (0 < t)
            × Attained t auths
            × All (λ a. (deadline a ≡ 0) ⊎ (t ≤ deadline a)) auths)
  unfolding nearest_cooldown
  nearest_cooldown-least auths =
      let t = nearest_from model now at r 0 auths in
      let (all, from, less) = nearest_from_lem 0 auths in
      elim (Bool-cases (t == 0)) [
        | inl zero ↦ inl (
          ground arith,
          All-mono (Bounds t) (λ a. deadline a ≡ 0) (λ a b. ground arith) auths all,
        )
        | inr found ↦ inr (
          t,
          ground arith,
          ground arith,
          attained from (ground arith),
          All-mono (Bounds t) (λ a. (deadline a ≡ 0) ⊎ (t ≤ deadline a)) (λ a b. ground arith) auths
              all,
        )
      ]
    where
      attained : {u : Time} → (u ≡ 0) ⊎ Attained u auths → 0 < u → Attained u auths
      attained (inl e) pos = absurd (omega arith)
      attained (inr h) pos = h
