-- ===== src/Refresh/Tokens.antt =====
-- Which refresh token a request spends (refreshCurrentAuth of internal/codexonly/server.go).
use codex_oauth_proxy.Auths.{AuthReconcileResult}
use codex_oauth_proxy.Base.{Auth, Time, is_blank}
use codex_oauth_proxy.Prelude.{
  ℕ, ◌≤◌, ◌≡◌, refl, arith, if◌then◌else◌, List, [], ◌∷◌, Option, none, some, Text, text_eq,
  text_eq_iff, ok, ◌⊎◌, inl, inr, Bool-cases,
}
use codex_oauth_proxy.Refresh.Attempts.{posted, refresh-posts}
use codex_oauth_proxy.Refresh.Current.{
  matching_auth, Request, is_refreshed, refresh_matching, refresh_current_auth,
}
use codex_oauth_proxy.Refresh.Loop.{World, Trace, refresh}

matching_auth-id : (auths : List Auth) (a c : Auth) → matching_auth auths a ≡ some c → c.id ≡ a.id
unfolding matching_auth
matching_auth-id [] a c h = ground (arith, h)
matching_auth-id (b ∷ auths) a c h = elim (Bool-cases (text_eq b.id a.id)) [
  | inl e ↦ ground (arith, h, e, text_eq_iff b.id a.id)
  | inr e ↦ matching_auth-id auths a c (ground (arith, h, e))
]

-- A run that changes no trace, or that posts one token only.
abbrev pub Spends : Text → Trace → Trace → Type 0
Spends token s t = (n : ℕ) × (n ≤ 3) × (t.posts ≡ posted n token s.posts)

refresh-Spends : (w : World) (a : Auth) (s : Trace) → Spends a.refresh_token s (refresh w a s).1
unfolding refresh posted
refresh-Spends w a s = elim (Bool-cases (is_blank a.refresh_token)) [
  | inl e ↦ rw e (0, omega arith, refl)
  | inr e ↦ let (n, low, high, posts, waits) = refresh-posts w a s e in (n, high, posts)
]

-- A run on the credential that was found, if any.
abbrev IsSpent : Option Auth → Auth → Trace → Trace → Type 0
IsSpent found a s t =
    (t ≡ s)
    ⊎ ((c : Auth) × (found ≡ some c)
        × (c.id ≡ a.id)
        × (n : ℕ) × (n ≤ 3)
        × (t.posts ≡ posted n c.refresh_token s.posts))

refresh_matching-IsSpent :
    (w : World) (now : Time) (q : Request) (a : Auth) (o : Option Auth) (s : Trace)
    → ((c : Auth) → o ≡ some c → c.id ≡ a.id)
    → IsSpent o a s (refresh_matching w now q o s).1
unfolding refresh_matching
refresh_matching-IsSpent w now q a none s h = inl refl
refresh_matching-IsSpent w now q a (some c) s h = elim (Bool-cases (is_refreshed q c now)) [
  | inl e ↦ rw e (inl refl)
  | inr e ↦
      rw e (let (n, le, posts) = refresh-Spends w c s in inr (c, refl, h c refl, n, le, posts))
]

-- The refresh of a credential posts nothing, or it posts, three times at most, the refresh token of the
-- credential with that identifier in the scan `result`, and never the caller's copy of another.
pub refresh_current_auth-posts :
    (w : World) (now : Time) (result : AuthReconcileResult) (a : Auth) (q : Request) (s : Trace)
    → ((refresh_current_auth w now (ok result) a q s).1 ≡ s)
      ⊎ ((c : Auth) × (matching_auth (if q.force then result.auths else result.active) a ≡ some c)
          × (c.id ≡ a.id)
          × (n : ℕ) × (n ≤ 3)
          × ((refresh_current_auth w now (ok result) a q s).1.posts
              ≡ posted n c.refresh_token s.posts))
unfolding refresh_current_auth
refresh_current_auth-posts w now result a q s =
    let auths = if q.force then result.auths else result.active in
    refresh_matching-IsSpent w now q a (matching_auth auths a) s (matching_auth-id auths a)
