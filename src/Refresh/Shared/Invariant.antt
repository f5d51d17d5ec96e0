-- ===== src/Refresh/Shared/Invariant.antt =====
-- What holds in every state of the requests that share refreshes (AuthManager.refresh of
-- internal/codexonly/server.go).
use codex_oauth_proxy.Base.{Auth, Error}
use codex_oauth_proxy.Prelude.{
  ℕ, ◌==◌, ◌≤◌, ◌<◌, ◌≡◌, refl, arith, none, some, Text, text_eq, text_eq_iff, lookup,
  lookup-insert, lookup-remove, Result, Bool-cases, Option-cases, inl, inr, ◌≢◌,
}
use codex_oauth_proxy.Refresh.Shared.{
  Phase, arrived, leading, waiting, returned, AuthManager, at, entered, enter, finish, wake,
  give_up, Step, enters, finishes, wakes, gives_up, initial, Reach, start, later,
}

pub record Inv (s : AuthManager) : Type 0 where
  pub registered :
      (key : Text) (c : ℕ)
      → lookup key s.refreshes ≡ some c
      → (i : ℕ) × (s.requests i ≡ leading c key)
  pub leads :
      (i c : ℕ) (key : Text) → s.requests i ≡ leading c key → lookup key s.refreshes ≡ some c
  pub is_open : (i c : ℕ) (key : Text) → s.requests i ≡ leading c key → s.done c ≡ none
  pub alone :
      (i j c : ℕ) (k l : Text) → s.requests i ≡ leading c k → s.requests j ≡ leading c l → i ≡ j
  pub numbered : (c : ℕ) → s.next ≤ c → s.done c ≡ none
  pub leading_below : (i c : ℕ) (key : Text) → s.requests i ≡ leading c key → c < s.next
  pub waiting_below : (i c : ℕ) → s.requests i ≡ waiting c → c < s.next
  pub awaited :
      (i c : ℕ)
      → s.requests i ≡ waiting c
      → s.done c ≡ none
      → (j : ℕ) × (key : Text) × (s.requests j ≡ leading c key)
  pub agreed : (i c : ℕ) (r : Result Error Auth) → s.requests i ≡ returned c r → s.done c ≡ some r

initial-Inv : (keys : ℕ → Text) → Inv (initial keys)
unfolding lookup
initial-Inv keys = record {
  registered = λ key c h. ground (arith, h);
  leads = λ i c key h. ground (arith, h);
  is_open = λ i c key h. refl;
  alone = λ i j c k l h. ground (arith, h);
  numbered = λ c h. refl;
  leading_below = λ i c key h. ground (arith, h);
  waiting_below = λ i c h. ground (arith, h);
  awaited = λ i c h. ground (arith, h);
  agreed = λ i c r h. ground (arith, h);
}

-- A request that ends its wait changes nothing that other requests read.
module _ (s : AuthManager) (inv : Inv s) (i : ℕ) (c : ℕ) (h : s.requests i ≡ waiting c) where
  ended-Inv :
      (p : Phase)
      → ((d : ℕ) (key : Text) → p ≢ leading d key)
      → ((d : ℕ) → p ≢ waiting d)
      → ((d : ℕ) (r : Result Error Auth) → p ≡ returned d r → s.done d ≡ some r)
      → Inv (record s { requests = at i p s.requests })
  ended-Inv p not_leading not_waiting result = record {
    registered = λ key d e. (let (j, q) = inv.registered key d e in (j, ground (arith, q, h)));
    leads = λ j d key e. inv.leads j d key (ground (arith, e, not_leading d key));
    is_open = λ j d key e. inv.is_open j d key (ground (arith, e, not_leading d key));
    alone = λ j j' d k l e e'.
        inv.alone j j' d k l (ground (arith, e, not_leading d k))
          (ground (arith, e', not_leading d l));
    numbered = inv.numbered;
    leading_below = λ j d key e. inv.leading_below j d key (ground (arith, e, not_leading d key));
    waiting_below = λ j d e. inv.waiting_below j d (ground (arith, e, not_waiting d));
    awaited = λ j d e o.
        (let (k, key, q) = inv.awaited j d (ground (arith, e, not_waiting d)) o in
          (k, key, ground (arith, q, h)));
    agreed = λ j d r e. ground (arith, e, result d r, inv.agreed j d r);
  }

module _ (s : AuthManager) (inv : Inv s) (i : ℕ) (key : Text) (h : s.requests i ≡ arrived key) where
  joined-Inv : (call : ℕ) → lookup key s.refreshes ≡ some call → Inv (entered i key s (some call))
  unfolding entered
  joined-Inv call found =
      let (leader, l) = inv.registered key call found in
      record {
        registered = λ k d e. (let (j, q) = inv.registered k d e in (j, ground (arith, q, h)));
        leads = λ j d k e. inv.leads j d k (ground (arith, e));
        is_open = λ j d k e. inv.is_open j d k (ground (arith, e));
        alone = λ j j' d k k' e e'. inv.alone j j' d k k' (ground (arith, e)) (ground (arith, e'));
        numbered = inv.numbered;
        leading_below = λ j d k e. inv.leading_below j d k (ground (arith, e));
        waiting_below =
            λ j d e. ground (arith, e, inv.waiting_below j d, inv.leading_below leader call key l);
        awaited = λ j d e o. elim (Bool-cases (i == j)) [
          | inl q ↦ (leader, key, ground (arith, l, h, e, q))
          | inr q ↦
              let (k, key', m) = inv.awaited j d (ground (arith, e, q)) o in
              (k, key', ground (arith, m, h))
        ];
        agreed = λ j d r e. inv.agreed j d r (ground (arith, e));
      }

  started-Inv : lookup key s.refreshes ≡ none → Inv (entered i key s none)
  unfolding entered
  started-Inv free = record {
    registered = λ k d e. elim (Bool-cases (text_eq key k)) [
      | inl q ↦ (i, ground (arith, e, q, lookup-insert key k s.next s.refreshes, text_eq_iff key k))
      | inr q ↦
          let (j, m) =
            inv.registered k d (ground (arith, e, q, lookup-insert key k s.next s.refreshes)) in
          (j, ground (arith, m, h))
    ];
    leads = λ j d k e. ground (
      arith,
      e,
      lookup-insert key k s.next s.refreshes,
      text_eq_iff key k,
      inv.leads j d k,
      free,
    );
    is_open = λ j d k e. ground (arith, e, inv.is_open j d k, inv.numbered d);
    alone = λ j j' d k k' e e'.
        ground
          (arith, e, e', inv.alone j j' d k k', inv.leading_below j d k, inv.leading_below j' d k');
    numbered = λ d b. inv.numbered d (omega (arith, b));
    leading_below = λ j d k e. ground (arith, e, inv.leading_below j d k);
    waiting_below = λ j d e. ground (arith, e, inv.waiting_below j d);
    awaited = λ j d e o.
        let (k, key', m) = inv.awaited j d (ground (arith, e)) o in (k, key', ground (arith, m, h));
    agreed = λ j d r e. inv.agreed j d r (ground (arith, e));
  }

module _ (s : AuthManager) (inv : Inv s) (i call : ℕ) (key : Text)
    (h : s.requests i ≡ leading call key) where
  finish-Inv : (r : Result Error Auth) → Inv (finish i call key r s)
  unfolding finish
  finish-Inv r =
      let below = inv.leading_below i call key h in
      let mine = inv.leads i call key h in
      record {
        registered = λ k d e.
            let (j, m) = inv.registered k d (ground (arith, e, lookup-remove key k s.refreshes)) in
            (j, ground (arith, m, h, e, lookup-remove key k s.refreshes, text_eq_iff key k));
        leads = λ j d k e. ground (
          arith,
          e,
          lookup-remove key k s.refreshes,
          text_eq_iff key k,
          inv.leads j d k,
          inv.alone i j call key k h,
          mine,
        );
        is_open = λ j d k e. ground (arith, e, inv.is_open j d k, inv.alone i j call key k h);
        alone = λ j j' d k k' e e'. inv.alone j j' d k k' (ground (arith, e)) (ground (arith, e'));
        numbered = λ d b. ground (arith, b, below, inv.numbered d);
        leading_below = λ j d k e. inv.leading_below j d k (ground (arith, e));
        waiting_below = λ j d e. inv.waiting_below j d (ground (arith, e));
        awaited = λ j d e o.
            let (k, key', m) = inv.awaited j d (ground (arith, e)) (ground (arith, o)) in
            (k, key', ground (arith, m, h, o));
        agreed = λ j d r' e. ground (arith, e, inv.agreed j d r', inv.is_open i call key h);
      }

enter-Inv :
    (s : AuthManager) (i : ℕ) (key : Text)
    → Inv s
    → s.requests i ≡ arrived key
    → Inv (enter i key s)
unfolding enter
enter-Inv s i key inv h = elim (Option-cases (lookup key s.refreshes)) [
  | inl e ↦ rw e (started-Inv s inv i key h e)
  | inr (call, e) ↦ rw e (joined-Inv s inv i key h call e)
]

step-Inv : (s t : AuthManager) → Inv s → Step s t → Inv t
unfolding wake give_up
step-Inv s _ inv (enters i key h) = enter-Inv s i key inv h
step-Inv s _ inv (finishes i call key r h) = finish-Inv s inv i call key h r
step-Inv s _ inv (wakes i call r h k) =
    ended-Inv s inv i call h (returned call r) (λ d key. ground arith) (λ d. ground arith)
      (λ d r' e. ground (arith, e, k))
step-Inv s _ inv (gives_up i call e h) =
    ended-Inv s inv i call h _ (λ d key. ground arith) (λ d. ground arith)
      (λ d r' q. ground (arith, q))

pub Reach-Inv : (keys : ℕ → Text) (s : AuthManager) → Reach keys s → Inv s
Reach-Inv keys _ start = initial-Inv keys
Reach-Inv keys _ (later {s} {t} r step) = step-Inv s t (Reach-Inv keys s r) step
