-- ===== src/Selection/Selected.antt =====
-- Which credentials a selection can return (selectProxyAuthCandidate of internal/codexonly/server.go).
use codex_oauth_proxy.Affinity.{valid}
use codex_oauth_proxy.Affinity.Operations.{
  rebind_session_affinity, bind_session_affinity, lookup_session_affinity,
}
use codex_oauth_proxy.Health.Queries.{blocked, state}
use codex_oauth_proxy.Auths.{AuthReconcileResult, auths_by_stable_id, add_by_id}
use codex_oauth_proxy.Base.{Auth, Error, Time}
use codex_oauth_proxy.Health.{AuthHealthRegistry}
use codex_oauth_proxy.Health.Lifecycle.{prune_expired, reconcile}
use codex_oauth_proxy.Prelude.{
  ap, ℕ, zero, suc, ◌==◌, ◌≡◌, refl, sym, ◌∙◌, arith, Bool, true, false, not, if◌then◌else◌, List,
  [], ◌∷◌, Option, none, some, Text, text_eq, text_eq_iff, length, keep, Dict, lookup, insert,
  lookup-insert, M, Result, ok, err, and_then, All, ◌⊎◌, inl, inr, Bool-cases, IsIn, All-IsIn,
}
use codex_oauth_proxy.Selection.{
  Server, AuthSelection, Clock, SelectionRequest, no_binding, on_users, on_health, next_auth, nth,
  round_robin_index, maybe_cleanup_expired_session_affinity, at_index, picked,
}
use codex_oauth_proxy.Selection.Candidate.{
  is_eligible, selected, bound_auth, by_id, rebind_elsewhere, bound_selection, eligible_binding,
  binding_or_none, select_bound, bind_candidate, select_next, select_session, find_binding,
  select_eligible, reconcile_auths, select_proxy_auth_candidate,
}
use codex_oauth_proxy.Store.{SessionAffinityBinding, UserStore}
use mathlib.Core.Path.{subst}

-- A postcondition of the runs that succeed.
unfoldable pub Picks : {A : Type 0} → (A → Server → Type 0) → Result Error A × Server → Type 0
Picks Q (ok a, s) = Q a s
Picks Q (err e, s) = Unit

module _ {A : Type 0} (Q : A → Server → Type 0) where
  and_then-Picks :
      {B : Type 0} (P : B → Server → Type 0) (x : Result Error B × Server)
      (f : B → M Server Error A)
      → Picks P x
      → ((b : B) (s : Server) → P b s → Picks Q (f b s))
      → Picks Q (and_then x f)
  unfolding Picks
  and_then-Picks P (ok b, s) f h k = k b s h
  and_then-Picks P (err e, s) f h k = tt

  ok-Picks : (a : A) (s : Server) → Q a s → Picks Q (ok a, s)
  unfolding Picks
  ok-Picks a s h = h

  err-Picks : (e : Error) (s : Server) → Picks Q (err e, s)
  unfolding Picks
  err-Picks e s = tt

  of_equation : (x : Result Error A) (s : Server) → ((a : A) → x ≡ ok a → Q a s) → Picks Q (x, s)
  unfolding Picks
  of_equation (ok a) s h = h a refl
  of_equation (err e) s h = tt

  branch-Picks :
      (b : Bool) (m n : M Server Error A) (s : Server)
      → Picks Q (m s)
      → Picks Q (n s)
      → Picks Q ((if b then m else n) s)
  branch-Picks true m n s h k = h
  branch-Picks false m n s h k = k

any_result :
    {A : Type 0} (Q : A → Server → Type 0) (x : Result Error A × Server)
    → ((a : A) (s : Server) → Q a s)
    → Picks Q x
unfolding Picks
any_result Q (ok a, s) h = h a s
any_result Q (err e, s) h = tt

-- The registry is the same, but for the store below it.
unfoldable pub Frame : Server → Server → Type 0
Frame s t = t.health ≡ record (s.health) { store = t.health.store }

-- What holds of all credentials of a list holds of those that are found in it.
module _ (P : Auth → Type 0) where
  nth-All : (i : ℕ) (auths : List Auth) (a : Auth) → All P auths → nth i auths ≡ some a → P a
  unfolding nth
  nth-All i [] a h e = absurd (ground (arith, e))
  nth-All zero (b ∷ auths) a h e = subst P (ground (arith, e)) h.0
  nth-All (suc i) (b ∷ auths) a h e = nth-All i auths a h.1 e

  at_index-All :
      (auths : List Auth) (o : Option ℕ) (a : Auth) → All P auths → at_index auths o ≡ some a → P a
  at_index-All auths none a h e = absurd (ground (arith, e))
  at_index-All auths (some i) a h e = nth-All i auths a h e

  picked-Picks :
      (base : Server) (o : Option Auth) (s : Server)
      → Frame base s
      → ((a : Auth) → o ≡ some a → P a)
      → Picks (λ a t. Frame base t × P a) (picked o, s)
  unfolding Picks
  picked-Picks base none s f h = tt
  picked-Picks base (some a) s f h = (f, h a refl)

  next_auth-All :
      (base : Server) (auths : List Auth) (s : Server)
      → Frame base s
      → All P auths
      → Picks (λ a t. Frame base t × P a) (next_auth auths s)
  unfolding next_auth Frame
  next_auth-All base auths s f h = elim (Bool-cases (length auths == 0)) [
    | inl e ↦ rw e (err-Picks (λ a t. Frame base t × P a) _ s)
    | inr e ↦ rw e (
        picked-Picks base _ _ f
          (λ a. at_index-All auths (round_robin_index s.next (length auths)) a h))
  ]

  keep-All : (test : Auth → Bool) (auths : List Auth) → All P auths → All P (keep test auths)
  unfolding keep
  keep-All test [] h = tt
  keep-All test (a ∷ auths) h = elim (Bool-cases (test a)) [
    | inl e ↦ rw e (h.0, keep-All test auths h.1)
    | inr e ↦ rw e (keep-All test auths h.1)
  ]

  add_by_id-All :
      (m : Dict Auth) (auths : List Auth) (id : Text) (a : Auth)
      → ((b : Auth) → lookup id m ≡ some b → P b)
      → All P auths
      → lookup id (add_by_id m auths) ≡ some a
      → P a
  add_by_id-All m [] id a k h e = k a e
  add_by_id-All m (b ∷ auths) id a k h e =
      add_by_id-All (insert b.id b m) auths id a
        (λ c f. elim (Bool-cases (text_eq b.id id)) [
          | inl q ↦ subst P (ground (arith, f, q, lookup-insert b.id id b m)) h.0
          | inr q ↦ k c (ground (arith, f, q, lookup-insert b.id id b m))
        ])
        h.1 e

  by_id-All :
      (id : Text) (auths : List Auth) (a : Auth) → All P auths → by_id id auths ≡ some a → P a
  unfolding auths_by_stable_id lookup
  by_id-All id auths a h e = add_by_id-All [] auths id a (λ b f. absurd (ground (arith, f))) h e

add_by_id-id :
    (m : Dict Auth) (auths : List Auth) (id : Text) (a : Auth)
    → ((b : Auth) → lookup id m ≡ some b → b.id ≡ id)
    → lookup id (add_by_id m auths) ≡ some a
    → a.id ≡ id
add_by_id-id m [] id a k e = k a e
add_by_id-id m (b ∷ auths) id a k e =
    add_by_id-id (insert b.id b m) auths id a
      (λ c f. ground (arith, f, lookup-insert b.id id b m, text_eq_iff b.id id, k c)) e

by_id-id : (id : Text) (auths : List Auth) (a : Auth) → by_id id auths ≡ some a → a.id ≡ id
unfolding auths_by_stable_id lookup
by_id-id id auths a e = add_by_id-id [] auths id a (λ b f. absurd (ground (arith, f))) e

All-kept : (test : Auth → Bool) (auths : List Auth) → All (λ a. test a ≡ true) (keep test auths)
unfolding keep
All-kept test [] = tt
All-kept test (a ∷ auths) = elim (Bool-cases (test a)) [
  | inl e ↦ rw e (e, All-kept test auths)
  | inr e ↦ rw e (All-kept test auths)
]

-- The end `t` of a rebinding to an eligible credential, which was answered with `b`.
abbrev pub IsAnswer : (Auth → Type 0) → Clock → SessionAffinityBinding → Server → Type 0
IsAnswer E clock b t =
    (candidate : Auth) × E candidate
    × (before : SessionAffinityBinding) × (s : Server) × (on_users
          (rebind_session_affinity clock.rebind_at before candidate.id) s
        ≡ (ok b, t))

-- An active credential that is eligible, or that such an answer names.
abbrev pub IsOffered : (Auth → Type 0) → (Auth → Type 0) → Clock → AuthSelection → Server → Type 0
IsOffered E P clock x t =
    P x.auth
    × (((e : Auth) × E e × (e.id ≡ x.auth.id))
        ⊎ ((x.auth.id ≡ x.binding.auth_id) × IsAnswer E clock x.binding t))

-- A run on the store leaves the rest of the registry as it is.
on_users-Picks :
    {A : Type 0} (base : Server) (m : M UserStore Error A) (s : Server)
    → Frame base s
    → Picks (λ a t. Frame base t × (on_users m s ≡ (ok a, t))) (on_users m s)
unfolding Frame
on_users-Picks base m s f =
    of_equation (λ a t. Frame base t × (on_users m s ≡ (ok a, t))) (on_users m s).0 (on_users m s).1
      (λ a e. (
        ap {A = AuthHealthRegistry} (λ h. record h { store = (on_users m s).1.health.store }) f,
        ap (λ x. (x, (on_users m s).1)) e,
      ))

module _ (E P : Auth → Type 0) (sub : (a : Auth) → E a → P a) (clock : Clock) (base : Server)
    (active eligible : List Auth) (all : All P active) (each : All E eligible) where
  Offers : AuthSelection → Server → Type 0
  Offers x t = Frame base t × IsOffered E P clock x t

  eligible-Picks :
      (a : Auth) (b : SessionAffinityBinding) (s : Server)
      → Frame base s
      → E a
      → Picks Offers (ok (selected a b), s)
  unfolding Picks Offers
  eligible-Picks a b s f h = (f, (sub a h, inl (a, h, refl)))

  answered-Picks :
      (b : SessionAffinityBinding) (o : Option Auth) (s : Server)
      → Frame base s
      → ((a : Auth) → o ≡ some a → P a × (a.id ≡ b.auth_id))
      → IsAnswer E clock b s
      → Picks Offers (bound_auth b o s)
  unfolding Picks Offers
  answered-Picks b none s f h k = tt
  answered-Picks b (some a) s f h k = (f, ((h a refl).0, inr ((h a refl).1, k)))

  rebind_elsewhere-Picks :
      (b : SessionAffinityBinding) (s : Server)
      → Frame base s
      → Picks Offers (rebind_elsewhere clock active eligible b s)
  unfolding rebind_elsewhere
  rebind_elsewhere-Picks b s f =
      let filtered = keep (λ (a : Auth). not (text_eq a.id b.auth_id)) eligible in
      branch-Picks Offers (length filtered == 0) _ _ s (err-Picks Offers _ s) (
        and_then-Picks Offers (λ a t. Frame base t × E a) (next_auth filtered s) _
          (next_auth-All E base filtered s f (keep-All E _ eligible each))
          (λ c t h.
            and_then-Picks Offers _ (on_users (rebind_session_affinity clock.rebind_at b c.id) t) _
              (on_users-Picks base (rebind_session_affinity clock.rebind_at b c.id) t h.0)
              (λ b' u run.
                answered-Picks b' (by_id b'.auth_id active) u run.0
                  (λ a e. (by_id-All P b'.auth_id active a all e, by_id-id b'.auth_id active a e))
                  (c, h.1, b, t, run.1))))

  bound_selection-Picks :
      (b : SessionAffinityBinding) (o e : Option Auth) (s : Server)
      → Frame base s
      → by_id b.auth_id active ≡ o
      → by_id b.auth_id eligible ≡ e
      → Picks Offers (bound_selection clock active eligible b o e s)
  unfolding bound_selection Picks Offers
  bound_selection-Picks b none e s f h k = rebind_elsewhere-Picks b s f
  bound_selection-Picks b (some a) none s f h k = rebind_elsewhere-Picks b s f
  bound_selection-Picks b (some a) (some e) s f h k = (
    f,
    (
      by_id-All P b.auth_id active a all h,
      inl (
        e,
        by_id-All E b.auth_id eligible e each k,
        by_id-id b.auth_id eligible e k ∙ sym (by_id-id b.auth_id active a h),
      ),
    ),
  )

  Kept : {A : Type 0} → A → Server → Type 0
  Kept a t = Frame base t

  on_users-Kept :
      {A : Type 0} (m : M UserStore Error A) (s : Server) → Frame base s → Picks Kept (on_users m s)
  unfolding Frame Kept
  on_users-Kept m s f = of_equation Kept (on_users m s).0 (on_users m s).1 (λ a e.
      ap {A = AuthHealthRegistry} (λ h. record h { store = (on_users m s).1.health.store }) f)

  bind_candidate-Kept :
      (q : SelectionRequest) (found : Option SessionAffinityBinding) (id : Text) (s : Server)
      → Frame base s
      → Picks Kept (bind_candidate clock q found id s)
  unfolding bind_candidate
  bind_candidate-Kept q none id s f =
      on_users-Kept (bind_session_affinity clock.bind_at q.tenant_scope_digest q.digests id) s f
  bind_candidate-Kept q (some b) id s f =
      on_users-Kept (rebind_session_affinity clock.rebind_at b id) s f

  find_binding-Kept :
      (q : SelectionRequest) (s : Server) → Frame base s → Picks Kept (find_binding clock q s)
  unfolding find_binding Kept
  find_binding-Kept q s f =
      branch-Picks Kept (valid q.binding) _ _ s (ok-Picks Kept (some q.binding) s f) (
        on_users-Kept
          (lookup_session_affinity clock.lookup_at clock.refresh_at q.tenant_scope_digest q.digests)
          s f)

  select_next-Picks :
      (q : SelectionRequest) (found : Option SessionAffinityBinding) (s : Server)
      → Frame base s
      → Picks Offers (select_next clock q active eligible found s)
  unfolding select_next Kept
  select_next-Picks q found s f =
      and_then-Picks Offers (λ a t. Frame base t × E a) (next_auth eligible s) _
        (next_auth-All E base eligible s f each)
        (λ c t h.
          and_then-Picks Offers Kept (bind_candidate clock q found c.id t) _
            (bind_candidate-Kept q found c.id t h.0)
            (λ b u g.
              bound_selection-Picks b (by_id b.auth_id active) (by_id b.auth_id eligible) u g refl
                refl))

  eligible_binding-All :
      (o : Option SessionAffinityBinding) (a : Auth) → eligible_binding o eligible ≡ some a → E a
  eligible_binding-All none a h = absurd (ground (arith, h))
  eligible_binding-All (some c) a h = by_id-All E c.auth_id eligible a each h

  select_bound-Picks :
      (q : SelectionRequest) (found : Option SessionAffinityBinding) (o : Option Auth) (s : Server)
      → Frame base s
      → ((a : Auth) → o ≡ some a → E a)
      → Picks Offers (select_bound clock q active eligible found o s)
  unfolding select_bound
  select_bound-Picks q found none s f h = select_next-Picks q found s f
  select_bound-Picks q found (some a) s f h =
      eligible-Picks a (binding_or_none found) s f (h a refl)

  select_eligible-Picks :
      (q : SelectionRequest) (s : Server)
      → Frame base s
      → Picks Offers (select_eligible clock q active eligible s)
  unfolding select_eligible select_session Kept
  select_eligible-Picks q s f =
      branch-Picks Offers (length eligible == 0) _ _ s (err-Picks Offers _ s) (
        branch-Picks Offers (length q.digests == 0) _ _ s
          (and_then-Picks Offers (λ a t. Frame base t × E a) (next_auth eligible s) _
            (next_auth-All E base eligible s f each)
            (λ a t h. eligible-Picks a no_binding t h.0 h.1))
          (and_then-Picks Offers Kept (find_binding clock q s) _ (find_binding-Kept q s f)
            (λ found t g.
              select_bound-Picks q found (eligible_binding found eligible) t g
                (eligible_binding-All found))))

All-both :
    (P Q : Auth → Type 0) (auths : List Auth)
    → All P auths
    → All Q auths
    → All (λ a. P a × Q a) auths
All-both P Q [] h k = tt
All-both P Q (a ∷ auths) h k = ((h.0, k.0), All-both P Q auths h.1 k.1)

Picks-mono :
    {A : Type 0} (P Q : A → Server → Type 0) (x : Result Error A × Server)
    → ((a : A) (s : Server) → P a s → Q a s)
    → Picks P x
    → Picks Q x
unfolding Picks
Picks-mono P Q (ok a, s) f h = f a s h
Picks-mono P Q (err e, s) f h = tt

of_run :
    {A : Type 0} (Q : A → Server → Type 0) (x : Result Error A × Server) (a : A) (s : Server)
    → Picks Q x
    → x ≡ (ok a, s)
    → Q a s
unfolding Picks
of_run Q x a s h e = subst (Picks Q) e h

-- An active credential that is eligible by the registry `r`.
abbrev pub IsFound : Clock → SelectionRequest → List Auth → AuthHealthRegistry → Auth → Type 0
IsFound clock q active r e = IsIn e active × (is_eligible clock q r e ≡ true)

-- What is proved of a selection from the credentials `active` that ends in the state `t`.
abbrev IsSelectedFrom : Clock → SelectionRequest → List Auth → AuthSelection → Server → Type 0
IsSelectedFrom clock q active x t =
    IsOffered (IsFound clock q active t.health) (λ a. IsIn a active) clock x t

-- The store decides nothing of eligibility.
Frame-IsFound :
    (clock : Clock) (q : SelectionRequest) (active : List Auth) (s t : Server) (e : Auth)
    → Frame s t
    → IsFound clock q active s.health e
    → IsFound clock q active t.health e
unfolding Frame is_eligible blocked state
Frame-IsFound clock q active s t e f h =
    (h.0, subst (λ r. is_eligible clock q r e ≡ true) (sym f) h.1)

Offers-IsSelectedFrom :
    (clock : Clock) (q : SelectionRequest) (active : List Auth) (s t : Server) (x : AuthSelection)
    → Frame s t
    → IsOffered (IsFound clock q active s.health) (λ a. IsIn a active) clock x t
    → IsSelectedFrom clock q active x t
Offers-IsSelectedFrom clock q active s t x f (p, inl (e, h, same)) =
    (p, inl (e, Frame-IsFound clock q active s t e f h, same))
Offers-IsSelectedFrom clock q active s t x f (p, inr (same, (c, h, before, u, run))) =
    (p, inr (same, (c, Frame-IsFound clock q active s t c f h, before, u, run)))

offered :
    (clock : Clock) (q : SelectionRequest) (active : List Auth) (s : Server)
    → Picks
        (IsSelectedFrom clock q active)
        (select_eligible clock q active (keep (is_eligible clock q s.health) active) s)
unfolding Offers Frame
offered clock q active s =
    let E = IsFound clock q active s.health in
    let P = λ (a : Auth). IsIn a active in
    let test = is_eligible clock q s.health in
    Picks-mono (λ x t. Frame s t × IsOffered E P clock x t) (IsSelectedFrom clock q active) _
      (λ x t h. Offers-IsSelectedFrom clock q active s t x h.0 h.1)
      (select_eligible-Picks E P (λ a h. h.0) clock s active (keep test active) (All-IsIn active)
        (All-both P (λ a. test a ≡ true) (keep test active)
          (keep-All P test active (All-IsIn active)) (All-kept test active))
        q s refl)

reconcile_auths-Picks :
    (sha256_hex : Text → Text) (now : Time) (result : AuthReconcileResult) (s : Server)
    → Picks (λ res t. res ≡ result) (reconcile_auths sha256_hex now (ok result) s)
unfolding reconcile_auths
reconcile_auths-Picks sha256_hex now result s =
    let Q = λ (res : AuthReconcileResult) (t : Server). res ≡ result in
    and_then-Picks Q (λ _ _. Unit {0}) _ _ (any_result (λ _ _. Unit {0}) _ (λ _ _. tt))
      (λ _ s1 _.
        and_then-Picks Q (λ _ _. Unit {0}) (on_health (reconcile sha256_hex now result) s1) _
          (any_result (λ _ _. Unit {0}) _ (λ _ _. tt)) (λ _ s2 _. ok-Picks Q result s2 refl))

-- The selected credential is one of the scan's active ones. And an active credential with its identifier
-- was not tried, is allowed, and is not blocked by the registry that the selection leaves; or the selection
-- ended with a rebinding to such a credential, and the selected credential is the one that the store
-- answered with.
pub select_proxy_auth_candidate-offers :
    (sha256_hex : Text → Text) (clock : Clock) (result : AuthReconcileResult) (q : SelectionRequest)
    (s t : Server) (x : AuthSelection)
    → select_proxy_auth_candidate sha256_hex clock (ok result) q s ≡ (ok x, t)
    → IsIn x.auth result.active
      × (((e : Auth) × IsFound clock q result.active t.health e × (e.id ≡ x.auth.id))
          ⊎ ((x.auth.id ≡ x.binding.auth_id)
              × IsAnswer (IsFound clock q result.active t.health) clock x.binding t))
unfolding select_proxy_auth_candidate
select_proxy_auth_candidate-offers sha256_hex clock result q s t x run =
    let Q = IsSelectedFrom clock q result.active in
    of_run Q (select_proxy_auth_candidate sha256_hex clock (ok result) q s) x t
      (and_then-Picks Q (λ res _. res ≡ result)
        (reconcile_auths sha256_hex clock.reconcile_at (ok result) s) _
        (reconcile_auths-Picks sha256_hex clock.reconcile_at result s)
        (λ res s1 same.
          and_then-Picks Q (λ _ _. Unit {0}) (on_health (prune_expired clock.prune_at) s1) _
            (any_result (λ _ _. Unit {0}) _ (λ _ _. tt))
            (λ _ s2 _.
              and_then-Picks Q (λ _ _. Unit {0}) (maybe_cleanup_expired_session_affinity clock s2) _
                (any_result (λ _ _. Unit {0}) _ (λ _ _. tt))
                (λ _ s3 _.
                  subst
                    (λ z. Picks Q (
                      select_eligible clock q z.active
                        (keep (is_eligible clock q s3.health) z.active) s3))
                    (sym same) (offered clock q result.active s3)))))
      run
