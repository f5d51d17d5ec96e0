-- ===== src/Failover/Sent.antt =====
-- How often a request is sent upstream.
use codex_oauth_proxy.Base.{Auth, Error}
use codex_oauth_proxy.Failover.{
  UpstreamFailure, network_failure, preparation_failure, failure_credential, failure_unauthorized,
}
use codex_oauth_proxy.Failover.Loop.{
  Upstream, Step, ended, continued, Ending, failed, responded, unauthorized_failure, or_end,
  give_up_with, with_code, kind_is_none, kind_is_request_scoped, kind_is_unauthorized, try_auth,
  first_response, repair_unauthorized, retried_response, mark_and_record, finish_healthy,
  with_retry, with_refresh, with_attempt, with_prepared,
}
use codex_oauth_proxy.Failover.Rules.{
  if_rule, or_end_rule, unless_canceled_rule, mark_and_record_rule, finish_healthy_rule,
}
use codex_oauth_proxy.Prelude.{
  ℕ, ◌+◌, ◌≤◌, ◌≡◌, if◌then◌else◌, Bool, true, false, List, Text, Dict, Result, ok, err, arith,
}
use codex_oauth_proxy.Store.{SessionAffinityBinding}

-- `sent` counts the requests that went out: an attempt is one, and nothing else is.
pub record Counts {S R : Type 0} (u : Upstream S R) (sent : S → ℕ) : Type 0 where
  pub of_attempt : (a : Auth) (s : S) → sent (u.attempt a s).1 ≡ sent s + 1
  pub of_reconcile : (s : S) → sent (u.reconcile_auths s).1 ≡ sent s
  pub of_select :
      (m : Text) (tried allowed : List Text) (b : SessionAffinityBinding) (s : S)
      → sent (u.select_candidate m tried allowed b s).1 ≡ sent s
  pub of_prepare : (a : Auth) (s : S) → sent (u.prepare_auth a s).1 ≡ sent s
  pub of_mark :
      (a : Auth) (m : Text) (f : UpstreamFailure) (s : S)
      → sent (u.mark_auth_failure a m f s).1 ≡ sent s
  pub of_healthy : (a : Auth) (m : Text) (s : S) → sent (u.mark_healthy a m s).1 ≡ sent s
  pub of_credential : (a : Auth) (s : S) → sent (u.mark_credential_healthy a s).1 ≡ sent s
  pub of_refresh :
      (a : Auth) (t : Text) (s : S) → sent (u.refresh_after_unauthorized a t s).1 ≡ sent s
  pub of_cooldown :
      (m : Text) (g : Dict UpstreamFailure) (allowed : List Text) (s : S)
      → sent (u.nearest_cooldown m g allowed s).1 ≡ sent s
  pub of_final :
      (m : Text) (g : Dict UpstreamFailure) (allowed : List Text) (s : S)
      → sent (u.final_proxy_error m g allowed s).1 ≡ sent s
  pub of_wait : (d : ℕ) (s : S) → sent (u.wait d s).1 ≡ sent s

module _ {S R : Type 0} (u : Upstream S R) (sent : S → ℕ) (c : Counts u sent) (model : Text) where
  -- The result of a step that has sent `n` requests more than at `s₀`, at the most.
  AtMost : ℕ → S → Step R × S → Type 0
  AtMost n s₀ r = sent r.1 ≤ sent s₀ + n

  AtMost-intro : (n : ℕ) (s₀ : S) (x : Step R) (s : S) → sent s ≤ sent s₀ + n → AtMost n s₀ (x, s)
  unfolding AtMost
  AtMost-intro n s₀ x s h = h

  AtMost-inv : (n : ℕ) (s₀ : S) (r : Step R × S) → AtMost n s₀ r → sent r.1 ≤ sent s₀ + n
  unfolding AtMost
  AtMost-inv n s₀ r h = h

  Continues : (n : ℕ) (s₀ : S) → (Dict UpstreamFailure → S → Step R × S) → Type 0
  Continues n s₀ next =
      (g : Dict UpstreamFailure) (s : S) → sent s ≤ sent s₀ + n → AtMost n s₀ (next g s)

  mark_and_record-AtMost :
      (a : Auth) (f : UpstreamFailure) (g : Dict UpstreamFailure)
      (next : Dict UpstreamFailure → S → Step R × S) (n : ℕ) (s₀ s : S)
      → sent s ≤ sent s₀ + n
      → Continues n s₀ next
      → AtMost n s₀ (mark_and_record u a model f g next s)
  unfolding Continues
  mark_and_record-AtMost a f g next n s₀ s h k =
      mark_and_record_rule u (AtMost n s₀) a model f g next s
        (λ _. AtMost-intro n s₀ _ _ (omega (arith, c.of_mark a model f s)))
        (λ g'. k g' _ (omega (arith, c.of_mark a model f s)))

  recorded-AtMost :
      (a : Auth) (f : UpstreamFailure) (g : Dict UpstreamFailure) (n : ℕ) (s₀ s : S)
      → sent s ≤ sent s₀ + n
      → AtMost n s₀ (mark_and_record u a model f g (λ g' s'. (continued g', s')) s)
  unfolding Continues
  recorded-AtMost a f g n s₀ s h =
      mark_and_record-AtMost a f g (λ g' s'. (continued g', s')) n s₀ s h
        (λ g' s'. AtMost-intro n s₀ (continued g') s')

  finish_healthy-AtMost :
      (a : Auth) (b : SessionAffinityBinding) (resp : R) (n : ℕ) (s₀ s : S)
      → sent s ≤ sent s₀ + n
      → AtMost n s₀ (finish_healthy u a b model resp s)
  finish_healthy-AtMost a b resp n s₀ s h =
      finish_healthy_rule u (AtMost n s₀) a b model resp s
        (λ _. AtMost-intro n s₀ _ _ (omega (arith, c.of_healthy a model s)))

  retried_response-AtMost :
      (a : Auth) (b : SessionAffinityBinding) (g : Dict UpstreamFailure) (resp : R) (n : ℕ)
      (s₀ s : S)
      → sent s ≤ sent s₀ + n
      → AtMost n s₀ (retried_response u a b model g resp s)
  unfolding retried_response
  retried_response-AtMost a b g resp n s₀ s h =
      let f = u.classify resp model (u.current_time s) in
      if_rule (AtMost n s₀) (kind_is_none f.kind) (finish_healthy-AtMost a b resp n s₀ s h) (
        if_rule (AtMost n s₀) (kind_is_request_scoped f.kind)
          (AtMost-intro n s₀ (ended (responded resp a b)) s h)
          (recorded-AtMost a
            (if kind_is_unauthorized f.kind then unauthorized_failure failure_unauthorized f else f)
            g n s₀ s h))

  with_retry-AtMost :
      (a : Auth) (b : SessionAffinityBinding) (g : Dict UpstreamFailure) (r : Result Error R × S)
      (n : ℕ) (s₀ : S)
      → sent r.1 ≤ sent s₀ + n
      → AtMost n s₀ (with_retry u a b model g r)
  unfolding Continues
  with_retry-AtMost a b g (ok resp, s) n s₀ h = retried_response-AtMost a b g resp n s₀ s h
  with_retry-AtMost a b g (err e, s) n s₀ h =
      unless_canceled_rule u (AtMost n s₀) s _ (λ _. AtMost-intro n s₀ _ _ h)
        (recorded-AtMost a (network_failure (u.current_time s)) g n s₀ s h)

  with_refresh-AtMost :
      (a : Auth) (b : SessionAffinityBinding) (g : Dict UpstreamFailure) (r : Result Error Auth × S)
      (n : ℕ) (s₀ : S)
      → sent r.1 + 1 ≤ sent s₀ + n
      → AtMost n s₀ (with_refresh u a b model g r)
  unfolding Continues
  with_refresh-AtMost a b g (ok a', s) n s₀ h =
      or_end_rule u (AtMost n s₀) (u.mark_credential_healthy a' s) _
        (λ _. AtMost-intro n s₀ _ _ (omega (arith, c.of_credential a' s)))
        (λ _.
          with_retry-AtMost a' b g _ n s₀ (
            omega
              (arith, c.of_credential a' s, c.of_attempt a' (u.mark_credential_healthy a' s).1)))
  with_refresh-AtMost a b g (err e, s) n s₀ h =
      unless_canceled_rule u (AtMost n s₀) s _ (λ _. AtMost-intro n s₀ _ _ (omega arith))
        (recorded-AtMost a (with_code (preparation_failure e (u.current_time s))) g n s₀ s
          (omega arith))

  repair_unauthorized-AtMost :
      (a : Auth) (b : SessionAffinityBinding) (g : Dict UpstreamFailure) (n : ℕ) (s₀ s : S)
      → sent s + 1 ≤ sent s₀ + n
      → AtMost n s₀ (repair_unauthorized u a b model g s)
  unfolding repair_unauthorized
  repair_unauthorized-AtMost a b g n s₀ s h =
      with_refresh-AtMost a b g _ n s₀ (omega (arith, c.of_refresh a a.access_token s))

  -- Where a step may not be repeated, it goes on only if nothing was sent.
  pub Budget : Bool → S → Step R × S → Type 0
  Budget true s₀ r = AtMost 2 s₀ r
  Budget false s₀ (ended x, s) = sent s ≤ sent s₀ + 1
  Budget false s₀ (continued g, s) = sent s ≤ sent s₀

  Budget-ended :
      (b : Bool) (s₀ : S) (x : Ending R) (s : S) → sent s ≤ sent s₀ + 1 → Budget b s₀ (ended x, s)
  unfolding Budget AtMost
  Budget-ended true s₀ x s h = omega arith
  Budget-ended false s₀ x s h = h

  Budget-continued :
      (b : Bool) (s₀ : S) (g : Dict UpstreamFailure) (s : S)
      → sent s ≤ sent s₀
      → Budget b s₀ (continued g, s)
  unfolding Budget AtMost
  Budget-continued true s₀ x s h = omega arith
  Budget-continued false s₀ x s h = h

  pub Budget-true_inv : (s₀ : S) (r : Step R × S) → Budget true s₀ r → sent r.1 ≤ sent s₀ + 2
  unfolding Budget AtMost
  Budget-true_inv s₀ r h = h

  -- What a step that may not be repeated has sent, by how it ends.
  pub Budget-false_ended :
      (s₀ : S) (x : Ending R) (s : S) → Budget false s₀ (ended x, s) → sent s ≤ sent s₀ + 1
  unfolding Budget
  Budget-false_ended s₀ x s h = h

  pub Budget-false_continued :
      (s₀ : S) (g : Dict UpstreamFailure) (s : S)
      → Budget false s₀ (continued g, s)
      → sent s ≤ sent s₀
  unfolding Budget
  Budget-false_continued s₀ g s h = h

  Budget-true : (s₀ : S) (r : Step R × S) → AtMost 2 s₀ r → Budget true s₀ r
  unfolding Budget
  Budget-true s₀ r h = h

  module _ (b : SessionAffinityBinding) (s₀ : S) where
    -- A failure that is recorded after the request went out.
    sent_once :
        (replayable : Bool) (a : Auth) (f : UpstreamFailure) (g : Dict UpstreamFailure) (s : S)
        (x : Dict UpstreamFailure → S → Step R × S)
        → sent s ≤ sent s₀ + 1
        → ((g' : Dict UpstreamFailure) (s' : S) → sent s' ≤ sent s₀ + 1 → Budget false s₀ (x g' s'))
        → Budget replayable s₀ (
            mark_and_record u a model f g
              (λ g' s'. if replayable then (continued g', s') else x g' s')
              s)
    unfolding Continues
    sent_once true a f g s x h k = Budget-true s₀ _ (recorded-AtMost a f g 2 s₀ s (omega arith))
    sent_once false a f g s x h k =
        mark_and_record_rule u (Budget false s₀) a model f g x s
          (λ e. Budget-ended false s₀ _ _ (omega (arith, c.of_mark a model f s)))
          (λ g'. k g' _ (omega (arith, c.of_mark a model f s)))

    first_response-Budget :
        (replayable : Bool) (allowed : List Text) (a : Auth) (g : Dict UpstreamFailure) (resp : R)
        (s : S)
        → sent s ≤ sent s₀ + 1
        → Budget replayable s₀ (first_response u model replayable allowed a b g resp s)
    unfolding first_response
    first_response-Budget replayable allowed a g resp s h =
        let f = u.classify resp model (u.current_time s) in
        if_rule (Budget replayable s₀) (kind_is_unauthorized f.kind)
          (unauthorized_response replayable)
          (if_rule (Budget replayable s₀) (kind_is_none f.kind)
            (finish_healthy_rule u (Budget replayable s₀) a b model resp s
              (λ x. Budget-ended replayable s₀ x _ (omega (arith, c.of_healthy a model s))))
            (if_rule (Budget replayable s₀) (kind_is_request_scoped f.kind)
              (Budget-ended replayable s₀ (responded resp a b) s h)
              (sent_once replayable a f g s (λ _ s'. (ended (responded resp a b), s')) h
                (λ _ s'. Budget-ended false s₀ (responded resp a b) s'))))
      where
        unauthorized_response :
            (b' : Bool)
            → Budget b' s₀ (
                if b'
                then repair_unauthorized u a b model g s
                else or_end u
                    (u.mark_auth_failure a model
                      (unauthorized_failure failure_credential
                        (u.classify resp model (u.current_time s)))
                      s)
                    (λ _ s'. (ended (responded resp a b), s')))
        unauthorized_response true =
            Budget-true s₀ _ (repair_unauthorized-AtMost a b g 2 s₀ s (omega arith))
        unauthorized_response false =
            let f =
              unauthorized_failure failure_credential (u.classify resp model (u.current_time s)) in
            or_end_rule u (Budget false s₀) (u.mark_auth_failure a model f s) _
              (λ e. Budget-ended false s₀ _ _ (omega (arith, c.of_mark a model f s)))
              (λ _. Budget-ended false s₀ _ _ (omega (arith, c.of_mark a model f s)))

    with_attempt-Budget :
        (replayable : Bool) (allowed : List Text) (a : Auth) (g : Dict UpstreamFailure)
        (r : Result Error R × S)
        → sent r.1 ≤ sent s₀ + 1
        → Budget replayable s₀ (with_attempt u model replayable allowed a b g r)
    with_attempt-Budget replayable allowed a g (ok resp, s) h =
        first_response-Budget replayable allowed a g resp s h
    with_attempt-Budget replayable allowed a g (err e, s) h =
        unless_canceled_rule u (Budget replayable s₀) s _
          (λ e'. Budget-ended replayable s₀ (failed e') s h)
          (sent_once replayable a (network_failure (u.current_time s)) g s
            (λ g' s'. give_up_with u model replayable allowed a b g' s') h
            (λ g' s' h'. Budget-ended false s₀ _ _ (omega (arith, c.of_final model g' allowed s'))))

    with_prepared-Budget :
        (replayable : Bool) (allowed : List Text) (a : Auth) (g : Dict UpstreamFailure)
        (r : Result Error Auth × S)
        → sent r.1 ≤ sent s₀
        → Budget replayable s₀ (with_prepared u model replayable allowed a b g r)
    with_prepared-Budget replayable allowed a g (ok p, s) h =
        with_attempt-Budget replayable allowed p g (u.attempt p s) (omega (arith, c.of_attempt p s))
    with_prepared-Budget replayable allowed a g (err e, s) h =
        let f = preparation_failure e (u.current_time s) in
        unless_canceled_rule u (Budget replayable s₀) s _
          (λ e'. Budget-ended replayable s₀ (failed e') s (omega arith))
          (mark_and_record_rule u (Budget replayable s₀) a model f g _ s
            (λ e'. Budget-ended replayable s₀ (failed e') _ (omega (arith, c.of_mark a model f s)))
            (λ g'. Budget-continued replayable s₀ g' _ (omega (arith, c.of_mark a model f s))))

  pub try_auth-Budget :
      (replayable : Bool) (allowed : List Text) (a : Auth) (b : SessionAffinityBinding)
      (g : Dict UpstreamFailure) (s : S)
      → Budget replayable s (try_auth u model replayable allowed a b g s)
  unfolding try_auth
  try_auth-Budget replayable allowed a b g s =
      with_prepared-Budget b s replayable allowed a g (u.prepare_auth a s)
        (omega (arith, c.of_prepare a s))
