-- ===== src/Failover/Loop.antt =====
-- executeUpstream and repairUnauthorized (internal/codexonly/failover.go): one request, tried with one
-- credential after another, in rounds. What the loop calls is the interface `Upstream`: the state `S`
-- stands for the server and the world, `R` for a response.
use codex_oauth_proxy.Auths.{AuthReconcileResult}
use codex_oauth_proxy.Base.{Auth, Time, Error, no_eligible_auth}
use codex_oauth_proxy.Failover.{
  UpstreamFailure, UpstreamFailureKind, failure_none, request_scoped, failure_unauthorized,
  failure_credential, record_failure, network_failure, preparation_failure, first_non_empty,
}
use codex_oauth_proxy.Prelude.{
  ℕ, zero, suc, ◌+◌, Bool, true, false, ◌&&◌, leb, ltb, if◌then◌else◌, List, ◌∷◌, Option, none,
  some, Text, text, Dict, M, Result, ok, err,
}
use codex_oauth_proxy.Store.{SessionAffinityBinding}

pub record Upstream (S R : Type 0) : Type 0 where
  pub reconcile_auths : M S Error AuthReconcileResult
  -- The credentials whose catalog lists the model: none if the capability is not known.
  pub supporting_auth_ids : Text → List Auth → S → Option (List Text)
  -- selectProxyAuthCandidate: the model, the tried and the allowed ids, and the binding so far.
  pub select_candidate :
      Text
      → List Text
      → List Text
      → SessionAffinityBinding
      → M S Error (Auth × SessionAffinityBinding)
  pub prepare_auth : Auth → M S Error Auth
  pub attempt : Auth → M S Error R
  -- classifyUpstreamResponse (Failover/Classify), which never returns an error.
  pub classify : R → Text → Time → UpstreamFailure
  pub mark_auth_failure : Auth → Text → UpstreamFailure → M S Error (Unit {0})
  pub mark_healthy : Auth → Text → M S Error (Unit {0})
  pub mark_credential_healthy : Auth → M S Error (Unit {0})
  -- RefreshAfterUnauthorized, of a copy of the credential: the refreshed copy.
  pub refresh_after_unauthorized : Auth → Text → M S Error Auth
  pub nearest_cooldown : Text → Dict UpstreamFailure → List Text → M S Error (Option Time)
  pub final_proxy_error : Text → Dict UpstreamFailure → List Text → S → Error × S
  pub wait : ℕ → M S Error (Unit {0})
  -- ctx.Err(), and the clock.
  pub ctx_error : S → Option Error
  pub current_time : S → Time

-- The configuration that the loop reads; 0 stands for a limit that is not set.
pub record RetryConfig : Type 0 where
  pub request_retry : ℕ
  pub max_retry_credentials : ℕ
  pub max_retry_interval : ℕ

-- What executeUpstream returns: a response with the credential that got it, an error, or, for an
-- attempt that cannot be repeated, an error with the credential that met it.
pub data Ending (R : Type 0) : Type 0 where
  responded : R → Auth → SessionAffinityBinding → Ending R
  failed : Error → Ending R
  failed_with : Auth → SessionAffinityBinding → Error → Ending R

-- One attempt ends the request, or leaves the failures that are known by then.
pub data Step (R : Type 0) : Type 0 where
  ended : Ending R → Step R
  continued : Dict UpstreamFailure → Step R

-- A round ends the request, or has no credential left; or the fuel was too little.
pub data Round (R : Type 0) : Type 0 where
  closed : Ending R → Round R
  open_round : Dict UpstreamFailure → SessionAffinityBinding → Round R
  out_of_fuel : Round R

abbrev pub is_no_eligible_auth : Error → Bool
is_no_eligible_auth no_eligible_auth = true
is_no_eligible_auth _ = false

abbrev pub kind_is_none : UpstreamFailureKind → Bool
kind_is_none failure_none = true
kind_is_none _ = false

abbrev pub kind_is_request_scoped : UpstreamFailureKind → Bool
kind_is_request_scoped request_scoped = true
kind_is_request_scoped _ = false

abbrev pub kind_is_unauthorized : UpstreamFailureKind → Bool
kind_is_unauthorized failure_unauthorized = true
kind_is_unauthorized _ = false

abbrev pub kind_is_credential : UpstreamFailureKind → Bool
kind_is_credential failure_credential = true
kind_is_credential _ = false

abbrev pub unauthorized_failure : UpstreamFailureKind → UpstreamFailure → UpstreamFailure
unauthorized_failure kind f = record {
  kind = kind;
  status_code = 401;
  error_code = first_non_empty f.error_code (text "unauthorized");
  reason = text "unauthorized";
  retry_at = 0;
  explicit = false;
}

-- `failure.Kind == credential && failure.ErrorCode == ""` becomes "unauthorized".
abbrev pub with_code : UpstreamFailure → UpstreamFailure
with_code f =
    if kind_is_credential f.kind
    then record f { error_code = first_non_empty f.error_code (text "unauthorized") }
    else f

module _ {S R : Type 0} (u : Upstream S R) where
  -- `if err != nil { return upstreamExecution{}, err }`
  abbrev pub or_end : {A : Type 0} → Result Error A × S → (A → S → Step R × S) → Step R × S
  or_end (ok a, s) next = next a s
  or_end (err e, s) next = (ended (failed e), s)

  -- markAuthFailure, then aggregate.record, then what comes next.
  unfoldable pub mark_and_record :
      Auth
      → Text
      → UpstreamFailure
      → Dict UpstreamFailure
      → (Dict UpstreamFailure → S → Step R × S)
      → S
      → Step R × S
  mark_and_record auth model f aggregate next s =
      or_end (u.mark_auth_failure auth model f s) (λ _. next (record_failure auth f aggregate))

  abbrev go_on : Dict UpstreamFailure → S → Step R × S
  go_on aggregate s = (continued aggregate, s)

  -- A success clears the credential's state, and the response is the request's.
  unfoldable pub finish_healthy : Auth → SessionAffinityBinding → Text → R → S → Step R × S
  finish_healthy auth binding model resp s =
      or_end (u.mark_healthy auth model s) (λ _ s'. (ended (responded resp auth binding), s'))

  -- The second half of repairUnauthorized: the response to the retry with fresh tokens.
  unfoldable pub retried_response :
      Auth → SessionAffinityBinding → Text → Dict UpstreamFailure → R → S → Step R × S
  unfolding mark_and_record finish_healthy
  retried_response refreshed binding model aggregate resp s =
      let f = u.classify resp model (u.current_time s) in
      if kind_is_none f.kind
      then finish_healthy refreshed binding model resp s
      else if kind_is_request_scoped f.kind
      then (ended (responded resp refreshed binding), s)
      else mark_and_record refreshed model
          (if kind_is_unauthorized f.kind then unauthorized_failure failure_unauthorized f else f)
          aggregate go_on s

  -- The context's error, if there is one, in place of what an operation's error leads to.
  abbrev pub unless_canceled : S → (Unit {0} → Step R × S) → Step R × S
  unless_canceled s next = elim (u.ctx_error s) [ some e ↦ (ended (failed e), s) | none ↦ next tt ]

  abbrev pub with_retry :
      Auth → SessionAffinityBinding → Text → Dict UpstreamFailure → Result Error R × S → Step R × S
  with_retry refreshed binding model aggregate (ok resp, s) =
      retried_response refreshed binding model aggregate resp s
  with_retry refreshed binding model aggregate (err e, s) =
      unless_canceled s (λ _.
        mark_and_record refreshed model (network_failure (u.current_time s)) aggregate go_on s)

  abbrev pub with_refresh :
      Auth
      → SessionAffinityBinding
      → Text
      → Dict UpstreamFailure
      → Result Error Auth × S
      → Step R × S
  with_refresh auth binding model aggregate (ok refreshed, s) =
      or_end (u.mark_credential_healthy refreshed s)
        (λ _ s'. with_retry refreshed binding model aggregate (u.attempt refreshed s'))
  with_refresh auth binding model aggregate (err e, s) = unless_canceled s (λ _.
      mark_and_record auth model (with_code (preparation_failure e (u.current_time s))) aggregate
        go_on s)

  -- repairUnauthorized, of a request that can be repeated: executeUpstream calls it for no other.
  unfoldable pub repair_unauthorized :
      Auth → SessionAffinityBinding → Text → Dict UpstreamFailure → S → Step R × S
  unfolding mark_and_record retried_response
  repair_unauthorized auth binding model aggregate s =
      with_refresh auth binding model aggregate
        (u.refresh_after_unauthorized auth auth.access_token s)

  module _ (model : Text) (replayable : Bool) (allowed : List Text) where
    -- A response: it is the request's, or its failure is recorded and the next credential is tried.
    unfoldable pub first_response :
        Auth → SessionAffinityBinding → Dict UpstreamFailure → R → S → Step R × S
    unfolding mark_and_record finish_healthy repair_unauthorized
    first_response auth binding aggregate resp s =
        let f = u.classify resp model (u.current_time s) in
        if kind_is_unauthorized f.kind
        then (if replayable
            then repair_unauthorized auth binding model aggregate s
            else or_end
                (u.mark_auth_failure auth model (unauthorized_failure failure_credential f) s)
                (λ _ s'. (ended (responded resp auth binding), s')))
        else if kind_is_none f.kind
        then finish_healthy auth binding model resp s
        else if kind_is_request_scoped f.kind
        then (ended (responded resp auth binding), s)
        else mark_and_record auth model f aggregate
            (λ aggregate' s'.
              if replayable
              then (continued aggregate', s')
              else (ended (responded resp auth binding), s'))
            s

    -- finalProxyError as the result of an attempt that cannot be repeated.
    abbrev pub give_up_with : Auth → SessionAffinityBinding → Dict UpstreamFailure → S → Step R × S
    give_up_with auth binding aggregate s =
        let (e, s') = u.final_proxy_error model aggregate allowed s in
        (ended (failed_with auth binding e), s')

    abbrev pub with_attempt :
        Auth → SessionAffinityBinding → Dict UpstreamFailure → Result Error R × S → Step R × S
    with_attempt auth binding aggregate (ok resp, s) = first_response auth binding aggregate resp s
    with_attempt auth binding aggregate (err e, s) = unless_canceled s (λ _.
        mark_and_record auth model (network_failure (u.current_time s)) aggregate
          (λ aggregate' s'.
            if replayable
            then (continued aggregate', s')
            else give_up_with auth binding aggregate' s')
          s)

    abbrev pub with_prepared :
        Auth → SessionAffinityBinding → Dict UpstreamFailure → Result Error Auth × S → Step R × S
    with_prepared auth binding aggregate (ok prepared, s) =
        with_attempt prepared binding aggregate (u.attempt prepared s)
    with_prepared auth binding aggregate (err e, s) = unless_canceled s (λ _.
        mark_and_record auth model (preparation_failure e (u.current_time s)) aggregate go_on s)

    -- The body of the inner loop, once a credential is selected.
    unfoldable pub try_auth : Auth → SessionAffinityBinding → Dict UpstreamFailure → S → Step R × S
    unfolding first_response mark_and_record
    try_auth auth binding aggregate s = with_prepared auth binding aggregate (u.prepare_auth auth s)

    abbrev pub selected :
        Result Error (Auth × SessionAffinityBinding) × S
        → (Error → S → Round R × S)
        → (Auth → SessionAffinityBinding → S → Round R × S)
        → Round R × S
    selected (ok (auth, binding), s) on_error next = next auth binding s
    selected (err e, s) on_error next = on_error e s

    abbrev pub stepped : Step R × S → (Dict UpstreamFailure → S → Round R × S) → Round R × S
    stepped (ended x, s) next = (closed x, s)
    stepped (continued aggregate, s) next = next aggregate s

    -- The inner loop. `tried` holds the ids of this round, newest first, and `attempted` their number.
    unfoldable pub round :
        ℕ → ℕ → List Text → ℕ → Dict UpstreamFailure → SessionAffinityBinding → S → Round R × S
    unfolding try_auth
    round limit zero tried attempted aggregate binding s = (out_of_fuel, s)
    round limit (suc fuel) tried attempted aggregate binding s =
        let again = λ (auth : Auth) (b : SessionAffinityBinding) (s₁ : S).
          stepped (try_auth auth b aggregate s₁)
            (λ aggregate'. round limit fuel (auth.id ∷ tried) (attempted + 1) aggregate' b) in
        if ltb 0 limit && leb limit attempted
        then (open_round aggregate binding, s)
        else selected (u.select_candidate model tried allowed binding s)
            (λ e s₁.
              if is_no_eligible_auth e
              then (open_round aggregate binding, s₁)
              else (closed (failed e), s₁))
            again
