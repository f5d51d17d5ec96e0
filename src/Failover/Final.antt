-- ===== src/Failover/Final.antt =====
-- nearestCooldown and finalProxyError (internal/codexonly/failover.go): how long the next round waits, and what
-- the caller is told when no credential serves the request. The scan that both start with has succeeded.
use codex_oauth_proxy.Base.{Auth, Time, ProxyFinalError, is_zero, before, second}
use codex_oauth_proxy.Failover.{UpstreamFailure, health_state_from_failure}
use codex_oauth_proxy.Failover.Rules.{if_rule}
use codex_oauth_proxy.Health.{AuthHealthState, AuthHealthRegistry}
use codex_oauth_proxy.Health.Queries.{blocked, nearest_cooldown}
use codex_oauth_proxy.Health.Rows.{contains}
use codex_oauth_proxy.Prelude.{
  ℕ, ◌+◌, ◌*◌, ◌==◌, ltb, leb, Bool, true, false, not, ◌&&◌, ◌||◌, if◌then◌else◌, List, [], ◌∷◌,
  Option, none, some, Text, text, Dict, lookup, ◌≡◌, refl, ◌≤◌, arith,
}
use codex_oauth_proxy.Store.{
  AuthHealthKind, quota, invalid_grant, unauthorized, credential_invalid, transient,
  model_unsupported, unset,
}

abbrev pub allowed_auths : List Text → List Auth → List Auth
allowed_auths allowed [] = []
allowed_auths allowed (a ∷ auths) =
    let rest = allowed_auths allowed auths in if contains a.id allowed then a ∷ rest else rest

-- A deadline of this request's failures is not earlier than now.
abbrev pub nearer_failure : Time → Option Time → UpstreamFailure → Option Time
nearer_failure now none f =
    if is_zero f.retry_at then none else some (if before f.retry_at now then now else f.retry_at)
nearer_failure now (some nearest) f =
    let retry_at = if before f.retry_at now then now else f.retry_at in
    if is_zero f.retry_at
    then some nearest
    else if before retry_at nearest
    then some retry_at
    else some nearest

abbrev pub nearest_failure : Time → Option Time → Dict UpstreamFailure → Option Time
nearest_failure now nearest [] = nearest
nearest_failure now nearest ((id, f) ∷ fs) = nearest_failure now (nearer_failure now nearest f) fs

-- nearestCooldown
unfoldable pub nearest_deadline :
    Time
    → (Auth → Time)
    → AuthHealthRegistry
    → List Auth
    → Text
    → Dict UpstreamFailure
    → List Text
    → Option Time
nearest_deadline now at health active model aggregate allowed =
    nearest_failure now (nearest_cooldown (allowed_auths allowed active) model now at health)
      aggregate

pub record StateCounts : Type 0 where
  pub total : ℕ
  pub model : ℕ
  pub disabled : ℕ
  pub credential : ℕ
  pub quota : ℕ
  pub transient : ℕ
  pub earliest_quota : Time

abbrev pub no_counts : StateCounts
no_counts = record {
  total = 0;
  model = 0;
  disabled = 0;
  credential = 0;
  quota = 0;
  transient = 0;
  earliest_quota = 0;
}

-- The health that blocks a credential, or else this request's failure of it.
abbrev pub or_failure : Option AuthHealthState → Option UpstreamFailure → Option AuthHealthState
or_failure (some s) f = some s
or_failure none (some f) = some (health_state_from_failure f)
or_failure none none = none

abbrev pub earlier_quota : Time → Time → Time
earlier_quota retry_at earliest =
    if not (is_zero retry_at) && (is_zero earliest || before retry_at earliest)
    then retry_at
    else earliest

abbrev pub count_kind : AuthHealthKind → Time → StateCounts → StateCounts
count_kind invalid_grant t c = record c { credential = c.credential + 1 }
count_kind unauthorized t c = record c { credential = c.credential + 1 }
count_kind credential_invalid t c = record c { credential = c.credential + 1 }
count_kind quota t c = record c {
  quota = c.quota + 1;
  earliest_quota = earlier_quota t c.earliest_quota;
}
count_kind transient t c = record c { transient = c.transient + 1 }
count_kind model_unsupported t c = record c { model = c.model + 1 }
count_kind unset t c = c

abbrev pub is_model_unsupported : AuthHealthKind → Bool
is_model_unsupported model_unsupported = true
is_model_unsupported _ = false

-- An unsupported model comes before a disabled credential, and that before its health.
abbrev pub count_state : Bool → Option AuthHealthState → StateCounts → StateCounts
count_state disabled none c = if disabled then record c { disabled = c.disabled + 1 } else c
count_state disabled (some s) c =
    if is_model_unsupported s.kind
    then record c { model = c.model + 1 }
    else if disabled
    then record c { disabled = c.disabled + 1 }
    else count_kind s.kind s.retry_at c

module _ (at : Auth → Time) (health : AuthHealthRegistry) (model : Text)
    (aggregate : Dict UpstreamFailure) where
  unfoldable pub count_auth : Auth → StateCounts → StateCounts
  count_auth a c =
      count_state a.disabled (or_failure (blocked a model (at a) health) (lookup a.id aggregate))
        (record c { total = c.total + 1 })

  unfoldable pub count_auths : List Text → StateCounts → List Auth → StateCounts
  unfolding count_auth
  count_auths allowed c [] = c
  count_auths allowed c (a ∷ auths) =
      count_auths allowed (if contains a.id allowed then count_auth a c else c) auths

abbrev pub final : ℕ → Text → Text → Time → ProxyFinalError
final status code message retry_at = record {
  status_code = status;
  code = code;
  message = message;
  retry_at = retry_at;
}

unfoldable pub error_of_counts : ℕ → Time → StateCounts → ProxyFinalError
error_of_counts max_retry_interval now c =
    if ltb 0 c.total && c.model == c.total
    then final 404 (text "model_not_found")
        (text "requested model is unavailable for all configured Codex auths") 0
    else if c.total == 0 || c.disabled + c.credential == c.total
    then final 503 (text "auth_unavailable") (text "upstream authentication unavailable") 0
    else if ltb 0 (c.quota + c.transient) && c.quota == c.quota + c.transient
    then final 429 (text "rate_limited") (text "all available Codex auths are rate limited")
        c.earliest_quota
    else if ltb 0 c.quota
        && ltb 0 c.transient
        && not (is_zero c.earliest_quota)
        && ltb 0 max_retry_interval
        && leb c.earliest_quota (now + max_retry_interval * second)
    then final 429 (text "rate_limited") (text "Codex capacity is temporarily rate limited")
        c.earliest_quota
    else final 502 (text "upstream_unavailable") (text "upstream Codex service unavailable") 0

-- finalProxyError
unfoldable pub final_error :
    ℕ
    → Time
    → (Auth → Time)
    → AuthHealthRegistry
    → List Auth
    → Text
    → Dict UpstreamFailure
    → List Text
    → ProxyFinalError
unfolding count_auths error_of_counts
final_error max_retry_interval now at health auths model aggregate allowed =
    error_of_counts max_retry_interval now
      (count_auths at health model aggregate allowed no_counts auths)

-- The reasons that are counted are those of different credentials.
abbrev pub reasons : StateCounts → ℕ
reasons c = c.model + c.disabled + c.credential + c.quota + c.transient

count_kind-reasons :
    (k : AuthHealthKind) (t : Time) (c : StateCounts)
    → (reasons (count_kind k t c) ≤ reasons c + 1) × ((count_kind k t c).total ≡ c.total)
count_kind-reasons quota t c = (omega arith, refl)
count_kind-reasons invalid_grant t c = (omega arith, refl)
count_kind-reasons unauthorized t c = (omega arith, refl)
count_kind-reasons credential_invalid t c = (omega arith, refl)
count_kind-reasons transient t c = (omega arith, refl)
count_kind-reasons model_unsupported t c = (omega arith, refl)
count_kind-reasons unset t c = (omega arith, refl)

count_state-reasons :
    (d : Bool) (o : Option AuthHealthState) (c : StateCounts)
    → (reasons (count_state d o c) ≤ reasons c + 1) × ((count_state d o c).total ≡ c.total)
count_state-reasons d none c = ground arith
count_state-reasons d (some s) c = ground (arith, count_kind-reasons s.kind s.retry_at c)

module _ (at : Auth → Time) (health : AuthHealthRegistry) (model : Text)
    (aggregate : Dict UpstreamFailure) where
  -- In the final count each allowed credential stands for at most one of the reasons for which the request
  -- was not served, so that the reasons are no more than the credentials.
  pub count_auths-reasons :
      (allowed : List Text) (auths : List Auth) (c : StateCounts)
      → reasons c ≤ c.total
      → reasons (count_auths at health model aggregate allowed c auths)
        ≤ (count_auths at health model aggregate allowed c auths).total
  unfolding count_auths count_auth
  count_auths-reasons allowed [] c h = h
  count_auths-reasons allowed (a ∷ auths) c h =
      let health_of_a = or_failure (blocked a model (at a) health) (lookup a.id aggregate) in
      let more = record c { total = c.total + 1 } in
      if_rule
        (λ c'.
          reasons (count_auths at health model aggregate allowed c' auths)
          ≤ (count_auths at health model aggregate allowed c' auths).total)
        (contains a.id allowed)
        (count_auths-reasons allowed auths (count_state a.disabled health_of_a more) (
          omega (
            arith,
            (count_state-reasons a.disabled health_of_a more).0,
            (count_state-reasons a.disabled health_of_a more).1,
          )))
        (count_auths-reasons allowed auths c h)
