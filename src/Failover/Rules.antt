-- ===== src/Failover/Rules.antt =====
-- Case rules for the loop's combinators: a statement holds of the result if it holds on each branch.
use codex_oauth_proxy.Base.{Auth, Error}
use codex_oauth_proxy.Failover.{UpstreamFailure}
use codex_oauth_proxy.Failover.Loop.{
  Upstream, Step, ended, failed, Ending, or_end, unless_canceled, mark_and_record, finish_healthy,
}
use codex_oauth_proxy.Prelude.{
  Bool, true, false, if◌then◌else◌, Option, none, some, Dict, Text, Result, ok, err,
}
use codex_oauth_proxy.Store.{SessionAffinityBinding}

pub if_rule {ℓ} :
    {A : Type 0} (P : A → Type ℓ) (b : Bool) {x y : A} → P x → P y → P (if b then x else y)
if_rule P true p q = p
if_rule P false p q = q

module _ {S R : Type 0} (u : Upstream S R) (P : Step R × S → Type 0) where
  pub or_end_rule :
      {A : Type 0} (x : Result Error A × S) (next : A → S → Step R × S)
      → ((e : Error) → P (ended (failed e), x.1))
      → ((a : A) → P (next a x.1))
      → P (or_end u x next)
  or_end_rule (ok a, s) next on_error on_ok = on_ok a
  or_end_rule (err e, s) next on_error on_ok = on_error e

  pub unless_canceled_rule :
      (s : S) (x : Step R × S)
      → ((e : Error) → P (ended (failed e), s))
      → P x
      → P (unless_canceled u s (λ _. x))
  unless_canceled_rule s x on_error on_ok = go (u.ctx_error s)
    where
      go :
          (o : Option Error)
          → P (elim o as (λ _. Step R × S) [ some e ↦ (ended (failed e), s) | none ↦ x ])
      go none = on_ok
      go (some e) = on_error e

  pub mark_and_record_rule :
      (a : Auth) (model : Text) (f : UpstreamFailure) (g : Dict UpstreamFailure)
      (next : Dict UpstreamFailure → S → Step R × S) (s : S)
      → ((e : Error) → P (ended (failed e), (u.mark_auth_failure a model f s).1))
      → ((g' : Dict UpstreamFailure) → P (next g' (u.mark_auth_failure a model f s).1))
      → P (mark_and_record u a model f g next s)
  unfolding mark_and_record
  mark_and_record_rule a model f g next s on_error on_ok =
      or_end_rule (u.mark_auth_failure a model f s) _ on_error (λ _. on_ok _)

  pub finish_healthy_rule :
      (a : Auth) (b : SessionAffinityBinding) (model : Text) (resp : R) (s : S)
      → ((x : Ending R) → P (ended x, (u.mark_healthy a model s).1))
      → P (finish_healthy u a b model resp s)
  unfolding finish_healthy
  finish_healthy_rule a b model resp s on_end =
      or_end_rule (u.mark_healthy a model s) _ (λ e. on_end (failed e)) (λ _. on_end _)
