-- ===== src/Refresh/Current.antt =====
-- The refresh of the current credential (internal/codexonly/server.go): refreshCurrentAuth, with the
-- guards that reuse what another process has refreshed, prepareAuth and its callers. The scan of the files
-- is a parameter; a scan and the refresh run under one lock of the files.
use codex_oauth_proxy.Auths.{AuthReconcileResult, stable_auth_id}
use codex_oauth_proxy.Base.{Auth, Time, Error, plain, nil_error, is_blank}
use codex_oauth_proxy.Prelude.{
  Bool, true, false, not, ◌&&◌, ◌||◌, if◌then◌else◌, List, [], ◌∷◌, Option, none, some, Text, text,
  text_eq, is_empty, trim_space, M, Result, ok, err, fail, return, ◌>>=◌,
}
use codex_oauth_proxy.Refresh.Exchange.{new_oauth_refresh_error}
use codex_oauth_proxy.Refresh.Loop.{World, Trace, is_expired, refresh}

-- The key of the call that requests share.
unfoldable pub refresh_key : Auth → Text
unfolding stable_auth_id
refresh_key a =
    let key = trim_space a.id in
    if is_empty key then stable_auth_id a.account_id a.relative_path else key

unfoldable pub matching_auth : List Auth → Auth → Option Auth
matching_auth [] target = none
matching_auth (a ∷ auths) target =
    let rest = matching_auth auths target in if text_eq a.id target.id then some a else rest

-- What a caller of the refresh asks for: `failed_access_token` is the token that did not serve.
pub record Request : Type 0 where
  pub failed_access_token : Text
  pub reuse_changed_token : Bool
  pub force : Bool

-- The token was changed since the caller read it, and serves.
unfoldable pub is_refreshed : Request → Auth → Time → Bool
unfolding is_expired
is_refreshed q current now =
    not q.force
    && not (is_empty current.access_token)
    && not (text_eq current.access_token q.failed_access_token)
    && (q.reuse_changed_token || not (is_expired current now))

unfoldable pub refresh_matching : World → Time → Request → Option Auth → M Trace Error Auth
unfolding is_refreshed
refresh_matching w now q none =
    fail (new_oauth_refresh_error (text "auth is no longer available") 0 [] nil_error)
refresh_matching w now q (some current) =
    if is_refreshed q current now then return current else refresh w current

abbrev scanned : Request → AuthReconcileResult → List Auth
scanned q result = if q.force then result.auths else result.active

unfoldable pub refresh_current_auth :
    World → Time → Result Error AuthReconcileResult → Auth → Request → M Trace Error Auth
unfolding matching_auth refresh_matching
refresh_current_auth w now (err e) a q =
    fail (new_oauth_refresh_error (text "auth reload failed") 0 [] e)
refresh_current_auth w now (ok result) a q =
    refresh_matching w now q (matching_auth (scanned q result) a)

-- RefreshAfterUnauthorized
unfoldable pub refresh_after_unauthorized :
    World → Time → Result Error AuthReconcileResult → Auth → Text → M Trace Error Auth
unfolding refresh_current_auth
refresh_after_unauthorized w now result a failed_access_token =
    refresh_current_auth w now result a (record {
      failed_access_token =
          (if is_blank failed_access_token then a.access_token else failed_access_token);
      reuse_changed_token = true;
      force = false;
    })

-- ForceRefresh
unfoldable pub force_refresh :
    World → Time → Result Error AuthReconcileResult → Auth → M Trace Error Auth
unfolding refresh_current_auth
force_refresh w now result a =
    refresh_current_auth w now result a
      (record { failed_access_token = []; reuse_changed_token = false; force = true })

unfoldable pub with_access_token : Auth → M Trace Error Auth
with_access_token a =
    if is_blank a.access_token
    then fail (plain (text "codex auth has no access token"))
    else return a

-- prepareAuth
unfoldable pub prepare_auth :
    World → Time → Result Error AuthReconcileResult → Auth → M Trace Error Auth
unfolding is_expired refresh_current_auth with_access_token
prepare_auth w now result a =
    if is_expired a now
    then refresh_current_auth w now result a (record {
      failed_access_token = a.access_token;
      reuse_changed_token = false;
      force = false;
    })
      >>= with_access_token
    else with_access_token a
