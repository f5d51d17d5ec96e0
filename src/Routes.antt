-- ===== src/Routes.antt =====
-- The routes of the proxy (internal/codexonly/server.go): which request path goes to which
-- upstream, and under which path. A URL is modelled by its escaped path.
use codex_oauth_proxy.Prelude.{
  ℕ, zero, suc, ◌-◌, ◌==◌, Bool, true, false, not, ◌&&◌, ◌||◌, if◌then◌else◌, List, [], ◌∷◌, ◌++◌,
  reverse, Option, none, some, Text, text, text_eq, text_eq_iff, text_eq_refl, is_empty, length,
  drop, take, ◌≡◌, refl, arith, ◌⊎◌, inl, inr, ◌≢◌, Bool-cases,
}
pub mod Laws

abbrev pub slash : ℕ
slash = 0x2f

-- strings.HasPrefix and TrimPrefix in one: what follows the prefix, none if the text has it not.
unfoldable pub after_prefix : Text → Text → Option Text
after_prefix [] s = some s
after_prefix (c ∷ p) [] = none
after_prefix (c ∷ p) (d ∷ s) = if c == d then after_prefix p s else none

abbrev pub has_prefix : Text → Text → Bool
has_prefix s p = elim (after_prefix p s) [ none ↦ false | some _ ↦ true ]

abbrev pub starts_with_slash : Text → Bool
starts_with_slash [] = false
starts_with_slash (c ∷ s) = c == slash

-- stripPathPrefix: what follows the prefix must be empty or begin with a slash.
abbrev pub or_root : Text → Option Text
or_root [] = some (slash ∷ [])
or_root (c ∷ s) = if c == slash then some (c ∷ s) else none

abbrev pub strip_from : Option Text → Option Text
strip_from none = none
strip_from (some rest) = or_root rest

unfoldable pub strip_path_prefix : Text → Text → Option Text
unfolding after_prefix
strip_path_prefix path [] = if starts_with_slash path then some path else none
strip_path_prefix path (c ∷ prefix) = strip_from (after_prefix (c ∷ prefix) path)

-- A switch whose cases are constants.
unfoldable pub one_of : List Text → Text → Bool
one_of [] s = false
one_of (t ∷ ts) s = text_eq t s || one_of ts s

abbrev pub codex_endpoints : List Text
codex_endpoints =
    text "/responses"
    ∷ text "/responses/compact"
    ∷ text "/alpha/search"
    ∷ text "/images/generations"
    ∷ text "/images/edits"
    ∷ text "/memories/trace_summarize"
    ∷ text "/realtime/calls"
    ∷ text "/realtime"
    ∷ []

unfoldable pub is_codex_endpoint_suffix : Text → Bool
unfolding one_of
is_codex_endpoint_suffix suffix = one_of codex_endpoints suffix

abbrev pub wham_endpoints : List Text
wham_endpoints =
    text "/wham/usage"
    ∷ text "/wham/profiles/me"
    ∷ text "/wham/accounts/check"
    ∷ text "/wham/accounts/send_add_credits_nudge_email"
    ∷ []

unfoldable pub is_chat_gpt_wham_endpoint_suffix : Text → Bool
unfolding one_of
is_chat_gpt_wham_endpoint_suffix suffix = one_of wham_endpoints suffix

abbrev pub mcp_endpoints : List Text
mcp_endpoints = text "/wham/apps" ∷ text "/ps/mcp" ∷ []

unfoldable pub is_chat_gpt_hosted_mcp_endpoint_suffix : Text → Bool
unfolding one_of
is_chat_gpt_hosted_mcp_endpoint_suffix suffix = one_of mcp_endpoints suffix

-- The file id of "/files/<id>/uploaded": not empty, and with no slash.
abbrev pub no_slash : Text → Bool
no_slash [] = true
no_slash (c ∷ s) = not (c == slash) && no_slash s

abbrev pub is_file_id : Text → Bool
is_file_id id = not (is_empty id) && no_slash id

-- strings.TrimSuffix after HasSuffix, on the text backwards.
abbrev pub upload_id : Option Text → Bool
upload_id none = false
upload_id (some id) = is_file_id (reverse id)

abbrev pub upload_rest : Option Text → Bool
upload_rest none = false
upload_rest (some rest) = upload_id (after_prefix (reverse (text "/uploaded")) (reverse rest))

unfoldable pub is_chat_gpt_file_endpoint_suffix : Text → Bool
unfolding after_prefix
is_chat_gpt_file_endpoint_suffix suffix =
    text_eq suffix (text "/files") || upload_rest (after_prefix (text "/files/") suffix)

abbrev pub only_if : (Text → Bool) → Option Text → Option Text
only_if test none = none
only_if test (some suffix) = if test suffix then some suffix else none

abbrev pub or_else : Option Text → Option Text → Option Text
or_else (some s) o = some s
or_else none o = o

unfoldable pub codex_endpoint_suffix : Text → Option Text
codex_endpoint_suffix path = only_if is_codex_endpoint_suffix (
    or_else (strip_path_prefix path (text "/backend-api/codex"))
      (strip_path_prefix path (text "/v1")))

unfoldable pub chat_gpt_file_endpoint_suffix : Text → Option Text
chat_gpt_file_endpoint_suffix path =
    only_if is_chat_gpt_file_endpoint_suffix
      (or_else (strip_path_prefix path (text "/backend-api")) (strip_path_prefix path []))

unfoldable pub chat_gpt_wham_endpoint_suffix : Text → Option Text
chat_gpt_wham_endpoint_suffix path =
    only_if is_chat_gpt_wham_endpoint_suffix (strip_path_prefix path (text "/backend-api"))

unfoldable pub chat_gpt_hosted_mcp_endpoint_suffix : Text → Option Text
chat_gpt_hosted_mcp_endpoint_suffix path =
    only_if is_chat_gpt_hosted_mcp_endpoint_suffix (strip_path_prefix path (text "/backend-api"))

-- strings.TrimRight(s, "/"), on the text backwards.
abbrev pub drop_slashes : Text → Text
drop_slashes [] = []
drop_slashes (c ∷ s) = if c == slash then drop_slashes s else c ∷ s

abbrev pub trim_right_slashes : Text → Text
trim_right_slashes s = reverse (drop_slashes (reverse s))

abbrev pub with_default : Text → Text → Text
with_default [] d = d
with_default (c ∷ s) d = c ∷ s

-- targetPath. `base_path` is the escaped path of the base URL, empty if there is none.
unfoldable pub target_path : Text → Text → Text → Text
target_path base_path default_base_path suffix =
    with_default (trim_right_slashes base_path) default_base_path
    ++ (if starts_with_slash suffix then suffix else slash ∷ suffix)

pub data Upstreams : Type 0 where
  codex_base chat_gpt_base : Upstreams

pub record UpstreamRoute : Type 0 where
  pub base_url : Upstreams
  pub path : Text
  pub responses_websocket : Bool
  pub allow_upstream_auth : Bool

abbrev pub chat_gpt_route : Text → Text → UpstreamRoute
chat_gpt_route chat_gpt_base_path suffix = record {
  base_url = chat_gpt_base;
  path = target_path chat_gpt_base_path (text "/backend-api") suffix;
  responses_websocket = false;
  allow_upstream_auth = true;
}

abbrev pub codex_route : Text → Text → UpstreamRoute
codex_route base_path suffix = record {
  base_url = codex_base;
  path = target_path base_path (text "/backend-api/codex") suffix;
  responses_websocket = text_eq suffix (text "/responses");
  allow_upstream_auth = false;
}

-- The first of the four families that knows the path.
abbrev pub first_route :
    Text → Text → Option Text → Option Text → Option Text → Option Text → Option UpstreamRoute
first_route base chat (some suffix) file wham mcp = some (codex_route base suffix)
first_route base chat none (some suffix) wham mcp = some (chat_gpt_route chat suffix)
first_route base chat none none (some suffix) mcp = some (chat_gpt_route chat suffix)
first_route base chat none none none (some suffix) = some (chat_gpt_route chat suffix)
first_route base chat none none none none = none

unfoldable pub proxy_route : Text → Text → Text → Option UpstreamRoute
proxy_route base_path chat_gpt_base_path path =
    first_route base_path chat_gpt_base_path (codex_endpoint_suffix path)
      (chat_gpt_file_endpoint_suffix path) (chat_gpt_wham_endpoint_suffix path)
      (chat_gpt_hosted_mcp_endpoint_suffix path)
