-- ===== src/Tests/Paths.antt =====
-- Requests that are routed (internal/codexonly/server.go).
use codex_oauth_proxy.Prelude.{
  ◌≡◌, refl, true, false, [], none, some, Text, text, ◌⊎◌, ◌↔◌, ◌++◌, text_eq,
}
use codex_oauth_proxy.Routes.{
  UpstreamRoute, codex_route, target_path, codex_base, chat_gpt_base, strip_path_prefix,
  proxy_route, codex_endpoint_suffix, is_codex_endpoint_suffix,
}
use codex_oauth_proxy.Routes.Laws.{codex_endpoint_suffix_iff, proxy_route-cases}

codex_endpoint_suffix_iff_example :
    (codex_endpoint_suffix (text "/v1/responses") ≡ some (text "/responses")) ↔ (
      (is_codex_endpoint_suffix (text "/responses") ≡ true)
      × ((text "/v1/responses" ≡ text "/backend-api/codex" ++ text "/responses")
          ⊎ (text "/v1/responses" ≡ text "/v1" ++ text "/responses")))
codex_endpoint_suffix_iff_example =
    codex_endpoint_suffix_iff (text "/v1/responses") (text "/responses")

abbrev responses_route : UpstreamRoute
responses_route = codex_route [] (text "/responses")

proxy_route-cases_example :
    ((responses_route.allow_upstream_auth ≡ true)
      × (responses_route.base_url ≡ chat_gpt_base)
      × (responses_route.responses_websocket ≡ false)
      × (codex_endpoint_suffix (text "/v1/responses") ≡ none))
    ⊎ ((responses_route.allow_upstream_auth ≡ false)
        × (responses_route.base_url ≡ codex_base)
        × ((suffix : Text) × (codex_endpoint_suffix (text "/v1/responses") ≡ some suffix)
            × (responses_route.path ≡ target_path [] (text "/backend-api/codex") suffix)))
unfolding proxy_route codex_endpoint_suffix strip_path_prefix is_codex_endpoint_suffix text_eq
proxy_route-cases_example = proxy_route-cases [] [] (text "/v1/responses") responses_route refl
