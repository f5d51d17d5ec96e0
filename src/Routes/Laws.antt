-- ===== src/Routes/Laws.antt =====
-- What the routes of the proxy let through (server.go).
use codex_oauth_proxy.Prelude.{
  Bool, Bool-cases, All, sym, true, false, List, [], ◌∷◌, ◌++◌, Option, none, some, Text, text,
  text_eq, text_eq_iff, is_empty, ◌≡◌, refl, arith, ◌⊎◌, inl, inr, ◌↔◌,
}
use codex_oauth_proxy.Routes.{
  codex_endpoints, after_prefix, strip_path_prefix, one_of, is_codex_endpoint_suffix,
  codex_endpoint_suffix, UpstreamRoute, proxy_route, first_route, only_if, or_else, codex_base,
  chat_gpt_base, starts_with_slash, strip_from, chat_gpt_file_endpoint_suffix,
  chat_gpt_wham_endpoint_suffix, chat_gpt_hosted_mcp_endpoint_suffix, target_path,
}

after_prefix-append : (p s : Text) → after_prefix p (p ++ s) ≡ some s
unfolding after_prefix
after_prefix-append [] s = refl
after_prefix-append (c ∷ p) s = ground (arith, after_prefix-append p s)

after_prefix_inv : (p s rest : Text) → after_prefix p s ≡ some rest → s ≡ p ++ rest
unfolding after_prefix
after_prefix_inv [] s rest h = ground (arith, h)
after_prefix_inv (c ∷ p) [] rest h = ground (arith, h)
after_prefix_inv (c ∷ p) (d ∷ s) rest h = ground (arith, h, after_prefix_inv p s rest)

-- What is left of a path below a prefix that is not empty: the path is the prefix and that, unless it is
-- the prefix alone, which counts as the root.
strip_path_prefix_inv :
    (path prefix s : Text)
    → is_empty prefix ≡ false
    → strip_path_prefix path prefix ≡ some s
    → (path ≡ prefix ++ s) ⊎ (s ≡ text "/")
unfolding strip_path_prefix
strip_path_prefix_inv path [] s ne h = ground (arith, ne)
strip_path_prefix_inv path (c ∷ prefix) s ne h =
    go (after_prefix (c ∷ prefix) path) (after_prefix_inv (c ∷ prefix) path) h
  where
    go :
        (o : Option Text)
        → ((rest : Text) → o ≡ some rest → path ≡ c ∷ (prefix ++ rest))
        → strip_from o ≡ some s
        → (path ≡ c ∷ (prefix ++ s)) ⊎ (s ≡ text "/")
    go none known h = ground (arith, h)
    go (some []) known h = ground (arith, h)
    go (some (d ∷ rest)) known h = ground (arith, h, known (d ∷ rest) refl)

strip_path_prefix-append :
    (prefix s : Text)
    → is_empty prefix ≡ false
    → starts_with_slash s ≡ true
    → strip_path_prefix (prefix ++ s) prefix ≡ some s
unfolding strip_path_prefix
strip_path_prefix-append [] s ne h = ground (arith, ne)
strip_path_prefix-append (c ∷ prefix) [] ne h = ground (arith, h)
strip_path_prefix-append (c ∷ prefix) (d ∷ s) ne h =
    rw (after_prefix-append (c ∷ prefix) (d ∷ s)) (ground (arith, h))

-- A path below "/v1" is not below "/backend-api/codex".
v1_is_other : (s : Text) → strip_path_prefix (text "/v1" ++ s) (text "/backend-api/codex") ≡ none
unfolding strip_path_prefix after_prefix
v1_is_other s = refl

one_of-slash :
    (ts : List Text) (s : Text)
    → All (λ t. starts_with_slash t ≡ true) ts
    → one_of ts s ≡ true
    → starts_with_slash s ≡ true
unfolding one_of
one_of-slash [] s all h = ground (arith, h)
one_of-slash (t ∷ ts) s all h = elim (Bool-cases (text_eq t s)) [
  | inl same ↦ rw (sym ((text_eq_iff t s).0 same)) all.0
  | inr other ↦ one_of-slash ts s all.1 (ground (arith, h, other))
]

codex_endpoint_starts : (s : Text) → is_codex_endpoint_suffix s ≡ true → starts_with_slash s ≡ true
unfolding is_codex_endpoint_suffix
codex_endpoint_starts s h =
    one_of-slash codex_endpoints s
      (refl, (refl, (refl, (refl, (refl, (refl, (refl, (refl, tt)))))))) h

root_is_none : is_codex_endpoint_suffix (text "/") ≡ false
unfolding is_codex_endpoint_suffix one_of text_eq
root_is_none = refl

only_if_inv :
    (test : Text → Bool) (o : Option Text) (s : Text)
    → only_if test o ≡ some s
    → (o ≡ some s) × (test s ≡ true)
only_if_inv test none s h = ground (arith, h)
only_if_inv test (some t) s h = ground (arith, h)

or_else_inv : (o o' : Option Text) (s : Text) → or_else o o' ≡ some s → (o ≡ some s) ⊎ (o' ≡ some s)
or_else_inv none o' s h = inr h
or_else_inv (some t) o' s h = inl h

codex_below :
    (path prefix suffix : Text)
    → is_empty prefix ≡ false
    → is_codex_endpoint_suffix suffix ≡ true
    → strip_path_prefix path prefix ≡ some suffix
    → path ≡ prefix ++ suffix
codex_below path prefix suffix ne known h = elim (strip_path_prefix_inv path prefix suffix ne h) [
  | inl e ↦ e
  | inr root ↦ ground (arith, root, known, root_is_none)
]

-- A path is a Codex endpoint exactly if it is one of the known suffixes below one of the two prefixes.
pub codex_endpoint_suffix_iff :
    (path suffix : Text)
    → (codex_endpoint_suffix path ≡ some suffix) ↔ (
        (is_codex_endpoint_suffix suffix ≡ true)
        × ((path ≡ text "/backend-api/codex" ++ suffix) ⊎ (path ≡ text "/v1" ++ suffix)))
unfolding codex_endpoint_suffix
codex_endpoint_suffix_iff path suffix = (forward, backward)
  where
    forward :
        codex_endpoint_suffix path ≡ some suffix
        → (is_codex_endpoint_suffix suffix ≡ true)
          × ((path ≡ text "/backend-api/codex" ++ suffix) ⊎ (path ≡ text "/v1" ++ suffix))
    forward h =
        let found = only_if_inv is_codex_endpoint_suffix _ suffix h in
        (
          found.1,
          elim (or_else_inv (strip_path_prefix path (text "/backend-api/codex"))
              (strip_path_prefix path (text "/v1")) suffix found.0) [
                | inl e ↦ inl (codex_below path (text "/backend-api/codex") suffix refl found.1 e)
                | inr e ↦ inr (codex_below path (text "/v1") suffix refl found.1 e)
              ],
        )

    backward :
        (is_codex_endpoint_suffix suffix ≡ true)
          × ((path ≡ text "/backend-api/codex" ++ suffix) ⊎ (path ≡ text "/v1" ++ suffix))
        → codex_endpoint_suffix path ≡ some suffix
    backward (known, inl e) =
        rw
          (
            e,
            strip_path_prefix-append (text "/backend-api/codex") suffix refl
                (codex_endpoint_starts suffix known),
            known,
          )
          refl
    backward (known, inr e) =
        rw
          (
            e,
            v1_is_other suffix,
            strip_path_prefix-append (text "/v1") suffix refl (codex_endpoint_starts suffix known),
            known,
          )
          refl

-- A caller may pass credentials of its own only to the ChatGPT upstream, which serves no web socket; every
-- other route is a Codex endpoint on the Codex upstream. A Codex endpoint is never routed elsewhere.
pub proxy_route-cases :
    (base chat path : Text) (r : UpstreamRoute)
    → proxy_route base chat path ≡ some r
    → ((r.allow_upstream_auth ≡ true)
        × (r.base_url ≡ chat_gpt_base)
        × (r.responses_websocket ≡ false)
        × (codex_endpoint_suffix path ≡ none))
      ⊎ ((r.allow_upstream_auth ≡ false)
          × (r.base_url ≡ codex_base)
          × ((suffix : Text) × (codex_endpoint_suffix path ≡ some suffix)
              × (r.path ≡ target_path base (text "/backend-api/codex") suffix)))
unfolding proxy_route
proxy_route-cases base chat path r h =
    go (codex_endpoint_suffix path) (chat_gpt_file_endpoint_suffix path)
      (chat_gpt_wham_endpoint_suffix path) (chat_gpt_hosted_mcp_endpoint_suffix path) h
  where
    go :
        (codex file wham mcp : Option Text)
        → first_route base chat codex file wham mcp ≡ some r
        → ((r.allow_upstream_auth ≡ true)
            × (r.base_url ≡ chat_gpt_base)
            × (r.responses_websocket ≡ false)
            × (codex ≡ none))
          ⊎ ((r.allow_upstream_auth ≡ false)
              × (r.base_url ≡ codex_base)
              × ((suffix : Text) × (codex ≡ some suffix)
                  × (r.path ≡ target_path base (text "/backend-api/codex") suffix)))
    go (some s) file wham mcp e = ground (arith, e)
    go none (some s) wham mcp e = ground (arith, e)
    go none none (some s) mcp e = ground (arith, e)
    go none none none (some s) e = ground (arith, e)
    go none none none none e = ground (arith, e)
