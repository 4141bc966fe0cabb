-- ===== src/Examples/Routing.antt =====
-- Two routes that match the same URL, of which the one with more wildcards is taken.
use mediaflow_proxy_light.Base.{
  ◌≤◌, ◌≡◌, refl, Bool, true, false, List, [], ◌∷◌, Option, none, some, Bytes, ascii,
}
use mathlib.Core.List.{Memᴰ}
use mediaflow_proxy_light.Config.Router.{
  ProxyRouteConfig, ProxyRoute, wildcards, compiled, route_pattern, new, get_proxy_config,
}
use mediaflow_proxy_light.Config.Router.Wildcards.{get_proxy_config-wildcards}

-- A matcher that every text matches.
abbrev compile : Bytes → Option (Bytes → Bool)
compile pattern = some (λ s. true)

abbrev parse_url : Bytes → Option Bytes
parse_url url = some url

abbrev direct : ProxyRouteConfig
direct = record { proxy = false; proxy_url = none; verify_ssl = true }

abbrev proxied : ProxyRouteConfig
proxied = record { proxy = true; proxy_url = some (ascii "socks5://p"); verify_ssl = true }

abbrev routes_config : List (Bytes × ProxyRouteConfig)
routes_config = (ascii "all://cdn.example.com", direct) ∷ (ascii "all://*.com", proxied) ∷ []

abbrev exact_route : ProxyRoute
exact_route = record {
  pattern = record { text = route_pattern (ascii "all://cdn.example.com"); is_match = λ s. true };
  config = direct;
}

abbrev url : Bytes
url = ascii "https://cdn.example.com"

wide_taken : get_proxy_config parse_url (new compile none false routes_config) url ≡ some proxied
unfolding get_proxy_config new
wide_taken = refl

get_proxy_config-wildcards_example :
    (taken : ProxyRoute) × Memᴰ taken (compiled compile routes_config)
    × (taken.pattern.is_match url ≡ true)
    × (get_proxy_config parse_url (new compile none false routes_config) url ≡ some taken.config)
    × (wildcards exact_route ≤ wildcards taken)
get_proxy_config-wildcards_example =
    get_proxy_config-wildcards compile parse_url none false routes_config url url exact_route refl
      (Memᴰ.head refl) refl
