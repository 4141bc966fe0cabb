-- ===== src/Config/Router/Wildcards.antt =====
-- Which of the routes that match a URL is taken.
use mediaflow_proxy_light.Base.{◌≤◌, ◌≡◌, refl, Bool, true, List, Option, some, Bytes}
use mathlib.Core.List.{Memᴰ}
use mediaflow_proxy_light.Config.Router.{
  ProxyRouteConfig, ProxyRoute, ProxyRouter, wildcards, sort_down, compiled, find_first, new,
  get_proxy_config,
}
use mediaflow_proxy_light.Config.Router.Order.{
  sort_down-Sorted, member-sort_down, sort_down-member, find_first-best,
}

get_proxy_config-found :
    (parse_url : Bytes → Option Bytes) (router : ProxyRouter) (url url_str : Bytes)
    (route : ProxyRoute)
    → parse_url url ≡ some url_str
    → find_first (λ r. r.pattern.is_match url_str) router.routes ≡ some route
    → get_proxy_config parse_url router url ≡ some route.config
unfolding get_proxy_config
get_proxy_config-found parse_url router url url_str route parsed found =
    rw (parsed, get_proxy_config) (rw found refl)

-- If a route that compiles matches the URL, the router answers with the settings of such a route
-- that has at least as many wildcards, in whatever order the routes were read.
pub get_proxy_config-wildcards :
    (compile : Bytes → Option (Bytes → Bool)) (parse_url : Bytes → Option Bytes)
    (default_proxy : Option Bytes) (all_proxy : Bool)
    (routes_config : List (Bytes × ProxyRouteConfig)) (url url_str : Bytes) (route : ProxyRoute)
    → parse_url url ≡ some url_str
    → Memᴰ route (compiled compile routes_config)
    → route.pattern.is_match url_str ≡ true
    → (taken : ProxyRoute) × Memᴰ taken (compiled compile routes_config)
      × (taken.pattern.is_match url_str ≡ true)
      × (get_proxy_config parse_url (new compile default_proxy all_proxy routes_config) url
          ≡ some taken.config)
      × (wildcards route ≤ wildcards taken)
unfolding new
get_proxy_config-wildcards compile parse_url default_proxy all_proxy routes_config url url_str route
      parsed member matches =
    let routes = compiled compile routes_config in
    let (taken, found, sorted, passes, more) =
      find_first-best wildcards (λ r. r.pattern.is_match url_str) (sort_down wildcards routes) route
        (sort_down-Sorted wildcards routes) (member-sort_down wildcards route routes member)
        matches in
    let router = new compile default_proxy all_proxy routes_config in
    (
      taken,
      sort_down-member wildcards taken routes sorted,
      passes,
      get_proxy_config-found parse_url router url url_str taken parsed found,
      more,
    )
