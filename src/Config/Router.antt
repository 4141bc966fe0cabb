-- ===== src/Config/Router.antt =====
-- The routes of the upstream proxies in src/config.rs. The crates regex and url are parameters, and
-- a `HashMap` is the list of its entries in the order of its iteration.
pub mod Order
pub mod Wildcards
use mediaflow_proxy_light.Base.{
  ℕ, zero, suc, ◌+◌, ◌-◌, Bool, true, false, not, ◌||◌, List, [], ◌∷◌, ◌++◌, Option, none, some,
  ltb, ◌==◌, if◌then◌else◌, is_empty, length, keep, Bytes, ascii, starts_with, replace, split_on,
}
use mediaflow_proxy_light.Utils.Url.{any_byte, is_control, is_ascii_whitespace}

pub record ProxyRouteConfig : Type 0 where
  pub proxy : Bool
  pub proxy_url : Option Bytes
  pub verify_ssl : Bool

-- A compiled pattern, its text and its test.
pub record Regex : Type 0 where
  pub text : Bytes
  pub is_match : Bytes → Bool

pub record ProxyRoute : Type 0 where
  pub pattern : Regex
  pub config : ProxyRouteConfig

pub record ProxyRouter : Type 0 where
  pub default_proxy : Option Bytes
  pub all_proxy : Bool
  pub routes : List ProxyRoute

abbrev pub route_pattern : Bytes → Bytes
route_pattern pattern =
    b'^'
    ∷ replace (ascii "all://") (ascii "(http|https)://")
        (replace (ascii "*") (ascii "[^/]*") (replace (ascii ".") (92 ∷ ascii ".") pattern))

-- `matches(pattern).count()`; the first number counts the bytes of a match still to be passed.
abbrev pub count_from : ℕ → Bytes → Bytes → ℕ
count_from passed pattern [] = 0
count_from (suc passed) pattern (c ∷ cs) = count_from passed pattern cs
count_from zero pattern (c ∷ cs) =
    if starts_with (c ∷ cs) pattern
    then 1 + count_from (length pattern - 1) pattern cs
    else count_from 0 pattern cs

abbrev pub wildcards : ProxyRoute → ℕ
wildcards r = count_from 0 (ascii "[^/]*") r.pattern.text

-- A stable sort, those with the larger key first.
module _ {ℓ} {A : Type ℓ} (key : A → ℕ) where
  abbrev pub insert_sorted : A → List A → List A
  insert_sorted x [] = x ∷ []
  insert_sorted x (y ∷ ys) = if ltb (key x) (key y) then y ∷ insert_sorted x ys else x ∷ y ∷ ys

  abbrev pub sort_down : List A → List A
  sort_down [] = []
  sort_down (x ∷ xs) = insert_sorted x (sort_down xs)

-- `iter().find`
abbrev pub find_first {ℓ} : {A : Type ℓ} → (A → Bool) → List A → Option A
find_first p [] = none
find_first p (x ∷ xs) = if p x then some x else find_first p xs

module _ (compile : Bytes → Option (Bytes → Bool)) where
  -- A pattern that does not compile is left out.
  abbrev pub compiled : List (Bytes × ProxyRouteConfig) → List ProxyRoute
  compiled [] = []
  compiled ((pattern, config) ∷ entries) =
      let rest = compiled entries in
      let text = route_pattern pattern in
      elim (compile text) [
        | none ↦ rest
        | some is_match ↦
            record { pattern = record { text = text; is_match = is_match }; config = config } ∷ rest
      ]

  unfoldable pub new : Option Bytes → Bool → List (Bytes × ProxyRouteConfig) → ProxyRouter
  new default_proxy all_proxy routes_config = record {
    default_proxy = default_proxy;
    all_proxy = all_proxy;
    routes = sort_down wildcards (compiled routes_config);
  }

-- With the parser of URLs, which gives a URL's text back in its normal form.
unfoldable pub get_proxy_config :
    (Bytes → Option Bytes) → ProxyRouter → Bytes → Option ProxyRouteConfig
get_proxy_config parse_url router url = elim (parse_url url) [
  | none ↦ none
  | some url_str ↦ elim (find_first (λ r. r.pattern.is_match url_str) router.routes) [
    | some route ↦ some route.config
    | none ↦
        if router.all_proxy
        then some (record { proxy = true; proxy_url = router.default_proxy; verify_ssl = true })
        else none
  ]
]

abbrev pub join_segments : List Bytes → Bytes
join_segments [] = []
join_segments (s ∷ ss) = b'/' ∷ s ++ join_segments ss

abbrev pub is_banned : ℕ → Bool
is_banned c = is_control c || is_ascii_whitespace c || c == b'?' || c == b'#' || c == 92

-- `none` for the error.
unfoldable pub normalize_server_path : Bytes → Option Bytes
normalize_server_path path =
    if any_byte is_banned path
    then none
    else some (join_segments (keep (λ s. not (is_empty s)) (split_on b'/' path)))
