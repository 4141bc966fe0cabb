-- ===== src/Proxy/Links.antt =====
-- `build_proxy_url` of src/proxy/handler.rs. A `HashMap` is a list of its entries in the order of
-- its iteration; the crate urlencoding, and those of src/auth/encryption.rs, are parameters.
pub mod Served
use mediaflow_proxy_light.Base.{
  ℕ, ◌+◌, ◌%◌, ◌^◌, Bool, true, false, List, [], ◌∷◌, ◌++◌, Option, none, some, ◌==◌, if◌then◌else◌,
  is_empty, Bytes, ascii, to_lowercase, strip_prefix, starts_with, contains_bytes, trim_start,
  trim_end,
}
use mathlib.Core.Option.{get_or}
use mathlib.Core.Option
use mediaflow_proxy_light.Auth.Encryption.{
  JsonMap, map_insert, Json, ProxyData, Crates, derive_key, encrypt,
}

abbrev pub Pairs : Type 0
Pairs = List (Bytes × Bytes)

-- The arguments behind the base URL.
pub record Link : Type 0 where
  pub endpoint : Option Bytes
  pub destination_url : Bytes
  pub query_params : Pairs
  pub request_headers : Pairs
  pub response_headers : Pairs
  pub propagate_response_headers : Pairs
  pub remove_response_headers : List Bytes
  pub stream_transformer : Option Bytes
  pub filename : Option Bytes
  pub api_password : Option Bytes
  pub expiration : Option ℕ
  pub ip : Option Bytes
  pub base64_encode_destination : Bool

abbrev pub is_slash : ℕ → Bool
is_slash c = c == b'/'

abbrev pub supported_request_headers : List Bytes
supported_request_headers = ascii "range" ∷ ascii "if-range" ∷ []

-- An empty endpoint counts as none.
abbrev pub endpoint_path : Option Bytes → Bytes
endpoint_path none = []
endpoint_path (some []) = []
endpoint_path (some (c ∷ cs)) = b'/' ∷ trim_start is_slash (c ∷ cs)

abbrev pub filled : Option Bytes → Option Bytes
filled none = none
filled (some []) = none
filled (some (c ∷ cs)) = some (c ∷ cs)

abbrev pub joined_by : ℕ → List Bytes → Bytes
joined_by sep [] = []
joined_by sep (s ∷ []) = s
joined_by sep (s ∷ t ∷ ts) = s ++ sep ∷ joined_by sep (t ∷ ts)

abbrev pub nonempty_pairs : Pairs → Pairs
nonempty_pairs [] = []
nonempty_pairs ((k, v) ∷ kvs) =
    let rest = nonempty_pairs kvs in if is_empty v then rest else (k, v) ∷ rest

abbrev pub prefixed : Bytes → Bytes → Bytes
prefixed prefix k = if starts_with k prefix then k else prefix ++ k

abbrev pub prefixed_pairs : Bytes → Pairs → Pairs
prefixed_pairs prefix [] = []
prefixed_pairs prefix ((k, v) ∷ kvs) =
    let rest = prefixed_pairs prefix kvs in
    if is_empty v then rest else (prefixed prefix k, v) ∷ rest

-- The headers of single requests are left out.
abbrev pub is_dynamic : Bytes → Bool
is_dynamic k =
    let k_lower = to_lowercase k in
    contains_bytes supported_request_headers (get_or (strip_prefix (ascii "h_") k_lower) k_lower)

abbrev pub header_pairs : Pairs → Pairs
header_pairs [] = []
header_pairs ((k, v) ∷ kvs) =
    let rest = header_pairs kvs in
    if is_empty v then rest else if is_dynamic k then rest else (prefixed (ascii "h_") k, v) ∷ rest

module _ {J : Type 0} (json : Json J) (crates : Crates J) (url_encode : Bytes → Bytes) where
  -- `to_value` of a map of texts.
  abbrev pub entries : Pairs → JsonMap J → JsonMap J
  entries [] m = m
  entries ((k, v) ∷ kvs) m = entries kvs (map_insert k (json.string v) m)

  abbrev pub to_value : Pairs → J
  to_value kvs = json.object (entries kvs [])

  abbrev pub link_data : ℕ → Link → ProxyData J
  link_data now l = record {
    destination = l.destination_url;
    query_params = some (to_value l.query_params);
    request_headers = some (to_value l.request_headers);
    response_headers = some (to_value l.response_headers);
    exp = Option.map (λ e. (now + e) % 2 ^ 64) l.expiration;
    ip = l.ip;
  }

  abbrev pub with_filename : Option Bytes → Bytes → Bytes
  with_filename none url = url
  with_filename (some fname) url = url ++ b'/' ∷ url_encode fname

  abbrev pub query_text : Pairs → List Bytes
  query_text [] = []
  query_text ((k, v) ∷ kvs) = (k ++ b'=' ∷ url_encode v) ∷ query_text kvs

  abbrev pub plain_params : Link → Pairs
  plain_params l =
      (if l.base64_encode_destination then [] else (ascii "d", l.destination_url) ∷ [])
      ++ nonempty_pairs l.query_params
      ++ header_pairs l.request_headers
      ++ prefixed_pairs (ascii "r_") l.response_headers
      ++ prefixed_pairs (ascii "rp_") l.propagate_response_headers
      ++ (if is_empty l.remove_response_headers
          then []
          else (ascii "x_headers", joined_by b',' l.remove_response_headers) ∷ [])
      ++ elim l.stream_transformer [ none ↦ [] | some t ↦ (ascii "transformer", t) ∷ [] ]

  abbrev pub plain_path : Bytes → Link → Bytes
  plain_path url l =
      if l.base64_encode_destination
      then url ++ b'/' ∷ crates.base64_encode l.destination_url
      else with_filename l.filename url

  -- The two forms of a link behind the base URL: with a password, and without one.
  unfoldable pub token_path : ℕ → Bytes → Bytes → Link → Bytes
  unfolding map_insert derive_key encrypt
  token_path now iv password l =
      let token = encrypt json crates (derive_key password) iv (link_data now l) in
      with_filename l.filename (ascii "/_token_" ++ token ++ endpoint_path l.endpoint)

  unfoldable pub plain_url : Bytes → Link → Bytes
  plain_url base l =
      let url = plain_path (base ++ endpoint_path l.endpoint) l in
      let params = plain_params l in
      if is_empty params then url else url ++ b'?' ∷ joined_by b'&' (query_text params)

  -- At a time, with the vector that is drawn for the token.
  unfoldable pub build_proxy_url : ℕ → Bytes → Bytes → Link → Bytes
  unfolding token_path plain_url
  build_proxy_url now iv mediaflow_proxy_url l =
      let base = trim_end is_slash mediaflow_proxy_url in
      elim (filled l.api_password) [
        | some password ↦ base ++ token_path now iv password l
        | none ↦ plain_url base l
      ]
