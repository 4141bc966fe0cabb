-- ===== src/Auth/Middleware.antt =====
-- src/auth/middleware.rs: which requests reach the handlers, and with which data. The parser of
-- request URIs and the crate urlencoding are parameters; paths and queries are bytes.
pub mod Guard
pub mod Unguarded
use mediaflow_proxy_light.Base.{
  ℕ, Bool, true, false, not, ◌&&◌, ◌||◌, List, [], ◌∷◌, ◌++◌, Option, none, some, ◌==◌,
  if◌then◌else◌, is_empty, keep, Bytes, ascii, strip_prefix, starts_with, contains_bytes, split_on,
  split_first, split_last, bytes_equal, lookup, bytes_eq,
}
use mathlib.Core.Option.{get_or}
use mediaflow_proxy_light.Auth.Encryption.{
  JsonMap, Json, map_insert, ProxyData, AuthError, AuthResult, ok, err, Crates, derive_key, decrypt,
  or_else, and_then,
}

abbrev pub open_endpoints : List Bytes
open_endpoints =
    ascii "/proxy/generate_url"
    ∷ ascii "/generate_url"
    ∷ ascii "/generate_urls"
    ∷ ascii "/generate_encrypted_or_encoded_url"
    ∷ ascii "/health"
    ∷ ascii "/speedtest"
    ∷ ascii "/url-generator"
    ∷ ascii "/playlist/builder"
    ∷ []

abbrev pub static_extensions : List Bytes
static_extensions =
    ascii "html"
    ∷ ascii "js"
    ∷ ascii "css"
    ∷ ascii "png"
    ∷ ascii "jpg"
    ∷ ascii "jpeg"
    ∷ ascii "ico"
    ∷ ascii "svg"
    ∷ ascii "woff"
    ∷ ascii "woff2"
    ∷ ascii "ttf"
    ∷ []

-- `Path::file_name`: the last component, if it is no `..`. Empty parts and `.` are no components.
abbrev pub is_component : Bytes → Bool
is_component s = not (is_empty s) && not (bytes_equal s (ascii "."))

abbrev pub last_of : List Bytes → Option Bytes
last_of [] = none
last_of (x ∷ []) = some x
last_of (x ∷ xs) = last_of xs

abbrev pub file_name : Bytes → Option Bytes
file_name path = elim (last_of (keep is_component (split_on b'/' path))) [
  | none ↦ none
  | some name ↦ if bytes_equal name (ascii "..") then none else some name
]

-- `Path::extension`: what stands behind the last dot of the name, if something stands before it.
abbrev pub extension : Bytes → Option Bytes
extension path = elim (file_name path) [
  | none ↦ none
  | some name ↦ elim (split_last b'.' name) [
    | none ↦ none
    | some (before, after) ↦ if is_empty before then none else some after
  ]
]

unfoldable pub is_static_asset : Bytes → Bool
is_static_asset path =
    if bytes_equal path (ascii "/")
    then true
    else elim (extension path) [ none ↦ false | some e ↦ contains_bytes static_extensions e ]

-- What the guard reads of a request, and may write.
pub record Request : Type 0 where
  pub path : Bytes
  pub query_string : Bytes
  pub client_ip : Option Bytes

-- `urlencoding::decode` and `encode`, and `Uri`'s parser, to a path and a query.
pub record Texts : Type 0 where
  pub url_decode : Bytes → Option Bytes
  pub url_encode : Bytes → Bytes
  pub parse_uri : Bytes → Option (Bytes × Bytes)

-- A request that is handed on, with or without data, or is answered with an error.
pub data Answer (J : Type 0) : Type 0 where
  served : Request → Option (ProxyData J) → Answer J
  no_password_configured : Answer J
  bad_token : AuthError → Answer J
  bad_uri : Answer J
  unauthorized : Answer J

pub record AuthMiddleware : Type 0 where
  pub encryption_key : Option Bytes
  pub api_password : Bytes

unfoldable pub new : Bytes → AuthMiddleware
unfolding derive_key
new api_password = record {
  encryption_key = if not (is_empty api_password) then some (derive_key api_password) else none;
  api_password = api_password;
}

abbrev pub decode_or : Option Bytes → Bytes → Bytes
decode_or none value = value
decode_or (some d) value = d

abbrev pub token_prefix : Bytes
token_prefix = ascii "/_token_"

-- `find('/')`: the token, and the path from the slash on.
abbrev pub split_token : Bytes → Bytes × Bytes
split_token after_marker = elim (split_first b'/' after_marker) [
  | none ↦ (after_marker, b'/' ∷ [])
  | some (token, rest) ↦ (token, b'/' ∷ rest)
]

abbrev pub with_query : Bytes → Bytes → Bytes
with_query path qs = if is_empty qs then path else path ++ b'?' ∷ qs

module _ {J : Type 0} (json : Json J) (texts : Texts) where
  abbrev pub insert_pair : Bytes → JsonMap J → JsonMap J
  insert_pair pair params = elim (split_first b'=' pair) [
    | none ↦ params
    | some (key, value) ↦
        if not (is_empty key) && not (is_empty value)
        then map_insert key (json.string (decode_or (texts.url_decode value) value)) params
        else params
  ]

  abbrev pub insert_pairs : List Bytes → JsonMap J → JsonMap J
  insert_pairs [] params = params
  insert_pairs (pair ∷ pairs) params = insert_pairs pairs (insert_pair pair params)

  unfoldable pub extract_query_params : Bytes → JsonMap J
  unfolding map_insert
  extract_query_params query_string = insert_pairs (split_on b'&' query_string) []

  abbrev pub text_at : Bytes → JsonMap J → Option Bytes
  text_at key params = and_then (lookup key params) json.as_str

  -- The entries under a prefix, without it.
  abbrev pub stripped_entries : Bytes → JsonMap J → JsonMap J → JsonMap J
  stripped_entries prefix [] acc = acc
  stripped_entries prefix ((k, v) ∷ m) acc =
      stripped_entries prefix m
        (elim (strip_prefix prefix k) [ some stripped ↦ map_insert stripped v acc | none ↦ acc ])

  unfoldable pub build_proxy_data_from_query : JsonMap J → ProxyData J
  unfolding map_insert lookup
  build_proxy_data_from_query params = record {
    destination =
        get_or
          (and_then (or_else (lookup (ascii "d") params) (lookup (ascii "url") params)) json.as_str)
          [];
    query_params = some (json.object params);
    request_headers = some (json.object (stripped_entries (ascii "h_") params []));
    response_headers = some (json.object (stripped_entries (ascii "r_") params []));
    exp = none;
    ip = none;
  }

  abbrev pub keep_pair : Bytes → List (Bytes × Bytes)
  keep_pair pair = elim (split_first b'=' pair) [
    | none ↦ []
    | some (k, v) ↦
        if not (bytes_equal k (ascii "token")) && not (bytes_equal k (ascii "api_password"))
        then (k, decode_or (texts.url_decode v) v) ∷ []
        else []
  ]

  abbrev pub keep_pairs : List Bytes → List (Bytes × Bytes)
  keep_pairs [] = []
  keep_pairs (pair ∷ pairs) = keep_pair pair ++ keep_pairs pairs

  -- The texts of an object, with a prefix before the keys.
  abbrev pub text_entries : Bytes → JsonMap J → List (Bytes × Bytes)
  text_entries prefix [] = []
  text_entries prefix ((k, v) ∷ m) =
      let rest = text_entries prefix m in
      elim (json.as_str v) [ none ↦ rest | some s ↦ (prefix ++ k, s) ∷ rest ]

  abbrev pub object_entries : Bytes → Option J → List (Bytes × Bytes)
  object_entries prefix v = elim (and_then v json.as_object) [
    | none ↦ []
    | some m ↦ text_entries prefix m
  ]

  abbrev pub joined_pairs : List (Bytes × Bytes) → Bytes
  joined_pairs [] = []
  joined_pairs ((k, v) ∷ []) = k ++ b'=' ∷ texts.url_encode v
  joined_pairs ((k, v) ∷ pairs) = (k ++ b'=' ∷ texts.url_encode v) ++ b'&' ∷ joined_pairs pairs

  unfoldable pub build_query_from_proxy_data : ProxyData J → Bytes → Bytes
  build_query_from_proxy_data d existing_qs =
      let existing = if is_empty existing_qs then [] else keep_pairs (split_on b'&' existing_qs) in
      let destination = if is_empty d.destination then [] else (ascii "d", d.destination) ∷ [] in
      joined_pairs (
        existing
        ++ destination
        ++ object_entries [] d.query_params
        ++ object_entries (ascii "h_") d.request_headers
        ++ object_entries (ascii "r_") d.response_headers)

  abbrev pub moved : Request → Bytes × Bytes → Request
  moved req (path, query_string) = record req { path = path; query_string = query_string }

  module _ (crates : Crates J) where
    -- Without a password of the server.
    unfoldable pub call_open : Request → Answer J
    unfolding extract_query_params build_proxy_data_from_query
    call_open req =
        let params = extract_query_params req.query_string in
        if starts_with req.path token_prefix
          || elim (lookup (ascii "token") params) [ none ↦ false | some _ ↦ true ]
        then no_password_configured
        else served req (some (build_proxy_data_from_query params))

    -- With the data of a path token: a path that does not parse is an error.
    abbrev pub serve_path_token : Request → Bytes → AuthResult (ProxyData J) → Answer J
    serve_path_token req remaining_path (err e) = bad_token e
    serve_path_token req remaining_path (ok d) =
        elim (texts.parse_uri
          (with_query remaining_path (build_query_from_proxy_data d req.query_string))) [
            | none ↦ bad_uri
            | some uri ↦ served (moved req uri) (some d)
          ]

    -- With the data of a query token: a path that does not parse stays.
    abbrev pub serve_query_token : Request → AuthResult (ProxyData J) → Answer J
    serve_query_token req (err e) = bad_token e
    serve_query_token req (ok d) =
        elim (texts.parse_uri (with_query req.path (build_query_from_proxy_data d []))) [
          | none ↦ served req (some d)
          | some uri ↦ served (moved req uri) (some d)
        ]

    abbrev pub check_password : AuthMiddleware → Request → JsonMap J → Answer J
    check_password m req params = elim (text_at (ascii "api_password") params) [
      | none ↦ unauthorized
      | some password ↦
          if bytes_equal password m.api_password
          then served req (some (build_proxy_data_from_query params))
          else unauthorized
    ]

    abbrev pub check_query : AuthMiddleware → ℕ → Request → JsonMap J → Answer J
    check_query m now req params = elim (text_at (ascii "token") params) [
      | none ↦ check_password m req params
      | some token ↦ elim m.encryption_key [
        | none ↦ check_password m req params
        | some key ↦ serve_query_token req (decrypt json crates key now token req.client_ip)
      ]
    ]

    -- Behind the check for a path token.
    unfoldable pub call_rest : AuthMiddleware → ℕ → Request → Answer J
    unfolding is_static_asset extract_query_params build_proxy_data_from_query
        build_query_from_proxy_data decrypt
    call_rest m now req =
        if contains_bytes open_endpoints req.path || is_static_asset req.path
        then served req none
        else check_query m now req (extract_query_params req.query_string)

    unfoldable pub call : AuthMiddleware → ℕ → Request → Answer J
    unfolding call_open call_rest build_query_from_proxy_data decrypt
    call m now req =
        if is_empty m.api_password
        then call_open req
        else elim (strip_prefix token_prefix req.path) [
          | none ↦ call_rest m now req
          | some after_marker ↦ elim m.encryption_key [
            | none ↦ call_rest m now req
            | some key ↦
                let (token, remaining_path) = split_token after_marker in
                serve_path_token req remaining_path
                  (decrypt json crates key now token req.client_ip)
          ]
        ]
