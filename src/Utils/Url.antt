-- ===== src/Utils/Url.antt =====
-- src/utils/url.rs: the public base URL of the proxy, from the headers of a reverse proxy, and the
-- kind of a segment. Texts are ASCII.
pub mod Hosts
pub mod Paths
use mediaflow_proxy_light.Base.{
  ℕ, Bool, true, false, not, ◌&&◌, ◌||◌, ◌^◌, List, [], ◌∷◌, ◌++◌, map, Option, none, some, ltb,
  leb, ◌==◌, if◌then◌else◌, is_empty, all, Bytes, ascii, is_digit, is_hexdigit, is_alphanumeric,
  to_lowercase, strip_prefix, starts_with, split_on, split_first, split_last, parse_unsigned,
  bytes_equal, is_whitespace, trim_start, trim_end, trim_by, ends_with,
}
use mathlib.Core.Option.{get_or}

abbrev pub any_byte : (ℕ → Bool) → Bytes → Bool
any_byte p [] = false
any_byte p (c ∷ cs) = p c || any_byte p cs

abbrev pub is_control : ℕ → Bool
is_control c = ltb c 32 || c == 127

-- `u8::is_ascii_whitespace`
abbrev pub is_ascii_whitespace : ℕ → Bool
is_ascii_whitespace c = c == 9 || c == 10 || c == 12 || c == 13 || c == 32

abbrev pub is_slash : ℕ → Bool
is_slash c = c == b'/'

abbrev pub with_slash : Bytes → Bytes
with_slash [] = []
with_slash (c ∷ cs) = b'/' ∷ c ∷ cs

unfoldable pub normalize_public_path : Bytes → Bytes
normalize_public_path path = with_slash (trim_by is_slash (trim_by is_whitespace path))

abbrev pub first_nonempty : List Bytes → Option Bytes
first_nonempty [] = none
first_nonempty (v ∷ vs) = if is_empty v then first_nonempty vs else some v

unfoldable pub first_forwarded_value : Bytes → Option Bytes
first_forwarded_value value = first_nonempty (map (trim_by is_whitespace) (split_on b',' value))

unfoldable pub sanitize_forwarded_scheme : Bytes → Option Bytes
sanitize_forwarded_scheme value =
    let normalized = to_lowercase value in
    if bytes_equal normalized (ascii "http") || bytes_equal normalized (ascii "https")
    then some normalized
    else none

abbrev pub is_forbidden : ℕ → Bool
is_forbidden c = c == b'/' || c == 92 || c == b'@' || c == b'?' || c == b'#'

abbrev pub is_port : Bytes → Bool
is_port s = elim (parse_unsigned (2 ^ 16) s) [ some _ ↦ true | none ↦ false ]

abbrev pub valid_optional_port : Bytes → Bool
valid_optional_port [] = true
valid_optional_port (c ∷ port) = c == b':' && not (is_empty port) && is_port port

abbrev pub is_literal_byte : ℕ → Bool
is_literal_byte c = is_hexdigit c || c == b':' || c == b'.'

abbrev pub is_name_byte : ℕ → Bool
is_name_byte c = is_alphanumeric c || c == b'.' || c == b'-'

-- `[inside]` and an optional port, after the bracket.
abbrev pub is_bracketed_host : Bytes → Bool
is_bracketed_host rest = elim (split_first b']' rest) [
  | none ↦ false
  | some (inside, port) ↦
      not (is_empty inside) && all is_literal_byte inside && valid_optional_port port
]

abbrev pub is_host_name : Bytes → Bool
is_host_name host = not (is_empty host) && all is_name_byte host

-- A name and an optional port.
abbrev pub is_named_host : Bytes → Bool
is_named_host value = elim (split_last b':' value) [
  | none ↦ is_host_name value
  | some (host, port) ↦
      not (is_empty port) && all is_digit port && is_host_name host && is_port port
]

abbrev pub is_host : Bytes → Bool
is_host value = elim (strip_prefix (b'[' ∷ []) value) [
  | some rest ↦ is_bracketed_host rest
  | none ↦ is_named_host value
]

unfoldable pub sanitize_forwarded_host : Bytes → Option Bytes
sanitize_forwarded_host value =
    if is_empty value
      || any_byte (λ c. is_control c || is_ascii_whitespace c) value
      || any_byte is_forbidden value
    then none
    else if is_host value
    then some value
    else none

-- `Option::and_then` and `Option::or_else`
abbrev pub and_then {ℓ} : {A B : Type ℓ} → Option A → (A → Option B) → Option B
and_then none f = none
and_then (some a) f = f a

abbrev pub or_else {ℓ} : {A : Type ℓ} → Option A → Option A → Option A
or_else none b = b
or_else (some a) b = some a

-- What `public_proxy_base_url` reads of a request: the URI's scheme, the headers that are texts,
-- and the host of the connection.
pub record Forwarded : Type 0 where
  pub uri_scheme : Option Bytes
  pub host : Option Bytes
  pub connection_host : Bytes
  pub forwarded_proto : Option Bytes
  pub forwarded_host : Option Bytes

unfoldable pub public_scheme : Forwarded → Bytes
unfolding sanitize_forwarded_scheme first_forwarded_value
public_scheme req =
    let fallback = get_or (and_then req.uri_scheme sanitize_forwarded_scheme) (ascii "http") in
    get_or (and_then (and_then req.forwarded_proto first_forwarded_value) sanitize_forwarded_scheme)
      fallback

unfoldable pub public_host : Forwarded → Bytes
unfolding sanitize_forwarded_host first_forwarded_value
public_host req =
    let fallback =
      get_or
        (or_else (and_then req.host sanitize_forwarded_host)
          (sanitize_forwarded_host req.connection_host))
        (ascii "localhost") in
    get_or (and_then (and_then req.forwarded_host first_forwarded_value) sanitize_forwarded_host)
      fallback

unfoldable pub public_proxy_base_url : Forwarded → Bytes → Bytes
unfolding public_scheme public_host normalize_public_path
public_proxy_base_url req public_path =
    public_scheme req ++ ascii "://" ++ public_host req ++ normalize_public_path public_path

abbrev pub head_or_empty : List Bytes → Bytes
head_or_empty [] = []
head_or_empty (p ∷ ps) = p

unfoldable pub segment_extension : Bytes → Bytes
segment_extension url =
    let path = head_or_empty (split_on b'?' (to_lowercase url)) in
    if ends_with path (ascii ".m4s")
    then ascii "m4s"
    else if ends_with path (ascii ".mp4")
    then ascii "mp4"
    else if ends_with path (ascii ".m4a")
    then ascii "m4a"
    else if ends_with path (ascii ".m4v")
    then ascii "m4v"
    else if ends_with path (ascii ".aac")
    then ascii "aac"
    else ascii "ts"

abbrev pub is_absolute : Bytes → Bool
is_absolute path = starts_with path (ascii "http://") || starts_with path (ascii "https://")

-- The crate url: a base that parses, and what a path joined to it is.
abbrev pub UrlParser : Type 0
UrlParser = Bytes → Option (Bytes → Option Bytes)

unfoldable pub resolve_url : UrlParser → Bytes → Bytes → Bytes
resolve_url parse base_url path = if is_absolute path then path else elim (parse base_url) [
  | none ↦ path
  | some join ↦ elim (join path) [
    | some resolved ↦ resolved
    | none ↦ trim_end is_slash base_url ++ b'/' ∷ trim_start is_slash path
  ]
]
