-- ===== src/Xtream/Auth.antt =====
-- src/xtream/auth.rs: user names that carry the upstream server and the API password. The crate
-- base64 and the test of UTF-8 are parameters.
pub mod Tokens
use mediaflow_proxy_light.Base.{
  trim_end, ends_with, ℕ, zero, suc, ◌%◌, Bool, true, false, not, ◌&&◌, ◌||◌, List, [], ◌∷◌, ◌++◌,
  map, Option, none, some, ltb, leb, ◌==◌, if◌then◌else◌, length, is_empty, all, Bytes, ascii,
  is_digit, strip_prefix, contains_text, split_first, split_text, bytes_equal,
}
use mediaflow_proxy_light.Utils.Url.{is_slash}

pub record XcCredentials : Type 0 where
  pub upstream_base : Bytes
  pub actual_username : Bytes
  pub api_password : Option Bytes

pub data XcError : Type 0 where
  password_required wrong_password bad_format bad_base64 bad_utf8 : XcError

pub data XcResult {ℓ} (A : Type ℓ) : Type ℓ where
  ok : A → XcResult A
  err : XcError → XcResult A

-- `none` is `Ok(())`.
unfoldable pub verify_xc_api_password : Option Bytes → Bytes → Option XcError
verify_xc_api_password embedded [] = none
verify_xc_api_password none (c ∷ cs) = some password_required
verify_xc_api_password (some p) (c ∷ cs) =
    if bytes_equal p (c ∷ cs) then none else some wrong_password

-- `Option::filter(|p| !p.is_empty())`
abbrev pub nonempty : Option Bytes → Option Bytes
nonempty (some (c ∷ cs)) = some (c ∷ cs)
nonempty _ = none

unfoldable pub ensure_trailing_slash : Bytes → Bytes
ensure_trailing_slash url = if ends_with url (b'/' ∷ []) then url else url ++ b'/' ∷ []

-- `-` to `+` and `_` to `/`
abbrev pub standard_byte : ℕ → ℕ
standard_byte c = if c == b'-' then b'+' else if c == b'_' then b'/' else c

abbrev pub pad : ℕ → Bytes
pad n = if n == 2 then b'=' ∷ b'=' ∷ [] else if n == 3 then b'=' ∷ [] else []

abbrev pub padded : Bytes → Bytes
padded s = map standard_byte s ++ pad (length s % 4)

-- `splitn(n, c)`
abbrev pub split_n : ℕ → ℕ → Bytes → List Bytes
split_n zero sep s = []
split_n (suc zero) sep s = s ∷ []
split_n (suc (suc n)) sep s = elim (split_first sep s) [
  | none ↦ s ∷ []
  | some (a, b) ↦ a ∷ split_n (suc n) sep b
]

abbrev pub is_short_number : Bytes → Bool
is_short_number s = all is_digit s && leb (length s) 5

abbrev pub credentials : Bytes → Bytes → Option Bytes → Option XcCredentials
credentials upstream user password = some (record {
  upstream_base = ensure_trailing_slash upstream;
  actual_username = user;
  api_password = nonempty password;
})

abbrev pub with_protocol : Bytes → Bytes → Bytes
with_protocol proto address = proto ++ (ascii "://" ++ address)

-- The parts of the decoded text behind `://`.
unfoldable pub read_parts : Bytes → List Bytes → Option XcCredentials
unfolding ensure_trailing_slash
read_parts proto (host ∷ user ∷ []) = credentials (with_protocol proto host) user none
read_parts proto (host ∷ second ∷ third ∷ []) =
    if is_short_number second
    then credentials (with_protocol proto (host ++ (b':' ∷ second))) third none
    else credentials (with_protocol proto host) second (some third)
read_parts proto (host ∷ port ∷ user ∷ password ∷ []) =
    credentials (with_protocol proto (host ++ (b':' ∷ port))) user (some password)
read_parts proto _ = none

unfoldable pub read_compound : Bytes → Option XcCredentials
unfolding read_parts
read_compound s =
    if not (contains_text s (ascii "://")) || not (contains_text s (ascii ":"))
    then none
    else elim (split_text (ascii "://") s) [
      | none ↦ none
      | some (proto, rest) ↦ read_parts proto (split_n 4 b':' rest)
    ]

-- `URL_SAFE_NO_PAD.encode`, `STANDARD.decode` and whether bytes are UTF-8.
pub record Codec : Type 0 where
  pub encode : Bytes → Bytes
  pub decode : Bytes → Option Bytes
  pub is_utf8 : Bytes → Bool

module _ (base64 : Codec) where
  unfoldable pub encode_username_token : Bytes → Bytes → Option Bytes → Bytes
  encode_username_token upstream user password =
      let clean = trim_end is_slash upstream in
      base64.encode (elim (nonempty password) [
        | some p ↦ clean ++ (b':' ∷ (user ++ (b':' ∷ p)))
        | none ↦ clean ++ (b':' ∷ user)
      ])

  abbrev pub decode_text : Bytes → XcResult Bytes
  decode_text s = elim (base64.decode (padded s)) [
    | none ↦ err bad_base64
    | some d ↦ if base64.is_utf8 d then ok d else err bad_utf8
  ]

  unfoldable pub try_parse_base64_username : Bytes → Option XcCredentials
  unfolding read_compound
  try_parse_base64_username username = elim (decode_text username) [
    | err _ ↦ none
    | ok s ↦ read_compound s
  ]

  unfoldable pub decode_upstream_url : Bytes → XcResult Bytes
  unfolding ensure_trailing_slash
  decode_upstream_url s = elim (decode_text s) [
    | err e ↦ err e
    | ok url ↦ ok (ensure_trailing_slash url)
  ]

  abbrev pub legacy_credentials : XcResult Bytes → Bytes → Option Bytes → XcResult XcCredentials
  legacy_credentials (err e) user password = err e
  legacy_credentials (ok base) user password =
      ok (record { upstream_base = base; actual_username = user; api_password = nonempty password })

  abbrev pub legacy_parts : List Bytes → XcResult XcCredentials
  legacy_parts (enc ∷ user ∷ []) = legacy_credentials (decode_upstream_url enc) user none
  legacy_parts (enc ∷ user ∷ password ∷ []) =
      legacy_credentials (decode_upstream_url enc) user (some password)
  legacy_parts _ = err bad_format

  unfoldable pub parse_legacy_username : Bytes → XcResult XcCredentials
  unfolding decode_upstream_url
  parse_legacy_username username = legacy_parts (split_n 3 b':' username)

  unfoldable pub parse_username_with_upstream : Bytes → XcResult XcCredentials
  unfolding try_parse_base64_username parse_legacy_username
  parse_username_with_upstream username = elim (try_parse_base64_username username) [
    | some creds ↦ ok creds
    | none ↦ parse_legacy_username username
  ]
