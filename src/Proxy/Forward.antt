-- ===== src/Proxy/Forward.antt =====
-- `check_forward_destination` and `is_private_ip` of src/proxy/handler.rs. The URL parser (the
-- crate url) and the parser of IPv6 texts (to sixteen octets) are parameters; texts are ASCII.
pub mod Blocks
pub mod Guard
pub mod Bracketed
use mediaflow_proxy_light.Base.{
  ℕ, ◌+◌, ◌*◌, ◌/◌, ◌%◌, ◌^◌, Bool, true, false, not, ◌&&◌, ◌||◌, List, [], ◌∷◌, map, Option, none,
  some, ltb, leb, ◌==◌, if◌then◌else◌, length, is_empty, Bytes, ascii, is_digit, to_lowercase,
  contains_bytes, split_on, unsigned, bytes_equal,
}
use mathlib.Core.Option.{get_or}

-- `Url::scheme` and `Url::host_str`
pub record Url : Type 0 where
  pub scheme : Bytes
  pub host_str : Option Bytes

pub record ForwardConfig : Type 0 where
  pub allowed_hosts : List Bytes
  pub denied_hosts : List Bytes

pub data IpAddr : Type 0 where
  v4 : ℕ → ℕ → ℕ → ℕ → IpAddr
  -- its sixteen octets
  v6 : Bytes → IpAddr

-- `Ok(())`, and the errors.
pub data Verdict : Type 0 where
  allowed invalid_url bad_scheme no_hostname not_listed denied localhost private_address : Verdict

-- A part of a dotted quad: up to three digits, none of them a leading zero.
abbrev pub octet : Bytes → Option ℕ
octet [] = none
octet (c ∷ cs) =
    if ltb 3 (length (c ∷ cs)) || (c == b'0' && not (is_empty cs))
    then none
    else unsigned 256 (c ∷ cs)

abbrev pub quad : List (Option ℕ) → Option IpAddr
quad (some a ∷ some b ∷ some c ∷ some d ∷ []) = some (v4 a b c d)
quad _ = none

unfoldable pub parse_v4 : Bytes → Option IpAddr
parse_v4 s = quad (map octet (split_on b'.' s))

abbrev pub first_octets : Bytes → ℕ
first_octets (a ∷ b ∷ rest) = a * 256 + b
first_octets _ = 0

abbrev pub all_zero : Bytes → Bool
all_zero [] = true
all_zero (b ∷ bs) = b == 0 && all_zero bs

-- `::1`
abbrev pub is_one : Bytes → Bool
is_one [] = false
is_one (b ∷ []) = b == 1
is_one (b ∷ bs) = b == 0 && is_one bs

-- `octets[0] & 0xfe == 0xfc` is a test of the upper seven bits, and `octets[1] & 0xc0 == 0x80` one
-- of the upper two.
unfoldable pub is_private_ip : IpAddr → Bool
is_private_ip (v4 a b c d) =
    a == 10
    || (a == 172 && leb 16 b && leb b 31)
    || (a == 192 && b == 168)
    || (a == 169 && b == 254)
    || (a == 0 && b == 0 && c == 0 && d == 0)
is_private_ip (v6 octets) =
    let first = first_octets octets / 256 in
    let second = first_octets octets % 256 in
    all_zero octets || first / 2 == 126 || (first == 254 && second / 64 == 2)

unfoldable pub is_loopback : IpAddr → Bool
is_loopback (v4 a b c d) = a == 127
is_loopback (v6 octets) = is_one octets

unfoldable pub is_multicast : IpAddr → Bool
is_multicast (v4 a b c d) = leb 224 a && leb a 239
is_multicast (v6 octets) = first_octets octets / 256 == 255

unfoldable pub is_blocked : IpAddr → Bool
unfolding is_private_ip is_loopback is_multicast
is_blocked addr = is_loopback addr || is_multicast addr || is_private_ip addr

abbrev pub is_http : Bytes → Bool
is_http scheme = bytes_equal scheme (ascii "http") || bytes_equal scheme (ascii "https")

abbrev pub loopback_names : List Bytes
loopback_names = ascii "localhost" ∷ ascii "ip6-localhost" ∷ ascii "ip6-loopback" ∷ []

module _ (parse_v6 : Bytes → Option Bytes) where
  unfoldable pub parse_ip : Bytes → Option IpAddr
  unfolding parse_v4
  parse_ip s = elim (parse_v4 s) [
    | some addr ↦ some addr
    | none ↦ elim (parse_v6 s) [ some octets ↦ some (v6 octets) | none ↦ none ]
  ]

  abbrev pub is_blocked_text : Bytes → Bool
  is_blocked_text hostname = elim (parse_ip hostname) [ some addr ↦ is_blocked addr | none ↦ false ]

  -- The checks of the lower-case host name.
  unfoldable pub check_hostname : ForwardConfig → Bytes → Verdict
  unfolding parse_ip is_blocked
  check_hostname cfg hostname =
      if is_empty hostname
      then no_hostname
      else if not (is_empty cfg.allowed_hosts)
          && not (contains_bytes (map to_lowercase cfg.allowed_hosts) hostname)
      then not_listed
      else if contains_bytes (map to_lowercase cfg.denied_hosts) hostname
      then denied
      else if contains_bytes loopback_names hostname
      then localhost
      else if is_blocked_text hostname
      then private_address
      else allowed

module _ (parse_v6 : Bytes → Option Bytes) (parse_url : Bytes → Option Url) where
  unfoldable pub check_forward_destination : Bytes → ForwardConfig → Verdict
  unfolding check_hostname
  check_forward_destination url cfg = elim (parse_url url) [
    | none ↦ invalid_url
    | some parsed ↦
        if is_http parsed.scheme
        then check_hostname parse_v6 cfg (to_lowercase (get_or parsed.host_str []))
        else bad_scheme
  ]
