-- ===== src/Proxy/Forward/Guard.antt =====
-- What a request that `check_forward_destination` lets through looks like.
use mediaflow_proxy_light.Base.{
  ℕ, ◌<◌, ◌≡◌, ◌≢◌, ◌↔◌, ◌⊎◌, inl, inr, refl, sym, ap, Bool, true, false, not, ◌&&◌, List, [], ◌∷◌,
  ◌++◌, map, Option, none, some, if◌then◌else◌, is_empty, Bytes, ascii, Bool-cases, Option-cases,
  split_on, contains_bytes, to_lowercase, bytes_equal, bytes_equal_iff, arith,
}
use mathlib.Core.Path.{subst}
use mathlib.Core.Option.{get_or}
use mediaflow_proxy_light.Proxy.Forward.{
  Url, ForwardConfig, v4, allowed, no_hostname, not_listed, denied, localhost, private_address,
  octet, quad, parse_v4, parse_ip, is_blocked_text, check_hostname, check_forward_destination,
  loopback_names, is_http,
}
use mediaflow_proxy_light.Proxy.Forward.Blocks.{
  IsInternal, address, is_blocked_networks, digits_below_bound,
}

abbrev AllOctets : List (Option ℕ) → Type 0
AllOctets [] = Unit
AllOctets (none ∷ os) = AllOctets os
AllOctets (some n ∷ os) = (n < 256) × AllOctets os

octet_bound : (s : Bytes) (n : ℕ) → octet s ≡ some n → n < 256
octet_bound [] n h = ground arith
octet_bound (c ∷ cs) n h = ground (arith, digits_below_bound 256 (c ∷ cs) 0 n)

octets_bound : (pieces : List Bytes) → AllOctets (map octet pieces)
octets_bound [] = tt
octets_bound (p ∷ ps) = elim (Option-cases (octet p)) [
  | inl e ↦ subst (λ o. AllOctets (o ∷ map octet ps)) (sym e) (octets_bound ps)
  | inr (n, e) ↦
      subst (λ o. AllOctets (o ∷ map octet ps)) (sym e) (octet_bound p n e, octets_bound ps)
]

quad_bound :
    (os : List (Option ℕ)) (a b c d : ℕ)
    → AllOctets os
    → quad os ≡ some (v4 a b c d)
    → (a < 256) × (b < 256) × (c < 256) × (d < 256)
quad_bound (some a ∷ some b ∷ some c ∷ some d ∷ []) a2 b2 c2 d2 h e = ground arith
quad_bound _ a2 b2 c2 d2 h e = ground arith

-- The parts of a dotted quad are octets.
parse_v4_bounds :
    (s : Bytes) (a b c d : ℕ)
    → parse_v4 s ≡ some (v4 a b c d)
    → (a < 256) × (b < 256) × (c < 256) × (d < 256)
unfolding parse_v4
parse_v4_bounds s a b c d h =
    quad_bound (map octet (split_on b'.' s)) a b c d (octets_bound (split_on b'.' s)) h

contains_bytes-middle :
    (before after : List Bytes) (host : Bytes)
    → contains_bytes (map to_lowercase (before ++ host ∷ after)) (to_lowercase host) ≡ true
contains_bytes-middle [] after host =
    ground (arith, bytes_equal_iff (to_lowercase host) (to_lowercase host))
contains_bytes-middle (b ∷ before) after host =
    ground (arith, contains_bytes-middle before after host)

-- A host of the list whose lower-case form is the name.
abbrev pub ListsHost : List Bytes → Bytes → Type 0
ListsHost hosts name =
    (before : List Bytes) × (host : Bytes) × (after : List Bytes) × (hosts ≡ before ++ host ∷ after)
    × (to_lowercase host ≡ name)

contains_bytes-ListsHost :
    (hosts : List Bytes) (name : Bytes)
    → contains_bytes (map to_lowercase hosts) name ≡ true
    → ListsHost hosts name
contains_bytes-ListsHost [] name h = ground arith
contains_bytes-ListsHost (t ∷ ts) name h = elim (Bool-cases (bytes_equal (to_lowercase t) name)) [
  | inl e ↦ ([], t, ts, refl, (bytes_equal_iff (to_lowercase t) name).0 e)
  | inr e ↦
      let (before, host, after, split, same) = contains_bytes-ListsHost ts name (ground arith) in
      (t ∷ before, host, after, ap (λ l. t ∷ l) split, same)
]

ListsHost-contains_bytes :
    (hosts : List Bytes) (name : Bytes)
    → ListsHost hosts name
    → contains_bytes (map to_lowercase hosts) name ≡ true
ListsHost-contains_bytes hosts name (before, host, after, e, same) =
    subst (λ l. contains_bytes (map to_lowercase l) name ≡ true) (sym e)
      (subst (λ n. contains_bytes (map to_lowercase (before ++ host ∷ after)) n ≡ true) same
        (contains_bytes-middle before after host))

-- The chain of tests, on what they find.
gates :
    (empty unlisted listed denied_host local blocked : Bool)
    → (if empty
        then no_hostname
        else if not unlisted && not listed
        then not_listed
        else if denied_host
        then denied
        else if local
        then localhost
        else if blocked
        then private_address
        else allowed)
      ≡ allowed
    → (empty ≡ false)
      × ((unlisted ≡ true) ⊎ (listed ≡ true))
      × (denied_host ≡ false)
      × (local ≡ false)
      × (blocked ≡ false)
gates empty unlisted listed denied_host local blocked h = ground arith

is_empty_iff {ℓ} : {A : Type ℓ} (l : List A) → (is_empty l ≡ true) ↔ (l ≡ [])
is_empty_iff [] = ground arith
is_empty_iff (x ∷ xs) = ground arith

module _ (parse_v6 : Bytes → Option Bytes) where
  check_hostname-guards :
      (cfg : ForwardConfig) (hostname : Bytes)
      → check_hostname parse_v6 cfg hostname ≡ allowed
      → (is_empty hostname ≡ false)
        × ((is_empty cfg.allowed_hosts ≡ true)
            ⊎ (contains_bytes (map to_lowercase cfg.allowed_hosts) hostname ≡ true))
        × (contains_bytes (map to_lowercase cfg.denied_hosts) hostname ≡ false)
        × (contains_bytes loopback_names hostname ≡ false)
        × (is_blocked_text parse_v6 hostname ≡ false)
  unfolding check_hostname
  check_hostname-guards cfg hostname h =
      gates (is_empty hostname) (is_empty cfg.allowed_hosts)
        (contains_bytes (map to_lowercase cfg.allowed_hosts) hostname)
        (contains_bytes (map to_lowercase cfg.denied_hosts) hostname)
        (contains_bytes loopback_names hostname) (is_blocked_text parse_v6 hostname) h

  blocked_literal :
      (host : Bytes) (a b c d : ℕ)
      → parse_v4 host ≡ some (v4 a b c d)
      → is_blocked_text parse_v6 host ≡ false
      → ¬ (IsInternal (address a b c d))
  unfolding parse_ip
  blocked_literal host a b c d e free internal =
      let (ha, hb, hc, hd) = parse_v4_bounds host a b c d e in
      let blocked = (is_blocked_networks a b c d ha hb hc hd).1 internal in ground arith

-- What the guard knows of a request that it lets through.
pub record Guarded (parsed : Url) (cfg : ForwardConfig) (hostname : Bytes) : Type 0 where
  pub http : (parsed.scheme ≡ ascii "http") ⊎ (parsed.scheme ≡ ascii "https")
  pub named : hostname ≢ []
  pub listed : (cfg.allowed_hosts ≡ []) ⊎ ListsHost cfg.allowed_hosts hostname
  pub not_denied : ¬ (ListsHost cfg.denied_hosts hostname)
  pub public :
      (a b c d : ℕ) → parse_v4 hostname ≡ some (v4 a b c d) → ¬ (IsInternal (address a b c d))

http_cases :
    (scheme : Bytes) → is_http scheme ≡ true → (scheme ≡ ascii "http") ⊎ (scheme ≡ ascii "https")
http_cases scheme h = elim (Bool-cases (bytes_equal scheme (ascii "http"))) [
  | inl e ↦ inl ((bytes_equal_iff scheme (ascii "http")).0 e)
  | inr e ↦ inr ((bytes_equal_iff scheme (ascii "https")).0 (ground arith))
]

check_hostname-Guarded :
    (parse_v6 : Bytes → Option Bytes) (parsed : Url) (cfg : ForwardConfig) (hostname : Bytes)
    → is_http parsed.scheme ≡ true
    → check_hostname parse_v6 cfg hostname ≡ allowed
    → Guarded parsed cfg hostname
check_hostname-Guarded parse_v6 parsed cfg hostname http h =
    let (named, listed, undenied, local, free) = check_hostname-guards parse_v6 cfg hostname h in
    record {
      http = http_cases parsed.scheme http;
      named = λ e. ground (arith, (is_empty_iff hostname).1 e);
      listed = elim listed [
        | inl empty ↦ inl ((is_empty_iff cfg.allowed_hosts).0 empty)
        | inr found ↦ inr (contains_bytes-ListsHost cfg.allowed_hosts hostname found)
      ];
      not_denied =
          λ found. ground (arith, ListsHost-contains_bytes cfg.denied_hosts hostname found);
      public = λ a b c d e. blocked_literal parse_v6 hostname a b c d e free;
    }

module _ (parse_v6 : Bytes → Option Bytes) (parse_url : Bytes → Option Url) where
  -- A request that is let through has the scheme http or https and a host name that is not empty,
  -- stands on the list of allowed hosts where there is one, does not stand on the list of denied
  -- hosts, and is no dotted quad of an internal network.
  pub check_forward_destination-Guarded :
      (url : Bytes) (cfg : ForwardConfig)
      → check_forward_destination parse_v6 parse_url url cfg ≡ allowed
      → (parsed : Url) × (parse_url url ≡ some parsed)
        × Guarded parsed cfg (to_lowercase (get_or parsed.host_str []))
  unfolding check_forward_destination
  check_forward_destination-Guarded url cfg h = elim (Option-cases (parse_url url)) [
    | inl e ↦ ground arith
    | inr (parsed, e) ↦ (
      parsed,
      e,
      check_hostname-Guarded parse_v6 parsed cfg (to_lowercase (get_or parsed.host_str []))
          (ground arith) (ground arith),
    )
  ]
