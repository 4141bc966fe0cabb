-- ===== src/Proxy/Forward/Bracketed.antt =====
-- A URL names an IPv6 host in square brackets, and `Url::host_str` keeps them.
use mediaflow_proxy_light.Base.{
  ◌≡◌, refl, ap, true, false, List, [], ◌∷◌, map, Option, none, some, Bytes, split_on, to_lowercase,
  arith,
}
use mediaflow_proxy_light.Proxy.Forward.{
  Url, allowed, octet, quad, parse_v4, parse_ip, is_blocked_text, check_hostname,
  check_forward_destination, is_http,
}

octet-bracket : (p : Bytes) → octet (b'[' ∷ p) ≡ none
octet-bracket p = ground arith

quad-bracket : (pieces : List Bytes) (p : Bytes) → quad (map octet ((b'[' ∷ p) ∷ pieces)) ≡ none
quad-bracket pieces p = ap (λ o. quad (o ∷ map octet pieces)) (octet-bracket p)

-- No dotted quad starts with a bracket.
parse_v4-bracket : (s : Bytes) → parse_v4 (b'[' ∷ s) ≡ none
unfolding parse_v4
parse_v4-bracket s =
    elim (split_on b'.' s)
      as (λ pieces.
        quad (map octet (elim pieces [ [] ↦ (b'[' ∷ []) ∷ [] | p ∷ ps ↦ (b'[' ∷ p) ∷ ps ]))
        ≡ none) [ [] ↦ refl | p ∷ ps ↦ quad-bracket ps p ]

blocked_text-bracket :
    (parse_v6 : Bytes → Option Bytes) (s : Bytes)
    → parse_v6 (b'[' ∷ s) ≡ none
    → is_blocked_text parse_v6 (b'[' ∷ s) ≡ false
unfolding parse_ip
blocked_text-bracket parse_v6 s e = ground (arith, parse_v4-bracket s)

module _ (parse_v6 : Bytes → Option Bytes) (parse_url : Bytes → Option Url) where
  -- If no text that starts with a bracket is read as an IPv6 address, every web URL whose host is
  -- written in brackets is let through where no hosts are listed or denied, whatever IPv6 address it
  -- names.
  pub check_forward_destination-bracketed :
      (bracketed : (s : Bytes) → parse_v6 (b'[' ∷ s) ≡ none) (url scheme host : Bytes)
      → parse_url url ≡ some (record { scheme = scheme; host_str = some (b'[' ∷ host) })
      → is_http scheme ≡ true
      → check_forward_destination parse_v6 parse_url url
          (record { allowed_hosts = []; denied_hosts = [] })
        ≡ allowed
  unfolding check_forward_destination check_hostname parse_ip
  check_forward_destination-bracketed bracketed url scheme host e http =
      ground
        (arith, blocked_text-bracket parse_v6 (to_lowercase host) (bracketed (to_lowercase host)))
