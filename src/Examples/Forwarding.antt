-- ===== src/Examples/Forwarding.antt =====
-- Requests to forward, public addresses, and tokens of the Xtream proxy.
use mathlib.Core.Option.{get_or}
use mediaflow_proxy_light.Base.{
  is_whitespace, ◌≡◌, ◌≢◌, ◌↔◌, ◌⊎◌, ◌++◌, refl, true, [], ◌∷◌, Option, none, some, Bytes, ascii,
  to_lowercase, bytes_equal, if◌then◌else◌, arith,
}
use mediaflow_proxy_light.Proxy.Forward.{
  Url, ForwardConfig, v4, allowed, is_blocked, check_forward_destination,
}
use mediaflow_proxy_light.Proxy.Forward.Blocks.{IsInternal, address, is_blocked_networks}
use mediaflow_proxy_light.Proxy.Forward.Guard.{Guarded, check_forward_destination-Guarded}
use mediaflow_proxy_light.Proxy.Forward.Bracketed.{check_forward_destination-bracketed}
use mediaflow_proxy_light.Utils.Url.{
  Forwarded, public_proxy_base_url, normalize_public_path, is_slash,
}
use mediaflow_proxy_light.Utils.Url.Hosts.{
  IsWebScheme, IsCleanHost, public_proxy_base_url-IsCleanHost,
}
use mediaflow_proxy_light.Utils.Url.Paths.{Pads, Unpadded, normalize_public_path-Unpadded}

is_blocked_networks_example :
    (is_blocked (v4 192 168 1 7) ≡ true) ↔ IsInternal (address 192 168 1 7)
is_blocked_networks_example =
    is_blocked_networks 192 168 1 7 (omega arith) (omega arith) (omega arith) (omega arith)

-- A parser that knows the text `::1`, and one that takes every text for a URL with that host.
abbrev one_v6 : Bytes → Option Bytes
one_v6 s =
    if bytes_equal s (ascii "::1")
    then some (0 ∷ 0 ∷ 0 ∷ 0 ∷ 0 ∷ 0 ∷ 0 ∷ 0 ∷ 0 ∷ 0 ∷ 0 ∷ 0 ∷ 0 ∷ 0 ∷ 0 ∷ 1 ∷ [])
    else none

abbrev web_url : Bytes → Option Url
web_url host = some (record { scheme = ascii "https"; host_str = some host })

abbrev open_config : ForwardConfig
open_config = record { allowed_hosts = []; denied_hosts = ascii "Evil.example" ∷ [] }

good_host : check_forward_destination one_v6 web_url (ascii "1.2.3.4") open_config ≡ allowed
unfolding check_forward_destination
good_host = refl

check_forward_destination-Guarded_example :
    (parsed : Url) × (web_url (ascii "1.2.3.4") ≡ some parsed)
    × Guarded parsed open_config (to_lowercase (get_or parsed.host_str []))
check_forward_destination-Guarded_example =
    check_forward_destination-Guarded one_v6 web_url (ascii "1.2.3.4") open_config good_host

check_forward_destination-bracketed_example :
    check_forward_destination one_v6 web_url
      (ascii "[::1]")
      (record { allowed_hosts = []; denied_hosts = [] })
    ≡ allowed
check_forward_destination-bracketed_example =
    check_forward_destination-bracketed one_v6 web_url (λ s. refl) (ascii "[::1]") (ascii "https")
      (ascii "::1]") refl refl

abbrev request : Forwarded
request = record {
  uri_scheme = none;
  host = some (ascii "a/b");
  connection_host = ascii "proxy.example:8888";
  forwarded_proto = some (ascii "HTTPS, http");
  forwarded_host = some (ascii "user@evil");
}

public_proxy_base_url-IsCleanHost_example :
    (scheme host : Bytes) × (public_proxy_base_url request (ascii " /media/ ")
      ≡ scheme ++ ascii "://" ++ host ++ normalize_public_path (ascii " /media/ "))
    × IsWebScheme scheme
    × IsCleanHost host
public_proxy_base_url-IsCleanHost_example =
    public_proxy_base_url-IsCleanHost request (ascii " /media/ ")

normalize_public_path-Unpadded_example :
    (prefix core : Bytes) × Pads is_whitespace (ascii " /media/ ") prefix
    × Unpadded is_whitespace prefix
    × Pads is_slash prefix core
    × Unpadded is_slash core
    × (((core ≡ []) × (normalize_public_path (ascii " /media/ ") ≡ []))
        ⊎ ((core ≢ []) × (normalize_public_path (ascii " /media/ ") ≡ b'/' ∷ core)))
normalize_public_path-Unpadded_example = normalize_public_path-Unpadded (ascii " /media/ ")
