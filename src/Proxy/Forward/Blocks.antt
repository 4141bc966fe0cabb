-- ===== src/Proxy/Forward/Blocks.antt =====
-- The addresses that `is_loopback`, `is_multicast` and `is_private_ip` block, as networks.
use mediaflow_proxy_light.Base.{
  ℕ, ◌+◌, ◌-◌, ◌*◌, ◌/◌, ◌^◌, ◌<◌, ◌≡◌, ◌↔◌, ◌⊎◌, true, [], ◌∷◌, some, Bytes, digits_below, arith,
}
use mediaflow_proxy_light.Proxy.Forward.{v4, is_blocked}

-- The network of the addresses that agree with `base` in the first `prefix` bits.
abbrev pub InNetwork : ℕ → ℕ → ℕ → Type 0
InNetwork base host_bits address = address / 2 ^ host_bits ≡ base / 2 ^ host_bits

abbrev pub address : ℕ → ℕ → ℕ → ℕ → ℕ
address a b c d = a * 2 ^ 24 + b * 2 ^ 16 + c * 2 ^ 8 + d

-- 127.0.0.0/8, 224.0.0.0/4, 10.0.0.0/8, 172.16.0.0/12, 192.168.0.0/16, 169.254.0.0/16 and 0.0.0.0
abbrev pub IsInternal : ℕ → Type 0
IsInternal n =
    InNetwork (address 127 0 0 0) 24 n
    ⊎ InNetwork (address 224 0 0 0) 28 n
    ⊎ InNetwork (address 10 0 0 0) 24 n
    ⊎ InNetwork (address 172 16 0 0) 20 n
    ⊎ InNetwork (address 192 168 0 0) 16 n
    ⊎ InNetwork (address 169 254 0 0) 16 n
    ⊎ (n ≡ 0)

address-high : (a b c d : ℕ) → b < 256 → c < 256 → d < 256 → address a b c d / 2 ^ 24 ≡ a
address-high a b c d hb hc hd = omega arith

address-two : (a b c d : ℕ) → c < 256 → d < 256 → address a b c d / 2 ^ 16 ≡ a * 256 + b
address-two a b c d hc hd = omega arith

address-parts :
    (a b c d : ℕ)
    → c < 256
    → d < 256
    → address a b c d ≡ (address a b c d / 2 ^ 16) * 65536 + c * 256 + d
address-parts a b c d hc hd = omega arith

address-twelve : (a b c d : ℕ) → c < 256 → d < 256 → address a b c d / 2 ^ 20 ≡ (a * 256 + b) / 16
address-twelve a b c d hc hd = omega arith

address-four : (a b c d : ℕ) → b < 256 → c < 256 → d < 256 → address a b c d / 2 ^ 28 ≡ a / 16
address-four a b c d hb hc hd = omega arith

-- The test of the octets, on the quotients of the address.
blocked_octets :
    (a b c d high four twelve two n : ℕ)
    → a < 256
    → b < 256
    → high ≡ a
    → four ≡ a / 16
    → twelve ≡ (a * 256 + b) / 16
    → two ≡ a * 256 + b
    → n ≡ two * 65536 + c * 256 + d
    → is_blocked (v4 a b c d) ≡ true
    → (high ≡ 127)
      ⊎ (four ≡ 14)
      ⊎ (high ≡ 10)
      ⊎ (twelve ≡ 2753)
      ⊎ (two ≡ 49320)
      ⊎ (two ≡ 43518)
      ⊎ (n ≡ 0)
unfolding is_blocked
blocked_octets a b c d high four twelve two n ha hb eh ef ew et en h = ground arith

octets_blocked :
    (a b c d high four twelve two n : ℕ)
    → a < 256
    → b < 256
    → high ≡ a
    → four ≡ a / 16
    → twelve ≡ (a * 256 + b) / 16
    → two ≡ a * 256 + b
    → n ≡ two * 65536 + c * 256 + d
    → (high ≡ 127)
      ⊎ (four ≡ 14)
      ⊎ (high ≡ 10)
      ⊎ (twelve ≡ 2753)
      ⊎ (two ≡ 49320)
      ⊎ (two ≡ 43518)
      ⊎ (n ≡ 0)
    → is_blocked (v4 a b c d) ≡ true
unfolding is_blocked
octets_blocked a b c d high four twelve two n ha hb eh ef ew et en h = ground arith

-- Of the four octets of an IPv4 address: the address is blocked exactly if it lies in one of the
-- internal networks.
pub is_blocked_networks :
    (a b c d : ℕ)
    → a < 256
    → b < 256
    → c < 256
    → d < 256
    → (is_blocked (v4 a b c d) ≡ true) ↔ IsInternal (address a b c d)
is_blocked_networks a b c d ha hb hc hd =
    let high = address-high a b c d hb hc hd in
    let two = address-two a b c d hc hd in
    let twelve = address-twelve a b c d hc hd in
    let four = address-four a b c d hb hc hd in
    let n = address a b c d in
    let parts = address-parts a b c d hc hd in
    (
      blocked_octets a b c d (n / 2 ^ 24) (n / 2 ^ 28) (n / 2 ^ 20) (n / 2 ^ 16) n ha hb high four
          twelve two parts,
      octets_blocked a b c d (n / 2 ^ 24) (n / 2 ^ 28) (n / 2 ^ 20) (n / 2 ^ 16) n ha hb high four
          twelve two parts,
    )

-- A parsed number is below the limit.
pub digits_below_bound :
    (limit : ℕ) (cs : Bytes) (acc n : ℕ)
    → acc < limit
    → digits_below limit cs acc ≡ some n
    → n < limit
digits_below_bound limit [] acc n h e = ground arith
digits_below_bound limit (c ∷ cs) acc n h e =
    ground (arith, digits_below_bound limit cs (acc * 10 + (c - b'0')) n)
