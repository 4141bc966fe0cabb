-- ===== src/Auth/Encryption.antt =====
-- src/auth/encryption.rs: what a token carries, and its encryption. The crates serde_json, base64
-- and aes are parameters; the vector that `encrypt` draws is an argument.
pub mod Tokens
pub mod RoundTrip
use mediaflow_proxy_light.Base.{
  ℕ, zero, suc, ◌+◌, ◌-◌, Bool, true, false, ◌&&◌, not, List, [], ◌∷◌, ◌++◌, Option, none, some,
  ltb, leb, ◌==◌, if◌then◌else◌, length, take, drop, replicate, is_empty, min, Bytes, ascii,
  strip_prefix, bytes_equal, lookup, bytes_eq,
}
use mathlib.Core.Option.{get_or}

-- `serde_json::Map`: an association list in the order of the keys.
abbrev pub JsonMap : Type 0 → Type 0
JsonMap J = List (Bytes × J)

abbrev pub precedes : Bytes → Bytes → Bool
precedes [] [] = false
precedes [] (y ∷ ys) = true
precedes (x ∷ xs) [] = false
precedes (x ∷ xs) (y ∷ ys) = if x == y then precedes xs ys else ltb x y

module _ {J : Type 0} where
  unfoldable pub map_insert : Bytes → J → JsonMap J → JsonMap J
  map_insert k v [] = (k, v) ∷ []
  map_insert k v ((j, w) ∷ m) =
      let rest = map_insert k v m in
      if bytes_equal j k
      then (k, v) ∷ m
      else if precedes k j
      then (k, v) ∷ (j, w) ∷ m
      else (j, w) ∷ rest

-- What the code asks of a `serde_json::Value`, and how it makes one.
pub record Json (J : Type 0) : Type 0 where
  pub as_str : J → Option Bytes
  pub as_u64 : J → Option ℕ
  pub as_object : J → Option (JsonMap J)
  pub string : Bytes → J
  pub object : JsonMap J → J

pub record ProxyData (J : Type 0) : Type 0 where
  pub destination : Bytes
  pub query_params : Option J
  pub request_headers : Option J
  pub response_headers : Option J
  pub exp : Option ℕ
  pub ip : Option Bytes

pub data AuthError : Type 0 where
  invalid_format too_short bad_padding invalid_data expired ip_mismatch : AuthError

pub data AuthResult {ℓ} (A : Type ℓ) : Type ℓ where
  ok : A → AuthResult A
  err : AuthError → AuthResult A

-- `URL_SAFE_NO_PAD`, AES-256-CBC with PKCS#7 padding (key, vector, text), and serde.
pub record Crates (J : Type 0) : Type 0 where
  pub base64_encode : Bytes → Bytes
  pub base64_decode : Bytes → Option Bytes
  pub cbc_encrypt : Bytes → Bytes → Bytes → Bytes
  pub cbc_decrypt : Bytes → Bytes → Bytes → Option Bytes
  pub to_vec : ProxyData J → Bytes
  pub read_proxy_data : Bytes → Option (ProxyData J)
  pub read_map : Bytes → Option (JsonMap J)

-- The three maps of a flat dictionary.
pub record Parts (J : Type 0) : Type 0 where
  pub query_params : JsonMap J
  pub request_headers : JsonMap J
  pub response_headers : JsonMap J

abbrev pub or_else {ℓ} : {A : Type ℓ} → Option A → Option A → Option A
or_else none b = b
or_else (some a) b = some a

abbrev pub and_then {ℓ} : {A B : Type ℓ} → Option A → (A → Option B) → Option B
and_then none f = none
and_then (some a) f = f a

module _ {J : Type 0} (json : Json J) where
  abbrev pub sort_entry : Bytes → J → Parts J → Parts J
  sort_entry k v p = elim (strip_prefix (ascii "h_") k) [
    | some stripped ↦ record p { request_headers = map_insert stripped v p.request_headers }
    | none ↦ elim (strip_prefix (ascii "r_") k) [
      | some stripped ↦ record p { response_headers = map_insert stripped v p.response_headers }
      | none ↦ record p { query_params = map_insert k v p.query_params }
    ]
  ]

  unfoldable pub sort_entries : JsonMap J → Parts J → Parts J
  unfolding map_insert
  sort_entries [] p = p
  sort_entries ((k, v) ∷ m) p = sort_entries m (sort_entry k v p)

  abbrev pub object_or_none : JsonMap J → Option J
  object_or_none [] = none
  object_or_none (e ∷ m) = some (json.object (e ∷ m))

  -- `Map::remove` of one key.
  abbrev pub without : Bytes → JsonMap J → JsonMap J
  without k [] = []
  without k ((j, w) ∷ m) = let rest = without k m in if bytes_equal j k then rest else (j, w) ∷ rest

  abbrev pub from_parts : JsonMap J → Parts J → ProxyData J
  from_parts m p = record {
    destination = get_or (and_then (lookup (ascii "d") m) json.as_str) [];
    query_params = object_or_none p.query_params;
    request_headers = object_or_none p.request_headers;
    response_headers = object_or_none p.response_headers;
    exp = and_then (lookup (ascii "exp") m) json.as_u64;
    ip = and_then (lookup (ascii "ip") m) json.as_str;
  }

  unfoldable pub from_python_flat_dict : JsonMap J → ProxyData J
  unfolding sort_entries lookup
  from_python_flat_dict m = from_parts m (
      sort_entries (without (ascii "ip") (without (ascii "exp") (without (ascii "d") m)))
        (record { query_params = []; request_headers = []; response_headers = [] }))

-- The key of a password: cut at 32 bytes, filled up with spaces.
unfoldable pub derive_key : Bytes → Bytes
derive_key api_password =
    let copy_len = min (length api_password) 32 in
    take copy_len api_password ++ replicate (32 - copy_len) 32

abbrev pub is_expired : Option ℕ → ℕ → Bool
is_expired none now = false
is_expired (some exp) now = ltb exp now

abbrev pub is_foreign : Option Bytes → Option Bytes → Bool
is_foreign (some token_ip) (some client_ip) = not (bytes_equal token_ip client_ip)
is_foreign _ _ = false

module _ {J : Type 0} (json : Json J) (crates : Crates J) where
  unfoldable pub encrypt : Bytes → Bytes → ProxyData J → Bytes
  encrypt key iv d = crates.base64_encode (iv ++ crates.cbc_encrypt key iv (crates.to_vec d))

  -- The Rust format, or else the flat one.
  abbrev pub read_plaintext : Bytes → AuthResult (ProxyData J)
  read_plaintext plaintext = elim (crates.read_proxy_data plaintext) [
    | some d ↦ ok d
    | none ↦ elim (crates.read_map plaintext) [
      | some flat ↦ ok (from_python_flat_dict json flat)
      | none ↦ err invalid_data
    ]
  ]

  abbrev pub check_limits : ℕ → Option Bytes → AuthResult (ProxyData J) → AuthResult (ProxyData J)
  check_limits now client_ip (err e) = err e
  check_limits now client_ip (ok d) =
      if is_expired d.exp now
      then err expired
      else if is_foreign d.ip client_ip
      then err ip_mismatch
      else ok d

  abbrev pub decrypt_data : Bytes → ℕ → Option Bytes → Bytes → AuthResult (ProxyData J)
  decrypt_data key now client_ip d =
      if ltb (length d) 17
      then err too_short
      else elim (crates.cbc_decrypt key (take 16 d) (drop 16 d)) [
        | none ↦ err bad_padding
        | some plaintext ↦ check_limits now client_ip (read_plaintext plaintext)
      ]

  unfoldable pub decrypt : Bytes → ℕ → Bytes → Option Bytes → AuthResult (ProxyData J)
  unfolding from_python_flat_dict
  decrypt key now token client_ip = elim (crates.base64_decode token) [
    | none ↦ err invalid_format
    | some encrypted_data ↦ decrypt_data key now client_ip encrypted_data
  ]
