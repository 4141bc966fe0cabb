-- ===== src/Auth/Encryption/RoundTrip.antt =====
-- Tokens that `encrypt` has made, under the key of a password.
use mediaflow_proxy_light.Base.{
  ℕ, ◌-◌, ◌<◌, ◌≡◌, ◌↔◌, refl, sym, ap, ◌∙◌, min, false, ◌++◌, Option, some, ltb, le→ltb, length,
  take, replicate, length-append, length-take, length-replicate, take_prefix_of, drop_prefix_of,
  Bytes, arith,
}
use mathlib.Core.Path.{subst}
use mediaflow_proxy_light.Auth.Encryption.{
  Json, ProxyData, ok, Crates, encrypt, check_limits, read_plaintext, decrypt_data, decrypt,
  derive_key,
}
use mediaflow_proxy_light.Auth.Encryption.Tokens.{IsValid, check_limits-ok, check_limits-IsValid}

length-derive_key : (api_password : Bytes) → length (derive_key api_password) ≡ 32
unfolding derive_key
length-derive_key s =
    let n = min (length s) 32 in
    omega (
      arith,
      length-append (take n s) (replicate (32 - n) 32),
      length-take n s,
      length-replicate {A = ℕ} (32 - n) 32,
    )

ok_injective {ℓ} : {A : Type ℓ} (a b : A) → ok a ≡ ok b → a ≡ b
ok_injective a b h = ground arith

-- The round trips of base64 and of AES-CBC for keys of 32 bytes and vectors of 16; a padded text
-- has at least a byte.
module _ {J : Type 0} (json : Json J) (crates : Crates J)
    (base64 : (s : Bytes) → crates.base64_decode (crates.base64_encode s) ≡ some s)
    (cbc : (key iv s : Bytes)
      → length key ≡ 32
      → length iv ≡ 16
      → crates.cbc_decrypt key iv (crates.cbc_encrypt key iv s) ≡ some s)
    (padded : (key iv s : Bytes) → 0 < length (crates.cbc_encrypt key iv s)) where
  decrypt_data-pair :
      (key iv c plaintext : Bytes) (now : ℕ) (client_ip : Option Bytes)
      → length iv ≡ 16
      → 0 < length c
      → crates.cbc_decrypt key iv c ≡ some plaintext
      → decrypt_data json crates key now client_ip (iv ++ c)
        ≡ check_limits json crates now client_ip (read_plaintext json crates plaintext)
  decrypt_data-pair key iv c plaintext now client_ip sixteen nonempty plain =
      let long : ltb (length (iv ++ c)) 17 ≡ false =
        le→ltb _ _ (omega (arith, length-append iv c)) in
      rw (long, take_prefix_of 16 iv c sixteen, drop_prefix_of 16 iv c sixteen, plain) refl

  read_written :
      (d : ProxyData J)
      → crates.read_proxy_data (crates.to_vec d) ≡ some d
      → read_plaintext json crates (crates.to_vec d) ≡ ok d
  read_written d serde = rw (serde, read_plaintext) refl

  decrypt-encrypted :
      (api_password iv : Bytes) (now : ℕ) (client_ip : Option Bytes) (d : ProxyData J)
      → crates.read_proxy_data (crates.to_vec d) ≡ some d
      → length iv ≡ 16
      → decrypt json crates
          (derive_key api_password)
          now
          (encrypt json crates (derive_key api_password) iv d)
          client_ip
        ≡ check_limits json crates now client_ip (ok d)
  unfolding decrypt encrypt
  decrypt-encrypted api_password iv now client_ip d serde sixteen =
      let key = derive_key api_password in
      let c = crates.cbc_encrypt key iv (crates.to_vec d) in
      rw (base64 (iv ++ c), decrypt)
        (decrypt_data-pair key iv c (crates.to_vec d) now client_ip sixteen
            (padded key iv (crates.to_vec d))
            (cbc key iv (crates.to_vec d) (length-derive_key api_password) sixteen)
          ∙ ap (check_limits json crates now client_ip) (read_written d serde))

  -- If base64 and AES-CBC, for keys of 32 bytes and vectors of 16, give back what they were given,
  -- and a padded text has at least a byte, then a token made under a password for data that serde
  -- reads back as they are decrypts under it to these data and to no other, and does so exactly if
  -- the data has not expired and does not name another address than the client's.
  pub decrypt-encrypt :
      (api_password iv : Bytes) (now : ℕ) (client_ip : Option Bytes) (d d' : ProxyData J)
      → crates.read_proxy_data (crates.to_vec d) ≡ some d
      → length iv ≡ 16
      → (decrypt json crates
            (derive_key api_password)
            now
            (encrypt json crates (derive_key api_password) iv d)
            client_ip
          ≡ ok d')
        ↔ ((d ≡ d') × IsValid now client_ip d)
  decrypt-encrypt api_password iv now client_ip d d' serde sixteen =
      let same = decrypt-encrypted api_password iv now client_ip d serde sixteen in
      (
        (λ h.
            let (there, valid) =
              check_limits-ok json crates now client_ip (ok d) d' (sym same ∙ h) in
            let equal = ok_injective d d' there in
            (equal, subst (IsValid now client_ip) (sym equal) valid)),
        (λ (equal, valid).
            same ∙ check_limits-IsValid json crates now client_ip d valid ∙ ap ok equal),
      )
