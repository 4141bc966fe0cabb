-- ===== src/Auth/Encryption/Tokens.antt =====
-- Which tokens `decrypt` accepts, and what they carry.
use mediaflow_proxy_light.Base.{
  ℕ, ◌≤◌, ◌<◌, ◌≡◌, inl, inr, refl, ap, Bool, false, Option, none, some, ltb, if◌then◌else◌, length,
  take, drop, Bytes, bytes_equal_iff, Option-cases, Bool-cases, arith,
}
use mathlib.Core.Path.{subst}
use mediaflow_proxy_light.Auth.Encryption.{
  Json, ProxyData, AuthResult, ok, err, expired, ip_mismatch, Crates, is_expired, is_foreign,
  check_limits, read_plaintext, decrypt_data, decrypt,
}

-- Not after the time that the data names, and for the address that it names, where both are there.
abbrev pub OnTime : Option ℕ → ℕ → Type 0
OnTime none now = Unit
OnTime (some exp) now = now ≤ exp

abbrev pub SameIp : Option Bytes → Option Bytes → Type 0
SameIp (some token_ip) (some client_ip) = token_ip ≡ client_ip
SameIp _ _ = Unit

OnTime-is_expired : (exp : Option ℕ) (now : ℕ) → is_expired exp now ≡ false → OnTime exp now
OnTime-is_expired none now h = tt
OnTime-is_expired (some exp) now h = ground arith

is_expired-OnTime : (exp : Option ℕ) (now : ℕ) → OnTime exp now → is_expired exp now ≡ false
is_expired-OnTime none now h = refl
is_expired-OnTime (some exp) now h = ground arith

SameIp-is_foreign :
    (ip client_ip : Option Bytes) → is_foreign ip client_ip ≡ false → SameIp ip client_ip
SameIp-is_foreign (some a) (some b) h = ground (arith, bytes_equal_iff a b)
SameIp-is_foreign (some a) none h = tt
SameIp-is_foreign none client_ip h = tt

is_foreign-SameIp :
    (ip client_ip : Option Bytes) → SameIp ip client_ip → is_foreign ip client_ip ≡ false
is_foreign-SameIp (some a) (some b) h = ground (arith, bytes_equal_iff a b)
is_foreign-SameIp (some a) none h = refl
is_foreign-SameIp none client_ip h = refl

module _ {J : Type 0} where
  abbrev pub IsValid : ℕ → Option Bytes → ProxyData J → Type 0
  IsValid now client_ip d = OnTime d.exp now × SameIp d.ip client_ip

  ok_of_limits :
      (late foreign : Bool) (d d' : ProxyData J)
      → (if late then err expired else if foreign then err ip_mismatch else ok d) ≡ ok d'
      → (d ≡ d') × (late ≡ false) × (foreign ≡ false)
  ok_of_limits late foreign d d' h = ground arith

  module _ (json : Json J) (crates : Crates J) where
    pub check_limits-ok :
        (now : ℕ) (client_ip : Option Bytes) (r : AuthResult (ProxyData J)) (d : ProxyData J)
        → check_limits json crates now client_ip r ≡ ok d
        → (r ≡ ok d) × IsValid now client_ip d
    check_limits-ok now client_ip (err e) d h = cc
    check_limits-ok now client_ip (ok d') d h =
        let (same, early, near) =
          ok_of_limits (is_expired d'.exp now) (is_foreign d'.ip client_ip) d' d h in
        (
          ap ok same,
          subst (IsValid now client_ip) same
              (OnTime-is_expired d'.exp now early, SameIp-is_foreign d'.ip client_ip near),
        )

    pub check_limits-IsValid :
        (now : ℕ) (client_ip : Option Bytes) (d : ProxyData J)
        → IsValid now client_ip d
        → check_limits json crates now client_ip (ok d) ≡ ok d
    check_limits-IsValid now client_ip d (early, near) =
        rw (is_expired-OnTime d.exp now early, is_foreign-SameIp d.ip client_ip near) refl

    decrypt_data-long :
        (key : Bytes) (now : ℕ) (client_ip : Option Bytes) (e : Bytes) (d : ProxyData J)
        → decrypt_data json crates key now client_ip e ≡ ok d
        → (16 < length e)
          × (p : Bytes) × (crates.cbc_decrypt key (take 16 e) (drop 16 e) ≡ some p)
          × (check_limits json crates now client_ip (read_plaintext json crates p) ≡ ok d)
    decrypt_data-long key now client_ip e d h = elim (Bool-cases (ltb (length e) 17)) [
      | inl short ↦ ground arith
      | inr long ↦ elim (Option-cases (crates.cbc_decrypt key (take 16 e) (drop 16 e))) [
        | inl bad ↦ ground arith
        | inr (p, good) ↦ (ground arith, p, good, ground arith)
      ]
    ]

    -- What is known of a token that is accepted.
    abbrev pub Decrypted : Bytes → ℕ → Bytes → Option Bytes → ProxyData J → Type 0
    Decrypted key now token client_ip d =
        (e p : Bytes) × (crates.base64_decode token ≡ some e)
        × (16 < length e)
        × (crates.cbc_decrypt key (take 16 e) (drop 16 e) ≡ some p)
        × (read_plaintext json crates p ≡ ok d)
        × IsValid now client_ip d

    pub decrypt-Decrypted :
        (key : Bytes) (now : ℕ) (token : Bytes) (client_ip : Option Bytes) (d : ProxyData J)
        → decrypt json crates key now token client_ip ≡ ok d
        → Decrypted key now token client_ip d
    unfolding decrypt
    decrypt-Decrypted key now token client_ip d h =
        elim (Option-cases (crates.base64_decode token)) [
          | inl bad ↦ ground arith
          | inr (e, good) ↦
              let (long, p, plain, limits) =
                decrypt_data-long key now client_ip e d (ground arith) in
              let (same, valid) =
                check_limits-ok now client_ip (read_plaintext json crates p) d limits in
              (e, p, good, long, plain, same, valid)
        ]
