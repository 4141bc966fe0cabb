-- ===== src/Drm/Cipher.antt =====
-- The block ciphers that src/drm/cenc.rs calls (the crates aes, ctr and cbc), as a parameter.
use mediaflow_proxy_light.Base.{ℕ, ◌+◌, ◌*◌, ◌^◌, ◌<◌, ◌≡◌, ◌++◌, length, Bytes, to_be_bytes}

-- Each takes the key, the initialisation vector of 16 bytes and the data. The CBC decryptors are
-- called on whole blocks only, with no padding.
pub record Ciphers : Type 0 where
  pub aes128_ctr : Bytes → Bytes → Bytes → Bytes
  pub aes256_ctr : Bytes → Bytes → Bytes → Bytes
  pub aes128_cbc_dec : Bytes → Bytes → Bytes → Bytes
  pub aes256_cbc_dec : Bytes → Bytes → Bytes → Bytes

-- The ciphers work in place: as many bytes come out as went in.
pub record KeepsLength (c : Ciphers) : Type 0 where
  pub ctr128 : (key iv d : Bytes) → length (c.aes128_ctr key iv d) ≡ length d
  pub ctr256 : (key iv d : Bytes) → length (c.aes256_ctr key iv d) ≡ length d
  pub cbc128 : (key iv d : Bytes) → length (c.aes128_cbc_dec key iv d) ≡ length d
  pub cbc256 : (key iv d : Bytes) → length (c.aes256_cbc_dec key iv d) ≡ length d

-- Counter mode of one key: after `n` whole blocks the cipher stands where a cipher started with
-- the counter raised by `n` stands. Said only where the low 64 bits of the counter do not carry.
abbrev pub CounterMode : (Bytes → Bytes → Bytes) → Type 0
CounterMode ctr =
    (upper front rest : Bytes) (counter n : ℕ)
    → length upper ≡ 8
    → length front ≡ 16 * n
    → counter + n < 2 ^ 64
    → ctr (upper ++ to_be_bytes 8 counter) (front ++ rest)
      ≡ ctr (upper ++ to_be_bytes 8 counter) front
        ++ ctr (upper ++ to_be_bytes 8 (counter + n)) rest
