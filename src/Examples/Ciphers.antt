-- ===== src/Examples/Ciphers.antt =====
-- A toy cipher that keeps lengths and has the law of counter mode.
use mediaflow_proxy_light.Base.{ℕ, suc, ◌+◌, ◌%◌, ◌≡◌, refl, ap, [], ◌∷◌, ◌++◌, length, Bytes}
use mediaflow_proxy_light.Drm.Cipher.{Ciphers, KeepsLength, CounterMode}

abbrev pub shift : ℕ → Bytes → Bytes
shift n [] = []
shift n (b ∷ bs) = ((b + n) % 256) ∷ shift n bs

length-shift : (n : ℕ) (d : Bytes) → length (shift n d) ≡ length d
length-shift n [] = refl
length-shift n (b ∷ bs) = ap suc (length-shift n bs)

shift-append : (n : ℕ) (xs ys : Bytes) → shift n (xs ++ ys) ≡ shift n xs ++ shift n ys
shift-append n [] ys = refl
shift-append n (x ∷ xs) ys = ap (◌∷◌ ((x + n) % 256)) (shift-append n xs ys)

-- Each byte moved by the length of the key.
abbrev pub toy : Ciphers
toy = record {
  aes128_ctr = λ key iv d. shift (length key) d;
  aes256_ctr = λ key iv d. shift (length key) d;
  aes128_cbc_dec = λ key iv d. shift (length key) d;
  aes256_cbc_dec = λ key iv d. shift (length key) d;
}

pub toy-KeepsLength : KeepsLength toy
toy-KeepsLength = record {
  ctr128 = λ key iv d. length-shift (length key) d;
  ctr256 = λ key iv d. length-shift (length key) d;
  cbc128 = λ key iv d. length-shift (length key) d;
  cbc256 = λ key iv d. length-shift (length key) d;
}

pub toy-CounterMode : (key : Bytes) → CounterMode (toy.aes128_ctr key)
toy-CounterMode key upper front rest counter n wide aligned near =
    shift-append (length key) front rest
