-- ===== src/Telegram/FileId/Laws.antt =====
-- The decoders of src/telegram/media_ref.rs against the formats that they read.
use native.Mathlib.Decide.{dec_lt}
use mediaflow_proxy_light.Base.{
  ℕ, suc, ◌+◌, ◌-◌, ◌/◌, ◌%◌, ◌^◌, ◌<◌, ◌≡◌, ◌≢◌, refl, ap, ◌∙◌, List, [], ◌∷◌, ◌++◌, append_assoc,
  some, ltb, ==_ne, if◌then◌else◌, length, replicate, length-append, length-replicate,
  take_prefix_of, drop_prefix_of, lt→ltb, le→ltb, Bytes, from_be_bytes, arith,
}
use mediaflow_proxy_light.Telegram.FileId.{rle_decode, tl_content, read_tl_bytes}

-- A plain text for the run-length form: a byte other than zero, or a run of zeros.
pub data Run : Type 0 where
  literal zeros : ℕ → Run

abbrev pub wire : List Run → Bytes
wire [] = []
wire (literal b ∷ rest) = b ∷ wire rest
wire (zeros n ∷ rest) = 0 ∷ n ∷ wire rest

abbrev pub expand : List Run → Bytes
expand [] = []
expand (literal b ∷ rest) = b ∷ expand rest
expand (zeros n ∷ rest) = replicate n 0 ++ expand rest

abbrev pub IsPlain : List Run → Type 0
IsPlain [] = Unit
IsPlain (literal b ∷ rest) = (b ≢ 0) × IsPlain rest
IsPlain (zeros n ∷ rest) = IsPlain rest

rle_decode_literal : (b : ℕ) (d : Bytes) → b ≢ 0 → rle_decode (b ∷ d) ≡ b ∷ rle_decode d
unfolding rle_decode
rle_decode_literal b [] h = refl
rle_decode_literal b (x ∷ d) h = rw (==_ne b 0 h)

rle_decode_zeros : (n : ℕ) (d : Bytes) → rle_decode (0 ∷ n ∷ d) ≡ replicate n 0 ++ rle_decode d
unfolding rle_decode
rle_decode_zeros n d = refl

-- The run-length decoder expands every run of zeros and keeps every other byte.
pub rle_decode-wire : (rs : List Run) → IsPlain rs → rle_decode (wire rs) ≡ expand rs
rle_decode-wire [] h = unfold rle_decode in refl
rle_decode-wire (literal b ∷ rest) (nz, h) =
    rle_decode_literal b (wire rest) nz ∙ ap (◌∷◌ b) (rle_decode-wire rest h)
rle_decode-wire (zeros n ∷ rest) h =
    rle_decode_zeros n (wire rest) ∙ ap (λ t. replicate n 0 ++ t) (rle_decode-wire rest h)

-- The TL form of a byte string: its length in one byte, or in three behind the byte 254, the
-- content, and zeros up to a multiple of four bytes.
abbrev pub padding : ℕ → Bytes
padding n = replicate ((4 - n % 4) % 4) 0

abbrev pub tl_header : ℕ → Bytes
tl_header n =
    if ltb n 254 then n ∷ [] else 254 ∷ (n % 256) ∷ (n / 256 % 256) ∷ (n / 65536 % 256) ∷ []

abbrev pub tl_bytes : Bytes → Bytes
tl_bytes content =
    let head = tl_header (length content) in
    head ++ (content ++ padding (length head + length content))

tl_content-tl :
    (head content rest : Bytes) (k n : ℕ)
    → length head ≡ k
    → length content ≡ n
    → tl_content (head ++ (content ++ (padding (k + n) ++ rest))) k n
      ≡ some (content, k + n + length (padding (k + n)))
unfolding tl_content
tl_content-tl head content rest k n e f = ground (
  arith,
  drop_prefix_of k head (content ++ (padding (k + n) ++ rest)) e,
  take_prefix_of n content (padding (k + n) ++ rest) f,
  length-append head (content ++ (padding (k + n) ++ rest)),
  length-append content (padding (k + n) ++ rest),
  length-append (padding (k + n)) rest,
  length-replicate {A = ℕ} ((4 - (k + n) % 4) % 4) 0,
)

read_short :
    (content rest : Bytes)
    → length content < 254
    → read_tl_bytes (length content ∷ (content ++ (padding (1 + length content) ++ rest)))
      ≡ some (content, suc (length (content ++ padding (1 + length content))))
unfolding read_tl_bytes
read_short content rest h =
    let size : 1 + length content + length (padding (1 + length content))
        ≡ suc (length (content ++ padding (1 + length content))) =
      omega (arith, length-append content (padding (1 + length content))) in
    rw (==_ne (length content) 254 (λ e. omega arith)) (
      tl_content-tl (length content ∷ []) content rest 1 (length content) refl refl
      ∙ ap (λ m. some (content, m)) size)

read_long :
    (content rest : Bytes)
    → length content < 2 ^ 24
    → read_tl_bytes (
        254
        ∷ (length content % 256)
        ∷ (length content / 256 % 256)
        ∷ (length content / 65536 % 256)
        ∷ (content ++ (padding (4 + length content) ++ rest)))
      ≡ some (content, suc (suc (suc (suc (length (content ++ padding (4 + length content)))))))
unfolding read_tl_bytes
read_long content rest h =
    let n = length content in
    let size : from_be_bytes ((n / 65536 % 256) ∷ (n / 256 % 256) ∷ (n % 256) ∷ []) ≡ n =
      unfold from_be_bytes in omega arith in
    let all : 4 + n + length (padding (4 + n))
        ≡ suc (suc (suc (suc (length (content ++ padding (4 + n)))))) =
      omega (arith, length-append content (padding (4 + n))) in
    rw
      (
        size,
        le→ltb (suc (suc (suc (suc (length (content ++ (padding (4 + n) ++ rest))))))) 4
            (omega arith),
      )
      (tl_content-tl (254 ∷ (n % 256) ∷ (n / 256 % 256) ∷ (n / 65536 % 256) ∷ []) content rest 4 n
          refl refl
        ∙ ap (λ m. some (content, m)) all)

-- Reading a TL byte string returns its content and takes exactly its bytes, whatever follows, where
-- the content is shorter than 2 ^ 24 bytes.
pub read_tl_bytes-tl_bytes :
    (content rest : Bytes)
    → length content < 2 ^ 24
    → read_tl_bytes (tl_bytes content ++ rest) ≡ some (content, length (tl_bytes content))
read_tl_bytes-tl_bytes content rest h = elim (dec_lt (length content) 254) [
  | yes short ↦
      rw (lt→ltb _ _ short, append_assoc content (padding (1 + length content)) rest)
        (read_short content rest short)
  | no long ↦
      rw
        (
          le→ltb (length content) 254 (omega arith),
          append_assoc content (padding (4 + length content)) rest,
        )
        (read_long content rest h)
]
