-- ===== src/Drm/Sample/Pattern.antt =====
-- `decrypt_cbcs_pattern` of src/drm/cenc.rs: which bytes a pattern leaves alone.
use mediaflow_proxy_light.Base.{
  ℕ, zero, suc, ◌+◌, ◌-◌, ◌*◌, ◌/◌, ◌≤◌, ◌<◌, ◌≡◌, refl, ap, ◌∙◌, List, [], ◌∷◌, ◌++◌, ◌⊎◌, inl,
  inr, ltb, leb, ◌==◌, is_empty, length, take, drop, get_elem?, length-append, length-take,
  length-drop, Bytes, Bool-cases, done, slice, slice_in_range, arith, is_empty, ◌||◌,
}
use native.Mathlib.Nat.{mul-le-mul_right}
use native.Mathlib.Decide.{dec_lt}
use mediaflow_proxy_light.Drm.Cipher.{Ciphers, KeepsLength}
use mediaflow_proxy_light.Drm.Sample.{
  block_positions, collect_blocks, copy_back, aes_cbc_decrypt_full_blocks, decrypt_pattern_blocks,
  decrypt_cbcs_pattern,
}

slice_exact :
    (d : Bytes) (from n : ℕ)
    → from + n ≤ length d
    → slice d from (from + n) ≡ done (take n (drop from d))
slice_exact d from n h =
    let width : from + n - from ≡ n = omega arith in
    slice_in_range d from (from + n) (omega arith) h ∙ ap (λ k. done (take k (drop from d))) width

mul_mono : (a b c : ℕ) → a ≤ b → a * c ≤ b * c
mul_mono a b c h = mul-le-mul_right c h

-- Overwriting as many bytes as are written leaves every byte outside of them.
get_splice :
    (d b : Bytes) (pos end i : ℕ)
    → pos + length b ≡ end
    → end ≤ length d
    → (i < pos) ⊎ (end ≤ i)
    → get_elem? (take pos d ++ (b ++ drop end d)) i ≡ get_elem? d i
get_splice d [] zero zero i e fits h = refl
get_splice d [] zero (suc end) i e fits h = absurd (omega arith)
get_splice d (x ∷ b) zero zero i e fits h = absurd (omega arith)
get_splice [] b pos (suc end) i e fits h = absurd (omega arith)
get_splice (y ∷ d) (x ∷ b) zero (suc end) zero e fits h = absurd (omega arith)
get_splice (y ∷ d) (x ∷ b) zero (suc end) (suc i) e fits h =
    get_splice d b zero end i (omega arith) (omega arith) (inr (omega arith))
get_splice d b (suc pos) zero i e fits h = absurd (omega arith)
get_splice (y ∷ d) b (suc pos) (suc end) zero e fits h = refl
get_splice (y ∷ d) b (suc pos) (suc end) (suc i) e fits h =
    get_splice d b pos end i (omega arith) (omega arith)
      (elim h [ inl l ↦ inl (omega arith) | inr r ↦ inr (omega arith) ])

module _ (len crypt skip : ℕ) where
  -- Ranges within the data, each from the start of a period and no longer than its encrypted part.
  data Ranges : List (ℕ × ℕ) → Type 0 where
    nil : Ranges []
    cons :
        (k pos n : ℕ) {rest : List (ℕ × ℕ)}
        → pos ≡ k * (crypt + skip)
        → n ≤ crypt
        → pos + n ≤ len
        → Ranges rest
        → Ranges ((pos, n) ∷ rest)

  abbrev total : List (ℕ × ℕ) → ℕ
  total [] = 0
  total ((pos, n) ∷ rest) = n + total rest

  block_positions-Ranges :
      (fuel k pos : ℕ)
      → 0 < crypt + skip
      → len - pos < fuel
      → pos ≡ k * (crypt + skip)
      → (ps : List (ℕ × ℕ)) × (block_positions fuel len crypt skip pos ≡ done ps) × Ranges ps
  unfolding block_positions
  block_positions-Ranges zero k pos moves enough at = absurd (omega arith)
  block_positions-Ranges (suc fuel) k pos moves enough at = elim (Bool-cases (ltb pos len)) [
    | inr over ↦ ([], rw over refl, nil)
    | inl within ↦ elim (Bool-cases (leb (pos + crypt) len)) [
      | inl whole ↦ elim (Bool-cases (leb (pos + crypt + skip) len)) [
        | inl next ↦
            let (ps, e, r) =
              block_positions-Ranges fuel (suc k) (pos + crypt + skip) moves (ground arith)
                (ground arith) in
            (
              (pos, crypt) ∷ ps,
              rw (within, whole, next, e) refl,
              cons k pos crypt at (omega arith) (ground arith) r,
            )
        | inr stop ↦ (
          (pos, crypt) ∷ [],
          rw (within, whole, stop) refl,
          cons k pos crypt at (omega arith) (ground arith) nil,
        )
      ]
      | inr part ↦ elim (Bool-cases (ltb 0 ((len - pos) / 16 * 16))) [
        | inl some_blocks ↦ (
          (pos, (len - pos) / 16 * 16) ∷ [],
          rw (within, part, some_blocks) refl,
          cons k pos _ at (ground arith) (ground arith) nil,
        )
        | inr no_block ↦ ([], rw (within, part, no_block) refl, nil)
      ]
    ]
  ]

  length-collect_blocks :
      (d : Bytes) (ps : List (ℕ × ℕ))
      → length d ≡ len
      → Ranges ps
      → length (collect_blocks d ps) ≡ total ps
  unfolding collect_blocks
  length-collect_blocks d [] same nil = refl
  length-collect_blocks d ((pos, n) ∷ rest) same (cons k _ _ at small fits r) = omega (
    arith,
    length-append (take n (drop pos d)) (collect_blocks d rest),
    length-take n (drop pos d),
    length-drop pos d,
    length-collect_blocks d rest same r,
  )

  -- A place in the part of a period that is not encrypted lies outside every range.
  outside :
      (k pos n q r : ℕ)
      → pos ≡ k * (crypt + skip)
      → n ≤ crypt
      → crypt ≤ r
      → r < crypt + skip
      → (q * (crypt + skip) + r < pos) ⊎ (pos + n ≤ q * (crypt + skip) + r)
  outside k pos n q r at small low high = elim (dec_lt q k) [
    | yes below ↦ inl (omega (arith, mul_mono (suc q) k (crypt + skip) (omega arith)))
    | no above ↦ inr (omega (arith, mul_mono k q (crypt + skip) (omega arith)))
  ]

  abbrev Untouched : Bytes → Bytes → Type 0
  Untouched out d =
      (q r : ℕ)
      → crypt ≤ r
      → r < crypt + skip
      → get_elem? out (q * (crypt + skip) + r) ≡ get_elem? d (q * (crypt + skip) + r)

  copy_back-Ranges :
      (decrypted result : Bytes) (ps : List (ℕ × ℕ)) (from : ℕ)
      → Ranges ps
      → length result ≡ len
      → from + total ps ≤ length decrypted
      → (out : Bytes) × (copy_back decrypted result ps from ≡ done out)
        × (length out ≡ len)
        × Untouched out result
  unfolding copy_back
  copy_back-Ranges decrypted result [] from nil same enough = (result, refl, same, λ q r _ _. refl)
  copy_back-Ranges decrypted result ((pos, n) ∷ ps) from (cons k _ _ at small fits r) same enough =
      let b = take n (drop from decrypted) in
      let b_length : length b ≡ n =
        omega (arith, length-take n (drop from decrypted), length-drop from decrypted) in
      let next = take pos result ++ (b ++ drop (pos + n) result) in
      let next_length : length next ≡ len = omega (
        arith,
        length-append (take pos result) (b ++ drop (pos + n) result),
        length-append b (drop (pos + n) result),
        length-take pos result,
        length-drop (pos + n) result,
      ) in
      let (out, e, l, untouched) =
        copy_back-Ranges decrypted next ps (from + n) r next_length (omega arith) in
      (
        out,
        rw (slice_exact decrypted from n (omega arith), slice_exact result pos n (omega arith)) e,
        l,
        λ q i low high.
            untouched q i low high
            ∙ get_splice result b pos (pos + n) _ (omega arith) (omega arith)
                (outside k pos n q i at small low high),
      )

-- What a byte pattern promises of its output.
pub record Kept (crypt skip : ℕ) (d out : Bytes) : Type 0 where
  pub same_length : length out ≡ length d
  pub untouched : Untouched (length d) crypt skip out d

module _ (c : Ciphers) (k : KeepsLength c) where
  pub length-aes_cbc :
      (key iv d : Bytes) → length (aes_cbc_decrypt_full_blocks c key iv d) ≡ length d
  unfolding aes_cbc_decrypt_full_blocks
  length-aes_cbc key iv d =
      let n = length d / 16 * 16 in
      let first = take n d in
      let last = drop n d in
      ground (
        arith,
        k.cbc128 key iv first,
        k.cbc256 key iv first,
        length-append (c.aes128_cbc_dec key iv first) last,
        length-append (c.aes256_cbc_dec key iv first) last,
        length-take n d,
        length-drop n d,
      )

  blocks-Kept :
      (d key iv : Bytes) (crypt skip : ℕ) (ps : List (ℕ × ℕ))
      → Ranges (length d) crypt skip ps
      → (out : Bytes) × (decrypt_pattern_blocks c d key iv ps ≡ done out) × Kept crypt skip d out
  unfolding decrypt_pattern_blocks
  blocks-Kept d key iv crypt skip ps r =
      let len = length d in
      let blocks = collect_blocks d ps in
      let enough : 0 + total len crypt skip ps
          ≤ length (aes_cbc_decrypt_full_blocks c key iv blocks) =
        omega
          (arith, length-aes_cbc key iv blocks, length-collect_blocks len crypt skip d ps refl r) in
      elim (Bool-cases (is_empty blocks)) [
        | inl none ↦ (d, rw none refl, record { same_length = refl; untouched = λ q i _ _. refl })
        | inr some_blocks ↦
            let (out, e, l, u) =
              copy_back-Ranges len crypt skip (aes_cbc_decrypt_full_blocks c key iv blocks) d ps 0 r
                refl enough in
            (out, rw some_blocks e, record { same_length = l; untouched = u })
      ]

  pub decrypt_cbcs_pattern-Kept :
      (d key iv : Bytes) (crypt_blocks skip_blocks : ℕ)
      → (out : Bytes) × (decrypt_cbcs_pattern c d key iv crypt_blocks skip_blocks ≡ done out)
        × Kept (crypt_blocks * 16) (skip_blocks * 16) d out
  unfolding decrypt_cbcs_pattern
  decrypt_cbcs_pattern-Kept d key iv crypt_blocks skip_blocks =
      elim (Bool-cases (is_empty d || crypt_blocks == 0)) [
        | inl nothing ↦
            (d, rw nothing refl, record { same_length = refl; untouched = λ q i _ _. refl })
        | inr some_data ↦ elim (Bool-cases (skip_blocks * 16 == 0)) [
          | inl full ↦ (
            aes_cbc_decrypt_full_blocks c key iv d,
            rw (some_data, full) refl,
            record {
              same_length = length-aes_cbc key iv d;
              untouched = λ q i low high. absurd (ground arith);
            },
          )
          | inr pattern_set ↦
              let (ps, e, r) =
                block_positions-Ranges (length d) (crypt_blocks * 16) (skip_blocks * 16)
                  (suc (length d)) 0 0 (ground arith) (omega arith) (omega arith) in
              let (out, f, kept) = blocks-Kept d key iv _ _ ps r in
              (out, rw (some_data, pattern_set, e) f, kept)
        ]
      ]

  -- Pattern decryption always returns, as many bytes as it was given, and leaves the bytes of the
  -- skipped blocks as they are: in every period of crypt + skip blocks, those behind the first
  -- crypt blocks.
  pub decrypt_cbcs_pattern_skips :
      (d key iv : Bytes) (crypt_blocks skip_blocks period offset : ℕ)
      → crypt_blocks * 16 ≤ offset
      → offset < crypt_blocks * 16 + skip_blocks * 16
      → (out : Bytes) × (decrypt_cbcs_pattern c d key iv crypt_blocks skip_blocks ≡ done out)
        × (length out ≡ length d)
        × (get_elem? out (period * (crypt_blocks * 16 + skip_blocks * 16) + offset)
            ≡ get_elem? d (period * (crypt_blocks * 16 + skip_blocks * 16) + offset))
  decrypt_cbcs_pattern_skips d key iv crypt_blocks skip_blocks period offset low high =
      let (out, returns, kept) = decrypt_cbcs_pattern-Kept d key iv crypt_blocks skip_blocks in
      (out, returns, kept.same_length, kept.untouched period offset low high)
