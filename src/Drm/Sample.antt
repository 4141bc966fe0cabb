-- ===== src/Drm/Sample.antt =====
-- The free functions of src/drm/cenc.rs that decrypt one sample.
pub mod SubSamples
pub mod Keystream
pub mod Pattern
pub mod Total
use mediaflow_proxy_light.Base.{
  ℕ, zero, suc, ◌+◌, ◌-◌, ◌*◌, ◌/◌, ◌%◌, ◌^◌, min, Bool, true, false, ◌||◌, List, [], ◌∷◌, ◌++◌,
  Option, none, some, ltb, leb, ◌==◌, if◌then◌else◌, length, take, drop, replicate, Bytes,
  to_be_bytes, from_be_bytes, slice, Outcome, done, panic, stuck, ◌>>=◌, is_empty,
}
use mathlib.Core.Option.{get_or}
use mathlib.Core.Bool.{not}
use mediaflow_proxy_light.Drm.Cipher.{Ciphers}

pub record SampleInfo : Type 0 where
  pub is_encrypted : Bool
  pub iv : Bytes
  -- clear and encrypted byte counts
  pub sub_samples : List (ℕ × ℕ)

pub data EncScheme : Type 0 where
  cenc cens cbc1 cbcs : EncScheme

-- `EncScheme::from_bytes` on the four bytes of the scheme type.
unfoldable pub from_bytes : ℕ → EncScheme
from_bytes b =
    if b == 0x63626373
    then cbcs
    else if b == 0x63626331
    then cbc1
    else if b == 0x63656e73
    then cens
    else cenc

-- `let mut iv = [0u8; 16]; iv[..copy_len].copy_from_slice(&from[..copy_len])`
unfoldable pub iv_array : Bytes → Bytes
iv_array from =
    let copy_len = min (length from) 16 in take copy_len from ++ replicate (16 - copy_len) 0

-- The counter, the last 8 bytes of the vector, moved on with wrap-around.
unfoldable pub iv_with_offset : Bytes → ℕ → Bytes
iv_with_offset iv block_offset =
    if ltb 0 block_offset
    then take 8 iv ++ to_be_bytes 8 ((from_be_bytes (drop 8 iv) + block_offset % 2 ^ 64) % 2 ^ 64)
    else iv

-- The loop over the sub-samples, with the caller's way to decrypt an encrypted run, given the
-- number of blocks before it. It returns the output, the position behind the last run and the blocks.
unfoldable pub sub_sample_loop :
    (ℕ → Bytes → Outcome Bytes) → Bytes → List (ℕ × ℕ) → Bytes → ℕ → ℕ → Outcome (Bytes × ℕ × ℕ)
sub_sample_loop decrypt sample [] result pos offset_blocks = done (result, pos, offset_blocks)
sub_sample_loop decrypt sample ((clear, enc) ∷ rest) result pos offset_blocks =
    slice sample pos (min (pos + clear) (length sample)) >>= λ clear_data.
    slice sample (pos + clear) (min (pos + clear + enc) (length sample)) >>= λ enc_data.
    decrypt offset_blocks enc_data >>= λ decrypted.
    sub_sample_loop decrypt sample rest (result ++ (clear_data ++ decrypted)) (pos + clear + enc)
      (offset_blocks + (enc + 15) / 16)

-- `if pos < sample.len()`: what stands behind the last sub-sample.
unfoldable pub sub_sample_tail : (ℕ → Bytes → Bytes) → Bytes → Bytes × ℕ × ℕ → Bytes
sub_sample_tail tail sample (result, pos, offset_blocks) =
    if ltb pos (length sample) then result ++ tail offset_blocks (drop pos sample) else result

-- What the three schemes do with a sample that has sub-samples.
unfoldable pub decrypt_runs :
    (ℕ → Bytes → Outcome Bytes) → (ℕ → Bytes → Bytes) → Bytes → List (ℕ × ℕ) → Outcome Bytes
unfolding sub_sample_loop sub_sample_tail
decrypt_runs decrypt tail sample sub_samples =
    sub_sample_loop decrypt sample sub_samples [] 0 0 >>= λ r. done (sub_sample_tail tail sample r)

-- One round of copying decrypted blocks back: `result[orig_pos..][..length].copy_from_slice(..)`.
-- Both slices are as long; a range that does not fit panics.
unfoldable pub copy_back : Bytes → Bytes → List (ℕ × ℕ) → ℕ → Outcome Bytes
copy_back decrypted result [] dec_pos = done result
copy_back decrypted result ((orig_pos, len) ∷ rest) dec_pos =
    slice decrypted dec_pos (dec_pos + len) >>= λ blocks.
    slice result orig_pos (orig_pos + len) >>= λ _.
    copy_back decrypted (take orig_pos result ++ (blocks ++ drop (orig_pos + len) result)) rest
      (dec_pos + len)

-- The `while pos < data.len()` loop: the ranges of the encrypted blocks. Each round that goes on
-- moves the position by `crypt_bytes + skip_bytes`, which is positive.
unfoldable pub block_positions : ℕ → ℕ → ℕ → ℕ → ℕ → Outcome (List (ℕ × ℕ))
block_positions zero len crypt_bytes skip_bytes pos = stuck
block_positions (suc fuel) len crypt_bytes skip_bytes pos =
    let complete = (len - pos) / 16 * 16 in
    let more =
      block_positions fuel len crypt_bytes skip_bytes (pos + crypt_bytes + skip_bytes) >>= λ rest.
      done ((pos, crypt_bytes) ∷ rest) in
    if ltb pos len
    then if leb (pos + crypt_bytes) len
      then if leb (pos + crypt_bytes + skip_bytes) len then more else done ((pos, crypt_bytes) ∷ [])
      else if ltb 0 complete
      then done ((pos, complete) ∷ [])
      else done []
    else done []

-- `encrypted_blocks`, collected beside the positions; every range lies within the data.
unfoldable pub collect_blocks : Bytes → List (ℕ × ℕ) → Bytes
collect_blocks d [] = []
collect_blocks d ((pos, len) ∷ rest) = take len (drop pos d) ++ collect_blocks d rest

module _ (c : Ciphers) where
  unfoldable pub aes_ctr_decrypt_with_offset : Bytes → Bytes → Bytes → ℕ → Bytes
  unfolding iv_with_offset
  aes_ctr_decrypt_with_offset key iv d block_offset =
      if length key == 16
      then c.aes128_ctr key (iv_with_offset iv block_offset) d
      else if length key == 32
      then c.aes256_ctr key (iv_with_offset iv block_offset) d
      else d

  unfoldable pub aes_ctr_decrypt : Bytes → Bytes → Bytes → Bytes
  aes_ctr_decrypt key iv d = aes_ctr_decrypt_with_offset key iv d 0

  -- Whole blocks are decrypted in place; a trailing partial block stays.
  unfoldable pub aes_cbc_decrypt_full_blocks : Bytes → Bytes → Bytes → Bytes
  aes_cbc_decrypt_full_blocks key iv d =
      let complete = length d / 16 * 16 in
      if complete == 0
      then d
      else if length key == 16
      then c.aes128_cbc_dec key iv (take complete d) ++ drop complete d
      else if length key == 32
      then c.aes256_cbc_dec key iv (take complete d) ++ drop complete d
      else d

  unfoldable pub decrypt_sample_cenc : Bytes → SampleInfo → Bytes → Outcome Bytes
  unfolding decrypt_runs aes_ctr_decrypt_with_offset
  decrypt_sample_cenc sample info key =
      let iv = iv_array info.iv in
      let decrypt = λ (offset : ℕ) (d : Bytes). aes_ctr_decrypt_with_offset key iv d offset in
      if is_empty info.sub_samples
      then done (aes_ctr_decrypt key iv sample)
      else decrypt_runs (λ offset d. done (decrypt offset d)) decrypt sample info.sub_samples

  unfoldable pub decrypt_sample_cbc1 : Bytes → SampleInfo → Bytes → Outcome Bytes
  unfolding decrypt_runs aes_cbc_decrypt_full_blocks
  decrypt_sample_cbc1 sample info key =
      let iv = iv_array info.iv in
      if is_empty info.sub_samples
      then done (aes_cbc_decrypt_full_blocks key iv sample)
      else decrypt_runs (λ _ d. done (aes_cbc_decrypt_full_blocks key iv d)) (λ _ d. d) sample
          info.sub_samples

  -- The part of `decrypt_cbcs_pattern` behind its early returns.
  unfoldable pub decrypt_pattern_blocks : Bytes → Bytes → Bytes → List (ℕ × ℕ) → Outcome Bytes
  unfolding collect_blocks copy_back
  decrypt_pattern_blocks d key iv positions =
      let encrypted_blocks = collect_blocks d positions in
      if is_empty encrypted_blocks
      then done d
      else copy_back (aes_cbc_decrypt_full_blocks key iv encrypted_blocks) d positions 0

  unfoldable pub decrypt_cbcs_pattern : Bytes → Bytes → Bytes → ℕ → ℕ → Outcome Bytes
  unfolding block_positions decrypt_pattern_blocks
  decrypt_cbcs_pattern d key iv crypt_blocks skip_blocks =
      let crypt_bytes = crypt_blocks * 16 in
      let skip_bytes = skip_blocks * 16 in
      if is_empty d || crypt_blocks == 0
      then done d
      else if skip_bytes == 0
      then done (aes_cbc_decrypt_full_blocks key iv d)
      else block_positions (suc (length d)) (length d) crypt_bytes skip_bytes 0
        >>= decrypt_pattern_blocks d key iv

  unfoldable pub decrypt_sample_cbcs :
      Bytes → SampleInfo → Bytes → ℕ → ℕ → Option Bytes → Outcome Bytes
  unfolding decrypt_runs decrypt_cbcs_pattern
  decrypt_sample_cbcs sample info key crypt_byte_block skip_byte_block constant_iv =
      let iv = iv_array (get_or constant_iv info.iv) in
      let decrypt =
        λ (_ : ℕ) (d : Bytes). decrypt_cbcs_pattern d key iv crypt_byte_block skip_byte_block in
      if is_empty info.sub_samples
      then decrypt 0 sample
      else decrypt_runs decrypt (λ _ d. d) sample info.sub_samples

  unfoldable pub decrypt_sample :
      Bytes → SampleInfo → Bytes → EncScheme → ℕ → ℕ → Option Bytes → Outcome Bytes
  unfolding decrypt_sample_cbcs decrypt_sample_cbc1 decrypt_sample_cenc
  decrypt_sample sample info key scheme crypt_byte_block skip_byte_block constant_iv =
      if not info.is_encrypted then done sample else elim scheme [
        | cbcs ↦ decrypt_sample_cbcs sample info key crypt_byte_block skip_byte_block constant_iv
        | cbc1 ↦ decrypt_sample_cbc1 sample info key
        | _ ↦ decrypt_sample_cenc sample info key
      ]
