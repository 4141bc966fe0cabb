-- ===== src/Telegram/FileId.antt =====
-- `decode_file_id` of src/telegram/media_ref.rs. The base64 engines are parameters.
pub mod Laws
use mediaflow_proxy_light.Base.{
  ℕ, ◌+◌, ◌*◌, ◌/◌, ◌%◌, ◌^◌, Bool, true, false, List, [], ◌∷◌, ◌++◌, Option, none, some, ltb, leb,
  ◌==◌, if◌then◌else◌, length, take, drop, replicate, Bytes, from_be_bytes,
}
use mathlib.Core.List.{reverse}

-- The integers are the numbers of their 32 or 64 bits.
pub record DecodedFileId : Type 0 where
  pub type_id : ℕ
  pub dc_id : ℕ
  pub id : ℕ
  pub access_hash : ℕ
  pub file_reference : Bytes

-- `from_le_bytes(data[pos..pos + n])`
abbrev pub le_at : ℕ → Bytes → ℕ → ℕ
le_at n d pos = from_be_bytes (reverse (take n (drop pos d)))

-- A zero and a count stand for that many zeros; a zero at the very end stands for itself.
unfoldable pub rle_decode : Bytes → Bytes
rle_decode [] = []
rle_decode (b ∷ []) = b ∷ []
rle_decode (b ∷ n ∷ rest) =
    let run = replicate n 0 ++ rle_decode rest in
    let plain = b ∷ rle_decode (n ∷ rest) in if b == 0 then run else plain

-- The end of `read_tl_bytes`: the content, and the bytes taken with their padding if it is there.
unfoldable pub tl_content : Bytes → ℕ → ℕ → Option (Bytes × ℕ)
tl_content d header_size len =
    let finish = header_size + len in
    let padded = (finish + 3) / 4 * 4 in
    if ltb (length d) finish
    then none
    else some (take len (drop header_size d), if leb padded (length d) then padded else finish)

unfoldable pub read_tl_bytes : Bytes → Option (Bytes × ℕ)
unfolding tl_content
read_tl_bytes [] = none
read_tl_bytes (first ∷ rest) =
    let d = first ∷ rest in
    if first == 254
    then if ltb (length d) 4 then none else tl_content d 4 (le_at 3 d 1)
    else tl_content d 1 first

-- The identifier and the hash, behind the optional reference.
unfoldable pub decode_id : Bytes → ℕ → Bytes → Option DecodedFileId
decode_id d pos file_reference =
    if ltb (length d) (pos + 16)
    then none
    else some (record {
      type_id = le_at 4 d 0 % 2 ^ 24;
      dc_id = le_at 4 d 4;
      id = le_at 8 d pos;
      access_hash = le_at 8 d (pos + 8);
      file_reference = file_reference;
    })

unfoldable pub decode_bytes : Bytes → Option DecodedFileId
unfolding decode_id read_tl_bytes
decode_bytes d =
    if ltb (length d) 20
    then none
    else if le_at 4 d 0 / 2 ^ 25 % 2 == 1
    then elim (read_tl_bytes (drop 8 d)) [
      | none ↦ none
      | some (fref, consumed) ↦ decode_id d (8 + consumed) fref
    ]
    else decode_id d 8 []

module _ (url_safe_no_pad url_safe : Bytes → Option Bytes) where
  unfoldable pub decode_file_id : Bytes → Option DecodedFileId
  unfolding decode_bytes rle_decode
  decode_file_id file_id = elim (url_safe_no_pad file_id) [
    | some decoded ↦ decode_bytes (rle_decode decoded)
    | none ↦ elim (url_safe file_id) [
      | some decoded ↦ decode_bytes (rle_decode decoded)
      | none ↦ none
    ]
  ]
