-- ===== src/Telegram/Range.antt =====
-- `parse_range` of src/telegram/handler.rs, on header values in ASCII.
pub mod Bounds
use mediaflow_proxy_light.Base.{
  ℕ, ◌+◌, ◌-◌, ◌*◌, ◌^◌, min, Bool, true, false, ◌&&◌, List, [], ◌∷◌, Option, none, some, ltb, leb,
  ◌==◌, if◌then◌else◌, is_empty, Bytes,
}
use mathlib.Core.Option.{get_or}

-- `str::parse::<u64>`: digits, at least one, behind an optional plus sign, below 2 ^ 64.
abbrev digits_loop : Bytes → ℕ → Option ℕ
digits_loop [] acc = some acc
digits_loop (c ∷ cs) acc =
    let rest = digits_loop cs (acc * 10 + (c - b'0')) in
    if leb b'0' c && leb c b'9' && ltb (acc * 10 + (c - b'0')) (2 ^ 64) then rest else none

abbrev digits : Bytes → Option ℕ
digits [] = none
digits (c ∷ cs) = digits_loop (c ∷ cs) 0

unfoldable pub parse_u64 : Bytes → Option ℕ
parse_u64 [] = none
parse_u64 (c ∷ cs) = if c == b'+' then digits cs else digits (c ∷ cs)

-- `split_once('-')`
unfoldable pub split_once : Bytes → Option (Bytes × Bytes)
split_once [] = none
split_once (c ∷ cs) =
    let rest = split_once cs in
    if c == b'-' then some ([], cs) else elim rest [ none ↦ none | some (a, b) ↦ some (c ∷ a, b) ]

abbrev prefix_text : Bytes
prefix_text = b'b' ∷ b'y' ∷ b't' ∷ b'e' ∷ b's' ∷ b'=' ∷ []

abbrev strip_prefix : Bytes → Bytes → Option Bytes
strip_prefix [] s = some s
strip_prefix (p ∷ ps) [] = none
strip_prefix (p ∷ ps) (c ∷ cs) = if p == c then strip_prefix ps cs else none

-- `header.strip_prefix("bytes=").unwrap_or(header)`
unfoldable pub bytes_part : Bytes → Bytes
bytes_part header = get_or (strip_prefix prefix_text header) header

-- The last inclusive position, or 0 for an empty file.
abbrev pub last_byte : ℕ → ℕ
last_byte file_size = file_size - 1

abbrev pub range_end : Bytes → ℕ → ℕ
range_end end_str file_size =
    if is_empty end_str
    then last_byte file_size
    else min (get_or (parse_u64 end_str) (last_byte file_size)) (last_byte file_size)

unfoldable pub parse_pair : Bytes → Bytes → ℕ → ℕ × ℕ
parse_pair start_str end_str file_size =
    let suffix_len = min (get_or (parse_u64 end_str) 0) file_size in
    let start = get_or (parse_u64 start_str) 0 in
    let finish = range_end end_str file_size in
    if is_empty start_str
    then (file_size - suffix_len, last_byte file_size)
    else if ltb finish start
    then (0, last_byte file_size)
    else (start, finish)

unfoldable pub parse_range : Option Bytes → ℕ → ℕ × ℕ
unfolding parse_pair split_once bytes_part
parse_range none file_size = (0, last_byte file_size)
parse_range (some header) file_size = elim (split_once (bytes_part header)) [
  | none ↦ (0, last_byte file_size)
  | some (start_str, end_str) ↦ parse_pair start_str end_str file_size
]
