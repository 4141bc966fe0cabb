-- ===== src/Drm/Keys.antt =====
-- Key lookup of `Mp4Decrypter` (src/drm/cenc.rs), and `build_key_map_from_hex` (src/drm/clearkey.rs).
pub mod Lookup
pub mod HexItems
pub mod HexPairs
use mediaflow_proxy_light.Base.{
  ℕ, ◌+◌, Bool, true, false, ◌&&◌, ◌||◌, List, [], ◌∷◌, ◌++◌, Option, none, some, ◌==◌, leb,
  if◌then◌else◌, length, take, drop, all, keep, is_empty, Bytes, lookup, insert, bytes_eq, ℕ_eq,
  not, map,
}
use mathlib.Core.List.{reverse}
use mathlib.Core.Option
use mediaflow_proxy_light.Drm.Decrypter.{Mp4Decrypter}

-- `if self.key_map.len() == 1 { return self.key_map.values().next() }`
unfoldable pub get_current_key : List (Bytes × Bytes) → Option Bytes
get_current_key [] = none
get_current_key ((kid, key) ∷ []) = some key
get_current_key _ = none

-- The first three components of a UUID with their bytes reversed.
unfoldable pub swap_guid : Bytes → Bytes
swap_guid kid =
    reverse (take 4 kid)
    ++ (reverse (take 2 (drop 4 kid)) ++ (reverse (take 2 (drop 6 kid)) ++ drop 8 kid))

-- `kid.iter().all(|&b| b == 0) && kid.len() == 16`
unfoldable pub is_zero_kid : Bytes → Bool
is_zero_kid kid = all (λ b. b == 0) kid && length kid == 16

-- The two lookups for a key id that is not zero.
unfoldable pub find_by_kid : List (Bytes × Bytes) → Bytes → Option Bytes
unfolding swap_guid
find_by_kid key_map kid = elim (lookup kid key_map) [
  | some k ↦ some k
  | none ↦ if length kid == 16 then lookup (swap_guid kid) key_map else none
]

unfoldable pub get_key_for_track : Mp4Decrypter → ℕ → Option Bytes
unfolding find_by_kid get_current_key is_zero_kid
get_key_for_track s track_id = elim (lookup track_id s.extracted_kids) [
  | none ↦ get_current_key s.key_map
  | some kid ↦
      if is_zero_kid kid
      then get_current_key s.key_map
      else elim (find_by_kid s.key_map kid) [ some k ↦ some k | none ↦ get_current_key s.key_map ]
]

-- `split(',')`: the pieces between commas, at least one.
unfoldable pub split_comma : Bytes → List Bytes
split_comma [] = [] ∷ []
split_comma (c ∷ cs) =
    let pieces = split_comma cs in
    if c == b',' then [] ∷ pieces else elim pieces [ [] ↦ (c ∷ []) ∷ [] | p ∷ ps ↦ (c ∷ p) ∷ ps ]

-- `char::is_whitespace` on ASCII text.
abbrev pub is_space : ℕ → Bool
is_space c = (leb 9 c && leb c 13) || c == b' '

abbrev pub trim_start : Bytes → Bytes
trim_start [] = []
trim_start (c ∷ cs) = let rest = trim_start cs in if is_space c then rest else c ∷ cs

unfoldable pub trim : Bytes → Bytes
trim s = reverse (trim_start (reverse (trim_start s)))

-- `.split(',').map(str::trim).filter(|s| !s.is_empty()).collect()`
unfoldable pub hex_items : Bytes → List Bytes
unfolding split_comma trim
hex_items s = keep (λ p. not (is_empty p)) (map trim (split_comma s))

module _ (hex_decode : Bytes → Option Bytes) where
  -- `hex::decode(s.replace('-', "")).ok()`
  unfoldable pub decode_item : Bytes → Option Bytes
  decode_item s = hex_decode (keep (λ c. not (c == b'-')) s)

  -- The zipped pairs, in order, collected into a `HashMap`: a later pair replaces an earlier one.
  unfoldable pub collect_pairs :
      List Bytes → List Bytes → List (Bytes × Bytes) → List (Bytes × Bytes)
  unfolding decode_item
  collect_pairs [] _ m = m
  collect_pairs (_ ∷ _) [] m = m
  collect_pairs (kid ∷ kids) (key ∷ keys) m = collect_pairs kids keys (elim (decode_item kid) [
    | none ↦ m
    | some id ↦ elim (decode_item key) [ none ↦ m | some k ↦ insert id k m ]
  ])

  unfoldable pub build_key_map_from_hex : Bytes → Bytes → List (Bytes × Bytes)
  unfolding collect_pairs hex_items
  build_key_map_from_hex key_id key = collect_pairs (hex_items key_id) (hex_items key) []
