-- ===== src/Telegram/Range/Bounds.antt =====
-- What `parse_range` returns, on every header.
use mediaflow_proxy_light.Base.{
  ℕ, ◌≤◌, ◌<◌, ◌≡◌, refl, [], ◌∷◌, Option, none, some, ◌⊎◌, inl, inr, Bytes, Option-cases, arith,
  ap, ◌∙◌, ◌+◌, lt→ltb, le→ltb,
}
use native.Mathlib.Decide.{dec_lt}
use mathlib.Core.Option.{get_or}
use mediaflow_proxy_light.Telegram.Range.{
  parse_u64, split_once, bytes_part, range_end, last_byte, parse_pair, parse_range,
}

-- A suffix range of no bytes, or of a length that is no number: nothing before the dash.
pub record IsEmptySuffix (header : Option Bytes) : Type 0 where
  pub value : Bytes
  pub end_str : Bytes
  pub given : header ≡ some value
  pub splits : split_once (bytes_part value) ≡ some ([], end_str)
  pub counts_none : get_or (parse_u64 end_str) 0 ≡ 0

-- The bounds that a range of a file with `file_size` bytes must keep.
abbrev pub InFile : ℕ → ℕ × ℕ → Type 0
InFile file_size (start, finish) = (start ≤ finish) × (finish < file_size)

range_end_bound :
    (end_str : Bytes) (file_size : ℕ) → range_end end_str file_size ≤ last_byte file_size
range_end_bound [] file_size = omega arith
range_end_bound (c ∷ cs) file_size = omega arith

parse_pair-InFile :
    (start_str end_str : Bytes) (file_size : ℕ)
    → 0 < file_size
    → InFile file_size (parse_pair start_str end_str file_size)
      ⊎ (start_str ≡ []) × (get_or (parse_u64 end_str) 0 ≡ 0)
unfolding parse_pair
parse_pair-InFile [] end_str file_size h = elim (dec_lt 0 (get_or (parse_u64 end_str) 0)) [
  | yes some_bytes ↦ inl (omega arith, omega arith)
  | no none_wanted ↦ inr (refl, omega arith)
]
parse_pair-InFile (c ∷ cs) end_str file_size h =
    elim (dec_lt (range_end end_str file_size) (get_or (parse_u64 (c ∷ cs)) 0)) [
      | yes above ↦ inl (rw (lt→ltb _ _ above) (omega arith, omega arith))
      | no within ↦ inl (
          rw (le→ltb (range_end end_str file_size) (get_or (parse_u64 (c ∷ cs)) 0) (omega arith))
            (omega arith, omega (arith, range_end_bound end_str file_size)))
    ]

-- The range of a file that is not empty begins at or before its end, and ends within the file,
-- for every header but those of an empty suffix.
pub parse_range-InFile :
    (header : Option Bytes) (file_size : ℕ)
    → 0 < file_size
    → InFile file_size (parse_range header file_size) ⊎ IsEmptySuffix header
unfolding parse_range
parse_range-InFile none file_size h = inl (omega arith, omega arith)
parse_range-InFile (some value) file_size h = elim (Option-cases (split_once (bytes_part value))) [
  | inl whole ↦ inl (rw whole (omega arith, omega arith))
  | inr ((start_str, end_str), e) ↦ rw e (elim (parse_pair-InFile start_str end_str file_size h) [
    | inl within ↦ inl within
    | inr (empty, zero_count) ↦ inr (record {
      value = value;
      end_str = end_str;
      given = refl;
      splits = e ∙ ap (λ s. some (s, end_str)) empty;
      counts_none = zero_count;
    })
  ])
]

-- An empty suffix gives a range that begins one past its end, for a file that is not empty.
pub parse_range_inverted :
    (header : Option Bytes) (file_size : ℕ)
    → 0 < file_size
    → IsEmptySuffix header
    → (parse_range header file_size).0 ≡ (parse_range header file_size).1 + 1
unfolding parse_range parse_pair
parse_range_inverted header file_size h s = rw (s.given, s.splits, s.counts_none) (omega arith)
