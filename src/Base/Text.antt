-- ===== src/Base/Text.antt =====
-- Text as its ASCII bytes, and what the standard library's `str` offers for it.
use Prim.Native.Nat.{ℕ, zero, suc, ◌+◌, ◌-◌, ◌*◌, ◌/◌, ◌%◌}
use mathlib.Core.Bool.{Bool, true, false, not, ◌&&◌, ◌||◌}
use mathlib.Core.Path.{◌≡◌}
use native.Mathlib.Omega.{arith}
use mathlib.Core.List.{List, [], ◌∷◌, ◌++◌, map}
use mathlib.Core.Option.{Option, none, some}
use Prim.Native.Char.{code}
use Prim.Native.String.{String}
use mediaflow_proxy_light.Base.Tests.{ltb, leb, ◌==◌, if◌then◌else◌}
use mediaflow_proxy_light.Base.Lists.{length, is_empty, all}
use mediaflow_proxy_light.Base.Words.{Bytes}
use mediaflow_proxy_light.Base.Maps.{bytes_equal}

-- The bytes of a literal.
abbrev pub ascii : String → Bytes
ascii String.[] = []
ascii (String.◌∷◌ c s) = code c ∷ ascii s

abbrev pub is_digit : ℕ → Bool
is_digit c = leb b'0' c && leb c b'9'

abbrev pub is_letter : ℕ → Bool
is_letter c = (leb b'a' c && leb c b'z') || (leb b'A' c && leb c b'Z')

abbrev pub is_alphanumeric : ℕ → Bool
is_alphanumeric c = is_digit c || is_letter c

abbrev pub is_hexdigit : ℕ → Bool
is_hexdigit c = is_digit c || (leb b'a' c && leb c b'f') || (leb b'A' c && leb c b'F')

abbrev pub lower_byte : ℕ → ℕ
lower_byte c = if leb b'A' c && leb c b'Z' then c + 32 else c

abbrev pub to_lowercase : Bytes → Bytes
to_lowercase = map lower_byte

abbrev pub strip_prefix : Bytes → Bytes → Option Bytes
strip_prefix [] s = some s
strip_prefix (p ∷ ps) [] = none
strip_prefix (p ∷ ps) (c ∷ cs) = if p == c then strip_prefix ps cs else none

abbrev pub starts_with : Bytes → Bytes → Bool
starts_with s p = elim (strip_prefix p s) [ some _ ↦ true | none ↦ false ]

-- Whether the text occurs in another.
abbrev pub contains_text : Bytes → Bytes → Bool
contains_text [] p = starts_with [] p
contains_text (c ∷ cs) p = starts_with (c ∷ cs) p || contains_text cs p

abbrev pub contains_bytes : List Bytes → Bytes → Bool
contains_bytes [] s = false
contains_bytes (t ∷ ts) s = bytes_equal t s || contains_bytes ts s

-- `split(c)`: at least one piece.
abbrev pub split_on : ℕ → Bytes → List Bytes
split_on sep [] = [] ∷ []
split_on sep (c ∷ cs) =
    let pieces = split_on sep cs in
    if c == sep then [] ∷ pieces else elim pieces [ [] ↦ (c ∷ []) ∷ [] | p ∷ ps ↦ (c ∷ p) ∷ ps ]

-- `split_once(c)`, at the first one.
abbrev pub split_first : ℕ → Bytes → Option (Bytes × Bytes)
split_first sep [] = none
split_first sep (c ∷ cs) =
    let rest = split_first sep cs in
    if c == sep then some ([], cs) else elim rest [ none ↦ none | some (a, b) ↦ some (c ∷ a, b) ]

-- `rsplit_once(c)`, at the last one.
abbrev pub split_last : ℕ → Bytes → Option (Bytes × Bytes)
split_last sep [] = none
split_last sep (c ∷ cs) = elim (split_last sep cs) [
  | some (a, b) ↦ some (c ∷ a, b)
  | none ↦ if c == sep then some ([], cs) else none
]

-- The value of decimal digits; `none` past the limit, for a character that is no digit, and for
-- no digit at all.
abbrev pub digits_below : ℕ → Bytes → ℕ → Option ℕ
digits_below limit [] acc = some acc
digits_below limit (c ∷ cs) acc =
    let rest = digits_below limit cs (acc * 10 + (c - b'0')) in
    if is_digit c && ltb (acc * 10 + (c - b'0')) limit then rest else none

abbrev pub unsigned : ℕ → Bytes → Option ℕ
unsigned limit [] = none
unsigned limit (c ∷ cs) = digits_below limit (c ∷ cs) 0

-- `str::parse` for an unsigned type with so many values: an optional plus sign and digits.
abbrev pub parse_unsigned : ℕ → Bytes → Option ℕ
parse_unsigned limit [] = none
parse_unsigned limit (c ∷ cs) = if c == b'+' then unsigned limit cs else unsigned limit (c ∷ cs)

-- The decimal digits of a number below 10 ^ fuel, before a text.
abbrev pub decimal_before : ℕ → ℕ → Bytes → Bytes
decimal_before zero n acc = acc
decimal_before (suc fuel) n acc =
    let rest = decimal_before fuel (n / 10) ((b'0' + n % 10) ∷ acc) in
    if ltb n 10 then (b'0' + n) ∷ acc else rest

-- An unsigned number of at most 64 bits as text.
abbrev pub decimal : ℕ → Bytes
decimal n = decimal_before 20 n []

-- `str::replace`: each occurrence, from the left, none of them in another. The first number counts
-- the bytes of an occurrence that are still to be left out.
abbrev pub replace_from : ℕ → Bytes → Bytes → Bytes → Bytes
replace_from skipped pattern new [] = []
replace_from (suc skipped) pattern new (c ∷ cs) = replace_from skipped pattern new cs
replace_from zero pattern new (c ∷ cs) =
    if starts_with (c ∷ cs) pattern
    then new ++ replace_from (length pattern - 1) pattern new cs
    else c ∷ replace_from 0 pattern new cs

abbrev pub replace : Bytes → Bytes → Bytes → Bytes
replace = replace_from 0

-- `split_once` on a text
abbrev pub split_text : Bytes → Bytes → Option (Bytes × Bytes)
split_text pattern [] = none
split_text pattern (c ∷ cs) =
    let rest = split_text pattern cs in
    elim (strip_prefix pattern (c ∷ cs)) [
      | some after ↦ some ([], after)
      | none ↦ elim rest [ none ↦ none | some (a, b) ↦ some (c ∷ a, b) ]
    ]

-- `replacen` of the first occurrence.
abbrev pub replace_first : Bytes → Bytes → Bytes → Bytes
replace_first pattern new s = elim (split_text pattern s) [ none ↦ s | some (a, b) ↦ a ++ new ++ b ]

abbrev pub ends_with : Bytes → Bytes → Bool
ends_with [] suffix = bytes_equal [] suffix
ends_with (c ∷ cs) suffix = bytes_equal (c ∷ cs) suffix || ends_with cs suffix

-- `char::is_whitespace` for ASCII.
abbrev pub is_whitespace : ℕ → Bool
is_whitespace c = (leb 9 c && leb c 13) || c == 32

abbrev pub trim_start : (ℕ → Bool) → Bytes → Bytes
trim_start p [] = []
trim_start p (c ∷ cs) = if p c then trim_start p cs else c ∷ cs

-- A byte before a text whose end is trimmed.
abbrev pub keep_before : Bytes → Bool → ℕ → Bytes
keep_before [] true c = []
keep_before [] false c = c ∷ []
keep_before (d ∷ ds) b c = c ∷ d ∷ ds

abbrev pub trim_end : (ℕ → Bool) → Bytes → Bytes
trim_end p [] = []
trim_end p (c ∷ cs) = keep_before (trim_end p cs) (p c) c

abbrev pub trim_by : (ℕ → Bool) → Bytes → Bytes
trim_by p s = trim_end p (trim_start p s)

-- `str::lines`: the pieces between line feeds, each without the carriage return before its line
-- feed; no line for an empty rest.
abbrev pub without_return : Bytes → Bytes
without_return [] = []
without_return (c ∷ []) = if c == 13 then [] else c ∷ []
without_return (c ∷ d ∷ cs) = c ∷ without_return (d ∷ cs)

abbrev pub line_pieces : List Bytes → List Bytes
line_pieces [] = []
line_pieces (p ∷ []) = if is_empty p then [] else p ∷ []
line_pieces (p ∷ q ∷ ps) = without_return p ∷ line_pieces (q ∷ ps)

abbrev pub lines : Bytes → List Bytes
lines s = line_pieces (split_on 10 s)

-- Each line with a line feed behind it.
abbrev pub unlines : List Bytes → Bytes
unlines [] = []
unlines (l ∷ ls) = l ++ 10 ∷ unlines ls

-- The byte does not occur.
abbrev pub Without : ℕ → Bytes → Type 0
Without sep s = all (λ c. not (c == sep)) s ≡ true

pub split_first-Without :
    (sep : ℕ) (a b : Bytes) → Without sep a → split_first sep (a ++ (sep ∷ b)) ≡ some (a, b)
split_first-Without sep [] b h = ground arith
split_first-Without sep (c ∷ a) b h =
    let rest = split_first-Without sep a b (ground arith) in ground arith
