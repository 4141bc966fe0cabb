-- ===== src/Base/Words.antt =====
-- Byte strings, and big-endian words in them.
use Prim.Native.Nat.{ℕ, zero, suc, ◌+◌, ◌-◌, ◌*◌, ◌/◌, ◌%◌, ◌^◌, ◌≤◌, ◌<◌, min}
use mathlib.Core.Path.{◌≡◌, refl, sym, ap, ◌∙◌}
use mathlib.Core.Bool.{◌&&◌}
use mathlib.Core.Logic.{◌≢◌, ◌⊎◌}
use mathlib.Core.List.{List, [], ◌∷◌, ◌++◌, append_assoc}
use native.Mathlib.Decide.{dec_lt}
use native.Mathlib.Omega.{arith}
use mediaflow_proxy_light.Base.Lists.{
  length, take, drop, length-append, length-drop, take_all, take_prefix, drop_prefix,
}
use mediaflow_proxy_light.Base.Results.{Outcome, done, panic, stuck}
use mediaflow_proxy_light.Base.Tests.{leb, if◌then◌else◌, le→leb}

-- A byte is a number below 256.
abbrev pub Bytes : Type 0
Bytes = List ℕ

-- `to_be_bytes`: the low `n` bytes of `v`, the highest first.
unfoldable pub to_be_bytes : ℕ → ℕ → Bytes
to_be_bytes zero v = []
to_be_bytes (suc n) v = (v / 256 ^ n % 256) ∷ to_be_bytes n v

abbrev be_from : ℕ → Bytes → ℕ
be_from acc [] = acc
be_from acc (b ∷ bs) = be_from (acc * 256 + b) bs

-- `from_be_bytes`
unfoldable pub from_be_bytes : Bytes → ℕ
from_be_bytes = be_from 0

-- `from_be_bytes(data[pos..pos + n])`, where a test has shown that the slice is in range.
unfoldable pub be_at : ℕ → Bytes → ℕ → ℕ
unfolding from_be_bytes
be_at n d pos = from_be_bytes (take n (drop pos d))

-- `data[from..to]`, which panics where `from > to` or `to > data.len()`.
unfoldable pub slice : Bytes → ℕ → ℕ → Outcome Bytes
slice d from to =
    if leb from to && leb to (length d) then done (take (to - from) (drop from d)) else panic

pub from_to_be_4 : (v : ℕ) → from_be_bytes (to_be_bytes 4 v) ≡ v % 2 ^ 32
unfolding from_be_bytes to_be_bytes
from_to_be_4 v = omega arith

pub length-to_be_bytes : (n v : ℕ) → length (to_be_bytes n v) ≡ n
unfolding to_be_bytes
length-to_be_bytes zero v = refl
length-to_be_bytes (suc n) v = ap suc (length-to_be_bytes n v)

pub be_at_prefix :
    (front d rest : Bytes) (n pos : ℕ)
    → length front ≡ pos
    → length d ≡ n
    → be_at n (front ++ (d ++ rest)) pos ≡ from_be_bytes d
unfolding be_at
be_at_prefix front d rest n pos e f =
    rw (← e, ← f) (rw (drop_prefix front (d ++ rest), take_prefix d rest))

pub slice_prefix :
    (front d rest : Bytes) (from to : ℕ)
    → length front ≡ from
    → from + length d ≡ to
    → slice (front ++ (d ++ rest)) from to ≡ done d
unfolding slice
slice_prefix front d rest from to e f =
    rw
      (
        le→leb from to (omega arith),
        le→leb to (length (front ++ (d ++ rest)))
            (omega (arith, length-append front (d ++ rest), length-append d rest)),
      )
      (ap done (sub_part ∙ take_prefix d rest))
  where
    span : to - from ≡ length d
    span = omega arith

    sub_part : take (to - from) (drop from (front ++ (d ++ rest))) ≡ take (length d) (d ++ rest)
    sub_part = rw (span, ← e) (rw (drop_prefix front (d ++ rest)))

-- A slice in range returns exactly that part.
pub slice_in_range :
    (d : Bytes) (from to : ℕ)
    → from ≤ to
    → to ≤ length d
    → slice d from to ≡ done (take (to - from) (drop from d))
unfolding slice
slice_in_range d from to h k = rw (le→leb from to h, le→leb to (length d) k)

-- A slice whose ends are crossed, or that passes the end of the data, panics.
pub slice_out_of_range :
    (d : Bytes) (from to : ℕ) → (to < from) ⊎ (length d < to) → slice d from to ≡ panic
unfolding slice
slice_out_of_range d from to h = ground arith

pub slice-ne-stuck : (d : Bytes) (from to : ℕ) → slice d from to ≢ stuck
unfolding slice
slice-ne-stuck d from to = ground arith

take-min : (n : ℕ) (xs : Bytes) → take (min n (length xs)) xs ≡ take n xs
take-min n xs = elim (dec_lt (length xs) n) [
  | yes long ↦
      let e : min n (length xs) ≡ length xs = omega arith in
      rw e (take_all (length xs) xs (omega arith) ∙ sym (take_all n xs (omega arith)))
  | no short ↦ let e : min n (length xs) ≡ n = omega arith in rw e
]

-- A slice whose end is cut at the end of the data: at most `n` bytes.
pub slice_up_to :
    (d : Bytes) (from n : ℕ)
    → from ≤ length d
    → slice d from (min (from + n) (length d)) ≡ done (take n (drop from d))
slice_up_to d from n h =
    let e : min (from + n) (length d) - from ≡ min n (length (drop from d)) =
      omega (arith, length-drop from d) in
    slice_in_range d from _ (omega arith) (omega arith)
    ∙ ap (λ k. done (take k (drop from d))) e
    ∙ ap done (take-min n (drop from d))

pub from_to_be_8 : (v : ℕ) → from_be_bytes (to_be_bytes 8 v) ≡ v % 2 ^ 64
unfolding from_be_bytes to_be_bytes
from_to_be_8 v = omega arith

-- Chunks as one byte string.
abbrev pub joined : List Bytes → Bytes
joined [] = []
joined (b ∷ bs) = b ++ joined bs

pub joined-append : (xs ys : List Bytes) → joined (xs ++ ys) ≡ joined xs ++ joined ys
joined-append [] ys = refl
joined-append (x ∷ xs) ys = rw (joined-append xs ys) (sym (append_assoc x (joined xs) (joined ys)))
