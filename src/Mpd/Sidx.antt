-- ===== src/Mpd/Sidx.antt =====
-- The SIDX parser of src/mpd/processor.rs: byte ranges of the fragments of a media file. Sums of
-- `u64` wrap around, as in a release build.
pub mod Ranges
use mediaflow_proxy_light.Base.{
  ℕ, zero, suc, ◌+◌, ◌-◌, ◌*◌, ◌/◌, ◌%◌, ◌^◌, Bool, true, false, List, [], ◌∷◌, Option, none, some,
  ltb, leb, ◌==◌, if◌then◌else◌, length, take, drop, Bytes, ascii, be_at, bytes_equal, Outcome,
  done, stuck, ◌>>=◌,
}

pub record SidxFragment : Type 0 where
  pub start : ℕ
  pub end : ℕ
  pub duration_timescale : ℕ
  pub timescale : ℕ

-- `r8`, `r16`, `r32` and `r64`: a big-endian number of so many bytes, if they are all there.
unfoldable pub read : ℕ → Bytes → ℕ → Option ℕ
read n d o = if leb (o + n) (length d) then some (be_at n d o) else none

abbrev pub and_then {ℓ} : {A B : Type ℓ} → Option A → (A → Option B) → Option B
and_then none f = none
and_then (some a) f = f a

-- The scan for the box, with so many rounds at most: `stuck` if they are used up, which is no result
-- of the source. A round that goes on is over eight bytes or more.
unfoldable pub find_sidx : ℕ → Bytes → ℕ → Outcome (Option ℕ)
unfolding read
find_sidx zero d scan = stuck
find_sidx (suc fuel) d scan =
    if ltb (length d) (scan + 8) then done none else elim (read 4 d scan) [
      | none ↦ done none
      | some size ↦
          let rest = find_sidx fuel d (scan + size) in
          if ltb size 8
          then done none
          else if bytes_equal (take 4 (drop (scan + 4) d)) (ascii "sidx")
          then done (some scan)
          else rest
    ]

abbrev pub add_wrapping : ℕ → ℕ → ℕ
add_wrapping a b = (a + b) % 2 ^ 64

abbrev pub fragment : ℕ → ℕ → ℕ → ℕ → SidxFragment
fragment start size duration timescale = record {
  start = start;
  end = add_wrapping (add_wrapping start size) (2 ^ 64 - 1);
  duration_timescale = duration;
  timescale = timescale;
}

-- Only media references give a fragment; the references to further indexes are passed over.
abbrev pub push_reference : ℕ → ℕ → ℕ → ℕ → List SidxFragment → List SidxFragment
push_reference field start duration timescale rest =
    if field / 2 ^ 31 % 2 == 0
    then fragment start (field % 2 ^ 31) duration timescale ∷ rest
    else rest

-- The references from an offset on, so many of them at most.
unfoldable pub read_references : ℕ → Bytes → ℕ → ℕ → ℕ → Option (List SidxFragment)
unfolding read
read_references zero d off start timescale = some []
read_references (suc count) d off start timescale =
    if ltb (length d) (off + 12)
    then some []
    else and_then (read 4 d off) (λ field. and_then (read 4 d (off + 4)) (λ duration.
      and_then (read_references count d (off + 12) (add_wrapping start (field % 2 ^ 31)) timescale)
        (λ rest. some (push_reference field start duration timescale rest))))

-- The offset to the first fragment, and the position behind it, by version.
abbrev pub read_first_offset : ℕ → Bytes → ℕ → Option (ℕ × ℕ)
read_first_offset version d off =
    if version == 0
    then and_then (read 4 d (off + 4)) (λ first. some (first, off + 8))
    else and_then (read 8 d (off + 8)) (λ first. some (first, off + 16))

-- The fields of the box at a position.
unfoldable pub read_box : Bytes → ℕ → ℕ → Option (List SidxFragment)
unfolding read read_references
read_box d index_range_start at = and_then (read 4 d at) (λ size.
    let file_end = add_wrapping (add_wrapping index_range_start at) size in
    and_then (read 1 d (at + 8)) (λ version. and_then (read 4 d (at + 16)) (λ timescale.
      and_then (read_first_offset version d (at + 20)) (λ (first, off).
        and_then (read 2 d (off + 2))
          (λ count. read_references count d (off + 4) (add_wrapping file_end first) timescale)))))

unfoldable pub inner : Bytes → ℕ → Outcome (Option (List SidxFragment))
unfolding find_sidx read_box
inner d index_range_start =
    find_sidx (suc (length d)) d 0 >>= λ found. done (and_then found (read_box d index_range_start))

abbrev pub or_empty : Option (List SidxFragment) → List SidxFragment
or_empty none = []
or_empty (some l) = l

unfoldable pub parse_sidx_fragments : Bytes → ℕ → Outcome (List SidxFragment)
unfolding inner
parse_sidx_fragments d index_range_start =
    inner d index_range_start >>= λ fragments. done (or_empty fragments)
