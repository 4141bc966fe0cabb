-- ===== src/Mpd/Sidx/Ranges.antt =====
-- The order of the byte ranges of a SIDX box, and the end of the scan for it.
use mediaflow_proxy_light.Base.{
  ℕ, zero, suc, ◌+◌, ◌*◌, ◌/◌, ◌%◌, ◌^◌, ◌<◌, ◌≤◌, ◌≡◌, refl, sym, ap, ◌∙◌, ◌⊎◌, inl, inr, Bool,
  true, false, List, [], ◌∷◌, Option, none, some, ltb, ◌==◌, if◌then◌else◌, length, Bytes,
  Bool-cases, Option-cases, done, take, drop, ascii, bytes_equal, bytes_equal_iff, arith,
}
use mathlib.Core.Path.{subst}
use mediaflow_proxy_light.Mpd.Sidx.{
  SidxFragment, read, and_then, find_sidx, add_wrapping, fragment, push_reference, read_references,
  read_first_offset, read_box, inner, parse_sidx_fragments, or_empty,
}

-- Each range starts at the bound or behind it, and the next behind its end.
abbrev pub Follows : ℕ → List SidxFragment → Type 0
Follows low [] = Unit
Follows low (f ∷ fs) = (low ≤ f.start) × (f.start ≤ suc f.end) × Follows (suc f.end) fs

Follows-weaken :
    (low high : ℕ) (fs : List SidxFragment) → low ≤ high → Follows high fs → Follows low fs
Follows-weaken low high [] h k = tt
Follows-weaken low high (f ∷ fs) h (a, b, c) = (omega arith, b, c)

fragment-end :
    (start size duration timescale : ℕ)
    → 0 < start
    → start + size < 2 ^ 64
    → suc ((fragment start size duration timescale).end) ≡ start + size
fragment-end start size duration timescale h b = omega arith

next_start : (a b : ℕ) → a + b < 2 ^ 64 → add_wrapping a b ≡ a + b
next_start a b h = omega arith

sums :
    (a b c e : ℕ)
    → a + b + c + e < 2 ^ 64
    → add_wrapping (add_wrapping (add_wrapping a b) c) e ≡ a + b + c + e
sums a b c e h = omega arith

push_reference-Follows :
    (field start duration timescale : ℕ) (rest : List SidxFragment)
    → 0 < start
    → start + field % 2 ^ 31 < 2 ^ 64
    → Follows (start + field % 2 ^ 31) rest
    → Follows start (push_reference field start duration timescale rest)
push_reference-Follows field start duration timescale rest h b k =
    elim (field / 2 ^ 31 % 2 == 0)
      as (λ t.
        Follows start
          (if t then fragment start (field % 2 ^ 31) duration timescale ∷ rest else rest)) [
            | true ↦
                let e = fragment-end start (field % 2 ^ 31) duration timescale h b in
                (omega arith, omega arith, subst (λ n. Follows n rest) (sym e) k)
            | false ↦ Follows-weaken start (start + field % 2 ^ 31) rest (omega arith) k
          ]

-- What a chain of options that yields a value has gone through.
and_then-some {ℓ} :
    {A B : Type ℓ} (o : Option A) (f : A → Option B) (b : B)
    → and_then o f ≡ some b
    → (a : A) × (o ≡ some a) × (f a ≡ some b)
and_then-some none f b e = ground arith
and_then-some (some a) f b e = (a, refl, e)

if_done :
    (t : Bool) (o : Option (List SidxFragment)) (fs : List SidxFragment)
    → (if t then some [] else o) ≡ some fs
    → (fs ≡ []) ⊎ (o ≡ some fs)
if_done true o fs e = inl (sym (ap or_empty e))
if_done false o fs e = inr e

read_references-Follows :
    (count : ℕ) (d : Bytes) (off start timescale : ℕ) (fs : List SidxFragment)
    → 0 < start
    → start + count * 2 ^ 31 < 2 ^ 64
    → read_references count d off start timescale ≡ some fs
    → Follows start fs
unfolding read_references
read_references-Follows zero d off start timescale fs h b e =
    subst (Follows start) (ap or_empty e) tt
read_references-Follows (suc count) d off start timescale fs h b e =
    elim (if_done (ltb (length d) (off + 12)) _ fs e) [
      | inl empty ↦ subst (Follows start) (sym empty) tt
      | inr more ↦
          let (field, _, more') = and_then-some (read 4 d off) _ fs more in
          let (duration, _, more'') = and_then-some (read 4 d (off + 4)) _ fs more' in
          let next = add_wrapping start (field % 2 ^ 31) in
          let (rest, tail, pushed) =
            and_then-some (read_references count d (off + 12) next timescale) _ fs more'' in
          let exact = next_start start (field % 2 ^ 31) (omega arith) in
          subst (Follows start) (ap or_empty pushed) (
            push_reference-Follows field start duration timescale rest h (omega arith) (
              subst (λ n. Follows n rest) exact
                (read_references-Follows count d (off + 12) next timescale rest (omega arith)
                  (omega arith) tail)))
    ]

-- What the header of the box leads to.
read_box-references :
    (d : Bytes) (index_range_start found size version timescale first off count : ℕ)
    → read 4 d found ≡ some size
    → read 1 d (found + 8) ≡ some version
    → read 4 d (found + 16) ≡ some timescale
    → read_first_offset version d (found + 20) ≡ some (first, off)
    → read 2 d (off + 2) ≡ some count
    → read_box d index_range_start found
      ≡ read_references count d
          (off + 4)
          (add_wrapping (add_wrapping (add_wrapping index_range_start found) size) first)
          timescale
unfolding read_box
read_box-references d index_range_start found size version timescale first off count hs hv ht ho
      hc =
    rw (hs, read_box) (rw hv (rw ht (rw ho (rw hc refl))))

parse_sidx_fragments-found :
    (d : Bytes) (index_range_start : ℕ) (found : Option ℕ)
    → find_sidx (suc (length d)) d 0 ≡ done found
    → parse_sidx_fragments d index_range_start
      ≡ done (or_empty (and_then found (read_box d index_range_start)))
unfolding parse_sidx_fragments inner
parse_sidx_fragments-found d index_range_start found h = rw (h, parse_sidx_fragments) refl

-- Where the scan finds a SIDX box of `size` bytes at `found`, whose fields can be read, and no sum
-- reaches 2 ^ 64: the fragments are returned, follow each other in the file without overlap, and the
-- first starts at the first offset behind the box or later.
pub parse_sidx_fragments-Follows :
    (d : Bytes) (index_range_start found size version timescale first off count : ℕ)
    → find_sidx (suc (length d)) d 0 ≡ done (some found)
    → read 4 d found ≡ some size
    → read 1 d (found + 8) ≡ some version
    → read 4 d (found + 16) ≡ some timescale
    → read_first_offset version d (found + 20) ≡ some (first, off)
    → read 2 d (off + 2) ≡ some count
    → 0 < index_range_start + found + size + first
    → index_range_start + found + size + first + count * 2 ^ 31 < 2 ^ 64
    → (fs : List SidxFragment) × (parse_sidx_fragments d index_range_start ≡ done fs)
      × Follows (index_range_start + found + size + first) fs
parse_sidx_fragments-Follows d index_range_start found size version timescale first off count hf hs
      hv ht ho hc pos bound =
    let begin = index_range_start + found + size + first in
    let same =
      read_box-references d index_range_start found size version timescale first off count hs hv ht
        ho hc
      ∙ ap (λ start. read_references count d (off + 4) start timescale)
          (sums index_range_start found size first (omega arith)) in
    (
      or_empty (read_box d index_range_start found),
      parse_sidx_fragments-found d index_range_start (some found) hf,
      elim (Option-cases (read_references count d (off + 4) begin timescale)) [
        | inl nothing ↦ subst (Follows begin) (sym (ap or_empty (same ∙ nothing))) tt
        | inr (fs, e) ↦
            subst (Follows begin) (sym (ap or_empty (same ∙ e)))
              (read_references-Follows count d (off + 4) begin timescale fs pos bound e)
      ],
    )

-- A position where a header with the tag `sidx` stands.
abbrev pub Boxed : Bytes → Option ℕ → Type 0
Boxed d none = Unit
Boxed d (some at) = (at + 8 ≤ length d) × (take 4 (drop (at + 4) d) ≡ ascii "sidx")

-- A round that goes on passes eight bytes at least, so the scan ends within its rounds.
find_sidx-Boxed :
    (fuel : ℕ) (d : Bytes) (scan : ℕ)
    → 0 < fuel
    → length d < scan + 8 * fuel
    → (found : Option ℕ) × (find_sidx fuel d scan ≡ done found) × Boxed d found
unfolding find_sidx
find_sidx-Boxed zero d scan h k = absurd (omega arith)
find_sidx-Boxed (suc fuel) d scan h k = elim (Bool-cases (ltb (length d) (scan + 8))) [
  | inl over ↦ (none, rw over refl, tt)
  | inr within ↦ elim (Option-cases (read 4 d scan)) [
    | inl short ↦ (none, rw (within, short) refl, tt)
    | inr (size, stated) ↦ elim (Bool-cases (ltb size 8)) [
      | inl small ↦ (none, rw (within, stated, small) refl, tt)
      | inr large ↦ elim (Bool-cases (bytes_equal (take 4 (drop (scan + 4) d)) (ascii "sidx"))) [
        | inl here ↦ (
          some scan,
          rw (within, stated, large, here) refl,
          (ground arith, (bytes_equal_iff _ (ascii "sidx")).0 here),
        )
        | inr other ↦
            let (found, ends, boxed) =
              find_sidx-Boxed fuel d (scan + size) (ground arith) (ground arith) in
            (found, rw (within, stated, large, other) ends, boxed)
      ]
    ]
  ]
]

-- Of any bytes: the scan for the SIDX box ends without using up its rounds, with none or with a
-- position where eight bytes are left and the tag `sidx` stands; and then fragments are returned.
pub parse_sidx_fragments_ends :
    (d : Bytes) (index_range_start : ℕ)
    → (found : Option ℕ) × (find_sidx (suc (length d)) d 0 ≡ done found)
      × Boxed d found
      × ((fs : List SidxFragment) × (parse_sidx_fragments d index_range_start ≡ done fs))
parse_sidx_fragments_ends d index_range_start =
    let (found, ends, boxed) = find_sidx-Boxed (suc (length d)) d 0 (omega arith) (omega arith) in
    (
      found,
      ends,
      boxed,
      (
        or_empty (and_then found (read_box d index_range_start)),
        parse_sidx_fragments-found d index_range_start found ends,
      ),
    )
