-- ===== src/Mp4/Parse.antt =====
-- What the parser does on any bytes, well formed or not.
use native.Mathlib.Decide.{dec_lt, ℕ_discrete}
use mediaflow_proxy_light.Base.{
  ℕ, zero, suc, ◌+◌, ◌-◌, ◌%◌, ◌^◌, ◌≤◌, ◌<◌, ◌≡◌, refl, [], ◌∷◌, some, none, Option, leb, length,
  take, drop, length-take, Bytes, be_at, from_be_bytes, slice_in_range, slice_out_of_range, Outcome,
  done, panic, stuck, arith, le→ltb, ◌≢◌, ◌↔◌, inl, inr, ◌⊎◌, Bool-cases, lt→ltb, ==_iff, ==_ne,
  >>=-ne-stuck, >>=-eq-done,
}
use mediaflow_proxy_light.Mp4.{
  Atom, new_atom, cut_atom, read_atom_at, Parser, new_parser, read_atom, list_atoms_loop, push_atom,
  advance, list_atoms, children_of,
}

abbrev pub IsByteString : Bytes → Type 0
IsByteString [] = Unit
IsByteString (b ∷ bs) = (b < 256) × IsByteString bs

pub IsByteString-take : (n : ℕ) (d : Bytes) → IsByteString d → IsByteString (take n d)
IsByteString-take zero d h = tt
IsByteString-take (suc n) [] h = tt
IsByteString-take (suc n) (b ∷ bs) (x, h) = (x, IsByteString-take n bs h)

pub IsByteString-drop : (n : ℕ) (d : Bytes) → IsByteString d → IsByteString (drop n d)
IsByteString-drop zero d h = h
IsByteString-drop (suc n) [] h = tt
IsByteString-drop (suc n) (b ∷ bs) (x, h) = IsByteString-drop n bs h

-- At most eight bytes make a number of 64 bits.
from_be_bytes_eight : (d : Bytes) → IsByteString d → length d ≤ 8 → from_be_bytes d < 2 ^ 64
unfolding from_be_bytes
from_be_bytes_eight [] h n = omega arith
from_be_bytes_eight (a ∷ []) h n = omega arith
from_be_bytes_eight (a ∷ b ∷ []) h n = omega arith
from_be_bytes_eight (a ∷ b ∷ c ∷ []) h n = omega arith
from_be_bytes_eight (a ∷ b ∷ c ∷ d ∷ []) h n = omega arith
from_be_bytes_eight (a ∷ b ∷ c ∷ d ∷ e ∷ []) h n = omega arith
from_be_bytes_eight (a ∷ b ∷ c ∷ d ∷ e ∷ f ∷ []) h n = omega arith
from_be_bytes_eight (a ∷ b ∷ c ∷ d ∷ e ∷ f ∷ g ∷ []) h n = omega arith
from_be_bytes_eight (a ∷ b ∷ c ∷ d ∷ e ∷ f ∷ g ∷ k ∷ []) h n = omega arith
from_be_bytes_eight (a ∷ b ∷ c ∷ d ∷ e ∷ f ∷ g ∷ k ∷ l ∷ r) h n = absurd (omega arith)

pub be_at_eight : (d : Bytes) (pos : ℕ) → IsByteString d → be_at 8 d pos < 2 ^ 64
unfolding be_at
be_at_eight d pos h =
    from_be_bytes_eight (take 8 (drop pos d)) (IsByteString-take 8 _ (IsByteString-drop pos d h))
      (omega (arith, length-take 8 (drop pos d)))

from_be_bytes_four : (d : Bytes) → IsByteString d → length d ≤ 4 → from_be_bytes d < 2 ^ 32
unfolding from_be_bytes
from_be_bytes_four [] h n = omega arith
from_be_bytes_four (a ∷ []) h n = omega arith
from_be_bytes_four (a ∷ b ∷ []) h n = omega arith
from_be_bytes_four (a ∷ b ∷ c ∷ []) h n = omega arith
from_be_bytes_four (a ∷ b ∷ c ∷ d ∷ []) h n = omega arith
from_be_bytes_four (a ∷ b ∷ c ∷ d ∷ e ∷ r) h n = absurd (omega arith)

pub be_at_four : (d : Bytes) (pos : ℕ) → IsByteString d → be_at 4 d pos < 2 ^ 32
unfolding be_at
be_at_four d pos h =
    from_be_bytes_four (take 4 (drop pos d)) (IsByteString-take 4 _ (IsByteString-drop pos d h))
      (omega (arith, length-take 4 (drop pos d)))

-- The outcomes of `cut_atom`, by the size that it is given.
module _ (d : Bytes) (pos header_len size : ℕ) (short : length d < 2 ^ 63)
    (head_fits : pos + header_len ≤ length d) (narrow : size < 2 ^ 64) where
  cut_atom_small : size < header_len → cut_atom d pos (length d) header_len size ≡ done none
  unfolding cut_atom
  cut_atom_small h = ground arith

  cut_atom_long :
      length d < pos + size
      → pos + size < 2 ^ 64
      → cut_atom d pos (length d) header_len size ≡ done none
  unfolding cut_atom
  cut_atom_long h k = ground arith

  cut_atom_fits :
      header_len ≤ size
      → pos + size ≤ length d
      → cut_atom d pos (length d) header_len size
        ≡ done (
            some (
              new_atom
                  (be_at 4 d (pos + 4))
                  (take (pos + size - (pos + header_len)) (drop (pos + header_len) d)),
              pos + size,
            ))
  unfolding cut_atom
  cut_atom_fits h k = ground (arith, slice_in_range d (pos + header_len) (pos + size))

  cut_atom_wraps :
      header_len ≤ size → 2 ^ 64 ≤ pos + size → cut_atom d pos (length d) header_len size ≡ panic
  unfolding cut_atom
  cut_atom_wraps h k =
      ground (arith, slice_out_of_range d (pos + header_len) ((pos + size) % 2 ^ 64))

-- The three things that come of a header whose bytes are in range.
pub data Cut (d : Bytes) (pos header_len size : ℕ) : Outcome (Option (Atom × ℕ)) → Type 0 where
  rejected :
      (size < header_len) ⊎ ((length d < pos + size) × (pos + size < 2 ^ 64))
      → Cut d pos header_len size (done none)
  accepted :
      header_len ≤ size
      → pos + size ≤ length d
      → Cut d pos header_len size (
          done (
            some (
              new_atom
                  (be_at 4 d (pos + 4))
                  (take (pos + size - (pos + header_len)) (drop (pos + header_len) d)),
              pos + size,
            )))
  wrapped : header_len ≤ size → 2 ^ 64 ≤ pos + size → Cut d pos header_len size panic

pub cut_atom-Cut :
    (d : Bytes) (pos header_len size : ℕ)
    → length d < 2 ^ 63
    → pos + header_len ≤ length d
    → size < 2 ^ 64
    → Cut d pos header_len size (cut_atom d pos (length d) header_len size)
cut_atom-Cut d pos header_len size short fits narrow = elim (dec_lt size header_len) [
  | yes small ↦
      rw (cut_atom_small d pos header_len size short fits narrow small) (rejected (inl small))
  | no large ↦ elim (dec_lt (length d) (pos + size)) [
    | no within ↦
        rw (cut_atom_fits d pos header_len size short fits narrow (omega arith) (omega arith))
          (accepted (omega arith) (omega arith))
    | yes long ↦ elim (dec_lt (pos + size) (2 ^ 64)) [
      | yes narrow_sum ↦
          rw (cut_atom_long d pos header_len size short fits narrow long narrow_sum)
            (rejected (inr (long, narrow_sum)))
      | no wide ↦
          rw (cut_atom_wraps d pos header_len size short fits narrow (omega arith) (omega arith))
            (wrapped (omega arith) (omega arith))
    ]
  ]
]

-- What `read_atom_at` may come to at `pos`.
pub data Read (d : Bytes) (pos : ℕ) : Outcome (Option (Atom × ℕ)) → Type 0 where
  nothing : Read d pos (done none)
  atom :
      (head next : ℕ)
      → 8 ≤ head
      → pos + head ≤ next
      → next ≤ length d
      → Read d pos (
          done (
            some (
              new_atom (be_at 4 d (pos + 4)) (take (next - (pos + head)) (drop (pos + head) d)),
              next,
            )))
  overflow :
      pos + 16 ≤ length d
      → be_at 4 d pos ≡ 1
      → 2 ^ 64 ≤ pos + be_at 8 d (pos + 8)
      → Read d pos panic

Cut-Read :
    (d : Bytes) (pos header_len size : ℕ) {r : Outcome (Option (Atom × ℕ))}
    → 8 ≤ header_len
    → (2 ^ 64 ≤ pos + size
        → (pos + 16 ≤ length d) × (be_at 4 d pos ≡ 1) × (size ≡ be_at 8 d (pos + 8)))
    → Cut d pos header_len size r
    → Read d pos r
Cut-Read d pos header_len size h k (rejected _) = nothing
Cut-Read d pos header_len size h k (accepted a b) = atom header_len (pos + size) h (omega arith) b
Cut-Read d pos header_len size h k (wrapped a b) = let (x, y, z) = k b in overflow x y (omega arith)

-- `read_atom_at` on a byte string that is shorter than 2 ^ 63.
module _ (d : Bytes) (bytes : IsByteString d) (short : length d < 2 ^ 63) where
  cut_atom-Read_wide :
      (pos : ℕ)
      → pos + 16 ≤ length d
      → be_at 4 d pos ≡ 1
      → Read d pos (cut_atom d pos (length d) 16 (be_at 8 d (pos + 8)))
  cut_atom-Read_wide pos room e =
      Cut-Read d pos 16 (be_at 8 d (pos + 8)) (omega arith) (λ _. (room, e, refl))
        (cut_atom-Cut d pos 16 _ short room (be_at_eight d (pos + 8) bytes))

  cut_atom-Read :
      (pos size : ℕ)
      → pos + 8 ≤ length d
      → size < 2 ^ 63
      → Read d pos (cut_atom d pos (length d) 8 size)
  cut_atom-Read pos size room small =
      Cut-Read d pos 8 size (omega arith) (λ wide. absurd (omega arith))
        (cut_atom-Cut d pos 8 size short room (omega arith))

  pub read_atom_at-Read : (pos : ℕ) → Read d pos (read_atom_at d pos (length d))
  unfolding read_atom_at
  read_atom_at-Read pos = elim (dec_lt (length d) (pos + 8)) [
    | yes end ↦ rw (lt→ltb _ _ end) nothing
    | no room ↦
        rw (le→ltb (length d) (pos + 8) (omega arith)) (elim (ℕ_discrete (be_at 4 d pos) 1) [
          | yes wide ↦ rw ((==_iff (be_at 4 d pos) 1).1 wide) (elim (dec_lt (length d) (pos + 16)) [
            | yes end ↦ rw (lt→ltb _ _ end) nothing
            | no room' ↦
                rw (le→ltb (length d) (pos + 16) (omega arith))
                  (cut_atom-Read_wide pos (omega arith) wide)
          ])
          | no narrow ↦ rw (==_ne _ _ narrow) (elim (ℕ_discrete (be_at 4 d pos) 0) [
            | yes rest ↦
                rw ((==_iff (be_at 4 d pos) 0).1 rest)
                  (cut_atom-Read pos (length d - pos) (omega arith) (omega arith))
            | no sized ↦ rw (==_ne _ _ sized) (
                cut_atom-Read pos (be_at 4 d pos) (omega arith)
                  (omega (arith, be_at_four d pos bytes)))
          ])
        ])
  ]

  Read-ne-stuck : {pos : ℕ} {r : Outcome (Option (Atom × ℕ))} → Read d pos r → r ≢ stuck
  Read-ne-stuck nothing = λ e. cc
  Read-ne-stuck (atom head next a b c) = λ e. cc
  Read-ne-stuck (overflow a b c) = λ e. cc

  Read-bounds :
      {pos : ℕ} {r : Outcome (Option (Atom × ℕ))} {a : Atom} {next : ℕ}
      → Read d pos r
      → r ≡ done (some (a, next))
      → (pos + 8 ≤ next) × (next ≤ length d)
  Read-bounds nothing e = cc
  Read-bounds (atom head next a b c) e = ground arith
  Read-bounds (overflow a b c) e = cc

  read_atom-ne-stuck : (p : Parser) → p.buffer ≡ d → read_atom p ≢ stuck
  unfolding read_atom
  read_atom-ne-stuck p e = rw e (
      >>=-ne-stuck (read_atom_at d p.position (length d)) _
        (Read-ne-stuck (read_atom_at-Read p.position)) (λ o _ h. cc))

  -- A successful read moves on by eight bytes at least, and stays within the buffer.
  pub read_atom_bounds :
      (p q : Parser) (a : Atom)
      → p.buffer ≡ d
      → read_atom p ≡ done (some a, q)
      → (q.buffer ≡ d) × (p.position + 8 ≤ q.position) × (q.position ≤ length d)
  unfolding read_atom
  read_atom_bounds p q a e h =
      let (o, r, f) =
        >>=-eq-done (read_atom_at p.buffer p.position (length p.buffer)) (λ r. done (advance p r))
          h in
      found o (rw e at r) f
    where
      found :
          (o : Option (Atom × ℕ))
          → read_atom_at d p.position (length d) ≡ done o
          → done (advance p o) ≡ done (some a, q)
          → (q.buffer ≡ d) × (p.position + 8 ≤ q.position) × (q.position ≤ length d)
      found none r f = cc
      found (some (b, next)) r f = ground (arith, Read-bounds (read_atom_at-Read p.position) r)

  -- Each round of the loop moves on by eight bytes at least, so the fuel is not used up.
  list_atoms_loop-ne-stuck :
      (fuel : ℕ) (p : Parser)
      → p.buffer ≡ d
      → length d < fuel + p.position
      → p.position ≤ length d
      → list_atoms_loop fuel p ≢ stuck
  unfolding list_atoms_loop
  list_atoms_loop-ne-stuck zero p e h k = absurd (omega arith)
  list_atoms_loop-ne-stuck (suc fuel) p e h k =
      elim (Bool-cases (leb (p.position + 8) (length p.buffer))) [
        | inr end ↦ rw (end, list_atoms_loop) (λ q. cc)
        | inl more ↦
            rw (more, list_atoms_loop)
              (>>=-ne-stuck (read_atom p) _ (read_atom-ne-stuck p e)
                (after_read (λ q f h' k'. list_atoms_loop-ne-stuck fuel q f h' k')))
      ]
    where
      after_read :
          ((q : Parser)
            → q.buffer ≡ d
            → length d < fuel + q.position
            → q.position ≤ length d
            → list_atoms_loop fuel q ≢ stuck)
          → (r : Option Atom × Parser) → read_atom p ≡ done r
          → push_atom (list_atoms_loop fuel) r ≢ stuck
      after_read ih (none, q) f = λ x. cc
      after_read ih (some a, q) f =
          let (same, on, within) = read_atom_bounds p q a e f in
          >>=-ne-stuck (list_atoms_loop fuel q) _ (ih q same (omega arith) within) (λ _ _ x. cc)

  -- The listing of any byte string shorter than 2 ^ 63 bytes ends: it returns the atoms, or it panics.
  pub children_of-ne-stuck : children_of d ≢ stuck
  unfolding children_of list_atoms
  children_of-ne-stuck =
      list_atoms_loop-ne-stuck (suc (length d)) (new_parser d) refl (omega arith) (omega arith)

  -- Reading an atom from a byte string shorter than 2 ^ 63 bytes panics exactly where the header holds a 64-bit size that wraps the position
  -- around; everything else that is wrong with a header is answered by `None`.
  pub read_atom_at-panic_iff :
      (pos : ℕ)
      → (read_atom_at d pos (length d) ≡ panic)
        ↔ ((pos + 16 ≤ length d) × (be_at 4 d pos ≡ 1) × (2 ^ 64 ≤ pos + be_at 8 d (pos + 8)))
  unfolding read_atom_at
  read_atom_at-panic_iff pos = (
    λ e. only (read_atom_at-Read pos) e,
    λ (room, wide, far).
        rw
          (
            le→ltb (length d) (pos + 8) (omega arith),
            (==_iff (be_at 4 d pos) 1).1 wide,
            le→ltb (length d) (pos + 16) (omega arith),
          )
          (cut_atom_wraps d pos 16 (be_at 8 d (pos + 8)) short room (be_at_eight d (pos + 8) bytes)
            (omega (arith, be_at_eight d (pos + 8) bytes)) far),
  )
    where
      only :
          {r : Outcome (Option (Atom × ℕ))}
          → Read d pos r
          → r ≡ panic
          → (pos + 16 ≤ length d) × (be_at 4 d pos ≡ 1) × (2 ^ 64 ≤ pos + be_at 8 d (pos + 8))
      only nothing e = cc
      only (atom head next a b c) e = cc
      only (overflow a b c) e = (a, b, c)
