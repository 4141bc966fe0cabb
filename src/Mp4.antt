-- ===== src/Mp4.antt =====
-- src/drm/mp4_atom.rs: MP4 boxes and the parser that lists them. A `usize` has 64 bits, and a
-- buffer is shorter than 2 ^ 63 bytes, so only the sum of a position and a size that the data
-- itself states can wrap around. A four-byte tag is the big-endian number of its bytes.
pub mod Parse
pub mod RoundTrip
use mediaflow_proxy_light.Base.{
  ℕ, zero, suc, ◌+◌, ◌-◌, ◌%◌, ◌^◌, ◌||◌, List, [], ◌∷◌, ◌++◌, Option, none, some, ltb, leb, ◌==◌,
  if◌then◌else◌, length, Bool, true, false, Bytes, to_be_bytes, be_at, slice, Outcome, done, stuck,
  ◌>>=◌,
}

pub record Atom : Type 0 where
  pub atom_type : ℕ
  pub payload : Bytes

-- `Mp4Atom::new`
abbrev pub new_atom : ℕ → Bytes → Atom
new_atom t d = record { atom_type = t; payload = d }

-- The length of the wire form, as the `u32` that `pack` writes.
unfoldable pub pack : Atom → Bytes
pack a = to_be_bytes 4 ((length a.payload + 8) % 2 ^ 32) ++ (to_be_bytes 4 a.atom_type ++ a.payload)

-- The end of `read_atom_at`, once the size is known: `pos + size` wraps in a release build.
unfoldable pub cut_atom : Bytes → ℕ → ℕ → ℕ → ℕ → Outcome (Option (Atom × ℕ))
cut_atom d pos end header_len size =
    let next_pos = (pos + size) % 2 ^ 64 in
    if ltb size header_len || ltb end next_pos then done none else do
      content ← slice d (pos + header_len) next_pos
      done (some (new_atom (be_at 4 d (pos + 4)) content, next_pos))

unfoldable pub read_atom_at : Bytes → ℕ → ℕ → Outcome (Option (Atom × ℕ))
read_atom_at d pos end =
    let raw_size = be_at 4 d pos in
    if ltb end (pos + 8)
    then done none
    else if raw_size == 1
    then if ltb end (pos + 16) then done none else cut_atom d pos end 16 (be_at 8 d (pos + 8))
    else if raw_size == 0
    then cut_atom d pos end 8 (end - pos)
    else cut_atom d pos end 8 raw_size

pub record Parser : Type 0 where
  pub buffer : Bytes
  pub position : ℕ

-- `Mp4Parser::new`
abbrev pub new_parser : Bytes → Parser
new_parser d = record { buffer = d; position = 0 }

-- What `read_atom` does with the result of `read_atom_at`.
unfoldable pub advance : Parser → Option (Atom × ℕ) → Option Atom × Parser
advance p none = (none, p)
advance p (some (a, new_pos)) = (some a, record p { position = new_pos })

unfoldable pub read_atom : Parser → Outcome (Option Atom × Parser)
unfolding advance
read_atom p = do r ← read_atom_at p.buffer p.position (length p.buffer); done (advance p r)

-- `match self.read_atom()`: push the atom and go on, or break.
unfoldable pub push_atom :
    (Parser → Outcome (List Atom)) → Option Atom × Parser → Outcome (List Atom)
push_atom more (none, p) = done []
push_atom more (some a, p) = more p >>= λ rest. done (a ∷ rest)

-- The loop of `list_atoms`.
unfoldable pub list_atoms_loop : ℕ → Parser → Outcome (List Atom)
unfolding push_atom
list_atoms_loop zero p = stuck
list_atoms_loop (suc fuel) p = elim (leb (p.position + 8) (length p.buffer)) [
  | true ↦ read_atom p >>= push_atom (list_atoms_loop fuel)
  | false ↦ done []
]

-- `list_atoms` resets the position before the loop and restores it after.
unfoldable pub list_atoms : Parser → Outcome (List Atom)
list_atoms p = list_atoms_loop (suc (length p.buffer)) (record p { position = 0 })

unfoldable pub children_of : Bytes → Outcome (List Atom)
children_of d = list_atoms (new_parser d)

-- `out.extend_from_slice(&atom.pack())` for each atom in turn.
unfoldable pub pack_all : List Atom → Bytes
pack_all [] = []
pack_all (a ∷ rest) = pack a ++ pack_all rest
