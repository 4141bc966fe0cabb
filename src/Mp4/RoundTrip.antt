-- ===== src/Mp4/RoundTrip.antt =====
-- Atoms written by `pack`, read back.
use mediaflow_proxy_light.Base.{
  ℕ, zero, suc, ◌+◌, ◌%◌, ◌^◌, ◌≤◌, ◌<◌, ◌≡◌, refl, sym, ap, ◌∙◌, List, [], ◌∷◌, ◌++◌, append_assoc,
  some, length, length-append, Bytes, to_be_bytes, length-to_be_bytes, from_to_be_4, be_at,
  be_at_prefix, slice, slice_prefix, done, arith,
}
use mediaflow_proxy_light.Mp4.{
  Atom, pack, cut_atom, read_atom_at, Parser, new_parser, read_atom, list_atoms_loop, list_atoms,
  children_of, pack_all,
}

-- An atom that the 32-bit form of the header can hold.
pub record IsPackable (a : Atom) : Type 0 where
  pub tag_fits : a.atom_type < 2 ^ 32
  pub size_fits : length a.payload + 8 < 2 ^ 32

pub length-pack : (a : Atom) → length (pack a) ≡ length a.payload + 8
unfolding pack
length-pack a = omega (
  arith,
  length-append (to_be_bytes 4 ((length a.payload + 8) % 2 ^ 32))
      (to_be_bytes 4 a.atom_type ++ a.payload),
  length-append (to_be_bytes 4 a.atom_type) a.payload,
  length-to_be_bytes 4 ((length a.payload + 8) % 2 ^ 32),
  length-to_be_bytes 4 a.atom_type,
)

module _ (front rest : Bytes) (a : Atom) (fits : IsPackable a) where
  size_bytes : Bytes
  size_bytes = to_be_bytes 4 ((length a.payload + 8) % 2 ^ 32)

  tag_bytes : Bytes
  tag_bytes = to_be_bytes 4 a.atom_type

  read_size : be_at 4 (front ++ (pack a ++ rest)) (length front) ≡ length a.payload + 8
  unfolding pack
  read_size = rw (append_assoc (to_be_bytes 4 ((length a.payload + 8) % 2 ^ 32))) (
      be_at_prefix front _ _ 4 (length front) refl (length-to_be_bytes 4 _)
      ∙ from_to_be_4 _
      ∙ omega (arith, fits.size_fits))

  tag_split :
      front ++ (pack a ++ rest) ≡ (front ++ size_bytes) ++ (tag_bytes ++ (a.payload ++ rest))
  unfolding pack size_bytes tag_bytes
  tag_split = simp append_assoc

  payload_split :
      front ++ (pack a ++ rest) ≡ ((front ++ size_bytes) ++ tag_bytes) ++ (a.payload ++ rest)
  unfolding pack size_bytes tag_bytes
  payload_split = simp append_assoc

  length_to_tag : length (front ++ size_bytes) ≡ length front + 4
  unfolding size_bytes
  length_to_tag = omega (arith, length-append front size_bytes, length-to_be_bytes 4 _)

  length_to_payload : length ((front ++ size_bytes) ++ tag_bytes) ≡ length front + 8
  unfolding tag_bytes
  length_to_payload = omega (
    arith,
    length_to_tag,
    length-append (front ++ size_bytes) tag_bytes,
    length-to_be_bytes 4 a.atom_type,
  )

  read_tag : be_at 4 (front ++ (pack a ++ rest)) (length front + 4) ≡ a.atom_type
  read_tag = rw tag_split (
      be_at_prefix (front ++ size_bytes) tag_bytes (a.payload ++ rest) 4 _ length_to_tag
        (unfold tag_bytes in length-to_be_bytes 4 a.atom_type)
      ∙ unfold tag_bytes in from_to_be_4 a.atom_type ∙ omega (arith, fits.tag_fits))

  read_payload :
      slice (front ++ (pack a ++ rest)) (length front + 8) (length front + (length a.payload + 8))
      ≡ done a.payload
  read_payload = rw payload_split (
      slice_prefix ((front ++ size_bytes) ++ tag_bytes) a.payload rest _ _ length_to_payload
        (omega arith))

  -- `read_atom_at`, at the place where an atom was packed, returns the atom and its end.
  pub read_atom_at-pack :
      length (front ++ (pack a ++ rest)) < 2 ^ 63
      → read_atom_at (front ++ (pack a ++ rest)) (length front) (length (front ++ (pack a ++ rest)))
        ≡ done (some (a, length front + length (pack a)))
  unfolding read_atom_at cut_atom
  read_atom_at-pack short = ground (
    arith,
    read_size,
    read_tag,
    read_payload,
    length-pack a,
    fits.size_fits,
    length-append front (pack a ++ rest),
    length-append (pack a) rest,
  )

abbrev pub AllPackable : List Atom → Type 0
AllPackable [] = Unit
AllPackable (a ∷ rest) = IsPackable a × AllPackable rest

length-le-pack_all : (atoms : List Atom) → length atoms ≤ length (pack_all atoms)
unfolding pack_all
length-le-pack_all [] = omega arith
length-le-pack_all (a ∷ rest) =
    omega (arith, length-le-pack_all rest, length-pack a, length-append (pack a) (pack_all rest))

read_atom-pack :
    (front rest : Bytes) (a : Atom) (p : Parser)
    → IsPackable a
    → p.buffer ≡ front ++ (pack a ++ rest)
    → p.position ≡ length front
    → length p.buffer < 2 ^ 63
    → read_atom p ≡ done (some a, record p { position = length front + length (pack a) })
unfolding read_atom
read_atom-pack front rest a p fits e pos short =
    ground (arith, read_atom_at-pack front rest a fits (rw e at short), at_front)
  where
    at_front :
        read_atom_at p.buffer p.position (length p.buffer)
        ≡ read_atom_at
            (front ++ (pack a ++ rest))
            (length front)
            (length (front ++ (pack a ++ rest)))
    at_front = cc

list_atoms_loop-pack_all :
    (atoms : List Atom) (fuel : ℕ) (front : Bytes) (p : Parser)
    → AllPackable atoms
    → length atoms < fuel
    → p.buffer ≡ front ++ pack_all atoms
    → p.position ≡ length front
    → length p.buffer < 2 ^ 63
    → list_atoms_loop fuel p ≡ done atoms
unfolding list_atoms_loop pack_all
list_atoms_loop-pack_all [] (suc fuel) front p h f e pos short =
    ground (arith, ap length e, length-append front [])
list_atoms_loop-pack_all (a ∷ rest) (suc fuel) front p (fit, fits) f e pos short =
    let p' = record p { position = length front + length (pack a) } in
    ground (
      arith,
      ap length e,
      length-append front (pack a ++ pack_all rest),
      length-append (pack a) (pack_all rest),
      length-pack a,
      read_atom-pack front (pack_all rest) a p fit e pos short,
      list_atoms_loop-pack_all rest fuel (front ++ pack a) p' fits (omega arith)
          (e ∙ sym (append_assoc front (pack a) (pack_all rest)))
          (sym (length-append front (pack a))) short,
    )
list_atoms_loop-pack_all _ zero front p h f e pos short = elim f [ ]

-- The parser reads back exactly the atoms that were packed one after another, however many,
-- where each fits the 32-bit header and the whole is shorter than 2 ^ 63 bytes.
pub children_of-pack_all :
    (atoms : List Atom)
    → AllPackable atoms
    → length (pack_all atoms) < 2 ^ 63
    → children_of (pack_all atoms) ≡ done atoms
unfolding children_of list_atoms
children_of-pack_all atoms fits short =
    list_atoms_loop-pack_all atoms (suc (length (pack_all atoms))) [] (new_parser (pack_all atoms))
      fits (omega (arith, length-le-pack_all atoms)) refl refl short
