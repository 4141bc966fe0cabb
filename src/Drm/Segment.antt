-- ===== src/Drm/Segment.antt =====
-- The entry points of src/drm/cenc.rs for whole buffers.
use mediaflow_proxy_light.Base.{
  ℕ, Bool, not, ◌&&◌, ◌||◌, List, [], ◌∷◌, ◌++◌, Option, none, some, ◌==◌, if◌then◌else◌, is_empty,
  Bytes, lookup, insert, ℕ_eq, Outcome, done, ◌>>=◌ as outcome_bind,
}
use mediaflow_proxy_light.Mp4.{Atom, pack, new_parser, list_atoms}
use mediaflow_proxy_light.Drm.Cipher.{Ciphers}
use mediaflow_proxy_light.Drm.Tags
use mediaflow_proxy_light.Drm.Decrypter.{new_decrypter, Method, ◌>>=◌, ◌>>◌, pure, lift}
use mediaflow_proxy_light.Drm.Keys.{build_key_map_from_hex}
use mediaflow_proxy_light.Drm.Moov.{process_moov}
use mediaflow_proxy_light.Drm.Moof.{process_moof, process_sidx}
use mediaflow_proxy_light.Drm.Mdat.{decrypt_mdat}

-- `atoms.iter().find(|a| a.atom_type == type_tag)`
unfoldable pub find_atom : ℕ → List Atom → Option Atom
find_atom tag [] = none
find_atom tag (a ∷ rest) = if a.atom_type == tag then some a else find_atom tag rest

-- The assembly of `decrypt_segment`'s output: an atom of a processed type is written as the
-- processed one, whichever of that type it is.
abbrev pub is_init_type : ℕ → Bool
is_init_type t = t == Tags.ftyp || t == Tags.moov

abbrev pub output_atom : List (ℕ × Atom) → Atom → Atom
output_atom processed a = elim (lookup a.atom_type processed) [ some p ↦ p | none ↦ a ]

unfoldable pub assemble : Bool → List (ℕ × Atom) → List Atom → Bytes
assemble include_init processed [] = []
assemble include_init processed (a ∷ rest) =
    let out = assemble include_init processed rest in
    if not include_init && is_init_type a.atom_type
    then out
    else pack (output_atom processed a) ++ out

-- The result of `decrypt_segment` and `process_drm_init_segment`: `Result<Vec<u8>, String>`.
pub data DrmResult : Type 0 where
  ok : Bytes → DrmResult
  no_valid_keys : DrmResult

-- The output of `process_init_only`, given the processed `moov`.
unfoldable pub replace_moov : Option Atom → List Atom → Bytes
replace_moov processed [] = []
replace_moov processed (a ∷ rest) =
    let out : Bytes = elim processed [ some p ↦ pack p | none ↦ pack a ] in
    (if a.atom_type == Tags.moov then out else pack a) ++ replace_moov processed rest

unfoldable pub process_init_only : Bytes → Method Bytes
unfolding find_atom replace_moov
process_init_only init = do
  atoms ← lift (list_atoms (new_parser init))
  moov_processed ← elim (find_atom Tags.moov atoms) [
    | none ↦ pure none
    | some a ↦ process_moov a >>= λ p. pure (some p)
  ]
  pure (replace_moov moov_processed atoms)

unfoldable pub init_loop : List Atom → Method (Unit {0})
init_loop [] = pure tt
init_loop (a ∷ rest) = do
  if a.atom_type == Tags.moov then process_moov a >>= (λ _. pure tt) else pure tt
  init_loop rest

-- It primes the state from every `moov` box and discards what the boxes become.
unfoldable pub init_from_segment : Bytes → Method (Unit {0})
unfolding init_loop
init_from_segment init = do atoms ← lift (list_atoms (new_parser init)); init_loop atoms

module _ (c : Ciphers) where
  unfoldable pub process_atom : Atom → Method Atom
  process_atom a =
      if a.atom_type == Tags.moov
      then process_moov a
      else if a.atom_type == Tags.moof
      then process_moof a
      else if a.atom_type == Tags.sidx
      then (λ s. done (process_sidx s a, s))
      else if a.atom_type == Tags.mdat
      then (λ s. outcome_bind (decrypt_mdat c s a) (λ p. done (p, s)))
      else pure a

  -- The loop over the canonical order: the first atom of each type, processed.
  unfoldable pub process_types : List ℕ → List Atom → List (ℕ × Atom) → Method (List (ℕ × Atom))
  unfolding process_atom find_atom
  process_types [] atoms processed = pure processed
  process_types (tag ∷ tags) atoms processed = elim (find_atom tag atoms) [
    | none ↦ process_types tags atoms processed
    | some a ↦ process_atom a >>= λ p. process_types tags atoms (insert tag p processed)
  ]

  abbrev pub canonical_order : List ℕ
  canonical_order = Tags.moov ∷ Tags.moof ∷ Tags.sidx ∷ Tags.mdat ∷ []

  -- `Mp4Decrypter::decrypt_segment`
  unfoldable pub decrypt_combined : Bytes → Bool → Method Bytes
  unfolding process_types assemble
  decrypt_combined combined include_init = do
    atoms ← lift (list_atoms (new_parser combined))
    processed ← process_types canonical_order atoms []
    pure (assemble include_init processed atoms)

  module _ (hex_decode : Bytes → Option Bytes) where
    unfoldable pub decrypt_segment : Bytes → Bytes → Bytes → Bytes → Bool → Outcome DrmResult
    unfolding decrypt_combined
    decrypt_segment init_segment segment_content key_id key include_init =
        let key_map = build_key_map_from_hex hex_decode key_id key in
        if is_empty key_map
        then done no_valid_keys
        else outcome_bind
            (decrypt_combined (init_segment ++ segment_content) include_init
              (new_decrypter key_map))
            (λ r. done (ok r.0))

    unfoldable pub process_drm_init_segment : Bytes → Bytes → Bytes → Outcome DrmResult
    unfolding process_init_only
    process_drm_init_segment init_segment key_id key =
        let key_map = build_key_map_from_hex hex_decode key_id key in
        if is_empty key_map
        then done no_valid_keys
        else outcome_bind (process_init_only init_segment (new_decrypter key_map))
            (λ r. done (ok r.0))
