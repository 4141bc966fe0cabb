-- ===== src/Examples/Boxes.antt =====
-- Box trees.
use mediaflow_proxy_light.Base.{
  ◌+◌, ◌^◌, ◌≤◌, ◌<◌, ◌≡◌, ◌≢◌, ◌↔◌, refl, List, [], ◌∷◌, ◌++◌, length, replicate, Bytes,
  from_be_bytes, ◌%◌, be_at, to_be_bytes, done, panic, stuck, arith,
}
use mediaflow_proxy_light.Mp4.{Atom, new_atom, pack, pack_all, children_of, read_atom_at}
use mediaflow_proxy_light.Mp4.RoundTrip.{IsPackable, AllPackable, children_of-pack_all}
use mediaflow_proxy_light.Mp4.Parse.{IsByteString, children_of-ne-stuck, read_atom_at-panic_iff}
use mediaflow_proxy_light.Drm.Tags
use mediaflow_proxy_light.Drm.Decrypter.{Mp4Decrypter, new_decrypter}
use mediaflow_proxy_light.Drm.Moof.{modify_trun, total_overhead, process_traf, process_moof}
use mediaflow_proxy_light.Drm.Moof.Shift.{modify_trun_offset}
use mediaflow_proxy_light.Drm.Moof.Strip.{clean}
use mediaflow_proxy_light.Drm.Moof.Offsets.{
  AllSound, nil, cons, other, traf, process_traf_lem, process_moof_size,
}

abbrev start : Mp4Decrypter
start = new_decrypter []

abbrev tfhd : Atom
tfhd = new_atom Tags.tfhd (0 ∷ 0 ∷ 0 ∷ 0 ∷ 0 ∷ 0 ∷ 0 ∷ 1 ∷ [])

abbrev trun : Atom
trun = new_atom Tags.trun (0 ∷ 0 ∷ 0 ∷ 1 ∷ 0 ∷ 0 ∷ 0 ∷ 0 ∷ 0 ∷ 0 ∷ 0 ∷ 200 ∷ [])

abbrev senc : Atom
senc = new_atom Tags.senc (replicate 8 0)

abbrev boxes : List Atom
boxes = tfhd ∷ senc ∷ trun ∷ []

packable : (a : Atom) → a.atom_type < 2 ^ 32 → length a.payload + 8 < 2 ^ 32 → IsPackable a
packable a t s = record { tag_fits = t; size_fits = s }

boxes-AllPackable : AllPackable boxes
boxes-AllPackable = (
  packable tfhd (omega arith) (omega arith),
  (packable senc (omega arith) (omega arith), (packable trun (omega arith) (omega arith), tt)),
)

short_boxes : length (pack_all boxes) < 2 ^ 63
unfolding pack_all pack to_be_bytes
short_boxes = omega arith

children_of-pack_all_example : children_of (pack_all boxes) ≡ done boxes
children_of-pack_all_example = children_of-pack_all boxes boxes-AllPackable short_boxes

abbrev fragment : Atom
fragment = new_atom Tags.traf (pack_all boxes)

process_traf_lem_example :
    (s' : Mp4Decrypter) × (process_traf fragment start
      ≡ done (new_atom Tags.traf (pack_all (clean 0 boxes)), s'))
    × (s'.total_encryption_overhead ≡ 0)
process_traf_lem_example = process_traf_lem boxes fragment start children_of-pack_all_example refl

abbrev children : List Atom
children = new_atom Tags.pssh [] ∷ fragment ∷ []

short_children : length (pack_all children) < 2 ^ 63
unfolding pack_all pack to_be_bytes
short_children = omega arith

fragment-IsPackable : IsPackable fragment
unfolding pack_all pack to_be_bytes
fragment-IsPackable = packable fragment (omega arith) (omega arith)

children-AllPackable : AllPackable children
children-AllPackable =
    (packable (new_atom Tags.pssh []) (omega arith) (omega arith), (fragment-IsPackable, tt))

children-AllSound : AllSound children
children-AllSound =
    cons (other refl) (cons (traf boxes refl children_of-pack_all_example refl refl) nil)

process_moof_size_example :
    (out : Atom) × (s' : Mp4Decrypter) × (process_moof
        (new_atom Tags.moof (pack_all children))
        start
      ≡ done (out, s'))
    × (length out.payload + s'.total_encryption_overhead ≡ length (pack_all children))
    × (total_overhead children ≡ done s'.total_encryption_overhead)
process_moof_size_example =
    process_moof_size children (new_atom Tags.moof (pack_all children)) start
      (children_of-pack_all children children-AllPackable short_children) refl children-AllSound

-- A box whose header states a 64-bit size of 2 ^ 64 - 8, behind one of eight bytes.
abbrev wrapping : Bytes
wrapping =
    0 ∷ 0 ∷ 0 ∷ 8 ∷ 1 ∷ 1 ∷ 1 ∷ 1 ∷ 0 ∷ 0 ∷ 0 ∷ 1 ∷ 1 ∷ 1 ∷ 1 ∷ 1 ∷ (replicate 7 255 ++ 248 ∷ [])

wrapping-IsByteString : IsByteString wrapping
wrapping-IsByteString = ground arith

children_of-ne-stuck_example : children_of wrapping ≢ stuck
children_of-ne-stuck_example = children_of-ne-stuck wrapping wrapping-IsByteString (omega arith)

read_atom_at-panic_iff_example : (read_atom_at wrapping 8 (length wrapping) ≡ panic) ↔ (
    (8 + 16 ≤ length wrapping) × (be_at 4 wrapping 8 ≡ 1) × (2 ^ 64 ≤ 8 + be_at 8 wrapping (8 + 8)))
read_atom_at-panic_iff_example =
    read_atom_at-panic_iff wrapping wrapping-IsByteString (omega arith) 8

modify_trun_offset_example :
    (be_at 4 (modify_trun 16 trun).payload 8 + 16) % 2 ^ 32 ≡ be_at 4 trun.payload 8 % 2 ^ 32
unfolding be_at from_be_bytes
modify_trun_offset_example = modify_trun_offset 16 trun (omega arith) refl
