-- ===== src/Drm/Moov.antt =====
-- The `moov` half of `Mp4Decrypter` (src/drm/cenc.rs): the walk down to the sample entries, which
-- loses its encryption boxes and fills the state that the media segments need.
use mediaflow_proxy_light.Base.{
  ℕ, zero, suc, ◌+◌, ◌/◌, ◌%◌, Bool, ◌&&◌, ◌||◌, List, [], ◌∷◌, ◌++◌, Option, none, some, ltb, leb,
  ◌==◌, if◌then◌else◌, length, take, drop, get_or, Bytes, be_at, insert, ℕ_eq, done, panic,
}
use mediaflow_proxy_light.Mp4.{
  Atom, new_atom, pack, Parser, new_parser, read_atom, list_atoms, children_of,
}
use mediaflow_proxy_light.Drm.Tags
use mediaflow_proxy_light.Drm.Sample.{from_bytes}
use mediaflow_proxy_light.Drm.Decrypter.{
  TrackSettings, Mp4Decrypter, Method, ◌>>=◌, ◌>>◌, pure, lift, extend_each, repack,
}

unfoldable pub parse_schm : Atom → Method (Unit {0})
parse_schm schm s =
    if leb 8 (length schm.payload)
    then done (tt, record s { encryption_scheme = from_bytes (be_at 4 schm.payload 4) })
    else done (tt, s)

-- The pattern of a `tenc` box of version 1 and later.
abbrev tenc_pattern : Bytes → TrackSettings × Mp4Decrypter → TrackSettings × Mp4Decrypter
tenc_pattern d (settings, s) =
    let pattern_byte = get_or d 5 0 in
    if ltb 0 (get_or d 0 0) && leb 6 (length d)
    then (
      record settings {
        crypt_byte_block = pattern_byte / 16 % 16;
        skip_byte_block = pattern_byte % 16;
      },
      record s { crypt_byte_block = pattern_byte / 16 % 16; skip_byte_block = pattern_byte % 16 },
    )
    else (settings, s)

abbrev tenc_kid : Bytes → Mp4Decrypter → Mp4Decrypter
tenc_kid d s =
    if leb 24 (length d) && ltb 0 s.current_track_id
    then record s {
      extracted_kids = insert s.current_track_id (take 16 (drop 8 d)) s.extracted_kids;
    }
    else s

abbrev tenc_constant_iv : Bytes → TrackSettings × Mp4Decrypter → TrackSettings × Mp4Decrypter
tenc_constant_iv d (settings, s) =
    let civ_size = get_or d 24 0 in
    let civ = take civ_size (drop 25 d) in
    if ltb 24 (length d) && (ltb 0 civ_size && leb (25 + civ_size) (length d))
    then (record settings { constant_iv = some civ }, record s { constant_iv = some civ })
    else (settings, s)

abbrev tenc_iv_size : Bytes → TrackSettings × Mp4Decrypter → TrackSettings × Mp4Decrypter
tenc_iv_size d (settings, s) =
    let iv_size = get_or d 7 0 in
    let chosen : ℕ = if ltb 0 iv_size then iv_size else 16 in
    let sized : TrackSettings × Mp4Decrypter =
      (record settings { iv_size = chosen }, record s { default_iv_size = chosen }) in
    if iv_size == 0
    then tenc_constant_iv d sized
    else if iv_size == 8 || iv_size == 16
    then sized
    else (settings, s)

abbrev store_settings : TrackSettings × Mp4Decrypter → Mp4Decrypter
store_settings (settings, s) =
    if ltb 0 s.current_track_id
    then record s {
      track_encryption_settings = insert s.current_track_id settings s.track_encryption_settings;
    }
    else s

unfoldable pub parse_tenc : Atom → Method (Unit {0})
parse_tenc tenc s =
    let d = tenc.payload in
    let defaults : TrackSettings = record {
      crypt_byte_block = 1;
      skip_byte_block = 9;
      constant_iv = none;
      iv_size = 8;
    } in
    let (settings, s') = tenc_pattern d (defaults, s) in
    if ltb (length d) 8
    then done (tt, s)
    else done (tt, store_settings (tenc_iv_size d (settings, tenc_kid d s')))

-- The inner loop of `extract_codec_format`, over the children of `schi`.
unfoldable pub parse_schi : List Atom → Method (Unit {0})
unfolding parse_tenc
parse_schi [] = pure tt
parse_schi (child ∷ rest) = do
  if child.atom_type == Tags.tenc then parse_tenc child else pure tt
  parse_schi rest

-- The arms of `extract_codec_format` other than `frma`.
unfoldable pub sinf_child : Atom → Method (Unit {0})
unfolding parse_schi parse_schm
sinf_child child =
    if child.atom_type == Tags.schm
    then parse_schm child
    else if child.atom_type == Tags.schi
    then lift (children_of child.payload) >>= parse_schi
    else pure tt

unfoldable pub codec_format_loop : List Atom → Option ℕ → Method (Option ℕ)
unfolding sinf_child
codec_format_loop [] codec_format = pure codec_format
codec_format_loop (child ∷ rest) codec_format =
    if child.atom_type == Tags.frma && leb 4 (length child.payload)
    then codec_format_loop rest (some (be_at 4 child.payload 0))
    else do sinf_child child; codec_format_loop rest codec_format

unfoldable pub extract_codec_format : Atom → Method (Option ℕ)
unfolding codec_format_loop
extract_codec_format sinf = do
  children ← lift (children_of sinf.payload)
  codec_format_loop children none

unfoldable pub fixed_size : ℕ → ℕ
fixed_size t =
    if t == Tags.mp4a || t == Tags.enca
    then 28
    else if t == Tags.mp4v || t == Tags.encv || t == Tags.avc1 || t == Tags.hev1 || t == Tags.hvc1
    then 78
    else 16

abbrev is_protection : ℕ → Bool
is_protection t = t == Tags.schi || t == Tags.tenc || t == Tags.schm

-- The loop of `process_sample_entry`: the bytes to keep, and the original format.
unfoldable pub sample_entry_loop : List Atom → Option ℕ → Method (Bytes × Option ℕ)
unfolding extract_codec_format
sample_entry_loop [] codec_format = pure ([], codec_format)
sample_entry_loop (child ∷ rest) codec_format =
    if child.atom_type == Tags.sinf
    then extract_codec_format child >>= sample_entry_loop rest
    else if is_protection child.atom_type
    then sample_entry_loop rest codec_format
    else sample_entry_loop rest codec_format >>= λ (r : Bytes × Option ℕ).
        pure (pack child ++ r.0, r.1)

unfoldable pub process_sample_entry : Atom → Method Atom
unfolding sample_entry_loop fixed_size
process_sample_entry entry =
    let fixed = fixed_size entry.atom_type in
    if ltb (length entry.payload) fixed then pure entry else do
      children ← lift (list_atoms (new_parser (drop fixed entry.payload)))
      r ← sample_entry_loop children none
      pure (
          new_atom (elim r.1 [ some t ↦ t | none ↦ entry.atom_type ])
            (take fixed entry.payload ++ r.0))

-- `for _ in 0..entry_count`; a failed read leaves the parser where it is.
unfoldable pub stsd_loop : ℕ → Parser → Method Bytes
unfolding process_sample_entry
stsd_loop zero p = pure []
stsd_loop (suc n) p = do
  r ← lift (read_atom p)
  x ← elim r.0 [ none ↦ pure [] | some entry ↦ repack process_sample_entry entry ]
  y ← stsd_loop n r.1
  pure (x ++ y)

unfoldable pub process_stsd : Atom → Method Atom
unfolding stsd_loop
process_stsd stsd = if ltb (length stsd.payload) 8 then pure stsd else do
  entries ← stsd_loop (be_at 4 stsd.payload 4) (new_parser (drop 8 stsd.payload))
  pure (new_atom Tags.stsd (take 8 stsd.payload ++ entries))

-- The common loop of `process_trak`, `process_mdia`, `process_minf` and `process_stbl`: the
-- children of the tag `inner` are processed, all others are copied.
unfoldable pub replace_children : ℕ → (Atom → Method Atom) → List Atom → Method Bytes
replace_children inner process =
    extend_each
      (λ child. if child.atom_type == inner then repack process child else pure (pack child))

unfoldable pub process_children : ℕ → (Atom → Method Atom) → Atom → Method Bytes
unfolding replace_children
process_children inner process atom = do
  children ← lift (children_of atom.payload)
  replace_children inner process children

unfoldable pub process_stbl : Atom → Method Atom
unfolding process_children process_stsd
process_stbl stbl = do d ← process_children Tags.stsd process_stsd stbl; pure (new_atom Tags.stbl d)

unfoldable pub process_minf : Atom → Method Atom
unfolding process_children process_stbl
process_minf minf = do d ← process_children Tags.stbl process_stbl minf; pure (new_atom Tags.minf d)

unfoldable pub process_mdia : Atom → Method Atom
unfolding process_children process_minf
process_mdia mdia = do d ← process_children Tags.minf process_minf mdia; pure (new_atom Tags.mdia d)

-- `child.data[0]` panics on an empty `tkhd`.
unfoldable pub parse_tkhd : Bytes → Method (Unit {0})
parse_tkhd [] s = panic
parse_tkhd (version ∷ rest) s =
    let id_offset : ℕ = if version == 0 then 12 else 20 in
    if leb (id_offset + 4) (length (version ∷ rest))
    then done (tt, record s { current_track_id = be_at 4 (version ∷ rest) id_offset })
    else done (tt, s)

-- The first pass of `process_trak`, which ends at the first `tkhd`.
unfoldable pub find_tkhd : List Atom → Method (Unit {0})
unfolding parse_tkhd
find_tkhd [] = pure tt
find_tkhd (child ∷ rest) =
    if child.atom_type == Tags.tkhd then parse_tkhd child.payload else find_tkhd rest

unfoldable pub process_trak : Atom → Method Atom
unfolding find_tkhd replace_children process_mdia
process_trak trak = do
  children ← lift (children_of trak.payload)
  find_tkhd children
  d ← replace_children Tags.mdia process_mdia children
  pure (new_atom Tags.trak d)

-- What `process_moov` writes for a child.
unfoldable pub moov_child : Atom → Method Bytes
unfolding process_trak
moov_child child =
    if child.atom_type == Tags.trak
    then repack process_trak child
    else if child.atom_type == Tags.pssh
    then pure []
    else pure (pack child)

unfoldable pub process_moov : Atom → Method Atom
unfolding moov_child
process_moov moov = do
  children ← lift (children_of moov.payload)
  d ← extend_each moov_child children
  pure (new_atom Tags.moov d)
