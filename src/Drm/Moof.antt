-- ===== src/Drm/Moof.antt =====
-- The `moof` half of `Mp4Decrypter` (src/drm/cenc.rs): the boxes of a movie fragment, less those of
-- the encryption, with their offsets moved, and the description of the samples for `mdat`.
pub mod Strip
pub mod Offsets
pub mod Shift
use mediaflow_proxy_light.Base.{
  ℕ, zero, suc, ◌+◌, ◌-◌, ◌*◌, ◌/◌, ◌%◌, ◌^◌, Bool, true, false, not, ◌&&◌, ◌||◌, List, [], ◌∷◌,
  ◌++◌, Option, none, some, ltb, leb, ◌==◌, if◌then◌else◌, length, take, drop, Bytes, to_be_bytes,
  be_at, lookup, ℕ_eq, replicate, Outcome, done, ◌>>=◌ as outcome_bind,
}
use mathlib.Core.Option.{get_or}
use mediaflow_proxy_light.Mp4.{Atom, new_atom, pack, children_of}
use mediaflow_proxy_light.Drm.Tags
use mediaflow_proxy_light.Drm.Sample.{SampleInfo, EncScheme, cenc, cens, cbc1, cbcs}
use mediaflow_proxy_light.Drm.Decrypter.{
  TrackInfo, TrackSettings, Mp4Decrypter, Method, ◌>>=◌, ◌>>◌, pure, lift, modify, get, has_flag,
  put_be_32, extend_each, repack,
}
use mediaflow_proxy_light.Drm.Keys.{get_key_for_track}

-- `senc | saiz | saio`
abbrev pub is_encryption_box : Atom → Bool
is_encryption_box a =
    a.atom_type == Tags.senc || a.atom_type == Tags.saiz || a.atom_type == Tags.saio

-- The wire sizes of the boxes to strip from one track fragment.
unfoldable pub boxes_overhead : List Atom → ℕ
boxes_overhead [] = 0
boxes_overhead (a ∷ rest) =
    (if is_encryption_box a then length a.payload + 8 else 0) + boxes_overhead rest

-- The first pass of `process_moof`.
unfoldable pub total_overhead : List Atom → Outcome ℕ
unfolding boxes_overhead
total_overhead [] = done 0
total_overhead (child ∷ rest) =
    if child.atom_type == Tags.traf
    then outcome_bind (children_of child.payload)
        (λ boxes. outcome_bind (total_overhead rest) (λ n. done (boxes_overhead boxes + n)))
    else total_overhead rest

-- The offset of `default_sample_size` in a `tfhd` with these flags.
abbrev pub tfhd_offset : ℕ → ℕ
tfhd_offset flags =
    8
    + (if has_flag flags 0 then 8 else 0)
    + (if has_flag flags 1 then 4 else 0)
    + (if has_flag flags 3 then 4 else 0)

unfoldable pub parse_tfhd : Atom → Method (Unit {0})
parse_tfhd tfhd s =
    let d = tfhd.payload in
    let flags = be_at 4 d 0 % 2 ^ 24 in
    let offset = tfhd_offset flags in
    if ltb (length d) 8
    then done (tt, s)
    else if has_flag flags 4 && leb (offset + 4) (length d)
    then done (tt, record s { default_sample_size = be_at 4 d offset })
    else done (tt, s)

-- `for _ in 0..ss_count`: the entries, and the position behind them. An entry that does not fit is
-- passed over.
unfoldable pub senc_sub_samples : Bytes → ℕ → ℕ → List (ℕ × ℕ) × ℕ
senc_sub_samples d zero pos = ([], pos)
senc_sub_samples d (suc n) pos =
    let fits = leb (pos + 6) (length d) in
    let rest = senc_sub_samples d n (if fits then pos + 6 else pos) in
    (if fits then (be_at 2 d pos, be_at 4 d (pos + 2)) ∷ rest.0 else rest.0, rest.1)

abbrev encrypted_sample : Bytes → List (ℕ × ℕ) → SampleInfo
encrypted_sample iv sub_samples = record { is_encrypted = true; iv = iv; sub_samples = sub_samples }

-- What follows the vector of a sample: its sub-samples, where the box has them.
abbrev sample_sub_samples : Bytes → ℕ → ℕ → List (ℕ × ℕ) × ℕ
sample_sub_samples d flags pos =
    if has_flag flags 1 && leb (pos + 2) (length d)
    then senc_sub_samples d (be_at 2 d pos) (pos + 2)
    else ([], pos)

-- `for _ in 0..sc`; `shared` is the constant vector of a `cbcs` track, else each sample has its own.
unfoldable pub senc_samples : Bytes → ℕ → Option Bytes → ℕ → ℕ → ℕ → List SampleInfo
unfolding senc_sub_samples
senc_samples d flags shared iv_size zero pos = []
senc_samples d flags (some iv) iv_size (suc n) pos =
    let r = sample_sub_samples d flags pos in
    encrypted_sample iv r.0 ∷ senc_samples d flags (some iv) iv_size n r.1
senc_samples d flags none iv_size (suc n) pos =
    let r = sample_sub_samples d flags (pos + iv_size) in
    let rest =
      encrypted_sample (take iv_size (drop pos d)) r.0 ∷ senc_samples d flags none iv_size n r.1 in
    if ltb (length d) (pos + iv_size) then [] else rest

abbrev is_cbcs : EncScheme → Bool
is_cbcs cbcs = true
is_cbcs _ = false

unfoldable pub parse_senc : Mp4Decrypter → Atom → List SampleInfo
unfolding senc_samples
parse_senc s senc =
    let d = senc.payload in
    let flags = be_at 4 d 0 % 2 ^ 24 in
    let shared = if is_cbcs s.encryption_scheme then s.constant_iv else none in
    if ltb (length d) 8 then [] else senc_samples d flags shared s.default_iv_size (be_at 4 d 4) 8

-- One round of the sample loop of `process_trun`: the size, and the next position.
abbrev trun_sample : Bytes → ℕ → ℕ → ℕ × ℕ
trun_sample d flags pos =
    let at_size = if has_flag flags 8 then pos + 4 else pos in
    let size = if has_flag flags 9 && leb (at_size + 4) (length d) then be_at 4 d at_size else 0 in
    (
      size,
      at_size
          + (if has_flag flags 9 then 4 else 0)
          + (if has_flag flags 10 then 4 else 0)
          + (if has_flag flags 11 then 4 else 0),
    )

unfoldable pub trun_sizes : Bytes → ℕ → ℕ → ℕ → List ℕ
trun_sizes d flags zero pos = []
trun_sizes d flags (suc n) pos = let r = trun_sample d flags pos in r.0 ∷ trun_sizes d flags n r.1

-- It returns the sample count and the data offset.
unfoldable pub process_trun : Atom → Method (ℕ × ℕ)
unfolding trun_sizes
process_trun trun s =
    let d = trun.payload in
    let flags = be_at 4 d 0 in
    let sample_count = be_at 4 d 4 in
    let data_offset = if has_flag flags 0 && leb 12 (length d) then be_at 4 d 8 else 0 in
    let first = 8 + (if has_flag flags 0 then 4 else 0) + (if has_flag flags 2 then 4 else 0) in
    if ltb (length d) 8
    then done ((0, 0), s)
    else done (
      (sample_count, data_offset),
      record s { trun_sample_sizes = trun_sizes d flags sample_count first },
    )

-- `current - overhead as i32`, with the wrap-around of a release build.
unfoldable pub modify_trun : ℕ → Atom → Atom
modify_trun total_encryption_overhead trun =
    let d = trun.payload in
    let flags = be_at 4 d 0 % 2 ^ 24 in
    let new_offset = (be_at 4 d 8 + 2 ^ 32 - total_encryption_overhead % 2 ^ 32) % 2 ^ 32 in
    if ltb (length d) 12
    then trun
    else new_atom Tags.trun (if has_flag flags 0 then put_be_32 d 8 new_offset else d)

-- The reference type is the top bit, and the size, which stops at 0, the other 31.
unfoldable pub process_sidx : Mp4Decrypter → Atom → Atom
process_sidx s sidx =
    let d = sidx.payload in
    let current = be_at 4 d 32 in
    let referenced_size = current % 2 ^ 31 - s.total_encryption_overhead % 2 ^ 32 in
    new_atom Tags.sidx (
      if leb 36 (length d) then put_be_32 d 32 (current / 2 ^ 31 * 2 ^ 31 + referenced_size) else d)

-- The local variables of `process_traf`.
pub record Traf : Type 0 where
  pub tfhd_track_id : ℕ
  pub has_tfhd : Bool
  pub sample_count : ℕ
  pub trun_data_offset : ℕ
  pub sample_info : List SampleInfo
  pub track_default_sample_size : ℕ

abbrev pub new_traf : Traf
new_traf = record {
  tfhd_track_id = 0;
  has_tfhd = false;
  sample_count = 0;
  trun_data_offset = 0;
  sample_info = [];
  track_default_sample_size = 0;
}

-- The `tfhd` arm, behind `parse_tfhd`.
abbrev pub read_tfhd : Atom → Traf → Mp4Decrypter → Traf
read_tfhd child t s = record t {
  has_tfhd = true;
  track_default_sample_size = s.default_sample_size;
  tfhd_track_id = if leb 8 (length child.payload) then be_at 4 child.payload 4 else t.tfhd_track_id;
}

-- The arms of the `match` in `process_traf`: what is written for a child, and the variables after it.
unfoldable pub traf_child : Atom → Traf → Method (Bytes × Traf)
traf_child child t =
    if child.atom_type == Tags.tfhd
    then (parse_tfhd child >>= λ _. get >>= λ s. pure (pack child, read_tfhd child t s))
    else if child.atom_type == Tags.trun
    then (process_trun child >>= λ (r : ℕ × ℕ). get >>= λ s. pure (
      pack (modify_trun s.total_encryption_overhead child),
      record t { sample_count = r.0; trun_data_offset = r.1 },
    ))
    else if child.atom_type == Tags.senc
    then (get >>= λ s. pure ([], record t { sample_info = parse_senc s child }))
    else if child.atom_type == Tags.saiz || child.atom_type == Tags.saio
    then pure ([], t)
    else pure (pack child, t)

unfoldable pub traf_loop : List Atom → Traf → Method (Bytes × Traf)
traf_loop [] t = pure ([], t)
traf_loop (child ∷ rest) t = traf_child child t >>= λ (x : Bytes × Traf).
    traf_loop rest x.1 >>= λ (y : Bytes × Traf). pure (x.0 ++ y.0, y.1)

-- The pattern and the constant vector of the track, or those of the decrypter.
abbrev pub track_info : Mp4Decrypter → Traf → TrackInfo
track_info s t =
    let fallback : TrackSettings = record {
      crypt_byte_block = s.crypt_byte_block;
      skip_byte_block = s.skip_byte_block;
      constant_iv = s.constant_iv;
      iv_size = 0;
    } in
    let settings = get_or (lookup t.tfhd_track_id s.track_encryption_settings) fallback in
    record {
      data_offset = t.trun_data_offset;
      sample_sizes = s.trun_sample_sizes;
      sample_info = t.sample_info;
      key = get_key_for_track s t.tfhd_track_id;
      default_sample_size = t.track_default_sample_size;
      crypt_byte_block = settings.crypt_byte_block;
      skip_byte_block = settings.skip_byte_block;
      constant_iv = settings.constant_iv;
    }

-- The minimal `tfhd` for a fragment that has none.
abbrev pub synthesized_tfhd : Mp4Decrypter → Atom
synthesized_tfhd s = new_atom Tags.tfhd (replicate 4 0 ++ to_be_bytes 4 s.current_track_id)

unfoldable pub with_tfhd : Mp4Decrypter → Traf → Bytes → Bytes
with_tfhd s t new_data =
    if not t.has_tfhd && ltb 0 s.current_track_id
    then pack (synthesized_tfhd s) ++ new_data
    else new_data

unfoldable pub process_traf : Atom → Method Atom
process_traf traf = do
  children ← lift (children_of traf.payload)
  r ← traf_loop children new_traf
  modify (λ s. record s {
    track_infos = s.track_infos ++ track_info s r.1 ∷ [];
    current_sample_info = r.1.sample_info;
  })
  s ← get
  pure (new_atom Tags.traf (with_tfhd s r.1 r.0))

unfoldable pub moof_child : Atom → Method Bytes
moof_child child =
    if child.atom_type == Tags.traf then repack process_traf child else pure (pack child)

unfoldable pub process_moof : Atom → Method Atom
process_moof moof = do
  children ← lift (children_of moof.payload)
  modify (λ s. record s { track_infos = [] })
  overhead ← lift (total_overhead children)
  modify (λ s. record s { total_encryption_overhead = overhead })
  d ← extend_each moof_child children
  pure (new_atom Tags.moof d)
