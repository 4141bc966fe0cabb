-- ===== src/Drm/Mdat.antt =====
-- The `mdat` part of `Mp4Decrypter` (src/drm/cenc.rs): samples are cut out of the media data and
-- decrypted one after another.
pub mod Order
pub mod Tracks
use mediaflow_proxy_light.Base.{
  ℕ, zero, suc, ◌+◌, ◌-◌, ◌%◌, ◌^◌, min, Bool, true, false, List, [], ◌∷◌, ◌++◌, Option, none, some,
  ltb, not, leb, ◌==◌, if◌then◌else◌, length, take, drop, get_or, is_empty, Bytes, slice, Outcome,
  done, ◌>>=◌,
}
use mediaflow_proxy_light.Mp4.{Atom, new_atom}
use mediaflow_proxy_light.Drm.Cipher.{Ciphers}
use mediaflow_proxy_light.Drm.Tags
use mediaflow_proxy_light.Drm.Sample.{SampleInfo, EncScheme, decrypt_sample}
use mediaflow_proxy_light.Drm.Decrypter.{TrackInfo, Mp4Decrypter}
use mediaflow_proxy_light.Drm.Keys.{get_current_key}

-- `t.data_offset` as a key that sorts the `i32`s by value.
abbrev pub offset_key : TrackInfo → ℕ
offset_key t = (t.data_offset + 2 ^ 31) % 2 ^ 32

unfoldable pub insert_track : TrackInfo → List TrackInfo → List TrackInfo
insert_track t [] = t ∷ []
insert_track t (u ∷ rest) =
    let later = u ∷ insert_track t rest in
    if leb (offset_key t) (offset_key u) then t ∷ u ∷ rest else later

-- `sort_by_key(|t| t.data_offset)`, which is stable.
unfoldable pub sort_tracks : List TrackInfo → List TrackInfo
unfolding insert_track
sort_tracks [] = []
sort_tracks (t ∷ rest) = insert_track t (sort_tracks rest)

-- `(track.data_offset - first_data_offset).max(0) as usize`, with the wrap-around of a release build.
unfoldable pub mdat_start : ℕ → ℕ → ℕ
mdat_start data_offset first =
    let difference = (data_offset + 2 ^ 32 - first) % 2 ^ 32 in
    if ltb difference (2 ^ 31) then difference else 0

-- `decrypted[pos..pos + n].copy_from_slice(&dec[..n])` with `n = dec.len().min(size)`.
unfoldable pub overwrite : Bytes → ℕ → ℕ → Bytes → Bytes
overwrite decrypted pos size dec =
    let n = min (length dec) size in take pos decrypted ++ (take n dec ++ drop (pos + n) decrypted)

module _ (c : Ciphers) where
  -- The single-track fallback: `i` counts the samples, and the output is gathered in order.
  unfoldable pub single_track_loop :
      Mp4Decrypter → Bytes → Bytes → List SampleInfo → ℕ → ℕ → Outcome Bytes
  single_track_loop s key d [] i pos = done []
  single_track_loop s key d (info ∷ rest) i pos =
      let stated = get_or s.trun_sample_sizes i 0 in
      let size : ℕ =
        if stated == 0
        then (if ltb 0 s.default_sample_size then s.default_sample_size else length d - pos)
        else stated in
      let run = slice d pos (pos + min size (length d - pos)) >>= λ sample.
      decrypt_sample c sample info key s.encryption_scheme s.crypt_byte_block s.skip_byte_block
        s.constant_iv
      >>= λ dec.
          single_track_loop s key d rest (i + 1) (pos + size) >>= λ more. done (dec ++ more) in
      if leb (length d) pos then done [] else run

  -- The loop over the samples of one track; `decrypted` is the copy of the media data.
  unfoldable pub track_loop :
      TrackInfo → EncScheme → Bytes → Bytes → List SampleInfo → ℕ → ℕ → Bytes → Outcome Bytes
  unfolding overwrite
  track_loop t scheme key d [] i pos decrypted = done decrypted
  track_loop t scheme key d (info ∷ rest) i pos decrypted =
      let stated = get_or t.sample_sizes i 0 in
      let size : ℕ = if stated == 0 then t.default_sample_size else stated in
      let skip = track_loop t scheme key d rest (i + 1) pos decrypted in
      let run = slice d pos (pos + size) >>= λ sample.
      decrypt_sample c sample info key scheme t.crypt_byte_block t.skip_byte_block t.constant_iv
      >>= λ dec.
          track_loop t scheme key d rest (i + 1) (pos + size) (overwrite decrypted pos size dec) in
      if size == 0 then skip else if ltb (length d) (pos + size) then done decrypted else run

  -- One round of the loop over the tracks: no key, or no samples, leaves the data as it is.
  unfoldable pub decrypt_track : EncScheme → Bytes → ℕ → TrackInfo → Bytes → Outcome Bytes
  unfolding track_loop mdat_start
  decrypt_track scheme d first t decrypted = elim t.key [
    | none ↦ done decrypted
    | some key ↦
        track_loop t scheme key d t.sample_info 0 (mdat_start t.data_offset first) decrypted
  ]

  unfoldable pub tracks_loop : EncScheme → Bytes → ℕ → List TrackInfo → Bytes → Outcome Bytes
  unfolding decrypt_track
  tracks_loop scheme d first [] decrypted = done decrypted
  tracks_loop scheme d first (t ∷ rest) decrypted =
      decrypt_track scheme d first t decrypted >>= tracks_loop scheme d first rest

  abbrev pub first_offset : List TrackInfo → ℕ
  first_offset [] = 0
  first_offset (t ∷ rest) = t.data_offset

  unfoldable pub decrypt_mdat_multi_track : Mp4Decrypter → Atom → Outcome Atom
  unfolding tracks_loop sort_tracks
  decrypt_mdat_multi_track s mdat =
      let sorted_tracks = sort_tracks s.track_infos in
      if is_empty s.track_infos
      then done mdat
      else tracks_loop s.encryption_scheme mdat.payload (first_offset sorted_tracks) sorted_tracks
          mdat.payload
        >>= λ decrypted. done (new_atom Tags.mdat decrypted)

  unfoldable pub decrypt_mdat_single : Mp4Decrypter → Bytes → Atom → Outcome Atom
  unfolding single_track_loop
  decrypt_mdat_single s key mdat =
      if is_empty s.current_sample_info
      then done mdat
      else single_track_loop s key mdat.payload s.current_sample_info 0 0 >>= λ decrypted.
          done (new_atom Tags.mdat decrypted)

  unfoldable pub decrypt_mdat : Mp4Decrypter → Atom → Outcome Atom
  unfolding decrypt_mdat_multi_track decrypt_mdat_single get_current_key
  decrypt_mdat s mdat =
      if not (is_empty s.track_infos)
      then decrypt_mdat_multi_track s mdat
      else elim (get_current_key s.key_map) [
        | none ↦ done mdat
        | some key ↦ decrypt_mdat_single s key mdat
      ]
