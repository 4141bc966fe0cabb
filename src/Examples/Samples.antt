-- ===== src/Examples/Samples.antt =====
-- Samples, keys and media data.
use mediaflow_proxy_light.Base.{
  map, Option, List, ◌++◌, sym, append_assoc, false, inl, inr, ◌+◌, ◌*◌, ◌≡◌, refl, true, [], ◌∷◌,
  none, some, get_elem?, length, replicate, Bytes, insert, lookup, bytes_eq, ℕ_eq, done, arith,
}
use mathlib.Core.List.{append-nil}
use mediaflow_proxy_light.Mp4.{new_atom}
use mediaflow_proxy_light.Drm.Tags
use mediaflow_proxy_light.Drm.Sample.{
  SampleInfo, cenc, cbcs, decrypt_sample_cenc, decrypt_cbcs_pattern, decrypt_sample,
}
use mediaflow_proxy_light.Drm.Sample.Keystream.{
  weave, keystream, vector, protected_bytes, decrypt_sample_cenc-weave,
}
use mediaflow_proxy_light.Drm.Sample.Pattern.{decrypt_cbcs_pattern_skips}
use mediaflow_proxy_light.Drm.Sample.Total.{Total, decrypt_sample-Total}
use mediaflow_proxy_light.Drm.Decrypter.{TrackInfo, Mp4Decrypter, new_decrypter}
use mediaflow_proxy_light.Drm.Keys.{get_key_for_track, build_key_map_from_hex}
use mediaflow_proxy_light.Drm.Keys.HexItems.{Piece, text, join}
use mediaflow_proxy_light.Drm.Keys.HexPairs.{Pair, build_key_map_from_hex-last_key}
use mediaflow_proxy_light.Drm.Keys.Lookup.{get_key_for_track-swap_guid}
use mediaflow_proxy_light.Drm.Mdat.{decrypt_mdat_multi_track}
use mediaflow_proxy_light.Drm.Mdat.Tracks.{decrypt_mdat_multi_track-Laid}
use mediaflow_proxy_light.Examples.Ciphers.{toy, toy-KeepsLength, toy-CounterMode}

abbrev key : Bytes
key = replicate 16 1

abbrev upper : Bytes
upper = replicate 8 9

abbrev iv : Bytes
iv = vector toy key upper 5 toy-KeepsLength refl refl (toy-CounterMode key)

-- Two clear bytes and a block, one clear byte and a block, and three bytes behind.
abbrev sample : Bytes
sample = replicate 38 7

abbrev info : SampleInfo
info = record { is_encrypted = true; iv = iv; sub_samples = (2, 16) ∷ (1, 16) ∷ [] }

decrypt_sample_cenc-weave_example :
    decrypt_sample_cenc toy sample info key
    ≡ done (
        weave sample info.sub_samples 0 (
          keystream toy key upper 5 toy-KeepsLength refl refl
            (toy-CounterMode key)
            0
            (protected_bytes sample info.sub_samples 0)))
decrypt_sample_cenc-weave_example =
    decrypt_sample_cenc-weave toy key upper 5 toy-KeepsLength refl refl (toy-CounterMode key) sample
      info refl (refl, (refl, tt)) (omega arith) (omega arith)

-- The second sub-sample begins behind the sample.
abbrev overrunning : SampleInfo
overrunning = record { is_encrypted = true; iv = upper; sub_samples = (2, 36) ∷ (1, 0) ∷ [] }

decrypt_sample-Total_example :
    Total sample overrunning.sub_samples (decrypt_sample toy sample overrunning key cbcs 1 9 none)
decrypt_sample-Total_example =
    decrypt_sample-Total toy toy-KeepsLength sample overrunning key cbcs 1 9 none refl

abbrev media : Bytes
media = replicate 100 7

-- The second byte of the second block of the second period, where one block in three is encrypted.
decrypt_cbcs_pattern_skips_example :
    (out : Bytes) × (decrypt_cbcs_pattern toy media key upper 1 2 ≡ done out)
    × (length out ≡ length media)
    × (get_elem? out (1 * (1 * 16 + 2 * 16) + 17) ≡ get_elem? media (1 * (1 * 16 + 2 * 16) + 17))
decrypt_cbcs_pattern_skips_example =
    decrypt_cbcs_pattern_skips toy toy-KeepsLength media key upper 1 2 1 17 (omega arith)
      (omega arith)

abbrev kid : Bytes
kid = 1 ∷ 2 ∷ 3 ∷ 4 ∷ 5 ∷ 6 ∷ 7 ∷ 8 ∷ replicate 8 9

abbrev stated_kid : Bytes
stated_kid = 4 ∷ 3 ∷ 2 ∷ 1 ∷ 6 ∷ 5 ∷ 8 ∷ 7 ∷ replicate 8 9

abbrev two_keys : Mp4Decrypter
two_keys = record (new_decrypter (insert kid key ((replicate 16 2, replicate 16 3) ∷ []))) {
  extracted_kids = (1, stated_kid) ∷ [];
}

get_key_for_track-swap_guid_example : get_key_for_track two_keys 1 ≡ some key
unfolding lookup insert
get_key_for_track-swap_guid_example =
    get_key_for_track-swap_guid two_keys 1 1 2 3 4 5 6 7 8 (replicate 8 9) key
      ((replicate 16 2, replicate 16 3) ∷ []) refl refl refl refl refl

-- What the sample decrypts to.
abbrev woven : Bytes
woven = weave sample info.sub_samples 0 (
    keystream toy key upper 5 toy-KeepsLength refl refl (toy-CounterMode key) 0
      (protected_bytes sample info.sub_samples 0))

-- A clear sample.
abbrev clear : SampleInfo
clear = record info { is_encrypted = false }

abbrev track : TrackInfo
track = record {
  data_offset = 100;
  sample_sizes = 38 ∷ [];
  sample_info = info ∷ clear ∷ [];
  key = some key;
  default_sample_size = 3;
  crypt_byte_block = 1;
  skip_byte_block = 9;
  constant_iv = none;
}

-- Behind it a track without a key, and one whose clear sample would end behind the media data.
abbrev keyless : TrackInfo
keyless = record track { data_offset = 146; key = none }

abbrev behind : TrackInfo
behind = record track { data_offset = 155 }

abbrev three_tracks : Mp4Decrypter
three_tracks = record (new_decrypter []) {
  track_infos = behind ∷ track ∷ keyless ∷ [];
  encryption_scheme = cenc;
}

abbrev clear_bytes : Bytes
clear_bytes = replicate 3 9

abbrev rest_from : Bytes → Bytes
rest_from one = replicate 5 4 ++ (replicate 4 5 ++ (replicate 5 8 ++ (one ++ (6 ∷ []))))

abbrev tracks_from : Bytes → Bytes
tracks_from one = one ++ (clear_bytes ++ rest_from one)

decrypt_mdat_multi_track-Laid_example :
    decrypt_mdat_multi_track toy three_tracks (new_atom Tags.mdat (tracks_from sample))
    ≡ done (new_atom Tags.mdat (tracks_from woven))
unfolding decrypt_sample
decrypt_mdat_multi_track-Laid_example =
    let cut =
      decrypt_sample_cenc-weave toy key upper 5 toy-KeepsLength refl refl (toy-CounterMode key)
        sample info refl (refl, (refl, tt)) (omega arith) (omega arith) in
    decrypt_mdat_multi_track-Laid toy toy-KeepsLength three_tracks
      (new_atom Tags.mdat (tracks_from sample)) track (keyless ∷ behind ∷ []) (tracks_from woven)
      (track ∷ keyless ∷ [], [], refl, ([], keyless ∷ [], refl, ([], [], refl, refl)))
      (omega arith, omega arith, (omega arith, omega arith, (omega arith, omega arith, tt)))
      (
        [],
        sample ++ clear_bytes,
        woven ++ clear_bytes,
        rest_from sample,
        rest_from woven,
        sym (append_assoc sample clear_bytes (rest_from sample)),
        sym (append_assoc woven clear_bytes (rest_from woven)),
        refl,
        inr (
          key,
          refl,
          inr (
              inr (
                sample,
                woven,
                clear_bytes,
                clear_bytes,
                refl,
                refl,
                omega arith,
                inl refl,
                cut,
                inr (
                    inr (
                      clear_bytes,
                      clear_bytes,
                      [],
                      [],
                      refl,
                      refl,
                      omega arith,
                      inr (refl, refl),
                      refl,
                      (refl, refl),
                    )),
              )),
        ),
        (
          replicate 5 4,
          replicate 4 5,
          replicate 4 5,
          replicate 5 8 ++ (sample ++ (6 ∷ [])),
          replicate 5 8 ++ (woven ++ (6 ∷ [])),
          refl,
          refl,
          refl,
          inl (refl, refl),
          (
            replicate 5 8,
            sample,
            woven,
            6 ∷ [],
            6 ∷ [],
            refl,
            refl,
            refl,
            inr (
              key,
              refl,
              inr (
                  inr (
                    sample,
                    woven,
                    [],
                    [],
                    refl,
                    sym (append-nil woven),
                    omega arith,
                    inl refl,
                    cut,
                    inr (inl (3, inr (refl, refl), omega arith, refl, refl)),
                  )),
            ),
            refl,
          ),
        ),
      )

-- A decoder that takes the digits for the bytes.
abbrev plain : Bytes → Option Bytes
plain s = some s

abbrev piece : Bytes → Bytes → Piece
piece before item = record { before = before; item = item; after = b' ' ∷ [] }

-- The ids `01`, ` a-b` and `01`, each with a blank behind it.
abbrev pairs : List Pair
pairs =
    record {
      id_piece = piece [] (b'0' ∷ b'1' ∷ []);
      key_piece = piece [] (b'5' ∷ []);
      id = b'0' ∷ b'1' ∷ [];
      key = b'5' ∷ [];
    }
    ∷ record {
      id_piece = piece (b' ' ∷ []) (b'a' ∷ b'-' ∷ b'b' ∷ []);
      key_piece = piece [] (b'6' ∷ []);
      id = b'a' ∷ b'b' ∷ [];
      key = b'6' ∷ [];
    }
    ∷ record {
      id_piece = piece [] (b'0' ∷ b'1' ∷ []);
      key_piece = piece [] (b'7' ∷ []);
      id = b'0' ∷ b'1' ∷ [];
      key = b'7' ∷ [];
    }
    ∷ []

build_key_map_from_hex-last_key_example :
    lookup (b'0' ∷ b'1' ∷ []) (
      build_key_map_from_hex plain
        (join (map text (map (λ p. p.id_piece) pairs)))
        (join (map text (map (λ p. p.key_piece) pairs))))
    ≡ some (b'7' ∷ [])
build_key_map_from_hex-last_key_example =
    build_key_map_from_hex-last_key plain pairs (b'0' ∷ b'1' ∷ []) (
      (refl, (refl, refl, (refl, refl, tt)), refl, refl),
      (refl, (refl, refl, tt), refl, refl),
      refl,
      refl,
      (
        (refl, (refl, refl, (refl, refl, (refl, refl, tt))), refl, refl),
        (refl, (refl, refl, tt), refl, refl),
        refl,
        refl,
        (
          (refl, (refl, refl, (refl, refl, tt)), refl, refl),
          (refl, (refl, refl, tt), refl, refl),
          refl,
          refl,
          tt,
        ),
      ),
    )
