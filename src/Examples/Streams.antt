-- ===== src/Examples/Streams.antt =====
-- A stream in two cuts.
use mediaflow_proxy_light.Base.{◌≡◌, refl, true, false, List, [], ◌∷◌, Option, some, Bytes}
use mediaflow_proxy_light.Drm.Stream.{decrypt_segment_streaming}
use mediaflow_proxy_light.Drm.Stream.Sequence.{received, decrypt_segment_streaming_chunks}
use mediaflow_proxy_light.Examples.Ciphers.{toy}

abbrev plain_text : Bytes → Option Bytes
plain_text s = some s

-- A box of eleven bytes, cut in its header and in its body.
abbrev cut_three : List Bytes
cut_three = (0 ∷ 0 ∷ 0 ∷ []) ∷ (11 ∷ 102 ∷ 114 ∷ 101 ∷ 101 ∷ 7 ∷ []) ∷ (8 ∷ 9 ∷ []) ∷ []

abbrev cut_two : List Bytes
cut_two = (0 ∷ 0 ∷ 0 ∷ 11 ∷ 102 ∷ 114 ∷ 101 ∷ 101 ∷ []) ∷ (7 ∷ 8 ∷ 9 ∷ []) ∷ []

decrypt_segment_streaming_chunks_example :
    received (decrypt_segment_streaming toy plain_text [] cut_three true (1 ∷ []) (2 ∷ []) false)
    ≡ received (decrypt_segment_streaming toy plain_text [] cut_two true (1 ∷ []) (2 ∷ []) false)
decrypt_segment_streaming_chunks_example =
    decrypt_segment_streaming_chunks toy plain_text [] (1 ∷ []) (2 ∷ []) false true (0 ∷ 0 ∷ 0 ∷ [])
      (0 ∷ 0 ∷ 0 ∷ 11 ∷ 102 ∷ 114 ∷ 101 ∷ 101 ∷ [])
      ((11 ∷ 102 ∷ 114 ∷ 101 ∷ 101 ∷ 7 ∷ []) ∷ (8 ∷ 9 ∷ []) ∷ []) ((7 ∷ 8 ∷ 9 ∷ []) ∷ []) refl
