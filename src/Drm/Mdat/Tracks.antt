-- ===== src/Drm/Mdat/Tracks.antt =====
-- Which bytes of the media data are decrypted, and with what.
use mediaflow_proxy_light.Base.{
  ℕ, suc, ◌+◌, ◌-◌, ◌^◌, ◌%◌, ◌≤◌, ◌<◌, ◌≡◌, refl, sym, ap, ◌∙◌, min, false, List, [], ◌∷◌, ◌++◌,
  append_assoc, Option, none, some, ◌⊎◌, inl, inr, length, length-append, take, drop, take_all,
  take_prefix_of, drop_prefix_of, get_or, is_empty, Bytes, slice, slice_in_range, Bool-cases, done,
  arith,
}
use mediaflow_proxy_light.Mp4.{Atom, new_atom}
use mediaflow_proxy_light.Drm.Cipher.{Ciphers, KeepsLength}
use mediaflow_proxy_light.Drm.Tags
use mediaflow_proxy_light.Drm.Sample.{SampleInfo, EncScheme, decrypt_sample}
use mediaflow_proxy_light.Drm.Sample.Total.{decrypt_sample-Total}
use mediaflow_proxy_light.Drm.Decrypter.{TrackInfo, Mp4Decrypter}
use mediaflow_proxy_light.Drm.Mdat.{
  overwrite, mdat_start, track_loop, decrypt_track, tracks_loop, decrypt_mdat_multi_track,
}
use mediaflow_proxy_light.Drm.Mdat.Order.{Ascending, Shuffled, sort_tracks-Ascending}

-- The size of a sample: the stated one, or the default where that is missing or zero.
abbrev pub HasSize : TrackInfo → ℕ → ℕ → Type 0
HasSize t i n =
    (get_or t.sample_sizes i 0 ≡ n)
    ⊎ ((get_or t.sample_sizes i 0 ≡ 0) × (t.default_sample_size ≡ n))

slice-part :
    (pre part post : Bytes)
    → slice (pre ++ (part ++ post)) (length pre) (length pre + length part) ≡ done part
slice-part pre part post =
    let n = length pre in
    let d = pre ++ (part ++ post) in
    slice_in_range d n (n + length part) (omega arith)
      (omega (arith, length-append pre (part ++ post), length-append part post))
    ∙ ap (λ k. done (take k (drop n d))) (omega arith)
    ∙ ap (λ s. done (take (length part) s)) (drop_prefix_of n pre (part ++ post) refl)
    ∙ ap done (take_prefix_of (length part) part post refl)

overwrite-part :
    (pre part post dec : Bytes)
    → length dec ≡ length part
    → overwrite (pre ++ (part ++ post)) (length pre) (length part) dec ≡ pre ++ (dec ++ post)
unfolding overwrite
overwrite-part pre part post dec same =
    let n = length pre in
    let d = pre ++ (part ++ post) in
    let k = min (length dec) (length part) in
    let whole : take k dec ≡ dec = take_all k dec (omega (arith, same)) in
    let tail : drop (n + k) d ≡ post =
      ap (λ s. drop (n + k) s) (sym (append_assoc pre part post))
      ∙ drop_prefix_of (n + k) (pre ++ part) post (omega (arith, length-append pre part, same)) in
    rw (take_prefix_of n pre (part ++ post) refl, whole, tail) refl

done-inj : {a b : Bytes} → done a ≡ done b → a ≡ b
done-inj e = cc

not_empty :
    (us : List TrackInfo) (t : TrackInfo) (ts : List TrackInfo)
    → Shuffled us (t ∷ ts)
    → is_empty us ≡ false
not_empty [] t ts h = cc
not_empty (u ∷ us) t ts h = refl

module _ (c : Ciphers) (k : KeepsLength c) where
  length-decrypted :
      (sample : Bytes) (info : SampleInfo) (key : Bytes) (scheme : EncScheme) (crypt skip : ℕ)
      (constant_iv : Option Bytes) (dec : Bytes)
      → decrypt_sample c sample info key scheme crypt skip constant_iv ≡ done dec
      → length dec ≡ length sample
  unfolding decrypt_sample
  length-decrypted sample info key scheme crypt skip constant_iv dec e =
      elim (Bool-cases info.is_encrypted) [
        | inl on ↦
            elim (decrypt_sample-Total c k sample info key scheme crypt skip constant_iv on).1 [
              | inl stops ↦ cc
              | inr (out, returns, l) ↦ ap length (done-inj (sym e ∙ returns)) ∙ l
            ]
        | inr off ↦
            let plain : decrypt_sample c sample info key scheme crypt skip constant_iv
                ≡ done sample =
              rw off refl in
            ap length (done-inj (sym e ∙ plain))
      ]

  -- Bytes that are the samples of a track from a number on, one after another, and the bytes that
  -- these decrypt to, where `behind` bytes of the media data follow. A sample without a size is
  -- passed over, and one that would end behind the media data ends the track.
  abbrev pub Samples :
      TrackInfo → EncScheme → Bytes → ℕ → ℕ → List SampleInfo → Bytes → Bytes → Type 0
  Samples t scheme key behind i [] s o = (s ≡ []) × (o ≡ [])
  Samples t scheme key behind i (info ∷ infos) s o =
      ((get_or t.sample_sizes i 0 ≡ 0)
        × (t.default_sample_size ≡ 0)
        × Samples t scheme key behind (i + 1) infos s o)
      ⊎ ((n : ℕ) × HasSize t i n × (behind < n) × (s ≡ []) × (o ≡ []))
      ⊎ ((sample dec s' o' : Bytes) × (s ≡ sample ++ s')
          × (o ≡ dec ++ o')
          × (0 < length sample)
          × HasSize t i (length sample)
          × (decrypt_sample c sample info key scheme t.crypt_byte_block t.skip_byte_block
                t.constant_iv
              ≡ done dec)
          × Samples t scheme key behind (i + 1) infos s' o')

  length-Samples :
      (t : TrackInfo) (scheme : EncScheme) (key : Bytes) (behind i : ℕ) (infos : List SampleInfo)
      (s o : Bytes)
      → Samples t scheme key behind i infos s o
      → length o ≡ length s
  length-Samples t scheme key behind i [] s o (a, b) = ap length (b ∙ sym a)
  length-Samples t scheme key behind i (info ∷ infos) s o (inl (_, _, rest)) =
      length-Samples t scheme key behind (i + 1) infos s o rest
  length-Samples t scheme key behind i (info ∷ infos) s o (inr (inl (_, _, _, a, b))) =
      ap length (b ∙ sym a)
  length-Samples t scheme key behind i (info ∷ infos) s o
        (inr (inr (sample, dec, s', o', a, b, _, _, e, rest))) =
      let tail = length-Samples t scheme key behind (i + 1) infos s' o' rest in
      let here =
        length-decrypted sample info key scheme t.crypt_byte_block t.skip_byte_block t.constant_iv
          dec e in
      ap length b
      ∙ length-append dec o'
      ∙ omega (arith, tail, here)
      ∙ sym (ap length a ∙ length-append sample s')

  -- A round on a sample that lies within the media data.
  track_loop-round :
      (t : TrackInfo) (scheme : EncScheme) (key d : Bytes) (info : SampleInfo)
      (infos : List SampleInfo) (i pos n : ℕ) (w sample dec : Bytes)
      → HasSize t i n
      → 0 < n
      → pos + n ≤ length d
      → slice d pos (pos + n) ≡ done sample
      → decrypt_sample c sample info key scheme t.crypt_byte_block t.skip_byte_block t.constant_iv
        ≡ done dec
      → track_loop c t scheme key d (info ∷ infos) i pos w
        ≡ track_loop c t scheme key d infos (i + 1) (pos + n) (overwrite w pos n dec)
  unfolding track_loop
  track_loop-round t scheme key d info infos i pos n w sample dec (inl stated) more fits cut e =
      ground arith
  track_loop-round t scheme key d info infos i pos n w sample dec (inr (missing, stated)) more fits
        cut e =
      ground arith

  track_loop-sizeless :
      (t : TrackInfo) (scheme : EncScheme) (key d : Bytes) (info : SampleInfo)
      (infos : List SampleInfo) (i pos : ℕ) (w : Bytes)
      → get_or t.sample_sizes i 0 ≡ 0
      → t.default_sample_size ≡ 0
      → track_loop c t scheme key d (info ∷ infos) i pos w
        ≡ track_loop c t scheme key d infos (i + 1) pos w
  unfolding track_loop
  track_loop-sizeless t scheme key d info infos i pos w missing stated = ground arith

  track_loop-overrun :
      (t : TrackInfo) (scheme : EncScheme) (key d : Bytes) (info : SampleInfo)
      (infos : List SampleInfo) (i pos n : ℕ) (w : Bytes)
      → HasSize t i n
      → 0 < n
      → length d < pos + n
      → track_loop c t scheme key d (info ∷ infos) i pos w ≡ done w
  unfolding track_loop
  track_loop-overrun t scheme key d info infos i pos n w (inl stated) more over = ground arith
  track_loop-overrun t scheme key d info infos i pos n w (inr (missing, stated)) more over =
      ground arith

  track_loop-Samples :
      (t : TrackInfo) (scheme : EncScheme) (key d : Bytes) (infos : List SampleInfo) (i pos : ℕ)
      (w pre pre' s o post : Bytes)
      → d ≡ pre ++ (s ++ post)
      → w ≡ pre' ++ (s ++ post)
      → pos ≡ length pre
      → pos ≡ length pre'
      → Samples t scheme key (length post) i infos s o
      → track_loop c t scheme key d infos i pos w ≡ done (pre' ++ (o ++ post))
  unfolding track_loop
  track_loop-Samples t scheme key d [] i pos w pre pre' s o post sd sw p p' (a, b) =
      rw (sw, a, b) refl
  track_loop-Samples t scheme key d (info ∷ infos) i pos w pre pre' s o post sd sw p p'
        (inl (missing, stated, rest)) =
      track_loop-sizeless t scheme key d info infos i pos w missing stated
      ∙ track_loop-Samples t scheme key d infos (i + 1) pos w pre pre' s o post sd sw p p' rest
  track_loop-Samples t scheme key d (info ∷ infos) i pos w pre pre' s o post sd sw p p'
        (inr (inl (n, size, over, a, b))) =
      let left : length d ≡ pos + length post =
        ap length (sd ∙ ap (λ x. pre ++ (x ++ post)) a)
        ∙ length-append pre post
        ∙ ap (λ x. x + length post) (sym p) in
      track_loop-overrun t scheme key d info infos i pos n w size (omega arith) (omega arith)
      ∙ ap done (sw ∙ ap (λ x. pre' ++ (x ++ post)) (a ∙ sym b))
  track_loop-Samples t scheme key d (info ∷ infos) i pos w pre pre' s o post sd sw p p'
        (inr (inr (sample, dec, s', o', a, b, more, size, e, rest))) =
      let n = length sample in
      let same =
        length-decrypted sample info key scheme t.crypt_byte_block t.skip_byte_block t.constant_iv
          dec e in
      let split : s ++ post ≡ sample ++ (s' ++ post) =
        ap (λ x. x ++ post) a ∙ append_assoc sample s' post in
      let d_parts : d ≡ pre ++ (sample ++ (s' ++ post)) = sd ∙ ap (λ x. pre ++ x) split in
      let w_parts : w ≡ pre' ++ (sample ++ (s' ++ post)) = sw ∙ ap (λ x. pre' ++ x) split in
      let fits : pos + n ≤ length d = omega (
        arith,
        ap length d_parts,
        length-append pre (sample ++ (s' ++ post)),
        length-append sample (s' ++ post),
      ) in
      let cut : slice d pos (pos + n) ≡ done sample =
        rw (d_parts, p) (slice-part pre sample (s' ++ post)) in
      let written : overwrite w pos n dec ≡ pre' ++ (dec ++ (s' ++ post)) =
        rw (w_parts, p') (overwrite-part pre' sample (s' ++ post) dec same) in
      let next =
        track_loop-Samples t scheme key d infos (i + 1) (pos + n) (overwrite w pos n dec)
          (pre ++ sample) (pre' ++ dec) s' o' post
          (d_parts ∙ sym (append_assoc pre sample (s' ++ post)))
          (written ∙ sym (append_assoc pre' dec (s' ++ post)))
          (omega (arith, length-append pre sample)) (omega (arith, length-append pre' dec)) rest in
      track_loop-round t scheme key d info infos i pos n w sample dec size more fits cut e
      ∙ next
      ∙ ap done (
          append_assoc pre' dec (o' ++ post)
          ∙ ap (λ x. pre' ++ x) (sym (append_assoc dec o' post))
          ∙ ap (λ x. pre' ++ (x ++ post)) (sym b))

  -- What the bytes of a track decrypt to: without a key they stay as they are.
  abbrev pub Decrypted : EncScheme → ℕ → TrackInfo → Bytes → Bytes → Type 0
  Decrypted scheme behind t body out =
      ((t.key ≡ none) × (body ≡ out))
      ⊎ ((key : Bytes) × (t.key ≡ some key) × Samples t scheme key behind 0 t.sample_info body out)

  length-Decrypted :
      (scheme : EncScheme) (behind : ℕ) (t : TrackInfo) (body out : Bytes)
      → Decrypted scheme behind t body out
      → length out ≡ length body
  length-Decrypted scheme behind t body out (inl (_, same)) = sym (ap length same)
  length-Decrypted scheme behind t body out (inr (key, _, samples)) =
      length-Samples t scheme key behind 0 t.sample_info body out samples

  mdat_start-inside :
      (data_offset first q : ℕ)
      → data_offset ≡ first + q
      → data_offset < 2 ^ 31
      → mdat_start data_offset first ≡ q
  unfolding mdat_start
  mdat_start-inside data_offset first q e small =
      let wraps : (data_offset + 2 ^ 32 - first) % 2 ^ 32 ≡ q = omega arith in ground arith

  decrypt_track-Decrypted :
      (scheme : EncScheme) (d : Bytes) (first q : ℕ) (t : TrackInfo)
      (w pre pre' body out post : Bytes)
      → t.data_offset ≡ first + q
      → t.data_offset < 2 ^ 31
      → d ≡ pre ++ (body ++ post)
      → w ≡ pre' ++ (body ++ post)
      → q ≡ length pre
      → q ≡ length pre'
      → Decrypted scheme (length post) t body out
      → decrypt_track c scheme d first t w ≡ done (pre' ++ (out ++ post))
  unfolding decrypt_track
  decrypt_track-Decrypted scheme d first q t w pre pre' body out post at small sd sw p p'
        (inl (missing, same)) =
      rw (missing, sw, same) refl
  decrypt_track-Decrypted scheme d first q t w pre pre' body out post at small sd sw p p'
        (inr (key, stored, samples)) =
      rw (stored, mdat_start-inside t.data_offset first q at small)
        (track_loop-Samples t scheme key d t.sample_info 0 q w pre pre' body out post sd sw p p'
          samples)

  -- Media data in which the tracks stand in the order of the list, each at its data offset, which
  -- counts from `first`, and the data with the tracks decrypted in place.
  abbrev pub Laid : EncScheme → ℕ → ℕ → List TrackInfo → Bytes → Bytes → Type 0
  Laid scheme first pos [] s o = s ≡ o
  Laid scheme first pos (t ∷ ts) s o =
      (gap body out s' o' : Bytes) × (s ≡ gap ++ (body ++ s'))
      × (o ≡ gap ++ (out ++ o'))
      × (t.data_offset ≡ first + (pos + length gap))
      × Decrypted scheme (length s') t body out
      × Laid scheme first (pos + length gap + length body) ts s' o'

  tracks_loop-Laid :
      (scheme : EncScheme) (d : Bytes) (first pos low : ℕ) (ts : List TrackInfo)
      (w pre pre' s o : Bytes)
      → d ≡ pre ++ s
      → w ≡ pre' ++ s
      → pos ≡ length pre
      → pos ≡ length pre'
      → Ascending low ts
      → Laid scheme first pos ts s o
      → tracks_loop c scheme d first ts w ≡ done (pre' ++ o)
  unfolding tracks_loop
  tracks_loop-Laid scheme d first pos low [] w pre pre' s o sd sw p p' up same = rw (sw, same) refl
  tracks_loop-Laid scheme d first pos low (t ∷ ts) w pre pre' s o sd sw p p' (_, small, up)
        (gap, body, out, s', o', a, b, at, here, rest) =
      let q = pos + length gap in
      let split = λ (x y : Bytes) (e : x ≡ y ++ s).
        e ∙ ap (λ z. y ++ z) a ∙ sym (append_assoc y gap (body ++ s')) in
      let track =
        decrypt_track-Decrypted scheme d first q t w (pre ++ gap) (pre' ++ gap) body out s' at small
          (split d pre sd) (split w pre' sw) (omega (arith, length-append pre gap))
          (omega (arith, length-append pre' gap)) here in
      let same = length-Decrypted scheme (length s') t body out here in
      let next =
        tracks_loop-Laid scheme d first (q + length body) (suc t.data_offset) ts
          (pre' ++ gap ++ (out ++ s')) (pre ++ gap ++ body) (pre' ++ gap ++ out) s' o'
          (split d pre sd ∙ sym (append_assoc (pre ++ gap) body s'))
          (sym (append_assoc (pre' ++ gap) out s'))
          (omega (arith, length-append (pre ++ gap) body, length-append pre gap))
          (omega (arith, length-append (pre' ++ gap) out, length-append pre' gap, same)) up rest in
      rw track (
        next
        ∙ ap done (
            append_assoc (pre' ++ gap) out o'
            ∙ append_assoc pre' gap (out ++ o')
            ∙ ap (λ x. pre' ++ x) (sym b)))

  -- If the ciphers keep the length of what they decrypt, and tracks in any order, whose data
  -- offsets differ and are not negative, stand in the media data at their offsets from the lowest
  -- one without overlap, those with a key as their samples one after another, each of them
  -- decrypting to some bytes under that key, then these bytes take the places of the samples, and
  -- the tracks without a key and all bytes between and behind the tracks stay as they are. A sample
  -- without a size takes no place, and one that would end behind the media data ends its track.
  pub decrypt_mdat_multi_track-Laid :
      (s : Mp4Decrypter) (mdat : Atom) (t : TrackInfo) (ts : List TrackInfo) (out : Bytes)
      → Shuffled s.track_infos (t ∷ ts)
      → Ascending 0 (t ∷ ts)
      → Laid s.encryption_scheme t.data_offset 0 (t ∷ ts) mdat.payload out
      → decrypt_mdat_multi_track c s mdat ≡ done (new_atom Tags.mdat out)
  unfolding decrypt_mdat_multi_track
  decrypt_mdat_multi_track-Laid s mdat t ts out mixed up laid =
      let sorted = sort_tracks-Ascending s.track_infos (t ∷ ts) mixed up in
      let some_tracks : is_empty s.track_infos ≡ false = not_empty s.track_infos t ts mixed in
      rw
        (
          some_tracks,
          sorted,
          tracks_loop-Laid s.encryption_scheme mdat.payload t.data_offset 0 0 (t ∷ ts) mdat.payload
              [] [] mdat.payload out refl refl refl refl up laid,
        )
        refl
