-- ===== src/Hls/Manifest/Media/Parts.antt =====
-- What `process_media` gives to the writer of playlists.
use mediaflow_proxy_light.Base.{
  ℕ, suc, ◌≡◌, refl, ap, ◌∙◌, Bool, false, List, [], ◌∷◌, ◌++◌, if◌then◌else◌, is_empty, Bytes,
}
use mediaflow_proxy_light.Auth.Encryption.{Json, Crates}
use mediaflow_proxy_light.Hls.SkipFilter.{
  Floats, SkipRange, MediaSegment, mark, any_overlap, apply_skip_filter,
}
use mediaflow_proxy_light.Hls.SkipFilter.Overlaps.{
  placed, parts_after, parts, marked, apply_skip_filter-parts,
}
use mediaflow_proxy_light.Hls.Links.{ManifestProcessor}
use mediaflow_proxy_light.Hls.Manifest.{FloatTexts}
use mediaflow_proxy_light.Hls.Manifest.Media.{
  SegmentUris, MediaPlaylist, M3u8, Vectors, map_from, is_vod, rewrite_tags, rewrite_segment,
  with_start, process_media,
}
use mediaflow_proxy_light.Utils.Url.{UrlParser}

-- The elements with their places.
abbrev pub numbered {ℓ} : {A : Type ℓ} → ℕ → List A → List (ℕ × A)
numbered n [] = []
numbered n (x ∷ xs) = (n, x) ∷ numbered (suc n) xs

module _ {F J X : Type 0} (floats : Floats F) (float_texts : FloatTexts F) (json : Json J)
    (crates : Crates J) (url_encode : Bytes → Bytes) (parse : UrlParser) (m3u8 : M3u8 F X)
    (m : ManifestProcessor F) (ivs : Vectors) (base_url : Bytes) where
  open floats use {zero, add}

  abbrev pub Segment : Type 0
  Segment = MediaSegment F (SegmentUris X)

  abbrev pub rewritten : ℕ → Segment → Segment
  rewritten = rewrite_segment floats float_texts json crates url_encode parse m3u8 m ivs base_url

  abbrev pub seconds : ℕ × Segment → F
  seconds (n, seg) = seg.duration

  abbrev pub write : Bool → ℕ × Segment → List Segment
  write after_cut (n, seg) = mark floats after_cut (rewritten n seg) ∷ []

  parts-rewritten :
      (ranges : List (SkipRange F)) (n : ℕ) (time : F) (cut : Bool) (segs : List Segment)
      → parts_after floats ranges
          (marked floats ranges)
          cut
          (placed floats (λ s. s.duration) time (map_from rewritten n segs))
        ≡ parts_after floats ranges write cut (placed floats seconds time (numbered n segs))
  unfolding rewrite_segment
  parts-rewritten ranges n time cut [] = refl
  parts-rewritten ranges n time cut (s ∷ segs) =
      let end = add time s.duration in
      let over = any_overlap floats ranges time end in
      let here : List Segment = if over then [] else write cut (n, s) in
      ap (◌++◌ here) (parts-rewritten ranges (suc n) end over segs)

  rewritten-parts :
      (n : ℕ) (time : F) (segs : List Segment)
      → map_from rewritten n segs
        ≡ parts_after floats [] write false (placed floats seconds time (numbered n segs))
  rewritten-parts n time [] = refl
  rewritten-parts n time (s ∷ segs) =
      ap (◌∷◌ (rewritten n s)) (rewritten-parts (suc n) (add time s.duration) segs)

  filtered-parts :
      (ranges : List (SkipRange F)) (segs : List Segment)
      → (if is_empty ranges
          then map_from rewritten 0 segs
          else apply_skip_filter floats ranges (map_from rewritten 0 segs))
        ≡ parts floats ranges write (placed floats seconds zero (numbered 0 segs))
  filtered-parts [] segs = rewritten-parts 0 zero segs
  filtered-parts (r ∷ ranges) segs =
      apply_skip_filter-parts floats (r ∷ ranges) (map_from rewritten 0 segs)
      ∙ parts-rewritten (r ∷ ranges) 0 zero false segs

  -- A parsed media playlist is written with exactly those segments that overlap no range to be
  -- skipped, in their order, where each starts where the one before ends; each is rewritten, and is
  -- marked with a discontinuity if its predecessor overlaps a range. The tags of the playlist are
  -- rewritten, its other fields stay, and the start tag is put in by the rule for playlists with an
  -- end.
  pub process_media-parts :
      (pl : MediaPlaylist F X)
      → process_media floats float_texts json crates url_encode parse m3u8 m ivs base_url pl
        ≡ with_start floats float_texts json crates url_encode parse m3u8 m ivs base_url
            (is_vod pl)
            (m3u8.write_media (record pl {
              segments =
                  parts floats m.opts.skip_ranges write
                    (placed floats seconds zero (numbered 0 pl.segments));
              unknown_tags =
                  rewrite_tags floats float_texts json crates url_encode parse m3u8 m ivs base_url
                    ivs.tag pl.unknown_tags;
            }))
  unfolding process_media
  process_media-parts pl =
      ap
        (λ segs.
          with_start floats float_texts json crates url_encode parse m3u8 m ivs base_url (is_vod pl)
            (m3u8.write_media (record pl {
              segments = segs;
              unknown_tags =
                  rewrite_tags floats float_texts json crates url_encode parse m3u8 m ivs base_url
                    ivs.tag pl.unknown_tags;
            })))
        (filtered-parts m.opts.skip_ranges pl.segments)
