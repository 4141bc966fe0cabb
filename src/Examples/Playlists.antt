-- ===== src/Examples/Playlists.antt =====
-- A playlist of three segments through the line fallback, links not proxied, times whole numbers.
use mediaflow_proxy_light.Base.{
  ℕ, ◌≡◌, refl, false, true, List, [], ◌∷◌, ◌++◌, some, Bytes, ascii, unlines,
}
use mediaflow_proxy_light.Hls.SkipFilter.Overlaps.{placed, parts}
use mediaflow_proxy_light.Hls.Links.{ManifestProcessor, new}
use mediaflow_proxy_light.Hls.Manifest.Lines.{process_lines}
use mediaflow_proxy_light.Hls.Manifest.Rounds.{entries, seconds, write}
use mediaflow_proxy_light.Hls.Manifest.Segments.{start_lines, process_lines-parts}
use mediaflow_proxy_light.Examples.Guarding.{json, crates}
use mediaflow_proxy_light.Examples.Skipping.{floats, float_texts, parse}

abbrev processor : ManifestProcessor ℕ
processor = record {
  proxy_base = ascii "http://p";
  params = new (ascii "pw") [];
  opts = record {
    key_only_proxy = false;
    no_proxy = true;
    force_playlist_proxy = false;
    skip_ranges = record { start = 12; end = 18 } ∷ [];
    start_offset = some 5;
    force_start_offset = false;
  };
}

abbrev tags : List Bytes
tags = ascii "#EXT-X-VERSION:3" ∷ []

abbrev segments : List (Bytes × Bytes)
segments =
    (ascii "10,", ascii "a.ts") ∷ (ascii "10,", ascii "b.ts") ∷ (ascii "10,", ascii "c.ts") ∷ []

abbrev footer : List Bytes
footer = ascii "#EXT-X-ENDLIST" ∷ []

abbrev content : Bytes
content = unlines (
    ascii "#EXTM3U"
    ∷ ascii "#EXT-X-VERSION:3"
    ∷ ascii "#EXTINF:10,"
    ∷ ascii "a.ts"
    ∷ ascii "#EXTINF:10,"
    ∷ ascii "b.ts"
    ∷ ascii "#EXTINF:10,"
    ∷ ascii "c.ts"
    ∷ ascii "#EXT-X-ENDLIST"
    ∷ [])

abbrev vectors : ℕ → Bytes
vectors n = n ∷ []

abbrev rewritten : Bytes
rewritten =
    process_lines floats float_texts json crates (λ s. s) parse processor (ascii "http://h/")
      vectors content

written_lines :
    rewritten
    ≡ unlines (
        ascii "#EXTM3U"
        ∷ ascii "#EXT-X-START:TIME-OFFSET=5,PRECISE=YES"
        ∷ ascii "#EXT-X-VERSION:3"
        ∷ ascii "#EXTINF:10,"
        ∷ ascii "http://h/a.ts"
        ∷ ascii "#EXT-X-DISCONTINUITY"
        ∷ ascii "#EXTINF:10,"
        ∷ ascii "http://h/c.ts"
        ∷ ascii "#EXT-X-ENDLIST"
        ∷ [])
unfolding process_lines
written_lines = refl

process_lines-parts_example :
    rewritten
    ≡ unlines (
        ascii "#EXTM3U"
        ∷ (start_lines floats float_texts json crates
              (λ s. s)
              parse
              processor
              (ascii "http://h/")
              vectors
              (some 5)
            ++ (tags
                ++ (parts floats processor.opts.skip_ranges
                      (write floats float_texts json crates
                        (λ s. s)
                        parse
                        processor
                        (ascii "http://h/")
                        vectors)
                      (placed floats
                        (seconds floats float_texts json crates
                          (λ s. s)
                          parse
                          processor
                          (ascii "http://h/")
                          vectors)
                        0
                        (entries 2 segments))
                    ++ footer))))
process_lines-parts_example =
    process_lines-parts floats float_texts json crates (λ s. s) parse processor (ascii "http://h/")
      vectors content tags segments footer refl refl refl refl
