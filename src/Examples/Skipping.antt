-- ===== src/Examples/Skipping.antt =====
-- A media playlist of four segments, links not proxied, with times that are whole numbers and a
-- writer that puts out the URIs, each with a mark for a discontinuity.
use mediaflow_proxy_light.Base.{
  ℕ, ◌+◌, ◌≡◌, ◌++◌, refl, Bool, false, true, List, [], ◌∷◌, none, some, ltb, Bytes, ascii, decimal,
  ◌^◌, parse_unsigned,
}
use mediaflow_proxy_light.Hls.SkipFilter.{Floats, MediaSegment}
use mediaflow_proxy_light.Hls.SkipFilter.Overlaps.{placed, parts}
use mediaflow_proxy_light.Hls.Links.{ManifestProcessor, new}
use mediaflow_proxy_light.Hls.Manifest.{FloatTexts}
use mediaflow_proxy_light.Hls.Manifest.Media.{
  SegmentUris, MediaPlaylist, M3u8, Vectors, is_vod, rewrite_tags, with_start, process_media,
}
use mediaflow_proxy_light.Hls.Manifest.Media.Parts.{numbered, seconds, write, process_media-parts}
use mediaflow_proxy_light.Utils.Url.{UrlParser}
use mediaflow_proxy_light.Examples.Guarding.{json, crates}

abbrev pub floats : Floats ℕ
floats = record { zero = 0; add = ◌+◌; less = ltb }

abbrev pub float_texts : FloatTexts ℕ
float_texts = record { parse = parse_unsigned (2 ^ 32); one_decimal = decimal }

abbrev pub parse : UrlParser
parse base = some (λ path. some (base ++ path))

abbrev segment : Bytes → MediaSegment ℕ (SegmentUris ℕ)
segment uri = record {
  duration = 10;
  discontinuity = false;
  rest = record { uri = uri; key = none; map = none; unknown_tags = []; others = 0 };
}

abbrev playlist : MediaPlaylist ℕ ℕ
playlist = record {
  segments =
      segment (ascii "a") ∷ segment (ascii "b") ∷ segment (ascii "c") ∷ segment (ascii "d") ∷ [];
  end_list = true;
  playlist_type = none;
  unknown_tags = [];
  others = 0;
}

abbrev flag : Bool → Bytes
flag true = ascii "!"
flag false = ascii "."

abbrev write_segments : List (MediaSegment ℕ (SegmentUris ℕ)) → Bytes
write_segments [] = []
write_segments (s ∷ ss) = flag s.discontinuity ++ s.rest.uri ++ write_segments ss

abbrev m3u8 : M3u8 ℕ ℕ
m3u8 = record {
  parse_playlist = λ s. none;
  write_master = λ pl. [];
  write_media = λ pl. write_segments pl.segments;
}

abbrev processor : ManifestProcessor ℕ
processor = record {
  proxy_base = ascii "http://p";
  params = new (ascii "pw") [];
  opts = record {
    key_only_proxy = false;
    no_proxy = true;
    force_playlist_proxy = false;
    skip_ranges = record { start = 15; end = 25 } ∷ [];
    start_offset = none;
    force_start_offset = false;
  };
}

abbrev vectors : Vectors
vectors = record {
  key = λ n. [];
  map = λ n. [];
  segment = λ n. [];
  segment_tag = λ n k. [];
  tag = λ n. [];
  variant = λ n. [];
  alternative = λ n. [];
  line = λ n. [];
}

abbrev base : Bytes
base = ascii "http://h/"

written_segments :
    process_media floats float_texts json crates (λ s. s) parse m3u8 processor vectors base playlist
    ≡ ascii ".http://h/a!http://h/d"
unfolding process_media
written_segments = refl

process_media-parts_example :
    process_media floats float_texts json crates (λ s. s) parse m3u8 processor vectors base playlist
    ≡ with_start floats float_texts json crates
        (λ s. s)
        parse
        m3u8
        processor
        vectors
        base
        (is_vod playlist)
        (m3u8.write_media (record playlist {
          segments =
              parts floats processor.opts.skip_ranges
                (write floats float_texts json crates (λ s. s) parse m3u8 processor vectors base)
                (placed floats
                  (seconds floats float_texts json crates
                    (λ s. s)
                    parse
                    m3u8
                    processor
                    vectors
                    base)
                  0
                  (numbered 0 playlist.segments));
          unknown_tags =
              rewrite_tags floats float_texts json crates
                (λ s. s)
                parse
                m3u8
                processor
                vectors
                base
                vectors.tag
                playlist.unknown_tags;
        }))
process_media-parts_example =
    process_media-parts floats float_texts json crates (λ s. s) parse m3u8 processor vectors base
      playlist
