-- ===== src/Hls/Manifest/Segments.antt =====
-- What `process_lines` writes for a media playlist.
use mediaflow_proxy_light.Base.{
  ℕ, suc, ◌+◌, ◌≡◌, refl, sym, ap, ◌∙◌, Bool, true, false, List, [], ◌∷◌, ◌++◌, Option, none, some,
  if◌then◌else◌, all, length, append-nil, append_assoc, Bytes, ascii, lines, unlines,
}
use mediaflow_proxy_light.Auth.Encryption.{Json, Crates}
use mediaflow_proxy_light.Hls.SkipFilter.{Floats, SkipRange, any_overlap}
use mediaflow_proxy_light.Hls.SkipFilter.Overlaps.{placed, parts_after, parts}
use mediaflow_proxy_light.Hls.Links.{ManifestProcessor}
use mediaflow_proxy_light.Hls.Manifest.{FloatTexts, start_tag}
use mediaflow_proxy_light.Hls.Manifest.Lines.{
  process_line, line_loop, initial, process_lines, header_line,
}
use mediaflow_proxy_light.Utils.Url.{UrlParser}
use mediaflow_proxy_light.Hls.Manifest.Rounds.{
  is_plain, Entry, entry_lines, entries, is_entry, both, loop, seconds, write, state_at, step,
  loop-plain, loop-entry,
}

module _ {F : Type 0} (floats : Floats F) (float_texts : FloatTexts F) {J : Type 0} (json : Json J)
    (crates : Crates J) (url_encode : Bytes → Bytes) (parse : UrlParser) (m : ManifestProcessor F)
    (base_url : Bytes) (ivs : ℕ → Bytes) where
  open floats use {add}

  loop-parts :
      (ranges : List (SkipRange F)) (n : ℕ) (time : F) (cut injected : Bool)
      (es : List (Bytes × Bytes)) (footer : List Bytes)
      → all is_entry es ≡ true
      → all is_plain footer ≡ true
      → loop floats float_texts json crates url_encode parse m base_url ivs n
          (entry_lines es ++ footer)
          (state_at floats float_texts json crates url_encode parse m base_url ivs ranges time cut
            injected)
        ≡ parts_after floats ranges
            (write floats float_texts json crates url_encode parse m base_url ivs)
            cut
            (placed floats
              (seconds floats float_texts json crates url_encode parse m base_url ivs)
              time
              (entries n es))
          ++ footer
  unfolding line_loop
  loop-parts ranges n time cut injected [] footer h plain =
      ap
        (λ ls. loop floats float_texts json crates url_encode parse m base_url ivs n ls (
          state_at floats float_texts json crates url_encode parse m base_url ivs ranges time cut
            injected))
        (sym (append-nil footer))
      ∙ loop-plain floats float_texts json crates url_encode parse m base_url ivs n footer []
          (state_at floats float_texts json crates url_encode parse m base_url ivs ranges time cut
            injected)
          plain
      ∙ append-nil footer
  loop-parts ranges n time cut injected ((info, url) ∷ es) footer h plain =
      let (here, others) = both (is_entry (info, url)) _ h in
      let e : Entry = record { info = info; url = url; number = suc n } in
      let end =
        add time ((seconds floats float_texts json crates url_encode parse m base_url ivs) e) in
      let over = any_overlap floats ranges time end in
      let now : List Bytes =
        if over
        then []
        else (write floats float_texts json crates url_encode parse m base_url ivs) cut e in
      loop-entry floats float_texts json crates url_encode parse m base_url ivs n ranges time cut
        injected info url (entry_lines es ++ footer) here
      ∙ ap (◌++◌ now) (loop-parts ranges (suc (suc n)) end over injected es footer others plain)
      ∙ sym (append_assoc now _ footer)

  abbrev pub start_lines : Option F → List Bytes
  start_lines none = []
  start_lines (some offset) = start_tag (float_texts.one_decimal offset) ∷ []

  abbrev pub is_set : Option F → Bool
  is_set none = false
  is_set (some offset) = true

  first_line :
      (offset : Option F) (time : F) (ranges : List (SkipRange F)) (line : Bytes)
      → header_line floats float_texts offset line (
          state_at floats float_texts json crates url_encode parse m base_url ivs ranges time false
            false)
        ≡ (
          line ∷ start_lines offset,
          state_at floats float_texts json crates url_encode parse m base_url ivs ranges time false
              (is_set offset),
        )
  first_line none time ranges line = refl
  first_line (some offset) time ranges line = refl

  loop_first :
      (ls : List Bytes)
      → let ranges = m.opts.skip_ranges in
        loop floats float_texts json crates url_encode parse m base_url ivs 0
          (ascii "#EXTM3U" ∷ ls)
          (initial floats float_texts json crates url_encode parse m base_url)
        ≡ ascii "#EXTM3U"
          ∷ (start_lines m.opts.start_offset
              ++ loop floats float_texts json crates url_encode parse m base_url ivs 1 ls (
                  state_at floats float_texts json crates url_encode parse m base_url ivs ranges
                    floats.zero false
                    (is_set m.opts.start_offset)))
  unfolding process_line
  loop_first ls =
      step floats float_texts json crates url_encode parse m base_url ivs 0 (ascii "#EXTM3U") ls _ _
        (first_line m.opts.start_offset floats.zero m.opts.skip_ranges (ascii "#EXTM3U"))

  -- For a playlist of an `#EXTM3U` line, lines that are passed on as they are, segments of an EXTINF
  -- line and a URL line each, and lines that are passed on, the line fallback writes the `#EXTM3U`
  -- line, the start tag if a start offset is set, and the lines that are passed on; of the segments
  -- it writes exactly those that overlap no range to be skipped, where each starts where the one
  -- before ends: the EXTINF line as it is and the rewritten URL, behind a discontinuity tag if the
  -- segment before overlaps a range.
  pub process_lines-parts :
      (content : Bytes) (tags : List Bytes) (es : List (Bytes × Bytes)) (footer : List Bytes)
      → lines content ≡ ascii "#EXTM3U" ∷ (tags ++ (entry_lines es ++ footer))
      → all is_plain tags ≡ true
      → all is_entry es ≡ true
      → all is_plain footer ≡ true
      → process_lines floats float_texts json crates url_encode parse m base_url ivs content
        ≡ unlines (
            ascii "#EXTM3U"
            ∷ (start_lines m.opts.start_offset
                ++ (tags
                    ++ (parts floats m.opts.skip_ranges
                          (write floats float_texts json crates url_encode parse m base_url ivs)
                          (placed floats
                            (seconds floats float_texts json crates url_encode parse m base_url ivs)
                            floats.zero
                            (entries (1 + length tags) es))
                        ++ footer))))
  unfolding process_lines
  process_lines-parts content tags es footer read plain entry last =
      let ranges = m.opts.skip_ranges in
      let injected = is_set m.opts.start_offset in
      let start =
        state_at floats float_texts json crates url_encode parse m base_url ivs ranges floats.zero
          false injected in
      ap
        (λ ls. unlines (
          loop floats float_texts json crates url_encode parse m base_url ivs 0 ls
            (initial floats float_texts json crates url_encode parse m base_url)))
        read
      ∙ ap unlines (
          loop_first (tags ++ (entry_lines es ++ footer))
          ∙ ap (λ ls. ascii "#EXTM3U" ∷ (start_lines m.opts.start_offset ++ ls))
              (loop-plain floats float_texts json crates url_encode parse m base_url ivs 1 tags
                  (entry_lines es ++ footer) start plain
                ∙ ap (◌++◌ tags) (
                    loop-parts ranges (1 + length tags) floats.zero false injected es footer entry
                      last)))
