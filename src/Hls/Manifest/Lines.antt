-- ===== src/Hls/Manifest/Lines.antt =====
-- `process_lines` of src/hls/manifest.rs. A round returns the lines that it writes.
use mediaflow_proxy_light.Base.{
  ℕ, suc, Bool, true, false, not, ◌&&◌, List, [], ◌∷◌, ◌++◌, Option, none, some, if◌then◌else◌,
  is_empty, Bytes, ascii, starts_with, contains_text, bytes_equal, lines, unlines,
}
use mediaflow_proxy_light.Auth.Encryption.{Json, Crates}
use mediaflow_proxy_light.Hls.SkipFilter.{Floats, SkipSegmentFilter, check_and_advance}
use mediaflow_proxy_light.Hls.SkipFilter
use mediaflow_proxy_light.Hls.Links.{ManifestProcessor}
use mediaflow_proxy_light.Hls.Manifest.{
  FloatTexts, trim, start_tag, parse_extinf_duration, rewrite_segment_or_playlist_uri,
  process_tag_with_uri,
}
use mediaflow_proxy_light.Utils.Url.{UrlParser}

-- The variables of `process_lines`, but for the text written so far.
pub record Lines (F : Type 0) : Type 0 where
  pub skip_filter : Option (SkipSegmentFilter F)
  pub pending_extinf : Option Bytes
  pub need_discontinuity : Bool
  pub start_offset_injected : Bool

abbrev pub option_list {ℓ} : {A : Type ℓ} → Option A → List A
option_list none = []
option_list (some a) = a ∷ []

abbrev pub is_header : Bytes → Bool
is_header line = bytes_equal (trim line) (ascii "#EXTM3U")

abbrev pub is_extinf : Bytes → Bool
is_extinf line = starts_with line (ascii "#EXTINF:")

abbrev pub is_url_line : Bytes → Bool
is_url_line line = not (starts_with line (ascii "#")) && not (is_empty (trim line))

abbrev pub discontinuity_tag : Bytes
discontinuity_tag = ascii "#EXT-X-DISCONTINUITY"

abbrev pub discontinuity_before : Bool → List Bytes
discontinuity_before true = discontinuity_tag ∷ []
discontinuity_before false = []

module _ {F : Type 0} (floats : Floats F) (float_texts : FloatTexts F) where
  abbrev pub header_line : Option F → Bytes → Lines F → List Bytes × Lines F
  header_line none line s = (line ∷ [], s)
  header_line (some offset) line s = if s.start_offset_injected then (line ∷ [], s) else (
    line ∷ start_tag (float_texts.one_decimal offset) ∷ [],
    record s { start_offset_injected = true },
  )

  unfoldable pub extinf_line : Bytes → Lines F → Lines F
  unfolding check_and_advance parse_extinf_duration
  extinf_line line s = elim s.skip_filter [
    | none ↦ record s { pending_extinf = some line }
    | some f ↦
        let (skipped, f') =
          check_and_advance floats f (parse_extinf_duration floats float_texts line) in
        if skipped
        then record s { skip_filter = some f'; need_discontinuity = true; pending_extinf = none }
        else record s { skip_filter = some f'; pending_extinf = some line }
  ]

  -- The line of a segment's URL, with the URL as it is to be written.
  abbrev pub written_url : Bytes → Lines F → List Bytes × Lines F
  written_url url s = (
    discontinuity_before s.need_discontinuity ++ (option_list s.pending_extinf ++ url ∷ []),
    record s { need_discontinuity = false; pending_extinf = none },
  )

  abbrev pub url_line : Bytes → Lines F → List Bytes × Lines F
  url_line url s = elim s.skip_filter [
    | none ↦ written_url url s
    | some f ↦ elim s.pending_extinf [ none ↦ ([], s) | some extinf ↦ written_url url s ]
  ]

  module _ {J : Type 0} (json : Json J) (crates : Crates J) (url_encode : Bytes → Bytes)
      (parse : UrlParser) (m : ManifestProcessor F) (base_url : Bytes) where
    unfoldable pub process_line : Bytes → Bytes → Lines F → List Bytes × Lines F
    unfolding extinf_line rewrite_segment_or_playlist_uri process_tag_with_uri
    process_line iv line s =
        if is_header line
        then header_line m.opts.start_offset line s
        else if is_extinf line
        then ([], extinf_line line s)
        else if is_url_line line
        then url_line
            (rewrite_segment_or_playlist_uri json crates url_encode parse m iv line base_url) s
        else if contains_text line (ascii "URI=")
        then (process_tag_with_uri json crates url_encode parse m iv line base_url ∷ [], s)
        else if starts_with line discontinuity_tag
        then (line ∷ [], record s { need_discontinuity = false })
        else (line ∷ [], s)

    -- From the line with a number on.
    unfoldable pub line_loop : (ℕ → Bytes) → ℕ → List Bytes → Lines F → List Bytes
    unfolding process_line
    line_loop ivs n [] s = []
    line_loop ivs n (l ∷ ls) s =
        let (written, s') = process_line (ivs n) l s in written ++ line_loop ivs (suc n) ls s'

    abbrev pub initial : Lines F
    initial = record {
      skip_filter =
          (if is_empty m.opts.skip_ranges
            then none
            else some (SkipFilter.new floats m.opts.skip_ranges));
      pending_extinf = none;
      need_discontinuity = false;
      start_offset_injected = false;
    }

    unfoldable pub process_lines : (ℕ → Bytes) → Bytes → Bytes
    unfolding line_loop
    process_lines ivs content = unlines (line_loop ivs 0 (lines content) initial)
