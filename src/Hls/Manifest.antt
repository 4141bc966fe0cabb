-- ===== src/Hls/Manifest.antt =====
-- src/hls/manifest.rs, of the `ManifestProcessor` the line fallback and what it calls. Texts are
-- ASCII. The `f64`s, their parser and printer and the crate url are parameters, and so is the
-- vector of the token that a line draws.
pub mod Lines
pub mod Rounds
pub mod Segments
pub mod Media
use mediaflow_proxy_light.Base.{
  ℕ, suc, Bool, true, false, not, ◌&&◌, ◌||◌, List, [], ◌∷◌, ◌++◌, Option, none, some, ◌==◌,
  if◌then◌else◌, is_empty, Bytes, ascii, to_lowercase, strip_prefix, starts_with, contains_text,
  bytes_equal, split_first, split_text, replace_first, ends_with, is_whitespace, trim_by, lines,
  unlines,
}
use mathlib.Core.Option.{get_or}
use mediaflow_proxy_light.Auth.Encryption.{Json, Crates}
use mediaflow_proxy_light.Hls.SkipFilter.{Floats, SkipSegmentFilter, check_and_advance}
use mediaflow_proxy_light.Hls.SkipFilter
use mediaflow_proxy_light.Hls.Links.{
  ManifestOptions, ManifestProcessor, proxy_manifest_url, proxy_segment_url, proxy_key_url,
}
use mediaflow_proxy_light.Utils.Url.{UrlParser, resolve_url}

abbrev pub trim : Bytes → Bytes
trim = trim_by is_whitespace

-- What stands before the first byte of a kind.
abbrev pub before : (ℕ → Bool) → Bytes → Bytes
before p [] = []
before p (c ∷ cs) = if p c then [] else c ∷ before p cs

unfoldable pub is_playlist_url : Bytes → Bool
is_playlist_url url =
    let lower = to_lowercase (before (λ c. c == b'?' || c == b'#') url) in
    ends_with lower (ascii ".m3u8") || ends_with lower (ascii ".m3u")

abbrev pub has_attributes : Bytes → Bool
has_attributes t =
    contains_text t (ascii "group-title=")
    || contains_text t (ascii "tvg-id=")
    || contains_text t (ascii "tvg-name=")
    || contains_text t (ascii "tvg-logo=")

abbrev pub any_iptv_line : List Bytes → Bool
any_iptv_line [] = false
any_iptv_line (l ∷ ls) =
    (starts_with (trim l) (ascii "#EXTINF:") && has_attributes (trim l)) || any_iptv_line ls

unfoldable pub is_iptv_playlist : Bytes → Bool
is_iptv_playlist text = any_iptv_line (lines text)

abbrev pub error_playlist : Bytes → Bytes
error_playlist error_message = unlines (
    ascii "#EXTM3U"
    ∷ ascii "#EXT-X-VERSION:3"
    ∷ ascii "#EXT-X-TARGETDURATION:1"
    ∷ ascii "#EXT-X-PLAYLIST-TYPE:VOD"
    ∷ (ascii "# Error: " ++ error_message)
    ∷ ascii "#EXT-X-ENDLIST"
    ∷ [])

abbrev pub graceful_end_playlist : Bytes → Bytes
graceful_end_playlist message = unlines (
    ascii "#EXTM3U"
    ∷ ascii "#EXT-X-VERSION:3"
    ∷ ascii "#EXT-X-TARGETDURATION:1"
    ∷ ascii "#EXT-X-PLAYLIST-TYPE:VOD"
    ∷ (ascii "# " ++ message)
    ∷ ascii "#EXT-X-ENDLIST"
    ∷ [])

abbrev pub start_tag : Bytes → Bytes
start_tag offset = ascii "#EXT-X-START:TIME-OFFSET=" ++ offset ++ ascii ",PRECISE=YES"

-- The tag behind the line that the mark stands in; at once behind the mark if no line ends there.
unfoldable pub inject_ext_x_start : Bytes → Bytes → Bytes
inject_ext_x_start content offset =
    let tag = start_tag offset ++ 10 ∷ [] in
    elim (split_text (ascii "#EXTM3U") content) [
      | none ↦ content
      | some (head, after) ↦ elim (split_first 10 after) [
        | none ↦ head ++ ascii "#EXTM3U" ++ tag ++ after
        | some (line, rest) ↦ head ++ ascii "#EXTM3U" ++ line ++ (10 ∷ []) ++ tag ++ rest
      ]
    ]

-- The quoted value of the first URI attribute.
abbrev pub uri_value : Bytes → Option Bytes
uri_value line = elim (split_text (ascii "URI=\"") line) [
  | none ↦ none
  | some (head, after) ↦ elim (split_first 34 after) [ none ↦ none | some (uri, rest) ↦ some uri ]
]

abbrev pub quoted_uri : Bytes → Bytes
quoted_uri uri = ascii "URI=\"" ++ uri ++ 34 ∷ []

-- A loop over the lines that remembers whether an EXTINF is pending.
unfoldable pub segment_lines : UrlParser → Bytes → Bool → List Bytes → List Bytes
unfolding resolve_url is_playlist_url
segment_lines parse source_url pending [] = []
segment_lines parse source_url pending (l ∷ ls) =
    let opened = segment_lines parse source_url true ls in
    let same = segment_lines parse source_url pending ls in
    let closed = segment_lines parse source_url false ls in
    let resolved = resolve_url parse source_url (trim l) in
    if starts_with (trim l) (ascii "#EXTINF:")
    then opened
    else if is_empty (trim l) || starts_with (trim l) (ascii "#")
    then same
    else if pending
    then (if is_playlist_url resolved then closed else resolved ∷ closed)
    else same

unfoldable pub media_segment_urls_from_lines : UrlParser → Bytes → Bytes → List Bytes
unfolding segment_lines
media_segment_urls_from_lines parse content source_url =
    segment_lines parse source_url false (lines content)

-- The texts of `f64`s: `parse`, and the format `{:.1}`.
pub record FloatTexts (F : Type 0) : Type 0 where
  pub parse : Bytes → Option F
  pub one_decimal : F → Bytes

module _ {F : Type 0} (floats : Floats F) (float_texts : FloatTexts F) where
  unfoldable pub parse_extinf_duration : Bytes → F
  parse_extinf_duration line = elim (strip_prefix (ascii "#EXTINF:") line) [
    | none ↦ floats.zero
    | some rest ↦ get_or (float_texts.parse (trim (before (λ c. c == b',') rest))) floats.zero
  ]

module _ {F J : Type 0} (json : Json J) (crates : Crates J) (url_encode : Bytes → Bytes)
    (parse : UrlParser) (m : ManifestProcessor F) where
  unfoldable pub rewrite_playlist_uri : Bytes → Bytes → Bytes → Bytes
  unfolding resolve_url proxy_manifest_url
  rewrite_playlist_uri iv uri base_url =
      proxy_manifest_url json crates url_encode iv m.proxy_base (resolve_url parse base_url uri)
        m.params

  unfoldable pub rewrite_segment_or_playlist_uri : Bytes → Bytes → Bytes → Bytes
  unfolding resolve_url is_playlist_url proxy_manifest_url proxy_segment_url
  rewrite_segment_or_playlist_uri iv uri base_url =
      let abs = resolve_url parse base_url uri in
      if m.opts.no_proxy
      then abs
      else if m.opts.key_only_proxy
      then abs
      else if is_playlist_url abs
      then proxy_manifest_url json crates url_encode iv m.proxy_base abs m.params
      else if m.opts.force_playlist_proxy
      then proxy_manifest_url json crates url_encode iv m.proxy_base abs m.params
      else proxy_segment_url json crates url_encode iv m.proxy_base abs m.params

  unfoldable pub rewrite_tag_rest_uri : Bytes → Bytes → Bytes → Bool → Bytes
  unfolding resolve_url proxy_manifest_url proxy_key_url
  rewrite_tag_rest_uri iv rest base_url is_playlist = elim (uri_value rest) [
    | none ↦ rest
    | some uri ↦
        let resolved = resolve_url parse base_url uri in
        let new_uri =
          if m.opts.no_proxy
          then resolved
          else if is_playlist
          then proxy_manifest_url json crates url_encode iv m.proxy_base resolved m.params
          else proxy_key_url json crates url_encode iv m.proxy_base resolved m.params in
        replace_first (quoted_uri uri) (quoted_uri new_uri) rest
  ]

  unfoldable pub process_tag_with_uri : Bytes → Bytes → Bytes → Bytes
  unfolding resolve_url proxy_manifest_url proxy_segment_url proxy_key_url
  process_tag_with_uri iv line base_url = elim (uri_value line) [
    | none ↦ line
    | some uri ↦
        let resolved = resolve_url parse base_url uri in
        let new_uri =
          if m.opts.no_proxy
          then resolved
          else if starts_with line (ascii "#EXT-X-MAP")
          then proxy_segment_url json crates url_encode iv m.proxy_base resolved m.params
          else if starts_with line (ascii "#EXT-X-MEDIA")
          then proxy_manifest_url json crates url_encode iv m.proxy_base resolved m.params
          else proxy_key_url json crates url_encode iv m.proxy_base resolved m.params in
        replace_first (quoted_uri uri) (quoted_uri new_uri) line
  ]
