-- ===== src/Hls/Manifest/Media.antt =====
-- `process`, `process_media` and `process_master` of src/hls/manifest.rs. Of the structures of the
-- crate m3u8_rs only the fields that the code reads or writes have a name; the rest is kept. The
-- vector of a link's token is that of the place in the playlist where the link is made.
pub mod Parts
use mediaflow_proxy_light.Base.{
  ℕ, suc, ◌+◌, Bool, true, false, not, ◌&&◌, ◌||◌, List, [], ◌∷◌, ◌++◌, Option, none, some,
  if◌then◌else◌, is_empty, keep, Bytes, ascii, to_lowercase, contains_text, bytes_equal,
}
use mathlib.Core.Option
use mediaflow_proxy_light.Auth.Encryption.{Json, Crates}
use mediaflow_proxy_light.Hls.SkipFilter.{Floats, MediaSegment, apply_skip_filter}
use mediaflow_proxy_light.Hls.Links.{ManifestProcessor, proxy_segment_url, proxy_key_url}
use mediaflow_proxy_light.Hls.Manifest.{
  FloatTexts, inject_ext_x_start, is_iptv_playlist, is_playlist_url, rewrite_playlist_uri,
  rewrite_segment_or_playlist_uri, rewrite_tag_rest_uri, media_segment_urls_from_lines,
}
use mediaflow_proxy_light.Hls.Manifest.Lines.{process_lines}
use mediaflow_proxy_light.Utils.Url.{UrlParser, resolve_url}

-- An `ExtTag`.
pub record ExtTag : Type 0 where
  pub tag : Bytes
  pub rest : Option Bytes

-- A structure with a URI, and one with a URI or none.
pub record WithUri (X : Type 0) : Type 0 where
  pub uri : Bytes
  pub others : X

pub record MaybeUri (X : Type 0) : Type 0 where
  pub uri : Option Bytes
  pub others : X

-- What a `MediaSegment` has beside its duration and its discontinuity mark.
pub record SegmentUris (X : Type 0) : Type 0 where
  pub uri : Bytes
  pub key : Option (MaybeUri X)
  pub map : Option (WithUri X)
  pub unknown_tags : List ExtTag
  pub others : X

-- The type of a playlist is given by its debug text.
pub record MediaPlaylist (F X : Type 0) : Type 0 where
  pub segments : List (MediaSegment F (SegmentUris X))
  pub end_list : Bool
  pub playlist_type : Option Bytes
  pub unknown_tags : List ExtTag
  pub others : X

pub record MasterPlaylist (X : Type 0) : Type 0 where
  pub variants : List (WithUri X)
  pub alternatives : List (MaybeUri X)
  pub unknown_tags : List ExtTag
  pub others : X

pub data Playlist (F X : Type 0) : Type 0 where
  master_playlist : MasterPlaylist X → Playlist F X
  media_playlist : MediaPlaylist F X → Playlist F X

-- The parser and the writers of the crate.
pub record M3u8 (F X : Type 0) : Type 0 where
  pub parse_playlist : Bytes → Option (Playlist F X)
  pub write_master : MasterPlaylist X → Bytes
  pub write_media : MediaPlaylist F X → Bytes

-- Each element with its place.
abbrev pub map_from {ℓ} : {A : Type ℓ} → (ℕ → A → A) → ℕ → List A → List A
map_from f n [] = []
map_from f n (x ∷ xs) = f n x ∷ map_from f (suc n) xs

abbrev pub holds_playlist : Bytes → Bool
holds_playlist tag =
    bytes_equal tag (ascii "X-MEDIA") || bytes_equal tag (ascii "X-I-FRAME-STREAM-INF")

abbrev pub is_vod : {F X : Type 0} → MediaPlaylist F X → Bool
is_vod pl = pl.end_list || elim pl.playlist_type [
  | none ↦ false
  | some t ↦ contains_text (to_lowercase t) (ascii "vod")
]

-- The vectors by place: those of a segment's key, map and URI, of its tags, and of the playlist's.
pub record Vectors : Type 0 where
  pub key : ℕ → Bytes
  pub map : ℕ → Bytes
  pub segment : ℕ → Bytes
  pub segment_tag : ℕ → ℕ → Bytes
  pub tag : ℕ → Bytes
  pub variant : ℕ → Bytes
  pub alternative : ℕ → Bytes
  pub line : ℕ → Bytes

module _ {F J X : Type 0} (floats : Floats F) (float_texts : FloatTexts F) (json : Json J)
    (crates : Crates J) (url_encode : Bytes → Bytes) (parse : UrlParser) (m3u8 : M3u8 F X)
    (m : ManifestProcessor F) (ivs : Vectors) (base_url : Bytes) where
  unfoldable pub rewrite_key : Bytes → MaybeUri X → MaybeUri X
  unfolding resolve_url proxy_key_url
  rewrite_key iv key = record key {
    uri =
        Option.map
          (λ uri.
            let resolved = resolve_url parse base_url uri in
            if m.opts.no_proxy
            then resolved
            else proxy_key_url json crates url_encode iv m.proxy_base resolved m.params)
          key.uri;
  }

  unfoldable pub rewrite_map : Bytes → WithUri X → WithUri X
  unfolding resolve_url proxy_segment_url
  rewrite_map iv map = record map {
    uri =
        (let resolved = resolve_url parse base_url map.uri in
          if m.opts.no_proxy
          then resolved
          else proxy_segment_url json crates url_encode iv m.proxy_base resolved m.params);
  }

  -- The tag's text, if a URI attribute stands in it.
  unfoldable pub rewrite_tag : Bytes → Bool → ExtTag → ExtTag
  unfolding rewrite_tag_rest_uri
  rewrite_tag iv is_playlist t = record t {
    rest =
        Option.map
          (λ rest.
            if contains_text rest (ascii "URI=\"")
            then rewrite_tag_rest_uri json crates url_encode parse m iv rest base_url is_playlist
            else rest)
          t.rest;
  }

  unfoldable pub rewrite_tags : (ℕ → Bytes) → List ExtTag → List ExtTag
  unfolding rewrite_tag
  rewrite_tags tag_ivs = map_from (λ n t. rewrite_tag (tag_ivs n) (holds_playlist t.tag) t) 0

  unfoldable pub rewrite_segment :
      ℕ → MediaSegment F (SegmentUris X) → MediaSegment F (SegmentUris X)
  unfolding rewrite_segment_or_playlist_uri rewrite_key rewrite_map rewrite_tags
  rewrite_segment n seg = record seg {
    rest = record {
      key = Option.map (rewrite_key (ivs.key n)) seg.rest.key;
      map = Option.map (rewrite_map (ivs.map n)) seg.rest.map;
      uri =
          rewrite_segment_or_playlist_uri json crates url_encode parse m (ivs.segment n)
            seg.rest.uri base_url;
      unknown_tags = rewrite_tags (ivs.segment_tag n) seg.rest.unknown_tags;
      others = seg.rest.others;
    };
  }

  unfoldable pub with_start : Bool → Bytes → Bytes
  unfolding inject_ext_x_start
  with_start vod result = elim m.opts.start_offset [
    | none ↦ result
    | some offset ↦
        if m.opts.force_start_offset || not vod
        then inject_ext_x_start result (float_texts.one_decimal offset)
        else result
  ]

  unfoldable pub process_media : MediaPlaylist F X → Bytes
  unfolding apply_skip_filter rewrite_segment rewrite_tags with_start
  process_media pl =
      let rewritten = map_from rewrite_segment 0 pl.segments in
      with_start (is_vod pl) (
        m3u8.write_media (record pl {
          segments =
              (if is_empty m.opts.skip_ranges
                then rewritten
                else apply_skip_filter floats m.opts.skip_ranges rewritten);
          unknown_tags = rewrite_tags ivs.tag pl.unknown_tags;
        }))

  unfoldable pub rewrite_master_tag : ℕ → ExtTag → ExtTag
  unfolding rewrite_tag
  rewrite_master_tag n t =
      if bytes_equal t.tag (ascii "X-MEDIA") then rewrite_tag (ivs.tag n) true t else t

  abbrev pub with_uris :
      (ℕ → Bytes → Bytes) → (ℕ → Bytes → Bytes) → MasterPlaylist X → MasterPlaylist X
  with_uris variant alternative pl = record pl {
    variants = map_from (λ n v. record v { uri = variant n v.uri }) 0 pl.variants;
    alternatives =
        map_from (λ n a. record a { uri = Option.map (alternative n) a.uri }) 0 pl.alternatives;
  }

  unfoldable pub process_master : MasterPlaylist X → Bytes
  unfolding resolve_url rewrite_playlist_uri rewrite_master_tag
  process_master pl = m3u8.write_master (
      if m.opts.no_proxy
      then with_uris (λ n. resolve_url parse base_url) (λ n. resolve_url parse base_url) pl
      else record (with_uris
          (λ n uri.
            rewrite_playlist_uri json crates url_encode parse m (ivs.variant n) uri base_url)
          (λ n uri.
            rewrite_playlist_uri json crates url_encode parse m (ivs.alternative n) uri base_url)
          pl) { unknown_tags = map_from rewrite_master_tag 0 pl.unknown_tags })

  -- The bytes are taken to be a text.
  unfoldable pub process : Bytes → Bytes
  unfolding is_iptv_playlist process_lines process_master process_media
  process content =
      let by_lines =
        process_lines floats float_texts json crates url_encode parse m base_url ivs.line content in
      if is_iptv_playlist content then by_lines else elim (m3u8.parse_playlist content) [
        | none ↦ by_lines
        | some (master_playlist pl) ↦ process_master pl
        | some (media_playlist pl) ↦ process_media pl
      ]

-- The URLs of the segments that are no playlists.
unfoldable pub segment_urls :
    {F X : Type 0} → UrlParser → Bytes → List (MediaSegment F (SegmentUris X)) → List Bytes
unfolding resolve_url is_playlist_url
segment_urls parse source_url [] = []
segment_urls parse source_url (seg ∷ segs) =
    let url = resolve_url parse source_url seg.rest.uri in
    let rest = segment_urls parse source_url segs in
    if is_playlist_url url then rest else url ∷ rest

unfoldable pub media_segment_urls :
    {F X : Type 0} → UrlParser → M3u8 F X → Bytes → Bytes → List Bytes
unfolding media_segment_urls_from_lines segment_urls
media_segment_urls parse m3u8 content source_url = elim (m3u8.parse_playlist content) [
  | none ↦ media_segment_urls_from_lines parse content source_url
  | some (master_playlist pl) ↦ []
  | some (media_playlist pl) ↦ segment_urls parse source_url pl.segments
]
