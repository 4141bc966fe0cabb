-- ===== src/Hls/Links.antt =====
-- The links of src/hls/manifest.rs, `ProxyParams` and `ManifestOptions`. The vector of each link's
-- token is an argument; no link of a playlist has an expiration, so no time is read.
use mediaflow_proxy_light.Base.{Bool, false, List, [], ◌∷◌, ◌++◌, Option, none, some, Bytes, ascii}
use mediaflow_proxy_light.Auth.Encryption.{Json, Crates}
use mediaflow_proxy_light.Hls.SkipFilter.{SkipRange}
use mediaflow_proxy_light.Proxy.Links.{Pairs, Link, filled, build_proxy_url}
use mediaflow_proxy_light.Utils.Url.{segment_extension}

pub record ProxyParams : Type 0 where
  pub api_password : Bytes
  pub pass_headers : Pairs
  pub playlist_url : Option Bytes

abbrev pub new : Bytes → Pairs → ProxyParams
new api_password pass_headers = record {
  api_password = api_password;
  pass_headers = pass_headers;
  playlist_url = none;
}

abbrev pub api_password_opt : ProxyParams → Option Bytes
api_password_opt p = filled (some p.api_password)

abbrev pub with_playlist_url : ProxyParams → Bytes → ProxyParams
with_playlist_url p playlist_url = record p { playlist_url = some playlist_url }

abbrev pub segment_query : Option Bytes → Pairs
segment_query none = []
segment_query (some playlist_url) = (ascii "playlist_url", playlist_url) ∷ []

pub record ManifestOptions (F : Type 0) : Type 0 where
  pub key_only_proxy : Bool
  pub no_proxy : Bool
  pub force_playlist_proxy : Bool
  pub skip_ranges : List (SkipRange F)
  pub start_offset : Option F
  pub force_start_offset : Bool

pub record ManifestProcessor (F : Type 0) : Type 0 where
  pub proxy_base : Bytes
  pub params : ProxyParams
  pub opts : ManifestOptions F

abbrev pub link_to : Bytes → Bytes → Pairs → ProxyParams → Link
link_to endpoint destination query_params p = record {
  endpoint = some endpoint;
  destination_url = destination;
  query_params = query_params;
  request_headers = p.pass_headers;
  response_headers = [];
  propagate_response_headers = [];
  remove_response_headers = [];
  stream_transformer = none;
  filename = none;
  api_password = api_password_opt p;
  expiration = none;
  ip = none;
  base64_encode_destination = false;
}

module _ {J : Type 0} (json : Json J) (crates : Crates J) (url_encode : Bytes → Bytes) (iv : Bytes)
    (proxy_base : Bytes) (destination : Bytes) (p : ProxyParams) where
  unfoldable pub proxy_manifest_url : Bytes
  unfolding build_proxy_url
  proxy_manifest_url =
      build_proxy_url json crates url_encode 0 iv proxy_base
        (link_to (ascii "/proxy/hls/manifest") destination [] p)

  unfoldable pub proxy_segment_url : Bytes
  unfolding build_proxy_url segment_extension
  proxy_segment_url = build_proxy_url json crates url_encode 0 iv proxy_base (
      link_to (ascii "/proxy/hls/segment." ++ segment_extension destination) destination
        (segment_query p.playlist_url) p)

  unfoldable pub proxy_key_url : Bytes
  unfolding build_proxy_url
  proxy_key_url =
      build_proxy_url json crates url_encode 0 iv proxy_base
        (link_to (ascii "/proxy/hls/segment") destination [] p)
