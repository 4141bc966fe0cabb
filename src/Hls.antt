-- ===== src/Hls.antt =====
-- src/hls: playlists and their links, the skip filter, and the pre-buffer of segments.
pub mod Prebuffer
pub mod SkipFilter
pub mod Links
pub mod Manifest
