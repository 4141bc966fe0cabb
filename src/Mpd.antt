-- ===== src/Mpd.antt =====
-- src/mpd: DASH manifests and their segments.
pub mod Sidx
