-- ===== src/Drm.antt =====
-- src/drm/: the decryption of CENC-protected MP4 segments.
pub mod Cipher
pub mod Sample
pub mod Tags
pub mod Decrypter
pub mod Keys
pub mod Moov
pub mod Moof
pub mod Mdat
pub mod Segment
pub mod Stream
