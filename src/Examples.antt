-- ===== src/Examples.antt =====
-- The theorems at work on concrete inputs.
pub mod Ciphers
pub mod Samples
pub mod Boxes
pub mod Requests
pub mod Streams
pub mod Sessions
pub mod Forwarding
pub mod Tokens
pub mod Guarding
pub mod Links
pub mod Skipping
pub mod Playlists
pub mod Routing
pub mod Downloads
