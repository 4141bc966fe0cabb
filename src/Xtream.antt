-- ===== src/Xtream.antt =====
-- src/xtream: the proxy of the Xtream Codes API.
pub mod Auth
