-- ===== src/Utils.antt =====
-- src/utils: helpers that several handlers share.
pub mod Url
