-- ===== src/Config.antt =====
-- src/config.rs: the router of upstream proxies, and the server path.
pub mod Router
