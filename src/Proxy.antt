-- ===== src/Proxy.antt =====
-- src/proxy/handler.rs: the links to the proxy, and the guard of the forwarding proxy.
pub mod Forward
pub mod Links
