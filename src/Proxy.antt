-- ===== src/Proxy.antt =====
-- internal/proxy: the intercepting proxy.
pub mod Store
