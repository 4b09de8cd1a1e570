-- ===== src/Proxy.antt =====
-- internal/proxy: the edge. Rate limits, the upstream pool, static files and routing.
pub mod Limiter
pub mod Pool
pub mod Static
pub mod Request
pub mod Router
