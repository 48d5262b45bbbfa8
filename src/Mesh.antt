-- ===== src/Mesh.antt =====
-- internal/mesh: what the sidecar does for the proxies of a mesh.
pub mod RateLimit
pub mod Options
pub mod Rotator
pub mod CaClient
pub mod Metrics
