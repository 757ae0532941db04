-- ===== src/Api.antt =====
-- The objects that the operator reads and writes.
pub mod Meta
pub mod Domains
pub mod Saas
pub mod Cloudflare
