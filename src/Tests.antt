-- ===== src/Tests.antt =====
-- Tests of the definitions, and the theorems at concrete inputs.
pub mod Fixtures
pub mod Hostname
pub mod Zone
pub mod Metrics
pub mod Ssl
pub mod Config
pub mod Process
pub mod Life
pub mod Plan
pub mod Cluster
pub mod Startup
