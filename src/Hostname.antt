-- ===== src/Hostname.antt =====
-- internal/controller/customhostname_controller.go: the worker, which writes to Cloudflare.
pub mod Config
pub mod Status
pub mod Client
pub mod Create
pub mod Update
pub mod Delete
pub mod Reconcile
pub mod Allowed
pub mod Plan
pub mod Authorized
pub mod Corrected
pub mod Duplicates
pub mod Deadlock
pub mod Recorded
pub mod Records
pub mod Guards
pub mod Lookup
pub mod Effort
pub mod Endings
