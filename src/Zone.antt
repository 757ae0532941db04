-- ===== src/Zone.antt =====
-- internal/controller/zone_controller.go and zone_customhostname_drift.go: the coordinator, which
-- lists the hostnames of a zone and enqueues the custom resources that need a reconcile.
pub mod Config
pub mod State
pub mod Listing
pub mod Events
pub mod Drift
pub mod Reconcile
pub mod Counts
pub mod Gauges
pub mod Keys
pub mod Published
pub mod Order
pub mod Stale
pub mod Retries
pub mod Channel
pub mod Settled
pub mod Unsettled
pub mod Sends
pub mod Moves
pub mod ReadOnly
pub mod Converges
pub mod Sent
pub mod States
