-- ===== src/Zone/Events.antt =====
-- `sendDriftEvent` on the buffered channel to the worker.
use cf_edge_operator.Prelude.{List, [], ◌∷◌, ◌++◌, ltb, length, drop, if◌then◌else◌}
use cf_edge_operator.Api.Saas.{CustomHostname}
use cf_edge_operator.Platform.Calls.{Call, drift_buffer_overflow_total}
use cf_edge_operator.Platform.Env.{Env, Blocked, received, shutdown}
use cf_edge_operator.Platform.Action.{Action, pure, call, peek, ◌>>=◌, ◌>>◌}
use cf_edge_operator.Platform.State.{read_events, write_events}
use cf_edge_operator.Metrics.{cf_resource_custom_hostname, inc_counter}
use cf_edge_operator.Zone.Config.{ZoneReconciler}

-- The buffer, without the events that the worker has received in the meantime.
unfoldable pub buffered_events : Env → Action (List CustomHostname)
buffered_events env = do
  events ← read_events
  n ← peek env.events_received
  write_events (drop n events)
  pure (drop n events)

unfoldable pub enqueue : CustomHostname → List CustomHostname → Action (Unit {0})
enqueue ch events = do call (Call.send_event ch) (λ _. tt); write_events (events ++ ch ∷ [])

-- A full channel blocks until the worker receives the oldest event, or until shutdown.
unfoldable pub blocked : CustomHostname → List CustomHostname → Blocked → Action (Unit {0})
blocked ch events received = enqueue ch (drop 1 events)
blocked ch events shutdown = pure tt

unfoldable pub send_drift_event : Env → ZoneReconciler → CustomHostname → Action (Unit {0})
send_drift_event env zr ch = do
  events ← buffered_events env
  (if ltb (length events) zr.drift_buffer then enqueue ch events else do
    inc_counter drift_buffer_overflow_total (cf_resource_custom_hostname ∷ [])
    how ← peek env.blocked_send
    blocked ch events how)
