-- ===== src/Zone/Channel.antt =====
-- The channel to the worker: its bound.
use cf_edge_operator.Prelude.{
  ℕ, zero, suc, ◌+◌, ◌≤◌, ◌<◌, ◌≡◌, List, [], ◌∷◌, arith, length, length-append, drop,
}
use cf_edge_operator.Api.Saas.{CustomHostname}
use cf_edge_operator.Platform.Calls.{Call, Trace}
use cf_edge_operator.Platform.Env.{Env}
use cf_edge_operator.Platform.Action.{World, pure, call, peek, ◌>>=◌}
use cf_edge_operator.Platform.State.{read_events, write_events}
use cf_edge_operator.Zone.Config.{ZoneReconciler}
use cf_edge_operator.Platform.Calls.{drift_buffer_overflow_total}
use cf_edge_operator.Metrics.{cf_resource_custom_hostname}
use cf_edge_operator.Zone.Events.{buffered_events, enqueue, blocked, send_drift_event}

pub length-drop : {A : Type 0} (n : ℕ) (xs : List A) → length (drop n xs) ≤ length xs
length-drop zero xs = omega arith
length-drop (suc n) [] = omega arith
length-drop (suc n) (x ∷ xs) = omega (arith, length-drop n xs)

length-drop_one : {A : Type 0} (xs : List A) → 0 < length xs → length (drop 1 xs) + 1 ≡ length xs
length-drop_one [] h = absurd (omega arith)
length-drop_one (x ∷ xs) h = omega arith

-- The trace when the send has found the buffer full.
abbrev pub overflow : World → Trace
overflow w = Call.inc drift_buffer_overflow_total (cf_resource_custom_hostname ∷ []) ∷ w.trace

module _ (env : Env) (zr : ZoneReconciler) (ch : CustomHostname) where
  -- The events that the worker has not yet received when the send begins.
  abbrev pub waiting : World → List CustomHostname
  waiting w = drop (env.events_received w.trace) w.events

  -- A send leaves no more events in the buffer than the capacity of the channel, if that is
  -- positive and there were no more before.
  pub send_drift_event-bounded :
      (w : World)
      → 0 < zr.drift_buffer
      → length w.events ≤ zr.drift_buffer
      → length (send_drift_event env zr ch w).1.events ≤ zr.drift_buffer
  unfolding send_drift_event buffered_events enqueue blocked read_events write_events ◌>>=◌ call
      peek pure
  send_drift_event-bounded w room bounded = ground (
    arith,
    length-drop (env.events_received w.trace) w.events,
    length-drop 1 (waiting w),
    length-drop_one (waiting w),
    length-append (waiting w) (ch ∷ []),
    length-append (drop 1 (waiting w)) (ch ∷ []),
  )
