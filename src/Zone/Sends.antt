-- ===== src/Zone/Sends.antt =====
-- How `sendDriftEvent` moves the world, for a relation that does not depend on the buffer.
use cf_edge_operator.Prelude.{◌≡◌, refl, true, String, List}
use cf_edge_operator.Metrics.Vectors.{fits}
use cf_edge_operator.Api.Saas.{CustomHostname}
use cf_edge_operator.Platform.Calls.{Call, Counter}
use cf_edge_operator.Platform.Env.{Env, Blocked, received, shutdown}
use cf_edge_operator.Platform.Action.{World}
use cf_edge_operator.Platform.Moves.{Progress, Moves, Allows, moves_rules}
use cf_edge_operator.Platform.State.{write_events, state_rules}
use cf_edge_operator.Zone.Config.{ZoneReconciler}
use cf_edge_operator.Zone.Events.{buffered_events, enqueue, blocked, send_drift_event}

pub record AllowsSends (R : World → World → Type 0) : Type 0 where
  pub progress : Progress R
  pub allows_inc :
      (c : Counter) (labels : List String)
      → fits (Call.inc c labels) ≡ true
      → Allows R (Call.inc c labels)
  pub allows_send : (ch : CustomHostname) → Allows R (Call.send_event ch)
  pub moves_events : (events : List CustomHostname) → Moves R (write_events events)

module _ {R : World → World → Type 0} (allow : AllowsSends R) (env : Env) where
  chained : Progress R
  chained = allow.progress

  inc_allowed :
      (c : Counter) (labels : List String)
      → fits (Call.inc c labels) ≡ true
      → Allows R (Call.inc c labels)
  inc_allowed = allow.allows_inc

  send_allowed : (ch : CustomHostname) → Allows R (Call.send_event ch)
  send_allowed = allow.allows_send

  written : (events : List CustomHostname) → Moves R (write_events events)
  written = allow.moves_events

  ruleset rules = (moves_rules, state_rules, refl, chained, inc_allowed, send_allowed, written)

  pub buffered_events-Moves : Moves R (buffered_events env)
  unfolding buffered_events
  buffered_events-Moves = search rules depth 8

  enqueue-Moves : (ch : CustomHostname) (events : List CustomHostname) → Moves R (enqueue ch events)
  unfolding enqueue
  enqueue-Moves ch events = search rules depth 8

  blocked-Moves :
      (ch : CustomHostname) (events : List CustomHostname) (how : Blocked)
      → Moves R (blocked ch events how)
  unfolding blocked
  blocked-Moves ch events received = enqueue-Moves ch _
  blocked-Moves ch events shutdown = search rules

  pub send_drift_event-Moves :
      (zr : ZoneReconciler) (ch : CustomHostname) → Moves R (send_drift_event env zr ch)
  unfolding send_drift_event
  send_drift_event-Moves zr ch =
      search (rules, buffered_events-Moves, enqueue-Moves, blocked-Moves) depth 8
