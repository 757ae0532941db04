-- ===== src/Platform/State.antt =====
-- The state of the process, read and written with no call.
use cf_edge_operator.Prelude.{String, List}
use cf_edge_operator.Api.Saas.{CustomHostname}
use cf_edge_operator.Platform.Action.{World, Action, ProvisioningEntry}
use cf_edge_operator.Platform.Moves.{Progress, Moves}

unfoldable pub read_provisioning : Action (List (String × ProvisioningEntry))
read_provisioning w = (w.provisioning, w)

unfoldable pub write_provisioning : List (String × ProvisioningEntry) → Action (Unit {0})
write_provisioning entries w = (tt, record w { provisioning = entries })

unfoldable pub read_events : Action (List CustomHostname)
read_events w = (w.events, w)

unfoldable pub write_events : List CustomHostname → Action (Unit {0})
write_events events w = (tt, record w { events = events })

module _ {R : World → World → Type 0} (progress : Progress R) where
  pub Moves-read_provisioning : Moves R read_provisioning
  unfolding read_provisioning
  Moves-read_provisioning = record { at = progress.stays }

  pub Moves-read_events : Moves R read_events
  unfolding read_events
  Moves-read_events = record { at = progress.stays }

pub ruleset state_rules = (Moves-read_provisioning, Moves-read_events)
