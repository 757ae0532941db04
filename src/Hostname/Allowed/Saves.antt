-- ===== src/Hostname/Allowed/Saves.antt =====
-- How the operations that save a resource move the world.
use cf_edge_operator.Prelude.{◌≡◌, refl, String, Bool, true, Option, none, some}
use cf_edge_operator.Api.Saas.{CustomHostname, CustomHostnameSslStatus}
use cf_edge_operator.Platform.Calls.{Call}
use cf_edge_operator.Platform.Env.{Env}
use cf_edge_operator.Platform.Action.{World}
use cf_edge_operator.Platform.Moves.{Progress, Moves, Allows, moves_rules}
use cf_edge_operator.Platform.State.{state_rules}
use cf_edge_operator.Metrics.Allowed.{
  AllowsMetrics, record_cf_call-Moves, cf_retry-Moves, set_ssl_provisioning_duration-Moves,
}
use cf_edge_operator.Hostname.Status.{
  set_condition, set_conflict, set_error, check_peers, detect_conflict, set_ready, requeue_or_ready,
  clear_errors,
}
use cf_edge_operator.Hostname.Delete.{release_finalizer}
use cf_edge_operator.Hostname.Allowed.{is_plain, AllowsReads, observe_provisioning-Moves}

module _ {searches : Bool} {R : World → World → Type 0} {env : Env}
    (allow : AllowsReads searches true R env) where
  chained : Progress R
  chained = allow.progress

  allowed : (c : Call) → is_plain searches true c ≡ true → Allows R c
  allowed = allow.plain

  metrics_allowed : AllowsMetrics R env
  metrics_allowed = allow.metrics

  ruleset rules = (
    moves_rules, chained, state_rules, allowed, refl, metrics_allowed, record_cf_call-Moves,
    cf_retry-Moves, set_ssl_provisioning_duration-Moves,
  )

  pub set_condition-Moves :
      (ch : CustomHostname) (status reason message : String)
      → Moves R (set_condition env ch status reason message)
  unfolding set_condition
  set_condition-Moves ch status reason message = search rules

  pub set_error-Moves :
      (ch : CustomHostname) (reason message : String) → Moves R (set_error env ch reason message)
  unfolding set_error
  set_error-Moves ch reason message = search (rules, set_condition-Moves)

  pub check_peers-Moves :
      (ch : CustomHostname) (owner : Option CustomHostname) → Moves R (check_peers env ch owner)
  unfolding check_peers set_conflict
  check_peers-Moves ch none = search rules
  check_peers-Moves ch (some peer) = search (rules, set_condition-Moves)

  pub detect_conflict-Moves : (ch : CustomHostname) → Moves R (detect_conflict env ch)
  unfolding detect_conflict
  detect_conflict-Moves ch = search (rules, check_peers-Moves)

  pub set_ready-Moves :
      (zone_cr : String) (ch : CustomHostname) (ssl : Option CustomHostnameSslStatus)
      → Moves R (set_ready env zone_cr ch ssl)
  unfolding set_ready
  set_ready-Moves zone_cr ch ssl =
      search (rules, set_condition-Moves, observe_provisioning-Moves) depth 8

  pub requeue_or_ready-Moves :
      (zone_cr : String) (ch : CustomHostname) → Moves R (requeue_or_ready env zone_cr ch)
  unfolding requeue_or_ready
  requeue_or_ready-Moves zone_cr ch = set_ready-Moves zone_cr (clear_errors ch) ch.status.ssl

  pub release_finalizer-Moves : (ch : CustomHostname) → Moves R (release_finalizer env ch)
  unfolding release_finalizer
  release_finalizer-Moves ch = search rules
