-- ===== src/Hostname/Allowed/Search.antt =====
-- How a search for a hostname in Cloudflare moves the world.
use cf_edge_operator.Prelude.{Bool, ◌≡◌, refl, String, true}
use cf_edge_operator.Api.Cloudflare.{CfClient}
use cf_edge_operator.Platform.Calls.{Call}
use cf_edge_operator.Platform.Env.{Env}
use cf_edge_operator.Platform.Action.{World}
use cf_edge_operator.Platform.Moves.{Progress, Moves, Allows, moves_rules}
use cf_edge_operator.Platform.State.{state_rules}
use cf_edge_operator.Metrics.Allowed.{
  AllowsMetrics, record_cf_call-Moves, cf_retry-Moves, set_ssl_provisioning_duration-Moves,
}
use cf_edge_operator.Hostname.Config.{Reconciler}
use cf_edge_operator.Hostname.Client.{find_by_hostname, lookup}
use cf_edge_operator.Hostname.Allowed.{is_plain, AllowsReads}

module _ {saves : Bool} {R : World → World → Type 0} {env : Env}
    (allow : AllowsReads true saves R env) where
  chained : Progress R
  chained = allow.progress

  allowed : (c : Call) → is_plain true saves c ≡ true → Allows R c
  allowed = allow.plain

  metrics_allowed : AllowsMetrics R env
  metrics_allowed = allow.metrics

  ruleset rules = (
    moves_rules, chained, state_rules, allowed, refl, metrics_allowed, record_cf_call-Moves,
    cf_retry-Moves, set_ssl_provisioning_duration-Moves,
  )

  pub find_by_hostname-Moves :
      (client : CfClient) (zone_id hostname : String)
      → Moves R (find_by_hostname env client zone_id hostname)
  unfolding find_by_hostname
  find_by_hostname-Moves client zone_id hostname = search rules depth 8

  pub lookup-Moves :
      (r : Reconciler) (client : CfClient) (zone_id hostname : String)
      → Moves R (lookup env r client zone_id hostname)
  unfolding lookup
  lookup-Moves r client zone_id hostname = search (rules, find_by_hostname-Moves)
