-- ===== src/Hostname/Allowed/Ends.antt =====
-- How the ends of a reconcile move the world: what follows a create or an edit, the refresh of the
-- status, and the count of adoptions.
use cf_edge_operator.Prelude.{◌≡◌, refl, Bool, true}
use cf_edge_operator.Api.Saas.{CustomHostname}
use cf_edge_operator.Api.Cloudflare.{HostnameResponse}
use cf_edge_operator.Platform.Calls.{Call}
use cf_edge_operator.Platform.Env.{Env}
use cf_edge_operator.Platform.Action.{World}
use cf_edge_operator.Platform.Moves.{Progress, Moves, Allows, moves_rules}
use cf_edge_operator.Platform.State.{state_rules}
use cf_edge_operator.Metrics.Allowed.{
  AllowsMetrics, inc_allowed, record_cf_call-Moves, cf_retry-Moves,
}
use cf_edge_operator.Hostname.Config.{Reconciler}
use cf_edge_operator.Hostname.Client.{ZoneInfo}
use cf_edge_operator.Hostname.Create.{after_create}
use cf_edge_operator.Hostname.Update.{refresh, after_edit, count_adoption}
use cf_edge_operator.Hostname.Allowed.{create_op-fits, is_plain, AllowsReads, pace_write-Moves}
use cf_edge_operator.Hostname.Allowed.Saves.{requeue_or_ready-Moves}

module _ {searches : Bool} {R : World → World → Type 0} {env : Env}
    (allow : AllowsReads searches true R env) where
  chained : Progress R
  chained = allow.progress

  allowed : (c : Call) → is_plain searches true c ≡ true → Allows R c
  allowed = allow.plain

  metrics_allowed : AllowsMetrics R env
  metrics_allowed = allow.metrics

  ruleset rules = (
    moves_rules, chained, state_rules, allowed, refl, metrics_allowed, inc_allowed,
    record_cf_call-Moves, cf_retry-Moves,
  )

  ruleset steps = (rules, pace_write-Moves, requeue_or_ready-Moves)

  pub after_create-Moves :
      (r : Reconciler) (zi : ZoneInfo) (ch : CustomHostname) (resp : HostnameResponse)
      → Moves R (after_create env r zi ch resp)
  unfolding after_create
  after_create-Moves r zi ch resp = search (steps, create_op-fits) depth 8

  pub after_edit-Moves :
      (r : Reconciler) (zi : ZoneInfo) (ch : CustomHostname) (resp : HostnameResponse)
      → Moves R (after_edit env r zi ch resp)
  unfolding after_edit
  after_edit-Moves r zi ch resp = search steps depth 8

  pub refresh-Moves :
      (zi : ZoneInfo) (ch : CustomHostname) (existing : HostnameResponse)
      → Moves R (refresh env zi ch existing)
  unfolding refresh
  refresh-Moves zi ch existing = search steps

  pub count_adoption-Moves :
      (ch : CustomHostname) (existing : HostnameResponse) → Moves R (count_adoption ch existing)
  unfolding count_adoption
  count_adoption-Moves ch existing = search rules
