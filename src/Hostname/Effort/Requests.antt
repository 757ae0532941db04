-- ===== src/Hostname/Effort/Requests.antt =====
-- How often one request to Cloudflare is sent.
use cf_edge_operator.Prelude.{
  ℕ, ◌+◌, ◌*◌, ◌≤◌, ◌≡◌, refl, Option, none, some, String, true, false, arith,
}
use cf_edge_operator.Api.Cloudflare.{CfClient, NewParams, EditParams}
use cf_edge_operator.Platform.Calls.{Call}
use cf_edge_operator.Platform.Env.{Env}
use cf_edge_operator.Platform.Moves.{Progress, Allows, Moves-call, Moves-handle, moves_rules}
use cf_edge_operator.Platform.Emits.{ByCalls, ByCalls-Progress}
use cf_edge_operator.Platform.State.{state_rules}
use cf_edge_operator.Metrics.Allowed.{AllowsMetrics, inc_allowed, record_cf_call-Moves}
use cf_edge_operator.Hostname.Config.{Reconciler}
use cf_edge_operator.Hostname.Client.{find_by_hostname, lookup}
use cf_edge_operator.Hostname.Create.{create_call}
use cf_edge_operator.Hostname.Update.{edit_call}
use cf_edge_operator.Hostname.Delete.{delete_call}
use cf_edge_operator.Hostname.Allowed.{
  is_cf_call, is_plain, AwayFromCf, AllowsReads, away_emit, pace_write-Moves,
  build_cloudflare_client-Moves,
}
use cf_edge_operator.Hostname.Allowed.Saves.{
  set_condition-Moves, set_error-Moves, detect_conflict-Moves, release_finalizer-Moves,
}
use cf_edge_operator.Hostname.Effort.{
  AtMost, AtMost-away, AtMost-more, AtMost-if, AtMost-handle, AtMost-either, AtMost-bind,
  AtMost-before, AtMost-after, AtMost-pure, AtMost-call, cf_retry-AtMost,
}

pub away_chained : Progress (ByCalls AwayFromCf)
away_chained = ByCalls-Progress AwayFromCf

pub plain_allowed :
    (env : Env) (c : Call) → is_plain false true c ≡ true → Allows (ByCalls AwayFromCf) c
plain_allowed env = (away_emit env).plain

pub metrics_away : (env : Env) → AllowsMetrics (ByCalls AwayFromCf) env
metrics_away env = (away_emit env).metrics

-- The rules of actions that do not call Cloudflare.
pub ruleset away_rules = (
  moves_rules, away_chained, state_rules, plain_allowed, refl, metrics_away, inc_allowed,
  record_cf_call-Moves, pace_write-Moves, set_condition-Moves, set_error-Moves,
  detect_conflict-Moves, release_finalizer-Moves, build_cloudflare_client-Moves,
)

-- The rules of a bound on the calls.
pub ruleset bounds = (away_rules, AtMost-if, AtMost-handle, AtMost-either, AtMost-pure, AtMost-away)

-- The attempts that the worker makes of one call to Cloudflare.
abbrev pub attempts : Reconciler → ℕ
attempts r = r.cf_api_max_retries + 1

module _ (env : Env) where
  find_by_hostname-AtMost :
      (client : CfClient) (zone_id hostname : String)
      → AtMost 1 (find_by_hostname env client zone_id hostname)
  unfolding find_by_hostname
  find_by_hostname-AtMost client zone_id hostname =
      AtMost-after _ _ (search away_rules)
        λ start. AtMost-before _ _ (AtMost-call _ _) λ pages. search away_rules depth 8

  pub create_call-AtMost :
      (client : CfClient) (params : NewParams) → AtMost 1 (create_call env client params)
  unfolding create_call
  create_call-AtMost client params =
      AtMost-after _ _ (search away_rules)
        λ start. AtMost-before _ _ (AtMost-call _ _) λ resp. search away_rules

  pub edit_call-AtMost :
      (client : CfClient) (id : String) (params : EditParams)
      → AtMost 1 (edit_call env client id params)
  unfolding edit_call
  edit_call-AtMost client id params =
      AtMost-after _ _ (search away_rules)
        λ start. AtMost-before _ _ (AtMost-call _ _) λ resp. search away_rules

  pub delete_call-AtMost :
      (r : Reconciler) (client : CfClient) (zone_id id : String)
      → AtMost 1 (delete_call env r client zone_id id)
  unfolding delete_call
  delete_call-AtMost r client zone_id id =
      AtMost-after _ _ (search away_rules)
        λ start. AtMost-before _ _ (AtMost-call _ _) λ e. search away_rules

  pub lookup-AtMost :
      (r : Reconciler) (client : CfClient) (zone_id hostname : String)
      → AtMost (attempts r) (lookup env r client zone_id hostname)
  unfolding lookup
  lookup-AtMost r client zone_id hostname =
      cf_retry-AtMost env _ _ _ (find_by_hostname-AtMost client zone_id hostname)
        r.cf_api_max_retries
