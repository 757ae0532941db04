-- ===== src/Hostname/Effort/Deletion.antt =====
-- How often a reconcile of an object that is being deleted calls Cloudflare.
use cf_edge_operator.Prelude.{true, ◌+◌, String, false, arith}
use cf_edge_operator.Api.Saas.{CustomHostname}
use cf_edge_operator.Api.Cloudflare.{CfClient}
use cf_edge_operator.Platform.Env.{Env}
use cf_edge_operator.Platform.Emits.{ByCalls}
use cf_edge_operator.Hostname.Config.{Reconciler}
use cf_edge_operator.Hostname.Delete.{
  delete_hostname, delete_own, handle_delete, delete_in_cloudflare, reconcile_deletion,
}
use cf_edge_operator.Hostname.Allowed.{
  AwayFromCf, AllowsReads, away_emit, build_cloudflare_client-Moves,
}
use cf_edge_operator.Hostname.Effort.{
  AtMost, AtMost-more, AtMost-bind, AtMost-before, AtMost-after, cf_retry-AtMost,
}
use cf_edge_operator.Hostname.Effort.Requests.{
  attempts, away_rules, metrics_away, bounds, delete_call-AtMost, lookup-AtMost,
}

module _ (env : Env) where
  reads : AllowsReads false true (ByCalls AwayFromCf) env
  reads = away_emit env

  delete_hostname-AtMost :
      (r : Reconciler) (client : CfClient) (zone_id : String) (ch : CustomHostname)
      → AtMost (attempts r) (delete_hostname env r client zone_id ch)
  unfolding delete_hostname
  delete_hostname-AtMost r client zone_id ch =
      AtMost-before _ _
        (cf_retry-AtMost env _ _ _ (delete_call-AtMost env _ _ _ _) r.cf_api_max_retries)
        λ answer. search (away_rules, reads, metrics_away env) depth 8

  delete_hostname-within :
      (r : Reconciler) (client : CfClient) (zone_id : String) (ch : CustomHostname)
      → AtMost (attempts r + attempts r) (delete_hostname env r client zone_id ch)
  delete_hostname-within r client zone_id ch =
      AtMost-more (omega arith) (delete_hostname-AtMost r client zone_id ch)

  delete_own-AtMost :
      (r : Reconciler) (client : CfClient) (zone_id : String) (ch : CustomHostname)
      → AtMost (attempts r + attempts r) (delete_own env r client zone_id ch)
  unfolding delete_own
  delete_own-AtMost r client zone_id ch =
      AtMost-bind _ _ (lookup-AtMost env r client zone_id ch.spec.hostname)
        λ answer. search (bounds, reads, delete_hostname-AtMost) depth 8

  handle_delete-AtMost :
      (r : Reconciler) (client : CfClient) (zone_id : String) (ch : CustomHostname)
      → AtMost (attempts r + attempts r) (handle_delete env r client zone_id ch)
  unfolding handle_delete
  handle_delete-AtMost r client zone_id ch =
      search (bounds, reads, delete_own-AtMost, delete_hostname-within) depth 8

  delete_in_cloudflare-AtMost :
      (r : Reconciler) (ch : CustomHostname)
      → AtMost (attempts r + attempts r) (delete_in_cloudflare env r ch)
  unfolding delete_in_cloudflare
  delete_in_cloudflare-AtMost r ch =
      AtMost-after _ _ (build_cloudflare_client-Moves reads r ch)
        λ built. search (bounds, handle_delete-AtMost) depth 8

  pub reconcile_deletion-AtMost :
      (r : Reconciler) (ch : CustomHostname)
      → AtMost (attempts r + attempts r) (reconcile_deletion env r ch)
  unfolding reconcile_deletion
  reconcile_deletion-AtMost r ch = search (bounds, reads, delete_in_cloudflare-AtMost) depth 8
