-- ===== src/Hostname/Effort/Total.antt =====
-- How often a reconcile of the worker calls Cloudflare, whatever the object.
use cf_edge_operator.Prelude.{◌+◌, ◌*◌, ◌≤◌, refl, arith}
use cf_edge_operator.Api.Meta.{NamespacedName}
use cf_edge_operator.Api.Saas.{CustomHostname}
use cf_edge_operator.Platform.Env.{Env}
use cf_edge_operator.Platform.Action.{World}
use cf_edge_operator.Platform.Moves.{Moves-call}
use cf_edge_operator.Platform.Emits.{ByCalls-Allows}
use cf_edge_operator.Metrics.Retry.{count}
use cf_edge_operator.Hostname.Config.{Reconciler}
use cf_edge_operator.Hostname.Reconcile.{reconcile_object, reconcile}
use cf_edge_operator.Hostname.Allowed.{is_cf_call}
use cf_edge_operator.Hostname.Effort.{AtMost, AtMost-after}
use cf_edge_operator.Hostname.Effort.Requests.{attempts, away_chained, bounds}
use cf_edge_operator.Hostname.Effort.Live.{reconcile_live-AtMost}
use cf_edge_operator.Hostname.Effort.Deletion.{reconcile_deletion-AtMost}

module _ (env : Env) where
  reconcile_object-AtMost :
      (r : Reconciler) (ch : CustomHostname)
      → AtMost (attempts r + attempts r) (reconcile_object env r ch)
  unfolding reconcile_object
  reconcile_object-AtMost r ch =
      search (bounds, reconcile_live-AtMost, reconcile_deletion-AtMost) depth 8

  reconcile-AtMost :
      (r : Reconciler) (key : NamespacedName)
      → AtMost (attempts r + attempts r) (reconcile env r key)
  unfolding reconcile
  reconcile-AtMost r key =
      AtMost-after _ _ (Moves-call away_chained _ _ (ByCalls-Allows refl))
        λ found. search (bounds, reconcile_object-AtMost) depth 8

-- A run of `Reconcile` calls Cloudflare at most twice as often as one request may be attempted, which
-- is once more than the configured number of retries. It holds whatever the servers answer.
pub reconcile-calls :
    (env : Env) (r : Reconciler) (key : NamespacedName) (w : World)
    → count is_cf_call (reconcile env r key w).1.trace
      ≤ count is_cf_call w.trace + 2 * (r.cf_api_max_retries + 1)
reconcile-calls env r key w = omega (arith, (reconcile-AtMost env r key).at w)
