-- ===== src/Hostname/Allowed/Deletion.antt =====
-- The calls of a reconcile of an object that is being deleted.
use cf_edge_operator.Prelude.{◌≡◌, refl, String, true, false, ◌&&◌, ◌==◌}
use cf_edge_operator.Api.Saas.{CustomHostname}
use cf_edge_operator.Api.Cloudflare.{CfClient}
use cf_edge_operator.Platform.Calls.{Call}
use cf_edge_operator.Platform.Env.{Env}
use cf_edge_operator.Platform.Action.{World}
use cf_edge_operator.Platform.Moves.{Progress, Moves, Allows, Moves-if, moves_rules}
use cf_edge_operator.Platform.State.{state_rules}
use cf_edge_operator.Metrics.Allowed.{
  AllowsMetrics, inc_allowed, record_cf_call-Moves, cf_retry-Moves,
}
use cf_edge_operator.Hostname.Config.{
  Reconciler, management_policy_of, management_policy_observe, delete_policy_of,
  delete_policy_never,
}
use cf_edge_operator.Hostname.Delete.{
  has_finalizer, delete_params, delete_call, delete_hostname, delete_own, handle_delete,
  delete_in_cloudflare, reconcile_deletion,
}
use cf_edge_operator.Hostname.Allowed.{
  is_plain, AllowsReads, pace_write-Moves, build_cloudflare_client-Moves,
}
use cf_edge_operator.Hostname.Allowed.Saves.{
  set_condition-Moves, set_error-Moves, detect_conflict-Moves, requeue_or_ready-Moves,
  release_finalizer-Moves,
}
use cf_edge_operator.Hostname.Allowed.Search.{lookup-Moves}

module _ {R : World → World → Type 0} {env : Env} (allow : AllowsReads true true R env) where
  chained : Progress R
  chained = allow.progress

  allowed : (c : Call) → is_plain true true c ≡ true → Allows R c
  allowed = allow.plain

  metrics_allowed : AllowsMetrics R env
  metrics_allowed = allow.metrics

  ruleset rules = (
    moves_rules, chained, state_rules, allowed, refl, metrics_allowed, inc_allowed,
    record_cf_call-Moves, cf_retry-Moves,
  )

  ruleset steps = (
    rules, pace_write-Moves, set_condition-Moves, set_error-Moves, requeue_or_ready-Moves,
    lookup-Moves, release_finalizer-Moves, build_cloudflare_client-Moves, detect_conflict-Moves,
  )

  pub delete_call-Moves :
      (r : Reconciler) (client : CfClient) (zone_id id : String)
      → Allows R (Call.cf_delete client id (delete_params r zone_id))
      → Moves R (delete_call env r client zone_id id)
  unfolding delete_call
  delete_call-Moves r client zone_id id q = search rules depth 8

  delete_hostname-Moves :
      (r : Reconciler) (client : CfClient) (zone_id : String) (ch : CustomHostname)
      → Allows R (Call.cf_delete client ch.status.id (delete_params r zone_id))
      → Moves R (delete_hostname env r client zone_id ch)
  unfolding delete_hostname
  delete_hostname-Moves r client zone_id ch q = search (steps, delete_call-Moves) depth 10

  delete_own-Moves :
      (r : Reconciler) (client : CfClient) (zone_id : String) (ch : CustomHostname)
      → Allows R (Call.cf_delete client ch.status.id (delete_params r zone_id))
      → Moves R (delete_own env r client zone_id ch)
  unfolding delete_own
  delete_own-Moves r client zone_id ch q = search (steps, delete_hostname-Moves) depth 10

  handle_delete-Moves :
      (r : Reconciler) (client : CfClient) (zone_id : String) (ch : CustomHostname)
      → (r.dry_run ≡ false
          → has_finalizer env ch ≡ true
          → Allows R (Call.cf_delete client ch.status.id (delete_params r zone_id)))
      → Moves R (handle_delete env r client zone_id ch)
  unfolding handle_delete
  handle_delete-Moves r client zone_id ch q =
      search (steps, delete_hostname-Moves, delete_own-Moves) depth 10

  delete_in_cloudflare-Moves :
      (r : Reconciler) (ch : CustomHostname)
      → ((client : CfClient) (zone_id : String)
          → r.dry_run ≡ false
          → has_finalizer env ch ≡ true
          → Allows R (Call.cf_delete client ch.status.id (delete_params r zone_id)))
      → Moves R (delete_in_cloudflare env r ch)
  unfolding delete_in_cloudflare
  delete_in_cloudflare-Moves r ch q = search (steps, handle_delete-Moves) depth 8

  -- What the predicate must allow of the deletion of an object in Cloudflare.
  abbrev pub AllowsDelete : (r : Reconciler) (ch : CustomHostname) → Type 0
  AllowsDelete r ch =
      (client : CfClient) (zone_id : String)
      → (has_finalizer env ch && ch.status.id == "") ≡ false
      → (has_finalizer env ch && management_policy_of r ch == management_policy_observe) ≡ false
      → (has_finalizer env ch && delete_policy_of r ch == delete_policy_never) ≡ false
      → r.dry_run ≡ false
      → has_finalizer env ch ≡ true
      → Allows R (Call.cf_delete client ch.status.id (delete_params r zone_id))

  pub reconcile_deletion-Moves :
      (r : Reconciler) (ch : CustomHostname)
      → AllowsDelete r ch
      → Moves R (reconcile_deletion env r ch)
  unfolding reconcile_deletion
  reconcile_deletion-Moves r ch q =
      Moves-if _ _ _ (λ _. release_finalizer-Moves allow ch)
        λ has_id.
          Moves-if _ _ _ (λ _. release_finalizer-Moves allow ch)
            λ not_observed.
              Moves-if _ _ _ (λ _. release_finalizer-Moves allow ch)
                λ may_delete.
                  delete_in_cloudflare-Moves r ch
                    λ client zone_id. q client zone_id has_id not_observed may_delete
