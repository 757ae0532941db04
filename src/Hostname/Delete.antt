-- ===== src/Hostname/Delete.antt =====
-- The deletion of a custom resource.
use cf_edge_operator.Prelude.{
  String, ◌==◌, Bool, false, not, ◌&&◌, Option, none, some, [], ◌∷◌, if◌then◌else◌,
}
use cf_edge_operator.Api.Saas.{CustomHostname}
use cf_edge_operator.Api.Cloudflare.{HostnameResponse, CfClient, DeleteParams}
use cf_edge_operator.Platform.Errors.{Err, Result, ok, err, has_status_code}
use cf_edge_operator.Platform.Calls.{Call, operations_total}
use cf_edge_operator.Platform.Env.{Env}
use cf_edge_operator.Platform.Action.{Action, pure, call, peek, ◌>>=◌, ◌>>◌, handle}
use cf_edge_operator.Metrics.{
  cf_resource_custom_hostname, cf_op_delete, inc_counter, record_cf_call, cf_retry,
}
use cf_edge_operator.Hostname.Config.{
  Reconciler, Outcome, finish, pace_write, finalizer_name, management_policy_of,
  management_policy_observe, delete_policy_of, delete_policy_never, delete_policy_own_only,
}
use cf_edge_operator.Hostname.Client.{lookup, build_cloudflare_client}

abbrev pub has_finalizer : Env → CustomHostname → Bool
has_finalizer env ch = env.contains_finalizer ch.metadata.finalizers finalizer_name

unfoldable pub released : Env → CustomHostname → CustomHostname
released env ch = record ch {
  metadata = record ch.metadata {
    finalizers = env.remove_finalizer ch.metadata.finalizers finalizer_name;
  };
}

-- `controllerutil.RemoveFinalizer(ch, finalizerName); return ctrl.Result{}, r.Update(ctx, ch)`
unfoldable pub release_finalizer : Env → CustomHostname → Action Outcome
release_finalizer env ch = do
  e ← call (Call.update (released env ch)) (λ t. env.update t (released env ch))
  pure (finish e)

unfoldable pub should_delete_in_cf : String → Option HostnameResponse → Bool
should_delete_in_cf status_id none = false
should_delete_in_cf status_id (some current) = current.id == status_id

abbrev pub delete_params : Reconciler → String → DeleteParams
delete_params r zone_id = record { zone_id = zone_id; request_timeout = r.cf_api_write_timeout }

-- The result of a call that returns an error or nothing of interest.
abbrev pub result_of : Option Err → Result (Unit {0})
result_of none = ok tt
result_of (some e) = err e

unfoldable pub delete_call :
    Env → Reconciler → CfClient → (zone_id id : String) → Action (Result (Unit {0}))
delete_call env r client zone_id id = do
  start ← peek env.now
  e ←
      call (Call.cf_delete client id (delete_params r zone_id))
        (λ t. env.cf_delete t client id (delete_params r zone_id))
  record_cf_call env cf_resource_custom_hostname cf_op_delete start e
  pure (result_of e)

-- A hostname that is gone already, error 404, counts as deleted.
unfoldable pub delete_hostname :
    Env → Reconciler → CfClient → (zone_id : String) → CustomHostname → Action Outcome
delete_hostname env r client zone_id ch = do
  (attempts, deleted) ←
      cf_retry env cf_resource_custom_hostname cf_op_delete r.cf_api_max_retries
        (delete_call env r client zone_id ch.status.id)
  handle deleted
      (λ e. if has_status_code e 404 then release_finalizer env ch else pure (finish (some e)))
      (λ _. do
        inc_counter operations_total (cf_resource_custom_hostname ∷ cf_op_delete ∷ [])
        pace_write r
        release_finalizer env ch)

unfoldable pub delete_own :
    Env → Reconciler → CfClient → (zone_id : String) → CustomHostname → Action Outcome
delete_own env r client zone_id ch = do
  (attempts, found) ← lookup env r client zone_id ch.spec.hostname
  handle found (λ e. pure (finish (some e)))
      (λ current.
        if not (should_delete_in_cf ch.status.id current)
        then release_finalizer env ch
        else delete_hostname env r client zone_id ch)

unfoldable pub handle_delete :
    Env → Reconciler → CfClient → (zone_id : String) → CustomHostname → Action Outcome
handle_delete env r client zone_id ch =
    if r.dry_run
    then release_finalizer env ch
    else if has_finalizer env ch
    then (if delete_policy_of r ch == delete_policy_own_only
        then delete_own env r client zone_id ch
        else delete_hostname env r client zone_id ch)
    else release_finalizer env ch

unfoldable pub delete_in_cloudflare : Env → Reconciler → CustomHostname → Action Outcome
delete_in_cloudflare env r ch = do
  built ← build_cloudflare_client env r ch
  handle built (λ e. pure (finish (some e))) (λ zi. handle_delete env r zi.client zi.id ch)

-- The branch of `Reconcile` for an object with a deletion timestamp.
unfoldable pub reconcile_deletion : Env → Reconciler → CustomHostname → Action Outcome
reconcile_deletion env r ch =
    if has_finalizer env ch && ch.status.id == ""
    then release_finalizer env ch
    else if has_finalizer env ch && management_policy_of r ch == management_policy_observe
    then release_finalizer env ch
    else if has_finalizer env ch && delete_policy_of r ch == delete_policy_never
    then release_finalizer env ch
    else delete_in_cloudflare env r ch
