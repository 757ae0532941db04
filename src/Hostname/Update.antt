-- ===== src/Hostname/Update.antt =====
-- `reconcileCloudflareState`: lookup, adoption, correction of drift, refresh of the status.
use cf_edge_operator.Prelude.{String, ◌==◌, ◌!=◌, Option, none, some, [], ◌∷◌, if◌then◌else◌}
use cf_edge_operator.Api.Saas.{CustomHostname, CustomHostnameSsl}
use cf_edge_operator.Api.Cloudflare.{HostnameResponse, SslParams, CfClient, EditParams}
use cf_edge_operator.Platform.Errors.{Result}
use cf_edge_operator.Platform.Calls.{Call, operations_total}
use cf_edge_operator.Platform.Env.{Env}
use cf_edge_operator.Platform.Action.{Action, pure, call, peek, ◌>>=◌, ◌>>◌, handle, either}
use cf_edge_operator.Metrics.{
  cf_resource_custom_hostname, cf_op_adopt, cf_op_update, inc_counter, record_cf_call, cf_retry,
}
use cf_edge_operator.Ssl.{
  CfState, build_ssl_edit_params, cf_state_from_list, cf_state_from_edit, has_drift,
}
use cf_edge_operator.Hostname.Config.{
  Reconciler, Outcome, finish, error_of, pace_write, management_policy_of, management_policy_manage,
  management_policy_observe,
}
use cf_edge_operator.Hostname.Status.{set_condition, set_error, requeue_or_ready, clear_errors}
use cf_edge_operator.Hostname.Client.{ZoneInfo, lookup}
use cf_edge_operator.Hostname.Create.{handle_create}

abbrev pub edit_ssl : Option CustomHostnameSsl → HostnameResponse → Option SslParams
edit_ssl none existing = none
edit_ssl (some ssl) existing = some (build_ssl_edit_params ssl existing.ssl)

unfoldable pub edit_params : Reconciler → ZoneInfo → CustomHostname → HostnameResponse → EditParams
edit_params r zi ch existing = record {
  zone_id = zi.id;
  ssl = edit_ssl ch.spec.ssl existing;
  custom_origin_server = ch.spec.origin_server;
  custom_origin_sni = ch.spec.origin_sni;
  request_timeout = r.cf_api_write_timeout;
}

unfoldable pub edit_call : Env → CfClient → String → EditParams → Action (Result HostnameResponse)
edit_call env client id params = do
  start ← peek env.now
  resp ← call (Call.cf_edit client id params) (λ t. env.cf_edit t client id params)
  record_cf_call env cf_resource_custom_hostname cf_op_update start (error_of resp)
  pure resp

-- `ch.Status.SSL = state.ssl; ch.Status.HostnameStatus = state.hostnameStatus`
unfoldable pub with_state : CfState → CustomHostname → CustomHostname
with_state state ch = record ch {
  status = record ch.status { ssl = state.ssl; hostname_status = state.hostname_status };
}

-- The status is read from the list response where nothing was edited.
unfoldable pub refresh : Env → ZoneInfo → CustomHostname → HostnameResponse → Action Outcome
refresh env zi ch existing =
    requeue_or_ready env zi.cr (with_state (cf_state_from_list existing) ch)

unfoldable pub after_edit :
    Env → Reconciler → ZoneInfo → CustomHostname → HostnameResponse → Action Outcome
after_edit env r zi ch resp = do
  inc_counter operations_total (cf_resource_custom_hostname ∷ cf_op_update ∷ [])
  pace_write r
  requeue_or_ready env zi.cr (with_state (cf_state_from_edit resp) ch)

unfoldable pub update_hostname :
    Env → Reconciler → ZoneInfo → CustomHostname → HostnameResponse → Action Outcome
update_hostname env r zi ch existing = do
  (attempts, resp) ←
      cf_retry env cf_resource_custom_hostname cf_op_update r.cf_api_max_retries
        (edit_call env zi.client existing.id (edit_params r zi ch existing))
  handle resp
      (λ e. do failed ← set_error env ch "UpdateFailed" (env.error_text e); pure (finish failed))
      (after_edit env r zi ch)

-- Drift is corrected under the policy "manage" alone, and not in a dry run.
unfoldable pub correct_drift :
    Env → Reconciler → ZoneInfo → CustomHostname → HostnameResponse → Action Outcome
correct_drift env r zi ch existing =
    if has_drift existing ch
    then (if management_policy_of r ch != management_policy_manage
        then refresh env zi ch existing
        else if r.dry_run
        then refresh env zi ch existing
        else update_hostname env r zi ch existing)
    else refresh env zi ch existing

-- The ID of the hostname that was found, where it is not the recorded one.
unfoldable pub adopt : CustomHostname → HostnameResponse → CustomHostname
adopt ch existing = record ch {
  status = record ch.status {
    id = if ch.status.id != existing.id then existing.id else ch.status.id;
  };
}

unfoldable pub count_adoption : CustomHostname → HostnameResponse → Action (Unit {0})
count_adoption ch existing =
    if ch.status.id != existing.id
    then inc_counter operations_total (cf_resource_custom_hostname ∷ cf_op_adopt ∷ [])
    else pure tt

unfoldable pub reconcile_existing :
    Env → Reconciler → ZoneInfo → CustomHostname → HostnameResponse → Action Outcome
reconcile_existing env r zi ch existing = do
  count_adoption ch existing
  correct_drift env r zi (adopt ch existing) existing

unfoldable pub reconcile_missing : Env → Reconciler → ZoneInfo → CustomHostname → Action Outcome
reconcile_missing env r zi ch =
    if management_policy_of r ch == management_policy_observe
    then (do
      e ←
          set_condition env (clear_errors ch) "False" "WaitingForExternal"
            "Hostname not yet provisioned in Cloudflare"
      pure (finish e))
    else handle_create env r zi ch

unfoldable pub reconcile_cloudflare_state :
    Env → Reconciler → ZoneInfo → CustomHostname → Action Outcome
reconcile_cloudflare_state env r zi ch = do
  (attempts, found) ← lookup env r zi.client zi.id ch.spec.hostname
  handle found
      (λ e. do failed ← set_error env ch "LookupFailed" (env.error_text e); pure (finish failed))
      (λ existing. either existing (reconcile_missing env r zi ch) (reconcile_existing env r zi ch))
