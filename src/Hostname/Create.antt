-- ===== src/Hostname/Create.antt =====
-- `handleCreate`
use cf_edge_operator.Prelude.{
  ℕ, String, Option, none, some, [], ◌∷◌, int32_succ, int32_positive, if◌then◌else◌,
}
use cf_edge_operator.Api.Saas.{CustomHostname, CustomHostnameSsl}
use cf_edge_operator.Api.Cloudflare.{HostnameResponse, CfClient, NewParams}
use cf_edge_operator.Platform.Errors.{Result}
use cf_edge_operator.Platform.Calls.{Call, operations_total}
use cf_edge_operator.Platform.Env.{Env}
use cf_edge_operator.Platform.Action.{Action, pure, call, peek, ◌>>=◌, ◌>>◌, handle}
use cf_edge_operator.Metrics.{
  cf_resource_custom_hostname, cf_op_create, cf_op_recreate, inc_counter, record_cf_call, cf_retry,
}
use cf_edge_operator.Ssl.{build_ssl_params, cf_state_from_new}
use cf_edge_operator.Hostname.Config.{Reconciler, Outcome, finish, error_of, pace_write}
use cf_edge_operator.Hostname.Status.{set_condition, set_error, requeue_or_ready}
use cf_edge_operator.Hostname.Client.{ZoneInfo}

abbrev pub empty_ssl : CustomHostnameSsl
empty_ssl = record { certificate_authority = ""; min_tls_version = ""; method = ""; type = "" }

abbrev pub ssl_or_empty : Option CustomHostnameSsl → CustomHostnameSsl
ssl_or_empty none = empty_ssl
ssl_or_empty (some ssl) = ssl

unfoldable pub new_params : Reconciler → ZoneInfo → CustomHostname → NewParams
new_params r zi ch = record {
  zone_id = zi.id;
  hostname = ch.spec.hostname;
  ssl = build_ssl_params (ssl_or_empty ch.spec.ssl) r.ssl_defaults;
  custom_origin_server = ch.spec.origin_server;
  custom_origin_sni = ch.spec.origin_sni;
  request_timeout = r.cf_api_write_timeout;
}

unfoldable pub create_call : Env → CfClient → NewParams → Action (Result HostnameResponse)
create_call env client params = do
  start ← peek env.now
  resp ← call (Call.cf_new client params) (λ t. env.cf_new t client params)
  record_cf_call env cf_resource_custom_hostname cf_op_create start (error_of resp)
  pure resp

-- The status after a create at the time `now`.
unfoldable pub created : ℕ → HostnameResponse → CustomHostname → CustomHostname
created now resp ch = record ch {
  status = record ch.status {
    ssl_provisioning_started_at = some now;
    create_count = int32_succ ch.status.create_count;
    id = resp.id;
    ssl = (cf_state_from_new resp).ssl;
    hostname_status = (cf_state_from_new resp).hostname_status;
  };
}

abbrev pub create_op : CustomHostname → String
create_op ch = if int32_positive ch.status.create_count then cf_op_recreate else cf_op_create

unfoldable pub after_create :
    Env → Reconciler → ZoneInfo → CustomHostname → HostnameResponse → Action Outcome
after_create env r zi ch resp = do
  inc_counter operations_total (cf_resource_custom_hostname ∷ create_op ch ∷ [])
  pace_write r
  now ← peek env.now
  requeue_or_ready env zi.cr (created now resp ch)

unfoldable pub handle_create : Env → Reconciler → ZoneInfo → CustomHostname → Action Outcome
handle_create env r zi ch =
    if r.dry_run
    then (do e ← set_condition env ch "False" "DryRun" "not creating (dry-run)"; pure (finish e))
    else (do
      (attempts, resp) ←
          cf_retry env cf_resource_custom_hostname cf_op_create r.cf_api_max_retries
            (create_call env zi.client (new_params r zi ch))
      handle resp
          (λ e. do
            failed ← set_error env ch "CreateFailed" (env.error_text e)
            pure (finish failed))
          (after_create env r zi ch))
