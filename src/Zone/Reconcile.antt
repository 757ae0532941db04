-- ===== src/Zone/Reconcile.antt =====
-- `Reconcile` of the zone controller.
use cf_edge_operator.Prelude.{
  ℕ, String, ◌<>◌, ◌==◌, Bool, true, false, not, Option, none, some, [], ◌∷◌, leb, if◌then◌else◌,
}
use cf_edge_operator.Api.Meta.{Condition, NamespacedName}
use cf_edge_operator.Api.Domains.{Zone}
use cf_edge_operator.Api.Cloudflare.{CfClient}
use cf_edge_operator.Platform.Errors.{Result, ok, err, wrapped, is_not_found}
use cf_edge_operator.Platform.Calls.{
  Call, custom_hostnames, zone_custom_hostnames, zone_initialized, ssl_provisioning_duration,
}
use cf_edge_operator.Platform.Env.{Env}
use cf_edge_operator.Platform.Action.{Action, pure, call, peek, ◌>>=◌, ◌>>◌, handle}
use cf_edge_operator.Metrics.{
  cf_resource_zone, cf_op_get, record_cf_call, cf_retry, clean_expired_ssl_provisioning,
}
use cf_edge_operator.Hostname.Config.{Outcome, finish, error_of}
use cf_edge_operator.Hostname.Client.{new_client, fetch_api_token}
use cf_edge_operator.Zone.Config.{ZoneReconciler, set_gauge, condition_initialized}
use cf_edge_operator.Zone.Drift.{detect_custom_hostname_drift}

abbrev initialized_since : Zone → Option Condition → Bool
initialized_since zone none = false
initialized_since zone (some cond) = leb zone.metadata.generation cond.observed_generation

unfoldable pub needs_init : Env → Zone → Bool
needs_init env zone =
    if zone.status.name == ""
    then true
    else not (
        initialized_since zone
          (env.find_status_condition zone.status.conditions condition_initialized))

unfoldable pub build_cf_client : ZoneReconciler → String → CfClient
build_cf_client zr token = new_client token zr.cf_api_timeout zr.cf_base_url

unfoldable pub initialized : Env → Zone → (reason message : String) → Zone
initialized env zone reason message = record zone {
  status = record zone.status {
    conditions = env.set_status_condition zone.status.conditions (record {
      type = condition_initialized;
      status = "True";
      reason = reason;
      message = message;
      observed_generation = zone.metadata.generation;
    });
  };
}

-- The zone is what the server returns, as `Status().Update` writes it to its argument.
unfoldable pub set_initialized : Env → Zone → (reason message : String) → Action (Result Zone)
set_initialized env zone reason message = do
  stored ←
      call (Call.update_zone_status (initialized env zone reason message))
        (λ t. env.update_zone_status t (initialized env zone reason message))
  handle stored (λ e. pure (err (wrapped "failed to update zone status" e))) (λ z. pure (ok z))

unfoldable pub zone_call : Env → CfClient → (zone_id : String) → Action (Result String)
zone_call env client zone_id = do
  start ← peek env.now
  name ← call (Call.cf_get_zone client zone_id) (λ t. env.cf_get_zone t client zone_id)
  record_cf_call env cf_resource_zone cf_op_get start (error_of name)
  pure name

abbrev pub named : Zone → String → Zone
named zone name = record zone { status = record zone.status { name = name } }

unfoldable pub initialize_zone : Env → ZoneReconciler → Zone → CfClient → Action (Result Zone)
initialize_zone env zr zone client = do
  (attempts, name) ←
      cf_retry env cf_resource_zone cf_op_get zr.cf_api_max_retries
        (zone_call env client zone.spec.id)
  handle name (λ e. pure (err e))
      (λ n. do
        stored ←
            set_initialized env (named zone n) "ZoneInitialized"
              ("Zone credentials validated, zone: " <> n)
        handle stored (λ e. pure (err e))
            (λ z. do set_gauge zone_initialized (z.metadata.name ∷ []) 1; pure (ok z)))

abbrev pub requeue_in : ℕ → Outcome
requeue_in d = record { requeue = false; requeue_after = d; error = none }

-- The error of the drift detection is dropped: the zone is reconciled again after the interval.
unfoldable pub run_drift_cycle : Env → ZoneReconciler → CfClient → Zone → Action Outcome
run_drift_cycle env zr client zone = do
  _ ← detect_custom_hostname_drift env zr client zone
  clean_expired_ssl_provisioning env
  pure (requeue_in zr.drift_interval)

unfoldable pub with_token : Env → ZoneReconciler → Zone → String → Action Outcome
with_token env zr zone token =
    if needs_init env zone
    then (do
      ready ← initialize_zone env zr zone (build_cf_client zr token)
      handle ready (λ e. pure (finish (some e)))
          (λ z. run_drift_cycle env zr (build_cf_client zr token) z))
    else run_drift_cycle env zr (build_cf_client zr token) zone

abbrev pub initialized_gauge : Option Condition → ℕ
initialized_gauge none = 0
initialized_gauge (some _) = 1

unfoldable pub reconcile_found : Env → ZoneReconciler → Zone → Action Outcome
reconcile_found env zr zone = do
  set_gauge zone_initialized (zone.metadata.name ∷ [])
      (initialized_gauge (env.find_status_condition zone.status.conditions condition_initialized))
  token ← fetch_api_token env zone
  handle token (λ e. pure (finish (some e))) (λ t. with_token env zr zone t)

-- The series of a zone that is gone.
unfoldable pub forget_zone : (name : String) → Action (Unit {0})
forget_zone name = do
  call (Call.delete_series zone_initialized (name ∷ [])) (λ _. tt)
  call (Call.delete_zone_series custom_hostnames name) (λ _. tt)
  call (Call.delete_zone_series zone_custom_hostnames name) (λ _. tt)
  call (Call.delete_zone_series ssl_provisioning_duration name) (λ _. tt)

unfoldable pub reconcile_zone : Env → ZoneReconciler → NamespacedName → Action Outcome
reconcile_zone env zr key = do
  found ← call (Call.get_zone key) (λ t. env.get_zone t key)
  handle found
      (λ e.
        if is_not_found e
        then (do forget_zone key.name; pure (finish none))
        else pure (finish (some e)))
      (λ zone. reconcile_found env zr zone)
