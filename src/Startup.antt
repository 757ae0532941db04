-- ===== src/Startup.antt =====
-- cmd/main.go, from the flags to the start of the manager, with the two `SetupWithManager`. What
-- controller-runtime answers to each call is a parameter.
pub mod Order
use cf_edge_operator.Prelude.{
  ℕ, ◌*◌, String, ◌!=◌, Bool, true, false, not, Option, none, some, List, [], ◌∷◌, ltb, nat_beq,
  if◌then◌else◌,
}
use Prim.Native.String.{len}
use cf_edge_operator.Api.Saas.{CustomHostname}
use cf_edge_operator.Platform.Errors.{Err, wrapped}
use cf_edge_operator.Hostname.Config.{Reconciler, hostname_field}
use cf_edge_operator.Zone.Config.{ZoneReconciler, zone_ref_field}
use cf_edge_operator.Config.{
  ℤ, pos, negsuc, pos_part, Flags, rejected_flag, custom_hostname_reconciler, zone_reconciler,
  BuildInfo, build_info,
}

-- The flags for the servers of the manager.
pub record ServerFlags : Type 0 where
  pub metrics_addr : String
  pub probe_addr : String
  pub enable_leader_election : Bool
  pub secure_metrics : Bool
  pub metrics_cert_path : String
  pub metrics_cert_name : String
  pub metrics_cert_key : String
  pub enable_http2 : Bool

abbrev pub default_server_flags : ServerFlags
default_server_flags = record {
  metrics_addr = "0";
  probe_addr = ":8081";
  enable_leader_election = false;
  secure_metrics = true;
  metrics_cert_path = "";
  metrics_cert_name = "tls.crt";
  metrics_cert_key = "tls.key";
  enable_http2 = false;
}

-- A second, in nanoseconds.
abbrev pub one_second : ℕ
one_second = 1_000_000_000

abbrev pub default_flags : Flags
default_flags = record {
  operator_namespace = "cf-edge-operator-system";
  management_policy = "manage";
  delete_policy = "always";
  dry_run = false;
  drift_interval = pos (60 * one_second);
  drift_buffer = pos 1024;
  cf_api_timeout = pos (5 * one_second);
  cf_api_write_timeout = pos (15 * one_second);
  cf_api_max_retries = pos 1;
  cf_api_bulk_timeout = pos (5 * one_second);
  cf_api_bulk_max_retries = pos 0;
  cf_api_write_delay = pos 250_000_000;
  ssl_certificate_authority = "";
  ssl_min_tls_version = "";
  ssl_method = "";
  ssl_type = "";
}

-- `l == zapcore.Level(-2)`
abbrev pub is_trace : ℤ → Bool
is_trace (pos n) = false
is_trace (negsuc n) = nat_beq n 1

-- `levelEncoder`, with the encoder of zap that it falls through to.
unfoldable pub level_text : (lowercase : ℤ → String) → ℤ → String
level_text lowercase l = if is_trace l then "trace" else lowercase l

-- The field of `tls.Config` that is changed.
pub record TlsConfig : Type 0 where
  pub next_protos : List String

abbrev pub disable_http2 : TlsConfig → TlsConfig
disable_http2 c = record c { next_protos = "http/1.1" ∷ [] }

unfoldable pub tls_opts : ServerFlags → List (TlsConfig → TlsConfig)
tls_opts s = if not s.enable_http2 then disable_http2 ∷ [] else []

-- `metricsserver.Options`; the filter is `WithAuthenticationAndAuthorization` or none.
pub record MetricsServerOptions : Type 0 where
  pub bind_address : String
  pub secure_serving : Bool
  pub tls_options : List (TlsConfig → TlsConfig)
  pub authenticates : Bool
  pub cert_dir : String
  pub cert_name : String
  pub key_name : String

abbrev with_certificate : ServerFlags → MetricsServerOptions → MetricsServerOptions
with_certificate s o =
    if ltb 0 (len s.metrics_cert_path)
    then record o {
      cert_dir = s.metrics_cert_path;
      cert_name = s.metrics_cert_name;
      key_name = s.metrics_cert_key;
    }
    else o

unfoldable pub metrics_server_options : ServerFlags → MetricsServerOptions
metrics_server_options s = with_certificate s (record {
  bind_address = s.metrics_addr;
  secure_serving = s.secure_metrics;
  tls_options = tls_opts s;
  authenticates = s.secure_metrics;
  cert_dir = "";
  cert_name = "";
  key_name = "";
})

pub record ManagerOptions : Type 0 where
  pub metrics : MetricsServerOptions
  pub health_probe_bind_address : String
  pub leader_election : Bool
  pub leader_election_id : String

unfoldable pub manager_options : ServerFlags → ManagerOptions
manager_options s = record {
  metrics = metrics_server_options s;
  health_probe_bind_address = s.probe_addr;
  leader_election = s.enable_leader_election;
  leader_election_id = "888e4210.cf-edge.io";
}

-- What the builder of controller-runtime is given: the longest wait of the rate limiter, and whether
-- the controller filters its events and watches the channel of drift events.
pub record ControllerOptions : Type 0 where
  pub name : String
  pub max_wait : ℕ
  pub filters_events : Bool
  pub watches_channel : Bool

pub data StartupCall : Type 0 where
  publish_build_info : (version commit : String) → StartupCall
  new_manager : ManagerOptions → StartupCall
  make_channel : ℕ → StartupCall
  index_custom_hostnames : (field : String) → StartupCall
  build_custom_hostname : ControllerOptions → Reconciler → StartupCall
  build_zone : ControllerOptions → ZoneReconciler → StartupCall
  add_healthz : StartupCall
  add_readyz : StartupCall
  start : StartupCall

-- `main` returns, or ends with exit code 1 and a line in the log.
pub data Exit : Type 0 where
  returned : Exit
  failed : (message : String) → Exit

abbrev pub Run : Type 0
Run = List StartupCall × Exit

-- `if err := call; err != nil { setupLog.Error(err, message); os.Exit(1) }`
abbrev pub attempt : StartupCall → Option Err → (message : String) → Run → Run
attempt c none message (calls, exit) = (c ∷ calls, exit)
attempt c (some e) message next = (c ∷ [], Exit.failed message)

abbrev pub perform : StartupCall → Run → Run
perform c (calls, exit) = (c ∷ calls, exit)

abbrev pub worker_options : ControllerOptions
worker_options = record {
  name = "customhostname";
  max_wait = 30 * one_second;
  filters_events = true;
  watches_channel = true;
}

abbrev pub coordinator_options : ControllerOptions
coordinator_options = record {
  name = "zone";
  max_wait = 30 * one_second;
  filters_events = false;
  watches_channel = false;
}

-- A rejected flag ends the program.
abbrev pub checked : Option String → Run → Run
checked none next = next
checked (some flag) next = ([], Exit.failed flag)

module _ (answers : StartupCall → Option Err) where
  abbrev try : StartupCall → (message : String) → Run → Run
  try c message next = attempt c (answers c) message next

  -- `CustomHostnameReconciler.SetupWithManager`, whose errors `main` logs with one message.
  unfoldable pub setup_worker : Reconciler → Run → Run
  setup_worker r next =
      try (StartupCall.index_custom_hostnames hostname_field) "Failed to create controller" (
        try (StartupCall.build_custom_hostname worker_options r) "Failed to create controller" next)

  -- `ZoneReconciler.SetupWithManager`
  unfoldable pub setup_coordinator : ZoneReconciler → Run → Run
  setup_coordinator zr next =
      try (StartupCall.index_custom_hostnames zone_ref_field) "Failed to create controller"
        (try (StartupCall.build_zone coordinator_options zr) "Failed to create controller" next)

  unfoldable pub run_manager : Run
  run_manager = try StartupCall.add_healthz "Failed to set up health check" (
      try StartupCall.add_readyz "Failed to set up ready check"
        (try StartupCall.start "Failed to run manager" ([], Exit.returned)))

  unfoldable pub start_manager : Flags → ServerFlags → Run
  start_manager f s = try (StartupCall.new_manager (manager_options s)) "Failed to start manager" (
      perform (StartupCall.make_channel (pos_part f.drift_buffer)) (
        setup_worker (custom_hostname_reconciler f)
          (setup_coordinator (zone_reconciler f) run_manager)))

  -- `main`, with what Go embeds in the binary and the identity that the linker injects.
  unfoldable pub main : Option (List (String × String)) → BuildInfo → Flags → ServerFlags → Run
  main settings injected f s =
      let b = build_info settings injected in
      perform (StartupCall.publish_build_info b.version b.commit)
        (checked (rejected_flag f) (start_manager f s))
