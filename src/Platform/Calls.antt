-- ===== src/Platform/Calls.antt =====
-- The calls that the program makes of the Kubernetes API, of Cloudflare, of the metrics registry,
-- of the clock and of the event channel. A trace is what has been called, the latest call first.
use cf_edge_operator.Prelude.{ℕ, String, List}
use cf_edge_operator.Api.Meta.{NamespacedName}
use cf_edge_operator.Api.Domains.{Zone}
use cf_edge_operator.Api.Saas.{CustomHostname}
use cf_edge_operator.Api.Cloudflare.{CfClient, ListParams, NewParams, EditParams, DeleteParams}

-- The vectors of metrics.go.
pub data Counter : Type 0 where
  operations_total api_errors_by_code_total drift_buffer_overflow_total : Counter
  drift_detection_errors_total api_retries_total : Counter

pub data Gauge : Type 0 where
  ssl_provisioning_duration custom_hostnames hostname_status_gauge : Gauge
  zone_custom_hostnames zone_initialized drift_buffer_depth build_info_gauge : Gauge

pub data Call : Type 0 where
  get_custom_hostname : NamespacedName → Call
  get_zone : NamespacedName → Call
  get_secret : NamespacedName → Call
  list_custom_hostnames : String → String → Call
  update : CustomHostname → Call
  update_status : CustomHostname → Call
  update_zone_status : Zone → Call
  cf_list : CfClient → ListParams → Call
  cf_new : CfClient → NewParams → Call
  cf_edit : CfClient → String → EditParams → Call
  cf_delete : CfClient → String → DeleteParams → Call
  cf_get_zone : CfClient → String → Call
  inc : Counter → List String → Call
  set : Gauge → List String → ℕ → Call
  -- `cfAPICallDuration`, the one histogram
  observe : List String → ℕ → Call
  delete_series : Gauge → List String → Call
  -- `DeletePartialMatch` on the label `zone_cr`
  delete_zone_series : Gauge → String → Call
  sleep : ℕ → Call
  send_event : CustomHostname → Call

abbrev pub Trace : Type 0
Trace = List Call
