-- ===== src/Metrics/Vectors.antt =====
-- The vectors of metrics.go: their labels, their registration, and the series that `init` makes.
use cf_edge_operator.Prelude.{
  String, Bool, true, false, ◌==◌, ◌&&◌, ◌||◌, List, [], ◌∷◌, length, nat_beq,
}
use cf_edge_operator.Platform.Calls.{Call, Counter, Gauge}
use cf_edge_operator.Metrics.{
  cf_resource_custom_hostname, cf_resource_zone, cf_op_get, cf_op_list, cf_op_adopt, cf_op_create,
  cf_op_recreate, cf_op_update, cf_op_delete,
}

pub data Vector : Type 0 where
  counter : Counter → Vector
  gauge : Gauge → Vector
  -- `cfAPICallDuration`
  histogram : Vector

abbrev pub label_names : Vector → List String
label_names (Vector.counter Counter.operations_total) = "resource" ∷ "operation" ∷ []
label_names (Vector.counter Counter.api_errors_by_code_total) =
    "resource" ∷ "operation" ∷ "status_code" ∷ []
label_names (Vector.counter Counter.drift_buffer_overflow_total) = "resource" ∷ []
label_names (Vector.counter Counter.drift_detection_errors_total) = "resource" ∷ "source" ∷ []
label_names (Vector.counter Counter.api_retries_total) = "resource" ∷ "operation" ∷ []
label_names (Vector.gauge Gauge.ssl_provisioning_duration) = "zone_cr" ∷ "hostname" ∷ "method" ∷ []
label_names (Vector.gauge Gauge.custom_hostnames) = "zone_cr" ∷ "state" ∷ []
label_names (Vector.gauge Gauge.hostname_status_gauge) = "zone_cr" ∷ "status" ∷ []
label_names (Vector.gauge Gauge.zone_custom_hostnames) = "zone_cr" ∷ "type" ∷ []
label_names (Vector.gauge Gauge.zone_initialized) = "zone_cr" ∷ []
label_names (Vector.gauge Gauge.drift_buffer_depth) = "resource" ∷ []
label_names (Vector.gauge Gauge.build_info_gauge) = "version" ∷ "commit" ∷ []
label_names Vector.histogram = "resource" ∷ "operation" ∷ []

abbrev for_custom_hostnames : List String → List (List String)
for_custom_hostnames [] = []
for_custom_hostnames (op ∷ ops) = (cf_resource_custom_hostname ∷ op ∷ []) ∷ for_custom_hostnames ops

-- The labels with which `init` makes the series of a vector.
abbrev pub initial_durations : List (List String)
initial_durations =
    (cf_resource_zone ∷ cf_op_get ∷ [])
    ∷ for_custom_hostnames
        (cf_op_list ∷ cf_op_get ∷ cf_op_create ∷ cf_op_update ∷ cf_op_delete ∷ [])

abbrev pub initial_operations : List (List String)
initial_operations =
    for_custom_hostnames
      (cf_op_adopt ∷ cf_op_create ∷ cf_op_recreate ∷ cf_op_update ∷ cf_op_delete ∷ [])

abbrev pub initial_retries : List (List String)
initial_retries =
    (cf_resource_zone ∷ cf_op_get ∷ [])
    ∷ for_custom_hostnames (cf_op_get ∷ cf_op_create ∷ cf_op_update ∷ cf_op_delete ∷ [])

abbrev same_labels : List String → List String → Bool
same_labels [] [] = true
same_labels (x ∷ xs) (y ∷ ys) = x == y && same_labels xs ys
same_labels _ _ = false

abbrev is_initial : List (List String) → List String → Bool
is_initial [] labels = false
is_initial (s ∷ series) labels = same_labels s labels || is_initial series labels

-- One value for each label of the vector.
abbrev pub labelled : Vector → List String → Bool
labelled v labels = nat_beq (length labels) (length (label_names v))

-- Does the call give the vector one value for each of its labels, else client_golang panics, and
-- where `init` makes the series of the vector, is it one of these?
abbrev pub fits : Call → Bool
fits (Call.inc Counter.operations_total labels) = is_initial initial_operations labels
fits (Call.inc Counter.api_retries_total labels) = is_initial initial_retries labels
fits (Call.inc Counter.api_errors_by_code_total labels) =
    labelled (Vector.counter Counter.api_errors_by_code_total) labels
fits (Call.inc Counter.drift_buffer_overflow_total labels) =
    labelled (Vector.counter Counter.drift_buffer_overflow_total) labels
fits (Call.inc Counter.drift_detection_errors_total labels) =
    labelled (Vector.counter Counter.drift_detection_errors_total) labels
fits (Call.observe labels d) = is_initial initial_durations labels
fits (Call.set g labels v) = labelled (Vector.gauge g) labels
fits (Call.delete_series g labels) = labelled (Vector.gauge g) labels
fits _ = true
