-- ===== src/Zone/Config.antt =====
-- The zone reconciler.
use cf_edge_operator.Prelude.{ℕ, String, List, [], ◌∷◌}
use cf_edge_operator.Api.Saas.{CustomHostname}
use cf_edge_operator.Platform.Calls.{Call, Gauge}
use cf_edge_operator.Platform.Action.{Action, call}

-- `ZoneReconciler`, with the capacity of the channel `CustomHostnameEvents`.
pub record ZoneReconciler : Type 0 where
  pub drift_buffer : ℕ
  pub drift_interval : ℕ
  pub cf_api_timeout : ℕ
  pub cf_api_max_retries : ℕ
  pub cf_api_bulk_timeout : ℕ
  pub cf_api_bulk_max_retries : ℕ
  pub cf_base_url : String

abbrev pub condition_initialized : String
condition_initialized = "Initialized"

abbrev pub zone_ref_field : String
zone_ref_field = ".spec.zoneRef.name"

-- The values of the index that `SetupWithManager` registers for the field.
abbrev pub zone_ref_index : CustomHostname → List String
zone_ref_index ch = ch.spec.zone_ref.name ∷ []

abbrev pub set_gauge : Gauge → List String → ℕ → Action (Unit {0})
set_gauge g labels v = call (Call.set g labels v) (λ _. tt)
