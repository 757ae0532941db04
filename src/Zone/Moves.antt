-- ===== src/Zone/Moves.antt =====
-- How a reconcile of the zone controller moves the world: `Reconcile` of zone_controller.go, down to
-- each helper.
use cf_edge_operator.Prelude.{ℕ, ◌≡◌, refl, String, Bool, true, false, List, [], ◌∷◌}
use cf_edge_operator.Api.Meta.{NamespacedName}
use cf_edge_operator.Api.Domains.{Zone}
use cf_edge_operator.Api.Saas.{CustomHostname}
use cf_edge_operator.Api.Cloudflare.{CfClient}
use cf_edge_operator.Platform.Calls.{Call, Gauge}
use cf_edge_operator.Platform.Env.{Env}
use cf_edge_operator.Platform.Action.{World}
use cf_edge_operator.Platform.Moves.{Progress, Moves, Allows, Moves-bind, Moves-call, moves_rules}
use cf_edge_operator.Platform.State.{state_rules}
use cf_edge_operator.Metrics.Allowed.{
  AllowsMetrics, inc_allowed, record_cf_call-Moves, cf_retry-Moves,
  clean_expired_ssl_provisioning-Moves,
}
use cf_edge_operator.Metrics.Vectors.{Vector, labelled, fits}
use cf_edge_operator.Hostname.Client.{fetch_api_token}
use cf_edge_operator.Zone.Config.{ZoneReconciler, set_gauge}
use cf_edge_operator.Zone.Listing.{Hostnames, list_cloudflare_hostnames}
use cf_edge_operator.Zone.Events.{buffered_events, send_drift_event}
use cf_edge_operator.Zone.Drift.{
  Scan, scan_cr, scan_crs, Census, publish, publish_census, compare_crs, compare_listed,
  detect_custom_hostname_drift,
}
use cf_edge_operator.Zone.Reconcile.{
  set_initialized, zone_call, initialize_zone, run_drift_cycle, with_token, reconcile_found,
  forget_zone, reconcile_zone,
}

-- The calls that change no custom resource, no hostname in Cloudflare and no metric.
abbrev pub is_zone_plain : Call → Bool
is_zone_plain (Call.get_zone _) = true
is_zone_plain (Call.get_secret _) = true
is_zone_plain (Call.list_custom_hostnames _ _) = true
is_zone_plain (Call.update_zone_status _) = true
is_zone_plain (Call.cf_list _ _) = true
is_zone_plain (Call.cf_get_zone _ _) = true
is_zone_plain _ = false

-- The gauges that the zone controller sets itself, and the series that it removes with a zone.
abbrev pub is_zone_gauge : Gauge → Bool
is_zone_gauge Gauge.ssl_provisioning_duration = false
is_zone_gauge _ = true

-- The relation holds of all steps of the zone controller.
pub record AllowsZone (R : World → World → Type 0) (env : Env) (zr : ZoneReconciler) : Type 0 where
  pub progress : Progress R
  pub plain : (c : Call) → is_zone_plain c ≡ true → Allows R c
  pub gauges :
      (g : Gauge) (labels : List String) (v : ℕ)
      → is_zone_gauge g ≡ true
      → fits (Call.set g labels v) ≡ true
      → Allows R (Call.set g labels v)
  pub deletes :
      (g : Gauge) (labels : List String)
      → fits (Call.delete_series g labels) ≡ true
      → Allows R (Call.delete_series g labels)
  pub deletes_zone : (g : Gauge) (name : String) → Allows R (Call.delete_zone_series g name)
  pub metrics : AllowsMetrics R env
  pub buffered : Moves R (buffered_events env)
  pub sends : (ch : CustomHostname) → Moves R (send_drift_event env zr ch)

module _ {R : World → World → Type 0} {env : Env} {zr : ZoneReconciler}
    (allow : AllowsZone R env zr) where
  chained : Progress R
  chained = allow.progress

  plain_allowed : (c : Call) → is_zone_plain c ≡ true → Allows R c
  plain_allowed = allow.plain

  gauge_allowed :
      (g : Gauge) (labels : List String) (v : ℕ)
      → is_zone_gauge g ≡ true
      → fits (Call.set g labels v) ≡ true
      → Allows R (Call.set g labels v)
  gauge_allowed = allow.gauges

  delete_allowed :
      (g : Gauge) (labels : List String)
      → fits (Call.delete_series g labels) ≡ true
      → Allows R (Call.delete_series g labels)
  delete_allowed = allow.deletes

  delete_zone_allowed : (g : Gauge) (name : String) → Allows R (Call.delete_zone_series g name)
  delete_zone_allowed = allow.deletes_zone

  metrics_allowed : AllowsMetrics R env
  metrics_allowed = allow.metrics

  buffered_events-Moves : Moves R (buffered_events env)
  buffered_events-Moves = allow.buffered

  send_drift_event-Moves : (ch : CustomHostname) → Moves R (send_drift_event env zr ch)
  send_drift_event-Moves = allow.sends

  ruleset rules = (
    moves_rules, chained, state_rules, refl, plain_allowed, gauge_allowed, delete_allowed,
    delete_zone_allowed, metrics_allowed, inc_allowed, record_cf_call-Moves, cf_retry-Moves,
  )

  list_cloudflare_hostnames-Moves :
      (client : CfClient) (zone_id : String)
      → Moves R (list_cloudflare_hostnames env zr client zone_id)
  unfolding list_cloudflare_hostnames
  list_cloudflare_hostnames-Moves client zone_id = search rules depth 10

  scan_cr-Moves :
      (zone : Zone) (cf_hostnames : Hostnames) (ch : CustomHostname) (s : Scan)
      → Moves R (scan_cr env zr zone cf_hostnames ch s)
  unfolding scan_cr
  scan_cr-Moves zone cf_hostnames ch s = search (rules, send_drift_event-Moves) depth 8

  scan_crs-Moves :
      (zone : Zone) (cf_hostnames : Hostnames) (chs : List CustomHostname) (s : Scan)
      → Moves R (scan_crs env zr zone cf_hostnames chs s)
  unfolding scan_crs
  scan_crs-Moves zone cf_hostnames [] s = search rules
  scan_crs-Moves zone cf_hostnames (ch ∷ chs) s =
      search (rules, scan_cr-Moves, scan_crs-Moves zone cf_hostnames chs) depth 8

  publish-Moves :
      (g : Gauge) (zone : String) (counts : List (String × ℕ))
      → is_zone_gauge g ≡ true
      → labelled (Vector.gauge g) (zone ∷ zone ∷ []) ≡ true
      → Moves R (publish g zone counts)
  unfolding publish
  publish-Moves g zone [] h two = search rules
  publish-Moves g zone ((label, count) ∷ counts) h two =
      Moves-bind chained (set_gauge g (zone ∷ label ∷ []) count) _
        (Moves-call chained _ _ (allow.gauges g _ _ h two)) λ _. publish-Moves g zone counts h two

  publish_census-Moves :
      (zone : String) (cf_hostnames : Hostnames) (s : Scan) (c : Census)
      → Moves R (publish_census zone cf_hostnames s c)
  unfolding publish_census
  publish_census-Moves zone cf_hostnames s c = search (rules, publish-Moves) depth 12

  compare_crs-Moves :
      (zone : Zone) (cf_hostnames : Hostnames) (crs : List CustomHostname)
      → Moves R (compare_crs env zr zone cf_hostnames crs)
  unfolding compare_crs
  compare_crs-Moves zone cf_hostnames crs =
      search (rules, scan_crs-Moves, publish-Moves, publish_census-Moves, buffered_events-Moves)
        depth 12

  compare_listed-Moves :
      (zone : Zone) (cf_hostnames : Hostnames) → Moves R (compare_listed env zr zone cf_hostnames)
  unfolding compare_listed
  compare_listed-Moves zone cf_hostnames = search (rules, compare_crs-Moves) depth 8

  detect_drift-Moves :
      (client : CfClient) (zone : Zone) → Moves R (detect_custom_hostname_drift env zr client zone)
  unfolding detect_custom_hostname_drift
  detect_drift-Moves client zone =
      search (rules, list_cloudflare_hostnames-Moves, compare_listed-Moves) depth 8

  fetch_api_token-Moves : (zone : Zone) → Moves R (fetch_api_token env zone)
  unfolding fetch_api_token
  fetch_api_token-Moves zone = search rules depth 8

  set_initialized-Moves :
      (zone : Zone) (reason message : String) → Moves R (set_initialized env zone reason message)
  unfolding set_initialized
  set_initialized-Moves zone reason message = search rules depth 8

  zone_call-Moves : (client : CfClient) (zone_id : String) → Moves R (zone_call env client zone_id)
  unfolding zone_call
  zone_call-Moves client zone_id = search rules depth 8

  initialize_zone-Moves :
      (zone : Zone) (client : CfClient) → Moves R (initialize_zone env zr zone client)
  unfolding initialize_zone
  initialize_zone-Moves zone client =
      search (rules, set_initialized-Moves, zone_call-Moves) depth 10

  run_drift_cycle-Moves :
      (client : CfClient) (zone : Zone) → Moves R (run_drift_cycle env zr client zone)
  unfolding run_drift_cycle
  run_drift_cycle-Moves client zone =
      search (rules, detect_drift-Moves, clean_expired_ssl_provisioning-Moves) depth 10

  with_token-Moves : (zone : Zone) (token : String) → Moves R (with_token env zr zone token)
  unfolding with_token
  with_token-Moves zone token = search (rules, initialize_zone-Moves, run_drift_cycle-Moves) depth 8

  reconcile_found-Moves : (zone : Zone) → Moves R (reconcile_found env zr zone)
  unfolding reconcile_found
  reconcile_found-Moves zone = search (rules, fetch_api_token-Moves, with_token-Moves) depth 8

  forget_zone-Moves : (name : String) → Moves R (forget_zone name)
  unfolding forget_zone
  forget_zone-Moves name = search rules depth 10

  pub reconcile_zone-Moves : (key : NamespacedName) → Moves R (reconcile_zone env zr key)
  unfolding reconcile_zone
  reconcile_zone-Moves key = search (rules, reconcile_found-Moves, forget_zone-Moves) depth 8
