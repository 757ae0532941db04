-- ===== src/Zone/Drift.antt =====
-- `detectCustomHostnameDrift`
use cf_edge_operator.Prelude.{
  ℕ, ◌+◌, String, ◌!=◌, Bool, true, false, not, Option, none, some, List, [], ◌∷◌, length,
  int32_positive, if◌then◌else◌,
}
use cf_edge_operator.Prelude.Assoc
use cf_edge_operator.Api.Domains.{Zone}
use cf_edge_operator.Api.Saas.{CustomHostname}
use cf_edge_operator.Api.Cloudflare.{HostnameResponse, CfClient}
use cf_edge_operator.Platform.Errors.{Err}
use cf_edge_operator.Platform.Calls.{
  Call, Gauge, custom_hostnames, hostname_status_gauge, zone_custom_hostnames, drift_buffer_depth,
  drift_detection_errors_total,
}
use cf_edge_operator.Platform.Env.{Env}
use cf_edge_operator.Platform.Action.{Action, pure, call, ◌>>=◌, ◌>>◌, handle, either}
use cf_edge_operator.Metrics.{cf_resource_custom_hostname, inc_counter}
use cf_edge_operator.Ssl.{has_drift}
use cf_edge_operator.Ssl.StatusChange.{ssl_status_changed_fields}
use cf_edge_operator.Zone.Config.{ZoneReconciler, set_gauge, zone_ref_field}
use cf_edge_operator.Zone.State.{is_hostname_conflict, cr_state, refers_to_zone, bump}
use cf_edge_operator.Zone.Listing.{Hostnames, list_cloudflare_hostnames}
use cf_edge_operator.Zone.Events.{buffered_events, send_drift_event}

abbrev pub is_changed {ℓ} : {A : Type ℓ} → Option A → Bool
is_changed none = false
is_changed (some _) = true

-- The ladder of tests on a hostname that Cloudflare has. Branches with one effect are joined.
unfoldable pub enqueues_known : Env → CustomHostname → HostnameResponse → Bool
enqueues_known env ch cf =
    if has_drift cf ch
    then not (is_hostname_conflict ch)
    else if cf.status != ch.status.hostname_status
    then true
    else if is_changed (ssl_status_changed_fields env ch.status.ssl cf.ssl)
    then true
    else int32_positive ch.status.consecutive_errors

-- A hostname that Cloudflare does not have is always enqueued.
unfoldable pub enqueues : Env → Hostnames → CustomHostname → Bool
enqueues env cf_hostnames ch = elim (Assoc.get ch.spec.hostname cf_hostnames) [
  | none ↦ true
  | some cf ↦ enqueues_known env ch cf
]

-- The local variables of the first pass.
pub record Scan : Type 0 where
  pub state_counts : List (String × ℕ)
  pub cr_hostnames : List (String × Bool)
  pub drifted : ℕ

unfoldable pub note_cr : CustomHostname → Scan → Scan
note_cr ch s = record s {
  state_counts = bump (cr_state ch) s.state_counts;
  cr_hostnames = Assoc.put ch.spec.hostname true s.cr_hostnames;
}

unfoldable pub scan_cr :
    Env → ZoneReconciler → Zone → Hostnames → CustomHostname → Scan → Action Scan
scan_cr env zr zone cf_hostnames ch s =
    if not (refers_to_zone ch zone)
    then pure s
    else if enqueues env cf_hostnames ch
    then (do send_drift_event env zr ch; pure (record (note_cr ch s) { drifted = s.drifted + 1 }))
    else pure (note_cr ch s)

unfoldable pub scan_crs :
    Env → ZoneReconciler → Zone → Hostnames → List CustomHostname → Scan → Action Scan
scan_crs env zr zone cf_hostnames [] s = pure s
scan_crs env zr zone cf_hostnames (ch ∷ chs) s = do
  s' ← scan_cr env zr zone cf_hostnames ch s
  scan_crs env zr zone cf_hostnames chs s'

abbrev pub start_scan : Scan
start_scan = record {
  state_counts = ("ready", 0) ∷ ("pending", 0) ∷ ("unhealthy", 0) ∷ ("conflict", 0) ∷ [];
  cr_hostnames = [];
  drifted = 0;
}

-- The local variables of the second pass.
pub record Census : Type 0 where
  pub managed : ℕ
  pub orphans : ℕ
  pub status_counts : List (String × ℕ)

abbrev pub is_known : String → List (String × Bool) → Bool
is_known hostname known = is_changed (Assoc.get hostname known)

unfoldable pub take_census : List (String × Bool) → Hostnames → Census → Census
take_census known [] c = c
take_census known ((hostname, cf) ∷ rest) c = take_census known rest (
    if is_known hostname known
    then record c { managed = c.managed + 1; status_counts = bump cf.status c.status_counts }
    else record c { orphans = c.orphans + 1 })

abbrev pub start_census : Census
start_census = record {
  managed = 0;
  orphans = 0;
  status_counts =
      ("active", 0)
      ∷ ("pending", 0)
      ∷ ("active_redeploying", 0)
      ∷ ("blocked", 0)
      ∷ ("moved", 0)
      ∷ ("deleted", 0)
      ∷ [];
}

-- One gauge for each entry of the map, labelled with the zone and the key.
unfoldable pub publish : Gauge → (zone : String) → List (String × ℕ) → Action (Unit {0})
publish g zone [] = pure tt
publish g zone ((label, count) ∷ counts) = do
  set_gauge g (zone ∷ label ∷ []) count
  publish g zone counts

unfoldable pub publish_census : (zone : String) → Hostnames → Scan → Census → Action (Unit {0})
publish_census zone cf_hostnames s c = do
  set_gauge zone_custom_hostnames (zone ∷ "managed" ∷ []) c.managed
  set_gauge zone_custom_hostnames (zone ∷ "orphan" ∷ []) c.orphans
  publish hostname_status_gauge zone c.status_counts
  set_gauge zone_custom_hostnames (zone ∷ "drifted" ∷ []) s.drifted
  set_gauge zone_custom_hostnames (zone ∷ "total" ∷ []) (length cf_hostnames)

unfoldable pub compare_crs :
    Env → ZoneReconciler → Zone → Hostnames → List CustomHostname → Action (Option Err)
compare_crs env zr zone cf_hostnames crs = do
  s ← scan_crs env zr zone cf_hostnames crs start_scan
  publish custom_hostnames zone.metadata.name s.state_counts
  publish_census zone.metadata.name cf_hostnames s
      (take_census s.cr_hostnames cf_hostnames start_census)
  events ← buffered_events env
  set_gauge drift_buffer_depth (cf_resource_custom_hostname ∷ []) (length events)
  pure none

abbrev pub count_failure : String → Action (Unit {0})
count_failure source =
    inc_counter drift_detection_errors_total (cf_resource_custom_hostname ∷ source ∷ [])

unfoldable pub compare_listed : Env → ZoneReconciler → Zone → Hostnames → Action (Option Err)
compare_listed env zr zone cf_hostnames = do
  crs ←
      call (Call.list_custom_hostnames zone_ref_field zone.metadata.name)
        (λ t. env.list_custom_hostnames t zone_ref_field zone.metadata.name)
  handle crs (λ e. do count_failure "k8s_list"; pure (some e))
      (λ items. compare_crs env zr zone cf_hostnames items)

-- Nothing of a list that failed half-way is used.
unfoldable pub detect_custom_hostname_drift :
    Env → ZoneReconciler → CfClient → Zone → Action (Option Err)
detect_custom_hostname_drift env zr client zone = do
  (cf_hostnames, failed) ← list_cloudflare_hostnames env zr client zone.spec.id
  either failed (compare_listed env zr zone cf_hostnames)
      (λ e. do count_failure "cf_list"; pure (some e))
