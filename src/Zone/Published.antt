-- ===== src/Zone/Published.antt =====
-- What the gauges show at the end of the comparison of a zone's custom resources with Cloudflare.
use cf_edge_operator.Prelude.{
  ◌+◌, ◌≡◌, refl, ap, ◌∙◌, String, Bool, true, ◌==◌, ◌&&◌, eq_refl, some, List, any, length,
}
use cf_edge_operator.Prelude.Assoc
use cf_edge_operator.Api.Domains.{Zone}
use cf_edge_operator.Api.Saas.{CustomHostname}
use cf_edge_operator.Api.Cloudflare.{HostnameResponse}
use cf_edge_operator.Platform.Calls.{
  Gauge, Trace, custom_hostnames, hostname_status_gauge, zone_custom_hostnames,
}
use cf_edge_operator.Platform.Env.{Env}
use cf_edge_operator.Platform.Action.{World, call, pure, peek, ◌>>=◌}
use cf_edge_operator.Platform.State.{read_events, write_events}
use cf_edge_operator.Zone.Config.{ZoneReconciler}
use cf_edge_operator.Zone.Listing.{Hostnames}
use cf_edge_operator.Zone.Events.{buffered_events}
use cf_edge_operator.Zone.Drift.{
  Scan, scan_crs, start_scan, Census, take_census, start_census, is_known, publish_census,
  compare_crs,
}
use cf_edge_operator.Zone.Counts.{
  count_of, count_if, in_state, needs_reconcile, scan_crs-counts, total, managed_with,
  take_census_lem,
}
use cf_edge_operator.Zone.Gauges.{
  Label, shows, has_labels, holds, Unique, publish-other, publish-shows,
}
use cf_edge_operator.Zone.Keys.{
  claims, scan_crs-Keyed, scan_crs-known, take_census-Keyed, count_if-ext,
}

-- A hostname at Cloudflare that a custom resource of the zone has.
abbrev pub is_managed : Zone → List CustomHostname → String × HostnameResponse → Bool
is_managed zone crs (hostname, cf) = any (claims zone hostname) crs

start_scan-Unique : Unique start_scan.state_counts
unfolding holds
start_scan-Unique = (refl, (refl, (refl, (refl, tt))))

start_census-Unique : Unique start_census.status_counts
unfolding holds
start_census-Unique = (refl, (refl, (refl, (refl, (refl, (refl, tt))))))

module _ (env : Env) (zr : ZoneReconciler) (zone : Zone) (cf_hostnames : Hostnames)
    (crs : List CustomHostname) (w : World) where
  abbrev pub series : Gauge → String → Label
  series g label = record { gauge = g; zone = zone.metadata.name; label = label }

  abbrev pub afterwards : Trace
  afterwards = (compare_crs env zr zone cf_hostnames crs w).1.trace

  abbrev scan : Scan × World
  scan = scan_crs env zr zone cf_hostnames crs start_scan w

  abbrev census : Census
  census = take_census scan.0.cr_hostnames cf_hostnames start_census

  census_lem :
      (status : String)
      → (census.managed + census.orphans ≡ length cf_hostnames)
        × (count_of status census.status_counts
            ≡ count_if (managed_with scan.0.cr_hostnames status) cf_hostnames)
        × (total census.status_counts ≡ census.managed)
        × (census.managed ≡ count_if (λ (h, _). is_known h scan.0.cr_hostnames) cf_hostnames)
  census_lem status = take_census_lem status scan.0.cr_hostnames cf_hostnames

  known-claimed : (h : String) → is_known h scan.0.cr_hostnames ≡ any (claims zone h) crs
  unfolding Assoc.get
  known-claimed h = scan_crs-known env zr zone cf_hostnames h crs start_scan w

  state-shows :
      (state : String)
      → holds state start_scan.state_counts ≡ true
      → shows (series custom_hostnames state) afterwards
        ≡ some (count_if (in_state env zr zone cf_hostnames state) crs)
  unfolding compare_crs publish_census buffered_events read_events write_events shows holds ◌>>=◌
      call pure peek
  state-shows state h =
      let keyed =
        scan_crs-Keyed env zr zone cf_hostnames state crs start_scan w (start_scan-Unique, h) in
      publish-other hostname_status_gauge (series custom_hostnames state) census.status_counts _
        refl
      ∙ publish-shows (series custom_hostnames state) scan.0.state_counts scan.1 keyed.0 keyed.1
          refl
      ∙ ap some (scan_crs-counts env zr zone cf_hostnames state crs w).0

  status-shows :
      (status : String)
      → holds status start_census.status_counts ≡ true
      → shows (series hostname_status_gauge status) afterwards
        ≡ some (count_if (λ h. is_managed zone crs h && h.1.status == status) cf_hostnames)
  unfolding compare_crs publish_census buffered_events read_events write_events shows holds ◌>>=◌
      call pure peek
  status-shows status h =
      let keyed =
        take_census-Keyed status scan.0.cr_hostnames cf_hostnames start_census
          (start_census-Unique, h) in
      publish-shows (series hostname_status_gauge status) census.status_counts _ keyed.0 keyed.1
        refl
      ∙ ap some (
          (census_lem status).1
          ∙ count_if-ext _ _ cf_hostnames
              λ (h, cf). ap (λ b. b && cf.status == status) (known-claimed h))

  total-shows :
      (shows (series zone_custom_hostnames "managed") afterwards
        ≡ some (count_if (is_managed zone crs) cf_hostnames))
      × (shows (series zone_custom_hostnames "drifted") afterwards
          ≡ some (count_if (needs_reconcile env zr zone cf_hostnames) crs))
      × (shows (series zone_custom_hostnames "total") afterwards ≡ some (length cf_hostnames))
  unfolding compare_crs publish_census buffered_events read_events write_events shows has_labels
      ◌>>=◌ call pure peek
  total-shows =
      let others =
        publish-other hostname_status_gauge (series zone_custom_hostnames "managed")
          census.status_counts in
      (
        rw eq_refl (
            others _ refl
            ∙ rw eq_refl (
                ap some
                  ((census_lem "").3 ∙ count_if-ext _ _ cf_hostnames λ (h, cf). known-claimed h))),
        rw eq_refl (ap some (scan_crs-counts env zr zone cf_hostnames "" crs w).2),
        rw eq_refl refl,
      )

  -- After the comparison the gauges show counts of the custom resources that were listed and of the
  -- hostnames at Cloudflare, for each state and each of Cloudflare's statuses that the code
  -- initialises: how many custom resources of the zone are in the state; how many hostnames of
  -- Cloudflare that a custom resource of the zone has are in the status; how many hostnames a custom
  -- resource of the zone has; how many custom resources of the zone need a reconcile; and how many
  -- hostnames there are.
  pub compare_crs-shows :
      (state status : String)
      → holds state start_scan.state_counts ≡ true
      → holds status start_census.status_counts ≡ true
      → (shows (series custom_hostnames state) afterwards
          ≡ some (count_if (in_state env zr zone cf_hostnames state) crs))
        × (shows (series hostname_status_gauge status) afterwards
            ≡ some (count_if (λ h. is_managed zone crs h && h.1.status == status) cf_hostnames))
        × (shows (series zone_custom_hostnames "managed") afterwards
            ≡ some (count_if (is_managed zone crs) cf_hostnames))
        × (shows (series zone_custom_hostnames "drifted") afterwards
            ≡ some (count_if (needs_reconcile env zr zone cf_hostnames) crs))
        × (shows (series zone_custom_hostnames "total") afterwards ≡ some (length cf_hostnames))
  compare_crs-shows state status known_state known_status =
      let (managed, drifted, total) = total-shows in
      (state-shows state known_state, status-shows status known_status, managed, drifted, total)
