-- ===== src/Tests/Cluster.antt =====
-- Conflicts, a drift cycle and its gauges in a cluster of two custom resources.
use mathlib.Core.List.{Permᴰ, reverse}
use mathlib.Core.Quot
use cf_edge_operator.Prelude.{◌≡◌, refl, sym, ap, String, true, some, List, [], ◌∷◌, ◌++◌}
use cf_edge_operator.Prelude.Assoc
use cf_edge_operator.Api.Saas.{CustomHostname}
use cf_edge_operator.Api.Cloudflare.{HostnameResponse}
use cf_edge_operator.Platform.Errors.{Result, ok, err}
use cf_edge_operator.Platform.Calls.{custom_hostnames, hostname_status_gauge, zone_custom_hostnames}
use cf_edge_operator.Platform.Env.{Env}
use cf_edge_operator.Platform.Action.{pure, call, peek, ◌>>=◌}
use cf_edge_operator.Metrics.{record_cf_call}
use cf_edge_operator.Ssl.{has_drift}
use cf_edge_operator.Ssl.StatusChange.{ssl_status_changed_fields, changed_fields, set_if}
use cf_edge_operator.Hostname.Status.{detect_conflict, is_ready}
use cf_edge_operator.Zone.State.{refers_to_zone, cr_state, is_hostname_conflict_in}
use cf_edge_operator.Zone.Listing.{list_cloudflare_hostnames}
use cf_edge_operator.Zone.Drift.{
  enqueues, enqueues_known, detect_custom_hostname_drift, take_census, start_census,
}
use cf_edge_operator.Zone.Counts.{count_of}
use cf_edge_operator.Zone.Sent.{sent, select}
use cf_edge_operator.Zone.Gauges.{shows, holds}
use cf_edge_operator.Zone.Published.{series, afterwards, compare_crs-shows}
use cf_edge_operator.Zone.Order.{take_census-order}
use cf_edge_operator.Config.{one_of}
use cf_edge_operator.Cluster.{is_indexed, ListsByIndex}
use cf_edge_operator.Cluster.Conflicts.{detect_conflict-cluster}
use cf_edge_operator.Cluster.Cycle.{wanted, detect_drift-sent}
use cf_edge_operator.Tests.Fixtures.{
  env, zone_reconciler_a, zone, client, app, rival, good, drifted, start,
}

abbrev objects : List CustomHostname
objects = app ∷ rival ∷ []

abbrev indexed : Env
indexed = record env {
  list_custom_hostnames = λ t field value. ok (select (is_indexed field value) objects);
}

abbrev items_of : Result (List CustomHostname) → List CustomHostname
items_of (ok items) = items
items_of (err e) = []

indexed-ListsByIndex : ListsByIndex indexed (λ t. objects)
indexed-ListsByIndex = record { lists = λ t field value items e. sym (ap items_of e) }

detect_conflict-cluster_example : (detect_conflict indexed rival start).0.0 ≡ true
unfolding one_of
detect_conflict-cluster_example =
    detect_conflict-cluster indexed (λ t. objects) rival start objects indexed-ListsByIndex refl

detect_drift-sent_example :
    sent (detect_custom_hostname_drift indexed zone_reconciler_a client zone start).1.trace
    ≡ reverse (wanted indexed zone_reconciler_a zone (λ t. objects) client start) ++ []
unfolding list_cloudflare_hostnames ◌>>=◌ call pure peek record_cf_call one_of
detect_drift-sent_example =
    detect_drift-sent indexed zone_reconciler_a zone (λ t. objects) client objects start (λ t. refl)
      indexed-ListsByIndex refl refl

abbrev stray : HostnameResponse
stray = record drifted { hostname = "old.example.net" }

abbrev listed : List (String × HostnameResponse)
listed = ("app.example.net", good) ∷ ("old.example.net", stray) ∷ []

compare_crs-shows_example :
    let trace = afterwards env zone_reconciler_a zone listed objects start in
    (shows (series env zone_reconciler_a zone listed objects start custom_hostnames "pending") trace
      ≡ some 2)
    × (shows
          (series env zone_reconciler_a zone listed objects start hostname_status_gauge "active")
          trace
        ≡ some 1)
    × (shows
          (series env zone_reconciler_a zone listed objects start zone_custom_hostnames "managed")
          trace
        ≡ some 1)
    × (shows
          (series env zone_reconciler_a zone listed objects start zone_custom_hostnames "drifted")
          trace
        ≡ some 2)
    × (shows
          (series env zone_reconciler_a zone listed objects start zone_custom_hostnames "total")
          trace
        ≡ some 2)
unfolding holds refers_to_zone cr_state enqueues is_hostname_conflict_in Assoc.get is_ready
    enqueues_known has_drift ssl_status_changed_fields changed_fields set_if
compare_crs-shows_example =
    compare_crs-shows env zone_reconciler_a zone listed objects start "pending" "active" refl refl

take_census-order_example :
    let c = take_census (("app.example.net", true) ∷ []) listed start_census in
    let c' =
      take_census
        (("app.example.net", true) ∷ [])
        (("old.example.net", stray) ∷ ("app.example.net", good) ∷ [])
        start_census in
    (c.managed ≡ c'.managed)
    × (c.orphans ≡ c'.orphans)
    × (count_of "active" c.status_counts ≡ count_of "active" c'.status_counts)
take_census-order_example =
    take_census-order (("app.example.net", true) ∷ []) listed
      (("old.example.net", stray) ∷ ("app.example.net", good) ∷ []) "active"
      (Quot.sound (Permᴰ.swap refl refl))
