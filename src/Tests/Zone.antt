-- ===== src/Tests/Zone.antt =====
-- The theorems on the zone controller, at concrete inputs.
use cf_edge_operator.Prelude.{◌≡◌, refl, String, eq_iff, true, false, some, List, [], ◌∷◌, arith}
use cf_edge_operator.Api.Saas.{CustomHostname}
use cf_edge_operator.Api.Cloudflare.{HostnameResponse}
use cf_edge_operator.Platform.Env.{Env, HasUniqueTypes, of_type}
use cf_edge_operator.Platform.Action.{pure, call, peek, ◌>>=◌}
use cf_edge_operator.Metrics.{cf_retry, retry_loop, retry_or_stop, record_cf_call}
use cf_edge_operator.Ssl.{has_drift}
use cf_edge_operator.Hostname.Config.{effective_management_policy}
use cf_edge_operator.Hostname.Create.{create_call, handle_create}
use cf_edge_operator.Hostname.Update.{edit_call, correct_drift}
use cf_edge_operator.Hostname.Recorded.{last_status}
use cf_edge_operator.Hostname.Guards.{conflict_object}
use cf_edge_operator.Zone.Drift.{enqueues_known}
use cf_edge_operator.Zone.Reconcile.{reconcile_zone, needs_init, initialized, named}
use cf_edge_operator.Platform.Emits.{Emits}
use cf_edge_operator.Zone.ReadOnly.{ReadOnly, reconcile_zone-ReadOnly}
use cf_edge_operator.Zone.Settled.{correct_drift-settled}
use cf_edge_operator.Zone.Unsettled.{first, again, conflict-never_settles}
use cf_edge_operator.Zone.Converges.{correct_drift-converges, handle_create-converges}
use cf_edge_operator.Zone.States.{recorded_state, cr_state-recorded, needs_init-initialized}
use cf_edge_operator.Prelude.{none}
use cf_edge_operator.Api.Meta.{NamespacedName}
use cf_edge_operator.Platform.Errors.{err, not_found, is_not_found}
use cf_edge_operator.Platform.Calls.{Gauge}
use cf_edge_operator.Hostname.Status.{
  detect_conflict, set_conflict, set_condition, set_error, requeue_or_ready, check_peers,
  find_owner,
}
use cf_edge_operator.Platform.Stored.{as_stored}
use cf_edge_operator.Hostname.Guards.{conflict_object}
use cf_edge_operator.Zone.Gauges.{shows}
use cf_edge_operator.Zone.Stale.{series, reconcile_zone-stale}
use cf_edge_operator.Hostname.Reconcile.{reconcile_owned}
use cf_edge_operator.Tests.Fixtures.{
  env, reconciler, zone_reconciler_a, zone, app, rival, zi, good, drifted, start, sets, finds,
  keeps,
}
use cf_edge_operator.Tests.Hostname.{good_edited, good_created}

-- The app is stale, as its status has no SSL state; the stray belongs to another zone.
abbrev stray : CustomHostname
stray = record app {
  spec = record app.spec { zone_ref = record { name = "zone-b"; namespace = "" } };
}

abbrev listed : List (String × HostnameResponse)
listed = ("app.example.net", good) ∷ ("old.example.net", drifted) ∷ []

no_conditions : HasUniqueTypes []
unfolding of_type
no_conditions t = omega arith

needs_init-initialized_example :
    let z = initialized env (named zone "example.com") "ZoneInitialized" "done" in
    (needs_init env z ≡ false)
    × (needs_init env (record z { metadata = record z.metadata { generation = 4 } }) ≡ true)
needs_init-initialized_example =
    needs_init-initialized env sets finds zone "example.com" "ZoneInitialized" "done" 4
      no_conditions λ e. ground (arith, e, eq_iff "example.com" "")

reconcile_zone-ReadOnly_example :
    Emits ReadOnly
      (reconcile_zone env zone_reconciler_a (record { name = "zone-a"; namespace = "ops" }))
reconcile_zone-ReadOnly_example =
    reconcile_zone-ReadOnly env zone_reconciler_a (record { name = "zone-a"; namespace = "ops" })

-- The servers no longer know the zone.
abbrev zone_gone : Env
zone_gone = record env { get_zone = λ t key. err not_found }

abbrev zone_key : NamespacedName
zone_key = record { name = "zone-a"; namespace = "ops" }

reconcile_zone-stale_example :
    let after = (reconcile_zone zone_gone zone_reconciler_a zone_key start).1.trace in
    (shows (series zone_key "active" Gauge.custom_hostnames) after ≡ none)
    × (shows (series zone_key "active" Gauge.zone_custom_hostnames) after ≡ none)
    × (shows (series zone_key "active" Gauge.hostname_status_gauge) after
        ≡ shows (series zone_key "active" Gauge.hostname_status_gauge) start.trace)
unfolding is_not_found
reconcile_zone-stale_example =
    reconcile_zone-stale zone_gone zone_reconciler_a zone_key not_found start "active" refl refl

correct_drift-settled_example :
    (ch' : CustomHostname) × (last_status (correct_drift env reconciler zi app good start).1.trace
      ≡ some ch')
    × (enqueues_known env (as_stored env ch') good ≡ false)
unfolding has_drift
correct_drift-settled_example = correct_drift-settled env reconciler zi app good start keeps refl

correct_drift-converges_example :
    (ch' : CustomHostname) × (last_status
        (correct_drift env reconciler zi app drifted start).1.trace
      ≡ some ch')
    × (enqueues_known env (as_stored env ch') good ≡ false)
unfolding has_drift cf_retry retry_loop retry_or_stop edit_call ◌>>=◌ call pure peek record_cf_call
    effective_management_policy
correct_drift-converges_example =
    correct_drift-converges env keeps reconciler zi app good drifted start refl refl good_edited

handle_create-converges_example :
    (ch' : CustomHostname) × (last_status (handle_create env reconciler zi rival start).1.trace
      ≡ some ch')
    × (enqueues_known env (as_stored env ch') good ≡ false)
unfolding cf_retry retry_loop retry_or_stop create_call ◌>>=◌ call pure peek record_cf_call
handle_create-converges_example =
    handle_create-converges env keeps reconciler zi rival good start refl refl good_created

conflict-never_settles_example :
    enqueues_known env (as_stored env (conflict_object env rival app)) good ≡ true
unfolding has_drift reconcile_owned detect_conflict check_peers set_conflict set_condition
    find_owner ◌>>=◌ call pure
conflict-never_settles_example =
    conflict-never_settles env reconciler zi good rival refl
      (λ e. ground (arith, e, eq_iff "active" ""))
      (again first start (app ∷ rival ∷ []) app refl refl refl)

cr_state-recorded_example :
    (recorded_state (requeue_or_ready env "zone-a" app start).1.trace ≡ some "pending")
    × (recorded_state (set_error env app "UpdateFailed" "error" start).1.trace ≡ some "unhealthy")
    × (recorded_state (check_peers env app (some rival) start).1.trace ≡ some "conflict")
cr_state-recorded_example =
    cr_state-recorded env sets app rival "zone-a" "UpdateFailed" "error" start no_conditions
      λ e. ground (arith, e, eq_iff "UpdateFailed" "HostnameConflict")
