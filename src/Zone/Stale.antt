-- ===== src/Zone/Stale.antt =====
-- The gauges of a zone that was deleted.
use cf_edge_operator.Prelude.{◌≡◌, true, eq_refl, String, none, arith}
use cf_edge_operator.Api.Meta.{NamespacedName}
use cf_edge_operator.Platform.Errors.{Err, err, is_not_found}
use cf_edge_operator.Platform.Calls.{Gauge}
use cf_edge_operator.Platform.Env.{Env}
use cf_edge_operator.Platform.Action.{World, call, pure, ◌>>=◌}
use cf_edge_operator.Zone.Config.{ZoneReconciler}
use cf_edge_operator.Zone.Reconcile.{forget_zone, reconcile_zone}
use cf_edge_operator.Zone.Gauges.{Label, shows}

abbrev pub series : NamespacedName → String → Gauge → Label
series key label g = record { gauge = g; zone = key.name; label = label }

-- If a zone is not found, then after its reconcile the gauges of the custom resources' states and of
-- the hostname counts show nothing of it, but that of the hostname statuses shows for every status
-- what it showed before.
pub reconcile_zone-stale :
    (env : Env) (zr : ZoneReconciler) (key : NamespacedName) (e : Err) (w : World) (label : String)
    → env.get_zone w.trace key ≡ err e
    → is_not_found e ≡ true
    → let after = (reconcile_zone env zr key w).1.trace in
      (shows (series key label Gauge.custom_hostnames) after ≡ none)
      × (shows (series key label Gauge.zone_custom_hostnames) after ≡ none)
      × (shows (series key label Gauge.hostname_status_gauge) after
          ≡ shows (series key label Gauge.hostname_status_gauge) w.trace)
unfolding reconcile_zone forget_zone ◌>>=◌ call pure shows
reconcile_zone-stale env zr key e w label missing not_found =
    rw missing (rw not_found (ground (arith, eq_refl key.name)))
