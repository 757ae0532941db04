-- ===== src/Zone/ReadOnly.antt =====
-- What a reconcile of the zone controller leaves as it is.
use cf_edge_operator.Prelude.{◌≡◌, refl, Bool, true, false}
use cf_edge_operator.Api.Meta.{NamespacedName}
use cf_edge_operator.Platform.Calls.{Call}
use cf_edge_operator.Platform.Env.{Env}
use cf_edge_operator.Platform.Moves.{Allows}
use cf_edge_operator.Platform.Emits.{Emits, ByCalls, ByCalls-Progress, ByCalls-Allows, same}
use cf_edge_operator.Platform.State.{write_events}
use cf_edge_operator.Metrics.Emits.{EmitsMetrics, metrics_emits}
use cf_edge_operator.Zone.Config.{ZoneReconciler}
use cf_edge_operator.Zone.Sends.{AllowsSends, buffered_events-Moves, send_drift_event-Moves}
use cf_edge_operator.Zone.Reconcile.{reconcile_zone}
use cf_edge_operator.Zone.Moves.{is_zone_plain, AllowsZone, reconcile_zone-Moves}

-- Does the call change a hostname in Cloudflare, or a custom resource or its status?
abbrev pub changes_hostname : Call → Bool
changes_hostname (Call.cf_new _ _) = true
changes_hostname (Call.cf_edit _ _ _) = true
changes_hostname (Call.cf_delete _ _ _) = true
changes_hostname (Call.update _) = true
changes_hostname (Call.update_status _) = true
changes_hostname _ = false

abbrev pub ReadOnly : Call → Type 0
ReadOnly c = changes_hostname c ≡ false

metrics-ReadOnly : EmitsMetrics ReadOnly
metrics-ReadOnly = record {
  emits_inc = λ c labels _. refl;
  emits_set = λ g labels v _. refl;
  emits_observe = λ labels d _. refl;
  emits_delete = λ g labels _. refl;
}

module _ (env : Env) (zr : ZoneReconciler) where
  allowed : (c : Call) → ReadOnly c → Allows (ByCalls ReadOnly) c
  allowed c h = ByCalls-Allows h

  sends-ReadOnly : AllowsSends (ByCalls ReadOnly)
  unfolding write_events
  sends-ReadOnly = record {
    progress = ByCalls-Progress ReadOnly;
    allows_inc = λ c labels _. allowed _ refl;
    allows_send = λ ch. allowed _ refl;
    moves_events = λ events. record { at = λ w. same };
  }

  plain-ReadOnly : (c : Call) → is_zone_plain c ≡ true → ReadOnly c
  plain-ReadOnly (Call.cf_new _ _) h = cc h
  plain-ReadOnly (Call.cf_edit _ _ _) h = cc h
  plain-ReadOnly (Call.cf_delete _ _ _) h = cc h
  plain-ReadOnly (Call.update _) h = cc h
  plain-ReadOnly (Call.update_status _) h = cc h
  plain-ReadOnly _ h = refl

  steps-ReadOnly : AllowsZone (ByCalls ReadOnly) env zr
  steps-ReadOnly = record {
    progress = ByCalls-Progress ReadOnly;
    plain = λ c h. allowed c (plain-ReadOnly c h);
    gauges = λ g labels v h _. allowed _ refl;
    deletes = λ g labels _. allowed _ refl;
    deletes_zone = λ g name. allowed _ refl;
    metrics = metrics_emits metrics-ReadOnly env;
    buffered = buffered_events-Moves sends-ReadOnly env;
    sends = send_drift_event-Moves sends-ReadOnly env zr;
  }

  -- A reconcile of a zone, whatever the servers answer, changes no hostname in Cloudflare, no
  -- custom resource and no status of one.
  pub reconcile_zone-ReadOnly : (key : NamespacedName) → Emits ReadOnly (reconcile_zone env zr key)
  reconcile_zone-ReadOnly = reconcile_zone-Moves steps-ReadOnly
