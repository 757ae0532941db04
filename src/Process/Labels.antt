-- ===== src/Process/Labels.antt =====
-- The labels with which the two controllers call the vectors of metrics.go.
use cf_edge_operator.Prelude.{◌≡◌, refl, true}
use cf_edge_operator.Api.Meta.{NamespacedName}
use cf_edge_operator.Api.Saas.{CustomHostname}
use cf_edge_operator.Platform.Calls.{Call}
use cf_edge_operator.Platform.Env.{Env}
use cf_edge_operator.Platform.Action.{World}
use cf_edge_operator.Platform.State.{write_events}
use cf_edge_operator.Platform.Moves.{
  Progress, Allows, Moves-bind, Moves-call, Moves-pure, Moves-handle, Moves-either,
}
use cf_edge_operator.Platform.Emits.{
  Emits, Extends, Extends-trans, same, ByCalls, ByCalls-Progress, ByCalls-Allows,
}
use cf_edge_operator.Metrics.Vectors.{fits}
use cf_edge_operator.Metrics.Emits.{EmitsMetrics, metrics_emits}
use cf_edge_operator.Hostname.Config.{Reconciler}
use cf_edge_operator.Hostname.Reconcile.{reconcile_object, reconcile}
use cf_edge_operator.Hostname.Allowed.{is_plain, AllowsReads}
use cf_edge_operator.Hostname.Allowed.Live.{reconcile_live-Moves}
use cf_edge_operator.Hostname.Allowed.Deletion.{reconcile_deletion-Moves}
use cf_edge_operator.Zone.Config.{ZoneReconciler}
use cf_edge_operator.Zone.Moves.{is_zone_plain, AllowsZone, reconcile_zone-Moves}
use cf_edge_operator.Zone.Sends.{AllowsSends, buffered_events-Moves, send_drift_event-Moves}
use cf_edge_operator.Process.{Process, Step, Reaches}

abbrev pub Fits : Call → Type 0
Fits c = fits c ≡ true

fit : {c : Call} → Fits c → Allows (ByCalls Fits) c
fit h = ByCalls-Allows h

chained : Progress (ByCalls Fits)
chained = ByCalls-Progress Fits

metrics_fit : EmitsMetrics Fits
metrics_fit = record {
  emits_inc = λ c labels h. h;
  emits_set = λ g labels v h. h;
  emits_observe = λ labels d h. h;
  emits_delete = λ g labels h. h;
}

plain_fit : (c : Call) → is_plain true true c ≡ true → Fits c
plain_fit (Call.inc _ _) h = cc h
plain_fit (Call.set _ _ _) h = cc h
plain_fit (Call.observe _ _) h = cc h
plain_fit (Call.delete_series _ _) h = cc h
plain_fit _ h = refl

zone_plain_fit : (c : Call) → is_zone_plain c ≡ true → Fits c
zone_plain_fit (Call.inc _ _) h = cc h
zone_plain_fit (Call.set _ _ _) h = cc h
zone_plain_fit (Call.observe _ _) h = cc h
zone_plain_fit (Call.delete_series _ _) h = cc h
zone_plain_fit _ h = refl

sends_fit : AllowsSends (ByCalls Fits)
unfolding write_events
sends_fit = record {
  progress = chained;
  allows_inc = λ c labels h. fit h;
  allows_send = λ ch. fit refl;
  moves_events = λ events. record { at = λ w. same };
}

module _ (env : Env) where
  worker-Fits : AllowsReads true true (ByCalls Fits) env
  worker-Fits = record {
    progress = chained;
    plain = λ c h. fit (plain_fit c h);
    metrics = metrics_emits metrics_fit env;
  }

  zone-Fits : (zr : ZoneReconciler) → AllowsZone (ByCalls Fits) env zr
  zone-Fits zr = record {
    progress = chained;
    plain = λ c h. fit (zone_plain_fit c h);
    gauges = λ g labels v _ h. fit h;
    deletes = λ g labels h. fit h;
    deletes_zone = λ g name. fit refl;
    metrics = metrics_emits metrics_fit env;
    buffered = buffered_events-Moves sends_fit env;
    sends = send_drift_event-Moves sends_fit env zr;
  }

  reconcile_object-Fits :
      (r : Reconciler) (ch : CustomHostname) → Emits Fits (reconcile_object env r ch)
  unfolding reconcile_object
  reconcile_object-Fits r ch =
      Moves-either _ _ _
        (λ live. reconcile_live-Moves worker-Fits r ch λ zi in_zone held. record {
          create = λ not_observed real. fit refl;
          edit = λ existing manages real. fit refl;
        })
        (λ t deleted.
          reconcile_deletion-Moves worker-Fits r ch
            λ client zone_id has_id not_observed may_delete real owned. fit refl)

  reconcile-Fits : (r : Reconciler) (key : NamespacedName) → Emits Fits (reconcile env r key)
  unfolding reconcile
  reconcile-Fits r key = Moves-bind chained _ _ (Moves-call chained _ _ (fit refl)) λ found.
      Moves-handle found _ _ (λ e _. Moves-pure chained _) λ ch _. reconcile_object-Fits r ch

-- In any run of the two controllers, whatever the servers answer, every change or removal of one
-- series of a vector gives one value for each label of the vector. The operations, the retries and
-- the durations are counted only in series that `init` has made.
pub Reaches-Fits : (p : Process) {v w : World} → Reaches p v w → Extends Fits v.trace w.trace
Reaches-Fits p Reaches.done = same
Reaches-Fits p (Reaches.and_then before (Step.custom_hostname env key w)) =
    Extends-trans (Reaches-Fits p before) ((reconcile-Fits env p.worker key).at w)
Reaches-Fits p (Reaches.and_then before (Step.zone env key w)) =
    Extends-trans (Reaches-Fits p before)
      ((reconcile_zone-Moves (zone-Fits env p.coordinator) key).at w)
