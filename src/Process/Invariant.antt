-- ===== src/Process/Invariant.antt =====
-- The state of the process between two reconciles.
use cf_edge_operator.Prelude.{String, ◌≡◌, ◌≤◌, ◌<◌, refl, true, false, ℕ, none, List, length}
use cf_edge_operator.Api.Meta.{NamespacedName}
use cf_edge_operator.Api.Saas.{CustomHostname}
use cf_edge_operator.Platform.Calls.{Call, Gauge}
use cf_edge_operator.Platform.Env.{Env}
use cf_edge_operator.Platform.Action.{World}
use cf_edge_operator.Platform.Moves.{
  Moves, Moves-bind, Moves-call, Moves-pure, Moves-handle, Moves-either,
}
use cf_edge_operator.Hostname.Allowed.{is_plain, AllowsReads}
use cf_edge_operator.Hostname.Allowed.Live.{reconcile_live-Moves}
use cf_edge_operator.Hostname.Allowed.Deletion.{reconcile_deletion-Moves}
use cf_edge_operator.Hostname.Reconcile.{reconcile_object, reconcile}
use cf_edge_operator.Zone.Moves.{is_zone_plain, is_zone_gauge, AllowsZone, reconcile_zone-Moves}
use cf_edge_operator.Config.{Flags, rejected_flag, pos_part, zone_reconciler}
use cf_edge_operator.Config.Laws.{rejected_flag-reconcilers}
use cf_edge_operator.Process.{Process, process, Step, Reaches, started}
use cf_edge_operator.Metrics.Series.{NoLeak}
use cf_edge_operator.Metrics.Registry.{AllFiled, NamesZones}
use cf_edge_operator.Process.Sound.{
  sets_duration, Sound, Keeps, Keeps-Progress, call-Keeps, metrics-Keeps, buffered_events-Keeps,
  send-Keeps, started-Sound,
}

module _ (p : Process) where
  module _ (env : Env) where
    plain-Keeps : (c : Call) → is_plain true true c ≡ true → sets_duration c ≡ false
    unfolding sets_duration
    plain-Keeps (Call.set _ _ _) h = cc h
    plain-Keeps _ h = refl

    worker-Keeps : AllowsReads true true (Keeps p) env
    worker-Keeps = record {
      progress = Keeps-Progress p;
      plain = λ c h. call-Keeps p c (plain-Keeps c h);
      metrics = metrics-Keeps p env;
    }

    reconcile_object-Keeps :
        (ch : CustomHostname) → Moves (Keeps p) (reconcile_object env p.worker ch)
    unfolding reconcile_object sets_duration
    reconcile_object-Keeps ch =
        Moves-either _ _ _
          (λ live. reconcile_live-Moves worker-Keeps p.worker ch λ zi in_zone held. record {
            create = λ not_observed real. call-Keeps p _ refl;
            edit = λ existing manages real. call-Keeps p _ refl;
          })
          (λ t deleted.
            reconcile_deletion-Moves worker-Keeps p.worker ch
              λ client zone_id has_id not_observed may_delete real owned. call-Keeps p _ refl)

    reconcile-Keeps : (key : NamespacedName) → Moves (Keeps p) (reconcile env p.worker key)
    unfolding reconcile sets_duration
    reconcile-Keeps key =
        Moves-bind (Keeps-Progress p) _ _ (Moves-call (Keeps-Progress p) _ _ (call-Keeps p _ refl))
          λ found.
            Moves-handle found _ _ (λ e _. Moves-pure (Keeps-Progress p) _)
              λ ch _. reconcile_object-Keeps ch

    zone_plain-Keeps : (c : Call) → is_zone_plain c ≡ true → sets_duration c ≡ false
    unfolding sets_duration
    zone_plain-Keeps (Call.set _ _ _) h = cc h
    zone_plain-Keeps _ h = refl

    zone_gauge-Keeps :
        (g : Gauge) (labels : List String) (v : ℕ)
        → is_zone_gauge g ≡ true
        → sets_duration (Call.set g labels v) ≡ false
    unfolding sets_duration
    zone_gauge-Keeps Gauge.ssl_provisioning_duration labels v h = cc h
    zone_gauge-Keeps _ labels v h = refl

    zone-Keeps : 0 < p.coordinator.drift_buffer → AllowsZone (Keeps p) env p.coordinator
    unfolding sets_duration
    zone-Keeps room = record {
      progress = Keeps-Progress p;
      plain = λ c h. call-Keeps p c (zone_plain-Keeps c h);
      gauges = λ g labels v h _. call-Keeps p _ (zone_gauge-Keeps g labels v h);
      deletes = λ g labels _. call-Keeps p _ refl;
      deletes_zone = λ g name. call-Keeps p _ refl;
      metrics = metrics-Keeps p env;
      buffered = buffered_events-Keeps p env;
      sends = λ ch. send-Keeps p env ch room;
    }

  step-Keeps : {v w : World} → 0 < p.coordinator.drift_buffer → Step p v w → Sound p v → Sound p w
  step-Keeps room (Step.custom_hostname env key w) s = (reconcile-Keeps env key).at w s
  step-Keeps room (Step.zone env key w) s = (reconcile_zone-Moves (zone-Keeps env room) key).at w s

  Reaches-Sound :
      {v w : World} → 0 < p.coordinator.drift_buffer → Reaches p v w → Sound p v → Sound p w
  Reaches-Sound room Reaches.done s = s
  Reaches-Sound room (Reaches.and_then before step) s =
      step-Keeps room step (Reaches-Sound room before s)

-- A process that is started with flags that `main` accepts is sound after any reconciles of custom
-- resources and zones, in any order and whatever the API server and Cloudflare answer: the channel
-- holds no more events than its buffer has room for, and every series of the provisioning time that
-- is there is registered in the cache under the key of its zone and hostname, so that a cleanup will
-- find it. The second needs that no zone whose series was set has a slash in its name.
pub Reaches-sound :
    (f : Flags) (w : World)
    → rejected_flag f ≡ none
    → Reaches (process f) started w
    → NamesZones w.trace
    → (length w.events ≤ pos_part f.drift_buffer) × NoLeak w × AllFiled w.provisioning
unfolding process zone_reconciler
Reaches-sound f w accepted reached names =
    let room = (rejected_flag-reconcilers f accepted).0.1 in
    let sound = Reaches-Sound (process f) room reached (started-Sound (process f)) in
    let registry = sound.registered names in (sound.bounded, registry.no_leak, registry.filed)
