-- ===== src/Process.antt =====
-- The operator as a process: the two controllers that cmd/main.go starts, with the state they share.
pub mod Sound
pub mod Invariant
pub mod Labels
use cf_edge_operator.Prelude.{[]}
use cf_edge_operator.Api.Meta.{NamespacedName}
use cf_edge_operator.Platform.Env.{Env}
use cf_edge_operator.Platform.Action.{World}
use cf_edge_operator.Hostname.Config.{Reconciler}
use cf_edge_operator.Hostname.Reconcile.{reconcile}
use cf_edge_operator.Zone.Config.{ZoneReconciler}
use cf_edge_operator.Zone.Reconcile.{reconcile_zone}
use cf_edge_operator.Config.{Flags, custom_hostname_reconciler, zone_reconciler}

pub record Process : Type 0 where
  pub worker : Reconciler
  pub coordinator : ZoneReconciler

unfoldable pub process : Flags → Process
process f = record { worker = custom_hostname_reconciler f; coordinator = zone_reconciler f }

-- Nothing has been called, the cache of metrics.go and the channel are empty.
abbrev pub started : World
started = record { trace = []; provisioning = []; events = [] }

-- A step is one whole reconcile of a custom resource or of a zone, as controller-runtime calls it,
-- whatever the outside answers in it. Steps follow one another: of two reconciles that overlap, the
-- environment of each covers what it sees of the other, but not what both do to the cache.
pub data Step (p : Process) : World → World → Type 0 where
  custom_hostname :
      (env : Env) (key : NamespacedName) (w : World) → Step p w (reconcile env p.worker key w).1
  zone :
      (env : Env) (key : NamespacedName) (w : World)
      → Step p w (reconcile_zone env p.coordinator key w).1

pub data Reaches (p : Process) : World → World → Type 0 where
  done : {w : World} → Reaches p w w
  and_then : {u v w : World} → Reaches p u v → Step p v w → Reaches p u w
