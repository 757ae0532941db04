-- ===== src/Life.antt =====
-- The life of one custom resource: what happens to it in the cluster, the events that reach the
-- worker's queue (`fastWritePredicate` and `SetupWithManager` of internal/controller/
-- customhostname_controller.go), and its reconciles.
pub mod Watched
pub mod Own
use cf_edge_operator.Prelude.{
  ◌≡◌, ◌≢◌, Bool, true, false, ◌||◌, Option, none, some, String, List, ◌∷◌, ltb,
}
use cf_edge_operator.Api.Meta.{NamespacedName}
use cf_edge_operator.Api.Saas.{CustomHostname}
use cf_edge_operator.Platform.Errors.{Err, ok}
use cf_edge_operator.Platform.Calls.{Call, Trace}
use cf_edge_operator.Platform.Env.{Env, HasUniqueTypes}
use cf_edge_operator.Platform.Stored.{stored_status}
use cf_edge_operator.Platform.Action.{World}
use cf_edge_operator.Platform.Emits.{Extends}
use cf_edge_operator.Hostname.Config.{Reconciler, Outcome}
use cf_edge_operator.Hostname.Delete.{has_finalizer}
use cf_edge_operator.Hostname.Reconcile.{reconcile, passes_create, passes_update}
use cf_edge_operator.Hostname.Endings.{NoSave}

-- The resource as the API server has it, and whether the worker's queue holds its key, also where
-- it waits there for a retry.
pub record Life : Type 0 where
  pub object : CustomHostname
  pub queued : Bool

-- When the process starts, the informer has a create event for every resource.
unfoldable pub seen : CustomHostname → Life
seen ch = record { object = ch; queued = passes_create ch }

-- controller-runtime queues the key again after an error and where it is asked to.
unfoldable pub asks_again : Outcome → Bool
asks_again out =
    out.requeue || ltb 0 out.requeue_after || elim out.error [ none ↦ false | some _ ↦ true ]

-- A change that is not the worker's. The status is the worker's alone. The API server counts the
-- generation up when the spec changes and when the deletion begins. A deletion is not taken back,
-- and no finalizer is added after it.
pub record ChangedOutside (env : Env) (old new : CustomHostname) : Type 0 where
  pub status : new.status ≡ old.status
  pub generation :
      new.metadata.generation ≡ old.metadata.generation
      → (new.spec ≡ old.spec) × (new.metadata.deletion_timestamp ≡ old.metadata.deletion_timestamp)
  pub deletion : old.metadata.deletion_timestamp ≢ none → new.metadata.deletion_timestamp ≢ none
  pub finalizers :
      old.metadata.deletion_timestamp ≢ none
      → has_finalizer env new ≡ true
      → has_finalizer env old ≡ true

-- What the API server has after a reconcile whose one save, its last call, was accepted: an update
-- stores the metadata and the spec, an update of the status the status, with its times as they are
-- stored.
pub record Stored (env : Env) (old : CustomHostname) (before after : Trace) (new : CustomHostname)
    : Type 0 where
  pub updated :
      (t : Trace) (saved : CustomHostname)
      → after ≡ Call.update saved ∷ t
      → Extends NoSave before t
      → env.update t saved ≡ none
      → new ≡ record old { metadata = saved.metadata; spec = saved.spec }
  pub reported :
      (t : Trace) (saved : CustomHostname)
      → after ≡ Call.update_status saved ∷ t
      → Extends NoSave before t
      → env.update_status t saved ≡ none
      → new ≡ record old { status = stored_status env saved.status }

-- What the API server, the informer and the queue do around the worker is assumed here, as they
-- document it. What can happen: a change by another client, with its update event; an event from
-- the zone controller; a restart of the operator; a reconcile, whatever the servers answer.
pub data Step (env : Env) (r : Reconciler) (key : NamespacedName) : Life → Life → Type 0 where
  outside :
      (l : Life) (new : CustomHostname)
      → ChangedOutside env l.object new
      → Step env r key l (record { object = new; queued = l.queued || passes_update l.object new })
  drift_event : (l : Life) → Step env r key l (record l { queued = true })
  restart : (l : Life) → Step env r key l (seen l.object)
  work :
      (l : Life) (w : World) (new : CustomHostname)
      → l.queued ≡ true
      → env.get_custom_hostname w.trace key ≡ ok l.object
      → HasUniqueTypes l.object.status.conditions
      → Stored env l.object w.trace (reconcile env r key w).1.trace new
      → Step env r key l (record {
        object = new;
        queued = asks_again (reconcile env r key w).0 || passes_update l.object new;
      })

pub data Reaches (env : Env) (r : Reconciler) (key : NamespacedName) (l : Life)
    : Life → Type 0 where
  done : Reaches env r key l l
  and_then : {m n : Life} → Reaches env r key l m → Step env r key m n → Reaches env r key l n
