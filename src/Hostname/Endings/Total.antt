-- ===== src/Hostname/Endings/Total.antt =====
-- How a reconcile of the worker ends, whatever the object.
use cf_edge_operator.Prelude.{◌≡◌, refl, Option, none, some}
use cf_edge_operator.Api.Meta.{NamespacedName}
use cf_edge_operator.Api.Saas.{CustomHostname}
use cf_edge_operator.Platform.Errors.{ok}
use cf_edge_operator.Platform.Env.{Env}
use cf_edge_operator.Platform.Action.{World, Action, call, ◌>>=◌, either}
use cf_edge_operator.Platform.Emits.{same, more}
use cf_edge_operator.Hostname.Config.{Reconciler, Outcome}
use cf_edge_operator.Hostname.Reconcile.{reconcile_object, reconcile}
use cf_edge_operator.Hostname.Endings.{Ends, Ends-later, EndsIn}
use cf_edge_operator.Hostname.Endings.Live.{reconcile_live-EndsIn}
use cf_edge_operator.Hostname.Endings.Deletion.{reconcile_deletion-EndsIn}

either-EndsIn :
    {A : Type 0} {env : Env} {ch : CustomHostname} (o : Option A) (m : Action Outcome)
    (f : A → Action Outcome)
    → (o ≡ none → EndsIn env ch m)
    → ((a : A) → o ≡ some a → EndsIn env ch (f a))
    → EndsIn env ch (either o m f)
either-EndsIn none m f hm hf = hm refl
either-EndsIn (some a) m f hm hf = hf a refl

reconcile_object-EndsIn :
    (env : Env) (r : Reconciler) (ch : CustomHostname) → EndsIn env ch (reconcile_object env r ch)
unfolding reconcile_object
reconcile_object-EndsIn env r ch =
    either-EndsIn _ _ _ (λ live. reconcile_live-EndsIn env ch live r)
      (λ t deleted. reconcile_deletion-EndsIn env ch (λ e. cc (e, deleted)) r)

-- A reconcile of an object that the API server returns saves at most one thing, by its last call.
-- Either it returns an error, of that call or with nothing saved; or a live object was stored with
-- the finalizer, and a requeue is asked for; or an object that is being deleted was stored without
-- the finalizer; or the status of a live object was stored, with its metadata and spec as they were
-- and its `Ready` condition set at its generation.
pub reconcile-Ends :
    (env : Env) (r : Reconciler) (key : NamespacedName) (ch : CustomHostname) (w : World)
    → env.get_custom_hostname w.trace key ≡ ok ch
    → Ends env ch w.trace (reconcile env r key w).0 (reconcile env r key w).1.trace
unfolding reconcile ◌>>=◌ call
reconcile-Ends env r key ch w found =
    rw found (Ends-later (more same refl) ((reconcile_object-EndsIn env r ch).at _))
