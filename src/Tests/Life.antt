-- ===== src/Tests/Life.antt =====
-- The theorems on the life of a custom resource, at concrete inputs.
use cf_edge_operator.Prelude.{◌≡◌, refl, ◌||◌, false, some, [], ◌∷◌, arith, String, List, eq_iff}
use cf_edge_operator.Api.Meta.{NamespacedName}
use cf_edge_operator.Api.Saas.{CustomHostname}
use cf_edge_operator.Platform.Errors.{ok}
use cf_edge_operator.Platform.Env.{Env, SetsConditions, of_type}
use cf_edge_operator.Platform.Action.{◌>>=◌, call, pure}
use cf_edge_operator.Hostname.Delete.{released, release_finalizer, reconcile_deletion}
use cf_edge_operator.Hostname.Reconcile.{reconcile, reconcile_object, passes_update, passes_create}
use cf_edge_operator.Hostname.Endings.{Ends}
use cf_edge_operator.Hostname.Endings.Total.{reconcile-Ends}
use cf_edge_operator.Life.{seen, asks_again, Stored, Step, work, done, and_then}
use cf_edge_operator.Life.Watched.{RemovesFinalizer, Watched, Reaches-Watched}
use cf_edge_operator.Tests.Fixtures.{env, reconciler, app, metadata, start, sets, contains, remove}

-- A resource that is being deleted and never got a hostname.
abbrev leaving : CustomHostname
leaving = record app {
  metadata = record metadata { deletion_timestamp = some 90 };
  status = record app.status { id = "" };
}

abbrev gone : CustomHostname
gone = record leaving { metadata = record leaving.metadata { finalizers = [] } }

abbrev servers : Env
servers = record env { get_custom_hostname = λ t key. ok leaving }

abbrev app_key : NamespacedName
app_key = record { name = "app"; namespace = "team-a" }

contains-remove : (fs : List String) (f : String) → contains (remove fs f) f ≡ false
unfolding contains remove
contains-remove [] f = refl
contains-remove (x ∷ fs) f = ground (arith, contains-remove fs f, eq_iff x f)

removes : RemovesFinalizer servers
removes = record { contains-remove = contains-remove }

server_sets : SetsConditions servers
server_sets = record { of_type-set = sets.of_type-set }

stored : Stored servers leaving [] (reconcile servers reconciler app_key start).1.trace gone
unfolding reconcile reconcile_object reconcile_deletion release_finalizer released ◌>>=◌ call pure
    contains remove
stored = record { updated = λ t saved e q a. ground (arith, e); reported = λ t saved e q a. cc e }

released_step : Step servers reconciler app_key (seen leaving) (record {
  object = gone;
  queued = asks_again (reconcile servers reconciler app_key start).0 || passes_update leaving gone;
})
unfolding seen passes_create of_type
released_step = work (seen leaving) start gone refl refl (λ t. omega arith) stored

Reaches-Watched_example : Watched servers (record {
  object = gone;
  queued = asks_again (reconcile servers reconciler app_key start).0 || passes_update leaving gone;
})
Reaches-Watched_example =
    Reaches-Watched servers reconciler app_key leaving server_sets removes
      (and_then done released_step)

reconcile-Ends_example :
    Ends env app []
      (reconcile env reconciler app_key start).0
      (reconcile env reconciler app_key start).1.trace
reconcile-Ends_example = reconcile-Ends env reconciler app_key app start refl
