-- ===== src/Hostname/Endings/Deletion.antt =====
-- How a reconcile of an object that is being deleted ends.
use cf_edge_operator.Prelude.{◌≡◌, ◌≢◌, refl, String, true, false, Option, none, some, ◌∷◌}
use cf_edge_operator.Api.Saas.{CustomHostname}
use cf_edge_operator.Api.Cloudflare.{CfClient}
use cf_edge_operator.Platform.Errors.{Err}
use cf_edge_operator.Platform.Calls.{Call, Trace}
use cf_edge_operator.Platform.Env.{Env}
use cf_edge_operator.Platform.Action.{call, pure, ◌>>=◌}
use cf_edge_operator.Platform.Moves.{Progress, moves_rules}
use cf_edge_operator.Platform.Emits.{ByCalls, same}
use cf_edge_operator.Metrics.Allowed.{AllowsMetrics, inc_allowed, cf_retry-Moves}
use cf_edge_operator.Hostname.Config.{Reconciler, finish}
use cf_edge_operator.Hostname.Delete.{
  released, release_finalizer, delete_hostname, delete_own, handle_delete, delete_in_cloudflare,
  reconcile_deletion,
}
use cf_edge_operator.Hostname.Allowed.{AllowsReads, pace_write-Moves, build_cloudflare_client-Moves}
use cf_edge_operator.Hostname.Allowed.Search.{lookup-Moves}
use cf_edge_operator.Hostname.Endings.{
  NoSave, Ends, refused, let_go, EndsIn, EndsIn-fail, EndsIn-after, EndsIn-if, EndsIn-handle,
}
use cf_edge_operator.Hostname.Endings.Quiet.{saves_nothing, delete_call-NoSave}

module _ (env : Env) (ch : CustomHostname) (gone : ch.metadata.deletion_timestamp ≢ none) where
  quiet : AllowsReads true false (ByCalls NoSave) env
  quiet = saves_nothing env

  chained : Progress (ByCalls NoSave)
  chained = quiet.progress

  metrics : AllowsMetrics (ByCalls NoSave) env
  metrics = quiet.metrics

  release_answered :
      {t : Trace} (answer : Option Err)
      → env.update t (released env ch) ≡ answer
      → Ends env ch t (finish answer) (Call.update (released env ch) ∷ t)
  release_answered none e = let_go same gone e
  release_answered (some x) e = refused (Call.update (released env ch)) x same refl (rw e refl)

  release_finalizer-EndsIn : EndsIn env ch (release_finalizer env ch)
  unfolding release_finalizer ◌>>=◌ call pure
  release_finalizer-EndsIn = record { at = λ w. release_answered _ refl }

  ruleset rules = (
    moves_rules, chained, metrics, inc_allowed, quiet, EndsIn-if, EndsIn-after, EndsIn-handle,
    EndsIn-fail, pace_write-Moves, release_finalizer-EndsIn,
  )

  delete_hostname-EndsIn :
      (r : Reconciler) (client : CfClient) (zone_id : String)
      → EndsIn env ch (delete_hostname env r client zone_id ch)
  unfolding delete_hostname
  delete_hostname-EndsIn r client zone_id =
      search (rules, cf_retry-Moves, delete_call-NoSave) depth 12

  delete_own-EndsIn :
      (r : Reconciler) (client : CfClient) (zone_id : String)
      → EndsIn env ch (delete_own env r client zone_id ch)
  unfolding delete_own
  delete_own-EndsIn r client zone_id = search (rules, lookup-Moves, delete_hostname-EndsIn) depth 8

  handle_delete-EndsIn :
      (r : Reconciler) (client : CfClient) (zone_id : String)
      → EndsIn env ch (handle_delete env r client zone_id ch)
  unfolding handle_delete
  handle_delete-EndsIn r client zone_id =
      search (rules, delete_own-EndsIn, delete_hostname-EndsIn) depth 8

  delete_in_cloudflare-EndsIn : (r : Reconciler) → EndsIn env ch (delete_in_cloudflare env r ch)
  unfolding delete_in_cloudflare
  delete_in_cloudflare-EndsIn r =
      search (rules, build_cloudflare_client-Moves, handle_delete-EndsIn) depth 8

  pub reconcile_deletion-EndsIn : (r : Reconciler) → EndsIn env ch (reconcile_deletion env r ch)
  unfolding reconcile_deletion
  reconcile_deletion-EndsIn r = search (rules, delete_in_cloudflare-EndsIn) depth 8
