-- ===== src/Hostname/Endings/Quiet.antt =====
-- The parts of a reconcile that save nothing in the API server.
use cf_edge_operator.Prelude.{◌≡◌, refl, String, true, false}
use cf_edge_operator.Api.Cloudflare.{CfClient, NewParams, EditParams}
use cf_edge_operator.Platform.Calls.{Call}
use cf_edge_operator.Platform.Env.{Env}
use cf_edge_operator.Platform.Moves.{Progress, Allows, moves_rules}
use cf_edge_operator.Platform.Emits.{Emits, ByCalls, ByCalls-Progress, ByCalls-Allows}
use cf_edge_operator.Metrics.Allowed.{AllowsMetrics, record_cf_call-Moves}
use cf_edge_operator.Metrics.Emits.{metrics_emits}
use cf_edge_operator.Hostname.Config.{Reconciler}
use cf_edge_operator.Hostname.Create.{create_call}
use cf_edge_operator.Hostname.Update.{edit_call}
use cf_edge_operator.Hostname.Delete.{delete_call}
use cf_edge_operator.Hostname.Allowed.{is_plain, AllowsReads}
use cf_edge_operator.Hostname.Endings.{NoSave}

module _ (env : Env) where
  plain_quiet : (c : Call) → is_plain true false c ≡ true → Allows (ByCalls NoSave) c
  plain_quiet (Call.update _) h = cc h
  plain_quiet (Call.update_status _) h = cc h
  plain_quiet (Call.update_zone_status _) h = cc h
  plain_quiet _ h = ByCalls-Allows refl

  pub saves_nothing : AllowsReads true false (ByCalls NoSave) env
  saves_nothing = record {
    progress = ByCalls-Progress NoSave;
    plain = plain_quiet;
    metrics =
        metrics_emits
          (record {
            emits_inc = λ c labels _. refl;
            emits_set = λ g labels v _. refl;
            emits_observe = λ labels d _. refl;
            emits_delete = λ g labels _. refl;
          })
          env;
  }

  chained : Progress (ByCalls NoSave)
  chained = saves_nothing.progress

  metrics : AllowsMetrics (ByCalls NoSave) env
  metrics = saves_nothing.metrics

  pub create_call-NoSave :
      (client : CfClient) (params : NewParams) → Emits NoSave (create_call env client params)
  unfolding create_call
  create_call-NoSave client params =
      search (moves_rules, chained, metrics, record_cf_call-Moves, ByCalls-Allows) depth 8

  pub edit_call-NoSave :
      (client : CfClient) (id : String) (params : EditParams)
      → Emits NoSave (edit_call env client id params)
  unfolding edit_call
  edit_call-NoSave client id params =
      search (moves_rules, chained, metrics, record_cf_call-Moves, ByCalls-Allows) depth 8

  pub delete_call-NoSave :
      (r : Reconciler) (client : CfClient) (zone_id id : String)
      → Emits NoSave (delete_call env r client zone_id id)
  unfolding delete_call
  delete_call-NoSave r client zone_id id =
      search (moves_rules, chained, metrics, record_cf_call-Moves, ByCalls-Allows) depth 8
