-- ===== src/Tests/Plan.antt =====
-- The worker against its plan, at concrete inputs.
use cf_edge_operator.Prelude.{refl, some, [], ◌∷◌, none}
use cf_edge_operator.Prelude.Assoc
use cf_edge_operator.Api.Saas.{CustomHostname}
use cf_edge_operator.Platform.Calls.{Call}
use cf_edge_operator.Platform.Env.{Env}
use cf_edge_operator.Platform.Action.{pure, call, peek, ◌>>=◌}
use cf_edge_operator.Metrics.{cf_retry, retry_loop, retry_or_stop, record_cf_call}
use cf_edge_operator.Ssl.{has_drift}
use cf_edge_operator.Hostname.Config.{effective_management_policy, effective_delete_policy}
use cf_edge_operator.Hostname.Client.{
  lookup, find_by_hostname, first_match, build_cloudflare_client, fetch_api_token, token_of,
}
use cf_edge_operator.Hostname.Update.{edit_params, reconcile_cloudflare_state}
use cf_edge_operator.Hostname.Delete.{delete_params, reconcile_deletion}
use cf_edge_operator.Hostname.Plan.{Plan, CarriesOut}
use cf_edge_operator.Hostname.Plan.Live.{reconcile_cloudflare_state-refines}
use cf_edge_operator.Hostname.Plan.Deletion.{reconcile_deletion-refines}
use cf_edge_operator.Tests.Fixtures.{
  env, reconciler, zi, client, app, drifted, good, start, contains,
}

-- The hostname has another origin than the custom resource wants.
abbrev elsewhere : Env
elsewhere = record env { cf_list = λ t c p. record { items = drifted ∷ []; error = none } }

reconcile_cloudflare_state-refines_example :
    CarriesOut
      (Plan.send (Call.cf_edit client "cf-1" (edit_params reconciler zi app drifted)))
      3
      []
      (reconcile_cloudflare_state elsewhere reconciler zi app start).1.trace
unfolding lookup cf_retry retry_loop retry_or_stop find_by_hostname first_match ◌>>=◌ call pure peek
    record_cf_call has_drift effective_management_policy
reconcile_cloudflare_state-refines_example =
    reconcile_cloudflare_state-refines elsewhere reconciler zi app (some drifted) start refl

abbrev leaving : CustomHostname
leaving = record app { metadata = record app.metadata { deletion_timestamp = some 99 } }

reconcile_deletion-refines_example :
    CarriesOut
      (Plan.send (Call.cf_delete client "cf-1" (delete_params reconciler "z1")))
      3
      []
      (reconcile_deletion env reconciler leaving start).1.trace
unfolding lookup cf_retry retry_loop retry_or_stop find_by_hostname first_match ◌>>=◌ call pure peek
    record_cf_call effective_management_policy effective_delete_policy build_cloudflare_client
    fetch_api_token token_of Assoc.get contains
reconcile_deletion-refines_example =
    reconcile_deletion-refines env reconciler zi leaving (some good) start refl λ own_only. refl
