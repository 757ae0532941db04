-- ===== src/Tests/Hostname.antt =====
-- The theorems on the controller of custom hostnames, at concrete inputs.
use cf_edge_operator.Prelude.{
  here, there, ◌+◌, ◌*◌, ◌≤◌, ◌≡◌, refl, eq_iff, true, false, none, some, [], ◌∷◌, arith, In,
}
use cf_edge_operator.Api.Meta.{NamespacedName}
use cf_edge_operator.Api.Saas.{CustomHostname}
use cf_edge_operator.Api.Cloudflare.{SslParams}
use cf_edge_operator.Platform.Calls.{Call, Trace}
use cf_edge_operator.Platform.Errors.{ok}
use cf_edge_operator.Platform.Env.{Env}
use cf_edge_operator.Platform.Action.{World, pure, call, peek, ◌>>=◌}
use cf_edge_operator.Platform.Emits.{Extends}
use cf_edge_operator.Metrics.{cf_retry, retry_loop, retry_or_stop, record_cf_call}
use cf_edge_operator.Ssl.{build_ssl_edit_params, build_ssl_params}
use cf_edge_operator.Ssl.Params.{Stores}
use cf_edge_operator.Hostname.Config.{hostname_field}
use cf_edge_operator.Hostname.Client.{lookup, find_by_hostname, first_match}
use cf_edge_operator.Hostname.Status.{
  find_owner, detect_conflict, check_peers, set_conflict, set_condition,
}
use cf_edge_operator.Hostname.Create.{new_params, handle_create}
use cf_edge_operator.Hostname.Update.{edit_params, reconcile_cloudflare_state}
use cf_edge_operator.Hostname.Delete.{released, delete_call, delete_hostname}
use cf_edge_operator.Hostname.Reconcile.{
  passes_create, passes_update, has_suffix, reconcile, reconcile_owned,
}
use cf_edge_operator.Hostname.Authorized.{Authorized, reconcile-authorized}
use cf_edge_operator.Hostname.Recorded.{last_status, create_answer}
use cf_edge_operator.Hostname.Guards.{conflict_object}
use cf_edge_operator.Hostname.Lookup.{find_by_hostname-Answers, delete_hostname-DeleteEnds}
use cf_edge_operator.Hostname.Deadlock.{Mutual, second, Reaches, stop, next, reconcile_owned-stuck}
use cf_edge_operator.Metrics.Retry.{count}
use cf_edge_operator.Hostname.Allowed.{is_cf_call}
use cf_edge_operator.Hostname.Effort.Total.{reconcile-calls}
use cf_edge_operator.Hostname.Duplicates.{NoCreate, reconcile_cloudflare_state-NoCreate}
use cf_edge_operator.Hostname.Records.{RecordsCreate, handle_create-Records}
use cf_edge_operator.Hostname.Corrected.{StoresSni, StoresEdit, StoresNew}
use cf_edge_operator.Tests.Fixtures.{
  env, reconciler, app, rival, zi, client, good, drifted, start, ready_ssl, spec_ssl,
}

has_suffix_subdomain : has_suffix "origin.example.com" ".example.com" ≡ true
unfolding has_suffix
has_suffix_subdomain = refl

has_suffix_other : has_suffix "origin.badexample.com" ".example.com" ≡ false
unfolding has_suffix
has_suffix_other = refl

-- After a restart an object that has an ID waits for the drift detection, unless it is being
-- deleted.
restart_provisioned : passes_create app ≡ false
unfolding passes_create
restart_provisioned = refl

restart_new : passes_create rival ≡ true
unfolding passes_create
restart_new = refl

restart_terminating :
    passes_create (record app { metadata = record app.metadata { deletion_timestamp = some 1 } })
    ≡ true
unfolding passes_create
restart_terminating = refl

same_generation : passes_update app app ≡ false
unfolding passes_update
same_generation = refl

abbrev app_key : NamespacedName
app_key = record { name = "app"; namespace = "team-a" }

reconcile-authorized_example :
    Extends (Authorized env reconciler app) [] (reconcile env reconciler app_key start).1.trace
reconcile-authorized_example = reconcile-authorized env reconciler app_key app start refl

delete_hostname-DeleteEnds_example :
    (t : Trace) × ((delete_hostname env reconciler client "z1" app start).1.trace
      ≡ Call.update (released env app) ∷ t)
unfolding cf_retry retry_loop retry_or_stop delete_call ◌>>=◌ call pure peek record_cf_call
delete_hostname-DeleteEnds_example = delete_hostname-DeleteEnds env reconciler client "z1" app start

find_by_hostname-Answers_example : In good (good ∷ []) × (good.hostname ≡ "app.example.net")
unfolding find_by_hostname first_match ◌>>=◌ call pure peek record_cf_call
find_by_hostname-Answers_example = find_by_hostname-Answers env client "z1" "app.example.net" start

reconcile_cloudflare_state-NoCreate_example :
    Extends NoCreate [] (reconcile_cloudflare_state env reconciler zi app start).1.trace
unfolding lookup cf_retry retry_loop retry_or_stop find_by_hostname first_match ◌>>=◌ call pure peek
    record_cf_call
reconcile_cloudflare_state-NoCreate_example =
    reconcile_cloudflare_state-NoCreate env reconciler zi app start λ e. cc e

good_stores : (p : SslParams) → p ≡ build_ssl_edit_params spec_ssl ready_ssl → Stores p ready_ssl
unfolding build_ssl_edit_params
good_stores p e = record {
  stores_ca = λ v h. ground (arith, e);
  stores_min_tls = λ v h. ground (arith, e);
  stores_method = λ v h. ground (arith, e);
  stores_type = λ v h. ground (arith, e);
}

no_sni : StoresSni none good
no_sni = record { stores_sni = λ v e. cc e }

pub good_edited : StoresEdit (edit_params reconciler zi app drifted) good
unfolding edit_params
good_edited = record {
  edit_origin = refl;
  edit_sni = no_sni;
  edit_ssl = λ q e. good_stores q (ground (arith, e));
}

created_stores : Stores (build_ssl_params spec_ssl reconciler.ssl_defaults) ready_ssl
unfolding build_ssl_params
created_stores = record {
  stores_ca = λ v h. cc h;
  stores_min_tls = λ v h. ground arith;
  stores_method = λ v h. ground arith;
  stores_type = λ v h. ground arith;
}

pub good_created : StoresNew (new_params reconciler zi rival) good
unfolding new_params
good_created = record { new_origin = refl; new_sni = no_sni; new_ssl = created_stores }

-- A second custom resource that also has an ID for the hostname, and servers that list both.
abbrev twin : CustomHostname
twin = record rival { status = record rival.status { id = "cf-2" } }

abbrev twins : Env
twins = record env {
  list_custom_hostnames = λ t field value.
      ok (app ∷ (elim t [ [] ↦ twin | _ ∷ _ ↦ conflict_object env twin app ]) ∷ []);
}

abbrev afterwards : World
afterwards = record start { trace = Call.sleep 1 ∷ [] }

twins-Mutual : Mutual app twin
twins-Mutual = (
  (λ e. ground (arith, e, eq_iff "uid-2" "uid-1"), λ e. ground (arith, e, eq_iff "cf-2" "")),
  (λ e. ground (arith, e, eq_iff "uid-1" "uid-2"), λ e. ground (arith, e, eq_iff "cf-1" "")),
)

one_step : Reaches twins reconciler zi app twin app (conflict_object twins twin app)
unfolding reconcile_owned detect_conflict check_peers set_conflict set_condition find_owner ◌>>=◌
    call pure
one_step = next stop (second start (app ∷ twin ∷ [], refl, here) refl)

reconcile_owned-stuck_example :
    (owner : CustomHostname) × ((reconcile_owned twins reconciler zi app afterwards).1.trace
      ≡ Call.update_status (conflict_object twins app owner)
        ∷ Call.list_custom_hostnames hostname_field "app.example.net"
        ∷ Call.sleep 1
        ∷ [])
reconcile_owned-stuck_example =
    reconcile_owned-stuck twins reconciler zi app twin app (conflict_object twins twin app)
      afterwards twins-Mutual one_step (app ∷ conflict_object env twin app ∷ [], refl, there here)

reconcile-calls_example :
    count is_cf_call (reconcile env reconciler app_key start).1.trace
    ≤ count is_cf_call start.trace + 2 * (reconciler.cf_api_max_retries + 1)
reconcile-calls_example = reconcile-calls env reconciler app_key start

handle_create-Records_example :
    (new : CustomHostname) × (last_status (handle_create env reconciler zi rival start).1.trace
      ≡ some new)
    × RecordsCreate env rival (create_answer env reconciler zi rival start) new
handle_create-Records_example = handle_create-Records env rival reconciler zi start refl
