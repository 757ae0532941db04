-- ===== src/Tests/Process.antt =====
-- The process, from the flags' defaults to a reconcile of a custom resource.
use cf_edge_operator.Prelude.{[], ◌≤◌, ◌≡◌, refl, none, length}
use cf_edge_operator.Prelude.Slash.{slash_free}
use cf_edge_operator.Api.Meta.{NamespacedName}
use cf_edge_operator.Platform.Action.{World, ◌>>=◌, call, pure, peek}
use cf_edge_operator.Metrics.Series.{NoLeak}
use cf_edge_operator.Metrics.Registry.{AllFiled, NamesZones, names_zone}
use cf_edge_operator.Hostname.Reconcile.{reconcile}
use cf_edge_operator.Config.{rejected_flag, checks, first_failure, one_of}
use cf_edge_operator.Startup.{default_flags}
use cf_edge_operator.Process.{process, Step, Reaches, started}
use cf_edge_operator.Process.Invariant.{Reaches-sound}
use cf_edge_operator.Tests.Fixtures.{env}
use cf_edge_operator.Prelude.Assoc
use cf_edge_operator.Hostname.Reconcile.{
  reconcile_object, reconcile_live, reconcile_in_zone, origin_not_in_zone, has_suffix,
  reconcile_owned,
}
use cf_edge_operator.Hostname.Client.{
  build_cloudflare_client, fetch_api_token, token_of, lookup, find_by_hostname, first_match,
  zone_key,
}
use cf_edge_operator.Platform.Emits.{Extends}
use cf_edge_operator.Process.Labels.{Fits, Reaches-Fits}
use cf_edge_operator.Tests.Fixtures.{contains}
use cf_edge_operator.Hostname.Status.{
  detect_conflict, find_owner, check_peers, requeue_or_ready, set_ready, observe_provisioning,
  is_ready, provisioning_method, set_condition,
}
use cf_edge_operator.Hostname.Update.{
  reconcile_cloudflare_state, reconcile_existing, adopt, count_adoption, correct_drift, refresh,
  with_state,
}
use cf_edge_operator.Metrics.{
  cf_retry, retry_loop, retry_or_stop, record_cf_call, set_ssl_provisioning_duration,
  register_provisioning,
}
use cf_edge_operator.Ssl.{has_drift, sni_drifted, ssl_drifted, cf_state_from_list}
use cf_edge_operator.Platform.State.{read_provisioning, write_provisioning}
use cf_edge_operator.Config.{custom_hostname_reconciler}
use cf_edge_operator.Hostname.Config.{effective_management_policy}

-- The flags' defaults are accepted.
defaults_accepted : rejected_flag default_flags ≡ none
unfolding rejected_flag checks first_failure one_of
defaults_accepted = refl

abbrev app_key : NamespacedName
app_key = record { name = "app"; namespace = "team-a" }

abbrev reconciled : World
reconciled = (reconcile env (process default_flags).worker app_key started).1

one_step : Reaches (process default_flags) started reconciled
one_step = Reaches.and_then Reaches.done (Step.custom_hostname env app_key started)

zones_named : NamesZones reconciled.trace
unfolding reconcile reconcile_object reconcile_live build_cloudflare_client fetch_api_token token_of
    reconcile_in_zone origin_not_in_zone has_suffix contains reconcile_owned detect_conflict
    find_owner check_peers reconcile_cloudflare_state lookup cf_retry retry_loop retry_or_stop
    find_by_hostname first_match record_cf_call reconcile_existing adopt count_adoption
    correct_drift has_drift sni_drifted ssl_drifted refresh requeue_or_ready set_ready
    observe_provisioning is_ready provisioning_method set_ssl_provisioning_duration
    register_provisioning set_condition with_state cf_state_from_list process read_provisioning
    write_provisioning custom_hostname_reconciler zone_key effective_management_policy names_zone
    slash_free Assoc.get Assoc.put ◌>>=◌ call pure peek
zones_named = (refl, (refl, (refl, (refl, (refl, (refl, (refl, (refl, tt))))))))

Reaches-sound_example :
    (length reconciled.events ≤ 1024) × NoLeak reconciled × AllFiled reconciled.provisioning
Reaches-sound_example =
    Reaches-sound default_flags reconciled defaults_accepted one_step zones_named

Reaches-Fits_example : Extends Fits [] reconciled.trace
Reaches-Fits_example = Reaches-Fits (process default_flags) one_step
