-- ===== src/Tests/Metrics.antt =====
-- The theorems on the retry loop and on the provisioning gauge, at concrete inputs.
use cf_edge_operator.Prelude.{
  ◌+◌, ◌≡◌, ◌≤◌, refl, sym, ap, String, Bool, true, false, Option, none, some, [], ◌∷◌, arith,
}
use cf_edge_operator.Prelude.Assoc
use cf_edge_operator.Platform.Errors.{Result, err, cloudflare_error, has_status_code, status_code}
use cf_edge_operator.Platform.Calls.{Call, api_retries_total}
use cf_edge_operator.Platform.Env.{Env}
use cf_edge_operator.Platform.Action.{World, Action, ProvisioningEntry, pure, call, peek, ◌>>=◌}
use cf_edge_operator.Api.Cloudflare.{HostnameResponse}
use cf_edge_operator.Metrics.{cf_retry, retry_loop, retry_or_stop, record_cf_call}
use cf_edge_operator.Metrics.Retry.{count, Adds, GivesUp, cf_retry-count, cf_retry-early}
use cf_edge_operator.Metrics.Series.{Series, is_live, NoLeak}
use cf_edge_operator.Metrics.Leaks.{Unambiguous}
use cf_edge_operator.Metrics.{set_duration_while, clean_expired_ssl_provisioning}
use cf_edge_operator.Metrics.Race.{interrupted_set-is_live}
use cf_edge_operator.Hostname.Create.{create_call, new_params}
use cf_edge_operator.Hostname.Duplicates.{is_create}
use cf_edge_operator.Tests.Fixtures.{env, reconciler, rival, zi, client, start}

abbrev is_retry : Call → Bool
is_retry (Call.inc api_retries_total labels) = true
is_retry _ = false

-- Cloudflare is down at first, and limits the rate afterwards.
abbrev failing : Env
failing = record env {
  cf_new = λ t c p. err (cloudflare_error (elim t [ [] ↦ 500 | _ ∷ _ ↦ 429 ]));
}

abbrev creating : Action (Result HostnameResponse)
creating = create_call failing client (new_params reconciler zi rival)

creating-Adds_one : Adds failing "customhostname" "create" creating is_create 1
unfolding create_call count record_cf_call ◌>>=◌ call pure peek
creating-Adds_one w = omega arith

creating-Adds_none : Adds failing "customhostname" "create" creating is_retry 0
unfolding create_call count record_cf_call ◌>>=◌ call pure peek
creating-Adds_none w = omega arith

cf_retry-count_example :
    let out = cf_retry failing "customhostname" "create" 2 creating start in
    (1 ≤ out.0.0)
    × (out.0.0 ≤ 3)
    × (count is_create out.1.trace ≡ 0 + out.0.0)
    × (count is_retry out.1.trace + 1 ≡ 0 + out.0.0)
unfolding count
cf_retry-count_example =
    cf_retry-count failing "customhostname" "create" creating is_create is_retry 2 start
      creating-Adds_one creating-Adds_none refl refl

cf_retry-early_example :
    let out = cf_retry failing "customhostname" "create" 2 creating start in
    GivesUp failing "customhostname" "create" creating out.0.1 out.1
unfolding cf_retry retry_loop retry_or_stop create_call record_cf_call has_status_code status_code
    ◌>>=◌ call pure peek
cf_retry-early_example =
    cf_retry-early failing "customhostname" "create" creating 2 start (omega arith)

-- The series of a hostname whose provisioning ended at the time 0.
abbrev series : Series
series = record { zone_cr = "zone-a"; hostname = "app.example.net"; method = "http" }

abbrev entry : ProvisioningEntry
entry = record {
  zone_cr = "zone-a";
  hostname = "app.example.net";
  method = "http";
  expires_at = 10;
}

abbrev registered : World
registered = record start { provisioning = ("zone-a/app.example.net", entry) ∷ [] }

start-NoLeak : NoLeak registered
unfolding is_live
start-NoLeak s h = cc h

abbrev zone_of : Option ProvisioningEntry → String
zone_of none = ""
zone_of (some e) = e.zone_cr

abbrev hostname_of : Option ProvisioningEntry → String
hostname_of none = ""
hostname_of (some e) = e.hostname

registered-Unambiguous : Unambiguous env "zone-a" "app.example.net" "txt" registered
unfolding Assoc.get
registered-Unambiguous e found = (sym (ap zone_of found), sym (ap hostname_of found))

interrupted_set-is_live_example :
    is_live series
      (set_duration_while env
        (clean_expired_ssl_provisioning env)
        "zone-a"
        "app.example.net"
        "http"
        60
        registered).1.trace
    ≡ false
unfolding Assoc.get
interrupted_set-is_live_example =
    interrupted_set-is_live env series 60 registered entry refl (refl, refl, refl) refl
