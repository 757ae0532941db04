-- ===== src/Tests/Ssl.antt =====
-- The theorems on the SSL parameters and on the comparison of SSL states, at concrete inputs.
use cf_edge_operator.Prelude.{◌≡◌, ◌↔◌, true, false, none, some, [], arith}
use cf_edge_operator.Api.Saas.{CustomHostnameSslStatus}
use cf_edge_operator.Ssl.{
  cf_state_from_new, cf_state_from_list, cf_state_from_edit, build_ssl_edit_params,
}
use cf_edge_operator.Ssl.Params.{Stores, build_ssl_edit_params-Keeps}
use cf_edge_operator.Ssl.StatusChange.{ssl_status_changed_fields}
use cf_edge_operator.Ssl.Quiet.{Agrees, ssl_status_changed_fields-eq-none, changed_fields-refreshed}
use mathlib.Core.Option
use cf_edge_operator.Api.Cloudflare.{HostnameResponse}
use cf_edge_operator.Platform.Stored.{stored_ssl}
use cf_edge_operator.Zone.Drift.{is_changed}
use cf_edge_operator.Tests.Fixtures.{env, keeps, good, ready_ssl, spec_ssl}

abbrev recorded : CustomHostnameSslStatus
recorded = record {
  status = "active";
  certificate_authority = "google";
  min_tls_version = "1.2";
  method = "http";
  type = "dv";
  id = "ssl-1";
  issuer = "GTS";
  serial_number = "77";
  bundle_method = "";
  wildcard = false;
  hosts = [];
  uploaded_on = some 5_000_000_000;
  expires_on = some 900_000_000_000;
  validation_records = [];
  validation_errors = [];
}

stored : Stores (build_ssl_edit_params spec_ssl ready_ssl) ready_ssl
unfolding build_ssl_edit_params
stored = record {
  stores_ca = λ v h. ground arith;
  stores_min_tls = λ v h. ground arith;
  stores_method = λ v h. ground arith;
  stores_type = λ v h. ground arith;
}

build_ssl_edit_params-Keeps_example :
    (ready_ssl.certificate_authority ≡ "google")
    × (ready_ssl.min_tls_version ≡ "1.2")
    × (ready_ssl.method ≡ "http")
    × (ready_ssl.type ≡ "dv")
build_ssl_edit_params-Keeps_example =
    build_ssl_edit_params-Keeps spec_ssl ready_ssl ready_ssl stored

ssl_status_changed_fields-eq-none_example :
    (ssl_status_changed_fields env (some recorded) ready_ssl ≡ none) ↔ Agrees recorded ready_ssl
ssl_status_changed_fields-eq-none_example = ssl_status_changed_fields-eq-none env recorded ready_ssl

-- A certificate that was uploaded at a fraction of a second.
abbrev fraction : HostnameResponse
fraction = record good { ssl = record ready_ssl { uploaded_on = some 5_300_000_000 } }

changed_fields-refreshed_example :
    (is_changed (
        ssl_status_changed_fields env
          (Option.map (stored_ssl env) (cf_state_from_list fraction).ssl)
          fraction.ssl)
      ≡ true)
    × (is_changed (
          ssl_status_changed_fields env
            (Option.map (stored_ssl env) (cf_state_from_new fraction).ssl)
            fraction.ssl)
        ≡ true)
    × (is_changed (
          ssl_status_changed_fields env
            (Option.map (stored_ssl env) (cf_state_from_edit fraction).ssl)
            fraction.ssl)
        ≡ true)
changed_fields-refreshed_example = changed_fields-refreshed env keeps fraction
