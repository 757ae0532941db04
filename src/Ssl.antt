-- ===== src/Ssl.antt =====
-- internal/controller/customhostname_controller.go, the pure functions on the settings and on the
-- state that Cloudflare reports: drift, request parameters, and the status taken from a response.
pub mod DriftInfo
pub mod DriftLaws
pub mod StatusChange
pub mod Params
pub mod Quiet
use cf_edge_operator.Prelude.{
  ℕ, String, Bool, true, false, ◌&&◌, ◌||◌, ◌==◌, ◌!=◌, Option, none, some, List, [], ◌∷◌,
  if◌then◌else◌,
}
use mathlib.Core.List.{map}
use cf_edge_operator.Api.Saas.{
  CustomHostname, CustomHostnameSsl, CustomHostnameSslStatus, SslValidationRecord, ssl_method_http,
  ssl_type_dv,
}
use cf_edge_operator.Api.Cloudflare.{HostnameResponse, ResponseSsl, ValidationRecord, SslParams}

unfoldable pub sni_drifted : String → CustomHostname → Bool
sni_drifted current ch = elim ch.spec.origin_sni [ none ↦ false | some sni ↦ current != sni ]

-- `spec.X != "" && string(cfSSL.X) != spec.X`
abbrev pub differs : String → String → Bool
differs spec cf = spec != "" && cf != spec

unfoldable pub ssl_drifted : ResponseSsl → Option CustomHostnameSsl → Bool
ssl_drifted cf none = false
ssl_drifted cf (some spec) =
    if differs spec.certificate_authority cf.certificate_authority
    then true
    else if differs spec.min_tls_version cf.min_tls_version
    then true
    else if differs spec.method cf.method
    then true
    else differs spec.type cf.type

-- `x := s; if x == "" { x = d }`
abbrev pub default_to : String → String → String
default_to s d = if s == "" then d else s

-- `if x != "" { p.X = cloudflare.F(x) }`
abbrev pub present : String → Option String
present s = if s == "" then none else some s

unfoldable pub build_ssl_edit_params : CustomHostnameSsl → ResponseSsl → SslParams
build_ssl_edit_params ssl cf = record {
  certificate_authority = present (default_to ssl.certificate_authority cf.certificate_authority);
  min_tls_version = present (default_to ssl.min_tls_version cf.min_tls_version);
  method = some (default_to (default_to ssl.method cf.method) ssl_method_http);
  type = some (default_to (default_to ssl.type cf.type) ssl_type_dv);
}

pub record SslDefaults : Type 0 where
  pub certificate_authority : String
  pub min_tls_version : String
  pub method : String
  pub type : String

unfoldable pub build_ssl_params : CustomHostnameSsl → SslDefaults → SslParams
build_ssl_params ssl defaults = record {
  certificate_authority =
      present (default_to ssl.certificate_authority defaults.certificate_authority);
  min_tls_version = present (default_to ssl.min_tls_version defaults.min_tls_version);
  method = some (default_to (default_to ssl.method defaults.method) ssl_method_http);
  type = some (default_to (default_to ssl.type defaults.type) ssl_type_dv);
}

pub record CfState : Type 0 where
  pub hostname_status : String
  pub ssl : Option CustomHostnameSslStatus

abbrev pub validation_record : ValidationRecord → SslValidationRecord
validation_record vr = record {
  txt_name = vr.txt_name;
  txt_value = vr.txt_value;
  http_url = vr.http_url;
  http_body = vr.http_body;
  emails = vr.emails;
}

unfoldable pub cf_state_from_new : HostnameResponse → CfState
cf_state_from_new resp = record {
  hostname_status = resp.status;
  ssl = some (record {
    status = resp.ssl.status;
    certificate_authority = resp.ssl.certificate_authority;
    min_tls_version = resp.ssl.min_tls_version;
    method = resp.ssl.method;
    type = resp.ssl.type;
    id = resp.ssl.id;
    issuer = resp.ssl.issuer;
    serial_number = resp.ssl.serial_number;
    bundle_method = resp.ssl.bundle_method;
    wildcard = resp.ssl.wildcard;
    hosts = resp.ssl.hosts;
    uploaded_on = resp.ssl.uploaded_on;
    expires_on = resp.ssl.expires_on;
    validation_records = map validation_record resp.ssl.validation_records;
    validation_errors = resp.ssl.validation_errors;
  });
}

unfoldable pub cf_state_from_list : HostnameResponse → CfState
cf_state_from_list resp = record {
  hostname_status = resp.status;
  ssl = some (record {
    status = resp.ssl.status;
    certificate_authority = resp.ssl.certificate_authority;
    min_tls_version = resp.ssl.min_tls_version;
    method = resp.ssl.method;
    type = resp.ssl.type;
    id = resp.ssl.id;
    issuer = resp.ssl.issuer;
    serial_number = resp.ssl.serial_number;
    bundle_method = resp.ssl.bundle_method;
    wildcard = resp.ssl.wildcard;
    hosts = resp.ssl.hosts;
    uploaded_on = resp.ssl.uploaded_on;
    expires_on = resp.ssl.expires_on;
    validation_records = map validation_record resp.ssl.validation_records;
    validation_errors = resp.ssl.validation_errors;
  });
}

unfoldable pub cf_state_from_edit : HostnameResponse → CfState
cf_state_from_edit resp = record {
  hostname_status = resp.status;
  ssl = some (record {
    status = resp.ssl.status;
    certificate_authority = resp.ssl.certificate_authority;
    min_tls_version = resp.ssl.min_tls_version;
    method = resp.ssl.method;
    type = resp.ssl.type;
    id = resp.ssl.id;
    issuer = resp.ssl.issuer;
    serial_number = resp.ssl.serial_number;
    bundle_method = resp.ssl.bundle_method;
    wildcard = resp.ssl.wildcard;
    hosts = resp.ssl.hosts;
    uploaded_on = resp.ssl.uploaded_on;
    expires_on = resp.ssl.expires_on;
    validation_records = map validation_record resp.ssl.validation_records;
    validation_errors = resp.ssl.validation_errors;
  });
}

-- `originDrift || sslDrift`, the test of both controllers.
unfoldable pub has_drift : HostnameResponse → CustomHostname → Bool
unfolding sni_drifted ssl_drifted
has_drift existing ch =
    existing.custom_origin_server != ch.spec.origin_server
    || sni_drifted existing.custom_origin_sni ch
    || ssl_drifted existing.ssl ch.spec.ssl
