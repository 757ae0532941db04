-- ===== src/Api/Saas.antt =====
-- api/saas/v1beta1/customhostname_types.go. An `int32` counter is its bit pattern below 2^32.
use cf_edge_operator.Prelude.{ℕ, String, Bool, Option, List}
use cf_edge_operator.Api.Meta.{Condition, ObjectMeta}

pub record ZoneRef : Type 0 where
  pub name : String
  pub namespace : String

pub record CustomHostnameSsl : Type 0 where
  pub certificate_authority : String
  pub min_tls_version : String
  pub method : String
  pub type : String

pub record CustomHostnameSpec : Type 0 where
  pub hostname : String
  pub origin_server : String
  pub origin_sni : Option String
  pub zone_ref : ZoneRef
  pub ssl : Option CustomHostnameSsl
  pub management_policy : String
  pub delete_policy : String

pub record SslValidationRecord : Type 0 where
  pub txt_name : String
  pub txt_value : String
  pub http_url : String
  pub http_body : String
  pub emails : List String

-- The times are in nanoseconds, as Cloudflare answers them. Platform/Stored has what is left of them
-- when the object is read again.
pub record CustomHostnameSslStatus : Type 0 where
  pub status : String
  pub certificate_authority : String
  pub min_tls_version : String
  pub method : String
  pub type : String
  pub id : String
  pub issuer : String
  pub serial_number : String
  pub bundle_method : String
  pub wildcard : Bool
  pub hosts : List String
  pub uploaded_on : Option ℕ
  pub expires_on : Option ℕ
  pub validation_records : List SslValidationRecord
  pub validation_errors : List String

pub record CustomHostnameStatus : Type 0 where
  pub id : String
  pub hostname_status : String
  pub ssl : Option CustomHostnameSslStatus
  pub create_count : ℕ
  pub consecutive_errors : ℕ
  pub ssl_provisioning_started_at : Option ℕ
  pub conditions : List Condition

pub record CustomHostname : Type 0 where
  pub metadata : ObjectMeta
  pub spec : CustomHostnameSpec
  pub status : CustomHostnameStatus

abbrev pub ssl_ca_lets_encrypt : String
ssl_ca_lets_encrypt = "lets_encrypt"

abbrev pub ssl_ca_google : String
ssl_ca_google = "google"

abbrev pub ssl_ca_ssl_com : String
ssl_ca_ssl_com = "ssl_com"

abbrev pub ssl_min_tls10 : String
ssl_min_tls10 = "1.0"

abbrev pub ssl_min_tls11 : String
ssl_min_tls11 = "1.1"

abbrev pub ssl_min_tls12 : String
ssl_min_tls12 = "1.2"

abbrev pub ssl_min_tls13 : String
ssl_min_tls13 = "1.3"

abbrev pub ssl_method_http : String
ssl_method_http = "http"

abbrev pub ssl_method_txt : String
ssl_method_txt = "txt"

abbrev pub ssl_method_email : String
ssl_method_email = "email"

abbrev pub ssl_type_dv : String
ssl_type_dv = "dv"
