-- ===== src/Api/Cloudflare.antt =====
-- The fields of the Cloudflare SDK's requests and responses that the program fills or reads. The
-- SDK has a separate generated type for the response to each operation, with the same fields. A
-- time of zero is `none`, Go's zero time.
use cf_edge_operator.Prelude.{ℕ, String, Bool, Option, List}

pub record ValidationRecord : Type 0 where
  pub txt_name : String
  pub txt_value : String
  pub http_url : String
  pub http_body : String
  pub emails : List String

pub record ResponseSsl : Type 0 where
  pub status : String
  pub certificate_authority : String
  pub min_tls_version : String
  pub method : String
  pub type : String
  pub id : String
  pub issuer : String
  pub serial_number : String
  pub bundle_method : String
  pub wildcard : Bool
  pub hosts : List String
  pub uploaded_on : Option ℕ
  pub expires_on : Option ℕ
  pub validation_records : List ValidationRecord
  pub validation_errors : List String

pub record HostnameResponse : Type 0 where
  pub id : String
  pub hostname : String
  pub status : String
  pub custom_origin_server : String
  pub custom_origin_sni : String
  pub ssl : ResponseSsl

-- The options of `cloudflare.NewClient`.
pub record CfClient : Type 0 where
  pub api_token : String
  pub max_retries : ℕ
  pub request_timeout : Option ℕ
  pub base_url : Option String

-- A parameter that is not sent is `none`.
pub record SslParams : Type 0 where
  pub certificate_authority : Option String
  pub min_tls_version : Option String
  pub method : Option String
  pub type : Option String

pub record ListParams : Type 0 where
  pub zone_id : String
  pub hostname : Option String
  pub per_page : Option ℕ
  pub max_retries : Option ℕ
  pub request_timeout : Option ℕ

pub record NewParams : Type 0 where
  pub zone_id : String
  pub hostname : String
  pub ssl : SslParams
  pub custom_origin_server : String
  pub custom_origin_sni : Option String
  pub request_timeout : ℕ

pub record EditParams : Type 0 where
  pub zone_id : String
  pub ssl : Option SslParams
  pub custom_origin_server : String
  pub custom_origin_sni : Option String
  pub request_timeout : ℕ

pub record DeleteParams : Type 0 where
  pub zone_id : String
  pub request_timeout : ℕ
