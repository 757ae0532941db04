-- ===== src/Hostname/Client.antt =====
-- The Cloudflare client for the zone of a custom resource, and the lookup by hostname.
use cf_edge_operator.Prelude.{
  ℕ, String, ◌<>◌, ◌==◌, ◌!=◌, Option, none, some, List, [], ◌∷◌, ltb, if◌then◌else◌,
}
use cf_edge_operator.Api.Meta.{NamespacedName, Secret}
use cf_edge_operator.Api.Domains.{Zone}
use cf_edge_operator.Api.Saas.{CustomHostname}
use cf_edge_operator.Api.Cloudflare.{HostnameResponse, CfClient, ListParams}
use cf_edge_operator.Platform.Errors.{Err, Result, ok, err, wrapped, other}
use cf_edge_operator.Platform.Calls.{Call}
use cf_edge_operator.Platform.Env.{Env}
use cf_edge_operator.Platform.Action.{Action, pure, call, peek, ◌>>=◌, ◌>>◌, handle, either}
use cf_edge_operator.Metrics.{cf_resource_custom_hostname, cf_op_get, record_cf_call, cf_retry}
use cf_edge_operator.Prelude.Assoc
use cf_edge_operator.Hostname.Config.{Reconciler}

pub record ZoneInfo : Type 0 where
  pub client : CfClient
  pub id : String
  pub cr : String
  pub domain : String

-- The options of `cloudflare.NewClient`, with which both controllers build a client.
abbrev pub new_client : (token : String) → (timeout : ℕ) → (base_url : String) → CfClient
new_client token timeout base_url = record {
  api_token = token;
  max_retries = 0;
  request_timeout = if ltb 0 timeout then some timeout else none;
  base_url = if base_url != "" then some base_url else none;
}

abbrev pub credentials_key : Zone → String
credentials_key zone =
    if zone.spec.credentials_ref.key == "" then "apiToken" else zone.spec.credentials_ref.key

unfoldable pub token_of : Env → Zone → Secret → Result String
token_of env zone secret = elim (Assoc.get (credentials_key zone) secret.entries) [
  | none ↦ err (
      other (
        "key "
        <> env.quote (credentials_key zone)
        <> " not found in secret "
        <> env.quote zone.spec.credentials_ref.name))
  | some token ↦ ok token
]

-- The reading of the secret, which `buildCloudflareClient` and `fetchAPIToken` share in substance.
unfoldable pub fetch_api_token : Env → Zone → Action (Result String)
fetch_api_token env zone =
    let key : NamespacedName = record {
      name = zone.spec.credentials_ref.name;
      namespace = zone.metadata.namespace;
    } in
    do
      secret ← call (Call.get_secret key) (λ t. env.get_secret t key)
      handle secret
          (λ e. pure (
            err
              (wrapped ("secret " <> env.quote zone.spec.credentials_ref.name <> " not found") e)))
          (λ s. pure (token_of env zone s))

unfoldable pub zone_key : Reconciler → CustomHostname → NamespacedName
zone_key r ch = record {
  name = ch.spec.zone_ref.name;
  namespace =
      if ch.spec.zone_ref.namespace == "" then r.operator_namespace else ch.spec.zone_ref.namespace;
}

unfoldable pub build_cloudflare_client :
    Env → Reconciler → CustomHostname → Action (Result ZoneInfo)
build_cloudflare_client env r ch = do
  found ← call (Call.get_zone (zone_key r ch)) (λ t. env.get_zone t (zone_key r ch))
  handle found
      (λ e. pure (err (wrapped ("zone " <> env.quote ch.spec.zone_ref.name <> " not found") e)))
      (λ zone. do
        token ← fetch_api_token env zone
        handle token (λ e. pure (err e))
            (λ t. pure (
              ok (record {
                client = new_client t r.cf_api_timeout r.cf_base_url;
                id = zone.spec.id;
                cr = zone.metadata.name;
                domain = zone.status.name;
              }))))

-- The loop over the pager, which stops at the first match.
unfoldable pub first_match : String → List HostnameResponse → Option HostnameResponse
first_match hostname [] = none
first_match hostname (ch ∷ rest) =
    let later = first_match hostname rest in if ch.hostname == hostname then some ch else later

abbrev pub no_match : Option Err → Result (Option HostnameResponse)
no_match none = ok none
no_match (some e) = err e

unfoldable pub find_by_hostname :
    Env → CfClient → (zone_id hostname : String) → Action (Result (Option HostnameResponse))
find_by_hostname env client zone_id hostname =
    let params : ListParams = record {
      zone_id = zone_id;
      hostname = some hostname;
      per_page = none;
      max_retries = none;
      request_timeout = none;
    } in
    do
      start ← peek env.now
      pages ← call (Call.cf_list client params) (λ t. env.cf_list t client params)
      either (first_match hostname pages.items)
          (do
            record_cf_call env cf_resource_custom_hostname cf_op_get start pages.error
            pure (no_match pages.error))
          (λ ch. do
            record_cf_call env cf_resource_custom_hostname cf_op_get start none
            pure (ok (some ch)))

unfoldable pub lookup :
    Env
    → Reconciler
    → CfClient
    → (zone_id hostname : String) → Action (ℕ × Result (Option HostnameResponse))
lookup env r client zone_id hostname =
    cf_retry env cf_resource_custom_hostname cf_op_get r.cf_api_max_retries
      (find_by_hostname env client zone_id hostname)
