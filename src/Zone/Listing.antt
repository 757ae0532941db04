-- ===== src/Zone/Listing.antt =====
-- `listCloudflareHostnames`: the hostnames of a zone, by name.
use cf_edge_operator.Prelude.{String, Option, none, some, List, [], ◌∷◌, ltb, if◌then◌else◌}
use cf_edge_operator.Prelude.Assoc
use cf_edge_operator.Api.Cloudflare.{HostnameResponse, CfClient, ListParams}
use cf_edge_operator.Platform.Errors.{Err}
use cf_edge_operator.Platform.Calls.{Call}
use cf_edge_operator.Platform.Env.{Env}
use cf_edge_operator.Platform.Action.{Action, pure, call, peek, ◌>>=◌, ◌>>◌}
use cf_edge_operator.Metrics.{cf_resource_custom_hostname, cf_op_list, record_cf_call}
use cf_edge_operator.Zone.Config.{ZoneReconciler}

abbrev pub Hostnames : Type 0
Hostnames = List (String × HostnameResponse)

-- The loop over the pager: a later entry of the same name wins.
unfoldable pub collect : List HostnameResponse → Hostnames → Hostnames
collect [] result = result
collect (ch ∷ rest) result = collect rest (Assoc.put ch.hostname ch result)

unfoldable pub list_params : ZoneReconciler → String → ListParams
list_params zr zone_id = record {
  zone_id = zone_id;
  hostname = none;
  per_page = some 50;
  max_retries = some zr.cf_api_bulk_max_retries;
  request_timeout = if ltb 0 zr.cf_api_bulk_timeout then some zr.cf_api_bulk_timeout else none;
}

unfoldable pub list_cloudflare_hostnames :
    Env → ZoneReconciler → CfClient → (zone_id : String) → Action (Hostnames × Option Err)
list_cloudflare_hostnames env zr client zone_id = do
  start ← peek env.now
  pages ←
      call (Call.cf_list client (list_params zr zone_id))
        (λ t. env.cf_list t client (list_params zr zone_id))
  record_cf_call env cf_resource_custom_hostname cf_op_list start pages.error
  pure (collect pages.items [], pages.error)
