-- ===== src/Cluster.antt =====
-- The custom resources of the whole cluster, and the field indexes that both controllers register in
-- `SetupWithManager` and list by.
pub mod Conflicts
pub mod Cycle
use cf_edge_operator.Prelude.{◌≡◌, String, Bool, ◌==◌, List, [], ◌∷◌, if◌then◌else◌}
use cf_edge_operator.Api.Saas.{CustomHostname}
use cf_edge_operator.Platform.Errors.{ok}
use cf_edge_operator.Platform.Calls.{Trace}
use cf_edge_operator.Platform.Env.{Env}
use cf_edge_operator.Hostname.Config.{hostname_field, hostname_index}
use cf_edge_operator.Zone.Config.{zone_ref_field, zone_ref_index}
use cf_edge_operator.Zone.Sent.{select}
use cf_edge_operator.Config.{one_of}

abbrev pub index_of : (field : String) → CustomHostname → List String
index_of field ch =
    if field == hostname_field
    then hostname_index ch
    else if field == zone_ref_field
    then zone_ref_index ch
    else []

abbrev pub is_indexed : (field value : String) → CustomHostname → Bool
is_indexed field value ch = one_of value (index_of field ch)

-- What `client.MatchingFields` documents: a list that succeeds has the resources of the cluster, in all
-- namespaces, whose index has the value. `cluster` gives the resources at the time of the call.
pub record ListsByIndex (env : Env) (cluster : Trace → List CustomHostname) : Type 0 where
  pub lists :
      (t : Trace) (field value : String) (items : List CustomHostname)
      → env.list_custom_hostnames t field value ≡ ok items
      → items ≡ select (is_indexed field value) (cluster t)
