-- ===== src/Api/Domains.antt =====
-- api/domains/v1beta1/zone_types.go
use cf_edge_operator.Prelude.{String, List}
use cf_edge_operator.Api.Meta.{Condition, ObjectMeta}

pub record SecretRef : Type 0 where
  pub name : String
  pub key : String

pub record ZoneSpec : Type 0 where
  pub id : String
  pub credentials_ref : SecretRef

pub record ZoneStatus : Type 0 where
  pub name : String
  pub conditions : List Condition

pub record Zone : Type 0 where
  pub metadata : ObjectMeta
  pub spec : ZoneSpec
  pub status : ZoneStatus
