-- ===== src/Zone/State.antt =====
-- The state of a custom resource, for the gauge and for the conflict test.
use cf_edge_operator.Prelude.{
  ℕ, ◌+◌, String, ◌==◌, ◌!=◌, Bool, true, false, ◌&&◌, ◌||◌, List, [], ◌∷◌, int32_positive,
  if◌then◌else◌,
}
use cf_edge_operator.Api.Meta.{Condition}
use cf_edge_operator.Api.Domains.{Zone}
use cf_edge_operator.Api.Saas.{CustomHostname}
use cf_edge_operator.Hostname.Config.{condition_ready, reason_hostname_conflict}
use cf_edge_operator.Hostname.Status.{is_ready}

unfoldable pub is_hostname_conflict_in : List Condition → Bool
is_hostname_conflict_in [] = false
is_hostname_conflict_in (c ∷ cs) =
    let rest = is_hostname_conflict_in cs in
    if c.type == condition_ready && c.reason == reason_hostname_conflict then true else rest

abbrev pub is_hostname_conflict : CustomHostname → Bool
is_hostname_conflict ch = is_hostname_conflict_in ch.status.conditions

unfoldable pub cr_state : CustomHostname → String
cr_state ch =
    if is_hostname_conflict ch
    then "conflict"
    else if is_ready ch.status.conditions
    then "ready"
    else if int32_positive ch.status.consecutive_errors
    then "unhealthy"
    else "pending"

unfoldable pub refers_to_zone : CustomHostname → Zone → Bool
refers_to_zone ch zone =
    if ch.spec.zone_ref.name != zone.metadata.name
    then false
    else ch.spec.zone_ref.namespace == "" || ch.spec.zone_ref.namespace == zone.metadata.namespace

-- `m[key]++`
unfoldable pub bump : String → List (String × ℕ) → List (String × ℕ)
bump key [] = (key, 1) ∷ []
bump key ((j, n) ∷ m) = if j == key then (j, n + 1) ∷ m else (j, n) ∷ bump key m
