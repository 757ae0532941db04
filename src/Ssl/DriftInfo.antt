-- ===== src/Ssl/DriftInfo.antt =====
-- `buildDriftInfo`: the structured drift object of the logs.
use cf_edge_operator.Prelude.{
  String, ◌==◌, ◌!=◌, Option, none, some, List, [], ◌∷◌, ◌++◌, if◌then◌else◌,
}
use cf_edge_operator.Api.Saas.{CustomHostname, CustomHostnameSsl}
use cf_edge_operator.Api.Cloudflare.{HostnameResponse}

pub record DriftPair : Type 0 where
  pub cf : String
  pub spec : String

-- The three maps, each in the order in which it is filled.
pub record DriftInfo : Type 0 where
  pub drifted : List (String × DriftPair)
  pub matched : List (String × String)
  pub unmanaged : List (String × String)

-- A field is compared if the spec manages it, and noted as it is if not.
unfoldable pub note_field : String → String → Option String → DriftInfo → DriftInfo
note_field key cf none info = record info { unmanaged = info.unmanaged ++ (key, cf) ∷ [] }
note_field key cf (some spec) info =
    if cf != spec
    then record info { drifted = info.drifted ++ (key, record { cf = cf; spec = spec }) ∷ [] }
    else record info { matched = info.matched ++ (key, spec) ∷ [] }

-- `spec != nil && spec.X != ""`
unfoldable pub managed : (CustomHostnameSsl → String) → Option CustomHostnameSsl → Option String
managed field none = none
managed field (some ssl) = if field ssl == "" then none else some (field ssl)

unfoldable pub build_drift_info : HostnameResponse → CustomHostname → DriftInfo
build_drift_info existing ch =
    let empty : DriftInfo = record { drifted = []; matched = []; unmanaged = [] } in
    let origin =
      note_field "origin" existing.custom_origin_server (some ch.spec.origin_server) empty in
    let sni = note_field "sni" existing.custom_origin_sni ch.spec.origin_sni origin in
    let ssl = existing.ssl in
    let ca =
      note_field "ca" ssl.certificate_authority (managed (λ s. s.certificate_authority) ch.spec.ssl)
        sni in
    let min_tls =
      note_field "minTLS" ssl.min_tls_version (managed (λ s. s.min_tls_version) ch.spec.ssl) ca in
    let method = note_field "method" ssl.method (managed (λ s. s.method) ch.spec.ssl) min_tls in
    note_field "type" ssl.type (managed (λ s. s.type) ch.spec.ssl) method
