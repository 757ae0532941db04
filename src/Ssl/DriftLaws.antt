-- ===== src/Ssl/DriftLaws.antt =====
-- The drift object of the logs against the test that decides on drift.
use cf_edge_operator.Prelude.{
  ℕ, ◌+◌, ◌<◌, ◌≡◌, ◌↔◌, String, true, ◌!=◌, Option, none, some, [], ◌∷◌, arith, length,
  length-append, if◌then◌else◌,
}
use cf_edge_operator.Api.Saas.{CustomHostname, CustomHostnameSsl}
use cf_edge_operator.Api.Cloudflare.{HostnameResponse, ResponseSsl}
use cf_edge_operator.Ssl.{ssl_drifted, has_drift}
use cf_edge_operator.Ssl.DriftInfo.{DriftInfo, note_field, managed, build_drift_info}

abbrev drift_bit : String → Option String → ℕ
drift_bit cf none = 0
drift_bit cf (some spec) = if cf != spec then 1 else 0

note_field-drifted :
    (key cf : String) (spec : Option String) (info : DriftInfo)
    → length (note_field key cf spec info).drifted ≡ length info.drifted + drift_bit cf spec
unfolding note_field
note_field-drifted key cf none info = omega arith
note_field-drifted key cf (some spec) info =
    ground (arith, length-append info.drifted ((key, record { cf = cf; spec = spec }) ∷ []))

abbrev entries : DriftInfo → ℕ
entries info = length info.drifted + length info.matched + length info.unmanaged

note_field-entries :
    (key cf : String) (spec : Option String) (info : DriftInfo)
    → entries (note_field key cf spec info) ≡ entries info + 1
unfolding note_field
note_field-entries key cf none info = ground (arith, length-append info.unmanaged ((key, cf) ∷ []))
note_field-entries key cf (some spec) info = ground (
  arith,
  length-append info.drifted ((key, record { cf = cf; spec = spec }) ∷ []),
  length-append info.matched ((key, spec) ∷ []),
)

-- The origin, the SNI and the four SSL fields each stand in one of the three categories.
pub build_drift_info-entries :
    (existing : HostnameResponse) (ch : CustomHostname) → entries (build_drift_info existing ch) ≡ 6
unfolding build_drift_info
build_drift_info-entries existing ch = omega (arith, note_field-entries)

ssl_bits : ResponseSsl → Option CustomHostnameSsl → ℕ
ssl_bits cf spec =
    drift_bit cf.certificate_authority (managed (λ s. s.certificate_authority) spec)
    + drift_bit cf.min_tls_version (managed (λ s. s.min_tls_version) spec)
    + drift_bit cf.method (managed (λ s. s.method) spec)
    + drift_bit cf.type (managed (λ s. s.type) spec)

ssl_bits-pos :
    (cf : ResponseSsl) (spec : Option CustomHostnameSsl)
    → (0 < ssl_bits cf spec) ↔ (ssl_drifted cf spec ≡ true)
unfolding ssl_bits managed ssl_drifted
ssl_bits-pos cf none = (λ h. absurd (omega arith), λ h. ground arith)
ssl_bits-pos cf (some spec) = (λ h. ground arith, λ h. ground arith)

drifted_count :
    (existing : HostnameResponse) (ch : CustomHostname)
    → length (build_drift_info existing ch).drifted
      ≡ drift_bit existing.custom_origin_server (some ch.spec.origin_server)
        + drift_bit existing.custom_origin_sni ch.spec.origin_sni
        + ssl_bits existing.ssl ch.spec.ssl
unfolding build_drift_info ssl_bits
drifted_count existing ch = omega (arith, note_field-drifted)

-- The log names a drifted field exactly when the controllers see drift.
build_drift_info-drifted :
    (existing : HostnameResponse) (ch : CustomHostname)
    → (0 < length (build_drift_info existing ch).drifted) ↔ (has_drift existing ch ≡ true)
unfolding has_drift
build_drift_info-drifted existing ch = (
  λ h. ground (arith, drifted_count existing ch, ssl_bits-pos existing.ssl ch.spec.ssl),
  λ h. ground (arith, drifted_count existing ch, ssl_bits-pos existing.ssl ch.spec.ssl),
)
