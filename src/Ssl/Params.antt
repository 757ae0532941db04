-- ===== src/Ssl/Params.antt =====
-- What the parameters of a create and of an edit achieve, if Cloudflare stores what it is sent.
use cf_edge_operator.Prelude.{
  ◌≡◌, String, true, false, ◌&&◌, ◌==◌, ◌!=◌, eq_iff, some, arith, if◌then◌else◌,
}
use cf_edge_operator.Api.Saas.{CustomHostnameSsl, ssl_method_http, ssl_type_dv}
use cf_edge_operator.Api.Cloudflare.{ResponseSsl, SslParams}
use cf_edge_operator.Ssl.{
  SslDefaults, ssl_drifted, build_ssl_edit_params, build_ssl_params, default_to, present,
}

-- Each setting that the request holds is the setting of the hostname afterwards.
pub record Stores (p : SslParams) (cf : ResponseSsl) : Type 0 where
  pub stores_ca : (v : String) → p.certificate_authority ≡ some v → cf.certificate_authority ≡ v
  pub stores_min_tls : (v : String) → p.min_tls_version ≡ some v → cf.min_tls_version ≡ v
  pub stores_method : (v : String) → p.method ≡ some v → cf.method ≡ v
  pub stores_type : (v : String) → p.type ≡ some v → cf.type ≡ v

-- A field that the spec sets does not differ once it is stored.
differs-stored :
    (spec fallback cf : String)
    → ((v : String) → present (default_to spec fallback) ≡ some v → cf ≡ v)
    → (spec == "") ≡ false
    → (cf == spec) ≡ true
differs-stored spec fallback cf h managed = (eq_iff cf spec).1 (h spec (rw (managed, managed)))

-- The same for a field that is always sent.
differs-sent :
    (spec fallback last cf : String)
    → ((v : String) → some (default_to (default_to spec fallback) last) ≡ some v → cf ≡ v)
    → (spec == "") ≡ false
    → (cf == spec) ≡ true
differs-sent spec fallback last cf h managed = (eq_iff cf spec).1 (h spec (rw (managed, managed)))

-- After an edit has been stored, the SSL settings have no drift from the spec.
pub edit_leaves_no_drift :
    (spec : CustomHostnameSsl) (before after : ResponseSsl)
    → Stores (build_ssl_edit_params spec before) after
    → ssl_drifted after (some spec) ≡ false
unfolding ssl_drifted build_ssl_edit_params
edit_leaves_no_drift spec before after h = ground (
  arith,
  differs-stored spec.certificate_authority before.certificate_authority after.certificate_authority
      h.stores_ca,
  differs-stored spec.min_tls_version before.min_tls_version after.min_tls_version h.stores_min_tls,
  differs-sent spec.method before.method ssl_method_http after.method h.stores_method,
  differs-sent spec.type before.type ssl_type_dv after.type h.stores_type,
)

-- A hostname created with the operator's parameters has no drift from the spec.
pub create_leaves_no_drift :
    (spec : CustomHostnameSsl) (defaults : SslDefaults) (after : ResponseSsl)
    → Stores (build_ssl_params spec defaults) after
    → ssl_drifted after (some spec) ≡ false
unfolding ssl_drifted build_ssl_params
create_leaves_no_drift spec d after h = ground (
  arith,
  differs-stored spec.certificate_authority d.certificate_authority after.certificate_authority
      h.stores_ca,
  differs-stored spec.min_tls_version d.min_tls_version after.min_tls_version h.stores_min_tls,
  differs-sent spec.method d.method ssl_method_http after.method h.stores_method,
  differs-sent spec.type d.type ssl_type_dv after.type h.stores_type,
)

-- What a field that the spec leaves open must be afterwards, where Cloudflare had a value before.
abbrev Keeps : String → String → String → Type 0
Keeps spec before after = after ≡ (if spec == "" && before != "" then before else after)

kept_if_stored :
    (spec before after : String)
    → ((v : String) → present (default_to spec before) ≡ some v → after ≡ v)
    → Keeps spec before after
kept_if_stored spec before after h = ground (arith, h before, eq_iff spec "", eq_iff before "")

kept_if_sent :
    (spec before last after : String)
    → ((v : String) → some (default_to (default_to spec before) last) ≡ some v → after ≡ v)
    → Keeps spec before after
kept_if_sent spec before last after h = ground (arith, h before, eq_iff spec "", eq_iff before "")

-- If Cloudflare stores what an edit sends, no setting is reset that the spec leaves open: where
-- the spec's field is empty and Cloudflare had a value, that value is there after the edit, for
-- all four fields.
pub build_ssl_edit_params-Keeps :
    (spec : CustomHostnameSsl) (before after : ResponseSsl)
    → Stores (build_ssl_edit_params spec before) after
    → Keeps spec.certificate_authority before.certificate_authority after.certificate_authority
      × Keeps spec.min_tls_version before.min_tls_version after.min_tls_version
      × Keeps spec.method before.method after.method
      × Keeps spec.type before.type after.type
unfolding build_ssl_edit_params
build_ssl_edit_params-Keeps spec before after h = (
  kept_if_stored spec.certificate_authority before.certificate_authority after.certificate_authority
      h.stores_ca,
  kept_if_stored spec.min_tls_version before.min_tls_version after.min_tls_version h.stores_min_tls,
  kept_if_sent spec.method before.method ssl_method_http after.method h.stores_method,
  kept_if_sent spec.type before.type ssl_type_dv after.type h.stores_type,
)
