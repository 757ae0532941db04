-- ===== src/Platform/Stored.antt =====
-- What the API server keeps of a status. A `metav1.Time` (uploadedOn, expiresOn and
-- sslProvisioningStartedAt of api/saas/v1beta1/customhostname_types.go) is stored as its JSON form.
use cf_edge_operator.Prelude.{ℕ, ◌%◌, ◌-◌, ◌≡◌, Bool, true, ◌&&◌, Option, none, some, nat_beq}
use mathlib.Core.Option
use cf_edge_operator.Api.Saas.{CustomHostname, CustomHostnameSslStatus, CustomHostnameStatus}
use cf_edge_operator.Api.Cloudflare.{ResponseSsl}
use cf_edge_operator.Platform.Env.{Env}

abbrev pub stored_ssl : Env → CustomHostnameSslStatus → CustomHostnameSslStatus
stored_ssl env s = record s {
  uploaded_on = Option.map env.stored_time s.uploaded_on;
  expires_on = Option.map env.stored_time s.expires_on;
}

abbrev pub stored_status : Env → CustomHostnameStatus → CustomHostnameStatus
stored_status env s = record s {
  ssl = Option.map (stored_ssl env) s.ssl;
  ssl_provisioning_started_at = Option.map env.stored_time s.ssl_provisioning_started_at;
}

-- The object as it is read after its status was stored.
abbrev pub as_stored : Env → CustomHostname → CustomHostname
as_stored env ch = record ch { status = stored_status env ch.status }

-- What `metav1.Time` documents: its JSON form is RFC 3339 in whole seconds, so the nanoseconds
-- beyond them are lost.
pub record KeepsSeconds (env : Env) : Type 0 where
  pub seconds : (t : ℕ) → env.stored_time t ≡ t - t % 1_000_000_000

abbrev pub is_whole : Option ℕ → Bool
is_whole none = true
is_whole (some t) = nat_beq (t % 1_000_000_000) 0

-- Have both times of the certificate whole seconds?
abbrev pub has_whole_times : ResponseSsl → Bool
has_whole_times ssl = is_whole ssl.uploaded_on && is_whole ssl.expires_on
