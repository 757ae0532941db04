-- ===== src/Hostname/Records.antt =====
-- What `handleCreate` and `reconcileCloudflareState` record of Cloudflare's answer, field by field.
use cf_edge_operator.Prelude.{
  ℕ, ◌≡◌, refl, String, ◌<>◌, ◌==◌, false, Option, some, int32_succ, if◌then◌else◌, Bool-cases, inl,
  inr,
}
use mathlib.Core.List.{map}
use cf_edge_operator.Api.Meta.{Condition}
use cf_edge_operator.Api.Saas.{CustomHostname, CustomHostnameSslStatus}
use cf_edge_operator.Api.Cloudflare.{HostnameResponse, ResponseSsl}
use cf_edge_operator.Platform.Errors.{Result, ok, err}
use cf_edge_operator.Platform.Env.{Env}
use cf_edge_operator.Platform.Action.{World}
use cf_edge_operator.Ssl.{cf_state_from_new, validation_record}
use cf_edge_operator.Ssl.Quiet.{Agrees}
use cf_edge_operator.Hostname.Config.{Reconciler}
use cf_edge_operator.Hostname.Client.{ZoneInfo}
use cf_edge_operator.Hostname.Create.{created, handle_create}
use cf_edge_operator.Hostname.Recorded.{
  last_status, ready_object, failed_object, create_record, create_answer, handle_create-last_status,
}

-- The recorded SSL status has all that Cloudflare answers of it.
pub record ShowsSsl (recorded : Option CustomHostnameSslStatus) (cf : ResponseSsl) : Type 0 where
  pub shown : CustomHostnameSslStatus
  pub recorded_is : recorded ≡ some shown
  pub agrees : Agrees shown cf
  pub hosts : shown.hosts ≡ cf.hosts
  pub validation_records : shown.validation_records ≡ map validation_record cf.validation_records
  pub validation_errors : shown.validation_errors ≡ cf.validation_errors

-- The `Ready` condition for an SSL status.
abbrev pub ready_condition : CustomHostname → String → Condition
ready_condition ch status = record {
  type = "Ready";
  status = if status == "active" then "True" else "False";
  reason = if status == "active" then "Ready" else "SSLPending";
  message = if status == "active" then "Custom hostname is active" else "SSL status: " <> status;
  observed_generation = ch.metadata.generation;
}

-- `new` is `old` with Cloudflare's state `cf`, with no errors, with the condition for the state, and
-- with an ID, a count of creations and a time at which the provisioning started.
pub record Shows (env : Env) (old : CustomHostname) (cf : HostnameResponse) (id : String)
    (creations : ℕ) (started : Option ℕ) (new : CustomHostname) : Type 0 where
  pub hostname_status : new.status.hostname_status ≡ cf.status
  pub ssl : ShowsSsl new.status.ssl cf.ssl
  pub errors : new.status.consecutive_errors ≡ 0
  pub conditions :
      new.status.conditions
      ≡ env.set_status_condition old.status.conditions (ready_condition old cf.ssl.status)
  pub metadata : new.metadata ≡ old.metadata
  pub spec : new.spec ≡ old.spec
  pub has_id : new.status.id ≡ id
  pub create_count : new.status.create_count ≡ creations
  pub has_started : new.status.ssl_provisioning_started_at ≡ started

abbrev shown_ssl : ResponseSsl → CustomHostnameSslStatus
shown_ssl cf = record {
  status = cf.status;
  certificate_authority = cf.certificate_authority;
  min_tls_version = cf.min_tls_version;
  method = cf.method;
  type = cf.type;
  id = cf.id;
  issuer = cf.issuer;
  serial_number = cf.serial_number;
  bundle_method = cf.bundle_method;
  wildcard = cf.wildcard;
  hosts = cf.hosts;
  uploaded_on = cf.uploaded_on;
  expires_on = cf.expires_on;
  validation_records = map validation_record cf.validation_records;
  validation_errors = cf.validation_errors;
}

shown_ssl-ShowsSsl : (cf : ResponseSsl) → ShowsSsl (some (shown_ssl cf)) cf
shown_ssl-ShowsSsl cf = record {
  shown = shown_ssl cf;
  recorded_is = refl;
  agrees = record {
    certificate_authority = refl;
    min_tls_version = refl;
    method = refl;
    type = refl;
    status = refl;
    id = refl;
    issuer = refl;
    serial_number = refl;
    bundle_method = refl;
    wildcard = refl;
    uploaded_on = refl;
    expires_on = refl;
  };
  hosts = refl;
  validation_records = refl;
  validation_errors = refl;
}

module _ (env : Env) (ch : CustomHostname) where
  -- What is recorded for the answer to an edit.
  abbrev pub RecordsEdit : Result HostnameResponse → CustomHostname → Type 0
  RecordsEdit (ok cf) new =
      Shows env ch cf ch.status.id ch.status.create_count ch.status.ssl_provisioning_started_at new
  RecordsEdit (err e) new = new ≡ failed_object env ch "UpdateFailed" (env.error_text e)

  -- What is recorded for the answer to a create.
  abbrev pub RecordsCreate : Result HostnameResponse → CustomHostname → Type 0
  RecordsCreate (ok cf) new =
      (now : ℕ) × Shows env ch cf cf.id (int32_succ ch.status.create_count) (some now) new
  RecordsCreate (err e) new = new ≡ failed_object env ch "CreateFailed" (env.error_text e)

  module _ (cf : HostnameResponse) where
    abbrev based : (id : String) (creations : ℕ) (started : Option ℕ) → CustomHostname
    based id creations started = record ch {
      status = record ch.status {
        id = id;
        ssl = some (shown_ssl cf.ssl);
        hostname_status = cf.status;
        create_count = creations;
        ssl_provisioning_started_at = started;
      };
    }

    based-Shows :
        (id : String) (creations : ℕ) (started : Option ℕ)
        → Shows env ch cf id creations started (ready_object env (based id creations started))
    based-Shows id creations started = elim (Bool-cases (cf.ssl.status == "active")) [
      | inl active ↦ rw active (record {
        hostname_status = refl;
        ssl = shown_ssl-ShowsSsl cf.ssl;
        errors = refl;
        conditions = rw active refl;
        metadata = refl;
        spec = refl;
        has_id = refl;
        create_count = refl;
        has_started = refl;
      })
      | inr pending ↦ rw pending (record {
        hostname_status = refl;
        ssl = shown_ssl-ShowsSsl cf.ssl;
        errors = refl;
        conditions = rw pending refl;
        metadata = refl;
        spec = refl;
        has_id = refl;
        create_count = refl;
        has_started = refl;
      })
    ]

  create_record-Records :
      (now : ℕ) (answer : Result HostnameResponse)
      → RecordsCreate answer (create_record env ch now answer)
  unfolding created cf_state_from_new
  create_record-Records now (ok cf) =
      (now, based-Shows cf cf.id (int32_succ ch.status.create_count) (some now))
  create_record-Records now (err e) = refl

  module _ (r : Reconciler) (zi : ZoneInfo) (w : World) where
    -- Outside a dry run, `handleCreate` records what the last create call answered. On success this
    -- is the object with the new ID, the hostname status and all of the SSL state of the response,
    -- one more creation, a time, no errors, and the `Ready` condition for the SSL status. On a
    -- failure it is the object with one more error and the condition "CreateFailed".
    pub handle_create-Records :
        r.dry_run ≡ false
        → (new : CustomHostname) × (last_status (handle_create env r zi ch w).1.trace ≡ some new)
          × RecordsCreate (create_answer env r zi ch w) new
    handle_create-Records real =
        let (now, recorded) = handle_create-last_status env r zi ch w real in
        (_, recorded, create_record-Records now (create_answer env r zi ch w))
