-- ===== src/Hostname/Config.antt =====
-- The reconciler, its policies, and what a reconcile returns.
use cf_edge_operator.Prelude.{
  ℕ, String, ◌!=◌, Bool, false, Option, none, some, List, [], ◌∷◌, ltb, if◌then◌else◌,
}
use cf_edge_operator.Api.Saas.{CustomHostname}
use cf_edge_operator.Platform.Errors.{Err, Result, ok, err}
use cf_edge_operator.Platform.Calls.{Call}
use cf_edge_operator.Platform.Action.{Action, pure, call}
use cf_edge_operator.Ssl.{SslDefaults}

abbrev pub finalizer_name : String
finalizer_name = "saas.cf-edge.io/customhostname"

abbrev pub hostname_field : String
hostname_field = "spec.hostname"

-- The values of the index that `SetupWithManager` registers for the field.
abbrev pub hostname_index : CustomHostname → List String
hostname_index ch = ch.spec.hostname ∷ []

abbrev pub condition_ready : String
condition_ready = "Ready"

abbrev pub reason_hostname_conflict : String
reason_hostname_conflict = "HostnameConflict"

abbrev pub management_policy_manage : String
management_policy_manage = "manage"

abbrev pub management_policy_create : String
management_policy_create = "create"

abbrev pub management_policy_observe : String
management_policy_observe = "observe"

abbrev pub delete_policy_always : String
delete_policy_always = "always"

abbrev pub delete_policy_own_only : String
delete_policy_own_only = "own-only"

abbrev pub delete_policy_never : String
delete_policy_never = "never"

abbrev pub ssl_status_active : String
ssl_status_active = "active"

-- `CustomHostnameReconciler`. A duration is in nanoseconds; `main` refuses negative ones.
pub record Reconciler : Type 0 where
  pub operator_namespace : String
  pub management_policy : String
  pub delete_policy : String
  pub dry_run : Bool
  pub ssl_defaults : SslDefaults
  pub cf_api_timeout : ℕ
  pub cf_api_write_timeout : ℕ
  pub cf_api_max_retries : ℕ
  pub cf_api_write_delay : ℕ
  pub cf_base_url : String

-- `(ctrl.Result, error)`
pub record Outcome : Type 0 where
  pub requeue : Bool
  pub requeue_after : ℕ
  pub error : Option Err

-- `return ctrl.Result{}, err`
abbrev pub finish : Option Err → Outcome
finish e = record { requeue = false; requeue_after = 0; error = e }

unfoldable pub effective_management_policy : String → String → String
effective_management_policy cr_policy operator_default =
    if cr_policy != "" then cr_policy else operator_default

unfoldable pub effective_delete_policy : String → String → String
effective_delete_policy cr_policy operator_default =
    if cr_policy != "" then cr_policy else operator_default

abbrev pub management_policy_of : Reconciler → CustomHostname → String
management_policy_of r ch =
    effective_management_policy ch.spec.management_policy r.management_policy

abbrev pub delete_policy_of : Reconciler → CustomHostname → String
delete_policy_of r ch = effective_delete_policy ch.spec.delete_policy r.delete_policy

abbrev pub error_of {ℓ} : {A : Type ℓ} → Result A → Option Err
error_of (ok a) = none
error_of (err e) = some e

unfoldable pub pace_write : Reconciler → Action (Unit {0})
pace_write r =
    if ltb 0 r.cf_api_write_delay then call (Call.sleep r.cf_api_write_delay) (λ _. tt) else pure tt
