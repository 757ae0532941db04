-- ===== src/Config.antt =====
-- cmd/main.go: the checks on the flags, the reconcilers that are built from them, and the build
-- identity. A Go `int` or `time.Duration` is an integer without bounds.
pub mod Laws
use Prim.Native.String.{len, slice}
use cf_edge_operator.Prelude.{
  ℕ, zero, suc, String, ◌==◌, ◌!=◌, Bool, true, false, not, ◌&&◌, ◌||◌, Option, none, some, List,
  [], ◌∷◌, ltb, if◌then◌else◌,
}
use cf_edge_operator.Api.Saas.{
  ssl_ca_lets_encrypt, ssl_ca_google, ssl_ca_ssl_com, ssl_min_tls10, ssl_min_tls11, ssl_min_tls12,
  ssl_min_tls13, ssl_method_http, ssl_method_txt, ssl_method_email, ssl_type_dv,
}
use cf_edge_operator.Hostname.Config.{
  Reconciler, management_policy_manage, management_policy_create, management_policy_observe,
  delete_policy_always, delete_policy_own_only, delete_policy_never,
}
use cf_edge_operator.Zone.Config.{ZoneReconciler}

-- `negsuc n` is -(n + 1).
pub data ℤ : Type 0 where
  pos : ℕ → ℤ
  negsuc : ℕ → ℤ

abbrev pub pos_part : ℤ → ℕ
pos_part (pos n) = n
pos_part (negsuc n) = 0

-- `x <= 0`
abbrev pub not_positive : ℤ → Bool
not_positive (pos n) = not (ltb 0 n)
not_positive (negsuc n) = true

-- `x < 0`
abbrev pub is_negative : ℤ → Bool
is_negative (pos n) = false
is_negative (negsuc n) = true

pub record Flags : Type 0 where
  pub operator_namespace : String
  pub management_policy : String
  pub delete_policy : String
  pub dry_run : Bool
  pub drift_interval : ℤ
  pub drift_buffer : ℤ
  pub cf_api_timeout : ℤ
  pub cf_api_write_timeout : ℤ
  pub cf_api_max_retries : ℤ
  pub cf_api_bulk_timeout : ℤ
  pub cf_api_bulk_max_retries : ℤ
  pub cf_api_write_delay : ℤ
  pub ssl_certificate_authority : String
  pub ssl_min_tls_version : String
  pub ssl_method : String
  pub ssl_type : String

-- The `case` labels of a `switch` on a text.
unfoldable pub one_of : String → List String → Bool
one_of s [] = false
one_of s (t ∷ ts) = s == t || one_of s ts

-- `if x != "" { switch x { case …: default: fail } }`
abbrev pub bad_choice : String → List String → Bool
bad_choice s choices = s != "" && not (one_of s choices)

abbrev pub ssl_cas : List String
ssl_cas = ssl_ca_lets_encrypt ∷ ssl_ca_google ∷ ssl_ca_ssl_com ∷ []

abbrev pub tls_versions : List String
tls_versions = ssl_min_tls10 ∷ ssl_min_tls11 ∷ ssl_min_tls12 ∷ ssl_min_tls13 ∷ []

abbrev pub ssl_methods : List String
ssl_methods = ssl_method_http ∷ ssl_method_txt ∷ ssl_method_email ∷ []

abbrev pub management_policies : List String
management_policies =
    management_policy_manage ∷ management_policy_create ∷ management_policy_observe ∷ []

abbrev pub delete_policies : List String
delete_policies = delete_policy_always ∷ delete_policy_own_only ∷ delete_policy_never ∷ []

-- The checks in their order, each with the flag that it names.
unfoldable pub checks : Flags → List (Bool × String)
checks f =
    (not (one_of f.management_policy management_policies), "--management-policy")
    ∷ (not (one_of f.delete_policy delete_policies), "--delete-policy")
    ∷ (not_positive f.drift_interval, "--drift-interval")
    ∷ (not_positive f.drift_buffer, "--drift-buffer")
    ∷ (not_positive f.cf_api_timeout, "--cf-api-timeout")
    ∷ (not_positive f.cf_api_write_timeout, "--cf-api-write-timeout")
    ∷ (is_negative f.cf_api_max_retries, "--cf-api-max-retries")
    ∷ (not_positive f.cf_api_bulk_timeout, "--cf-api-bulk-timeout")
    ∷ (is_negative f.cf_api_bulk_max_retries, "--cf-api-bulk-max-retries")
    ∷ (is_negative f.cf_api_write_delay, "--cf-api-write-delay")
    ∷ (bad_choice f.ssl_certificate_authority ssl_cas, "--ssl-certificate-authority")
    ∷ (bad_choice f.ssl_min_tls_version tls_versions, "--ssl-min-tls-version")
    ∷ (bad_choice f.ssl_method ssl_methods, "--ssl-method")
    ∷ (bad_choice f.ssl_type (ssl_type_dv ∷ []), "--ssl-type")
    ∷ []

-- The first check that fails ends the program, with the name of its flag in the log.
unfoldable pub first_failure : List (Bool × String) → Option String
first_failure [] = none
first_failure ((failed, flag) ∷ rest) =
    let later = first_failure rest in if failed then some flag else later

unfoldable pub rejected_flag : Flags → Option String
unfolding checks first_failure one_of
rejected_flag f = first_failure (checks f)

unfoldable pub custom_hostname_reconciler : Flags → Reconciler
custom_hostname_reconciler f = record {
  operator_namespace = f.operator_namespace;
  management_policy = f.management_policy;
  delete_policy = f.delete_policy;
  dry_run = f.dry_run;
  ssl_defaults = record {
    certificate_authority = f.ssl_certificate_authority;
    min_tls_version = f.ssl_min_tls_version;
    method = f.ssl_method;
    type = f.ssl_type;
  };
  cf_api_timeout = pos_part f.cf_api_timeout;
  cf_api_write_timeout = pos_part f.cf_api_write_timeout;
  cf_api_max_retries = pos_part f.cf_api_max_retries;
  cf_api_write_delay = pos_part f.cf_api_write_delay;
  cf_base_url = "";
}

unfoldable pub zone_reconciler : Flags → ZoneReconciler
zone_reconciler f = record {
  drift_buffer = pos_part f.drift_buffer;
  drift_interval = pos_part f.drift_interval;
  cf_api_timeout = pos_part f.cf_api_timeout;
  cf_api_max_retries = pos_part f.cf_api_max_retries;
  cf_api_bulk_timeout = pos_part f.cf_api_bulk_timeout;
  cf_api_bulk_max_retries = pos_part f.cf_api_bulk_max_retries;
  cf_base_url = "";
}

-- The build identity: version, commit, date.
pub record BuildInfo : Type 0 where
  pub version : String
  pub commit : String
  pub date : String

abbrev pub short_commit : String → String
short_commit c = if ltb 12 (len c) then slice c 0 12 else c

unfoldable pub apply_setting : String → String → BuildInfo → BuildInfo
apply_setting key value b =
    if key == "vcs.revision"
    then (if b.commit == "unknown" && value != ""
        then record b { commit = short_commit value }
        else b)
    else if key == "vcs.time"
    then (if b.date == "unknown" && value != "" then record b { date = value } else b)
    else b

-- The loop over the settings that Go embeds in the binary.
unfoldable pub apply_settings : List (String × String) → BuildInfo → BuildInfo
apply_settings [] b = b
apply_settings ((key, value) ∷ rest) b = apply_settings rest (apply_setting key value b)

-- `debug.ReadBuildInfo` may find nothing.
unfoldable pub build_info : Option (List (String × String)) → BuildInfo → BuildInfo
build_info none b = b
build_info (some settings) b = apply_settings settings b
