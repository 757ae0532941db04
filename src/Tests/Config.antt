-- ===== src/Tests/Config.antt =====
-- The theorems on the flags and the build identity, at concrete inputs.
use cf_edge_operator.Prelude.{◌≡◌, ◌<◌, refl, false, some, [], ◌∷◌, In}
use cf_edge_operator.Config.{
  pos, negsuc, Flags, management_policies, delete_policies, one_of, checks, first_failure,
  rejected_flag, custom_hostname_reconciler, zone_reconciler, BuildInfo, build_info, apply_settings,
  apply_setting,
}
use cf_edge_operator.Config.Laws.{rejected_flag-reconcilers}

-- The defaults of the program.
abbrev flags : Flags
flags = record {
  operator_namespace = "cf-edge-operator-system";
  management_policy = "manage";
  delete_policy = "always";
  dry_run = false;
  drift_interval = pos 60_000_000_000;
  drift_buffer = pos 1024;
  cf_api_timeout = pos 5_000_000_000;
  cf_api_write_timeout = pos 15_000_000_000;
  cf_api_max_retries = pos 1;
  cf_api_bulk_timeout = pos 5_000_000_000;
  cf_api_bulk_max_retries = pos 0;
  cf_api_write_delay = pos 250_000_000;
  ssl_certificate_authority = "";
  ssl_min_tls_version = "";
  ssl_method = "";
  ssl_type = "";
}

negative_retries :
    rejected_flag (record flags { cf_api_max_retries = negsuc 0 }) ≡ some "--cf-api-max-retries"
unfolding rejected_flag checks first_failure one_of
negative_retries = refl

rejected_flag-reconcilers_example :
    ((0 < (zone_reconciler flags).drift_interval)
      × (0 < (zone_reconciler flags).drift_buffer)
      × (0 < (zone_reconciler flags).cf_api_timeout)
      × (0 < (zone_reconciler flags).cf_api_bulk_timeout)
      × (pos 0 ≡ pos (zone_reconciler flags).cf_api_bulk_max_retries)
      × (pos 1 ≡ pos (zone_reconciler flags).cf_api_max_retries))
    × (0 < (custom_hostname_reconciler flags).cf_api_timeout)
    × (0 < (custom_hostname_reconciler flags).cf_api_write_timeout)
    × (pos 1 ≡ pos (custom_hostname_reconciler flags).cf_api_max_retries)
    × (pos 250_000_000 ≡ pos (custom_hostname_reconciler flags).cf_api_write_delay)
    × In (custom_hostname_reconciler flags).management_policy management_policies
    × In (custom_hostname_reconciler flags).delete_policy delete_policies
unfolding rejected_flag checks first_failure one_of
rejected_flag-reconcilers_example = rejected_flag-reconcilers flags refl

abbrev release : BuildInfo
release = record { version = "1.4.0"; commit = "abc"; date = "2026-01-01" }

fallback :
    build_info
      (some (("vcs.revision", "0123456789abcdef") ∷ []))
      (record release { commit = "unknown" })
    ≡ record release { commit = "0123456789ab" }
unfolding build_info apply_settings apply_setting
fallback = refl
