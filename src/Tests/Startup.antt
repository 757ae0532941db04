-- ===== src/Tests/Startup.antt =====
-- The start of the operator with the defaults of its flags.
use cf_edge_operator.Prelude.{List, ◌≡◌, refl, Option, none, [], ◌∷◌}
use cf_edge_operator.Platform.Errors.{Err}
use cf_edge_operator.Config.{pos, negsuc, BuildInfo, rejected_flag, checks, first_failure, one_of}
use cf_edge_operator.Startup.{
  default_flags, default_server_flags, TlsConfig, tls_opts, level_text, StartupCall, setup_worker,
  setup_coordinator, run_manager, start_manager, main,
}
use cf_edge_operator.Prelude.{true}
use cf_edge_operator.Startup.Order.{identified, preparations, succeeded, main-start}

abbrev succeed : StartupCall → Option Err
succeed c = none

abbrev local_build : BuildInfo
local_build = record { version = "dev"; commit = "unknown"; date = "unknown" }

trace_level : level_text (λ l. "level") (negsuc 1) ≡ "trace"
unfolding level_text
trace_level = refl

info_level : level_text (λ l. "level") (pos 0) ≡ "level"
unfolding level_text
info_level = refl

-- Unless HTTP/2 is enabled, the metrics server speaks HTTP/1.1.
abbrev configured : List (TlsConfig → TlsConfig) → TlsConfig → TlsConfig
configured [] c = c
configured (change ∷ changes) c = configured changes (change c)

http1 :
    (configured (tls_opts default_server_flags) (record { next_protos = [] })).next_protos
    ≡ "http/1.1" ∷ []
unfolding tls_opts
http1 = refl

main-start_example :
    (rejected_flag default_flags ≡ none)
    × ((main succeed none local_build default_flags default_server_flags).0
        ≡ identified succeed none local_build default_flags default_server_flags
          ∷ preparations default_flags default_server_flags)
    × (succeeded succeed (preparations default_flags default_server_flags) ≡ true)
unfolding main start_manager setup_worker setup_coordinator run_manager rejected_flag checks
    first_failure one_of
main-start_example = main-start succeed none local_build default_flags default_server_flags refl
