-- ===== src/Hostname/Status.antt =====
-- Conditions and counters of the status, the conflict check, and the end of a reconcile.
use cf_edge_operator.Prelude.{
  ◌-◌, String, ◌<>◌, ◌==◌, ◌!=◌, Bool, true, false, ◌&&◌, Option, none, some, List, [], ◌∷◌,
  int32_succ, if◌then◌else◌,
}
use cf_edge_operator.Api.Meta.{Condition}
use cf_edge_operator.Api.Saas.{CustomHostname, CustomHostnameSslStatus, ssl_method_http}
use cf_edge_operator.Platform.Errors.{Err, wrapped}
use cf_edge_operator.Platform.Calls.{Call}
use cf_edge_operator.Platform.Env.{Env}
use cf_edge_operator.Platform.Action.{Action, pure, call, peek, ◌>>=◌, ◌>>◌, handle, either}
use cf_edge_operator.Metrics.{set_ssl_provisioning_duration}
use mathlib.Core.Option
use cf_edge_operator.Hostname.Config.{
  Outcome, finish, condition_ready, reason_hostname_conflict, hostname_field, ssl_status_active,
}

unfoldable pub set_condition :
    Env → CustomHostname → (status reason message : String) → Action (Option Err)
set_condition env ch status reason message =
    let conditions = env.set_status_condition ch.status.conditions (record {
      type = condition_ready;
      status = status;
      reason = reason;
      message = message;
      observed_generation = ch.metadata.generation;
    }) in
    let ch' = record ch { status = record ch.status { conditions = conditions } } in
    do
      e ← call (Call.update_status ch') (λ t. env.update_status t ch')
      pure (Option.map (wrapped "failed to update conditions") e)

unfoldable pub set_conflict : Env → CustomHostname → String → Action (Option Err)
set_conflict env ch message = set_condition env ch "False" reason_hostname_conflict message

unfoldable pub set_error : Env → CustomHostname → (reason message : String) → Action (Option Err)
set_error env ch reason message =
    set_condition env
      (record ch {
        status = record ch.status { consecutive_errors = int32_succ ch.status.consecutive_errors };
      })
      "False" reason message

-- The first peer that is another object and has an ID.
unfoldable pub find_owner : CustomHostname → List CustomHostname → Option CustomHostname
find_owner ch [] = none
find_owner ch (peer ∷ peers) =
    let rest = find_owner ch peers in
    if peer.metadata.uid == ch.metadata.uid
    then rest
    else if peer.status.id != ""
    then some peer
    else rest

unfoldable pub check_peers :
    Env → CustomHostname → Option CustomHostname → Action (Bool × Option Err)
check_peers env ch none = pure (false, none)
check_peers env ch (some peer) = do
  e ← set_conflict env ch (
      "hostname "
      <> env.quote ch.spec.hostname
      <> " already managed by "
      <> peer.metadata.namespace
      <> "/"
      <> peer.metadata.name)
  pure (true, e)

unfoldable pub detect_conflict : Env → CustomHostname → Action (Bool × Option Err)
detect_conflict env ch = do
  peers ←
      call (Call.list_custom_hostnames hostname_field ch.spec.hostname)
        (λ t. env.list_custom_hostnames t hostname_field ch.spec.hostname)
  handle peers (λ e. pure (false, some e)) (λ items. check_peers env ch (find_owner ch items))

-- The loop over the conditions: is `Ready` set to `True`?
unfoldable pub is_ready : List Condition → Bool
is_ready [] = false
is_ready (c ∷ cs) =
    let rest = is_ready cs in if c.type == condition_ready && c.status == "True" then true else rest

unfoldable pub provisioning_method : CustomHostname → CustomHostnameSslStatus → String
provisioning_method ch ssl = if ssl.method != "" then ssl.method else elim ch.spec.ssl [
  | none ↦ ssl_method_http
  | some spec ↦ if spec.method != "" then spec.method else ssl_method_http
]

unfoldable pub observe_provisioning :
    Env → (zone_cr : String) → CustomHostname → CustomHostnameSslStatus → Action (Unit {0})
observe_provisioning env zone_cr ch ssl =
    either ch.status.ssl_provisioning_started_at (pure tt) (λ started.
      if is_ready ch.status.conditions then pure tt else do
        now ← peek env.now
        set_ssl_provisioning_duration env zone_cr ch.spec.hostname (provisioning_method ch ssl)
            (now - started))

abbrev pub ssl_status_of : Option CustomHostnameSslStatus → String
ssl_status_of none = "unknown"
ssl_status_of (some ssl) = ssl.status

abbrev pub is_active : Option CustomHostnameSslStatus → Bool
is_active none = false
is_active (some ssl) = ssl.status == ssl_status_active

abbrev pub clear_errors : CustomHostname → CustomHostname
clear_errors ch = record ch { status = record ch.status { consecutive_errors = 0 } }

unfoldable pub set_ready :
    Env → (zone_cr : String) → CustomHostname → Option CustomHostnameSslStatus → Action Outcome
set_ready env zone_cr ch ssl =
    if is_active ssl
    then (do
      either ssl (pure tt) (λ s. observe_provisioning env zone_cr ch s)
      e ← set_condition env ch "True" condition_ready "Custom hostname is active"
      pure (finish e))
    else (do
      e ← set_condition env ch "False" "SSLPending" ("SSL status: " <> ssl_status_of ssl)
      pure (finish e))

unfoldable pub requeue_or_ready : Env → (zone_cr : String) → CustomHostname → Action Outcome
requeue_or_ready env zone_cr ch = set_ready env zone_cr (clear_errors ch) ch.status.ssl
