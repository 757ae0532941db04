-- ===== src/Hostname/Allowed.antt =====
-- The calls of each operation of the controller, for a predicate that allows all calls but writes
-- to Cloudflare. What it must allow of those is a premise, under the tests that lead to the write.
pub mod Saves
pub mod Search
pub mod Ends
pub mod Live
pub mod Deletion
use cf_edge_operator.Prelude.{Bool-cases, inl, inr, int32_positive, [], ◌∷◌}
use cf_edge_operator.Platform.Calls.{operations_total}
use cf_edge_operator.Metrics.{cf_resource_custom_hostname}
use cf_edge_operator.Metrics.Vectors.{fits}
use cf_edge_operator.Hostname.Create.{create_op}
use cf_edge_operator.Prelude.{
  ◌≡◌, not, refl, String, Bool, true, false, ◌&&◌, ◌==◌, ◌!=◌, Option, none, some,
}
use cf_edge_operator.Api.Domains.{Zone}
use cf_edge_operator.Api.Saas.{CustomHostname, CustomHostnameSslStatus}
use cf_edge_operator.Api.Cloudflare.{HostnameResponse, CfClient, NewParams, EditParams}
use cf_edge_operator.Platform.Calls.{Call}
use cf_edge_operator.Platform.Env.{Env}
use cf_edge_operator.Platform.Action.{World}
use cf_edge_operator.Platform.Moves.{Progress, Moves, Allows, Moves-if, Moves-bind, moves_rules}
use cf_edge_operator.Platform.Emits.{ByCalls, ByCalls-Progress, ByCalls-Allows}
use cf_edge_operator.Metrics.Emits.{metrics_emits}
use cf_edge_operator.Platform.State.{state_rules}
use cf_edge_operator.Metrics.Allowed.{
  AllowsMetrics, record_cf_call-Moves, cf_retry-Moves, set_ssl_provisioning_duration-Moves,
}
use cf_edge_operator.Hostname.Config.{
  Reconciler, pace_write, management_policy_of, management_policy_manage, management_policy_observe,
  delete_policy_of, delete_policy_never,
}
use cf_edge_operator.Hostname.Status.{
  set_condition, set_conflict, set_error, check_peers, detect_conflict, observe_provisioning,
  set_ready, requeue_or_ready, clear_errors,
}
use cf_edge_operator.Hostname.Client.{
  ZoneInfo, fetch_api_token, build_cloudflare_client, find_by_hostname, lookup,
}
use cf_edge_operator.Hostname.Create.{new_params, create_call, after_create, handle_create}
use cf_edge_operator.Hostname.Update.{
  edit_params, edit_call, refresh, after_edit, update_hostname, correct_drift, adopt,
  count_adoption, reconcile_existing, reconcile_missing, reconcile_cloudflare_state,
}
use cf_edge_operator.Hostname.Delete.{
  has_finalizer, delete_params, release_finalizer, delete_call, delete_hostname, delete_own,
  handle_delete, delete_in_cloudflare, reconcile_deletion,
}
use cf_edge_operator.Hostname.Reconcile.{
  origin_not_in_zone, add_finalizer, reconcile_owned, reconcile_in_zone, reconcile_live,
}

abbrev pub is_cf_write : Call → Bool
is_cf_write (Call.cf_new _ _) = true
is_cf_write (Call.cf_edit _ _ _) = true
is_cf_write (Call.cf_delete _ _ _) = true
is_cf_write _ = false

-- The calls that change no hostname in Cloudflare and no metric, with or without those that search
-- it, and those that save a resource.
abbrev pub is_plain : (searches saves : Bool) → Call → Bool
is_plain searches saves (Call.get_zone _) = true
is_plain searches saves (Call.get_secret _) = true
is_plain searches saves (Call.list_custom_hostnames _ _) = true
is_plain searches saves (Call.update _) = saves
is_plain searches saves (Call.update_status _) = saves
is_plain searches saves (Call.cf_list _ _) = searches
is_plain searches saves (Call.sleep _) = true
is_plain searches saves _ = false

-- The relation holds of all that the worker does but its writes to Cloudflare, its searches if
-- `searches` is false, and its writes to the API server if `saves` is false.
pub record AllowsReads (searches saves : Bool) (R : World → World → Type 0) (env : Env)
    : Type 0 where
  pub progress : Progress R
  pub plain : (c : Call) → is_plain searches saves c ≡ true → Allows R c
  pub metrics : AllowsMetrics R env

module _ {Q : Call → Type 0} (allow : (c : Call) → is_cf_write c ≡ false → Q c) (env : Env) where
  plain_emits : (c : Call) → is_plain true true c ≡ true → Allows (ByCalls Q) c
  plain_emits (Call.cf_new _ _) h = cc h
  plain_emits (Call.cf_edit _ _ _) h = cc h
  plain_emits (Call.cf_delete _ _ _) h = cc h
  plain_emits _ h = ByCalls-Allows (allow _ refl)

  -- Of a predicate on calls that allows all but writes to Cloudflare.
  pub reads_emit : AllowsReads true true (ByCalls Q) env
  reads_emit = record {
    progress = ByCalls-Progress Q;
    plain = plain_emits;
    metrics =
        metrics_emits
          (record {
            emits_inc = λ c labels _. allow _ refl;
            emits_set = λ g labels v _. allow _ refl;
            emits_observe = λ labels d _. allow _ refl;
            emits_delete = λ g labels _. allow _ refl;
          })
          env;
  }

-- The calls to Cloudflare.
abbrev pub is_cf_call : Call → Bool
is_cf_call (Call.cf_list _ _) = true
is_cf_call (Call.cf_new _ _) = true
is_cf_call (Call.cf_edit _ _ _) = true
is_cf_call (Call.cf_delete _ _ _) = true
is_cf_call (Call.cf_get_zone _ _) = true
is_cf_call _ = false

abbrev pub AwayFromCf : Call → Type 0
AwayFromCf c = is_cf_call c ≡ false

module _ (env : Env) where
  plain_away : (c : Call) → is_plain false true c ≡ true → Allows (ByCalls AwayFromCf) c
  plain_away (Call.cf_list _ _) h = cc h
  plain_away (Call.cf_new _ _) h = cc h
  plain_away (Call.cf_edit _ _ _) h = cc h
  plain_away (Call.cf_delete _ _ _) h = cc h
  plain_away (Call.cf_get_zone _ _) h = cc h
  plain_away _ h = ByCalls-Allows refl

  pub away_emit : AllowsReads false true (ByCalls AwayFromCf) env
  away_emit = record {
    progress = ByCalls-Progress AwayFromCf;
    plain = plain_away;
    metrics =
        metrics_emits
          (record {
            emits_inc = λ c labels _. refl;
            emits_set = λ g labels v _. refl;
            emits_observe = λ labels d _. refl;
            emits_delete = λ g labels _. refl;
          })
          env;
  }

module _ {searches saves : Bool} {R : World → World → Type 0} {env : Env}
    (allow : AllowsReads searches saves R env) where
  chained : Progress R
  chained = allow.progress

  allowed : (c : Call) → is_plain searches saves c ≡ true → Allows R c
  allowed = allow.plain

  metrics_allowed : AllowsMetrics R env
  metrics_allowed = allow.metrics

  ruleset rules = (
    moves_rules, chained, state_rules, allowed, refl, metrics_allowed, record_cf_call-Moves,
    cf_retry-Moves, set_ssl_provisioning_duration-Moves,
  )

  pub pace_write-Moves : (r : Reconciler) → Moves R (pace_write r)
  unfolding pace_write
  pace_write-Moves r = search rules

  pub observe_provisioning-Moves :
      (zone_cr : String) (ch : CustomHostname) (ssl : CustomHostnameSslStatus)
      → Moves R (observe_provisioning env zone_cr ch ssl)
  unfolding observe_provisioning
  observe_provisioning-Moves zone_cr ch ssl = search rules depth 8

  pub fetch_api_token-Moves : (zone : Zone) → Moves R (fetch_api_token env zone)
  unfolding fetch_api_token
  fetch_api_token-Moves zone = search rules

  pub build_cloudflare_client-Moves :
      (r : Reconciler) (ch : CustomHostname) → Moves R (build_cloudflare_client env r ch)
  unfolding build_cloudflare_client
  build_cloudflare_client-Moves r ch = search (rules, fetch_api_token-Moves) depth 8

-- A create is counted under one of the operations for which a series was made.
pub create_op-fits :
    (ch : CustomHostname)
    → fits (Call.inc operations_total (cf_resource_custom_hostname ∷ create_op ch ∷ [])) ≡ true
create_op-fits ch = elim (Bool-cases (int32_positive ch.status.create_count)) [
  | inl again ↦ rw again refl
  | inr first ↦ rw first refl
]
