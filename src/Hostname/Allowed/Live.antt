-- ===== src/Hostname/Allowed/Live.antt =====
-- The calls of a reconcile of a live object: create, edit, adoption, and the checks before them.
use cf_edge_operator.Prelude.{◌≡◌, not, refl, String, true, false, ◌==◌, ◌!=◌}
use cf_edge_operator.Api.Saas.{CustomHostname}
use cf_edge_operator.Api.Cloudflare.{HostnameResponse, CfClient, NewParams, EditParams}
use cf_edge_operator.Platform.Calls.{Call}
use cf_edge_operator.Platform.Env.{Env}
use cf_edge_operator.Platform.Action.{World}
use cf_edge_operator.Platform.Moves.{Progress, Moves, Allows, Moves-if, Moves-bind, moves_rules}
use cf_edge_operator.Platform.State.{state_rules}
use cf_edge_operator.Metrics.Allowed.{
  AllowsMetrics, inc_allowed, record_cf_call-Moves, cf_retry-Moves,
}
use cf_edge_operator.Hostname.Config.{
  Reconciler, management_policy_of, management_policy_manage, management_policy_observe,
}
use cf_edge_operator.Hostname.Client.{ZoneInfo}
use cf_edge_operator.Hostname.Create.{new_params, create_call, handle_create}
use cf_edge_operator.Hostname.Update.{
  edit_params, edit_call, update_hostname, correct_drift, adopt, reconcile_existing,
  reconcile_missing, reconcile_cloudflare_state,
}
use cf_edge_operator.Hostname.Delete.{has_finalizer}
use cf_edge_operator.Hostname.Reconcile.{
  origin_not_in_zone, add_finalizer, reconcile_owned, reconcile_in_zone, reconcile_live,
}
use cf_edge_operator.Hostname.Allowed.{
  is_plain, AllowsReads, pace_write-Moves, build_cloudflare_client-Moves,
}
use cf_edge_operator.Hostname.Allowed.Saves.{
  set_condition-Moves, set_error-Moves, detect_conflict-Moves, requeue_or_ready-Moves,
  release_finalizer-Moves,
}
use cf_edge_operator.Hostname.Allowed.Search.{lookup-Moves}
use cf_edge_operator.Hostname.Allowed.Ends.{
  after_create-Moves, after_edit-Moves, refresh-Moves, count_adoption-Moves,
}

module _ {R : World → World → Type 0} {env : Env} (allow : AllowsReads true true R env) where
  chained : Progress R
  chained = allow.progress

  allowed : (c : Call) → is_plain true true c ≡ true → Allows R c
  allowed = allow.plain

  metrics_allowed : AllowsMetrics R env
  metrics_allowed = allow.metrics

  ruleset rules = (
    moves_rules, chained, state_rules, allowed, refl, metrics_allowed, inc_allowed,
    record_cf_call-Moves, cf_retry-Moves,
  )

  ruleset steps = (
    rules, pace_write-Moves, set_condition-Moves, set_error-Moves, requeue_or_ready-Moves,
    lookup-Moves, release_finalizer-Moves, build_cloudflare_client-Moves, detect_conflict-Moves,
  )

  pub create_call-Moves :
      (client : CfClient) (params : NewParams)
      → Allows R (Call.cf_new client params)
      → Moves R (create_call env client params)
  unfolding create_call
  create_call-Moves client params q = search rules depth 8

  handle_create-Moves :
      (r : Reconciler) (zi : ZoneInfo) (ch : CustomHostname)
      → (r.dry_run ≡ false → Allows R (Call.cf_new zi.client (new_params r zi ch)))
      → Moves R (handle_create env r zi ch)
  unfolding handle_create
  handle_create-Moves r zi ch q = search (steps, create_call-Moves, after_create-Moves) depth 10

  pub edit_call-Moves :
      (client : CfClient) (id : String) (params : EditParams)
      → Allows R (Call.cf_edit client id params)
      → Moves R (edit_call env client id params)
  unfolding edit_call
  edit_call-Moves client id params q = search rules depth 8

  update_hostname-Moves :
      (r : Reconciler) (zi : ZoneInfo) (ch : CustomHostname) (existing : HostnameResponse)
      → Allows R (Call.cf_edit zi.client existing.id (edit_params r zi ch existing))
      → Moves R (update_hostname env r zi ch existing)
  unfolding update_hostname
  update_hostname-Moves r zi ch existing q =
      search (steps, edit_call-Moves, after_edit-Moves) depth 10

  correct_drift-Moves :
      (r : Reconciler) (zi : ZoneInfo) (ch : CustomHostname) (existing : HostnameResponse)
      → ((management_policy_of r ch != management_policy_manage) ≡ false
          → r.dry_run ≡ false
          → Allows R (Call.cf_edit zi.client existing.id (edit_params r zi ch existing)))
      → Moves R (correct_drift env r zi ch existing)
  unfolding correct_drift
  correct_drift-Moves r zi ch existing q =
      search (steps, refresh-Moves, update_hostname-Moves) depth 10

  -- What the predicate must allow of the writes of a live object, past the checks on it.
  pub record AllowsOwned (r : Reconciler) (ch : CustomHostname) (zi : ZoneInfo) : Type 0 where
    pub create :
        (management_policy_of r ch == management_policy_observe) ≡ false
        → r.dry_run ≡ false
        → Allows R (Call.cf_new zi.client (new_params r zi ch))
    pub edit :
        (existing : HostnameResponse)
        → (management_policy_of r ch != management_policy_manage) ≡ false
        → r.dry_run ≡ false
        → Allows R (Call.cf_edit zi.client existing.id (edit_params r zi ch existing))

  -- The checks are that the origin belongs to the zone, and that the object holds the finalizer.
  abbrev pub AllowsLive : (r : Reconciler) (ch : CustomHostname) → Type 0
  AllowsLive r ch =
      (zi : ZoneInfo)
      → origin_not_in_zone zi ch ≡ false
      → not (has_finalizer env ch) ≡ false
      → AllowsOwned r ch zi

  pub reconcile_existing-Moves :
      (r : Reconciler) (ch : CustomHostname) (zi : ZoneInfo) (existing : HostnameResponse)
      → ((management_policy_of r ch != management_policy_manage) ≡ false
          → r.dry_run ≡ false
          → Allows R (Call.cf_edit zi.client existing.id (edit_params r zi ch existing)))
      → Moves R (reconcile_existing env r zi ch existing)
  unfolding reconcile_existing adopt edit_params
  reconcile_existing-Moves r ch zi existing q =
      Moves-bind chained _ _ (count_adoption-Moves allow ch existing)
        λ _. correct_drift-Moves r zi (adopt ch existing) existing q

  module _ (r : Reconciler) (ch : CustomHostname) (zi : ZoneInfo) (q : AllowsOwned r ch zi) where
    reconcile_missing-Moves : Moves R (reconcile_missing env r zi ch)
    unfolding reconcile_missing
    reconcile_missing-Moves = search (steps, handle_create-Moves, q.create) depth 8

    reconcile_cloudflare_state-Moves : Moves R (reconcile_cloudflare_state env r zi ch)
    unfolding reconcile_cloudflare_state
    reconcile_cloudflare_state-Moves =
        search (steps, reconcile_existing-Moves, q.edit, reconcile_missing-Moves) depth 10

    reconcile_owned-Moves : Moves R (reconcile_owned env r zi ch)
    unfolding reconcile_owned
    reconcile_owned-Moves = search (steps, reconcile_cloudflare_state-Moves) depth 8

  add_finalizer-Moves : (ch : CustomHostname) → Moves R (add_finalizer env ch)
  unfolding add_finalizer
  add_finalizer-Moves ch = search steps

  reconcile_in_zone-Moves :
      (r : Reconciler) (ch : CustomHostname) (zi : ZoneInfo)
      → AllowsLive r ch
      → Moves R (reconcile_in_zone env r zi ch)
  unfolding reconcile_in_zone
  reconcile_in_zone-Moves r ch zi q =
      Moves-if _ _ _ (λ _. search steps)
        λ in_zone.
          Moves-if _ _ _ (λ _. add_finalizer-Moves ch)
            λ held. reconcile_owned-Moves r ch zi (q zi in_zone held)

  pub reconcile_live-Moves :
      (r : Reconciler) (ch : CustomHostname) → AllowsLive r ch → Moves R (reconcile_live env r ch)
  unfolding reconcile_live
  reconcile_live-Moves r ch q = search (steps, reconcile_in_zone-Moves) depth 8
