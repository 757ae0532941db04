-- ===== src/Hostname/Plan/Live.antt =====
-- `reconcileCloudflareState` against the plan for a live resource.
use mathlib.Core.Path.{subst}
use cf_edge_operator.Prelude.{
  ◌+◌, ◌≡◌, refl, String, ◌==◌, ◌!=◌, not, ◌&&◌, Bool, true, false, Option, none, some,
  if◌then◌else◌,
}
use cf_edge_operator.Api.Saas.{CustomHostname}
use cf_edge_operator.Api.Cloudflare.{HostnameResponse}
use cf_edge_operator.Platform.Errors.{ok}
use cf_edge_operator.Platform.Calls.{Call}
use cf_edge_operator.Platform.Env.{Env}
use cf_edge_operator.Platform.Action.{World, pure, ◌>>=◌, either}
use cf_edge_operator.Platform.Emits.{Emits, ByCalls-Progress}
use cf_edge_operator.Platform.Moves.{Moves-bind, Moves-pure, Moves-handle}
use cf_edge_operator.Metrics.{cf_resource_custom_hostname, cf_op_create, cf_op_update, cf_retry}
use cf_edge_operator.Ssl.{has_drift}
use cf_edge_operator.Hostname.Config.{
  Reconciler, finish, error_of, management_policy_of, management_policy_manage,
  management_policy_observe,
}
use cf_edge_operator.Hostname.Status.{set_condition, set_error}
use cf_edge_operator.Hostname.Client.{ZoneInfo, lookup}
use cf_edge_operator.Hostname.Create.{create_call, handle_create, new_params}
use cf_edge_operator.Hostname.Update.{
  edit_params, edit_call, update_hostname, correct_drift, adopt, count_adoption, reconcile_existing,
  reconcile_missing, reconcile_cloudflare_state,
}
use cf_edge_operator.Hostname.Allowed.{reads_emit}
use cf_edge_operator.Hostname.Allowed.Saves.{set_condition-Moves, set_error-Moves}
use cf_edge_operator.Hostname.Allowed.Search.{lookup-Moves}
use cf_edge_operator.Hostname.Allowed.Ends.{
  after_create-Moves, after_edit-Moves, refresh-Moves, count_adoption-Moves,
}
use cf_edge_operator.Hostname.Plan.{Plan, CarriesOut, live_plan, NoWrite, reads_allowed}
use cf_edge_operator.Hostname.Plan.Writes.{
  rests, CarriesOut-then, CarriesOut-after, CarriesOut-if, cf_retry-CarriesOut,
}

module _ (env : Env) where
  condition-NoWrite :
      (ch : CustomHostname) (status reason message : String)
      → Emits NoWrite (set_condition env ch status reason message >>= λ e. pure (finish e))
  condition-NoWrite ch status reason message =
      Moves-bind (ByCalls-Progress NoWrite) _ _
        (set_condition-Moves (reads_emit reads_allowed env) ch status reason message)
        λ e. Moves-pure (ByCalls-Progress NoWrite) _

  error-NoWrite :
      (ch : CustomHostname) (reason message : String)
      → Emits NoWrite (set_error env ch reason message >>= λ e. pure (finish e))
  error-NoWrite ch reason message =
      Moves-bind (ByCalls-Progress NoWrite) _ _
        (set_error-Moves (reads_emit reads_allowed env) ch reason message)
        λ e. Moves-pure (ByCalls-Progress NoWrite) _

-- The tests of the code one by one, and those of the plan together.
ladder :
    (drift manages dry : Bool) (plan : Plan)
    → (if drift
        then (if not manages then Plan.rest else if dry then Plan.rest else plan)
        else Plan.rest)
      ≡ (if drift && manages && not dry then plan else Plan.rest)
ladder true true true plan = refl
ladder true true false plan = refl
ladder true false dry plan = refl
ladder false manages dry plan = refl

module _ (env : Env) (r : Reconciler) (zi : ZoneInfo) (ch : CustomHostname) where
  create_sent :
      (w : World)
      → CarriesOut
          (Plan.send (Call.cf_new zi.client (new_params r zi ch)))
          (r.cf_api_max_retries + 1)
          w.trace
          (cf_retry env cf_resource_custom_hostname cf_op_create r.cf_api_max_retries
            (create_call env zi.client (new_params r zi ch))
            w).1.trace
  unfolding create_call
  create_sent w =
      cf_retry-CarriesOut env cf_resource_custom_hostname cf_op_create _
        (λ t. env.cf_new t zi.client (new_params r zi ch)) error_of (λ resp. resp)
        r.cf_api_max_retries w refl refl refl

  handle_create-CarriesOut :
      (w : World)
      → CarriesOut
          (if r.dry_run then Plan.rest else Plan.send (Call.cf_new zi.client (new_params r zi ch)))
          (r.cf_api_max_retries + 1)
          w.trace
          (handle_create env r zi ch w).1.trace
  unfolding handle_create ◌>>=◌
  handle_create-CarriesOut w =
      let out =
        cf_retry env cf_resource_custom_hostname cf_op_create r.cf_api_max_retries
          (create_call env zi.client (new_params r zi ch)) w in
      CarriesOut-if r.dry_run _ _ _ _ _ w (λ dry. rests ((condition-NoWrite env _ _ _ _).at w))
        λ real. CarriesOut-then _ (create_sent w) (
          (Moves-handle out.0.1 _ _ (λ e _. error-NoWrite env ch "CreateFailed" (env.error_text e))
              (λ resp _. after_create-Moves (reads_emit reads_allowed env) r zi ch resp)).at
            out.1)

  reconcile_missing-CarriesOut :
      (w : World)
      → CarriesOut
          (live_plan r zi ch none)
          (r.cf_api_max_retries + 1)
          w.trace
          (reconcile_missing env r zi ch w).1.trace
  unfolding reconcile_missing
  reconcile_missing-CarriesOut w =
      CarriesOut-if (management_policy_of r ch == management_policy_observe) _ _ _ _ _ w
        (λ observes. rests ((condition-NoWrite env _ _ _ _).at w))
        λ creates. handle_create-CarriesOut w

  update_hostname-CarriesOut :
      (existing : HostnameResponse) (w : World)
      → CarriesOut
          (Plan.send (Call.cf_edit zi.client existing.id (edit_params r zi ch existing)))
          (r.cf_api_max_retries + 1)
          w.trace
          (update_hostname env r zi ch existing w).1.trace
  unfolding update_hostname edit_call ◌>>=◌
  update_hostname-CarriesOut existing w =
      let params = edit_params r zi ch existing in
      let out =
        cf_retry env cf_resource_custom_hostname cf_op_update r.cf_api_max_retries
          (edit_call env zi.client existing.id params) w in
      CarriesOut-then _
        (cf_retry-CarriesOut env cf_resource_custom_hostname cf_op_update _
          (λ t. env.cf_edit t zi.client existing.id params) error_of (λ resp. resp)
          r.cf_api_max_retries w refl refl refl)
        ((Moves-handle out.0.1 _ _ (λ e _. error-NoWrite env ch "UpdateFailed" (env.error_text e))
            (λ resp _. after_edit-Moves (reads_emit reads_allowed env) r zi ch resp)).at
          out.1)

  correct_drift-CarriesOut :
      (existing : HostnameResponse) (w : World)
      → CarriesOut
          (live_plan r zi ch (some existing))
          (r.cf_api_max_retries + 1)
          w.trace
          (correct_drift env r zi ch existing w).1.trace
  unfolding correct_drift
  correct_drift-CarriesOut existing w =
      let refreshed = rests ((refresh-Moves (reads_emit reads_allowed env) zi ch existing).at w) in
      subst
        (λ plan.
          CarriesOut plan (r.cf_api_max_retries + 1) w.trace
            (correct_drift env r zi ch existing w).1.trace)
        (ladder (has_drift existing ch) (management_policy_of r ch == management_policy_manage)
          r.dry_run _)
        (CarriesOut-if (has_drift existing ch) _ _ _ _ _ w
          (λ drift.
            CarriesOut-if (management_policy_of r ch != management_policy_manage) _ _ _ _ _ w
              (λ observes. refreshed)
              λ manages.
                CarriesOut-if r.dry_run _ _ _ _ _ w (λ dry. refreshed)
                  λ real. update_hostname-CarriesOut existing w)
          (λ same. refreshed))

module _ (env : Env) (r : Reconciler) (zi : ZoneInfo) (ch : CustomHostname) where
  reconcile_existing-CarriesOut :
      (existing : HostnameResponse) (w : World)
      → CarriesOut
          (live_plan r zi ch (some existing))
          (r.cf_api_max_retries + 1)
          w.trace
          (reconcile_existing env r zi ch existing w).1.trace
  unfolding reconcile_existing adopt has_drift edit_params ◌>>=◌
  reconcile_existing-CarriesOut existing w =
      CarriesOut-after (live_plan r zi ch (some existing))
        ((count_adoption-Moves (reads_emit reads_allowed env) ch existing).at w)
        (correct_drift-CarriesOut env r zi (adopt ch existing) existing
          (count_adoption ch existing w).1)

  after_lookup-CarriesOut :
      (found : Option HostnameResponse) (w : World)
      → CarriesOut
          (live_plan r zi ch found)
          (r.cf_api_max_retries + 1)
          w.trace
          (either found (reconcile_missing env r zi ch) (reconcile_existing env r zi ch) w).1.trace
  after_lookup-CarriesOut none w = reconcile_missing-CarriesOut env r zi ch w
  after_lookup-CarriesOut (some existing) w = reconcile_existing-CarriesOut existing w

  -- If the lookup of the hostname is answered, the worker carries out the plan for what was found.
  -- Where the plan is to create or to edit the hostname, it sends the planned request at least
  -- once, and at most once more than it has retries. It makes no other write to Cloudflare, and
  -- none at all where the plan is to rest: under the policies, in a dry run, or without drift.
  pub reconcile_cloudflare_state-refines :
      (found : Option HostnameResponse) (w : World)
      → (lookup env r zi.client zi.id ch.spec.hostname w).0.1 ≡ ok found
      → CarriesOut
          (live_plan r zi ch found)
          (r.cf_api_max_retries + 1)
          w.trace
          (reconcile_cloudflare_state env r zi ch w).1.trace
  unfolding reconcile_cloudflare_state ◌>>=◌
  reconcile_cloudflare_state-refines found w answered =
      let looked_up = lookup env r zi.client zi.id ch.spec.hostname w in
      CarriesOut-after (live_plan r zi ch found)
        ((lookup-Moves (reads_emit reads_allowed env) r zi.client zi.id ch.spec.hostname).at w)
        (rw answered (after_lookup-CarriesOut found looked_up.1))
