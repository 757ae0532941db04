-- ===== src/Hostname/Recorded.antt =====
-- What a reconcile records: the status that it last sent to the API server.
use cf_edge_operator.Prelude.{
  ℕ, ◌≡◌, refl, String, ◌<>◌, Bool, false, ◌==◌, not, ◌&&◌, Option, none, some, [], ◌∷◌, arith,
  if◌then◌else◌, Bool-cases, inl, inr, int32_succ,
}
use cf_edge_operator.Api.Saas.{CustomHostname}
use cf_edge_operator.Api.Cloudflare.{HostnameResponse}
use cf_edge_operator.Platform.Errors.{Result, ok, err}
use cf_edge_operator.Platform.Calls.{Call, Trace}
use cf_edge_operator.Platform.Env.{Env}
use cf_edge_operator.Platform.Action.{World, pure, call, ◌>>=◌, handle}
use cf_edge_operator.Metrics.{cf_retry, cf_resource_custom_hostname, cf_op_create, cf_op_update}
use cf_edge_operator.Ssl.{cf_state_from_list, cf_state_from_edit, has_drift}
use cf_edge_operator.Hostname.Config.{
  Reconciler, finish, condition_ready, management_policy_of, management_policy_manage,
}
use cf_edge_operator.Hostname.Status.{
  set_condition, set_error, set_ready, requeue_or_ready, clear_errors, is_active, ssl_status_of,
}
use cf_edge_operator.Hostname.Client.{ZoneInfo}
use cf_edge_operator.Hostname.Create.{new_params, create_call, created, after_create, handle_create}
use cf_edge_operator.Hostname.Update.{
  edit_params, edit_call, with_state, refresh, after_edit, update_hostname, correct_drift,
}

-- The latest status update of the trace.
abbrev pub last_status : Trace → Option CustomHostname
last_status [] = none
last_status (Call.update_status ch ∷ t) = some ch
last_status (_ ∷ t) = last_status t

-- The object with its `Ready` condition set.
abbrev pub conditioned : Env → CustomHostname → (status reason message : String) → CustomHostname
conditioned env ch status reason message = record ch {
  status = record ch.status {
    conditions = env.set_status_condition ch.status.conditions (record {
      type = condition_ready;
      status = status;
      reason = reason;
      message = message;
      observed_generation = ch.metadata.generation;
    });
  };
}

-- The object at the end of a reconcile that reached Cloudflare's state.
abbrev pub ready_object : Env → CustomHostname → CustomHostname
ready_object env ch =
    if is_active ch.status.ssl
    then conditioned env (clear_errors ch) "True" condition_ready "Custom hostname is active"
    else conditioned env (clear_errors ch) "False" "SSLPending"
        ("SSL status: " <> ssl_status_of ch.status.ssl)

abbrev pub failed_object : Env → CustomHostname → (reason message : String) → CustomHostname
failed_object env ch reason message =
    conditioned env
      (record ch {
        status = record ch.status { consecutive_errors = int32_succ ch.status.consecutive_errors };
      })
      "False" reason message

module _ (env : Env) where
  pub set_error-last_status :
      (ch : CustomHostname) (reason message : String) (w : World)
      → last_status (set_error env ch reason message w).1.trace
        ≡ some (failed_object env ch reason message)
  unfolding set_error set_condition ◌>>=◌ call pure
  set_error-last_status ch reason message w = refl

  -- A reconcile that ends in `requeueOrReady` records an object without errors whose `Ready`
  -- condition is `True` exactly when the SSL status is "active".
  pub requeue_or_ready-last_status :
      (zone_cr : String) (ch : CustomHostname) (w : World)
      → last_status (requeue_or_ready env zone_cr ch w).1.trace ≡ some (ready_object env ch)
  unfolding requeue_or_ready set_ready set_condition ◌>>=◌ call pure
  requeue_or_ready-last_status zone_cr ch w = elim (Bool-cases (is_active ch.status.ssl)) [
    | inl active ↦ rw active refl
    | inr pending ↦ rw pending refl
  ]

  -- What is recorded after a create, by its result.
  abbrev pub create_record : CustomHostname → ℕ → Result HostnameResponse → CustomHostname
  create_record ch now (ok resp) = ready_object env (created now resp ch)
  create_record ch now (err e) = failed_object env ch "CreateFailed" (env.error_text e)

  -- What is recorded after an edit, by its result.
  abbrev pub edit_record : CustomHostname → Result HostnameResponse → CustomHostname
  edit_record ch (ok resp) = ready_object env (with_state (cf_state_from_edit resp) ch)
  edit_record ch (err e) = failed_object env ch "UpdateFailed" (env.error_text e)

  module _ (r : Reconciler) (zi : ZoneInfo) (ch : CustomHostname) where
    abbrev pub create_answer : World → Result HostnameResponse
    create_answer w =
        (cf_retry env cf_resource_custom_hostname cf_op_create r.cf_api_max_retries
          (create_call env zi.client (new_params r zi ch)) w).0.1

    finish_create-last_status :
        (resp : Result HostnameResponse) (w : World)
        → (now : ℕ) × (last_status
              (handle resp
                (λ e. set_error env ch "CreateFailed" (env.error_text e) >>= λ failed.
                  pure (finish failed))
                (after_create env r zi ch)
                w).1.trace
            ≡ some (create_record ch now resp))
    unfolding after_create ◌>>=◌ pure
    finish_create-last_status (ok resp) w =
        (_, requeue_or_ready-last_status zi.cr (created _ resp ch) _)
    finish_create-last_status (err e) w =
        (0, set_error-last_status ch "CreateFailed" (env.error_text e) w)

    -- What `handleCreate` records outside a dry run, in terms of `created`.
    pub handle_create-last_status :
        (w : World)
        → r.dry_run ≡ false
        → (now : ℕ) × (last_status (handle_create env r zi ch w).1.trace
            ≡ some (create_record ch now (create_answer w)))
    unfolding handle_create ◌>>=◌
    handle_create-last_status w real = simp real (finish_create-last_status _ _)

    module _ (existing : HostnameResponse) where
      abbrev pub edit_answer : World → Result HostnameResponse
      edit_answer w =
          (cf_retry env cf_resource_custom_hostname cf_op_update r.cf_api_max_retries
            (edit_call env zi.client existing.id (edit_params r zi ch existing)) w).0.1

      finish_edit-last_status :
          (resp : Result HostnameResponse) (w : World)
          → last_status
              (handle resp
                (λ e. set_error env ch "UpdateFailed" (env.error_text e) >>= λ failed.
                  pure (finish failed))
                (after_edit env r zi ch)
                w).1.trace
            ≡ some (edit_record ch resp)
      unfolding after_edit ◌>>=◌ pure
      finish_edit-last_status (ok resp) w =
          requeue_or_ready-last_status zi.cr (with_state (cf_state_from_edit resp) ch) _
      finish_edit-last_status (err e) w =
          set_error-last_status ch "UpdateFailed" (env.error_text e) w

      update_hostname-last_status :
          (w : World)
          → last_status (update_hostname env r zi ch existing w).1.trace
            ≡ some (edit_record ch (edit_answer w))
      unfolding update_hostname ◌>>=◌
      update_hostname-last_status w = finish_edit-last_status _ _

      abbrev pub corrects : Bool
      corrects =
          has_drift existing ch
          && management_policy_of r ch == management_policy_manage
          && not r.dry_run

      -- What `reconcileCloudflareState` records for a hostname that Cloudflare has, in terms of
      -- `with_state`.
      pub correct_drift-last_status :
          (w : World)
          → last_status (correct_drift env r zi ch existing w).1.trace
            ≡ some (
                if corrects
                then edit_record ch (edit_answer w)
                else ready_object env (with_state (cf_state_from_list existing) ch))
      unfolding correct_drift refresh
      correct_drift-last_status w = ground (
        arith,
        update_hostname-last_status w,
        requeue_or_ready-last_status zi.cr (with_state (cf_state_from_list existing) ch) w,
      )
