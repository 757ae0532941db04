-- ===== src/Zone/Converges.antt =====
-- The worker and the zone controller together: a create or an edit, and the drift cycle after it.
use cf_edge_operator.Prelude.{ℕ, ◌≡◌, refl, ◌∙◌, true, false, some, not}
use cf_edge_operator.Api.Saas.{CustomHostname}
use cf_edge_operator.Api.Cloudflare.{HostnameResponse}
use cf_edge_operator.Platform.Errors.{ok}
use cf_edge_operator.Platform.Env.{Env}
use cf_edge_operator.Platform.Stored.{KeepsSeconds, as_stored, has_whole_times}
use cf_edge_operator.Platform.Action.{World}
use cf_edge_operator.Ssl.{has_drift, cf_state_from_edit, cf_state_from_new}
use cf_edge_operator.Ssl.Quiet.{changed_fields-refreshed}
use cf_edge_operator.Hostname.Config.{Reconciler}
use cf_edge_operator.Hostname.Client.{ZoneInfo}
use cf_edge_operator.Hostname.Create.{created, handle_create, new_params}
use cf_edge_operator.Hostname.Update.{with_state, correct_drift, edit_params}
use cf_edge_operator.Hostname.Recorded.{
  last_status, ready_object, create_answer, edit_answer, corrects, correct_drift-last_status,
  handle_create-last_status,
}
use cf_edge_operator.Hostname.Corrected.{
  StoresEdit, StoresNew, edit_params-has_drift, new_params-has_drift,
}
use cf_edge_operator.Zone.Drift.{enqueues_known}
use cf_edge_operator.Zone.Settled.{ready_object-enqueues}

module _ (env : Env) (keeps : KeepsSeconds env) where
  edited-settled :
      (ch : CustomHostname) (resp : HostnameResponse)
      → has_drift resp ch ≡ false
      → enqueues_known env
          (as_stored env (ready_object env (with_state (cf_state_from_edit resp) ch)))
          resp
        ≡ not (has_whole_times resp.ssl)
  unfolding with_state cf_state_from_edit has_drift
  edited-settled ch resp no_drift =
      ready_object-enqueues env (with_state (cf_state_from_edit resp) ch) resp no_drift refl
      ∙ (changed_fields-refreshed env keeps resp).2

  created-settled :
      (now : ℕ) (ch : CustomHostname) (resp : HostnameResponse)
      → has_drift resp ch ≡ false
      → enqueues_known env (as_stored env (ready_object env (created now resp ch))) resp
        ≡ not (has_whole_times resp.ssl)
  unfolding created cf_state_from_new has_drift
  created-settled now ch resp no_drift =
      ready_object-enqueues env (created now resp ch) resp no_drift refl
      ∙ (changed_fields-refreshed env keeps resp).1

  module _ (r : Reconciler) (zi : ZoneInfo) (ch : CustomHostname) (resp : HostnameResponse) where
    -- If drift is corrected, the edit succeeds and its response has the values that were sent, the
    -- recorded object, once it is stored, is enqueued again by a drift cycle that lists the hostname
    -- of that response exactly if a time of its certificate is not in whole seconds, which is what
    -- a stored time keeps.
    pub correct_drift-converges :
        (existing : HostnameResponse) (w : World)
        → corrects env r zi ch existing ≡ true
        → edit_answer env r zi ch existing w ≡ ok resp
        → StoresEdit (edit_params r zi ch existing) resp
        → (ch' : CustomHostname) × (last_status (correct_drift env r zi ch existing w).1.trace
            ≡ some ch')
          × (enqueues_known env (as_stored env ch') resp ≡ not (has_whole_times resp.ssl))
    correct_drift-converges existing w drifted answered stored = (
      ready_object env (with_state (cf_state_from_edit resp) ch),
      correct_drift-last_status env r zi ch existing w ∙ rw (drifted, answered) refl,
      edited-settled ch resp (edit_params-has_drift r zi ch resp existing stored),
    )

    -- If a create succeeds outside a dry run and its response has the values that were sent, the
    -- recorded object, once it is stored, is enqueued again by a drift cycle that lists the hostname
    -- of that response exactly if a time of its certificate is not in whole seconds, which is what
    -- a stored time keeps.
    pub handle_create-converges :
        (w : World)
        → r.dry_run ≡ false
        → create_answer env r zi ch w ≡ ok resp
        → StoresNew (new_params r zi ch) resp
        → (ch' : CustomHostname) × (last_status (handle_create env r zi ch w).1.trace ≡ some ch')
          × (enqueues_known env (as_stored env ch') resp ≡ not (has_whole_times resp.ssl))
    handle_create-converges w real answered stored =
        let (now, recorded) = handle_create-last_status env r zi ch w real in
        (
          ready_object env (created now resp ch),
          recorded ∙ rw answered refl,
          created-settled now ch resp (new_params-has_drift r zi ch resp stored),
        )
