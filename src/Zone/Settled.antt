-- ===== src/Zone/Settled.antt =====
-- When the zone controller leaves a custom resource alone, after what the worker recorded.
use cf_edge_operator.Prelude.{◌≡◌, inl, inr, refl, ◌∙◌, false, eq_iff, some, arith, Bool-cases, not}
use cf_edge_operator.Api.Saas.{CustomHostname}
use cf_edge_operator.Api.Cloudflare.{HostnameResponse}
use cf_edge_operator.Platform.Env.{Env}
use cf_edge_operator.Platform.Stored.{KeepsSeconds, stored_ssl, as_stored, has_whole_times}
use cf_edge_operator.Platform.Action.{World}
use mathlib.Core.Option
use cf_edge_operator.Ssl.{has_drift, cf_state_from_list}
use cf_edge_operator.Ssl.StatusChange.{ssl_status_changed_fields}
use cf_edge_operator.Ssl.Quiet.{changed_fields-refreshed}
use cf_edge_operator.Hostname.Config.{Reconciler}
use cf_edge_operator.Hostname.Status.{is_active}
use cf_edge_operator.Hostname.Client.{ZoneInfo}
use cf_edge_operator.Hostname.Update.{with_state, correct_drift}
use cf_edge_operator.Hostname.Recorded.{last_status, ready_object, correct_drift-last_status}
use cf_edge_operator.Zone.Drift.{is_changed, enqueues_known}

module _ (env : Env) (ch : CustomHostname) (cf : HostnameResponse) where
  -- Without drift, a new hostname status or errors, a stored object is enqueued exactly for a change
  -- of its SSL status.
  pub ready_object-enqueues :
      has_drift cf ch ≡ false
      → cf.status ≡ ch.status.hostname_status
      → enqueues_known env (as_stored env (ready_object env ch)) cf
        ≡ is_changed
            (ssl_status_changed_fields env (Option.map (stored_ssl env) ch.status.ssl) cf.ssl)
  unfolding enqueues_known has_drift
  ready_object-enqueues no_drift same_status = elim (Bool-cases (is_active ch.status.ssl)) [
    | inl active ↦ rw active (ground (arith, eq_iff cf.status ch.status.hostname_status))
    | inr pending ↦ rw pending (ground (arith, eq_iff cf.status ch.status.hostname_status))
  ]

module _ (env : Env) (ch : CustomHostname) (cf : HostnameResponse) where
  abbrev refreshed : CustomHostname
  refreshed = with_state (cf_state_from_list cf) ch

  refreshed-enqueues :
      KeepsSeconds env
      → has_drift cf ch ≡ false
      → enqueues_known env (as_stored env (ready_object env refreshed)) cf
        ≡ not (has_whole_times cf.ssl)
  unfolding with_state cf_state_from_list has_drift
  refreshed-enqueues keeps no_drift =
      ready_object-enqueues env refreshed cf no_drift refl
      ∙ (changed_fields-refreshed env keeps cf).0

-- If a stored time keeps its whole seconds, a reconcile of a hostname without drift records an
-- object that, once it is stored, a drift cycle over the same Cloudflare state enqueues again
-- exactly if a time of the certificate is not in whole seconds.
pub correct_drift-settled :
    (env : Env) (r : Reconciler) (zi : ZoneInfo) (ch : CustomHostname) (cf : HostnameResponse)
    (w : World)
    → KeepsSeconds env
    → has_drift cf ch ≡ false
    → (ch' : CustomHostname) × (last_status (correct_drift env r zi ch cf w).1.trace ≡ some ch')
      × (enqueues_known env (as_stored env ch') cf ≡ not (has_whole_times cf.ssl))
correct_drift-settled env r zi ch cf w keeps no_drift = (
  ready_object env (refreshed env ch cf),
  correct_drift-last_status env r zi ch cf w ∙ ground (arith, no_drift),
  refreshed-enqueues env ch cf keeps no_drift,
)
