-- ===== src/Hostname/Endings/Live.antt =====
-- How a reconcile of a live object ends.
use cf_edge_operator.Prelude.{
  ◌≡◌, refl, String, Bool, true, false, Option, none, some, List, ◌∷◌, if◌then◌else◌,
}
use mathlib.Core.Option
use cf_edge_operator.Api.Saas.{CustomHostname}
use cf_edge_operator.Api.Cloudflare.{HostnameResponse}
use cf_edge_operator.Platform.Errors.{Err, Result, ok, err}
use cf_edge_operator.Platform.Calls.{Call, Trace}
use cf_edge_operator.Platform.Env.{Env}
use cf_edge_operator.Platform.Action.{World, Action, pure, call, ◌>>=◌, handle, either}
use cf_edge_operator.Platform.Moves.{Progress, moves_rules}
use cf_edge_operator.Platform.State.{state_rules}
use cf_edge_operator.Platform.Emits.{ByCalls, same, more}
use cf_edge_operator.Metrics.Allowed.{AllowsMetrics, inc_allowed, cf_retry-Moves}
use cf_edge_operator.Hostname.Config.{
  Reconciler, Outcome, finish, condition_ready, reason_hostname_conflict,
}
use cf_edge_operator.Hostname.Status.{
  set_condition, set_conflict, set_error, find_owner, check_peers, detect_conflict, set_ready,
  requeue_or_ready,
}
use cf_edge_operator.Hostname.Client.{ZoneInfo}
use cf_edge_operator.Hostname.Create.{created, after_create, handle_create}
use cf_edge_operator.Hostname.Update.{
  with_state, refresh, after_edit, update_hostname, correct_drift, adopt, count_adoption,
  reconcile_existing, reconcile_missing, reconcile_cloudflare_state,
}
use cf_edge_operator.Hostname.Recorded.{conditioned}
use cf_edge_operator.Hostname.Reconcile.{
  with_finalizer, add_finalizer, reconcile_owned, reconcile_in_zone, reconcile_live,
}
use cf_edge_operator.Hostname.Allowed.{
  create_op-fits, AllowsReads, pace_write-Moves, observe_provisioning-Moves,
  build_cloudflare_client-Moves,
}
use cf_edge_operator.Hostname.Allowed.Search.{lookup-Moves}
use cf_edge_operator.Hostname.Endings.{
  NoSave, requeued, Alike, IsReport, Ends, refused, finalized, reported, Ends-later, EndsIn,
  EndsIn-fail, EndsIn-after, EndsIn-if, EndsIn-handle, EndsIn-either,
}
use cf_edge_operator.Hostname.Endings.Quiet.{saves_nothing, create_call-NoSave, edit_call-NoSave}

module _ (env : Env) (ch : CustomHostname) (live : ch.metadata.deletion_timestamp ≡ none) where
  quiet : AllowsReads true false (ByCalls NoSave) env
  quiet = saves_nothing env

  chained : Progress (ByCalls NoSave)
  chained = quiet.progress

  metrics : AllowsMetrics (ByCalls NoSave) env
  metrics = quiet.metrics

  -- The answer to the update of the status.
  answered :
      {t : Trace} (f : Err → Err) (saved : CustomHostname) (answer : Option Err)
      → env.update_status t saved ≡ answer
      → IsReport env ch saved
      → Ends env ch t (finish (Option.map f answer)) (Call.update_status saved ∷ t)
  answered f saved none e r = reported saved same live r e
  answered f saved (some x) e r = refused (Call.update_status saved) (f x) same refl (rw e refl)

  conditioned-IsReport :
      (ch' : CustomHostname) (status reason message : String)
      → Alike ch ch'
      → IsReport env ch (conditioned env ch' status reason message)
  conditioned-IsReport ch' status reason message (m, s, c) = record {
    metadata = m;
    spec = s;
    condition = record {
      type = condition_ready;
      status = status;
      reason = reason;
      message = message;
      observed_generation = ch'.metadata.generation;
    };
    of_ready = refl;
    observed = rw m refl;
    conditions = rw c refl;
  }

  set_condition-EndsIn :
      (ch' : CustomHostname) (status reason message : String)
      → Alike ch ch'
      → EndsIn env ch (set_condition env ch' status reason message >>= λ e. pure (finish e))
  unfolding set_condition ◌>>=◌ call pure
  set_condition-EndsIn ch' status reason message like = record {
    at = λ w. answered _ _ _ refl (conditioned-IsReport ch' status reason message like);
  }

  set_error-EndsIn :
      (ch' : CustomHostname) (reason message : String)
      → Alike ch ch'
      → EndsIn env ch (set_error env ch' reason message >>= λ e. pure (finish e))
  unfolding set_error
  set_error-EndsIn ch' reason message like = set_condition-EndsIn _ "False" reason message like

  ruleset rules = (
    moves_rules, chained, state_rules, metrics, inc_allowed, quiet, EndsIn-if, EndsIn-after,
    EndsIn-handle, EndsIn-either, EndsIn-fail, set_condition-EndsIn, set_error-EndsIn,
    pace_write-Moves, observe_provisioning-Moves,
  )

  requeue_or_ready-EndsIn :
      (zone_cr : String) (ch' : CustomHostname)
      → Alike ch ch'
      → EndsIn env ch (requeue_or_ready env zone_cr ch')
  unfolding requeue_or_ready set_ready
  requeue_or_ready-EndsIn zone_cr ch' like = search rules depth 8

  after_create-EndsIn :
      (r : Reconciler) (zi : ZoneInfo) (resp : HostnameResponse)
      → EndsIn env ch (after_create env r zi ch resp)
  unfolding after_create created
  after_create-EndsIn r zi resp = search (rules, create_op-fits, requeue_or_ready-EndsIn) depth 12

  handle_create-EndsIn :
      (r : Reconciler) (zi : ZoneInfo) → EndsIn env ch (handle_create env r zi ch)
  unfolding handle_create
  handle_create-EndsIn r zi =
      search (rules, cf_retry-Moves, create_call-NoSave, after_create-EndsIn) depth 12

  after_edit-EndsIn :
      (r : Reconciler) (zi : ZoneInfo) (ch' : CustomHostname) (resp : HostnameResponse)
      → Alike ch ch'
      → EndsIn env ch (after_edit env r zi ch' resp)
  unfolding after_edit with_state
  after_edit-EndsIn r zi ch' resp like = search (rules, requeue_or_ready-EndsIn) depth 12

  update_hostname-EndsIn :
      (r : Reconciler) (zi : ZoneInfo) (ch' : CustomHostname) (existing : HostnameResponse)
      → Alike ch ch'
      → EndsIn env ch (update_hostname env r zi ch' existing)
  unfolding update_hostname
  update_hostname-EndsIn r zi ch' existing like =
      search (rules, cf_retry-Moves, edit_call-NoSave, after_edit-EndsIn) depth 12

  refresh-EndsIn :
      (zi : ZoneInfo) (ch' : CustomHostname) (existing : HostnameResponse)
      → Alike ch ch'
      → EndsIn env ch (refresh env zi ch' existing)
  unfolding refresh with_state
  refresh-EndsIn zi ch' existing like = search (rules, requeue_or_ready-EndsIn) depth 12

  correct_drift-EndsIn :
      (r : Reconciler) (zi : ZoneInfo) (ch' : CustomHostname) (existing : HostnameResponse)
      → Alike ch ch'
      → EndsIn env ch (correct_drift env r zi ch' existing)
  unfolding correct_drift
  correct_drift-EndsIn r zi ch' existing like =
      search (rules, refresh-EndsIn, update_hostname-EndsIn) depth 8

  reconcile_existing-EndsIn :
      (r : Reconciler) (zi : ZoneInfo) (existing : HostnameResponse)
      → EndsIn env ch (reconcile_existing env r zi ch existing)
  unfolding reconcile_existing count_adoption adopt
  reconcile_existing-EndsIn r zi existing = search (rules, correct_drift-EndsIn) depth 8

  reconcile_missing-EndsIn :
      (r : Reconciler) (zi : ZoneInfo) → EndsIn env ch (reconcile_missing env r zi ch)
  unfolding reconcile_missing
  reconcile_missing-EndsIn r zi = search (rules, handle_create-EndsIn) depth 8

  reconcile_cloudflare_state-EndsIn :
      (r : Reconciler) (zi : ZoneInfo) → EndsIn env ch (reconcile_cloudflare_state env r zi ch)
  unfolding reconcile_cloudflare_state
  reconcile_cloudflare_state-EndsIn r zi =
      search (rules, lookup-Moves, reconcile_existing-EndsIn, reconcile_missing-EndsIn) depth 10

  -- `Reconcile` after the answer of `detectConflict`.
  abbrev after_conflict : Reconciler → ZoneInfo → Bool × Option Err → Action Outcome
  after_conflict r zi (conflicted, e) =
      either e (if conflicted then pure (finish none) else reconcile_cloudflare_state env r zi ch)
        (λ x. pure (finish (some x)))

  conflict_answered :
      (r : Reconciler) (zi : ZoneInfo) (w : World) (f : Err → Err) (saved : CustomHostname)
      (answer : Option Err)
      → env.update_status w.trace saved ≡ answer
      → IsReport env ch saved
      → let w' : World = record w { trace = Call.update_status saved ∷ w.trace } in
        let out = after_conflict r zi (true, Option.map f answer) w' in
        Ends env ch w.trace out.0 out.1.trace
  unfolding pure
  conflict_answered r zi w f saved none e report = reported saved same live report e
  conflict_answered r zi w f saved (some x) e report =
      refused (Call.update_status saved) (f x) same refl (rw e refl)

  check_peers-EndsIn :
      (r : Reconciler) (zi : ZoneInfo) (owner : Option CustomHostname)
      → EndsIn env ch (check_peers env ch owner >>= after_conflict r zi)
  unfolding check_peers set_conflict set_condition ◌>>=◌ call pure
  check_peers-EndsIn r zi none = record { at = λ w. (reconcile_cloudflare_state-EndsIn r zi).at w }
  check_peers-EndsIn r zi (some peer) = record {
    at = λ w.
        conflict_answered r zi w _ _ _ refl
          (conditioned-IsReport ch "False" reason_hostname_conflict _ (refl, refl, refl));
  }

  peers-EndsIn :
      (r : Reconciler) (zi : ZoneInfo) (peers : Result (List CustomHostname))
      → EndsIn env ch (
          handle peers
            (λ e. pure (false, some e))
            (λ items. check_peers env ch (find_owner ch items))
          >>= after_conflict r zi)
  unfolding ◌>>=◌ pure
  peers-EndsIn r zi (ok items) = check_peers-EndsIn r zi (find_owner ch items)
  peers-EndsIn r zi (err e) = EndsIn-fail e

  reconcile_owned-EndsIn :
      (r : Reconciler) (zi : ZoneInfo) → EndsIn env ch (reconcile_owned env r zi ch)
  unfolding reconcile_owned detect_conflict ◌>>=◌ call
  reconcile_owned-EndsIn r zi = record {
    at = λ w. Ends-later (more same refl) ((peers-EndsIn r zi _).at _);
  }

  add_answered :
      (w : World) (answer : Option Err)
      → env.update w.trace (with_finalizer env ch) ≡ answer
      → let w' : World = record w { trace = Call.update (with_finalizer env ch) ∷ w.trace } in
        let out = either answer (pure requeued) (λ x. pure (finish (some x))) w' in
        Ends env ch w.trace out.0 out.1.trace
  unfolding pure
  add_answered w none e = finalized same live e
  add_answered w (some x) e = refused (Call.update (with_finalizer env ch)) x same refl (rw e refl)

  add_finalizer-EndsIn : EndsIn env ch (add_finalizer env ch)
  unfolding add_finalizer ◌>>=◌ call
  add_finalizer-EndsIn = record { at = λ w. add_answered w _ refl }

  reconcile_in_zone-EndsIn :
      (r : Reconciler) (zi : ZoneInfo) → EndsIn env ch (reconcile_in_zone env r zi ch)
  unfolding reconcile_in_zone
  reconcile_in_zone-EndsIn r zi =
      search (rules, add_finalizer-EndsIn, reconcile_owned-EndsIn) depth 8

  pub reconcile_live-EndsIn : (r : Reconciler) → EndsIn env ch (reconcile_live env r ch)
  unfolding reconcile_live
  reconcile_live-EndsIn r =
      search (rules, build_cloudflare_client-Moves, reconcile_in_zone-EndsIn) depth 8
