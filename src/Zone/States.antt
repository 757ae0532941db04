-- ===== src/Zone/States.antt =====
-- Conditions after an update, and what the two controllers read from them.
use cf_edge_operator.Prelude.{
  ℕ, ◌≡◌, ◌≢◌, inl, inr, refl, ap, sym, ◌∙◌, String, ◌<>◌, false, ◌==◌, eq_iff, Option, none, some,
  List, [], ◌∷◌, arith, if◌then◌else◌, Bool-cases, ltb, int32_positive, int32_succ,
}
use cf_edge_operator.Api.Meta.{Condition}
use cf_edge_operator.Api.Domains.{Zone}
use cf_edge_operator.Api.Saas.{CustomHostname}
use cf_edge_operator.Platform.Env.{Env}
use cf_edge_operator.Platform.Env.{of_type, HasUniqueTypes, SetsConditions, FindsConditions}
use cf_edge_operator.Platform.Calls.{Trace}
use cf_edge_operator.Platform.Action.{World, call, pure, ◌>>=◌}
use mathlib.Core.Option
use cf_edge_operator.Hostname.Config.{condition_ready, reason_hostname_conflict}
use cf_edge_operator.Hostname.Status.{
  is_ready, is_active, clear_errors, ssl_status_of, set_error, set_conflict, set_condition,
  check_peers, requeue_or_ready,
}
use cf_edge_operator.Hostname.Recorded.{
  last_status, conditioned, ready_object, failed_object, set_error-last_status,
  requeue_or_ready-last_status,
}
use cf_edge_operator.Hostname.Guards.{conflict_object, conflict_message}
use cf_edge_operator.Zone.Config.{condition_initialized}
use cf_edge_operator.Zone.State.{is_hostname_conflict_in, cr_state}
use cf_edge_operator.Zone.Reconcile.{needs_init, initialized, named}

is_ready-of_type : (cs : List Condition) → is_ready (of_type condition_ready cs) ≡ is_ready cs
unfolding is_ready of_type
is_ready-of_type [] = refl
is_ready-of_type (c ∷ cs) = ground (arith, is_ready-of_type cs)

is_conflict-of_type :
    (cs : List Condition)
    → is_hostname_conflict_in (of_type condition_ready cs) ≡ is_hostname_conflict_in cs
unfolding is_hostname_conflict_in of_type
is_conflict-of_type [] = refl
is_conflict-of_type (c ∷ cs) = ground (arith, is_conflict-of_type cs)

-- The state in which the zone controller counts what a trace recorded last.
abbrev pub recorded_state : Trace → Option String
recorded_state t = Option.map cr_state (last_status t)

module _ (env : Env) (laws : SetsConditions env) where
  -- The one condition of its type after it was set.
  pub set_ready-of_type :
      (cs : List Condition) (c : Condition)
      → HasUniqueTypes cs
      → c.type ≡ condition_ready
      → of_type condition_ready (env.set_status_condition cs c) ≡ c ∷ []
  set_ready-of_type cs c unique e =
      ground (arith, laws.of_type-set cs c condition_ready unique, eq_iff c.type condition_ready)

  conditioned-is_ready :
      (ch : CustomHostname) (status reason message : String)
      → HasUniqueTypes ch.status.conditions
      → is_ready (conditioned env ch status reason message).status.conditions ≡ (status == "True")
  unfolding is_ready
  conditioned-is_ready ch status reason message unique =
      sym (is_ready-of_type _)
      ∙ ap is_ready (set_ready-of_type ch.status.conditions _ unique refl)
      ∙ ground arith

  pub conditioned-is_conflict :
      (ch : CustomHostname) (status reason message : String)
      → HasUniqueTypes ch.status.conditions
      → is_hostname_conflict_in (conditioned env ch status reason message).status.conditions
        ≡ (reason == reason_hostname_conflict)
  unfolding is_hostname_conflict_in
  conditioned-is_conflict ch status reason message unique =
      sym (is_conflict-of_type _)
      ∙ ap is_hostname_conflict_in (set_ready-of_type ch.status.conditions _ unique refl)
      ∙ ground arith

  ready_state :
      (ch : CustomHostname)
      → HasUniqueTypes ch.status.conditions
      → cr_state (ready_object env ch) ≡ (if is_active ch.status.ssl then "ready" else "pending")
  unfolding cr_state
  ready_state ch unique = elim (Bool-cases (is_active ch.status.ssl)) [
    | inl active ↦ rw active (
        ground (
          arith,
          conditioned-is_conflict (clear_errors ch) "True" condition_ready
              "Custom hostname is active" unique,
          conditioned-is_ready (clear_errors ch) "True" condition_ready "Custom hostname is active"
              unique,
        ))
    | inr pending ↦ rw pending (
        ground (
          arith,
          conditioned-is_conflict (clear_errors ch) "False" "SSLPending"
              ("SSL status: " <> ssl_status_of ch.status.ssl) unique,
          conditioned-is_ready (clear_errors ch) "False" "SSLPending"
              ("SSL status: " <> ssl_status_of ch.status.ssl) unique,
        ))
  ]

  abbrev failed : CustomHostname → CustomHostname
  failed ch = record ch {
    status = record ch.status { consecutive_errors = int32_succ ch.status.consecutive_errors };
  }

  failed_state :
      (ch : CustomHostname) (reason message : String)
      → HasUniqueTypes ch.status.conditions
      → reason ≢ reason_hostname_conflict
      → cr_state (failed_object env ch reason message) ≡ (
          if int32_positive (int32_succ ch.status.consecutive_errors)
          then "unhealthy"
          else "pending")
  unfolding cr_state
  failed_state ch reason message unique other = ground (
    arith,
    conditioned-is_conflict (failed ch) "False" reason message unique,
    conditioned-is_ready (failed ch) "False" reason message unique,
    eq_iff reason reason_hostname_conflict,
  )

  conflict_state :
      (ch owner : CustomHostname)
      → HasUniqueTypes ch.status.conditions
      → cr_state (conflict_object env ch owner) ≡ "conflict"
  unfolding cr_state
  conflict_state ch owner unique = ground (
    arith,
    conditioned-is_conflict ch "False" reason_hostname_conflict (conflict_message env ch owner)
        unique,
  )

  check_peers-last_status :
      (ch owner : CustomHostname) (w : World)
      → last_status (check_peers env ch (some owner) w).1.trace
        ≡ some (conflict_object env ch owner)
  unfolding check_peers set_conflict set_condition ◌>>=◌ call pure
  check_peers-last_status ch owner w = refl

  -- If SetStatusCondition works as documented and the conditions had one of each type, then the zone
  -- controller counts what the worker records in this state. At the end of a reconcile it is "ready"
  -- with an active certificate and "pending" without one. After a failure with a reason other than
  -- the conflict it is "unhealthy" if the error counter, counted up, is positive as an `int32`, else
  -- "pending". Where another object owns the hostname it is "conflict".
  pub cr_state-recorded :
      (ch owner : CustomHostname) (zone_cr reason message : String) (w : World)
      → HasUniqueTypes ch.status.conditions
      → reason ≢ reason_hostname_conflict
      → (recorded_state (requeue_or_ready env zone_cr ch w).1.trace
          ≡ some (if is_active ch.status.ssl then "ready" else "pending"))
        × (recorded_state (set_error env ch reason message w).1.trace
            ≡ some (
                if int32_positive (int32_succ ch.status.consecutive_errors)
                then "unhealthy"
                else "pending"))
        × (recorded_state (check_peers env ch (some owner) w).1.trace ≡ some "conflict")
  cr_state-recorded ch owner zone_cr reason message w unique other = (
    ap (Option.map cr_state) (requeue_or_ready-last_status env zone_cr ch w)
        ∙ ap some (ready_state ch unique),
    ap (Option.map cr_state) (set_error-last_status env ch reason message w)
        ∙ ap some (failed_state ch reason message unique other),
    ap (Option.map cr_state) (check_peers-last_status ch owner w)
        ∙ ap some (conflict_state ch owner unique),
  )

module _ (env : Env) (sets : SetsConditions env) (finds : FindsConditions env) where
  abbrev first : List Condition → Option Condition
  first [] = none
  first (c ∷ cs) = some c

  find-of_type :
      (t : String) (cs : List Condition) → env.find_status_condition cs t ≡ first (of_type t cs)
  unfolding of_type
  find-of_type t [] = finds.find-nil t
  find-of_type t (c ∷ cs) = ground (arith, finds.find-cons c cs t, find-of_type t cs)

  abbrev initialized_condition : Zone → (reason message : String) → Condition
  initialized_condition zone reason message = record {
    type = condition_initialized;
    status = "True";
    reason = reason;
    message = message;
    observed_generation = zone.metadata.generation;
  }

  find-initialized :
      (zone : Zone) (reason message : String)
      → HasUniqueTypes zone.status.conditions
      → env.find_status_condition
          (env.set_status_condition zone.status.conditions
            (initialized_condition zone reason message))
          condition_initialized
        ≡ some (initialized_condition zone reason message)
  find-initialized zone reason message unique =
      find-of_type condition_initialized _
      ∙ ap first (
          sets.of_type-set zone.status.conditions (initialized_condition zone reason message)
            condition_initialized unique)

  -- If the two functions on conditions work as documented and the conditions had one of each type,
  -- a zone that was initialized with a name that is not empty needs no initialization, and with
  -- another generation it needs one exactly if that is greater.
  pub needs_init-initialized :
      (zone : Zone) (name reason message : String) (generation : ℕ)
      → HasUniqueTypes zone.status.conditions
      → name ≢ ""
      → let z = initialized env (named zone name) reason message in
        (needs_init env z ≡ false)
        × (needs_init env (record z { metadata = record z.metadata { generation = generation } })
            ≡ ltb zone.metadata.generation generation)
  unfolding needs_init initialized
  needs_init-initialized zone name reason message generation unique known = (
    ground (arith, find-initialized zone reason message unique, eq_iff name ""),
    ground (arith, find-initialized zone reason message unique, eq_iff name ""),
  )
