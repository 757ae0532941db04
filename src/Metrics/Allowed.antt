-- ===== src/Metrics/Allowed.antt =====
-- How the metrics code moves the world, for a relation that allows its counters.
use cf_edge_operator.Prelude.{ℕ, zero, suc, ◌+◌, ◌≡◌, refl, true, String, Option, List, [], ◌∷◌}
use cf_edge_operator.Platform.Errors.{Err, Result, ok, err}
use cf_edge_operator.Platform.Calls.{Counter, inc, observe, api_retries_total}
use cf_edge_operator.Platform.Env.{Env}
use cf_edge_operator.Platform.Action.{World, Action}
use cf_edge_operator.Platform.Moves.{Progress, Moves, Moves-bind, Allows, moves_rules}
use cf_edge_operator.Metrics.Vectors.{fits}
use cf_edge_operator.Metrics.{
  record_cf_call, retry_or_stop, retry_loop, cf_retry, set_ssl_provisioning_duration,
  clean_expired_ssl_provisioning,
}

-- The relation allows the counters and the histogram, and the two operations on the gauge of the
-- provisioning time keep to it.
pub record AllowsMetrics (R : World → World → Type 0) (env : Env) : Type 0 where
  pub allows_inc :
      (c : Counter) (labels : List String) → fits (inc c labels) ≡ true → Allows R (inc c labels)
  pub allows_observe :
      (labels : List String) (d : ℕ) → fits (observe labels d) ≡ true → Allows R (observe labels d)
  pub moves_duration :
      (zone_cr hostname method : String) (duration : ℕ)
      → Moves R (set_ssl_provisioning_duration env zone_cr hostname method duration)
  pub moves_clean : Moves R (clean_expired_ssl_provisioning env)

module _ {R : World → World → Type 0} (progress : Progress R) (env : Env)
    (m : AllowsMetrics R env) where
  chained : Progress R
  chained = progress

  pub inc_allowed :
      (c : Counter) (labels : List String) → fits (inc c labels) ≡ true → Allows R (inc c labels)
  inc_allowed = m.allows_inc

  observe_allowed :
      (labels : List String) (d : ℕ) → fits (observe labels d) ≡ true → Allows R (observe labels d)
  observe_allowed = m.allows_observe

  ruleset metric_rules = (moves_rules, chained, inc_allowed, observe_allowed, refl)

  pub record_cf_call-Moves :
      (resource operation : String) (start : ℕ) (e : Option Err)
      → fits (observe (resource ∷ operation ∷ []) 0) ≡ true
      → Moves R (record_cf_call env resource operation start e)
  unfolding record_cf_call
  record_cf_call-Moves resource operation start e timed = search metric_rules depth 8

  retry_or_stop-Moves :
      {A : Type 0} (resource operation : String) (attempts : ℕ) (again : Action (ℕ × Result A))
      (r : Result A)
      → fits (inc api_retries_total (resource ∷ operation ∷ [])) ≡ true
      → Moves R again
      → Moves R (retry_or_stop env resource operation attempts again r)
  unfolding retry_or_stop
  retry_or_stop-Moves resource operation attempts again (ok a) counted h = search metric_rules
  retry_or_stop-Moves resource operation attempts again (err e) counted h =
      search metric_rules depth 8

  retry_loop-Moves :
      {A : Type 0} (resource operation : String) (fn : Action (Result A)) (left attempt : ℕ)
      → fits (inc api_retries_total (resource ∷ operation ∷ [])) ≡ true
      → Moves R fn
      → Moves R (retry_loop env resource operation fn left attempt)
  unfolding retry_loop
  retry_loop-Moves resource operation fn zero attempt counted h = search metric_rules
  retry_loop-Moves resource operation fn (suc left) attempt counted h =
      Moves-bind progress fn _ h λ r.
        retry_or_stop-Moves resource operation (attempt + 1) _ r counted
          (retry_loop-Moves resource operation fn left (attempt + 1) counted h)

  pub cf_retry-Moves :
      {A : Type 0} (resource operation : String) (n : ℕ) (fn : Action (Result A))
      → fits (inc api_retries_total (resource ∷ operation ∷ [])) ≡ true
      → Moves R fn
      → Moves R (cf_retry env resource operation n fn)
  unfolding cf_retry
  cf_retry-Moves resource operation n fn counted h =
      retry_loop-Moves resource operation fn n 0 counted h

  pub set_ssl_provisioning_duration-Moves :
      (zone_cr hostname method : String) (duration : ℕ)
      → Moves R (set_ssl_provisioning_duration env zone_cr hostname method duration)
  set_ssl_provisioning_duration-Moves = m.moves_duration

  pub clean_expired_ssl_provisioning-Moves : Moves R (clean_expired_ssl_provisioning env)
  clean_expired_ssl_provisioning-Moves = m.moves_clean
