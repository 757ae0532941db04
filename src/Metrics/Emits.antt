-- ===== src/Metrics/Emits.antt =====
-- The calls that the gauge of the provisioning time makes.
use cf_edge_operator.Prelude.{ℕ, ◌≡◌, refl, true, String, List, [], ◌∷◌}
use cf_edge_operator.Platform.Calls.{Call, Counter, Gauge, inc, set, observe, delete_series}
use cf_edge_operator.Platform.Env.{Env}
use cf_edge_operator.Platform.Action.{Action, ProvisioningEntry}
use cf_edge_operator.Platform.Moves.{Progress, Allows, moves_rules}
use cf_edge_operator.Platform.Emits.{Emits, ByCalls, ByCalls-Progress, ByCalls-Allows, same}
use cf_edge_operator.Platform.State.{write_provisioning, state_rules}
use cf_edge_operator.Metrics.Vectors.{fits}
use cf_edge_operator.Metrics.{
  register_provisioning, set_ssl_provisioning_duration, clean_entry, clean_entries,
  clean_expired_ssl_provisioning,
}
use cf_edge_operator.Metrics.Allowed.{AllowsMetrics}

pub record EmitsMetrics (Q : Call → Type 0) : Type 0 where
  pub emits_inc :
      (c : Counter) (labels : List String) → fits (inc c labels) ≡ true → Q (inc c labels)
  pub emits_set :
      (g : Gauge) (labels : List String) (v : ℕ) → fits (set g labels v) ≡ true → Q (set g labels v)
  pub emits_observe :
      (labels : List String) (d : ℕ) → fits (observe labels d) ≡ true → Q (observe labels d)
  pub emits_delete :
      (g : Gauge) (labels : List String)
      → fits (delete_series g labels) ≡ true
      → Q (delete_series g labels)

module _ {Q : Call → Type 0} (m : EmitsMetrics Q) (env : Env) where
  chained : Progress (ByCalls Q)
  chained = ByCalls-Progress Q

  set_allowed :
      (g : Gauge) (labels : List String) (v : ℕ)
      → fits (set g labels v) ≡ true
      → Allows (ByCalls Q) (set g labels v)
  set_allowed g labels v h = ByCalls-Allows (m.emits_set g labels v h)

  delete_allowed :
      (g : Gauge) (labels : List String)
      → fits (delete_series g labels) ≡ true
      → Allows (ByCalls Q) (delete_series g labels)
  delete_allowed g labels h = ByCalls-Allows (m.emits_delete g labels h)

  written : (entries : List (String × ProvisioningEntry)) → Emits Q (write_provisioning entries)
  unfolding write_provisioning
  written entries = record { at = λ w. same }

  ruleset rules = (moves_rules, state_rules, refl, chained, set_allowed, delete_allowed, written)

  register_provisioning-Emits :
      (zone_cr hostname method : String)
      → Emits Q (register_provisioning env zone_cr hostname method)
  unfolding register_provisioning
  register_provisioning-Emits zone_cr hostname method = search rules depth 12

  set_ssl_provisioning_duration-Emits :
      (zone_cr hostname method : String) (duration : ℕ)
      → Emits Q (set_ssl_provisioning_duration env zone_cr hostname method duration)
  unfolding set_ssl_provisioning_duration
  set_ssl_provisioning_duration-Emits zone_cr hostname method duration =
      search (rules, register_provisioning-Emits) depth 8

  clean_entry-Emits :
      (now : ℕ) (key : String) (entry : ProvisioningEntry)
      (rest : Action (List (String × ProvisioningEntry)))
      → Emits Q rest
      → Emits Q (clean_entry now key entry rest)
  unfolding clean_entry
  clean_entry-Emits now key entry rest h = search rules depth 8

  clean_entries-Emits :
      (now : ℕ) (entries : List (String × ProvisioningEntry)) → Emits Q (clean_entries now entries)
  unfolding clean_entries
  clean_entries-Emits now [] = search rules
  clean_entries-Emits now ((key, entry) ∷ entries) =
      clean_entry-Emits now key entry (clean_entries now entries) (clean_entries-Emits now entries)

  clean_expired_ssl_provisioning-Emits : Emits Q (clean_expired_ssl_provisioning env)
  unfolding clean_expired_ssl_provisioning
  clean_expired_ssl_provisioning-Emits = search (rules, clean_entries-Emits) depth 8

  pub metrics_emits : AllowsMetrics (ByCalls Q) env
  metrics_emits = record {
    allows_inc = λ c labels h. ByCalls-Allows (m.emits_inc c labels h);
    allows_observe = λ labels d h. ByCalls-Allows (m.emits_observe labels d h);
    moves_duration = set_ssl_provisioning_duration-Emits;
    moves_clean = clean_expired_ssl_provisioning-Emits;
  }
