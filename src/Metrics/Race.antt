-- ===== src/Metrics/Race.antt =====
-- A cleanup that runs between the two halves of setSSLProvisioningDuration, which sets the gauge
-- before it takes the lock.
use cf_edge_operator.Prelude.{ℕ, ◌≡◌, true, false, some, [], ◌∷◌, arith, ltb}
use cf_edge_operator.Prelude.Assoc
use cf_edge_operator.Platform.Calls.{Trace, set, ssl_provisioning_duration}
use cf_edge_operator.Platform.Env.{Env}
use cf_edge_operator.Platform.Action.{World, ProvisioningEntry, pure, call, peek, ◌>>=◌}
use cf_edge_operator.Platform.State.{read_provisioning, write_provisioning}
use cf_edge_operator.Metrics.{
  set_duration_while, register_provisioning, clean_expired_ssl_provisioning,
}
use cf_edge_operator.Metrics.Series.{Series, is_live, key_of, Registers, clean_entries-dead}

module _ (env : Env) (s : Series) where
  abbrev pub set_trace : (duration : ℕ) (w : World) → Trace
  set_trace duration w =
      set ssl_provisioning_duration (s.zone_cr ∷ s.hostname ∷ s.method ∷ []) duration ∷ w.trace

  cleaned-is_live :
      (w : World) (e : ProvisioningEntry)
      → Assoc.get (key_of s) w.provisioning ≡ some e
      → Registers s e
      → ltb e.expires_at (env.now w.trace) ≡ true
      → is_live s (clean_expired_ssl_provisioning env w).1.trace ≡ false
  unfolding clean_expired_ssl_provisioning read_provisioning write_provisioning ◌>>=◌ peek
  cleaned-is_live w e found r expired =
      clean_entries-dead (env.now w.trace) s (key_of s) e w.provisioning w found expired r

  register-is_live :
      (w : World)
      → is_live s w.trace ≡ false
      → is_live s (register_provisioning env s.zone_cr s.hostname s.method w).1.trace ≡ false
  unfolding register_provisioning read_provisioning write_provisioning ◌>>=◌ peek call pure is_live
  register-is_live w dead = ground arith

  -- `setSSLProvisioningDuration` sets the gauge of a series, and while it waits for the mutex a cleanup
  -- runs, with an entry of the same series in the cache that has expired by then. The series that was
  -- just set is removed, and it is not there when the call has returned.
  pub interrupted_set-is_live :
      (duration : ℕ) (w : World) (e : ProvisioningEntry)
      → Assoc.get (key_of s) w.provisioning ≡ some e
      → Registers s e
      → ltb e.expires_at (env.now (set_trace duration w)) ≡ true
      → is_live s
          (set_duration_while env
            (clean_expired_ssl_provisioning env)
            s.zone_cr
            s.hostname
            s.method
            duration
            w).1.trace
        ≡ false
  unfolding set_duration_while ◌>>=◌ call
  interrupted_set-is_live duration w e found r expired =
      register-is_live _
        (cleaned-is_live (record w { trace = set_trace duration w }) e found r expired)
