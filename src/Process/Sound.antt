-- ===== src/Process/Sound.antt =====
-- What is true of the state that the two controllers share, and that metrics.go and the channel keep it.
use cf_edge_operator.Prelude.{
  String, ◌≡◌, ◌≤◌, ◌<◌, refl, Bool, true, false, false≢true, ℕ, List, [], ◌∷◌, length, arith,
  Bool-cases, ltb, inl, inr,
}
use cf_edge_operator.Api.Saas.{CustomHostname}
use cf_edge_operator.Platform.Calls.{Call, Gauge, Trace}
use cf_edge_operator.Platform.Env.{Env}
use cf_edge_operator.Platform.Action.{World, ProvisioningEntry}
use cf_edge_operator.Platform.Moves.{Progress, Moves, Allows}
use cf_edge_operator.Platform.Action.{pure, call, peek, ◌>>=◌}
use cf_edge_operator.Platform.State.{
  read_events, write_events, read_provisioning, write_provisioning,
}
use cf_edge_operator.Metrics.{
  register_provisioning, set_ssl_provisioning_duration, clean_expired_ssl_provisioning, clean_entry,
  clean_entries,
}
use cf_edge_operator.Metrics.Allowed.{AllowsMetrics}
use cf_edge_operator.Zone.Events.{buffered_events, send_drift_event}
use cf_edge_operator.Zone.Channel.{send_drift_event-bounded, length-drop}
use cf_edge_operator.Zone.Sends.{AllowsSends, send_drift_event-Moves}
use cf_edge_operator.Process.{Process, started}
use cf_edge_operator.Metrics.Series.{Series, is_live}
use cf_edge_operator.Metrics.Registry.{Registered, set-Registered, clean-Registered}

-- Does the call set a series of the provisioning time?
unfoldable pub sets_duration : Call → Bool
sets_duration (Call.set Gauge.ssl_provisioning_duration _ _) = true
sets_duration _ = false

adds_no_series :
    (s : Series) (c : Call) (t : Trace)
    → sets_duration c ≡ false
    → is_live s (c ∷ t) ≡ true
    → is_live s t ≡ true
unfolding sets_duration is_live
adds_no_series s (Call.set Gauge.ssl_provisioning_duration labels v) t other live = cc other
adds_no_series s (Call.delete_series Gauge.ssl_provisioning_duration labels) t other live =
    ground arith
adds_no_series s (Call.delete_zone_series Gauge.ssl_provisioning_duration zone) t other live =
    ground arith
adds_no_series s _ t other live = live

module _ (env : Env) where
  same_events_set :
      (zone_cr hostname method : String) (duration : ℕ) (w : World)
      → (set_ssl_provisioning_duration env zone_cr hostname method duration w).1.events ≡ w.events
  unfolding set_ssl_provisioning_duration register_provisioning read_provisioning write_provisioning
      ◌>>=◌ peek call pure
  same_events_set zone_cr hostname method duration w = ground arith

  same_events_entries :
      (now : ℕ) (entries : List (String × ProvisioningEntry)) (w : World)
      → (clean_entries now entries w).1.events ≡ w.events
  unfolding clean_entries clean_entry ◌>>=◌ call pure
  same_events_entries now [] w = refl
  same_events_entries now ((key, e) ∷ entries) w = elim (Bool-cases (ltb e.expires_at now)) [
    | inl expired ↦ rw expired (same_events_entries now entries _)
    | inr fresh ↦ rw fresh (same_events_entries now entries w)
  ]

  same_events_clean : (w : World) → (clean_expired_ssl_provisioning env w).1.events ≡ w.events
  unfolding clean_expired_ssl_provisioning read_provisioning write_provisioning ◌>>=◌ peek
  same_events_clean w = same_events_entries (env.now w.trace) w.provisioning w

module _ (p : Process) where
  pub record Sound (w : World) : Type 0 where
    pub registered : Registered w
    pub bounded : length w.events ≤ p.coordinator.drift_buffer

  abbrev pub Keeps : World → World → Type 0
  Keeps w w' = Sound w → Sound w'

  pub Keeps-Progress : Progress Keeps
  Keeps-Progress = record { stays = λ w s. s; chains = λ f g s. g (f s) }

  call-Registered :
      (c : Call) (w : World)
      → sets_duration c ≡ false
      → Registered w
      → Registered (record w { trace = c ∷ w.trace })
  call-Registered c w other registered names =
      let before = registered names.1 in
      record {
        no_leak = λ s live. before.no_leak s (adds_no_series s c w.trace other live);
        filed = before.filed;
      }

  events-Registered :
      (events : List CustomHostname) (w : World)
      → Registered w
      → Registered (record w { events = events })
  events-Registered events w registered names =
      let before = registered names in record { no_leak = before.no_leak; filed = before.filed }

  abbrev KeepsRegistered : World → World → Type 0
  KeepsRegistered w w' = Registered w → Registered w'

  sends-Registered : AllowsSends KeepsRegistered
  unfolding sets_duration write_events
  sends-Registered = record {
    progress = record { stays = λ w r. r; chains = λ f g r. g (f r) };
    allows_inc = λ c labels _. record { at = λ w r. call-Registered _ w refl r };
    allows_send = λ ch. record { at = λ w r. call-Registered _ w refl r };
    moves_events = λ events. record { at = events-Registered events };
  }

  pub call-Keeps : (c : Call) → sets_duration c ≡ false → Allows Keeps c
  call-Keeps c other = record {
    at = λ w s. record { registered = call-Registered c w other s.registered; bounded = s.bounded };
  }

  pub started-Sound : Sound started
  unfolding is_live
  started-Sound = record {
    registered = λ names. record { no_leak = λ s live. absurd (false≢true live); filed = tt };
    bounded = omega arith;
  }

  module _ (env : Env) where
    pub metrics-Keeps : AllowsMetrics Keeps env
    unfolding sets_duration
    metrics-Keeps = record {
      allows_inc = λ c labels _. call-Keeps _ refl;
      allows_observe = λ labels d _. call-Keeps _ refl;
      moves_duration = λ zone_cr hostname method duration. record {
        at = λ w s. record {
          registered = set-Registered env zone_cr hostname method duration w s.registered;
          bounded = rw (same_events_set env zone_cr hostname method duration w) s.bounded;
        };
      };
      moves_clean = record {
        at = λ w s. record {
          registered = clean-Registered env w s.registered;
          bounded = rw (same_events_clean env w) s.bounded;
        };
      };
    }

    pub buffered_events-Keeps : Moves Keeps (buffered_events env)
    unfolding buffered_events read_events write_events ◌>>=◌ peek pure
    buffered_events-Keeps = record {
      at = λ w s. record {
        registered = events-Registered _ w s.registered;
        bounded = omega (arith, s.bounded, length-drop (env.events_received w.trace) w.events);
      };
    }

    pub send-Keeps :
        (ch : CustomHostname)
        → 0 < p.coordinator.drift_buffer
        → Moves Keeps (send_drift_event env p.coordinator ch)
    send-Keeps ch room = record {
      at = λ w s. record {
        registered =
            (send_drift_event-Moves sends-Registered env p.coordinator ch).at w s.registered;
        bounded = send_drift_event-bounded env p.coordinator ch w room s.bounded;
      };
    }
