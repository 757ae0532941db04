-- ===== src/Metrics/Leaks.antt =====
-- The invariant between the series of the provisioning time and its cache, for
-- setSSLProvisioningDuration and cleanExpiredSSLProvisioning.
use cf_edge_operator.Prelude.{
  ℕ, ◌≡◌, refl, sym, ap, ◌∙◌, String, ◌<>◌, ◌==◌, eq_iff, true, false, false≢true, some, List, [],
  ◌∷◌, arith, ltb, Bool-cases, inl, inr,
}
use cf_edge_operator.Prelude.Assoc
use cf_edge_operator.Platform.Env.{Env}
use cf_edge_operator.Platform.Action.{World, ProvisioningEntry, pure, call, peek, ◌>>=◌}
use cf_edge_operator.Platform.State.{read_provisioning, write_provisioning}
use cf_edge_operator.Metrics.{
  register_provisioning, set_ssl_provisioning_duration, clean_expired_ssl_provisioning,
}
use cf_edge_operator.Metrics.Series.{
  Series, is_live, same_labels, key_of, Registers, NoLeak, clean_entries-live, clean_entries-dead,
  clean_entries-kept, entry_labels,
}

module _ (env : Env) where
  -- If every series is registered in the cache, every series is registered after a cleanup.
  pub clean-NoLeak : (w : World) → NoLeak w → NoLeak (clean_expired_ssl_provisioning env w).1
  unfolding clean_expired_ssl_provisioning read_provisioning write_provisioning ◌>>=◌ peek
  clean-NoLeak w registered s live =
      let now = env.now w.trace in
      let (e, found, r) = registered s (clean_entries-live now s w.provisioning w live) in
      elim (Bool-cases (ltb e.expires_at now)) [
        | inl expired ↦ absurd (
            false≢true
              (sym (clean_entries-dead now s (key_of s) e w.provisioning w found expired r) ∙ live))
        | inr fresh ↦ (e, clean_entries-kept now (key_of s) e w.provisioning w found fresh, r)
      ]

  module _ (zone_cr hostname method : String) where
    -- The entry under the key of the pair is of that pair, which holds as a name has no slash.
    abbrev pub Unambiguous : World → Type 0
    Unambiguous w =
        (e : ProvisioningEntry)
        → Assoc.get (zone_cr <> "/" <> hostname) w.provisioning ≡ some e
        → (e.zone_cr ≡ zone_cr) × (e.hostname ≡ hostname)

    abbrev key : String
    key = zone_cr <> "/" <> hostname

    abbrev labels : List String
    labels = zone_cr ∷ hostname ∷ method ∷ []

    abbrev after_set : ℕ → World → World
    after_set duration w = (set_ssl_provisioning_duration env zone_cr hostname method duration w).1

    new_entry :
        (duration : ℕ) (w : World)
        → (e : ProvisioningEntry) × (Assoc.get key (after_set duration w).provisioning ≡ some e)
          × (e.zone_cr ≡ zone_cr)
          × (e.hostname ≡ hostname)
          × (e.method ≡ method)
    unfolding set_ssl_provisioning_duration pure register_provisioning read_provisioning
        write_provisioning ◌>>=◌ peek call
    new_entry duration w = (_, Assoc.get-put_self key _ w.provisioning, refl, refl, refl)

    other_entry :
        (duration : ℕ) (w : World) (s : Series)
        → (key == key_of s) ≡ false
        → Assoc.get (key_of s) (after_set duration w).provisioning
          ≡ Assoc.get (key_of s) w.provisioning
    unfolding set_ssl_provisioning_duration pure register_provisioning read_provisioning
        write_provisioning ◌>>=◌ peek call
    other_entry duration w s other = Assoc.get-put_ne key (key_of s) _ w.provisioning other

    -- A series that is there afterwards is the new one, or was there and was not removed.
    live_before :
        (duration : ℕ) (w : World) (s : Series)
        → is_live s (after_set duration w).trace ≡ true
        → same_labels labels s ≡ false
        → is_live s w.trace ≡ true
    unfolding set_ssl_provisioning_duration register_provisioning read_provisioning
        write_provisioning ◌>>=◌ peek call pure is_live
    live_before duration w s live other = ground arith

    former_method :
        (duration : ℕ) (w : World) (s : Series) (e : ProvisioningEntry)
        → is_live s (after_set duration w).trace ≡ true
        → Assoc.get key w.provisioning ≡ some e
        → Registers s e
        → e.method ≡ method
    unfolding set_ssl_provisioning_duration register_provisioning read_provisioning
        write_provisioning ◌>>=◌ peek call pure is_live
    former_method duration w s e live found r =
        ground (arith, entry_labels e s r, eq_iff e.method method)

    labels_of :
        (s : Series)
        → same_labels labels s ≡ true
        → (zone_cr ≡ s.zone_cr) × (hostname ≡ s.hostname) × (method ≡ s.method)
    unfolding same_labels
    labels_of s same =
        ground (arith, eq_iff zone_cr s.zone_cr, eq_iff hostname s.hostname, eq_iff method s.method)

    new_registered :
        (duration : ℕ) (w : World) (s : Series)
        → (zone_cr ≡ s.zone_cr) × (hostname ≡ s.hostname) × (method ≡ s.method)
        → (e : ProvisioningEntry) × (Assoc.get (key_of s) (after_set duration w).provisioning
            ≡ some e)
          × Registers s e
    new_registered duration w s (same_zone, same_hostname, same_method) =
        let (e, found, z, h, m) = new_entry duration w in
        (
          e,
          ap (λ k. Assoc.get k (after_set duration w).provisioning)
                (ap (λ z. z <> "/" <> s.hostname) (sym same_zone)
                  ∙ ap (λ h. zone_cr <> "/" <> h) (sym same_hostname))
              ∙ found,
          (z ∙ same_zone, h ∙ same_hostname, m ∙ same_method),
        )

    -- If every series is registered in the cache, and the entry under the key of the zone CR and
    -- the hostname is of these two, then every series is registered after a new duration for them,
    -- also with another method.
    pub set-NoLeak :
        (duration : ℕ) (w : World) → Unambiguous w → NoLeak w → NoLeak (after_set duration w)
    set-NoLeak duration w unambiguous registered s live = elim (Bool-cases (same_labels labels s)) [
      | inl same ↦ new_registered duration w s (labels_of s same)
      | inr differs ↦
          let (e, found, r) = registered s (live_before duration w s live differs) in
          elim (Bool-cases (key == key_of s)) [
            | inl same_key ↦
                let found_key =
                  ap (λ k. Assoc.get k w.provisioning) ((eq_iff key (key_of s)).0 same_key)
                  ∙ found in
                let (z, h) = unambiguous e found_key in
                new_registered duration w s (
                  sym z ∙ r.0,
                  sym h ∙ r.1,
                  sym (former_method duration w s e live found_key r) ∙ r.2,
                )
            | inr other ↦ (e, other_entry duration w s other ∙ found, r)
          ]
    ]
