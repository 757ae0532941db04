-- ===== src/Metrics/Series.antt =====
-- The series of the gauge of the provisioning time against the cache that bounds their number.
use cf_edge_operator.Prelude.{
  ℕ, ◌≡◌, String, ◌<>◌, ◌==◌, eq_iff, Bool, true, false, ◌&&◌, some, List, [], ◌∷◌, arith, ltb,
  if◌then◌else◌,
}
use cf_edge_operator.Prelude.Assoc
use cf_edge_operator.Platform.Calls.{
  Trace, set, delete_series, delete_zone_series, ssl_provisioning_duration,
}
use cf_edge_operator.Platform.Action.{World, ProvisioningEntry, pure, call, ◌>>=◌}
use cf_edge_operator.Metrics.{series_of, clean_entries}

-- A series of the gauge, by its labels.
pub record Series : Type 0 where
  pub zone_cr : String
  pub hostname : String
  pub method : String

unfoldable pub same_labels : List String → Series → Bool
same_labels (z ∷ h ∷ m ∷ []) s = z == s.zone_cr && h == s.hostname && m == s.method
same_labels _ s = false

-- A series is there if the latest call that names it sets it.
unfoldable pub is_live : Series → Trace → Bool
is_live s [] = false
is_live s (set ssl_provisioning_duration labels v ∷ t) =
    if same_labels labels s then true else is_live s t
is_live s (delete_series ssl_provisioning_duration labels ∷ t) =
    if same_labels labels s then false else is_live s t
is_live s (delete_zone_series ssl_provisioning_duration zone ∷ t) =
    if zone == s.zone_cr then false else is_live s t
is_live s (_ ∷ t) = is_live s t

abbrev pub key_of : Series → String
key_of s = s.zone_cr <> "/" <> s.hostname

abbrev pub Registers : Series → ProvisioningEntry → Type 0
Registers s e = (e.zone_cr ≡ s.zone_cr) × (e.hostname ≡ s.hostname) × (e.method ≡ s.method)

-- Every series that is there is registered in the cache, so that it will be removed.
abbrev pub NoLeak : World → Type 0
NoLeak w =
    (s : Series)
    → is_live s w.trace ≡ true
    → (e : ProvisioningEntry) × (Assoc.get (key_of s) w.provisioning ≡ some e) × Registers s e

pub entry_labels :
    (e : ProvisioningEntry) (s : Series) → Registers s e → same_labels (series_of e) s ≡ true
unfolding same_labels
entry_labels e s r =
    ground
      (arith, eq_iff e.zone_cr s.zone_cr, eq_iff e.hostname s.hostname, eq_iff e.method s.method)

module _ (now : ℕ) where
  -- Cleaning makes no series appear.
  pub clean_entries-live :
      (s : Series) (entries : List (String × ProvisioningEntry)) (w : World)
      → is_live s (clean_entries now entries w).1.trace ≡ true
      → is_live s w.trace ≡ true
  unfolding clean_entries is_live ◌>>=◌ call pure
  clean_entries-live s [] w h = h
  clean_entries-live s ((k, e) ∷ entries) w h = ground (
    arith,
    clean_entries-live s entries w,
    clean_entries-live s entries
        (record w { trace = delete_series ssl_provisioning_duration (series_of e) ∷ w.trace }),
  )

  pub clean_entries-dead :
      (s : Series) (k : String) (e : ProvisioningEntry)
      (entries : List (String × ProvisioningEntry)) (w : World)
      → Assoc.get k entries ≡ some e
      → ltb e.expires_at now ≡ true
      → Registers s e
      → is_live s (clean_entries now entries w).1.trace ≡ false
  unfolding clean_entries is_live ◌>>=◌ call pure Assoc.get
  clean_entries-dead s k e [] w found expired r = cc
  clean_entries-dead s k e ((j, x) ∷ entries) w found expired r = ground (
    arith,
    entry_labels e s r,
    clean_entries-live s entries
        (record w { trace = delete_series ssl_provisioning_duration (series_of e) ∷ w.trace }),
    clean_entries-dead s k e entries w,
    clean_entries-dead s k e entries
        (record w { trace = delete_series ssl_provisioning_duration (series_of x) ∷ w.trace }),
  )

  pub clean_entries-kept :
      (k : String) (e : ProvisioningEntry) (entries : List (String × ProvisioningEntry)) (w : World)
      → Assoc.get k entries ≡ some e
      → ltb e.expires_at now ≡ false
      → Assoc.get k (clean_entries now entries w).0 ≡ some e
  unfolding clean_entries ◌>>=◌ call pure Assoc.get
  clean_entries-kept k e [] w found fresh = found
  clean_entries-kept k e ((j, x) ∷ entries) w found fresh = ground (
    arith,
    clean_entries-kept k e entries w,
    clean_entries-kept k e entries
        (record w { trace = delete_series ssl_provisioning_duration (series_of x) ∷ w.trace }),
  )
