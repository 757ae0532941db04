-- ===== src/Metrics/Registry.antt =====
-- The keys of the provisioning cache, and what is true of the gauge and the cache from one operation of
-- metrics.go to the next.
use cf_edge_operator.Prelude.{
  ℕ, ◌≡◌, refl, sym, String, ◌<>◌, ◌==◌, eq_iff, Bool, true, some, List, [], ◌∷◌, arith, ltb,
  Bool-cases, Option-cases, ◌!=◌, inl, inr,
}
use cf_edge_operator.Prelude.Assoc
use cf_edge_operator.Prelude.Slash.{slash_free, key_parts}
use cf_edge_operator.Platform.Calls.{Call, Trace, ssl_provisioning_duration}
use cf_edge_operator.Platform.Env.{Env}
use cf_edge_operator.Platform.Action.{World, ProvisioningEntry, pure, call, peek, ◌>>=◌}
use cf_edge_operator.Platform.State.{read_provisioning, write_provisioning}
use cf_edge_operator.Metrics.{
  register_provisioning, set_ssl_provisioning_duration, clean_entry, clean_entries,
  clean_expired_ssl_provisioning,
}
use cf_edge_operator.Metrics.Series.{NoLeak}
use cf_edge_operator.Metrics.Leaks.{Unambiguous, set-NoLeak, clean-NoLeak}

-- A series that is set names a zone without a slash, as the API server demands of names.
unfoldable pub names_zone : Call → Bool
names_zone (Call.set ssl_provisioning_duration (zone_cr ∷ _) v) = slash_free zone_cr
names_zone _ = true

abbrev pub NamesZones : Trace → Type 0
NamesZones [] = Unit
NamesZones (c ∷ t) = (names_zone c ≡ true) × NamesZones t

-- An entry stands under the key of its zone and hostname.
abbrev pub Filed : String → ProvisioningEntry → Type 0
Filed k e = (k ≡ e.zone_cr <> "/" <> e.hostname) × (slash_free e.zone_cr ≡ true)

abbrev pub AllFiled : List (String × ProvisioningEntry) → Type 0
AllFiled [] = Unit
AllFiled ((k, e) ∷ m) = Filed k e × AllFiled m

get-Filed :
    (k : String) (e : ProvisioningEntry) (m : List (String × ProvisioningEntry))
    → AllFiled m
    → Assoc.get k m ≡ some e
    → Filed k e
unfolding Assoc.get
get-Filed k e [] filed found = cc found
get-Filed k e ((j, x) ∷ m) (here, there) found = elim (Bool-cases (j == k)) [
  | inl same ↦ ground (arith, eq_iff j k, same)
  | inr other ↦ get-Filed k e m there (ground (arith, other))
]

put-Filed :
    (k : String) (e : ProvisioningEntry) (m : List (String × ProvisioningEntry))
    → Filed k e
    → AllFiled m
    → AllFiled (Assoc.put k e m)
unfolding Assoc.put
put-Filed k e [] new filed = (new, tt)
put-Filed k e ((j, x) ∷ m) new (here, there) = elim (Bool-cases (j == k)) [
  | inl same ↦ rw same (new, there)
  | inr other ↦ rw other (here, put-Filed k e m new there)
]

clean_entries-Filed :
    (now : ℕ) (entries : List (String × ProvisioningEntry)) (w : World)
    → AllFiled entries
    → AllFiled (clean_entries now entries w).0
unfolding clean_entries clean_entry ◌>>=◌ call pure
clean_entries-Filed now [] w filed = tt
clean_entries-Filed now ((k, e) ∷ entries) w (here, there) =
    elim (Bool-cases (ltb e.expires_at now)) [
      | inl expired ↦ rw expired (clean_entries-Filed now entries _ there)
      | inr fresh ↦ rw fresh (here, clean_entries-Filed now entries w there)
    ]

clean_entries-NamesZones :
    (now : ℕ) (entries : List (String × ProvisioningEntry)) (w : World)
    → NamesZones (clean_entries now entries w).1.trace
    → NamesZones w.trace
unfolding clean_entries clean_entry ◌>>=◌ call pure
clean_entries-NamesZones now [] w = λ names. names
clean_entries-NamesZones now ((k, e) ∷ entries) w = elim (Bool-cases (ltb e.expires_at now)) [
  | inl expired ↦ rw expired λ names. (clean_entries-NamesZones now entries _ names).1
  | inr fresh ↦ rw fresh λ names. clean_entries-NamesZones now entries w names
]

-- Every series is registered under its key, if no zone whose series was set has a slash in its name.
pub record Registry (w : World) : Type 0 where
  pub no_leak : NoLeak w
  pub filed : AllFiled w.provisioning

abbrev pub Registered : World → Type 0
Registered w = NamesZones w.trace → Registry w

module _ (env : Env) where
  clean-NamesZones :
      (w : World) → NamesZones (clean_expired_ssl_provisioning env w).1.trace → NamesZones w.trace
  unfolding clean_expired_ssl_provisioning read_provisioning write_provisioning ◌>>=◌ peek
  clean-NamesZones w names = clean_entries-NamesZones (env.now w.trace) w.provisioning w names

  clean-AllFiled :
      (w : World)
      → AllFiled w.provisioning
      → AllFiled (clean_expired_ssl_provisioning env w).1.provisioning
  unfolding clean_expired_ssl_provisioning read_provisioning write_provisioning ◌>>=◌ peek
  clean-AllFiled w filed = clean_entries-Filed (env.now w.trace) w.provisioning w filed

  pub clean-Registered :
      (w : World) → Registered w → Registered (clean_expired_ssl_provisioning env w).1
  clean-Registered w registered names =
      let before = registered (clean-NamesZones w names) in
      record { no_leak = clean-NoLeak env w before.no_leak; filed = clean-AllFiled w before.filed }

  module _ (zone_cr hostname method : String) (duration : ℕ) (w : World) where
    abbrev after_set : World
    after_set = (set_ssl_provisioning_duration env zone_cr hostname method duration w).1

    set-NamesZones : NamesZones after_set.trace → (slash_free zone_cr ≡ true) × NamesZones w.trace
    unfolding set_ssl_provisioning_duration register_provisioning read_provisioning
        write_provisioning ◌>>=◌ peek call pure names_zone Assoc.get slash_free
    set-NamesZones = elim (Option-cases (Assoc.get (zone_cr <> "/" <> hostname) w.provisioning)) [
      | inl absent ↦ rw absent λ names. names
      | inr (prev, found) ↦ elim (Bool-cases (prev.method != method)) [
        | inl changed ↦ rw (found, changed) λ names. names.1
        | inr same ↦ rw (found, same) λ names. names
      ]
    ]

    set-AllFiled :
        slash_free zone_cr ≡ true → AllFiled w.provisioning → AllFiled after_set.provisioning
    unfolding set_ssl_provisioning_duration pure register_provisioning read_provisioning
        write_provisioning ◌>>=◌ peek call
    set-AllFiled named filed = put-Filed _ _ _ (refl, named) filed

    set-Unambiguous :
        slash_free zone_cr ≡ true
        → AllFiled w.provisioning
        → Unambiguous env zone_cr hostname method w
    set-Unambiguous named filed e found =
        let (key, e_named) = get-Filed _ e w.provisioning filed found in
        let (z, h) = key_parts _ _ _ _ named e_named key in (sym z, sym h)

    pub set-Registered : Registered w → Registered after_set
    set-Registered registered names =
        let (named, names_before) = set-NamesZones names in
        let before = registered names_before in
        record {
          no_leak =
              set-NoLeak env zone_cr hostname method duration w (set-Unambiguous named before.filed)
                before.no_leak;
          filed = set-AllFiled named before.filed;
        }
