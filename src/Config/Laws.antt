-- ===== src/Config/Laws.antt =====
-- cmd/main.go: what the checks on the flags guarantee, and which build identity wins.
use cf_edge_operator.Prelude.{
  ◌<◌, ◌≡◌, refl, String, ◌==◌, eq_iff, Bool, true, false, Option, none, some, List, [], ◌∷◌, arith,
  Bool-cases, inl, inr, In, here, there,
}
use cf_edge_operator.Config.{
  ℤ, pos, negsuc, pos_part, not_positive, is_negative, Flags, one_of, management_policies,
  delete_policies, checks, first_failure, rejected_flag, custom_hostname_reconciler,
  zone_reconciler, BuildInfo, apply_setting, apply_settings, build_info,
}

In-head : {s c : String} {choices : List String} → s ≡ c → In s (c ∷ choices)
In-head p = rw p here

one_of-In : (s : String) (choices : List String) → one_of s choices ≡ true → In s choices
unfolding one_of
one_of-In s [] h = cc h
one_of-In s (c ∷ choices) h = elim (Bool-cases (s == c)) [
  | inl same ↦ In-head ((eq_iff s c).0 same)
  | inr other ↦ there (one_of-In s choices (ground (arith, other)))
]

abbrev AllPass : List (Bool × String) → Type 0
AllPass [] = Unit
AllPass ((failed, flag) ∷ rest) = (failed ≡ false) × AllPass rest

first_failure-AllPass : (l : List (Bool × String)) → first_failure l ≡ none → AllPass l
unfolding first_failure
first_failure-AllPass [] h = tt
first_failure-AllPass ((true, flag) ∷ rest) h = cc h
first_failure-AllPass ((false, flag) ∷ rest) h = (refl, first_failure-AllPass rest h)

not_positive_lem : (x : ℤ) → not_positive x ≡ false → (0 < pos_part x) × (x ≡ pos (pos_part x))
not_positive_lem (pos n) h = (ground arith, refl)
not_positive_lem (negsuc n) h = cc h

is_negative_lem : (x : ℤ) → is_negative x ≡ false → x ≡ pos (pos_part x)
is_negative_lem (pos n) h = refl
is_negative_lem (negsuc n) h = cc h

-- If no flag is rejected, the two reconcilers get what they rely on: an interval, a channel and
-- timeouts that are positive, the number of retries and the delay that the flags give, not cut
-- off at zero, and policies that the code knows.
pub rejected_flag-reconcilers :
    (f : Flags)
    → rejected_flag f ≡ none
    → ((0 < (zone_reconciler f).drift_interval)
        × (0 < (zone_reconciler f).drift_buffer)
        × (0 < (zone_reconciler f).cf_api_timeout)
        × (0 < (zone_reconciler f).cf_api_bulk_timeout)
        × (f.cf_api_bulk_max_retries ≡ pos (zone_reconciler f).cf_api_bulk_max_retries)
        × (f.cf_api_max_retries ≡ pos (zone_reconciler f).cf_api_max_retries))
      × (0 < (custom_hostname_reconciler f).cf_api_timeout)
      × (0 < (custom_hostname_reconciler f).cf_api_write_timeout)
      × (f.cf_api_max_retries ≡ pos (custom_hostname_reconciler f).cf_api_max_retries)
      × (f.cf_api_write_delay ≡ pos (custom_hostname_reconciler f).cf_api_write_delay)
      × In (custom_hostname_reconciler f).management_policy management_policies
      × In (custom_hostname_reconciler f).delete_policy delete_policies
unfolding rejected_flag checks zone_reconciler custom_hostname_reconciler
rejected_flag-reconcilers f accepted =
    let (policy, after_policy) = first_failure-AllPass (checks f) accepted in
    let (delete, after_delete) = after_policy in
    let (interval, after_interval) = after_delete in
    let (buffer, after_buffer) = after_interval in
    let (timeout, after_timeout) = after_buffer in
    let (write, after_write) = after_timeout in
    let (retries, after_retries) = after_write in
    let (bulk, after_bulk) = after_retries in
    let (bulk_retries, after_bulk_retries) = after_bulk in
    let (delay, rest) = after_bulk_retries in
    (
      (
        (not_positive_lem f.drift_interval interval).0,
        (not_positive_lem f.drift_buffer buffer).0,
        (not_positive_lem f.cf_api_timeout timeout).0,
        (not_positive_lem f.cf_api_bulk_timeout bulk).0,
        is_negative_lem f.cf_api_bulk_max_retries bulk_retries,
        is_negative_lem f.cf_api_max_retries retries,
      ),
      (not_positive_lem f.cf_api_timeout timeout).0,
      (not_positive_lem f.cf_api_write_timeout write).0,
      is_negative_lem f.cf_api_max_retries retries,
      is_negative_lem f.cf_api_write_delay delay,
      one_of-In f.management_policy management_policies (ground (arith, policy)),
      one_of-In f.delete_policy delete_policies (ground (arith, delete)),
    )

apply_settings-kept :
    (settings : List (String × String)) (b : BuildInfo)
    → (b.commit == "unknown") ≡ false
    → (b.date == "unknown") ≡ false
    → apply_settings settings b ≡ b
unfolding apply_settings apply_setting
apply_settings-kept [] b commit date = refl
apply_settings-kept ((key, value) ∷ settings) b commit date =
    let rest = apply_settings-kept settings b commit date in ground (arith, rest)

-- A build that injects a commit and a date, neither of which is the text "unknown", keeps its
-- identity, whatever settings Go embeds in the binary.
pub build_info-injected :
    (settings : Option (List (String × String))) (b : BuildInfo)
    → (b.commit == "unknown") ≡ false
    → (b.date == "unknown") ≡ false
    → build_info settings b ≡ b
unfolding build_info
build_info-injected none b commit date = refl
build_info-injected (some settings) b commit date = apply_settings-kept settings b commit date
