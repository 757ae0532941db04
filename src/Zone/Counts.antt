-- ===== src/Zone/Counts.antt =====
-- The counts that a drift cycle publishes.
use cf_edge_operator.Prelude.{
  ℕ, ◌+◌, ◌≡◌, ◌==◌, eq_iff, String, Bool, ◌&&◌, List, [], ◌∷◌, arith, length, if◌then◌else◌,
}
use cf_edge_operator.Api.Domains.{Zone}
use cf_edge_operator.Api.Saas.{CustomHostname}
use cf_edge_operator.Api.Cloudflare.{HostnameResponse}
use cf_edge_operator.Platform.Env.{Env}
use cf_edge_operator.Platform.Action.{World, pure, ◌>>=◌}
use cf_edge_operator.Zone.Config.{ZoneReconciler}
use cf_edge_operator.Zone.State.{cr_state, refers_to_zone, bump}
use cf_edge_operator.Zone.Listing.{Hostnames}
use cf_edge_operator.Zone.Drift.{
  enqueues, Scan, note_cr, scan_cr, scan_crs, start_scan, Census, is_known, take_census,
  start_census,
}

abbrev pub total : List (String × ℕ) → ℕ
total [] = 0
total ((key, n) ∷ m) = n + total m

total-bump : (key : String) (m : List (String × ℕ)) → total (bump key m) ≡ total m + 1
unfolding bump
total-bump key [] = omega arith
total-bump key ((j, n) ∷ m) = ground (arith, total-bump key m)

-- What a map of counts holds under a key, where none is zero.
abbrev pub count_of : String → List (String × ℕ) → ℕ
count_of key [] = 0
count_of key ((j, n) ∷ m) = if j == key then n else count_of key m

count_of-bump :
    (key k : String) (m : List (String × ℕ))
    → count_of key (bump k m) ≡ count_of key m + (if k == key then 1 else 0)
unfolding bump
count_of-bump key k [] = ground arith
count_of-bump key k ((j, n) ∷ m) =
    ground (arith, count_of-bump key k m, eq_iff j k, eq_iff j key, eq_iff k key)

abbrev pub count_if {ℓ} : {A : Type ℓ} → (A → Bool) → List A → ℕ
count_if p [] = 0
count_if p (x ∷ xs) = (if p x then 1 else 0) + count_if p xs

module _ (env : Env) (zr : ZoneReconciler) (zone : Zone) (cf_hostnames : Hostnames) where
  abbrev pub in_zone : CustomHostname → Bool
  in_zone ch = refers_to_zone ch zone

  abbrev pub in_state : String → CustomHostname → Bool
  in_state state ch = refers_to_zone ch zone && cr_state ch == state

  abbrev pub needs_reconcile : CustomHostname → Bool
  needs_reconcile ch = refers_to_zone ch zone && enqueues env cf_hostnames ch

  scan_cr-counts :
      (state : String) (ch : CustomHostname) (s : Scan) (w : World)
      → let s' = (scan_cr env zr zone cf_hostnames ch s w).0 in
        (count_of state s'.state_counts
          ≡ count_of state s.state_counts + (if in_state state ch then 1 else 0))
        × (total s'.state_counts ≡ total s.state_counts + (if in_zone ch then 1 else 0))
        × (s'.drifted ≡ s.drifted + (if needs_reconcile ch then 1 else 0))
  unfolding scan_cr note_cr ◌>>=◌ pure
  scan_cr-counts state ch s w = ground (
    arith,
    total-bump (cr_state ch) s.state_counts,
    count_of-bump state (cr_state ch) s.state_counts,
  )

  scan_crs-counts_from :
      (state : String) (chs : List CustomHostname) (s : Scan) (w : World)
      → let s' = (scan_crs env zr zone cf_hostnames chs s w).0 in
        (count_of state s'.state_counts
          ≡ count_of state s.state_counts + count_if (in_state state) chs)
        × (total s'.state_counts ≡ total s.state_counts + count_if in_zone chs)
        × (s'.drifted ≡ s.drifted + count_if needs_reconcile chs)
  unfolding scan_crs ◌>>=◌ pure
  scan_crs-counts_from state [] s w = omega arith
  scan_crs-counts_from state (ch ∷ chs) s w =
      let step = scan_cr env zr zone cf_hostnames ch s w in
      omega (arith, scan_cr-counts state ch s w, scan_crs-counts_from state chs step.0 step.1)

  start_scan-count : (state : String) → count_of state start_scan.state_counts ≡ 0
  start_scan-count state = ground arith

  -- After the pass over the listed custom resources, the count of each state is the number of those
  -- of the zone that are in it, all counts add up to the number of those of the zone, and "drifted"
  -- is the number of those of the zone that need a reconcile.
  pub scan_crs-counts :
      (state : String) (chs : List CustomHostname) (w : World)
      → let s = (scan_crs env zr zone cf_hostnames chs start_scan w).0 in
        (count_of state s.state_counts ≡ count_if (in_state state) chs)
        × (total s.state_counts ≡ count_if in_zone chs)
        × (s.drifted ≡ count_if needs_reconcile chs)
  scan_crs-counts state chs w =
      omega (arith, scan_crs-counts_from state chs start_scan w, start_scan-count state)

-- A managed hostname with Cloudflare's status `status`.
abbrev pub managed_with :
    List (String × Bool) → (status : String) → String × HostnameResponse → Bool
managed_with known status (h, cf) = is_known h known && cf.status == status

take_census-from :
    (status : String) (known : List (String × Bool)) (hs : Hostnames) (c : Census)
    → let c' = take_census known hs c in
      (c'.managed + c'.orphans ≡ c.managed + c.orphans + length hs)
      × (count_of status c'.status_counts
          ≡ count_of status c.status_counts + count_if (managed_with known status) hs)
      × (total c'.status_counts + c.managed ≡ total c.status_counts + c'.managed)
      × (c'.managed ≡ c.managed + count_if (λ (h, _). is_known h known) hs)
unfolding take_census
take_census-from status known [] c = omega arith
take_census-from status known ((hostname, cf) ∷ hs) c = ground (
  arith,
  total-bump cf.status c.status_counts,
  count_of-bump status cf.status c.status_counts,
  take_census-from status known hs
      (record c { managed = c.managed + 1; status_counts = bump cf.status c.status_counts }),
  take_census-from status known hs (record c { orphans = c.orphans + 1 }),
)

start_census-count : (status : String) → count_of status start_census.status_counts ≡ 0
start_census-count status = ground arith

-- Each hostname that Cloudflare lists is counted once, as managed or as an orphan. It is managed
-- if it is the hostname of a known custom resource. The count of each of Cloudflare's statuses is
-- the number of managed hostnames with it, and these counts add up to the managed ones.
pub take_census_lem :
    (status : String) (known : List (String × Bool)) (hs : Hostnames)
    → let c = take_census known hs start_census in
      (c.managed + c.orphans ≡ length hs)
      × (count_of status c.status_counts ≡ count_if (managed_with known status) hs)
      × (total c.status_counts ≡ c.managed)
      × (c.managed ≡ count_if (λ (h, _). is_known h known) hs)
take_census_lem status known hs =
    omega (arith, take_census-from status known hs start_census, start_census-count status)
