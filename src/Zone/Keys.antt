-- ===== src/Zone/Keys.antt =====
-- The keys of the maps that a drift cycle counts in.
use mathlib.Core.Path.{subst}
use cf_edge_operator.Prelude.{
  ℕ, ◌+◌, ◌≡◌, refl, sym, ap, ◌∙◌, String, Bool, true, false, ◌==◌, ◌&&◌, ◌||◌, List, [], ◌∷◌,
  arith, any, Bool-cases, inl, inr, if◌then◌else◌,
}
use cf_edge_operator.Prelude.Assoc
use cf_edge_operator.Api.Domains.{Zone}
use cf_edge_operator.Api.Saas.{CustomHostname}
use cf_edge_operator.Platform.Env.{Env}
use cf_edge_operator.Platform.Action.{World, pure, ◌>>=◌}
use cf_edge_operator.Zone.Config.{ZoneReconciler}
use cf_edge_operator.Zone.State.{cr_state, refers_to_zone, bump}
use cf_edge_operator.Zone.Listing.{Hostnames}
use cf_edge_operator.Zone.Drift.{
  Scan, note_cr, enqueues, scan_cr, scan_crs, Census, take_census, is_known,
}
use cf_edge_operator.Zone.Counts.{count_if}
use cf_edge_operator.Zone.Gauges.{holds, Unique, holds-bump, Unique-bump}

-- A custom resource of the zone has the hostname.
abbrev pub claims : Zone → String → CustomHostname → Bool
claims zone hostname ch = refers_to_zone ch zone && ch.spec.hostname == hostname

abbrev pub Keyed : String → List (String × ℕ) → Type 0
Keyed state counts = Unique counts × (holds state counts ≡ true)

module _ (env : Env) (zr : ZoneReconciler) (zone : Zone) (cf_hostnames : Hostnames) where
  abbrev pub scanned : List CustomHostname → Scan → World → Scan
  scanned crs s w = (scan_crs env zr zone cf_hostnames crs s w).0

  -- The maps of the first pass do not depend on what is sent.
  scan_cr-maps :
      (ch : CustomHostname) (s : Scan) (w : World)
      → let s' = (scan_cr env zr zone cf_hostnames ch s w).0 in
        (s'.state_counts
          ≡ (if refers_to_zone ch zone then bump (cr_state ch) s.state_counts else s.state_counts))
        × (s'.cr_hostnames ≡ (
            if refers_to_zone ch zone
            then Assoc.put ch.spec.hostname true s.cr_hostnames
            else s.cr_hostnames))
  unfolding scan_cr note_cr ◌>>=◌ pure
  scan_cr-maps ch s w = elim (Bool-cases (refers_to_zone ch zone)) [
    | inr other ↦ rw other (refl, refl)
    | inl ours ↦ elim (Bool-cases (enqueues env cf_hostnames ch)) [
      | inl needed ↦ rw (ours, needed) (refl, refl)
      | inr fine ↦ rw (ours, fine) (refl, refl)
    ]
  ]

  if-Keyed :
      (b : Bool) (state key : String) (counts : List (String × ℕ))
      → Keyed state counts
      → Keyed state (if b then bump key counts else counts)
  if-Keyed true state key counts (u, h) =
      (Unique-bump key counts u, ground (arith, h, holds-bump key state counts))
  if-Keyed false state key counts k = k

  pub scan_crs-Keyed :
      (state : String) (crs : List CustomHostname) (s : Scan) (w : World)
      → Keyed state s.state_counts
      → Keyed state (scanned crs s w).state_counts
  unfolding scan_crs ◌>>=◌ pure
  scan_crs-Keyed state [] s w k = k
  scan_crs-Keyed state (ch ∷ crs) s w k =
      let step = scan_cr env zr zone cf_hostnames ch s w in
      scan_crs-Keyed state crs step.0 step.1 (
        subst (Keyed state) (sym (scan_cr-maps ch s w).0)
          (if-Keyed (refers_to_zone ch zone) state (cr_state ch) s.state_counts k))

  if-known :
      (b : Bool) (hostname key : String) (known : List (String × Bool))
      → is_known hostname (if b then Assoc.put key true known else known)
        ≡ (is_known hostname known || b && key == hostname)
  if-known true hostname key known = ground (arith, Assoc.get-put key hostname true known)
  if-known false hostname key known = ground arith

  pub scan_crs-known :
      (hostname : String) (crs : List CustomHostname) (s : Scan) (w : World)
      → is_known hostname (scanned crs s w).cr_hostnames
        ≡ (is_known hostname s.cr_hostnames || any (claims zone hostname) crs)
  unfolding scan_crs ◌>>=◌ pure
  scan_crs-known hostname [] s w = ground arith
  scan_crs-known hostname (ch ∷ crs) s w =
      let step = scan_cr env zr zone cf_hostnames ch s w in
      let noted : is_known hostname step.0.cr_hostnames
          ≡ (is_known hostname s.cr_hostnames || claims zone hostname ch) =
        ap (is_known hostname) (scan_cr-maps ch s w).1
        ∙ if-known (refers_to_zone ch zone) hostname ch.spec.hostname s.cr_hostnames in
      scan_crs-known hostname crs step.0 step.1 ∙ ground (arith, noted)

-- One hostname of the second pass.
counted :
    (managed : Bool) (status key : String) (c : Census)
    → Keyed status c.status_counts
    → Keyed status
        (if managed
          then record c { managed = c.managed + 1; status_counts = bump key c.status_counts }
          else record c { orphans = c.orphans + 1 }).status_counts
counted true status key c (u, h) =
    (Unique-bump key c.status_counts u, ground (arith, h, holds-bump key status c.status_counts))
counted false status key c k = k

pub take_census-Keyed :
    (status : String) (known : List (String × Bool)) (hs : Hostnames) (c : Census)
    → Keyed status c.status_counts
    → Keyed status (take_census known hs c).status_counts
unfolding take_census
take_census-Keyed status known [] c k = k
take_census-Keyed status known ((hostname, cf) ∷ hs) c k =
    take_census-Keyed status known hs _ (counted (is_known hostname known) status cf.status c k)

pub count_if-ext :
    {A : Type 0} (p q : A → Bool) (xs : List A)
    → ((x : A) → p x ≡ q x)
    → count_if p xs ≡ count_if q xs
count_if-ext p q [] h = refl
count_if-ext p q (x ∷ xs) h =
    rw (h x) (ap (λ n. (if q x then 1 else 0) + n) (count_if-ext p q xs h))
