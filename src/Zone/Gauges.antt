-- ===== src/Zone/Gauges.antt =====
-- What a gauge shows: the value that was set last, unless its series was removed since.
use cf_edge_operator.Prelude.{
  ℕ, ◌≡◌, refl, ◌∙◌, String, Bool, true, false, ◌==◌, ◌&&◌, ◌||◌, eq_iff, eq_refl, Option, none,
  some, List, [], ◌∷◌, arith, Bool-cases, inl, inr, if◌then◌else◌,
}
use cf_edge_operator.Platform.Calls.{Call, Gauge, Trace}
use cf_edge_operator.Platform.Action.{World, call, pure, ◌>>=◌}
use cf_edge_operator.Zone.State.{bump}
use cf_edge_operator.Zone.Drift.{publish}
use cf_edge_operator.Zone.Counts.{count_of}

abbrev pub same_gauge : Gauge → Gauge → Bool
same_gauge Gauge.ssl_provisioning_duration Gauge.ssl_provisioning_duration = true
same_gauge Gauge.custom_hostnames Gauge.custom_hostnames = true
same_gauge Gauge.hostname_status_gauge Gauge.hostname_status_gauge = true
same_gauge Gauge.zone_custom_hostnames Gauge.zone_custom_hostnames = true
same_gauge Gauge.zone_initialized Gauge.zone_initialized = true
same_gauge Gauge.drift_buffer_depth Gauge.drift_buffer_depth = true
same_gauge Gauge.build_info_gauge Gauge.build_info_gauge = true
same_gauge _ _ = false

-- A series with two labels, of which the first is the zone.
pub record Label : Type 0 where
  pub gauge : Gauge
  pub zone : String
  pub label : String

unfoldable pub has_labels : Label → List String → Bool
has_labels l (z ∷ x ∷ []) = z == l.zone && x == l.label
has_labels l _ = false

unfoldable pub shows : Label → Trace → Option ℕ
shows l [] = none
shows l (Call.set g labels v ∷ t) =
    if same_gauge l.gauge g && has_labels l labels then some v else shows l t
shows l (Call.delete_series g labels ∷ t) =
    if same_gauge l.gauge g && has_labels l labels then none else shows l t
shows l (Call.delete_zone_series g zone ∷ t) =
    if same_gauge l.gauge g && zone == l.zone then none else shows l t
shows l (_ ∷ t) = shows l t

-- The keys of a map of counts.
unfoldable pub holds : String → List (String × ℕ) → Bool
holds key [] = false
holds key ((j, n) ∷ m) = j == key || holds key m

abbrev pub Unique : List (String × ℕ) → Type 0
Unique [] = Unit
Unique ((j, n) ∷ m) = (holds j m ≡ false) × Unique m

pub holds-bump :
    (key j : String) (m : List (String × ℕ)) → holds j (bump key m) ≡ (key == j || holds j m)
unfolding holds bump
holds-bump key j [] = ground arith
holds-bump key j ((i, n) ∷ m) =
    ground (arith, holds-bump key j m, eq_iff i key, eq_iff i j, eq_iff key j)

pub Unique-bump : (key : String) (m : List (String × ℕ)) → Unique m → Unique (bump key m)
unfolding holds bump
Unique-bump key [] u = (refl, tt)
Unique-bump key ((j, n) ∷ m) (fresh, u) = elim (Bool-cases (j == key)) [
  | inl same ↦ rw same (fresh, u)
  | inr other ↦ rw other (
    ground (arith, holds-bump key j m, other, fresh, eq_iff key j, eq_iff j key),
    Unique-bump key m u,
  )
]

-- Publishing a map does not touch another gauge, nor the series of a key that it does not hold.
pub publish-other :
    (g : Gauge) (l : Label) (counts : List (String × ℕ)) (w : World)
    → (same_gauge l.gauge g && holds l.label counts) ≡ false
    → shows l (publish g l.zone counts w).1.trace ≡ shows l w.trace
unfolding publish shows has_labels holds ◌>>=◌ call pure
publish-other g l [] w h = refl
publish-other g l ((j, n) ∷ counts) w h =
    let set_one = record w { trace = Call.set g (l.zone ∷ j ∷ []) n ∷ w.trace } in
    publish-other g l counts set_one (ground arith) ∙ ground arith

-- Publishing a map sets the series of each key to its count.
pub publish-shows :
    (l : Label) (counts : List (String × ℕ)) (w : World)
    → Unique counts
    → holds l.label counts ≡ true
    → same_gauge l.gauge l.gauge ≡ true
    → shows l (publish l.gauge l.zone counts w).1.trace ≡ some (count_of l.label counts)
unfolding publish shows has_labels holds ◌>>=◌ call pure
publish-shows l [] w u h self = cc h
publish-shows l ((j, n) ∷ counts) w (fresh, u) h self = elim (Bool-cases (j == l.label)) [
  | inl same ↦
      let set_one = record w { trace = Call.set l.gauge (l.zone ∷ j ∷ []) n ∷ w.trace } in
      let later : holds l.label counts ≡ false = ground (arith, eq_iff j l.label) in
      publish-other l.gauge l counts set_one (ground (arith, later))
      ∙ ground (arith, same, self, eq_refl l.zone)
  | inr other ↦
      let set_one = record w { trace = Call.set l.gauge (l.zone ∷ j ∷ []) n ∷ w.trace } in
      publish-shows l counts set_one u (ground (arith, other, h)) self ∙ ground (arith, other)
]
