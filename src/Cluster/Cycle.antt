-- ===== src/Cluster/Cycle.antt =====
-- A whole drift cycle of the zone controller, `detectCustomHostnameDrift`, against the cluster.
use mathlib.Core.List.{reverse}
use cf_edge_operator.Prelude.{
  ℕ, ◌≡◌, refl, sym, ap, ◌∙◌, String, Bool, true, false, false≢true, eq_iff, Option, none, some,
  List, [], ◌∷◌, ◌++◌, arith, Bool-cases, inl, inr, if◌then◌else◌,
}
use cf_edge_operator.Api.Domains.{Zone}
use cf_edge_operator.Api.Saas.{CustomHostname}
use cf_edge_operator.Api.Cloudflare.{CfClient}
use cf_edge_operator.Platform.Errors.{Err, ok}
use cf_edge_operator.Platform.Calls.{Gauge, Trace}
use cf_edge_operator.Platform.Env.{Env, received}
use cf_edge_operator.Platform.Action.{World, call, pure, peek, ◌>>=◌}
use cf_edge_operator.Platform.State.{read_events, write_events}
use cf_edge_operator.Metrics.{record_cf_call}
use cf_edge_operator.Zone.Config.{ZoneReconciler, zone_ref_field}
use cf_edge_operator.Zone.State.{refers_to_zone}
use cf_edge_operator.Zone.Counts.{needs_reconcile}
use cf_edge_operator.Zone.Listing.{Hostnames, list_cloudflare_hostnames}
use cf_edge_operator.Zone.Events.{buffered_events}
use cf_edge_operator.Zone.Drift.{
  Scan, Census, start_scan, publish, publish_census, compare_crs, compare_listed,
  detect_custom_hostname_drift,
}
use cf_edge_operator.Zone.Sent.{sent, select, scan_crs-sent}
use cf_edge_operator.Config.{one_of}
use cf_edge_operator.Cluster.{is_indexed, ListsByIndex}

select-select :
    {A : Type 0} (p q : A → Bool) (xs : List A)
    → ((x : A) → p x ≡ true → q x ≡ true)
    → select p (select q xs) ≡ select p xs
select-select p q [] h = refl
select-select p q (x ∷ xs) h = elim (Bool-cases (q x)) [
  | inl kept ↦ rw kept (ap (λ l. if p x then x ∷ l else l) (select-select p q xs h))
  | inr left ↦
      let dropped : p x ≡ false = elim (Bool-cases (p x)) [
        | inl selected ↦ absurd (false≢true (sym left ∙ h x selected))
        | inr unselected ↦ unselected
      ] in
      rw (left, dropped) (select-select p q xs h)
]

publish-sent :
    (g : Gauge) (zone : String) (counts : List (String × ℕ)) (w : World)
    → sent (publish g zone counts w).1.trace ≡ sent w.trace
unfolding publish ◌>>=◌ call pure
publish-sent g zone [] w = refl
publish-sent g zone ((label, n) ∷ counts) w = publish-sent g zone counts _

publish_census-sent :
    (zone : String) (cf_hostnames : Hostnames) (s : Scan) (c : Census) (w : World)
    → sent (publish_census zone cf_hostnames s c w).1.trace ≡ sent w.trace
unfolding publish_census ◌>>=◌ call
publish_census-sent zone cf_hostnames s c w = publish-sent _ zone c.status_counts _

recorded-sent :
    (env : Env) (resource operation : String) (start : ℕ) (e : Option Err) (w : World)
    → sent (record_cf_call env resource operation start e w).1.trace ≡ sent w.trace
unfolding record_cf_call ◌>>=◌ call pure peek
recorded-sent env resource operation start none w = refl
recorded-sent env resource operation start (some e) w = refl

module _ (env : Env) (zr : ZoneReconciler) (zone : Zone) where
  listing-sent :
      (client : CfClient) (w : World)
      → sent (list_cloudflare_hostnames env zr client zone.spec.id w).1.trace ≡ sent w.trace
  unfolding list_cloudflare_hostnames ◌>>=◌ call pure peek
  listing-sent client w = recorded-sent env _ _ _ _ _

  compare_crs-sent :
      (cf_hostnames : Hostnames) (crs : List CustomHostname) (w : World)
      → ((t : Trace) → env.blocked_send t ≡ received)
      → sent (compare_crs env zr zone cf_hostnames crs w).1.trace
        ≡ reverse (select (needs_reconcile env zr zone cf_hostnames) crs) ++ sent w.trace
  unfolding compare_crs buffered_events read_events write_events ◌>>=◌ call pure peek
  compare_crs-sent cf_hostnames crs w running =
      publish_census-sent _ _ _ _ _
      ∙ publish-sent _ _ _ _
      ∙ scan_crs-sent env zr zone cf_hostnames crs start_scan w running

  -- The index by the zone's name has all that refer to the zone.
  index_complete :
      (cf_hostnames : Hostnames) (ch : CustomHostname)
      → needs_reconcile env zr zone cf_hostnames ch ≡ true
      → is_indexed zone_ref_field zone.metadata.name ch ≡ true
  unfolding refers_to_zone one_of
  index_complete cf_hostnames ch needed =
      ground (arith, eq_iff ch.spec.zone_ref.name zone.metadata.name)

  compare_listed-sent :
      (cluster : Trace → List CustomHostname) (cf_hostnames : Hostnames) (crs : List CustomHostname)
      (w : World)
      → ((t : Trace) → env.blocked_send t ≡ received)
      → ListsByIndex env cluster
      → env.list_custom_hostnames w.trace zone_ref_field zone.metadata.name ≡ ok crs
      → sent (compare_listed env zr zone cf_hostnames w).1.trace
        ≡ reverse (select (needs_reconcile env zr zone cf_hostnames) (cluster w.trace))
          ++ sent w.trace
  unfolding compare_listed ◌>>=◌ call
  compare_listed-sent cluster cf_hostnames crs w running by_index listed = rw listed (
      compare_crs-sent cf_hostnames crs _ running
      ∙ ap (λ l. reverse l ++ sent w.trace)
          (ap (select (needs_reconcile env zr zone cf_hostnames))
              (by_index.lists w.trace _ _ crs listed)
            ∙ select-select _ _ (cluster w.trace) (index_complete cf_hostnames)))

  -- What Cloudflare lists, by hostname, and the world after the listing.
  abbrev pub listing : CfClient → World → Hostnames × Option Err
  listing client w = (list_cloudflare_hostnames env zr client zone.spec.id w).0

  abbrev pub after_listing : CfClient → World → World
  after_listing client w = (list_cloudflare_hostnames env zr client zone.spec.id w).1

  -- The custom resources of the cluster that belong to the zone and need a reconcile.
  abbrev pub wanted : (Trace → List CustomHostname) → CfClient → World → List CustomHostname
  wanted cluster client w =
      select (needs_reconcile env zr zone (listing client w).0)
        (cluster (after_listing client w).trace)

  -- A drift cycle in which both lists succeed and no blocked send ends by a shutdown, where lists go
  -- by the index: it sends to the worker exactly those custom resources of the cluster that belong to
  -- the zone and, compared with what Cloudflare lists, need a reconcile, each once and in the order
  -- of the cluster.
  pub detect_drift-sent :
      (cluster : Trace → List CustomHostname) (client : CfClient) (crs : List CustomHostname)
      (w : World)
      → ((t : Trace) → env.blocked_send t ≡ received)
      → ListsByIndex env cluster
      → (listing client w).1 ≡ none
      → env.list_custom_hostnames (after_listing client w).trace zone_ref_field zone.metadata.name
        ≡ ok crs
      → sent (detect_custom_hostname_drift env zr client zone w).1.trace
        ≡ reverse (wanted cluster client w) ++ sent w.trace
  unfolding detect_custom_hostname_drift ◌>>=◌
  detect_drift-sent cluster client crs w running by_index complete listed = rw complete (
      compare_listed-sent cluster (listing client w).0 crs (after_listing client w) running by_index
        listed
      ∙ ap (λ t. reverse (wanted cluster client w) ++ t) (listing-sent client w))
