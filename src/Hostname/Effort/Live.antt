-- ===== src/Hostname/Effort/Live.antt =====
-- How often a reconcile of a live object calls Cloudflare.
use cf_edge_operator.Prelude.{true, ◌+◌, false}
use cf_edge_operator.Api.Saas.{CustomHostname}
use cf_edge_operator.Api.Cloudflare.{HostnameResponse}
use cf_edge_operator.Platform.Env.{Env}
use cf_edge_operator.Platform.Emits.{ByCalls}
use cf_edge_operator.Hostname.Config.{Reconciler}
use cf_edge_operator.Hostname.Client.{ZoneInfo}
use cf_edge_operator.Hostname.Create.{handle_create}
use cf_edge_operator.Hostname.Update.{
  update_hostname, correct_drift, adopt, reconcile_existing, reconcile_missing,
  reconcile_cloudflare_state,
}
use cf_edge_operator.Hostname.Reconcile.{
  add_finalizer, reconcile_owned, reconcile_in_zone, reconcile_live,
}
use cf_edge_operator.Hostname.Allowed.{
  AwayFromCf, AllowsReads, away_emit, build_cloudflare_client-Moves,
}
use cf_edge_operator.Hostname.Allowed.Saves.{detect_conflict-Moves}
use cf_edge_operator.Hostname.Allowed.Ends.{
  after_create-Moves, after_edit-Moves, refresh-Moves, count_adoption-Moves,
}
use cf_edge_operator.Hostname.Effort.{
  AtMost, AtMost-away, AtMost-if, AtMost-bind, AtMost-before, AtMost-after, cf_retry-AtMost,
}
use cf_edge_operator.Hostname.Effort.Requests.{
  attempts, bounds, create_call-AtMost, edit_call-AtMost, lookup-AtMost,
}

module _ (env : Env) where
  reads : AllowsReads false true (ByCalls AwayFromCf) env
  reads = away_emit env

  handle_create-AtMost :
      (r : Reconciler) (zi : ZoneInfo) (ch : CustomHostname)
      → AtMost (attempts r) (handle_create env r zi ch)
  unfolding handle_create
  handle_create-AtMost r zi ch =
      search (bounds, reads, AtMost-before, cf_retry-AtMost, create_call-AtMost, after_create-Moves)
        depth 12

  update_hostname-AtMost :
      (r : Reconciler) (zi : ZoneInfo) (ch : CustomHostname) (existing : HostnameResponse)
      → AtMost (attempts r) (update_hostname env r zi ch existing)
  unfolding update_hostname
  update_hostname-AtMost r zi ch existing =
      search (bounds, reads, AtMost-before, cf_retry-AtMost, edit_call-AtMost, after_edit-Moves)
        depth 12

  correct_drift-AtMost :
      (r : Reconciler) (zi : ZoneInfo) (ch : CustomHostname) (existing : HostnameResponse)
      → AtMost (attempts r) (correct_drift env r zi ch existing)
  unfolding correct_drift
  correct_drift-AtMost r zi ch existing =
      let refreshed = AtMost-away (refresh-Moves reads zi ch existing) in
      AtMost-if _ _ _
        (AtMost-if _ _ _ refreshed
          (AtMost-if _ _ _ refreshed (update_hostname-AtMost r zi ch existing)))
        refreshed

  reconcile_existing-AtMost :
      (r : Reconciler) (zi : ZoneInfo) (ch : CustomHostname) (existing : HostnameResponse)
      → AtMost (attempts r) (reconcile_existing env r zi ch existing)
  unfolding reconcile_existing
  reconcile_existing-AtMost r zi ch existing =
      AtMost-after _ _ (count_adoption-Moves reads ch existing)
        λ _. correct_drift-AtMost r zi (adopt ch existing) existing

  reconcile_missing-AtMost :
      (r : Reconciler) (zi : ZoneInfo) (ch : CustomHostname)
      → AtMost (attempts r) (reconcile_missing env r zi ch)
  unfolding reconcile_missing
  reconcile_missing-AtMost r zi ch = search (bounds, reads, handle_create-AtMost) depth 8

  reconcile_cloudflare_state-AtMost :
      (r : Reconciler) (zi : ZoneInfo) (ch : CustomHostname)
      → AtMost (attempts r + attempts r) (reconcile_cloudflare_state env r zi ch)
  unfolding reconcile_cloudflare_state
  reconcile_cloudflare_state-AtMost r zi ch =
      AtMost-bind _ _ (lookup-AtMost env r zi.client zi.id ch.spec.hostname) λ answer.
        search (bounds, reads, reconcile_missing-AtMost, reconcile_existing-AtMost) depth 8

  reconcile_owned-AtMost :
      (r : Reconciler) (zi : ZoneInfo) (ch : CustomHostname)
      → AtMost (attempts r + attempts r) (reconcile_owned env r zi ch)
  unfolding reconcile_owned
  reconcile_owned-AtMost r zi ch =
      AtMost-after _ _ (detect_conflict-Moves reads ch)
        λ conflict. search (bounds, reconcile_cloudflare_state-AtMost) depth 8

  reconcile_in_zone-AtMost :
      (r : Reconciler) (zi : ZoneInfo) (ch : CustomHostname)
      → AtMost (attempts r + attempts r) (reconcile_in_zone env r zi ch)
  unfolding reconcile_in_zone add_finalizer
  reconcile_in_zone-AtMost r zi ch = search (bounds, reads, reconcile_owned-AtMost) depth 10

  pub reconcile_live-AtMost :
      (r : Reconciler) (ch : CustomHostname)
      → AtMost (attempts r + attempts r) (reconcile_live env r ch)
  unfolding reconcile_live
  reconcile_live-AtMost r ch =
      AtMost-after _ _ (build_cloudflare_client-Moves reads r ch)
        λ built. search (bounds, reads, reconcile_in_zone-AtMost) depth 8
