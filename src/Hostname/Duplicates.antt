-- ===== src/Hostname/Duplicates.antt =====
-- When `reconcileCloudflareState` creates a hostname, by the answer to its lookup.
use cf_edge_operator.Prelude.{◌≡◌, ◌≢◌, refl, Bool, true, false, Option, none, some}
use cf_edge_operator.Api.Saas.{CustomHostname}
use cf_edge_operator.Api.Cloudflare.{HostnameResponse}
use cf_edge_operator.Platform.Errors.{Result, ok, err}
use cf_edge_operator.Platform.Calls.{Call}
use cf_edge_operator.Platform.Env.{Env}
use cf_edge_operator.Platform.Action.{World, Action, pure, ◌>>=◌, handle, either}
use cf_edge_operator.Platform.Emits.{
  Emits, Extends, Extends-trans, ByCalls-Progress, ByCalls-Allows,
}
use cf_edge_operator.Platform.Moves.{Moves-bind, Moves-pure}
use cf_edge_operator.Hostname.Config.{Reconciler, Outcome, finish}
use cf_edge_operator.Hostname.Status.{set_error}
use cf_edge_operator.Hostname.Client.{ZoneInfo, lookup}
use cf_edge_operator.Hostname.Update.{
  reconcile_missing, reconcile_existing, reconcile_cloudflare_state,
}
use cf_edge_operator.Hostname.Allowed.{is_cf_write, reads_emit}
use cf_edge_operator.Hostname.Allowed.Saves.{set_error-Moves}
use cf_edge_operator.Hostname.Allowed.Search.{lookup-Moves}
use cf_edge_operator.Hostname.Allowed.Live.{reconcile_existing-Moves}

abbrev pub is_create : Call → Bool
is_create (Call.cf_new _ _) = true
is_create _ = false

abbrev pub NoCreate : Call → Type 0
NoCreate c = is_create c ≡ false

others_create_nothing : (c : Call) → is_cf_write c ≡ false → NoCreate c
others_create_nothing (Call.cf_new _ _) h = cc h
others_create_nothing _ h = refl

module _ (env : Env) (r : Reconciler) (zi : ZoneInfo) (ch : CustomHostname) where
  -- What follows the lookup.
  abbrev after_lookup : Result (Option HostnameResponse) → Action Outcome
  after_lookup found =
      handle found
        (λ e. set_error env ch "LookupFailed" (env.error_text e) >>= λ failed. pure (finish failed))
        (λ existing.
          either existing (reconcile_missing env r zi ch) (reconcile_existing env r zi ch))

  after_lookup-NoCreate :
      (found : Result (Option HostnameResponse))
      → found ≢ ok none
      → Emits NoCreate (after_lookup found)
  after_lookup-NoCreate (ok none) h = absurd (h refl)
  after_lookup-NoCreate (ok (some x)) h =
      reconcile_existing-Moves (reads_emit others_create_nothing env) r ch zi x
        λ _ _. ByCalls-Allows refl
  after_lookup-NoCreate (err e) h =
      Moves-bind (ByCalls-Progress NoCreate) _ _
        (set_error-Moves (reads_emit others_create_nothing env) ch "LookupFailed"
          (env.error_text e))
        λ failed. Moves-pure (ByCalls-Progress NoCreate) _

  -- No hostname is created if the lookup found one of that name, nor if the lookup failed.
  pub reconcile_cloudflare_state-NoCreate :
      (w : World)
      → (lookup env r zi.client zi.id ch.spec.hostname w).0.1 ≢ ok none
      → Extends NoCreate w.trace (reconcile_cloudflare_state env r zi ch w).1.trace
  unfolding reconcile_cloudflare_state ◌>>=◌
  reconcile_cloudflare_state-NoCreate w found =
      let looked_up = lookup env r zi.client zi.id ch.spec.hostname w in
      Extends-trans
        ((lookup-Moves (reads_emit others_create_nothing env) r zi.client zi.id ch.spec.hostname).at
          w)
        ((after_lookup-NoCreate looked_up.0.1 found).at looked_up.1)
