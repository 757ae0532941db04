-- ===== src/Zone/Unsettled.antt =====
-- A duplicate resource whose conflict is recorded, and the drift cycles after it.
use mathlib.Core.Path.{subst}
use cf_edge_operator.Prelude.{
  ◌≡◌, ◌≢◌, sym, ap, ◌∙◌, true, false, eq_iff, Option, none, some, List, arith,
}
use cf_edge_operator.Api.Saas.{CustomHostname}
use cf_edge_operator.Api.Cloudflare.{HostnameResponse}
use cf_edge_operator.Platform.Errors.{ok}
use cf_edge_operator.Platform.Env.{Env}
use cf_edge_operator.Platform.Stored.{as_stored}
use cf_edge_operator.Platform.Action.{World}
use cf_edge_operator.Ssl.{has_drift}
use cf_edge_operator.Hostname.Config.{Reconciler, hostname_field}
use cf_edge_operator.Hostname.Status.{find_owner}
use cf_edge_operator.Hostname.Client.{ZoneInfo}
use cf_edge_operator.Hostname.Reconcile.{reconcile_owned}
use cf_edge_operator.Hostname.Recorded.{last_status}
use cf_edge_operator.Hostname.Guards.{conflict_object, reconcile_owned-conflict}
use cf_edge_operator.Zone.Drift.{enqueues_known}

-- The resource after any number of reconciles, each of which lists an owner of its hostname, and
-- after each of which what it recorded is stored.
pub data Rounds (env : Env) (r : Reconciler) (zi : ZoneInfo) (ch : CustomHostname)
    : CustomHostname → Type 0 where
  first : Rounds env r zi ch ch
  again :
      {a recorded : CustomHostname}
      → Rounds env r zi ch a
      → (w : World) (peers : List CustomHostname) (owner : CustomHostname)
      → env.list_custom_hostnames w.trace hostname_field a.spec.hostname ≡ ok peers
      → find_owner a peers ≡ some owner
      → last_status (reconcile_owned env r zi a w).1.trace ≡ some recorded
      → Rounds env r zi ch (as_stored env recorded)

-- What keeps a resource in the drift cycle.
abbrev Unsettled : (cf : HostnameResponse) → CustomHostname → Type 0
Unsettled cf ch = (has_drift cf ch ≡ false) × (cf.status ≢ ch.status.hostname_status)

Unsettled-enqueues :
    (env : Env) (cf : HostnameResponse) (ch : CustomHostname)
    → Unsettled cf ch
    → enqueues_known env ch cf ≡ true
unfolding enqueues_known
Unsettled-enqueues env cf ch (no_drift, stale) =
    ground (arith, no_drift, eq_iff cf.status ch.status.hostname_status)

conflict_object-Unsettled :
    (env : Env) (cf : HostnameResponse) (ch owner : CustomHostname)
    → Unsettled cf ch
    → Unsettled cf (as_stored env (conflict_object env ch owner))
unfolding has_drift
conflict_object-Unsettled env cf ch owner u = u

module _ (env : Env) (r : Reconciler) (zi : ZoneInfo) (cf : HostnameResponse) where
  abbrev stored_or : CustomHostname → Option CustomHostname → CustomHostname
  stored_or ch none = ch
  stored_or ch (some recorded) = as_stored env recorded

  Rounds-Unsettled :
      (ch : CustomHostname) {a : CustomHostname}
      → Unsettled cf ch
      → Rounds env r zi ch a
      → Unsettled cf a
  Rounds-Unsettled ch u first = u
  Rounds-Unsettled ch u (again {a} {recorded} rounds w peers owner listed found saved) =
      let trace = (reconcile_owned-conflict env r zi a w peers owner listed found).0 in
      let e : some recorded ≡ some (conflict_object env a owner) =
        sym saved ∙ ap last_status trace in
      subst (Unsettled cf) (sym (ap (stored_or a) e))
        (conflict_object-Unsettled env cf a owner (Rounds-Unsettled ch u rounds))

  -- If a custom resource whose spec shows no drift, but whose hostname status is not Cloudflare's,
  -- is reconciled any number of times, each time with an owner of its hostname among the listed
  -- peers, and each time what was recorded is stored, then a drift cycle that lists the hostname
  -- still enqueues it.
  pub conflict-never_settles :
      (ch : CustomHostname) {a : CustomHostname}
      → has_drift cf ch ≡ false
      → cf.status ≢ ch.status.hostname_status
      → Rounds env r zi ch a
      → enqueues_known env a cf ≡ true
  conflict-never_settles ch {a} no_drift stale rounds =
      Unsettled-enqueues env cf a (Rounds-Unsettled ch (no_drift, stale) rounds)
