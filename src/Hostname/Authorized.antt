-- ===== src/Hostname/Authorized.antt =====
-- Which writes to Cloudflare a reconcile may make, by the policies of the resource and the operator.
use cf_edge_operator.Prelude.{◌≡◌, ◌≢◌, refl, true, false, eq_iff, none, arith}
use cf_edge_operator.Api.Meta.{NamespacedName}
use cf_edge_operator.Api.Saas.{CustomHostname}
use cf_edge_operator.Platform.Errors.{ok}
use cf_edge_operator.Platform.Calls.{Call}
use cf_edge_operator.Platform.Env.{Env}
use cf_edge_operator.Platform.Action.{World, call, ◌>>=◌}
use cf_edge_operator.Platform.Emits.{
  Emits, Extends, Extends-trans, ByCalls, ByCalls-Allows, more, same,
}
use cf_edge_operator.Platform.Moves.{Moves-either}
use cf_edge_operator.Hostname.Config.{
  Reconciler, management_policy_of, management_policy_manage, management_policy_observe,
  delete_policy_of, delete_policy_never,
}
use cf_edge_operator.Hostname.Create.{new_params}
use cf_edge_operator.Hostname.Update.{edit_params}
use cf_edge_operator.Hostname.Delete.{has_finalizer}
use cf_edge_operator.Hostname.Reconcile.{reconcile_object, reconcile}
use cf_edge_operator.Hostname.Allowed.{is_cf_write, AllowsReads, reads_emit}
use cf_edge_operator.Hostname.Allowed.Live.{AllowsLive, reconcile_live-Moves}
use cf_edge_operator.Hostname.Allowed.Deletion.{AllowsDelete, reconcile_deletion-Moves}

-- The writes that the policies allow for the object.
abbrev pub Authorized : Env → Reconciler → CustomHostname → Call → Type 0
Authorized env r ch (Call.cf_new client p) =
    (r.dry_run ≡ false)
    × (ch.metadata.deletion_timestamp ≡ none)
    × (has_finalizer env ch ≡ true)
    × (management_policy_of r ch ≢ management_policy_observe)
    × (p.hostname ≡ ch.spec.hostname)
    × (p.custom_origin_server ≡ ch.spec.origin_server)
Authorized env r ch (Call.cf_edit client id p) =
    (r.dry_run ≡ false)
    × (ch.metadata.deletion_timestamp ≡ none)
    × (has_finalizer env ch ≡ true)
    × (management_policy_of r ch ≡ management_policy_manage)
    × (p.custom_origin_server ≡ ch.spec.origin_server)
    × (p.custom_origin_sni ≡ ch.spec.origin_sni)
Authorized env r ch (Call.cf_delete client id p) =
    (r.dry_run ≡ false)
    × (ch.metadata.deletion_timestamp ≢ none)
    × (has_finalizer env ch ≡ true)
    × (management_policy_of r ch ≢ management_policy_observe)
    × (delete_policy_of r ch ≢ delete_policy_never)
    × (id ≡ ch.status.id)
    × (id ≢ "")
Authorized env r ch _ = Unit

module _ (env : Env) (r : Reconciler) (ch : CustomHostname) where
  others_authorized : (c : Call) → is_cf_write c ≡ false → Authorized env r ch c
  others_authorized (Call.cf_new _ _) h = cc
  others_authorized (Call.cf_edit _ _ _) h = cc
  others_authorized (Call.cf_delete _ _ _) h = cc
  others_authorized _ h = tt

  reads_authorized : AllowsReads true true (ByCalls (Authorized env r ch)) env
  reads_authorized = reads_emit others_authorized env

  live_authorized : ch.metadata.deletion_timestamp ≡ none → AllowsLive reads_authorized r ch
  unfolding new_params edit_params
  live_authorized live zi in_zone held = record {
    create = λ not_observed real. ByCalls-Allows (
      real,
      live,
      ground (arith, held),
      λ e. ground (arith, eq_iff (management_policy_of r ch) management_policy_observe),
      refl,
      refl,
    );
    edit = λ existing manages real. ByCalls-Allows (
      real,
      live,
      ground (arith, held),
      ground (arith, eq_iff (management_policy_of r ch) management_policy_manage),
      refl,
      refl,
    );
  }

  deletion_authorized : ch.metadata.deletion_timestamp ≢ none → AllowsDelete reads_authorized r ch
  deletion_authorized deleted client zone_id has_id not_observed may_delete real owned =
      ByCalls-Allows (
        real,
        deleted,
        owned,
        λ e. ground (arith, eq_iff (management_policy_of r ch) management_policy_observe),
        λ e. ground (arith, eq_iff (delete_policy_of r ch) delete_policy_never),
        refl,
        λ e. ground (arith, eq_iff ch.status.id ""),
      )

  -- Every call of a reconcile of the object is authorized.
  pub reconcile_object-authorized : Emits (Authorized env r ch) (reconcile_object env r ch)
  unfolding reconcile_object
  reconcile_object-authorized =
      Moves-either _ _ _ (λ live. reconcile_live-Moves reads_authorized r ch (live_authorized live))
        (λ t deleted.
          reconcile_deletion-Moves reads_authorized r ch (deletion_authorized λ e. cc (e, deleted)))

-- What `Reconcile` sends to Cloudflare, for the object that the API server returns. Whatever the
-- servers answer, each write is authorized. Nothing is written in a dry run, or for an object
-- without the finalizer. A hostname is created for a live object, not under the policy "observe",
-- with the object's hostname and origin. One is edited for a live object, under the policy "manage"
-- alone, with the object's origin and SNI. One is deleted for an object that is being deleted, not
-- under "observe" or the delete policy "never", by the ID recorded in its status, which is not
-- empty.
pub reconcile-authorized :
    (env : Env) (r : Reconciler) (key : NamespacedName) (ch : CustomHostname) (w : World)
    → env.get_custom_hostname w.trace key ≡ ok ch
    → Extends (Authorized env r ch) w.trace (reconcile env r key w).1.trace
unfolding reconcile ◌>>=◌ call
reconcile-authorized env r key ch w found =
    rw found (Extends-trans (more same tt) ((reconcile_object-authorized env r ch).at _))
