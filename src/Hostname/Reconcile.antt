-- ===== src/Hostname/Reconcile.antt =====
-- `Reconcile` of the custom hostname controller, and the filter on its events.
use cf_edge_operator.Prelude.{
  ◌-◌, String, ◌<>◌, ◌==◌, ◌!=◌, Bool, true, not, ◌&&◌, Option, none, some, leb, nat_beq,
  if◌then◌else◌,
}
use cf_edge_operator.Api.Meta.{NamespacedName}
use cf_edge_operator.Api.Saas.{CustomHostname}
use cf_edge_operator.Platform.Errors.{Err, is_not_found}
use cf_edge_operator.Platform.Calls.{Call}
use cf_edge_operator.Platform.Env.{Env}
use cf_edge_operator.Platform.Action.{Action, pure, call, ◌>>=◌, handle, either}
use Prim.Native.String.{len, slice}
use cf_edge_operator.Hostname.Config.{Reconciler, Outcome, finish, finalizer_name}
use cf_edge_operator.Hostname.Status.{set_error, detect_conflict}
use cf_edge_operator.Hostname.Client.{ZoneInfo, build_cloudflare_client}
use cf_edge_operator.Hostname.Update.{reconcile_cloudflare_state}
use cf_edge_operator.Hostname.Delete.{has_finalizer, reconcile_deletion}

-- `strings.HasSuffix`
unfoldable pub has_suffix : String → String → Bool
has_suffix s suffix = leb (len suffix) (len s) && slice s (len s - len suffix) (len s) == suffix

unfoldable pub origin_not_in_zone : ZoneInfo → CustomHostname → Bool
origin_not_in_zone zi ch =
    zi.domain != ""
    && not (has_suffix ch.spec.origin_server ("." <> zi.domain))
    && ch.spec.origin_server != zi.domain

unfoldable pub with_finalizer : Env → CustomHostname → CustomHostname
with_finalizer env ch = record ch {
  metadata = record ch.metadata {
    finalizers = env.add_finalizer ch.metadata.finalizers finalizer_name;
  };
}

-- The object is reconciled again once its finalizer is stored.
unfoldable pub add_finalizer : Env → CustomHostname → Action Outcome
add_finalizer env ch = do
  e ← call (Call.update (with_finalizer env ch)) (λ t. env.update t (with_finalizer env ch))
  either e (pure (record { requeue = true; requeue_after = 0; error = none }))
      (λ x. pure (finish (some x)))

unfoldable pub reconcile_owned : Env → Reconciler → ZoneInfo → CustomHostname → Action Outcome
reconcile_owned env r zi ch = do
  (conflicted, e) ← detect_conflict env ch
  either e (if conflicted then pure (finish none) else reconcile_cloudflare_state env r zi ch)
      (λ x. pure (finish (some x)))

unfoldable pub reconcile_in_zone : Env → Reconciler → ZoneInfo → CustomHostname → Action Outcome
reconcile_in_zone env r zi ch =
    if origin_not_in_zone zi ch
    then (do
      failed ← set_error env ch "OriginNotInZone" (
          "originServer "
          <> env.quote ch.spec.origin_server
          <> " must belong to zone "
          <> env.quote zi.domain)
      pure (finish failed))
    else if not (has_finalizer env ch)
    then add_finalizer env ch
    else reconcile_owned env r zi ch

unfoldable pub reconcile_live : Env → Reconciler → CustomHostname → Action Outcome
reconcile_live env r ch = do
  built ← build_cloudflare_client env r ch
  handle built
      (λ e. do failed ← set_error env ch "ZoneError" (env.error_text e); pure (finish failed))
      (λ zi. reconcile_in_zone env r zi ch)

unfoldable pub reconcile_object : Env → Reconciler → CustomHostname → Action Outcome
reconcile_object env r ch =
    either ch.metadata.deletion_timestamp (reconcile_live env r ch)
      (λ _. reconcile_deletion env r ch)

-- `client.IgnoreNotFound`
abbrev pub ignore_not_found : Err → Option Err
ignore_not_found e = if is_not_found e then none else some e

unfoldable pub reconcile : Env → Reconciler → NamespacedName → Action Outcome
reconcile env r key = do
  found ← call (Call.get_custom_hostname key) (λ t. env.get_custom_hostname t key)
  handle found (λ e. pure (finish (ignore_not_found e))) (λ ch. reconcile_object env r ch)

-- `fastWritePredicate`
unfoldable pub passes_create : CustomHostname → Bool
passes_create ch = elim ch.metadata.deletion_timestamp [ none ↦ ch.status.id == "" | some _ ↦ true ]

unfoldable pub passes_update : (old new : CustomHostname) → Bool
passes_update old new = not (nat_beq old.metadata.generation new.metadata.generation)

unfoldable pub passes_delete : CustomHostname → Bool
passes_delete ch = true
