-- ===== src/Hostname/Plan.antt =====
-- An abstract worker: what a reconcile means to send to Cloudflare, as a function of the policies, of the
-- resource and of the hostname that the lookup finds. The code is compared with it in the modules below.
pub mod Writes
pub mod Live
pub mod Deletion
use cf_edge_operator.Prelude.{
  ℕ, String, ◌+◌, ◌≤◌, ◌==◌, ◌!=◌, ◌||◌, ◌≡◌, Bool, true, false, not, ◌&&◌, Option, none, some,
  if◌then◌else◌,
}
use cf_edge_operator.Api.Saas.{CustomHostname}
use cf_edge_operator.Api.Cloudflare.{HostnameResponse, CfClient}
use cf_edge_operator.Platform.Calls.{Call, Trace}
use cf_edge_operator.Platform.Env.{Env}
use cf_edge_operator.Platform.Emits.{Extends}
use cf_edge_operator.Metrics.Retry.{count}
use cf_edge_operator.Ssl.{has_drift}
use cf_edge_operator.Hostname.Config.{
  Reconciler, management_policy_of, management_policy_manage, management_policy_observe,
  delete_policy_of, delete_policy_never, delete_policy_own_only,
}
use cf_edge_operator.Hostname.Client.{ZoneInfo}
use cf_edge_operator.Hostname.Create.{new_params}
use cf_edge_operator.Hostname.Update.{edit_params}
use cf_edge_operator.Hostname.Delete.{has_finalizer, delete_params}
use cf_edge_operator.Hostname.Allowed.{is_cf_write}

pub data Plan : Type 0 where
  rest : Plan
  send : Call → Plan

-- For a live resource: a missing hostname is created, unless the policy is "observe". One that differs
-- is edited under "manage" alone. A dry run sends nothing.
abbrev pub live_plan : Reconciler → ZoneInfo → CustomHostname → Option HostnameResponse → Plan
live_plan r zi ch none =
    if management_policy_of r ch == management_policy_observe
    then Plan.rest
    else if r.dry_run
    then Plan.rest
    else Plan.send (Call.cf_new zi.client (new_params r zi ch))
live_plan r zi ch (some existing) =
    if has_drift existing ch
      && management_policy_of r ch == management_policy_manage
      && not r.dry_run
    then Plan.send (Call.cf_edit zi.client existing.id (edit_params r zi ch existing))
    else Plan.rest

abbrev pub is_own : CustomHostname → Option HostnameResponse → Bool
is_own ch none = false
is_own ch (some current) = current.id == ch.status.id

-- For a resource that is being deleted: its hostname is deleted by the recorded ID, where there is one and
-- the resource holds the finalizer, not under "observe" or "never", and under "own-only" if the
-- hostname that is found has this ID. A dry run sends nothing.
abbrev pub deletion_plan :
    Env → Reconciler → CfClient → String → CustomHostname → Option HostnameResponse → Plan
deletion_plan env r client zone_id ch found =
    if has_finalizer env ch
      && ch.status.id != ""
      && management_policy_of r ch != management_policy_observe
      && delete_policy_of r ch != delete_policy_never
      && not r.dry_run
      && (delete_policy_of r ch != delete_policy_own_only || is_own ch found)
    then Plan.send (Call.cf_delete client ch.status.id (delete_params r zone_id))
    else Plan.rest

-- Of the calls that are new, those that write to Cloudflare all satisfy the plan.
abbrev pub OnlyPlanned : Plan → Call → Type 0
OnlyPlanned Plan.rest c = is_cf_write c ≡ false
OnlyPlanned (Plan.send planned) c = is_cf_write c ≡ true → c ≡ planned

abbrev pub AsOften : Plan → ℕ → ℕ → Type 0
AsOften Plan.rest limit n = n ≡ 0
AsOften (Plan.send planned) limit n = (1 ≤ n) × (n ≤ limit)

-- The new calls carry the plan out: they write nothing else to Cloudflare, and where the plan is to
-- send a request, they send it at least once and at most `limit` times.
pub record CarriesOut (plan : Plan) (limit : ℕ) (old new : Trace) : Type 0 where
  pub only : Extends (OnlyPlanned plan) old new
  pub times : ℕ
  pub often : AsOften plan limit times
  pub counted : count is_cf_write new ≡ count is_cf_write old + times

abbrev pub NoWrite : Call → Type 0
NoWrite c = is_cf_write c ≡ false

pub reads_allowed : (c : Call) → is_cf_write c ≡ false → NoWrite c
reads_allowed c h = h
