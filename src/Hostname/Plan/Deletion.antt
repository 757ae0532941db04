-- ===== src/Hostname/Plan/Deletion.antt =====
-- The deletion against the plan for a resource that is being deleted.
use mathlib.Core.Path.{subst}
use cf_edge_operator.Prelude.{
  ℕ, ◌+◌, ◌≡◌, refl, String, ◌==◌, not, ◌&&◌, Option, none, some, if◌then◌else◌, arith, eq_iff, [],
  ◌∷◌,
}
use cf_edge_operator.Api.Saas.{CustomHostname}
use cf_edge_operator.Api.Cloudflare.{HostnameResponse, CfClient}
use cf_edge_operator.Platform.Errors.{Err, Result, ok, has_status_code}
use cf_edge_operator.Platform.Calls.{Call, operations_total}
use cf_edge_operator.Platform.Env.{Env}
use cf_edge_operator.Platform.Action.{World, Action, pure, ◌>>=◌, ◌>>◌}
use cf_edge_operator.Platform.Emits.{Emits, ByCalls, ByCalls-Progress, ByCalls-Allows}
use cf_edge_operator.Platform.Moves.{
  Progress, Moves-bind, Moves-call, Moves-pure, Moves-handle, Moves-if,
}
use cf_edge_operator.Metrics.{cf_resource_custom_hostname, cf_op_delete, cf_retry, inc_counter}
use cf_edge_operator.Hostname.Config.{
  Reconciler, Outcome, finish, pace_write, management_policy_of, management_policy_observe,
  delete_policy_of, delete_policy_never, delete_policy_own_only,
}
use cf_edge_operator.Hostname.Client.{ZoneInfo, lookup, build_cloudflare_client}
use cf_edge_operator.Hostname.Delete.{
  has_finalizer, release_finalizer, should_delete_in_cf, delete_params, result_of, delete_call,
  delete_hostname, delete_own, handle_delete, delete_in_cloudflare, reconcile_deletion,
}
use cf_edge_operator.Hostname.Allowed.{reads_emit, pace_write-Moves, build_cloudflare_client-Moves}
use cf_edge_operator.Hostname.Allowed.Saves.{release_finalizer-Moves}
use cf_edge_operator.Hostname.Allowed.Search.{lookup-Moves}
use cf_edge_operator.Hostname.Plan.{Plan, CarriesOut, deletion_plan, NoWrite, reads_allowed}
use cf_edge_operator.Hostname.Plan.Writes.{
  rests, CarriesOut-then, CarriesOut-after, CarriesOut-if, cf_retry-CarriesOut,
}

module _ (env : Env) (r : Reconciler) (client : CfClient) (zone_id : String)
    (ch : CustomHostname) where
  chained : Progress (ByCalls NoWrite)
  chained = ByCalls-Progress NoWrite

  release-NoWrite : Emits NoWrite (release_finalizer env ch)
  release-NoWrite = release_finalizer-Moves (reads_emit reads_allowed env) ch

  abbrev delete : Plan
  delete = Plan.send (Call.cf_delete client ch.status.id (delete_params r zone_id))

  abbrev tries : Action (ℕ × Result (Unit {0}))
  tries =
      cf_retry env cf_resource_custom_hostname cf_op_delete r.cf_api_max_retries
        (delete_call env r client zone_id ch.status.id)

  delete_sent : (w : World) → CarriesOut delete (r.cf_api_max_retries + 1) w.trace (tries w).1.trace
  unfolding delete_call
  delete_sent w =
      cf_retry-CarriesOut env cf_resource_custom_hostname cf_op_delete _
        (λ t. env.cf_delete t client ch.status.id (delete_params r zone_id)) (λ e. e) result_of
        r.cf_api_max_retries w refl refl refl

  abbrev after_delete : Action Outcome
  after_delete = do
    inc_counter operations_total (cf_resource_custom_hostname ∷ cf_op_delete ∷ [])
    pace_write r
    release_finalizer env ch

  after_delete-NoWrite : Emits NoWrite after_delete
  unfolding ◌>>=◌
  after_delete-NoWrite = Moves-bind chained _ _ (Moves-call chained _ _ (ByCalls-Allows refl)) λ _.
      Moves-bind chained _ _ (pace_write-Moves (reads_emit reads_allowed env) r)
        λ _. release-NoWrite

  failed-NoWrite :
      (e : Err)
      → Emits NoWrite
          (if has_status_code e 404 then release_finalizer env ch else pure (finish (some e)))
  failed-NoWrite e =
      Moves-if (has_status_code e 404) _ _ (λ gone. release-NoWrite) λ other. Moves-pure chained _

  delete_hostname-CarriesOut :
      (w : World)
      → CarriesOut delete
          (r.cf_api_max_retries + 1)
          w.trace
          (delete_hostname env r client zone_id ch w).1.trace
  unfolding delete_hostname ◌>>=◌
  delete_hostname-CarriesOut w = CarriesOut-then delete (delete_sent w) (
      (Moves-handle (tries w).0.1 _ _ (λ e _. failed-NoWrite e) λ _ _. after_delete-NoWrite).at
        (tries w).1)

  abbrev own_plan : (found : Option HostnameResponse) → Plan
  own_plan found = if not (should_delete_in_cf ch.status.id found) then Plan.rest else delete

  delete_own-CarriesOut :
      (found : Option HostnameResponse) (w : World)
      → (lookup env r client zone_id ch.spec.hostname w).0.1 ≡ ok found
      → CarriesOut
          (own_plan found)
          (r.cf_api_max_retries + 1)
          w.trace
          (delete_own env r client zone_id ch w).1.trace
  unfolding delete_own ◌>>=◌
  delete_own-CarriesOut found w answered =
      let looked_up = lookup env r client zone_id ch.spec.hostname w in
      CarriesOut-after (own_plan found)
        ((lookup-Moves (reads_emit reads_allowed env) r client zone_id ch.spec.hostname).at w)
        (rw answered (
          CarriesOut-if (not (should_delete_in_cf ch.status.id found)) _ _ _ _ _ looked_up.1
            (λ other. rests (release-NoWrite.at looked_up.1))
            λ own. delete_hostname-CarriesOut looked_up.1))

  abbrev handle_plan : (found : Option HostnameResponse) → Plan
  handle_plan found =
      if r.dry_run
      then Plan.rest
      else if has_finalizer env ch
      then (if delete_policy_of r ch == delete_policy_own_only then own_plan found else delete)
      else Plan.rest

  handle_delete-CarriesOut :
      (found : Option HostnameResponse) (w : World)
      → (delete_policy_of r ch ≡ delete_policy_own_only
          → (lookup env r client zone_id ch.spec.hostname w).0.1 ≡ ok found)
      → CarriesOut
          (handle_plan found)
          (r.cf_api_max_retries + 1)
          w.trace
          (handle_delete env r client zone_id ch w).1.trace
  unfolding handle_delete
  handle_delete-CarriesOut found w answered =
      CarriesOut-if r.dry_run _ _ _ _ _ w (λ dry. rests (release-NoWrite.at w))
        λ real.
          CarriesOut-if (has_finalizer env ch) _ _ _ _ _ w
            (λ held.
              CarriesOut-if (delete_policy_of r ch == delete_policy_own_only) _ _ _ _ _ w
                (λ own_only. delete_own-CarriesOut found w (answered ((eq_iff _ _).0 own_only)))
                λ always. delete_hostname-CarriesOut w)
            λ free. rests (release-NoWrite.at w)

  ladder :
      (found : Option HostnameResponse)
      → (if has_finalizer env ch && ch.status.id == ""
          then Plan.rest
          else if has_finalizer env ch && management_policy_of r ch == management_policy_observe
          then Plan.rest
          else if has_finalizer env ch && delete_policy_of r ch == delete_policy_never
          then Plan.rest
          else handle_plan found)
        ≡ deletion_plan env r client zone_id ch found
  unfolding should_delete_in_cf
  ladder none = ground arith
  ladder (some current) = ground arith

module _ (env : Env) (r : Reconciler) (zi : ZoneInfo) (ch : CustomHostname) where
  -- The world in which the deletion begins, once the client is built.
  abbrev pub connected : World → World
  connected w = (build_cloudflare_client env r ch w).1

  -- What a lookup answers is asked for under "own-only" alone.
  abbrev pub LooksUp : World → Option HostnameResponse → Type 0
  LooksUp w found =
      delete_policy_of r ch ≡ delete_policy_own_only
      → (lookup env r zi.client zi.id ch.spec.hostname (connected w)).0.1 ≡ ok found

  delete_in_cloudflare-CarriesOut :
      (found : Option HostnameResponse) (w : World)
      → (build_cloudflare_client env r ch w).0 ≡ ok zi
      → LooksUp w found
      → CarriesOut
          (handle_plan env r zi.client zi.id ch found)
          (r.cf_api_max_retries + 1)
          w.trace
          (delete_in_cloudflare env r ch w).1.trace
  unfolding delete_in_cloudflare ◌>>=◌
  delete_in_cloudflare-CarriesOut found w built answered =
      CarriesOut-after (handle_plan env r zi.client zi.id ch found)
        ((build_cloudflare_client-Moves (reads_emit reads_allowed env) r ch).at w)
        (rw built (handle_delete-CarriesOut env r zi.client zi.id ch found (connected w) answered))

  -- If the client for the zone can be built, and under "own-only" the lookup of the hostname is
  -- answered, the worker carries out the plan for a resource that is being deleted. Where the plan
  -- is to delete the hostname, it sends the request with the recorded ID at least once, and at most
  -- once more than it has retries. It makes no other write to Cloudflare, and none at all where the
  -- plan is to rest.
  pub reconcile_deletion-refines :
      (found : Option HostnameResponse) (w : World)
      → (build_cloudflare_client env r ch w).0 ≡ ok zi
      → LooksUp w found
      → CarriesOut
          (deletion_plan env r zi.client zi.id ch found)
          (r.cf_api_max_retries + 1)
          w.trace
          (reconcile_deletion env r ch w).1.trace
  unfolding reconcile_deletion
  reconcile_deletion-refines found w built answered =
      let released = rests ((release-NoWrite env r zi.client zi.id ch).at w) in
      subst
        (λ plan.
          CarriesOut plan (r.cf_api_max_retries + 1) w.trace
            (reconcile_deletion env r ch w).1.trace)
        (ladder env r zi.client zi.id ch found)
        (CarriesOut-if (has_finalizer env ch && ch.status.id == "") _ _ _ _ _ w (λ no_id. released)
          λ has_id.
            CarriesOut-if
              (has_finalizer env ch && management_policy_of r ch == management_policy_observe) _ _ _
              _ _ w (λ observes. released)
              λ manages.
                CarriesOut-if (has_finalizer env ch && delete_policy_of r ch == delete_policy_never)
                  _ _ _ _ _ w (λ never. released)
                  λ deletes. delete_in_cloudflare-CarriesOut found w built answered)
