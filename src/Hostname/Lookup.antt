-- ===== src/Hostname/Lookup.antt =====
-- The lookup by hostname, and the deletion that depends on it.
use mathlib.Core.Path.{subst}
use cf_edge_operator.Prelude.{
  ℕ, ◌≡◌, ◌≢◌, inl, inr, refl, String, ◌==◌, eq_iff, Option, none, some, List, [], ◌∷◌, arith,
  if◌then◌else◌, Bool-cases, In, here, there,
}
use cf_edge_operator.Api.Saas.{CustomHostname}
use cf_edge_operator.Api.Cloudflare.{HostnameResponse, CfClient}
use cf_edge_operator.Platform.Errors.{Err, Result, ok, err, has_status_code}
use cf_edge_operator.Platform.Calls.{Call, Trace}
use cf_edge_operator.Platform.Env.{Env}
use cf_edge_operator.Platform.Action.{World, pure, call, peek, ◌>>=◌, handle}
use cf_edge_operator.Hostname.Config.{Reconciler, Outcome, finish}
use cf_edge_operator.Api.Cloudflare.{ListParams}
use cf_edge_operator.Platform.Env.{Pages}
use cf_edge_operator.Platform.Calls.{operations_total}
use cf_edge_operator.Hostname.Config.{pace_write}
use cf_edge_operator.Metrics.{inc_counter, cf_retry, cf_resource_custom_hostname, cf_op_delete}
use cf_edge_operator.Hostname.Client.{first_match, no_match, find_by_hostname, lookup}
use cf_edge_operator.Hostname.Delete.{
  released, release_finalizer, should_delete_in_cf, delete_call, delete_hostname, delete_own,
}

abbrev Absent : String → List HostnameResponse → Type 0
Absent hostname items = (x : HostnameResponse) → In x items → x.hostname ≢ hostname

-- What the answer to a lookup says of the pages that Cloudflare listed.
abbrev pub Answers : Pages → String → Result (Option HostnameResponse) → Type 0
Answers pages hostname (ok (some x)) = In x pages.items × (x.hostname ≡ hostname)
Answers pages hostname (ok none) = Absent hostname pages.items × (pages.error ≡ none)
Answers pages hostname (err e) = Absent hostname pages.items × (pages.error ≡ some e)

first_match-some :
    (hostname : String) (items : List HostnameResponse) (x : HostnameResponse)
    → first_match hostname items ≡ some x
    → In x items × (x.hostname ≡ hostname)
unfolding first_match
first_match-some hostname [] x h = cc
first_match-some hostname (y ∷ items) x h = elim (Bool-cases (y.hostname == hostname)) [
  | inl match ↦
      let e : y ≡ x = ground arith in
      subst (λ z. In z (y ∷ items) × (z.hostname ≡ hostname)) e
        (here, (eq_iff y.hostname hostname).0 match)
  | inr other ↦
      let found = first_match-some hostname items x (ground arith) in (there found.0, found.1)
]

first_match-none :
    (hostname : String) (x : HostnameResponse) (items : List HostnameResponse)
    → first_match hostname items ≡ none
    → In x items
    → x.hostname ≢ hostname
unfolding first_match
first_match-none hostname x _ h (here {l}) e = ground (arith, eq_iff x.hostname hostname)
first_match-none hostname x _ h (there {b} {l} i) e =
    first_match-none hostname x l (ground arith) i e

abbrev answer : Option HostnameResponse → Option Err → Result (Option HostnameResponse)
answer none error = no_match error
answer (some x) error = ok (some x)

answer-Answers :
    (pages : Pages) (hostname : String) (m : Option HostnameResponse) (error : Option Err)
    → first_match hostname pages.items ≡ m
    → pages.error ≡ error
    → Answers pages hostname (answer m error)
answer-Answers pages hostname (some x) error found e = first_match-some hostname pages.items x found
answer-Answers pages hostname none none missing e =
    (λ x i. first_match-none hostname x pages.items missing i, e)
answer-Answers pages hostname none (some error) missing e =
    (λ x i. first_match-none hostname x pages.items missing i, e)

module _ (env : Env) (client : CfClient) (zone_id hostname : String) where
  abbrev lookup_params : ListParams
  lookup_params = record {
    zone_id = zone_id;
    hostname = some hostname;
    per_page = none;
    max_retries = none;
    request_timeout = none;
  }

  -- The lookup returns a listed hostname with exactly the name that was asked for, also if a later
  -- page failed. If it returns nothing, no listed hostname has that name and the listing did not
  -- fail. If it returns an error, that is the error of the listing, and no listed hostname has
  -- that name.
  pub find_by_hostname-Answers :
      (w : World)
      → Answers
          (env.cf_list w.trace client lookup_params)
          hostname
          (find_by_hostname env client zone_id hostname w).0
  unfolding find_by_hostname ◌>>=◌ call peek pure
  find_by_hostname-Answers w =
      let pages : Pages = env.cf_list w.trace client lookup_params in
      let value : answer (first_match hostname pages.items) pages.error
          ≡ (find_by_hostname env client zone_id hostname w).0 =
        ground arith in
      subst (Answers pages hostname) value
        (answer-Answers pages hostname (first_match hostname pages.items) pages.error refl refl)

module _ (env : Env) (r : Reconciler) (client : CfClient) (zone_id : String)
    (ch : CustomHostname) where
  abbrev release_call : Call
  release_call = Call.update (released env ch)

  -- Under "own-only", if the lookup finds no hostname, or one whose ID is not the recorded one, the
  -- finalizer is released by one update straight after the lookup: nothing is deleted.
  delete_own-other :
      (w : World) (current : Option HostnameResponse)
      → (lookup env r client zone_id ch.spec.hostname w).0.1 ≡ ok current
      → ((x : HostnameResponse) → current ≡ some x → x.id ≢ ch.status.id)
      → (delete_own env r client zone_id ch w).1.trace
        ≡ release_call ∷ (lookup env r client zone_id ch.spec.hostname w).1.trace
  unfolding delete_own should_delete_in_cf release_finalizer ◌>>=◌ call pure
  delete_own-other w none found other = ground arith
  delete_own-other w (some x) found other = ground (arith, eq_iff x.id ch.status.id, other x refl)

  abbrev delete_answer : World → (ℕ × Result (Unit {0})) × World
  delete_answer w =
      cf_retry env cf_resource_custom_hostname cf_op_delete r.cf_api_max_retries
        (delete_call env r client zone_id ch.status.id) w

  -- How the deletion of a hostname ends, by the answer to the delete call.
  abbrev pub DeleteEnds :
      (answer : Result (Unit {0})) (asked : Trace) (end : Outcome × World) → Type 0
  DeleteEnds (ok done) asked end = (t : Trace) × (end.1.trace ≡ release_call ∷ t)
  DeleteEnds (err e) asked end = end ≡ (
      if has_status_code e 404
      then (
        finish (env.update asked (released env ch)),
        record end.1 { trace = release_call ∷ asked },
      )
      else (finish (some e), record end.1 { trace = asked }))

  finish_delete-DeleteEnds :
      (answer : Result (Unit {0})) (w : World)
      → DeleteEnds answer w.trace (
          handle answer
            (λ e.
              if has_status_code e 404 then release_finalizer env ch else pure (finish (some e)))
            (λ _.
              inc_counter operations_total (cf_resource_custom_hostname ∷ cf_op_delete ∷ [])
              >>= λ _. pace_write r >>= λ _. release_finalizer env ch)
            w)
  unfolding release_finalizer ◌>>=◌ call pure
  finish_delete-DeleteEnds (ok done) w = (_, refl)
  finish_delete-DeleteEnds (err e) w = ground arith

  -- The finalizer is released if the hostname was deleted, or was not there (error 404). After any
  -- other error no update is sent, and the error is returned, for a retry with backoff.
  pub delete_hostname-DeleteEnds :
      (w : World)
      → let asked = delete_answer w in
        DeleteEnds asked.0.1 asked.1.trace (delete_hostname env r client zone_id ch w)
  unfolding delete_hostname ◌>>=◌
  delete_hostname-DeleteEnds w = finish_delete-DeleteEnds _ _
