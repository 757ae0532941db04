-- ===== src/Hostname/Guards.antt =====
-- Conflicts between custom resources, and the guards before the first call of Cloudflare.
use mathlib.Core.Path.{subst}
use cf_edge_operator.Prelude.{
  ◌≡◌, ◌≢◌, ◌↔◌, ◌⊎◌, inl, inr, String, ◌<>◌, true, false, ◌==◌, ◌!=◌, eq_iff, none, some, List, [],
  ◌∷◌, arith, if◌then◌else◌, Bool-cases, Option-cases, In, here, there,
}
use cf_edge_operator.Api.Saas.{CustomHostname}
use cf_edge_operator.Platform.Errors.{ok}
use cf_edge_operator.Platform.Calls.{Call}
use cf_edge_operator.Platform.Env.{Env}
use cf_edge_operator.Platform.Action.{World, pure, call, ◌>>=◌}
use cf_edge_operator.Hostname.Config.{
  Reconciler, reason_hostname_conflict, hostname_field, management_policy_of,
  management_policy_observe, delete_policy_of, delete_policy_never,
}
use cf_edge_operator.Hostname.Status.{
  set_condition, set_error, set_conflict, find_owner, check_peers, detect_conflict,
}
use cf_edge_operator.Hostname.Client.{ZoneInfo}
use cf_edge_operator.Hostname.Delete.{
  has_finalizer, released, release_finalizer, reconcile_deletion,
}
use cf_edge_operator.Hostname.Reconcile.{
  reconcile_owned, reconcile_in_zone, add_finalizer, with_finalizer, origin_not_in_zone,
}
use cf_edge_operator.Hostname.Recorded.{conditioned, failed_object}

abbrev pub Owns : CustomHostname → CustomHostname → Type 0
Owns ch peer = (peer.metadata.uid ≢ ch.metadata.uid) × (peer.status.id ≢ "")

Owns-if :
    (ch peer : CustomHostname)
    → (peer.metadata.uid == ch.metadata.uid) ≡ false
    → (peer.status.id != "") ≡ true
    → Owns ch peer
Owns-if ch peer other has_id = (
  λ e. ground (arith, eq_iff peer.metadata.uid ch.metadata.uid),
  λ e. ground (arith, eq_iff peer.status.id ""),
)

-- What a search for the owner finds is one of the peers, another object, with a Cloudflare ID.
find_owner_sound :
    (ch : CustomHostname) (peers : List CustomHostname) (owner : CustomHostname)
    → find_owner ch peers ≡ some owner
    → In owner peers × Owns ch owner
unfolding find_owner
find_owner_sound ch [] owner h = cc
find_owner_sound ch (peer ∷ peers) owner h =
    elim (Bool-cases (peer.metadata.uid == ch.metadata.uid)) [
      | inl itself ↦ later (find_owner_sound ch peers owner (ground arith))
      | inr other ↦ elim (Bool-cases (peer.status.id != "")) [
        | inl has_id ↦
            let e : peer ≡ owner = ground arith in
            subst (λ p. In p (peer ∷ peers) × Owns ch p) e (here, Owns-if ch peer other has_id)
        | inr no_id ↦ later (find_owner_sound ch peers owner (ground arith))
      ]
    ]
  where
    later : In owner peers × Owns ch owner → In owner (peer ∷ peers) × Owns ch owner
    later found = (there found.0, found.1)

find_owner_complete :
    (ch peer : CustomHostname) (peers : List CustomHostname)
    → In peer peers
    → Owns ch peer
    → find_owner ch peers ≢ none
unfolding find_owner
find_owner_complete ch peer _ (here {l}) o h =
    ground (arith, eq_iff peer.metadata.uid ch.metadata.uid, eq_iff peer.status.id "")
find_owner_complete ch peer _ (there {b} {l} i) o h =
    ground (arith, find_owner_complete ch peer l i o)

-- A conflict is found exactly when one of the peers is another object with a Cloudflare ID.
pub find_owner_lem :
    (ch : CustomHostname) (peers : List CustomHostname)
    → (find_owner ch peers ≢ none) ↔ ((peer : CustomHostname) × In peer peers × Owns ch peer)
find_owner_lem ch peers = (
  λ some_owner. elim (Option-cases (find_owner ch peers)) [
    | inl nothing ↦ absurd (some_owner nothing)
    | inr (owner, found) ↦
        let sound = find_owner_sound ch peers owner found in (owner, sound.0, sound.1)
  ],
  λ (peer, i, o). find_owner_complete ch peer peers i o,
)

abbrev pub conflict_message : Env → (ch owner : CustomHostname) → String
conflict_message env ch owner =
    "hostname "
    <> env.quote ch.spec.hostname
    <> " already managed by "
    <> owner.metadata.namespace
    <> "/"
    <> owner.metadata.name

-- What is recorded on an object whose hostname belongs to `owner`.
abbrev pub conflict_object : Env → (ch owner : CustomHostname) → CustomHostname
conflict_object env ch owner =
    conditioned env ch "False" reason_hostname_conflict (conflict_message env ch owner)

module _ (env : Env) (r : Reconciler) (zi : ZoneInfo) (ch : CustomHostname) (w : World) where
  -- If the search for an owner among the listed peers finds one, the reconcile lists the peers,
  -- records the conflict with that owner and stops: it makes no other call, and asks for no
  -- requeue.
  pub reconcile_owned-conflict :
      (peers : List CustomHostname) (owner : CustomHostname)
      → env.list_custom_hostnames w.trace hostname_field ch.spec.hostname ≡ ok peers
      → find_owner ch peers ≡ some owner
      → ((reconcile_owned env r zi ch w).1.trace
          ≡ Call.update_status (conflict_object env ch owner)
            ∷ Call.list_custom_hostnames hostname_field ch.spec.hostname
            ∷ w.trace)
        × ((reconcile_owned env r zi ch w).0.requeue ≡ false)
  unfolding reconcile_owned detect_conflict check_peers set_conflict set_condition ◌>>=◌ call pure
  reconcile_owned-conflict peers owner listed found = ground arith

  abbrev origin_message : String
  origin_message =
      "originServer "
      <> env.quote ch.spec.origin_server
      <> " must belong to zone "
      <> env.quote zi.domain

  -- A live object without the finalizer gets no further than the API server: the reconcile records
  -- that the origin is not in the zone, or else stores the finalizer, and makes no other call.
  reconcile_in_zone-finalizer_first :
      has_finalizer env ch ≡ false
      → (reconcile_in_zone env r zi ch w).1.trace
        ≡ (if origin_not_in_zone zi ch
            then Call.update_status (failed_object env ch "OriginNotInZone" origin_message)
            else Call.update (with_finalizer env ch))
          ∷ w.trace
  unfolding reconcile_in_zone add_finalizer set_error set_condition ◌>>=◌ call pure
  reconcile_in_zone-finalizer_first missing = ground arith

  -- An object that is being deleted and holds the finalizer, but has no Cloudflare ID, or has the
  -- policy "observe", or the delete policy "never", is released by one update and no other call.
  reconcile_deletion-released :
      has_finalizer env ch ≡ true
      → (ch.status.id ≡ "")
        ⊎ (management_policy_of r ch ≡ management_policy_observe)
        ⊎ (delete_policy_of r ch ≡ delete_policy_never)
      → (reconcile_deletion env r ch w).1.trace ≡ Call.update (released env ch) ∷ w.trace
  unfolding reconcile_deletion release_finalizer ◌>>=◌ call pure
  reconcile_deletion-released held reason = ground (
    arith,
    eq_iff ch.status.id "",
    eq_iff (management_policy_of r ch) management_policy_observe,
    eq_iff (delete_policy_of r ch) delete_policy_never,
  )
