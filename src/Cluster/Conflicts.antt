-- ===== src/Cluster/Conflicts.antt =====
-- `detectConflict` against the cluster.
use cf_edge_operator.Prelude.{
  ◌≡◌, refl, ap, ◌∙◌, Bool, true, false, not, ◌==◌, ◌!=◌, ◌&&◌, Option, none, some, any, List, [],
  ◌∷◌, arith,
}
use cf_edge_operator.Api.Saas.{CustomHostname}
use cf_edge_operator.Platform.Errors.{ok}
use cf_edge_operator.Platform.Calls.{Trace}
use cf_edge_operator.Platform.Env.{Env}
use cf_edge_operator.Platform.Action.{World, call, pure, ◌>>=◌}
use cf_edge_operator.Hostname.Config.{hostname_field}
use cf_edge_operator.Hostname.Status.{find_owner, check_peers, detect_conflict}
use cf_edge_operator.Zone.Sent.{select}
use cf_edge_operator.Config.{one_of}
use cf_edge_operator.Cluster.{is_indexed, ListsByIndex}

-- The other resource is for the same hostname, and has a Cloudflare ID.
abbrev pub contends : CustomHostname → CustomHostname → Bool
contends ch other =
    ch.spec.hostname == other.spec.hostname
    && not (other.metadata.uid == ch.metadata.uid)
    && other.status.id != ""

abbrev found : Option CustomHostname → Bool
found none = false
found (some _) = true

find_owner-any :
    (ch : CustomHostname) (objects : List CustomHostname)
    → found (find_owner ch (select (is_indexed hostname_field ch.spec.hostname) objects))
      ≡ any (contends ch) objects
unfolding find_owner one_of
find_owner-any ch [] = refl
find_owner-any ch (o ∷ objects) = ground (arith, find_owner-any ch objects)

check_peers-found :
    (env : Env) (ch : CustomHostname) (owner : Option CustomHostname) (w : World)
    → (check_peers env ch owner w).0.0 ≡ found owner
unfolding check_peers ◌>>=◌ pure
check_peers-found env ch none w = refl
check_peers-found env ch (some owner) w = refl

-- Where lists go by the index, and the list of the peers succeeds, a conflict is found exactly when the
-- cluster has, in any namespace, another resource for the same hostname with a Cloudflare ID.
pub detect_conflict-cluster :
    (env : Env) (cluster : Trace → List CustomHostname) (ch : CustomHostname) (w : World)
    (peers : List CustomHostname)
    → ListsByIndex env cluster
    → env.list_custom_hostnames w.trace hostname_field ch.spec.hostname ≡ ok peers
    → (detect_conflict env ch w).0.0 ≡ any (contends ch) (cluster w.trace)
unfolding detect_conflict ◌>>=◌ call
detect_conflict-cluster env cluster ch w peers by_index listed = rw listed (
    check_peers-found env ch (find_owner ch peers) _
    ∙ ap (λ items. found (find_owner ch items)) (by_index.lists w.trace _ _ peers listed)
    ∙ find_owner-any ch (cluster w.trace))
