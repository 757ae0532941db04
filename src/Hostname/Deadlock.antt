-- ===== src/Hostname/Deadlock.antt =====
-- Two custom resources for one hostname that both have a Cloudflare ID: the steps of the worker on
-- them, one reconcile at a time and in any order.
use cf_edge_operator.Prelude.{
  ◌≡◌, ◌≢◌, sym, ap, ◌∙◌, String, Option, none, some, List, ◌∷◌, In, inl, inr, Option-cases,
}
use cf_edge_operator.Api.Saas.{CustomHostname}
use cf_edge_operator.Platform.Errors.{ok}
use cf_edge_operator.Platform.Calls.{Call}
use cf_edge_operator.Platform.Env.{Env}
use cf_edge_operator.Platform.Action.{World}
use cf_edge_operator.Hostname.Config.{Reconciler, hostname_field}
use cf_edge_operator.Hostname.Client.{ZoneInfo}
use cf_edge_operator.Hostname.Status.{find_owner}
use cf_edge_operator.Hostname.Reconcile.{reconcile_owned}
use cf_edge_operator.Hostname.Recorded.{last_status}
use cf_edge_operator.Hostname.Guards.{
  Owns, conflict_object, find_owner_lem, reconcile_owned-conflict,
}

-- Each is the owner of the hostname to the other.
abbrev pub Mutual : (a b : CustomHostname) → Type 0
Mutual a b = Owns a b × Owns b a

Mutual-if :
    (a b : CustomHostname)
    → a.metadata.uid ≢ b.metadata.uid
    → a.status.id ≢ ""
    → b.status.id ≢ ""
    → Mutual a b
Mutual-if a b other has_a has_b = ((λ e. other (sym e), has_b), (other, has_a))

Mutual-second : (a b : CustomHostname) → Mutual a b → Owns b a
Mutual-second a b (first_owns, second_owns) = second_owns

abbrev uid_of : Option CustomHostname → String
uid_of none = ""
uid_of (some ch) = ch.metadata.uid

abbrev id_of : Option CustomHostname → String
id_of none = ""
id_of (some ch) = ch.status.id

module _ (env : Env) (r : Reconciler) (zi : ZoneInfo) where
  -- The answer to a reconcile of `a` in the world `w` lists `b`.
  abbrev pub Lists : (w : World) (a b : CustomHostname) → Type 0
  Lists w a b =
      (peers : List CustomHostname) × (env.list_custom_hostnames w.trace hostname_field
          a.spec.hostname
        ≡ ok peers)
      × In b peers

  -- One of the two is reconciled, in a world that lists the other, and what it records is stored.
  pub data Step : (a b a' b' : CustomHostname) → Type 0 where
    first :
        {a b a' : CustomHostname} (w : World)
        → Lists w a b
        → last_status (reconcile_owned env r zi a w).1.trace ≡ some a'
        → Step a b a' b
    second :
        {a b b' : CustomHostname} (w : World)
        → Lists w b a
        → last_status (reconcile_owned env r zi b w).1.trace ≡ some b'
        → Step a b a b'

  pub data Reaches (a b : CustomHostname) : (a' b' : CustomHostname) → Type 0 where
    stop : Reaches a b a b
    next : {c d a' b' : CustomHostname} → Reaches a b c d → Step c d a' b' → Reaches a b a' b'

  -- A reconcile that lists an owner records a conflict with one.
  stopped :
      (w : World) (a b : CustomHostname)
      → Owns a b
      → Lists w a b
      → (owner : CustomHostname) × ((reconcile_owned env r zi a w).1.trace
          ≡ Call.update_status (conflict_object env a owner)
            ∷ Call.list_custom_hostnames hostname_field a.spec.hostname
            ∷ w.trace)
  stopped w a b owns (peers, listed, i) = elim (Option-cases (find_owner a peers)) [
    | inl nothing ↦ absurd ((find_owner_lem a peers).1 (b, i, owns) nothing)
    | inr (owner, found) ↦
        (owner, (reconcile_owned-conflict env r zi a w peers owner listed found).0)
  ]

  -- What is recorded has the old UID and the old ID.
  recorded-same :
      (w : World) (a b a' : CustomHostname)
      → Owns a b
      → Lists w a b
      → last_status (reconcile_owned env r zi a w).1.trace ≡ some a'
      → (a'.metadata.uid ≡ a.metadata.uid) × (a'.status.id ≡ a.status.id)
  recorded-same w a b a' owns listed recorded =
      let (owner, trace) = stopped w a b owns listed in
      let e : some a' ≡ some (conflict_object env a owner) = sym recorded ∙ ap last_status trace in
      (ap uid_of e, ap id_of e)

  Step-Mutual : (a b a' b' : CustomHostname) → Mutual a b → Step a b a' b' → Mutual a' b'
  Step-Mutual _ _ _ _ m (first {a} {b} {a'} w listed recorded) =
      let ((_, has_b), (other, has_a)) = m in
      let (uid, id) = recorded-same w a b a' m.0 listed recorded in
      Mutual-if a' b (λ e. other (sym uid ∙ e)) (λ e. has_a (sym id ∙ e)) has_b
  Step-Mutual _ _ _ _ m (second {a} {b} {b'} w listed recorded) =
      let ((other, has_b), (_, has_a)) = m in
      let (uid, id) = recorded-same w b a b' (Mutual-second a b m) listed recorded in
      Mutual-if a b' (λ e. other (sym uid ∙ sym e)) has_a (λ e. has_b (sym id ∙ e))

  Reaches-Mutual : (a b a' b' : CustomHostname) → Mutual a b → Reaches a b a' b' → Mutual a' b'
  Reaches-Mutual a b _ _ m stop = m
  Reaches-Mutual a b _ _ m (next {c} {d} {a'} {b'} steps step) =
      Step-Mutual c d a' b' (Reaches-Mutual a b c d m steps) step

  -- Take two objects that differ in their UID and both have a Cloudflare ID. After any number of
  -- reconciles of them, in any order, in which each lists the other and what it records is stored,
  -- a further reconcile of the first that lists the second records a conflict and makes no call
  -- but the listing and that update.
  pub reconcile_owned-stuck :
      (a b a' b' : CustomHostname) (w : World)
      → Mutual a b
      → Reaches a b a' b'
      → Lists w a' b'
      → (owner : CustomHostname) × ((reconcile_owned env r zi a' w).1.trace
          ≡ Call.update_status (conflict_object env a' owner)
            ∷ Call.list_custom_hostnames hostname_field a'.spec.hostname
            ∷ w.trace)
  reconcile_owned-stuck a b a' b' w both steps listed =
      stopped w a' b' (Reaches-Mutual a b a' b' both steps).0 listed
