-- ===== src/Life/Watched.antt =====
-- No custom resource that needs the worker is forgotten.
use cf_edge_operator.Prelude.{
  ◌≡◌, ◌≢◌, refl, sym, ◌∙◌, ap, true, false, ◌||◌, none, String, List, [], ◌∷◌, arith, eq_iff,
  Bool-cases, inl, inr,
}
use cf_edge_operator.Api.Meta.{NamespacedName, Condition}
use cf_edge_operator.Api.Saas.{CustomHostname, CustomHostnameStatus}
use cf_edge_operator.Platform.Env.{Env, of_type, HasUniqueTypes, SetsConditions}
use cf_edge_operator.Platform.Calls.{Trace}
use cf_edge_operator.Hostname.Config.{Reconciler, Outcome, condition_ready, finalizer_name}
use cf_edge_operator.Hostname.Delete.{has_finalizer, released}
use cf_edge_operator.Hostname.Reconcile.{passes_create, passes_update}
use cf_edge_operator.Hostname.Endings.{Ends, failed, refused, finalized, let_go, reported}
use cf_edge_operator.Hostname.Endings.Total.{reconcile-Ends}
use cf_edge_operator.Zone.States.{set_ready-of_type}
use cf_edge_operator.Life.{
  Life, seen, asks_again, ChangedOutside, Stored, Step, outside, drift_event, restart, work,
  Reaches, done, and_then,
}

-- What `controllerutil.RemoveFinalizer` documents.
pub record RemovesFinalizer (env : Env) : Type 0 where
  pub contains-remove :
      (finalizers : List String) (f : String)
      → env.contains_finalizer (env.remove_finalizer finalizers f) f ≡ false

-- The `Ready` condition is of the object's generation.
abbrev pub Reported : CustomHostname → Type 0
Reported ch =
    (c : Condition) × (of_type condition_ready ch.status.conditions ≡ c ∷ [])
    × (c.observed_generation ≡ ch.metadata.generation)

-- The queue holds the resource while it is being deleted and has the finalizer, and while it is
-- live, has no Cloudflare ID and was not reported on at its generation.
pub record Watched (env : Env) (l : Life) : Type 0 where
  pub deleting :
      l.object.metadata.deletion_timestamp ≢ none
      → has_finalizer env l.object ≡ true
      → l.queued ≡ true
  pub unseen :
      l.object.metadata.deletion_timestamp ≡ none
      → l.object.status.id ≡ ""
      → ¬ (Reported l.object)
      → l.queued ≡ true

seen-Watched : (env : Env) (ch : CustomHostname) → Watched env (seen ch)
unfolding seen passes_create
seen-Watched env ch = record {
  deleting = λ gone held. ground arith;
  unseen = λ live no_id unreported. ground (arith, eq_iff ch.status.id "");
}

passes_update-eq :
    (old new : CustomHostname)
    → passes_update old new ≡ false
    → new.metadata.generation ≡ old.metadata.generation
unfolding passes_update
passes_update-eq old new h = ground arith

-- The report is on the object's status and generation.
Reported-same :
    (old new : CustomHostname)
    → new.status ≡ old.status
    → new.metadata.generation ≡ old.metadata.generation
    → Reported old
    → Reported new
Reported-same old new s g (c, ready, observed) = (
  c,
  ap (λ (x : CustomHostnameStatus). of_type condition_ready x.conditions) s ∙ ready,
  observed ∙ sym g,
)

module _ (env : Env) where
  -- A change that passes the filter puts the key in the queue; another leaves the spec, the status
  -- and the deletion as they were.
  outside-Watched :
      (l : Life) (new : CustomHostname)
      → ChangedOutside env l.object new
      → Watched env l
      → Watched env (record { object = new; queued = l.queued || passes_update l.object new })
  outside-Watched l new change watched = elim (Bool-cases (passes_update l.object new)) [
    | inl passed ↦ record {
      deleting = λ gone held. ground arith;
      unseen = λ live no_id unreported. ground arith;
    }
    | inr stopped ↦
        let g = passes_update-eq l.object new stopped in
        let kept = change.generation g in
        record {
          deleting = λ gone held.
              let gone' : l.object.metadata.deletion_timestamp ≢ none = λ e. gone (kept.1 ∙ e) in
              ground (arith, watched.deleting gone' (change.finalizers gone' held));
          unseen = λ live no_id unreported. ground (
            arith,
            watched.unseen (sym kept.1 ∙ live)
                (ap (λ (x : CustomHostnameStatus). x.id) (sym change.status) ∙ no_id)
                (λ rep. unreported (Reported-same l.object new change.status g rep)),
          );
        }
  ]

  -- After a reconcile the key is in the queue, or nothing of the resource is left to do.
  ended-Watched :
      (ch new : CustomHostname) (before after : Trace) (out : Outcome)
      → SetsConditions env
      → RemovesFinalizer env
      → HasUniqueTypes ch.status.conditions
      → Ends env ch before out after
      → Stored env ch before after new
      → Watched env (record { object = new; queued = asks_again out || passes_update ch new })
  unfolding asks_again released
  ended-Watched ch new before after out sets removes unique (failed e q) stored = record {
    deleting = λ gone held. ground arith;
    unseen = λ live no_id unreported. ground arith;
  }
  ended-Watched ch new before after out sets removes unique (refused c e q h a) stored = record {
    deleting = λ gone held. ground arith;
    unseen = λ live no_id unreported. ground arith;
  }
  ended-Watched ch new before after out sets removes unique (finalized q live a) stored = record {
    deleting = λ gone held. ground arith;
    unseen = λ live no_id unreported. ground arith;
  }
  ended-Watched ch new before after out sets removes unique (let_go q gone a) stored =
      let kept = stored.updated _ _ refl q a in
      record {
        deleting = λ gone' held. cc (
            sym held
            ∙ ap (λ (o : CustomHostname). has_finalizer env o) kept
            ∙ removes.contains-remove ch.metadata.finalizers finalizer_name);
        unseen = λ live no_id unreported.
            absurd
              (gone (sym (ap (λ (o : CustomHostname). o.metadata.deletion_timestamp) kept) ∙ live));
      }
  ended-Watched ch new before after out sets removes unique (reported saved q live report a)
        stored =
      let kept = stored.reported _ _ refl q a in
      record {
        deleting = λ gone held.
            absurd (gone (ap (λ (o : CustomHostname). o.metadata.deletion_timestamp) kept ∙ live));
        unseen = λ _ no_id unreported. absurd (
            unreported (
              report.condition,
              ap (λ (o : CustomHostname). of_type condition_ready o.status.conditions) kept
                  ∙ ap (of_type condition_ready) report.conditions
                  ∙ set_ready-of_type env sets _ _ unique report.of_ready,
              report.observed ∙ sym (ap (λ (o : CustomHostname). o.metadata.generation) kept),
            ));
      }

  step-Watched :
      (r : Reconciler) (key : NamespacedName) {l m : Life}
      → SetsConditions env
      → RemovesFinalizer env
      → Step env r key l m
      → Watched env l
      → Watched env m
  step-Watched r key sets removes (outside l new change) watched =
      outside-Watched l new change watched
  step-Watched r key sets removes (drift_event l) watched = record {
    deleting = λ gone held. refl;
    unseen = λ live no_id unreported. refl;
  }
  step-Watched r key sets removes (restart l) watched = seen-Watched env l.object
  step-Watched r key sets removes (work l w new queued found unique stored) watched =
      ended-Watched l.object new w.trace _ _ sets removes unique
        (reconcile-Ends env r key l.object w found) stored

  -- If `SetStatusCondition` and `RemoveFinalizer` work as documented, then from the start of the
  -- operator on, through any changes by other clients, events of the zone controller, restarts and
  -- reconciles, whatever the servers answer in these: while the resource is being deleted and has
  -- the finalizer, its key is in the worker's queue; and so it is while the resource is live, has no
  -- Cloudflare ID, and has no `Ready` condition of its generation.
  pub Reaches-Watched :
      (r : Reconciler) (key : NamespacedName) (ch : CustomHostname) {l : Life}
      → SetsConditions env
      → RemovesFinalizer env
      → Reaches env r key (seen ch) l
      → Watched env l
  Reaches-Watched r key ch sets removes done = seen-Watched env ch
  Reaches-Watched r key ch sets removes (and_then before step) =
      step-Watched r key sets removes step (Reaches-Watched r key ch sets removes before)
