-- ===== src/Hostname/Endings.antt =====
-- How a reconcile ends: what it saves in the API server, and what it asks of its queue.
pub mod Quiet
pub mod Live
pub mod Deletion
pub mod Total
use cf_edge_operator.Prelude.{
  ◌≡◌, ◌≢◌, refl, Bool, true, false, Option, none, some, ◌∷◌, if◌then◌else◌,
}
use cf_edge_operator.Api.Meta.{Condition}
use cf_edge_operator.Api.Saas.{CustomHostname}
use cf_edge_operator.Platform.Errors.{Err, Result, ok, err}
use cf_edge_operator.Platform.Calls.{Call, Trace}
use cf_edge_operator.Platform.Env.{Env}
use cf_edge_operator.Platform.Action.{World, Action, pure, ◌>>=◌, handle, either}
use cf_edge_operator.Platform.Emits.{Emits, Extends, Extends-trans, same, more}
use cf_edge_operator.Hostname.Config.{Outcome, finish, condition_ready}
use cf_edge_operator.Hostname.Delete.{released}
use cf_edge_operator.Hostname.Reconcile.{with_finalizer}

abbrev pub is_none {ℓ} : {A : Type ℓ} → Option A → Bool
is_none none = true
is_none (some a) = false

abbrev pub saves : Call → Bool
saves (Call.update _) = true
saves (Call.update_status _) = true
saves (Call.update_zone_status _) = true
saves _ = false

abbrev pub NoSave : Call → Type 0
NoSave c = saves c ≡ false

-- The answer of the API server to a call that saves.
abbrev pub accepts : Env → Trace → Call → Bool
accepts env t (Call.update ch) = is_none (env.update t ch)
accepts env t (Call.update_status ch) = is_none (env.update_status t ch)
accepts env t _ = true

-- The two objects have the same metadata, spec and conditions.
abbrev pub Alike : CustomHostname → CustomHostname → Type 0
Alike ch ch' =
    (ch'.metadata ≡ ch.metadata)
    × (ch'.spec ≡ ch.spec)
    × (ch'.status.conditions ≡ ch.status.conditions)

-- The saved object is the reconciled one with its `Ready` condition set at its generation.
pub record IsReport (env : Env) (ch saved : CustomHostname) : Type 0 where
  pub metadata : saved.metadata ≡ ch.metadata
  pub spec : saved.spec ≡ ch.spec
  pub condition : Condition
  pub of_ready : condition.type ≡ condition_ready
  pub observed : condition.observed_generation ≡ ch.metadata.generation
  pub conditions : saved.status.conditions ≡ env.set_status_condition ch.status.conditions condition

-- `r.Result{Requeue: true}`
abbrev pub requeued : Outcome
requeued = record { requeue = true; requeue_after = 0; error = none }

-- The outcome and the trace of a reconcile of the object. Nothing is saved before the last call.
pub data Ends (env : Env) (ch : CustomHostname) (before : Trace) : Outcome → Trace → Type 0 where
  failed : {t : Trace} (e : Err) → Extends NoSave before t → Ends env ch before (finish (some e)) t
  refused :
      {t : Trace} (c : Call) (e : Err)
      → Extends NoSave before t
      → saves c ≡ true
      → accepts env t c ≡ false
      → Ends env ch before (finish (some e)) (c ∷ t)
  finalized :
      {t : Trace}
      → Extends NoSave before t
      → ch.metadata.deletion_timestamp ≡ none
      → env.update t (with_finalizer env ch) ≡ none
      → Ends env ch before requeued (Call.update (with_finalizer env ch) ∷ t)
  let_go :
      {t : Trace}
      → Extends NoSave before t
      → ch.metadata.deletion_timestamp ≢ none
      → env.update t (released env ch) ≡ none
      → Ends env ch before (finish none) (Call.update (released env ch) ∷ t)
  reported :
      {t : Trace} (saved : CustomHostname)
      → Extends NoSave before t
      → ch.metadata.deletion_timestamp ≡ none
      → IsReport env ch saved
      → env.update_status t saved ≡ none
      → Ends env ch before (finish none) (Call.update_status saved ∷ t)

pub Ends-later :
    {env : Env} {ch : CustomHostname} {s t u : Trace} {out : Outcome}
    → Extends NoSave s t
    → Ends env ch t out u
    → Ends env ch s out u
Ends-later q (failed e x) = failed e (Extends-trans q x)
Ends-later q (refused c e x h a) = refused c e (Extends-trans q x) h a
Ends-later q (finalized x live done) = finalized (Extends-trans q x) live done
Ends-later q (let_go x gone done) = let_go (Extends-trans q x) gone done
Ends-later q (reported saved x live r done) = reported saved (Extends-trans q x) live r done

pub record EndsIn (env : Env) (ch : CustomHostname) (m : Action Outcome) : Type 0 where
  pub at : (w : World) → Ends env ch w.trace (m w).0 (m w).1.trace

module _ {env : Env} {ch : CustomHostname} where
  pub EndsIn-fail : (e : Err) → EndsIn env ch (pure (finish (some e)))
  unfolding pure
  EndsIn-fail e = record { at = λ w. failed e same }

  -- What comes first saves nothing.
  pub EndsIn-after :
      {A : Type 0} (m : Action A) (f : A → Action Outcome)
      → Emits NoSave m
      → ((a : A) → EndsIn env ch (f a))
      → EndsIn env ch (m >>= f)
  unfolding ◌>>=◌
  EndsIn-after m f q h = record { at = λ w. let (a, w') = m w in Ends-later (q.at w) ((h a).at w') }

  pub EndsIn-if :
      (b : Bool) (m n : Action Outcome)
      → EndsIn env ch m
      → EndsIn env ch n
      → EndsIn env ch (if b then m else n)
  EndsIn-if true m n hm hn = hm
  EndsIn-if false m n hm hn = hn

  module _ {B : Type 0} where
    pub EndsIn-handle :
        (r : Result B) (f : Err → Action Outcome) (g : B → Action Outcome)
        → ((e : Err) → EndsIn env ch (f e))
        → ((b : B) → EndsIn env ch (g b))
        → EndsIn env ch (handle r f g)
    EndsIn-handle (ok b) f g hf hg = hg b
    EndsIn-handle (err e) f g hf hg = hf e

    pub EndsIn-either :
        (o : Option B) (m : Action Outcome) (g : B → Action Outcome)
        → EndsIn env ch m
        → ((b : B) → EndsIn env ch (g b))
        → EndsIn env ch (either o m g)
    EndsIn-either none m g hm hg = hm
    EndsIn-either (some b) m g hm hg = hg b
