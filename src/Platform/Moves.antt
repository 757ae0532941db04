-- ===== src/Platform/Moves.antt =====
-- How an action moves the world, for a relation between the world before and the world after: one
-- rule for each way to build an action.
use cf_edge_operator.Prelude.{◌≡◌, refl, Bool, true, false, Option, none, some, ◌∷◌}
use cf_edge_operator.Prelude.{if◌then◌else◌}
use cf_edge_operator.Platform.Errors.{Err, Result, ok, err}
use cf_edge_operator.Platform.Calls.{Call, Trace}
use cf_edge_operator.Platform.Action.{World, Action, pure, call, peek, ◌>>=◌, handle, either}

-- A relation that holds of no step, and of one step after another.
pub record Progress (R : World → World → Type 0) : Type 0 where
  pub stays : (w : World) → R w w
  pub chains : {u v w : World} → R u v → R v w → R u w

-- The action moves every world along the relation.
pub record Moves {ℓ} {A : Type ℓ} (R : World → World → Type 0) (m : Action A) : Type ℓ where
  pub at : (w : World) → R w (m w).1

-- The relation holds of the step that only makes the call.
pub record Allows (R : World → World → Type 0) (c : Call) : Type 0 where
  pub at : (w : World) → R w (record w { trace = c ∷ w.trace })

module _ {R : World → World → Type 0} (progress : Progress R) where
  module _ {ℓ} {A : Type ℓ} where
    pub Moves-pure : (a : A) → Moves R (pure a)
    unfolding pure
    Moves-pure a = record { at = progress.stays }

    pub Moves-call : (c : Call) (answer : Trace → A) → Allows R c → Moves R (call c answer)
    unfolding call
    Moves-call c answer q = record { at = q.at }

    pub Moves-peek : (see : Trace → A) → Moves R (peek see)
    unfolding peek
    Moves-peek see = record { at = progress.stays }

  pub Moves-bind {ℓ} :
      {A B : Type ℓ} (m : Action A) (f : A → Action B)
      → Moves R m
      → ((a : A) → Moves R (f a))
      → Moves R (m >>= f)
  unfolding ◌>>=◌
  Moves-bind m f em ef = record {
    at = λ w. let (a, w') = m w in progress.chains (em.at w) ((ef a).at w');
  }

module _ {R : World → World → Type 0} where
  pub Moves-if {ℓ} :
      {A : Type ℓ} (b : Bool) (m n : Action A)
      → (b ≡ true → Moves R m)
      → (b ≡ false → Moves R n)
      → Moves R (if b then m else n)
  Moves-if true m n em en = em refl
  Moves-if false m n em en = en refl

  module _ {ℓ} {A B : Type ℓ} where
    pub Moves-handle :
        (r : Result A) (f : Err → Action B) (g : A → Action B)
        → ((e : Err) → r ≡ err e → Moves R (f e))
        → ((a : A) → r ≡ ok a → Moves R (g a))
        → Moves R (handle r f g)
    Moves-handle (ok a) f g ef eg = eg a refl
    Moves-handle (err e) f g ef eg = ef e refl

    pub Moves-either :
        (o : Option A) (m : Action B) (g : A → Action B)
        → (o ≡ none → Moves R m)
        → ((a : A) → o ≡ some a → Moves R (g a))
        → Moves R (either o m g)
    Moves-either none m g em eg = em refl
    Moves-either (some a) m g em eg = eg a refl

pub ruleset moves_rules =
    (Moves-pure, Moves-call, Moves-peek, Moves-bind, Moves-if, Moves-handle, Moves-either)
