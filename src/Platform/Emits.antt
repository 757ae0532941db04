-- ===== src/Platform/Emits.antt =====
-- Which calls an action may make.
use cf_edge_operator.Prelude.{◌∷◌}
use cf_edge_operator.Platform.Calls.{Call, Trace}
use cf_edge_operator.Platform.Action.{World, Action}
use cf_edge_operator.Platform.Moves.{Progress, Moves, Allows}

-- The later trace adds to the earlier one calls that all satisfy `Q`.
pub data Extends (Q : Call → Type 0) (old : Trace) : Trace → Type 0 where
  same : Extends Q old old
  more : {c : Call} {t : Trace} → Extends Q old t → Q c → Extends Q old (c ∷ t)

pub Extends-trans :
    {Q : Call → Type 0} {s t u : Trace} → Extends Q s t → Extends Q t u → Extends Q s u
Extends-trans e same = e
Extends-trans e (more f q) = more (Extends-trans e f) q

pub Extends-weaken :
    {Q R : Call → Type 0} {s t : Trace} → ((c : Call) → Q c → R c) → Extends Q s t → Extends R s t
Extends-weaken h same = same
Extends-weaken h (more e q) = more (Extends-weaken h e) (h _ q)

abbrev pub ByCalls : (Call → Type 0) → World → World → Type 0
ByCalls Q w w' = Extends Q w.trace w'.trace

-- All calls that the action makes satisfy `Q`, whatever the world.
abbrev pub Emits {ℓ} : {A : Type ℓ} → (Call → Type 0) → Action A → Type ℓ
Emits Q m = Moves (ByCalls Q) m

pub ByCalls-Progress : (Q : Call → Type 0) → Progress (ByCalls Q)
ByCalls-Progress Q = record { stays = λ w. same; chains = Extends-trans }

pub ByCalls-Allows : {Q : Call → Type 0} {c : Call} → Q c → Allows (ByCalls Q) c
ByCalls-Allows q = record { at = λ w. more same q }
