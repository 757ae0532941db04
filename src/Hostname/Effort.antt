-- ===== src/Hostname/Effort.antt =====
-- How often the worker calls Cloudflare, retries included: at most so many times, by one rule for
-- each way to build an action.
pub mod Requests
pub mod Live
pub mod Deletion
pub mod Total
use cf_edge_operator.Prelude.{
  ℕ, zero, suc, ◌+◌, ◌*◌, ◌≤◌, ◌≡◌, refl, Bool, true, false, Option, none, some, String, ◌∷◌, arith,
  if◌then◌else◌,
}
use cf_edge_operator.Platform.Errors.{Err, Result, ok, err}
use cf_edge_operator.Platform.Calls.{Call, Trace}
use cf_edge_operator.Platform.Env.{Env}
use cf_edge_operator.Platform.Action.{World, Action, pure, call, peek, ◌>>=◌, handle, either}
use cf_edge_operator.Platform.Moves.{Moves, Progress, Moves-pure, Moves-peek, Moves-call}
use cf_edge_operator.Platform.Emits.{
  Emits, Extends, same, more, ByCalls, ByCalls-Progress, ByCalls-Allows,
}
use cf_edge_operator.Metrics.{retry_or_stop, retry_loop, cf_retry}
use cf_edge_operator.Metrics.Allowed.{inc_allowed}
use cf_edge_operator.Metrics.Retry.{count}
use cf_edge_operator.Hostname.Allowed.{is_cf_call, AwayFromCf, away_emit}

-- The action makes at most `k` calls to Cloudflare, whatever the world.
pub record AtMost {ℓ} {A : Type ℓ} (k : ℕ) (m : Action A) : Type ℓ where
  pub at : (w : World) → count is_cf_call (m w).1.trace ≤ count is_cf_call w.trace + k

AwayFromCf-count : {s t : Trace} → Extends AwayFromCf s t → count is_cf_call t ≡ count is_cf_call s
unfolding count
AwayFromCf-count same = refl
AwayFromCf-count (more {c} e q) = rw q (AwayFromCf-count e)

module _ {ℓ} {A : Type ℓ} where
  pub AtMost-away : {k : ℕ} {m : Action A} → Emits AwayFromCf m → AtMost k m
  AtMost-away e = record { at = λ w. omega (arith, AwayFromCf-count (e.at w)) }

  pub AtMost-more : {j k : ℕ} {m : Action A} → j ≤ k → AtMost j m → AtMost k m
  AtMost-more le e = record { at = λ w. omega (arith, le, e.at w) }

  pub AtMost-if :
      {k : ℕ} (b : Bool) (m n : Action A) → AtMost k m → AtMost k n → AtMost k (if b then m else n)
  AtMost-if true m n em en = em
  AtMost-if false m n em en = en

  pub AtMost-handle :
      {B : Type 0} {k : ℕ} (r : Result B) (f : Err → Action A) (g : B → Action A)
      → ((e : Err) → AtMost k (f e))
      → ((b : B) → AtMost k (g b))
      → AtMost k (handle r f g)
  AtMost-handle (ok b) f g ef eg = eg b
  AtMost-handle (err e) f g ef eg = ef e

  pub AtMost-either :
      {B : Type 0} {k : ℕ} (o : Option B) (m : Action A) (g : B → Action A)
      → AtMost k m
      → ((b : B) → AtMost k (g b))
      → AtMost k (either o m g)
  AtMost-either none m g em eg = em
  AtMost-either (some b) m g em eg = eg b

pub AtMost-bind {ℓ} :
    {A B : Type ℓ} {j k : ℕ} (m : Action A) (f : A → Action B)
    → AtMost j m
    → ((a : A) → AtMost k (f a))
    → AtMost (j + k) (m >>= f)
unfolding ◌>>=◌
AtMost-bind m f em ef = record {
  at = λ w. let (a, w') = m w in omega (arith, em.at w, (ef a).at w');
}

-- What comes first does not call Cloudflare.
pub AtMost-after {ℓ} :
    {A B : Type ℓ} {k : ℕ} (m : Action A) (f : A → Action B)
    → Emits AwayFromCf m
    → ((a : A) → AtMost k (f a))
    → AtMost k (m >>= f)
unfolding ◌>>=◌
AtMost-after m f e ef = record {
  at = λ w. let (a, w') = m w in omega (arith, AwayFromCf-count (e.at w), (ef a).at w');
}

-- What comes last does not call Cloudflare.
pub AtMost-before {ℓ} :
    {A B : Type ℓ} {k : ℕ} (m : Action A) (f : A → Action B)
    → AtMost k m
    → ((a : A) → Emits AwayFromCf (f a))
    → AtMost k (m >>= f)
unfolding ◌>>=◌
AtMost-before m f em e = record {
  at = λ w. let (a, w') = m w in omega (arith, em.at w, AwayFromCf-count ((e a).at w'));
}

away : Progress (ByCalls AwayFromCf)
away = ByCalls-Progress AwayFromCf

pub AtMost-pure {ℓ} : {A : Type ℓ} {k : ℕ} (a : A) → AtMost k (pure a)
AtMost-pure a = AtMost-away (Moves-pure away a)

pub AtMost-call : {A : Type 0} (c : Call) (answer : Trace → A) → AtMost 1 (call c answer)
unfolding call count
AtMost-call c answer = record { at = λ w. ground arith }

module _ {A : Type 0} (env : Env) (resource operation : String) (fn : Action (Result A))
    (once : AtMost 1 fn) where
  retry_or_stop-AtMost :
      {k : ℕ} (attempts : ℕ) (again : Action (ℕ × Result A)) (r : Result A)
      → AtMost k again
      → AtMost k (retry_or_stop env resource operation attempts again r)
  unfolding retry_or_stop
  retry_or_stop-AtMost attempts again (ok a) h = AtMost-pure _
  retry_or_stop-AtMost attempts again (err e) h = AtMost-if _ _ _ (AtMost-pure _) (
      AtMost-after _ _ (Moves-peek away _) λ done.
        AtMost-if _ _ _ (AtMost-pure _)
          (AtMost-after _ _ (Moves-call away _ _ (ByCalls-Allows refl)) λ _. h))

  retry_loop-AtMost :
      (left attempt : ℕ) → AtMost (left + 1) (retry_loop env resource operation fn left attempt)
  unfolding retry_loop
  retry_loop-AtMost zero attempt = AtMost-before fn _ once λ r. Moves-pure away _
  retry_loop-AtMost (suc left) attempt =
      AtMost-more (omega arith) (
        AtMost-bind fn _ once
          λ r. retry_or_stop-AtMost _ _ r (retry_loop-AtMost left (attempt + 1)))

  -- An action that calls Cloudflare at most once, with its retries.
  pub cf_retry-AtMost : (n : ℕ) → AtMost (n + 1) (cf_retry env resource operation n fn)
  unfolding cf_retry
  cf_retry-AtMost n = retry_loop-AtMost n 0
