-- ===== src/Metrics/Retry.antt =====
-- `cf_retry`: how often it calls, what it counts, and when it gives up early.
use cf_edge_operator.Prelude.{
  ℕ, zero, suc, ◌+◌, ◌≤◌, ◌<◌, ◌≡◌, ◌⊎◌, String, Bool, true, false, [], ◌∷◌, arith, if◌then◌else◌,
}
use cf_edge_operator.Platform.Errors.{Result, ok, err, has_status_code}
use cf_edge_operator.Platform.Calls.{Call, Trace, inc, api_retries_total}
use cf_edge_operator.Platform.Env.{Env}
use cf_edge_operator.Platform.Action.{World, Action, pure, call, peek, ◌>>=◌}
use cf_edge_operator.Metrics.{retry_loop, cf_retry}

unfoldable pub count : (Call → Bool) → Trace → ℕ
count p [] = 0
count p (c ∷ t) = let rest = count p t in if p c then suc rest else rest

module _ {A : Type 0} (env : Env) (resource operation : String) (fn : Action (Result A)) where
  -- The action adds exactly `n` calls that pass the test.
  abbrev pub Adds : (Call → Bool) → ℕ → Type 0
  Adds p n = (w : World) → count p (fn w).1.trace ≡ count p w.trace + n

  abbrev pub retry_mark : Call
  retry_mark = inc api_retries_total (resource ∷ operation ∷ [])

  abbrev after_mark : World → World
  after_mark w = record w { trace = retry_mark ∷ w.trace }

  -- What the loop returns from the world `w` at attempt number `attempt`.
  module _ (p q : Call → Bool) (p_fn : Adds p 1) (q_fn : Adds q 0) where
    retry_loop-count :
        (left attempt : ℕ) (w : World)
        → p retry_mark ≡ false
        → q retry_mark ≡ true
        → let out = retry_loop env resource operation fn left attempt w in
          (attempt + 1 ≤ out.0.0)
          × (out.0.0 ≤ attempt + left + 1)
          × (count p out.1.trace + attempt ≡ count p w.trace + out.0.0)
          × (count q out.1.trace + attempt + 1 ≡ count q w.trace + out.0.0)
    unfolding retry_loop count ◌>>=◌ pure call peek
    retry_loop-count zero attempt w hp hq = omega (arith, p_fn w, q_fn w)
    retry_loop-count (suc left) attempt w hp hq =
        ground
          (arith, p_fn w, q_fn w, retry_loop-count left (attempt + 1) (after_mark (fn w).1) hp hq)

  -- `fn` succeeded, or the last error forbids a retry, or the context is done.
  abbrev pub GivesUp : Result A → World → Type 0
  GivesUp (ok a) w = Unit
  GivesUp (err e) w = (has_status_code e 429 ≡ true) ⊎ (env.context_done w.trace ≡ true)

  retry_loop-early :
      (left attempt : ℕ) (w : World)
      → let out = retry_loop env resource operation fn left attempt w in
        out.0.0 < attempt + left + 1 → GivesUp out.0.1 out.1
  unfolding retry_loop ◌>>=◌ pure call peek
  retry_loop-early zero attempt w h = absurd (omega arith)
  retry_loop-early (suc left) attempt w h =
      ground (arith, retry_loop-early left (attempt + 1) (after_mark (fn w).1))

  -- With `n` retries allowed the wrapped call is made at least once and at most `n + 1` times.
  -- The number returned is how often it was made, and the retry counter is incremented once for
  -- each time but the first. `p` tests for a call that `fn` makes once in each run and `q` for the
  -- increment of the retry counter, which `fn` does not make.
  pub cf_retry-count :
      (p q : Call → Bool) (n : ℕ) (w : World)
      → Adds p 1
      → Adds q 0
      → p retry_mark ≡ false
      → q retry_mark ≡ true
      → let out = cf_retry env resource operation n fn w in
        (1 ≤ out.0.0)
        × (out.0.0 ≤ n + 1)
        × (count p out.1.trace ≡ count p w.trace + out.0.0)
        × (count q out.1.trace + 1 ≡ count q w.trace + out.0.0)
  unfolding cf_retry
  cf_retry-count p q n w p_fn q_fn hp hq = omega (arith, retry_loop-count p q p_fn q_fn n 0 w hp hq)

  -- With fewer attempts than are allowed, the last one succeeded, or it failed with a Cloudflare
  -- error 429, or it failed and the context is done.
  pub cf_retry-early :
      (n : ℕ) (w : World)
      → (cf_retry env resource operation n fn w).0.0 < n + 1
      → GivesUp
          (cf_retry env resource operation n fn w).0.1
          (cf_retry env resource operation n fn w).1
  unfolding cf_retry
  cf_retry-early n w h = retry_loop-early n 0 w (omega arith)
