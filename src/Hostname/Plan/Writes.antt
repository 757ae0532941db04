-- ===== src/Hostname/Plan/Writes.antt =====
-- How a planned request is sent: by the retry loop around one call, with steps that write nothing before
-- and after.
use cf_edge_operator.Prelude.{
  [], ℕ, ◌+◌, ◌≡◌, refl, sym, ◌∙◌, String, Bool, true, false, false≢true, Option, none, some,
  if◌then◌else◌, ◌∷◌, arith,
}
use cf_edge_operator.Platform.Errors.{Err, Result}
use cf_edge_operator.Platform.Calls.{Call, Trace, observe, inc, api_retries_total}
use cf_edge_operator.Platform.Env.{Env}
use cf_edge_operator.Platform.Action.{World, Action, pure, call, peek, ◌>>=◌, ◌>>◌}
use cf_edge_operator.Platform.Moves.{Progress, Moves-bind, Moves-call, Moves-peek, Moves-pure}
use cf_edge_operator.Platform.Emits.{
  Emits, Extends, Extends-trans, Extends-weaken, ByCalls, ByCalls-Progress, ByCalls-Allows, same,
  more,
}
use cf_edge_operator.Metrics.{record_cf_call, cf_retry}
use cf_edge_operator.Metrics.Allowed.{record_cf_call-Moves, cf_retry-Moves}
use cf_edge_operator.Metrics.Retry.{count, Adds, cf_retry-count}
use cf_edge_operator.Metrics.Vectors.{fits}
use cf_edge_operator.Hostname.Allowed.{is_cf_write, AllowsReads, reads_emit}
use cf_edge_operator.Hostname.Plan.{Plan, OnlyPlanned, CarriesOut, NoWrite}

abbrev pub is_retry : Call → Bool
is_retry (Call.inc api_retries_total labels) = true
is_retry _ = false

write_not_retry : (c : Call) → is_cf_write c ≡ true → is_retry c ≡ false
write_not_retry (Call.inc _ _) h = cc h
write_not_retry _ h = refl

count-NoWrite : {s t : Trace} → Extends NoWrite s t → count is_cf_write t ≡ count is_cf_write s
unfolding count
count-NoWrite same = refl
count-NoWrite (more e q) = rw q (count-NoWrite e)

allows_reads : (plan : Plan) (c : Call) → is_cf_write c ≡ false → OnlyPlanned plan c
allows_reads Plan.rest c h = h
allows_reads (Plan.send planned) c h = λ writes. absurd (false≢true (sym h ∙ writes))

pub reads_planned :
    (plan : Plan) (env : Env) → AllowsReads true true (ByCalls (OnlyPlanned plan)) env
reads_planned plan env = reads_emit (allows_reads plan) env

pub rests : {limit : ℕ} {s t : Trace} → Extends NoWrite s t → CarriesOut Plan.rest limit s t
rests e = record { only = e; times = 0; often = refl; counted = omega (arith, count-NoWrite e) }

pub CarriesOut-then :
    (plan : Plan) {limit : ℕ} {s t u : Trace}
    → CarriesOut plan limit s t
    → Extends NoWrite t u
    → CarriesOut plan limit s u
CarriesOut-then plan c e = record {
  only = Extends-trans c.only (Extends-weaken (allows_reads plan) e);
  times = c.times;
  often = c.often;
  counted = count-NoWrite e ∙ c.counted;
}

pub CarriesOut-after :
    (plan : Plan) {limit : ℕ} {s t u : Trace}
    → Extends NoWrite s t
    → CarriesOut plan limit t u
    → CarriesOut plan limit s u
CarriesOut-after plan e c = record {
  only = Extends-trans (Extends-weaken (allows_reads plan) e) c.only;
  times = c.times;
  often = c.often;
  counted = omega (arith, count-NoWrite e, c.counted);
}

pub CarriesOut-if {ℓ} :
    {A : Type ℓ} (b : Bool) (p q : Plan) (limit : ℕ) (m n : Action A) (w : World)
    → (b ≡ true → CarriesOut p limit w.trace (m w).1.trace)
    → (b ≡ false → CarriesOut q limit w.trace (n w).1.trace)
    → CarriesOut (if b then p else q) limit w.trace ((if b then m else n) w).1.trace
CarriesOut-if true p q limit m n w cm cn = cm refl
CarriesOut-if false p q limit m n w cm cn = cn refl

module _ (env : Env) (resource operation : String) where
  recording-writes :
      (start : ℕ) (e : Option Err) (w : World)
      → count is_cf_write (record_cf_call env resource operation start e w).1.trace
        ≡ count is_cf_write w.trace
  unfolding record_cf_call count ◌>>=◌ call pure peek
  recording-writes start none w = refl
  recording-writes start (some e) w = refl

  recording-retries :
      (start : ℕ) (e : Option Err) (w : World)
      → count is_retry (record_cf_call env resource operation start e w).1.trace
        ≡ count is_retry w.trace
  unfolding record_cf_call count ◌>>=◌ call pure peek
  recording-retries start none w = refl
  recording-retries start (some e) w = refl

  module _ {A B : Type 0} (planned : Call) (answer : Trace → B) (error : B → Option Err)
      (result : B → Result A) where
    -- One run of the function that the retry loop gets: a call whose time is recorded.
    abbrev pub request : Action (Result A)
    request = do
      start ← peek env.now
      b ← call planned answer
      record_cf_call env resource operation start (error b)
      pure (result b)

    request-writes : is_cf_write planned ≡ true → Adds env resource operation request is_cf_write 1
    unfolding ◌>>=◌ call pure peek count
    request-writes is_write w =
        let at = record w { trace = planned ∷ w.trace } in
        recording-writes (env.now w.trace) (error (answer w.trace)) at ∙ rw is_write (omega arith)

    request-retries : is_cf_write planned ≡ true → Adds env resource operation request is_retry 0
    unfolding ◌>>=◌ call pure peek count
    request-retries is_write w =
        let at = record w { trace = planned ∷ w.trace } in
        recording-retries (env.now w.trace) (error (answer w.trace)) at
        ∙ rw (write_not_retry planned is_write) (omega arith)

    chained : Progress (ByCalls (OnlyPlanned (Plan.send planned)))
    chained = ByCalls-Progress _

    request-only :
        fits (observe (resource ∷ operation ∷ []) 0) ≡ true
        → Emits (OnlyPlanned (Plan.send planned)) request
    request-only timed =
        let sent =
          ByCalls-Allows {Q = OnlyPlanned (Plan.send planned)} {c = planned} λ writes. refl in
        Moves-bind chained _ _ (Moves-peek chained _) λ start.
          Moves-bind chained _ _ (Moves-call chained planned answer sent) λ b.
            Moves-bind chained _ _
              (record_cf_call-Moves chained env (reads_planned (Plan.send planned) env).metrics
                resource operation start (error b) timed)
              λ _. Moves-pure chained _

    -- The loop sends the request at least once and at most once more than it has retries.
    pub cf_retry-CarriesOut :
        (n : ℕ) (w : World)
        → is_cf_write planned ≡ true
        → fits (observe (resource ∷ operation ∷ []) 0) ≡ true
        → fits (inc api_retries_total (resource ∷ operation ∷ [])) ≡ true
        → CarriesOut
            (Plan.send planned)
            (n + 1)
            w.trace
            (cf_retry env resource operation n request w).1.trace
    cf_retry-CarriesOut n w is_write timed retried =
        let (at_least, at_most, counted, _) =
          cf_retry-count env resource operation request is_cf_write is_retry n w
            (request-writes is_write) (request-retries is_write) refl refl in
        record {
          only =
              (cf_retry-Moves (ByCalls-Progress _) env
                  (reads_planned (Plan.send planned) env).metrics resource operation n request
                  retried (request-only timed)).at
                w;
          times = _;
          often = (at_least, at_most);
          counted = counted;
        }
