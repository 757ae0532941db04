-- ===== src/Platform/Action.antt =====
-- Go code with effects: an action reads and changes the world, and returns a value. An error is a
-- value, as in Go. Every effect is one call, added to the trace.
use cf_edge_operator.Prelude.{ℕ, String, Option, none, some, List, ◌∷◌}
use cf_edge_operator.Api.Saas.{CustomHostname}
use cf_edge_operator.Platform.Errors.{Err, Result, ok, err}
use cf_edge_operator.Platform.Calls.{Call, Trace}

-- `sslProvisioningEntry` of metrics.go
pub record ProvisioningEntry : Type 0 where
  pub zone_cr : String
  pub hostname : String
  pub method : String
  pub expires_at : ℕ

-- The trace, and the state of the process: `sslProvisioningCache` of metrics.go and the buffer of
-- the channel `driftEvents` of main.go, the oldest event first.
pub record World : Type 0 where
  pub trace : Trace
  pub provisioning : List (String × ProvisioningEntry)
  pub events : List CustomHostname

abbrev pub Action {ℓ} : Type ℓ → Type ℓ
Action A = World → A × World

module _ {ℓ} {A : Type ℓ} where
  unfoldable pub pure : A → Action A
  pure a w = (a, w)

  -- One call, whose answer may depend on all calls before it.
  unfoldable pub call : Call → (Trace → A) → Action A
  call c answer w = (answer w.trace, record w { trace = c ∷ w.trace })

  -- What can be seen with no call, such as the time.
  unfoldable pub peek : (Trace → A) → Action A
  peek see w = (see w.trace, w)

infixl 10 ◌>>=◌ ◌>>◌
unfoldable pub ◌>>=◌ {ℓ κ} : {A : Type ℓ} {B : Type κ} → Action A → (A → Action B) → Action B
◌>>=◌ m f w = let (a, w') = m w in f a w'

abbrev pub ◌>>◌ {ℓ} : {B : Type ℓ} → Action (Unit {0}) → Action B → Action B
m >> n = m >>= λ _. n

-- `if err != nil { … }`, and what follows it.
module _ {ℓ κ} {A : Type ℓ} {B : Type κ} where
  abbrev pub handle : Result A → (Err → Action B) → (A → Action B) → Action B
  handle (ok a) on_error next = next a
  handle (err e) on_error next = on_error e

  -- The test of a pointer for nil.
  abbrev pub either : Option A → Action B → (A → Action B) → Action B
  either none absent present = absent
  either (some a) absent present = present a
