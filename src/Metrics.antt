-- ===== src/Metrics.antt =====
-- internal/controller/metrics.go: the wrapper of every Cloudflare call, the retry loop, and the
-- gauge of the SSL provisioning time with its cache.
pub mod Retry
pub mod Vectors
pub mod Allowed
pub mod Emits
pub mod Series
pub mod Leaks
pub mod Registry
pub mod Race
use cf_edge_operator.Prelude.{
  ℕ, zero, suc, ◌+◌, ◌-◌, ◌*◌, String, ◌<>◌, ◌==◌, ◌!=◌, Bool, true, false, Option, none, some,
  List, [], ◌∷◌, ltb, if◌then◌else◌,
}
use cf_edge_operator.Prelude.Assoc
use cf_edge_operator.Platform.Errors.{
  Err, Result, ok, err, is_deadline_exceeded, is_canceled, status_code, has_status_code,
}
use cf_edge_operator.Platform.Calls.{
  inc, set, observe, delete_series, api_errors_by_code_total, api_retries_total,
  ssl_provisioning_duration, build_info_gauge, operations_total, Counter,
}
use cf_edge_operator.Platform.Env.{Env}
use cf_edge_operator.Platform.Action.{
  World, Action, ProvisioningEntry, pure, call, peek, ◌>>=◌, ◌>>◌, handle, either,
}
use cf_edge_operator.Platform.State.{read_provisioning, write_provisioning}

abbrev pub cf_resource_custom_hostname : String
cf_resource_custom_hostname = "customhostname"

abbrev pub cf_resource_zone : String
cf_resource_zone = "zone"

abbrev pub cf_op_get : String
cf_op_get = "get"

abbrev pub cf_op_list : String
cf_op_list = "list"

abbrev pub cf_op_adopt : String
cf_op_adopt = "adopt"

abbrev pub cf_op_create : String
cf_op_create = "create"

abbrev pub cf_op_recreate : String
cf_op_recreate = "recreate"

abbrev pub cf_op_update : String
cf_op_update = "update"

abbrev pub cf_op_delete : String
cf_op_delete = "delete"

abbrev pub inc_counter : Counter → List String → Action (Unit {0})
inc_counter c labels = call (inc c labels) (λ _. tt)

unfoldable pub set_build_info : String → String → Action (Unit {0})
set_build_info version commit = call (set build_info_gauge (version ∷ commit ∷ []) 1) (λ _. tt)

unfoldable pub error_label : Env → Err → String
error_label env e =
    if is_deadline_exceeded e
    then "timeout"
    else if is_canceled e
    then "canceled"
    else elim (status_code e) [ none ↦ "unknown" | some code ↦ env.itoa code ]

unfoldable pub record_cf_call :
    Env → (resource operation : String) → (start : ℕ) → Option Err → Action (Unit {0})
record_cf_call env resource operation start e = do
  now ← peek env.now
  call (observe (resource ∷ operation ∷ []) (now - start)) (λ _. tt)
  either e (pure tt)
      (λ x. inc_counter api_errors_by_code_total (resource ∷ operation ∷ error_label env x ∷ []))

-- The rest of a round of the loop, after `err = fn()`.
unfoldable pub retry_or_stop :
    {A : Type 0}
    → Env
    → (resource operation : String) → (attempts : ℕ) → Action (ℕ × Result A)
    → Result A
    → Action (ℕ × Result A)
retry_or_stop env resource operation attempts again (ok a) = pure (attempts, ok a)
retry_or_stop env resource operation attempts again (err e) =
    if has_status_code e 429 then pure (attempts, err e) else do
      done ← peek env.context_done
      (if done
          then pure (attempts, err e)
          else do inc_counter api_retries_total (resource ∷ operation ∷ []); again)

-- `fn` writes its result to a captured variable, which is the value of the `Result` here. The
-- number is that of the attempts made.
unfoldable pub retry_loop :
    {A : Type 0}
    → Env
    → (resource operation : String) → Action (Result A)
    → (left attempt : ℕ) → Action (ℕ × Result A)
unfolding retry_or_stop
retry_loop env resource operation fn zero attempt = do r ← fn; pure (attempt + 1, r)
retry_loop env resource operation fn (suc left) attempt = do
  r ← fn
  retry_or_stop env resource operation (attempt + 1)
      (retry_loop env resource operation fn left (attempt + 1)) r

-- `main` refuses a negative number of retries, with which the loop of the source would not run.
unfoldable pub cf_retry :
    {A : Type 0}
    → Env
    → (resource operation : String) → (max_retries : ℕ) → Action (Result A)
    → Action (ℕ × Result A)
unfolding retry_loop
cf_retry env resource operation max_retries fn = retry_loop env resource operation fn max_retries 0

-- Three minutes, in nanoseconds.
abbrev pub ssl_provisioning_ttl : ℕ
ssl_provisioning_ttl = 180 * 1_000_000_000

abbrev pub series_of : ProvisioningEntry → List String
series_of e = e.zone_cr ∷ e.hostname ∷ e.method ∷ []

-- The part of `setSSLProvisioningDuration` that holds the mutex.
unfoldable pub register_provisioning : Env → (zone_cr hostname method : String) → Action (Unit {0})
register_provisioning env zone_cr hostname method =
    let key = zone_cr <> "/" <> hostname in
    do
      entries ← read_provisioning
      either (Assoc.get key entries) (pure tt) (λ prev.
          if prev.method != method
          then call (delete_series ssl_provisioning_duration (series_of prev)) (λ _. tt)
          else pure tt)
      now ← peek env.now
      write_provisioning (
          Assoc.put key
            (record {
              zone_cr = zone_cr;
              hostname = hostname;
              method = method;
              expires_at = now + ssl_provisioning_ttl;
            })
            entries)

-- `setSSLProvisioningDuration` with what other goroutines do while it waits for the mutex, between the
-- gauge and the cache.
unfoldable pub set_duration_while :
    Env
    → (others : Action (Unit {0})) → (zone_cr hostname method : String) → (duration : ℕ)
    → Action (Unit {0})
set_duration_while env others zone_cr hostname method duration = do
  call (set ssl_provisioning_duration (zone_cr ∷ hostname ∷ method ∷ []) duration) (λ _. tt)
  others
  register_provisioning env zone_cr hostname method

unfoldable pub set_ssl_provisioning_duration :
    Env → (zone_cr hostname method : String) → (duration : ℕ) → Action (Unit {0})
unfolding set_duration_while register_provisioning
set_ssl_provisioning_duration env zone_cr hostname method duration =
    set_duration_while env (pure tt) zone_cr hostname method duration

-- One entry of the cache, and the rest of the loop.
unfoldable pub clean_entry :
    ℕ
    → String
    → ProvisioningEntry
    → Action (List (String × ProvisioningEntry))
    → Action (List (String × ProvisioningEntry))
clean_entry now key entry rest =
    if ltb entry.expires_at now
    then (do call (delete_series ssl_provisioning_duration (series_of entry)) (λ _. tt); rest)
    else (do kept ← rest; pure ((key, entry) ∷ kept))

-- The loop over the cache; Go's order is any order. It returns what stays.
unfoldable pub clean_entries :
    ℕ → List (String × ProvisioningEntry) → Action (List (String × ProvisioningEntry))
unfolding clean_entry
clean_entries now [] = pure []
clean_entries now ((key, entry) ∷ entries) = clean_entry now key entry (clean_entries now entries)

unfoldable pub clean_expired_ssl_provisioning : Env → Action (Unit {0})
unfolding clean_entries
clean_expired_ssl_provisioning env = do
  now ← peek env.now
  entries ← read_provisioning
  kept ← clean_entries now entries
  write_provisioning kept
