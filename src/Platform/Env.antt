-- ===== src/Platform/Env.antt =====
-- Everything outside the repository, as functions: the answer to a call may depend on all calls
-- before it, so a quantifier over `Env` covers every behaviour of the servers, of the clock and of
-- the other goroutines between two calls.
use cf_edge_operator.Prelude.{ℕ, String, Bool, ◌≡◌, ◌≤◌, Option, List, [], ◌∷◌, length}
use cf_edge_operator.Prelude.{◌==◌, if◌then◌else◌}
use cf_edge_operator.Api.Meta.{Condition, NamespacedName, Secret}
use cf_edge_operator.Api.Domains.{Zone}
use cf_edge_operator.Api.Saas.{CustomHostname}
use cf_edge_operator.Api.Cloudflare.{
  HostnameResponse, CfClient, ListParams, NewParams, EditParams, DeleteParams,
}
use cf_edge_operator.Platform.Errors.{Err, Result}
use cf_edge_operator.Platform.Calls.{Trace}

-- The items that a pager yields until it stops, and its error.
pub record Pages : Type 0 where
  pub items : List HostnameResponse
  pub error : Option Err

-- How a blocked send on the event channel ends.
pub data Blocked : Type 0 where
  received shutdown : Blocked

pub record Env : Type 0 where
  pub get_custom_hostname : Trace → NamespacedName → Result CustomHostname
  pub get_zone : Trace → NamespacedName → Result Zone
  pub get_secret : Trace → NamespacedName → Result Secret
  -- a `List` call with `MatchingFields{field: value}`
  pub list_custom_hostnames : Trace → String → String → Result (List CustomHostname)
  pub update : Trace → CustomHostname → Option Err
  pub update_status : Trace → CustomHostname → Option Err
  -- the server's version of the zone is what the caller goes on with
  pub update_zone_status : Trace → Zone → Result Zone
  pub cf_list : Trace → CfClient → ListParams → Pages
  pub cf_new : Trace → CfClient → NewParams → Result HostnameResponse
  pub cf_edit : Trace → CfClient → String → EditParams → Result HostnameResponse
  pub cf_delete : Trace → CfClient → String → DeleteParams → Option Err
  -- the name of the zone
  pub cf_get_zone : Trace → CfClient → String → Result String
  pub now : Trace → ℕ
  -- `ctx.Err() != nil`
  pub context_done : Trace → Bool
  -- how many events the worker has received from the channel since the call before
  pub events_received : Trace → ℕ
  pub blocked_send : Trace → Blocked
  -- apimeta and controllerutil
  pub set_status_condition : List Condition → Condition → List Condition
  pub find_status_condition : List Condition → String → Option Condition
  pub contains_finalizer : List String → String → Bool
  pub add_finalizer : List String → String → List String
  pub remove_finalizer : List String → String → List String
  -- `err.Error()`, `%q` and decimal printing
  pub error_text : Err → String
  pub quote : String → String
  pub itoa : ℕ → String
  -- `t.Format(time.RFC3339)`
  pub format_time : ℕ → String
  -- what a `metav1.Time` is read back as after it was stored
  pub stored_time : ℕ → ℕ

unfoldable pub of_type : String → List Condition → List Condition
of_type t [] = []
of_type t (c ∷ cs) = let rest = of_type t cs in if c.type == t then c ∷ rest else rest

-- A list of conditions is a map by type (`+listMapKey=type`), which the API server enforces.
abbrev pub HasUniqueTypes : List Condition → Type 0
HasUniqueTypes cs = (t : String) → length (of_type t cs) ≤ 1

-- What `apimeta.SetStatusCondition` documents: the condition of that type is replaced, or added,
-- and no other changes.
pub record SetsConditions (env : Env) : Type 0 where
  pub of_type-set :
      (cs : List Condition) (c : Condition) (t : String)
      → HasUniqueTypes cs
      → of_type t (env.set_status_condition cs c) ≡ (if c.type == t then c ∷ [] else of_type t cs)

-- What `apimeta.FindStatusCondition` documents: the first condition of the type.
pub record FindsConditions (env : Env) : Type 0 where
  pub find-nil : (t : String) → env.find_status_condition [] t ≡ Option.none
  pub find-cons :
      (c : Condition) (cs : List Condition) (t : String)
      → env.find_status_condition (c ∷ cs) t
        ≡ (if c.type == t then Option.some c else env.find_status_condition cs t)
