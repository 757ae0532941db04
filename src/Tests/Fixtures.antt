-- ===== src/Tests/Fixtures.antt =====
-- A small cluster and its servers, with functions in place of the libraries, on which the theorems
-- are run.
use cf_edge_operator.Prelude.{
  ◌≡◌, refl, String, ◌<>◌, ◌==◌, eq_iff, Bool, false, ◌||◌, Option, none, some, List, [], ◌∷◌,
  arith, if◌then◌else◌, ◌-◌, ◌%◌,
}
use cf_edge_operator.Api.Meta.{Condition, ObjectMeta}
use cf_edge_operator.Api.Domains.{Zone}
use cf_edge_operator.Api.Saas.{CustomHostname, CustomHostnameSsl}
use cf_edge_operator.Api.Cloudflare.{HostnameResponse, ResponseSsl, CfClient}
use cf_edge_operator.Platform.Errors.{ok}
use cf_edge_operator.Platform.Env.{Env, received, of_type, SetsConditions, FindsConditions}
use cf_edge_operator.Platform.Stored.{KeepsSeconds}
use cf_edge_operator.Platform.Action.{World}
use cf_edge_operator.Hostname.Config.{Reconciler, finalizer_name}
use cf_edge_operator.Hostname.Client.{ZoneInfo}
use cf_edge_operator.Zone.Config.{ZoneReconciler}

unfoldable pub without : String → List Condition → List Condition
without t [] = []
without t (c ∷ cs) = let rest = without t cs in if c.type == t then rest else c ∷ rest

unfoldable pub find : List Condition → String → Option Condition
find [] t = none
find (c ∷ cs) t = if c.type == t then some c else find cs t

of_type-without :
    (t u : String) (cs : List Condition)
    → of_type t (without u cs) ≡ (if u == t then [] else of_type t cs)
unfolding of_type without
of_type-without t u [] = ground arith
of_type-without t u (c ∷ cs) =
    ground (arith, of_type-without t u cs, eq_iff c.type u, eq_iff c.type t, eq_iff u t)

unfoldable pub contains : List String → String → Bool
contains [] s = false
contains (x ∷ xs) s = x == s || contains xs s

unfoldable pub remove : List String → String → List String
remove [] s = []
remove (x ∷ xs) s = let rest = remove xs s in if x == s then rest else x ∷ rest

abbrev pub spec_ssl : CustomHostnameSsl
spec_ssl = record {
  certificate_authority = "";
  min_tls_version = "1.2";
  method = "http";
  type = "dv";
}

abbrev pub ready_ssl : ResponseSsl
ready_ssl = record {
  status = "active";
  certificate_authority = "google";
  min_tls_version = "1.2";
  method = "http";
  type = "dv";
  id = "ssl-1";
  issuer = "GTS";
  serial_number = "77";
  bundle_method = "";
  wildcard = false;
  hosts = "app.example.net" ∷ [];
  uploaded_on = some 5_000_000_000;
  expires_on = some 900_000_000_000;
  validation_records = [];
  validation_errors = [];
}

-- The hostname at Cloudflare, as the spec wants it, and with another origin.
abbrev pub good : HostnameResponse
good = record {
  id = "cf-1";
  hostname = "app.example.net";
  status = "active";
  custom_origin_server = "origin.example.com";
  custom_origin_sni = "";
  ssl = ready_ssl;
}

abbrev pub drifted : HostnameResponse
drifted = record good { custom_origin_server = "old.example.com" }

abbrev pub metadata : ObjectMeta
metadata = record {
  name = "app";
  namespace = "team-a";
  uid = "uid-1";
  generation = 3;
  finalizers = finalizer_name ∷ [];
  deletion_timestamp = none;
}

-- A custom resource that manages the hostname.
abbrev pub app : CustomHostname
app = record {
  metadata = metadata;
  spec = record {
    hostname = "app.example.net";
    origin_server = "origin.example.com";
    origin_sni = none;
    zone_ref = record { name = "zone-a"; namespace = "" };
    ssl = some spec_ssl;
    management_policy = "manage";
    delete_policy = "own-only";
  };
  status = record {
    id = "cf-1";
    hostname_status = "active";
    ssl = none;
    create_count = 1;
    consecutive_errors = 0;
    ssl_provisioning_started_at = some 40;
    conditions = [];
  };
}

-- Another custom resource for the same hostname, which has not got it.
abbrev pub rival : CustomHostname
rival = record app {
  metadata = record metadata { name = "rival"; uid = "uid-2"; finalizers = [] };
  status = record app.status { id = ""; hostname_status = "" };
}

abbrev pub zone : Zone
zone = record {
  metadata = record metadata { name = "zone-a"; uid = "uid-z" };
  spec = record { id = "z1"; credentials_ref = record { name = "cf"; key = "token" } };
  status = record { name = "example.com"; conditions = [] };
}

abbrev pub client : CfClient
client = record { api_token = "t"; max_retries = 0; request_timeout = some 10; base_url = none }

abbrev pub zi : ZoneInfo
zi = record { cr = "zone-a"; id = "z1"; domain = "example.com"; client = client }

abbrev pub reconciler : Reconciler
reconciler = record {
  operator_namespace = "ops";
  management_policy = "manage";
  delete_policy = "own-only";
  dry_run = false;
  ssl_defaults = record {
    certificate_authority = "";
    min_tls_version = "";
    method = "";
    type = "";
  };
  cf_api_timeout = 10;
  cf_api_write_timeout = 20;
  cf_api_max_retries = 2;
  cf_api_write_delay = 1;
  cf_base_url = "";
}

abbrev pub zone_reconciler_a : ZoneReconciler
zone_reconciler_a = record {
  drift_buffer = 2;
  drift_interval = 30;
  cf_api_timeout = 10;
  cf_api_max_retries = 2;
  cf_api_bulk_timeout = 60;
  cf_api_bulk_max_retries = 3;
  cf_base_url = "";
}

-- Servers that know the two custom resources and the hostname, at the time 100.
abbrev pub env : Env
env = record {
  get_custom_hostname = λ t key. ok app;
  get_zone = λ t key. ok zone;
  get_secret = λ t key. ok (record { entries = ("token", "t") ∷ [] });
  list_custom_hostnames = λ t field value. ok (app ∷ rival ∷ []);
  update = λ t ch. none;
  update_status = λ t ch. none;
  update_zone_status = λ t z. ok z;
  cf_list = λ t c p. record { items = good ∷ []; error = none };
  cf_new = λ t c p. ok good;
  cf_edit = λ t c id p. ok good;
  cf_delete = λ t c id p. none;
  cf_get_zone = λ t c id. ok "example.com";
  now = λ t. 100;
  context_done = λ t. false;
  events_received = λ t. 0;
  blocked_send = λ t. received;
  set_status_condition = λ cs c. c ∷ without c.type cs;
  find_status_condition = find;
  contains_finalizer = contains;
  add_finalizer = λ fs f. f ∷ fs;
  remove_finalizer = remove;
  error_text = λ e. "error";
  quote = λ s. "\"" <> s <> "\"";
  itoa = λ n. "0";
  format_time = λ t. "t";
  stored_time = λ t. t - t % 1_000_000_000;
}

abbrev pub start : World
start = record { trace = []; provisioning = []; events = [] }

pub keeps : KeepsSeconds env
keeps = record { seconds = λ t. refl }

pub sets : SetsConditions env
unfolding of_type
sets = record { of_type-set = λ cs c t _. ground (arith, of_type-without t c.type cs) }

pub finds : FindsConditions env
unfolding find
finds = record { find-nil = λ t. refl; find-cons = λ c cs t. refl }
