-- ===== src/Ssl/StatusChange.antt =====
-- internal/controller/zone_customhostname_drift.go: the fields in which the recorded SSL status
-- and the one of Cloudflare differ.
use cf_edge_operator.Prelude.{
  ℕ, String, Bool, true, false, not, ◌!=◌, Option, none, some, List, [], ◌∷◌, ◌++◌, nat_beq,
  if◌then◌else◌,
}
use cf_edge_operator.Api.Saas.{CustomHostnameSslStatus}
use cf_edge_operator.Api.Cloudflare.{ResponseSsl}
use cf_edge_operator.Platform.Env.{Env}

pub record StatusPair : Type 0 where
  pub status : String
  pub cf : String

-- A nil map is `none`.
abbrev pub Changes : Type 0
Changes = Option (List (String × StatusPair))

-- The closure `set`, called under the test `changed`.
unfoldable pub set_if : Bool → String → StatusPair → Changes → Changes
set_if false key pair changes = changes
set_if true key pair none = some ((key, pair) ∷ [])
set_if true key pair (some l) = some (l ++ (key, pair) ∷ [])

unfoldable pub time_string : Env → Option ℕ → String
time_string env none = ""
time_string env (some t) = env.format_time t

unfoldable pub time_ptr_equal : Option ℕ → Option ℕ → Bool
time_ptr_equal none none = true
time_ptr_equal (some t) none = false
time_ptr_equal none (some u) = false
time_ptr_equal (some t) (some u) = nat_beq t u

-- `fmt.Sprintf("%v", b)`
abbrev pub bool_text : Bool → String
bool_text true = "true"
bool_text false = "false"

abbrev pub bool_ne : Bool → Bool → Bool
bool_ne true b = not b
bool_ne false b = b

abbrev pub text_field : String → String → String → Changes → Changes
text_field key status cf = set_if (status != cf) key (record { status = status; cf = cf })

unfoldable pub changed_fields : Env → CustomHostnameSslStatus → ResponseSsl → Changes
changed_fields env s cf =
    let ca = text_field "ca" s.certificate_authority cf.certificate_authority none in
    let min_tls = text_field "minTLS" s.min_tls_version cf.min_tls_version ca in
    let method = text_field "method" s.method cf.method min_tls in
    let type = text_field "type" s.type cf.type method in
    let status = text_field "sslStatus" s.status cf.status type in
    let id = text_field "id" s.id cf.id status in
    let issuer = text_field "issuer" s.issuer cf.issuer id in
    let serial = text_field "serialNumber" s.serial_number cf.serial_number issuer in
    let bundle = text_field "bundleMethod" s.bundle_method cf.bundle_method serial in
    let wildcard =
      set_if (bool_ne s.wildcard cf.wildcard) "wildcard"
        (record { status = bool_text s.wildcard; cf = bool_text cf.wildcard }) bundle in
    let uploaded =
      set_if (not (time_ptr_equal s.uploaded_on cf.uploaded_on)) "uploadedOn"
        (record { status = time_string env s.uploaded_on; cf = time_string env cf.uploaded_on })
        wildcard in
    set_if (not (time_ptr_equal s.expires_on cf.expires_on)) "expiresOn"
      (record { status = time_string env s.expires_on; cf = time_string env cf.expires_on })
      uploaded

unfoldable pub ssl_status_changed_fields :
    Env → Option CustomHostnameSslStatus → ResponseSsl → Changes
unfolding changed_fields
ssl_status_changed_fields env none cf =
    if cf.status != "" then some (("status", record { status = ""; cf = cf.status }) ∷ []) else none
ssl_status_changed_fields env (some s) cf = changed_fields env s cf
