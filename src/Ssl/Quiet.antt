-- ===== src/Ssl/Quiet.antt =====
-- When the zone controller sees a change of the SSL status.
use cf_edge_operator.Prelude.{
  ℕ, ◌≡◌, ◌↔◌, refl, String, Bool, true, false, eq_iff, Option, none, some, arith, eq_refl, not,
  ◌&&◌,
}
use mathlib.Core.Option
use cf_edge_operator.Api.Saas.{CustomHostnameSslStatus}
use cf_edge_operator.Api.Cloudflare.{HostnameResponse, ResponseSsl}
use cf_edge_operator.Platform.Env.{Env}
use cf_edge_operator.Platform.Stored.{KeepsSeconds, stored_ssl, is_whole, has_whole_times}
use cf_edge_operator.Zone.Drift.{is_changed}
use cf_edge_operator.Ssl.{cf_state_from_list, cf_state_from_edit, cf_state_from_new}
use cf_edge_operator.Ssl.StatusChange.{
  StatusPair, Changes, set_if, text_field, bool_ne, changed_fields, ssl_status_changed_fields,
  time_ptr_equal,
}

-- The twelve compared fields agree.
pub record Agrees (s : CustomHostnameSslStatus) (cf : ResponseSsl) : Type 0 where
  pub certificate_authority : s.certificate_authority ≡ cf.certificate_authority
  pub min_tls_version : s.min_tls_version ≡ cf.min_tls_version
  pub method : s.method ≡ cf.method
  pub type : s.type ≡ cf.type
  pub status : s.status ≡ cf.status
  pub id : s.id ≡ cf.id
  pub issuer : s.issuer ≡ cf.issuer
  pub serial_number : s.serial_number ≡ cf.serial_number
  pub bundle_method : s.bundle_method ≡ cf.bundle_method
  pub wildcard : s.wildcard ≡ cf.wildcard
  pub uploaded_on : s.uploaded_on ≡ cf.uploaded_on
  pub expires_on : s.expires_on ≡ cf.expires_on

set_if-eq-none :
    (b : Bool) (key : String) (pair : StatusPair) (changes : Changes)
    → set_if b key pair changes ≡ none
    → (b ≡ false) × (changes ≡ none)
unfolding set_if
set_if-eq-none b key pair changes h = ground arith

text_field-eq-none :
    (key s cf : String) (changes : Changes)
    → text_field key s cf changes ≡ none
    → (s ≡ cf) × (changes ≡ none)
unfolding set_if
text_field-eq-none key s cf changes h = ground (arith, eq_iff s cf)

bool_ne_self : (b : Bool) → bool_ne b b ≡ false
bool_ne_self b = ground arith

time_ptr_equal_lem : (t u : Option ℕ) → (time_ptr_equal t u ≡ true) ↔ (t ≡ u)
unfolding time_ptr_equal
time_ptr_equal_lem none none = (λ _. refl, λ _. refl)
time_ptr_equal_lem none (some u) = (λ h. ground arith, λ h. ground arith)
time_ptr_equal_lem (some t) none = (λ h. ground arith, λ h. ground arith)
time_ptr_equal_lem (some t) (some u) = (λ h. ground arith, λ h. ground arith)

time_ptr_equal_self : (t : Option ℕ) → time_ptr_equal t t ≡ true
time_ptr_equal_self t = (time_ptr_equal_lem t t).1 refl

ruleset same_tests = (eq_refl, bool_ne_self, time_ptr_equal_self)

-- With a recorded status, no change is seen exactly when the twelve compared fields agree.
pub ssl_status_changed_fields-eq-none :
    (env : Env) (s : CustomHostnameSslStatus) (cf : ResponseSsl)
    → (ssl_status_changed_fields env (some s) cf ≡ none) ↔ Agrees s cf
unfolding ssl_status_changed_fields
ssl_status_changed_fields-eq-none env s cf = (
  λ quiet.
      let expires = set_if-eq-none _ _ _ _ quiet in
      let uploaded = set_if-eq-none _ _ _ _ expires.1 in
      let wildcard = set_if-eq-none _ _ _ _ uploaded.1 in
      let bundle = text_field-eq-none _ _ _ _ wildcard.1 in
      let serial = text_field-eq-none _ _ _ _ bundle.1 in
      let issuer = text_field-eq-none _ _ _ _ serial.1 in
      let id = text_field-eq-none _ _ _ _ issuer.1 in
      let status = text_field-eq-none _ _ _ _ id.1 in
      let type = text_field-eq-none _ _ _ _ status.1 in
      let method = text_field-eq-none _ _ _ _ type.1 in
      let min_tls = text_field-eq-none _ _ _ _ method.1 in
      let ca = text_field-eq-none _ _ _ _ min_tls.1 in
      record {
        certificate_authority = ca.0;
        min_tls_version = min_tls.0;
        method = method.0;
        type = type.0;
        status = status.0;
        id = id.0;
        issuer = issuer.0;
        serial_number = serial.0;
        bundle_method = bundle.0;
        wildcard = ground (arith, wildcard.0);
        uploaded_on = (time_ptr_equal_lem _ _).0 (ground (arith, uploaded.0));
        expires_on = (time_ptr_equal_lem _ _).0 (ground (arith, expires.0));
      },
  λ a. all_same a,
)
  where
    all_same : Agrees s cf → changed_fields env s cf ≡ none
    all_same a =
        unfold set_if in
        simp (
          a.certificate_authority, a.min_tls_version, a.method, a.type, a.status, a.id, a.issuer,
          a.serial_number, a.bundle_method, a.wildcard, a.uploaded_on, a.expires_on, same_tests,
        )

module _ (env : Env) (keeps : KeepsSeconds env) where
  time_ptr_equal-stored :
      (t : Option ℕ) → time_ptr_equal (Option.map env.stored_time t) t ≡ is_whole t
  unfolding time_ptr_equal
  time_ptr_equal-stored none = refl
  time_ptr_equal-stored (some t) = ground (arith, keeps.seconds t)

  two_times :
      (b c : Bool) (k l : String) (p q : StatusPair)
      → is_changed (set_if (not c) l q (set_if (not b) k p none)) ≡ not (b && c)
  unfolding set_if
  two_times true true k l p q = refl
  two_times true false k l p q = refl
  two_times false true k l p q = refl
  two_times false false k l p q = refl

  -- If a stored time keeps its whole seconds, the status that a reconcile records, from a list,
  -- create or edit response, is, once it is stored, seen as unchanged by a drift cycle that lists
  -- the same SSL state exactly if both times of the certificate are whole seconds.
  pub changed_fields-refreshed :
      (resp : HostnameResponse)
      → (is_changed (
            ssl_status_changed_fields env
              (Option.map (stored_ssl env) (cf_state_from_list resp).ssl)
              resp.ssl)
          ≡ not (has_whole_times resp.ssl))
        × (is_changed (
              ssl_status_changed_fields env
                (Option.map (stored_ssl env) (cf_state_from_new resp).ssl)
                resp.ssl)
            ≡ not (has_whole_times resp.ssl))
        × (is_changed (
              ssl_status_changed_fields env
                (Option.map (stored_ssl env) (cf_state_from_edit resp).ssl)
                resp.ssl)
            ≡ not (has_whole_times resp.ssl))
  unfolding ssl_status_changed_fields changed_fields cf_state_from_list cf_state_from_new
      cf_state_from_edit set_if
  changed_fields-refreshed resp = (
    simp (same_tests, time_ptr_equal-stored, two_times),
    simp (same_tests, time_ptr_equal-stored, two_times),
    simp (same_tests, time_ptr_equal-stored, two_times),
  )
