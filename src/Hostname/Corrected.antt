-- ===== src/Hostname/Corrected.antt =====
-- The parameters of a create and of an edit against the test for drift, where Cloudflare stores what
-- it is sent.
use cf_edge_operator.Prelude.{◌≡◌, String, false, eq_iff, Option, none, some, arith, refl}
use cf_edge_operator.Api.Saas.{CustomHostname, CustomHostnameSsl}
use cf_edge_operator.Api.Cloudflare.{HostnameResponse, NewParams, EditParams, SslParams}
use cf_edge_operator.Ssl.{ssl_drifted, sni_drifted, has_drift, build_ssl_params}
use cf_edge_operator.Ssl.Params.{Stores, edit_leaves_no_drift, create_leaves_no_drift}
use cf_edge_operator.Hostname.Config.{Reconciler}
use cf_edge_operator.Hostname.Client.{ZoneInfo}
use cf_edge_operator.Hostname.Create.{ssl_or_empty, new_params}
use cf_edge_operator.Hostname.Update.{edit_ssl, edit_params}

-- The hostname has the values of the request, where the request holds one.
pub record StoresSni (sni : Option String) (cf : HostnameResponse) : Type 0 where
  pub stores_sni : (v : String) → sni ≡ some v → cf.custom_origin_sni ≡ v

pub record StoresEdit (p : EditParams) (cf : HostnameResponse) : Type 0 where
  pub edit_origin : cf.custom_origin_server ≡ p.custom_origin_server
  pub edit_sni : StoresSni p.custom_origin_sni cf
  pub edit_ssl : (q : SslParams) → p.ssl ≡ some q → Stores q cf.ssl

pub record StoresNew (p : NewParams) (cf : HostnameResponse) : Type 0 where
  pub new_origin : cf.custom_origin_server ≡ p.custom_origin_server
  pub new_sni : StoresSni p.custom_origin_sni cf
  pub new_ssl : Stores p.ssl cf.ssl

sni_corrected :
    (ch : CustomHostname) (after : HostnameResponse) (sni : Option String)
    → ch.spec.origin_sni ≡ sni
    → StoresSni sni after
    → sni_drifted after.custom_origin_sni ch ≡ false
unfolding sni_drifted
sni_corrected ch after none e h = rw e refl
sni_corrected ch after (some v) e h =
    rw e (ground (arith, h.stores_sni v refl, eq_iff after.custom_origin_sni v))

ssl_edited :
    (spec : Option CustomHostnameSsl) (existing after : HostnameResponse)
    → ((q : SslParams) → edit_ssl spec existing ≡ some q → Stores q after.ssl)
    → ssl_drifted after.ssl spec ≡ false
unfolding ssl_drifted
ssl_edited none existing after h = refl
ssl_edited (some spec) existing after h =
    edit_leaves_no_drift spec existing.ssl after.ssl (h _ refl)

ssl_created :
    (r : Reconciler) (spec : Option CustomHostnameSsl) (after : HostnameResponse)
    → Stores (build_ssl_params (ssl_or_empty spec) r.ssl_defaults) after.ssl
    → ssl_drifted after.ssl spec ≡ false
unfolding ssl_drifted
ssl_created r none after h = refl
ssl_created r (some spec) after h = create_leaves_no_drift spec r.ssl_defaults after.ssl h

module _ (r : Reconciler) (zi : ZoneInfo) (ch : CustomHostname) (after : HostnameResponse) where
  no_drift :
      after.custom_origin_server ≡ ch.spec.origin_server
      → StoresSni ch.spec.origin_sni after
      → ssl_drifted after.ssl ch.spec.ssl ≡ false
      → has_drift after ch ≡ false
  unfolding has_drift
  no_drift origin sni ssl = ground (
    arith,
    eq_iff after.custom_origin_server ch.spec.origin_server,
    sni_corrected ch after ch.spec.origin_sni refl sni,
    ssl,
  )

  -- If Cloudflare stores what an edit sends, then afterwards, whatever the hostname was before, no
  -- drift from the spec is seen, in its origin, its SNI and its SSL settings.
  pub edit_params-has_drift :
      (existing : HostnameResponse)
      → StoresEdit (edit_params r zi ch existing) after
      → has_drift after ch ≡ false
  unfolding edit_params
  edit_params-has_drift existing h =
      no_drift h.edit_origin h.edit_sni (ssl_edited ch.spec.ssl existing after h.edit_ssl)

  -- After a create no drift from the spec is seen.
  pub new_params-has_drift : StoresNew (new_params r zi ch) after → has_drift after ch ≡ false
  unfolding new_params
  new_params-has_drift h =
      no_drift h.new_origin h.new_sni (ssl_created r ch.spec.ssl after h.new_ssl)
