-- ===== src/Certs/Provisioned.antt =====
-- What `ProvisionCertificates` has done where it succeeds.
use mathlib.Core.Path.{subst}
use fabric_x_operator.Prelude.{Option, none, some, ◌≡◌, refl, List, ◌∷◌}
use fabric_x_operator.Go.{ok}
use fabric_x_operator.Go.Triple.{
  Triple, Triple-pure, Triple-call, Triple-check, Triple-invoke, Triple-weaken, Occurs, before,
  Occurs-answer, ok_injective,
}
use fabric_x_operator.Certs.Types.{
  ProviderConfig, Config, CertificateData, SignCertificateRequest, TlsCertificateRequest, Event,
  signed, issued, CertificateProvider, ProviderFactory,
}
use fabric_x_operator.Certs.Factory.{get_provider_from_config}
use fabric_x_operator.Certs.Provision.{
  ProvisionCertificatesOptions, ProvisionCertificatesResult, factory_or, provision_sign,
  provision_tls, provision_certificates,
}

module _ (factory : ProviderFactory) (opts : ProvisionCertificatesOptions) where
  abbrev sign_request : Config → SignCertificateRequest
  sign_request config = record {
    msp_id = opts.msp_id;
    component_name = opts.component_name;
    config = config;
  }

  abbrev tls_request : Config → TlsCertificateRequest
  tls_request config = record {
    msp_id = opts.msp_id;
    component_name = opts.component_name;
    dns_names = opts.dns_names;
    ip_addresses = opts.ip_addresses;
    config = config;
  }

  -- The signing certificate is nil if none is configured, and otherwise the answer of the provider
  -- that the factory gives, to a request with the settings that it gives.
  abbrev pub SignMade : Option ProviderConfig → Option CertificateData → List Event → Type 0
  SignMade none d h = d ≡ none
  SignMade (some c) d h =
      (got : CertificateProvider × Config) × (get_provider_from_config factory (some c) ≡ ok got)
      × Occurs (signed got.0.name (sign_request got.1) (ok d)) h

  -- The same for the TLS certificate.
  abbrev pub TlsMade : Option ProviderConfig → Option CertificateData → List Event → Type 0
  TlsMade none d h = d ≡ none
  TlsMade (some c) d h =
      (got : CertificateProvider × Config) × (get_provider_from_config factory (some c) ≡ ok got)
      × Occurs (issued got.0.name (tls_request got.1) (ok d)) h

  SignMade-before :
      (c : Option ProviderConfig) (d : Option CertificateData) (h : List Event) (e : Event)
      → SignMade c d h
      → SignMade c d (e ∷ h)
  SignMade-before none d h e m = m
  SignMade-before (some c) d h e m = (m.0, m.1, before m.2)

  provision_sign-SignMade :
      (c : Option ProviderConfig)
      → Triple
          (λ _. Unit {0})
          (provision_sign factory opts c)
          (λ r h. (d : Option CertificateData) → r ≡ ok d → SignMade c d h)
  unfolding provision_sign
  provision_sign-SignMade none =
      Triple-pure _ (λ h p d x. subst (λ d'. SignMade none d' h) (ok_injective x) refl)
  provision_sign-SignMade (some c) =
      Triple-check (get_provider_from_config factory (some c))
        (λ e _. Triple-pure _ (λ h p d x. cc))
        λ got g.
          let request = signed got.0.name (sign_request got.1) in
          Triple-call request
            (λ r h. (d : Option CertificateData) → r ≡ ok d → Occurs (request (ok d)) h)
            (λ h p d x. Occurs-answer request _ _ h x)
            λ r.
              Triple-check r (λ e _. Triple-pure _ (λ h p d x. cc))
                λ a x.
                  Triple-pure _ (λ h p d y.
                    subst (λ d'. SignMade (some c) d' h) (ok_injective y) (got, g, p a x))

  -- A fact of the signing certificate stays while the TLS certificate is made.
  provision_tls-TlsMade :
      (c : Option ProviderConfig) (s : Option ProviderConfig) (d : Option CertificateData)
      → Triple
          (SignMade s d)
          (provision_tls factory opts c)
          (λ r h. SignMade s d h × ((t : Option CertificateData) → r ≡ ok t → TlsMade c t h))
  unfolding provision_tls
  provision_tls-TlsMade none s d =
      Triple-pure _ (λ h p. (p, λ t x. subst (λ t'. TlsMade none t' h) (ok_injective x) refl))
  provision_tls-TlsMade (some c) s d =
      Triple-check (get_provider_from_config factory (some c))
        (λ e _. Triple-pure _ (λ h p. (p, λ t x. cc)))
        λ got g.
          let request = issued got.0.name (tls_request got.1) in
          Triple-call request
            (λ r h.
              SignMade s d h
              × ((t : Option CertificateData) → r ≡ ok t → Occurs (request (ok t)) h))
            (λ h p. (SignMade-before s d h _ p, λ t x. Occurs-answer request _ _ h x))
            λ r.
              Triple-check r (λ e _. Triple-pure _ (λ h p. (p.0, λ t x. cc)))
                λ a x. Triple-pure _ (λ h p. (
                  p.0,
                  λ t y. subst (λ t'. TlsMade (some c) t' h) (ok_injective y) (got, g, p.1 a x),
                ))

-- Both certificates of a result are as they were asked for.
abbrev pub Made :
    ProviderFactory
    → ProvisionCertificatesOptions
    → ProvisionCertificatesResult
    → List Event
    → Type 0
Made factory opts r h =
    SignMade factory opts opts.sign_provider r.sign_certificate h
    × TlsMade factory opts opts.tls_provider r.tls_certificate h

provision_certificates-Triple :
    (default : ProviderFactory) (opts : ProvisionCertificatesOptions)
    → Triple
        (λ _. Unit {0})
        (provision_certificates default opts)
        (λ r h.
          (result : ProvisionCertificatesResult)
          → r ≡ ok result
          → Made (factory_or default opts.provider_factory) opts result h)
unfolding provision_certificates
provision_certificates-Triple default opts =
    let factory = factory_or default opts.provider_factory in
    Triple-invoke _ (provision_sign-SignMade factory opts opts.sign_provider) λ made_sign.
      Triple-check made_sign (λ e _. Triple-pure _ (λ h p r x. cc))
        λ sign s.
          Triple-invoke _
            (Triple-weaken (λ h p. p sign s)
              (provision_tls-TlsMade factory opts opts.tls_provider opts.sign_provider sign))
            λ made_tls.
              Triple-check made_tls (λ e _. Triple-pure _ (λ h p r x. cc))
                λ tls t. Triple-pure _ (λ h p r x.
                  subst (λ r'. Made factory opts r' h) (ok_injective x) (p.0, p.1 tls t))

-- The signing certificate in a result of `ProvisionCertificates` is nil if no provider is configured
-- for it, and otherwise what the provider that the factory gives for its configuration answered to a
-- request with its settings and the name of the component; the same holds of the TLS certificate,
-- whose request also has the host names and addresses.
pub provision_certificates-Made :
    (default : ProviderFactory) (opts : ProvisionCertificatesOptions) (h : List Event)
    (result : ProvisionCertificatesResult)
    → (provision_certificates default opts h).0 ≡ ok result
    → Made
        (factory_or default opts.provider_factory)
        opts
        result
        (provision_certificates default opts h).1
provision_certificates-Made default opts h result x =
    (provision_certificates-Triple default opts).at h tt result x
