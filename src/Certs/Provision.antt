-- ===== src/Certs/Provision.antt =====
-- `ProvisionCertificates` (internal/controller/certs/provision.go).
use Prim.Native.String.{◌++◌}
use fabric_x_operator.Prelude.{String, Option, none, some}
use fabric_x_operator.Go.{Outcome, ok, err, wrap}
use fabric_x_operator.Go.Act.{Act, ◌>>=◌, pure, call, check, invoke}
use fabric_x_operator.Api.Nil.{Slice}
use fabric_x_operator.Certs.Types.{
  ProviderConfig, CertificateData, SignCertificateRequest, TlsCertificateRequest, Event, signed,
  issued, ProviderFactory,
}
use fabric_x_operator.Certs.Factory.{get_provider_from_config}

-- `ProvisionCertificatesOptions`, without the client
pub record ProvisionCertificatesOptions : Type 0 where
  pub msp_id : String
  pub component_name : String
  pub sign_provider : Option ProviderConfig
  pub tls_provider : Option ProviderConfig
  pub dns_names : Slice String
  pub ip_addresses : Slice String
  pub provider_factory : Option ProviderFactory

-- `ProvisionCertificatesResult`
pub record ProvisionCertificatesResult : Type 0 where
  pub sign_certificate : Option CertificateData
  pub tls_certificate : Option CertificateData

-- "Use default factory if not provided"
abbrev pub factory_or : ProviderFactory → Option ProviderFactory → ProviderFactory
factory_or default none = default
factory_or default (some f) = f

-- "Provision sign certificate if requested"
unfoldable pub provision_sign :
    ProviderFactory
    → ProvisionCertificatesOptions
    → Option ProviderConfig
    → Act Event (Outcome (Option CertificateData))
provision_sign factory opts none = pure (ok none)
provision_sign factory opts (some c) = do
  got ←
      check (get_provider_from_config factory (some c))
        (λ e. pure (err (wrap "failed to get sign certificate provider" e)))
  let provider = got.0
  let request : SignCertificateRequest = record {
    msp_id = opts.msp_id;
    component_name = opts.component_name;
    config = got.1;
  }
  answer ← call (provider.provision_sign_certificate request) (signed provider.name request)
  certificate ← check answer λ e. pure (
      err (
        wrap ("failed to provision sign certificate with provider " ++ factory.quote provider.name)
          e))
  pure (ok certificate)

-- "Provision TLS certificate if requested"
unfoldable pub provision_tls :
    ProviderFactory
    → ProvisionCertificatesOptions
    → Option ProviderConfig
    → Act Event (Outcome (Option CertificateData))
provision_tls factory opts none = pure (ok none)
provision_tls factory opts (some c) = do
  got ←
      check (get_provider_from_config factory (some c))
        (λ e. pure (err (wrap "failed to get TLS certificate provider" e)))
  let provider = got.0
  let request : TlsCertificateRequest = record {
    msp_id = opts.msp_id;
    component_name = opts.component_name;
    dns_names = opts.dns_names;
    ip_addresses = opts.ip_addresses;
    config = got.1;
  }
  answer ← call (provider.provision_tls_certificate request) (issued provider.name request)
  certificate ← check answer λ e. pure (
      err (
        wrap ("failed to provision TLS certificate with provider " ++ factory.quote provider.name)
          e))
  pure (ok certificate)

-- `ProvisionCertificates`, where `default` is `DefaultProviderFactory`
unfoldable pub provision_certificates :
    ProviderFactory → ProvisionCertificatesOptions → Act Event (Outcome ProvisionCertificatesResult)
unfolding provision_sign provision_tls
provision_certificates default opts = do
  let factory = factory_or default opts.provider_factory
  made_sign ← invoke (provision_sign factory opts opts.sign_provider)
  sign ← check made_sign (λ e. pure (err e))
  made_tls ← invoke (provision_tls factory opts opts.tls_provider)
  tls ← check made_tls (λ e. pure (err e))
  pure (ok (record { sign_certificate = sign; tls_certificate = tls }))
