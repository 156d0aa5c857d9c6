-- ===== src/Certs/Types.antt =====
-- The configuration of the certificate providers (internal/controller/certs/provider.go and
-- ca_provision.go), and their interface.
use fabric_x_operator.Prelude.{String, Option, List}
use fabric_x_operator.Go.{ℤ, Bytes, GoMap, Outcome}
use fabric_x_operator.Api.Nil.{Slice}

-- `SecretRef`
pub record SecretRef : Type 0 where
  pub name : String
  pub key : String
  pub namespace : String

-- `CATLSConfig`
pub record CaTlsConfig : Type 0 where
  pub ca_cert : String
  pub secret_ref : Option SecretRef

-- `FabricCAConfig`
pub record FabricCaConfig : Type 0 where
  pub ca_host : String
  pub ca_port : ℤ
  pub ca_name : String
  pub enroll_id : String
  pub enroll_secret : String
  pub ca_tls : Option CaTlsConfig

-- `VaultConfig`
pub record VaultConfig : Type 0 where
  pub address : String
  pub pki_path : String
  pub role : String
  pub auth_method : String
  pub service_account : String
  pub token_secret_ref : Option SecretRef
  pub namespace : String
  pub ttl : String

-- `ManualConfig`
pub record ManualConfig : Type 0 where
  pub secret_ref : Option SecretRef
  pub cert_key : String
  pub key_key : String
  pub ca_key : String

-- `ProviderConfig`
pub record ProviderConfig : Type 0 where
  pub type : String
  pub fabric_ca : Option FabricCaConfig
  pub vault : Option VaultConfig
  pub manual : Option ManualConfig

-- The `Config interface{}` of a request, which holds one of the three pointers.
pub data Config : Type 0 where
  for_fabric_ca : FabricCaConfig → Config
  for_manual : ManualConfig → Config
  for_vault : VaultConfig → Config

-- `CertificateData`
pub record CertificateData : Type 0 where
  pub certificate : Bytes
  pub private_key : Bytes
  pub ca_certificate : Bytes
  pub type : String

-- `SignCertificateRequest`, without the client
pub record SignCertificateRequest : Type 0 where
  pub msp_id : String
  pub component_name : String
  pub config : Config

-- `TLSCertificateRequest`, without the client
pub record TlsCertificateRequest : Type 0 where
  pub msp_id : String
  pub component_name : String
  pub dns_names : Slice String
  pub ip_addresses : Slice String
  pub config : Config

-- A request to the provider of a name, with its answer; the certificate may be a nil pointer.
pub data Event : Type 0 where
  signed : String → SignCertificateRequest → Outcome (Option CertificateData) → Event
  issued : String → TlsCertificateRequest → Outcome (Option CertificateData) → Event

-- `CertificateProvider`
pub record CertificateProvider : Type 0 where
  pub provision_sign_certificate :
      SignCertificateRequest → List Event → Outcome (Option CertificateData)
  pub provision_tls_certificate :
      TlsCertificateRequest → List Event → Outcome (Option CertificateData)
  pub name : String

-- `ProviderFactory`: what a constructor makes stands for the constructor. `quote` is the `%q` of
-- fmt.
pub record ProviderFactory : Type 0 where
  pub providers : GoMap CertificateProvider
  pub quote : String → String
