-- ===== src/Api/Component.antt =====
-- Ingress, enrollment and component settings (api/v1alpha1/orderergroup_types.go, and the database settings of committer_types.go).
use fabric_x_operator.Api.Nil.{Json, Slice}
use fabric_x_operator.Api.Pod.{CommonComponentConfig}
use fabric_x_operator.Go.{ℤ}
use fabric_x_operator.Kube.{Time}
use fabric_x_operator.Prelude.{Bool, Option, String}

-- `TLSConfig`
pub record TlsConfig : Type 0 where
  pub secret_name : String
  pub enabled : Bool

-- `GatewayConfig`
pub record GatewayConfig : Type 0 where
  pub hosts : Slice String
  pub port : ℤ
  pub ingress_gateway : String
  pub tls : Option TlsConfig

-- `IstioConfig`
pub record IstioConfig : Type 0 where
  pub hosts : Slice String
  pub gateway : String
  pub enable_http2 : Bool

-- `IngressConfig`
pub record IngressConfig : Type 0 where
  pub gateway : Option GatewayConfig
  pub istio : Option IstioConfig

-- `SecretRef`
pub record SecretRef : Type 0 where
  pub name : String
  pub key : String
  pub namespace : String

-- `CATLSConfig`
pub record CaTlsConfig : Type 0 where
  pub ca_cert : String
  pub secret_ref : Option SecretRef

-- `CACertificateConfig`
pub record CaCertificateConfig : Type 0 where
  pub ca_name : String
  pub ca_host : String
  pub ca_port : ℤ
  pub ca_tls : Option CaTlsConfig
  pub enroll_id : String
  pub enroll_secret : String
  pub idemix : Bool

-- `FabricCAProviderConfig`
pub record FabricCaProviderConfig : Type 0 where
  pub ca_host : String
  pub ca_port : ℤ
  pub ca_name : String
  pub enroll_id : String
  pub enroll_secret : String
  pub ca_tls : Option CaTlsConfig

-- `ManualProviderConfig`
pub record ManualProviderConfig : Type 0 where
  pub secret_ref : Option SecretRef
  pub cert_key : String
  pub key_key : String
  pub ca_key : String

-- `VaultProviderConfig`
pub record VaultProviderConfig : Type 0 where
  pub address : String
  pub pki_path : String
  pub role : String
  pub auth_method : String
  pub service_account : String
  pub token_secret_ref : Option SecretRef
  pub namespace : String
  pub ttl : String

-- `CertificateProviderConfig`
pub record CertificateProviderConfig : Type 0 where
  pub fabric_ca : Option FabricCaProviderConfig
  pub manual : Option ManualProviderConfig
  pub vault : Option VaultProviderConfig

-- `SANSConfig`
pub record SansConfig : Type 0 where
  pub dns_names : Slice String
  pub ip_addresses : Slice String

-- `CertificateConfig`
pub record CertificateConfig : Type 0 where
  pub provider_type : String
  pub ca : Option CaCertificateConfig
  pub provider : Option CertificateProviderConfig
  pub sans : Option SansConfig

-- `IdemixEnrollmentConfig`
pub record IdemixEnrollmentConfig : Type 0 where
  pub ca : Option CaCertificateConfig

-- `EnrollmentConfig`
pub record EnrollmentConfig : Type 0 where
  pub sign : Option CertificateConfig
  pub tls : Option CertificateConfig
  pub idemix : Option IdemixEnrollmentConfig

-- `PostgreSQLRetryConfig`
pub record PostgreSqlRetryConfig : Type 0 where
  pub max_elapsed_time : String

-- `PostgreSQLConfig`
pub record PostgreSqlConfig : Type 0 where
  pub host : String
  pub port : ℤ
  pub database : String
  pub username : String
  pub password_secret : Option SecretRef
  pub max_connections : ℤ
  pub min_connections : ℤ
  pub load_balance : Bool
  pub retry : Option PostgreSqlRetryConfig

-- `ComponentConfig`
pub record ComponentConfig : Type 0 where
  pub common : CommonComponentConfig
  pub ingress : Option IngressConfig
  pub enrollment : Option EnrollmentConfig
  pub sans : Option SansConfig
  pub endpoints : Slice String
  pub env : Slice Json
  pub command : Slice String
  pub args : Slice String
  pub postgresql : Option PostgreSqlConfig

-- `GenesisConfig`
pub record GenesisConfig : Type 0 where
  pub secret_name : String
  pub secret_key : String
  pub secret_namespace : String

-- `ComponentStatus`
pub record ComponentStatus : Type 0 where
  pub ready : Bool
  pub replicas_ready : ℤ
  pub replicas_total : ℤ
  pub last_update_time : Time
