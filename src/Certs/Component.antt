-- ===== src/Certs/Component.antt =====
-- `provisionComponentCertificateWithClient` and `getCACertificate`
-- (internal/controller/certs/ca_provision.go).
use Prim.Native.String.{◌++◌}
use fabric_x_operator.Prelude.{suc, String, Option, none, some, List, [], ◌==◌, if◌then◌else◌}
use mathlib.Core.List.{◌++◌ as append}
use fabric_x_operator.Go.{ℤ, pos, negsuc, Bytes, Outcome, ok, err, new_error, wrap, lookup}
use fabric_x_operator.Go.Act.{Act, ◌>>=◌, pure, call, check, invoke, if_nil}
use fabric_x_operator.Go.Decimal.{decimal}
use fabric_x_operator.Kube.{NamespacedName, Secret, Certificate}
use fabric_x_operator.CaEnrollment.Types.{EnrollUserRequest}
use fabric_x_operator.Api.Nil.{Slice, or_default, elements}
use fabric_x_operator.Certs.Types.{SecretRef, CaTlsConfig}
use fabric_x_operator.Certs.Client.{
  CaEvent, got_secret, ClientEnv, Ended, returned, panicked, or_panic, enroll_user,
}

-- `CACertificateConfig`
pub record CaCertificateConfig : Type 0 where
  pub ca_name : String
  pub ca_host : String
  pub ca_port : ℤ
  pub ca_tls : Option CaTlsConfig
  pub enroll_id : String
  pub enroll_secret : String

-- `SANSConfig`
pub record SansConfig : Type 0 where
  pub dns_names : Slice String
  pub ip_addresses : Slice String

-- `CertificateConfig`
pub record CertificateConfig : Type 0 where
  pub ca : Option CaCertificateConfig
  pub msp_id : String
  pub sans : Option SansConfig

-- `EnrollmentConfig`
pub record EnrollmentConfig : Type 0 where
  pub sign : Option CertificateConfig
  pub tls : Option CertificateConfig

-- `OrdererGroupCertificateRequest`
pub record CertificateRequest : Type 0 where
  pub component_name : String
  pub component_type : String
  pub namespace : String
  pub orderer_group_name : String
  pub cert_config : Option CertificateConfig
  pub enrollment_config : Option EnrollmentConfig
  pub cert_types : Slice String

-- `ComponentCertificateData`
pub record ComponentCertificateData : Type 0 where
  pub component_name : String
  pub cert_type : String
  pub cert : Bytes
  pub key : Bytes
  pub ca_cert : Bytes

-- What the functions call: the client, which may be nil, what `EnrollUser` calls, the encoders of
-- internal/controller/utils/certs.go, and the conversion of a text to bytes.
pub record CaEnv : Type 0 where
  pub get_secret : Option (NamespacedName → List CaEvent → Outcome Secret)
  pub client : ClientEnv
  pub encode_certificate : Certificate → Bytes
  pub encode_private_key : Bytes → Outcome Bytes
  pub bytes_of : String → Bytes

-- `%d`
abbrev port_text : ℤ → String
port_text (pos n) = decimal n
port_text (negsuc n) = "-" ++ decimal (suc n)

-- The configuration of the type in the global one
abbrev pub global_config : String → Option EnrollmentConfig → Option CertificateConfig
global_config type none = none
global_config type (some e) =
    if type == "sign" then e.sign else if type == "tls" then e.tls else none

-- "Determine which certificate configuration to use"
abbrev pub either_config :
    Option CertificateConfig → Option CertificateConfig → Option CertificateConfig
either_config (some own) global = some own
either_config none global = global

abbrev pub config_for : CertificateRequest → String → Option CertificateConfig
config_for r type = either_config r.cert_config (global_config type r.enrollment_config)

-- `c.CA`, where a nil `c` is no CA either.
abbrev pub ca_of : Option CertificateConfig → Option CaCertificateConfig
ca_of none = none
ca_of (some c) = c.ca

abbrev pub tls_of : Option CaCertificateConfig → Option CaTlsConfig
tls_of none = none
tls_of (some ca) = ca.ca_tls

-- The host names and addresses of a TLS certificate
abbrev hosts : String → Option SansConfig → List String
hosts type none = []
hosts type (some s) =
    if type == "tls" then append (elements s.dns_names) (elements s.ip_addresses) else []

-- `generateComponentCN`
abbrev generate_component_cn : String → String → String → String
generate_component_cn component group type = component ++ "-" ++ group ++ "-" ++ type

module _ (env : CaEnv) where
  -- `getCACertificate` where the certificate is in a secret
  unfoldable pub ca_from_secret :
      SecretRef → (NamespacedName → List CaEvent → Outcome Secret) → Act CaEvent (Outcome Bytes)
  ca_from_secret ref get = do
    let namespace = or_default ref.namespace "default"
    let key : NamespacedName = record { name = ref.name; namespace = namespace }
    let where_ = namespace ++ "/" ++ ref.name
    answer ← call (get key) (got_secret key)
    secret ←
        check answer λ e. pure (err (wrap ("failed to get CA certificate secret " ++ where_) e))
    certificate ← if_nil (lookup ref.key secret.contents) (
        pure (
          err
            (new_error ("CA certificate key '" ++ ref.key ++ "' not found in secret " ++ where_))))
    pure (ok certificate)

  -- `getCACertificate`
  unfoldable pub get_ca_certificate : CertificateConfig → Act CaEvent (Outcome Bytes)
  unfolding ca_from_secret
  get_ca_certificate c = do
    tls ← if_nil (tls_of c.ca) (pure (err (new_error "CA TLS configuration is required")))
    (if tls.ca_cert == ""
        then (do
          ref ←
              if_nil tls.secret_ref
                (pure (err (new_error "no CA certificate found in configuration")))
          get ← if_nil env.get_secret (
              pure (
                err (new_error "Kubernetes client is required to read CA certificate from secret")))
          ca_from_secret ref get)
        else pure (ok (env.bytes_of tls.ca_cert)))

  -- "Create enrollment request"
  abbrev pub enrollment :
      CertificateRequest
      → String
      → CertificateConfig
      → CaCertificateConfig
      → CaCertificateConfig
      → Bytes
      → EnrollUserRequest
  enrollment r type config own ca ca_cert = record {
    tls_cert = ca_cert;
    url = "https://" ++ ca.ca_host ++ ":" ++ port_text ca.ca_port;
    name = ca.ca_name;
    msp_id = config.msp_id;
    user = own.enroll_id;
    secret = env.bytes_of own.enroll_secret;
    hosts = hosts type config.sans;
    cn = generate_component_cn r.component_name r.orderer_group_name type;
    profile = if type == "tls" then "tls" else "ca";
    attributes = [];
  }

  -- `provisionComponentCertificateWithClient`. It reads `request.CertConfig.CA` and `certConfig.CA`
  -- without a test for nil.
  unfoldable pub provision_component_certificate :
      CertificateRequest → String → Act CaEvent (Ended ComponentCertificateData)
  unfolding get_ca_certificate enroll_user
  provision_component_certificate r type = do
    config ←
        if_nil (config_for r type) (
          pure
            (returned (err (new_error ("no certificate configuration found for type " ++ type)))))
    got ← invoke (get_ca_certificate config)
    ca_cert ← check got (λ e. pure (returned (err (wrap "failed to get CA certificate" e))))
    own ← if_nil (ca_of r.cert_config) (pure panicked)
    ca ← if_nil config.ca (pure panicked)
    let q = enrollment r type config own ca ca_cert
    ended ← invoke (enroll_user env.client q)
    user ← or_panic ended λ e. pure (
        returned (
          err (
            wrap
              ("failed to enroll component " ++ r.component_name ++ " (enrollID: " ++ own.enroll_id
                ++ ")")
              e)))
    key ←
        check (env.encode_private_key user.key)
          (λ e. pure (returned (err (wrap "failed to encode private key" e))))
    pure (
        returned (
          ok (record {
            component_name = r.component_name;
            cert_type = type;
            cert = env.encode_certificate user.cert;
            key = key;
            ca_cert = env.encode_certificate user.root;
          })))
