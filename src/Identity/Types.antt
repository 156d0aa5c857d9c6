-- ===== src/Identity/Types.antt =====
-- The Identity resource (api/v1alpha1/identity_types.go), and the requests and responses of the two
-- kinds of enrollment. Fields that the reconciler neither reads nor writes are left out.
use fabric_x_operator.Prelude.{String, Bool, Option, List}
use fabric_x_operator.Go.{Bytes, GoMap}
use fabric_x_operator.Kube.{Time, ObjectMeta, Certificate}

-- `IdentityCARef`
pub record CaRef : Type 0 where
  pub name : String
  pub namespace : String

-- `SecretKeyNSSelector`
pub record SecretKeySelector : Type 0 where
  pub name : String
  pub key : String

-- `IdentityAttribute`
pub record Attribute : Type 0 where
  pub name : String
  pub value : String
  pub ecert : Bool

-- `IdentityIdemixEnrollment`; `enabled` is a `*bool`.
pub record IdemixEnrollment : Type 0 where
  pub enabled : Option Bool
  pub ca_ref : Option CaRef

-- `IdentityEnrollment`
pub record Enrollment : Type 0 where
  pub ca_ref : CaRef
  pub enroll_id : String
  pub enroll_secret_ref : SecretKeySelector
  pub attrs : List Attribute
  pub idemix : Option IdemixEnrollment

-- `IdentityOutput`
pub record Output : Type 0 where
  pub secret_name : String
  pub labels : GoMap String

-- `IdentitySpec`
pub record Spec : Type 0 where
  pub msp_id : String
  pub enrollment : Option Enrollment
  pub output : Output

-- `IdentityOutputSecrets`
pub record OutputSecrets : Type 0 where
  pub sign_cert : String
  pub sign_key : String
  pub sign_ca_cert : String
  pub tls_cert : String
  pub tls_key : String
  pub tls_ca_cert : String
  pub idemix_cred : String

-- `IdentityStatus`
pub record Status : Type 0 where
  pub status : String
  pub message : String
  pub enrollment_time : Option Time
  pub certificate_expiry : Option Time
  pub tls_certificate_expiry : Option Time
  pub output_secrets : OutputSecrets

-- `Identity`
pub record Identity : Type 0 where
  pub meta : ObjectMeta
  pub spec : Spec
  pub status : Status

-- `CA`, with `Spec.CA.Name`
pub record Ca : Type 0 where
  pub meta : ObjectMeta
  pub ca_name : String

-- `api.AttributeRequest`
pub record AttributeRequest : Type 0 where
  pub name : String
  pub is_optional : Bool

-- `X509EnrollmentRequest`
pub record X509Request : Type 0 where
  pub ca_url : String
  pub ca_name : String
  pub enroll_id : String
  pub enroll_secret : Bytes
  pub ca_tls_cert : Bytes
  pub msp_id : String
  pub cn : String
  pub hosts : List String
  pub profile : String
  pub attributes : List AttributeRequest

-- What `certs.EnrollUser` returns: the certificate, the private key, which only `EncodePrivateKey`
-- looks into, and the root certificate.
pub record EnrolledUser : Type 0 where
  pub cert : Certificate
  pub key : Bytes
  pub root : Certificate

-- `X509EnrollmentResponse`
pub record X509Response : Type 0 where
  pub certificate : Bytes
  pub private_key : Bytes
  pub ca_certificate : Bytes
  pub certificate_raw : Certificate

-- `idemix.EnrollmentRequest`
pub record IdemixRequest : Type 0 where
  pub ca_url : String
  pub ca_name : String
  pub enroll_id : String
  pub enroll_secret : Bytes
  pub ca_cert_path : String
  pub msp_dir : String

-- The fields of fabric-ca's `SignerConfig`, as the bytes that they are stored by; `role` is the
-- decimal text of the role.
pub record SignerConfig : Type 0 where
  pub cred : Bytes
  pub sk : Bytes
  pub enrollment_id : Bytes
  pub credential_revocation_information : Bytes
  pub curve_id : Bytes
  pub revocation_handle : Bytes
  pub organizational_unit_identifier : Bytes
  pub role : Bytes

-- `idemix.EnrollmentResponse`
pub record IdemixResponse : Type 0 where
  pub signer_config : SignerConfig
  pub idemix_config_path : String

-- `os.DirEntry`
pub record DirEntry : Type 0 where
  pub name : String
  pub is_dir : Bool
