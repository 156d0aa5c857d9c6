-- ===== src/CaEnrollment/Types.antt =====
-- The CAEnrollment resource (api/v1alpha1/caenrollment_types.go), and the request of
-- `certs.EnrollUser`. The conditions, which the reconciler does not touch, are left out.
use fabric_x_operator.Prelude.{ℕ, String, Bool, Option, List}
use fabric_x_operator.Go.{ℤ, Bytes}
use fabric_x_operator.Kube.{Time, ObjectMeta}
use fabric_x_operator.Identity.Types.{AttributeRequest}

-- `CAEnrollmentSecretRef`
pub record SecretRef : Type 0 where
  pub name : String
  pub key : String

-- `CAEnrollmentAttr`
pub record EnrollmentAttr : Type 0 where
  pub name : String
  pub value : String
  pub ecert : Bool

-- `CAEnrollmentTLS`
pub record EnrollmentTls : Type 0 where
  pub ca_cert_ref : Option SecretRef
  pub insecure : Bool

-- `CAEnrollmentSpec`
pub record EnrollmentSpec : Type 0 where
  pub ca_name : String
  pub ca_namespace : String
  pub enroll_id : String
  pub enroll_secret_ref : SecretRef
  pub type : String
  pub affiliation : String
  pub attrs : List EnrollmentAttr
  pub max_enrollments : ℤ
  pub output_secret_name : String
  pub tls : Option EnrollmentTls

-- `CAEnrollmentStatus`
pub record EnrollmentStatus : Type 0 where
  pub status : String
  pub message : String
  pub enrollment_time : Option Time
  pub certificate_expiry : Option Time
  pub enrollment_count : ℕ

-- `CAEnrollment`
pub record CaEnrollment : Type 0 where
  pub meta : ObjectMeta
  pub spec : EnrollmentSpec
  pub status : EnrollmentStatus

-- `certs.EnrollUserRequest`
pub record EnrollUserRequest : Type 0 where
  pub tls_cert : Bytes
  pub url : String
  pub name : String
  pub msp_id : String
  pub user : String
  pub secret : Bytes
  pub hosts : List String
  pub cn : String
  pub profile : String
  pub attributes : List AttributeRequest
