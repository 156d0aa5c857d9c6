-- ===== src/Certs/Client.antt =====
-- `GetClient`, `readKey` and `EnrollUser` (internal/controller/certs/ca_provision.go), over the
-- fabric-ca client and the file system. The requests of the Fabric CA provider have no email addresses
-- and no URIs.
use Prim.Native.String.{◌++◌}
use fabric_x_operator.Prelude.{String, Option, none, some, List, [], ◌∷◌}
use fabric_x_operator.Go.{GoError, Bytes, Outcome, ok, err, new_error, wrap}
use fabric_x_operator.Go.Act.{Act, ◌>>=◌, pure, call, check, invoke, if_nil}
use fabric_x_operator.Kube.{NamespacedName, Secret, Certificate}
use fabric_x_operator.Identity.Types.{AttributeRequest, EnrolledUser}
use fabric_x_operator.CaEnrollment.Types.{EnrollUserRequest}

-- `lib.Client`: the directory, the URL and the TLS certificate file that it is made with.
pub record LibClient : Type 0 where
  pub home_dir : String
  pub url : String
  pub cert_file : String

-- `api.EnrollmentRequest`
pub record EnrollmentRequest : Type 0 where
  pub name : String
  pub secret : Bytes
  pub ca_name : String
  pub attributes : List AttributeRequest
  pub type : String
  pub hosts : List String
  pub cn : String
  pub profile : String

-- How a run of a function ends: it returns, or it panics.
pub data Ended (T : Type 0) : Type 0 where
  returned : Outcome T → Ended T
  panicked : Ended T

pub data CaEvent : Type 0 where
  got_secret : NamespacedName → Outcome Secret → CaEvent
  made_home_dir : Outcome String → CaEvent
  made_cert_file : Outcome String → CaEvent
  wrote_cert_file : String → Bytes → Outcome (Unit {0}) → CaEvent
  synced_file : String → Outcome (Unit {0}) → CaEvent
  closed_file : String → Outcome (Unit {0}) → CaEvent
  initialized : LibClient → Outcome LibClient → CaEvent
  enrolled : LibClient → EnrollmentRequest → Outcome Certificate → CaEvent
  got_ca_info : LibClient → String → Outcome Bytes → CaEvent
  listed_keystore : String → Outcome (List String) → CaEvent
  read_key_file : String → Outcome Bytes → CaEvent

-- The file system and the fabric-ca client, and the parsers of internal/controller/utils/certs.go.
pub record ClientEnv : Type 0 where
  pub temp_dir : List CaEvent → Outcome String
  pub temp_file : List CaEvent → Outcome String
  pub write : String → Bytes → List CaEvent → Outcome (Unit {0})
  pub sync : String → List CaEvent → Outcome (Unit {0})
  pub close : String → List CaEvent → Outcome (Unit {0})
  pub init : LibClient → List CaEvent → Outcome LibClient
  pub enroll : LibClient → EnrollmentRequest → List CaEvent → Outcome Certificate
  pub get_ca_info : LibClient → String → List CaEvent → Outcome Bytes
  pub read_dir : String → List CaEvent → Outcome (List String)
  pub read_file : String → List CaEvent → Outcome Bytes
  pub parse_certificate : Bytes → Outcome Certificate
  pub parse_private_key : Bytes → Outcome Bytes

abbrev keystore : LibClient → String
keystore client = client.home_dir ++ "/msp/keystore"

-- The one file of the keystore.
unfoldable pub only_key : List String → Outcome String
only_key [] = err (new_error "no key found in keystore")
only_key (name ∷ []) = ok name
only_key (name ∷ _ ∷ _) = err (new_error "multiple keys found in keystore")

unfoldable pub enrollment_request : EnrollUserRequest → EnrollmentRequest
enrollment_request q = record {
  name = q.user;
  secret = q.secret;
  ca_name = q.name;
  attributes = q.attributes;
  type = "x509";
  hosts = q.hosts;
  cn = q.cn;
  profile = q.profile;
}

-- The return after a call that may panic: a panic goes on to the caller.
abbrev pub or_panic :
    {R A : Type 0}
    → Ended A
    → (GoError → Act CaEvent (Ended R))
    → (A → Act CaEvent (Ended R))
    → Act CaEvent (Ended R)
or_panic panicked bad k = pure panicked
or_panic (returned (ok a)) bad k = k a
or_panic (returned (err e)) bad k = bad e

module _ (env : ClientEnv) where
  -- `GetClient`: the errors of the temporary directory, of the temporary file and of the write become
  -- a nil client without an error.
  unfoldable pub get_client : EnrollUserRequest → Act CaEvent (Outcome (Option LibClient))
  get_client q = do
    made_dir ← call env.temp_dir made_home_dir
    home_dir ← check made_dir (λ e. pure (ok none))
    made_file ← call env.temp_file made_cert_file
    file ← check made_file (λ e. pure (ok none))
    wrote ← call (env.write file q.tls_cert) (wrote_cert_file file q.tls_cert)
    _ ← check wrote (λ e. pure (ok none))
    synced ← call (env.sync file) (synced_file file)
    _ ← check synced (λ e. pure (err e))
    closed ← call (env.close file) (closed_file file)
    _ ← check closed (λ e. pure (err e))
    let client : LibClient = record { home_dir = home_dir; url = q.url; cert_file = file }
    started ← call (env.init client) (initialized client)
    ready ← check started (λ e. pure (err e))
    pure (ok (some ready))

  -- `readKey`
  unfoldable pub read_key : LibClient → Act CaEvent (Outcome Bytes)
  unfolding only_key
  read_key client = do
    listed ← call (env.read_dir (keystore client)) (listed_keystore (keystore client))
    files ← check listed (λ e. pure (err e))
    name ← check (only_key files) (λ e. pure (err e))
    let path = keystore client ++ "/" ++ name
    got ← call (env.read_file path) (read_key_file path)
    bytes ← check got (λ e. pure (err (wrap ("failed to read key file " ++ path) e)))
    key ←
        check (env.parse_private_key bytes)
          (λ e. pure (err (wrap ("failed to parse key file " ++ path) e)))
    pure (ok key)

  -- `EnrollUser` from the enrollment request on.
  unfoldable pub enroll_with : EnrollUserRequest → LibClient → Act CaEvent (Ended EnrolledUser)
  unfolding read_key enrollment_request
  enroll_with q client = do
    let request = enrollment_request q
    answer ← call (env.enroll client request) (enrolled client request)
    cert ← check answer (λ e. pure (returned (err e)))
    info ← call (env.get_ca_info client q.name) (got_ca_info client q.name)
    chain ← check info (λ e. pure (returned (err e)))
    root ← check (env.parse_certificate chain) (λ e. pure (returned (err e)))
    read ← invoke (read_key client)
    key ← check read (λ e. pure (returned (err e)))
    pure (returned (ok (record { cert = cert; key = key; root = root })))

  -- `EnrollUser`: the client is used without a test for nil.
  unfoldable pub enroll_user : EnrollUserRequest → Act CaEvent (Ended EnrolledUser)
  unfolding get_client enroll_with
  enroll_user q = do
    got ← invoke (get_client q)
    found ← check got (λ e. pure (returned (err e)))
    client ← if_nil found (pure panicked)
    enroll_with q client
