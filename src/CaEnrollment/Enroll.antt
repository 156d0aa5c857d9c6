-- ===== src/CaEnrollment/Enroll.antt =====
-- `enrollIdentity`.
use Prim.Native.String.{◌++◌}
use mathlib.Core.List.{map}
use fabric_x_operator.Prelude.{String, ◌+◌, not, Option, none, some, [], ◌∷◌, if◌then◌else◌}
use fabric_x_operator.Go.{Bytes, GoMap, Outcome, ok, err, new_error, wrap, is_not_found, lookup}
use fabric_x_operator.Go.Act.{Act, ◌>>=◌, pure, call, check, invoke}
use fabric_x_operator.Kube.{Time, Certificate, NamespacedName, Secret, new_meta}
use fabric_x_operator.Identity.Types.{Ca, AttributeRequest, EnrolledUser}
use fabric_x_operator.CaEnrollment.Types.{
  CaEnrollment, EnrollmentAttr, EnrollmentSpec, EnrollUserRequest,
}
use fabric_x_operator.CaEnrollment.Env.{
  Env, Event, got_ca, got_secret, created_secret, updated_secret, enrolled_user, read_clock,
}

abbrev pub output_key : CaEnrollment → NamespacedName
output_key e = record { name = e.spec.output_secret_name; namespace = e.meta.namespace }

unfoldable pub attribute_request : EnrollmentAttr → AttributeRequest
attribute_request attr = record { name = attr.name; is_optional = not attr.ecert }

unfoldable pub ca_url : Ca → String
ca_url ca = "https://" ++ ca.meta.name ++ "." ++ ca.meta.namespace ++ ":7054"

-- The request; the name of the CA serves as its MSP ID.
unfoldable pub enroll_request : EnrollmentSpec → Ca → Bytes → Bytes → EnrollUserRequest
unfolding attribute_request ca_url
enroll_request spec ca password tls_ca_cert = record {
  tls_cert = tls_ca_cert;
  url = ca_url ca;
  name = spec.ca_name;
  msp_id = spec.ca_name;
  user = spec.enroll_id;
  secret = password;
  hosts = [];
  cn = spec.enroll_id;
  profile = "";
  attributes = map attribute_request spec.attrs;
}

-- `v, ok := m[k]; if !ok { return error }`
abbrev required : Option Bytes → String → Outcome Bytes
required none message = err (new_error message)
required (some b) message = ok b

-- What is read from the cluster for the request.
pub record Credentials : Type 0 where
  pub ca : Ca
  pub password : Bytes
  pub tls_ca_cert : Bytes

module _ (env : Env) where
  -- `enrollIdentity` up to the TLS certificate.
  unfoldable pub read_credentials : CaEnrollment → Act Event (Outcome Credentials)
  read_credentials enrollment = do
    let spec = enrollment.spec
    let ca_key : NamespacedName = record { name = spec.ca_name; namespace = spec.ca_namespace }
    got ← call (env.get_ca ca_key) (got_ca ca_key)
    ca ← check got (λ e. pure (err (wrap "failed to get CA resource" e)))
    let ref = spec.enroll_secret_ref
    let secret_key : NamespacedName = record {
      name = ref.name;
      namespace = enrollment.meta.namespace;
    }
    got_enroll ← call (env.get_secret secret_key) (got_secret secret_key)
    secret ← check got_enroll (λ e. pure (err (wrap "failed to get enrollment secret" e)))
    password ←
        check
          (required (lookup ref.key secret.contents)
            ("key " ++ ref.key ++ " not found in secret " ++ ref.name))
          (λ e. pure (err e))
    let tls_key : NamespacedName = record {
      name = ca.meta.name ++ "-tlsca-crypto";
      namespace = ca.meta.namespace;
    }
    got_tls ← call (env.get_secret tls_key) (got_secret tls_key)
    tls ← check got_tls (λ e. pure (err (wrap "failed to get TLS CA certificate secret" e)))
    tls_ca_cert ←
        check (required (lookup "certfile" tls.contents) "certfile not found in TLS CA cert secret")
          (λ e. pure (err e))
    pure (ok (record { ca = ca; password = password; tls_ca_cert = tls_ca_cert }))

  unfoldable pub output_contents : EnrolledUser → Bytes → GoMap Bytes
  output_contents user key =
      ("key.pem", key)
      ∷ ("cert.pem", env.pki.encode (record { type = "CERTIFICATE"; bytes = user.cert.raw }))
      ∷ ("ca.pem", env.pki.encode (record { type = "CERTIFICATE"; bytes = user.root.raw }))
      ∷ []

  -- The output secret with its controller reference set.
  unfoldable pub output_secret : CaEnrollment → EnrolledUser → Bytes → Outcome Secret
  unfolding output_contents
  output_secret enrollment user key =
      let secret : Secret = record {
        meta = new_meta enrollment.spec.output_secret_name enrollment.meta.namespace [];
        type = "Opaque";
        contents = output_contents user key;
      } in
      elim (env.util.set_controller_reference enrollment.meta secret.meta) [
        | ok meta ↦ ok (record secret { meta = meta })
        | err e ↦ err (wrap "failed to set controller reference on output secret" e)
      ]

  -- "Create or update the secret": an existing secret keeps all but its data.
  unfoldable pub store : NamespacedName → Secret → Act Event (Outcome (Unit {0}))
  store key secret = do
    got ← call (env.get_secret key) (got_secret key)
    existing ← check got λ e.
        if is_not_found e
        then (do
          created ← call (env.create_secret secret) (created_secret secret)
          _ ← check created (λ e'. pure (err (wrap "failed to create output secret" e')))
          pure (ok tt))
        else pure (err (wrap "failed to check if output secret exists" e))
    let changed : Secret = record existing { contents = secret.contents }
    updated ← call (env.update_secret changed) (updated_secret changed)
    _ ← check updated (λ e. pure (err (wrap "failed to update output secret" e)))
    pure (ok tt)

  -- `enrollIdentity` up to the status fields: the certificate that was issued and stored.
  unfoldable pub issue : CaEnrollment → Act Event (Outcome Certificate)
  unfolding read_credentials enroll_request output_secret store
  issue enrollment = do
    got ← invoke (read_credentials enrollment)
    c ← check got (λ e. pure (err e))
    let request = enroll_request enrollment.spec c.ca c.password c.tls_ca_cert
    enrolled ← call (env.enroll_user request) (enrolled_user request)
    user ← check enrolled (λ e. pure (err (wrap "failed to enroll identity with CA" e)))
    key ←
        check (env.encode_private_key user.key)
          λ e. pure (err (wrap "failed to convert private key to PEM" e))
    secret ← check (output_secret enrollment user key) (λ e. pure (err e))
    stored ← invoke (store (output_key enrollment) secret)
    _ ← check stored (λ e. pure (err e))
    pure (ok user.cert)

  -- "Update status with enrollment details", on the local object.
  unfoldable pub note_enrollment : CaEnrollment → Time → Certificate → CaEnrollment
  note_enrollment enrollment now cert =
      let count = enrollment.status.enrollment_count in
      record enrollment {
        status = record enrollment.status {
          enrollment_time = some now;
          enrollment_count = count + 1;
          certificate_expiry = some cert.not_after;
        };
      }

  -- `enrollIdentity`: the object with its status changed, or the error.
  unfoldable pub enroll_identity : CaEnrollment → Act Event (Outcome CaEnrollment)
  unfolding issue note_enrollment
  enroll_identity enrollment = do
    issued ← invoke (issue enrollment)
    cert ← check issued (λ e. pure (err e))
    now ← call env.now read_clock
    pure (ok (note_enrollment enrollment now cert))
