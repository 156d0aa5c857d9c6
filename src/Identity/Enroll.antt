-- ===== src/Identity/Enroll.antt =====
-- `handleEnrollment`: the X.509 branch. What both branches fetch first is a function of its own.
use Prim.Native.String.{◌++◌}
use mathlib.Core.List.{map}
use fabric_x_operator.Prelude.{String, not, Option, none, some, [], ◌==◌, if◌then◌else◌}
use fabric_x_operator.Go.{GoError, Bytes, Outcome, ok, err, new_error, lookup}
use fabric_x_operator.Go.Act.{Act, ◌>>=◌, call, check, invoke}
use fabric_x_operator.Kube.{CtrlResult, NamespacedName}
use fabric_x_operator.Identity.Types.{
  Identity, Enrollment, CaRef, Ca, Attribute, AttributeRequest, X509Request,
}
use fabric_x_operator.Identity.Env.{Env, Event, got_ca, got_secret, read_clock}
use fabric_x_operator.Identity.Status.{update_status, update_status_with_certs}
use fabric_x_operator.Identity.Secrets.{create_output_secrets}
use fabric_x_operator.Identity.X509.{enroll_x509}

-- The key of the CA: its namespace defaults to the Identity's.
unfoldable pub ca_key : Identity → CaRef → NamespacedName
ca_key identity ref = record {
  name = ref.name;
  namespace = if ref.namespace == "" then identity.meta.namespace else ref.namespace;
}

-- `https://<name>.<namespace>:7054`
unfoldable pub ca_url : Ca → String
ca_url ca = "https://" ++ ca.meta.name ++ "." ++ ca.meta.namespace ++ ":7054"

-- The name of the CA on its server, `ca` by default.
unfoldable pub ca_server_name : Ca → String
ca_server_name ca = if ca.ca_name == "" then "ca" else ca.ca_name

unfoldable pub attribute_request : Attribute → AttributeRequest
attribute_request attr = record { name = attr.name; is_optional = not attr.ecert }

-- What both kinds of enrollment start from.
pub record Inputs : Type 0 where
  pub ca : Ca
  pub password : Bytes
  pub tls_ca_cert : Bytes

abbrev pub or_error : {A : Type 0} → Option A → GoError → Outcome A
or_error none e = err e
or_error (some a) e = ok a

module _ (env : Env) where
  -- `return r.updateStatus(ctx, logger, identity, "FAILED", prefix + err)`
  unfoldable pub failed : Identity → String → GoError → Act Event (Outcome CtrlResult)
  failed identity prefix e = update_status env identity "FAILED" (prefix ++ e.text)

  -- The CA, the enrollment password and the CA's TLS certificate, or the status update that
  -- reports what is missing.
  unfoldable pub with_inputs :
      Identity
      → Enrollment
      → CaRef
      → (Inputs → Act Event (Outcome CtrlResult))
      → Act Event (Outcome CtrlResult)
  unfolding ca_key
  with_inputs identity enrollment ref rest = do
    let key = ca_key identity ref
    got ← call (env.get_ca key) (got_ca key)
    ca ← check got (failed identity "Failed to get CA resource: ")
    let secret_key : NamespacedName = record {
      name = enrollment.enroll_secret_ref.name;
      namespace = identity.meta.namespace;
    }
    got_enroll ← call (env.get_secret secret_key) (got_secret secret_key)
    enroll_secret ← check got_enroll (failed identity "Failed to get enrollment secret: ")
    let key_name = enrollment.enroll_secret_ref.key
    password ←
        check
          (or_error (lookup key_name enroll_secret.contents)
            (new_error ("Key " ++ key_name ++ " not found in secret " ++ secret_key.name)))
          (failed identity "")
    let tls_key : NamespacedName = record {
      name = ca.meta.name ++ "-tls-crypto";
      namespace = ca.meta.namespace;
    }
    got_tls ← call (env.get_secret tls_key) (got_secret tls_key)
    tls_secret ← check got_tls (failed identity "Failed to get TLS certificate: ")
    tls_ca_cert ←
        check
          (or_error (lookup "tls.crt" tls_secret.contents)
            (new_error "TLS certificate not found in secret"))
          (failed identity "")
    rest (record { ca = ca; password = password; tls_ca_cert = tls_ca_cert })

  unfoldable pub x509_request : Identity → Enrollment → Inputs → X509Request
  unfolding ca_url ca_server_name attribute_request
  x509_request identity enrollment inputs = record {
    ca_url = ca_url inputs.ca;
    ca_name = ca_server_name inputs.ca;
    enroll_id = enrollment.enroll_id;
    enroll_secret = inputs.password;
    ca_tls_cert = inputs.tls_ca_cert;
    msp_id = identity.spec.msp_id;
    cn = enrollment.enroll_id;
    hosts = [];
    profile = "";
    attributes = map attribute_request enrollment.attrs;
  }

  -- From the enrollment call on.
  unfoldable pub enroll_and_store : Identity → Enrollment → Inputs → Act Event (Outcome CtrlResult)
  unfolding x509_request
  enroll_and_store identity enrollment inputs = do
    enrolled ← invoke (enroll_x509 env (x509_request identity enrollment inputs))
    resp ← check enrolled (failed identity "Failed to enroll for sign certificate: ")
    stored ← invoke (
        create_output_secrets env identity resp.certificate resp.private_key resp.ca_certificate
          none none none)
    changed ← check stored (failed identity "Failed to create output secrets: ")
    now ← call env.now read_clock
    update_status_with_certs env changed "READY" "Identity enrolled successfully with CA" (some now)
        (some resp.certificate_raw.not_after) none

  unfoldable pub handle_x509_enrollment : Identity → Enrollment → Act Event (Outcome CtrlResult)
  unfolding with_inputs enroll_and_store
  handle_x509_enrollment identity enrollment =
      with_inputs identity enrollment enrollment.ca_ref (enroll_and_store identity enrollment)
