-- ===== src/Identity/Examples.antt =====
-- Runs of the Identity reconciler in a small cluster, and the theorems there.
use fabric_x_operator.Prelude.{
  ap, sym, arith, String, ◌≡◌, refl, false, Option, none, some, List, [], ◌∷◌, ◌==◌, any,
  if◌then◌else◌, eq_refl,
}
use fabric_x_operator.Go.{GoError, Reason, Bytes, GoMap, Outcome, ok, err, lookup}
use fabric_x_operator.Kube.{
  owner_reference, ObjectMeta, Secret, NamespacedName, ControllerUtil, FinalizerLaws, Pki, PemBlock,
  Certificate,
}
use fabric_x_operator.Identity.Types.{
  Identity, Enrollment, IdemixEnrollment, OutputSecrets, IdemixResponse, SignerConfig,
}
use fabric_x_operator.Identity.Env.{Env, Event, created_secret, updated_status}
use fabric_x_operator.Go.Act.{deferred}
use fabric_x_operator.Go.Triple.{Each}
use fabric_x_operator.Identity.Status.{
  update_status_with_time, update_status, update_status_with_certs,
}
use fabric_x_operator.Identity.Secrets.{
  create_or_update, owned_secret, idemix_enabled, output_contents, validate_contents,
  create_output_secrets, output_secrets_exist,
}
use fabric_x_operator.Identity.X509.{enroll_x509}
use fabric_x_operator.Identity.Enroll.{failed, with_inputs, handle_x509_enrollment}
use fabric_x_operator.Identity.Idemix.{handle_idemix_enrollment, read_entries, create_idemix_secret}
use fabric_x_operator.Identity.Reconcile.{reconcile, create_materials}
use fabric_x_operator.Identity.Ready.{reconcile-Honest}
use fabric_x_operator.Identity.Ready.Backing.{Honest}
use fabric_x_operator.Identity.Errors.{Explained, reconcile-Explained}
use fabric_x_operator.Identity.Guard.{Guarded, reconcile-Guarded}
use fabric_x_operator.Identity.Frame.{Framed, reconcile-Framed}
use fabric_x_operator.Identity.TempDir.{not_released, reconcile-not_released}
use fabric_x_operator.Identity.Outputs.{PemLaws, validate-output_contents}
use fabric_x_operator.Identity.IdemixOutputs.{IsUsable, create_idemix_secret-IsUsable}
use fabric_x_operator.Identity.Disabled.{IsNamedElse, idemix_disabled_mismatch}

abbrev key : NamespacedName
key = record { name = "peer"; namespace = "org1" }

abbrev meta : String → ObjectMeta
meta name = record {
  name = name;
  namespace = "org1";
  labels = [];
  finalizers = [];
  uid = "";
  owners = [];
  deleted = false;
  generation = 1;
}

abbrev no_outputs : OutputSecrets
no_outputs = record {
  sign_cert = "";
  sign_key = "";
  sign_ca_cert = "";
  tls_cert = "";
  tls_key = "";
  tls_ca_cert = "";
  idemix_cred = "";
}

abbrev enrollment : Option IdemixEnrollment → Enrollment
enrollment idemix = record {
  ca_ref = record { name = "ca"; namespace = "" };
  enroll_id = "peer1";
  enroll_secret_ref = record { name = "peer-enroll"; key = "password" };
  attrs = [];
  idemix = idemix;
}

abbrev identity : Option IdemixEnrollment → Identity
identity idemix = record {
  meta = meta "peer";
  spec = record {
    msp_id = "Org1MSP";
    enrollment = some (enrollment idemix);
    output = record { secret_name = "peer-out"; labels = [] };
  };
  status = record {
    status = "";
    message = "";
    enrollment_time = none;
    certificate_expiry = none;
    tls_certificate_expiry = none;
    output_secrets = no_outputs;
  };
}

abbrev not_there : GoError
not_there = record { reason = Reason.not_found; text = "not found" }

abbrev secret : String → GoMap Bytes → Secret
secret name contents = record { meta = meta name; type = "Opaque"; contents = contents }

abbrev secret_named : String → Outcome Secret
secret_named name =
    if name == "peer-enroll"
    then ok (secret name (("password", 1 ∷ []) ∷ []))
    else if name == "ca-tls-crypto"
    then ok (secret name (("tls.crt", 2 ∷ []) ∷ []))
    else err not_there

abbrev drop : String → List String → List String
drop f [] = []
drop f (g ∷ fs) = if g == f then drop f fs else g ∷ drop f fs

abbrev util : ControllerUtil
util = record {
  contains_finalizer = λ m f. any (λ g. g == f) m.finalizers;
  add_finalizer = λ m f. record m { finalizers = f ∷ m.finalizers };
  remove_finalizer = λ m f. record m { finalizers = drop f m.finalizers };
  set_controller_reference =
      λ owner m. ok (record m { owners = owner_reference "v1" "Owner" owner ∷ m.owners });
}

dropped : (f : String) (fs : List String) → any (λ g. g == f) (drop f fs) ≡ false
dropped f [] = refl
dropped f (g ∷ fs) = ground (arith, dropped f fs)

util_laws : FinalizerLaws util
util_laws = record {
  contains-add = λ m f. simp (eq_refl f);
  contains-remove = λ m f. dropped f m.finalizers;
}

abbrev certificate : Certificate
certificate = record { raw = 7 ∷ 7 ∷ []; not_after = 900 }

-- PEM in this cluster: a marker before the bytes.
abbrev unpem : Bytes → Option (PemBlock × Bytes)
unpem [] = none
unpem (x ∷ b) = some (record { type = "CERTIFICATE"; bytes = b }, [])

abbrev pki : Pki
pki = record { decode = unpem; encode = λ b. 45 ∷ b.bytes; parse_certificate = λ b. ok certificate }

abbrev signer : SignerConfig
signer = record {
  cred = 1 ∷ [];
  sk = 2 ∷ [];
  enrollment_id = 3 ∷ [];
  credential_revocation_information = [];
  curve_id = [];
  revocation_handle = [];
  organizational_unit_identifier = [];
  role = 49 ∷ [];
}

abbrev idemix_response : IdemixResponse
idemix_response = record { signer_config = signer; idemix_config_path = "/tmp/m/user" }

-- A cluster with the CA and its secrets, where nothing has been issued yet.
abbrev env : Option IdemixEnrollment → Env
env idemix = record {
  get_identity = λ k h. ok (identity idemix);
  get_ca = λ k h. ok (record { meta = meta "ca"; ca_name = "" });
  get_secret = λ k h. secret_named k.name;
  update_identity = λ i h. ok i;
  update_status = λ i h. ok i;
  create_secret = λ s h. ok s;
  update_secret = λ s h. ok s;
  enroll_user = λ q h. ok (record { cert = certificate; key = 5 ∷ []; root = certificate });
  enroll_idemix = λ q h. ok idemix_response;
  mkdir_temp = λ h. ok "/tmp/m";
  write_file = λ p b h. ok tt;
  read_dir = λ d h. ok [];
  read_file = λ p h. ok [];
  now = λ h. 100;
  encode_private_key = λ k. ok k;
  util = util;
  pki = pki;
}

abbrev name_of : Outcome ObjectMeta → String
name_of (ok m) = m.name
name_of (err e) = ""

abbrev stored_names : List Event → List String
stored_names [] = []
stored_names (created_secret s r ∷ h) = s.meta.name ∷ stored_names h
stored_names (_ ∷ h) = stored_names h

abbrev statuses : List Event → List String
statuses [] = []
statuses (updated_status i r ∷ h) = i.status.status ∷ statuses h
statuses (_ ∷ h) = statuses h

-- An X.509 enrollment from the start.
enrolls :
    (stored_names (reconcile (env none) key []).1 ≡ "peer-out" ∷ [])
    × (statuses (reconcile (env none) key []).1 ≡ "READY" ∷ [])
unfolding reconcile failed update_status update_status_with_certs create_output_secrets enroll_x509
    output_secrets_exist deferred handle_x509_enrollment idemix_enabled lookup
enrolls = (refl, refl)

reconcile-Honest_example : Honest (env none) (reconcile (env none) key []).1
reconcile-Honest_example = reconcile-Honest (env none) key

reconcile-Explained_example :
    Explained (reconcile (env none) key []).1 (reconcile (env none) key []).0
reconcile-Explained_example = reconcile-Explained (env none) key

reconcile-Guarded_example : Guarded (env none) (reconcile (env none) key []).1
reconcile-Guarded_example = reconcile-Guarded (env none) util_laws key

reconcile-Framed_example : Framed (reconcile (env none) key []).1
reconcile-Framed_example = reconcile-Framed (env none) key

abbrev off : IdemixEnrollment
off = record { enabled = some false; ca_ref = none }

reconcile-not_released_example : not_released (reconcile (env (some off)) key []).1 ≡ []
reconcile-not_released_example = reconcile-not_released (env (some off)) key

pem_laws : PemLaws (env none)
pem_laws = record { decode-encode = λ b. refl; encode-ne_nil = λ b. refl }

validate-output_contents_example :
    validate_contents
      (env none)
      false
      (output_contents (45 ∷ 7 ∷ []) (5 ∷ []) (45 ∷ 8 ∷ []) none none none)
    ≡ ok tt
validate-output_contents_example =
    validate-output_contents (env none) pem_laws (7 ∷ []) (8 ∷ []) (5 ∷ []) certificate refl refl
      none none none

create_idemix_secret-IsUsable_example :
    Each
      (IsUsable (env (some off)))
      (create_idemix_secret (env (some off)) (identity (some off)) idemix_response "ca" []).1
create_idemix_secret-IsUsable_example =
    create_idemix_secret-IsUsable (env (some off)) (identity (some off)) idemix_response "ca"

-- The switched-off idemix part is enrolled all the same, into a secret of another name.
writes_elsewhere :
    stored_names (create_materials (env (some off)) (identity (some off)) []).1
    ≡ "peer-out-idemix" ∷ []
unfolding create_materials handle_idemix_enrollment failed update_status_with_time
    create_idemix_secret deferred lookup with_inputs owned_secret create_or_update read_entries
writes_elsewhere = refl

idemix_disabled_mismatch_example :
    Each (IsNamedElse "peer-out") (create_materials (env (some off)) (identity (some off)) []).1
unfolding idemix_enabled
idemix_disabled_mismatch_example =
    idemix_disabled_mismatch (env (some off)) (identity (some off)) (enrollment (some off)) off refl
      refl refl (λ a b c e. sym (ap name_of e))
