-- ===== src/Identity/Idemix.antt =====
-- `handleIdemixEnrollment` and `createIdemixSecret`. Paths are joined by `/`: the elements that
-- `filepath.Join` is given here are clean and not empty.
use Prim.Native.String.{◌++◌}
use fabric_x_operator.Prelude.{String, none, some, List, [], ◌∷◌, if◌then◌else◌}
use fabric_x_operator.Go.{Bytes, GoMap, Outcome, ok, err, wrap, is_empty, lookup, insert}
use fabric_x_operator.Go.Act.{Act, ◌>>=◌, pure, call, check, invoke, deferred}
use fabric_x_operator.Kube.{CtrlResult, NamespacedName, Secret}
use fabric_x_operator.Identity.Types.{
  Identity, Enrollment, IdemixEnrollment, CaRef, IdemixRequest, IdemixResponse, SignerConfig,
  DirEntry, OutputSecrets,
}
use fabric_x_operator.Identity.Env.{
  Env, Event, got_secret, enrolled_idemix, made_temp_dir, wrote_file, listed_dir, read_file,
  removed_all, read_clock,
}
use fabric_x_operator.Identity.Status.{update_status_with_time}
use fabric_x_operator.Identity.Secrets.{
  insert_present, idemix_secret_name, create_or_update, owned_secret,
}
use fabric_x_operator.Identity.Enroll.{Inputs, ca_url, ca_server_name, failed, with_inputs}

abbrev pub join : String → String → String
join dir name = dir ++ "/" ++ name

abbrev pub insert_non_empty : String → Bytes → GoMap Bytes → GoMap Bytes
insert_non_empty k v m = if is_empty v then m else insert k v m

-- The fields of the signer configuration that are always written.
abbrev pub signer_fields : SignerConfig → GoMap Bytes
signer_fields c =
    ("Cred", c.cred)
    ∷ ("Sk", c.sk)
    ∷ ("enrollment_id", c.enrollment_id)
    ∷ ("credential_revocation_information", c.credential_revocation_information)
    ∷ ("curveID", c.curve_id)
    ∷ ("revocation_handle", c.revocation_handle)
    ∷ []

-- The entries of the secret that come from the signer configuration.
unfoldable pub signer_entries : SignerConfig → GoMap Bytes
signer_entries c = insert "role" c.role (
    insert_non_empty "organizational_unit_identifier" c.organizational_unit_identifier
      (signer_fields c))

abbrev pub copy_key : String → GoMap Bytes → GoMap Bytes → GoMap Bytes
copy_key k source m = insert_present k (lookup k source) m

-- The public keys of the issuer, where the secret of the CA was found and has them.
unfoldable pub add_issuer_keys : Outcome Secret → GoMap Bytes → GoMap Bytes
unfolding lookup insert
add_issuer_keys (err e) m = m
add_issuer_keys (ok s) m =
    copy_key "IssuerRevocationPublicKey" s.contents (copy_key "IssuerPublicKey" s.contents m)

abbrev pub add_file : String → Outcome Bytes → GoMap Bytes → GoMap Bytes
add_file name (err e) m = m
add_file name (ok content) m = insert ("user-" ++ name) content m

-- `enrollment.CARef`, unless the idemix part names a CA of its own.
unfoldable pub idemix_ca_ref : Enrollment → IdemixEnrollment → CaRef
idemix_ca_ref enrollment idemix = elim idemix.ca_ref [ none ↦ enrollment.ca_ref | some ref ↦ ref ]

module _ (env : Env) where
  -- One round of the loop over the files of the idemix directory.
  unfoldable pub read_entry : String → DirEntry → GoMap Bytes → Act Event (GoMap Bytes)
  unfolding insert
  read_entry dir file m = if file.is_dir then pure m else do
    got ← call (env.read_file (join dir file.name)) (read_file (join dir file.name))
    pure (add_file file.name got m)

  unfoldable pub read_entries : String → List DirEntry → GoMap Bytes → Act Event (GoMap Bytes)
  read_entries dir [] m = pure m
  read_entries dir (file ∷ files) m = do
    m' ← invoke (read_entry dir file m)
    read_entries dir files m'

  -- `createIdemixSecret`; it returns the Identity with its local status changed.
  unfoldable pub create_idemix_secret :
      Identity → IdemixResponse → String → Act Event (Outcome Identity)
  unfolding signer_entries add_issuer_keys
  create_idemix_secret identity resp ca_name = do
    let dir = resp.idemix_config_path
    listed ← call (env.read_dir dir) (listed_dir dir)
    files ← check listed (λ e. pure (err (wrap "failed to read idemix config directory" e)))
    entries ← invoke (read_entries dir files (signer_entries resp.signer_config))
    let key : NamespacedName = record {
      name = ca_name ++ "-idemix-issuer-keys";
      namespace = identity.meta.namespace;
    }
    got ← call (env.get_secret key) (got_secret key)
    let name = idemix_secret_name identity
    secret ←
        check (owned_secret env identity name (add_issuer_keys got entries)) (λ e. pure (err e))
    stored ← invoke (create_or_update env secret)
    _ ← check stored (λ e. pure (err e))
    let outputs : OutputSecrets = record identity.status.output_secrets { idemix_cred = name }
    pure (ok (record identity { status = record identity.status { output_secrets = outputs } }))

  unfoldable pub idemix_request : Enrollment → Inputs → String → IdemixRequest
  unfolding ca_url ca_server_name
  idemix_request enrollment inputs dir = record {
    ca_url = ca_url inputs.ca;
    ca_name = ca_server_name inputs.ca;
    enroll_id = enrollment.enroll_id;
    enroll_secret = inputs.password;
    ca_cert_path = join dir "ca-cert.pem";
    msp_dir = dir;
  }

  -- From the writing of the TLS certificate on.
  unfoldable pub enroll_in_dir :
      Identity → Enrollment → IdemixEnrollment → Inputs → String → Act Event (Outcome CtrlResult)
  unfolding idemix_request idemix_ca_ref
  enroll_in_dir identity enrollment idemix inputs dir = do
    let path = join dir "ca-cert.pem"
    wrote ← call (env.write_file path inputs.tls_ca_cert) (wrote_file path inputs.tls_ca_cert)
    _ ← check wrote (failed env identity "Failed to write TLS cert: ")
    let req = idemix_request enrollment inputs dir
    enrolled ← call (env.enroll_idemix req) (enrolled_idemix req)
    resp ← check enrolled (failed env identity "Failed to enroll with idemix: ")
    stored ← invoke (create_idemix_secret identity resp (idemix_ca_ref enrollment idemix).name)
    changed ← check stored (failed env identity "Failed to create idemix secret: ")
    now ← call env.now read_clock
    update_status_with_time env changed "READY" "Identity enrolled successfully with idemix"
        (some now)

  -- From the creation of the temporary directory on.
  unfoldable pub enroll_idemix_and_store :
      Identity → Enrollment → IdemixEnrollment → Inputs → Act Event (Outcome CtrlResult)
  unfolding enroll_in_dir
  enroll_idemix_and_store identity enrollment idemix inputs = do
    made ← call env.mkdir_temp made_temp_dir
    dir ← check made (failed env identity "Failed to create temp MSP directory: ")
    deferred (enroll_in_dir identity enrollment idemix inputs dir) (λ h. removed_all dir ∷ h)

  unfoldable pub handle_idemix_enrollment :
      Identity → Enrollment → IdemixEnrollment → Act Event (Outcome CtrlResult)
  unfolding enroll_idemix_and_store
  handle_idemix_enrollment identity enrollment idemix =
      with_inputs env identity enrollment (idemix_ca_ref enrollment idemix)
        (enroll_idemix_and_store identity enrollment idemix)
