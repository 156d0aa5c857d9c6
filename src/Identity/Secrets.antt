-- ===== src/Identity/Secrets.antt =====
-- The output secrets: their names, their creation, the test whether they exist, and their validation.
use Prim.Native.String.{◌++◌}
use fabric_x_operator.Prelude.{
  String, Bool, true, false, not, Option, none, some, [], ◌∷◌, if◌then◌else◌, is_some,
}
use fabric_x_operator.Go.{
  Bytes, GoMap, Outcome, ok, err, new_error, wrap, is_already_exists, is_empty, lookup, insert,
}
use fabric_x_operator.Go.Act.{Act, ◌>>=◌, pure, call, check, invoke}
use fabric_x_operator.Kube.{Time, Secret, NamespacedName, new_meta}
use fabric_x_operator.Identity.Types.{Identity, Enrollment, IdemixEnrollment, OutputSecrets}
use fabric_x_operator.Identity.Env.{Env, Event, got_secret, created_secret, updated_secret}

-- `output.SecretName + "-idemix"`
abbrev pub idemix_secret_name : Identity → String
idemix_secret_name identity = identity.spec.output.secret_name ++ "-idemix"

abbrev deref : Option Bool → Bool
deref none = false
deref (some b) = b

abbrev idemix_enabled_in : Option IdemixEnrollment → Bool
idemix_enabled_in none = false
idemix_enabled_in (some i) = deref i.enabled

abbrev enrollment_enabled : Option Enrollment → Bool
enrollment_enabled none = false
enrollment_enabled (some e) = idemix_enabled_in e.idemix

-- `Enrollment != nil && Idemix != nil && Enabled != nil && *Enabled`
unfoldable pub idemix_enabled : Identity → Bool
idemix_enabled identity = enrollment_enabled identity.spec.enrollment

-- `if v != nil { secretData[k] = v }`
abbrev pub insert_present : String → Option Bytes → GoMap Bytes → GoMap Bytes
insert_present k none m = m
insert_present k (some v) m = insert k v m

-- The contents of the consolidated X.509 secret.
unfoldable pub output_contents :
    Bytes → Bytes → Bytes → Option Bytes → Option Bytes → Option Bytes → GoMap Bytes
unfolding insert
output_contents sign_cert sign_key sign_ca_cert tls_cert tls_key tls_ca_cert =
    insert_present "tls-cacert.pem" tls_ca_cert (
      insert_present "tls-key.pem" tls_key (
        insert_present "tls-cert.pem" tls_cert
          (("cert.pem", sign_cert) ∷ ("key.pem", sign_key) ∷ ("cacert.pem", sign_ca_cert) ∷ [])))

module _ (env : Env) where
  -- `Create`, and `Update` if the secret already exists.
  unfoldable pub create_or_update : Secret → Act Event (Outcome (Unit {0}))
  create_or_update secret = do
    created ← call (env.create_secret secret) (created_secret secret)
    _ ← check created λ e.
        if is_already_exists e
        then (do
          updated ← call (env.update_secret secret) (updated_secret secret)
          _ ←
              check updated
                (λ e'. pure (err (wrap ("failed to update secret " ++ secret.meta.name) e')))
          pure (ok tt))
        else pure (err (wrap ("failed to create secret " ++ secret.meta.name) e))
    pure (ok tt)

  -- The secret object with its controller reference set.
  unfoldable pub owned_secret : Identity → String → GoMap Bytes → Outcome Secret
  owned_secret identity name contents =
      let secret : Secret = record {
        meta = new_meta name identity.meta.namespace identity.spec.output.labels;
        type = "Opaque";
        contents = contents;
      } in
      elim (env.util.set_controller_reference identity.meta secret.meta) [
        | ok meta ↦ ok (record secret { meta = meta })
        | err e ↦ err (wrap ("failed to set controller reference for secret " ++ name) e)
      ]

  abbrev named_if : Option Bytes → String → String → String
  named_if none new old = old
  named_if (some _) new old = new

  -- `createOutputSecrets`; it returns the Identity with its local status changed.
  unfoldable pub create_output_secrets :
      Identity
      → Bytes
      → Bytes
      → Bytes
      → Option Bytes
      → Option Bytes
      → Option Bytes
      → Act Event (Outcome Identity)
  unfolding output_contents create_or_update owned_secret
  create_output_secrets identity sign_cert sign_key sign_ca_cert tls_cert tls_key tls_ca_cert = do
    let name = identity.spec.output.secret_name
    let contents = output_contents sign_cert sign_key sign_ca_cert tls_cert tls_key tls_ca_cert
    secret ← check (owned_secret identity name contents) (λ e. pure (err e))
    stored ← invoke (create_or_update secret)
    _ ← check stored (λ e. pure (err e))
    let outputs : OutputSecrets = record {
      sign_cert = name;
      sign_key = name;
      sign_ca_cert = name;
      tls_cert = named_if tls_cert name "";
      tls_key = named_if tls_key name "";
      tls_ca_cert = named_if tls_ca_cert name "";
      idemix_cred = "";
    }
    pure (ok (record identity { status = record identity.status { output_secrets = outputs } }))

  -- `getCertificateExpiry`
  unfoldable pub get_certificate_expiry : Bytes → Outcome Time
  get_certificate_expiry pem = elim (env.pki.decode pem) [
    | none ↦ err (new_error "failed to decode PEM certificate")
    | some (block, rest) ↦ elim (env.pki.parse_certificate block.bytes) [
      | ok cert ↦ ok cert.not_after
      | err e ↦ err (wrap "failed to parse certificate" e)
    ]
  ]

  -- The key of the secret that this Identity's credentials are looked for in.
  abbrev pub output_key : Identity → NamespacedName
  output_key identity = record {
    name =
        if idemix_enabled identity
        then idemix_secret_name identity
        else identity.spec.output.secret_name;
    namespace = identity.meta.namespace;
  }

  abbrev succeeded : {A : Type 0} → Outcome A → Bool
  succeeded (ok a) = true
  succeeded (err e) = false

  -- `outputSecretsExist`
  unfoldable pub output_secrets_exist : Identity → Act Event Bool
  output_secrets_exist identity = do
    got ← call (env.get_secret (output_key identity)) (got_secret (output_key identity))
    pure (succeeded got)

  abbrev missing : Option Bytes → Bool
  missing none = true
  missing (some b) = is_empty b

  abbrev present : Option Bytes → Bytes
  present none = []
  present (some b) = b

  -- The checks of `validateExistingSecrets` on the contents of the secret.
  unfoldable pub validate_contents : Bool → GoMap Bytes → Outcome (Unit {0})
  unfolding lookup get_certificate_expiry
  validate_contents true contents =
      if not (is_some (lookup "Cred" contents))
      then err (new_error "idemix secret missing Cred field")
      else if not (is_some (lookup "Sk" contents))
      then err (new_error "idemix secret missing Sk field")
      else ok tt
  validate_contents false contents =
      if missing (lookup "cert.pem" contents)
      then err (new_error "identity secret missing cert.pem")
      else if missing (lookup "key.pem" contents)
      then err (new_error "identity secret missing key.pem")
      else if missing (lookup "cacert.pem" contents)
      then err (new_error "identity secret missing cacert.pem")
      else elim (get_certificate_expiry (present (lookup "cert.pem" contents))) [
        | ok t ↦ ok tt
        | err e ↦ err (wrap "invalid certificate in secret" e)
      ]

  -- `validateExistingSecrets`
  unfoldable pub validate_existing_secrets : Identity → Act Event (Outcome (Unit {0}))
  unfolding validate_contents
  validate_existing_secrets identity = do
    got ← call (env.get_secret (output_key identity)) (got_secret (output_key identity))
    secret ← check got λ e. pure (
        err (
          wrap
            (if idemix_enabled identity
              then "failed to get idemix secret " ++ idemix_secret_name identity
              else "failed to get identity secret")
            e))
    pure (validate_contents (idemix_enabled identity) secret.contents)
