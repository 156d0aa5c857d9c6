-- ===== src/ChainNamespace/Msp.antt =====
-- The local MSP directory of an Identity, and the MSP on it.
use Prim.Native.String.{◌++◌}
use fabric_x_operator.Prelude.{
  String, not, ◌&&◌, Option, none, some, List, [], ◌∷◌, ◌==◌, if◌then◌else◌,
}
use fabric_x_operator.Go.{Bytes, Outcome, ok, err, new_error, wrap, lookup}
use fabric_x_operator.Go.Act.{Act, ◌>>=◌, pure, call, check, invoke}
use fabric_x_operator.Kube.{NamespacedName}
use fabric_x_operator.Identity.Types.{Identity}
use fabric_x_operator.ChainNamespace.Types.{Ref, SecretKeyRef}
use fabric_x_operator.ChainNamespace.Env.{
  Env, Event, got_identity, got_secret, made_dir, wrote_file, got_msp_config, made_key_store,
  made_provider, made_msp, set_up_msp,
}

-- `config.yaml`
abbrev config_content : String
config_content =
    "NodeOUs:\n  Enable: true\n  ClientOUIdentifier:\n    Certificate: cacerts/ca.pem\n"
    ++ "    OrganizationalUnitIdentifier: client\n  PeerOUIdentifier:\n"
    ++ "    Certificate: cacerts/ca.pem\n    OrganizationalUnitIdentifier: peer\n"
    ++ "  AdminOUIdentifier:\n    Certificate: cacerts/ca.pem\n"
    ++ "    OrganizationalUnitIdentifier: admin\n  OrdererOUIdentifier:\n"
    ++ "    Certificate: cacerts/ca.pem\n    OrganizationalUnitIdentifier: orderer\n"

-- `data, ok := secret.Data[key]; if !ok { return error }`
abbrev entry : Option Bytes → String → Outcome Bytes
entry none message = err (new_error message)
entry (some b) message = ok b

module _ (env : Env) where
  open env use {join}

  -- `getSecretData`
  unfoldable pub get_secret_data : String → String → String → Act Event (Outcome Bytes)
  get_secret_data secret_name namespace key =
      if secret_name == "" then pure (err (new_error "secret name is empty")) else do
        let at : NamespacedName = record { name = secret_name; namespace = namespace }
        let text = namespace ++ "/" ++ secret_name
        got ← call (env.get_secret at) (got_secret at)
        secret ← check got (λ e. pure (err (wrap ("failed to get secret " ++ text) e)))
        pure (entry (lookup key secret.contents) ("key " ++ key ++ " not found in secret " ++ text))

  -- `initializeMSP`
  unfoldable pub initialize_msp : String → String → Act Event (Outcome Ref)
  initialize_msp path msp_id = do
    got ← call (env.get_local_msp_config path msp_id) (got_msp_config path msp_id)
    conf ← check got (λ e. pure (err (wrap ("error getting local msp config from " ++ path) e)))
    let dir = join path "keystore"
    store ← call (env.new_key_store dir) (made_key_store dir)
    ks ← check store (λ e. pure (err (wrap "failed to create keystore" e)))
    provider ← call (env.new_provider ks) (made_provider ks)
    cp ← check provider (λ e. pure (err (wrap "failed to create crypto provider" e)))
    made ← call (env.new_msp cp) (made_msp cp)
    this_msp ← check made (λ e. pure (err (wrap "failed to create MSP" e)))
    ready ← call (env.setup this_msp conf) (set_up_msp this_msp conf)
    _ ← check ready (λ e. pure (err (wrap "failed to setup MSP" e)))
    pure (ok this_msp)

  -- The loop over the directories.
  unfoldable pub make_dirs : List String → Act Event (Outcome (Unit {0}))
  make_dirs [] = pure (ok tt)
  make_dirs (dir ∷ dirs) = do
    made ← call (env.mkdir_all dir) (made_dir dir)
    _ ← check made (λ e. pure (err (wrap ("failed to create directory " ++ dir) e)))
    make_dirs dirs

  unfoldable pub write : String → String → Bytes → Act Event (Outcome (Unit {0}))
  write what path contents = do
    wrote ← call (env.write_file path contents) (wrote_file path contents)
    _ ← check wrote (λ e. pure (err (wrap ("failed to write " ++ what ++ " to " ++ path) e)))
    pure (ok tt)

  -- One credential: it is read from the secret and written to a file.
  unfoldable pub copy_credential :
      String → String → String → String → String → String → Act Event (Outcome (Unit {0}))
  unfolding get_secret_data write
  copy_credential secret_name namespace key what file_what path = do
    got ← invoke (get_secret_data secret_name namespace key)
    contents ← check got (λ e. pure (err (wrap ("failed to get " ++ what) e)))
    write file_what path contents

  -- The part of `setupMSPFromIdentity` that makes and fills the directory.
  unfoldable pub fill_msp : String → String → String → Act Event (Outcome (Unit {0}))
  unfolding make_dirs copy_credential
  fill_msp secret_name namespace path = do
    let signcerts = join path "signcerts"
    let keystore = join path "keystore"
    let cacerts = join path "cacerts"
    made ← invoke (make_dirs (signcerts ∷ keystore ∷ cacerts ∷ []))
    _ ← check made (λ e. pure (err e))
    cert ← invoke (
        copy_credential secret_name namespace "cert.pem" "sign certificate" "certificate"
          (join signcerts "cert.pem"))
    _ ← check cert (λ e. pure (err e))
    key ←
        invoke (
          copy_credential secret_name namespace "key.pem" "sign key" "key"
            (join keystore "priv_sk"))
    _ ← check key (λ e. pure (err e))
    ca ← invoke (
        copy_credential secret_name namespace "cacert.pem" "CA certificate" "CA cert"
          (join cacerts "ca.pem"))
    _ ← check ca (λ e. pure (err e))
    write "config.yaml" (join path "config.yaml") (env.bytes_of config_content)

  -- `setupMSPFromIdentity` for an Identity that is ready.
  unfoldable pub open_msp : Identity → String → String → Act Event (Outcome Ref)
  unfolding fill_msp initialize_msp
  open_msp identity namespace tmp_dir = do
    let path = join tmp_dir "msp"
    filled ← invoke (fill_msp identity.spec.output.secret_name namespace path)
    _ ← check filled (λ e. pure (err e))
    this_msp ← invoke (initialize_msp path identity.spec.msp_id)
    msp ← check this_msp (λ e. pure (err (wrap "failed to initialize MSP" e)))
    pure (ok msp)

  -- `setupMSPFromIdentity`
  unfoldable pub setup_msp_from_identity : SecretKeyRef → String → Act Event (Outcome Ref)
  unfolding open_msp
  setup_msp_from_identity ref tmp_dir = do
    let key : NamespacedName = record { name = ref.name; namespace = ref.namespace }
    let text = ref.namespace ++ "/" ++ ref.name
    got ← call (env.get_identity key) (got_identity key)
    identity ← check got (λ e. pure (err (wrap ("failed to get Identity " ++ text) e)))
    let status = identity.status.status
    (if not (status == "Ready") && not (status == "READY")
        then pure
            (err (new_error ("identity " ++ text ++ " is not ready (status: " ++ status ++ ")")))
        else open_msp identity ref.namespace tmp_dir)
