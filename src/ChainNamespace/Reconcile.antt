-- ===== src/ChainNamespace/Reconcile.antt =====
-- `Reconcile`, `handleDeletion` and `deployNamespace`.
use Prim.Native.String.{◌++◌}
use fabric_x_operator.Prelude.{String, not, ◌&&◌, ◌==◌, if◌then◌else◌}
use fabric_x_operator.Go.{GoError, Bytes, Outcome, ok, err, wrap, is_not_found}
use fabric_x_operator.Go.Act.{Act, ◌>>=◌, pure, call, check, invoke}
use fabric_x_operator.Kube.{CtrlResult, NamespacedName, done}
use fabric_x_operator.ChainNamespace.Types.{Ref, ChainNamespace}
use fabric_x_operator.ChainNamespace.Env.{
  Env, Event, got_namespace, updated_namespace, made_temp_dir, read_file, got_signer,
}
use fabric_x_operator.ChainNamespace.Conditions.{update_status}
use fabric_x_operator.ChainNamespace.Validation.{validate_namespace}
use fabric_x_operator.ChainNamespace.PublicKey.{get_pub_key_from_pem_data}
use fabric_x_operator.ChainNamespace.Transaction.{
  extract_public_pem, create_namespaces_tx, create_signed_envelope,
}
use fabric_x_operator.ChainNamespace.Msp.{setup_msp_from_identity}
use fabric_x_operator.ChainNamespace.Broadcast.{broadcast}

abbrev pub finalizer : String
finalizer = "chainnamespace.fabricx.kfsoft.tech/finalizer"

-- `"mychannel"` by default
unfoldable pub channel_of : ChainNamespace → String
channel_of ns = if ns.spec.channel == "" then "mychannel" else ns.spec.channel

module _ (env : Env) where
  open env.util use {contains_finalizer, add_finalizer, remove_finalizer}

  -- "Get public key for namespace policy"
  unfoldable pub policy_key : ChainNamespace → Ref → Act Event (Outcome Bytes)
  policy_key ns sid =
      let path = ns.spec.verification_key_path in
      if not (path == "")
      then (do
        got ← call (env.read_file path) (read_file path)
        pem ← check got (λ e. pure (err (wrap "failed to read verification key" e)))
        pure (ok pem))
      else (do
        got ← invoke (extract_public_pem env sid)
        pem ← check got λ e. pure (
            err (
              wrap ("failed to extract public key from signing identity " ++ env.identifier sid) e))
        pure (ok pem))

  -- `deployNamespace` from the public key on: the transaction, its envelope and the broadcast.
  unfoldable pub submit : ChainNamespace → Ref → Bytes → Act Event (Outcome String)
  unfolding channel_of
  submit ns sid key = do
    let tx = create_namespaces_tx env "ECDSA" key ns.spec.name ns.spec.version
    signed ← invoke (create_signed_envelope env sid (channel_of ns) tx)
    e ← check signed (λ e. pure (err (wrap "failed to create signed envelope" e)))
    broadcasted ← invoke (broadcast env ns e.0)
    _ ← check broadcasted (λ e. pure (err (wrap "failed to broadcast" e)))
    pure (ok e.1)

  -- `deployNamespace`
  unfoldable pub deploy_namespace : ChainNamespace → Act Event (Outcome String)
  unfolding policy_key submit
  deploy_namespace ns = do
    _ ← check (validate_namespace ns) (λ e. pure (err (wrap "validation error" e)))
    made ← call env.mkdir_temp made_temp_dir
    tmp_dir ← check made (λ e. pure (err (wrap "failed to create temp dir" e)))
    set_up ← invoke (setup_msp_from_identity env ns.spec.identity tmp_dir)
    this_msp ← check set_up (λ e. pure (err (wrap "failed to setup MSP" e)))
    got ← call (env.get_default_signing_identity this_msp) (got_signer this_msp)
    sid ← check got (λ e. pure (err (wrap "failed to get signing identity" e)))
    found ← invoke (policy_key ns sid)
    pem ← check found (λ e. pure (err e))
    key ←
        check (get_pub_key_from_pem_data env pem)
          λ e. pure (err (wrap "failed to get public key from pem" e))
    submit ns sid key

  -- `handleDeletion`
  unfoldable pub handle_deletion : ChainNamespace → Act Event (Outcome CtrlResult)
  handle_deletion ns = if not (contains_finalizer ns.meta finalizer) then pure (ok done) else do
    let freed : ChainNamespace = record ns { meta = remove_finalizer ns.meta finalizer }
    updated ← call (env.update_namespace freed) (updated_namespace freed)
    _ ← check updated (λ e. pure (err e))
    pure (ok done)

  -- A failed deployment: it is noted in the status, and the error is returned.
  unfoldable pub report_failure : ChainNamespace → GoError → Act Event (Outcome CtrlResult)
  report_failure ns e = do _ ← invoke (update_status env ns "Failed" e.text ""); pure (err e)

  -- `Reconcile` from the test whether the namespace is deployed on.
  unfoldable pub deploy : ChainNamespace → Act Event (Outcome CtrlResult)
  unfolding deploy_namespace report_failure
  deploy ns =
      if (ns.status.status == "Deployed") && not (ns.status.tx_id == "")
      then pure (ok done)
      else (do
        deployed ← invoke (deploy_namespace ns)
        tx_id ← check deployed (report_failure ns)
        written ← invoke (update_status env ns "Deployed" "Namespace deployed successfully" tx_id)
        _ ← check written (λ e. pure (err e))
        pure (ok done))

  -- "Add finalizer if not present"
  unfoldable pub ensure_finalizer : ChainNamespace → Act Event (Outcome ChainNamespace)
  ensure_finalizer ns = if contains_finalizer ns.meta finalizer then pure (ok ns) else do
    let held : ChainNamespace = record ns { meta = add_finalizer ns.meta finalizer }
    updated ← call (env.update_namespace held) (updated_namespace held)
    pure updated

  -- `Reconcile` for a ChainNamespace that was found.
  unfoldable pub reconcile_found : ChainNamespace → Act Event (Outcome CtrlResult)
  unfolding handle_deletion ensure_finalizer deploy
  reconcile_found ns = if ns.meta.deleted then handle_deletion ns else do
    held ← invoke (ensure_finalizer ns)
    live ← check held (λ e. pure (err e))
    deploy live

  -- `Reconcile`
  unfoldable pub reconcile : NamespacedName → Act Event (Outcome CtrlResult)
  unfolding reconcile_found
  reconcile key = do
    got ← call (env.get_namespace key) (got_namespace key)
    ns ← check got (λ e. if is_not_found e then pure (ok done) else pure (err e))
    reconcile_found ns
