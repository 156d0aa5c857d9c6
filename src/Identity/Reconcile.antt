-- ===== src/Identity/Reconcile.antt =====
-- `Reconcile`, `handleDeletion`, and the dispatch of `handleEnrollment`.
use Prim.Native.String.{◌++◌}
use fabric_x_operator.Prelude.{String, none, some, if◌then◌else◌}
use fabric_x_operator.Go.{Outcome, ok, err, new_error, is_not_found}
use fabric_x_operator.Go.Act.{Act, ◌>>=◌, pure, call, check, if_nil, invoke}
use fabric_x_operator.Kube.{CtrlResult, NamespacedName, done}
use fabric_x_operator.Identity.Types.{Identity, Enrollment}
use fabric_x_operator.Identity.Env.{Env, Event, got_identity, updated_identity}
use fabric_x_operator.Identity.Status.{update_status}
use fabric_x_operator.Identity.Secrets.{output_secrets_exist, validate_existing_secrets}
use fabric_x_operator.Identity.Enroll.{handle_x509_enrollment}
use fabric_x_operator.Identity.Idemix.{handle_idemix_enrollment}

abbrev pub finalizer : String
finalizer = "identity.fabricx.kfsoft.tech/finalizer"

-- `validateSpec`
unfoldable pub validate_spec : Identity → Outcome (Unit {0})
validate_spec identity = elim identity.spec.enrollment [
  | none ↦ err (new_error "enrollment configuration is required")
  | some enrollment ↦ ok tt
]

module _ (env : Env) where
  open env.util use {contains_finalizer, add_finalizer, remove_finalizer}

  -- `handleDeletion`
  unfoldable pub handle_deletion : Identity → Act Event (Outcome CtrlResult)
  handle_deletion identity =
      if contains_finalizer identity.meta finalizer
      then (do
        let freed : Identity = record identity { meta = remove_finalizer identity.meta finalizer }
        updated ← call (env.update_identity freed) (updated_identity freed)
        _ ← check updated (λ e. pure (err e))
        pure (ok done))
      else pure (ok done)

  -- `handleEnrollment`: idemix enrollment if `Idemix` is set, whatever `Enabled` says.
  unfoldable pub handle_enrollment : Identity → Enrollment → Act Event (Outcome CtrlResult)
  handle_enrollment identity enrollment =
      if_nil enrollment.idemix (handle_x509_enrollment env identity enrollment)
        (handle_idemix_enrollment env identity enrollment)

  -- The end of `Reconcile`, where no credentials were found.
  unfoldable pub create_materials : Identity → Act Event (Outcome CtrlResult)
  unfolding handle_enrollment
  create_materials identity =
      if_nil identity.spec.enrollment
        (update_status env identity "FAILED" "Enrollment configuration is required")
        (handle_enrollment identity)

  -- The finalizer is added if it is not there; what goes on is the object that the server returned.
  unfoldable pub ensure_finalizer : Identity → Act Event (Outcome Identity)
  ensure_finalizer identity =
      if contains_finalizer identity.meta finalizer then pure (ok identity) else do
        let held : Identity = record identity { meta = add_finalizer identity.meta finalizer }
        updated ← call (env.update_identity held) (updated_identity held)
        pure updated

  -- The rest of `Reconcile` for an Identity whose credentials were found.
  unfoldable pub report_existing : Identity → Act Event (Outcome CtrlResult)
  report_existing identity = do
    valid ← invoke (validate_existing_secrets env identity)
    _ ←
        check valid
          λ e. update_status env identity "FAILED" ("Secret validation failed: " ++ e.text)
    update_status env identity "READY" "Identity materials exist and are valid"

  -- The rest of `Reconcile` from `validateSpec` on.
  unfoldable pub reconcile_live : Identity → Act Event (Outcome CtrlResult)
  unfolding validate_spec report_existing create_materials
  reconcile_live identity = do
    _ ← check (validate_spec identity) (λ e. update_status env identity "INVALID" e.text)
    exist ← invoke (output_secrets_exist env identity)
    if exist then report_existing identity else create_materials identity

  -- `Reconcile` for an Identity that was found.
  unfoldable pub reconcile_found : Identity → Act Event (Outcome CtrlResult)
  unfolding handle_deletion ensure_finalizer reconcile_live
  reconcile_found identity = if identity.meta.deleted then handle_deletion identity else do
    held ← invoke (ensure_finalizer identity)
    live ← check held (λ e. pure (err e))
    reconcile_live live

  -- `Reconcile`
  unfoldable pub reconcile : NamespacedName → Act Event (Outcome CtrlResult)
  unfolding reconcile_found
  reconcile key = do
    got ← call (env.get_identity key) (got_identity key)
    identity ← check got (λ e. if is_not_found e then pure (ok done) else pure (err e))
    reconcile_found identity
