-- ===== src/CaEnrollment/Reconcile.antt =====
-- `Reconcile` and `handleDeletion`.
use Prim.Native.String.{◌++◌}
use fabric_x_operator.Prelude.{◌*◌, String, some, ◌==◌, if◌then◌else◌}
use fabric_x_operator.Go.{GoError, Outcome, ok, err, wrap, is_not_found}
use fabric_x_operator.Go.Act.{Act, ◌>>=◌, pure, call, check, invoke}
use fabric_x_operator.Kube.{CtrlResult, NamespacedName, done}
use fabric_x_operator.CaEnrollment.Types.{CaEnrollment}
use fabric_x_operator.CaEnrollment.Env.{
  Env, Event, got_enrollment, got_secret, updated_enrollment, deleted_secret,
}
use fabric_x_operator.CaEnrollment.Status.{update_status}
use fabric_x_operator.CaEnrollment.Renewal.{needs_renewal}
use fabric_x_operator.CaEnrollment.Enroll.{output_key, enroll_identity}

abbrev pub finalizer : String
finalizer = "finalizer.caenrollment.fabricx.kfsoft.tech"

-- `24 * time.Hour`
abbrev pub recheck : CtrlResult
recheck = record { requeue_after = some (24 * 3600) }

-- `if err := …; err != nil && !apierrors.IsNotFound(err)`
abbrev pub ignore_not_found : Outcome (Unit {0}) → Outcome (Unit {0})
ignore_not_found (ok u) = ok u
ignore_not_found (err e) = if is_not_found e then ok tt else err e

module _ (env : Env) where
  open env.util use {contains_finalizer, add_finalizer, remove_finalizer}

  -- `handleDeletion`
  unfoldable pub handle_deletion : CaEnrollment → Act Event (Outcome CtrlResult)
  handle_deletion enrollment =
      if contains_finalizer enrollment.meta finalizer
      then (do
        let key = output_key enrollment
        deleted ← call (env.delete_secret key) (deleted_secret key)
        _ ←
            check (ignore_not_found deleted)
              λ e. pure (err (wrap "failed to delete output secret" e))
        let freed : CaEnrollment = record enrollment {
          meta = remove_finalizer enrollment.meta finalizer;
        }
        updated ← call (env.update_enrollment freed) (updated_enrollment freed)
        _ ← check updated (λ e. pure (err (wrap "failed to remove finalizer" e)))
        pure (ok done))
      else pure (ok done)

  -- A path that reports an error in the status and returns it.
  unfoldable pub fail : CaEnrollment → String → String → GoError → Act Event (Outcome CtrlResult)
  fail enrollment text prefix e = do
    _ ← invoke (update_status env enrollment "Failed" (text ++ e.text))
    pure (err (wrap prefix e))

  -- "Update status to ready", and the requeue.
  unfoldable pub report_ready : CaEnrollment → Act Event (Outcome CtrlResult)
  report_ready enrollment = do
    _ ← invoke (update_status env enrollment "Ready" "Identity enrolled successfully")
    pure (ok recheck)

  -- From "Perform enrollment" on.
  unfoldable pub enroll : CaEnrollment → Act Event (Outcome CtrlResult)
  unfolding fail report_ready
  enroll enrollment = do
    enrolled ← invoke (enroll_identity env enrollment)
    changed ←
        check enrolled (fail enrollment "Failed to enroll identity: " "failed to enroll identity")
    report_ready changed

  -- From "Check if output secret already exists" on.
  unfoldable pub check_secret : CaEnrollment → Act Event (Outcome CtrlResult)
  unfolding enroll report_ready
  check_secret enrollment = do
    let key = output_key enrollment
    got ← call (env.get_secret key) (got_secret key)
    secret ← check got λ e.
        if is_not_found e
        then enroll enrollment
        else pure (err (wrap "failed to get output secret" e))
    due ← invoke (needs_renewal env secret)
    if due then enroll enrollment else report_ready enrollment

  -- "Add finalizer if it doesn't exist", and what follows on the object that the server returned.
  unfoldable pub reconcile_live : CaEnrollment → Act Event (Outcome CtrlResult)
  unfolding fail check_secret
  reconcile_live enrollment =
      if contains_finalizer enrollment.meta finalizer then check_secret enrollment else do
        let held : CaEnrollment = record enrollment {
          meta = add_finalizer enrollment.meta finalizer;
        }
        updated ← call (env.update_enrollment held) (updated_enrollment held)
        live ← check updated (fail held "Failed to add finalizer: " "failed to add finalizer")
        check_secret live

  -- "Set initial status if not set"
  unfoldable pub init_status : CaEnrollment → Act Event CaEnrollment
  init_status enrollment =
      if enrollment.status.status == ""
      then update_status env enrollment "Pending" "Initializing identity enrollment"
      else pure enrollment

  -- `Reconcile` for a CAEnrollment that was found.
  unfoldable pub reconcile_found : CaEnrollment → Act Event (Outcome CtrlResult)
  unfolding handle_deletion reconcile_live init_status
  reconcile_found enrollment = do
    started ← invoke (init_status enrollment)
    if started.meta.deleted then handle_deletion started else reconcile_live started

  -- `Reconcile`
  unfoldable pub reconcile : NamespacedName → Act Event (Outcome CtrlResult)
  unfolding reconcile_found
  reconcile key = do
    got ← call (env.get_enrollment key) (got_enrollment key)
    enrollment ← check got λ e.
        if is_not_found e then pure (ok done) else pure (err (wrap "failed to get CAEnrollment" e))
    reconcile_found enrollment
