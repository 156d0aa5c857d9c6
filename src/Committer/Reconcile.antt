-- ===== src/Committer/Reconcile.antt =====
-- `updateCommitterStatus`, `Reconcile`, `reconcileCommitter`, `handleDeletion`, and the finalizer.
-- `reconcileChildComponents` does nothing. A panic that `recover` would catch does not occur in the
-- model.
use Prim.Native.String.{◌++◌}
use mathlib.Core.List.{◌++◌ as append}
use fabric_x_operator.Prelude.{String, some, [], ◌∷◌, ◌==◌, if◌then◌else◌}
use fabric_x_operator.Go.{GoError, Outcome, ok, err, wrap, is_not_found}
use fabric_x_operator.Go.Act.{Act, ◌>>=◌, pure, call, check, invoke}
use fabric_x_operator.Kube.{Time, CtrlResult, NamespacedName, done, answered}
use fabric_x_operator.Utils.Finalizers.{contains_string, remove_string}
use fabric_x_operator.Utils.Conditions.{Condition}
use fabric_x_operator.Api.Committer.{Committer}
use fabric_x_operator.Committer.Env.{
  Env, Event, got_committer, updated_committer, updated_status, read_clock,
}
use fabric_x_operator.Committer.Children.{reconcile_child_crds, cleanup_child_crds}

abbrev pub finalizer : String
finalizer = "committer.fabricx.kfsoft.tech/finalizer"

-- The object that a status update sends.
unfoldable pub with_status : Committer → Time → String → String → Committer
with_status c now status message =
    let ready : Condition = record {
      type = "Ready";
      status = "True";
      observed_generation = 0;
      last_transition_time = now;
      reason = "Reconciled";
      message = message;
    } in
    record c {
      status = record c.status {
        status = status;
        message = message;
        conditions = some (ready ∷ []);
      };
    }

-- The committer that the caller goes on with, beside the error of a call on it.
abbrev pub Result : Type 0
Result = Committer × Outcome (Unit {0})

-- The outcome of a call without its value.
abbrev pub outcome : {T : Type 0} → Outcome T → Outcome (Unit {0})
outcome (ok t) = ok tt
outcome (err e) = err e

-- "Requeue after 1 minute"
abbrev pub monitor : CtrlResult
monitor = record { requeue_after = some 60 }

module _ (env : Env) where
  -- `updateCommitterStatus`; a failed write is only logged.
  unfoldable pub update_status : Committer → String → String → Act Event Committer
  unfolding with_status
  update_status c status message = do
    now ← call env.now read_clock
    let changed = with_status c now status message
    written ← call (env.update_status changed) (updated_status changed)
    pure (answered changed written)

  unfoldable pub update_committer : Committer → Act Event Result
  update_committer changed = do
    updated ← call (env.update_committer changed) (updated_committer changed)
    pure (answered changed updated, outcome updated)

  -- `ensureFinalizer`
  unfoldable pub ensure_finalizer : Committer → Act Event Result
  unfolding update_committer
  ensure_finalizer c =
      if contains_string c.meta.finalizers finalizer
      then pure (c, ok tt)
      else update_committer (record c {
        meta = record c.meta { finalizers = append c.meta.finalizers (finalizer ∷ []) };
      })

  -- `removeFinalizer`
  unfoldable pub remove_finalizer : Committer → Act Event Result
  unfolding update_committer
  remove_finalizer c =
      update_committer (record c {
        meta = record c.meta { finalizers = remove_string c.meta.finalizers finalizer };
      })

  -- `reconcileCommitter`: where it fails it does not write the status.
  unfoldable pub reconcile_committer : Committer → Act Event Result
  unfolding update_status
  reconcile_committer c = do
    children ← invoke (reconcile_child_crds env c)
    _ ← check children (λ e. pure (c, err (wrap "failed to reconcile child CRDs" e)))
    running ← invoke (update_status c "RUNNING" "Committer reconciled successfully")
    pure (running, ok tt)

  -- A path that writes "FAILED" and returns the error.
  unfoldable pub fail : Committer → String → GoError → Act Event (Outcome CtrlResult)
  unfolding update_status
  fail c message e = do _ ← invoke (update_status c "FAILED" message); pure (err e)

  -- `Reconcile` where `reconcileCommitter` has failed
  unfoldable pub report_failure : Committer → GoError → Act Event (Outcome CtrlResult)
  unfolding fail
  report_failure c e =
      if c.status.status == "FAILED"
      then pure (err e)
      else fail c ("Failed to reconcile Committer: " ++ e.text) e

  -- "Set initial status if not set"
  unfoldable pub init_status : Committer → Act Event Committer
  unfolding update_status
  init_status c =
      if c.status.status == "" then update_status c "PENDING" "Initializing Committer" else pure c

  -- `Reconcile` for a committer that is not being deleted
  unfoldable pub reconcile_live : Committer → Act Event (Outcome CtrlResult)
  unfolding init_status ensure_finalizer reconcile_committer report_failure
  reconcile_live c = do
    started ← invoke (init_status c)
    held ← invoke (ensure_finalizer started)
    _ ← check held.1 (λ e. fail held.0 ("Failed to ensure finalizer: " ++ e.text) e)
    rolled ← invoke (reconcile_committer held.0)
    _ ← check rolled.1 (report_failure rolled.0)
    pure (ok monitor)

  -- `handleDeletion`
  unfoldable pub handle_deletion : Committer → Act Event (Outcome CtrlResult)
  unfolding update_status remove_finalizer fail
  handle_deletion c = do
    pending ← invoke (update_status c "PENDING" "Deleting Committer resources")
    cleaned ← invoke (cleanup_child_crds env pending)
    _ ← check cleaned (λ e. fail pending ("Failed to cleanup child CRDs: " ++ e.text) e)
    freed ← invoke (remove_finalizer pending)
    _ ← check freed.1 (λ e. fail freed.0 ("Failed to remove finalizer: " ++ e.text) e)
    pure (ok done)

  -- `Reconcile`
  unfoldable pub reconcile : NamespacedName → Act Event (Outcome CtrlResult)
  unfolding handle_deletion reconcile_live
  reconcile key = do
    got ← call (env.get_committer key) (got_committer key)
    c ← check got (λ e. if is_not_found e then pure (ok done) else pure (err e))
    (if c.meta.deleted then handle_deletion c else reconcile_live c)
