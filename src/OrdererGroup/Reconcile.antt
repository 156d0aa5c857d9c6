-- ===== src/OrdererGroup/Reconcile.antt =====
-- `Reconcile`, `reconcileOrdererGroup`, `handleDeletion`, and the finalizer. A panic that `recover`
-- would catch does not occur in the model.
use Prim.Native.String.{◌++◌}
use mathlib.Core.List.{◌++◌ as append}
use fabric_x_operator.Prelude.{String, Bool, true, Option, none, some, [], ◌∷◌, ◌==◌, if◌then◌else◌}
use fabric_x_operator.Go.{GoError, Outcome, ok, err, wrap, is_not_found}
use fabric_x_operator.Go.Act.{Act, ◌>>=◌, pure, call, check, invoke}
use fabric_x_operator.Kube.{CtrlResult, NamespacedName, done, answered}
use fabric_x_operator.Utils.Finalizers.{contains_string, remove_string}
use fabric_x_operator.Api.Orderer.{OrdererGroup}
use fabric_x_operator.OrdererGroup.Env.{Env, Event, got_group, updated_group}
use fabric_x_operator.OrdererGroup.Status.{update_status}
use fabric_x_operator.OrdererGroup.Children.{reconcile_child_crds, cleanup_child_crds}

abbrev pub finalizer : String
finalizer = "orderergroup.fabricx.kfsoft.tech/finalizer"

abbrev or_true : Option Bool → Bool
or_true none = true
or_true (some b) = b

-- "Check if we should manage child CRDs"
abbrev pub manages : OrdererGroup → Bool
manages g = or_true g.spec.manage_child_crds

-- The group that the caller goes on with, beside the error of a call on it.
abbrev pub Result : Type 0
Result = OrdererGroup × Outcome (Unit {0})

-- The outcome of a call without its value.
abbrev outcome : {T : Type 0} → Outcome T → Outcome (Unit {0})
outcome (ok t) = ok tt
outcome (err e) = err e

module _ (env : Env) where
  unfoldable pub update_group : OrdererGroup → Act Event Result
  update_group changed = do
    updated ← call (env.update_group changed) (updated_group changed)
    pure (answered changed updated, outcome updated)

  -- `ensureFinalizer`
  unfoldable pub ensure_finalizer : OrdererGroup → Act Event Result
  unfolding update_group
  ensure_finalizer g =
      if contains_string g.meta.finalizers finalizer
      then pure (g, ok tt)
      else update_group (record g {
        meta = record g.meta { finalizers = append g.meta.finalizers (finalizer ∷ []) };
      })

  -- `removeFinalizer`
  unfoldable pub remove_finalizer : OrdererGroup → Act Event Result
  unfolding update_group
  remove_finalizer g =
      update_group (record g {
        meta = record g.meta { finalizers = remove_string g.meta.finalizers finalizer };
      })

  -- The children, if they are managed; `reconcileChildComponents` does nothing.
  unfoldable pub reconcile_children : OrdererGroup → Act Event (Outcome (Unit {0}))
  reconcile_children g = if manages g then reconcile_child_crds env g else pure (ok tt)

  abbrev what : OrdererGroup → String
  what g = if manages g then "child CRDs" else "child components"

  -- `reconcileOrdererGroup`
  unfoldable pub reconcile_orderer_group : OrdererGroup → Act Event Result
  unfolding reconcile_children
  reconcile_orderer_group g = do
    children ← invoke (reconcile_children g)
    _ ← check children λ e. do
      failed ←
          invoke (update_status env g "FAILED" ("Failed to reconcile " ++ what g ++ ": " ++ e.text))
      pure (failed, err (wrap ("failed to reconcile " ++ what g) e))
    running ← invoke (update_status env g "RUNNING" "OrdererGroup reconciled successfully")
    pure (running, ok tt)

  -- A path that writes "FAILED" and returns the error.
  unfoldable pub fail : OrdererGroup → String → GoError → Act Event (Outcome CtrlResult)
  fail g message e = do _ ← invoke (update_status env g "FAILED" message); pure (err e)

  -- `Reconcile` where `reconcileOrdererGroup` has failed
  unfoldable pub report_failure : OrdererGroup → GoError → Act Event (Outcome CtrlResult)
  unfolding fail
  report_failure g e =
      if g.status.status == "FAILED"
      then pure (err e)
      else fail g ("Failed to reconcile OrdererGroup: " ++ e.text) e

  -- "Set initial status if not set"
  unfoldable pub init_status : OrdererGroup → Act Event OrdererGroup
  init_status g =
      if g.status.status == ""
      then update_status env g "PENDING" "Initializing OrdererGroup"
      else pure g

  -- `Reconcile` for a group that is not being deleted
  unfoldable pub reconcile_live : OrdererGroup → Act Event (Outcome CtrlResult)
  unfolding init_status ensure_finalizer reconcile_orderer_group report_failure
  reconcile_live g = do
    started ← invoke (init_status g)
    held ← invoke (ensure_finalizer started)
    _ ← check held.1 (λ e. fail held.0 ("Failed to ensure finalizer: " ++ e.text) e)
    rolled ← invoke (reconcile_orderer_group held.0)
    _ ← check rolled.1 (report_failure rolled.0)
    pure (ok done)

  -- `cleanupChildCRDs`, if the children are managed; `cleanupChildComponents` does nothing.
  unfoldable pub cleanup_children : OrdererGroup → Act Event (Outcome (Unit {0}))
  cleanup_children g = if manages g then cleanup_child_crds env g else pure (ok tt)

  -- `handleDeletion`
  unfoldable pub handle_deletion : OrdererGroup → Act Event (Outcome CtrlResult)
  unfolding cleanup_children remove_finalizer fail
  handle_deletion g = do
    pending ← invoke (update_status env g "PENDING" "Deleting OrdererGroup components")
    cleaned ← invoke (cleanup_children pending)
    _ ← check cleaned λ e. fail pending ("Failed to cleanup " ++ what pending ++ ": " ++ e.text) e
    freed ← invoke (remove_finalizer pending)
    _ ← check freed.1 (λ e. fail freed.0 ("Failed to remove finalizer: " ++ e.text) e)
    pure (ok done)

  -- `Reconcile`
  unfoldable pub reconcile : NamespacedName → Act Event (Outcome CtrlResult)
  unfolding handle_deletion reconcile_live
  reconcile key = do
    got ← call (env.get_group key) (got_group key)
    g ← check got (λ e. if is_not_found e then pure (ok done) else pure (err e))
    (if g.meta.deleted then handle_deletion g else reconcile_live g)
