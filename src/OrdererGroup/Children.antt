-- ===== src/OrdererGroup/Children.antt =====
-- The children: their names, their creation and update, and their deletion.
use Prim.Native.String.{◌++◌}
use fabric_x_operator.Prelude.{ℕ, suc, String, List, [], ◌∷◌}
use fabric_x_operator.Go.{GoError, Outcome, ok, err, wrap}
use fabric_x_operator.Go.Act.{Act, ◌>>=◌, pure, call, check, invoke, when_set}
use fabric_x_operator.Go.Decimal.{decimal}
use fabric_x_operator.Kube.{ObjectMeta, NamespacedName, new_meta, owner_reference}
use fabric_x_operator.Api.Nil.{elements}
use fabric_x_operator.Api.Component.{ComponentConfig}
use fabric_x_operator.Api.Orderer.{OrdererGroup, ConsenterInstance, BatcherInstance}
use fabric_x_operator.OrdererGroup.Env.{
  ChildKind, consenter, assembler, router, batcher, SpecOf, Child, Env, Event, got_child,
  created_child, updated_child, deleted_child,
}
use fabric_x_operator.OrdererGroup.Specs.Consenter.{build_consenter_spec}
use fabric_x_operator.OrdererGroup.Specs.Batcher.{build_batcher_spec}
use fabric_x_operator.OrdererGroup.Specs.Assembler.{build_assembler_spec}
use fabric_x_operator.OrdererGroup.Specs.Router.{build_router_spec}

abbrev pub child_key : OrdererGroup → String → NamespacedName
child_key g suffix = record { name = g.meta.name ++ suffix; namespace = g.meta.namespace }

-- `fmt.Sprintf("%s-batcher-%d", ordererGroup.Name, i)`
abbrev pub batcher_key : OrdererGroup → ℕ → NamespacedName
batcher_key g i = child_key g ("-batcher-" ++ decimal i)

-- The metadata of a new child, which names the group as its controller.
unfoldable pub child_meta : OrdererGroup → NamespacedName → ObjectMeta
child_meta g key = record (new_meta key.name key.namespace []) {
  owners = owner_reference g.api_version g.kind g.meta ∷ [];
}

abbrev as_is : GoError → GoError
as_is e = e

module _ (env : Env) where
  -- "Check if the CRD already exists", "Update existing CRD" and "Create new CRD": any error of the
  -- read leads to the creation. The callers wrap the errors of the two writes in their own way.
  unfoldable pub apply_child :
      (k : ChildKind)
      → (GoError → GoError)
      → (GoError → GoError)
      → OrdererGroup
      → NamespacedName
      → SpecOf k
      → Act Event (Outcome (Unit {0}))
  unfolding child_meta
  apply_child k on_create on_update g key spec = do
    got ← call (env.get_child k key) (got_child k key)
    existing ← check got λ _. do
      let child : Child k = record { meta = child_meta g key; spec = spec }
      created ← call (env.create_child k child) (created_child k child)
      _ ← check created (λ e. pure (err (on_create e)))
      pure (ok tt)
    let changed : Child k = record { meta = existing.meta; spec = spec }
    updated ← call (env.update_child k changed) (updated_child k changed)
    _ ← check updated (λ e. pure (err (on_update e)))
    pure (ok tt)

  -- `reconcileAssemblerCRD`
  unfoldable pub reconcile_assembler_crd :
      OrdererGroup → ComponentConfig → Act Event (Outcome (Unit {0}))
  reconcile_assembler_crd g config =
      apply_child assembler as_is as_is g (child_key g "-assembler") (build_assembler_spec g config)

  -- `reconcileRouterCRD`
  unfoldable pub reconcile_router_crd :
      OrdererGroup → ComponentConfig → Act Event (Outcome (Unit {0}))
  reconcile_router_crd g config =
      apply_child router as_is as_is g (child_key g "-router") (build_router_spec g config)

  -- `reconcileConsenterCRDs`, for a consenter that is configured
  unfoldable pub reconcile_consenter_crds :
      OrdererGroup → ConsenterInstance → Act Event (Outcome (Unit {0}))
  reconcile_consenter_crds g config =
      let key = child_key g "-consenter" in
      apply_child consenter (wrap ("failed to create consenter CRD " ++ key.name))
        (wrap ("failed to update consenter CRD " ++ key.name)) g key (build_consenter_spec g config)

  -- `reconcileBatcherCRDs` from index `i` on
  unfoldable pub reconcile_batcher_crds :
      OrdererGroup → ℕ → List BatcherInstance → Act Event (Outcome (Unit {0}))
  reconcile_batcher_crds g i [] = pure (ok tt)
  reconcile_batcher_crds g i (b ∷ bs) = do
    let key = batcher_key g i
    applied ← invoke (
        apply_child batcher (wrap ("failed to create batcher CRD " ++ key.name))
          (wrap ("failed to update batcher CRD " ++ key.name)) g key (build_batcher_spec g b))
    _ ← check applied (λ e. pure (err e))
    reconcile_batcher_crds g (suc i) bs

  -- `reconcileChildCRDs`
  unfoldable pub reconcile_child_crds : OrdererGroup → Act Event (Outcome (Unit {0}))
  reconcile_child_crds g = do
    let components = g.spec.components
    c ← invoke (when_set components.consenter (reconcile_consenter_crds g))
    _ ← check c (λ e. pure (err (wrap "failed to reconcile consenter CRD" e)))
    a ← invoke (when_set components.assembler (reconcile_assembler_crd g))
    _ ← check a (λ e. pure (err (wrap "failed to reconcile assembler CRD" e)))
    r ← invoke (when_set components.router (reconcile_router_crd g))
    _ ← check r (λ e. pure (err (wrap "failed to reconcile router CRD" e)))
    b ← invoke (reconcile_batcher_crds g 0 (elements components.batchers))
    _ ← check b (λ e. pure (err (wrap "failed to reconcile batcher CRDs" e)))
    pure (ok tt)

  unfoldable pub delete_child : ChildKind → NamespacedName → Act Event (Outcome (Unit {0}))
  delete_child k key = do
    deleted ← call (env.delete_child k key) (deleted_child k key)
    pure deleted

  -- `cleanupBatcherCRDs` from index `i` on: it stops at the first error.
  unfoldable pub cleanup_batcher_crds :
      OrdererGroup → ℕ → List BatcherInstance → Act Event (Outcome (Unit {0}))
  unfolding delete_child
  cleanup_batcher_crds g i [] = pure (ok tt)
  cleanup_batcher_crds g i (b ∷ bs) = do
    deleted ← invoke (delete_child batcher (batcher_key g i))
    _ ←
        check deleted
          λ e. pure (err (wrap ("failed to delete batcher CRD " ++ (batcher_key g i).name) e))
    cleanup_batcher_crds g (suc i) bs

  -- `cleanupConsenterCRDs`
  unfoldable pub cleanup_consenter_crds : OrdererGroup → Act Event (Outcome (Unit {0}))
  unfolding delete_child
  cleanup_consenter_crds g = do
    let key = child_key g "-consenter"
    deleted ← invoke (delete_child consenter key)
    _ ← check deleted (λ e. pure (err (wrap ("failed to delete consenter CRD " ++ key.name) e)))
    pure (ok tt)

  -- `cleanupAssemblerCRD`
  unfoldable pub cleanup_assembler_crd : OrdererGroup → Act Event (Outcome (Unit {0}))
  unfolding delete_child
  cleanup_assembler_crd g = delete_child assembler (child_key g "-assembler")

  -- `cleanupRouterCRD`
  unfoldable pub cleanup_router_crd : OrdererGroup → Act Event (Outcome (Unit {0}))
  unfolding delete_child
  cleanup_router_crd g = delete_child router (child_key g "-router")

  -- `cleanupChildCRDs`: errors are only logged.
  unfoldable pub cleanup_child_crds : OrdererGroup → Act Event (Outcome (Unit {0}))
  cleanup_child_crds g = do
    let components = g.spec.components
    _ ← invoke (when_set components.consenter (λ _. cleanup_consenter_crds g))
    _ ← invoke (when_set components.assembler (λ _. cleanup_assembler_crd g))
    _ ← invoke (when_set components.router (λ _. cleanup_router_crd g))
    _ ← invoke (cleanup_batcher_crds g 0 (elements components.batchers))
    pure (ok tt)
