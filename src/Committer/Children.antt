-- ===== src/Committer/Children.antt =====
-- The children: their names, their creation and update, and their deletion. The five functions of
-- each step differ in the kind of the child and in the words of their errors.
use Prim.Native.String.{◌++◌}
use fabric_x_operator.Prelude.{String, [], if◌then◌else◌}
use fabric_x_operator.Go.{Outcome, ok, err, wrap, is_not_found}
use fabric_x_operator.Go.Act.{Act, ◌>>=◌, pure, call, check, invoke}
use fabric_x_operator.Kube.{NamespacedName, new_meta}
use fabric_x_operator.Api.Committer.{Committer}
use fabric_x_operator.Committer.Env.{
  ChildKind, coordinator, sidecar, validator, verifier, query_service, SpecOf, Child, Env, Event,
  got_child, created_child, updated_child, deleted_child,
}
use fabric_x_operator.Committer.Specs.Coordinator.{build_coordinator_spec}
use fabric_x_operator.Committer.Specs.Sidecar.{build_sidecar_spec}
use fabric_x_operator.Committer.Specs.Validator.{build_validator_spec}
use fabric_x_operator.Committer.Specs.Verifier.{build_verifier_spec}
use fabric_x_operator.Committer.Specs.QueryService.{build_query_service_spec}

abbrev pub suffix : ChildKind → String
suffix coordinator = "-coordinator"
suffix sidecar = "-sidecar"
suffix validator = "-validator"
suffix verifier = "-verifier"
suffix query_service = "-query-service"

-- The kind in the words of an error.
abbrev pub label : ChildKind → String
label coordinator = "coordinator"
label sidecar = "sidecar"
label validator = "validator"
label verifier = "verifier"
label query_service = "query service"

abbrev pub child_key : Committer → ChildKind → NamespacedName
child_key c k = record { name = c.meta.name ++ suffix k; namespace = c.meta.namespace }

abbrev pub build_spec : (k : ChildKind) → Committer → SpecOf k
build_spec coordinator c = build_coordinator_spec c
build_spec sidecar c = build_sidecar_spec c
build_spec validator c = build_validator_spec c
build_spec verifier c = build_verifier_spec c
build_spec query_service c = build_query_service_spec c

-- The literal of a child, with its spec. It names no owner.
abbrev pub new_child : (k : ChildKind) → NamespacedName → SpecOf k → Child k
new_child k key spec = record { meta = new_meta key.name key.namespace []; spec = spec }

module _ (env : Env) where
  unfoldable pub apply_child :
      (k : ChildKind) → NamespacedName → SpecOf k → Act Event (Outcome (Unit {0}))
  apply_child k key spec = do
    got ← call (env.get_child k key) (got_child k key)
    existing ← check got λ e.
        (if is_not_found e
          then (do
            let child = new_child k key spec
            created ← call (env.create_child k child) (created_child k child)
            _ ← check created (λ e. pure (err (wrap ("failed to create " ++ label k ++ " CRD") e)))
            pure (ok tt))
          else pure (err (wrap ("failed to check " ++ label k ++ " CRD") e)))
    let changed : Child k = record { meta = existing.meta; spec = spec }
    updated ← call (env.update_child k changed) (updated_child k changed)
    _ ← check updated (λ e. pure (err (wrap ("failed to update " ++ label k ++ " CRD") e)))
    pure (ok tt)

  -- `reconcileCoordinatorCRD`
  abbrev pub reconcile_coordinator_crd : Committer → Act Event (Outcome (Unit {0}))
  reconcile_coordinator_crd c =
      apply_child coordinator (child_key c coordinator) (build_coordinator_spec c)

  -- `reconcileSidecarCRD`
  abbrev pub reconcile_sidecar_crd : Committer → Act Event (Outcome (Unit {0}))
  reconcile_sidecar_crd c = apply_child sidecar (child_key c sidecar) (build_sidecar_spec c)

  -- `reconcileValidatorCRD`
  abbrev pub reconcile_validator_crd : Committer → Act Event (Outcome (Unit {0}))
  reconcile_validator_crd c = apply_child validator (child_key c validator) (build_validator_spec c)

  -- `reconcileVerifierCRD`
  abbrev pub reconcile_verifier_crd : Committer → Act Event (Outcome (Unit {0}))
  reconcile_verifier_crd c = apply_child verifier (child_key c verifier) (build_verifier_spec c)

  -- `reconcileQueryServiceCRD`
  abbrev pub reconcile_query_service_crd : Committer → Act Event (Outcome (Unit {0}))
  reconcile_query_service_crd c =
      apply_child query_service (child_key c query_service) (build_query_service_spec c)

  -- One step of `reconcileChildCRDs` or `cleanupChildCRDs`, whose error is wrapped, and the rest.
  abbrev pub and_then :
      String
      → Act Event (Outcome (Unit {0}))
      → Act Event (Outcome (Unit {0}))
      → Act Event (Outcome (Unit {0}))
  and_then what first rest = invoke first λ r. check r (λ e. pure (err (wrap what e))) λ _. rest

  -- `reconcileChildCRDs`
  unfoldable pub reconcile_child_crds : Committer → Act Event (Outcome (Unit {0}))
  reconcile_child_crds c =
      and_then "failed to reconcile coordinator CRD" (reconcile_coordinator_crd c) (
        and_then "failed to reconcile sidecar CRD" (reconcile_sidecar_crd c) (
          and_then "failed to reconcile validator CRD" (reconcile_validator_crd c) (
            and_then "failed to reconcile verifier CRD" (reconcile_verifier_crd c) (
              and_then "failed to reconcile query service CRD" (reconcile_query_service_crd c)
                (pure (ok tt))))))

  -- A read that fails, for whatever reason, leaves the child alone.
  unfoldable pub cleanup_child : (k : ChildKind) → NamespacedName → Act Event (Outcome (Unit {0}))
  cleanup_child k key = do
    got ← call (env.get_child k key) (got_child k key)
    child ← check got (λ e. pure (ok tt))
    deleted ← call (env.delete_child k child) (deleted_child k child)
    _ ← check deleted (λ e. pure (err (wrap ("failed to delete " ++ label k ++ " CRD") e)))
    pure (ok tt)

  -- `cleanupCoordinatorCRD`
  abbrev pub cleanup_coordinator_crd : Committer → Act Event (Outcome (Unit {0}))
  cleanup_coordinator_crd c = cleanup_child coordinator (child_key c coordinator)

  -- `cleanupSidecarCRD`
  abbrev pub cleanup_sidecar_crd : Committer → Act Event (Outcome (Unit {0}))
  cleanup_sidecar_crd c = cleanup_child sidecar (child_key c sidecar)

  -- `cleanupValidatorCRD`
  abbrev pub cleanup_validator_crd : Committer → Act Event (Outcome (Unit {0}))
  cleanup_validator_crd c = cleanup_child validator (child_key c validator)

  -- `cleanupVerifierCRD`
  abbrev pub cleanup_verifier_crd : Committer → Act Event (Outcome (Unit {0}))
  cleanup_verifier_crd c = cleanup_child verifier (child_key c verifier)

  -- `cleanupQueryServiceCRD`
  abbrev pub cleanup_query_service_crd : Committer → Act Event (Outcome (Unit {0}))
  cleanup_query_service_crd c = cleanup_child query_service (child_key c query_service)

  -- `cleanupChildCRDs`
  unfoldable pub cleanup_child_crds : Committer → Act Event (Outcome (Unit {0}))
  cleanup_child_crds c = and_then "failed to cleanup coordinator CRD" (cleanup_coordinator_crd c) (
      and_then "failed to cleanup sidecar CRD" (cleanup_sidecar_crd c) (
        and_then "failed to cleanup validator CRD" (cleanup_validator_crd c) (
          and_then "failed to cleanup verifier CRD" (cleanup_verifier_crd c) (
            and_then "failed to cleanup query service CRD" (cleanup_query_service_crd c)
              (pure (ok tt))))))
