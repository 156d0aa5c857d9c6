-- ===== src/Committer/Ignored.antt =====
-- The settings of a component that reach no child.
use fabric_x_operator.Prelude.{Option, none, some, ◌≡◌, ◌∙◌, ap, refl}
use fabric_x_operator.Api.Nil.{or_else, or_default, or_nonzero}
use fabric_x_operator.Api.Pod.{CommonComponentConfig}
use fabric_x_operator.Api.Component.{ComponentConfig}
use fabric_x_operator.Api.Committer.{
  Committer, CommitterComponents, ValidatorComponentConfig, CommitterCoordinatorSpec,
  CommitterSidecarSpec, CommitterValidatorSpec, CommitterVerifierSpec, CommitterQueryServiceSpec,
}
use fabric_x_operator.Committer.Env.{
  ChildKind, coordinator, sidecar, validator, verifier, query_service,
}
use fabric_x_operator.Committer.Children.{build_spec}
use fabric_x_operator.Committer.Applied.{of_each}
use fabric_x_operator.Committer.Specs.Coordinator.{
  build_coordinator_spec, coordinator_base, coordinator_common, coordinator_own,
}
use fabric_x_operator.Committer.Specs.Sidecar.{
  build_sidecar_spec, sidecar_base, sidecar_common, sidecar_own, sidecar_peers, endpoints_of,
  or_endpoints,
}
use fabric_x_operator.Committer.Specs.Validator.{
  build_validator_spec, validator_base, validator_common, validator_own,
}
use fabric_x_operator.Committer.Specs.Verifier.{
  build_verifier_spec, verifier_base, verifier_common, verifier_own,
}
use fabric_x_operator.Committer.Specs.QueryService.{
  build_query_service_spec, query_service_base, query_service_common, query_service_own,
}

-- The components with other settings of their own.
abbrev component_with : CommonComponentConfig → Option ComponentConfig → Option ComponentConfig
component_with s none = none
component_with s (some own) = some (record own { common = s })

abbrev validator_with :
    CommonComponentConfig → Option ValidatorComponentConfig → Option ValidatorComponentConfig
validator_with s none = none
validator_with s (some own) = some (record own { common = s })

abbrev pub with_parts :
    (ChildKind → CommonComponentConfig) → CommitterComponents → CommitterComponents
with_parts own parts = record parts {
  coordinator = component_with (own coordinator) parts.coordinator;
  sidecar = component_with (own sidecar) parts.sidecar;
  validator = validator_with (own validator) parts.validator;
  verifier_service = component_with (own verifier) parts.verifier_service;
  query_service = component_with (own query_service) parts.query_service;
}

abbrev pub with_own : (ChildKind → CommonComponentConfig) → Committer → Committer
with_own own c = record c { spec = record c.spec { components = with_parts own c.spec.components } }

coordinator-with :
    (all : ChildKind → CommonComponentConfig) (parts : CommitterComponents)
    (s : CommonComponentConfig) (own : Option ComponentConfig) (spec : CommitterCoordinatorSpec)
    → coordinator_own (with_parts all parts) (component_with s own) spec
      ≡ coordinator_own parts own spec
unfolding coordinator_own
coordinator-with all parts s none spec = refl
coordinator-with all parts s (some own) spec = refl

sidecar-with :
    (s : CommonComponentConfig) (own : Option ComponentConfig) (spec : CommitterSidecarSpec)
    → sidecar_own (component_with s own) spec ≡ sidecar_own own spec
unfolding sidecar_own
sidecar-with s none spec = refl
sidecar-with s (some own) spec = refl

validator-with :
    (s : CommonComponentConfig) (own : Option ValidatorComponentConfig)
    (spec : CommitterValidatorSpec)
    → validator_own (validator_with s own) spec ≡ validator_own own spec
unfolding validator_own
validator-with s none spec = refl
validator-with s (some own) spec = refl

verifier-with :
    (s : CommonComponentConfig) (own : Option ComponentConfig) (spec : CommitterVerifierSpec)
    → verifier_own (component_with s own) spec ≡ verifier_own own spec
unfolding verifier_own
verifier-with s none spec = refl
verifier-with s (some own) spec = refl

query_service-with :
    (s : CommonComponentConfig) (own : Option ComponentConfig) (spec : CommitterQueryServiceSpec)
    → query_service_own (component_with s own) spec ≡ query_service_own own spec
unfolding query_service_own
query_service-with s none spec = refl
query_service-with s (some own) spec = refl

endpoints_of-with :
    (s : CommonComponentConfig) (own : Option ComponentConfig)
    → endpoints_of (component_with s own) ≡ endpoints_of own
endpoints_of-with s none = refl
endpoints_of-with s (some own) = refl

sidecar_peers-with :
    (own : ChildKind → CommonComponentConfig) (parts : CommitterComponents)
    (s : CommitterSidecarSpec)
    → sidecar_peers (with_parts own parts) s ≡ sidecar_peers parts s
unfolding sidecar_peers
sidecar_peers-with own parts s =
    ap
      (λ e. record s {
        orderer_endpoints =
            or_endpoints e (or_endpoints parts.orderer_endpoints s.orderer_endpoints);
        committer_host = or_default parts.committer_host s.committer_host;
        committer_port = or_nonzero parts.committer_port s.committer_port;
      })
      (endpoints_of-with (own sidecar) parts.sidecar)

-- The pod settings that a component declares for itself, its number of replicas included, have no
-- effect on any child.
pub build_spec-with_own :
    (own : ChildKind → CommonComponentConfig) (c : Committer) (k : ChildKind)
    → build_spec k (with_own own c) ≡ build_spec k c
unfolding coordinator_base sidecar_base validator_base verifier_base query_service_base
    build_coordinator_spec build_sidecar_spec build_validator_spec build_verifier_spec
    build_query_service_spec
build_spec-with_own own c =
    let parts = c.spec.components in
    let top = c.spec.enrollment in
    of_each (λ k. build_spec k (with_own own c) ≡ build_spec k c)
      (ap {A = CommitterCoordinatorSpec} (λ s. record s { enrollment = or_else s.enrollment top })
        (coordinator-with own parts (own coordinator) parts.coordinator
          (coordinator_common c.spec.common (coordinator_base c))))
      (ap {A = CommitterSidecarSpec} (λ s. record s { enrollment = or_else s.enrollment top })
        (sidecar_peers-with own parts _
          ∙ ap (sidecar_peers parts) (
              sidecar-with (own sidecar) parts.sidecar
                (sidecar_common c.spec.common (sidecar_base c)))))
      (ap {A = CommitterValidatorSpec} (λ s. record s { enrollment = or_else s.enrollment top })
        (validator-with (own validator) parts.validator
          (validator_common c.spec.common (validator_base c))))
      (ap {A = CommitterVerifierSpec} (λ s. record s { enrollment = or_else s.enrollment top })
        (verifier-with (own verifier) parts.verifier_service
          (verifier_common c.spec.common (verifier_base c))))
      (ap {A = CommitterQueryServiceSpec} (λ s. record s { enrollment = or_else s.enrollment top })
        (query_service-with (own query_service) parts.query_service
          (query_service_common c.spec.common (query_service_base c))))
