-- ===== src/Committer/Settings.antt =====
-- The settings that the children end up with.
use fabric_x_operator.Prelude.{Option, none, some, ◌≡◌, ap, refl}
use fabric_x_operator.Go.{pos}
use fabric_x_operator.Api.Nil.{or_else}
use fabric_x_operator.Api.Pod.{CommonComponentConfig}
use fabric_x_operator.Api.Component.{ComponentConfig, EnrollmentConfig}
use fabric_x_operator.Api.Committer.{Committer, CommitterComponents, ValidatorComponentConfig}
use fabric_x_operator.OrdererGroup.Specs.Settings.{no_settings}
use fabric_x_operator.Committer.Env.{
  ChildKind, coordinator, sidecar, validator, verifier, query_service, SpecOf,
}
use fabric_x_operator.Committer.Children.{build_spec}
use fabric_x_operator.Committer.Applied.{of_each}
use fabric_x_operator.Committer.Specs.Coordinator.{
  build_coordinator_spec, coordinator_base, coordinator_common, coordinator_own,
}
use fabric_x_operator.Committer.Specs.Sidecar.{
  build_sidecar_spec, sidecar_base, sidecar_common, sidecar_own, sidecar_peers,
}
use fabric_x_operator.Committer.Specs.Validator.{
  build_validator_spec, validator_base, validator_common, validator_own,
}
use fabric_x_operator.Committer.Specs.Verifier.{
  build_verifier_spec, verifier_base, verifier_common, verifier_own,
}
use fabric_x_operator.Committer.Specs.QueryService.{
  build_query_service_spec, query_service_base, query_service_common, query_service_own,
}

-- The pod settings of a spec.
abbrev pub pod_of : (k : ChildKind) → SpecOf k → CommonComponentConfig
pod_of coordinator s = record {
  replicas = s.replicas;
  storage = s.storage;
  resources = s.resources;
  security_context = s.security_context;
  pod_annotations = s.pod_annotations;
  pod_labels = s.pod_labels;
  volumes = s.volumes;
  affinity = s.affinity;
  volume_mounts = s.volume_mounts;
  image_pull_secrets = s.image_pull_secrets;
  tolerations = s.tolerations;
}
pod_of sidecar s = record {
  replicas = s.replicas;
  storage = s.storage;
  resources = s.resources;
  security_context = s.security_context;
  pod_annotations = s.pod_annotations;
  pod_labels = s.pod_labels;
  volumes = s.volumes;
  affinity = s.affinity;
  volume_mounts = s.volume_mounts;
  image_pull_secrets = s.image_pull_secrets;
  tolerations = s.tolerations;
}
pod_of validator s = record {
  replicas = s.replicas;
  storage = s.storage;
  resources = s.resources;
  security_context = s.security_context;
  pod_annotations = s.pod_annotations;
  pod_labels = s.pod_labels;
  volumes = s.volumes;
  affinity = s.affinity;
  volume_mounts = s.volume_mounts;
  image_pull_secrets = s.image_pull_secrets;
  tolerations = s.tolerations;
}
pod_of verifier s = record {
  replicas = s.replicas;
  storage = s.storage;
  resources = s.resources;
  security_context = s.security_context;
  pod_annotations = s.pod_annotations;
  pod_labels = s.pod_labels;
  volumes = s.volumes;
  affinity = s.affinity;
  volume_mounts = s.volume_mounts;
  image_pull_secrets = s.image_pull_secrets;
  tolerations = s.tolerations;
}
pod_of query_service s = record {
  replicas = s.replicas;
  storage = s.storage;
  resources = s.resources;
  security_context = s.security_context;
  pod_annotations = s.pod_annotations;
  pod_labels = s.pod_labels;
  volumes = s.volumes;
  affinity = s.affinity;
  volume_mounts = s.volume_mounts;
  image_pull_secrets = s.image_pull_secrets;
  tolerations = s.tolerations;
}

abbrev pub enrollment_of : (k : ChildKind) → SpecOf k → Option EnrollmentConfig
enrollment_of coordinator s = s.enrollment
enrollment_of sidecar s = s.enrollment
enrollment_of validator s = s.enrollment
enrollment_of verifier s = s.enrollment
enrollment_of query_service s = s.enrollment

-- The common settings, or those of one replica.
abbrev pub given : Option CommonComponentConfig → CommonComponentConfig
given none = record no_settings { replicas = pos 1 }
given (some s) = s

-- The enrollment of a component.
abbrev component_enrollment : Option ComponentConfig → Option EnrollmentConfig
component_enrollment none = none
component_enrollment (some own) = own.enrollment

abbrev validator_enrollment : Option ValidatorComponentConfig → Option EnrollmentConfig
validator_enrollment none = none
validator_enrollment (some own) = own.enrollment

abbrev pub own_enrollment : ChildKind → CommitterComponents → Option EnrollmentConfig
own_enrollment coordinator parts = component_enrollment parts.coordinator
own_enrollment sidecar parts = component_enrollment parts.sidecar
own_enrollment validator parts = validator_enrollment parts.validator
own_enrollment verifier parts = component_enrollment parts.verifier_service
own_enrollment query_service parts = component_enrollment parts.query_service

coordinator-given :
    (c : Committer) (parts : CommitterComponents) (common : Option CommonComponentConfig)
    (own : Option ComponentConfig)
    → let s = coordinator_own parts own (coordinator_common common (coordinator_base c)) in
      (pod_of coordinator s ≡ given common) × (s.enrollment ≡ component_enrollment own)
unfolding coordinator_own coordinator_common coordinator_base
coordinator-given c parts none none = (refl, refl)
coordinator-given c parts (some s) none = (refl, refl)
coordinator-given c parts none (some o) = (refl, refl)
coordinator-given c parts (some s) (some o) = (refl, refl)

sidecar-given :
    (c : Committer) (common : Option CommonComponentConfig) (own : Option ComponentConfig)
    → let s = sidecar_own own (sidecar_common common (sidecar_base c)) in
      (pod_of sidecar s ≡ given common) × (s.enrollment ≡ component_enrollment own)
unfolding sidecar_own sidecar_common sidecar_base
sidecar-given c none none = (refl, refl)
sidecar-given c (some s) none = (refl, refl)
sidecar-given c none (some o) = (refl, refl)
sidecar-given c (some s) (some o) = (refl, refl)

validator-given :
    (c : Committer) (common : Option CommonComponentConfig) (own : Option ValidatorComponentConfig)
    → let s = validator_own own (validator_common common (validator_base c)) in
      (pod_of validator s ≡ given common) × (s.enrollment ≡ validator_enrollment own)
unfolding validator_own validator_common validator_base
validator-given c none none = (refl, refl)
validator-given c (some s) none = (refl, refl)
validator-given c none (some o) = (refl, refl)
validator-given c (some s) (some o) = (refl, refl)

verifier-given :
    (c : Committer) (common : Option CommonComponentConfig) (own : Option ComponentConfig)
    → let s = verifier_own own (verifier_common common (verifier_base c)) in
      (pod_of verifier s ≡ given common) × (s.enrollment ≡ component_enrollment own)
unfolding verifier_own verifier_common verifier_base
verifier-given c none none = (refl, refl)
verifier-given c (some s) none = (refl, refl)
verifier-given c none (some o) = (refl, refl)
verifier-given c (some s) (some o) = (refl, refl)

query_service-given :
    (c : Committer) (common : Option CommonComponentConfig) (own : Option ComponentConfig)
    → let s = query_service_own own (query_service_common common (query_service_base c)) in
      (pod_of query_service s ≡ given common) × (s.enrollment ≡ component_enrollment own)
unfolding query_service_own query_service_common query_service_base
query_service-given c none none = (refl, refl)
query_service-given c (some s) none = (refl, refl)
query_service-given c none (some o) = (refl, refl)
query_service-given c (some s) (some o) = (refl, refl)

-- Every child gets the common pod settings, or one replica and nothing else where there are none;
-- its enrollment is its component's own if that is given, else that of the committer.
pub build_spec-given :
    (c : Committer) (k : ChildKind)
    → (pod_of k (build_spec k c) ≡ given c.spec.common)
      × (enrollment_of k (build_spec k c)
          ≡ or_else (own_enrollment k c.spec.components) c.spec.enrollment)
unfolding build_coordinator_spec build_sidecar_spec build_validator_spec build_verifier_spec
    build_query_service_spec sidecar_peers
build_spec-given c =
    let parts = c.spec.components in
    let coordinator_fact = coordinator-given c parts c.spec.common parts.coordinator in
    let sidecar_fact = sidecar-given c c.spec.common parts.sidecar in
    let validator_fact = validator-given c c.spec.common parts.validator in
    let verifier_fact = verifier-given c c.spec.common parts.verifier_service in
    let query_service_fact = query_service-given c c.spec.common parts.query_service in
    of_each
      (λ k.
        (pod_of k (build_spec k c) ≡ given c.spec.common)
        × (enrollment_of k (build_spec k c) ≡ or_else (own_enrollment k parts) c.spec.enrollment))
      (coordinator_fact.0, ap (λ e. or_else e c.spec.enrollment) coordinator_fact.1)
      (sidecar_fact.0, ap (λ e. or_else e c.spec.enrollment) sidecar_fact.1)
      (validator_fact.0, ap (λ e. or_else e c.spec.enrollment) validator_fact.1)
      (verifier_fact.0, ap (λ e. or_else e c.spec.enrollment) verifier_fact.1)
      (query_service_fact.0, ap (λ e. or_else e c.spec.enrollment) query_service_fact.1)
