-- ===== src/Committer/Specs/Validator.antt =====
-- `buildValidatorSpec`.
use fabric_x_operator.Prelude.{Option, none, some}
use fabric_x_operator.Go.{pos}
use fabric_x_operator.Api.Nil.{or_default, or_else}
use fabric_x_operator.Api.Pod.{CommonComponentConfig}
use fabric_x_operator.Api.Committer.{Committer, ValidatorComponentConfig, CommitterValidatorSpec}

-- The literal that the function starts from.
unfoldable pub validator_base : Committer → CommitterValidatorSpec
validator_base c = record {
  bootstrap_mode = c.spec.bootstrap_mode;
  msp_id = c.spec.msp_id;
  party_id = pos 1;
  image = or_default c.spec.image "hyperledger/fabric-x-committer";
  image_tag = or_default c.spec.image_tag "0.1.5";
  replicas = pos 1;
  storage = none;
  resources = none;
  security_context = none;
  pod_annotations = none;
  pod_labels = none;
  volumes = none;
  affinity = none;
  volume_mounts = none;
  image_pull_secrets = none;
  tolerations = none;
  ingress = none;
  enrollment = none;
  sans = none;
  endpoints = none;
  env = none;
  command = none;
  args = none;
  postgresql = none;
}

-- "Copy common configuration if available"
unfoldable pub validator_common :
    Option CommonComponentConfig → CommitterValidatorSpec → CommitterValidatorSpec
validator_common none s = s
validator_common (some c) s = record s {
  replicas = c.replicas;
  storage = c.storage;
  resources = c.resources;
  security_context = c.security_context;
  pod_annotations = c.pod_annotations;
  pod_labels = c.pod_labels;
  volumes = c.volumes;
  affinity = c.affinity;
  volume_mounts = c.volume_mounts;
  image_pull_secrets = c.image_pull_secrets;
  tolerations = c.tolerations;
}

-- "Copy component-specific configuration if available"
unfoldable pub validator_own :
    Option ValidatorComponentConfig → CommitterValidatorSpec → CommitterValidatorSpec
validator_own none s = s
validator_own (some own) s = record s {
  ingress = own.ingress;
  enrollment = own.enrollment;
  sans = own.sans;
  endpoints = own.endpoints;
  env = own.env;
  command = own.command;
  args = own.args;
  postgresql = own.postgresql;
}

unfoldable pub build_validator_spec : Committer → CommitterValidatorSpec
unfolding validator_base validator_common validator_own
build_validator_spec c =
    let s =
      validator_own c.spec.components.validator
        (validator_common c.spec.common (validator_base c)) in
    record s { enrollment = or_else s.enrollment c.spec.enrollment }
