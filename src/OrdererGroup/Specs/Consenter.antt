-- ===== src/OrdererGroup/Specs/Consenter.antt =====
-- `buildConsenterSpecFromInstance`.
use fabric_x_operator.Prelude.{Option, none, some}
use fabric_x_operator.Go.{ℤ, pos}
use fabric_x_operator.Api.Nil.{or_default, or_else, or_nonzero}
use fabric_x_operator.Api.Pod.{CommonComponentConfig}
use fabric_x_operator.Api.Orderer.{OrdererGroup, ConsenterInstance, OrdererConsenterSpec}

-- The literal that `buildConsenterSpecFromInstance` starts from.
unfoldable pub consenter_base : OrdererGroup → ℤ → OrdererConsenterSpec
consenter_base g consenter_id = record {
  bootstrap_mode = or_default g.spec.bootstrap_mode "configure";
  msp_id = g.spec.msp_id;
  party_id = g.spec.party_id;
  consenter_id = consenter_id;
  image = or_default g.spec.image "hyperledger/fabric-x-orderer";
  image_tag = or_default g.spec.image_tag "0.0.19";
  genesis = g.spec.genesis;
  replicas = pos 0;
  storage = none;
  resources = none;
  security_context = none;
  pod_annotations = none;
  pod_labels = none;
  volumes = none;
  affinity = none;
  volume_mounts = none;
  image_pull_secrets = none;
  tolerations = none;
  storage_class_name = "";
  pvc_access_modes = none;
  pvc_storage_size = "";
  ingress = none;
  sans = none;
  endpoints = none;
  env = none;
  command = none;
  args = none;
  enrollment = g.spec.enrollment;
}

-- "Merge common configuration"
unfoldable pub consenter_common :
    Option CommonComponentConfig → OrdererConsenterSpec → OrdererConsenterSpec
consenter_common none s = s
consenter_common (some c) s = record s {
  replicas = c.replicas;
  storage = c.storage;
  resources = c.resources;
  security_context = c.security_context;
  pod_annotations = c.pod_annotations;
  pod_labels = c.pod_labels;
  volumes = c.volumes;
  affinity = c.affinity;
  volume_mounts = c.volume_mounts;
  image_pull_secrets = c.image_pull_secrets;
  tolerations = c.tolerations;
}

-- "Override with component-specific configuration"
unfoldable pub consenter_override : ConsenterInstance → OrdererConsenterSpec → OrdererConsenterSpec
consenter_override config s = record s {
  replicas = or_nonzero config.common.replicas s.replicas;
  storage = or_else config.common.storage s.storage;
  resources = or_else config.common.resources s.resources;
  security_context = or_else config.common.security_context s.security_context;
  pod_annotations = or_else config.common.pod_annotations s.pod_annotations;
  pod_labels = or_else config.common.pod_labels s.pod_labels;
  volumes = or_else config.common.volumes s.volumes;
  affinity = or_else config.common.affinity s.affinity;
  volume_mounts = or_else config.common.volume_mounts s.volume_mounts;
  image_pull_secrets = or_else config.common.image_pull_secrets s.image_pull_secrets;
  tolerations = or_else config.common.tolerations s.tolerations;
  ingress = config.ingress;
  sans = config.sans;
  endpoints = config.endpoints;
  env = config.env;
  command = config.command;
  args = config.args;
  enrollment = or_else config.enrollment s.enrollment;
}

-- `buildConsenterSpecFromInstance`
unfoldable pub build_consenter_spec : OrdererGroup → ConsenterInstance → OrdererConsenterSpec
unfolding consenter_base consenter_common consenter_override
build_consenter_spec g config =
    consenter_override config
      (consenter_common g.spec.common (consenter_base g config.consenter_id))
