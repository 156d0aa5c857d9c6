-- ===== src/OrdererGroup/Specs/Batcher.antt =====
-- `buildBatcherSpec`.
use fabric_x_operator.Prelude.{Option, none, some}
use fabric_x_operator.Go.{ℤ, pos}
use fabric_x_operator.Api.Nil.{or_default, or_else, or_nonzero}
use fabric_x_operator.Api.Pod.{CommonComponentConfig}
use fabric_x_operator.Api.Orderer.{OrdererGroup, BatcherInstance, OrdererBatcherSpec}

-- The literal that `buildBatcherSpec` starts from.
unfoldable pub batcher_base : OrdererGroup → ℤ → OrdererBatcherSpec
batcher_base g shard_id = record {
  bootstrap_mode = or_default g.spec.bootstrap_mode "configure";
  msp_id = g.spec.msp_id;
  party_id = g.spec.party_id;
  shard_id = shard_id;
  image = or_default g.spec.image "hyperledger/fabric-x-orderer";
  image_tag = or_default g.spec.image_tag "0.0.19";
  genesis = g.spec.genesis;
  replicas = pos 0;
  storage = none;
  resources = none;
  security_context = none;
  pod_annotations = none;
  pod_labels = none;
  volumes = none;
  affinity = none;
  volume_mounts = none;
  image_pull_secrets = none;
  tolerations = none;
  storage_class_name = "";
  pvc_access_modes = none;
  pvc_storage_size = "";
  ingress = none;
  sans = none;
  endpoints = none;
  env = none;
  command = none;
  args = none;
  enrollment = g.spec.enrollment;
}

-- "Merge common configuration"
unfoldable pub batcher_common :
    Option CommonComponentConfig → OrdererBatcherSpec → OrdererBatcherSpec
batcher_common none s = s
batcher_common (some c) s = record s {
  replicas = c.replicas;
  storage = c.storage;
  resources = c.resources;
  security_context = c.security_context;
  pod_annotations = c.pod_annotations;
  pod_labels = c.pod_labels;
  volumes = c.volumes;
  affinity = c.affinity;
  volume_mounts = c.volume_mounts;
  image_pull_secrets = c.image_pull_secrets;
  tolerations = c.tolerations;
}

-- "Override with component-specific configuration"
unfoldable pub batcher_override : BatcherInstance → OrdererBatcherSpec → OrdererBatcherSpec
batcher_override config s = record s {
  replicas = or_nonzero config.common.replicas s.replicas;
  storage = or_else config.common.storage s.storage;
  resources = or_else config.common.resources s.resources;
  security_context = or_else config.common.security_context s.security_context;
  pod_annotations = or_else config.common.pod_annotations s.pod_annotations;
  pod_labels = or_else config.common.pod_labels s.pod_labels;
  volumes = or_else config.common.volumes s.volumes;
  affinity = or_else config.common.affinity s.affinity;
  volume_mounts = or_else config.common.volume_mounts s.volume_mounts;
  image_pull_secrets = or_else config.common.image_pull_secrets s.image_pull_secrets;
  tolerations = or_else config.common.tolerations s.tolerations;
  ingress = config.ingress;
  sans = config.sans;
  endpoints = config.endpoints;
  env = config.env;
  command = config.command;
  args = config.args;
  enrollment = or_else config.enrollment s.enrollment;
}

-- `buildBatcherSpec`
unfoldable pub build_batcher_spec : OrdererGroup → BatcherInstance → OrdererBatcherSpec
unfolding batcher_base batcher_common batcher_override
build_batcher_spec g config =
    batcher_override config (batcher_common g.spec.common (batcher_base g config.shard_id))
