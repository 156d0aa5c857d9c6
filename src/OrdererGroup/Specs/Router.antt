-- ===== src/OrdererGroup/Specs/Router.antt =====
-- `buildRouterSpec`.
use fabric_x_operator.Prelude.{Option, none, some}
use fabric_x_operator.Go.{pos}
use fabric_x_operator.Api.Nil.{or_default, or_else, or_nonzero}
use fabric_x_operator.Api.Pod.{CommonComponentConfig}
use fabric_x_operator.Api.Component.{ComponentConfig}
use fabric_x_operator.Api.Orderer.{OrdererGroup, OrdererRouterSpec}

-- The literal that `buildRouterSpec` starts from.
unfoldable pub router_base : OrdererGroup → OrdererRouterSpec
router_base g = record {
  bootstrap_mode = or_default g.spec.bootstrap_mode "configure";
  msp_id = g.spec.msp_id;
  party_id = g.spec.party_id;
  image = or_default g.spec.image "hyperledger/fabric-x-orderer";
  image_tag = or_default g.spec.image_tag "0.0.19";
  genesis = g.spec.genesis;
  replicas = pos 0;
  storage = none;
  resources = none;
  security_context = none;
  pod_annotations = none;
  pod_labels = none;
  volumes = none;
  affinity = none;
  volume_mounts = none;
  image_pull_secrets = none;
  tolerations = none;
  tls = none;
  ingress = none;
  sans = none;
  endpoints = none;
  env = none;
  command = none;
  args = none;
  enrollment = g.spec.enrollment;
}

-- "Merge common configuration"
unfoldable pub router_common : Option CommonComponentConfig → OrdererRouterSpec → OrdererRouterSpec
router_common none s = s
router_common (some c) s = record s {
  replicas = c.replicas;
  storage = c.storage;
  resources = c.resources;
  security_context = c.security_context;
  pod_annotations = c.pod_annotations;
  pod_labels = c.pod_labels;
  volumes = c.volumes;
  affinity = c.affinity;
  volume_mounts = c.volume_mounts;
  image_pull_secrets = c.image_pull_secrets;
  tolerations = c.tolerations;
}

-- "Override with component-specific configuration"
unfoldable pub router_override : ComponentConfig → OrdererRouterSpec → OrdererRouterSpec
router_override config s = record s {
  replicas = or_nonzero config.common.replicas s.replicas;
  storage = or_else config.common.storage s.storage;
  resources = or_else config.common.resources s.resources;
  security_context = or_else config.common.security_context s.security_context;
  pod_annotations = or_else config.common.pod_annotations s.pod_annotations;
  pod_labels = or_else config.common.pod_labels s.pod_labels;
  volumes = or_else config.common.volumes s.volumes;
  affinity = or_else config.common.affinity s.affinity;
  volume_mounts = or_else config.common.volume_mounts s.volume_mounts;
  image_pull_secrets = or_else config.common.image_pull_secrets s.image_pull_secrets;
  tolerations = or_else config.common.tolerations s.tolerations;
  ingress = config.ingress;
  sans = config.sans;
  endpoints = config.endpoints;
  env = config.env;
  command = config.command;
  args = config.args;
  enrollment = or_else config.enrollment s.enrollment;
}

-- `buildRouterSpec`
unfoldable pub build_router_spec : OrdererGroup → ComponentConfig → OrdererRouterSpec
unfolding router_base router_common router_override
build_router_spec g config = router_override config (router_common g.spec.common (router_base g))
