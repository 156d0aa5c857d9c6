-- ===== src/OrdererGroup/Specs/Settings.antt =====
-- The settings that a component ends up with, whatever its kind.
use fabric_x_operator.Prelude.{Option, none, some, ◌≡◌, refl}
use fabric_x_operator.Go.{pos}
use fabric_x_operator.Api.Nil.{or_else, or_nonzero}
use fabric_x_operator.Api.Pod.{CommonComponentConfig}
use fabric_x_operator.Api.Component.{ComponentConfig}
use fabric_x_operator.Api.Orderer.{
  OrdererGroup, ConsenterInstance, BatcherInstance, OrdererConsenterSpec, OrdererBatcherSpec,
  OrdererAssemblerSpec, OrdererRouterSpec,
}
use fabric_x_operator.OrdererGroup.Specs.Consenter.{
  build_consenter_spec, consenter_override, consenter_common, consenter_base,
}
use fabric_x_operator.OrdererGroup.Specs.Batcher.{
  build_batcher_spec, batcher_override, batcher_common, batcher_base,
}
use fabric_x_operator.OrdererGroup.Specs.Assembler.{
  build_assembler_spec, assembler_override, assembler_common, assembler_base,
}
use fabric_x_operator.OrdererGroup.Specs.Router.{
  build_router_spec, router_override, router_common, router_base,
}

-- No settings at all.
abbrev pub no_settings : CommonComponentConfig
no_settings = record {
  replicas = pos 0;
  storage = none;
  resources = none;
  security_context = none;
  pod_annotations = none;
  pod_labels = none;
  volumes = none;
  affinity = none;
  volume_mounts = none;
  image_pull_secrets = none;
  tolerations = none;
}

abbrev or_no_settings : Option CommonComponentConfig → CommonComponentConfig
or_no_settings none = no_settings
or_no_settings (some c) = c

-- A setting of the component goes before the common one, setting by setting.
abbrev before_common : CommonComponentConfig → CommonComponentConfig → CommonComponentConfig
before_common own common = record {
  replicas = or_nonzero own.replicas common.replicas;
  storage = or_else own.storage common.storage;
  resources = or_else own.resources common.resources;
  security_context = or_else own.security_context common.security_context;
  pod_annotations = or_else own.pod_annotations common.pod_annotations;
  pod_labels = or_else own.pod_labels common.pod_labels;
  volumes = or_else own.volumes common.volumes;
  affinity = or_else own.affinity common.affinity;
  volume_mounts = or_else own.volume_mounts common.volume_mounts;
  image_pull_secrets = or_else own.image_pull_secrets common.image_pull_secrets;
  tolerations = or_else own.tolerations common.tolerations;
}

-- What a component with these settings runs with in a group with these common settings.
abbrev pub effective : CommonComponentConfig → Option CommonComponentConfig → CommonComponentConfig
effective own common = before_common own (or_no_settings common)

abbrev pub consenter_pod : OrdererConsenterSpec → CommonComponentConfig
consenter_pod s = record {
  replicas = s.replicas;
  storage = s.storage;
  resources = s.resources;
  security_context = s.security_context;
  pod_annotations = s.pod_annotations;
  pod_labels = s.pod_labels;
  volumes = s.volumes;
  affinity = s.affinity;
  volume_mounts = s.volume_mounts;
  image_pull_secrets = s.image_pull_secrets;
  tolerations = s.tolerations;
}

abbrev pub batcher_pod : OrdererBatcherSpec → CommonComponentConfig
batcher_pod s = record {
  replicas = s.replicas;
  storage = s.storage;
  resources = s.resources;
  security_context = s.security_context;
  pod_annotations = s.pod_annotations;
  pod_labels = s.pod_labels;
  volumes = s.volumes;
  affinity = s.affinity;
  volume_mounts = s.volume_mounts;
  image_pull_secrets = s.image_pull_secrets;
  tolerations = s.tolerations;
}

abbrev pub assembler_pod : OrdererAssemblerSpec → CommonComponentConfig
assembler_pod s = record {
  replicas = s.replicas;
  storage = s.storage;
  resources = s.resources;
  security_context = s.security_context;
  pod_annotations = s.pod_annotations;
  pod_labels = s.pod_labels;
  volumes = s.volumes;
  affinity = s.affinity;
  volume_mounts = s.volume_mounts;
  image_pull_secrets = s.image_pull_secrets;
  tolerations = s.tolerations;
}

abbrev pub router_pod : OrdererRouterSpec → CommonComponentConfig
router_pod s = record {
  replicas = s.replicas;
  storage = s.storage;
  resources = s.resources;
  security_context = s.security_context;
  pod_annotations = s.pod_annotations;
  pod_labels = s.pod_labels;
  volumes = s.volumes;
  affinity = s.affinity;
  volume_mounts = s.volume_mounts;
  image_pull_secrets = s.image_pull_secrets;
  tolerations = s.tolerations;
}

consenter-effective :
    (g : OrdererGroup) (c : ConsenterInstance) (common : Option CommonComponentConfig)
    → let spec = consenter_override c (consenter_common common (consenter_base g c.consenter_id)) in
      (consenter_pod spec ≡ effective c.common common)
      × (spec.enrollment ≡ or_else c.enrollment g.spec.enrollment)
unfolding consenter_override consenter_common consenter_base
consenter-effective g c none = (refl, refl)
consenter-effective g c (some s) = (refl, refl)

batcher-effective :
    (g : OrdererGroup) (c : BatcherInstance) (common : Option CommonComponentConfig)
    → let spec = batcher_override c (batcher_common common (batcher_base g c.shard_id)) in
      (batcher_pod spec ≡ effective c.common common)
      × (spec.enrollment ≡ or_else c.enrollment g.spec.enrollment)
unfolding batcher_override batcher_common batcher_base
batcher-effective g c none = (refl, refl)
batcher-effective g c (some s) = (refl, refl)

assembler-effective :
    (g : OrdererGroup) (c : ComponentConfig) (common : Option CommonComponentConfig)
    → let spec = assembler_override c (assembler_common common (assembler_base g)) in
      (assembler_pod spec ≡ effective c.common common)
      × (spec.enrollment ≡ or_else c.enrollment g.spec.enrollment)
unfolding assembler_override assembler_common assembler_base
assembler-effective g c none = (refl, refl)
assembler-effective g c (some s) = (refl, refl)

router-effective :
    (g : OrdererGroup) (c : ComponentConfig) (common : Option CommonComponentConfig)
    → let spec = router_override c (router_common common (router_base g)) in
      (router_pod spec ≡ effective c.common common)
      × (spec.enrollment ≡ or_else c.enrollment g.spec.enrollment)
unfolding router_override router_common router_base
router-effective g c none = (refl, refl)
router-effective g c (some s) = (refl, refl)

-- Consenter, batcher, assembler and router get their settings by the same rule: each pod setting is
-- the component's own if it is given, else the common one of the group, and nothing else; the
-- enrollment is the component's own if it is given, else that of the group.
pub build_specs-effective :
    (g : OrdererGroup) (c : ConsenterInstance) (b : BatcherInstance) (a r : ComponentConfig)
    → ((consenter_pod (build_consenter_spec g c) ≡ effective c.common g.spec.common)
        × ((build_consenter_spec g c).enrollment ≡ or_else c.enrollment g.spec.enrollment))
      × ((batcher_pod (build_batcher_spec g b) ≡ effective b.common g.spec.common)
          × ((build_batcher_spec g b).enrollment ≡ or_else b.enrollment g.spec.enrollment))
      × ((assembler_pod (build_assembler_spec g a) ≡ effective a.common g.spec.common)
          × ((build_assembler_spec g a).enrollment ≡ or_else a.enrollment g.spec.enrollment))
      × ((router_pod (build_router_spec g r) ≡ effective r.common g.spec.common)
          × ((build_router_spec g r).enrollment ≡ or_else r.enrollment g.spec.enrollment))
unfolding build_consenter_spec build_batcher_spec build_assembler_spec build_router_spec
build_specs-effective g c b a r = (
  consenter-effective g c g.spec.common,
  batcher-effective g b g.spec.common,
  assembler-effective g a g.spec.common,
  router-effective g r g.spec.common,
)
