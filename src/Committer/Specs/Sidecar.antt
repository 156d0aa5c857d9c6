-- ===== src/Committer/Specs/Sidecar.antt =====
-- `buildSidecarSpec`.
use fabric_x_operator.Prelude.{Option, none, some, [], ◌∷◌, String}
use fabric_x_operator.Go.{pos}
use fabric_x_operator.Api.Nil.{Slice, or_default, or_else, or_nonzero}
use fabric_x_operator.Api.Pod.{CommonComponentConfig}
use fabric_x_operator.Api.Component.{ComponentConfig}
use fabric_x_operator.Api.Committer.{Committer, CommitterComponents, CommitterSidecarSpec}

-- The literal that the function starts from.
unfoldable pub sidecar_base : Committer → CommitterSidecarSpec
sidecar_base c = record {
  bootstrap_mode = c.spec.bootstrap_mode;
  msp_id = c.spec.msp_id;
  party_id = pos 1;
  image = or_default c.spec.image "hyperledger/fabric-x-committer";
  image_tag = or_default c.spec.image_tag "0.1.5";
  replicas = pos 1;
  storage = none;
  resources = none;
  security_context = none;
  pod_annotations = none;
  pod_labels = none;
  volumes = none;
  affinity = none;
  volume_mounts = none;
  image_pull_secrets = none;
  tolerations = none;
  ingress = none;
  enrollment = none;
  sans = none;
  endpoints = none;
  env = none;
  command = none;
  args = none;
  genesis = c.spec.genesis;
  orderer_endpoints = none;
  committer_host = "";
  committer_port = pos 0;
}

-- "Copy common configuration if available"
unfoldable pub sidecar_common :
    Option CommonComponentConfig → CommitterSidecarSpec → CommitterSidecarSpec
sidecar_common none s = s
sidecar_common (some c) s = record s {
  replicas = c.replicas;
  storage = c.storage;
  resources = c.resources;
  security_context = c.security_context;
  pod_annotations = c.pod_annotations;
  pod_labels = c.pod_labels;
  volumes = c.volumes;
  affinity = c.affinity;
  volume_mounts = c.volume_mounts;
  image_pull_secrets = c.image_pull_secrets;
  tolerations = c.tolerations;
}

-- "Copy component-specific configuration if available"
unfoldable pub sidecar_own : Option ComponentConfig → CommitterSidecarSpec → CommitterSidecarSpec
sidecar_own none s = s
sidecar_own (some own) s = record s {
  ingress = own.ingress;
  enrollment = own.enrollment;
  sans = own.sans;
  endpoints = own.endpoints;
  env = own.env;
  command = own.command;
  args = own.args;
}

-- `if len(endpoints) > 0 { spec.OrdererEndpoints = append([]string{}, endpoints...) }`
abbrev pub or_endpoints : Slice String → Slice String → Slice String
or_endpoints none old = old
or_endpoints (some []) old = old
or_endpoints (some (e ∷ es)) old = some (e ∷ es)

abbrev pub endpoints_of : Option ComponentConfig → Slice String
endpoints_of none = none
endpoints_of (some own) = own.endpoints

-- "Resolve orderer endpoints precedence", and the committer's host and port
unfoldable pub sidecar_peers : CommitterComponents → CommitterSidecarSpec → CommitterSidecarSpec
sidecar_peers parts s = record s {
  orderer_endpoints =
      or_endpoints (endpoints_of parts.sidecar)
        (or_endpoints parts.orderer_endpoints s.orderer_endpoints);
  committer_host = or_default parts.committer_host s.committer_host;
  committer_port = or_nonzero parts.committer_port s.committer_port;
}

unfoldable pub build_sidecar_spec : Committer → CommitterSidecarSpec
unfolding sidecar_base sidecar_common sidecar_own sidecar_peers
build_sidecar_spec c =
    let s =
      sidecar_peers c.spec.components
        (sidecar_own c.spec.components.sidecar (sidecar_common c.spec.common (sidecar_base c))) in
    record s { enrollment = or_else s.enrollment c.spec.enrollment }
