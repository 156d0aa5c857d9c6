-- ===== src/Api/Committer.antt =====
-- The Committer resource (api/v1alpha1/committer_types.go) and the specs of its children
-- (committercoordinator_types.go, committersidecar_types.go, committervalidator_types.go,
-- committerverifier_types.go and committerqueryservice_types.go there).
use fabric_x_operator.Api.Component.{
  ComponentConfig, ComponentStatus, EnrollmentConfig, GenesisConfig, IngressConfig,
  PostgreSqlConfig, SansConfig,
}
use fabric_x_operator.Api.Nil.{Json, MapOrNil, Slice}
use fabric_x_operator.Api.Pod.{
  Affinity, CommonComponentConfig, ImagePullSecret, SecurityContext, StorageConfig, Toleration,
  Volume, VolumeMount,
}
use fabric_x_operator.Go.{ℤ}
use fabric_x_operator.Kube.{ObjectMeta}
use fabric_x_operator.Prelude.{Option, String}
use fabric_x_operator.Utils.Conditions.{Condition}

-- `ValidatorComponentConfig`
pub record ValidatorComponentConfig : Type 0 where
  pub common : CommonComponentConfig
  pub ingress : Option IngressConfig
  pub enrollment : Option EnrollmentConfig
  pub sans : Option SansConfig
  pub endpoints : Slice String
  pub env : Slice Json
  pub command : Slice String
  pub args : Slice String
  pub postgresql : Option PostgreSqlConfig

-- `CommitterComponents`
pub record CommitterComponents : Type 0 where
  pub sidecar : Option ComponentConfig
  pub coordinator : Option ComponentConfig
  pub verifier_service : Option ComponentConfig
  pub validator : Option ValidatorComponentConfig
  pub query_service : Option ComponentConfig
  pub orderer_endpoints : Slice String
  pub committer_host : String
  pub committer_port : ℤ
  pub coordinator_verifier_endpoints : Slice String
  pub coordinator_validator_committer_endpoints : Slice String

-- `CommitterSpec`
pub record CommitterSpec : Type 0 where
  pub bootstrap_mode : String
  pub msp_id : String
  pub image : String
  pub image_tag : String
  pub common : Option CommonComponentConfig
  pub genesis : GenesisConfig
  pub components : CommitterComponents
  pub enrollment : Option EnrollmentConfig

-- `CommitterStatus`
pub record CommitterStatus : Type 0 where
  pub status : String
  pub message : String
  pub conditions : Slice Condition
  pub component_statuses : MapOrNil ComponentStatus
  pub phase : String

-- `Committer`
pub record Committer : Type 0 where
  pub api_version : String
  pub kind : String
  pub meta : ObjectMeta
  pub spec : CommitterSpec
  pub status : CommitterStatus

-- `CommitterCoordinatorSpec`
pub record CommitterCoordinatorSpec : Type 0 where
  pub bootstrap_mode : String
  pub msp_id : String
  pub party_id : ℤ
  pub image : String
  pub image_tag : String
  pub replicas : ℤ
  pub storage : Option StorageConfig
  pub resources : Option Json
  pub security_context : Option SecurityContext
  pub pod_annotations : MapOrNil String
  pub pod_labels : MapOrNil String
  pub volumes : Slice Volume
  pub affinity : Option Affinity
  pub volume_mounts : Slice VolumeMount
  pub image_pull_secrets : Slice ImagePullSecret
  pub tolerations : Slice Toleration
  pub ingress : Option IngressConfig
  pub enrollment : Option EnrollmentConfig
  pub sans : Option SansConfig
  pub endpoints : Slice String
  pub verifier_endpoints : Slice String
  pub validator_committer_endpoints : Slice String
  pub env : Slice Json
  pub command : Slice String
  pub args : Slice String

-- `CommitterSidecarSpec`
pub record CommitterSidecarSpec : Type 0 where
  pub bootstrap_mode : String
  pub msp_id : String
  pub party_id : ℤ
  pub image : String
  pub image_tag : String
  pub genesis : GenesisConfig
  pub replicas : ℤ
  pub storage : Option StorageConfig
  pub resources : Option Json
  pub security_context : Option SecurityContext
  pub pod_annotations : MapOrNil String
  pub pod_labels : MapOrNil String
  pub volumes : Slice Volume
  pub affinity : Option Affinity
  pub volume_mounts : Slice VolumeMount
  pub image_pull_secrets : Slice ImagePullSecret
  pub tolerations : Slice Toleration
  pub ingress : Option IngressConfig
  pub enrollment : Option EnrollmentConfig
  pub sans : Option SansConfig
  pub endpoints : Slice String
  pub orderer_endpoints : Slice String
  pub committer_host : String
  pub committer_port : ℤ
  pub env : Slice Json
  pub command : Slice String
  pub args : Slice String

-- `CommitterValidatorSpec`
pub record CommitterValidatorSpec : Type 0 where
  pub bootstrap_mode : String
  pub msp_id : String
  pub party_id : ℤ
  pub image : String
  pub image_tag : String
  pub replicas : ℤ
  pub storage : Option StorageConfig
  pub resources : Option Json
  pub security_context : Option SecurityContext
  pub pod_annotations : MapOrNil String
  pub pod_labels : MapOrNil String
  pub volumes : Slice Volume
  pub affinity : Option Affinity
  pub volume_mounts : Slice VolumeMount
  pub image_pull_secrets : Slice ImagePullSecret
  pub tolerations : Slice Toleration
  pub ingress : Option IngressConfig
  pub enrollment : Option EnrollmentConfig
  pub sans : Option SansConfig
  pub endpoints : Slice String
  pub env : Slice Json
  pub command : Slice String
  pub args : Slice String
  pub postgresql : Option PostgreSqlConfig

-- `CommitterVerifierSpec`
pub record CommitterVerifierSpec : Type 0 where
  pub bootstrap_mode : String
  pub msp_id : String
  pub party_id : ℤ
  pub image : String
  pub image_tag : String
  pub replicas : ℤ
  pub storage : Option StorageConfig
  pub resources : Option Json
  pub security_context : Option SecurityContext
  pub pod_annotations : MapOrNil String
  pub pod_labels : MapOrNil String
  pub volumes : Slice Volume
  pub affinity : Option Affinity
  pub volume_mounts : Slice VolumeMount
  pub image_pull_secrets : Slice ImagePullSecret
  pub tolerations : Slice Toleration
  pub ingress : Option IngressConfig
  pub enrollment : Option EnrollmentConfig
  pub sans : Option SansConfig
  pub endpoints : Slice String
  pub env : Slice Json
  pub command : Slice String
  pub args : Slice String

-- `CommitterQueryServiceSpec`
pub record CommitterQueryServiceSpec : Type 0 where
  pub bootstrap_mode : String
  pub msp_id : String
  pub party_id : ℤ
  pub image : String
  pub image_tag : String
  pub replicas : ℤ
  pub storage : Option StorageConfig
  pub resources : Option Json
  pub security_context : Option SecurityContext
  pub pod_annotations : MapOrNil String
  pub pod_labels : MapOrNil String
  pub volumes : Slice Volume
  pub affinity : Option Affinity
  pub volume_mounts : Slice VolumeMount
  pub image_pull_secrets : Slice ImagePullSecret
  pub tolerations : Slice Toleration
  pub ingress : Option IngressConfig
  pub enrollment : Option EnrollmentConfig
  pub sans : Option SansConfig
  pub endpoints : Slice String
  pub env : Slice Json
  pub command : Slice String
  pub args : Slice String
  pub postgresql : Option PostgreSqlConfig
