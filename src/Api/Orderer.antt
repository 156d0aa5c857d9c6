-- ===== src/Api/Orderer.antt =====
-- The OrdererGroup resource (api/v1alpha1/orderergroup_types.go) and the specs of its children
-- (ordererconsenter_types.go, ordererassembler_types.go, ordererrouter_types.go and
-- ordererbatcher_types.go there).
use fabric_x_operator.Api.Component.{
  ComponentConfig, ComponentStatus, EnrollmentConfig, GenesisConfig, IngressConfig, SansConfig,
  TlsConfig,
}
use fabric_x_operator.Api.Nil.{Json, MapOrNil, Slice}
use fabric_x_operator.Api.Pod.{
  Affinity, CommonComponentConfig, ImagePullSecret, SecurityContext, StorageConfig, Toleration,
  Volume, VolumeMount,
}
use fabric_x_operator.Go.{ℤ}
use fabric_x_operator.Kube.{ObjectMeta, Time}
use fabric_x_operator.Prelude.{Bool, Option, String}
use fabric_x_operator.Utils.Conditions.{Condition}

-- `ConsenterInstance`
pub record ConsenterInstance : Type 0 where
  pub common : CommonComponentConfig
  pub consenter_id : ℤ
  pub ingress : Option IngressConfig
  pub enrollment : Option EnrollmentConfig
  pub sans : Option SansConfig
  pub endpoints : Slice String
  pub env : Slice Json
  pub command : Slice String
  pub args : Slice String

-- `BatcherInstance`
pub record BatcherInstance : Type 0 where
  pub common : CommonComponentConfig
  pub shard_id : ℤ
  pub ingress : Option IngressConfig
  pub enrollment : Option EnrollmentConfig
  pub sans : Option SansConfig
  pub endpoints : Slice String
  pub env : Slice Json
  pub command : Slice String
  pub args : Slice String

-- `OrdererComponents`
pub record OrdererComponents : Type 0 where
  pub consenter : Option ConsenterInstance
  pub batchers : Slice BatcherInstance
  pub assembler : Option ComponentConfig
  pub router : Option ComponentConfig

-- `OrdererGroupSpec`
pub record OrdererGroupSpec : Type 0 where
  pub bootstrap_mode : String
  pub msp_id : String
  pub party_id : ℤ
  pub image : String
  pub image_tag : String
  pub common : Option CommonComponentConfig
  pub genesis : GenesisConfig
  pub components : OrdererComponents
  pub enrollment : Option EnrollmentConfig
  pub manage_child_crds : Option Bool

-- `ChildCRDStatus`
pub record ChildCrdStatus : Type 0 where
  pub name : String
  pub status : String
  pub message : String
  pub last_update_time : Time

-- `ChildCRDStatuses`
pub record ChildCrdStatuses : Type 0 where
  pub consenter : Option ChildCrdStatus
  pub assembler : Option ChildCrdStatus
  pub router : Option ChildCrdStatus
  pub batchers : Slice ChildCrdStatus

-- `OrdererGroupStatus`
pub record OrdererGroupStatus : Type 0 where
  pub status : String
  pub message : String
  pub conditions : Slice Condition
  pub component_statuses : MapOrNil ComponentStatus
  pub phase : String
  pub child_crd_statuses : Option ChildCrdStatuses

-- `OrdererGroup`
pub record OrdererGroup : Type 0 where
  pub api_version : String
  pub kind : String
  pub meta : ObjectMeta
  pub spec : OrdererGroupSpec
  pub status : OrdererGroupStatus

-- `OrdererConsenterSpec`
pub record OrdererConsenterSpec : Type 0 where
  pub bootstrap_mode : String
  pub msp_id : String
  pub party_id : ℤ
  pub consenter_id : ℤ
  pub image : String
  pub image_tag : String
  pub genesis : GenesisConfig
  pub replicas : ℤ
  pub storage : Option StorageConfig
  pub storage_class_name : String
  pub pvc_access_modes : Slice String
  pub pvc_storage_size : String
  pub resources : Option Json
  pub security_context : Option SecurityContext
  pub pod_annotations : MapOrNil String
  pub pod_labels : MapOrNil String
  pub volumes : Slice Volume
  pub affinity : Option Affinity
  pub volume_mounts : Slice VolumeMount
  pub image_pull_secrets : Slice ImagePullSecret
  pub tolerations : Slice Toleration
  pub ingress : Option IngressConfig
  pub enrollment : Option EnrollmentConfig
  pub sans : Option SansConfig
  pub endpoints : Slice String
  pub env : Slice Json
  pub command : Slice String
  pub args : Slice String

-- `OrdererAssemblerSpec`
pub record OrdererAssemblerSpec : Type 0 where
  pub bootstrap_mode : String
  pub msp_id : String
  pub party_id : ℤ
  pub image : String
  pub image_tag : String
  pub genesis : GenesisConfig
  pub replicas : ℤ
  pub storage : Option StorageConfig
  pub resources : Option Json
  pub security_context : Option SecurityContext
  pub pod_annotations : MapOrNil String
  pub pod_labels : MapOrNil String
  pub volumes : Slice Volume
  pub affinity : Option Affinity
  pub volume_mounts : Slice VolumeMount
  pub image_pull_secrets : Slice ImagePullSecret
  pub tolerations : Slice Toleration
  pub ingress : Option IngressConfig
  pub enrollment : Option EnrollmentConfig
  pub sans : Option SansConfig
  pub endpoints : Slice String
  pub env : Slice Json
  pub command : Slice String
  pub args : Slice String
  pub tls : Option TlsConfig

-- `OrdererRouterSpec`
pub record OrdererRouterSpec : Type 0 where
  pub bootstrap_mode : String
  pub msp_id : String
  pub party_id : ℤ
  pub image : String
  pub image_tag : String
  pub genesis : GenesisConfig
  pub replicas : ℤ
  pub storage : Option StorageConfig
  pub resources : Option Json
  pub security_context : Option SecurityContext
  pub pod_annotations : MapOrNil String
  pub pod_labels : MapOrNil String
  pub volumes : Slice Volume
  pub affinity : Option Affinity
  pub volume_mounts : Slice VolumeMount
  pub image_pull_secrets : Slice ImagePullSecret
  pub tolerations : Slice Toleration
  pub ingress : Option IngressConfig
  pub enrollment : Option EnrollmentConfig
  pub sans : Option SansConfig
  pub endpoints : Slice String
  pub env : Slice Json
  pub command : Slice String
  pub args : Slice String
  pub tls : Option TlsConfig

-- `OrdererBatcherSpec`
pub record OrdererBatcherSpec : Type 0 where
  pub bootstrap_mode : String
  pub msp_id : String
  pub party_id : ℤ
  pub shard_id : ℤ
  pub image : String
  pub image_tag : String
  pub genesis : GenesisConfig
  pub replicas : ℤ
  pub storage : Option StorageConfig
  pub storage_class_name : String
  pub pvc_access_modes : Slice String
  pub pvc_storage_size : String
  pub resources : Option Json
  pub security_context : Option SecurityContext
  pub pod_annotations : MapOrNil String
  pub pod_labels : MapOrNil String
  pub volumes : Slice Volume
  pub affinity : Option Affinity
  pub volume_mounts : Slice VolumeMount
  pub image_pull_secrets : Slice ImagePullSecret
  pub tolerations : Slice Toleration
  pub ingress : Option IngressConfig
  pub enrollment : Option EnrollmentConfig
  pub sans : Option SansConfig
  pub endpoints : Slice String
  pub env : Slice Json
  pub command : Slice String
  pub args : Slice String
