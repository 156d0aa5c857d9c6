-- ===== src/Api/Pod.antt =====
-- The pod settings that every component shares (api/v1alpha1/orderergroup_types.go).
use fabric_x_operator.Api.Nil.{Json, MapOrNil, Slice}
use fabric_x_operator.Go.{ℤ}
use fabric_x_operator.Prelude.{Bool, Option, String}

-- `StorageConfig`
pub record StorageConfig : Type 0 where
  pub pvc_name : String
  pub storage_class : String
  pub size : String
  pub access_mode : String

-- `SecurityContext`
pub record SecurityContext : Type 0 where
  pub run_as_user : Option ℤ
  pub run_as_group : Option ℤ
  pub read_only_root_filesystem : Option Bool

-- `EmptyDirVolumeSource`
pub record EmptyDirVolumeSource : Type 0 where
  pub medium : String
  pub size_limit : String

-- `KeyToPath`
pub record KeyToPath : Type 0 where
  pub key : String
  pub path : String
  pub mode : Option ℤ

-- `ConfigMapVolumeSource`
pub record ConfigMapVolumeSource : Type 0 where
  pub name : String
  pub items : Slice KeyToPath
  pub default_mode : Option ℤ

-- `SecretVolumeSource`
pub record SecretVolumeSource : Type 0 where
  pub secret_name : String
  pub items : Slice KeyToPath
  pub default_mode : Option ℤ

-- `PersistentVolumeClaimVolumeSource`
pub record PersistentVolumeClaimVolumeSource : Type 0 where
  pub claim_name : String
  pub read_only : Bool

-- `HostPathVolumeSource`
pub record HostPathVolumeSource : Type 0 where
  pub path : String
  pub type : String

-- `VolumeSource`
pub record VolumeSource : Type 0 where
  pub empty_dir : Option EmptyDirVolumeSource
  pub config_map : Option ConfigMapVolumeSource
  pub secret : Option SecretVolumeSource
  pub persistent_volume_claim : Option PersistentVolumeClaimVolumeSource
  pub host_path : Option HostPathVolumeSource

-- `Volume`
pub record Volume : Type 0 where
  pub name : String
  pub volume_source : VolumeSource

-- `NodeSelectorRequirement`
pub record NodeSelectorRequirement : Type 0 where
  pub key : String
  pub operator : String
  pub values : Slice String

-- `NodeSelectorTerm`
pub record NodeSelectorTerm : Type 0 where
  pub match_expressions : Slice NodeSelectorRequirement
  pub match_fields : Slice NodeSelectorRequirement

-- `NodeSelector`
pub record NodeSelector : Type 0 where
  pub node_selector_terms : Slice NodeSelectorTerm

-- `PreferredSchedulingTerm`
pub record PreferredSchedulingTerm : Type 0 where
  pub weight : ℤ
  pub preference : NodeSelectorTerm

-- `NodeAffinity`
pub record NodeAffinity : Type 0 where
  pub required_during_scheduling_ignored_during_execution : Option NodeSelector
  pub preferred_during_scheduling_ignored_during_execution : Slice PreferredSchedulingTerm

-- `LabelSelectorRequirement`
pub record LabelSelectorRequirement : Type 0 where
  pub key : String
  pub operator : String
  pub values : Slice String

-- `LabelSelector`
pub record LabelSelector : Type 0 where
  pub match_labels : MapOrNil String
  pub match_expressions : Slice LabelSelectorRequirement

-- `PodAffinityTerm`
pub record PodAffinityTerm : Type 0 where
  pub label_selector : Option LabelSelector
  pub namespaces : Slice String
  pub topology_key : String

-- `WeightedPodAffinityTerm`
pub record WeightedPodAffinityTerm : Type 0 where
  pub weight : ℤ
  pub pod_affinity_term : PodAffinityTerm

-- `PodAffinity`
pub record PodAffinity : Type 0 where
  pub required_during_scheduling_ignored_during_execution : Slice PodAffinityTerm
  pub preferred_during_scheduling_ignored_during_execution : Slice WeightedPodAffinityTerm

-- `PodAntiAffinity`
pub record PodAntiAffinity : Type 0 where
  pub required_during_scheduling_ignored_during_execution : Slice PodAffinityTerm
  pub preferred_during_scheduling_ignored_during_execution : Slice WeightedPodAffinityTerm

-- `Affinity`
pub record Affinity : Type 0 where
  pub node_affinity : Option NodeAffinity
  pub pod_affinity : Option PodAffinity
  pub pod_anti_affinity : Option PodAntiAffinity

-- `VolumeMount`
pub record VolumeMount : Type 0 where
  pub mount_path : String
  pub name : String
  pub read_only : Bool
  pub sub_path : String

-- `ImagePullSecret`
pub record ImagePullSecret : Type 0 where
  pub name : String

-- `Toleration`
pub record Toleration : Type 0 where
  pub key : String
  pub operator : String
  pub value : String
  pub effect : String
  pub toleration_seconds : Option ℤ

-- `CommonComponentConfig`
pub record CommonComponentConfig : Type 0 where
  pub replicas : ℤ
  pub storage : Option StorageConfig
  pub resources : Option Json
  pub security_context : Option SecurityContext
  pub pod_annotations : MapOrNil String
  pub pod_labels : MapOrNil String
  pub volumes : Slice Volume
  pub affinity : Option Affinity
  pub volume_mounts : Slice VolumeMount
  pub image_pull_secrets : Slice ImagePullSecret
  pub tolerations : Slice Toleration
