-- ===== src/Committer/Env.antt =====
-- The children of a Committer, and what the reconciler calls, each call answered from the history of
-- the calls before it.
use fabric_x_operator.Prelude.{List}
use fabric_x_operator.Go.{Outcome}
use fabric_x_operator.Kube.{Time, ObjectMeta, NamespacedName}
use fabric_x_operator.Api.Committer.{
  Committer, CommitterCoordinatorSpec, CommitterSidecarSpec, CommitterValidatorSpec,
  CommitterVerifierSpec, CommitterQueryServiceSpec,
}

-- The resources CommitterCoordinator, CommitterSidecar, CommitterValidator, CommitterVerifier and
-- CommitterQueryService.
pub data ChildKind : Type 0 where
  coordinator sidecar validator verifier query_service : ChildKind

abbrev pub SpecOf : ChildKind → Type 0
SpecOf coordinator = CommitterCoordinatorSpec
SpecOf sidecar = CommitterSidecarSpec
SpecOf validator = CommitterValidatorSpec
SpecOf verifier = CommitterVerifierSpec
SpecOf query_service = CommitterQueryServiceSpec

-- A resource of a kind, without its status.
pub record Child (k : ChildKind) : Type 0 where
  pub meta : ObjectMeta
  pub spec : SpecOf k

pub data Event : Type 0 where
  got_committer : NamespacedName → Outcome Committer → Event
  updated_committer : Committer → Outcome Committer → Event
  updated_status : Committer → Outcome Committer → Event
  got_child : (k : ChildKind) → NamespacedName → Outcome (Child k) → Event
  created_child : (k : ChildKind) → Child k → Outcome (Child k) → Event
  updated_child : (k : ChildKind) → Child k → Outcome (Child k) → Event
  deleted_child : (k : ChildKind) → Child k → Outcome (Unit {0}) → Event
  read_clock : Time → Event

pub record Env : Type 0 where
  pub get_committer : NamespacedName → List Event → Outcome Committer
  pub update_committer : Committer → List Event → Outcome Committer
  pub update_status : Committer → List Event → Outcome Committer
  pub get_child : (k : ChildKind) → NamespacedName → List Event → Outcome (Child k)
  pub create_child : (k : ChildKind) → Child k → List Event → Outcome (Child k)
  pub update_child : (k : ChildKind) → Child k → List Event → Outcome (Child k)
  pub delete_child : (k : ChildKind) → Child k → List Event → Outcome (Unit {0})
  pub now : List Event → Time
