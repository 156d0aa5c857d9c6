-- ===== src/OrdererGroup/Env.antt =====
-- The children of an OrdererGroup, and what the reconciler calls, each call answered from the
-- history of the calls before it.
use fabric_x_operator.Prelude.{List}
use fabric_x_operator.Go.{Outcome}
use fabric_x_operator.Kube.{Time, ObjectMeta, NamespacedName}
use fabric_x_operator.Api.Orderer.{
  OrdererGroup, OrdererConsenterSpec, OrdererAssemblerSpec, OrdererRouterSpec, OrdererBatcherSpec,
}

-- The resources OrdererConsenter, OrdererAssembler, OrdererRouter and OrdererBatcher.
pub data ChildKind : Type 0 where
  consenter assembler router batcher : ChildKind

abbrev pub SpecOf : ChildKind → Type 0
SpecOf consenter = OrdererConsenterSpec
SpecOf assembler = OrdererAssemblerSpec
SpecOf router = OrdererRouterSpec
SpecOf batcher = OrdererBatcherSpec

-- A resource of a kind, without its status.
pub record Child (k : ChildKind) : Type 0 where
  pub meta : ObjectMeta
  pub spec : SpecOf k

pub data Event : Type 0 where
  got_group : NamespacedName → Outcome OrdererGroup → Event
  updated_group : OrdererGroup → Outcome OrdererGroup → Event
  updated_status : OrdererGroup → Outcome OrdererGroup → Event
  got_child : (k : ChildKind) → NamespacedName → Outcome (Child k) → Event
  created_child : (k : ChildKind) → Child k → Outcome (Child k) → Event
  updated_child : (k : ChildKind) → Child k → Outcome (Child k) → Event
  deleted_child : ChildKind → NamespacedName → Outcome (Unit {0}) → Event
  read_clock : Time → Event

pub record Env : Type 0 where
  pub get_group : NamespacedName → List Event → Outcome OrdererGroup
  pub update_group : OrdererGroup → List Event → Outcome OrdererGroup
  pub update_status : OrdererGroup → List Event → Outcome OrdererGroup
  pub get_child : (k : ChildKind) → NamespacedName → List Event → Outcome (Child k)
  pub create_child : (k : ChildKind) → Child k → List Event → Outcome (Child k)
  pub update_child : (k : ChildKind) → Child k → List Event → Outcome (Child k)
  pub delete_child : ChildKind → NamespacedName → List Event → Outcome (Unit {0})
  pub now : List Event → Time
