-- ===== src/OrdererGroup/Examples.antt =====
-- Runs of the OrdererGroup reconciler in a small cluster, and the theorems there.
use Prim.Native.String.{◌++◌}
use fabric_x_operator.Prelude.{
  String, ◌≡◌, refl, Bool, true, false, none, some, List, [], ◌∷◌, if◌then◌else◌,
}
use fabric_x_operator.Go.{GoError, Reason, ok, err, pos}
use fabric_x_operator.Go.Act.{pure, call, check, invoke, when_set}
use fabric_x_operator.Go.Decimal.{decimal}
use fabric_x_operator.Kube.{NamespacedName, new_meta}
use fabric_x_operator.Utils.Conditions.{find_condition}
use fabric_x_operator.Utils.Finalizers.{contains_string, remove_string}
use fabric_x_operator.Api.Nil.{or_else, elements}
use fabric_x_operator.Api.Component.{ComponentConfig}
use fabric_x_operator.Api.Orderer.{OrdererGroup, ConsenterInstance, BatcherInstance}
use fabric_x_operator.OrdererGroup.Specs.Consenter.{build_consenter_spec}
use fabric_x_operator.OrdererGroup.Specs.Batcher.{build_batcher_spec}
use fabric_x_operator.OrdererGroup.Specs.Assembler.{build_assembler_spec}
use fabric_x_operator.OrdererGroup.Specs.Router.{build_router_spec}
use fabric_x_operator.OrdererGroup.Specs.Settings.{
  no_settings, effective, consenter_pod, batcher_pod, assembler_pod, router_pod,
  build_specs-effective,
}
use fabric_x_operator.OrdererGroup.Env.{
  Env, Event, created_child, updated_child, deleted_child, updated_group, updated_status,
}
use fabric_x_operator.OrdererGroup.Status.{with_status, update_status}
use fabric_x_operator.OrdererGroup.Conditions.{kept_time, with_status-kept_time}
use fabric_x_operator.OrdererGroup.Children.{
  cleanup_child_crds, cleanup_consenter_crds, cleanup_assembler_crd, cleanup_batcher_crds,
  delete_child, reconcile_child_crds, reconcile_consenter_crds, reconcile_assembler_crd,
  reconcile_batcher_crds, apply_child, child_meta,
}
use fabric_x_operator.OrdererGroup.Reconcile.{
  finalizer, reconcile, handle_deletion, reconcile_live, init_status, ensure_finalizer,
  reconcile_orderer_group, reconcile_children, remove_finalizer, update_group, cleanup_children,
}
use fabric_x_operator.OrdererGroup.Rollout.{Accurate, reconcile-Accurate}
use fabric_x_operator.OrdererGroup.Cleanup.{AllAsked, cleanup_child_crds_lem}
use fabric_x_operator.OrdererGroup.Deletion.{CleanedFirst, reconcile-CleanedFirst}

abbrev key : NamespacedName
key = record { name = "orderers"; namespace = "org1" }

abbrev component : ComponentConfig
component = record {
  common = no_settings;
  ingress = none;
  enrollment = none;
  sans = none;
  endpoints = none;
  env = none;
  command = none;
  args = none;
  postgresql = none;
}

abbrev consenter_instance : ConsenterInstance
consenter_instance = record {
  common = no_settings;
  consenter_id = pos 1;
  ingress = none;
  enrollment = none;
  sans = none;
  endpoints = none;
  env = none;
  command = none;
  args = none;
}

abbrev batcher_instance : BatcherInstance
batcher_instance = record {
  common = record no_settings { replicas = pos 3 };
  shard_id = pos 1;
  ingress = none;
  enrollment = none;
  sans = none;
  endpoints = none;
  env = none;
  command = none;
  args = none;
}

abbrev group : Bool → OrdererGroup
group deleted = record {
  api_version = "fabricx.kfsoft.tech/v1alpha1";
  kind = "OrdererGroup";
  meta = record (new_meta "orderers" "org1" []) {
    finalizers = if deleted then finalizer ∷ [] else [];
    deleted = deleted;
  };
  spec = record {
    bootstrap_mode = "";
    msp_id = "Org1MSP";
    party_id = pos 1;
    image = "";
    image_tag = "";
    common = some (record no_settings { replicas = pos 2 });
    genesis = record { secret_name = "genesis"; secret_key = "block"; secret_namespace = "org1" };
    components = record {
      consenter = some consenter_instance;
      batchers = some (batcher_instance ∷ batcher_instance ∷ []);
      assembler = some component;
      router = none;
    };
    enrollment = none;
    manage_child_crds = none;
  };
  status = record {
    status = "";
    message = "";
    conditions = none;
    component_statuses = none;
    phase = "";
    child_crd_statuses = none;
  };
}

abbrev not_there : GoError
not_there = record { reason = Reason.not_found; text = "not found" }

-- A cluster with the group, with no child, and where each deletion fails.
abbrev env : Bool → Env
env deleted = record {
  get_group = λ k h. ok (group deleted);
  update_group = λ g h. ok g;
  update_status = λ g h. ok g;
  get_child = λ k name h. err not_there;
  create_child = λ k c h. ok c;
  update_child = λ k c h. ok c;
  delete_child = λ k name h. err not_there;
  now = λ h. 100;
}

abbrev writes : List Event → List String
writes [] = []
writes (created_child k c r ∷ h) = ("create " ++ c.meta.name) ∷ writes h
writes (updated_child k c r ∷ h) = ("update " ++ c.meta.name) ∷ writes h
writes (deleted_child k c r ∷ h) = ("delete " ++ c.name) ∷ writes h
writes (updated_status g r ∷ h) = g.status.status ∷ writes h
writes (updated_group g r ∷ h) =
    (if contains_string g.meta.finalizers finalizer then "hold" else "free") ∷ writes h
writes (_ ∷ h) = writes h

-- A first run, and a deletion: the finalizer goes though every deletion has failed, and the second
-- batcher is not looked at.
runs :
    (writes (reconcile (env false) key []).1
      ≡ "RUNNING" ∷ "create orderers-batcher-1" ∷ "create orderers-batcher-0"
        ∷ "create orderers-assembler" ∷ "create orderers-consenter" ∷ "hold" ∷ "PENDING" ∷ [])
    × (writes (reconcile (env true) key []).1
        ≡ "free" ∷ "delete orderers-batcher-0" ∷ "delete orderers-assembler"
          ∷ "delete orderers-consenter" ∷ "PENDING" ∷ [])
unfolding reconcile contains_string remove_string reconcile_child_crds reconcile_consenter_crds
    reconcile_assembler_crd reconcile_batcher_crds apply_child child_meta decimal cleanup_child_crds
    cleanup_consenter_crds cleanup_assembler_crd cleanup_batcher_crds delete_child update_status
    with_status pure call check invoke when_set handle_deletion reconcile_live init_status
    ensure_finalizer reconcile_orderer_group reconcile_children remove_finalizer update_group
    cleanup_children
runs = (refl, refl)

reconcile-Accurate_example : Accurate (reconcile (env false) key []).1
reconcile-Accurate_example = reconcile-Accurate (env false) key [] tt

reconcile-CleanedFirst_example : CleanedFirst (reconcile (env true) key []).1
reconcile-CleanedFirst_example = reconcile-CleanedFirst (env true) key [] tt

cleanup_child_crds_lem_example :
    AllAsked (group true) (cleanup_child_crds (env true) (group true) []).1
    × ((cleanup_child_crds (env true) (group true) []).0 ≡ ok tt)
cleanup_child_crds_lem_example = cleanup_child_crds_lem (env true) (group true) []

with_status-kept_time_example :
    (with_status (group false) 100 "FAILED" "no consenter").status.conditions
    ≡ some (
        record {
          type = "Ready";
          status = "True";
          observed_generation = 0;
          last_transition_time =
              kept_time 100 "FAILED"
                (find_condition "Ready" (elements (group false).status.conditions));
          reason = "Reconciled";
          message = "no consenter";
        }
        ∷ [])
with_status-kept_time_example = with_status-kept_time (group false) 100 "FAILED" "no consenter"

build_specs-effective_example :
    let g = group false in
    ((consenter_pod (build_consenter_spec g consenter_instance)
        ≡ effective no_settings g.spec.common)
      × ((build_consenter_spec g consenter_instance).enrollment ≡ or_else none g.spec.enrollment))
    × ((batcher_pod (build_batcher_spec g batcher_instance)
          ≡ effective batcher_instance.common g.spec.common)
        × ((build_batcher_spec g batcher_instance).enrollment ≡ or_else none g.spec.enrollment))
    × ((assembler_pod (build_assembler_spec g component) ≡ effective no_settings g.spec.common)
        × ((build_assembler_spec g component).enrollment ≡ or_else none g.spec.enrollment))
    × ((router_pod (build_router_spec g component) ≡ effective no_settings g.spec.common)
        × ((build_router_spec g component).enrollment ≡ or_else none g.spec.enrollment))
build_specs-effective_example =
    build_specs-effective (group false) consenter_instance batcher_instance component component
