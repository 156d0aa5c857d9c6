-- ===== src/Committer/Examples.antt =====
-- Runs of the Committer reconciler in a small cluster, and the theorems there.
use Prim.Native.String.{◌++◌}
use fabric_x_operator.Prelude.{
  String, ◌≡◌, refl, Bool, true, false, none, some, List, [], ◌∷◌, if◌then◌else◌,
}
use fabric_x_operator.Go.{GoError, Reason, Outcome, ok, err, pos, is_not_found}
use fabric_x_operator.Go.Act.{pure, call, check, invoke}
use fabric_x_operator.Kube.{NamespacedName, new_meta}
use fabric_x_operator.Utils.Finalizers.{contains_string, remove_string}
use fabric_x_operator.Api.Nil.{or_else}
use fabric_x_operator.Api.Component.{ComponentConfig}
use fabric_x_operator.Api.Committer.{Committer}
use fabric_x_operator.OrdererGroup.Specs.Settings.{no_settings}
use fabric_x_operator.Committer.Env.{
  Env, Event, validator, sidecar, created_child, updated_child, deleted_child, updated_committer,
  updated_status,
}
use fabric_x_operator.Committer.Children.{
  build_spec, apply_child, reconcile_child_crds, cleanup_child, cleanup_child_crds,
}
use fabric_x_operator.Committer.Reconcile.{
  finalizer, monitor, with_status, update_status, update_committer, ensure_finalizer,
  remove_finalizer, reconcile_committer, init_status, reconcile_live, handle_deletion, reconcile,
}
use fabric_x_operator.Committer.Rollout.{Truthful, EndsRunning, reconcile-Monitored}
use fabric_x_operator.Committer.Deletion.{Emptied, reconcile-Emptied}
use fabric_x_operator.Committer.Progress.{Willing, accepted, reconcile-EndsRunning}
use fabric_x_operator.Committer.Settings.{
  pod_of, enrollment_of, given, own_enrollment, build_spec-given,
}
use fabric_x_operator.Committer.Ignored.{with_own, build_spec-with_own}

abbrev key : NamespacedName
key = record { name = "peers"; namespace = "org1" }

-- A component that asks for three replicas.
abbrev component : ComponentConfig
component = record {
  common = record no_settings { replicas = pos 3 };
  ingress = none;
  enrollment = none;
  sans = none;
  endpoints = some ("orderer:7050" ∷ []);
  env = none;
  command = none;
  args = none;
  postgresql = none;
}

abbrev committer : Bool → Committer
committer deleted = record {
  api_version = "fabricx.kfsoft.tech/v1alpha1";
  kind = "Committer";
  meta = record (new_meta "peers" "org1" []) {
    finalizers = if deleted then finalizer ∷ [] else [];
    deleted = deleted;
  };
  spec = record {
    bootstrap_mode = "deploy";
    msp_id = "Org1MSP";
    image = "";
    image_tag = "";
    common = none;
    genesis = record { secret_name = "genesis"; secret_key = "block"; secret_namespace = "org1" };
    components = record {
      sidecar = some component;
      coordinator = some component;
      verifier_service = none;
      validator = none;
      query_service = none;
      orderer_endpoints = none;
      committer_host = "";
      committer_port = pos 0;
      coordinator_verifier_endpoints = none;
      coordinator_validator_committer_endpoints = none;
    };
    enrollment = none;
  };
  status = record {
    status = "";
    message = "";
    conditions = none;
    component_statuses = none;
    phase = "";
  };
}

abbrev not_there : GoError
not_there = record { reason = Reason.not_found; text = "not found" }

-- A cluster with the committer and none of its children, where no status can be written.
abbrev env : Bool → Env
env deleted = record {
  get_committer = λ k h. ok (committer deleted);
  update_committer = λ c h. ok c;
  update_status = λ c h. err not_there;
  get_child = λ k name h. err not_there;
  create_child = λ k c h. ok c;
  update_child = λ k c h. ok c;
  delete_child = λ k c h. ok tt;
  now = λ h. 100;
}

abbrev writes : List Event → List String
writes [] = []
writes (created_child k c r ∷ h) = ("create " ++ c.meta.name) ∷ writes h
writes (updated_child k c r ∷ h) = ("update " ++ c.meta.name) ∷ writes h
writes (deleted_child k c r ∷ h) = ("delete " ++ c.meta.name) ∷ writes h
writes (updated_status c r ∷ h) = c.status.status ∷ writes h
writes (updated_committer c r ∷ h) =
    (if contains_string c.meta.finalizers finalizer then "hold" else "free") ∷ writes h
writes (_ ∷ h) = writes h

runs :
    (writes (reconcile (env false) key []).1
      ≡ "RUNNING" ∷ "create peers-query-service" ∷ "create peers-verifier"
        ∷ "create peers-validator" ∷ "create peers-sidecar" ∷ "create peers-coordinator" ∷ "hold"
        ∷ "PENDING" ∷ [])
    × (writes (reconcile (env true) key []).1 ≡ "free" ∷ "PENDING" ∷ [])
unfolding reconcile handle_deletion reconcile_live init_status ensure_finalizer remove_finalizer
    reconcile_committer update_status update_committer with_status reconcile_child_crds
    cleanup_child_crds apply_child cleanup_child contains_string remove_string pure call check
    invoke
runs = (refl, refl)

reconcile-Monitored_example :
    Truthful (reconcile (env false) key []).1
    × ((reconcile (env false) key []).0 ≡ ok monitor → EndsRunning (reconcile (env false) key []).1)
reconcile-Monitored_example = reconcile-Monitored (env false) key [] tt

reconcile-Emptied_example : Emptied (reconcile (env true) key []).1
reconcile-Emptied_example = reconcile-Emptied (env true) key [] tt

env-Willing : Willing (env false)
env-Willing = record {
  updates_committer = λ c h. accepted c;
  creates = λ k c h. accepted c;
  updates = λ k c h. accepted c;
  reads = λ k name h e x. refused x;
}
  where
    refused :
        {T : Type 0} {e : GoError}
        → ◌≡◌ {A = Outcome T} (err not_there) (err e)
        → is_not_found e ≡ true
    refused x = cc

reconcile-EndsRunning_example :
    ((reconcile (env false) key []).0 ≡ ok monitor) × EndsRunning (reconcile (env false) key []).1
reconcile-EndsRunning_example =
    reconcile-EndsRunning (env false) key (committer false) [] env-Willing refl refl tt

build_spec-given_example :
    (pod_of validator (build_spec validator (committer false)) ≡ given none)
    × (enrollment_of validator (build_spec validator (committer false))
        ≡ or_else (own_enrollment validator (committer false).spec.components) none)
build_spec-given_example = build_spec-given (committer false) validator

-- Three replicas that the sidecar asks for, and none.
build_spec-with_own_example :
    build_spec sidecar (with_own (λ _. no_settings) (committer false))
    ≡ build_spec sidecar (committer false)
build_spec-with_own_example = build_spec-with_own (λ _. no_settings) (committer false) sidecar
