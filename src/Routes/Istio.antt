-- ===== src/Routes/Istio.antt =====
-- `ReconcileIstioVirtualService` and `ReconcileIstioDestinationRule`
-- (internal/controller/istio_helpers.go), which differ in the kind of the object and its spec.
use Prim.Native.String.{◌++◌}
use fabric_x_operator.Prelude.{
  String, Bool, false, Option, none, some, List, [], ◌∷◌, if◌then◌else◌,
}
use fabric_x_operator.Go.{ℤ, GoMap, Outcome, ok, err, wrap, is_not_found}
use fabric_x_operator.Go.Act.{Act, ◌>>=◌, pure, call, check}
use fabric_x_operator.Kube.{ObjectMeta, NamespacedName, ControllerUtil, new_meta}

-- Which of the two functions runs.
pub data IstioKind : Type 0 where
  virtual_service destination_rule : IstioKind

abbrev pub kind_name : IstioKind → String
kind_name virtual_service = "VirtualService"
kind_name destination_rule = "DestinationRule"

-- `IstioResourceConfig`
pub record IstioResourceConfig : Type 0 where
  pub name : String
  pub namespace : String
  pub hosts : List String
  pub service_name : String
  pub service_port : ℤ
  pub gateway : String
  pub enable_http2 : Bool
  pub labels : GoMap String
  pub owner : ObjectMeta

-- The spec of a VirtualService with one TLS route, to one destination.
pub record VirtualServiceSpec : Type 0 where
  pub hosts : List String
  pub gateways : List String
  pub sni_hosts : List String
  pub destination_host : String
  pub destination_port : ℤ

-- The HTTP settings of a connection pool.
pub record HttpSettings : Type 0 where
  pub h2_upgrade_policy : String
  pub use_client_protocol : Bool

-- The spec of a DestinationRule, and its traffic policy if there is one.
pub record DestinationRuleSpec : Type 0 where
  pub host : String
  pub traffic_policy : Option HttpSettings

abbrev pub SpecOf : IstioKind → Type 0
SpecOf virtual_service = VirtualServiceSpec
SpecOf destination_rule = DestinationRuleSpec

pub record Resource (k : IstioKind) : Type 0 where
  pub meta : ObjectMeta
  pub spec : SpecOf k

pub data IstioEvent : Type 0 where
  got : (k : IstioKind) → NamespacedName → Outcome (Resource k) → IstioEvent
  created : (k : IstioKind) → Resource k → Outcome (Resource k) → IstioEvent
  updated : (k : IstioKind) → Resource k → Outcome (Resource k) → IstioEvent

pub record IstioEnv : Type 0 where
  pub get : (k : IstioKind) → NamespacedName → List IstioEvent → Outcome (Resource k)
  pub create : (k : IstioKind) → Resource k → List IstioEvent → Outcome (Resource k)
  pub update : (k : IstioKind) → Resource k → List IstioEvent → Outcome (Resource k)
  pub util : ControllerUtil

-- The host name of the service.
abbrev pub service_host : IstioResourceConfig → String
service_host c = c.service_name ++ "." ++ c.namespace ++ ".svc.cluster.local"

-- `vsSpec` and `drSpec`
abbrev pub istio_spec : (k : IstioKind) → IstioResourceConfig → SpecOf k
istio_spec virtual_service c = record {
  hosts = c.hosts;
  gateways = c.gateway ∷ [];
  sni_hosts = c.hosts;
  destination_host = service_host c;
  destination_port = c.service_port;
}
istio_spec destination_rule c = record {
  host = service_host c;
  traffic_policy =
      if c.enable_http2
      then some (record { h2_upgrade_policy = "UPGRADE"; use_client_protocol = false })
      else none;
}

module _ (env : IstioEnv) where
  -- The metadata with its controller reference.
  abbrev pub owned : IstioResourceConfig → ObjectMeta → Outcome ObjectMeta
  owned c m = env.util.set_controller_reference c.owner m

  -- The metadata of the literal
  abbrev pub literal : IstioResourceConfig → ObjectMeta
  literal c = new_meta c.name c.namespace c.labels

  -- `ReconcileIstioVirtualService`, `ReconcileIstioDestinationRule`
  unfoldable pub reconcile_istio :
      IstioKind → IstioResourceConfig → Act IstioEvent (Outcome (Unit {0}))
  reconcile_istio k c = do
    let unowned = wrap ("failed to set controller reference for " ++ kind_name k)
    meta ← check (owned c (literal c)) (λ e. pure (err (unowned e)))
    let fresh : Resource k = record { meta = meta; spec = istio_spec k c }
    let key : NamespacedName = record { name = c.name; namespace = c.namespace }
    answer ← call (env.get k key) (got k key)
    existing ← check answer λ e.
        if is_not_found e
        then (do
          made ← call (env.create k fresh) (created k fresh)
          _ ← check made (λ e'. pure (err (wrap ("failed to create " ++ kind_name k) e')))
          pure (ok tt))
        else pure (err (wrap ("failed to get " ++ kind_name k) e))
    kept ← check (owned c existing.meta) (λ e. pure (err (unowned e)))
    let changed : Resource k = record { meta = kept; spec = istio_spec k c }
    written ← call (env.update k changed) (updated k changed)
    _ ← check written (λ e. pure (err (wrap ("failed to update " ++ kind_name k) e)))
    pure (ok tt)

  -- `ReconcileIstioVirtualService`
  abbrev pub reconcile_istio_virtual_service :
      IstioResourceConfig → Act IstioEvent (Outcome (Unit {0}))
  reconcile_istio_virtual_service = reconcile_istio virtual_service

  -- `ReconcileIstioDestinationRule`
  abbrev pub reconcile_istio_destination_rule :
      IstioResourceConfig → Act IstioEvent (Outcome (Unit {0}))
  reconcile_istio_destination_rule = reconcile_istio destination_rule
