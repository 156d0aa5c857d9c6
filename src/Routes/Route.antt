-- ===== src/Routes/Route.antt =====
-- `ReconcileTLSRoute`, `ReconcileTCPRoute` and `ReconcileHTTPRoute`, which differ in the kind of the
-- object and in three of its fields, and `DeleteTLSRoute`.
use Prim.Native.String.{◌++◌}
use fabric_x_operator.Prelude.{ℕ, String, Option, none, some, List, [], if◌then◌else◌}
use fabric_x_operator.Go.{GoMap, Outcome, ok, err, wrap, is_not_found}
use fabric_x_operator.Go.Act.{Act, ◌>>=◌, pure, call, check}
use fabric_x_operator.Kube.{ObjectMeta, NamespacedName, ControllerUtil, new_meta}
use fabric_x_operator.Routes.Gateway.{gateway_of}

-- Which of the three functions runs.
pub data Kind : Type 0 where
  tls tcp http : Kind

-- The name of the kind in error texts.
abbrev pub kind_name : Kind → String
kind_name tls = "TLSRoute"
kind_name tcp = "TCPRoute"
kind_name http = "HTTPRoute"

-- `RouteConfig`; `owner` is none unless both the owner and the scheme are given.
pub record RouteConfig : Type 0 where
  pub name : String
  pub namespace : String
  pub hostnames : List String
  pub service_name : String
  pub service_port : ℕ
  pub labels : GoMap String
  pub owner : Option ObjectMeta
  pub ingress_gateway : String

-- `ParentReference`
pub record ParentReference : Type 0 where
  pub name : String
  pub namespace : String
  pub group : Option String
  pub kind : Option String

-- The spec of a route: its parent, its host names, and the service and the port of its one rule.
pub record RouteSpec : Type 0 where
  pub parent_ref : ParentReference
  pub hostnames : List String
  pub service_name : String
  pub service_port : ℕ

-- `TLSRoute`, `TCPRoute` and `HTTPRoute`
pub record Route : Type 0 where
  pub meta : ObjectMeta
  pub spec : RouteSpec

pub data Event : Type 0 where
  got_route : Kind → NamespacedName → Outcome Route → Event
  created_route : Kind → Route → Outcome Route → Event
  updated_route : Kind → Route → Outcome Route → Event
  deleted_route : Kind → NamespacedName → Outcome (Unit {0}) → Event

pub record Env : Type 0 where
  pub get_route : Kind → NamespacedName → List Event → Outcome Route
  pub create_route : Kind → Route → List Event → Outcome Route
  pub update_route : Kind → Route → List Event → Outcome Route
  pub delete_route : Kind → NamespacedName → List Event → Outcome (Unit {0})
  pub util : ControllerUtil

-- The group and the kind of a gateway, which an HTTPRoute leaves to their defaults.
abbrev given : Kind → String → Option String
given http s = none
given _ s = some s

-- A TCPRoute has no host names.
abbrev hosts : Kind → List String → List String
hosts tcp hs = []
hosts _ hs = hs

-- The spec that a configuration asks for.
unfoldable pub route_spec : Kind → RouteConfig → RouteSpec
route_spec k config =
    let gateway = gateway_of config.namespace config.ingress_gateway in
    record {
      parent_ref = record {
        name = gateway.name;
        namespace = gateway.namespace;
        group = given k "gateway.networking.k8s.io";
        kind = given k "Gateway";
      };
      hostnames = hosts k config.hostnames;
      service_name = config.service_name;
      service_port = config.service_port;
    }

module _ (env : Env) where
  -- The template, with its controller reference if there is an owner.
  unfoldable pub template : Kind → RouteConfig → Outcome Route
  template k config =
      let fresh = new_meta config.name config.namespace config.labels in
      elim config.owner [
        | none ↦ ok (record { meta = fresh; spec = route_spec k config })
        | some owner ↦ elim (env.util.set_controller_reference owner fresh) [
          | ok meta ↦ ok (record { meta = meta; spec = route_spec k config })
          | err e ↦ err (wrap ("failed to set controller reference for " ++ kind_name k) e)
        ]
      ]

  -- `Reconcile…Route`
  unfoldable pub reconcile_route : Kind → RouteConfig → Act Event (Outcome (Unit {0}))
  reconcile_route k config = do
    route ← check (template k config) (λ e. pure (err e))
    let key : NamespacedName = record { name = config.name; namespace = config.namespace }
    got ← call (env.get_route k key) (got_route k key)
    existing ← check got λ e.
        if is_not_found e
        then (do
          created ← call (env.create_route k route) (created_route k route)
          _ ← check created (λ e'. pure (err (wrap ("failed to create " ++ kind_name k) e')))
          pure (ok tt))
        else pure (err (wrap ("failed to get existing " ++ kind_name k) e))
    let changed : Route = record {
      meta = record existing.meta { labels = route.meta.labels };
      spec = route.spec;
    }
    updated ← call (env.update_route k changed) (updated_route k changed)
    _ ← check updated (λ e. pure (err (wrap ("failed to update " ++ kind_name k) e)))
    pure (ok tt)

  -- `ReconcileTLSRoute`
  abbrev pub reconcile_tls_route : RouteConfig → Act Event (Outcome (Unit {0}))
  reconcile_tls_route = reconcile_route tls

  -- `ReconcileTCPRoute`
  abbrev pub reconcile_tcp_route : RouteConfig → Act Event (Outcome (Unit {0}))
  reconcile_tcp_route = reconcile_route tcp

  -- `ReconcileHTTPRoute`
  abbrev pub reconcile_http_route : RouteConfig → Act Event (Outcome (Unit {0}))
  reconcile_http_route = reconcile_route http

  -- `DeleteTLSRoute`: a route that is not there is no error.
  unfoldable pub delete_tls_route : String → String → Act Event (Outcome (Unit {0}))
  delete_tls_route name namespace = do
    let key : NamespacedName = record { name = name; namespace = namespace }
    deleted ← call (env.delete_route tls key) (deleted_route tls key)
    _ ← check deleted (λ e. if is_not_found e then pure (ok tt) else pure (err e))
    pure (ok tt)
