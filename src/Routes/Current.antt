-- ===== src/Routes/Current.antt =====
-- After `Reconcile…Route` the route on the API server says what the configuration says.
use mathlib.Core.Path.{subst}
use fabric_x_operator.Prelude.{
  String, ◌≡◌, refl, inl, inr, Option-cases, none, some, List, [], arith,
}
use fabric_x_operator.Go.{Outcome, ok, is_not_found}
use fabric_x_operator.Go.Triple.{
  Triple, Triple-pure, Triple-if, Triple-call, Triple-check, Occurs, before, Occurs-answer,
  ok_injective, Outcome-cases,
}
use fabric_x_operator.Kube.{ObjectMeta, NamespacedName, new_meta}
use fabric_x_operator.Routes.Gateway.{gateway_of}
use fabric_x_operator.Routes.Route.{
  Kind, tls, tcp, http, RouteConfig, ParentReference, RouteSpec, Route, Event, got_route,
  created_route, updated_route, Env, route_spec, template, reconcile_route,
}

-- What the kind of a route adds to its parent: a TLSRoute and a TCPRoute name the group and the kind
-- of a gateway.
abbrev pub NamesGateway : Kind → ParentReference → Type 0
NamesGateway http p = (p.group ≡ none) × (p.kind ≡ none)
NamesGateway tls p = (p.group ≡ some "gateway.networking.k8s.io") × (p.kind ≡ some "Gateway")
NamesGateway tcp p = (p.group ≡ some "gateway.networking.k8s.io") × (p.kind ≡ some "Gateway")

-- The host names of a route: a TCPRoute has none.
abbrev pub HasHosts : Kind → List String → List String → Type 0
HasHosts tcp asked hosts = hosts ≡ []
HasHosts tls asked hosts = hosts ≡ asked
HasHosts http asked hosts = hosts ≡ asked

-- A spec leads from the gateway of the configuration, with its host names, to its service and port.
abbrev pub LeadsTo : Kind → RouteConfig → RouteSpec → Type 0
LeadsTo k config s =
    let gateway = gateway_of config.namespace config.ingress_gateway in
    (s.parent_ref.name ≡ gateway.name)
    × (s.parent_ref.namespace ≡ gateway.namespace)
    × NamesGateway k s.parent_ref
    × HasHosts k config.hostnames s.hostnames
    × (s.service_name ≡ config.service_name)
    × (s.service_port ≡ config.service_port)

-- The metadata of a new route: the name, the namespace and the labels of the configuration, and the
-- controller reference if there is an owner.
pub data IsNewMeta (env : Env) (config : RouteConfig) (meta : ObjectMeta) : Type 0 where
  unowned :
      config.owner ≡ none
      → meta ≡ new_meta config.name config.namespace config.labels
      → IsNewMeta env config meta
  owned :
      (owner : ObjectMeta)
      → config.owner ≡ some owner
      → env.util.set_controller_reference owner
          (new_meta config.name config.namespace config.labels)
        ≡ ok meta
      → IsNewMeta env config meta

abbrev pub key_of_config : RouteConfig → NamespacedName
key_of_config config = record { name = config.name; namespace = config.namespace }

-- A route was sent with the spec that is asked for and was accepted: as a new one, or as one that
-- was read under the name of the configuration and keeps its metadata except for the labels, which
-- become those of a new one.
pub data IsCurrent (env : Env) (k : Kind) (config : RouteConfig) (h : List Event) : Type 0 where
  created :
      (sent stored : Route)
      → LeadsTo k config sent.spec
      → IsNewMeta env config sent.meta
      → Occurs (created_route k sent (ok stored)) h
      → IsCurrent env k config h
  updated :
      (old sent stored : Route) (meta : ObjectMeta)
      → Occurs (got_route k (key_of_config config) (ok old)) h
      → LeadsTo k config sent.spec
      → IsNewMeta env config meta
      → sent.meta ≡ record old.meta { labels = meta.labels }
      → Occurs (updated_route k sent (ok stored)) h
      → IsCurrent env k config h

route_spec-LeadsTo : (k : Kind) (config : RouteConfig) → LeadsTo k config (route_spec k config)
unfolding route_spec
route_spec-LeadsTo tls config = (refl, refl, (refl, refl), refl, refl, refl)
route_spec-LeadsTo tcp config = (refl, refl, (refl, refl), refl, refl, refl)
route_spec-LeadsTo http config = (refl, refl, (refl, refl), refl, refl, refl)

module _ (env : Env) (k : Kind) (config : RouteConfig) where
  abbrev Always : List Event → Type 0
  Always h = Unit {0}

  abbrev Done : Outcome (Unit {0}) → List Event → Type 0
  Done r h = r ≡ ok tt → IsCurrent env k config h

  abbrev fresh_meta : ObjectMeta
  fresh_meta = new_meta config.name config.namespace config.labels

  abbrev Asked : Route → Type 0
  Asked route = LeadsTo k config route.spec × IsNewMeta env config route.meta

  -- What the template is, when it is one.
  template-asked : (route : Route) → template env k config ≡ ok route → Asked route
  unfolding template
  template-asked route t = elim (Option-cases config.owner) [
    | inl no_owner ↦
        let made : record { meta = fresh_meta; spec = route_spec k config } ≡ route =
          ok_injective (grind arith) in
        subst Asked made (route_spec-LeadsTo k config, unowned no_owner refl)
    | inr (owner, is_owner) ↦
        elim (Outcome-cases (env.util.set_controller_reference owner fresh_meta)) [
          | inl (meta, is_meta) ↦
              let made : record { meta = meta; spec = route_spec k config } ≡ route =
                ok_injective (grind arith) in
              subst Asked made (route_spec-LeadsTo k config, owned owner is_owner is_meta)
          | inr (e, is_err) ↦ grind arith
        ]
  ]

  run-IsCurrent : Triple Always (reconcile_route env k config) Done
  unfolding reconcile_route
  run-IsCurrent =
      Triple-check (template env k config) (λ _ _. Triple-pure _ (λ h p x. cc))
        λ route t.
          let asked = template-asked route t in
          Triple-call _
            (λ r h.
              (old : Route) → r ≡ ok old → Occurs (got_route k (key_of_config config) (ok old)) h)
            (λ h p old x. Occurs-answer (got_route k (key_of_config config)) _ _ h x)
            λ got.
              Triple-check got
                (λ e _.
                  Triple-if (is_not_found e)
                    (λ _.
                      Triple-call _
                        (λ r h. (s : Route) → r ≡ ok s → Occurs (created_route k route (ok s)) h)
                        (λ h p s x. Occurs-answer (created_route k route) _ _ h x)
                        λ r.
                          Triple-check r (λ _ _. Triple-pure _ (λ h p x. cc))
                            λ s x. Triple-pure _ (λ h p _. created route s asked.0 asked.1 (p s x)))
                    (λ _. Triple-pure _ (λ h p x. cc)))
                λ old o.
                  let sent : Route = record {
                    meta = record old.meta { labels = route.meta.labels };
                    spec = route.spec;
                  } in
                  Triple-call _
                    (λ r h.
                      Occurs (got_route k (key_of_config config) (ok old)) h
                      × ((s : Route) → r ≡ ok s → Occurs (updated_route k sent (ok s)) h))
                    (λ h p. (before (p old o), λ s x. Occurs-answer (updated_route k sent) _ _ h x))
                    λ r.
                      Triple-check r (λ _ _. Triple-pure _ (λ h p x. cc))
                        λ s x. Triple-pure _ (λ h p _.
                          updated old sent s route.meta p.0 asked.0 asked.1 refl (p.1 s x))

  -- Where `ReconcileTLSRoute`, `ReconcileTCPRoute` or `ReconcileHTTPRoute` returns no error, the API
  -- server has accepted a route whose spec leads from the gateway of the configuration, with its host
  -- names (none for a TCPRoute), to its service and port: as a new route with the name, the namespace
  -- and the labels of the configuration and the controller reference, if there is an owner, or as the
  -- update of a route that was read under that name, which takes the labels of such a new route and
  -- keeps its other metadata.
  pub reconcile_route-IsCurrent :
      (reconcile_route env k config []).0 ≡ ok tt
      → IsCurrent env k config (reconcile_route env k config []).1
  reconcile_route-IsCurrent = run-IsCurrent.at [] tt
