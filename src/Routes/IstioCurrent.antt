-- ===== src/Routes/IstioCurrent.antt =====
-- After `ReconcileIstioVirtualService` or `ReconcileIstioDestinationRule` the object on the API server
-- says what the configuration says, its labels excepted.
use Prim.Native.String.{◌++◌}
use fabric_x_operator.Prelude.{String, ◌≡◌, refl, true, false, none, some, List, [], ◌∷◌, arith}
use fabric_x_operator.Go.{ok, is_not_found}
use fabric_x_operator.Go.Triple.{
  Triple, Triple-pure, Triple-if, Triple-call, Triple-check, Occurs, before, Occurs-answer,
}
use fabric_x_operator.Kube.{NamespacedName, new_meta}
use fabric_x_operator.Routes.Istio.{
  IstioKind, virtual_service, destination_rule, SpecOf, HttpSettings, IstioResourceConfig, Resource,
  IstioEvent, got, created, updated, IstioEnv, istio_spec, owned, literal, reconcile_istio,
}

abbrev key_of_config : IstioResourceConfig → NamespacedName
key_of_config c = record { name = c.name; namespace = c.namespace }

-- The name of the service in the cluster.
abbrev pub in_cluster : IstioResourceConfig → String
in_cluster c = c.service_name ++ "." ++ c.namespace ++ ".svc.cluster.local"

-- The settings by which HTTP/1.1 is taken to HTTP/2.
abbrev pub upgrade : HttpSettings
upgrade = record { h2_upgrade_policy = "UPGRADE"; use_client_protocol = false }

-- A spec serves what the configuration asks for: a VirtualService takes the hosts, as names and as
-- names of the TLS handshake, from the gateway to the port of the service; a DestinationRule is for
-- the host of the service, and upgrades to HTTP/2 if and only if that is enabled.
abbrev pub Serves : (k : IstioKind) → IstioResourceConfig → SpecOf k → Type 0
Serves virtual_service c s =
    (s.hosts ≡ c.hosts)
    × (s.gateways ≡ c.gateway ∷ [])
    × (s.sni_hosts ≡ c.hosts)
    × (s.destination_host ≡ in_cluster c)
    × (s.destination_port ≡ c.service_port)
Serves destination_rule c s =
    (s.host ≡ in_cluster c)
    × (c.enable_http2 ≡ true → s.traffic_policy ≡ some upgrade)
    × (c.enable_http2 ≡ false → s.traffic_policy ≡ none)

-- An object whose spec serves the configuration was accepted: as a new one, whose metadata are the
-- name, the namespace and the labels that are asked for, or as one that was read under its name and
-- keeps its metadata; in both cases with the controller reference set.
pub data IsServed (env : IstioEnv) (k : IstioKind) (c : IstioResourceConfig) (h : List IstioEvent)
    : Type 0 where
  fresh :
      (sent stored : Resource k)
      → Serves k c sent.spec
      → env.util.set_controller_reference c.owner (new_meta c.name c.namespace c.labels)
        ≡ ok sent.meta
      → Occurs (created k sent (ok stored)) h
      → IsServed env k c h
  kept :
      (old sent stored : Resource k)
      → Occurs (got k (key_of_config c) (ok old)) h
      → Serves k c sent.spec
      → env.util.set_controller_reference c.owner old.meta ≡ ok sent.meta
      → Occurs (updated k sent (ok stored)) h
      → IsServed env k c h

istio_spec-Serves : (k : IstioKind) (c : IstioResourceConfig) → Serves k c (istio_spec k c)
istio_spec-Serves virtual_service c = (refl, refl, refl, refl, refl)
istio_spec-Serves destination_rule c = (refl, (λ e. ground arith), λ e. ground arith)

module _ (env : IstioEnv) (k : IstioKind) (c : IstioResourceConfig) where
  abbrev Always : List IstioEvent → Type 0
  Always h = Unit {0}

  run-IsServed : Triple Always (reconcile_istio env k c) (λ r h. r ≡ ok tt → IsServed env k c h)
  unfolding reconcile_istio
  run-IsServed =
      Triple-check (owned env c (literal env c)) (λ _ _. Triple-pure _ (λ h p x. cc))
        λ meta m.
          let new : Resource k = record { meta = meta; spec = istio_spec k c } in
          Triple-call _
            (λ r h. (old : Resource k) → r ≡ ok old → Occurs (got k (key_of_config c) (ok old)) h)
            (λ h p old x. Occurs-answer (got k (key_of_config c)) _ _ h x)
            λ answer.
              Triple-check answer
                (λ e _.
                  Triple-if (is_not_found e)
                    (λ _.
                      Triple-call _
                        (λ r h. (s : Resource k) → r ≡ ok s → Occurs (created k new (ok s)) h)
                        (λ h p s x. Occurs-answer (created k new) _ _ h x)
                        λ r.
                          Triple-check r (λ _ _. Triple-pure _ (λ h p x. cc))
                            λ s x.
                              Triple-pure _
                                (λ h p _. fresh new s (istio_spec-Serves k c) m (p s x)))
                    (λ _. Triple-pure _ (λ h p x. cc)))
                λ old o.
                  Triple-check (owned env c old.meta) (λ _ _. Triple-pure _ (λ h p x. cc))
                    λ meta' m'.
                      let sent : Resource k = record { meta = meta'; spec = istio_spec k c } in
                      Triple-call _
                        (λ r h.
                          Occurs (got k (key_of_config c) (ok old)) h
                          × ((s : Resource k) → r ≡ ok s → Occurs (updated k sent (ok s)) h))
                        (λ h p. (before (p old o), λ s x. Occurs-answer (updated k sent) _ _ h x))
                        λ r.
                          Triple-check r (λ _ _. Triple-pure _ (λ h p x. cc))
                            λ s x.
                              Triple-pure _
                                (λ h p _. kept old sent s p.0 (istio_spec-Serves k c) m' (p.1 s x))

  -- Where `ReconcileIstioVirtualService` or `ReconcileIstioDestinationRule` returns no error, the API
  -- server has accepted an object whose spec serves the configuration (its hosts, gateway, service
  -- and port; the upgrade to HTTP/2 if and only if it is enabled): a new one with the name, the
  -- namespace and the labels of the configuration, or one that was read under that name and keeps
  -- the metadata it had, labels included, in both cases with the controller reference set.
  pub reconcile_istio-IsServed :
      (h : List IstioEvent)
      → (reconcile_istio env k c h).0 ≡ ok tt
      → IsServed env k c (reconcile_istio env k c h).1
  reconcile_istio-IsServed h = run-IsServed.at h tt
