-- ===== src/Routes/Examples.antt =====
-- Routes in a small cluster, and the theorems there.
use fabric_x_operator.Prelude.{◌≡◌, refl, true, false, none, [], ◌∷◌}
use fabric_x_operator.Go.{GoError, Reason, ok, err, pos}
use fabric_x_operator.Go.Act.{deferred, pure, call, check}
use fabric_x_operator.Kube.{ControllerUtil, new_meta}
use fabric_x_operator.Routes.Gateway.{gateway_of, gateway_of-reference}
use fabric_x_operator.Routes.Route.{Kind, RouteConfig, Env, template, reconcile_route}
use fabric_x_operator.Routes.Istio.{IstioKind, IstioResourceConfig, IstioEnv, reconcile_istio}
use fabric_x_operator.Routes.IstioCurrent.{IsServed, reconcile_istio-IsServed}
use fabric_x_operator.Routes.Current.{IsCurrent, reconcile_route-IsCurrent}

abbrev util : ControllerUtil
util = record {
  contains_finalizer = λ m f. false;
  add_finalizer = λ m f. m;
  remove_finalizer = λ m f. m;
  set_controller_reference = λ owner m. ok m;
}

abbrev not_there : GoError
not_there = record { reason = Reason.not_found; text = "not found" }

abbrev env : Env
env = record {
  get_route = λ k key h. err not_there;
  create_route = λ k r h. ok r;
  update_route = λ k r h. ok r;
  delete_route = λ k key h. ok tt;
  util = util;
}

abbrev config : RouteConfig
config = record {
  name = "ca";
  namespace = "org1";
  hostnames = "ca.org1" ∷ [];
  service_name = "ca";
  service_port = 7054;
  labels = [];
  owner = none;
  ingress_gateway = "infra/edge";
}

gateway_of-reference_example :
    (gateway_of "org1" "infra/edge" ≡ record { namespace = "infra"; name = "edge" })
    × (gateway_of "org1" "edge" ≡ record { namespace = "org1"; name = "edge" })
gateway_of-reference_example =
    gateway_of-reference "org1" "infra" "edge" (refl, (refl, (refl, (refl, (refl, tt)))))
      (refl, (refl, (refl, (refl, tt)))) (λ e. cc)

-- A reference with two slashes is taken as a name.
two_slashes : gateway_of "org1" "a/b/c" ≡ record { namespace = "org1"; name = "a/b/c" }
unfolding gateway_of
two_slashes = refl

makes : (reconcile_route env Kind.tls config []).0 ≡ ok tt
unfolding reconcile_route template deferred
makes = refl

reconcile_route-IsCurrent_example :
    IsCurrent env Kind.tls config (reconcile_route env Kind.tls config []).1
reconcile_route-IsCurrent_example = reconcile_route-IsCurrent env Kind.tls config makes

abbrev istio_env : IstioEnv
istio_env = record {
  get = λ k key h. err not_there;
  create = λ k r h. ok r;
  update = λ k r h. ok r;
  util = util;
}

abbrev istio_config : IstioResourceConfig
istio_config = record {
  name = "router";
  namespace = "org1";
  hosts = "router.org1" ∷ [];
  service_name = "router";
  service_port = pos 7050;
  gateway = "istio-system/istio-ingressgateway";
  enable_http2 = true;
  labels = ("app", "router") ∷ [];
  owner = new_meta "router" "org1" [];
}

serves : (reconcile_istio istio_env IstioKind.destination_rule istio_config []).0 ≡ ok tt
unfolding reconcile_istio pure call check
serves = refl

reconcile_istio-IsServed_example :
    IsServed istio_env IstioKind.destination_rule istio_config
      (reconcile_istio istio_env IstioKind.destination_rule istio_config []).1
reconcile_istio-IsServed_example =
    reconcile_istio-IsServed istio_env IstioKind.destination_rule istio_config [] serves
