-- ===== src/Certs/FabricCa.antt =====
-- `FabricCAProvider` (internal/controller/certs/provider_fabricca.go). A conversion of the port
-- between `int` and `int32` gives back the port of the API, which is an `int32`.
use fabric_x_operator.Prelude.{String, ◌||◌, not, Option, none, some, if◌then◌else◌}
use fabric_x_operator.Go.{ok, err, new_error, wrap, is_empty}
use fabric_x_operator.Go.Act.{Act, ◌>>=◌, pure, invoke}
use fabric_x_operator.Api.Nil.{elements}
use fabric_x_operator.Certs.Types.{
  FabricCaConfig, Config, for_fabric_ca, CertificateData, SignCertificateRequest,
  TlsCertificateRequest,
}
use fabric_x_operator.Certs.Component.{
  SansConfig, CertificateRequest, ComponentCertificateData, CaEnv, provision_component_certificate,
}
use fabric_x_operator.Certs.Client.{CaEvent, Ended, returned, panicked}

-- "Build certificate configuration" and "Build request"
unfoldable pub component_request :
    String → String → FabricCaConfig → Option SansConfig → CertificateRequest
component_request msp_id component config sans = record {
  component_name = component;
  component_type = component;
  namespace = "";
  orderer_group_name = "";
  cert_config = some (record {
    ca = some (record {
      ca_name = config.ca_name;
      ca_host = config.ca_host;
      ca_port = config.ca_port;
      ca_tls = config.ca_tls;
      enroll_id = config.enroll_id;
      enroll_secret = config.enroll_secret;
    });
    msp_id = msp_id;
    sans = sans;
  });
  enrollment_config = none;
  cert_types = none;
}

-- "Add SANS if provided"
abbrev pub sans_of : TlsCertificateRequest → Option SansConfig
sans_of r =
    if not (is_empty (elements r.dns_names)) || not (is_empty (elements r.ip_addresses))
    then some (record { dns_names = r.dns_names; ip_addresses = r.ip_addresses })
    else none

-- The return of the provider for the end of the provision, which never gives a nil pointer without
-- an error.
unfoldable pub provided :
    String → String → Ended ComponentCertificateData → Ended (Option CertificateData)
provided message type panicked = panicked
provided message type (returned (err e)) = returned (err (wrap message e))
provided message type (returned (ok d)) = returned (
    ok (
      some (record {
        certificate = d.cert;
        private_key = d.key;
        ca_certificate = d.ca_cert;
        type = type;
      })))

abbrev wrong_config : Act CaEvent (Ended (Option CertificateData))
wrong_config = pure (
    returned
      (err (new_error "invalid config type for Fabric CA provider, expected *FabricCAConfig")))

module _ (env : CaEnv) where
  -- The rest of the two functions, for a request to the CA.
  unfoldable pub provide :
      CertificateRequest → String → String → Act CaEvent (Ended (Option CertificateData))
  unfolding provided
  provide request message type = do
    ended ← invoke (provision_component_certificate env request type)
    pure (provided message type ended)

  -- `ProvisionSignCertificate`
  unfoldable pub fabric_ca_sign :
      Config → SignCertificateRequest → Act CaEvent (Ended (Option CertificateData))
  unfolding provide component_request
  fabric_ca_sign (for_fabric_ca c) r =
      provide (component_request r.msp_id r.component_name c none)
        "failed to provision sign certificate from Fabric CA" "sign"
  fabric_ca_sign _ r = wrong_config

  -- `ProvisionTLSCertificate`
  unfoldable pub fabric_ca_tls :
      Config → TlsCertificateRequest → Act CaEvent (Ended (Option CertificateData))
  unfolding provide component_request
  fabric_ca_tls (for_fabric_ca c) r =
      provide (component_request r.msp_id r.component_name c (sans_of r))
        "failed to provision TLS certificate from Fabric CA" "tls"
  fabric_ca_tls _ r = wrong_config
