-- ===== src/Certs/CaExamples.antt =====
-- Certificates from a Fabric CA at examples.
use fabric_x_operator.Prelude.{String, ◌≡◌, refl, none, some, [], ◌∷◌}
use fabric_x_operator.Go.{Outcome, ok, err, new_error, pos}
use fabric_x_operator.Go.Act.{pure, call, check, invoke, if_nil}
use fabric_x_operator.Certs.Types.{
  for_fabric_ca, FabricCaConfig, SignCertificateRequest, TlsCertificateRequest,
}
use fabric_x_operator.Certs.Component.{
  CaEnv, CertificateRequest, ComponentCertificateData, get_ca_certificate,
  provision_component_certificate,
}
use fabric_x_operator.Certs.Client.{
  ClientEnv, returned, panicked, only_key, get_client, read_key, enroll_with, enroll_user,
}
use fabric_x_operator.Certs.FabricCa.{component_request, provided, provide, fabric_ca_sign}

abbrev no_error : Outcome String
no_error = ok "/tmp/fabric-ca-client"

-- A CA that answers every request, where the temporary directory is made or not.
abbrev client : Outcome String → ClientEnv
client home = record {
  temp_dir = λ h. home;
  temp_file = λ h. ok "/tmp/ca-cert";
  write = λ f b h. ok tt;
  sync = λ f h. ok tt;
  close = λ f h. ok tt;
  init = λ c h. ok c;
  enroll = λ c q h. ok (record { raw = 7 ∷ []; not_after = 7 });
  get_ca_info = λ c n h. ok (8 ∷ []);
  read_dir = λ d h. ok ("key" ∷ []);
  read_file = λ f h. ok (5 ∷ []);
  parse_certificate = λ b. ok (record { raw = b; not_after = 8 });
  parse_private_key = λ b. ok b;
}

-- The CA beside a cluster that is not there.
abbrev env : CaEnv
env = record {
  get_secret = none;
  client = client no_error;
  encode_certificate = λ c. c.raw;
  encode_private_key = λ k. ok k;
  bytes_of = λ s. 1 ∷ [];
}

abbrev settings : FabricCaConfig
settings = record {
  ca_host = "ca.org1";
  ca_port = pos 7054;
  ca_name = "ca";
  enroll_id = "admin";
  enroll_secret = "adminpw";
  ca_tls = some (record { ca_cert = "pem"; secret_ref = none });
}

abbrev sign_request : SignCertificateRequest
sign_request = record {
  msp_id = "Org1MSP";
  component_name = "endorser";
  config = for_fabric_ca settings;
}

abbrev tls_request : TlsCertificateRequest
tls_request = record {
  msp_id = "Org1MSP";
  component_name = "endorser";
  dns_names = some ("endorser.org1" ∷ []);
  ip_addresses = none;
  config = for_fabric_ca settings;
}

-- A request with the global configuration alone.
abbrev global_request : CertificateRequest
global_request = record (component_request "Org1MSP" "router" settings none) {
  cert_config = none;
  enrollment_config = some (record {
    sign = (component_request "Org1MSP" "router" settings none).cert_config;
    tls = none;
  });
}

gives_certificate :
    (fabric_ca_sign env (for_fabric_ca settings) sign_request []).0
    ≡ returned (
        ok (
          some (record {
            certificate = 7 ∷ [];
            private_key = 5 ∷ [];
            ca_certificate = 8 ∷ [];
            type = "sign";
          })))
unfolding fabric_ca_sign component_request provide provided provision_component_certificate
    enroll_user get_client enroll_with read_key only_key get_ca_certificate pure call check invoke
    if_nil
gives_certificate = refl

panics : (provision_component_certificate env global_request "sign" []).0 ≡ panicked
unfolding component_request provision_component_certificate get_ca_certificate pure call check
    invoke if_nil
panics = refl

abbrev data_of : ComponentCertificateData
data_of = record {
  component_name = "router";
  cert_type = "sign";
  cert = 7 ∷ [];
  key = 5 ∷ [];
  ca_cert = 8 ∷ [];
}

-- Where the temporary directory cannot be made the provider panics.
abbrev full_disk : CaEnv
full_disk = record env { client = client (err (new_error "no space left on device")) }

panics_on_nil_client :
    (fabric_ca_sign full_disk (for_fabric_ca settings) sign_request []).0 ≡ panicked
unfolding fabric_ca_sign component_request provide provided provision_component_certificate
    enroll_user get_client get_ca_certificate pure call check invoke if_nil
panics_on_nil_client = refl
