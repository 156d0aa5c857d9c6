-- ===== src/Certs/Examples.antt =====
-- The choice of a provider and the provision of certificates at examples.
use fabric_x_operator.Prelude.{Bool, String, ◌≡◌, refl, none, some, List, [], ◌∷◌}
use fabric_x_operator.Go.{GoError, Reason, Outcome, ok, err, pos, lookup, insert}
use fabric_x_operator.Go.Act.{pure, call, check, invoke}
use fabric_x_operator.Api.Component.{CertificateConfig, CaCertificateConfig}
use fabric_x_operator.Certs.Types.{
  CertificateData, CertificateProvider, ProviderFactory, ProviderConfig, Event, SecretRef,
  for_manual, SignCertificateRequest, TlsCertificateRequest,
}
use fabric_x_operator.Certs.Convert.{convert_config}
use fabric_x_operator.Certs.Factory.{new_provider_factory, get_provider_from_config}
use fabric_x_operator.Certs.Choice.{asked, answer, chosen, with_provider, convert_config-asked}
use fabric_x_operator.Certs.Provision.{
  ProvisionCertificatesOptions, ProvisionCertificatesResult, provision_certificates,
}
use fabric_x_operator.Kube.{NamespacedName, Secret, new_meta}
use fabric_x_operator.Identity.Types.{EnrolledUser}
use fabric_x_operator.CaEnrollment.Enroll.{output_contents}
use fabric_x_operator.CaEnrollment.Examples as Enrollments
use fabric_x_operator.Certs.Providers.{manual_provider}
use fabric_x_operator.Certs.Reuse.{default_keys, enrolled, manual_provider-enrolled}
use fabric_x_operator.Certs.Provisioned.{Made, provision_certificates-Made}

abbrev quote : String → String
quote s = s

abbrev unsupported : GoError
unsupported = record { reason = Reason.other; text = "not implemented" }

abbrev data_of : String → CertificateData
data_of type = record {
  certificate = 1 ∷ [];
  private_key = 2 ∷ [];
  ca_certificate = 3 ∷ [];
  type = type;
}

abbrev working : String → CertificateProvider
working name = record {
  provision_sign_certificate = λ r h. ok (some (data_of "sign"));
  provision_tls_certificate = λ r h. ok (some (data_of "tls"));
  name = name;
}

abbrev failing : String → CertificateProvider
failing name = record {
  provision_sign_certificate = λ r h. err unsupported;
  provision_tls_certificate = λ r h. err unsupported;
  name = name;
}

abbrev factory : ProviderFactory
factory = new_provider_factory quote (working "fabric-ca") (working "manual") (failing "vault")

abbrev ca : CaCertificateConfig
ca = record {
  ca_name = "ca";
  ca_host = "ca.org1";
  ca_port = pos 7054;
  ca_tls = none;
  enroll_id = "admin";
  enroll_secret = "adminpw";
  idemix = Bool.false;
}

-- A configuration of the older form.
abbrev legacy : CertificateConfig
legacy = record { provider_type = ""; ca = some ca; provider = none; sans = none }

convert_config-asked_example :
    answer (
      chosen quote
        (working "fabric-ca")
        (working "manual")
        (failing "vault")
        (convert_config quote (some legacy)))
    ≡ with_provider quote (working "fabric-ca") (working "manual") (failing "vault") (asked legacy)
convert_config-asked_example =
    convert_config-asked quote (working "fabric-ca") (working "manual") (failing "vault") legacy

abbrev sign_config : ProviderConfig
sign_config = record {
  type = "fabric-ca";
  fabric_ca = some (record {
    ca_host = "ca.org1";
    ca_port = pos 7054;
    ca_name = "ca";
    enroll_id = "admin";
    enroll_secret = "adminpw";
    ca_tls = none;
  });
  vault = none;
  manual = none;
}

abbrev options : ProvisionCertificatesOptions
options = record {
  msp_id = "Org1MSP";
  component_name = "endorser";
  sign_provider = some sign_config;
  tls_provider = none;
  dns_names = none;
  ip_addresses = none;
  provider_factory = none;
}

abbrev result : ProvisionCertificatesResult
result = record { sign_certificate = some (data_of "sign"); tls_certificate = none }

gives : (provision_certificates factory options []).0 ≡ ok result
unfolding provision_certificates get_provider_from_config lookup insert pure call check invoke
gives = refl

provision_certificates-Made_example :
    Made factory options result (provision_certificates factory options []).1
provision_certificates-Made_example = provision_certificates-Made factory options [] result gives

abbrev ref : SecretRef
ref = record { name = "alice-out"; key = ""; namespace = "org1" }

abbrev user : EnrolledUser
user = record {
  cert = record { raw = 7 ∷ []; not_after = 7 };
  key = 5 ∷ [];
  root = record { raw = 8 ∷ []; not_after = 8 };
}

-- The secret of an enrollment in the cluster of the CAEnrollment reconciler.
abbrev stored : Secret
stored = record {
  meta = new_meta "alice-out" "org1" [];
  type = "Opaque";
  contents = output_contents (Enrollments.env Bool.false none) user (5 ∷ []);
}

abbrev get : NamespacedName → List Event → Outcome Secret
get k h = ok stored

abbrev sign_request : SignCertificateRequest
sign_request = record {
  msp_id = "Org1MSP";
  component_name = "endorser";
  config = for_manual (default_keys ref);
}

abbrev tls_request : TlsCertificateRequest
tls_request = record {
  msp_id = "Org1MSP";
  component_name = "endorser";
  dns_names = none;
  ip_addresses = none;
  config = for_manual (default_keys ref);
}

manual_provider-enrolled_example :
    ((manual_provider quote get).provision_sign_certificate sign_request []
      ≡ ok (some (enrolled quote get (Enrollments.env Bool.false none) user (5 ∷ []) "sign")))
    × ((manual_provider quote get).provision_tls_certificate tls_request []
        ≡ ok (some (enrolled quote get (Enrollments.env Bool.false none) user (5 ∷ []) "tls")))
manual_provider-enrolled_example =
    manual_provider-enrolled quote get (Enrollments.env Bool.false none) user (5 ∷ []) ref stored
      sign_request tls_request [] refl refl refl refl
