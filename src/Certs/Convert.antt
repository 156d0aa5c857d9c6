-- ===== src/Certs/Convert.antt =====
-- `ConvertCertificateConfigToProviderConfig` (internal/controller/certs/api_converter.go).
use Prim.Native.String.{◌++◌}
use fabric_x_operator.Prelude.{String, Option, none, some, ◌==◌, if◌then◌else◌}
use fabric_x_operator.Go.{Outcome, ok, err, new_error}
use fabric_x_operator.Api.Component.{
  CertificateConfig, CertificateProviderConfig, CaCertificateConfig, FabricCaProviderConfig,
  ManualProviderConfig, VaultProviderConfig,
}
use fabric_x_operator.Api.Component as Api
use fabric_x_operator.Certs.Types.{
  SecretRef, CaTlsConfig, FabricCaConfig, VaultConfig, ManualConfig, ProviderConfig,
}

abbrev pub secret_ref : Option Api.SecretRef → Option SecretRef
secret_ref none = none
secret_ref (some r) = some (record { name = r.name; key = r.key; namespace = r.namespace })

abbrev pub ca_tls : Option Api.CaTlsConfig → Option CaTlsConfig
ca_tls none = none
ca_tls (some t) = some (record { ca_cert = t.ca_cert; secret_ref = secret_ref t.secret_ref })

-- `convertFabricCAProviderConfig`
abbrev pub convert_fabric_ca_provider_config : FabricCaProviderConfig → FabricCaConfig
convert_fabric_ca_provider_config api = record {
  ca_host = api.ca_host;
  ca_port = api.ca_port;
  ca_name = api.ca_name;
  enroll_id = api.enroll_id;
  enroll_secret = api.enroll_secret;
  ca_tls = ca_tls api.ca_tls;
}

-- `convertLegacyCAConfig`
abbrev pub convert_legacy_ca_config : CaCertificateConfig → FabricCaConfig
convert_legacy_ca_config api = record {
  ca_host = api.ca_host;
  ca_port = api.ca_port;
  ca_name = api.ca_name;
  enroll_id = api.enroll_id;
  enroll_secret = api.enroll_secret;
  ca_tls = ca_tls api.ca_tls;
}

-- `convertManualProviderConfig`
abbrev pub convert_manual_provider_config : ManualProviderConfig → ManualConfig
convert_manual_provider_config api = record {
  secret_ref = secret_ref api.secret_ref;
  cert_key = api.cert_key;
  key_key = api.key_key;
  ca_key = api.ca_key;
}

-- `convertVaultProviderConfig`
abbrev pub convert_vault_provider_config : VaultProviderConfig → VaultConfig
convert_vault_provider_config api = record {
  address = api.address;
  pki_path = api.pki_path;
  role = api.role;
  auth_method = api.auth_method;
  service_account = api.service_account;
  token_secret_ref = secret_ref api.token_secret_ref;
  namespace = api.namespace;
  ttl = api.ttl;
}

-- "Infer from Provider field": the first of the three parts that is set, or the empty type.
unfoldable pub infer_from_provider :
    Option FabricCaProviderConfig
    → Option ManualProviderConfig
    → Option VaultProviderConfig
    → String
infer_from_provider (some f) m v = "fabric-ca"
infer_from_provider none (some m) v = "manual"
infer_from_provider none none (some v) = "vault"
infer_from_provider none none none = ""

-- "Backward compatibility: if ProviderType not specified, infer from configuration"
unfoldable pub infer_type : Option CaCertificateConfig → Option CertificateProviderConfig → String
infer_type (some ca) p = "fabric-ca"
infer_type none (some p) = infer_from_provider p.fabric_ca p.manual p.vault
infer_type none none = "manual"

unfoldable pub provider_type : CertificateConfig → String
unfolding infer_type infer_from_provider
provider_type c = if c.provider_type == "" then infer_type c.ca c.provider else c.provider_type

-- `apiConfig.Provider != nil && apiConfig.Provider.X != nil`, and the parts.
abbrev pub fabric_ca_of : Option CertificateProviderConfig → Option FabricCaProviderConfig
fabric_ca_of none = none
fabric_ca_of (some p) = p.fabric_ca

abbrev pub manual_of : Option CertificateProviderConfig → Option ManualProviderConfig
manual_of none = none
manual_of (some p) = p.manual

abbrev pub vault_of : Option CertificateProviderConfig → Option VaultProviderConfig
vault_of none = none
vault_of (some p) = p.vault

abbrev empty_config : String → ProviderConfig
empty_config type = record { type = type; fabric_ca = none; vault = none; manual = none }

-- The case "fabric-ca"
unfoldable pub convert_fabric_ca :
    String
    → Option FabricCaProviderConfig
    → Option CaCertificateConfig
    → Outcome (Option ProviderConfig)
convert_fabric_ca t (some p) ca =
    ok (some (record (empty_config t) { fabric_ca = some (convert_fabric_ca_provider_config p) }))
convert_fabric_ca t none (some ca) =
    ok (some (record (empty_config t) { fabric_ca = some (convert_legacy_ca_config ca) }))
convert_fabric_ca t none none = err (new_error "fabric-ca provider requires CA configuration")

-- The case "manual"
unfoldable pub convert_manual :
    String → Option ManualProviderConfig → Outcome (Option ProviderConfig)
convert_manual t (some p) =
    ok (some (record (empty_config t) { manual = some (convert_manual_provider_config p) }))
convert_manual t none = err (new_error "manual provider requires manual configuration")

-- The case "vault"
unfoldable pub convert_vault : String → Option VaultProviderConfig → Outcome (Option ProviderConfig)
convert_vault t (some p) =
    ok (some (record (empty_config t) { vault = some (convert_vault_provider_config p) }))
convert_vault t none = err (new_error "vault provider requires Vault configuration")

-- The switch over the type of the provider
unfoldable pub convert_as :
    (String → String) → CertificateConfig → String → Outcome (Option ProviderConfig)
unfolding convert_fabric_ca convert_manual convert_vault
convert_as quote c t =
    if t == "fabric-ca"
    then convert_fabric_ca t (fabric_ca_of c.provider) c.ca
    else if t == "manual"
    then convert_manual t (manual_of c.provider)
    else if t == "vault"
    then convert_vault t (vault_of c.provider)
    else err (new_error ("unsupported provider type: " ++ quote t))

-- `ConvertCertificateConfigToProviderConfig`; `quote` is the `%q` of fmt.
unfoldable pub convert_config :
    (String → String) → Option CertificateConfig → Outcome (Option ProviderConfig)
convert_config quote none = ok none
convert_config quote (some c) = convert_as quote c (provider_type c)
