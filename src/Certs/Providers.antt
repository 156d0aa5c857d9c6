-- ===== src/Certs/Providers.antt =====
-- The manual provider and the Vault provider (internal/controller/certs/provider_manual.go and
-- provider_vault.go). `get` reads a secret, and `quote` is the `%q` of fmt.
use Prim.Native.String.{◌++◌}
use fabric_x_operator.Prelude.{ℕ, zero, suc, ◌+◌, String, Option, none, some, List, [], ◌∷◌}
use fabric_x_operator.Go.{Bytes, GoMap, Outcome, ok, err, new_error, wrap, lookup}
use fabric_x_operator.Go.Decimal.{decimal}
use fabric_x_operator.Kube.{NamespacedName, Secret}
use fabric_x_operator.Api.Nil.{or_default, elements}
use fabric_x_operator.Certs.Types.{
  SecretRef, ManualConfig, VaultConfig, Config, for_manual, for_vault, CertificateData,
  TlsCertificateRequest, Event, CertificateProvider,
}

-- "Extract the certificate data": the certificate and the key have to be there, the CA certificate
-- need not.
unfoldable pub extract :
    (String → String) → String → ManualConfig → String → GoMap Bytes → Outcome CertificateData
extract quote where_ config type contents =
    let cert_key = or_default config.cert_key "cert.pem" in
    let key_key = or_default config.key_key "key.pem" in
    let ca_key = or_default config.ca_key "ca.pem" in
    elim (lookup cert_key contents) [
      | none ↦
          err
            (new_error ("certificate key " ++ quote cert_key ++ " not found in secret " ++ where_))
      | some cert ↦ elim (lookup key_key contents) [
        | none ↦
            err (new_error ("private key " ++ quote key_key ++ " not found in secret " ++ where_))
        | some key ↦ ok (record {
          certificate = cert;
          private_key = key;
          ca_certificate = elim (lookup ca_key contents) [ none ↦ [] | some ca ↦ ca ];
          type = type;
        })
      ]
    ]

-- The return of a pointer beside an error.
abbrev pub returned : {T : Type 0} → Outcome T → Outcome (Option T)
returned (ok t) = ok (some t)
returned (err e) = err e

-- The rest of `getCertificateFromSecret`, after the read of the secret
abbrev pub from_answer :
    (String → String)
    → String
    → ManualConfig
    → String
    → Outcome Secret
    → Outcome (Option CertificateData)
from_answer quote where_ config type (err e) = err (wrap "failed to get certificate secret" e)
from_answer quote where_ config type (ok secret) =
    returned (extract quote where_ config type secret.contents)

module _ (quote : String → String) (get : NamespacedName → List Event → Outcome Secret) where
  -- `getCertificateFromSecret`
  unfoldable pub get_certificate_from_secret :
      ManualConfig → SecretRef → String → List Event → Outcome (Option CertificateData)
  get_certificate_from_secret config ref type h =
      let namespace = or_default ref.namespace "default" in
      from_answer quote (namespace ++ "/" ++ ref.name) config type
        (get (record { name = ref.name; namespace = namespace }) h)

  -- `ManualProvider.ProvisionSignCertificate` and `ProvisionTLSCertificate`, which differ in the type
  -- of the certificate.
  unfoldable pub manual_certificate :
      Config → String → List Event → Outcome (Option CertificateData)
  unfolding get_certificate_from_secret
  manual_certificate (for_manual config) type h = elim config.secret_ref [
    | none ↦ err (new_error "secretRef is required for manual certificate provider")
    | some ref ↦ get_certificate_from_secret config ref type h
  ]
  manual_certificate _ type h =
      err (new_error "invalid config type for Manual provider, expected *ManualConfig")

  -- `ManualProvider`
  unfoldable pub manual_provider : CertificateProvider
  unfolding manual_certificate
  manual_provider = record {
    provision_sign_certificate = λ request. manual_certificate request.config "sign";
    provision_tls_certificate = λ request. manual_certificate request.config "tls";
    name = "manual";
  }

-- What the two functions of the Vault provider say of a configuration.
abbrev vault_settings : VaultConfig → String
vault_settings c = "(address=" ++ c.address ++ ", pkiPath=" ++ c.pki_path ++ ", role=" ++ c.role

-- `len` of a slice of strings
abbrev count : List String → ℕ
count [] = zero
count (s ∷ ss) = suc (count ss)

-- `VaultProvider.ProvisionSignCertificate`
vault_sign : Config → Outcome (Option CertificateData)
vault_sign (for_vault c) =
    err (new_error ("Vault provider not yet implemented " ++ vault_settings c ++ ")"))
vault_sign _ = err (new_error "invalid config type for Vault provider, expected *VaultConfig")

-- `VaultProvider.ProvisionTLSCertificate`
vault_tls : TlsCertificateRequest → Config → Outcome (Option CertificateData)
vault_tls r (for_vault c) = err (
    new_error (
      "Vault provider not yet implemented "
      ++ vault_settings c
      ++ ", SANs="
      ++ decimal (count (elements r.dns_names) + count (elements r.ip_addresses))
      ++ ")"))
vault_tls r _ = err (new_error "invalid config type for Vault provider, expected *VaultConfig")

-- `VaultProvider`
unfoldable pub vault_provider : CertificateProvider
unfolding vault_sign vault_tls
vault_provider = record {
  provision_sign_certificate = λ request h. vault_sign request.config;
  provision_tls_certificate = λ request h. vault_tls request request.config;
  name = "vault";
}
