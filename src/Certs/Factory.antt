-- ===== src/Certs/Factory.antt =====
-- `GetProvider` and `GetProviderFromConfig` (internal/controller/certs/provider_factory.go).
use Prim.Native.String.{◌++◌}
use fabric_x_operator.Prelude.{String, Option, none, some, [], ◌==◌, if◌then◌else◌}
use fabric_x_operator.Go.{Outcome, ok, err, new_error, lookup, insert}
use fabric_x_operator.Certs.Types.{
  ProviderConfig, Config, for_fabric_ca, for_manual, for_vault, CertificateProvider,
  ProviderFactory,
}

-- `Register`
abbrev pub register : ProviderFactory → String → CertificateProvider → ProviderFactory
register f t p = record f { providers = insert t p f.providers }

-- `NewProviderFactory`, with what the three constructors make
abbrev pub new_provider_factory :
    (String → String)
    → CertificateProvider
    → CertificateProvider
    → CertificateProvider
    → ProviderFactory
new_provider_factory quote fabric_ca manual vault =
    register
      (register (register (record { providers = []; quote = quote }) "fabric-ca" fabric_ca) "manual"
        manual)
      "vault" vault

unfoldable pub found :
    ProviderFactory → String → Option CertificateProvider → Outcome CertificateProvider
found f t none = err (
    new_error (
      "unknown certificate provider type: "
      ++ f.quote t
      ++ " (available: fabric-ca, manual, vault)"))
found f t (some p) = ok p

-- `GetProvider`
unfoldable pub get_provider : ProviderFactory → String → Outcome CertificateProvider
unfolding found
get_provider f t = found f t (lookup t f.providers)

-- A case of the switch: the part of the configuration that belongs to the type.
unfoldable pub part : {T : Type 0} → String → (T → Config) → Option T → Outcome Config
part message make none = err (new_error message)
part message make (some c) = ok (make c)

config_of : (String → String) → ProviderConfig → Outcome Config
config_of quote c =
    if c.type == "fabric-ca"
    then part "fabricCA configuration is required when type is 'fabric-ca'" for_fabric_ca
        c.fabric_ca
    else if c.type == "manual"
    then part "manual configuration is required when type is 'manual'" for_manual c.manual
    else if c.type == "vault"
    then part "vault configuration is required when type is 'vault'" for_vault c.vault
    else err (new_error ("unsupported provider type: " ++ quote c.type))

abbrev both : {A B : Type 0} → Outcome A → Outcome B → Outcome (A × B)
both (err e) b = err e
both (ok a) (err e) = err e
both (ok a) (ok b) = ok (a, b)

-- `GetProviderFromConfig`
unfoldable pub get_provider_from_config :
    ProviderFactory → Option ProviderConfig → Outcome (CertificateProvider × Config)
unfolding get_provider config_of part
get_provider_from_config f none = err (new_error "provider configuration is required")
get_provider_from_config f (some c) = both (get_provider f c.type) (config_of f.quote c)
