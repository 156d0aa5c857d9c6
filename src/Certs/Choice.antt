-- ===== src/Certs/Choice.antt =====
-- What a certificate configuration asks for, and that conversion and factory together give it.
use mathlib.Core.Path.{subst, sym}
use fabric_x_operator.Prelude.{
  String, Option, none, some, ◌≡◌, ◌∙◌, ap, refl, inl, inr, Bool-cases, eq_iff, ◌==◌, if◌then◌else◌,
}
use fabric_x_operator.Go.{Outcome, ok, err, lookup, insert}
use fabric_x_operator.Api.Nil.{or_else}
use fabric_x_operator.Api.Component.{
  CertificateConfig, CertificateProviderConfig, CaCertificateConfig, FabricCaProviderConfig,
  ManualProviderConfig, VaultProviderConfig,
}
use fabric_x_operator.Certs.Types.{
  Config, for_fabric_ca, for_manual, for_vault, CertificateProvider, ProviderFactory,
  ProviderConfig,
}
use fabric_x_operator.Certs.Convert.{
  convert_fabric_ca_provider_config, convert_legacy_ca_config, convert_manual_provider_config,
  convert_vault_provider_config, fabric_ca_of, manual_of, vault_of, provider_type,
  convert_fabric_ca, convert_manual, convert_vault, infer_type, infer_from_provider, convert_as,
  convert_config,
}
use fabric_x_operator.Certs.Factory.{new_provider_factory, get_provider_from_config}

-- The settings of a Fabric CA: those of the provider, else the older ones.
abbrev pub fabric_ca_choice :
    Option FabricCaProviderConfig → Option CaCertificateConfig → Option Config
fabric_ca_choice (some p) ca = some (for_fabric_ca (convert_fabric_ca_provider_config p))
fabric_ca_choice none (some ca) = some (for_fabric_ca (convert_legacy_ca_config ca))
fabric_ca_choice none none = none

abbrev pub manual_choice : Option ManualProviderConfig → Option Config
manual_choice none = none
manual_choice (some p) = some (for_manual (convert_manual_provider_config p))

abbrev pub vault_choice : Option VaultProviderConfig → Option Config
vault_choice none = none
vault_choice (some p) = some (for_vault (convert_vault_provider_config p))

-- What a configuration asks for by a type that it names.
abbrev pub asked_as :
    Option CaCertificateConfig
    → Option FabricCaProviderConfig
    → Option ManualProviderConfig
    → Option VaultProviderConfig
    → String
    → Option Config
asked_as ca f m v t =
    if t == "fabric-ca"
    then fabric_ca_choice f ca
    else if t == "manual"
    then manual_choice m
    else if t == "vault"
    then vault_choice v
    else none

abbrev asked_by : CertificateConfig → String → Option Config
asked_by c = asked_as c.ca (fabric_ca_of c.provider) (manual_of c.provider) (vault_of c.provider)

abbrev first_of :
    Option CaCertificateConfig
    → Option FabricCaProviderConfig
    → Option ManualProviderConfig
    → Option VaultProviderConfig
    → Option Config
first_of ca f m v = or_else (fabric_ca_choice f ca) (or_else (manual_choice m) (vault_choice v))

-- What a configuration asks for: by its type, or, where it names none, by the first of Fabric CA,
-- manual and vault that has settings.
abbrev pub asked : CertificateConfig → Option Config
asked c =
    if c.provider_type == ""
    then first_of c.ca (fabric_ca_of c.provider) (manual_of c.provider) (vault_of c.provider)
    else asked_by c c.provider_type

abbrev pub answer : {T : Type 0} → Outcome T → Option T
answer (ok t) = some t
answer (err e) = none

-- The type that is inferred is that of the first settings that are there.
infer_type-first_of :
    (ca : Option CaCertificateConfig) (p : Option CertificateProviderConfig)
    → asked_as ca (fabric_ca_of p) (manual_of p) (vault_of p) (infer_type ca p)
      ≡ first_of ca (fabric_ca_of p) (manual_of p) (vault_of p)
unfolding infer_type infer_from_provider
infer_type-first_of (some ca) p = older (fabric_ca_of p)
  where
    older :
        (f : Option FabricCaProviderConfig)
        → fabric_ca_choice f (some ca)
          ≡ or_else
              (fabric_ca_choice f (some ca))
              (or_else (manual_choice (manual_of p)) (vault_choice (vault_of p)))
    older none = refl
    older (some f) = refl
infer_type-first_of none none = refl
infer_type-first_of none (some p) = inferred p.fabric_ca p.manual p.vault
  where
    inferred :
        (f : Option FabricCaProviderConfig) (m : Option ManualProviderConfig)
        (v : Option VaultProviderConfig)
        → asked_as none f m v (infer_from_provider f m v) ≡ first_of none f m v
    inferred (some f) m v = refl
    inferred none (some m) v = refl
    inferred none none (some v) = refl
    inferred none none none = refl

provider_type-asked : (c : CertificateConfig) → asked_by c (provider_type c) ≡ asked c
unfolding provider_type
provider_type-asked c = elim (Bool-cases (c.provider_type == "")) [
  | inl e ↦ let i = infer_type-first_of c.ca c.provider in simp (e, i)
  | inr f ↦ simp f
]

module _ (quote : String → String) (fabric_ca manual vault : CertificateProvider) where
  abbrev pub provider_for : Config → CertificateProvider
  provider_for (for_fabric_ca c) = fabric_ca
  provider_for (for_manual c) = manual
  provider_for (for_vault c) = vault

  -- A configuration with the provider that it is for.
  abbrev pub with_provider : Option Config → Option (CertificateProvider × Config)
  with_provider none = none
  with_provider (some c) = some (provider_for c, c)

  abbrev factory : ProviderFactory
  factory = new_provider_factory quote fabric_ca manual vault

  -- Conversion, and then the choice of the provider.
  abbrev pub chosen : Outcome (Option ProviderConfig) → Outcome (CertificateProvider × Config)
  chosen (err e) = err e
  chosen (ok c) = get_provider_from_config factory c

  abbrev Meets : CertificateConfig → String → Type 0
  Meets c t = answer (chosen (convert_as quote c t)) ≡ with_provider (asked_by c t)

  fabric_ca-Meets :
      (p : Option FabricCaProviderConfig) (ca : Option CaCertificateConfig)
      → answer (chosen (convert_fabric_ca "fabric-ca" p ca)) ≡ with_provider (fabric_ca_choice p ca)
  unfolding convert_fabric_ca get_provider_from_config lookup insert
  fabric_ca-Meets (some p) ca = refl
  fabric_ca-Meets none (some ca) = refl
  fabric_ca-Meets none none = refl

  manual-Meets :
      (p : Option ManualProviderConfig)
      → answer (chosen (convert_manual "manual" p)) ≡ with_provider (manual_choice p)
  unfolding convert_manual get_provider_from_config lookup insert
  manual-Meets (some p) = refl
  manual-Meets none = refl

  vault-Meets :
      (p : Option VaultProviderConfig)
      → answer (chosen (convert_vault "vault" p)) ≡ with_provider (vault_choice p)
  unfolding convert_vault get_provider_from_config lookup insert
  vault-Meets (some p) = refl
  vault-Meets none = refl

  convert_as-Meets : (c : CertificateConfig) (t : String) → Meets c t
  unfolding convert_as
  convert_as-Meets c t = elim (Bool-cases (t == "fabric-ca")) [
    | inl e ↦
        subst (Meets c) (sym ((eq_iff t "fabric-ca").0 e))
          (fabric_ca-Meets (fabric_ca_of c.provider) c.ca)
    | inr f ↦ elim (Bool-cases (t == "manual")) [
      | inl e ↦
          subst (Meets c) (sym ((eq_iff t "manual").0 e)) (manual-Meets (manual_of c.provider))
      | inr g ↦ elim (Bool-cases (t == "vault")) [
        | inl e ↦ subst (Meets c) (sym ((eq_iff t "vault").0 e)) (vault-Meets (vault_of c.provider))
        | inr k ↦ simp (f, g, k)
      ]
    ]
  ]

  -- In the default factory, the conversion of a configuration followed by the choice of the provider
  -- gives exactly what the configuration asks for, by a type or, where it names none, by the first of
  -- Fabric CA, manual and vault that it has settings for, with the provider of that kind, and an
  -- error where it asks for nothing.
  pub convert_config-asked :
      (c : CertificateConfig)
      → answer (chosen (convert_config quote (some c))) ≡ with_provider (asked c)
  unfolding convert_config
  convert_config-asked c =
      convert_as-Meets c (provider_type c) ∙ ap with_provider (provider_type-asked c)
