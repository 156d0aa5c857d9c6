-- ===== src/Certs/Reuse.antt =====
-- The secret of a CAEnrollment serves as a manually provided certificate.
use Prim.Native.String.{◌++◌}
use fabric_x_operator.Prelude.{String, ◌≡◌, ◌∙◌, ap, refl, some, List}
use fabric_x_operator.Go.{Bytes, Outcome, ok, lookup}
use fabric_x_operator.Api.Nil.{or_default}
use fabric_x_operator.Kube.{NamespacedName, Secret}
use fabric_x_operator.Identity.Types.{EnrolledUser}
use fabric_x_operator.CaEnrollment.Env as CaEnrollment
use fabric_x_operator.CaEnrollment.Enroll.{output_contents}
use fabric_x_operator.Certs.Types.{
  SecretRef, ManualConfig, CertificateData, for_manual, SignCertificateRequest,
  TlsCertificateRequest, Event,
}
use fabric_x_operator.Certs.Providers.{
  extract, returned, from_answer, get_certificate_from_secret, manual_certificate, manual_provider,
}

-- A configuration that names a secret and leaves the keys to the defaults.
abbrev pub default_keys : SecretRef → ManualConfig
default_keys ref = record { secret_ref = some ref; cert_key = ""; key_key = ""; ca_key = "" }

module _ (quote : String → String) (get : NamespacedName → List Event → Outcome Secret)
    (env : CaEnrollment.Env) (user : EnrolledUser) (key : Bytes) where
  -- The certificates of an enrollment, as data of a provider.
  abbrev pub enrolled : String → CertificateData
  enrolled type = record {
    certificate = env.pki.encode (record { type = "CERTIFICATE"; bytes = user.cert.raw });
    private_key = key;
    ca_certificate = env.pki.encode (record { type = "CERTIFICATE"; bytes = user.root.raw });
    type = type;
  }

  extract-output_contents :
      (where_ : String) (ref : SecretRef) (type : String)
      → extract quote where_ (default_keys ref) type (output_contents env user key)
        ≡ ok (enrolled type)
  unfolding extract output_contents lookup
  extract-output_contents where_ ref type = refl

  manual_certificate-enrolled :
      (ref : SecretRef) (s : Secret) (type : String) (h : List Event)
      → get (record { name = ref.name; namespace = or_default ref.namespace "default" }) h ≡ ok s
      → s.contents ≡ output_contents env user key
      → manual_certificate quote get (for_manual (default_keys ref)) type h
        ≡ ok (some (enrolled type))
  unfolding manual_certificate get_certificate_from_secret
  manual_certificate-enrolled ref s type h there same =
      let namespace = or_default ref.namespace "default" in
      let where_ = namespace ++ "/" ++ ref.name in
      let config = default_keys ref in
      ap (from_answer quote where_ config type) there
      ∙ ap (λ c. returned (extract quote where_ config type c)) same
      ∙ ap returned (extract-output_contents where_ ref type)

  -- The manual provider, asked for a signing or a TLS certificate from the secret that a CAEnrollment
  -- has written, with the default keys, answers with the certificate, the key and the root
  -- certificate of the enrollment. The secret is read in the namespace that the configuration names,
  -- or in "default".
  pub manual_provider-enrolled :
      (ref : SecretRef) (s : Secret) (sign : SignCertificateRequest) (tls : TlsCertificateRequest)
      (h : List Event)
      → get (record { name = ref.name; namespace = or_default ref.namespace "default" }) h ≡ ok s
      → s.contents ≡ output_contents env user key
      → sign.config ≡ for_manual (default_keys ref)
      → tls.config ≡ for_manual (default_keys ref)
      → ((manual_provider quote get).provision_sign_certificate sign h
          ≡ ok (some (enrolled "sign")))
        × ((manual_provider quote get).provision_tls_certificate tls h ≡ ok (some (enrolled "tls")))
  unfolding manual_provider
  manual_provider-enrolled ref s sign tls h there same a b = (
    ap (λ c. manual_certificate quote get c "sign" h) a
        ∙ manual_certificate-enrolled ref s "sign" h there same,
    ap (λ c. manual_certificate quote get c "tls" h) b
        ∙ manual_certificate-enrolled ref s "tls" h there same,
  )
