-- ===== src/ChainNamespace/Validation.antt =====
-- `validateNamespace`, and what it accepts.
use fabric_x_operator.Prelude.{
  ◌≡◌, ◌≢◌, refl, Bool, true, false, Option, none, some, ◌==◌, ◌||◌, arith, ◌↔◌, eq_iff,
  if◌then◌else◌,
}
use fabric_x_operator.Go.{Outcome, ok, err, new_error}
use fabric_x_operator.ChainNamespace.Types.{ChainNamespace, NamespaceTls, SecretKeyRef}

-- The TLS part, which is looked at only if it is there and enabled.
unfoldable pub validate_tls : Option NamespaceTls → Outcome (Unit {0})
validate_tls none = ok tt
validate_tls (some tls) =
    if tls.enabled
    then elim tls.ca_cert [
      | none ↦ err (new_error "tls.caCert must be specified when TLS is enabled")
      | some ref ↦
          if (ref.name == "") || (ref.namespace == "")
          then err
              (new_error "tls.caCert reference must specify name and namespace when TLS is enabled")
          else ok tt
    ]
    else ok tt

-- `validateNamespace`
unfoldable pub validate_namespace : ChainNamespace → Outcome (Unit {0})
unfolding validate_tls
validate_namespace ns =
    if ns.spec.name == ""
    then err (new_error "namespace name cannot be empty")
    else if ns.spec.orderer == ""
    then err (new_error "orderer endpoint cannot be empty")
    else if ns.spec.msp_id == ""
    then err (new_error "mspID cannot be empty")
    else if (ns.spec.identity.name == "") || (ns.spec.identity.namespace == "")
    then err (new_error "identity reference must specify name and namespace")
    else validate_tls ns.spec.tls

-- What a TLS part needs.
abbrev pub TlsIsSet : Option NamespaceTls → Type 0
TlsIsSet none = Unit
TlsIsSet (some tls) =
    tls.enabled ≡ true
    → (ref : SecretKeyRef) × (tls.ca_cert ≡ some ref) × (ref.name ≢ "") × (ref.namespace ≢ "")

-- What a namespace needs to be deployed.
pub record IsDeployable (ns : ChainNamespace) : Type 0 where
  pub name_set : ns.spec.name ≢ ""
  pub orderer_set : ns.spec.orderer ≢ ""
  pub msp_id_set : ns.spec.msp_id ≢ ""
  pub identity_name_set : ns.spec.identity.name ≢ ""
  pub identity_namespace_set : ns.spec.identity.namespace ≢ ""
  pub tls_set : TlsIsSet ns.spec.tls

validate_tls-ref :
    (ref : SecretKeyRef)
    → (validate_tls (some (record { enabled = true; ca_cert = some ref })) ≡ ok tt)
      ↔ ((ref.name ≢ "") × (ref.namespace ≢ ""))
unfolding validate_tls
validate_tls-ref ref = ground (arith, eq_iff ref.name "", eq_iff ref.namespace "")

validate_tls-some :
    (enabled : Bool) (ca_cert : Option SecretKeyRef)
    → (validate_tls (some (record { enabled = enabled; ca_cert = ca_cert })) ≡ ok tt)
      ↔ TlsIsSet (some (record { enabled = enabled; ca_cert = ca_cert }))
unfolding validate_tls
validate_tls-some false c = (λ e f. cc, λ f. refl)
validate_tls-some true none = (λ e f. cc, λ f. some_of_none (f refl).0 (f refl).1)
  where
    some_of_none :
        (ref : SecretKeyRef)
        → ◌≡◌ {A = Option SecretKeyRef} none (some ref)
        → ◌≡◌ {A = Outcome (Unit {0})}
            (err (new_error "tls.caCert must be specified when TLS is enabled"))
            (ok tt)
    some_of_none ref e = cc
validate_tls-some true (some ref) = (
  λ e f. let s = (validate_tls-ref ref).0 e in (ref, refl, s.0, s.1),
  λ f. (validate_tls-ref ref).1 (same_ref (f refl).0 (f refl).1 (f refl).2 (f refl).3),
)
  where
    same_ref :
        (r : SecretKeyRef)
        → ◌≡◌ {A = Option SecretKeyRef} (some ref) (some r)
        → r.name ≢ ""
        → r.namespace ≢ ""
        → (ref.name ≢ "") × (ref.namespace ≢ "")
    same_ref r e a b = (λ x. grind (arith, a, b), λ x. grind (arith, a, b))

validate_tls_lem : (tls : Option NamespaceTls) → (validate_tls tls ≡ ok tt) ↔ TlsIsSet tls
unfolding validate_tls
validate_tls_lem none = (λ e. tt, λ e. refl)
validate_tls_lem (some tls) = validate_tls-some tls.enabled tls.ca_cert

-- The tests before the TLS part, for any outcome of the TLS part.
validate_fields :
    (ns : ChainNamespace)
    → (validate_namespace ns ≡ ok tt) ↔ (
        (ns.spec.name ≢ "")
        × (ns.spec.orderer ≢ "")
        × (ns.spec.msp_id ≢ "")
        × (ns.spec.identity.name ≢ "")
        × (ns.spec.identity.namespace ≢ "")
        × (validate_tls ns.spec.tls ≡ ok tt))
unfolding validate_namespace
validate_fields ns = ground (
  arith,
  eq_iff ns.spec.name "",
  eq_iff ns.spec.orderer "",
  eq_iff ns.spec.msp_id "",
  eq_iff ns.spec.identity.name "",
  eq_iff ns.spec.identity.namespace "",
)

-- `validateNamespace` accepts exactly the namespaces that have a name, an orderer, an MSP ID, a
-- full reference to an Identity, and, if TLS is enabled, a CA certificate with a name and a
-- namespace.
pub validate_namespace_lem :
    (ns : ChainNamespace) → (validate_namespace ns ≡ ok tt) ↔ IsDeployable ns
validate_namespace_lem ns =
    let f = validate_fields ns in
    let t = validate_tls_lem ns.spec.tls in
    (
      λ e.
          let q = f.0 e in
          record {
            name_set = q.0;
            orderer_set = q.1;
            msp_id_set = q.2;
            identity_name_set = q.3;
            identity_namespace_set = q.4;
            tls_set = t.0 q.5;
          },
      λ d. f.1 (
        d.name_set,
        d.orderer_set,
        d.msp_id_set,
        d.identity_name_set,
        d.identity_namespace_set,
        t.1 d.tls_set,
      ),
    )
