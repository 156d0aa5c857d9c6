-- ===== src/Identity/Ready/Backing.antt =====
-- What backs a status READY, and the status writers.
use fabric_x_operator.Prelude.{
  String, ◌≡◌, refl, sym, ◌∙◌, ◌≢◌, Bool, Option, none, List, ◌∷◌, arith, eq_iff,
}
use fabric_x_operator.Go.{Bytes, ok}
use fabric_x_operator.Go.Triple.{
  Triple, Triple-pure, Triple-call, Triple-check, Triple-weaken, Each, Occurs, before,
}
use fabric_x_operator.Kube.{Time, NamespacedName, Secret, Certificate}
use fabric_x_operator.Identity.Types.{
  Identity, Status, X509Request, EnrolledUser, IdemixRequest, IdemixResponse,
}
use fabric_x_operator.Identity.Env.{
  Env, Event, updated_status, got_secret, enrolled_user, enrolled_idemix,
}
use fabric_x_operator.Identity.Rules.{Stored, Stored-before}
use fabric_x_operator.Identity.Status.{
  write_status, update_status, update_status_with_time, update_status_with_certs,
}
use fabric_x_operator.Identity.Secrets.{output_contents, validate_contents}

abbrev pub pem_of : Env → Certificate → Bytes
pem_of env c = env.pki.encode (record { type = "CERTIFICATE"; bytes = c.raw })

-- The history has a reason for READY: a secret with just what the certificate authority issued was
-- stored, or one that was there was read and passed the validation.
pub data Backed (env : Env) (h : List Event) : Type 0 where
  issued :
      (req : X509Request) (user : EnrolledUser) (key : Bytes) (s : Secret)
      → Occurs (enrolled_user req (ok user)) h
      → env.encode_private_key user.key ≡ ok key
      → s.contents
        ≡ output_contents (pem_of env user.cert) key (pem_of env user.root) none none none
      → Stored s h
      → Backed env h
  issued_idemix :
      (req : IdemixRequest) (resp : IdemixResponse) (s : Secret)
      → Occurs (enrolled_idemix req (ok resp)) h
      → Stored s h
      → Backed env h
  validated :
      (key : NamespacedName) (idemix : Bool) (s : Secret)
      → Occurs (got_secret key (ok s)) h
      → validate_contents env idemix s.contents ≡ ok tt
      → Backed env h

pub Backed-before : {env : Env} {h : List Event} (e : Event) → Backed env h → Backed env (e ∷ h)
Backed-before e (issued req user key s o k c st) =
    issued req user key s (before o) k c (Stored-before e st)
Backed-before e (issued_idemix req resp s o st) =
    issued_idemix req resp s (before o) (Stored-before e st)
Backed-before e (validated key idemix s o v) = validated key idemix s (before o) v

-- A write of READY has its reason in the events before it.
abbrev pub ReadyIsBacked : Env → List Event → Event → Type 0
ReadyIsBacked env h (updated_status i r) = i.status.status ≡ "READY" → Backed env h
ReadyIsBacked env h _ = Unit

abbrev pub Honest : Env → List Event → Type 0
Honest env = Each (ReadyIsBacked env)

abbrev pub Ready : Env → String → List Event → Type 0
Ready env status h = Honest env h × (status ≡ "READY" → Backed env h)

pub failed_ne_ready : ◌≢◌ {A = String} "FAILED" "READY"
failed_ne_ready = ground (arith, eq_iff "FAILED" "READY")

pub invalid_ne_ready : ◌≢◌ {A = String} "INVALID" "READY"
invalid_ne_ready = ground (arith, eq_iff "INVALID" "READY")

module _ (env : Env) where
  write_status-Honest :
      (change : Status → Status) (status : String) (i : Identity)
      → ((s : Status) → (change s).status ≡ status)
      → Triple (Ready env status) (write_status env change i) (λ _. Honest env)
  write_status-Honest change status i says =
      Triple-call _ (λ _. Ready env status) (λ h r. ((tt, r.0), λ e. Backed-before _ (r.1 e)))
        λ got.
          Triple-check got (λ e _. Triple-pure _ (λ h r. r.0))
            λ fresh _.
              Triple-call _ (λ _. Honest env)
                (λ h r. ((λ e. r.1 (sym (says fresh.status) ∙ e)), r.0))
                λ written.
                  Triple-check written (λ e _. Triple-pure _ (λ h r. r))
                    (λ _ _. Triple-pure _ (λ h r. r))

  pub update_status-Honest :
      (i : Identity) (status message : String)
      → Triple (Ready env status) (update_status env i status message) (λ _. Honest env)
  unfolding update_status
  update_status-Honest i status message = write_status-Honest _ status i (λ s. refl)

  -- A status other than READY needs no reason.
  pub not_ready-Honest :
      (i : Identity) (status message : String)
      → ◌≢◌ {A = String} status "READY"
      → Triple (Honest env) (update_status env i status message) (λ _. Honest env)
  not_ready-Honest i status message ne =
      Triple-weaken (λ h honest. (honest, λ e. absurd (ne e)))
        (update_status-Honest i status message)

  pub update_status_with_time-Honest :
      (i : Identity) (status message : String) (time : Option Time)
      → Triple
          (Ready env status)
          (update_status_with_time env i status message time)
          (λ _. Honest env)
  unfolding update_status_with_time
  update_status_with_time-Honest i status message time = write_status-Honest _ status i (λ s. refl)

  pub update_status_with_certs-Honest :
      (i : Identity) (status message : String) (time expiry tls_expiry : Option Time)
      → Triple
          (Ready env status)
          (update_status_with_certs env i status message time expiry tls_expiry)
          (λ _. Honest env)
  unfolding update_status_with_certs
  update_status_with_certs-Honest i status message time expiry tls_expiry =
      write_status-Honest _ status i (λ s. refl)
