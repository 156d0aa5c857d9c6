-- ===== src/Identity/Ready/X509.antt =====
-- The X.509 path of `handleEnrollment` writes READY only with its reason.
use fabric_x_operator.Prelude.{arith, String, ◌≡◌, none, List, ◌∷◌}
use fabric_x_operator.Go.{GoError, Outcome, ok}
use fabric_x_operator.Go.Triple.{
  Triple, Triple-pure, Triple-call, Triple-check, Triple-invoke, Triple-weaken, Occurs, before,
  Occurs-answer,
}
use fabric_x_operator.Kube.{Secret}
use fabric_x_operator.Identity.Types.{Identity, Enrollment, X509Request, EnrolledUser, X509Response}
use fabric_x_operator.Identity.Env.{Env, Event, enrolled_user}
use fabric_x_operator.Identity.Rules.{Stored, Triple-with_inputs, Triple-create_output_secrets}
use fabric_x_operator.Identity.Secrets.{output_contents}
use fabric_x_operator.Identity.X509.{enroll_x509}
use fabric_x_operator.Identity.Enroll.{
  Inputs, failed, enroll_and_store, handle_x509_enrollment, x509_request,
}
use fabric_x_operator.Identity.Ready.Backing.{
  Backed, issued, Backed-before, Honest, Ready, pem_of, failed_ne_ready, not_ready-Honest,
  update_status_with_certs-Honest,
}

module _ (env : Env) where
  pub failed-Honest :
      (i : Identity) (prefix : String) (e : GoError)
      → Triple (Honest env) (failed env i prefix e) (λ _. Honest env)
  unfolding failed
  failed-Honest i prefix e = not_ready-Honest env i "FAILED" _ failed_ne_ready

  -- A certificate authority issued what the response holds.
  abbrev Issued : X509Response → List Event → Type 0
  Issued resp h =
      (req : X509Request) × (user : EnrolledUser) × Occurs (enrolled_user req (ok user)) h
      × (env.encode_private_key user.key ≡ ok resp.private_key)
      × (resp.certificate ≡ pem_of env user.cert)
      × (resp.ca_certificate ≡ pem_of env user.root)

  abbrev HonestIssue : Outcome X509Response → List Event → Type 0
  HonestIssue r h = Honest env h × ((resp : X509Response) → r ≡ ok resp → Issued resp h)

  enroll_x509-Issued : (req : X509Request) → Triple (Honest env) (enroll_x509 env req) HonestIssue
  unfolding enroll_x509
  enroll_x509-Issued req =
      Triple-call _
        (λ r h.
          Honest env h × ((u : EnrolledUser) → r ≡ ok u → Occurs (enrolled_user req (ok u)) h))
        (λ h p. ((tt, p), λ u e. Occurs-answer (enrolled_user req) _ _ h e))
        λ r.
          Triple-check r (λ e _. Triple-pure _ (λ h p. (p.0, λ resp f. cc)))
            λ user e.
              Triple-check (env.encode_private_key user.key)
                (λ e' _. Triple-pure _ (λ h p. (p.0, λ resp f. cc)))
                (λ key k. Triple-pure _ (λ h p. (
                  p.0,
                  λ resp f. (req, user, p.1 user e, ground arith, ground arith, ground arith),
                )))

  abbrev HonestIssued : X509Response → List Event → Type 0
  HonestIssued resp h = Honest env h × Issued resp h

  Issued-before :
      (resp : X509Response) (e : Event) {h : List Event} → Issued resp h → Issued resp (e ∷ h)
  Issued-before resp e (req, user, o, k, c, a) = (req, user, before o, k, c, a)

  x509_backing :
      (resp : X509Response) {h : List Event}
      → Issued resp h
      → ((s : Secret) × (s.contents
            ≡ output_contents resp.certificate resp.private_key resp.ca_certificate none none none)
          × Stored s h)
      → Backed env h
  x509_backing resp (req, user, o, k, c, a) (s, contents, st) =
      issued req user resp.private_key s o k (rw (← c, ← a) contents) st

  enroll_and_store-Honest :
      (i : Identity) (enrollment : Enrollment) (inputs : Inputs)
      → Triple (Honest env) (enroll_and_store env i enrollment inputs) (λ _. Honest env)
  unfolding enroll_and_store
  enroll_and_store-Honest i enrollment inputs =
      Triple-invoke HonestIssue (enroll_x509-Issued (x509_request env i enrollment inputs)) λ r.
        Triple-check r (λ e _. Triple-weaken (λ h p. p.0) (failed-Honest i _ e))
          λ resp e.
            Triple-weaken {P' = HonestIssued resp} (λ h p. (p.0, p.1 resp e))
              (Triple-invoke _
                (Triple-create_output_secrets env (HonestIssued resp) i _ _ _ none none none
                  (λ s r' h p. ((tt, p.0), Issued-before resp _ p.1))
                  (λ s r' h p. ((tt, p.0), Issued-before resp _ p.1)))
                λ stored.
                  Triple-check stored (λ e' _. Triple-weaken (λ h p. p.0.0) (failed-Honest i _ e'))
                    λ changed e'.
                      Triple-call _ (λ _. Ready env "READY")
                        (λ h p. (
                          (tt, p.0.0),
                          λ _. Backed-before _ (x509_backing resp p.0.1 (p.1 changed e')),
                        ))
                        (λ now. update_status_with_certs-Honest env changed "READY" _ _ _ _))

  pub handle_x509_enrollment-Honest :
      (i : Identity) (enrollment : Enrollment)
      → Triple (Honest env) (handle_x509_enrollment env i enrollment) (λ _. Honest env)
  unfolding handle_x509_enrollment
  handle_x509_enrollment-Honest i enrollment =
      Triple-with_inputs env (Honest env) i enrollment enrollment.ca_ref
        (enroll_and_store env i enrollment) (λ key r h p. (tt, p)) (λ key r h p. (tt, p))
        (failed-Honest i) (enroll_and_store-Honest i enrollment)
