-- ===== src/Identity/Ready/Idemix.antt =====
-- The idemix path of `handleEnrollment` writes READY only with its reason.
use fabric_x_operator.Prelude.{String, ◌≡◌, List}
use fabric_x_operator.Go.{ok}
use fabric_x_operator.Go.Triple.{
  Triple, Triple-call, Triple-check, Triple-invoke, Triple-weaken, Triple-deferred, Occurs, before,
  Occurs-answer,
}
use fabric_x_operator.Identity.Types.{
  Identity, Enrollment, IdemixEnrollment, IdemixRequest, IdemixResponse,
}
use fabric_x_operator.Identity.Env.{Env, Event, enrolled_idemix}
use fabric_x_operator.Identity.Rules.{Triple-with_inputs, Triple-create_idemix_secret}
use fabric_x_operator.Identity.Enroll.{Inputs}
use fabric_x_operator.Identity.Idemix.{
  idemix_request, enroll_in_dir, enroll_idemix_and_store, handle_idemix_enrollment,
}
use fabric_x_operator.Identity.Ready.Backing.{
  issued_idemix, Backed-before, Honest, Ready, update_status_with_time-Honest,
}
use fabric_x_operator.Identity.Ready.X509.{failed-Honest}

module _ (env : Env) where
  abbrev Enrolled : IdemixRequest → IdemixResponse → List Event → Type 0
  Enrolled req resp h = Honest env h × Occurs (enrolled_idemix req (ok resp)) h

  enroll_in_dir-Honest :
      (i : Identity) (enrollment : Enrollment) (idemix : IdemixEnrollment) (inputs : Inputs)
      (dir : String)
      → Triple (Honest env) (enroll_in_dir env i enrollment idemix inputs dir) (λ _. Honest env)
  unfolding enroll_in_dir
  enroll_in_dir-Honest i enrollment idemix inputs dir =
      let req : IdemixRequest = idemix_request env enrollment inputs dir in
      Triple-call _ (λ _. Honest env) (λ h p. (tt, p))
        λ wrote.
          Triple-check wrote (λ e _. failed-Honest env i _ e)
            λ _ _.
              Triple-call _
                (λ r h.
                  Honest env h
                  × ((a : IdemixResponse) → r ≡ ok a → Occurs (enrolled_idemix req (ok a)) h))
                (λ h p. ((tt, p), λ a e. Occurs-answer (enrolled_idemix req) _ _ h e))
                λ r.
                  Triple-check r (λ e _. Triple-weaken (λ h p. p.0) (failed-Honest env i _ e))
                    λ resp e.
                      Triple-weaken {P' = Enrolled req resp} (λ h p. (p.0, p.1 resp e))
                        (Triple-invoke _
                          (Triple-create_idemix_secret env (Enrolled req resp) i resp _
                            (λ d o h p. ((tt, p.0), before p.1))
                            (λ f o h p. ((tt, p.0), before p.1))
                            (λ k o h p. ((tt, p.0), before p.1))
                            (λ s o h p. ((tt, p.0), before p.1))
                            (λ s o h p. ((tt, p.0), before p.1)))
                          λ stored.
                            Triple-check stored
                              (λ e' _. Triple-weaken (λ h p. p.0.0) (failed-Honest env i _ e'))
                              λ changed e'.
                                Triple-call _ (λ _. Ready env "READY")
                                  (λ h p. (
                                    (tt, p.0.0),
                                    λ _. Backed-before _ (
                                        let st = p.1 changed e' in
                                        issued_idemix req resp st.0 p.0.1 st.1),
                                  ))
                                  (λ now. update_status_with_time-Honest env changed "READY" _ _))

  pub handle_idemix_enrollment-Honest :
      (i : Identity) (enrollment : Enrollment) (idemix : IdemixEnrollment)
      → Triple (Honest env) (handle_idemix_enrollment env i enrollment idemix) (λ _. Honest env)
  unfolding handle_idemix_enrollment
  handle_idemix_enrollment-Honest i enrollment idemix =
      Triple-with_inputs env (Honest env) i enrollment _
        (enroll_idemix_and_store env i enrollment idemix) (λ key r h p. (tt, p))
        (λ key r h p. (tt, p)) (failed-Honest env i)
        λ inputs.
          Triple-call _ (λ _. Honest env) (λ h p. (tt, p))
            λ made.
              Triple-check made (λ e _. failed-Honest env i _ e)
                λ dir _.
                  Triple-deferred _ (λ _. Honest env)
                    (enroll_in_dir-Honest i enrollment idemix inputs dir) (λ r h p. (tt, p))
