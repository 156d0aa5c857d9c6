-- ===== src/Identity/Invariant.antt =====
-- One induction over the paths of `Reconcile` behind the finalizer, for any invariant `I` of the
-- history and any condition `Q` on what the status writers, which end every path, return.
use fabric_x_operator.Prelude.{String, ◌≡◌, refl, Bool, true, false, none, List, ◌∷◌}
use fabric_x_operator.Go.{GoError, Outcome}
use fabric_x_operator.Go.Triple.{
  Triple, Triple-pure, Triple-if, Triple-if_nil, Triple-call, Triple-check, Triple-invoke,
  Triple-weaken, Triple-deferred,
}
use fabric_x_operator.Kube.{CtrlResult}
use fabric_x_operator.Identity.Types.{Identity, Status, Enrollment, IdemixEnrollment, X509Request}
use fabric_x_operator.Identity.Env.{Env, Event, updated_status, made_temp_dir, removed_all}
use fabric_x_operator.Identity.Rules.{
  Keeps, Triple-with_inputs, Triple-create_output_secrets, Triple-create_idemix_secret,
}
use fabric_x_operator.Identity.Status.{
  write_status, update_status, update_status_with_time, update_status_with_certs,
}
use fabric_x_operator.Identity.Secrets.{output_secrets_exist, validate_existing_secrets}
use fabric_x_operator.Identity.X509.{enroll_x509}
use fabric_x_operator.Identity.Enroll.{
  Inputs, failed, enroll_and_store, handle_x509_enrollment, x509_request,
}
use fabric_x_operator.Identity.Idemix.{
  enroll_in_dir, enroll_idemix_and_store, handle_idemix_enrollment, idemix_ca_ref,
}
use fabric_x_operator.Identity.Reconcile.{
  create_materials, report_existing, reconcile_live, validate_spec,
}

-- The events other than status updates and the handling of temporary directories.
abbrev pub is_plain : Event → Bool
is_plain (updated_status i r) = false
is_plain (made_temp_dir r) = false
is_plain (removed_all dir) = false
is_plain _ = true

-- The status writers leave the names of the output secrets alone.
abbrev pub KeepsOutputs : (Status → Status) → Type 0
KeepsOutputs change = (s : Status) → (change s).output_secrets ≡ s.output_secrets

module _ (env : Env) (I : List Event → Type 0) (Q : Outcome CtrlResult → List Event → Type 0)
    (plain : (e : Event) → is_plain e ≡ true → Keeps I e)
    (writes : (change : Status → Status)
      → KeepsOutputs change
      → (i : Identity) → Triple I (write_status env change i) Q) where
  pub Triple-update_status :
      (i : Identity) (status message : String) → Triple I (update_status env i status message) Q
  unfolding update_status
  Triple-update_status i status message = writes _ (λ s. refl) i

  pub Triple-failed :
      (i : Identity) (prefix : String) (e : GoError) → Triple I (failed env i prefix e) Q
  unfolding failed
  Triple-failed i prefix e = Triple-update_status i "FAILED" _

  enroll_x509-keeps : (req : X509Request) → Triple I (enroll_x509 env req) (λ _. I)
  unfolding enroll_x509
  enroll_x509-keeps req =
      Triple-call _ (λ _. I) (λ h p. plain _ refl h p)
        λ r.
          Triple-check r (λ _ _. Triple-pure _ (λ h p. p))
            λ user _.
              Triple-check _ (λ _ _. Triple-pure _ (λ h p. p)) λ key _. Triple-pure _ (λ h p. p)

  enroll_and_store-keeps :
      (i : Identity) (enrollment : Enrollment) (inputs : Inputs)
      → Triple I (enroll_and_store env i enrollment inputs) Q
  unfolding enroll_and_store update_status_with_certs
  enroll_and_store-keeps i enrollment inputs =
      Triple-invoke (λ _. I) (enroll_x509-keeps (x509_request env i enrollment inputs))
        λ r.
          Triple-check r (λ e _. Triple-failed i _ e)
            λ resp _.
              Triple-invoke _
                (Triple-create_output_secrets env I i _ _ _ none none none
                  (λ s r' h p. plain _ refl h p) (λ s r' h p. plain _ refl h p))
                λ stored.
                  Triple-check stored (λ e _. Triple-weaken (λ h p. p.0) (Triple-failed i _ e))
                    λ changed _.
                      Triple-call _ (λ _. I) (λ h p. plain _ refl h p.0)
                        λ now. writes _ (λ s. refl) changed

  pub Triple-enroll_in_dir :
      (i : Identity) (enrollment : Enrollment) (idemix : IdemixEnrollment) (inputs : Inputs)
      (dir : String)
      → Triple I (enroll_in_dir env i enrollment idemix inputs dir) Q
  unfolding enroll_in_dir update_status_with_time
  Triple-enroll_in_dir i enrollment idemix inputs dir =
      Triple-call _ (λ _. I) (λ h p. plain _ refl h p)
        λ wrote.
          Triple-check wrote (λ e _. Triple-failed i _ e)
            λ _ _.
              Triple-call _ (λ _. I) (λ h p. plain _ refl h p)
                λ r.
                  Triple-check r (λ e _. Triple-failed i _ e)
                    λ resp _.
                      Triple-invoke _
                        (Triple-create_idemix_secret env I i resp _ (λ d o h p. plain _ refl h p)
                          (λ f o h p. plain _ refl h p) (λ k o h p. plain _ refl h p)
                          (λ s o h p. plain _ refl h p) (λ s o h p. plain _ refl h p))
                        λ stored.
                          Triple-check stored
                            (λ e _. Triple-weaken (λ h p. p.0) (Triple-failed i _ e))
                            λ changed _.
                              Triple-call _ (λ _. I) (λ h p. plain _ refl h p.0)
                                λ now. writes _ (λ s. refl) changed

  -- Where the invariant does not look at temporary directories.
  pub Triple-enroll_idemix_and_store :
      ((r : Outcome String) → Keeps I (made_temp_dir r))
      → ((r : Outcome CtrlResult) (dir : String) (h : List Event)
          → Q r h
          → Q r (removed_all dir ∷ h))
      → (i : Identity) (enrollment : Enrollment) (idemix : IdemixEnrollment) (inputs : Inputs)
      → Triple I (enroll_idemix_and_store env i enrollment idemix inputs) Q
  unfolding enroll_idemix_and_store
  Triple-enroll_idemix_and_store made removed i enrollment idemix inputs =
      Triple-call _ (λ _. I) (λ h p. made _ h p)
        λ r.
          Triple-check r (λ e _. Triple-failed i _ e)
            λ dir _.
              Triple-deferred _ Q (Triple-enroll_in_dir i enrollment idemix inputs dir)
                (λ r' h p. removed r' dir h p)

  module _
      (idemix_store : (i : Identity) (enrollment : Enrollment) (idemix : IdemixEnrollment)
          (inputs : Inputs)
        → Triple I (enroll_idemix_and_store env i enrollment idemix inputs) Q) where
    create_materials-keeps : (i : Identity) → Triple I (create_materials env i) Q
    unfolding create_materials handle_x509_enrollment handle_idemix_enrollment
    create_materials-keeps i =
        Triple-if_nil i.spec.enrollment (λ _. Triple-update_status i "FAILED" _)
          λ enrollment _.
            Triple-if_nil enrollment.idemix
              (λ _.
                Triple-with_inputs env I i enrollment enrollment.ca_ref
                  (enroll_and_store env i enrollment) (λ k r h p. plain _ refl h p)
                  (λ k r h p. plain _ refl h p) (Triple-failed i)
                  (enroll_and_store-keeps i enrollment))
              (λ idemix _.
                Triple-with_inputs env I i enrollment (idemix_ca_ref enrollment idemix)
                  (enroll_idemix_and_store env i enrollment idemix) (λ k r h p. plain _ refl h p)
                  (λ k r h p. plain _ refl h p) (Triple-failed i)
                  (idemix_store i enrollment idemix))

    report_existing-keeps : (i : Identity) → Triple I (report_existing env i) Q
    unfolding report_existing validate_existing_secrets
    report_existing-keeps i =
        Triple-invoke (λ _. I)
          (Triple-call _ (λ _. I) (λ h p. plain _ refl h p)
            λ r. Triple-check r (λ _ _. Triple-pure _ (λ h p. p)) λ s _. Triple-pure _ (λ h p. p))
          λ valid.
            Triple-check valid (λ e _. Triple-update_status i "FAILED" _)
              (λ _ _. Triple-update_status i "READY" _)

    -- All that `Reconcile` does behind the finalizer.
    pub Triple-reconcile_live : (i : Identity) → Triple I (reconcile_live env i) Q
    unfolding reconcile_live output_secrets_exist
    Triple-reconcile_live i =
        Triple-check (validate_spec i) (λ e _. Triple-update_status i "INVALID" _)
          λ _ _.
            Triple-invoke (λ _. I)
              (Triple-call _ (λ _. I) (λ h p. plain _ refl h p) λ got. Triple-pure _ (λ h p. p))
              λ exist.
                Triple-if exist (λ _. report_existing-keeps i) (λ _. create_materials-keeps i)
