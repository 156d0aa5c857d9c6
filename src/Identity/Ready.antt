-- ===== src/Identity/Ready.antt =====
-- The status READY is written only when the credentials are there: `Reconcile` of
-- internal/controller/identity_controller.go, and all that it calls.
pub mod Backing
mod X509
mod Idemix
use fabric_x_operator.Prelude.{◌≡◌, refl, List, []}
use fabric_x_operator.Go.{Outcome, ok, err, is_not_found}
use fabric_x_operator.Go.Triple.{
  Triple, Triple-pure, Triple-if, Triple-if_nil, Triple-call, Triple-check, Triple-invoke,
  Triple-weaken, Occurs, Occurs-answer, before,
}
use fabric_x_operator.Kube.{NamespacedName, Secret}
use fabric_x_operator.Identity.Types.{Identity, Enrollment, IdemixEnrollment}
use fabric_x_operator.Identity.Env.{Env, Event, got_secret}
use fabric_x_operator.Identity.Secrets.{
  output_key, output_secrets_exist, validate_existing_secrets, validate_contents, idemix_enabled,
}
use fabric_x_operator.Identity.Reconcile.{
  handle_deletion, handle_enrollment, create_materials, ensure_finalizer, report_existing,
  finalizer, reconcile_live, reconcile_found, reconcile, validate_spec,
}
use Backing.{
  Backed, validated, Backed-before, Honest, Ready, failed_ne_ready, invalid_ne_ready,
  update_status-Honest, not_ready-Honest,
}
use X509.{handle_x509_enrollment-Honest}
use Idemix.{handle_idemix_enrollment-Honest}

module _ (env : Env) where
  report_existing-Honest :
      (i : Identity) → Triple (Honest env) (report_existing env i) (λ _. Honest env)
  unfolding report_existing validate_existing_secrets
  report_existing-Honest i =
      Triple-invoke (λ r h. Honest env h × (r ≡ ok tt → Backed env h))
        (Triple-call _
          (λ r h.
            Honest env h
            × ((s : Secret) → r ≡ ok s → Occurs (got_secret (output_key env i) (ok s)) h))
          (λ h p. ((tt, p), λ s e. Occurs-answer (got_secret (output_key env i)) _ _ h e))
          λ r.
            Triple-check r (λ e _. Triple-pure _ (λ h p. (p.0, λ f. cc)))
              λ s e.
                Triple-pure _ (λ h p. (p.0, λ v. validated _ (idemix_enabled i) s (p.1 s e) v)))
        λ valid.
          Triple-check valid
            (λ e _. Triple-weaken (λ h p. p.0) (not_ready-Honest env i "FAILED" _ failed_ne_ready))
            (λ _ e. Triple-weaken (λ h p. (p.0, λ _. p.1 e)) (update_status-Honest env i "READY" _))

  create_materials-Honest :
      (i : Identity) → Triple (Honest env) (create_materials env i) (λ _. Honest env)
  unfolding create_materials
  create_materials-Honest i =
      Triple-if_nil i.spec.enrollment (λ _. not_ready-Honest env i "FAILED" _ failed_ne_ready)
        λ enrollment _.
          Triple-if_nil enrollment.idemix (λ _. handle_x509_enrollment-Honest env i enrollment)
            (λ idemix _. handle_idemix_enrollment-Honest env i enrollment idemix)

  reconcile_live-Honest :
      (i : Identity) → Triple (Honest env) (reconcile_live env i) (λ _. Honest env)
  unfolding reconcile_live output_secrets_exist
  reconcile_live-Honest i =
      Triple-check (validate_spec i) (λ e _. not_ready-Honest env i "INVALID" _ invalid_ne_ready)
        λ _ _.
          Triple-invoke (λ _. Honest env)
            (Triple-call _ (λ _. Honest env) (λ h p. (tt, p)) λ got. Triple-pure _ (λ h p. p))
            λ exist.
              Triple-if exist (λ _. report_existing-Honest i) (λ _. create_materials-Honest i)

  handle_deletion-Honest :
      (i : Identity) → Triple (Honest env) (handle_deletion env i) (λ _. Honest env)
  unfolding handle_deletion
  handle_deletion-Honest i =
      Triple-if (env.util.contains_finalizer i.meta finalizer)
        (λ _.
          Triple-call _ (λ _. Honest env) (λ h p. (tt, p))
            λ r. Triple-check r (λ _ _. Triple-pure _ (λ h p. p)) (λ _ _. Triple-pure _ (λ h p. p)))
        (λ _. Triple-pure _ (λ h p. p))

  ensure_finalizer-Honest :
      (i : Identity) → Triple (Honest env) (ensure_finalizer env i) (λ _. Honest env)
  unfolding ensure_finalizer
  ensure_finalizer-Honest i =
      Triple-if (env.util.contains_finalizer i.meta finalizer) (λ _. Triple-pure _ (λ h p. p))
        (λ _. Triple-call _ (λ _. Honest env) (λ h p. (tt, p)) λ r. Triple-pure _ (λ h p. p))

  reconcile_found-Honest :
      (i : Identity) → Triple (Honest env) (reconcile_found env i) (λ _. Honest env)
  unfolding reconcile_found
  reconcile_found-Honest i =
      Triple-if i.meta.deleted (λ _. handle_deletion-Honest i)
        λ _.
          Triple-invoke (λ _. Honest env) (ensure_finalizer-Honest i)
            λ held.
              Triple-check held (λ _ _. Triple-pure _ (λ h p. p))
                (λ live _. reconcile_live-Honest live)

  run-Honest : (key : NamespacedName) → Triple (Honest env) (reconcile env key) (λ _. Honest env)
  unfolding reconcile
  run-Honest key =
      Triple-call _ (λ _. Honest env) (λ h p. (tt, p))
        λ got.
          Triple-check got
            (λ e _.
              Triple-if (is_not_found e) (λ _. Triple-pure _ (λ h p. p))
                (λ _. Triple-pure _ (λ h p. p)))
            (λ i _. reconcile_found-Honest i)

  -- In every run of `Reconcile`, whatever the cluster and the certificate authority answer, each
  -- status update that sets READY is preceded by its reason: the certificate authority issued
  -- credentials and the API server accepted a secret (for X.509, one with exactly the issued
  -- certificate, key and CA certificate), or a secret was read and passed the validation.
  pub reconcile-Honest : (key : NamespacedName) → Honest env (reconcile env key []).1
  reconcile-Honest key = (run-Honest key).at [] tt
