-- ===== src/CaEnrollment/Ignored.antt =====
-- What an enrollment does not look at.
use fabric_x_operator.Prelude.{String, ◌≡◌, refl, Option, List}
use fabric_x_operator.Go.{ℤ, Outcome, ok, err}
use fabric_x_operator.Go.Act.{Act, pure, call, check, deferred}
use fabric_x_operator.Kube.{Certificate}
use fabric_x_operator.CaEnrollment.Types.{CaEnrollment, EnrollmentTls}
use fabric_x_operator.CaEnrollment.Env.{Env, Event, read_clock}
use fabric_x_operator.CaEnrollment.Enroll.{
  read_credentials, enroll_request, output_secret, store, issue, note_enrollment, enroll_identity,
}

-- The same CAEnrollment with another type, affiliation, maximum of enrollments and TLS part.
abbrev pub with_settings : CaEnrollment → String → String → ℤ → Option EnrollmentTls → CaEnrollment
with_settings e type affiliation max_enrollments tls = record e {
  spec = record e.spec {
    type = type;
    affiliation = affiliation;
    max_enrollments = max_enrollments;
    tls = tls;
  };
}

-- The same change on the object that a call returns.
abbrev pub returned_with :
    String → String → ℤ → Option EnrollmentTls → Outcome CaEnrollment → Outcome CaEnrollment
returned_with type affiliation max tls (ok e) = ok (with_settings e type affiliation max tls)
returned_with type affiliation max tls (err x) = err x

module _ (env : Env) (type affiliation : String) (max : ℤ) (tls : Option EnrollmentTls) where
  -- The end of `enrollIdentity`, after `issue`.
  abbrev finish : CaEnrollment → Outcome Certificate → Act Event (Outcome CaEnrollment)
  finish e r =
      check r (λ x. pure (err x))
        λ cert. call env.now read_clock (λ now. pure (ok (note_enrollment env e now cert)))

  finish-with_settings :
      (e : CaEnrollment) (r : Outcome Certificate) (h : List Event)
      → finish (with_settings e type affiliation max tls) r h
        ≡ (returned_with type affiliation max tls (finish e r h).0, (finish e r h).1)
  unfolding deferred note_enrollment
  finish-with_settings e (ok cert) h = refl
  finish-with_settings e (err x) h = refl

  -- An enrollment makes the same calls and ends in the same result and status, from any history,
  -- whatever the type, the affiliation, the maximum of enrollments and the TLS part of the spec
  -- are: none of them is enforced or used.
  pub enroll_identity-with_settings :
      (e : CaEnrollment) (h : List Event)
      → enroll_identity env (with_settings e type affiliation max tls) h ≡ (
        returned_with type affiliation max tls (enroll_identity env e h).0,
        (enroll_identity env e h).1,
      )
  unfolding enroll_identity issue read_credentials enroll_request output_secret store deferred
  enroll_identity-with_settings e h = let r = issue env e h in finish-with_settings e r.0 r.1
