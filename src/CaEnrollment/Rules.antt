-- ===== src/CaEnrollment/Rules.antt =====
-- Rules of the program logic for the parts of the reconciler, for any invariant that the events of
-- those parts keep.
use fabric_x_operator.Prelude.{String, ◌≡◌, refl, Bool, true, false, List, ◌∷◌, ◌==◌}
use fabric_x_operator.Go.{Bytes, Outcome, ok, is_not_found}
use fabric_x_operator.Go.Triple.{
  Triple, Triple-pure, Triple-if, Triple-call, Triple-check, Triple-invoke, Triple-weaken, Occurs,
  before, Occurs-answer,
}
use fabric_x_operator.Kube.{NamespacedName, Secret, Certificate}
use fabric_x_operator.Identity.Types.{Ca, EnrolledUser}
use fabric_x_operator.CaEnrollment.Types.{CaEnrollment, EnrollUserRequest}
use fabric_x_operator.CaEnrollment.Env.{
  Env, Event, updated_enrollment, created_secret, updated_secret, deleted_secret, enrolled_user,
}
use fabric_x_operator.CaEnrollment.Status.{update_status}
use fabric_x_operator.CaEnrollment.Enroll.{
  read_credentials, enroll_request, output_key, output_secret, store, issue, enroll_identity,
}
use fabric_x_operator.CaEnrollment.Reconcile.{init_status}

-- `I` is kept by an event `e`.
abbrev pub Keeps : (List Event → Type 0) → Event → Type 0
Keeps I e = (h : List Event) → I h → I (e ∷ h)

-- The events other than updates of the CAEnrollment itself, deletions and enrollments.
abbrev pub is_plain : Event → Bool
is_plain (updated_enrollment i r) = false
is_plain (deleted_secret k r) = false
is_plain (enrolled_user q r) = false
is_plain _ = true

-- The API server accepted a secret with the contents of `s`, as a new one or in place of another.
pub data Stored (s : Secret) (h : List Event) : Type 0 where
  created : (s' : Secret) → Occurs (created_secret s (ok s')) h → Stored s h
  updated :
      (old s' : Secret)
      → old.contents ≡ s.contents
      → Occurs (updated_secret old (ok s')) h
      → Stored s h

pub Stored-before : {s : Secret} {h : List Event} (e : Event) → Stored s h → Stored s (e ∷ h)
Stored-before e (created s' o) = created s' (before o)
Stored-before e (updated old s' c o) = updated old s' c (before o)

-- A user was enrolled, and the output secret made of the answer was accepted.
pub data Issued (env : Env) (i : CaEnrollment) (h : List Event) : Type 0 where
  issued :
      (q : EnrollUserRequest) (user : EnrolledUser) (key : Bytes) (s : Secret)
      → Occurs (enrolled_user q (ok user)) h
      → env.encode_private_key user.key ≡ ok key
      → output_secret env i user key ≡ ok s
      → Stored s h
      → Issued env i h

pub Issued-before :
    {env : Env} {i : CaEnrollment} {h : List Event} (e : Event)
    → Issued env i h
    → Issued env i (e ∷ h)
Issued-before e (issued q user key s o k m t) =
    issued q user key s (before o) k m (Stored-before e t)

module _ (env : Env) (I : List Event → Type 0)
    (plain : (e : Event) → is_plain e ≡ true → Keeps I e) where
  pub Triple-update_status :
      (i : CaEnrollment) (status message : String)
      → Triple I (update_status env i status message) (λ _. I)
  unfolding update_status
  Triple-update_status i status message =
      Triple-call _ (λ _. I) (λ h p. plain _ refl h p) λ r. Triple-pure _ (λ h p. p)

  pub Triple-init_status : (i : CaEnrollment) → Triple I (init_status env i) (λ _. I)
  unfolding init_status
  Triple-init_status i =
      Triple-if (i.status.status == "") (λ _. Triple-update_status i _ _)
        (λ _. Triple-pure _ (λ h p. p))

  pub read_credentials-keeps : (i : CaEnrollment) → Triple I (read_credentials env i) (λ _. I)
  unfolding read_credentials
  read_credentials-keeps i =
      Triple-call _ (λ _. I) (λ h p. plain _ refl h p)
        λ got.
          Triple-check got (λ _ _. Triple-pure _ (λ h p. p))
            λ ca _.
              Triple-call _ (λ _. I) (λ h p. plain _ refl h p)
                λ got_enroll.
                  Triple-check got_enroll (λ _ _. Triple-pure _ (λ h p. p))
                    λ s _.
                      Triple-check _ (λ _ _. Triple-pure _ (λ h p. p))
                        λ password _.
                          Triple-call _ (λ _. I) (λ h p. plain _ refl h p)
                            λ got_tls.
                              Triple-check got_tls (λ _ _. Triple-pure _ (λ h p. p))
                                λ t _.
                                  Triple-check _ (λ _ _. Triple-pure _ (λ h p. p))
                                    λ tls _. Triple-pure _ (λ h p. p)

  -- Where `store` succeeds the secret was accepted.
  pub store-Stored :
      (key : NamespacedName) (s : Secret)
      → Triple I (store env key s) (λ r h. I h × (r ≡ ok tt → Stored s h))
  unfolding store
  store-Stored key s =
      Triple-call _ (λ _. I) (λ h p. plain _ refl h p)
        λ got.
          Triple-check got
            (λ e _.
              Triple-if (is_not_found e)
                (λ _.
                  Triple-call _ (λ r h. I h × ((s' : Secret) → r ≡ ok s' → Stored s h))
                    (λ h p. (
                      plain _ refl h p,
                      λ s' x. created s' (Occurs-answer (created_secret s) _ _ h x),
                    ))
                    λ r.
                      Triple-check r (λ _ _. Triple-pure _ (λ h p. (p.0, λ f. cc)))
                        λ s' x. Triple-pure _ (λ h p. (p.0, λ _. p.1 s' x)))
                (λ _. Triple-pure _ (λ h p. (p, λ f. cc))))
            λ old _.
              let changed : Secret = record old { contents = s.contents } in
              Triple-call _ (λ r h. I h × ((s' : Secret) → r ≡ ok s' → Stored s h))
                (λ h p. (
                  plain _ refl h p,
                  λ s' x. updated changed s' refl (Occurs-answer (updated_secret changed) _ _ h x),
                ))
                λ r.
                  Triple-check r (λ _ _. Triple-pure _ (λ h p. (p.0, λ f. cc)))
                    λ s' x. Triple-pure _ (λ h p. (p.0, λ _. p.1 s' x))

module _ (env : Env) (I : List Event → Type 0) (plain : (e : Event) → is_plain e ≡ true → Keeps I e)
    (i : CaEnrollment)
    (enroll : (ca : Ca) (password tls_ca_cert : Bytes) (r : Outcome EnrolledUser)
      → Keeps I (enrolled_user (enroll_request i.spec ca password tls_ca_cert) r)) where
  abbrev Enrolled : EnrollUserRequest → EnrolledUser → List Event → Type 0
  Enrolled q user h = I h × Occurs (enrolled_user q (ok user)) h

  Enrolled-plain :
      (q : EnrollUserRequest) (user : EnrolledUser) (e : Event)
      → is_plain e ≡ true
      → Keeps (Enrolled q user) e
  Enrolled-plain q user e b h p = (plain e b h p.0, before p.1)

  store-Issued :
      (q : EnrollUserRequest) (user : EnrolledUser) (key : Bytes) (s : Secret)
      → env.encode_private_key user.key ≡ ok key
      → output_secret env i user key ≡ ok s
      → Triple
          (Enrolled q user)
          (store env (output_key i) s)
          (λ r h. I h × (r ≡ ok tt → Issued env i h))
  store-Issued q user key s k m = record {
    at = λ h p.
        let t =
          (store-Stored env (Enrolled q user) (Enrolled-plain q user) (output_key i) s).at h p in
        (t.0.0, λ x. issued q user key s t.0.1 k m (t.1 x));
  }

  -- Where `issue` succeeds a user was enrolled and the output secret was accepted.
  pub issue-Issued :
      Triple I (issue env i) (λ r h. I h × ((c : Certificate) → r ≡ ok c → Issued env i h))
  unfolding issue
  issue-Issued =
      Triple-invoke (λ _. I) (read_credentials-keeps env I plain i)
        λ got.
          Triple-check got (λ _ _. Triple-pure _ (λ h p. (p, λ c f. cc)))
            λ c _.
              let q = enroll_request i.spec c.ca c.password c.tls_ca_cert in
              Triple-call _
                (λ r h. I h × ((u : EnrolledUser) → r ≡ ok u → Occurs (enrolled_user q (ok u)) h))
                (λ h p. (
                  enroll c.ca c.password c.tls_ca_cert _ h p,
                  λ u x. Occurs-answer (enrolled_user q) _ _ h x,
                ))
                λ r.
                  Triple-check r (λ _ _. Triple-pure _ (λ h p. (p.0, λ c' f. cc)))
                    λ user x.
                      Triple-check _ (λ _ _. Triple-pure _ (λ h p. (p.0, λ c' f. cc)))
                        λ key k.
                          Triple-check _ (λ _ _. Triple-pure _ (λ h p. (p.0, λ c' f. cc)))
                            λ s m.
                              Triple-invoke _
                                (Triple-weaken (λ h p. (p.0, p.1 user x))
                                  (store-Issued q user key s k m))
                                λ stored.
                                  Triple-check stored
                                    (λ _ _. Triple-pure _ (λ h p. (p.0, λ c' f. cc)))
                                    λ _ y. Triple-pure _ (λ h p. (p.0, λ c' _. p.1 y))

  pub enroll_identity-Issued :
      Triple I
        (enroll_identity env i)
        (λ r h. I h × ((i' : CaEnrollment) → r ≡ ok i' → Issued env i h))
  unfolding enroll_identity
  enroll_identity-Issued = Triple-invoke _ issue-Issued λ r.
      Triple-check r (λ _ _. Triple-pure _ (λ h p. (p.0, λ c' f. cc)))
        λ c x.
          Triple-call _ (λ _ h. I h × Issued env i h)
            (λ h p. (plain _ refl h p.0, Issued-before _ (p.1 c x)))
            λ now. Triple-pure _ (λ h p. (p.0, λ i' _. p.1))
