-- ===== src/Identity/TempDir.antt =====
-- `os.RemoveAll` is called for the temporary MSP directory of an idemix enrollment. Whether the call
-- removes the directory is not modelled (its error is ignored by the code), and neither are the
-- directory and the file that `certs.EnrollUser` leaves behind.
use mathlib.Core.Path.{subst}
use fabric_x_operator.Prelude.{
  ◌∙◌, ◌==◌, eq_refl, if◌then◌else◌, String, ◌≡◌, refl, ap, true, List, [], ◌∷◌,
}
use fabric_x_operator.Go.{Outcome, ok, err, is_not_found}
use fabric_x_operator.Go.Triple.{
  Triple, Triple-pure, Triple-if, Triple-call, Triple-check, Triple-invoke, Triple-weaken,
  Triple-deferred,
}
use fabric_x_operator.Kube.{NamespacedName}
use fabric_x_operator.Identity.Types.{Identity, Status, Enrollment, IdemixEnrollment}
use fabric_x_operator.Identity.Env.{Env, Event, made_temp_dir, removed_all}
use fabric_x_operator.Identity.Status.{write_status}
use fabric_x_operator.Identity.Enroll.{Inputs}
use fabric_x_operator.Identity.Idemix.{enroll_idemix_and_store}
use fabric_x_operator.Identity.Reconcile.{
  finalizer, handle_deletion, ensure_finalizer, reconcile_live, reconcile_found, reconcile,
}
use fabric_x_operator.Identity.Rules.{Keeps}
use fabric_x_operator.Identity.Invariant.{
  is_plain, KeepsOutputs, Triple-reconcile_live, Triple-enroll_in_dir, Triple-failed,
}

abbrev without : String → List String → List String
without dir [] = []
without dir (d ∷ dirs) = if d == dir then without dir dirs else d ∷ without dir dirs

abbrev after : Event → List String → List String
after (made_temp_dir (ok dir)) dirs = dir ∷ dirs
after (removed_all dir) dirs = without dir dirs
after _ dirs = dirs

-- The directories that `os.MkdirTemp` gave and `os.RemoveAll` was not called for.
abbrev pub not_released : List Event → List String
not_released [] = []
not_released (e ∷ h) = after e (not_released h)

after-plain : (e : Event) (dirs : List String) → is_plain e ≡ true → after e dirs ≡ dirs
after-plain (made_temp_dir r) dirs p = cc
after-plain (removed_all dir) dirs p = cc
after-plain _ dirs p = refl

module _ (env : Env) where
  abbrev Left : List String → List Event → Type 0
  Left dirs h = not_released h ≡ dirs

  keep : (dirs : List String) (e : Event) → is_plain e ≡ true → Keeps (Left dirs) e
  keep dirs e p h l = after-plain e (not_released h) p ∙ l

  write_status-Left :
      (dirs : List String) (change : Status → Status)
      → KeepsOutputs change
      → (i : Identity) → Triple (Left dirs) (write_status env change i) (λ _. Left dirs)
  write_status-Left dirs change _ i =
      Triple-call _ (λ _. Left dirs) (λ h l. l)
        λ got.
          Triple-check got (λ _ _. Triple-pure _ (λ h l. l))
            λ fresh _.
              Triple-call _ (λ _. Left dirs) (λ h l. l)
                λ written.
                  Triple-check written (λ _ _. Triple-pure _ (λ h l. l))
                    (λ _ _. Triple-pure _ (λ h l. l))

  abbrev Made : Outcome String → List Event → Type 0
  Made (ok dir) = Left (dir ∷ [])
  Made (err e) = Left []

  temp_dir_now : (r : Outcome String) (h : List Event) → Left [] h → Made r (made_temp_dir r ∷ h)
  temp_dir_now (ok dir) h l = ap (λ dirs. dir ∷ dirs) l
  temp_dir_now (err e) h l = l

  enroll_idemix_and_store-Left :
      (i : Identity) (enrollment : Enrollment) (idemix : IdemixEnrollment) (inputs : Inputs)
      → Triple (Left []) (enroll_idemix_and_store env i enrollment idemix inputs) (λ _. Left [])
  unfolding enroll_idemix_and_store
  enroll_idemix_and_store-Left i enrollment idemix inputs =
      Triple-call _ Made (λ h l. temp_dir_now _ h l)
        λ r.
          Triple-check r
            (λ e x.
              Triple-weaken (λ h l. subst (λ o. Made o h) x l)
                (Triple-failed env (Left []) (λ _. Left []) (keep []) (write_status-Left []) i _ e))
            λ dir x.
              Triple-weaken (λ h l. subst (λ o. Made o h) x l)
                (Triple-deferred _ (λ _. Left (dir ∷ []))
                  (Triple-enroll_in_dir env (Left (dir ∷ [])) (λ _. Left (dir ∷ []))
                    (keep (dir ∷ [])) (write_status-Left (dir ∷ [])) i enrollment idemix inputs dir)
                  (λ r' h l. ap (without dir) l ∙ simp (eq_refl dir)))

  reconcile_live-Left : (i : Identity) → Triple (Left []) (reconcile_live env i) (λ _. Left [])
  reconcile_live-Left =
      Triple-reconcile_live env (Left []) (λ _. Left []) (keep []) (write_status-Left [])
        enroll_idemix_and_store-Left

  handle_deletion-Left : (i : Identity) → Triple (Left []) (handle_deletion env i) (λ _. Left [])
  unfolding handle_deletion
  handle_deletion-Left i =
      Triple-if (env.util.contains_finalizer i.meta finalizer)
        (λ _.
          Triple-call _ (λ _. Left []) (λ h p. p)
            λ r. Triple-check r (λ _ _. Triple-pure _ (λ h p. p)) (λ _ _. Triple-pure _ (λ h p. p)))
        (λ _. Triple-pure _ (λ h p. p))

  ensure_finalizer-Left : (i : Identity) → Triple (Left []) (ensure_finalizer env i) (λ _. Left [])
  unfolding ensure_finalizer
  ensure_finalizer-Left i =
      Triple-if (env.util.contains_finalizer i.meta finalizer) (λ _. Triple-pure _ (λ h p. p))
        (λ _. Triple-call _ (λ _. Left []) (λ h p. p) λ r. Triple-pure _ (λ h p. p))

  run-Left : (key : NamespacedName) → Triple (Left []) (reconcile env key) (λ _. Left [])
  unfolding reconcile reconcile_found
  run-Left key =
      Triple-call _ (λ _. Left []) (λ h p. p)
        λ got.
          Triple-check got
            (λ e _.
              Triple-if (is_not_found e) (λ _. Triple-pure _ (λ h p. p))
                (λ _. Triple-pure _ (λ h p. p)))
            λ i _.
              Triple-if i.meta.deleted (λ _. handle_deletion-Left i)
                λ _.
                  Triple-invoke (λ _. Left []) (ensure_finalizer-Left i)
                    λ held.
                      Triple-check held (λ _ _. Triple-pure _ (λ h p. p))
                        (λ live _. reconcile_live-Left live)

  -- For every directory that `os.MkdirTemp` gives to the idemix enrollment in a run of `Reconcile`,
  -- `os.RemoveAll` is called before the run ends, whether the enrollment succeeds or fails.
  pub reconcile-not_released : (key : NamespacedName) → not_released (reconcile env key []).1 ≡ []
  reconcile-not_released key = (run-Left key).at [] refl
