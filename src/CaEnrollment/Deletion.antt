-- ===== src/CaEnrollment/Deletion.antt =====
-- Deletion: the output secret goes before the finalizer does.
use mathlib.Core.Path.{subst}
use fabric_x_operator.Prelude.{inl, inr, Bool-cases, String, ◌≡◌, sym, true, false, List, [], arith}
use fabric_x_operator.Go.{GoError, Outcome, ok, err, is_not_found}
use fabric_x_operator.Go.Triple.{
  Triple, Triple-pure, Triple-if, Triple-call, Triple-check, Triple-invoke, Triple-weaken, Each,
  Occurs, last,
}
use fabric_x_operator.Kube.{CtrlResult, NamespacedName, FinalizerLaws, KeepsNamespace}
use fabric_x_operator.CaEnrollment.Types.{CaEnrollment}
use fabric_x_operator.CaEnrollment.Env.{Env, Event, updated_enrollment, deleted_secret}
use fabric_x_operator.CaEnrollment.Renewal.{needs_renewal-Answer}
use fabric_x_operator.CaEnrollment.Enroll.{output_key}
use fabric_x_operator.CaEnrollment.Reconcile.{
  finalizer, ignore_not_found, handle_deletion, fail, report_ready, enroll, check_secret,
  reconcile_live, reconcile_found, reconcile,
}
use fabric_x_operator.CaEnrollment.Rules.{
  Keeps, is_plain, Triple-update_status, Triple-init_status, enroll_identity-Issued,
}

-- The secret under this key was deleted, or was not there to delete.
pub data IsGone (key : NamespacedName) (h : List Event) : Type 0 where
  deleted : Occurs (deleted_secret key (ok tt)) h → IsGone key h
  not_there :
      (e : GoError) → Occurs (deleted_secret key (err e)) h → is_not_found e ≡ true → IsGone key h

-- An update that leaves the finalizer off comes after the output secret, of the name that the spec
-- gives and in the namespace of the CAEnrollment, is gone.
abbrev pub DeletesFirst : Env → List Event → Event → Type 0
DeletesFirst env h (updated_enrollment i r) =
    env.util.contains_finalizer i.meta finalizer ≡ false
    → IsGone (record { name = i.spec.output_secret_name; namespace = i.meta.namespace }) h
DeletesFirst env h _ = Unit

abbrev pub Ordered : Env → List Event → Type 0
Ordered env = Each (DeletesFirst env)

gone_at :
    (key : NamespacedName) (r : Outcome (Unit {0})) (h : List Event)
    → ignore_not_found r ≡ ok tt
    → Occurs (deleted_secret key r) h
    → IsGone key h
gone_at key (ok u) h x o = deleted o
gone_at key (err e) h x o = elim (Bool-cases (is_not_found e)) [
  | inl n ↦ not_there e o n
  | inr n ↦ grind arith
]

module _ (env : Env) (laws : FinalizerLaws env.util) (keeps : KeepsNamespace env.util) where
  abbrev Always : Outcome CtrlResult → List Event → Type 0
  Always r h = Ordered env h

  Ordered-plain : (e : Event) → is_plain e ≡ true → Keeps (Ordered env) e
  Ordered-plain (updated_enrollment i r) b h p = cc
  Ordered-plain _ b h p = (tt, p)

  report_ready-Ordered : (i : CaEnrollment) → Triple (Ordered env) (report_ready env i) Always
  unfolding report_ready
  report_ready-Ordered i =
      Triple-invoke _ (Triple-update_status env (Ordered env) Ordered-plain i _ _)
        λ _. Triple-pure _ (λ h p. p)

  fail-Ordered :
      (i : CaEnrollment) (text prefix : String) (e : GoError)
      → Triple (Ordered env) (fail env i text prefix e) Always
  unfolding fail
  fail-Ordered i text prefix e =
      Triple-invoke _ (Triple-update_status env (Ordered env) Ordered-plain i _ _)
        λ _. Triple-pure _ (λ h p. p)

  enroll-Ordered : (i : CaEnrollment) → Triple (Ordered env) (enroll env i) Always
  unfolding enroll
  enroll-Ordered i =
      Triple-invoke _
        (enroll_identity-Issued env (Ordered env) Ordered-plain i
          (λ ca password tls r h p. (tt, p)))
        λ r.
          Triple-check r (λ e _. Triple-weaken (λ h p. p.0) (fail-Ordered i _ _ e))
            λ changed _. Triple-weaken (λ h p. p.0) (report_ready-Ordered changed)

  check_secret-Ordered : (i : CaEnrollment) → Triple (Ordered env) (check_secret env i) Always
  unfolding check_secret
  check_secret-Ordered i =
      Triple-call _ (λ _. Ordered env) (λ h p. (tt, p))
        λ got.
          Triple-check got
            (λ e _.
              Triple-if (is_not_found e) (λ _. enroll-Ordered i) (λ _. Triple-pure _ (λ h p. p)))
            λ s _.
              Triple-invoke _ (needs_renewal-Answer env (Ordered env) s (λ now h p. (tt, p))) λ due.
                Triple-if due (λ _. Triple-weaken (λ h p. p.0) (enroll-Ordered i))
                  (λ _. Triple-weaken (λ h p. p.0) (report_ready-Ordered i))

  reconcile_live-Ordered : (i : CaEnrollment) → Triple (Ordered env) (reconcile_live env i) Always
  unfolding reconcile_live
  reconcile_live-Ordered i =
      Triple-if (env.util.contains_finalizer i.meta finalizer) (λ _. check_secret-Ordered i)
        λ _.
          Triple-call _ (λ _. Ordered env) (λ h p. ((λ c. absurd c), p))
            λ r. Triple-check r (λ e _. fail-Ordered _ _ _ e) (λ live _. check_secret-Ordered live)
    where
      absurd :
          env.util.contains_finalizer (env.util.add_finalizer i.meta finalizer) finalizer ≡ false
          → {key : NamespacedName} {h : List Event} → IsGone key h
      absurd c = grind (arith, laws.contains-add i.meta finalizer)

  freed_at :
      (i : CaEnrollment) (h : List Event)
      → IsGone (output_key i) h
      → let freed = env.util.remove_finalizer i.meta finalizer in
        IsGone (record { name = i.spec.output_secret_name; namespace = freed.namespace }) h
  freed_at i h gone =
      subst (λ n. IsGone (record { name = i.spec.output_secret_name; namespace = n }) h)
        (sym (keeps i.meta finalizer)) gone

  handle_deletion-Ordered : (i : CaEnrollment) → Triple (Ordered env) (handle_deletion env i) Always
  unfolding handle_deletion
  handle_deletion-Ordered i =
      let key = output_key i in
      Triple-if (env.util.contains_finalizer i.meta finalizer)
        (λ _.
          Triple-call _ (λ r h. Ordered env h × Occurs (deleted_secret key r) h)
            (λ h p. ((tt, p), last))
            λ r.
              Triple-check (ignore_not_found r) (λ _ _. Triple-pure _ (λ h p. p.0))
                λ _ x.
                  Triple-call _ (λ _. Ordered env)
                    (λ h p. ((λ _. freed_at i h (gone_at key r h x p.1)), p.0))
                    λ r'.
                      Triple-check r' (λ _ _. Triple-pure _ (λ h p. p))
                        (λ _ _. Triple-pure _ (λ h p. p)))
        (λ _. Triple-pure _ (λ h p. p))

  run-Ordered : (key : NamespacedName) → Triple (Ordered env) (reconcile env key) Always
  unfolding reconcile reconcile_found
  run-Ordered key =
      Triple-call _ (λ _. Ordered env) (λ h p. (tt, p))
        λ got.
          Triple-check got
            (λ e _.
              Triple-if (is_not_found e) (λ _. Triple-pure _ (λ h p. p))
                (λ _. Triple-pure _ (λ h p. p)))
            λ i _. Triple-invoke _ (Triple-init_status env (Ordered env) Ordered-plain i) λ started.
              Triple-if started.meta.deleted (λ _. handle_deletion-Ordered started)
                (λ _. reconcile_live-Ordered started)

  -- In every run of `Reconcile`, an update of the CAEnrollment that leaves the operator's finalizer
  -- off comes after the delete call for its output secret, of the name in its spec and in its own
  -- namespace, was accepted, or was answered that there is no such secret. The finalizer that
  -- controllerutil adds is assumed to be found again, and the removal of one to keep the namespace.
  pub reconcile-Ordered : (key : NamespacedName) → Ordered env (reconcile env key []).1
  reconcile-Ordered key = (run-Ordered key).at [] tt
