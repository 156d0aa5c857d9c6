-- ===== src/CaEnrollment/Due.antt =====
-- When the reconciler enrolls, and what a run that ends well has achieved.
use fabric_x_operator.Prelude.{
  String, if◌then◌else◌, ◌≡◌, refl, ◌==◌, Bool, true, false, List, [], ◌∷◌, arith,
}
use fabric_x_operator.Go.{GoError, Bytes, Outcome, ok, err, is_not_found}
use fabric_x_operator.Go.Triple.{
  Triple, Triple-pure, Triple-if, Triple-call, Triple-check, Triple-invoke, Triple-weaken, Each,
  Occurs, before, last, Occurs-answer,
}
use fabric_x_operator.Kube.{Time, CtrlResult, NamespacedName, Secret, answered}
use fabric_x_operator.Identity.Types.{Ca, EnrolledUser}
use fabric_x_operator.CaEnrollment.Types.{CaEnrollment}
use fabric_x_operator.CaEnrollment.Env.{
  Env, Event, got_enrollment, got_secret, updated_enrollment, updated_status, enrolled_user,
  read_clock,
}
use fabric_x_operator.CaEnrollment.Status.{update_status}
use fabric_x_operator.CaEnrollment.Renewal.{
  IsFresh, Answer, kept, unreadable, expiring, needs_renewal-Answer,
}
use fabric_x_operator.CaEnrollment.Enroll.{enroll_request, output_key}
use fabric_x_operator.CaEnrollment.Reconcile.{
  finalizer, recheck, handle_deletion, fail, report_ready, enroll, check_secret, init_status,
  reconcile_live, reconcile_found, reconcile,
}
use fabric_x_operator.CaEnrollment.Rules.{
  Keeps, is_plain, Issued, Issued-before, Triple-update_status, enroll_identity-Issued,
}

-- The CAEnrollment that a run works on: it was read under the key of the run, the API server answered
-- with it when the finalizer or the first status was written, or it was sent with a status that the
-- API server refused, which the code only logs.
pub data IsWorked (key : NamespacedName) (i : CaEnrollment) (h : List Event) : Type 0 where
  read : Occurs (got_enrollment key (ok i)) h → IsWorked key i h
  held : (sent : CaEnrollment) → Occurs (updated_enrollment sent (ok i)) h → IsWorked key i h
  started : (sent : CaEnrollment) → Occurs (updated_status sent (ok i)) h → IsWorked key i h
  refused : (e : GoError) → Occurs (updated_status i (err e)) h → IsWorked key i h

IsWorked-before :
    {key : NamespacedName} {i : CaEnrollment} {h : List Event} (e : Event)
    → IsWorked key i h
    → IsWorked key i (e ∷ h)
IsWorked-before e (read o) = read (before o)
IsWorked-before e (held sent o) = held sent (before o)
IsWorked-before e (started sent o) = started sent (before o)
IsWorked-before e (refused x o) = refused x (before o)

-- An enrollment is due: the secret under this key was looked for, and is not there or does not hold
-- a certificate that is valid for 30 days or more.
pub data IsDue (env : Env) (key : NamespacedName) (h : List Event) : Type 0 where
  absent :
      (e : GoError) → Occurs (got_secret key (err e)) h → is_not_found e ≡ true → IsDue env key h
  never_fresh :
      (s : Secret)
      → Occurs (got_secret key (ok s)) h
      → ((now : Time) → ¬ IsFresh env s now)
      → IsDue env key h
  not_fresh :
      (s : Secret) (now : Time)
      → Occurs (got_secret key (ok s)) h
      → Occurs (read_clock now) h
      → ¬ IsFresh env s now
      → IsDue env key h

IsDue-before :
    {env : Env} {key : NamespacedName} {h : List Event} (e : Event)
    → IsDue env key h
    → IsDue env key (e ∷ h)
IsDue-before e (absent x o n) = absent x (before o) n
IsDue-before e (never_fresh s o n) = never_fresh s (before o) n
IsDue-before e (not_fresh s now o c n) = not_fresh s now (before o) (before c) n

-- The key of the secret that a CAEnrollment asks for: the name in its spec, in its own namespace.
abbrev pub asked_key : CaEnrollment → NamespacedName
asked_key i = record { name = i.spec.output_secret_name; namespace = i.meta.namespace }

-- The run works on this CAEnrollment, and its output secret is due.
abbrev pub Owes : Env → NamespacedName → CaEnrollment → List Event → Type 0
Owes env key i h = IsWorked key i h × IsDue env (asked_key i) h

-- Each enrollment of the history is of the user that a CAEnrollment of the run names, with the
-- certificate authority that it names, and its output secret was due.
abbrev pub EnrollIsDue : Env → NamespacedName → List Event → Event → Type 0
EnrollIsDue env key h (enrolled_user q r) =
    (i : CaEnrollment) × (q.user ≡ i.spec.enroll_id) × (q.name ≡ i.spec.ca_name) × Owes env key i h
EnrollIsDue env key h _ = Unit

abbrev pub Due : Env → NamespacedName → List Event → Type 0
Due env key = Each (EnrollIsDue env key)

-- What stands behind a run that ends well: a certificate that was issued and stored, or one that
-- was found and is valid for 30 days or more.
pub data Backed (env : Env) (h : List Event) : Type 0 where
  by_issue : (i : CaEnrollment) → Issued env i h → Backed env h
  by_kept :
      (key : NamespacedName) (s : Secret) (now : Time)
      → Occurs (got_secret key (ok s)) h
      → Occurs (read_clock now) h
      → IsFresh env s now
      → Backed env h

Backed-before : {env : Env} {h : List Event} (e : Event) → Backed env h → Backed env (e ∷ h)
Backed-before e (by_issue i x) = by_issue i (Issued-before e x)
Backed-before e (by_kept key s now o c f) = by_kept key s now (before o) (before c) f

module _ (env : Env) (run : NamespacedName) where
  abbrev Ends : Outcome CtrlResult → List Event → Type 0
  Ends r h = Due env run h × (r ≡ ok recheck → Backed env h)

  abbrev DueNow : CaEnrollment → List Event → Type 0
  DueNow i h = Due env run h × Owes env run i h

  abbrev Good : List Event → Type 0
  Good h = Due env run h × Backed env h

  Due-plain : (e : Event) → is_plain e ≡ true → Keeps (Due env run) e
  Due-plain (enrolled_user q r) b h p = cc
  Due-plain _ b h p = (tt, p)

  Owes-before :
      {i : CaEnrollment} {h : List Event} (e : Event) → Owes env run i h → Owes env run i (e ∷ h)
  Owes-before e p = (IsWorked-before e p.0, IsDue-before e p.1)

  DueNow-plain : (i : CaEnrollment) (e : Event) → is_plain e ≡ true → Keeps (DueNow i) e
  DueNow-plain i e b h p = (Due-plain e b h p.0, Owes-before e p.1)

  DueNow-enroll :
      (i : CaEnrollment) (ca : Ca) (password tls : Bytes) (r : Outcome EnrolledUser)
      → Keeps (DueNow i) (enrolled_user (enroll_request i.spec ca password tls) r)
  unfolding enroll_request
  DueNow-enroll i ca password tls r h p = (((i, refl, refl, p.1), p.0), Owes-before _ p.1)

  Good-plain : (e : Event) → is_plain e ≡ true → Keeps Good e
  Good-plain e b h p = (Due-plain e b h p.0, Backed-before e p.1)

  report_ready-Ends : (i : CaEnrollment) → Triple Good (report_ready env i) Ends
  unfolding report_ready
  report_ready-Ends i =
      Triple-invoke _ (Triple-update_status env Good Good-plain i _ _)
        λ _. Triple-pure _ (λ h p. (p.0, λ _. p.1))

  fail-Ends :
      (i : CaEnrollment) (text prefix : String) (e : GoError)
      → Triple (Due env run) (fail env i text prefix e) Ends
  unfolding fail
  fail-Ends i text prefix e =
      Triple-invoke _ (Triple-update_status env (Due env run) Due-plain i _ _)
        λ _. Triple-pure _ (λ h p. (p, λ f. cc))

  enroll-Ends : (i : CaEnrollment) → Triple (DueNow i) (enroll env i) Ends
  unfolding enroll
  enroll-Ends i =
      Triple-invoke _ (enroll_identity-Issued env (DueNow i) (DueNow-plain i) i (DueNow-enroll i))
        λ r.
          Triple-check r (λ e _. Triple-weaken (λ h p. p.0.0) (fail-Ends i _ _ e))
            λ changed x.
              Triple-weaken (λ h p. (p.0.0, by_issue i (p.1 changed x))) (report_ready-Ends changed)

  abbrev Works : CaEnrollment → List Event → Type 0
  Works i h = Due env run h × IsWorked run i h

  abbrev Found : CaEnrollment → Secret → List Event → Type 0
  Found i s h = Works i h × Occurs (got_secret (asked_key i) (ok s)) h

  due_at :
      (i : CaEnrollment) (s : Secret) (h : List Event)
      → Found i s h
      → Answer env s h true
      → DueNow i h
  due_at i s h p (unreadable n) = (p.0.0, (p.0.1, never_fresh s p.1 n))
  due_at i s h p (expiring now c n) = (p.0.0, (p.0.1, not_fresh s now p.1 c n))

  kept_at :
      (i : CaEnrollment) (s : Secret) (h : List Event) → Found i s h → Answer env s h false → Good h
  kept_at i s h p (kept now c f) = (p.0.0, by_kept (asked_key i) s now p.1 c f)

  renew-Ends :
      (i : CaEnrollment) (s : Secret) (due : Bool)
      → Triple
          (λ h. Found i s h × Answer env s h due)
          (if due then enroll env i else report_ready env i)
          Ends
  renew-Ends i s true = Triple-weaken (λ h p. due_at i s h p.0 p.1) (enroll-Ends i)
  renew-Ends i s false = Triple-weaken (λ h p. kept_at i s h p.0 p.1) (report_ready-Ends i)

  check_secret-Ends : (i : CaEnrollment) → Triple (Works i) (check_secret env i) Ends
  unfolding check_secret
  check_secret-Ends i =
      let key = output_key i in
      Triple-call _
        (λ r h.
          Works i h
          × ((s : Secret) → r ≡ ok s → Occurs (got_secret key (ok s)) h)
          × ((e : GoError) → r ≡ err e → Occurs (got_secret key (err e)) h))
        (λ h p. (
          ((tt, p.0), IsWorked-before _ p.1),
          (λ s x. Occurs-answer (got_secret key) _ _ h x),
          λ e x. Occurs-answer (got_secret key) _ _ h x,
        ))
        λ got.
          Triple-check got
            (λ e x.
              Triple-if (is_not_found e)
                (λ n. Triple-weaken (λ h p. (p.0.0, (p.0.1, absent e (p.2 e x) n))) (enroll-Ends i))
                (λ _. Triple-pure _ (λ h p. (p.0.0, λ f. cc))))
            λ s x.
              Triple-invoke _
                (Triple-weaken (λ h p. (p.0, p.1 s x))
                  (needs_renewal-Answer env (Found i s) s
                    (λ now h p. (((tt, p.0.0), IsWorked-before _ p.0.1), before p.1))))
                (renew-Ends i s)

  reconcile_live-Ends : (i : CaEnrollment) → Triple (Works i) (reconcile_live env i) Ends
  unfolding reconcile_live
  reconcile_live-Ends i =
      Triple-if (env.util.contains_finalizer i.meta finalizer) (λ _. check_secret-Ends i)
        λ _.
          let sent : CaEnrollment = record i { meta = env.util.add_finalizer i.meta finalizer } in
          Triple-call _
            (λ r h. Due env run h × ((live : CaEnrollment) → r ≡ ok live → IsWorked run live h))
            (λ h p.
              ((tt, p.0), λ live x. held sent (Occurs-answer (updated_enrollment sent) _ _ h x)))
            λ r.
              Triple-check r (λ e _. Triple-weaken (λ h p. p.0) (fail-Ends _ _ _ e))
                λ live x. Triple-weaken (λ h p. (p.0, p.1 live x)) (check_secret-Ends live)

  answered-IsWorked :
      (sent : CaEnrollment) (r : Outcome CaEnrollment) (h : List Event)
      → Occurs (updated_status sent r) h
      → IsWorked run (answered sent r) h
  answered-IsWorked sent (ok i) h o = started sent o
  answered-IsWorked sent (err e) h o = refused e o

  init_status-Works : (i : CaEnrollment) → Triple (Works i) (init_status env i) (λ i' h. Works i' h)
  unfolding init_status update_status
  init_status-Works i =
      Triple-if (i.status.status == "")
        (λ _.
          Triple-call _ (λ r h. Works (answered _ r) h)
            (λ h p. ((tt, p.0), answered-IsWorked _ _ _ last)) λ r. Triple-pure _ (λ h p. p))
        (λ _. Triple-pure _ (λ h p. p))

  handle_deletion-Ends : (i : CaEnrollment) → Triple (Due env run) (handle_deletion env i) Ends
  unfolding handle_deletion
  handle_deletion-Ends i =
      Triple-if (env.util.contains_finalizer i.meta finalizer)
        (λ _.
          Triple-call _ (λ _. Due env run) (λ h p. (tt, p))
            λ r.
              Triple-check _ (λ _ _. Triple-pure _ (λ h p. (p, λ f. cc)))
                λ _ _.
                  Triple-call _ (λ _. Due env run) (λ h p. (tt, p))
                    λ r'.
                      Triple-check r' (λ _ _. Triple-pure _ (λ h p. (p, λ f. cc)))
                        (λ _ _. Triple-pure _ (λ h p. (p, λ f. grind arith))))
        (λ _. Triple-pure _ (λ h p. (p, λ f. grind arith)))

  run-Ends : Triple (Due env run) (reconcile env run) Ends
  unfolding reconcile reconcile_found
  run-Ends =
      Triple-call _
        (λ r h.
          Due env run h × ((i : CaEnrollment) → r ≡ ok i → Occurs (got_enrollment run (ok i)) h))
        (λ h p. ((tt, p), λ i x. Occurs-answer (got_enrollment run) _ _ h x))
        λ got.
          Triple-check got
            (λ e _.
              Triple-if (is_not_found e) (λ _. Triple-pure _ (λ h p. (p.0, λ f. grind arith)))
                (λ _. Triple-pure _ (λ h p. (p.0, λ f. cc))))
            λ i x.
              Triple-invoke _ (Triple-weaken (λ h p. (p.0, read (p.1 i x))) (init_status-Works i))
                λ started.
                  Triple-if started.meta.deleted
                    (λ _. Triple-weaken (λ h p. p.0) (handle_deletion-Ends started))
                    (λ _. reconcile_live-Ends started)

module _ (env : Env) where
  -- A run that ends with the requeue after 24 hours has issued a certificate and stored it, with
  -- the contents that the code makes of the certificate authority's answer, or has found a
  -- certificate that is valid for 30 days or more from the time of the run.
  pub reconcile-Backed :
      (key : NamespacedName)
      → (reconcile env key []).0 ≡ ok recheck
      → Backed env (reconcile env key []).1
  reconcile-Backed key = ((run-Ends env key).at [] tt).1
