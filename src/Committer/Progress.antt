-- ===== src/Committer/Progress.antt =====
-- One run is enough where the API server answers.
use mathlib.Core.Path.{sym, subst}
use fabric_x_operator.Prelude.{String, ◌≡◌, ◌∙◌, ap, refl, true, false, List, ◌==◌}
use fabric_x_operator.Go.{GoError, Outcome, ok, err, is_not_found}
use fabric_x_operator.Go.Act.{Act, call, check, invoke}
use fabric_x_operator.Go.Triple.{
  Triple, Triple-pure, Triple-if, Triple-call, Triple-check, Triple-invoke, Triple-weaken,
  ok_injective,
}
use fabric_x_operator.Kube.{CtrlResult, NamespacedName}
use fabric_x_operator.Utils.Finalizers.{contains_string}
use fabric_x_operator.Api.Committer.{Committer}
use fabric_x_operator.Committer.Env.{
  ChildKind, coordinator, sidecar, validator, verifier, query_service, SpecOf, Child, Env, Event,
}
use fabric_x_operator.Committer.Children.{apply_child, reconcile_child_crds}
use fabric_x_operator.Committer.Reconcile.{
  finalizer, monitor, Result, outcome, update_status, update_committer, ensure_finalizer,
  reconcile_committer, init_status, reconcile_live, reconcile,
}
use fabric_x_operator.Committer.Rollout.{Truthful, EndsRunning, reconcile-Monitored}

-- The call was accepted.
pub data IsOk {T : Type 0} : Outcome T → Type 0 where
  accepted : (t : T) → IsOk (ok t)

-- The API server accepts the writes of children and of the committer itself, and the read of a child
-- fails only where there is none. The writes of the status may fail.
pub record Willing (env : Env) : Type 0 where
  pub updates_committer : (c : Committer) (h : List Event) → IsOk (env.update_committer c h)
  pub creates : (k : ChildKind) (c : Child k) (h : List Event) → IsOk (env.create_child k c h)
  pub updates : (k : ChildKind) (c : Child k) (h : List Event) → IsOk (env.update_child k c h)
  pub reads :
      (k : ChildKind) (key : NamespacedName) (h : List Event) (e : GoError)
      → env.get_child k key h ≡ err e
      → is_not_found e ≡ true

abbrev Any : List Event → Type 0
Any h = Unit

-- The function returns no error.
abbrev Succeeds : Act Event (Outcome (Unit {0})) → Type 0
Succeeds m = Triple Any m (λ r _. r ≡ ok tt)

IsOk-err : {T P : Type 0} {r : Outcome T} {e : GoError} → IsOk r → r ≡ err e → P
IsOk-err (accepted t) x = cc

IsOk-outcome : {T : Type 0} (r : Outcome T) → IsOk r → outcome r ≡ ok tt
IsOk-outcome r (accepted t) = refl

-- A call that is accepted, and its check.
accepted_call :
    {T R : Type 0} {Q : R → List Event → Type 0} {answer : List Event → Outcome T}
    (event : Outcome T → Event) (bad : GoError → Act Event R) {good : T → Act Event R}
    → ((h : List Event) → IsOk (answer h))
    → ((t : T) → Triple Any (good t) Q)
    → Triple Any (call answer event λ r. check r bad good) Q
accepted_call event bad accepts then =
    Triple-call event (λ r _. IsOk r) (λ h p. accepts h)
      λ r.
        Triple-check r (λ e x. record { at = λ h p. IsOk-err p x })
          (λ t _. Triple-weaken (λ h p. tt) (then t))

-- A call that succeeds, and its check.
succeed :
    {R : Type 0} {Q : R → List Event → Type 0} {m : Act Event (Outcome (Unit {0}))}
    (bad : GoError → Act Event R) {rest : Act Event R}
    → Succeeds m
    → Triple Any rest Q
    → Triple Any (invoke m λ r. check r bad λ _. rest) Q
succeed bad first then = Triple-invoke _ first λ r.
    Triple-check r (λ e x. record { at = λ h p. IsOk-err (subst IsOk (sym p) (accepted tt)) x })
      (λ _ _. Triple-weaken (λ h p. tt) then)

module _ (env : Env) (willing : Willing env) where
  apply_child-Succeeds :
      (k : ChildKind) (key : NamespacedName) (spec : SpecOf k)
      → Succeeds (apply_child env k key spec)
  unfolding apply_child
  apply_child-Succeeds k key spec =
      Triple-call _ (λ r _. (e : GoError) → r ≡ err e → is_not_found e ≡ true)
        (λ h p. willing.reads k key h)
        λ got.
          Triple-check got
            (λ e x.
              Triple-if (is_not_found e)
                (λ _.
                  Triple-weaken (λ h p. tt)
                    (accepted_call _ _ (willing.creates k _) (λ s. Triple-pure _ (λ h p. refl))))
                (λ f. Triple-pure _ (λ h p. let y = p e x in cc)))
            λ old _.
              Triple-weaken (λ h p. tt)
                (accepted_call _ _ (willing.updates k _) (λ s. Triple-pure _ (λ h p. refl)))

  reconcile_child_crds-Succeeds : (c : Committer) → Succeeds (reconcile_child_crds env c)
  unfolding reconcile_child_crds
  reconcile_child_crds-Succeeds c = succeed _ (apply_child-Succeeds coordinator _ _) (
      succeed _ (apply_child-Succeeds sidecar _ _) (
        succeed _ (apply_child-Succeeds validator _ _) (
          succeed _ (apply_child-Succeeds verifier _ _)
            (succeed _ (apply_child-Succeeds query_service _ _) (Triple-pure _ (λ h p. refl))))))

  -- A call that returns the committer to go on with, without an error.
  abbrev Holds : Act Event Result → Type 0
  Holds m = Triple Any m (λ r _. r.1 ≡ ok tt)

  update_status-Any :
      (c : Committer) (status message : String)
      → Triple Any (update_status env c status message) (λ _. Any)
  unfolding update_status
  update_status-Any c status message =
      Triple-call _ (λ _. Any) (λ h p. tt)
        λ now. Triple-call _ (λ _. Any) (λ h p. tt) (λ r. Triple-pure _ (λ h p. tt))

  ensure_finalizer-Holds : (c : Committer) → Holds (ensure_finalizer env c)
  unfolding ensure_finalizer update_committer
  ensure_finalizer-Holds c =
      Triple-if (contains_string c.meta.finalizers finalizer) (λ _. Triple-pure _ (λ h p. refl))
        λ _.
          Triple-call _ (λ r _. IsOk r) (λ h p. willing.updates_committer _ h)
            λ r. Triple-pure _ (λ h p. IsOk-outcome r p)

  reconcile_committer-Holds : (c : Committer) → Holds (reconcile_committer env c)
  unfolding reconcile_committer
  reconcile_committer-Holds c =
      succeed _ (reconcile_child_crds-Succeeds c)
        (Triple-invoke _ (update_status-Any c "RUNNING" _) λ _. Triple-pure _ (λ h p. refl))

  -- A call that goes on, and its check.
  go_on :
      {m : Act Event Result} (bad : Committer → GoError → Act Event (Outcome CtrlResult))
      {rest : Committer → Act Event (Outcome CtrlResult)}
      → Holds m
      → ((c : Committer) → Triple Any (rest c) (λ r _. r ≡ ok monitor))
      → Triple Any (invoke m λ r. check r.1 (bad r.0) λ _. rest r.0) (λ r _. r ≡ ok monitor)
  go_on bad first then = Triple-invoke _ first λ r.
      Triple-check r.1 (λ e x. record { at = λ h p. IsOk-err (subst IsOk (sym p) (accepted tt)) x })
        (λ _ _. Triple-weaken (λ h p. tt) (then r.0))

  reconcile_live-Succeeds :
      (c : Committer) → Triple Any (reconcile_live env c) (λ r _. r ≡ ok monitor)
  unfolding reconcile_live init_status
  reconcile_live-Succeeds c =
      Triple-invoke (λ _. Any)
        (Triple-if (c.status.status == "") (λ _. update_status-Any c "PENDING" _)
          (λ _. Triple-pure _ (λ h p. tt)))
        λ started.
          go_on _ (ensure_finalizer-Holds started)
            λ held. go_on _ (reconcile_committer-Holds held) λ rolled. Triple-pure _ (λ h p. refl)

  reconcile_key-Succeeds :
      (key : NamespacedName) (c : Committer) (h : List Event)
      → env.get_committer key h ≡ ok c
      → c.meta.deleted ≡ false
      → Triple (λ h'. h' ≡ h) (reconcile env key) (λ r _. r ≡ ok monitor)
  unfolding reconcile
  reconcile_key-Succeeds key c h there live =
      Triple-call _ (λ r _. r ≡ ok c) (λ h' q. ap (env.get_committer key) q ∙ there)
        λ got.
          Triple-check got
            (λ e x. record { at = λ h p. IsOk-err (subst IsOk (sym p) (accepted c)) x })
            λ c' x.
              Triple-if c'.meta.deleted
                (λ d. record {
                  at = λ h p.
                      let same : ok c' ≡ ok c = sym x ∙ p in
                      let kept = ap (λ i. i.meta.deleted) (ok_injective same) in cc;
                })
                (λ _. Triple-weaken (λ h p. tt) (reconcile_live-Succeeds c'))

-- In a cluster that accepts the writes of the children and of the committer, and where a child that
-- is there can be read, one run of `Reconcile` for a committer that is there and not being deleted
-- asks for the next look in a minute, and its last call is a status update that says "RUNNING" after
-- all five children were applied; the status may not be writable. The updates of the history that
-- say "RUNNING" are taken to be true.
pub reconcile-EndsRunning :
    (env : Env) (key : NamespacedName) (c : Committer) (h : List Event)
    → Willing env
    → env.get_committer key h ≡ ok c
    → c.meta.deleted ≡ false
    → Truthful h
    → ((reconcile env key h).0 ≡ ok monitor) × EndsRunning (reconcile env key h).1
reconcile-EndsRunning env key c h willing there live p =
    let served = (reconcile_key-Succeeds env willing key c h there live).at h refl in
    (served, (reconcile-Monitored env key h p).1 served)
