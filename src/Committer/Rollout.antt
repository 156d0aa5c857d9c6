-- ===== src/Committer/Rollout.antt =====
-- "RUNNING" is written only when every child has been applied, and a run that asks for the next look
-- in a minute has just written it.
use fabric_x_operator.Prelude.{String, ◌≡◌, ◌≢◌, refl, List, ◌∷◌, ◌==◌, eq_iff, arith}
use fabric_x_operator.Go.{GoError, Outcome, ok, is_not_found}
use fabric_x_operator.Go.Makes.{KeepsThose}
use fabric_x_operator.Go.Triple.{
  Triple, Triple-pure, Triple-if, Triple-call, Triple-check, Triple-invoke, Triple-weaken, Each,
}
use fabric_x_operator.Kube.{Time, CtrlResult, NamespacedName}
use fabric_x_operator.Utils.Finalizers.{contains_string}
use fabric_x_operator.Api.Committer.{Committer}
use fabric_x_operator.Committer.Specs.Coordinator.{build_coordinator_spec}
use fabric_x_operator.Committer.Specs.Sidecar.{build_sidecar_spec}
use fabric_x_operator.Committer.Specs.Validator.{build_validator_spec}
use fabric_x_operator.Committer.Specs.Verifier.{build_verifier_spec}
use fabric_x_operator.Committer.Specs.QueryService.{build_query_service_spec}
use fabric_x_operator.Committer.Env.{
  coordinator, sidecar, validator, verifier, query_service, Env, Event, updated_status,
}
use fabric_x_operator.Committer.Reconcile.{
  finalizer, with_status, monitor, update_status, update_committer, ensure_finalizer,
  remove_finalizer, reconcile_committer, fail, report_failure, init_status, reconcile_live,
  handle_deletion, reconcile,
}
use fabric_x_operator.Committer.Cleanup.{is_cleanup, cleanup_child_crds-AllGone}
use fabric_x_operator.Committer.Applied.{
  AllApplied, AllApplied-before, of_each, IsApplied, is_plain, reconcile_child_crds-AllApplied,
}

-- A status update that says "RUNNING" comes after all five children were applied.
abbrev pub RunningIsTrue : List Event → Event → Type 0
RunningIsTrue h (updated_status c r) = c.status.status ≡ "RUNNING" → AllApplied c h
RunningIsTrue h _ = Unit

abbrev pub Truthful : List Event → Type 0
Truthful = Each RunningIsTrue

-- The last call was a status update that says "RUNNING", after all children were applied.
pub data EndsRunning : List Event → Type 0 where
  ends :
      (c : Committer) (r : Outcome Committer) (h : List Event)
      → c.status.status ≡ "RUNNING"
      → AllApplied c h
      → EndsRunning (updated_status c r ∷ h)

Truthful-plain : KeepsThose is_plain Truthful
Truthful-plain (updated_status c r) b h p = cc
Truthful-plain _ b h p = (tt, p)

Truthful-cleanup : KeepsThose is_cleanup Truthful
Truthful-cleanup (updated_status c r) b h p = cc
Truthful-cleanup _ b h p = (tt, p)

AllApplied-with_status :
    (c : Committer) (now : Time) (status message : String) (h : List Event)
    → AllApplied c h
    → AllApplied (with_status c now status message) h
unfolding with_status build_coordinator_spec build_sidecar_spec build_validator_spec
    build_verifier_spec build_query_service_spec
AllApplied-with_status c now status message h a =
    of_each (λ k. IsApplied (with_status c now status message) k h) (a coordinator) (a sidecar)
      (a validator) (a verifier) (a query_service)

module _ (env : Env) where
  update_status-Truthful :
      (c : Committer) (status message : String)
      → Triple
          (λ h. Truthful h × (status ≡ "RUNNING" → AllApplied c h))
          (update_status env c status message)
          (λ _ h. Truthful h × (status ≡ "RUNNING" → EndsRunning h))
  unfolding update_status with_status
  update_status-Truthful c status message =
      Triple-call _ (λ _ h. Truthful h × (status ≡ "RUNNING" → AllApplied c h))
        (λ h p. ((tt, p.0), λ s. AllApplied-before c _ h (p.1 s)))
        λ now.
          let changed = AllApplied-with_status c now status message in
          Triple-call _ (λ _ h. Truthful h × (status ≡ "RUNNING" → EndsRunning h))
            (λ h p. ((λ s. changed h (p.1 s), p.0), λ s. ends _ _ h s (changed h (p.1 s))))
            (λ r. Triple-pure _ (λ h p. p))

  -- A status other than "RUNNING" may be written at any time.
  not_running :
      (c : Committer) (status message : String)
      → ◌≢◌ {A = String} status "RUNNING"
      → Triple Truthful (update_status env c status message) (λ _. Truthful)
  not_running c status message ne = record {
    at = λ h p. ((update_status-Truthful c status message).at h (p, λ e. absurd (ne e))).0;
  }

  failed_ne_running : ◌≢◌ {A = String} "FAILED" "RUNNING"
  failed_ne_running = ground (arith, eq_iff "FAILED" "RUNNING")

  pending_ne_running : ◌≢◌ {A = String} "PENDING" "RUNNING"
  pending_ne_running = ground (arith, eq_iff "PENDING" "RUNNING")

  update_committer-Truthful :
      (c : Committer) → Triple Truthful (update_committer env c) (λ _. Truthful)
  unfolding update_committer
  update_committer-Truthful c =
      Triple-call _ (λ _. Truthful) (λ h p. (tt, p)) λ r. Triple-pure _ (λ h p. p)

  abbrev pub Monitored : Outcome CtrlResult → List Event → Type 0
  Monitored r h = Truthful h × (r ≡ ok monitor → EndsRunning h)

  fail-Monitored :
      (c : Committer) (message : String) (e : GoError)
      → Triple Truthful (fail env c message e) Monitored
  unfolding fail
  fail-Monitored c message e =
      Triple-invoke _ (not_running c "FAILED" message failed_ne_running)
        λ _. Triple-pure _ (λ h p. (p, λ x. cc))

  reconcile_committer-Truthful :
      (c : Committer)
      → Triple Truthful
          (reconcile_committer env c)
          (λ r h. Truthful h × (r.1 ≡ ok tt → EndsRunning h))
  unfolding reconcile_committer
  reconcile_committer-Truthful c =
      Triple-invoke _ (reconcile_child_crds-AllApplied env Truthful Truthful-plain c) λ children.
        Triple-check children (λ e _. Triple-pure _ (λ h p. (p.0, λ x. cc)))
          λ _ x.
            Triple-invoke _
              (Triple-weaken (λ h p. (p.0, λ _. p.1 x)) (update_status-Truthful c "RUNNING" _))
              λ _. Triple-pure _ (λ h p. (p.0, λ _. p.1 refl))

  reconcile_live-Monitored : (c : Committer) → Triple Truthful (reconcile_live env c) Monitored
  unfolding reconcile_live init_status ensure_finalizer report_failure
  reconcile_live-Monitored c =
      Triple-invoke (λ _. Truthful)
        (Triple-if (c.status.status == "") (λ _. not_running c "PENDING" _ pending_ne_running)
          (λ _. Triple-pure _ (λ h p. p)))
        λ started.
          Triple-invoke (λ _. Truthful)
            (Triple-if (contains_string started.meta.finalizers finalizer)
              (λ _. Triple-pure _ (λ h p. p)) (λ _. update_committer-Truthful _))
            λ held.
              Triple-check held.1 (λ e _. fail-Monitored held.0 _ e)
                λ _ _. Triple-invoke _ (reconcile_committer-Truthful held.0) λ rolled.
                  Triple-check rolled.1
                    (λ e _.
                      Triple-if (rolled.0.status.status == "FAILED")
                        (λ _. Triple-pure _ (λ h p. (p.0, λ x. cc)))
                        (λ _. Triple-weaken (λ h p. p.0) (fail-Monitored rolled.0 _ e)))
                    (λ _ x. Triple-pure _ (λ h p. (p.0, λ _. p.1 x)))

  handle_deletion-Monitored : (c : Committer) → Triple Truthful (handle_deletion env c) Monitored
  unfolding handle_deletion remove_finalizer
  handle_deletion-Monitored c =
      Triple-invoke _ (not_running c "PENDING" _ pending_ne_running) λ pending.
        Triple-invoke _ (cleanup_child_crds-AllGone env Truthful Truthful-cleanup pending)
          λ cleaned.
            Triple-check cleaned (λ e _. Triple-weaken (λ h p. p.0) (fail-Monitored pending _ e))
              λ _ _.
                Triple-invoke _ (Triple-weaken (λ h p. p.0) (update_committer-Truthful _)) λ freed.
                  Triple-check freed.1 (λ e _. fail-Monitored freed.0 _ e)
                    (λ _ _. Triple-pure _ (λ h p. (p, λ x. cc)))

  reconcile_key-Monitored : (key : NamespacedName) → Triple Truthful (reconcile env key) Monitored
  unfolding reconcile
  reconcile_key-Monitored key =
      Triple-call _ (λ _. Truthful) (λ h p. (tt, p))
        λ got.
          Triple-check got
            (λ e _.
              Triple-if (is_not_found e) (λ _. Triple-pure _ (λ h p. (p, λ x. cc)))
                (λ _. Triple-pure _ (λ h p. (p, λ x. cc))))
            λ c _.
              Triple-if c.meta.deleted (λ _. handle_deletion-Monitored c)
                (λ _. reconcile_live-Monitored c)

-- If every status update of the history that says "RUNNING" came after all five children were
-- applied - created, or updated from one that was read, with the spec that is built for them - then
-- so it is after a run of `Reconcile`; and where the run asks for the next look in a minute, its last
-- call was such an update.
pub reconcile-Monitored :
    (env : Env) (key : NamespacedName) (h : List Event)
    → Truthful h
    → Truthful (reconcile env key h).1
      × ((reconcile env key h).0 ≡ ok monitor → EndsRunning (reconcile env key h).1)
reconcile-Monitored env key h p = (reconcile_key-Monitored env key).at h p
