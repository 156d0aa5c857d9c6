-- ===== src/Committer/Deletion.antt =====
-- The finalizer is taken from a committer only after its children are gone.
use fabric_x_operator.Prelude.{String, ◌≡◌, false, List, ◌==◌}
use fabric_x_operator.Go.{GoError, is_not_found}
use fabric_x_operator.Go.Makes.{KeepsThose}
use fabric_x_operator.Go.Triple.{
  Triple, Triple-pure, Triple-if, Triple-call, Triple-check, Triple-invoke, Triple-weaken, Each,
}
use fabric_x_operator.Kube.{NamespacedName}
use fabric_x_operator.Utils.Finalizers.{contains_string, contains_string-append}
use fabric_x_operator.Api.Committer.{Committer}
use fabric_x_operator.Committer.Env.{Env, Event, updated_committer}
use fabric_x_operator.Committer.Reconcile.{
  finalizer, update_status, update_committer, ensure_finalizer, remove_finalizer,
  reconcile_committer, fail, report_failure, init_status, reconcile_live, handle_deletion,
  reconcile,
}
use fabric_x_operator.Committer.Applied.{is_plain, reconcile_child_crds-AllApplied}
use fabric_x_operator.Committer.Cleanup.{AllGone, is_cleanup, cleanup_child_crds-AllGone}

-- A committer is written without the finalizer only after its children are gone.
abbrev pub FreedIsEmpty : List Event → Event → Type 0
FreedIsEmpty h (updated_committer c r) =
    contains_string c.meta.finalizers finalizer ≡ false → AllGone c h
FreedIsEmpty h _ = Unit

abbrev pub Emptied : List Event → Type 0
Emptied = Each FreedIsEmpty

Emptied-plain : KeepsThose is_plain Emptied
Emptied-plain (updated_committer c r) b h p = cc
Emptied-plain _ b h p = (tt, p)

Emptied-cleanup : KeepsThose is_cleanup Emptied
Emptied-cleanup (updated_committer c r) b h p = cc
Emptied-cleanup _ b h p = (tt, p)

module _ (env : Env) where
  update_status-Emptied :
      (c : Committer) (status message : String)
      → Triple Emptied (update_status env c status message) (λ _. Emptied)
  unfolding update_status
  update_status-Emptied c status message =
      Triple-call _ (λ _. Emptied) (λ h p. (tt, p))
        λ now. Triple-call _ (λ _. Emptied) (λ h p. (tt, p)) (λ r. Triple-pure _ (λ h p. p))

  fail-Emptied :
      (c : Committer) (message : String) (e : GoError)
      → Triple Emptied (fail env c message e) (λ _. Emptied)
  unfolding fail
  fail-Emptied c message e =
      Triple-invoke _ (update_status-Emptied c "FAILED" message) λ _. Triple-pure _ (λ h p. p)

  update_committer-Emptied :
      (c : Committer)
      → Triple
          (λ h. Emptied h × (contains_string c.meta.finalizers finalizer ≡ false → AllGone c h))
          (update_committer env c)
          (λ _. Emptied)
  unfolding update_committer
  update_committer-Emptied c =
      Triple-call _ (λ _. Emptied) (λ h p. (p.1, p.0)) λ r. Triple-pure _ (λ h p. p)

  ensure_finalizer-Emptied :
      (c : Committer) → Triple Emptied (ensure_finalizer env c) (λ _. Emptied)
  unfolding ensure_finalizer
  ensure_finalizer-Emptied c =
      Triple-if (contains_string c.meta.finalizers finalizer) (λ _. Triple-pure _ (λ h p. p))
        λ _.
          let held = contains_string-append c.meta.finalizers finalizer in
          Triple-weaken (λ h p. (p, λ f. cc)) (update_committer-Emptied _)

  reconcile_committer-Emptied :
      (c : Committer) → Triple Emptied (reconcile_committer env c) (λ _. Emptied)
  unfolding reconcile_committer
  reconcile_committer-Emptied c =
      Triple-invoke _ (reconcile_child_crds-AllApplied env Emptied Emptied-plain c) λ children.
        Triple-check children (λ _ _. Triple-pure _ (λ h p. p.0))
          λ _ _.
            Triple-invoke _ (Triple-weaken (λ h p. p.0) (update_status-Emptied c "RUNNING" _))
              λ _. Triple-pure _ (λ h p. p)

  reconcile_live-Emptied : (c : Committer) → Triple Emptied (reconcile_live env c) (λ _. Emptied)
  unfolding reconcile_live init_status report_failure
  reconcile_live-Emptied c =
      Triple-invoke (λ _. Emptied)
        (Triple-if (c.status.status == "") (λ _. update_status-Emptied c "PENDING" _)
          (λ _. Triple-pure _ (λ h p. p)))
        λ started. Triple-invoke _ (ensure_finalizer-Emptied started) λ held.
          Triple-check held.1 (λ e _. fail-Emptied held.0 _ e)
            λ _ _. Triple-invoke _ (reconcile_committer-Emptied held.0) λ rolled.
              Triple-check rolled.1
                (λ e _.
                  Triple-if (rolled.0.status.status == "FAILED") (λ _. Triple-pure _ (λ h p. p))
                    (λ _. fail-Emptied rolled.0 _ e))
                (λ _ _. Triple-pure _ (λ h p. p))

  handle_deletion-Emptied : (c : Committer) → Triple Emptied (handle_deletion env c) (λ _. Emptied)
  unfolding handle_deletion remove_finalizer
  handle_deletion-Emptied c = Triple-invoke _ (update_status-Emptied c "PENDING" _) λ pending.
      Triple-invoke _ (cleanup_child_crds-AllGone env Emptied Emptied-cleanup pending) λ cleaned.
        Triple-check cleaned (λ e _. Triple-weaken (λ h p. p.0) (fail-Emptied pending _ e))
          λ _ x.
            Triple-invoke _ (Triple-weaken (λ h p. (p.0, λ _. p.1 x)) (update_committer-Emptied _))
              λ freed.
                Triple-check freed.1 (λ e _. fail-Emptied freed.0 _ e)
                  (λ _ _. Triple-pure _ (λ h p. p))

  reconcile_key-Emptied : (key : NamespacedName) → Triple Emptied (reconcile env key) (λ _. Emptied)
  unfolding reconcile
  reconcile_key-Emptied key =
      Triple-call _ (λ _. Emptied) (λ h p. (tt, p))
        λ got.
          Triple-check got
            (λ e _.
              Triple-if (is_not_found e) (λ _. Triple-pure _ (λ h p. p))
                (λ _. Triple-pure _ (λ h p. p)))
            λ c _.
              Triple-if c.meta.deleted (λ _. handle_deletion-Emptied c)
                (λ _. reconcile_live-Emptied c)

-- If every update of the history that writes a committer without the finalizer came after each of
-- its five children was read and its deletion accepted, or could not be read, then so it is after a
-- run of `Reconcile`.
pub reconcile-Emptied :
    (env : Env) (key : NamespacedName) (h : List Event)
    → Emptied h
    → Emptied (reconcile env key h).1
reconcile-Emptied env key h p = (reconcile_key-Emptied env key).at h p
