-- ===== src/Identity/Errors.antt =====
-- Which errors `Reconcile` returns, and with them which failures make the runtime retry.
use fabric_x_operator.Prelude.{String, ◌≡◌, refl, List, [], ◌∷◌, arith}
use fabric_x_operator.Go.{GoError, Outcome, ok, err, is_not_found}
use fabric_x_operator.Go.Triple.{
  Triple, Triple-pure, Triple-if, Triple-call, Triple-check, Triple-invoke, Occurs, before,
  Occurs-answer,
}
use fabric_x_operator.Kube.{CtrlResult, NamespacedName, key_of}
use fabric_x_operator.Identity.Types.{Identity, Status}
use fabric_x_operator.Identity.Env.{Env, Event, got_identity, updated_identity, updated_status}
use fabric_x_operator.Identity.Status.{write_status}
use fabric_x_operator.Identity.Reconcile.{
  finalizer, handle_deletion, ensure_finalizer, reconcile_live, reconcile_found, reconcile,
}
use fabric_x_operator.Identity.Invariant.{Triple-reconcile_live, Triple-enroll_idemix_and_store}

-- A call on the Identity object itself was answered by the error.
pub data IdentityFailed (e : GoError) (h : List Event) : Type 0 where
  get_failed : (key : NamespacedName) → Occurs (got_identity key (err e)) h → IdentityFailed e h
  update_failed : (i : Identity) → Occurs (updated_identity i (err e)) h → IdentityFailed e h
  status_failed : (i : Identity) → Occurs (updated_status i (err e)) h → IdentityFailed e h

-- The result is `ctrl.Result{}`, or the error of a failed call on the Identity.
pub data Explained (h : List Event) : Outcome CtrlResult → Type 0 where
  finished : Explained h (ok (record { requeue_after = fabric_x_operator.Prelude.none }))
  failed_by : (e : GoError) → IdentityFailed e h → Explained h (err e)

abbrev Explains : Outcome CtrlResult → List Event → Type 0
Explains r h = Explained h r

abbrev Always : List Event → Type 0
Always h = Unit {0}

Explained-before :
    (e : Event) {h : List Event} (r : Outcome CtrlResult) → Explained h r → Explained (e ∷ h) r
Explained-before e r finished = finished
Explained-before e r (failed_by x (get_failed key o)) = failed_by x (get_failed key (before o))
Explained-before e r (failed_by x (update_failed i o)) = failed_by x (update_failed i (before o))
Explained-before e r (failed_by x (status_failed i o)) = failed_by x (status_failed i (before o))

module _ (env : Env) where
  write_status-Explained :
      (change : Status → Status) (i : Identity) → Triple Always (write_status env change i) Explains
  write_status-Explained change i =
      Triple-call _
        (λ r h. (e : GoError) → r ≡ err e → Occurs (got_identity (key_of i.meta) (err e)) h)
        (λ h _ e x. Occurs-answer (got_identity (key_of i.meta)) _ _ h x)
        λ r.
          Triple-check r
            (λ e x. Triple-pure _ (λ h p. failed_by e (get_failed (key_of i.meta) (p e x))))
            λ fresh _.
              let changed : Identity = record fresh { status = change fresh.status } in
              Triple-call _
                (λ r' h. (e : GoError) → r' ≡ err e → Occurs (updated_status changed (err e)) h)
                (λ h _ e x. Occurs-answer (updated_status changed) _ _ h x)
                λ r'.
                  Triple-check r'
                    (λ e x. Triple-pure _ (λ h p. failed_by e (status_failed changed (p e x))))
                    (λ _ _. Triple-pure _ (λ h p. finished))

  -- A call of `Update` on the Identity, from which the function returns on an error.
  handle_deletion-Explained : (i : Identity) → Triple Always (handle_deletion env i) Explains
  unfolding handle_deletion
  handle_deletion-Explained i =
      let freed : Identity = record i { meta = env.util.remove_finalizer i.meta finalizer } in
      Triple-if (env.util.contains_finalizer i.meta finalizer)
        (λ _.
          Triple-call _
            (λ r h. (e : GoError) → r ≡ err e → Occurs (updated_identity freed (err e)) h)
            (λ h _ e x. Occurs-answer (updated_identity freed) _ _ h x)
            λ r.
              Triple-check r
                (λ e x. Triple-pure _ (λ h p. failed_by e (update_failed freed (p e x))))
                (λ _ _. Triple-pure _ (λ h p. finished)))
        (λ _. Triple-pure _ (λ h p. finished))

  abbrev Held : Outcome Identity → List Event → Type 0
  Held r h = (e : GoError) → r ≡ err e → IdentityFailed e h

  ensure_finalizer-Explained : (i : Identity) → Triple Always (ensure_finalizer env i) Held
  unfolding ensure_finalizer
  ensure_finalizer-Explained i =
      let held : Identity = record i { meta = env.util.add_finalizer i.meta finalizer } in
      Triple-if (env.util.contains_finalizer i.meta finalizer) (λ _. Triple-pure _ (λ h p e x. cc))
        (λ _.
          Triple-call _ Held
            (λ h _ e x. update_failed held (Occurs-answer (updated_identity held) _ _ h x))
            λ r. Triple-pure _ (λ h p. p))

  reconcile_live-Explained : (i : Identity) → Triple Always (reconcile_live env i) Explains
  reconcile_live-Explained =
      Triple-reconcile_live env Always Explains (λ e _ h p. tt)
        (λ change _. write_status-Explained change)
        (Triple-enroll_idemix_and_store env Always Explains (λ e _ h p. tt)
          (λ change _. write_status-Explained change) (λ r h p. tt)
          (λ r dir h p. Explained-before _ r p))

  reconcile_found-Explained : (i : Identity) → Triple Always (reconcile_found env i) Explains
  unfolding reconcile_found
  reconcile_found-Explained i =
      Triple-if i.meta.deleted (λ _. handle_deletion-Explained i)
        λ _. Triple-invoke Held (ensure_finalizer-Explained i) λ held.
          Triple-check held (λ e x. Triple-pure _ (λ h p. failed_by e (p e x)))
            (λ live _. record { at = λ h _. (reconcile_live-Explained live).at h tt })

  run-Explained : (key : NamespacedName) → Triple Always (reconcile env key) Explains
  unfolding reconcile
  run-Explained key =
      Triple-call _ (λ r h. (e : GoError) → r ≡ err e → Occurs (got_identity key (err e)) h)
        (λ h _ e x. Occurs-answer (got_identity key) _ _ h x)
        λ r.
          Triple-check r
            (λ e x.
              Triple-if (is_not_found e) (λ _. Triple-pure _ (λ h p. finished))
                (λ _. Triple-pure _ (λ h p. failed_by e (get_failed key (p e x)))))
            (λ i _. record { at = λ h _. (reconcile_found-Explained i).at h tt })

  -- `Reconcile` of an Identity never asks for a requeue, and returns an error only if a call on the
  -- Identity object itself (its read, its update or its status update) was answered by that error:
  -- no failure of the certificate authority, of a secret or of the file system makes it retry.
  pub reconcile-Explained :
      (key : NamespacedName) → Explained (reconcile env key []).1 (reconcile env key []).0
  reconcile-Explained key = (run-Explained key).at [] tt
