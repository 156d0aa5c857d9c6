-- ===== src/ChainNamespace/Deployed.antt =====
-- "Deployed" in every run of `Reconcile`, and what a run that ends without an error has achieved.
use mathlib.Core.Path.{subst}
use fabric_x_operator.Prelude.{String, ◌≡◌, refl, sym, true, not, ◌&&◌, List, [], ◌==◌}
use fabric_x_operator.Go.{GoError, Outcome, ok, err, is_not_found}
use fabric_x_operator.Go.Triple.{
  Triple, Triple-pure, Triple-if, Triple-call, Triple-check, Triple-invoke, Triple-weaken, Occurs,
  before, Occurs-answer, ok_injective,
}
use fabric_x_operator.Kube.{CtrlResult, NamespacedName, done}
use fabric_x_operator.ChainNamespace.Types.{ChainNamespace}
use fabric_x_operator.ChainNamespace.Env.{
  Env, Event, got_namespace, updated_namespace, updated_status,
}
use fabric_x_operator.ChainNamespace.Conditions.{update_status, with_status}
use fabric_x_operator.ChainNamespace.Reconcile.{
  finalizer, handle_deletion, report_failure, deploy, ensure_finalizer, reconcile_found, reconcile,
}
use fabric_x_operator.ChainNamespace.Confirmed.{
  Confirmed, Confirmed-before, Truthful, deploy_namespace-Deploys,
}

-- The API server answered with this object, when it was read or when the finalizer was added.
pub data IsKnown (key : NamespacedName) (ns : ChainNamespace) (h : List Event) : Type 0 where
  read : Occurs (got_namespace key (ok ns)) h → IsKnown key ns h
  held : (i : ChainNamespace) → Occurs (updated_namespace i (ok ns)) h → IsKnown key ns h

-- Why a run may end without an error: there is no such object, it is being deleted, it is already
-- deployed, or "Deployed" was written and accepted.
pub data Settled (key : NamespacedName) (h : List Event) : Type 0 where
  missing :
      (e : GoError) → Occurs (got_namespace key (err e)) h → is_not_found e ≡ true → Settled key h
  deleting :
      (ns : ChainNamespace)
      → Occurs (got_namespace key (ok ns)) h
      → ns.meta.deleted ≡ true
      → Settled key h
  deployed_before :
      (ns : ChainNamespace)
      → IsKnown key ns h
      → ((ns.status.status == "Deployed") && not (ns.status.tx_id == "")) ≡ true
      → Settled key h
  deployed_now :
      (i i' : ChainNamespace)
      → i.status.status ≡ "Deployed"
      → Occurs (updated_status i (ok i')) h
      → Settled key h

is_done : {c : CtrlResult} → ok done ≡ ok c → c ≡ done
is_done x = sym (ok_injective x)

module _ (env : Env) where
  abbrev Ends : NamespacedName → Outcome CtrlResult → List Event → Type 0
  Ends key r h = Truthful env h × ((c : CtrlResult) → r ≡ ok c → (c ≡ done) × Settled key h)

  update_status-Truthful :
      (ns : ChainNamespace) (status message tx_id : String)
      → Triple
          (λ h. Truthful env h × (status ≡ "Deployed" → Confirmed env tx_id h))
          (update_status env ns status message tx_id)
          (λ r h.
            Truthful env h
            × (r ≡ ok tt
                → (i : ChainNamespace) × (i' : ChainNamespace) × (i.status.status ≡ status)
                  × Occurs (updated_status i (ok i')) h))
  unfolding update_status with_status
  update_status-Truthful ns status message tx_id =
      Triple-call _ (λ _ h. Truthful env h × (status ≡ "Deployed" → Confirmed env tx_id h))
        (λ h p. ((tt, p.0), λ x. Confirmed-before _ (p.1 x)))
        λ now.
          let changed = with_status ns now status message tx_id in
          Triple-call _
            (λ r h.
              Truthful env h
              × ((i' : ChainNamespace) → r ≡ ok i' → Occurs (updated_status changed (ok i')) h))
            (λ h p. ((p.1, p.0), λ i' x. Occurs-answer (updated_status changed) _ _ h x))
            λ r.
              Triple-check r (λ _ _. Triple-pure _ (λ h p. (p.0, λ x. cc)))
                λ i' x. Triple-pure _ (λ h p. (p.0, λ _. (changed, i', refl, p.1 i' x)))

  report_failure-Ends :
      (key : NamespacedName) (ns : ChainNamespace) (e : GoError)
      → Triple (Truthful env) (report_failure env ns e) (Ends key)
  unfolding report_failure
  report_failure-Ends key ns e =
      Triple-invoke _
        (Triple-weaken (λ h p. (p, λ x. failed_is_not_deployed x))
          (update_status-Truthful ns "Failed" e.text ""))
        λ _. Triple-pure _ (λ h p. (p.0, λ c x. cc))
    where
      failed_is_not_deployed :
          {h : List Event} → ◌≡◌ {A = String} "Failed" "Deployed" → Confirmed env "" h
      failed_is_not_deployed x = cc

  deploy-Ends :
      (key : NamespacedName) (ns : ChainNamespace)
      → Triple (λ h. Truthful env h × IsKnown key ns h) (deploy env ns) (Ends key)
  unfolding deploy
  deploy-Ends key ns =
      Triple-if ((ns.status.status == "Deployed") && not (ns.status.tx_id == ""))
        (λ b. Triple-pure _ (λ h p. (p.0, λ c x. (is_done x, deployed_before ns p.1 b))))
        λ _.
          Triple-invoke _ (Triple-weaken (λ h p. p.0) (deploy_namespace-Deploys env ns)) λ deployed.
            Triple-check deployed (λ e _. Triple-weaken (λ h p. p.0) (report_failure-Ends key ns e))
              λ tx_id x.
                Triple-invoke _
                  (Triple-weaken (λ h p. (p.0, λ _. p.1 tx_id x))
                    (update_status-Truthful ns "Deployed" _ tx_id))
                  λ written.
                    Triple-check written (λ _ _. Triple-pure _ (λ h p. (p.0, λ c z. cc)))
                      λ _ y. Triple-pure _ (λ h p.
                        let q = p.1 y in (p.0, λ c z. (is_done z, deployed_now q.0 q.1 q.2 q.3)))

  abbrev Read : NamespacedName → ChainNamespace → List Event → Type 0
  Read key ns h = Truthful env h × Occurs (got_namespace key (ok ns)) h

  handle_deletion-Ends :
      (key : NamespacedName) (ns : ChainNamespace)
      → ns.meta.deleted ≡ true
      → Triple (Read key ns) (handle_deletion env ns) (Ends key)
  unfolding handle_deletion
  handle_deletion-Ends key ns d =
      Triple-if (not (env.util.contains_finalizer ns.meta finalizer))
        (λ _. Triple-pure _ (λ h p. (p.0, λ c x. (is_done x, deleting ns p.1 d))))
        λ _.
          Triple-call _ (λ _. Read key ns) (λ h p. ((tt, p.0), before p.1))
            λ r.
              Triple-check r (λ _ _. Triple-pure _ (λ h p. (p.0, λ c x. cc)))
                λ _ _. Triple-pure _ (λ h p. (p.0, λ c x. (is_done x, deleting ns p.1 d)))

  ensure_finalizer-IsKnown :
      (key : NamespacedName) (ns : ChainNamespace)
      → Triple
          (Read key ns)
          (ensure_finalizer env ns)
          (λ r h. Truthful env h × ((live : ChainNamespace) → r ≡ ok live → IsKnown key live h))
  unfolding ensure_finalizer
  ensure_finalizer-IsKnown key ns =
      Triple-if (env.util.contains_finalizer ns.meta finalizer)
        (λ _.
          Triple-pure _
            (λ h p. (p.0, λ live x. subst (λ n. IsKnown key n h) (ok_injective x) (read p.1))))
        λ _.
          let changed : ChainNamespace = record ns {
            meta = env.util.add_finalizer ns.meta finalizer;
          } in
          Triple-call _
            (λ r h. Truthful env h × ((live : ChainNamespace) → r ≡ ok live → IsKnown key live h))
            (λ h p. (
              (tt, p.0),
              λ live x. held changed (Occurs-answer (updated_namespace changed) _ _ h x),
            ))
            λ r. Triple-pure _ (λ h p. p)

  reconcile_found-Ends :
      (key : NamespacedName) (ns : ChainNamespace)
      → Triple (Read key ns) (reconcile_found env ns) (Ends key)
  unfolding reconcile_found
  reconcile_found-Ends key ns = Triple-if ns.meta.deleted (handle_deletion-Ends key ns) λ _.
      Triple-invoke _ (ensure_finalizer-IsKnown key ns) λ r.
        Triple-check r (λ _ _. Triple-pure _ (λ h p. (p.0, λ c x. cc)))
          (λ live x. Triple-weaken (λ h p. (p.0, p.1 live x)) (deploy-Ends key live))

  run-Ends : (key : NamespacedName) → Triple (Truthful env) (reconcile env key) (Ends key)
  unfolding reconcile
  run-Ends key =
      Triple-call _
        (λ r h.
          Truthful env h
          × ((e : GoError) → r ≡ err e → Occurs (got_namespace key (err e)) h)
          × ((ns : ChainNamespace) → r ≡ ok ns → Occurs (got_namespace key (ok ns)) h))
        (λ h p. (
          (tt, p),
          (λ e x. Occurs-answer (got_namespace key) _ _ h x),
          λ ns x. Occurs-answer (got_namespace key) _ _ h x,
        ))
        λ got.
          Triple-check got
            (λ e x.
              Triple-if (is_not_found e)
                (λ n. Triple-pure _ (λ h p. (p.0, λ c y. (is_done y, missing e (p.1 e x) n))))
                (λ _. Triple-pure _ (λ h p. (p.0, λ c y. cc))))
            λ ns x. Triple-weaken (λ h p. (p.0, p.2 ns x)) (reconcile_found-Ends key ns)

  -- In every run of `Reconcile`, a status update that says "Deployed" comes after an envelope was
  -- signed whose payload has a header with the transaction ID of that status, was sent to the
  -- orderer without an error, and a success was received on the stream that it was sent on.
  pub reconcile-Truthful : (key : NamespacedName) → Truthful env (reconcile env key []).1
  reconcile-Truthful key = ((run-Ends key).at [] tt).0

  -- A run of `Reconcile` that returns no error asks for no requeue, and then the object is not
  -- there, is marked for deletion, is already deployed with a transaction ID, or "Deployed" was
  -- written to its status and the write was accepted.
  pub reconcile-Settled :
      (key : NamespacedName) (r : CtrlResult)
      → (reconcile env key []).0 ≡ ok r
      → (r ≡ done) × Settled key (reconcile env key []).1
  reconcile-Settled key = ((run-Ends key).at [] tt).1
