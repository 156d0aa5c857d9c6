-- ===== src/Identity/Frame.antt =====
-- What a status update changes: it writes back the object that was fetched last.
use fabric_x_operator.Prelude.{◌≡◌, refl, true, List, []}
use fabric_x_operator.Go.{ok, is_not_found}
use fabric_x_operator.Go.Triple.{
  Triple, Triple-pure, Triple-if, Triple-call, Triple-check, Triple-invoke, Each, Occurs,
  Occurs-answer,
}
use fabric_x_operator.Kube.{NamespacedName, key_of}
use fabric_x_operator.Identity.Types.{Identity, Status}
use fabric_x_operator.Identity.Env.{Env, Event, got_identity, updated_status}
use fabric_x_operator.Identity.Status.{write_status}
use fabric_x_operator.Identity.Reconcile.{
  finalizer, handle_deletion, ensure_finalizer, reconcile_live, reconcile_found, reconcile,
}
use fabric_x_operator.Identity.Rules.{Keeps}
use fabric_x_operator.Identity.Invariant.{
  is_plain, KeepsOutputs, Triple-reconcile_live, Triple-enroll_idemix_and_store,
}

-- The object was read from the API server, and only the status of it was changed, without the
-- names of the output secrets.
pub record FromRead (i : Identity) (h : List Event) : Type 0 where
  pub key : NamespacedName
  pub fresh : Identity
  pub read : Occurs (got_identity key (ok fresh)) h
  pub meta_kept : i.meta ≡ fresh.meta
  pub spec_kept : i.spec ≡ fresh.spec
  pub outputs_kept : i.status.output_secrets ≡ fresh.status.output_secrets

abbrev pub StatusIsFrame : List Event → Event → Type 0
StatusIsFrame h (updated_status i r) = FromRead i h
StatusIsFrame h _ = Unit

abbrev pub Framed : List Event → Type 0
Framed = Each StatusIsFrame

frame_plain : (e : Event) → is_plain e ≡ true → Keeps Framed e
frame_plain (updated_status i r) p h f = cc
frame_plain _ p h f = (tt, f)

module _ (env : Env) where
  write_status-Framed :
      (change : Status → Status)
      → KeepsOutputs change
      → (i : Identity) → Triple Framed (write_status env change i) (λ _. Framed)
  write_status-Framed change same i =
      let key : NamespacedName = key_of i.meta in
      Triple-call _
        (λ r h. Framed h × ((f : Identity) → r ≡ ok f → Occurs (got_identity key (ok f)) h))
        (λ h p. ((tt, p), λ f e. Occurs-answer (got_identity key) _ _ h e))
        λ got.
          Triple-check got (λ _ _. Triple-pure _ (λ h p. p.0))
            λ fresh e.
              Triple-call _ (λ _. Framed)
                (λ h p. (
                  record {
                    key = key;
                    fresh = fresh;
                    read = p.1 fresh e;
                    meta_kept = refl;
                    spec_kept = refl;
                    outputs_kept = same fresh.status;
                  },
                  p.0,
                ))
                λ written.
                  Triple-check written (λ _ _. Triple-pure _ (λ h p. p))
                    (λ _ _. Triple-pure _ (λ h p. p))

  reconcile_live-Framed : (i : Identity) → Triple Framed (reconcile_live env i) (λ _. Framed)
  reconcile_live-Framed =
      Triple-reconcile_live env Framed (λ _. Framed) frame_plain write_status-Framed
        (Triple-enroll_idemix_and_store env Framed (λ _. Framed) frame_plain write_status-Framed
          (λ r h p. (tt, p)) (λ r dir h p. (tt, p)))

  handle_deletion-Framed : (i : Identity) → Triple Framed (handle_deletion env i) (λ _. Framed)
  unfolding handle_deletion
  handle_deletion-Framed i =
      Triple-if (env.util.contains_finalizer i.meta finalizer)
        (λ _.
          Triple-call _ (λ _. Framed) (λ h p. (tt, p))
            λ r. Triple-check r (λ _ _. Triple-pure _ (λ h p. p)) (λ _ _. Triple-pure _ (λ h p. p)))
        (λ _. Triple-pure _ (λ h p. p))

  ensure_finalizer-Framed : (i : Identity) → Triple Framed (ensure_finalizer env i) (λ _. Framed)
  unfolding ensure_finalizer
  ensure_finalizer-Framed i =
      Triple-if (env.util.contains_finalizer i.meta finalizer) (λ _. Triple-pure _ (λ h p. p))
        (λ _. Triple-call _ (λ _. Framed) (λ h p. (tt, p)) λ r. Triple-pure _ (λ h p. p))

  run-Framed : (key : NamespacedName) → Triple Framed (reconcile env key) (λ _. Framed)
  unfolding reconcile reconcile_found
  run-Framed key =
      Triple-call _ (λ _. Framed) (λ h p. (tt, p))
        λ got.
          Triple-check got
            (λ e _.
              Triple-if (is_not_found e) (λ _. Triple-pure _ (λ h p. p))
                (λ _. Triple-pure _ (λ h p. p)))
            λ i _.
              Triple-if i.meta.deleted (λ _. handle_deletion-Framed i)
                λ _.
                  Triple-invoke (λ _. Framed) (ensure_finalizer-Framed i)
                    λ held.
                      Triple-check held (λ _ _. Triple-pure _ (λ h p. p))
                        (λ live _. reconcile_live-Framed live)

  -- In every run of `Reconcile`, each status update sends an object that was read from the API
  -- server in that run, with metadata, spec and the names of the output secrets unchanged: a status
  -- update touches no other part, and the names that `createOutputSecrets` and `createIdemixSecret`
  -- note on their copy of the Identity never reach the API server.
  pub reconcile-Framed : (key : NamespacedName) → Framed (reconcile env key []).1
  reconcile-Framed key = (run-Framed key).at [] tt
