-- ===== src/Identity/Guard.antt =====
-- The finalizer comes first: what `Reconcile` creates outside the Identity is created under it.
use fabric_x_operator.Prelude.{◌≡◌, true, List, [], ◌∷◌}
use fabric_x_operator.Go.{ok, is_not_found}
use fabric_x_operator.Go.Triple.{
  Triple, Triple-pure, Triple-if, Triple-call, Triple-check, Triple-invoke, Triple-weaken, Each,
  Occurs, before, Occurs-answer,
}
use fabric_x_operator.Kube.{NamespacedName, FinalizerLaws}
use fabric_x_operator.Identity.Types.{Identity, Status}
use fabric_x_operator.Identity.Env.{
  Env, Event, got_identity, updated_identity, created_secret, updated_secret, enrolled_user,
  enrolled_idemix,
}
use fabric_x_operator.Identity.Status.{write_status}
use fabric_x_operator.Identity.Reconcile.{
  finalizer, handle_deletion, ensure_finalizer, reconcile_live, reconcile_found, reconcile,
}
use fabric_x_operator.Identity.Rules.{Keeps}
use fabric_x_operator.Identity.Invariant.{
  KeepsOutputs, Triple-reconcile_live, Triple-enroll_idemix_and_store,
}

-- The Identity carries the finalizer on the API server: it was read with it, or an update that sets
-- it was accepted.
pub data UnderFinalizer (env : Env) (h : List Event) : Type 0 where
  read_with :
      (key : NamespacedName) (i : Identity)
      → Occurs (got_identity key (ok i)) h
      → env.util.contains_finalizer i.meta finalizer ≡ true
      → UnderFinalizer env h
  set_by :
      (i i' : Identity)
      → Occurs (updated_identity i (ok i')) h
      → env.util.contains_finalizer i.meta finalizer ≡ true
      → UnderFinalizer env h

-- Enrollments, and writes of secrets, happen under the finalizer.
abbrev pub WriteIsGuarded : Env → List Event → Event → Type 0
WriteIsGuarded env h (created_secret s r) = UnderFinalizer env h
WriteIsGuarded env h (updated_secret s r) = UnderFinalizer env h
WriteIsGuarded env h (enrolled_user q r) = UnderFinalizer env h
WriteIsGuarded env h (enrolled_idemix q r) = UnderFinalizer env h
WriteIsGuarded env h _ = Unit

abbrev pub Guarded : Env → List Event → Type 0
Guarded env = Each (WriteIsGuarded env)

UnderFinalizer-before :
    {env : Env} {h : List Event} (e : Event) → UnderFinalizer env h → UnderFinalizer env (e ∷ h)
UnderFinalizer-before e (read_with key i o c) = read_with key i (before o) c
UnderFinalizer-before e (set_by i i' o c) = set_by i i' (before o) c

guarded_now :
    {env : Env} {h : List Event} (e : Event) → UnderFinalizer env h → WriteIsGuarded env h e
guarded_now (created_secret s r) u = u
guarded_now (updated_secret s r) u = u
guarded_now (enrolled_user q r) u = u
guarded_now (enrolled_idemix q r) u = u
guarded_now _ u = tt

module _ (env : Env) where
  abbrev Under : List Event → Type 0
  Under h = Guarded env h × UnderFinalizer env h

  keep : (e : Event) → Keeps Under e
  keep e h (g, u) = ((guarded_now e u, g), UnderFinalizer-before e u)

  write_status-keeps :
      (change : Status → Status)
      → KeepsOutputs change
      → (i : Identity) → Triple Under (write_status env change i) (λ _. Under)
  write_status-keeps change _ i =
      Triple-call _ (λ _. Under) (λ h. keep _ h)
        λ got.
          Triple-check got (λ _ _. Triple-pure _ (λ h p. p))
            λ fresh _.
              Triple-call _ (λ _. Under) (λ h. keep _ h)
                λ written.
                  Triple-check written (λ _ _. Triple-pure _ (λ h p. p))
                    (λ _ _. Triple-pure _ (λ h p. p))

  reconcile_live-keeps : (i : Identity) → Triple Under (reconcile_live env i) (λ _. Under)
  reconcile_live-keeps =
      Triple-reconcile_live env Under (λ _. Under) (λ e _. keep e) write_status-keeps
        (Triple-enroll_idemix_and_store env Under (λ _. Under) (λ e _. keep e) write_status-keeps
          (λ r. keep _) (λ r dir h. keep _ h))

  handle_deletion-Guarded :
      (i : Identity) → Triple (Guarded env) (handle_deletion env i) (λ _. Guarded env)
  unfolding handle_deletion
  handle_deletion-Guarded i =
      Triple-if (env.util.contains_finalizer i.meta finalizer)
        (λ _.
          Triple-call _ (λ _. Guarded env) (λ h p. (tt, p))
            λ r. Triple-check r (λ _ _. Triple-pure _ (λ h p. p)) (λ _ _. Triple-pure _ (λ h p. p)))
        (λ _. Triple-pure _ (λ h p. p))

  module _ (laws : FinalizerLaws env.util) where
    -- After `ensure_finalizer` has succeeded the finalizer is there.
    ensure_finalizer-Under :
        (key : NamespacedName) (i : Identity)
        → Triple
            (λ h. Guarded env h × Occurs (got_identity key (ok i)) h)
            (ensure_finalizer env i)
            (λ r h. Guarded env h × ((live : Identity) → r ≡ ok live → UnderFinalizer env h))
    unfolding ensure_finalizer
    ensure_finalizer-Under key i =
        let held : Identity = record i { meta = env.util.add_finalizer i.meta finalizer } in
        Triple-if (env.util.contains_finalizer i.meta finalizer)
          (λ c. Triple-pure _ (λ h p. (p.0, λ _ _. read_with key i p.1 c)))
          (λ _.
            Triple-call _
              (λ r h. Guarded env h × ((live : Identity) → r ≡ ok live → UnderFinalizer env h))
              (λ h p. (
                (tt, p.0),
                λ live e.
                    set_by held live (Occurs-answer (updated_identity held) _ _ h e)
                      (laws.contains-add i.meta finalizer),
              ))
              λ r. Triple-pure _ (λ h p. p))

    reconcile_found-Guarded :
        (key : NamespacedName) (i : Identity)
        → Triple
            (λ h. Guarded env h × Occurs (got_identity key (ok i)) h)
            (reconcile_found env i)
            (λ _. Guarded env)
    unfolding reconcile_found
    reconcile_found-Guarded key i =
        Triple-if i.meta.deleted (λ _. Triple-weaken (λ h p. p.0) (handle_deletion-Guarded i))
          λ _. Triple-invoke _ (ensure_finalizer-Under key i) λ held.
            Triple-check held (λ _ _. Triple-pure _ (λ h p. p.0))
              (λ live e. record {
                at = λ h p. ((reconcile_live-keeps live).at h (p.0, p.1 live e)).0;
              })

    run-Guarded :
        (key : NamespacedName) → Triple (Guarded env) (reconcile env key) (λ _. Guarded env)
    unfolding reconcile
    run-Guarded key =
        Triple-call _
          (λ r h. Guarded env h × ((i : Identity) → r ≡ ok i → Occurs (got_identity key (ok i)) h))
          (λ h p. ((tt, p), λ i e. Occurs-answer (got_identity key) _ _ h e))
          λ got.
            Triple-check got
              (λ e _.
                Triple-if (is_not_found e) (λ _. Triple-pure _ (λ h p. p.0))
                  (λ _. Triple-pure _ (λ h p. p.0)))
              (λ i e. Triple-weaken (λ h p. (p.0, p.1 i e)) (reconcile_found-Guarded key i))

    -- In every run of `Reconcile`, each enrollment with a certificate authority and each write of a
    -- secret comes after the Identity was read with the operator's finalizer, or after an update
    -- that sets the finalizer was accepted. The finalizer that controllerutil adds is assumed to be
    -- found again.
    pub reconcile-Guarded : (key : NamespacedName) → Guarded env (reconcile env key []).1
    reconcile-Guarded key = (run-Guarded key).at [] tt
