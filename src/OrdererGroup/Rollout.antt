-- ===== src/OrdererGroup/Rollout.antt =====
-- "RUNNING" is written only when every child has been applied.
use fabric_x_operator.Prelude.{
  ◌≢◌, ℕ, suc, [], String, ◌≡◌, true, not, ◌||◌, List, ◌∷◌, ◌==◌, eq_iff, arith,
}
use fabric_x_operator.Go.{GoError, ok, is_not_found}
use fabric_x_operator.Go.Triple.{
  Triple, Triple-pure, Triple-if, Triple-call, Triple-check, Triple-invoke, Triple-weaken, Each,
  IfSet-map,
}
use fabric_x_operator.Kube.{Time, NamespacedName}
use fabric_x_operator.Utils.Finalizers.{contains_string}
use fabric_x_operator.Api.Orderer.{OrdererGroup, BatcherInstance}
use fabric_x_operator.OrdererGroup.Env.{
  Env, Event, SpecOf, updated_status, consenter, assembler, router, batcher, ChildKind,
}
use fabric_x_operator.OrdererGroup.Status.{with_status, update_status}
use fabric_x_operator.OrdererGroup.Specs.Consenter.{build_consenter_spec}
use fabric_x_operator.OrdererGroup.Specs.Batcher.{build_batcher_spec}
use fabric_x_operator.OrdererGroup.Specs.Assembler.{build_assembler_spec}
use fabric_x_operator.OrdererGroup.Specs.Router.{build_router_spec}
use fabric_x_operator.OrdererGroup.Children.{child_meta}
use fabric_x_operator.OrdererGroup.Reconcile.{
  finalizer, manages, update_group, ensure_finalizer, remove_finalizer, reconcile_children,
  reconcile_orderer_group, fail, report_failure, init_status, reconcile_live, cleanup_children,
  handle_deletion, reconcile,
}
use fabric_x_operator.OrdererGroup.Applied.{
  Applied, created, updated, BatchersApplied, AllApplied, AllApplied-before, Plain,
}
use fabric_x_operator.OrdererGroup.Cleanup.{cleanup_child_crds-Asks}
use fabric_x_operator.OrdererGroup.Rules.{reconcile_child_crds-AllApplied}

-- A status update that says "RUNNING" of a group that manages its children comes after all that the
-- group configures was applied.
abbrev pub RunningIsTrue : List Event → Event → Type 0
RunningIsTrue h (updated_status g r) =
    g.status.status ≡ "RUNNING" → manages g ≡ true → AllApplied g h
RunningIsTrue h _ = Unit

abbrev pub Accurate : List Event → Type 0
Accurate = Each RunningIsTrue

Accurate-plain : Plain Accurate
Accurate-plain (updated_status g r) b h p = cc
Accurate-plain _ b h p = (tt, p)

module _ (g : OrdererGroup) (now : Time) (status message : String) (h : List Event) where
  abbrev changed : OrdererGroup
  changed = with_status g now status message

  Applied-with_status :
      (k : ChildKind) (key : NamespacedName) (spec : SpecOf k)
      → Applied g k key spec h
      → Applied changed k key spec h
  unfolding with_status child_meta
  Applied-with_status k key spec (created s o) = created s o
  Applied-with_status k key spec (updated old s r o) = updated old s r o

  BatchersApplied-with_status :
      (i : ℕ) (bs : List BatcherInstance)
      → BatchersApplied g i bs h
      → BatchersApplied changed i bs h
  unfolding with_status build_batcher_spec
  BatchersApplied-with_status i [] a = tt
  BatchersApplied-with_status i (b ∷ bs) a =
      (Applied-with_status batcher _ _ a.0, BatchersApplied-with_status (suc i) bs a.1)

  AllApplied-with_status : AllApplied g h → AllApplied changed h
  unfolding with_status build_consenter_spec build_assembler_spec build_router_spec
  AllApplied-with_status a = record {
    consenter_applied = IfSet-map _ (λ c. Applied-with_status consenter _ _) a.consenter_applied;
    assembler_applied = IfSet-map _ (λ c. Applied-with_status assembler _ _) a.assembler_applied;
    router_applied = IfSet-map _ (λ c. Applied-with_status router _ _) a.router_applied;
    batchers_applied = BatchersApplied-with_status 0 _ a.batchers_applied;
  }

module _ (env : Env) where
  update_status-Accurate :
      (g : OrdererGroup) (status message : String)
      → Triple
          (λ h. Accurate h × (status ≡ "RUNNING" → manages g ≡ true → AllApplied g h))
          (update_status env g status message)
          (λ _. Accurate)
  unfolding update_status with_status
  update_status-Accurate g status message =
      Triple-if (not (g.status.status == status) || not (g.status.message == message))
        (λ _.
          Triple-call _
            (λ _ h. Accurate h × (status ≡ "RUNNING" → manages g ≡ true → AllApplied g h))
            (λ h p. ((tt, p.0), λ s m. AllApplied-before _ (p.1 s m)))
            λ now.
              Triple-call _ (λ _. Accurate)
                (λ h p. (λ s m. AllApplied-with_status g now status message h (p.1 s m), p.0))
                (λ r. Triple-pure _ (λ h p. p)))
        (λ _. Triple-pure _ (λ h p. p.0))

  -- A status other than "RUNNING" may be written at any time.
  not_running :
      (g : OrdererGroup) (status message : String)
      → (status ≡ "RUNNING" → ⊥)
      → Triple Accurate (update_status env g status message) (λ _. Accurate)
  not_running g status message ne =
      Triple-weaken (λ h p. (p, λ e. absurd (ne e))) (update_status-Accurate g status message)

  failed_ne_running : ◌≢◌ {A = String} "FAILED" "RUNNING"
  failed_ne_running = ground (arith, eq_iff "FAILED" "RUNNING")

  pending_ne_running : ◌≢◌ {A = String} "PENDING" "RUNNING"
  pending_ne_running = ground (arith, eq_iff "PENDING" "RUNNING")

  update_group-Accurate : (g : OrdererGroup) → Triple Accurate (update_group env g) (λ _. Accurate)
  unfolding update_group
  update_group-Accurate g =
      Triple-call _ (λ _. Accurate) (λ h p. (tt, p)) λ r. Triple-pure _ (λ h p. p)

  fail-Accurate :
      (g : OrdererGroup) (message : String) (e : GoError)
      → Triple Accurate (fail env g message e) (λ _. Accurate)
  unfolding fail
  fail-Accurate g message e =
      Triple-invoke _ (not_running g "FAILED" message failed_ne_running)
        λ _. Triple-pure _ (λ h p. p)

  reconcile_children-AllApplied :
      (g : OrdererGroup)
      → Triple Accurate
          (reconcile_children env g)
          (λ r h. Accurate h × (r ≡ ok tt → manages g ≡ true → AllApplied g h))
  unfolding reconcile_children
  reconcile_children-AllApplied g =
      Triple-if (manages g)
        (λ _. record {
          at = λ h p.
              let q = (reconcile_child_crds-AllApplied env Accurate Accurate-plain g).at h p in
              (q.0, λ x _. q.1 x);
        })
        (λ f. Triple-pure _ (λ h p. (p, λ _ m. cc)))

  reconcile_orderer_group-Accurate :
      (g : OrdererGroup) → Triple Accurate (reconcile_orderer_group env g) (λ _. Accurate)
  unfolding reconcile_orderer_group
  reconcile_orderer_group-Accurate g = Triple-invoke _ (reconcile_children-AllApplied g) λ children.
      Triple-check children
        (λ e _.
          Triple-invoke _ (Triple-weaken (λ h p. p.0) (not_running g "FAILED" _ failed_ne_running))
            λ _. Triple-pure _ (λ h p. p))
        λ _ x.
          Triple-invoke _
            (Triple-weaken (λ h p. (p.0, λ _. p.1 x)) (update_status-Accurate g "RUNNING" _))
            λ _. Triple-pure _ (λ h p. p)

  reconcile_live-Accurate :
      (g : OrdererGroup) → Triple Accurate (reconcile_live env g) (λ _. Accurate)
  unfolding reconcile_live init_status ensure_finalizer report_failure
  reconcile_live-Accurate g =
      Triple-invoke (λ _. Accurate)
        (Triple-if (g.status.status == "") (λ _. not_running g "PENDING" _ pending_ne_running)
          (λ _. Triple-pure _ (λ h p. p)))
        λ started.
          Triple-invoke (λ _. Accurate)
            (Triple-if (contains_string started.meta.finalizers finalizer)
              (λ _. Triple-pure _ (λ h p. p)) (λ _. update_group-Accurate _))
            λ held.
              Triple-check held.1 (λ e _. fail-Accurate held.0 _ e)
                λ _ _. Triple-invoke _ (reconcile_orderer_group-Accurate held.0) λ rolled.
                  Triple-check rolled.1
                    (λ e _.
                      Triple-if (rolled.0.status.status == "FAILED") (λ _. Triple-pure _ (λ h p. p))
                        (λ _. fail-Accurate rolled.0 _ e))
                    (λ _ _. Triple-pure _ (λ h p. p))

  handle_deletion-Accurate :
      (g : OrdererGroup) → Triple Accurate (handle_deletion env g) (λ _. Accurate)
  unfolding handle_deletion cleanup_children remove_finalizer
  handle_deletion-Accurate g =
      Triple-invoke _ (not_running g "PENDING" _ pending_ne_running) λ pending.
        Triple-invoke (λ _. Accurate)
          (Triple-if (manages pending)
            (λ _. record {
              at = λ h p.
                  ((cleanup_child_crds-Asks env pending Accurate (λ k key r h' q. (tt, q))).at h
                    p).0.0;
            })
            (λ _. Triple-pure _ (λ h p. p)))
          λ cleaned.
            Triple-check cleaned (λ e _. fail-Accurate pending _ e)
              λ _ _. Triple-invoke _ (update_group-Accurate _) λ freed.
                Triple-check freed.1 (λ e _. fail-Accurate freed.0 _ e)
                  (λ _ _. Triple-pure _ (λ h p. p))

  reconcile_key-Accurate :
      (key : NamespacedName) → Triple Accurate (reconcile env key) (λ _. Accurate)
  unfolding reconcile
  reconcile_key-Accurate key =
      Triple-call _ (λ _. Accurate) (λ h p. (tt, p))
        λ got.
          Triple-check got
            (λ e _.
              Triple-if (is_not_found e) (λ _. Triple-pure _ (λ h p. p))
                (λ _. Triple-pure _ (λ h p. p)))
            λ g _.
              Triple-if g.meta.deleted (λ _. handle_deletion-Accurate g)
                (λ _. reconcile_live-Accurate g)

-- If every status update of the history that says "RUNNING" of a group that manages its children
-- came after all that the group configures was applied - its consenter, assembler and router where
-- they are set and each of its batchers, each created under the group or updated, with the spec that
-- is built for it - then so it is after a run of `Reconcile`.
pub reconcile-Accurate :
    (env : Env) (key : NamespacedName) (h : List Event)
    → Accurate h
    → Accurate (reconcile env key h).1
reconcile-Accurate env key h p = (reconcile_key-Accurate env key).at h p
