-- ===== src/OrdererGroup/Deletion.antt =====
-- The finalizer is taken from a group only after the cleanup of its children, which asks for the
-- deletion of the batchers up to the first failed one.
use fabric_x_operator.Prelude.{String, ◌≡◌, refl, true, false, not, ◌||◌, List, ◌==◌}
use fabric_x_operator.Go.{GoError, ok, is_not_found}
use fabric_x_operator.Go.Triple.{
  Triple, Triple-pure, Triple-if, Triple-call, Triple-check, Triple-invoke, Triple-weaken, Each,
}
use fabric_x_operator.Kube.{NamespacedName}
use fabric_x_operator.Utils.Finalizers.{contains_string-append, contains_string, remove_string}
use fabric_x_operator.Api.Orderer.{OrdererGroup}
use fabric_x_operator.OrdererGroup.Env.{Env, Event, updated_group}
use fabric_x_operator.OrdererGroup.Status.{update_status}
use fabric_x_operator.OrdererGroup.Reconcile.{
  finalizer, manages, update_group, ensure_finalizer, remove_finalizer, reconcile_children,
  reconcile_orderer_group, fail, report_failure, init_status, reconcile_live, cleanup_children,
  handle_deletion, reconcile,
}
use fabric_x_operator.OrdererGroup.Applied.{Plain}
use fabric_x_operator.OrdererGroup.Rules.{reconcile_child_crds-AllApplied}
use fabric_x_operator.OrdererGroup.Cleanup.{AllAsked, cleanup_child_crds-Asks}

-- A group that manages its children is written without the finalizer only after the deletion of
-- its configured consenter, assembler and router, and of its batchers up to the first whose deletion
-- failed, was asked for.
abbrev pub FreedIsAsked : List Event → Event → Type 0
FreedIsAsked h (updated_group g r) =
    contains_string g.meta.finalizers finalizer ≡ false → manages g ≡ true → AllAsked g h
FreedIsAsked h _ = Unit

abbrev pub CleanedFirst : List Event → Type 0
CleanedFirst = Each FreedIsAsked

CleanedFirst-plain : Plain CleanedFirst
CleanedFirst-plain (updated_group g r) b h p = cc
CleanedFirst-plain _ b h p = (tt, p)

module _ (env : Env) where
  update_status-CleanedFirst :
      (g : OrdererGroup) (status message : String)
      → Triple CleanedFirst (update_status env g status message) (λ _. CleanedFirst)
  unfolding update_status
  update_status-CleanedFirst g status message =
      Triple-if (not (g.status.status == status) || not (g.status.message == message))
        (λ _.
          Triple-call _ (λ _. CleanedFirst) (λ h p. (tt, p))
            λ now.
              Triple-call _ (λ _. CleanedFirst) (λ h p. (tt, p)) (λ r. Triple-pure _ (λ h p. p)))
        (λ _. Triple-pure _ (λ h p. p))

  fail-CleanedFirst :
      (g : OrdererGroup) (message : String) (e : GoError)
      → Triple CleanedFirst (fail env g message e) (λ _. CleanedFirst)
  unfolding fail
  fail-CleanedFirst g message e =
      Triple-invoke _ (update_status-CleanedFirst g "FAILED" message) λ _. Triple-pure _ (λ h p. p)

  update_group-CleanedFirst :
      (g : OrdererGroup)
      → Triple
          (λ h.
            CleanedFirst h
            × (contains_string g.meta.finalizers finalizer ≡ false
                → manages g ≡ true
                → AllAsked g h))
          (update_group env g)
          (λ _. CleanedFirst)
  unfolding update_group
  update_group-CleanedFirst g =
      Triple-call _ (λ _. CleanedFirst) (λ h p. (p.1, p.0)) λ r. Triple-pure _ (λ h p. p)

  ensure_finalizer-CleanedFirst :
      (g : OrdererGroup) → Triple CleanedFirst (ensure_finalizer env g) (λ _. CleanedFirst)
  unfolding ensure_finalizer
  ensure_finalizer-CleanedFirst g =
      Triple-if (contains_string g.meta.finalizers finalizer) (λ _. Triple-pure _ (λ h p. p))
        λ _.
          let held = contains_string-append g.meta.finalizers finalizer in
          Triple-weaken (λ h p. (p, λ f m. cc)) (update_group-CleanedFirst _)

  reconcile_orderer_group-CleanedFirst :
      (g : OrdererGroup) → Triple CleanedFirst (reconcile_orderer_group env g) (λ _. CleanedFirst)
  unfolding reconcile_orderer_group reconcile_children
  reconcile_orderer_group-CleanedFirst g =
      Triple-invoke (λ _. CleanedFirst)
        (Triple-if (manages g)
          (λ _. record {
            at = λ h p.
                ((reconcile_child_crds-AllApplied env CleanedFirst CleanedFirst-plain g).at h p).0;
          })
          (λ _. Triple-pure _ (λ h p. p)))
        λ children.
          Triple-check children
            (λ _ _.
              Triple-invoke _ (update_status-CleanedFirst g "FAILED" _)
                λ _. Triple-pure _ (λ h p. p))
            λ _ _.
              Triple-invoke _ (update_status-CleanedFirst g "RUNNING" _)
                λ _. Triple-pure _ (λ h p. p)

  reconcile_live-CleanedFirst :
      (g : OrdererGroup) → Triple CleanedFirst (reconcile_live env g) (λ _. CleanedFirst)
  unfolding reconcile_live init_status report_failure
  reconcile_live-CleanedFirst g =
      Triple-invoke (λ _. CleanedFirst)
        (Triple-if (g.status.status == "") (λ _. update_status-CleanedFirst g "PENDING" _)
          (λ _. Triple-pure _ (λ h p. p)))
        λ started.
          Triple-invoke (λ _. CleanedFirst) (ensure_finalizer-CleanedFirst started)
            λ held.
              Triple-check held.1 (λ e _. fail-CleanedFirst held.0 _ e)
                λ _ _.
                  Triple-invoke (λ _. CleanedFirst) (reconcile_orderer_group-CleanedFirst held.0)
                    λ rolled.
                      Triple-check rolled.1
                        (λ e _.
                          Triple-if (rolled.0.status.status == "FAILED")
                            (λ _. Triple-pure _ (λ h p. p)) (λ _. fail-CleanedFirst rolled.0 _ e))
                        (λ _ _. Triple-pure _ (λ h p. p))

  remove_finalizer-CleanedFirst :
      (g : OrdererGroup)
      → Triple
          (λ h. CleanedFirst h × (manages g ≡ true → AllAsked g h))
          (remove_finalizer env g)
          (λ _. CleanedFirst)
  unfolding remove_finalizer
  remove_finalizer-CleanedFirst g =
      Triple-weaken (λ h p. (p.0, λ f m. moved h (p.1 m))) (update_group-CleanedFirst _)
    where
      moved :
          (h : List Event)
          → AllAsked g h
          → AllAsked
              (record g {
                meta = record g.meta { finalizers = remove_string g.meta.finalizers finalizer };
              })
              h
      moved h a = record {
        consenter_asked = a.consenter_asked;
        assembler_asked = a.assembler_asked;
        router_asked = a.router_asked;
        batchers_asked = a.batchers_asked;
      }

  cleanup_children-asks :
      (g : OrdererGroup)
      → Triple CleanedFirst
          (cleanup_children env g)
          (λ r h. (CleanedFirst h × (manages g ≡ true → AllAsked g h)) × r ≡ ok tt)
  unfolding cleanup_children
  cleanup_children-asks g =
      Triple-if (manages g)
        (λ _. record {
          at = λ h p.
              let q =
                (cleanup_child_crds-Asks env g CleanedFirst (λ k key r h' q. (tt, q))).at h p in
              ((q.0.0, λ _. q.0.1), q.1);
        })
        (λ f. Triple-pure _ (λ h p. ((p, λ m. cc), refl)))

  handle_deletion-CleanedFirst :
      (g : OrdererGroup) → Triple CleanedFirst (handle_deletion env g) (λ _. CleanedFirst)
  unfolding handle_deletion
  handle_deletion-CleanedFirst g =
      Triple-invoke _ (update_status-CleanedFirst g "PENDING" _) λ pending.
        Triple-invoke _ (cleanup_children-asks pending) λ cleaned.
          Triple-check cleaned (λ e _. Triple-weaken (λ h p. p.0.0) (fail-CleanedFirst pending _ e))
            λ _ _.
              Triple-invoke _ (Triple-weaken (λ h p. p.0) (remove_finalizer-CleanedFirst pending))
                λ freed.
                  Triple-check freed.1 (λ e _. fail-CleanedFirst freed.0 _ e)
                    (λ _ _. Triple-pure _ (λ h p. p))

  reconcile_key-CleanedFirst :
      (key : NamespacedName) → Triple CleanedFirst (reconcile env key) (λ _. CleanedFirst)
  unfolding reconcile
  reconcile_key-CleanedFirst key =
      Triple-call _ (λ _. CleanedFirst) (λ h p. (tt, p))
        λ got.
          Triple-check got
            (λ e _.
              Triple-if (is_not_found e) (λ _. Triple-pure _ (λ h p. p))
                (λ _. Triple-pure _ (λ h p. p)))
            λ g _.
              Triple-if g.meta.deleted (λ _. handle_deletion-CleanedFirst g)
                (λ _. reconcile_live-CleanedFirst g)

-- If every update of the history that writes a group, which manages its children, without the
-- finalizer came after the deletion of what the group configures was asked for - of its consenter,
-- assembler and router where they are set, and of its batchers up to the first whose deletion
-- failed - then so it is after a run of `Reconcile`.
pub reconcile-CleanedFirst :
    (env : Env) (key : NamespacedName) (h : List Event)
    → CleanedFirst h
    → CleanedFirst (reconcile env key h).1
reconcile-CleanedFirst env key h p = (reconcile_key-CleanedFirst env key).at h p
