-- ===== src/OrdererGroup/Cleanup.antt =====
-- What `cleanupChildCRDs` attempts: the children that a group configures.
use fabric_x_operator.Prelude.{ℕ, suc, ◌≡◌, refl, Option, none, some, List, [], ◌∷◌}
use fabric_x_operator.Go.{Outcome, ok}
use fabric_x_operator.Go.Act.{Act, when_set}
use fabric_x_operator.Go.Triple.{
  Triple, Triple-pure, Triple-call, Triple-check, Triple-invoke, Occurs, last, before, IfSet,
  IfSet-map,
}
use fabric_x_operator.Kube.{NamespacedName}
use fabric_x_operator.Api.Nil.{elements}
use fabric_x_operator.Api.Orderer.{OrdererGroup, BatcherInstance}
use fabric_x_operator.OrdererGroup.Env.{
  ChildKind, consenter, assembler, router, batcher, Env, Event, deleted_child,
}
use fabric_x_operator.OrdererGroup.Children.{
  child_key, batcher_key, delete_child, cleanup_consenter_crds, cleanup_assembler_crd,
  cleanup_router_crd, cleanup_batcher_crds, cleanup_child_crds,
}
use fabric_x_operator.Go.Makes.{Keeps}

-- The deletion of the child was asked for, with some answer.
pub data Asked (k : ChildKind) (key : NamespacedName) (h : List Event) : Type 0 where
  asked : (r : Outcome (Unit {0})) → Occurs (deleted_child k key r) h → Asked k key h

Asked-before :
    {k : ChildKind} {key : NamespacedName} {h : List Event} (e : Event)
    → Asked k key h
    → Asked k key (e ∷ h)
Asked-before e (asked r o) = asked r (before o)

-- The deletion of the batchers from index `i` on, which have these names, was asked for, up to the
-- first that failed.
abbrev pub BatchersAsked : (ℕ → NamespacedName) → ℕ → List BatcherInstance → List Event → Type 0
BatchersAsked key i [] h = Unit
BatchersAsked key i (b ∷ bs) h =
    (r : Outcome (Unit {0})) × Occurs (deleted_child batcher (key i) r) h
    × (r ≡ ok tt → BatchersAsked key (suc i) bs h)

-- The deletion of the group's consenter, assembler and router, where they are configured, and of its
-- batchers up to the first whose deletion failed, was asked for.
pub record AllAsked (g : OrdererGroup) (h : List Event) : Type 0 where
  pub consenter_asked :
      IfSet g.spec.components.consenter (λ _. Asked consenter (child_key g "-consenter") h)
  pub assembler_asked :
      IfSet g.spec.components.assembler (λ _. Asked assembler (child_key g "-assembler") h)
  pub router_asked : IfSet g.spec.components.router (λ _. Asked router (child_key g "-router") h)
  pub batchers_asked : BatchersAsked (batcher_key g) 0 (elements g.spec.components.batchers) h

module _ (env : Env) (I : List Event → Type 0)
    (deletes : (k : ChildKind) (key : NamespacedName) (r : Outcome (Unit {0}))
      → Keeps I (deleted_child k key r)) where
  delete_child-asks :
      (k : ChildKind) (key : NamespacedName)
      → Triple I (delete_child env k key) (λ r h. I h × Occurs (deleted_child k key r) h)
  unfolding delete_child
  delete_child-asks k key =
      Triple-call (deleted_child k key) (λ r h. I h × Occurs (deleted_child k key r) h)
        (λ h p. (deletes k key _ h p, last)) λ r. Triple-pure r (λ h p. p)

-- A call that keeps `I` and brings about `C`, whatever it returns.
abbrev Asks :
    (List Event → Type 0) → Act Event (Outcome (Unit {0})) → (List Event → Type 0) → Type 0
Asks I m C = Triple I m (λ _ h. I h × C h)

-- The deletions keep `I`.
abbrev pub Deletes : (List Event → Type 0) → Type 0
Deletes I =
    (k : ChildKind) (key : NamespacedName) (r : Outcome (Unit {0}))
    → Keeps I (deleted_child k key r)

Deletes-and :
    {I C : List Event → Type 0} → Deletes I → ((e : Event) → Keeps C e) → Deletes (λ h. I h × C h)
Deletes-and d lasting k key r h p = (d k key r h p.0, lasting _ h p.1)

Asks-when_set :
    {A : Type 0} {I : List Event → Type 0} {C : List Event → Type 0}
    {m : Act Event (Outcome (Unit {0}))} (o : Option A)
    → Asks I m C
    → Asks I (when_set o (λ _. m)) (λ h. IfSet o (λ _. C h))
unfolding when_set
Asks-when_set none t = Triple-pure _ (λ h p. (p, tt))
Asks-when_set (some a) t = t

module _ (env : Env) where
  cleanup_batcher_crds-Asks :
      (g : OrdererGroup) (i : ℕ) (bs : List BatcherInstance) (I : List Event → Type 0)
      → Deletes I
      → Asks I (cleanup_batcher_crds env g i bs) (BatchersAsked (batcher_key g) i bs)
  unfolding cleanup_batcher_crds
  cleanup_batcher_crds-Asks g i [] I d = Triple-pure _ (λ h p. (p, tt))
  cleanup_batcher_crds-Asks g i (b ∷ bs) I d =
      let key = batcher_key g i in
      Triple-invoke _ (delete_child-asks env I d batcher key) λ r.
        Triple-check r (λ e x. Triple-pure _ (λ h p. (p.0, (r, p.1, λ y. cc))))
          λ _ x. record {
            at = λ h p.
                let q =
                  (cleanup_batcher_crds-Asks g (suc i) bs
                      (λ h'. I h' × Occurs (deleted_child batcher key r) h')
                      (Deletes-and d (λ e h'. before))).at
                    h p in
                (q.0.0, (r, q.0.1, λ _. q.1));
          }

  cleanup_consenter_crds-Asks :
      (g : OrdererGroup) (I : List Event → Type 0)
      → Deletes I
      → Asks I (cleanup_consenter_crds env g) (Asked consenter (child_key g "-consenter"))
  unfolding cleanup_consenter_crds
  cleanup_consenter_crds-Asks g I d = Triple-invoke _ (delete_child-asks env I d consenter _) λ r.
      Triple-check r (λ _ _. Triple-pure _ (λ h p. (p.0, asked r p.1)))
        (λ _ _. Triple-pure _ (λ h p. (p.0, asked r p.1)))

  delete_child-Asks :
      (I : List Event → Type 0)
      → Deletes I
      → (k : ChildKind) (key : NamespacedName) → Asks I (delete_child env k key) (Asked k key)
  delete_child-Asks I d k key = record {
    at = λ h p. let q = (delete_child-asks env I d k key).at h p in (q.0, asked _ q.1);
  }

  pub cleanup_child_crds-Asks :
      (g : OrdererGroup) (I : List Event → Type 0)
      → Deletes I
      → Triple I (cleanup_child_crds env g) (λ r h. (I h × AllAsked g h) × r ≡ ok tt)
  unfolding cleanup_child_crds cleanup_assembler_crd cleanup_router_crd
  cleanup_child_crds-Asks g I d =
      let c = g.spec.components in
      let d1 = Deletes-and d (λ e h. IfSet-map c.consenter (λ _. Asked-before e)) in
      let d2 = Deletes-and d1 (λ e h. IfSet-map c.assembler (λ _. Asked-before e)) in
      let d3 = Deletes-and d2 (λ e h. IfSet-map c.router (λ _. Asked-before e)) in
      Triple-invoke _ (Asks-when_set c.consenter (cleanup_consenter_crds-Asks g I d)) λ _.
        Triple-invoke _ (Asks-when_set c.assembler (delete_child-Asks _ d1 assembler _)) λ _.
          Triple-invoke _ (Asks-when_set c.router (delete_child-Asks _ d2 router _)) λ _.
            Triple-invoke _ (cleanup_batcher_crds-Asks g 0 (elements c.batchers) _ d3) λ _.
              Triple-pure _ (λ h p. (
                (
                  p.0.0.0.0,
                  record {
                    consenter_asked = p.0.0.0.1;
                    assembler_asked = p.0.0.1;
                    router_asked = p.0.1;
                    batchers_asked = p.1;
                  },
                ),
                refl,
              ))

  -- `cleanupChildCRDs` returns no error, whatever the API server answers, and it asks for the
  -- deletion of the consenter, the assembler and the router where they are set, and of the batchers
  -- up to the first whose deletion fails.
  pub cleanup_child_crds_lem :
      (g : OrdererGroup) (h : List Event)
      → AllAsked g (cleanup_child_crds env g h).1 × ((cleanup_child_crds env g h).0 ≡ ok tt)
  cleanup_child_crds_lem g h =
      let q = (cleanup_child_crds-Asks g (λ _. Unit) (λ k key r h' p. tt)).at h tt in (q.0.1, q.1)
