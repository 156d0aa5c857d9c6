-- ===== src/OrdererGroup/Applied.antt =====
-- What it means that the children of a group are rolled out, and that `reconcileChildCRDs` does it.
use fabric_x_operator.Prelude.{ℕ, suc, ◌≡◌, refl, Bool, true, false, List, [], ◌∷◌}
use fabric_x_operator.Go.{GoError, ok}
use fabric_x_operator.Go.Makes.{KeepsThose}
use fabric_x_operator.Go.Triple.{
  Triple, Triple-pure, Triple-call, Triple-check, Occurs, before, Occurs-answer, IfSet, IfSet-map,
}
use fabric_x_operator.Kube.{NamespacedName}
use fabric_x_operator.Api.Nil.{elements}
use fabric_x_operator.Api.Orderer.{OrdererGroup, BatcherInstance}
use fabric_x_operator.OrdererGroup.Env.{
  ChildKind, consenter, assembler, router, batcher, SpecOf, Child, Env, Event, updated_group,
  updated_status, deleted_child, got_child, created_child, updated_child,
}
use fabric_x_operator.OrdererGroup.Specs.Consenter.{build_consenter_spec}
use fabric_x_operator.OrdererGroup.Specs.Batcher.{build_batcher_spec}
use fabric_x_operator.OrdererGroup.Specs.Assembler.{build_assembler_spec}
use fabric_x_operator.OrdererGroup.Specs.Router.{build_router_spec}
use fabric_x_operator.OrdererGroup.Children.{child_key, batcher_key, child_meta, apply_child}

-- The API server accepted a child of this name with this spec: as a new one under the group, or in
-- place of one that was read by this name.
pub data Applied (g : OrdererGroup) (k : ChildKind) (key : NamespacedName) (spec : SpecOf k)
    (h : List Event) : Type 0 where
  created :
      (stored : Child k)
      → Occurs (created_child k (record { meta = child_meta g key; spec = spec }) (ok stored)) h
      → Applied g k key spec h
  updated :
      (old stored : Child k)
      → Occurs (got_child k key (ok old)) h
      → Occurs (updated_child k (record { meta = old.meta; spec = spec }) (ok stored)) h
      → Applied g k key spec h

pub Applied-before :
    {g : OrdererGroup} {k : ChildKind} {key : NamespacedName} {spec : SpecOf k} {h : List Event}
    (e : Event)
    → Applied g k key spec h
    → Applied g k key spec (e ∷ h)
Applied-before e (created s o) = created s (before o)
Applied-before e (updated old s r o) = updated old s (before r) (before o)

-- The batchers from index `i` on are applied.
abbrev pub BatchersApplied : OrdererGroup → ℕ → List BatcherInstance → List Event → Type 0
BatchersApplied g i [] h = Unit
BatchersApplied g i (b ∷ bs) h =
    Applied g batcher (batcher_key g i) (build_batcher_spec g b) h × BatchersApplied g (suc i) bs h

pub BatchersApplied-before :
    (g : OrdererGroup) (i : ℕ) (bs : List BatcherInstance) (h : List Event) (e : Event)
    → BatchersApplied g i bs h
    → BatchersApplied g i bs (e ∷ h)
BatchersApplied-before g i [] h e a = tt
BatchersApplied-before g i (b ∷ bs) h e a =
    (Applied-before e a.0, BatchersApplied-before g (suc i) bs h e a.1)

-- Every component that the group configures is applied, with the spec that is built for it.
pub record AllApplied (g : OrdererGroup) (h : List Event) : Type 0 where
  pub consenter_applied :
      IfSet g.spec.components.consenter
        (λ c. Applied g consenter (child_key g "-consenter") (build_consenter_spec g c) h)
  pub assembler_applied :
      IfSet g.spec.components.assembler
        (λ c. Applied g assembler (child_key g "-assembler") (build_assembler_spec g c) h)
  pub router_applied :
      IfSet g.spec.components.router
        (λ c. Applied g router (child_key g "-router") (build_router_spec g c) h)
  pub batchers_applied : BatchersApplied g 0 (elements g.spec.components.batchers) h

pub AllApplied-before :
    {g : OrdererGroup} {h : List Event} (e : Event) → AllApplied g h → AllApplied g (e ∷ h)
AllApplied-before {g} {h} e a = record {
  consenter_applied =
      IfSet-map g.spec.components.consenter (λ c. Applied-before e) a.consenter_applied;
  assembler_applied =
      IfSet-map g.spec.components.assembler (λ c. Applied-before e) a.assembler_applied;
  router_applied = IfSet-map g.spec.components.router (λ c. Applied-before e) a.router_applied;
  batchers_applied =
      BatchersApplied-before g 0 (elements g.spec.components.batchers) h e a.batchers_applied;
}

-- The events other than updates of the group itself and deletions.
abbrev pub is_plain : Event → Bool
is_plain (updated_group g r) = false
is_plain (updated_status g r) = false
is_plain (deleted_child k key r) = false
is_plain _ = true

-- An invariant that the plain events keep.
abbrev pub Plain : (List Event → Type 0) → Type 0
Plain I = KeepsThose is_plain I

module _ (env : Env) (I : List Event → Type 0) (plain : Plain I) where
  pub apply_child-Applied :
      (k : ChildKind) (f f' : GoError → GoError) (g : OrdererGroup) (key : NamespacedName)
      (spec : SpecOf k)
      → Triple I
          (apply_child env k f f' g key spec)
          (λ r h. I h × (r ≡ ok tt → Applied g k key spec h))
  unfolding apply_child
  apply_child-Applied k f f' g key spec =
      let child : Child k = record { meta = child_meta g key; spec = spec } in
      Triple-call _
        (λ r h. I h × ((old : Child k) → r ≡ ok old → Occurs (got_child k key (ok old)) h))
        (λ h p. (plain _ refl h p, λ old x. Occurs-answer (got_child k key) _ _ h x))
        λ got.
          Triple-check got
            (λ e _.
              Triple-call _
                (λ r h. I h × ((s : Child k) → r ≡ ok s → Occurs (created_child k child (ok s)) h))
                (λ h p. (plain _ refl h p.0, λ s x. Occurs-answer (created_child k child) _ _ h x))
                λ r.
                  Triple-check r (λ _ _. Triple-pure _ (λ h p. (p.0, λ x. cc)))
                    λ s x. Triple-pure _ (λ h p. (p.0, λ _. created s (p.1 s x))))
            λ old o.
              let changed : Child k = record { meta = old.meta; spec = spec } in
              Triple-call _
                (λ r h.
                  I h
                  × Occurs (got_child k key (ok old)) h
                  × ((s : Child k) → r ≡ ok s → Occurs (updated_child k changed (ok s)) h))
                (λ h p. (
                  plain _ refl h p.0,
                  before (p.1 old o),
                  λ s x. Occurs-answer (updated_child k changed) _ _ h x,
                ))
                λ r.
                  Triple-check r (λ _ _. Triple-pure _ (λ h p. (p.0, λ x. cc)))
                    λ s x. Triple-pure _ (λ h p. (p.0, λ _. updated old s p.1 (p.2 s x)))
