-- ===== src/OrdererGroup/Rules.antt =====
-- What the calls of `reconcileChildCRDs` establish where they succeed.
use fabric_x_operator.Prelude.{ℕ, suc, List, [], ◌∷◌}
use fabric_x_operator.Go.Act.{when_set}
use fabric_x_operator.Go.Triple.{Triple-pure, Triple-when_set, IfSet, IfSet-map}
use fabric_x_operator.Api.Nil.{elements}
use fabric_x_operator.Api.Orderer.{OrdererGroup, BatcherInstance}
use fabric_x_operator.OrdererGroup.Env.{consenter, assembler, router, batcher, Env, Event}
use fabric_x_operator.OrdererGroup.Specs.Consenter.{build_consenter_spec}
use fabric_x_operator.OrdererGroup.Specs.Batcher.{build_batcher_spec}
use fabric_x_operator.OrdererGroup.Specs.Assembler.{build_assembler_spec}
use fabric_x_operator.OrdererGroup.Specs.Router.{build_router_spec}
use fabric_x_operator.OrdererGroup.Children.{
  child_key, batcher_key, reconcile_consenter_crds, reconcile_assembler_crd, reconcile_router_crd,
  reconcile_batcher_crds, reconcile_child_crds,
}
use fabric_x_operator.Go.Makes.{KeepsThose-and, Makes, Makes-then, Makes-done}
use fabric_x_operator.OrdererGroup.Applied.{
  Applied, Applied-before, BatchersApplied, AllApplied, Plain, apply_child-Applied,
}

abbrev ConsenterApplied : OrdererGroup → List Event → Type 0
ConsenterApplied g h =
    IfSet g.spec.components.consenter
      (λ c. Applied g consenter (child_key g "-consenter") (build_consenter_spec g c) h)

abbrev AssemblerApplied : OrdererGroup → List Event → Type 0
AssemblerApplied g h =
    IfSet g.spec.components.assembler
      (λ c. Applied g assembler (child_key g "-assembler") (build_assembler_spec g c) h)

abbrev RouterApplied : OrdererGroup → List Event → Type 0
RouterApplied g h =
    IfSet g.spec.components.router
      (λ c. Applied g router (child_key g "-router") (build_router_spec g c) h)

module _ (env : Env) (I : List Event → Type 0) (plain : Plain I) where
  reconcile_consenter_crds-Applied :
      (g : OrdererGroup)
      → Makes I
          (when_set g.spec.components.consenter (reconcile_consenter_crds env g))
          (ConsenterApplied g)
  unfolding reconcile_consenter_crds
  reconcile_consenter_crds-Applied g =
      Triple-when_set _ (λ c. apply_child-Applied env I plain consenter _ _ g _ _)

  reconcile_assembler_crd-Applied :
      (g : OrdererGroup)
      → Makes I
          (when_set g.spec.components.assembler (reconcile_assembler_crd env g))
          (AssemblerApplied g)
  unfolding reconcile_assembler_crd
  reconcile_assembler_crd-Applied g =
      Triple-when_set _ (λ c. apply_child-Applied env I plain assembler _ _ g _ _)

  reconcile_router_crd-Applied :
      (g : OrdererGroup)
      → Makes I (when_set g.spec.components.router (reconcile_router_crd env g)) (RouterApplied g)
  unfolding reconcile_router_crd
  reconcile_router_crd-Applied g =
      Triple-when_set _ (λ c. apply_child-Applied env I plain router _ _ g _ _)

module _ (env : Env) where
  reconcile_batcher_crds-Applied :
      (g : OrdererGroup) (i : ℕ) (bs : List BatcherInstance) (I : List Event → Type 0)
      → Plain I
      → Makes I (reconcile_batcher_crds env g i bs) (BatchersApplied g i bs)
  unfolding reconcile_batcher_crds
  reconcile_batcher_crds-Applied g i [] I plain = Triple-pure _ (λ h p. (p, λ _. tt))
  reconcile_batcher_crds-Applied g i (b ∷ bs) I plain =
      Makes-then _ (apply_child-Applied env I plain batcher _ _ g _ _) (
        reconcile_batcher_crds-Applied g (suc i) bs
          (λ h. I h × Applied g batcher (batcher_key g i) (build_batcher_spec g b) h)
          (KeepsThose-and plain (λ e h. Applied-before e)))

  -- Where it succeeds, every component that is configured has been applied.
  pub reconcile_child_crds-AllApplied :
      (I : List Event → Type 0) (plain : Plain I) (g : OrdererGroup)
      → Makes I (reconcile_child_crds env g) (AllApplied g)
  unfolding reconcile_child_crds
  reconcile_child_crds-AllApplied I plain g =
      let c_plain =
        KeepsThose-and plain
          (λ e h. IfSet-map g.spec.components.consenter (λ c. Applied-before e)) in
      let a_plain =
        KeepsThose-and c_plain
          (λ e h. IfSet-map g.spec.components.assembler (λ c. Applied-before e)) in
      let r_plain =
        KeepsThose-and a_plain
          (λ e h. IfSet-map g.spec.components.router (λ c. Applied-before e)) in
      record {
        at = λ h p.
            let q =
              (Makes-then _ (reconcile_consenter_crds-Applied env I plain g) (
                  Makes-then _ (reconcile_assembler_crd-Applied env _ c_plain g) (
                    Makes-then _ (reconcile_router_crd-Applied env _ a_plain g) (
                      Makes-then {D = λ _. Unit} _
                        (reconcile_batcher_crds-Applied g 0 (elements g.spec.components.batchers) _
                          r_plain)
                        Makes-done)))).at
                h p in
            (
              q.0,
              λ x.
                  let a = q.1 x in
                  record {
                    consenter_applied = a.0;
                    assembler_applied = a.1.0;
                    router_applied = a.1.1.0;
                    batchers_applied = a.1.1.1.0;
                  },
            );
      }
