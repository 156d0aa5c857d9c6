-- ===== src/Committer/Applied.antt =====
-- What it means that the children of a committer are rolled out, and that `reconcileChildCRDs` does
-- it.
use fabric_x_operator.Prelude.{◌≡◌, refl, Bool, true, false, List}
use fabric_x_operator.Go.{ok, is_not_found}
use fabric_x_operator.Go.Makes.{KeepsThose, KeepsThose-and, Lasting, Makes, Makes-then, Makes-done}
use fabric_x_operator.Go.Triple.{
  Triple-pure, Triple-if, Triple-call, Triple-check, Occurs, before, Occurs-answer,
}
use fabric_x_operator.Kube.{NamespacedName}
use fabric_x_operator.Api.Committer.{Committer}
use fabric_x_operator.Committer.Env.{
  ChildKind, coordinator, sidecar, validator, verifier, query_service, SpecOf, Child, Env, Event,
  updated_committer, updated_status, deleted_child, got_child, created_child, updated_child,
}
use fabric_x_operator.Committer.Children.{
  child_key, build_spec, new_child, apply_child, reconcile_child_crds,
}

-- The API server accepted a child of this name with this spec: as a new one, or in place of one that
-- was read by this name.
pub data Applied (k : ChildKind) (key : NamespacedName) (spec : SpecOf k) (h : List Event)
    : Type 0 where
  created :
      (stored : Child k)
      → Occurs (created_child k (new_child k key spec) (ok stored)) h
      → Applied k key spec h
  updated :
      (old stored : Child k)
      → Occurs (got_child k key (ok old)) h
      → Occurs (updated_child k (record { meta = old.meta; spec = spec }) (ok stored)) h
      → Applied k key spec h

Applied-before :
    {k : ChildKind} {key : NamespacedName} {spec : SpecOf k} → Lasting (Applied k key spec)
Applied-before e h (created s o) = created s (before o)
Applied-before e h (updated old s r o) = updated old s (before r) (before o)

-- What holds of each of the five kinds holds of all.
pub of_each :
    (P : ChildKind → Type 0)
    → P coordinator
    → P sidecar
    → P validator
    → P verifier
    → P query_service
    → (k : ChildKind) → P k
of_each P c s v f q coordinator = c
of_each P c s v f q sidecar = s
of_each P c s v f q validator = v
of_each P c s v f q verifier = f
of_each P c s v f q query_service = q

-- The child of a kind is applied as the committer describes it.
abbrev pub IsApplied : Committer → ChildKind → List Event → Type 0
IsApplied c k = Applied k (child_key c k) (build_spec k c)

-- All five are.
abbrev pub AllApplied : Committer → List Event → Type 0
AllApplied c h = (k : ChildKind) → IsApplied c k h

pub AllApplied-before : (c : Committer) → Lasting (AllApplied c)
AllApplied-before c e h a k = Applied-before e h (a k)

-- The events other than updates of the committer itself and deletions.
abbrev pub is_plain : Event → Bool
is_plain (updated_committer c r) = false
is_plain (updated_status c r) = false
is_plain (deleted_child k c r) = false
is_plain _ = true

module _ (env : Env) where
  apply_child-Applied :
      (I : List Event → Type 0) (plain : KeepsThose is_plain I) (k : ChildKind)
      (key : NamespacedName) (spec : SpecOf k)
      → Makes I (apply_child env k key spec) (Applied k key spec)
  unfolding apply_child
  apply_child-Applied I plain k key spec =
      let child : Child k = new_child k key spec in
      Triple-call _
        (λ r h. I h × ((old : Child k) → r ≡ ok old → Occurs (got_child k key (ok old)) h))
        (λ h p. (plain _ refl h p, λ old x. Occurs-answer (got_child k key) _ _ h x))
        λ got.
          Triple-check got
            (λ e _.
              Triple-if (is_not_found e)
                (λ _.
                  Triple-call _
                    (λ r h.
                      I h × ((s : Child k) → r ≡ ok s → Occurs (created_child k child (ok s)) h))
                    (λ h p.
                      (plain _ refl h p.0, λ s x. Occurs-answer (created_child k child) _ _ h x))
                    λ r.
                      Triple-check r (λ _ _. Triple-pure _ (λ h p. (p.0, λ x. cc)))
                        λ s x. Triple-pure _ (λ h p. (p.0, λ _. created s (p.1 s x))))
                (λ _. Triple-pure _ (λ h p. (p.0, λ x. cc))))
            λ old o.
              let changed : Child k = record { meta = old.meta; spec = spec } in
              Triple-call _
                (λ r h.
                  I h
                  × Occurs (got_child k key (ok old)) h
                  × ((s : Child k) → r ≡ ok s → Occurs (updated_child k changed (ok s)) h))
                (λ h p. (
                  plain _ refl h p.0,
                  before (p.1 old o),
                  λ s x. Occurs-answer (updated_child k changed) _ _ h x,
                ))
                λ r.
                  Triple-check r (λ _ _. Triple-pure _ (λ h p. (p.0, λ x. cc)))
                    λ s x. Triple-pure _ (λ h p. (p.0, λ _. updated old s p.1 (p.2 s x)))

  -- Where it succeeds, all five children have been applied.
  pub reconcile_child_crds-AllApplied :
      (I : List Event → Type 0) (plain : KeepsThose is_plain I) (c : Committer)
      → Makes I (reconcile_child_crds env c) (AllApplied c)
  unfolding reconcile_child_crds
  reconcile_child_crds-AllApplied I plain c =
      let p1 = KeepsThose-and plain (Applied-before {k = coordinator}) in
      let p2 = KeepsThose-and p1 (Applied-before {k = sidecar}) in
      let p3 = KeepsThose-and p2 (Applied-before {k = validator}) in
      let p4 = KeepsThose-and p3 (Applied-before {k = verifier}) in
      record {
        at = λ h p.
            let q =
              (Makes-then _ (apply_child-Applied I plain coordinator _ _) (
                  Makes-then _ (apply_child-Applied _ p1 sidecar _ _) (
                    Makes-then _ (apply_child-Applied _ p2 validator _ _) (
                      Makes-then _ (apply_child-Applied _ p3 verifier _ _) (
                        Makes-then {D = λ _. Unit} _ (apply_child-Applied _ p4 query_service _ _)
                          Makes-done))))).at
                h p in
            (
              q.0,
              λ x.
                  let a = q.1 x in
                  of_each (λ k. IsApplied c k _) a.0 a.1.0 a.1.1.0 a.1.1.1.0 a.1.1.1.1.0,
            );
      }
