-- ===== src/Committer/Cleanup.antt =====
-- What `cleanupChildCRDs` brings about where it succeeds.
use mathlib.Core.Path.{subst}
use fabric_x_operator.Prelude.{refl, Bool, true, false, List}
use fabric_x_operator.Go.{GoError, ok, err}
use fabric_x_operator.Go.Makes.{KeepsThose, KeepsThose-and, Lasting, Makes, Makes-then, Makes-done}
use fabric_x_operator.Go.Triple.{
  Triple-pure, Triple-call, Triple-check, Occurs, before, Occurs-answer,
}
use fabric_x_operator.Kube.{NamespacedName}
use fabric_x_operator.Api.Committer.{Committer}
use fabric_x_operator.Committer.Env.{
  ChildKind, coordinator, sidecar, validator, verifier, query_service, Child, Env, Event, got_child,
  deleted_child,
}
use fabric_x_operator.Committer.Children.{child_key, cleanup_child, cleanup_child_crds}
use fabric_x_operator.Committer.Applied.{of_each}

-- The child of this name was read and its deletion accepted, or it could not be read.
pub data Gone (k : ChildKind) (key : NamespacedName) (h : List Event) : Type 0 where
  deleted :
      (child : Child k)
      → Occurs (got_child k key (ok child)) h
      → Occurs (deleted_child k child (ok tt)) h
      → Gone k key h
  unread : (e : GoError) → Occurs (got_child k key (err e)) h → Gone k key h

Gone-before : {k : ChildKind} {key : NamespacedName} → Lasting (Gone k key)
Gone-before e h (deleted c o d) = deleted c (before o) (before d)
Gone-before e h (unread f o) = unread f (before o)

-- All five are.
abbrev pub AllGone : Committer → List Event → Type 0
AllGone c h = (k : ChildKind) → Gone k (child_key c k) h

-- The reads and the deletions of children.
abbrev pub is_cleanup : Event → Bool
is_cleanup (got_child k key r) = true
is_cleanup (deleted_child k c r) = true
is_cleanup _ = false

module _ (env : Env) where
  cleanup_child-Gone :
      (I : List Event → Type 0) (keeps : KeepsThose is_cleanup I) (k : ChildKind)
      (key : NamespacedName)
      → Makes I (cleanup_child env k key) (Gone k key)
  unfolding cleanup_child
  cleanup_child-Gone I keeps k key =
      Triple-call (got_child k key) (λ r h. I h × Occurs (got_child k key r) h)
        (λ h p. (keeps _ refl h p, Occurs-answer (got_child k key) _ _ h refl))
        λ got.
          Triple-check got
            (λ e x.
              Triple-pure _
                (λ h p. (p.0, λ _. unread e (subst (λ r. Occurs (got_child k key r) h) x p.1))))
            λ child x.
              Triple-call (deleted_child k child)
                (λ r h. I h × Occurs (got_child k key got) h × Occurs (deleted_child k child r) h)
                (λ h p. (
                  keeps _ refl h p.0,
                  before p.1,
                  Occurs-answer (deleted_child k child) _ _ h refl,
                ))
                λ r.
                  Triple-check r (λ _ _. Triple-pure _ (λ h p. (p.0, λ y. cc)))
                    λ _ y. Triple-pure _ (λ h p. (
                      p.0,
                      λ _.
                          deleted child (subst (λ r. Occurs (got_child k key r) h) x p.1)
                            (subst (λ r. Occurs (deleted_child k child r) h) y p.2),
                    ))

  pub cleanup_child_crds-AllGone :
      (I : List Event → Type 0) (keeps : KeepsThose is_cleanup I) (c : Committer)
      → Makes I (cleanup_child_crds env c) (AllGone c)
  unfolding cleanup_child_crds
  cleanup_child_crds-AllGone I keeps c =
      let k1 = KeepsThose-and keeps (Gone-before {k = coordinator}) in
      let k2 = KeepsThose-and k1 (Gone-before {k = sidecar}) in
      let k3 = KeepsThose-and k2 (Gone-before {k = validator}) in
      let k4 = KeepsThose-and k3 (Gone-before {k = verifier}) in
      record {
        at = λ h p.
            let q =
              (Makes-then _ (cleanup_child-Gone I keeps coordinator _) (
                  Makes-then _ (cleanup_child-Gone _ k1 sidecar _) (
                    Makes-then _ (cleanup_child-Gone _ k2 validator _) (
                      Makes-then _ (cleanup_child-Gone _ k3 verifier _) (
                        Makes-then {D = λ _. Unit} _ (cleanup_child-Gone _ k4 query_service _)
                          Makes-done))))).at
                h p in
            (
              q.0,
              λ x.
                  let a = q.1 x in
                  of_each (λ k. Gone k (child_key c k) _) a.0 a.1.0 a.1.1.0 a.1.1.1.0 a.1.1.1.1.0,
            );
      }
