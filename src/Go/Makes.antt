-- ===== src/Go/Makes.antt =====
-- Invariants that events keep, and sequences of checked calls each of which establishes a lasting
-- fact where it succeeds.
use fabric_x_operator.Prelude.{◌≡◌, Bool, true, List, ◌∷◌}
use fabric_x_operator.Go.{GoError, Outcome, ok, err}
use fabric_x_operator.Go.Act.{Act, pure, check, invoke}
use fabric_x_operator.Go.Triple.{Triple, Triple-pure, Triple-check, Triple-invoke}

-- `I` is kept by an event `e`.
abbrev pub Keeps : {E : Type 0} → (List E → Type 0) → E → Type 0
Keeps I e = (h : List _) → I h → I (e ∷ h)

-- `I` is kept by the events that pass a test.
abbrev pub KeepsThose : {E : Type 0} → (E → Bool) → (List E → Type 0) → Type 0
KeepsThose test I = (e : _) → test e ≡ true → Keeps I e

-- What a later event does not undo.
abbrev pub Lasting : {E : Type 0} → (List E → Type 0) → Type 0
Lasting C = (e : _) → Keeps C e

pub KeepsThose-and :
    {E : Type 0} {test : E → Bool} {I C : List E → Type 0}
    → KeepsThose test I
    → Lasting C
    → KeepsThose test (λ h. I h × C h)
KeepsThose-and keeps lasting e b h p = (keeps e b h p.0, lasting e h p.1)

-- A call that keeps `I`, and establishes `C` where it succeeds.
abbrev pub Makes :
    {E : Type 0} → (List E → Type 0) → Act E (Outcome (Unit {0})) → (List E → Type 0) → Type 0
Makes I m C = Triple I m (λ r h. I h × (r ≡ ok tt → C h))

-- A call that is checked at once, and what follows where it succeeded.
pub Makes-then :
    {E : Type 0} {I C D : List E → Type 0} {m rest : Act E (Outcome (Unit {0}))}
    (f : GoError → GoError)
    → Makes I m C
    → Makes (λ h. I h × C h) rest D
    → Makes I (invoke m λ r. check r (λ e. pure (err (f e))) λ _. rest) (λ h. C h × D h)
Makes-then f first then = Triple-invoke _ first λ r.
    Triple-check r (λ _ _. Triple-pure _ (λ h p. (p.0, λ x. cc)))
      λ _ x. record { at = λ h p. let q = then.at h (p.0, p.1 x) in (q.0.0, λ y. (q.0.1, q.1 y)) }

-- A call with nothing left to establish.
pub Makes-done : {E : Type 0} {I : List E → Type 0} → Makes I (pure (ok tt)) (λ _. Unit)
Makes-done = Triple-pure _ (λ h p. (p, λ _. tt))
