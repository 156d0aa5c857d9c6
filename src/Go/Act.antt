-- ===== src/Go/Act.antt =====
-- Reconcilers as actions over a history. The environment (API server, certificate authority, file
-- system, clock) is a function of the history of calls made so far, newest first, so that it may
-- answer the same call differently each time.
use fabric_x_operator.Prelude.{Option, none, some, List, ◌∷◌}
use fabric_x_operator.Go.{GoError, Outcome, ok, err}

-- What a Go function with result `R` does: it makes calls and returns.
abbrev pub Act : Type 0 → Type 0 → Type 0
Act E R = List E → R × List E

-- One step of a function body whose function returns `R`: it takes the rest of the body, and may
-- return early in place of it.
abbrev pub Step : Type 0 → Type 0 → Type 0 → Type 0
Step E R A = (A → Act E R) → Act E R

infixl 5 ◌>>=◌ ◌>>◌
abbrev pub ◌>>=◌ : {E R A : Type 0} → Step E R A → (A → Act E R) → Act E R
◌>>=◌ m k = m k

abbrev pub ◌>>◌ : {E R : Type 0} → Step E R (Unit {0}) → Act E R → Act E R
◌>>◌ m k = m (λ _. k)

-- `return r`
unfoldable pub pure : {E R : Type 0} → R → Act E R
pure r h = (r, h)

-- One call of the environment, recorded with its answer.
unfoldable pub call : {E R A : Type 0} → (List E → A) → (A → E) → Step E R A
call answer event k h = let a = answer h in k a (event a ∷ h)

-- A call of another function of the operator.
unfoldable pub invoke : {E R A : Type 0} → Act E A → Step E R A
invoke m k h = let (a, h') = m h in k a h'

-- `if err != nil { return onError(err) }`
unfoldable pub check : {E R A : Type 0} → Outcome A → (GoError → Act E R) → Step E R A
check (ok a) on_error k = k a
check (err e) on_error k = on_error e

-- `if p == nil { … } else { … }` on a pointer.
unfoldable pub if_nil : {E R A : Type 0} → Option A → Act E R → (A → Act E R) → Act E R
if_nil none m k = m
if_nil (some a) m k = k a

-- `defer f()` around the rest of a body: the cleanup runs on every return. To unfold it is to
-- unfold the other steps too.
unfoldable pub deferred : {E R : Type 0} → Act E R → (List E → List E) → Act E R
unfolding pure call invoke check if_nil
deferred m cleanup h = let (r, h') = m h in (r, cleanup h')

-- `if p != nil { if err := f(p); err != nil { … } }`, with the outcome to be checked.
unfoldable pub when_set :
    {E A : Type 0} → Option A → (A → Act E (Outcome (Unit {0}))) → Act E (Outcome (Unit {0}))
when_set none f = pure (ok tt)
when_set (some a) f = f a
