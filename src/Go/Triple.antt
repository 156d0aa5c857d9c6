-- ===== src/Go/Triple.antt =====
-- A program logic for actions: `Triple P m Q` says that `m`, run from a history with `P`, returns a
-- result and a history with `Q`. One rule for each step, and the histories each of whose events
-- meets a condition on the events before it.
use mathlib.Core.Path.{subst}
use fabric_x_operator.Prelude.{
  Option, none, some, ◌≡◌, refl, ◌⊎◌, inl, inr, Bool, true, false, List, [], ◌∷◌, if◌then◌else◌,
}
use fabric_x_operator.Go.{GoError, Outcome, ok, err}
use fabric_x_operator.Go.Act.{Act, pure, call, check, invoke, if_nil, deferred, when_set}

pub record Triple {E R : Type 0} (P : List E → Type 0) (m : Act E R) (Q : R → List E → Type 0)
    : Type 0 where
  pub at : (h : List E) → P h → Q (m h).0 (m h).1

module _ {E R : Type 0} {P : List E → Type 0} {Q : R → List E → Type 0} where
  pub Triple-pure : (r : R) → ((h : List E) → P h → Q r h) → Triple P (pure r) Q
  unfolding pure
  Triple-pure r here = record { at = here }

  pub Triple-if :
      (b : Bool) {m n : Act E R}
      → (b ≡ true → Triple P m Q)
      → (b ≡ false → Triple P n Q)
      → Triple P (if b then m else n) Q
  Triple-if true yes_branch no_branch = yes_branch refl
  Triple-if false yes_branch no_branch = no_branch refl

  pub Triple-weaken :
      {P' : List E → Type 0} {m : Act E R}
      → ((h : List E) → P h → P' h)
      → Triple P' m Q
      → Triple P m Q
  Triple-weaken imp t = record { at = λ h p. t.at h (imp h p) }

  -- A fact that does not speak of the history may be taken out of the precondition.
  pub Triple-fact : {F : Type 0} {m : Act E R} → (F → Triple P m Q) → Triple (λ h. P h × F) m Q
  Triple-fact t = record { at = λ h p. (t p.1).at h p.0 }

  pub Triple-deferred :
      {m : Act E R} (cleanup : List E → List E) (S : R → List E → Type 0)
      → Triple P m S
      → ((r : R) (h : List E) → S r h → Q r (cleanup h))
      → Triple P (deferred m cleanup) Q
  unfolding deferred
  Triple-deferred cleanup S body clean = record { at = λ h p. clean _ _ (body.at h p) }

module _ {E R A : Type 0} {P : List E → Type 0} {Q : R → List E → Type 0} where
  -- The rest may use that the answer was given at a history with `P`.
  pub Triple-call :
      {answer : List E → A} (event : A → E) {k : A → Act E R} (S : A → List E → Type 0)
      → ((h : List E) → P h → S (answer h) (event (answer h) ∷ h))
      → ((a : A) → Triple (S a) (k a) Q)
      → Triple P (call answer event k) Q
  unfolding call
  Triple-call {answer = answer} event S now rest = record {
    at = λ h p. (rest (answer h)).at (event (answer h) ∷ h) (now h p);
  }

  pub Triple-check :
      {on_error : GoError → Act E R} {k : A → Act E R} (r : Outcome A)
      → ((e : GoError) → r ≡ err e → Triple P (on_error e) Q)
      → ((a : A) → r ≡ ok a → Triple P (k a) Q)
      → Triple P (check r on_error k) Q
  unfolding check
  Triple-check (ok a) bad good = good a refl
  Triple-check (err e) bad good = bad e refl

  pub Triple-if_nil :
      {m : Act E R} {k : A → Act E R} (o : Option A)
      → (o ≡ none → Triple P m Q)
      → ((a : A) → o ≡ some a → Triple P (k a) Q)
      → Triple P (if_nil o m k) Q
  unfolding if_nil
  Triple-if_nil none absent there = absent refl
  Triple-if_nil (some a) absent there = there a refl

  pub Triple-invoke :
      {m : Act E A} {k : A → Act E R} (S : A → List E → Type 0)
      → Triple P m S
      → ((a : A) → Triple (S a) (k a) Q)
      → Triple P (invoke m k) Q
  unfolding invoke
  Triple-invoke {m = m} S first rest = record {
    at = λ h p. (rest (m h).0).at (m h).1 (first.at h p);
  }

-- Every event of the history meets `C` at the events before it.
abbrev pub Each : {E : Type 0} → (List E → E → Type 0) → List E → Type 0
Each C [] = Unit
Each C (e ∷ h) = C h e × Each C h

-- The event is in the history.
pub data Occurs {E : Type 0} (e : E) : List E → Type 0 where
  last : {h : List E} → Occurs e (e ∷ h)
  before : {d : E} {h : List E} → Occurs e h → Occurs e (d ∷ h)

-- A call whose answer is known has just occurred with that answer.
pub Occurs-answer :
    {E A : Type 0} (event : A → E) (a b : A) (h : List E) → a ≡ b → Occurs (event b) (event a ∷ h)
Occurs-answer event a b h e = subst (λ x. Occurs (event x) (event a ∷ h)) e last

pub ok_injective : {A : Type 0} {a b : A} → ok a ≡ ok b → a ≡ b
ok_injective e = cc

pub Outcome-cases :
    {A : Type 0} (o : Outcome A) → ((a : A) × (o ≡ ok a)) ⊎ ((e : GoError) × (o ≡ err e))
Outcome-cases (ok a) = inl (a, refl)
Outcome-cases (err e) = inr (e, refl)

-- What holds of the value of a pointer that is not nil.
abbrev pub IfSet : {A : Type 0} → Option A → (A → Type 0) → Type 0
IfSet none P = Unit
IfSet (some a) P = P a

pub IfSet-map :
    {A : Type 0} {P Q : A → Type 0} (o : Option A) → ((a : A) → P a → Q a) → IfSet o P → IfSet o Q
IfSet-map none f p = tt
IfSet-map (some a) f p = f a p

pub Triple-when_set :
    {E A : Type 0} {I : List E → Type 0} {Q : A → List E → Type 0}
    {f : A → Act E (Outcome (Unit {0}))} (o : Option A)
    → ((a : A) → Triple I (f a) (λ r h. I h × (r ≡ ok tt → Q a h)))
    → Triple I (when_set o f) (λ r h. I h × (r ≡ ok tt → IfSet o (λ a. Q a h)))
unfolding when_set
Triple-when_set none run = Triple-pure (ok tt) (λ h p. (p, λ _. tt))
Triple-when_set (some a) run = run a
