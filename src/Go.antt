-- ===== src/Go.antt =====
-- Go's values as the operator uses them: errors, fallible results, maps and byte slices.
pub mod Act
pub mod Triple
pub mod Makes
pub mod Decimal
use Prim.Native.String.{◌++◌}
use fabric_x_operator.Prelude.{
  ℕ, String, Bool, true, false, Option, none, some, List, [], ◌∷◌, ◌==◌, if◌then◌else◌, nat_eq,
}

-- What `apierrors.IsNotFound` and `apierrors.IsAlreadyExists` read of an error.
pub data Reason : Type 0 where
  not_found already_exists other : Reason

-- A Go `error`: its reason, which wrapping keeps, and its text.
pub record GoError : Type 0 where
  pub reason : Reason
  pub text : String

-- `errors.New`
abbrev pub new_error : String → GoError
new_error s = record { reason = other; text = s }

-- `errors.Wrap(err, s)` and `fmt.Errorf("s: %w", err)`
abbrev pub wrap : String → GoError → GoError
wrap s e = record { reason = e.reason; text = s ++ ": " ++ e.text }

abbrev reason_is_not_found : Reason → Bool
reason_is_not_found not_found = true
reason_is_not_found _ = false

abbrev reason_is_already_exists : Reason → Bool
reason_is_already_exists already_exists = true
reason_is_already_exists _ = false

abbrev pub is_not_found : GoError → Bool
is_not_found e = reason_is_not_found e.reason

abbrev pub is_already_exists : GoError → Bool
is_already_exists e = reason_is_already_exists e.reason

-- The pair `(A, error)` of a fallible call.
pub data Outcome (A : Type 0) : Type 0 where
  ok : A → Outcome A
  err : GoError → Outcome A

-- `[]byte`, also where the code converts it to a `string` that it passes on
abbrev pub Bytes : Type 0
Bytes = List ℕ

-- `len(b) == 0`
abbrev pub is_empty {ℓ} : {A : Type ℓ} → List A → Bool
is_empty [] = true
is_empty (x ∷ xs) = false

-- `map[string]V`: an association list with one entry for each key that was written.
abbrev pub GoMap : Type 0 → Type 0
GoMap V = List (String × V)

module _ {V : Type 0} where
  unfoldable pub lookup : String → GoMap V → Option V
  lookup k [] = none
  lookup k ((j, v) ∷ m) = if j == k then some v else lookup k m

  -- `m[k] = v`
  unfoldable pub insert : String → V → GoMap V → GoMap V
  insert k v [] = (k, v) ∷ []
  insert k v ((j, w) ∷ m) = if j == k then (k, v) ∷ m else (j, w) ∷ insert k v m

-- Go's signed integers; the code here only copies them and compares them with 0.
pub data ℤ : Type 0 where
  pos negsuc : ℕ → ℤ

-- `n == 0`
abbrev pub is_zero : ℤ → Bool
is_zero (pos n) = nat_eq n 0
is_zero (negsuc n) = false
