-- ===== src/Go/Decimal.antt =====
-- `fmt.Sprintf("%d", n)` for a number that is not negative.
use Prim.Native.Nat.{◌/◌, ◌%◌}
use Prim.Native.String.{◌++◌}
use fabric_x_operator.Prelude.{ℕ, zero, suc, String, if◌then◌else◌, ltb, List, [], ◌∷◌}

-- The digit at an index of the list.
abbrev nth : ℕ → List String → String
nth n [] = ""
nth zero (d ∷ ds) = d
nth (suc n) (d ∷ ds) = nth n ds

abbrev digit : ℕ → String
digit n = nth n ("0" ∷ "1" ∷ "2" ∷ "3" ∷ "4" ∷ "5" ∷ "6" ∷ "7" ∷ "8" ∷ "9" ∷ [])

-- At most so many digits; a number has no more digits than its successor counts.
abbrev digits : ℕ → ℕ → String
digits zero n = ""
digits (suc k) n = let rest = digits k (n / 10) in (if ltb n 10 then "" else rest) ++ digit (n % 10)

unfoldable pub decimal : ℕ → String
decimal n = digits (suc n) n
