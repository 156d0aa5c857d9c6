-- ===== src/Utils/Finalizers.antt =====
-- `ContainsString` and `RemoveString` of helpers.go, by which the controllers keep finalizers.
use mathlib.Core.List.{◌++◌}
use fabric_x_operator.Prelude.{
  String, ◌≡◌, Bool, true, false, List, [], ◌∷◌, ◌==◌, eq_iff, arith, if◌then◌else◌,
}

-- `ContainsString`
unfoldable pub contains_string : List String → String → Bool
contains_string [] s = false
contains_string (t ∷ ts) s = if t == s then true else contains_string ts s

-- `RemoveString`
unfoldable pub remove_string : List String → String → List String
remove_string [] s = []
remove_string (t ∷ ts) s = if t == s then remove_string ts s else t ∷ remove_string ts s

-- After `RemoveString` the string is not in the list, and every other string is in it exactly if it
-- was before.
pub contains_string-remove_string :
    (l : List String) (s t : String)
    → contains_string (remove_string l s) t ≡ (if s == t then false else contains_string l t)
unfolding contains_string remove_string
contains_string-remove_string [] s t = ground arith
contains_string-remove_string (u ∷ l) s t =
    ground (arith, contains_string-remove_string l s t, eq_iff u s, eq_iff u t, eq_iff s t)

pub contains_string-append :
    (l : List String) (s : String) → contains_string (l ++ (s ∷ [])) s ≡ true
unfolding contains_string
contains_string-append [] s = ground (arith, eq_iff s s)
contains_string-append (t ∷ l) s = ground (arith, contains_string-append l s, eq_iff t s)
