-- ===== src/Utils/Text.antt =====
-- Go's order on strings and `strings.Join`, and the service names of helpers.go.
use Prim.Native.Char.{code}
use Prim.Native.String.{String, ◌++◌}
use text.Mathlib.TextEquality.{Char-path}
use fabric_x_operator.Prelude.{
  ◌≡◌, refl, Bool, true, false, ◌⊎◌, inl, inr, List, [], ◌∷◌, ltb, nat_eq, arith, if◌then◌else◌,
}

-- `s <= t`: lexicographic by code points, which is the order of the UTF-8 bytes.
unfoldable pub text_leb : String → String → Bool
text_leb String.[] t = true
text_leb (String.◌∷◌ c s) String.[] = false
text_leb (String.◌∷◌ c s) (String.◌∷◌ d t) =
    if ltb (code c) (code d) then true else if nat_eq (code c) (code d) then text_leb s t else false

pub text_leb_total : (s t : String) → (text_leb s t ≡ true) ⊎ (text_leb t s ≡ true)
unfolding text_leb
text_leb_total String.[] t = inl refl
text_leb_total (String.◌∷◌ c s) String.[] = inr refl
text_leb_total (String.◌∷◌ c s) (String.◌∷◌ d t) = ground (arith, text_leb_total s t)

pub text_leb_trans :
    (s t u : String) → text_leb s t ≡ true → text_leb t u ≡ true → text_leb s u ≡ true
unfolding text_leb
text_leb_trans String.[] t u p q = refl
text_leb_trans (String.◌∷◌ c s) String.[] u p q = ground arith
text_leb_trans (String.◌∷◌ c s) (String.◌∷◌ d t) String.[] p q = ground arith
text_leb_trans (String.◌∷◌ c s) (String.◌∷◌ d t) (String.◌∷◌ e u) p q =
    ground (arith, text_leb_trans s t u)

pub text_leb_antisym : (s t : String) → text_leb s t ≡ true → text_leb t s ≡ true → s ≡ t
unfolding text_leb
text_leb_antisym String.[] String.[] p q = refl
text_leb_antisym String.[] (String.◌∷◌ d t) p q = ground arith
text_leb_antisym (String.◌∷◌ c s) String.[] p q = ground arith
text_leb_antisym (String.◌∷◌ c s) (String.◌∷◌ d t) p q =
    ground (arith, text_leb_antisym s t, Char-path c d)

-- `strings.Join(parts, sep)`
unfoldable pub join : List String → String → String
join [] sep = ""
join (s ∷ []) sep = s
join (s ∷ t ∷ rest) sep = s ++ sep ++ join (t ∷ rest) sep

-- `GetServiceName`
unfoldable pub get_service_name : String → String
get_service_name component = component

-- `GetServiceFQDN`
unfoldable pub get_service_fqdn : String → String → String
unfolding get_service_name
get_service_fqdn component namespace =
    get_service_name component ++ "." ++ namespace ++ ".svc.cluster.local"

-- `GetServiceNameWithSuffix`
unfoldable pub get_service_name_with_suffix : String → String → String
get_service_name_with_suffix component suffix = component ++ "-" ++ suffix

-- `GetServiceFQDNWithSuffix`
unfoldable pub get_service_fqdn_with_suffix : String → String → String → String
unfolding get_service_name_with_suffix
get_service_fqdn_with_suffix component suffix namespace =
    get_service_name_with_suffix component suffix ++ "." ++ namespace ++ ".svc.cluster.local"
