-- ===== src/Routes/Gateway.antt =====
-- The reference to a gateway, "namespace/name" or just "name".
use Prim.Native.String.append
use Prim.Native.String.{◌∷◌ as ◌∷ᵗ◌, [] as []ᵗ, ◌++◌}
use Prim.Native.Char.{Char, code}
use fabric_x_operator.Prelude.{
  String, ◌≡◌, ◌≢◌, arith, eq_iff, refl, ap, ◌∙◌, sym, Bool, false, List, [], ◌∷◌, ◌==◌,
  if◌then◌else◌, nat_eq,
}
use fabric_x_operator.Kube.{NamespacedName}

abbrev is_slash : Char → Bool
is_slash c = nat_eq (code c) 47

-- A character in front of the first part.
abbrev onto_first : Char → List String → List String
onto_first c [] = []
onto_first c (p ∷ ps) = (c ∷ᵗ p) ∷ ps

-- `strings.Split(s, "/")`
unfoldable pub split_slash : String → List String
split_slash []ᵗ = "" ∷ []
split_slash (c ∷ᵗ s) =
    let rest = split_slash s in if is_slash c then "" ∷ rest else onto_first c rest

-- `if len(parts) == 2`
abbrev of_parts : String → String → List String → NamespacedName
of_parts namespace whole (n ∷ m ∷ []) = record { namespace = n; name = m }
of_parts namespace whole _ = record { namespace = namespace; name = whole }

-- "Parse IngressGateway", for a route in `namespace`
unfoldable pub gateway_of : String → String → NamespacedName
unfolding split_slash
gateway_of namespace gateway =
    if gateway == ""
    then record { namespace = namespace; name = "fabric-x-gateway" }
    else of_parts namespace gateway (split_slash gateway)

-- No character of the text is a slash.
abbrev pub HasNoSlash : String → Type 0
HasNoSlash []ᵗ = Unit
HasNoSlash (c ∷ᵗ s) = (is_slash c ≡ false) × HasNoSlash s

is_not_empty : (s : String) → s ≢ "" → (s == "") ≡ false
is_not_empty s ne = ground (arith, eq_iff s "")

split_slash-HasNoSlash : (s : String) → HasNoSlash s → split_slash s ≡ s ∷ []
unfolding split_slash
split_slash-HasNoSlash []ᵗ p = refl
split_slash-HasNoSlash (c ∷ᵗ s) p = rw p.0 (rw (split_slash-HasNoSlash s p.1))

abbrev slash : Char
slash = "/"

slash_append : (t : String) → "/" ++ t ≡ slash ∷ᵗ t
slash_append t = append.cons slash "" t ∙ ap (λ u. slash ∷ᵗ u) (append.nil t)

split_slash-append :
    (s t : String) → HasNoSlash s → split_slash (s ++ ("/" ++ t)) ≡ s ∷ split_slash t
unfolding split_slash
split_slash-append []ᵗ t p = ap split_slash (append.nil ("/" ++ t) ∙ slash_append t)
split_slash-append (c ∷ᵗ s) t p =
    ap split_slash (append.cons c s ("/" ++ t)) ∙ rw p.0 (rw (split_slash-append s t p.1))

cons_ne : {c : Char} {s : String} → ¬ ((c ∷ᵗ s) ≡ "")
cons_ne e = cc

nonempty_pair : (s t : String) → ((s ++ ("/" ++ t)) == "") ≡ false
nonempty_pair []ᵗ t =
    is_not_empty _ (λ e. cons_ne (sym (append.nil ("/" ++ t) ∙ slash_append t) ∙ e))
nonempty_pair (c ∷ᵗ s) t = is_not_empty _ (λ e. cons_ne (sym (append.cons c s ("/" ++ t)) ∙ e))

-- A reference "namespace/name" whose two parts have no slash means the gateway of that name in that
-- namespace, whatever the namespace of the route is; a name without a slash, which is not empty,
-- means the gateway of that name in the namespace of the route.
pub gateway_of-reference :
    (here namespace name : String)
    → HasNoSlash namespace
    → HasNoSlash name
    → name ≢ ""
    → (gateway_of here (namespace ++ ("/" ++ name)) ≡ record { namespace = namespace; name = name })
      × (gateway_of here name ≡ record { namespace = here; name = name })
unfolding gateway_of
gateway_of-reference here namespace name p q ne =
    let two = split_slash-append namespace name p in
    let one = split_slash-HasNoSlash name q in
    (
      rw (nonempty_pair namespace name) (rw two (rw one refl)),
      rw (is_not_empty name ne) (rw one refl),
    )
