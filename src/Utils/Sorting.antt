-- ===== src/Utils/Sorting.antt =====
-- `sort.Strings`: the sorted rearrangement of a list, which does not depend on its order.
use mathlib.Core.List.Permᴰ
use mathlib.Core.List.{Permᴰ}
use fabric_x_operator.Prelude.{
  String, ◌≡◌, refl, ◌∙◌, inl, inr, List, [], ◌∷◌, arith, Bool-cases, if◌then◌else◌,
}
use fabric_x_operator.Utils.Text.{text_leb, text_leb_total, text_leb_trans, text_leb_antisym}

insert_sorted : String → List String → List String
insert_sorted s [] = s ∷ []
insert_sorted s (t ∷ ts) = if text_leb s t then s ∷ t ∷ ts else t ∷ insert_sorted s ts

unfoldable pub sort_strings : List String → List String
unfolding insert_sorted
sort_strings [] = []
sort_strings (s ∷ ss) = insert_sorted s (sort_strings ss)

-- Two insertions commute.
insert_sorted_comm :
    (a b : String) (l : List String)
    → insert_sorted a (insert_sorted b l) ≡ insert_sorted b (insert_sorted a l)
unfolding insert_sorted
insert_sorted_comm a b [] = ground (arith, text_leb_total a b, text_leb_antisym a b)
insert_sorted_comm a b (t ∷ l) = ground (
  arith,
  text_leb_total a b,
  text_leb_antisym a b,
  text_leb_trans a b t,
  text_leb_trans b a t,
  text_leb_total a t,
  text_leb_total b t,
  insert_sorted_comm a b l,
)

-- Sorting forgets the order.
pub sort_strings-perm : {l m : List String} → Permᴰ l m → sort_strings l ≡ sort_strings m
unfolding sort_strings
sort_strings-perm Permᴰ.nil = refl
sort_strings-perm (Permᴰ.cons e p) = cc (e, sort_strings-perm p)
sort_strings-perm (Permᴰ.swap {a = a} {b = b} {l = l} e f) =
    insert_sorted_comm a b (sort_strings l) ∙ cc (e, f)
sort_strings-perm (Permᴰ.trans p q) = sort_strings-perm p ∙ sort_strings-perm q

insert_sorted_perm : (s : String) (l : List String) → Permᴰ (insert_sorted s l) (s ∷ l)
unfolding insert_sorted
insert_sorted_perm s [] = Permᴰ.cons refl Permᴰ.nil
insert_sorted_perm s (t ∷ l) = elim (Bool-cases (text_leb s t)) [
  | inl e ↦ rw e (Permᴰ.refl (s ∷ t ∷ l))
  | inr e ↦ rw e (Permᴰ.trans (Permᴰ.cons refl (insert_sorted_perm s l)) (Permᴰ.swap refl refl))
]

-- Sorting rearranges.
pub sort_strings_perm : (l : List String) → Permᴰ (sort_strings l) l
unfolding sort_strings
sort_strings_perm [] = Permᴰ.nil
sort_strings_perm (s ∷ l) =
    Permᴰ.trans (insert_sorted_perm s (sort_strings l)) (Permᴰ.cons refl (sort_strings_perm l))
