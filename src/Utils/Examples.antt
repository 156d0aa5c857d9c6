-- ===== src/Utils/Examples.antt =====
-- Tests of the shared helpers, and their theorems at examples.
use Prim.Native.String.{◌++◌}
use mathlib.Core.List.{Permᴰ}
use fabric_x_operator.Prelude.{
  String, ◌≡◌, refl, true, false, some, List, [], ◌∷◌, ◌==◌, if◌then◌else◌,
}
use fabric_x_operator.Go.{GoMap, ok}
use fabric_x_operator.Utils.Text.{text_leb, get_service_fqdn}
use fabric_x_operator.Utils.Sorting.{sort_strings}
use fabric_x_operator.Utils.Finalizers.{
  contains_string, remove_string, contains_string-remove_string,
}
use fabric_x_operator.Utils.Conditions.{
  Condition, find_condition, says, expected, says_new, update_condition_if_changed,
  update_condition_if_changed_lem,
}
use fabric_x_operator.Utils.Hash.{
  HashBuilder, compute_secret_hash, compute_config_map_hash, compute_env_vars_hash, build,
  compute_secret_hash-perm, compute_config_map_hash-perm, build-perm,
  compute_env_vars_hash_collides,
}

-- A hash that leaves the text as it is.
abbrev plain : String → String
plain s = s

sorts : sort_strings ("b" ∷ "ab" ∷ "a" ∷ []) ≡ "a" ∷ "ab" ∷ "b" ∷ []
unfolding sort_strings text_leb
sorts = refl

names_service : get_service_fqdn "router" "org1" ≡ "router.org1.svc.cluster.local"
unfolding get_service_fqdn
names_service = refl

contains_string-remove_string_example :
    contains_string (remove_string ("a" ∷ "b" ∷ "a" ∷ []) "a") "b"
    ≡ (if "a" == "b" then false else contains_string ("a" ∷ "b" ∷ "a" ∷ []) "b")
contains_string-remove_string_example = contains_string-remove_string ("a" ∷ "b" ∷ "a" ∷ []) "a" "b"

abbrev ready : Condition
ready = record {
  type = "Ready";
  status = "True";
  observed_generation = 4;
  last_transition_time = 10;
  reason = "Up";
  message = "all pods run";
}

abbrev conditions : List Condition
conditions = record ready { type = "Synced" } ∷ ready ∷ []

-- What says the same keeps its time, and reports no change.
unchanged : (update_condition_if_changed 99 conditions "Ready" "True" "Up" "all pods run").1 ≡ false
unfolding update_condition_if_changed
unchanged = refl

update_condition_if_changed_lem_example :
    (find_condition "Ready"
        (update_condition_if_changed 99 conditions "Ready" "True" "Up" "new text").0
      ≡ some (record ready {
        observed_generation = 0;
        last_transition_time = 99;
        message = "new text";
      }))
    × ((update_condition_if_changed 99 conditions "Ready" "True" "Up" "new text").1 ≡ true)
unfolding expected says_new says find_condition
update_condition_if_changed_lem_example =
    update_condition_if_changed_lem 99 conditions "Ready" "True" "Up" "new text" "Ready"

abbrev data_one : GoMap String
data_one = ("tls.crt", "c") ∷ ("tls.key", "k") ∷ []

abbrev data_two : GoMap String
data_two = ("tls.key", "k") ∷ ("tls.crt", "c") ∷ []

compute_secret_hash-perm_example :
    compute_secret_hash plain (ok data_one) ≡ compute_secret_hash plain (ok data_two)
compute_secret_hash-perm_example =
    compute_secret_hash-perm plain data_one data_two (Permᴰ.swap refl refl)

compute_config_map_hash-perm_example :
    compute_config_map_hash plain (ok (record { values = data_one; binary = [] }))
    ≡ compute_config_map_hash plain (ok (record { values = data_two; binary = [] }))
compute_config_map_hash-perm_example =
    compute_config_map_hash-perm plain (record { values = data_one; binary = [] })
      (record { values = data_two; binary = [] }) (Permᴰ.swap refl refl) Permᴰ.nil

abbrev builder : String → String → HashBuilder
builder s t = record { hashes = s ∷ t ∷ [] }

build-perm_example :
    ((build plain (builder "x" "y")).1 ≡ (build plain (builder "y" "x")).1)
    × (build plain (build plain (builder "x" "y")).0 ≡ build plain (builder "x" "y"))
build-perm_example = build-perm plain (builder "x" "y") (builder "y" "x") (Permᴰ.swap refl refl)

compute_env_vars_hash_collides_example :
    compute_env_vars_hash plain
      (record { name = "A"; value = "1" ++ "|" ++ "B" ++ "=" ++ "2" } ∷ [])
    ≡ compute_env_vars_hash plain
        (record { name = "A"; value = "1" } ∷ record { name = "B"; value = "2" } ∷ [])
compute_env_vars_hash_collides_example = compute_env_vars_hash_collides plain "A" "B" "1" "2"
