-- ===== src/Utils/Hash.antt =====
-- The hashes of hash.go, which are meant for the restart of pods when their inputs change; nothing in
-- the repository calls ComputeSecretHash, ComputeEnvVarsHash or HashBuilder. SHA-256 with hex encoding is a parameter; the bytes of a value are read as text.
use Prim.Native.String.{◌++◌}
use mathlib.Core.List.Permᴰ
use mathlib.Core.List.{Permᴰ, map, ◌++◌ as append}
use fabric_x_operator.Prelude.{String, ◌≡◌, ap, List, [], ◌∷◌, ◌==◌, if◌then◌else◌}
use fabric_x_operator.Go.{GoMap, Outcome, ok, err}
use text.Mathlib.TextLemmas.{append_assoc, append-nil}
use fabric_x_operator.Utils.Text.{join}
use fabric_x_operator.Utils.Sorting.{sort_strings, sort_strings-perm, sort_strings_perm}

-- `fmt.Sprintf("%s=%s", k, v)`
unfoldable pub part : String × String → String
part (k, v) = k ++ "=" ++ v

-- `corev1.ConfigMap`
pub record ConfigMap : Type 0 where
  pub values : GoMap String
  pub binary : GoMap String

-- `corev1.EnvVar`
pub record EnvVar : Type 0 where
  pub name : String
  pub value : String

-- `HashBuilder`
pub record HashBuilder : Type 0 where
  pub hashes : List String

-- Appending respects rearrangement.
append_perm : {a b c d : List String} → Permᴰ a b → Permᴰ c d → Permᴰ (append a c) (append b d)
append_perm {a} {b} {c} {d} p q = Permᴰ.trans (Permᴰ.append_right c p) (Permᴰ.append_left b q)

module _ (sha : String → String) where
  -- `ComputeSecretHash`, on the answer of the API server, whose data come in the order in which
  -- the loop meets them.
  unfoldable pub compute_secret_hash : Outcome (GoMap String) → Outcome String
  compute_secret_hash (err e) = err e
  compute_secret_hash (ok contents) = ok (sha (join (sort_strings (map part contents)) "|"))

  -- `ComputeConfigMapHash`
  unfoldable pub compute_config_map_hash : Outcome ConfigMap → Outcome String
  compute_config_map_hash (err e) = err e
  compute_config_map_hash (ok cm) =
      ok (sha (join (sort_strings (append (map part cm.values) (map part cm.binary))) "|"))

  unfoldable pub env_text : List EnvVar → String
  env_text [] = ""
  env_text (e ∷ es) = (e.name ++ "=" ++ e.value ++ "|") ++ env_text es

  -- `ComputeEnvVarsHash`
  unfoldable pub compute_env_vars_hash : List EnvVar → String
  compute_env_vars_hash [] = ""
  compute_env_vars_hash (e ∷ es) = sha (env_text (e ∷ es))

  -- `ComputeCombinedHash`: it sorts the slice that it is given in place, and that slice comes back
  -- beside the hash.
  unfoldable pub compute_combined_hash : List String → List String × String
  compute_combined_hash hashes = let sorted = sort_strings hashes in (sorted, sha (join sorted "|"))

  abbrev add : HashBuilder → String → HashBuilder
  add b hash = record { hashes = append b.hashes (hash ∷ []) }

  abbrev add_outcome : HashBuilder → Outcome String → HashBuilder
  add_outcome b (ok hash) = add b hash
  add_outcome b (err e) = b

  -- `AddSecret`: a secret that cannot be read is skipped.
  unfoldable pub add_secret : HashBuilder → Outcome (GoMap String) → HashBuilder
  add_secret b got = add_outcome b (compute_secret_hash got)

  -- `AddConfigMap`
  unfoldable pub add_config_map : HashBuilder → Outcome ConfigMap → HashBuilder
  add_config_map b got = add_outcome b (compute_config_map_hash got)

  -- `AddEnvVars`
  unfoldable pub add_env_vars : HashBuilder → List EnvVar → HashBuilder
  add_env_vars b es = let hash = compute_env_vars_hash es in if hash == "" then b else add b hash

  -- `AddString`
  unfoldable pub add_string : HashBuilder → String → HashBuilder
  add_string b value = if value == "" then b else add b (sha value)

  -- `Build`; the builder keeps the sorted hashes.
  unfoldable pub build : HashBuilder → HashBuilder × String
  unfolding compute_combined_hash
  build b =
      let (sorted, hash) = compute_combined_hash b.hashes in (record { hashes = sorted }, hash)

  -- The hash of a secret does not depend on the order in which the loop over its data, a Go map,
  -- meets the entries.
  pub compute_secret_hash-perm :
      (a b : GoMap String) → Permᴰ a b → compute_secret_hash (ok a) ≡ compute_secret_hash (ok b)
  unfolding compute_secret_hash
  compute_secret_hash-perm a b p = rw (sort_strings-perm (Permᴰ.map part p))

  -- Nor does the hash of a config map depend on the order of its values or of its binary data.
  pub compute_config_map_hash-perm :
      (a b : ConfigMap)
      → Permᴰ a.values b.values
      → Permᴰ a.binary b.binary
      → compute_config_map_hash (ok a) ≡ compute_config_map_hash (ok b)
  unfolding compute_config_map_hash
  compute_config_map_hash-perm a b p q =
      rw (sort_strings-perm (append_perm (Permᴰ.map part p) (Permᴰ.map part q)))

  -- What `Build` returns depends on the hashes that were added and not on their order, and a second
  -- `Build`, on the slice that the first one has sorted, returns the same.
  pub build-perm :
      (a b : HashBuilder)
      → Permᴰ a.hashes b.hashes
      → ((build a).1 ≡ (build b).1) × (build (build a).0 ≡ build a)
  unfolding build
  build-perm a b p = (rw (sort_strings-perm p), rw (sort_strings-perm (sort_strings_perm a.hashes)))

  -- Two different lists of environment variables have the same hash, whatever the hash function
  -- is: a value may hold the separator, so that one variable looks like two.
  pub compute_env_vars_hash_collides :
      (a b v w : String)
      → compute_env_vars_hash (record { name = a; value = v ++ "|" ++ b ++ "=" ++ w } ∷ [])
        ≡ compute_env_vars_hash
            (record { name = a; value = v } ∷ record { name = b; value = w } ∷ [])
  unfolding compute_env_vars_hash env_text
  compute_env_vars_hash_collides a b v w = ap sha (simp (append_assoc, append-nil))
