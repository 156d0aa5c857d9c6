-- ===== src/Utils/Conditions.antt =====
-- `UpdateConditionIfChanged` of hash.go.
use fabric_x_operator.Prelude.{
  ℕ, suc, ◌≤◌, ◌<◌, String, ◌≡◌, refl, ap, ◌∙◌, Bool, true, not, ◌||◌, ◌&&◌, Option, none, some,
  List, [], ◌∷◌, ◌==◌, eq_iff, arith, if◌then◌else◌, nat_eq, inl, inr, Bool-cases,
}
use mathlib.Core.List.{◌++◌}
use fabric_x_operator.Kube.{Time}

-- `metav1.Condition`
pub record Condition : Type 0 where
  pub type : String
  pub status : String
  pub observed_generation : ℕ
  pub last_transition_time : Time
  pub reason : String
  pub message : String

-- The search loop: the index, counted from `i`, and the value of the first condition of the type.
find_from : ℕ → String → List Condition → Option (ℕ × Condition)
find_from i t [] = none
find_from i t (c ∷ cs) = if c.type == t then some (i, c) else find_from (suc i) t cs

-- The copying loop: the condition at index `k`, counted from `i`, is replaced.
replace_from : ℕ → ℕ → Condition → List Condition → List Condition
replace_from i k new [] = []
replace_from i k new (c ∷ cs) = (if nat_eq i k then new else c) ∷ replace_from (suc i) k new cs

-- `cond.Status != status || cond.Reason != reason || cond.Message != message`
unfoldable pub differs : Condition → String → String → String → Bool
differs c status reason message =
    not (c.status == status) || not (c.reason == reason) || not (c.message == message)

abbrev new_condition : String → String → String → String → Time → Condition
new_condition t status reason message time = record {
  type = t;
  status = status;
  observed_generation = 0;
  last_transition_time = time;
  reason = reason;
  message = message;
}

-- What `UpdateConditionIfChanged` returns for the outcome of the search.
rebuild :
    Time
    → List Condition
    → String
    → String
    → String
    → String
    → Option (ℕ × Condition)
    → List Condition × Bool
rebuild now cs t status reason message none =
    (cs ++ (new_condition t status reason message now ∷ []), true)
rebuild now cs t status reason message (some (k, c)) =
    let changed = differs c status reason message in
    let time : Time = if changed then now else c.last_transition_time in
    (replace_from 0 k (new_condition t status reason message time) cs, changed)

-- `UpdateConditionIfChanged`, at the time `now`
unfoldable pub update_condition_if_changed :
    Time → List Condition → String → String → String → String → List Condition × Bool
unfolding rebuild differs find_from replace_from
update_condition_if_changed now cs t status reason message =
    rebuild now cs t status reason message (find_from 0 t cs)

-- The condition of a type, as a reader of the list finds it.
unfoldable pub find_condition : String → List Condition → Option Condition
find_condition t [] = none
find_condition t (c ∷ cs) = if c.type == t then some c else find_condition t cs

-- The condition has this status, this reason and this message.
unfoldable pub says : Condition → String → String → String → Bool
says c status reason message =
    (c.status == status) && (c.reason == reason) && (c.message == message)

-- The condition that an update should leave: it keeps the transition time of a condition that says
-- the same already.
unfoldable pub expected : Time → String → String → String → String → Option Condition → Condition
expected now t status reason message found = record {
  type = t;
  status = status;
  observed_generation = 0;
  last_transition_time = elim found [
    | none ↦ now
    | some c ↦ if says c status reason message then c.last_transition_time else now
  ];
  reason = reason;
  message = message;
}

-- Whether the update changes what the condition says.
unfoldable pub says_new : String → String → String → Option Condition → Bool
says_new status reason message none = true
says_new status reason message (some c) = not (says c status reason message)

differs_lem :
    (c : Condition) (status reason message : String)
    → differs c status reason message ≡ not (says c status reason message)
unfolding differs says
differs_lem c status reason message = ground arith

-- Behind its index the copying loop changes nothing.
replace_from-past :
    (i k : ℕ) (new : Condition) (cs : List Condition) → k < i → replace_from i k new cs ≡ cs
unfolding replace_from
replace_from-past i k new [] h = refl
replace_from-past i k new (c ∷ cs) h = ground (arith, replace_from-past (suc i) k new cs)

-- The copying loop, from an index on, behind the search from the same index.
replace-find :
    (i : ℕ) (t j : String) (new : Condition) (cs : List Condition)
    → new.type ≡ t
    → (k : ℕ) (c : Condition) → find_from i t cs ≡ some (k, c)
    → (find_condition t cs ≡ some c)
      × (i ≤ k)
      × (find_condition j (replace_from i k new cs)
          ≡ (if t == j then some new else find_condition j cs))
unfolding find_from replace_from find_condition
replace-find i t j new [] e k c f = cc
replace-find i t j new (d ∷ cs) e k c f = elim (Bool-cases (d.type == t)) [
  | inl same ↦
      ground
        (arith, replace_from-past (suc i) i new cs, eq_iff d.type t, eq_iff d.type j, eq_iff t j)
  | inr other ↦
      ground
        (arith, replace-find (suc i) t j new cs e k c, eq_iff d.type t, eq_iff d.type j, eq_iff t j)
]

find-none :
    (i : ℕ) (t : String) (cs : List Condition)
    → find_from i t cs ≡ none
    → find_condition t cs ≡ none
unfolding find_from find_condition
find-none i t [] e = refl
find-none i t (d ∷ cs) e = ground (arith, find-none (suc i) t cs)

find-append :
    (t j : String) (new : Condition) (cs : List Condition)
    → new.type ≡ t
    → find_condition t cs ≡ none
    → find_condition j (cs ++ (new ∷ [])) ≡ (if t == j then some new else find_condition j cs)
unfolding find_condition
find-append t j new [] e f = ground arith
find-append t j new (d ∷ cs) e f =
    ground (arith, find-append t j new cs e, eq_iff d.type t, eq_iff d.type j, eq_iff t j)

module _ (now : Time) (cs : List Condition) (t status reason message : String) where
  -- What a reader finds after the update, with this transition time.
  abbrev found_at : String → Time → Option Condition
  found_at j time =
      if t == j then some (new_condition t status reason message time) else find_condition j cs

  kept_time_lem :
      (d : Bool) (old : Time) (b : Bool)
      → d ≡ not b
      → ◌≡◌ {A = Time} (if d then now else old) (if b then old else now)
  kept_time_lem d old b e = ground arith

  rebuild_lem :
      (j : String) (o : Option (ℕ × Condition))
      → find_from 0 t cs ≡ o
      → (find_condition j (rebuild now cs t status reason message o).0 ≡ (
          if t == j
          then some (expected now t status reason message (find_condition t cs))
          else find_condition j cs))
        × ((rebuild now cs t status reason message o).1
            ≡ says_new status reason message (find_condition t cs))
  unfolding rebuild expected says_new
  rebuild_lem j none f =
      let absent = find-none 0 t cs f in
      rw absent (find-append t j (new_condition t status reason message now) cs refl absent, refl)
  rebuild_lem j (some (k, c)) f =
      let time : Time = if differs c status reason message then now else c.last_transition_time in
      let there = replace-find 0 t j (new_condition t status reason message time) cs refl k c f in
      let same = differs_lem c status reason message in
      rw there.0 (there.2 ∙ ap (found_at j) (kept_time_lem _ _ _ same), same)

  -- After an update, a reader finds for the updated type the new condition, whose transition time
  -- is `now` if the condition is new or has another status, reason or message, and the old transition
  -- time if all three are the same; every other type is found as before; and the update reports a change exactly if
  -- the condition is new or one of the three is another.
  pub update_condition_if_changed_lem :
      (j : String)
      → (find_condition j (update_condition_if_changed now cs t status reason message).0 ≡ (
          if t == j
          then some (expected now t status reason message (find_condition t cs))
          else find_condition j cs))
        × ((update_condition_if_changed now cs t status reason message).1
            ≡ says_new status reason message (find_condition t cs))
  unfolding update_condition_if_changed
  update_condition_if_changed_lem j = rebuild_lem j (find_from 0 t cs) refl
