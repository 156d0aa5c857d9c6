-- ===== src/ChainNamespace/Conditions.antt =====
-- `updateStatus`.
use fabric_x_operator.Prelude.{
  String, ◌≡◌, refl, some, List, [], ◌∷◌, ◌==◌, arith, eq_iff, if◌then◌else◌,
}
use fabric_x_operator.Go.{Outcome, ok, err}
use fabric_x_operator.Go.Act.{Act, ◌>>=◌, pure, call, check}
use fabric_x_operator.Kube.{Time}
use fabric_x_operator.Utils.Conditions.{Condition, find_condition}
use fabric_x_operator.ChainNamespace.Types.{ChainNamespace}
use fabric_x_operator.ChainNamespace.Env.{Env, Event, updated_status, read_clock}

-- "Find and update existing condition or append new one"
unfoldable pub set_condition : Condition → List Condition → List Condition
set_condition new [] = new ∷ []
set_condition new (c ∷ cs) = if c.type == new.type then new ∷ cs else c ∷ set_condition new cs

-- The condition that `updateStatus` sets.
unfoldable pub ready_condition : ChainNamespace → Time → String → String → Condition
ready_condition ns now status message = record {
  type = "Ready";
  status = if status == "Failed" then "False" else "True";
  observed_generation = ns.meta.generation;
  last_transition_time = now;
  reason = status;
  message = message;
}

unfoldable pub with_status : ChainNamespace → Time → String → String → String → ChainNamespace
unfolding set_condition ready_condition
with_status ns now status message tx_id = record ns {
  status = record {
    status = status;
    message = message;
    tx_id = tx_id;
    conditions = set_condition (ready_condition ns now status message) ns.status.conditions;
  };
}

module _ (env : Env) where
  -- `updateStatus`
  unfoldable pub update_status :
      ChainNamespace → String → String → String → Act Event (Outcome (Unit {0}))
  update_status ns status message tx_id = do
    now ← call env.now read_clock
    let changed = with_status ns now status message tx_id
    written ← call (env.update_status changed) (updated_status changed)
    _ ← check written (λ e. pure (err e))
    pure (ok tt)

set_condition_lem :
    (j : String) (new : Condition) (cs : List Condition)
    → find_condition j (set_condition new cs)
      ≡ (if new.type == j then some new else find_condition j cs)
unfolding set_condition find_condition
set_condition_lem j new [] = refl
set_condition_lem j new (c ∷ cs) =
    ground (
      arith,
      set_condition_lem j new cs,
      eq_iff c.type new.type,
      eq_iff c.type j,
      eq_iff new.type j,
    )

-- The status that `updateStatus` sends has the status, the message and the transaction ID that were
-- asked for, and, for a reader, as its condition of type "Ready" one that is "False" if the status is
-- "Failed" and "True" otherwise, made now, of the object's generation, with the status as its reason
-- and the message; every other condition and the rest of the object are as they were.
pub with_status_lem :
    (ns : ChainNamespace) (now : Time) (status message tx_id j : String)
    → let sent = with_status ns now status message tx_id in
      (sent.status.status ≡ status)
      × (sent.status.message ≡ message)
      × (sent.status.tx_id ≡ tx_id)
      × (find_condition j sent.status.conditions ≡ (
          if "Ready" == j
          then some (record {
            type = "Ready";
            status = if status == "Failed" then "False" else "True";
            observed_generation = ns.meta.generation;
            last_transition_time = now;
            reason = status;
            message = message;
          })
          else find_condition j ns.status.conditions))
      × (sent.spec ≡ ns.spec)
      × (sent.meta ≡ ns.meta)
unfolding with_status ready_condition
with_status_lem ns now status message tx_id j = (
  refl,
  refl,
  refl,
  set_condition_lem j (ready_condition ns now status message) ns.status.conditions,
  refl,
  refl,
)
