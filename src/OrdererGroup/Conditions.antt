-- ===== src/OrdererGroup/Conditions.antt =====
-- The condition that `updateOrdererGroupStatus` writes.
use fabric_x_operator.Prelude.{
  String, ◌≡◌, refl, Option, none, some, List, [], ◌∷◌, ◌==◌, arith, if◌then◌else◌, nat_eq, ◌&&◌,
}
use fabric_x_operator.Kube.{Time}
use fabric_x_operator.Utils.Conditions.{Condition, find_condition}
use fabric_x_operator.Api.Nil.{elements}
use fabric_x_operator.Api.Orderer.{OrdererGroup}
use fabric_x_operator.OrdererGroup.Status.{ready_time, or_now, with_status}

-- The instant to report for a Ready condition: that of the earlier one where the condition stays
-- true in the status "RUNNING", unless it is the zero time.
unfoldable pub kept_time : Time → String → Option Condition → Time
kept_time now status none = now
kept_time now status (some c) =
    if (status == "RUNNING") && (c.status == "True")
    then (if nat_eq c.last_transition_time 0 then now else c.last_transition_time)
    else now

kept_time-ready_time :
    (now : Time) (status : String) (cs : List Condition)
    → or_now now (ready_time now status cs) ≡ kept_time now status (find_condition "Ready" cs)
unfolding ready_time find_condition kept_time
kept_time-ready_time now status [] = refl
kept_time-ready_time now status (c ∷ cs) = ground (arith, kept_time-ready_time now status cs)

-- A status that is written holds one condition, the type "Ready", and it is "True" whatever the
-- status is, "FAILED" included. Its transition time is that of the Ready condition before, if that
-- was "True", the status is "RUNNING" and the time was not zero, and the present otherwise.
pub with_status-kept_time :
    (g : OrdererGroup) (now : Time) (status message : String)
    → (with_status g now status message).status.conditions
      ≡ some (
          record {
            type = "Ready";
            status = "True";
            observed_generation = 0;
            last_transition_time =
                kept_time now status (find_condition "Ready" (elements g.status.conditions));
            reason = "Reconciled";
            message = message;
          }
          ∷ [])
unfolding with_status
with_status-kept_time g now status message =
    let t = kept_time-ready_time now status (elements g.status.conditions) in cc
