-- ===== src/OrdererGroup/Status.antt =====
-- `updateOrdererGroupStatus`.
use fabric_x_operator.Prelude.{
  String, not, ◌&&◌, ◌||◌, Option, none, some, List, [], ◌∷◌, ◌==◌, if◌then◌else◌, nat_eq,
}
use fabric_x_operator.Go.Act.{Act, ◌>>=◌, pure, call}
use fabric_x_operator.Kube.{Time, answered}
use fabric_x_operator.Utils.Conditions.{Condition}
use fabric_x_operator.Api.Nil.{elements}
use fabric_x_operator.Api.Orderer.{OrdererGroup}
use fabric_x_operator.OrdererGroup.Env.{Env, Event, updated_status, read_clock}

-- The loop that looks for the Ready condition; none is Go's zero time, of a condition that is not
-- found.
unfoldable pub ready_time : Time → String → List Condition → Option Time
ready_time now status [] = none
ready_time now status (c ∷ cs) =
    if c.type == "Ready"
    then some
        (if (c.status == "True") && (status == "RUNNING") then c.last_transition_time else now)
    else ready_time now status cs

-- `if lastTransitionTime.IsZero() { lastTransitionTime = now }`, where a condition may hold the
-- zero time too.
abbrev pub or_now : Time → Option Time → Time
or_now now none = now
or_now now (some t) = if nat_eq t 0 then now else t

unfoldable pub with_status : OrdererGroup → Time → String → String → OrdererGroup
unfolding ready_time
with_status g now status message =
    let ready : Condition = record {
      type = "Ready";
      status = "True";
      observed_generation = 0;
      last_transition_time = or_now now (ready_time now status (elements g.status.conditions));
      reason = "Reconciled";
      message = message;
    } in
    record g {
      status = record g.status {
        status = status;
        message = message;
        conditions = some (ready ∷ []);
      };
    }

module _ (env : Env) where
  -- It returns the object that its caller goes on with; a failed write is only logged.
  unfoldable pub update_status : OrdererGroup → String → String → Act Event OrdererGroup
  update_status g status message =
      if not (g.status.status == status) || not (g.status.message == message)
      then (do
        now ← call env.now read_clock
        let changed = with_status g now status message
        written ← call (env.update_status changed) (updated_status changed)
        pure (answered changed written))
      else pure g
