-- ===== src/CaEnrollment/Status.antt =====
-- `updateStatus`: a failed write is only logged.
use fabric_x_operator.Prelude.{String}
use fabric_x_operator.Go.Act.{Act, ◌>>=◌, pure, call}
use fabric_x_operator.Kube.{answered}
use fabric_x_operator.CaEnrollment.Types.{CaEnrollment}
use fabric_x_operator.CaEnrollment.Env.{Env, Event, updated_status}

module _ (env : Env) where
  -- It returns the object that its caller goes on with.
  unfoldable pub update_status : CaEnrollment → String → String → Act Event CaEnrollment
  update_status enrollment status message = do
    let changed : CaEnrollment = record enrollment {
      status = record enrollment.status { status = status; message = message };
    }
    written ← call (env.update_status changed) (updated_status changed)
    pure (answered changed written)
