-- ===== src/Identity/Status.antt =====
-- The three status writers. Each fetches the Identity again and writes on that copy.
use fabric_x_operator.Prelude.{String, Option}
use fabric_x_operator.Go.{Outcome, ok, err}
use fabric_x_operator.Go.Act.{Act, ◌>>=◌, pure, call, check}
use fabric_x_operator.Kube.{Time, CtrlResult, done, key_of}
use fabric_x_operator.Identity.Types.{Identity, Status}
use fabric_x_operator.Identity.Env.{Env, Event, got_identity, updated_status}

module _ (env : Env) where
  -- The common part: refetch, change the status by `change`, write it.
  abbrev pub write_status : (Status → Status) → Identity → Act Event (Outcome CtrlResult)
  write_status change identity = do
    let key = key_of identity.meta
    got ← call (env.get_identity key) (got_identity key)
    fresh ← check got (λ e. pure (err e))
    let changed : Identity = record fresh { status = change fresh.status }
    written ← call (env.update_status changed) (updated_status changed)
    _ ← check written (λ e. pure (err e))
    pure (ok done)

  unfoldable pub update_status : Identity → String → String → Act Event (Outcome CtrlResult)
  update_status identity status message =
      write_status (λ s. record s { status = status; message = message }) identity

  unfoldable pub update_status_with_time :
      Identity → String → String → Option Time → Act Event (Outcome CtrlResult)
  update_status_with_time identity status message time =
      write_status (λ s. record s { status = status; message = message; enrollment_time = time })
        identity

  unfoldable pub update_status_with_certs :
      Identity
      → String
      → String
      → Option Time
      → Option Time
      → Option Time
      → Act Event (Outcome CtrlResult)
  update_status_with_certs identity status message time cert_expiry tls_cert_expiry =
      write_status
        (λ s. record s {
          status = status;
          message = message;
          enrollment_time = time;
          certificate_expiry = cert_expiry;
          tls_certificate_expiry = tls_cert_expiry;
        })
        identity
