-- ===== src/ChainNamespace/Broadcast.antt =====
-- `broadcast`.
use Prim.Native.String.{◌++◌}
use fabric_x_operator.Prelude.{Option, none, some, [], ◌∷◌, if◌then◌else◌, nat_eq}
use fabric_x_operator.Go.{Outcome, ok, err, new_error, wrap}
use fabric_x_operator.Go.Act.{Act, ◌>>=◌, pure, call, check, invoke, deferred}
use fabric_x_operator.ChainNamespace.Types.{
  Ref, ChainNamespace, NamespaceTls, SecretKeyRef, SecureOptions, Envelope,
}
use fabric_x_operator.ChainNamespace.Env.{Env, Event, dialed, opened_stream, sent, received, closed}
use fabric_x_operator.ChainNamespace.Msp.{get_secret_data}

-- The reference to the CA certificate, where TLS is enabled. `validateNamespace` does not let the
-- nil pointer pass that the zero reference stands for here.
abbrev no_ref : SecretKeyRef
no_ref = record { name = ""; namespace = ""; key = "" }

abbrev ref_or_zero : Option SecretKeyRef → SecretKeyRef
ref_or_zero none = no_ref
ref_or_zero (some r) = r

abbrev pub tls_ref : Option NamespaceTls → Option SecretKeyRef
tls_ref none = none
tls_ref (some tls) = if tls.enabled then some (ref_or_zero tls.ca_cert) else none

module _ (env : Env) where
  unfoldable pub secure_options : Option SecretKeyRef → Act Event (Outcome SecureOptions)
  secure_options none = pure (ok none)
  secure_options (some ref) = do
    got ← invoke (get_secret_data env ref.name ref.namespace ref.key)
    ca_cert ← check got (λ e. pure (err (wrap "failed to get TLS CA certificate" e)))
    pure (ok (some (ca_cert ∷ [])))

  -- What is done on the connection.
  unfoldable pub broadcast_on : Ref → Envelope → Act Event (Outcome (Unit {0}))
  broadcast_on conn envelope = do
    opened ← call (env.broadcast_client conn) (opened_stream conn)
    abc ← check opened (λ e. pure (err (wrap "cannot create broadcast client" e)))
    sending ← call (env.send abc envelope) (sent abc envelope)
    _ ← check sending (λ e. pure (err (wrap "failed to send envelope" e)))
    answer ← call (env.recv abc) (received abc)
    status ← check answer (λ e. pure (err (wrap "failed to receive response" e)))
    (if nat_eq status env.success
        then pure (ok tt)
        else pure (err (new_error ("broadcast failed with status: " ++ env.status_name status))))

  -- `broadcast`; the connection is closed on every path.
  unfoldable pub broadcast : ChainNamespace → Envelope → Act Event (Outcome (Unit {0}))
  unfolding secure_options broadcast_on
  broadcast ns envelope = do
    options ← invoke (secure_options (tls_ref ns.spec.tls))
    sec_opts ← check options (λ e. pure (err e))
    dialing ← call (env.dial ns.spec.orderer sec_opts) (dialed ns.spec.orderer sec_opts)
    conn ← check dialing (λ e. pure (err (wrap "cannot dial orderer" e)))
    deferred (broadcast_on conn envelope) (λ h. closed conn ∷ h)
