-- ===== src/Identity/X509.antt =====
-- internal/enrollment/x509.go: enrollment of a signing or TLS certificate.
use fabric_x_operator.Go.{Outcome, ok, err, wrap}
use fabric_x_operator.Go.Act.{Act, ◌>>=◌, pure, call, check}
use fabric_x_operator.Identity.Types.{X509Request, X509Response}
use fabric_x_operator.Identity.Env.{Env, Event, enrolled_user}

module _ (env : Env) where
  -- `EnrollX509`
  unfoldable pub enroll_x509 : X509Request → Act Event (Outcome X509Response)
  enroll_x509 req = do
    enrolled ← call (env.enroll_user req) (enrolled_user req)
    user ← check enrolled (λ e. pure (err (wrap "failed to enroll user" e)))
    key ←
        check (env.encode_private_key user.key)
          λ e. pure (err (wrap "failed to encode private key" e))
    pure (
        ok (record {
          certificate = env.pki.encode (record { type = "CERTIFICATE"; bytes = user.cert.raw });
          private_key = key;
          ca_certificate = env.pki.encode (record { type = "CERTIFICATE"; bytes = user.root.raw });
          certificate_raw = user.cert;
        }))
