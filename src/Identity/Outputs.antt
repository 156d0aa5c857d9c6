-- ===== src/Identity/Outputs.antt =====
-- The consolidated X.509 secret, against the validation that the next run applies to it.
use fabric_x_operator.Prelude.{◌≡◌, false, Option, some, [], arith}
use fabric_x_operator.Go.{Bytes, ok, is_empty}
use fabric_x_operator.Kube.{Certificate, PemBlock}
use fabric_x_operator.Identity.Env.{Env}
use fabric_x_operator.Identity.Secrets.{output_contents, validate_contents}

abbrev pub certificate_block : Bytes → PemBlock
certificate_block b = record { type = "CERTIFICATE"; bytes = b }

-- What encoding/pem documents of `Encode` and `Decode`: a block that was encoded is decoded again,
-- and its encoding is not empty.
pub record PemLaws (env : Env) : Type 0 where
  pub decode-encode :
      (b : Bytes)
      → env.pki.decode (env.pki.encode (certificate_block b)) ≡ some (certificate_block b, [])
  pub encode-ne_nil : (b : Bytes) → is_empty (env.pki.encode (certificate_block b)) ≡ false

-- The consolidated secret that is written for a certificate that x509 parses, with a key that is
-- not empty and any TLS material, passes the validation of the next run. PEM encoding is assumed to
-- be undone by decoding, and not to be empty.
pub validate-output_contents :
    (env : Env)
    → PemLaws env
    → (cert root key : Bytes) (parsed : Certificate) → env.pki.parse_certificate cert ≡ ok parsed
    → is_empty key ≡ false
    → (tls_cert tls_key tls_ca : Option Bytes)
    → validate_contents env false (
        output_contents
          (env.pki.encode (certificate_block cert))
          key
          (env.pki.encode (certificate_block root))
          tls_cert
          tls_key
          tls_ca)
      ≡ ok tt
unfolding validate_contents output_contents
validate-output_contents env laws cert root key parsed p k tc tk ta =
    ground (arith, laws.decode-encode cert, laws.encode-ne_nil cert, laws.encode-ne_nil root)
