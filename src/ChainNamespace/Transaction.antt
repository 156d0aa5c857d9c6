-- ===== src/ChainNamespace/Transaction.antt =====
-- The namespace transaction and its signed envelope.
use fabric_x_operator.Prelude.{ℕ, String, Option, none, some, List, [], ◌∷◌}
use fabric_x_operator.Go.{ℤ, pos, negsuc, Bytes, Outcome, ok, err, wrap}
use fabric_x_operator.Go.Act.{Act, ◌>>=◌, pure, call, check, invoke}
use fabric_x_operator.ChainNamespace.Types.{
  Ref, ReadWrite, TxNamespace, Endorsement, Tx, SerializedIdentity, Header, Envelope,
}
use fabric_x_operator.ChainNamespace.Env.{Env, Event, serialized, made_signature_header, signed}

-- `if nsVersion >= 0 { rw.Version = uint64(nsVersion) }`
abbrev pub version_of : ℤ → Option ℕ
version_of (pos n) = some n
version_of (negsuc n) = none

module _ (env : Env) where
  -- `extractPublicPem`
  unfoldable pub extract_public_pem : Ref → Act Event (Outcome Bytes)
  extract_public_pem signer = do
    got ← call (env.serialize signer) (serialized signer)
    sid_bytes ← check got (λ e. pure (err e))
    sid ← check (env.unmarshal_identity sid_bytes) (λ e. pure (err e))
    pure (ok sid.id_bytes)

  -- `createNamespacesTx`
  unfoldable pub create_namespaces_tx : String → Bytes → String → ℤ → Tx
  create_namespaces_tx policy_scheme policy ns_id ns_version =
      let policy_bytes =
        env.marshal_policy (record { scheme = policy_scheme; public_key = policy }) in
      let rw : ReadWrite = record {
        key = env.bytes_of ns_id;
        value = policy_bytes;
        version = version_of ns_version;
      } in
      let write_to_meta_ns : TxNamespace = record {
        ns_id = env.meta_namespace_id;
        ns_version = 0;
        read_writes = rw ∷ [];
      } in
      record { namespaces = write_to_meta_ns ∷ []; endorsements = [] }

  -- The loop of `createSignedEnvelope`, which endorses one namespace after the other.
  unfoldable pub endorse :
      Ref
      → SerializedIdentity
      → String
      → List TxNamespace
      → Act Event (Outcome (List (List Endorsement)))
  endorse signer sid tx_id [] = pure (ok [])
  endorse signer sid tx_id (ns ∷ rest) = do
    msg ← check (env.asn1_marshal ns tx_id) (λ e. pure (err (wrap "failed asn1 marshal tx" e)))
    answer ← call (env.sign signer msg) (signed signer msg)
    sig ← check answer (λ e. pure (err (wrap "failed signing tx" e)))
    others ← invoke (endorse signer sid tx_id rest)
    more ← check others (λ e. pure (err e))
    let e : Endorsement = record { endorsement = sig; msp_id = sid.msp_id; id_bytes = sid.id_bytes }
    pure (ok ((e ∷ []) ∷ more))

  -- `createEnvelope`, whose signer is always given.
  unfoldable pub create_envelope : Ref → Header → Bytes → Act Event (Outcome Envelope)
  create_envelope signer hdr contents = do
    let payload = env.marshal_payload hdr contents
    answer ← call (env.sign signer payload) (signed signer payload)
    sig ← check answer (λ e. pure (err e))
    pure (ok (record { payload = payload; signature = sig }))

  -- `createSignedEnvelope`
  unfoldable pub create_signed_envelope :
      Ref → String → Tx → Act Event (Outcome (Envelope × String))
  unfolding endorse create_envelope
  create_signed_envelope signer channel tx = do
    signature_hdr ← call (env.new_signature_header signer) (made_signature_header signer)
    let tx_id = env.compute_tx_id signature_hdr.nonce signature_hdr.creator
    got ← call (env.serialize signer) (serialized signer)
    creator ← check got (λ e. pure (err (wrap "failed to serialize signer identity" e)))
    sid ←
        check (env.unmarshal_identity creator)
          λ e. pure (err (wrap "failed to unmarshal serialized identity" e))
    endorsed ← invoke (endorse signer sid tx_id tx.namespaces)
    endorsements ← check endorsed (λ e. pure (err e))
    let hdr : Header = record { channel = channel; tx_id = tx_id; signature_header = signature_hdr }
    let tx_bytes = env.marshal_tx (record tx { endorsements = endorsements })
    made ← invoke (create_envelope signer hdr tx_bytes)
    envelope ← check made (λ e. pure (err e))
    pure (ok (envelope, tx_id))
