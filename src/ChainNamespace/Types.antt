-- ===== src/ChainNamespace/Types.antt =====
-- The ChainNamespace resource (api/v1alpha1/namespace_types.go), and the messages of a namespace
-- transaction as the reconciler fills them in.
use fabric_x_operator.Prelude.{ℕ, String, Bool, Option, List}
use fabric_x_operator.Go.{Bytes, ℤ}
use fabric_x_operator.Kube.{ObjectMeta}
use fabric_x_operator.Utils.Conditions.{Condition}

-- `SecretKeyRef`
pub record SecretKeyRef : Type 0 where
  pub name : String
  pub namespace : String
  pub key : String

-- `NamespaceTLS`
pub record NamespaceTls : Type 0 where
  pub enabled : Bool
  pub ca_cert : Option SecretKeyRef

-- `NamespaceSpec`
pub record NamespaceSpec : Type 0 where
  pub name : String
  pub orderer : String
  pub tls : Option NamespaceTls
  pub msp_id : String
  pub identity : SecretKeyRef
  pub channel : String
  pub verification_key_path : String
  pub version : ℤ

-- `NamespaceStatus`
pub record NamespaceStatus : Type 0 where
  pub status : String
  pub message : String
  pub tx_id : String
  pub conditions : List Condition

-- `ChainNamespace`
pub record ChainNamespace : Type 0 where
  pub meta : ObjectMeta
  pub spec : NamespaceSpec
  pub status : NamespaceStatus

-- A Go interface value that is only passed on: a connection, a stream, an MSP, a signer.
abbrev pub Ref : Type 0
Ref = ℕ

-- `applicationpb.NamespacePolicy` with its threshold rule
pub record NamespacePolicy : Type 0 where
  pub scheme : String
  pub public_key : Bytes

-- `applicationpb.ReadWrite`
pub record ReadWrite : Type 0 where
  pub key : Bytes
  pub value : Bytes
  pub version : Option ℕ

-- `applicationpb.TxNamespace`
pub record TxNamespace : Type 0 where
  pub ns_id : String
  pub ns_version : ℕ
  pub read_writes : List ReadWrite

-- `applicationpb.EndorsementWithIdentity`, with the MSP ID and the certificate of its identity
pub record Endorsement : Type 0 where
  pub endorsement : Bytes
  pub msp_id : String
  pub id_bytes : Bytes

-- `applicationpb.Tx`; each entry of `endorsements` is the list of one namespace.
pub record Tx : Type 0 where
  pub namespaces : List TxNamespace
  pub endorsements : List (List Endorsement)

-- `fabricmsp.SerializedIdentity`
pub record SerializedIdentity : Type 0 where
  pub msp_id : String
  pub id_bytes : Bytes

-- `cb.SignatureHeader`
pub record SignatureHeader : Type 0 where
  pub creator : Bytes
  pub nonce : Bytes

-- `cb.Header`: the channel header of `MakeChannelHeader(cb.HeaderType_MESSAGE, 0, channel, 0)` with
-- its `TxId`, and the signature header.
pub record Header : Type 0 where
  pub channel : String
  pub tx_id : String
  pub signature_header : SignatureHeader

-- `cb.Envelope`
pub record Envelope : Type 0 where
  pub payload : Bytes
  pub signature : Bytes

-- `comm.SecureOptions`: the root certificates, if TLS is used
abbrev pub SecureOptions : Type 0
SecureOptions = Option (List Bytes)
