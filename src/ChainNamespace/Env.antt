-- ===== src/ChainNamespace/Env.antt =====
-- What the ChainNamespace reconciler calls. Calls that reach outside are answered from the history
-- of the calls before them; conversions of data are functions. A panic of one of protoutil's
-- `…OrPanic` functions ends the process and is no answer.
use fabric_x_operator.Prelude.{ℕ, String, List}
use fabric_x_operator.Go.{Bytes, Outcome}
use fabric_x_operator.Kube.{Time, NamespacedName, Secret, ControllerUtil, Pki, Certificate}
use fabric_x_operator.Identity.Types.{Identity}
use fabric_x_operator.ChainNamespace.Types.{
  Ref, ChainNamespace, NamespacePolicy, TxNamespace, Tx, SerializedIdentity, SignatureHeader,
  Header, Envelope, SecureOptions,
}

pub data Event : Type 0 where
  got_namespace : NamespacedName → Outcome ChainNamespace → Event
  got_identity : NamespacedName → Outcome Identity → Event
  got_secret : NamespacedName → Outcome Secret → Event
  updated_namespace : ChainNamespace → Outcome ChainNamespace → Event
  updated_status : ChainNamespace → Outcome ChainNamespace → Event
  made_temp_dir : Outcome String → Event
  made_dir : String → Outcome (Unit {0}) → Event
  wrote_file : String → Bytes → Outcome (Unit {0}) → Event
  read_file : String → Outcome Bytes → Event
  got_msp_config : String → String → Outcome Ref → Event
  made_key_store : String → Outcome Ref → Event
  made_provider : Ref → Outcome Ref → Event
  made_msp : Ref → Outcome Ref → Event
  set_up_msp : Ref → Ref → Outcome (Unit {0}) → Event
  got_signer : Ref → Outcome Ref → Event
  serialized : Ref → Outcome Bytes → Event
  made_signature_header : Ref → SignatureHeader → Event
  signed : Ref → Bytes → Outcome Bytes → Event
  dialed : String → SecureOptions → Outcome Ref → Event
  opened_stream : Ref → Outcome Ref → Event
  sent : Ref → Envelope → Outcome (Unit {0}) → Event
  received : Ref → Outcome ℕ → Event
  closed : Ref → Event
  read_clock : Time → Event

pub record Env : Type 0 where
  pub get_namespace : NamespacedName → List Event → Outcome ChainNamespace
  pub get_identity : NamespacedName → List Event → Outcome Identity
  pub get_secret : NamespacedName → List Event → Outcome Secret
  pub update_namespace : ChainNamespace → List Event → Outcome ChainNamespace
  pub update_status : ChainNamespace → List Event → Outcome ChainNamespace
  pub mkdir_temp : List Event → Outcome String
  pub mkdir_all : String → List Event → Outcome (Unit {0})
  pub write_file : String → Bytes → List Event → Outcome (Unit {0})
  pub read_file : String → List Event → Outcome Bytes
  pub get_local_msp_config : String → String → List Event → Outcome Ref
  pub new_key_store : String → List Event → Outcome Ref
  pub new_provider : Ref → List Event → Outcome Ref
  pub new_msp : Ref → List Event → Outcome Ref
  pub setup : Ref → Ref → List Event → Outcome (Unit {0})
  pub get_default_signing_identity : Ref → List Event → Outcome Ref
  pub serialize : Ref → List Event → Outcome Bytes
  pub new_signature_header : Ref → List Event → SignatureHeader
  pub sign : Ref → Bytes → List Event → Outcome Bytes
  pub dial : String → SecureOptions → List Event → Outcome Ref
  pub broadcast_client : Ref → List Event → Outcome Ref
  pub send : Ref → Envelope → List Event → Outcome (Unit {0})
  pub recv : Ref → List Event → Outcome ℕ
  pub now : List Event → Time
  pub identifier : Ref → String
  pub bytes_of : String → Bytes
  pub join : String → String → String
  pub unmarshal_identity : Bytes → Outcome SerializedIdentity
  pub compute_tx_id : Bytes → Bytes → String
  pub marshal_policy : NamespacePolicy → Bytes
  pub marshal_tx : Tx → Bytes
  pub marshal_payload : Header → Bytes → Bytes
  pub asn1_marshal : TxNamespace → String → Outcome Bytes
  pub status_name : ℕ → String
  pub meta_namespace_id : String
  pub success : ℕ
  pub marshal_public_key : Certificate → Outcome Bytes
  pub parse_public_key : Bytes → Outcome (Unit {0})
  pub util : ControllerUtil
  pub pki : Pki
