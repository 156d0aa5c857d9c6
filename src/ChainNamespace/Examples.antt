-- ===== src/ChainNamespace/Examples.antt =====
-- A deployment in a small cluster, and the theorems there.
use Prim.Native.String.{◌++◌}
use fabric_x_operator.Prelude.{
  ℕ, suc, ◌<◌, String, ◌≡◌, ◌↔◌, refl, ap, false, Option, none, some, List, [], ◌∷◌, if◌then◌else◌,
  length, arith, nat_eq,
}
use mathlib.Core.Path.{subst}
use fabric_x_operator.Go.{negsuc, Bytes, ok, lookup}
use fabric_x_operator.Go.Act.{deferred}
use fabric_x_operator.Kube.{ObjectMeta, Secret, NamespacedName, ControllerUtil, Pki, PemBlock, done}
use fabric_x_operator.Identity.Types.{Identity}
use fabric_x_operator.Utils.Conditions.{find_condition}
use fabric_x_operator.ChainNamespace.Types.{ChainNamespace}
use fabric_x_operator.ChainNamespace.Env.{Env, Event, updated_status}
use fabric_x_operator.ChainNamespace.Conditions.{with_status, with_status_lem, update_status}
use fabric_x_operator.ChainNamespace.Validation.{
  validate_namespace, IsDeployable, validate_namespace_lem,
}
use fabric_x_operator.ChainNamespace.PublicKey.{
  key_of_block, get_pub_key_from_pem_data, DecodeShrinks, IsRight, get_pub_key_from_pem_data_lem,
}
use fabric_x_operator.ChainNamespace.Transaction.{
  extract_public_pem, create_namespaces_tx, create_signed_envelope,
}
use fabric_x_operator.ChainNamespace.Msp.{setup_msp_from_identity, get_secret_data}
use fabric_x_operator.ChainNamespace.Broadcast.{broadcast}
use fabric_x_operator.ChainNamespace.Reconcile.{reconcile}
use fabric_x_operator.ChainNamespace.Confirmed.{Truthful}
use fabric_x_operator.ChainNamespace.Deployed.{Settled, reconcile-Truthful, reconcile-Settled}

abbrev key : NamespacedName
key = record { name = "token"; namespace = "org1" }

abbrev meta : String → ObjectMeta
meta name = record {
  name = name;
  namespace = "org1";
  labels = [];
  finalizers = [];
  uid = "";
  owners = [];
  deleted = false;
  generation = 1;
}

abbrev token : ChainNamespace
token = record {
  meta = meta "token";
  spec = record {
    name = "token";
    orderer = "orderer:7050";
    tls = none;
    msp_id = "Org1MSP";
    identity = record { name = "admin"; namespace = "org1"; key = "" };
    channel = "";
    verification_key_path = "";
    version = negsuc 0;
  };
  status = record { status = ""; message = ""; tx_id = ""; conditions = [] };
}

abbrev admin : Identity
admin = record {
  meta = meta "admin";
  spec = record {
    msp_id = "Org1MSP";
    enrollment = none;
    output = record { secret_name = "admin-out"; labels = [] };
  };
  status = record {
    status = "READY";
    message = "";
    enrollment_time = none;
    certificate_expiry = none;
    tls_certificate_expiry = none;
    output_secrets = record {
      sign_cert = "";
      sign_key = "";
      sign_ca_cert = "";
      tls_cert = "";
      tls_key = "";
      tls_ca_cert = "";
      idemix_cred = "";
    };
  };
}

abbrev admin_secret : Secret
admin_secret = record {
  meta = meta "admin-out";
  type = "Opaque";
  contents = ("cert.pem", 1 ∷ []) ∷ ("key.pem", 2 ∷ []) ∷ ("cacert.pem", 3 ∷ []) ∷ [];
}

abbrev util : ControllerUtil
util = record {
  contains_finalizer = λ m f. false;
  add_finalizer = λ m f. m;
  remove_finalizer = λ m f. m;
  set_controller_reference = λ owner m. ok m;
}

-- PEM in this cluster: one byte for each block, of which 7 is a public key.
abbrev block_of : ℕ → PemBlock
block_of n = record { type = if nat_eq n 7 then "PUBLIC KEY" else "COMMENT"; bytes = n ∷ [] }

abbrev unpem : Bytes → Option (PemBlock × Bytes)
unpem [] = none
unpem (x ∷ b) = some (block_of x, b)

abbrev pki : Pki
pki = record {
  decode = unpem;
  encode = λ b. 45 ∷ b.bytes;
  parse_certificate = λ b. ok (record { raw = b; not_after = 900 });
}

-- Everything works, and the orderer answers 200.
abbrev env : Env
env = record {
  get_namespace = λ k h. ok token;
  get_identity = λ k h. ok admin;
  get_secret = λ k h. ok admin_secret;
  update_namespace = λ n h. ok n;
  update_status = λ n h. ok n;
  mkdir_temp = λ h. ok "/tmp/n";
  mkdir_all = λ p h. ok tt;
  write_file = λ p b h. ok tt;
  read_file = λ p h. ok [];
  get_local_msp_config = λ p m h. ok 1;
  new_key_store = λ p h. ok 2;
  new_provider = λ k h. ok 3;
  new_msp = λ p h. ok 4;
  setup = λ m c h. ok tt;
  get_default_signing_identity = λ m h. ok 5;
  serialize = λ s h. ok (6 ∷ 7 ∷ []);
  new_signature_header = λ s h. record { creator = 6 ∷ []; nonce = 8 ∷ [] };
  sign = λ s b h. ok (9 ∷ []);
  dial = λ a o h. ok 10;
  broadcast_client = λ c h. ok 11;
  send = λ s e h. ok tt;
  recv = λ s h. ok 200;
  now = λ h. 100;
  identifier = λ s. "admin";
  bytes_of = λ s. [];
  join = λ a b. a ++ "/" ++ b;
  unmarshal_identity = λ b. ok (record { msp_id = "Org1MSP"; id_bytes = b });
  compute_tx_id = λ n c. "tx1";
  marshal_policy = λ p. p.public_key;
  marshal_tx = λ t. [];
  marshal_payload = λ h b. b;
  asn1_marshal = λ n t. ok [];
  status_name = λ s. "status";
  meta_namespace_id = "_meta";
  success = 200;
  marshal_public_key = λ c. ok c.raw;
  parse_public_key = λ b. ok tt;
  util = util;
  pki = pki;
}

abbrev statuses : List Event → List (String × String)
statuses [] = []
statuses (updated_status n r ∷ h) = (n.status.status, n.status.tx_id) ∷ statuses h
statuses (_ ∷ h) = statuses h

-- A deployment ends without an error and writes one status.
deploys :
    ((reconcile env key []).0 ≡ ok done)
    × (statuses (reconcile env key []).1 ≡ ("Deployed", "tx1") ∷ [])
unfolding reconcile update_status with_status validate_namespace get_pub_key_from_pem_data
    key_of_block extract_public_pem create_namespaces_tx create_signed_envelope
    setup_msp_from_identity get_secret_data broadcast deferred lookup
deploys = (refl, refl)

reconcile-Truthful_example : Truthful env (reconcile env key []).1
reconcile-Truthful_example = reconcile-Truthful env key

reconcile-Settled_example : (done ≡ done) × Settled key (reconcile env key []).1
reconcile-Settled_example = reconcile-Settled env key done deploys.0

shrinks : DecodeShrinks env
shrinks [] rest block e = cc
shrinks (x ∷ b) rest block e = subst (λ r. length r < suc (length b)) (ap tail_of e) (omega arith)
  where
    tail_of : Option (PemBlock × Bytes) → Bytes
    tail_of none = b
    tail_of (some (block, r)) = r

get_pub_key_from_pem_data_lem_example :
    IsRight env (6 ∷ 7 ∷ []) (get_pub_key_from_pem_data env (6 ∷ 7 ∷ []))
get_pub_key_from_pem_data_lem_example = get_pub_key_from_pem_data_lem env shrinks (6 ∷ 7 ∷ [])

with_status_lem_example :
    let sent = with_status token 100 "Failed" "m" "" in
    (sent.status.status ≡ "Failed")
    × (sent.status.message ≡ "m")
    × (sent.status.tx_id ≡ "")
    × (find_condition "Ready" sent.status.conditions
        ≡ some (record {
          type = "Ready";
          status = "False";
          observed_generation = token.meta.generation;
          last_transition_time = 100;
          reason = "Failed";
          message = "m";
        }))
    × (sent.spec ≡ token.spec)
    × (sent.meta ≡ token.meta)
with_status_lem_example = with_status_lem token 100 "Failed" "m" "" "Ready"

validate_namespace_lem_example : (validate_namespace token ≡ ok tt) ↔ IsDeployable token
validate_namespace_lem_example = validate_namespace_lem token
