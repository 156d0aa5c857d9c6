-- ===== src/Identity/Env.antt =====
-- What the Identity reconciler calls: each call is answered from the history of the calls before it.
-- `certs.EnrollUser` and `idemix.Enroll` stand for the fabric-ca client under them: the panic of
-- `EnrollUser` on a nil client and the temporary files that it leaves are not modelled here.
use fabric_x_operator.Prelude.{String, List}
use fabric_x_operator.Go.{Bytes, Outcome}
use fabric_x_operator.Kube.{Time, NamespacedName, Secret, ControllerUtil, Pki}
use fabric_x_operator.Identity.Types.{
  Identity, Ca, X509Request, EnrolledUser, IdemixRequest, IdemixResponse, DirEntry,
}

pub data Event : Type 0 where
  got_identity : NamespacedName → Outcome Identity → Event
  got_ca : NamespacedName → Outcome Ca → Event
  got_secret : NamespacedName → Outcome Secret → Event
  updated_identity : Identity → Outcome Identity → Event
  updated_status : Identity → Outcome Identity → Event
  created_secret : Secret → Outcome Secret → Event
  updated_secret : Secret → Outcome Secret → Event
  enrolled_user : X509Request → Outcome EnrolledUser → Event
  enrolled_idemix : IdemixRequest → Outcome IdemixResponse → Event
  made_temp_dir : Outcome String → Event
  wrote_file : String → Bytes → Outcome (Unit {0}) → Event
  listed_dir : String → Outcome (List DirEntry) → Event
  read_file : String → Outcome Bytes → Event
  -- `os.RemoveAll` was called; the code ignores its error.
  removed_all : String → Event
  read_clock : Time → Event

pub record Env : Type 0 where
  pub get_identity : NamespacedName → List Event → Outcome Identity
  pub get_ca : NamespacedName → List Event → Outcome Ca
  pub get_secret : NamespacedName → List Event → Outcome Secret
  pub update_identity : Identity → List Event → Outcome Identity
  pub update_status : Identity → List Event → Outcome Identity
  pub create_secret : Secret → List Event → Outcome Secret
  pub update_secret : Secret → List Event → Outcome Secret
  pub enroll_user : X509Request → List Event → Outcome EnrolledUser
  pub enroll_idemix : IdemixRequest → List Event → Outcome IdemixResponse
  pub mkdir_temp : List Event → Outcome String
  pub write_file : String → Bytes → List Event → Outcome (Unit {0})
  pub read_dir : String → List Event → Outcome (List DirEntry)
  pub read_file : String → List Event → Outcome Bytes
  pub now : List Event → Time
  pub encode_private_key : Bytes → Outcome Bytes
  pub util : ControllerUtil
  pub pki : Pki
