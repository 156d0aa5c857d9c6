-- ===== src/CaEnrollment/Env.antt =====
-- What the CAEnrollment reconciler calls, each call answered from the history of the calls before
-- it. `certs.EnrollUser` stands for the fabric-ca client under it: its panic on a nil client and the
-- temporary files that it leaves are not modelled here.
use fabric_x_operator.Prelude.{List}
use fabric_x_operator.Go.{Bytes, Outcome}
use fabric_x_operator.Kube.{Time, NamespacedName, Secret, ControllerUtil, Pki}
use fabric_x_operator.Identity.Types.{Ca, EnrolledUser}
use fabric_x_operator.CaEnrollment.Types.{CaEnrollment, EnrollUserRequest}

pub data Event : Type 0 where
  got_enrollment : NamespacedName → Outcome CaEnrollment → Event
  got_ca : NamespacedName → Outcome Ca → Event
  got_secret : NamespacedName → Outcome Secret → Event
  updated_enrollment : CaEnrollment → Outcome CaEnrollment → Event
  updated_status : CaEnrollment → Outcome CaEnrollment → Event
  created_secret : Secret → Outcome Secret → Event
  updated_secret : Secret → Outcome Secret → Event
  deleted_secret : NamespacedName → Outcome (Unit {0}) → Event
  enrolled_user : EnrollUserRequest → Outcome EnrolledUser → Event
  read_clock : Time → Event

pub record Env : Type 0 where
  pub get_enrollment : NamespacedName → List Event → Outcome CaEnrollment
  pub get_ca : NamespacedName → List Event → Outcome Ca
  pub get_secret : NamespacedName → List Event → Outcome Secret
  pub update_enrollment : CaEnrollment → List Event → Outcome CaEnrollment
  pub update_status : CaEnrollment → List Event → Outcome CaEnrollment
  pub create_secret : Secret → List Event → Outcome Secret
  pub update_secret : Secret → List Event → Outcome Secret
  pub delete_secret : NamespacedName → List Event → Outcome (Unit {0})
  pub enroll_user : EnrollUserRequest → List Event → Outcome EnrolledUser
  pub now : List Event → Time
  pub encode_private_key : Bytes → Outcome Bytes
  pub util : ControllerUtil
  pub pki : Pki
