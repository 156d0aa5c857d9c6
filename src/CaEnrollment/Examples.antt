-- ===== src/CaEnrollment/Examples.antt =====
-- Runs of the CAEnrollment reconciler in a small cluster, and the theorems there.
use Prim.Native.String.{◌++◌}
use fabric_x_operator.Prelude.{
  String, ◌≡◌, refl, Bool, true, false, Option, none, some, List, [], ◌∷◌, ◌==◌, any, if◌then◌else◌,
  eq_refl, arith,
}
use fabric_x_operator.Go.{pos, negsuc, GoError, Reason, Bytes, GoMap, Outcome, ok, err, lookup}
use fabric_x_operator.Go.Act.{deferred}
use fabric_x_operator.Kube.{
  owner_reference, ObjectMeta, Secret, NamespacedName, ControllerUtil, FinalizerLaws, Pki, PemBlock,
  Certificate,
}
use fabric_x_operator.CaEnrollment.Types.{CaEnrollment}
use fabric_x_operator.CaEnrollment.Env.{
  Env, Event, updated_enrollment, created_secret, updated_secret, updated_status,
}
use fabric_x_operator.CaEnrollment.Status.{update_status}
use fabric_x_operator.CaEnrollment.Renewal.{needs_renewal}
use fabric_x_operator.CaEnrollment.Enroll.{enroll_identity}
use fabric_x_operator.CaEnrollment.Reconcile.{finalizer, recheck, reconcile}
use fabric_x_operator.CaEnrollment.Due.{Due, Backed, reconcile-Backed}
use fabric_x_operator.CaEnrollment.Deletion.{Ordered, reconcile-Ordered}
use fabric_x_operator.CaEnrollment.Ignored.{
  with_settings, returned_with, enroll_identity-with_settings,
}

abbrev key : NamespacedName
key = record { name = "alice"; namespace = "org1" }

abbrev meta : String → Bool → ObjectMeta
meta name deleted = record {
  name = name;
  namespace = "org1";
  labels = [];
  finalizers = [];
  uid = "";
  owners = [];
  deleted = deleted;
  generation = 1;
}

abbrev enrollment : Bool → CaEnrollment
enrollment deleted = record {
  meta = meta "alice" deleted;
  spec = record {
    ca_name = "ca";
    ca_namespace = "org1";
    enroll_id = "alice";
    enroll_secret_ref = record { name = "alice-enroll"; key = "password" };
    type = "client";
    affiliation = "";
    attrs = [];
    max_enrollments = pos 1;
    output_secret_name = "alice-out";
    tls = none;
  };
  status = record {
    status = "";
    message = "";
    enrollment_time = none;
    certificate_expiry = none;
    enrollment_count = 1;
  };
}

abbrev not_there : GoError
not_there = record { reason = Reason.not_found; text = "not found" }

abbrev secret : String → GoMap Bytes → Secret
secret name contents = record { meta = meta name false; type = "Opaque"; contents = contents }

-- The cluster has an output secret only if it is given.
abbrev secret_named : Option (GoMap Bytes) → String → Outcome Secret
secret_named out name =
    if name == "alice-enroll"
    then ok (secret name (("password", 1 ∷ []) ∷ []))
    else if name == "ca-tlsca-crypto"
    then ok (secret name (("certfile", 2 ∷ []) ∷ []))
    else elim out [ none ↦ err not_there | some c ↦ ok (secret name c) ]

abbrev drop : String → List String → List String
drop f [] = []
drop f (g ∷ fs) = if g == f then drop f fs else g ∷ drop f fs

abbrev util : ControllerUtil
util = record {
  contains_finalizer = λ m f. any (λ g. g == f) m.finalizers;
  add_finalizer = λ m f. record m { finalizers = f ∷ m.finalizers };
  remove_finalizer = λ m f. record m { finalizers = drop f m.finalizers };
  set_controller_reference =
      λ owner m. ok (record m { owners = owner_reference "v1" "Owner" owner ∷ m.owners });
}

dropped : (f : String) (fs : List String) → any (λ g. g == f) (drop f fs) ≡ false
dropped f [] = refl
dropped f (g ∷ fs) = ground (arith, dropped f fs)

util_laws : FinalizerLaws util
util_laws = record {
  contains-add = λ m f. simp (eq_refl f);
  contains-remove = λ m f. dropped f m.finalizers;
}

-- A certificate in this cluster holds its expiry as its only byte.
abbrev parse : Bytes → Outcome Certificate
parse [] = err not_there
parse (t ∷ b) = ok (record { raw = t ∷ b; not_after = t })

abbrev unpem : Bytes → Option (PemBlock × Bytes)
unpem [] = none
unpem (x ∷ b) = some (record { type = "CERTIFICATE"; bytes = b }, [])

abbrev pki : Pki
pki = record { decode = unpem; encode = λ b. 45 ∷ b.bytes; parse_certificate = parse }

abbrev pub env : Bool → Option (GoMap Bytes) → Env
env deleted out = record {
  get_enrollment = λ k h. ok (enrollment deleted);
  get_ca = λ k h. ok (record { meta = meta "ca" false; ca_name = "" });
  get_secret = λ k h. secret_named out k.name;
  update_enrollment = λ i h. ok i;
  update_status = λ i h. ok i;
  create_secret = λ s h. ok s;
  update_secret = λ s h. ok s;
  delete_secret = λ k h. err not_there;
  enroll_user = λ q h. ok (record {
    cert = record { raw = 9000000 ∷ []; not_after = 9000000 };
    key = 5 ∷ [];
    root = record { raw = 9000001 ∷ []; not_after = 9000001 };
  });
  now = λ h. 100;
  encode_private_key = λ k. ok k;
  util = util;
  pki = pki;
}

abbrev writes : List Event → List String
writes [] = []
writes (created_secret s r ∷ h) = ("create " ++ s.meta.name) ∷ writes h
writes (updated_secret s r ∷ h) = ("update " ++ s.meta.name) ∷ writes h
writes (updated_status i r ∷ h) = i.status.status ∷ writes h
writes (_ ∷ h) = writes h

-- A secret whose certificate expires at the instant that is given.
abbrev expires : Bytes → Option (GoMap Bytes)
expires t = some (("cert.pem", 45 ∷ t) ∷ [])

-- A new enrollment, a renewal within the 30 days, and none at the 30 days.
runs :
    (writes (reconcile (env false none) key []).1 ≡ "Ready" ∷ "create alice-out" ∷ "Pending" ∷ [])
    × (writes (reconcile (env false (expires (2592099 ∷ []))) key []).1
        ≡ "Ready" ∷ "update alice-out" ∷ "Pending" ∷ [])
    × (writes (reconcile (env false (expires (2592100 ∷ []))) key []).1 ≡ "Ready" ∷ "Pending" ∷ [])
unfolding reconcile update_status needs_renewal enroll_identity deferred lookup
runs = (refl, refl, refl)

ends : (reconcile (env false none) key []).0 ≡ ok recheck
unfolding reconcile update_status needs_renewal enroll_identity deferred lookup
ends = refl

reconcile-Backed_example : Backed (env false none) (reconcile (env false none) key []).1
reconcile-Backed_example = reconcile-Backed (env false none) key ends

-- A CAEnrollment that is deleted and holds the finalizer.
abbrev leaving : Env
leaving = record (env true none) {
  get_enrollment = λ k h. ok (record (enrollment true) {
    meta = record (meta "alice" true) { finalizers = finalizer ∷ [] };
  });
}

-- The CAEnrollments that an update left without a finalizer.
abbrev freed : List Event → List String
freed [] = []
freed (updated_enrollment i r ∷ h) = elim i.meta.finalizers [
  | [] ↦ i.meta.name ∷ freed h
  | f ∷ fs ↦ freed h
]
freed (_ ∷ h) = freed h

frees : freed (reconcile leaving key []).1 ≡ "alice" ∷ []
unfolding reconcile update_status deferred
frees = refl

reconcile-Ordered_example : Ordered leaving (reconcile leaving key []).1
reconcile-Ordered_example = reconcile-Ordered leaving util_laws (λ m f. refl) key

enroll_identity-with_settings_example :
    enroll_identity
      (env false none)
      (with_settings (enrollment false) "peer" "org1" (negsuc 0) none)
      []
    ≡ (
      returned_with "peer" "org1"
          (negsuc 0)
          none
          (enroll_identity (env false none) (enrollment false) []).0,
      (enroll_identity (env false none) (enrollment false) []).1,
    )
enroll_identity-with_settings_example =
    enroll_identity-with_settings (env false none) "peer" "org1" (negsuc 0) none (enrollment false)
      []
